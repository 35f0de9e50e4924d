-- ===== src/Itable/Load.antt =====
-- What iupdate writes, ilock reads.
use mit6_1810_why_tea_fo.Base.{
  ℕ, ◌+◌, ◌-◌, ◌*◌, ◌/◌, ◌%◌, ◌^◌, ◌<◌, ◌≡◌, ◌≢◌, refl, ◌∙◌, sym, ap, true, false, arith, ◌==◌, ltb,
  ne→==, some, eq→==, ==_refl, lt→ltb, ge→ltb,
}
use mit6_1810_why_tea_fo.Store.{update}
use mit6_1810_why_tea_fo.Fs.{Superblock, Fs}
use mit6_1810_why_tea_fo.Inode.{Inode, iblock, uint_at, dinode_byte, iupdate}
use mit6_1810_why_tea_fo.Itable.{Itable, short_at, loaded, ilock}

-- The fields have the widths that the C types give them.
pub record Fits (ip : Inode) : Type 0 where
  pub type' : ip.type' < 2 ^ 16
  pub major : ip.major < 2 ^ 16
  pub minor : ip.minor < 2 ^ 16
  pub nlink : ip.nlink < 2 ^ 16
  pub size : ip.size < 2 ^ 32
  pub addrs : (n : ℕ) → n < 13 → ip.addrs n < 2 ^ 32

pub record Agrees (ip ip' : Inode) : Type 0 where
  pub inum : ip'.inum ≡ ip.inum
  pub type' : ip'.type' ≡ ip.type'
  pub major : ip'.major ≡ ip.major
  pub minor : ip'.minor ≡ ip.minor
  pub nlink : ip'.nlink ≡ ip.nlink
  pub size : ip'.size ≡ ip.size
  pub addrs : (n : ℕ) → n < 13 → ip'.addrs n ≡ ip.addrs n

module _ (sb : Superblock) (fs : Fs) (ip : Inode) where
  abbrev bytes : ℕ → ℕ
  bytes = (iupdate sb fs ip).data' (iblock sb ip.inum)

  disk_byte : (x c : ℕ) → c < 64 → x ≡ ip.inum % 16 * 64 + c → bytes x ≡ dinode_byte ip c
  unfolding iupdate update
  disk_byte x c small e =
      let a : (x / 64 == ip.inum % 16) ≡ true = eq→== _ _ (omega arith) in
      let b : x % 64 ≡ c = omega arith in rw (==_refl (iblock sb ip.inum), a, b) refl

  addr_byte :
      (n i : ℕ) → n < 13 → i < 4 → dinode_byte ip (12 + 4 * n + i) ≡ ip.addrs n / 256 ^ i % 256
  unfolding dinode_byte
  addr_byte n i small lt =
      let a2 : ltb (12 + 4 * n + i) 2 ≡ false = ge→ltb _ _ (omega arith) in
      let a4 : ltb (12 + 4 * n + i) 4 ≡ false = ge→ltb _ _ (omega arith) in
      let a6 : ltb (12 + 4 * n + i) 6 ≡ false = ge→ltb _ _ (omega arith) in
      let a8 : ltb (12 + 4 * n + i) 8 ≡ false = ge→ltb _ _ (omega arith) in
      let a12 : ltb (12 + 4 * n + i) 12 ≡ false = ge→ltb _ _ (omega arith) in
      let j : (12 + 4 * n + i - 12) / 4 ≡ n = omega arith in
      let k : (12 + 4 * n + i) % 4 ≡ i = omega arith in rw (a2, a4, a6, a8, a12, j, k) refl

  size_byte : (i : ℕ) → i < 4 → dinode_byte ip (8 + i) ≡ ip.size / 256 ^ i % 256
  unfolding dinode_byte
  size_byte i lt =
      let a2 : ltb (8 + i) 2 ≡ false = ge→ltb _ _ (omega arith) in
      let a4 : ltb (8 + i) 4 ≡ false = ge→ltb _ _ (omega arith) in
      let a6 : ltb (8 + i) 6 ≡ false = ge→ltb _ _ (omega arith) in
      let a8 : ltb (8 + i) 8 ≡ false = ge→ltb _ _ (omega arith) in
      let a12 : ltb (8 + i) 12 ≡ true = lt→ltb _ _ (omega arith) in
      let k : 8 + i - 8 ≡ i = omega arith in rw (a2, a4, a6, a8, a12, k) refl

  short_back :
      (c v x : ℕ)
      → c + 1 < 64
      → v < 2 ^ 16
      → dinode_byte ip c ≡ v / 256 ^ 0 % 256
      → dinode_byte ip (c + 1) ≡ v / 256 ^ 1 % 256
      → x ≡ ip.inum % 16 * 64 + c
      → short_at bytes x ≡ v
  short_back c v x small lt e e' at =
      omega (
        arith,
        disk_byte x c (omega arith) at,
        disk_byte (x + 1) (c + 1) (omega arith) (omega arith),
      )

  uint_back :
      (c v k : ℕ)
      → c + 3 < 64
      → v < 2 ^ 32
      → ((i : ℕ) → i < 4 → dinode_byte ip (c + i) ≡ v / 256 ^ i % 256)
      → 4 * k ≡ ip.inum % 16 * 64 + c
      → uint_at bytes k ≡ v
  unfolding uint_at
  uint_back c v k small lt e at =
      let zero' : c + 0 ≡ c = omega arith in
      let e0 : dinode_byte ip c ≡ v / 256 ^ 0 % 256 =
        ap (dinode_byte ip) (sym zero') ∙ e 0 (omega arith) in
      let e1 = e 1 (omega arith) in
      let e2 = e 2 (omega arith) in
      let e3 = e 3 (omega arith) in
      omega (
        arith,
        disk_byte (4 * k) c (omega arith) at,
        disk_byte (4 * k + 1) (c + 1) (omega arith) (omega arith),
        disk_byte (4 * k + 2) (c + 2) (omega arith) (omega arith),
        disk_byte (4 * k + 3) (c + 3) (omega arith) (omega arith),
      )

-- The type that ilock reads of an inode that iupdate has written without one.
pub no_type_back :
    (sb : Superblock) (fs : Fs) (ip : Inode)
    → ip.type' ≡ 0
    → (loaded sb (iupdate sb fs ip) ip).type' ≡ 0
unfolding loaded dinode_byte
no_type_back sb fs ip z =
    short_back sb fs ip 0 0 (ip.inum % 16 * 64) (omega arith) (omega arith) (rw z refl) (rw z refl)
      (omega arith)

-- ilock's copy is the inode that iupdate has written.
loaded-iupdate :
    (sb : Superblock) (fs : Fs) (ip old : Inode)
    → Fits ip
    → old.inum ≡ ip.inum
    → Agrees ip (loaded sb (iupdate sb fs ip) old)
unfolding loaded dinode_byte
loaded-iupdate sb fs ip old f e =
    let short = short_back sb fs ip in
    let uint = uint_back sb fs ip in
    record {
      inum = e;
      type' =
          rw e (short 0 ip.type' (ip.inum % 16 * 64) (omega arith) f.type' refl refl (omega arith));
      major =
          rw e (
            short 2 ip.major (ip.inum % 16 * 64 + 2) (omega arith) f.major refl refl (omega arith));
      minor =
          rw e (
            short 4 ip.minor (ip.inum % 16 * 64 + 4) (omega arith) f.minor refl refl (omega arith));
      nlink =
          rw e (
            short 6 ip.nlink (ip.inum % 16 * 64 + 6) (omega arith) f.nlink refl refl (omega arith));
      size = rw e (
          uint 8 ip.size (ip.inum % 16 * 16 + 2) (omega arith) f.size (size_byte sb fs ip)
            (omega arith));
      addrs = λ n lt.
          rw (lt→ltb n 13 lt, e)
            (uint (12 + 4 * n) (ip.addrs n) (ip.inum % 16 * 16 + 3 + n) (omega arith) (f.addrs n lt)
              (λ i small. addr_byte sb fs ip n i lt small) (omega arith));
    }

-- ilock of an entry that is in use and not valid reads back from the disk the inode that iupdate has
-- written there under the entry's number, where its type is not 0 and its fields have the widths of
-- their C types. The entry is valid then, and nothing else changes.
pub ilock-iupdate :
    (sb : Superblock) (fs : Fs) (ip : Inode) (t : Itable) (i : ℕ)
    → Fits ip
    → ip.type' ≢ 0
    → 0 < (t i).ref
    → (t i).valid ≡ false
    → (t i).ip.inum ≡ ip.inum
    → (t' : Itable) × (ilock sb (iupdate sb fs ip) t i ≡ some t')
      × ((t' i).valid ≡ true)
      × ((t' i).ref ≡ (t i).ref)
      × Agrees ip (t' i).ip
      × ((j : ℕ) → j ≢ i → t' j ≡ t j)
unfolding ilock update
ilock-iupdate sb fs ip t i f ne used no' e =
    let a = loaded-iupdate sb fs ip (t i).ip f e in
    let new = loaded sb (iupdate sb fs ip) (t i).ip in
    let has : (new.type' == 0) ≡ false = ne→== _ _ (λ z. ne (sym a.type' ∙ z)) in
    let held : ltb (t i).ref 1 ≡ false = ge→ltb _ _ (omega arith) in
    (
      update t i (record (t i) { valid = true; ip = new }),
      rw (held, no', has) refl,
      rw (==_refl i) refl,
      rw (==_refl i) refl,
      rw (==_refl i) a,
      λ j other. ground arith,
    )
