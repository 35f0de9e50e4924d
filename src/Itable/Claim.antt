-- ===== src/Itable/Claim.antt =====
-- The inode that ialloc claims.
use mit6_1810_why_tea_fo.Base.{
  ℕ, ◌+◌, ◌*◌, ◌/◌, ◌%◌, ◌^◌, ◌<◌, ◌≤◌, ◌≡◌, ◌≢◌, refl, ◌∙◌, sym, true, false, arith, ◌==◌, ltb,
  if◌then◌else◌, Bool-cases, inl, inr, ==→eq, ==→ne, eq→==, ne→==, ==_refl, lt→ltb, ge→ltb,
}
use mit6_1810_why_tea_fo.Store.{update}
use mit6_1810_why_tea_fo.Fs.{Superblock, Fs}
use mit6_1810_why_tea_fo.Inode.{Inode, iblock, uint_at}
use mit6_1810_why_tea_fo.Itable.{short_at, loaded, type_at, claimed}

module _ (sb : Superblock) where
  -- the byte `c` of the inode `inum` on the disk
  abbrev pub inode_byte : Fs → (inum c : ℕ) → ℕ
  inode_byte fs inum c = fs.data' (iblock sb inum) (inum % 16 * 64 + c)

  claimed_byte :
      (fs : Fs) (inum type' x c : ℕ)
      → c < 64
      → x ≡ inum % 16 * 64 + c
      → (claimed sb fs inum type').data' (iblock sb inum) x
        ≡ (if ltb c 2 then type' / 256 ^ c % 256 else 0)
  unfolding claimed update
  claimed_byte fs inum type' x c small e =
      let a : (x / 64 == inum % 16) ≡ true = eq→== _ _ (omega arith) in
      let b : x % 64 ≡ c = omega arith in rw (==_refl (iblock sb inum), a, b) refl

  claimed_zero :
      (fs : Fs) (inum type' x c : ℕ)
      → 2 ≤ c
      → c < 64
      → x ≡ inum % 16 * 64 + c
      → (claimed sb fs inum type').data' (iblock sb inum) x ≡ 0
  claimed_zero fs inum type' x c le small e =
      let at = claimed_byte fs inum type' x c small e in
      let big : ltb c 2 ≡ false = ge→ltb _ _ le in at ∙ rw big refl

  claimed_other :
      (fs : Fs) (inum type' j c : ℕ)
      → j ≢ inum
      → c < 64
      → inode_byte (claimed sb fs inum type') j c ≡ inode_byte fs j c
  unfolding claimed update
  claimed_other fs inum type' j c ne small = ground arith

  claimed_block :
      (fs : Fs) (inum type' b : ℕ)
      → b ≢ iblock sb inum
      → (claimed sb fs inum type').data' b ≡ fs.data' b
  unfolding claimed update
  claimed_block fs inum type' b ne = let e = ne→== _ _ ne in rw e refl

  -- a short, and a uint, behind the type
  claimed_short :
      (fs : Fs) (inum type' x c : ℕ)
      → 2 ≤ c
      → c + 1 < 64
      → x ≡ inum % 16 * 64 + c
      → short_at ((claimed sb fs inum type').data' (iblock sb inum)) x ≡ 0
  claimed_short fs inum type' x c le small e = omega (
    arith,
    claimed_zero fs inum type' x c le (omega arith) e,
    claimed_zero fs inum type' (x + 1) (c + 1) (omega arith) (omega arith) (omega arith),
  )

  claimed_uint :
      (fs : Fs) (inum type' k c : ℕ)
      → 2 ≤ c
      → c + 3 < 64
      → 4 * k ≡ inum % 16 * 64 + c
      → uint_at ((claimed sb fs inum type').data' (iblock sb inum)) k ≡ 0
  unfolding uint_at
  claimed_uint fs inum type' k c le small e = omega (
    arith,
    claimed_zero fs inum type' (4 * k) c le (omega arith) e,
    claimed_zero fs inum type' (4 * k + 1) (c + 1) (omega arith) (omega arith) (omega arith),
    claimed_zero fs inum type' (4 * k + 2) (c + 2) (omega arith) (omega arith) (omega arith),
    claimed_zero fs inum type' (4 * k + 3) (c + 3) (omega arith) (omega arith) (omega arith),
  )

-- an inode of the type, with nothing in it
pub record IsFresh (kind : ℕ) (ip : Inode) : Type 0 where
  pub type' : ip.type' ≡ kind
  pub major : ip.major ≡ 0
  pub minor : ip.minor ≡ 0
  pub nlink : ip.nlink ≡ 0
  pub size : ip.size ≡ 0
  pub addrs : (n : ℕ) → n < 13 → ip.addrs n ≡ 0

module _ (sb : Superblock) (fs : Fs) where
  -- `inum` is the first inode that is free in `fs`. In `fs'` it is a fresh one, the other inodes and
  -- the other blocks being the same.
  pub record Claimed (type' lo inum : ℕ) (fs' : Fs) : Type 0 where
    pub low : lo ≤ inum
    pub high : inum < sb.ninodes
    pub free : type_at sb fs inum ≡ 0
    pub first : (j : ℕ) → lo ≤ j → j < inum → type_at sb fs j ≢ 0
    pub fresh : (old : Inode) → old.inum ≡ inum → IsFresh type' (loaded sb fs' old)
    pub others : (j c : ℕ) → j ≢ inum → c < 64 → inode_byte sb fs' j c ≡ inode_byte sb fs j c
    pub blocks : (b : ℕ) → b ≢ iblock sb inum → fs'.data' b ≡ fs.data' b

  claimed-IsFresh :
      (type' : ℕ) (old : Inode)
      → type' < 2 ^ 16
      → IsFresh type' (loaded sb (claimed sb fs old.inum type') old)
  unfolding loaded
  claimed-IsFresh type' old small =
      let inum = old.inum in
      let short = claimed_short sb fs inum type' in
      let uint = claimed_uint sb fs inum type' in
      record {
        type' = omega (
          arith,
          claimed_byte sb fs inum type' (inum % 16 * 64) 0 (omega arith) (omega arith),
          claimed_byte sb fs inum type' (inum % 16 * 64 + 1) 1 (omega arith) refl,
        );
        major = short (inum % 16 * 64 + 2) 2 (omega arith) (omega arith) refl;
        minor = short (inum % 16 * 64 + 4) 4 (omega arith) (omega arith) refl;
        nlink = short (inum % 16 * 64 + 6) 6 (omega arith) (omega arith) refl;
        size = uint (inum % 16 * 16 + 2) 8 (omega arith) (omega arith) (omega arith);
        addrs = λ n lt.
            rw (lt→ltb n 13 lt) (
              uint (inum % 16 * 16 + 3 + n) (12 + 4 * n) (omega arith) (omega arith) (omega arith));
      }

  pub claimed-Claimed :
      (type' inum : ℕ)
      → type' < 2 ^ 16
      → inum < sb.ninodes
      → type_at sb fs inum ≡ 0
      → Claimed type' inum inum (claimed sb fs inum type')
  claimed-Claimed type' inum small high free = record {
    low = omega arith;
    high = high;
    free = free;
    first = λ j le lt. absurd (omega arith);
    fresh = λ old e. rw (sym e) (claimed-IsFresh type' old small);
    others = λ j c ne lt. claimed_other sb fs inum type' j c ne lt;
    blocks = λ b ne. claimed_block sb fs inum type' b ne;
  }

  pub Claimed-earlier :
      (type' lo inum : ℕ) (fs' : Fs)
      → type_at sb fs lo ≢ 0
      → Claimed type' (lo + 1) inum fs'
      → Claimed type' lo inum fs'
  Claimed-earlier type' lo inum fs' ne c = record {
    low = (let le = c.low in omega arith);
    high = c.high;
    free = c.free;
    first = λ j le lt. elim (Bool-cases (j == lo)) [
      | inl e ↦ rw (==→eq _ _ e) ne
      | inr e ↦ c.first j (let o = ==→ne _ _ e in omega arith) lt
    ];
    fresh = c.fresh;
    others = c.others;
    blocks = c.blocks;
  }
