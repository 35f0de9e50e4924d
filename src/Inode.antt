-- ===== src/Inode.antt =====
-- The contents of an inode in kernel/fs.c: bmap, iupdate, itrunc, readi and writei over the blocks of Fs.
-- There is one device; ip->lock is held throughout. None is a panic.
pub mod Uints
pub mod Slots
pub mod Bmap
pub mod Content
pub mod Rounds
pub mod Write
pub mod Update
pub mod Writei
pub mod Read
pub mod Free
pub mod Trunc
pub mod Tests
use mit6_1810_why_tea_fo.Base.{
  ℕ, zero, suc, min, ◌||◌, ◌+◌, ◌-◌, ◌*◌, ◌/◌, ◌%◌, ◌^◌, Bool, true, false, not, Option, none, some,
  List, [], ◌∷◌, ◌==◌, ltb, if◌then◌else◌,
}
use mit6_1810_why_tea_fo.Base.Int.{ℤ, pos, minus_one}
use mit6_1810_why_tea_fo.Base.Word.{add32}
use mit6_1810_why_tea_fo.Memory.{inside}
use mit6_1810_why_tea_fo.Store.{update}
use mit6_1810_why_tea_fo.Fs.{bsize, Superblock, Fs, log_write, balloc, bfree}

abbrev pub ndirect : ℕ
ndirect = 12

abbrev pub nindirect : ℕ
nindirect = 256

-- `struct inode`, less its place in the table of inodes
pub record Inode : Type 0 where
  pub inum : ℕ
  pub type' : ℕ
  pub major : ℕ
  pub minor : ℕ
  pub nlink : ℕ
  pub size : ℕ
  pub addrs : ℕ → ℕ

-- MAXFILE
abbrev pub maxfile : ℕ
maxfile = 268

-- `a[k]` and `a[k] = v`, for `uint *a` at the start of the bytes
unfoldable pub uint_at : (bytes : ℕ → ℕ) (k : ℕ) → ℕ
uint_at bytes k =
    bytes (4 * k)
    + bytes (4 * k + 1) * 2 ^ 8
    + bytes (4 * k + 2) * 2 ^ 16
    + bytes (4 * k + 3) * 2 ^ 24

pub with_uint : (bytes : ℕ → ℕ) (k v : ℕ) → ℕ → ℕ
with_uint bytes k v x = if x / 4 == k then v / 256 ^ (x % 4) % 256 else bytes x

-- The bytes of `struct dinode` that iupdate writes.
unfoldable pub dinode_byte : Inode → ℕ → ℕ
dinode_byte ip i =
    if ltb i 2
    then ip.type' / 256 ^ i % 256
    else if ltb i 4
    then ip.major / 256 ^ (i - 2) % 256
    else if ltb i 6
    then ip.minor / 256 ^ (i - 4) % 256
    else if ltb i 8
    then ip.nlink / 256 ^ (i - 6) % 256
    else if ltb i 12
    then ip.size / 256 ^ (i - 8) % 256
    else ip.addrs ((i - 12) / 4) / 256 ^ (i % 4) % 256

-- either_copyin of `m` bytes, the byte `tot` of the source being the first
abbrev pub copied : (bytes : ℕ → ℕ) (lo m tot : ℕ) (src : ℕ → ℕ) → ℕ → ℕ
copied bytes lo m tot src x = if inside lo m x then src (tot + (x - lo)) else bytes x

abbrev pub with_copied : Fs → (b lo m tot : ℕ) (src : ℕ → ℕ) → Fs
with_copied fs b lo m tot src = record fs {
  data' = update fs.data' b (copied (fs.data' b) lo m tot src);
}

module _ (sb : Superblock) where
  -- `addr = balloc(ip->dev)` and, if it is not 0, `ip->addrs[n] = addr`
  abbrev pub assigned : Inode → (n : ℕ) → ℕ × Fs → ℕ × Inode × Fs
  assigned ip n (addr, fs) =
      if addr == 0 then (0, ip, fs) else (addr, record ip { addrs = update ip.addrs n addr }, fs)

  -- `ip->addrs[n]`, allocated if it is 0
  pub addr_at : Fs → Inode → (n : ℕ) → ℕ × Inode × Fs
  addr_at fs ip n =
      let new = assigned ip n (balloc sb fs) in
      if ip.addrs n == 0 then new else (ip.addrs n, ip, fs)

  -- `addr = balloc(ip->dev)` and, if it is not 0, `a[k] = addr` in the block `b`
  abbrev pub entered : Inode → (b k : ℕ) → ℕ × Fs → ℕ × Inode × Fs
  entered ip b k (addr, fs) = if addr == 0 then (0, ip, fs) else (
    addr,
    ip,
    log_write (record fs { data' = update fs.data' b (with_uint (fs.data' b) k addr) }) b,
  )

  -- bmap behind the load of the indirect block `b`
  pub entry_at : (k : ℕ) → ℕ × Inode × Fs → ℕ × Inode × Fs
  entry_at k (b, ip, fs) =
      let addr = uint_at (fs.data' b) k in
      let new = entered ip b k (balloc sb fs) in
      if b == 0 then (0, ip, fs) else if addr == 0 then new else (addr, ip, fs)

  pub bmap : Fs → Inode → (bn : ℕ) → Option (ℕ × Inode × Fs)
  bmap fs ip bn =
      if ltb bn ndirect
      then some (addr_at fs ip bn)
      else if ltb (bn - ndirect) nindirect
      then some (entry_at (bn - ndirect) (addr_at fs ip ndirect))
      else none

  -- IBLOCK
  abbrev pub iblock : ℕ → ℕ
  iblock i = i / 16 + sb.inodestart

  unfoldable pub iupdate : Fs → Inode → Fs
  iupdate fs ip =
      let b = iblock ip.inum in
      let bytes =
        λ (x : ℕ). if x / 64 == ip.inum % 16 then dinode_byte ip (x % 64) else fs.data' b x in
      log_write (record fs { data' = update fs.data' b bytes }) b

  -- `src i` is the byte i of the source. either_copyin fails at the byte `tot` if `refused tot` is
  -- some k; it has copied k bytes then.
  module _ (src : ℕ → ℕ) (refused : ℕ → Option ℕ) (n : ℕ) where
    -- the loop of writei: `tot` and `off` at its end, and the state; none for a panic too
    pub write_loop : (fuel : ℕ) → Fs → Inode → (tot off : ℕ) → Option (ℕ × ℕ × Inode × Fs)
    write_loop zero fs ip tot off = none
    write_loop (suc fuel) fs ip tot off =
        let m = min (n - tot) (bsize - off % bsize) in
        let round : Option (ℕ × ℕ × Inode × Fs) = elim (bmap fs ip (off / bsize)) [
          | none ↦ none
          | some (addr, ip', fs') ↦
              let copy : Option (ℕ × ℕ × Inode × Fs) = elim (refused tot) [
                | some k ↦
                    some (tot, off, ip', with_copied fs' addr (off % bsize) (min k m) tot src)
                | none ↦
                    write_loop fuel (log_write (with_copied fs' addr (off % bsize) m tot src) addr)
                      ip' (tot + m) (off + m)
              ] in
              if addr == 0 then some (tot, off, ip', fs') else copy
        ] in
        if ltb tot n then round else some (tot, off, ip, fs)

    -- writei behind its loop
    abbrev pub write_end : Option (ℕ × ℕ × Inode × Fs) → Option (ℤ × Inode × Fs)
    write_end none = none
    write_end (some (tot, off, ip, fs)) =
        let ip' = record ip { size = if ltb ip.size off then off else ip.size } in
        some (pos tot, ip', iupdate fs ip')

    -- A round copies a byte at least.
    pub writei : Fs → Inode → (off : ℕ) → Option (ℤ × Inode × Fs)
    writei fs ip off =
        if ltb ip.size off || ltb (add32 off n) off
        then some (minus_one, ip, fs)
        else if ltb (maxfile * bsize) (add32 off n)
        then some (minus_one, ip, fs)
        else write_end (write_loop (n + 1) fs ip 0 off)

  -- `dst i` is the byte i of the destination. either_copyout fails at the byte `tot` if `refused tot`.
  module _ (refused : ℕ → Bool) where
    -- the loop of readi: what it returns, and the state; none for a panic too
    pub read_loop :
        (n : ℕ) (fuel : ℕ)
        → Fs
        → Inode
        → (dst : ℕ → ℕ) (tot off : ℕ) → Option (ℤ × (ℕ → ℕ) × Inode × Fs)
    read_loop n zero fs ip dst tot off = none
    read_loop n (suc fuel) fs ip dst tot off =
        let m = min (n - tot) (bsize - off % bsize) in
        let round : Option (ℤ × (ℕ → ℕ) × Inode × Fs) = elim (bmap fs ip (off / bsize)) [
          | none ↦ none
          | some (addr, ip', fs') ↦
              let next =
                read_loop n fuel fs' ip' (copied dst tot m (off % bsize) (fs'.data' addr)) (tot + m)
                  (off + m) in
              if addr == 0
              then some (pos tot, dst, ip', fs')
              else if refused tot
              then some (minus_one, dst, ip', fs')
              else next
        ] in
        if ltb tot n then round else some (pos tot, dst, ip, fs)

    pub readi : Fs → Inode → (dst : ℕ → ℕ) (off n : ℕ) → Option (ℤ × (ℕ → ℕ) × Inode × Fs)
    readi fs ip dst off n =
        let n' = if ltb ip.size (add32 off n) then ip.size - off else n in
        if ltb ip.size off || ltb (add32 off n) off
        then some (pos 0, dst, ip, fs)
        else read_loop n' (n' + 1) fs ip dst 0 off

  -- the first loop of itrunc at `i`, with `k` rounds to go
  pub free_direct : (k : ℕ) → Fs → Inode → (i : ℕ) → Option (Inode × Fs)
  free_direct zero fs ip i = some (ip, fs)
  free_direct (suc k) fs ip i =
      let skip = free_direct k fs ip (i + 1) in
      let freed : Option (Inode × Fs) = elim (bfree sb fs (ip.addrs i)) [
        | none ↦ none
        | some fs' ↦ free_direct k fs' (record ip { addrs = update ip.addrs i 0 }) (i + 1)
      ] in
      if ip.addrs i == 0 then skip else freed

  -- the second one, over the indirect block `b`
  pub free_entries : (k : ℕ) → Fs → (b j : ℕ) → Option Fs
  free_entries zero fs b j = some fs
  free_entries (suc k) fs b j =
      let skip = free_entries k fs b (j + 1) in
      let freed : Option Fs = elim (bfree sb fs (uint_at (fs.data' b) j)) [
        | none ↦ none
        | some fs' ↦ free_entries k fs' b (j + 1)
      ] in
      if uint_at (fs.data' b) j == 0 then skip else freed

  -- itrunc at its indirect block
  pub free_indirect : Fs → Inode → Option (Inode × Fs)
  free_indirect fs ip =
      let b = ip.addrs ndirect in
      let freed : Option (Inode × Fs) = elim (free_entries nindirect fs b 0) [
        | none ↦ none
        | some fs' ↦ elim (bfree sb fs' b) [
          | none ↦ none
          | some fs'' ↦ some (record ip { addrs = update ip.addrs ndirect 0 }, fs'')
        ]
      ] in
      if b == 0 then some (ip, fs) else freed

  abbrev pub emptied : Option (Inode × Fs) → Option (Inode × Fs)
  emptied none = none
  emptied (some (ip, fs)) = let ip' = record ip { size = 0 } in some (ip', iupdate fs ip')

  pub itrunc : Fs → Inode → Option (Inode × Fs)
  itrunc fs ip = elim (free_direct ndirect fs ip 0) [
    | none ↦ none
    | some (ip', fs') ↦ emptied (free_indirect fs' ip')
  ]
