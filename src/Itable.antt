-- ===== src/Itable.antt =====
-- The table of inodes in kernel/fs.c: ialloc, iget, idup, ilock, iput, over the contents of Inode. There is one
-- device. itable.lock and, where the code holds it, ip->lock are held throughout; the sleep locks are
-- no part of the model, as nothing waits for one here. A count of references stays below 2^31. None is
-- a panic.
pub mod Lookup
pub mod Load
pub mod Drop
pub mod Claim
pub mod Alloc
mod Tests
use mit6_1810_why_tea_fo.Base.{
  ℕ, zero, suc, ◌+◌, ◌-◌, ◌*◌, ◌/◌, ◌%◌, ◌^◌, Bool, true, false, not, ◌&&◌, ◌||◌, Option, none,
  some, ◌==◌, ltb, if◌then◌else◌,
}
use mit6_1810_why_tea_fo.Store.{update}
use mit6_1810_why_tea_fo.Fs.{Superblock, Fs, log_write}
use mit6_1810_why_tea_fo.Inode.{Inode, iblock, uint_at, iupdate, itrunc}

-- NINODE
abbrev pub ninode : ℕ
ninode = 50

-- `struct inode`, with its contents in `ip`
pub record Entry : Type 0 where
  pub ref : ℕ
  pub valid : Bool
  pub ip : Inode

abbrev pub Itable : Type 0
Itable = ℕ → Entry

pub data Slot : Type 0 where
  -- an entry that holds the inode
  hit : ℕ → Slot
  -- the first entry that is not in use
  miss : (empty : Option ℕ) → Slot

-- the loop of iget at `i`, with `k` entries to go
pub iget_loop : Itable → (inum i k : ℕ) (empty : Option ℕ) → Slot
iget_loop t inum i zero empty = miss empty
iget_loop t inum i (suc k) empty =
    let first : Option ℕ = elim empty [
      | none ↦ if (t i).ref == 0 then some i else none
      | some e ↦ some e
    ] in
    let rest = iget_loop t inum (i + 1) k first in
    if ltb 0 (t i).ref && ((t i).ip.inum == inum) then hit i else rest

-- the end of iget
abbrev pub iget_end : Itable → (inum : ℕ) → Slot → Option (ℕ × Itable)
iget_end t inum (hit i) = some (i, update t i (record (t i) { ref = (t i).ref + 1 }))
iget_end t inum (miss none) = none
iget_end t inum (miss (some i)) =
    some (i, update t i (record { ref = 1; valid = false; ip = record (t i).ip { inum = inum } }))

pub iget : Itable → (inum : ℕ) → Option (ℕ × Itable)
iget t inum = iget_end t inum (iget_loop t inum 0 ninode none)

unfoldable pub idup : Itable → (i : ℕ) → Itable
idup t i = update t i (record (t i) { ref = (t i).ref + 1 })

-- `x[k]` for `short *x` at the byte `a`
abbrev pub short_at : (bytes : ℕ → ℕ) (a : ℕ) → ℕ
short_at bytes a = bytes a + bytes (a + 1) * 2 ^ 8

module _ (sb : Superblock) where
  -- The inode that ilock reads from its place on the disk.
  unfoldable pub loaded : Fs → Inode → Inode
  loaded fs ip =
      let bytes = fs.data' (iblock sb ip.inum) in
      let a = ip.inum % 16 * 64 in
      record {
        inum = ip.inum;
        type' = short_at bytes a;
        major = short_at bytes (a + 2);
        minor = short_at bytes (a + 4);
        nlink = short_at bytes (a + 6);
        size = uint_at bytes (ip.inum % 16 * 16 + 2);
        addrs = λ n. if ltb n 13 then uint_at bytes (ip.inum % 16 * 16 + 3 + n) else ip.addrs n;
      }

  unfoldable pub ilock : Fs → Itable → (i : ℕ) → Option Itable
  ilock fs t i =
      let new = loaded fs (t i).ip in
      let load =
        if new.type' == 0
        then none
        else some (update t i (record (t i) { valid = true; ip = new })) in
      if ltb (t i).ref 1 then none else if not (t i).valid then load else some t

  -- what iput does to an inode that has no links and no other reference
  abbrev pub discarded : Itable → (i : ℕ) → Option (Inode × Fs) → Option (Itable × Fs)
  discarded t i none = none
  discarded t i (some (ip, fs)) =
      let ip' = record ip { type' = 0 } in
      some (update t i (record (t i) { valid = false; ip = ip' }), iupdate sb fs ip')

  -- `ip->ref--`: the callers of iput hold a reference, so that it is not below 0 then
  abbrev pub dropped : (i : ℕ) → Option (Itable × Fs) → Option (Itable × Fs)
  dropped i none = none
  dropped i (some (t, fs)) = some (update t i (record (t i) { ref = (t i).ref - 1 }), fs)

  unfoldable pub iput : Fs → Itable → (i : ℕ) → Option (Itable × Fs)
  iput fs t i =
      let last = discarded t i (itrunc sb fs (t i).ip) in
      dropped i
        (if ((t i).ref == 1) && ((t i).valid && ((t i).ip.nlink == 0)) then last else some (t, fs))

  -- `dip->type` of the inode `inum` on the disk
  abbrev pub type_at : Fs → (inum : ℕ) → ℕ
  type_at fs inum = short_at (fs.data' (iblock sb inum)) (inum % 16 * 64)

  -- the memset and the type that ialloc puts there
  unfoldable pub claimed : Fs → (inum type' : ℕ) → Fs
  claimed fs inum type' =
      let b = iblock sb inum in
      let byte = λ (i : ℕ). if ltb i 2 then type' / 256 ^ i % 256 else 0 in
      let bytes = λ (x : ℕ). if x / 64 == inum % 16 then byte (x % 64) else fs.data' b x in
      log_write (record fs { data' = update fs.data' b bytes }) b

  -- the end of ialloc where it has claimed an inode
  abbrev pub allocated : Fs → Option (ℕ × Itable) → Option (Option ℕ × Itable × Fs)
  allocated fs none = none
  allocated fs (some (i, t)) = some (some i, t, fs)

  -- the loop of ialloc at `inum`, with `k` inodes to go
  unfoldable pub ialloc_loop : Fs → Itable → (type' inum k : ℕ) → Option (Option ℕ × Itable × Fs)
  ialloc_loop fs t type' inum zero = some (none, t, fs)
  ialloc_loop fs t type' inum (suc k) =
      let rest = ialloc_loop fs t type' (inum + 1) k in
      if type_at fs inum == 0 then allocated (claimed fs inum type') (iget t inum) else rest

  unfoldable pub ialloc : Fs → Itable → (type' : ℕ) → Option (Option ℕ × Itable × Fs)
  ialloc fs t type' = ialloc_loop fs t type' 1 (sb.ninodes - 1)
