-- ===== src/Itable/Tests.antt =====
-- A table with the inode of Inode/Tests at 0, and nothing else.
use mit6_1810_why_tea_fo.Base.{
  ℕ, ◌≡◌, ◌≢◌, ◌⊎◌, refl, true, false, none, some, arith, ◌==◌, if◌then◌else◌,
}
use mit6_1810_why_tea_fo.Fs.{Fs}
use mit6_1810_why_tea_fo.Inode.{Inode, iupdate}
use mit6_1810_why_tea_fo.Inode.Tests.{sb, disk, file, file-IsInode}
use mit6_1810_why_tea_fo.Itable.{Itable, iget, ilock, iput, ialloc}
use mit6_1810_why_tea_fo.Itable.Lookup.{IsUnique, IsFull, Got, iget_lem}
use mit6_1810_why_tea_fo.Itable.Load.{Fits, Agrees, ilock-iupdate}
use mit6_1810_why_tea_fo.Itable.Alloc.{Allocated, ialloc_lem}
use mit6_1810_why_tea_fo.Itable.Drop.{Put, iput_lem}

abbrev stale : Inode
stale = record file { type' = 0; size = 9; addrs = λ n. 0 }

abbrev table : Itable
table i = record { ref = if i == 0 then 1 else 0; valid = true; ip = file }

table-IsUnique : IsUnique table
table-IsUnique i j lt lt' used used' e = ground arith

iget_lem_example :
    ((iget table 7 ≡ none) × IsFull table 7)
    ⊎ ((i : ℕ) × (t' : Itable) × (iget table 7 ≡ some (i, t')) × Got table 7 i t')
iget_lem_example = iget_lem table 7 table-IsUnique

file-Fits : Fits file
file-Fits = record {
  type' = omega arith;
  major = omega arith;
  minor = omega arith;
  nlink = omega arith;
  size = omega arith;
  addrs = λ n lt. ground arith;
}

abbrev fresh : Itable
fresh i = record { ref = if i == 0 then 1 else 0; valid = false; ip = stale }

ilock-iupdate_example :
    (t' : Itable) × (ilock sb (iupdate sb disk file) fresh 0 ≡ some t')
    × ((t' 0).valid ≡ true)
    × ((t' 0).ref ≡ 1)
    × Agrees file (t' 0).ip
    × ((j : ℕ) → j ≢ 0 → t' j ≡ fresh j)
ilock-iupdate_example =
    ilock-iupdate sb disk file fresh 0 file-Fits (omega arith) (omega arith) refl refl

iput_lem_example :
    (t' : Itable) × (fs' : Fs) × (iput sb disk table 0 ≡ some (t', fs'))
    × Put sb 3 disk table 0 fs' t'
iput_lem_example = iput_lem sb 3 disk table 0 (omega arith) (λ v. file-IsInode)

ialloc_lem_example : Allocated sb disk table 1 1 16 (ialloc sb disk table 1)
ialloc_lem_example = ialloc_lem sb disk table 1 table-IsUnique (omega arith) (omega arith)
