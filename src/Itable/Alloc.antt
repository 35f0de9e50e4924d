-- ===== src/Itable/Alloc.antt =====
-- ialloc.
use mit6_1810_why_tea_fo.Base.{
  ℕ, zero, suc, ◌+◌, ◌-◌, ◌^◌, ◌<◌, ◌≤◌, ◌≡◌, ◌≢◌, ◌⊎◌, refl, ap, Option, none, some, arith, ◌==◌,
  Bool-cases, inl, inr, ==→eq, ==→ne,
}
use mit6_1810_why_tea_fo.Fs.{Superblock, Fs}
use mit6_1810_why_tea_fo.Itable.{Itable, iget, type_at, claimed, allocated, ialloc_loop, ialloc}
use mit6_1810_why_tea_fo.Itable.Lookup.{IsUnique, IsFull, Got, iget_lem}
use mit6_1810_why_tea_fo.Itable.Claim.{Claimed, claimed-Claimed, Claimed-earlier}

module _ (sb : Superblock) (fs : Fs) where
  -- What ialloc does from the inode `lo` on.
  abbrev pub Allocated : Itable → (type' lo hi : ℕ) → Option (Option ℕ × Itable × Fs) → Type 0
  Allocated t type' lo hi r =
      ((r ≡ some (none, t, fs)) × ((j : ℕ) → lo ≤ j → j < hi → type_at sb fs j ≢ 0))
      ⊎ ((inum : ℕ) × (fs' : Fs) × Claimed sb fs type' lo inum fs'
          × (((r ≡ none) × IsFull t inum)
              ⊎ ((i : ℕ) × (t' : Itable) × (r ≡ some (some i, t', fs')) × Got t inum i t')))

  got-Allocated :
      (t : Itable) (type' inum : ℕ)
      → IsUnique t
      → type' < 2 ^ 16
      → inum < sb.ninodes
      → type_at sb fs inum ≡ 0
      → Allocated t type' inum sb.ninodes (allocated sb (claimed sb fs inum type') (iget t inum))
  got-Allocated t type' inum u small high free =
      let c = claimed-Claimed sb fs type' inum small high free in
      elim (iget_lem t inum u) [
        | inl (e, full) ↦ inr (
          inum,
          claimed sb fs inum type',
          c,
          inl (ap (allocated sb (claimed sb fs inum type')) e, full),
        )
        | inr (i, t', e, g) ↦ inr (
          inum,
          claimed sb fs inum type',
          c,
          inr (i, t', ap (allocated sb (claimed sb fs inum type')) e, g),
        )
      ]

  Allocated-earlier :
      (t : Itable) (type' lo : ℕ) (r : Option (Option ℕ × Itable × Fs))
      → type_at sb fs lo ≢ 0
      → Allocated t type' (lo + 1) sb.ninodes r
      → Allocated t type' lo sb.ninodes r
  Allocated-earlier t type' lo r ne (inl (e, all)) = inl (
    e,
    λ j le lt. elim (Bool-cases (j == lo)) [
      | inl e ↦ rw (==→eq _ _ e) ne
      | inr e ↦ all j (let o = ==→ne _ _ e in omega arith) lt
    ],
  )
  Allocated-earlier t type' lo r ne (inr (inum, fs', c, h)) =
      inr (inum, fs', Claimed-earlier sb fs type' lo inum fs' ne c, h)

  ialloc_loop-Allocated :
      (t : Itable) (type' inum k : ℕ)
      → IsUnique t
      → type' < 2 ^ 16
      → sb.ninodes ≡ inum + k
      → Allocated t type' inum sb.ninodes (ialloc_loop sb fs t type' inum k)
  unfolding ialloc_loop
  ialloc_loop-Allocated t type' inum zero u small e = inl (refl, λ j le lt. absurd (omega arith))
  ialloc_loop-Allocated t type' inum (suc k) u small e =
      elim (Bool-cases (type_at sb fs inum == 0)) [
        | inl free ↦ rw free (got-Allocated t type' inum u small (omega arith) (==→eq _ _ free))
        | inr ne ↦ rw ne (
            Allocated-earlier t type' inum _ (==→ne _ _ ne)
              (ialloc_loop-Allocated t type' (inum + 1) k u small (omega arith)))
      ]

-- ialloc, where the disk has a place for an inode at all, takes the first inode, from 1 on, that is free
-- on the disk. What ilock reads of it then has that type, a short, and no links, bytes or blocks; no
-- other inode and no other block changes on the disk. It gets an entry of the table as iget does, which
-- had no two entries in use for one inode, or iget panics, as every entry is in use for another inode.
-- ialloc returns 0 and changes nothing exactly if no inode is free.
pub ialloc_lem :
    (sb : Superblock) (fs : Fs) (t : Itable) (type' : ℕ)
    → IsUnique t
    → type' < 2 ^ 16
    → 0 < sb.ninodes
    → Allocated sb fs t type' 1 sb.ninodes (ialloc sb fs t type')
unfolding ialloc
ialloc_lem sb fs t type' u small some' =
    ialloc_loop-Allocated sb fs t type' 1 (sb.ninodes - 1) u small (omega arith)
