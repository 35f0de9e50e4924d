-- ===== src/Itable/Lookup.antt =====
-- iget and idup.
use mathlib.Core.Path.{subst}
use mit6_1810_why_tea_fo.Base.{
  ℕ, zero, suc, ◌+◌, ◌<◌, ◌≤◌, ◌≡◌, ◌≢◌, refl, sym, Bool, true, false, ◌&&◌, Option, none, some,
  arith, ◌==◌, ltb, if◌then◌else◌, Bool-cases, inl, inr, ◌⊎◌, ==→eq, ==→ne, ==_refl,
}
use mit6_1810_why_tea_fo.Store.{update}
use mit6_1810_why_tea_fo.Itable.{ninode, Itable, Slot, hit, miss, iget_loop, iget_end, iget}

abbrev holds : Itable → (inum i : ℕ) → Bool
holds t inum i = ltb 0 (t i).ref && ((t i).ip.inum == inum)

-- What the loop has found below `hi`.
abbrev Scanned : Itable → (inum lo hi : ℕ) (empty : Option ℕ) → Slot → Type 0
Scanned t inum lo hi empty (hit i) = (lo ≤ i) × (i < hi) × (holds t inum i ≡ true)
Scanned t inum lo hi (some e) (miss r) =
    ((i : ℕ) → lo ≤ i → i < hi → holds t inum i ≡ false) × (r ≡ some e)
Scanned t inum lo hi none (miss none) =
    ((i : ℕ) → lo ≤ i → i < hi → holds t inum i ≡ false)
    × ((i : ℕ) → lo ≤ i → i < hi → 0 < (t i).ref)
Scanned t inum lo hi none (miss (some e)) =
    ((i : ℕ) → lo ≤ i → i < hi → holds t inum i ≡ false) × (lo ≤ e) × (e < hi) × ((t e).ref ≡ 0)

from_next :
    (t : Itable) (inum i hi : ℕ)
    → holds t inum i ≡ false
    → ((j : ℕ) → i + 1 ≤ j → j < hi → holds t inum j ≡ false)
    → (j : ℕ) → i ≤ j
    → j < hi
    → holds t inum j ≡ false
from_next t inum i hi no' h j a b = elim (Bool-cases (j == i)) [
  | inl e ↦ let same : j ≡ i = ==→eq _ _ e in rw same no'
  | inr e ↦ let other = ==→ne _ _ e in h j (omega arith) b
]

Scanned-busy :
    (t : Itable) (inum i hi : ℕ) (r : Option ℕ)
    → (t i).ref ≢ 0
    → holds t inum i ≡ false
    → Scanned t inum (i + 1) hi none (miss r)
    → Scanned t inum i hi none (miss r)
Scanned-busy t inum i hi none busy no' (f, all) = (
  from_next t inum i hi no' f,
  λ j a b. elim (Bool-cases (j == i)) [
    | inl e ↦ let same : j ≡ i = ==→eq _ _ e in rw same (omega arith)
    | inr e ↦ let other = ==→ne _ _ e in all j (omega arith) b
  ],
)
Scanned-busy t inum i hi (some e) busy no' (f, a, b, c) =
    (from_next t inum i hi no' f, omega arith, b, c)

Scanned-more :
    (t : Itable) (inum i hi : ℕ) (empty : Option ℕ) (r : Slot)
    → i < hi
    → holds t inum i ≡ false
    → Scanned t inum
        (i + 1)
        hi
        (elim empty [ none ↦ if (t i).ref == 0 then some i else none | some e ↦ some e ])
        r
    → Scanned t inum i hi empty r
Scanned-more t inum i hi empty (hit j) lt no' (a, b, c) = (omega arith, b, c)
Scanned-more t inum i hi (some e) (miss r) lt no' (a, b) = (from_next t inum i hi no' a, b)
Scanned-more t inum i hi none (miss r) lt no' h = elim (Bool-cases ((t i).ref == 0)) [
  | inl free ↦
      let (f, e) : Scanned t inum (i + 1) hi (some i) (miss r) = rw free at h in
      subst (λ (r : Option ℕ). Scanned t inum i hi none (miss r)) (sym e)
        (from_next t inum i hi no' f, omega arith, lt, ==→eq _ _ free)
  | inr busy ↦
      let h' : Scanned t inum (i + 1) hi none (miss r) = rw busy at h in
      Scanned-busy t inum i hi r (==→ne _ _ busy) no' h'
]

iget_loop-Scanned :
    (t : Itable) (inum i k : ℕ) (empty : Option ℕ)
    → Scanned t inum i (i + k) empty (iget_loop t inum i k empty)
unfolding iget_loop
iget_loop-Scanned t inum i zero none =
    (λ j a b. absurd (omega arith), λ j a b. absurd (omega arith))
iget_loop-Scanned t inum i zero (some e) = (λ j a b. absurd (omega arith), refl)
iget_loop-Scanned t inum i (suc k) empty = elim (Bool-cases (holds t inum i)) [
  | inl e ↦ rw e (omega arith, omega arith, e)
  | inr e ↦
      let first : Option ℕ = elim empty [
        | none ↦ if (t i).ref == 0 then some i else none
        | some e ↦ some e
      ] in
      let rest = iget_loop-Scanned t inum (i + 1) k first in
      let end : i + 1 + k ≡ i + suc k = omega arith in
      rw e (
        Scanned-more t inum i (i + suc k) empty (iget_loop t inum (i + 1) k first) (omega arith) e (
          subst (λ (hi : ℕ). Scanned t inum (i + 1) hi first (iget_loop t inum (i + 1) k first)) end
            rest))
]

-- No inode has two entries in use.
abbrev pub IsUnique : Itable → Type 0
IsUnique t =
    (i j : ℕ)
    → i < ninode
    → j < ninode
    → 0 < (t i).ref
    → 0 < (t j).ref
    → (t i).ip.inum ≡ (t j).ip.inum
    → i ≡ j

-- The entry `i` is the inode's, with one more reference.
pub record Got (t : Itable) (inum i : ℕ) (t' : Itable) : Type 0 where
  pub bound : i < ninode
  pub number : (t' i).ip.inum ≡ inum
  pub ref : (t' i).ref ≡ (t i).ref + 1
  pub others : (j : ℕ) → j ≢ i → t' j ≡ t j
  pub kept : 0 < (t i).ref → ((t' i).valid ≡ (t i).valid) × ((t' i).ip ≡ (t i).ip)
  pub fresh : (t i).ref ≡ 0 → (t' i).valid ≡ false
  pub unique : IsUnique t'

-- Every entry is in use, for other inodes.
abbrev pub IsFull : Itable → (inum : ℕ) → Type 0
IsFull t inum = (i : ℕ) → i < ninode → (0 < (t i).ref) × ((t i).ip.inum ≢ inum)

hit-Got :
    (t : Itable) (inum i : ℕ)
    → IsUnique t
    → i < ninode
    → holds t inum i ≡ true
    → Got t inum i (update t i (record (t i) { ref = (t i).ref + 1 }))
unfolding update
hit-Got t inum i u lt e = record {
  bound = lt;
  number = ground arith;
  ref = ground arith;
  others = λ j ne. ground arith;
  kept = λ pos. (rw (==_refl i) refl, rw (==_refl i) refl);
  fresh = λ z. absurd (ground arith);
  unique = λ a b. ground (arith, u a b, u a i, u i b);
}

new-Got :
    (t : Itable) (inum i : ℕ)
    → IsUnique t
    → i < ninode
    → (t i).ref ≡ 0
    → ((j : ℕ) → j < ninode → holds t inum j ≡ false)
    → Got t inum i
        (update t i (record { ref = 1; valid = false; ip = record (t i).ip { inum = inum } }))
unfolding update
new-Got t inum i u lt free no' = record {
  bound = lt;
  number = ground arith;
  ref = ground arith;
  others = λ j ne. ground arith;
  kept = λ pos. absurd (omega arith);
  fresh = λ z. ground arith;
  unique = λ a b. ground (arith, u a b, no' a, no' b);
}

-- iget of an inode takes one more reference to the entry that holds it, or the first one to an entry
-- that was not in use and that is not valid then; the other entries stay, and no inode has two entries
-- in use, if none had. It panics exactly if every entry is in use for another inode.
pub iget_lem :
    (t : Itable) (inum : ℕ)
    → IsUnique t
    → ((iget t inum ≡ none) × IsFull t inum)
      ⊎ ((i : ℕ) × (t' : Itable) × (iget t inum ≡ some (i, t')) × Got t inum i t')
unfolding iget
iget_lem t inum u = ends (iget_loop t inum 0 ninode none) (iget_loop-Scanned t inum 0 ninode none)
  where
    ends :
        (r : Slot)
        → Scanned t inum 0 ninode none r
        → ((iget_end t inum r ≡ none) × IsFull t inum)
          ⊎ ((i : ℕ) × (t' : Itable) × (iget_end t inum r ≡ some (i, t')) × Got t inum i t')
    ends (hit i) (a, lt, e) =
        inr (i, update t i (record (t i) { ref = (t i).ref + 1 }), refl, hit-Got t inum i u lt e)
    ends (miss none) (no', all) =
        inl (refl, λ i lt. (all i (omega arith) lt, ground (arith, no' i, all i)))
    ends (miss (some i)) (no', a, lt, free) = inr (
      i,
      update t i (record { ref = 1; valid = false; ip = record (t i).ip { inum = inum } }),
      refl,
      new-Got t inum i u lt free (λ j lt'. no' j (omega arith) lt'),
    )
