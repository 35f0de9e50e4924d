-- ===== src/Files/Alloc.antt =====
-- The loops that look for a free file and for a free descriptor.
use mit6_1810_why_tea_fo.Base.{
  ℕ, zero, suc, ◌+◌, ◌≤◌, ◌<◌, ◌≡◌, refl, true, false, Option, none, some, arith, ◌==◌, get_or,
  Bool-cases, inl, inr, ==→eq, ==→ne,
}
use mit6_1810_why_tea_fo.Files.{Table, Ofile, free_file, free_fd, is_null}

-- The first of the files `a` to `a + k - 1` without references.
pub data Found (t : Table) (a k : ℕ) : Option ℕ → Type 0 where
  found : (f : ℕ) → a ≤ f → f < a + k → (t f).ref ≡ 0 → Found t a k (some f)
  all_used : ((g : ℕ) → a ≤ g → g < a + k → 0 < (t g).ref) → Found t a k none

-- ... and the first free of the descriptors.
pub data FoundFd (o : Ofile) (a k : ℕ) : Option ℕ → Type 0 where
  found :
      (fd : ℕ)
      → fd < a + k
      → get_or o fd none ≡ none
      → ((g : ℕ) → a ≤ g → g < fd → is_null (get_or o g none) ≡ false)
      → FoundFd o a k (some fd)
  all_used : ((g : ℕ) → a ≤ g → g < a + k → is_null (get_or o g none) ≡ false) → FoundFd o a k none

weaken :
    (t : Table) (a k : ℕ) {r : Option ℕ} → 0 < (t a).ref → Found t (a + 1) k r → Found t a (suc k) r
weaken t a k used (found f low high free) = found f (omega arith) (omega arith) free
weaken t a k used (all_used all) = all_used (λ g low high. elim (Bool-cases (g == a)) [
  | inl e ↦ let same : g ≡ a = ==→eq _ _ e in rw same used
  | inr e ↦ let other = ==→ne _ _ e in all g (omega arith) (omega arith)
])

pub free_file-Found : (t : Table) (a k : ℕ) → Found t a k (free_file t a k)
unfolding free_file
free_file-Found t a zero = all_used (λ g low high. absurd (omega arith))
free_file-Found t a (suc k) = elim (Bool-cases ((t a).ref == 0)) [
  | inl e ↦ rw e (found a (omega arith) (omega arith) (==→eq _ _ e))
  | inr e ↦
      let other = ==→ne _ _ e in rw e (weaken t a k (omega arith) (free_file-Found t (a + 1) k))
]

is_null→none : (x : Option ℕ) → is_null x ≡ true → x ≡ none
is_null→none none e = refl
is_null→none (some f) e = ground arith

used_at :
    (o : Ofile) {a fd g : ℕ}
    → is_null (get_or o a none) ≡ false
    → (a + 1 ≤ g → g < fd → is_null (get_or o g none) ≡ false)
    → a ≤ g
    → g < fd
    → is_null (get_or o g none) ≡ false
used_at o {a = a} {g = g} used above low lt = elim (Bool-cases (g == a)) [
  | inl e ↦ let same : g ≡ a = ==→eq _ _ e in rw same used
  | inr e ↦ let other = ==→ne _ _ e in above (omega arith) lt
]

weaken_fd :
    (o : Ofile) (a k : ℕ) {r : Option ℕ}
    → is_null (get_or o a none) ≡ false
    → FoundFd o (a + 1) k r
    → FoundFd o a (suc k) r
weaken_fd o a k used (found fd high free below) =
    found fd (omega arith) free (λ g low lt. used_at o used (below g) low lt)
weaken_fd o a k used (all_used all) =
    all_used (λ g low lt. used_at o {fd = a + suc k} used (λ up lt'. all g up (omega arith)) low lt)

pub free_fd-FoundFd : (o : Ofile) (a k : ℕ) → FoundFd o a k (free_fd o a k)
unfolding free_fd
free_fd-FoundFd o a zero = all_used (λ g low high. absurd (omega arith))
free_fd-FoundFd o a (suc k) = elim (Bool-cases (is_null (get_or o a none))) [
  | inl e ↦ rw e (found a (omega arith) (is_null→none _ e) (λ g low lt. absurd (omega arith)))
  | inr e ↦ rw e (weaken_fd o a k e (free_fd-FoundFd o (a + 1) k))
]
