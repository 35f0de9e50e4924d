-- ===== src/Str/Compare.antt =====
-- What memcmp, strncmp and strlen tell of the memory.
use mit6_1810_why_tea_fo.Base.{
  ℕ, zero, suc, ◌+◌, ◌<◌, ◌≡◌, ◌≢◌, ◌↔◌, inl, inr, refl, ap, sym, ◌∙◌, some, arith, ◌==◌,
  Bool-cases, ==→eq, ==→ne, ==_refl, ne→==,
}
use mit6_1810_why_tea_fo.Base.Int.{pos, sub_ℕ-eq-zero, sub_ℕ_self}
use mit6_1810_why_tea_fo.Memory.{Memory}
use mit6_1810_why_tea_fo.Str.{memcmp, strncmp, strlen_from, strlen}

-- The two regions hold the same `n` bytes.
abbrev pub SameBytes : Memory → (a b n : ℕ) → Type 0
SameBytes m a b n = (i : ℕ) → i < n → m (a + i) ≡ m (b + i)

shift : (a i : ℕ) → a + 1 + i ≡ a + suc i
shift a i = omega arith

SameBytes-cons :
    (m : Memory) (a b n : ℕ) → m a ≡ m b → SameBytes m (a + 1) (b + 1) n → SameBytes m a b (suc n)
SameBytes-cons m a b n e h zero lt = ap m (omega arith) ∙ e ∙ ap m (omega arith)
SameBytes-cons m a b n e h (suc i) lt =
    ap m (sym (shift a i)) ∙ h i (omega arith) ∙ ap m (shift b i)

SameBytes-head : (m : Memory) (a b n : ℕ) → SameBytes m a b (suc n) → m a ≡ m b
SameBytes-head m a b n h = ap m (omega arith) ∙ h 0 (omega arith) ∙ ap m (omega arith)

SameBytes-tail : (m : Memory) (a b n : ℕ) → SameBytes m a b (suc n) → SameBytes m (a + 1) (b + 1) n
SameBytes-tail m a b n h i lt = ap m (shift a i) ∙ h (suc i) (omega arith) ∙ ap m (sym (shift b i))

memcmp-SameBytes : (m : Memory) (a b n : ℕ) → memcmp m a b n ≡ pos 0 → SameBytes m a b n
unfolding memcmp
memcmp-SameBytes m a b zero h = λ i lt. absurd (omega arith)
memcmp-SameBytes m a b (suc n) h = elim (Bool-cases (m a == m b)) [
  | inl e ↦ SameBytes-cons m a b n (==→eq _ _ e) (memcmp-SameBytes m (a + 1) (b + 1) n (rw e at h))
  | inr e ↦ absurd (==→ne _ _ e (sub_ℕ-eq-zero (m a) (m b) (rw e at h)))
]

memcmp_of_same : (m : Memory) (a b n : ℕ) → SameBytes m a b n → memcmp m a b n ≡ pos 0
unfolding memcmp
memcmp_of_same m a b zero h = refl
memcmp_of_same m a b (suc n) h =
    let e : m a ≡ m b = SameBytes-head m a b n h in
    rw (e, ==_refl (m b)) (memcmp_of_same m (a + 1) (b + 1) n (SameBytes-tail m a b n h))

-- memcmp returns 0 exactly when the two regions hold the same `n` bytes.
memcmp_iff : (m : Memory) (a b n : ℕ) → (memcmp m a b n ≡ pos 0) ↔ SameBytes m a b n
memcmp_iff m a b n = (memcmp-SameBytes m a b n, memcmp_of_same m a b n)

-- The C strings at `p` and `q` agree on their first `n` characters, up to the first NUL of `p`.
abbrev pub SamePrefix : Memory → (p q n : ℕ) → Type 0
SamePrefix m p q n = (i : ℕ) → i < n → ((j : ℕ) → j < i → m (p + j) ≢ 0) → m (p + i) ≡ m (q + i)

SamePrefix-tail :
    (m : Memory) (p q n : ℕ) → m p ≢ 0 → SamePrefix m p q (suc n) → SamePrefix m (p + 1) (q + 1) n
SamePrefix-tail m p q n nz h i lt before =
    ap m (shift p i) ∙ h (suc i) (omega arith) earlier ∙ ap m (sym (shift q i))
  where
    earlier : (j : ℕ) → j < suc i → m (p + j) ≢ 0
    earlier zero l = λ e. nz (ap m (omega arith) ∙ e)
    earlier (suc j) l = λ e. before j (omega arith) (ap m (shift p j) ∙ e)

SamePrefix-cons :
    (m : Memory) (p q n : ℕ)
    → m p ≡ m q
    → (m p ≢ 0 → SamePrefix m (p + 1) (q + 1) n)
    → SamePrefix m p q (suc n)
SamePrefix-cons m p q n e h zero lt before = ap m (omega arith) ∙ e ∙ ap m (omega arith)
SamePrefix-cons m p q n e h (suc i) lt before =
    ap m (sym (shift p i))
    ∙ h (λ z. before 0 (omega arith) (ap m (omega arith) ∙ z)) i (omega arith)
        (λ j l z. before (suc j) (omega arith) (ap m (sym (shift p j)) ∙ z))
    ∙ ap m (shift q i)

SamePrefix-head : (m : Memory) (p q n : ℕ) → SamePrefix m p q (suc n) → m p ≡ m q
SamePrefix-head m p q n h =
    ap m (omega arith) ∙ h 0 (omega arith) (λ j l. absurd (omega arith)) ∙ ap m (omega arith)

strncmp-SamePrefix : (m : Memory) (p q n : ℕ) → strncmp m p q n ≡ pos 0 → SamePrefix m p q n
unfolding strncmp
strncmp-SamePrefix m p q zero h = λ i lt before. absurd (omega arith)
strncmp-SamePrefix m p q (suc n) h = elim (Bool-cases (m p == 0)) [
  | inl z ↦
      SamePrefix-cons m p q n (sub_ℕ-eq-zero (m p) (m q) (rw z at h))
        (λ nz. absurd (nz (==→eq _ _ z)))
  | inr nz ↦ elim (Bool-cases (m p == m q)) [
    | inl e ↦
        SamePrefix-cons m p q n (==→eq _ _ e)
          (λ _. strncmp-SamePrefix m (p + 1) (q + 1) n (rw (nz, e) at h))
    | inr e ↦ absurd (==→ne _ _ e (sub_ℕ-eq-zero (m p) (m q) (rw (nz, e) at h)))
  ]
]

strncmp_of_same : (m : Memory) (p q n : ℕ) → SamePrefix m p q n → strncmp m p q n ≡ pos 0
unfolding strncmp
strncmp_of_same m p q zero h = refl
strncmp_of_same m p q (suc n) h =
    let e : m p ≡ m q = SamePrefix-head m p q n h in
    elim (Bool-cases (m p == 0)) [
      | inl z ↦ rw (z, e) (sub_ℕ_self (m q))
      | inr nz ↦
          rw (nz, e, ==_refl (m q))
            (strncmp_of_same m (p + 1) (q + 1) n (SamePrefix-tail m p q n (==→ne _ _ nz) h))
    ]

-- strncmp returns 0 exactly when the two strings agree on their first `n` characters, those behind
-- the first NUL not counted.
pub strncmp_iff : (m : Memory) (p q n : ℕ) → (strncmp m p q n ≡ pos 0) ↔ SamePrefix m p q n
strncmp_iff m p q n = (strncmp-SamePrefix m p q n, strncmp_of_same m p q n)

-- `k` is the length of the C string at `s`.
pub record IsLength (m : Memory) (s k : ℕ) : Type 0 where
  pub ends : m (s + k) ≡ 0
  pub before : (j : ℕ) → j < k → m (s + j) ≢ 0

strlen_from-some :
    (m : Memory) (s k fuel n d : ℕ)
    → IsLength m s k
    → n + d ≡ k
    → d < fuel
    → strlen_from m s fuel n ≡ some k
unfolding strlen_from
strlen_from-some m s k zero n d is e lt = absurd (omega arith)
strlen_from-some m s k (suc fuel) n zero is e lt =
    let at_end : n ≡ k = omega arith in rw (at_end, is.ends)
strlen_from-some m s k (suc fuel) n (suc d) is e lt =
    rw (ne→== _ 0 (is.before n (omega arith)))
      (strlen_from-some m s k fuel (n + 1) d is (omega arith) (omega arith))

-- With fuel above the length of the string, strlen stops and returns that length.
pub strlen-some : (m : Memory) (s k fuel : ℕ) → IsLength m s k → k < fuel → strlen m s fuel ≡ some k
unfolding strlen
strlen-some m s k fuel is lt = strlen_from-some m s k fuel 0 k is (omega arith) lt
