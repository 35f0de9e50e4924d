-- ===== src/Bio/Search.antt =====
-- The loops of bget over the ring as searches of a list.
use mit6_1810_why_tea_fo.Base.{
  ℕ, zero, suc, ◌+◌, ◌<◌, ◌≡◌, Bool, true, false, ◌⊎◌, Option, none, some, List, [], ◌∷◌, arith,
  if◌then◌else◌, length, ne→==, All, Bool-cases, ap, inl, inr, ◌++◌,
}
use mathlib.Core.List.{reverse_aux}
use mathlib.Core.Path.{subst}
use mit6_1810_why_tea_fo.Bio.{head, scan}
use mit6_1810_why_tea_fo.Bio.Links.{Links}

-- The first of a list that passes a test.
abbrev pub first : (ℕ → Bool) → List ℕ → Option ℕ
first test [] = none
first test (x ∷ xs) = if test x then some x else first test xs

pub scan-next :
    (next prev : ℕ → ℕ) (test : ℕ → Bool) (fuel p : ℕ) (xs : List ℕ)
    → Links next prev p xs
    → length xs < fuel
    → scan next test fuel (next p) ≡ first test xs
unfolding scan
scan-next next prev test zero p xs l enough = absurd (omega arith)
scan-next next prev test (suc fuel) p [] l enough = rw l.0
scan-next next prev test (suc fuel) p (x ∷ xs) l enough =
    rw
      (l.0, ne→== x head (omega (arith, l.2)), scan-next next prev test fuel x xs l.3 (omega arith))

-- The `prev` pointers lead from `q` through `ws` to the head.
pub Back : (prev : ℕ → ℕ) → (q : ℕ) → List ℕ → Type 0
Back prev q [] = prev q ≡ head
Back prev q (w ∷ ws) = (prev q ≡ w) × (w < head) × Back prev w ws

Links-Back_onto :
    (next prev : ℕ → ℕ) (p : ℕ) (xs acc : List ℕ)
    → Links next prev p xs
    → p < head
    → Back prev p acc
    → Back prev head (reverse_aux xs (p ∷ acc))
unfolding Back
Links-Back_onto next prev p [] acc l lt b = (l.1, lt, b)
Links-Back_onto next prev p (x ∷ xs) acc l lt b =
    Links-Back_onto next prev x xs (p ∷ acc) l.3 l.2 (l.1, lt, b)

pub Links-Back :
    (next prev : ℕ → ℕ) (xs : List ℕ) → Links next prev head xs → Back prev head (reverse_aux xs [])
unfolding Back
Links-Back next prev [] l = l.1
Links-Back next prev (x ∷ xs) l = Links-Back_onto next prev x xs [] l.3 l.2 l.1

pub scan-Back :
    (prev : ℕ → ℕ) (test : ℕ → Bool) (fuel q : ℕ) (ws : List ℕ)
    → Back prev q ws
    → length ws < fuel
    → scan prev test fuel (prev q) ≡ first test ws
unfolding scan Back
scan-Back prev test zero q ws b enough = absurd (omega arith)
scan-Back prev test (suc fuel) q [] b enough = rw b
scan-Back prev test (suc fuel) q (w ∷ ws) b enough =
    rw (b.0, ne→== w head (omega (arith, b.1)), scan-Back prev test fuel w ws b.2 (omega arith))

pub length-reverse_aux : (xs ys : List ℕ) → length (reverse_aux xs ys) ≡ length xs + length ys
length-reverse_aux [] ys = omega arith
length-reverse_aux (x ∷ xs) ys = omega (arith, length-reverse_aux xs (x ∷ ys))

-- `b` is the first of `xs` of which `P` holds, and `N` holds of those before it.
pub record IsFirst (P N : ℕ → Type 0) (xs : List ℕ) (b : ℕ) : Type 0 where
  pub before : List ℕ
  pub after : List ℕ
  pub parts : xs ≡ before ++ (b ∷ after)
  pub none_before : All N before
  pub holds : P b

-- `b` is the last of `xs` of which `P` holds, and `N` holds of those behind it.
pub record IsLast (P N : ℕ → Type 0) (xs : List ℕ) (b : ℕ) : Type 0 where
  pub before : List ℕ
  pub after : List ℕ
  pub parts : xs ≡ before ++ (b ∷ after)
  pub none_after : All N after
  pub holds : P b

module _ (P N : ℕ → Type 0) (test : ℕ → Bool) (pass : (x : ℕ) → test x ≡ true → P x)
    (fail : (x : ℕ) → test x ≡ false → N x) where
  pub first-All : (xs : List ℕ) → first test xs ≡ none → All N xs
  first-All [] e = tt
  first-All (x ∷ xs) e = elim (Bool-cases (test x)) [
    | inl t ↦ absurd (ground arith)
    | inr f ↦ (fail x f, first-All xs (ground arith))
  ]

  pub first-IsFirst : (xs : List ℕ) (b : ℕ) → first test xs ≡ some b → IsFirst P N xs b
  first-IsFirst [] b e = absurd (ground arith)
  first-IsFirst (x ∷ xs) b e = elim (Bool-cases (test x)) [
    | inl t ↦
        let here : x ≡ b = ground arith in
        record {
          before = [];
          after = xs;
          parts = ap (λ y. y ∷ xs) here;
          none_before = tt;
          holds = subst P here (pass x t);
        }
    | inr f ↦
        let rest = first-IsFirst xs b (ground arith) in
        record {
          before = x ∷ rest.before;
          after = rest.after;
          parts = ap (λ l. x ∷ l) rest.parts;
          none_before = (fail x f, rest.none_before);
          holds = rest.holds;
        }
  ]

  pub reversed-All :
      (xs acc : List ℕ)
      → first test (reverse_aux xs acc) ≡ none
      → All N xs × (first test acc ≡ none)
  reversed-All [] acc e = (tt, e)
  reversed-All (x ∷ xs) acc e =
      let (all, rest) = reversed-All xs (x ∷ acc) e in
      elim (Bool-cases (test x)) [
        | inl t ↦ absurd (ground arith)
        | inr f ↦ ((fail x f, all), ground arith)
      ]

  pub first-IsLast :
      (xs acc : List ℕ) (b : ℕ)
      → first test (reverse_aux xs acc) ≡ some b
      → IsLast P N xs b ⊎ (All N xs × (first test acc ≡ some b))
  first-IsLast [] acc b e = inr (tt, e)
  first-IsLast (x ∷ xs) acc b e = elim (first-IsLast xs (x ∷ acc) b e) [
    | inl l ↦ inl (record {
      before = x ∷ l.before;
      after = l.after;
      parts = ap (λ ys. x ∷ ys) l.parts;
      none_after = l.none_after;
      holds = l.holds;
    })
    | inr (all, rest) ↦ elim (Bool-cases (test x)) [
      | inl t ↦
          let here : x ≡ b = ground arith in
          inl (record {
            before = [];
            after = xs;
            parts = ap (λ y. y ∷ xs) here;
            none_after = all;
            holds = subst P here (pass x t);
          })
      | inr f ↦ inr ((fail x f, all), ground arith)
    ]
  ]
