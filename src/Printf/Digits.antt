-- ===== src/Printf/Digits.antt =====
-- The digits of a number: reading them back, and how many there are.
use native.Mathlib.Numerals.{unary_clauses}
use mit6_1810_why_tea_fo.Base.{
  ℕ, zero, suc, ◌+◌, ◌-◌, ◌*◌, ◌/◌, ◌%◌, ◌^◌, ◌<◌, ◌≤◌, ◌≡◌, refl, ◌∙◌, Bool, true, false, ◌&&◌,
  Option, some, List, [], ◌∷◌, ◌++◌, arith, ◌==◌, Bool-cases, inl, inr, ==→eq, eq→==, length,
}
use mit6_1810_why_tea_fo.Printf.{
  digit, digits_loop, is_negative, printint, is_digit, atoi_from, atoi,
}

abbrev pub begins_with_digit : List ℕ → Bool
begins_with_digit [] = false
begins_with_digit (c ∷ s) = is_digit c

-- What the loop leaves, by the number that is read when its digits have been read.
record Reads (x : ℕ) (buf : List ℕ) (k : ℕ) (r : Option (List ℕ)) : Type 0 where
  out : List ℕ
  ended : r ≡ some out
  value : (rest : List ℕ) → atoi_from 0 (out ++ rest) ≡ atoi_from x (buf ++ rest)
  short : length out ≤ length buf + k

digit_step :
    (x : ℕ) (rest : List ℕ)
    → x < 2 ^ 32
    → atoi_from (x / 10) (digit (x % 10) ∷ rest) ≡ atoi_from x rest
unfolding atoi_from
digit_step x rest low =
    let is : is_digit (digit (x % 10)) ≡ true = ground arith in
    let value : (x / 10 * 10 + (digit (x % 10) - b'0')) % 2 ^ 32 ≡ x = ground arith in
    rw (is, value) refl

zero_step :
    (x : ℕ) (rest : List ℕ) → x < 10 → atoi_from 0 (digit (x % 10) ∷ rest) ≡ atoi_from x rest
unfolding atoi_from
zero_step x rest low =
    let is : is_digit (digit (x % 10)) ≡ true = ground arith in
    let value : (0 * 10 + (digit (x % 10) - b'0')) % 2 ^ 32 ≡ x = ground arith in
    rw (is, value) refl

pub ten-pow : (k : ℕ) → 10 ^ suc k ≡ 10 * 10 ^ k
ten-pow k = simp unary_clauses (omega arith)

Reads-more :
    (x k : ℕ) (buf : List ℕ) {r : Option (List ℕ)}
    → x < 2 ^ 32
    → Reads (x / 10) (digit (x % 10) ∷ buf) k r
    → Reads x buf (suc k) r
Reads-more x k buf low h = record {
  out = h.out;
  ended = h.ended;
  value = λ rest. h.value rest ∙ digit_step x (buf ++ rest) low;
  short = omega (arith, h.short);
}

-- The last digit.
last-Reads : (x k : ℕ) (buf : List ℕ) → x < 10 → Reads x buf (suc k) (some (digit (x % 10) ∷ buf))
last-Reads x k buf low = record {
  out = digit (x % 10) ∷ buf;
  ended = refl;
  value = λ rest. zero_step x (buf ++ rest) low;
  short = omega arith;
}

-- A number of `k + 1` digits at most.
digits_loop-Reads :
    (fuel k x : ℕ) (buf : List ℕ)
    → k ≤ fuel
    → x < 10 ^ suc k
    → x < 2 ^ 32
    → Reads x buf (suc k) (digits_loop (suc fuel) 10 x buf)
unfolding digits_loop
digits_loop-Reads fuel zero x buf enough small low =
    let last : (x / 10 == 0) ≡ true = eq→== _ _ (omega arith) in
    rw last (last-Reads x 0 buf (omega arith))
digits_loop-Reads zero (suc k) x buf enough small low = absurd (omega arith)
digits_loop-Reads (suc fuel) (suc k) x buf enough small low = elim (Bool-cases (x / 10 == 0)) [
  | inl last ↦ rw last (last-Reads x (suc k) buf (omega (arith, ==→eq _ _ last)))
  | inr more ↦
      let fewer : x / 10 < 10 ^ suc k = omega (arith, ten-pow (suc k)) in
      rw more (
        Reads-more x (suc k) buf low (
          digits_loop-Reads fuel k (x / 10) (digit (x % 10) ∷ buf) (omega arith) fewer
            (omega arith)))
]

atoi_from-stops : (x : ℕ) (rest : List ℕ) → begins_with_digit rest ≡ false → atoi_from x rest ≡ x
unfolding atoi_from
atoi_from-stops x [] e = refl
atoi_from-stops x (c ∷ rest) e = rw e

-- printint in decimal of a number that is not negative comes to its end, and atoi reads what it
-- writes, followed by anything that does not begin with a digit, as the low 32 bits of the number.
-- It writes ten characters at most, of the twenty that its buffer has room for.
pub atoi-printint :
    (xx : ℕ) (sgn : Bool) (rest : List ℕ)
    → xx < 2 ^ 63
    → begins_with_digit rest ≡ false
    → (out : List ℕ) × (printint xx 10 sgn ≡ some out)
      × (atoi (out ++ rest) ≡ xx % 2 ^ 32)
      × (length out ≤ 10)
unfolding printint atoi
atoi-printint xx sgn rest low e =
    let plus : (sgn && is_negative xx) ≡ false = ground arith in
    let h = digits_loop-Reads 31 9 (xx % 2 ^ 32) [] (omega arith) (omega arith) (omega arith) in
    (h.out, rw (plus, h.ended) refl, h.value rest ∙ atoi_from-stops (xx % 2 ^ 32) rest e, h.short)
