-- ===== src/Printf/Bounds.antt =====
-- How long the printed numbers are, in any of the bases that vprintf uses.
use native.Mathlib.Nat.{mul-div-le, mul-le-mul_right}
use mit6_1810_why_tea_fo.Base.{
  ℕ, zero, suc, ◌+◌, ◌*◌, ◌/◌, ◌%◌, ◌^◌, ◌<◌, ◌≤◌, ◌≡◌, refl, ap, Bool, true, false, ◌&&◌, Option,
  some, List, [], ◌∷◌, arith, ◌==◌, Bool-cases, inl, inr, eq→==, length,
}
use mit6_1810_why_tea_fo.Printf.{digit, digits_loop, with_sign, is_negative, magnitude, printint}
use mit6_1810_why_tea_fo.Printf.Digits.{ten-pow}

shorter : (base x k : ℕ) → 10 ≤ base → x < 10 * k → x / base < k
shorter base x k big small = omega (arith, mul-div-le x base, mul-le-mul_right (x / base) big)

-- A number of `k + 1` decimal digits at most.
digits_loop-short :
    (fuel k base x : ℕ) (buf : List ℕ)
    → 10 ≤ base
    → k ≤ fuel
    → x < 10 ^ suc k
    → (out : List ℕ) × (digits_loop (suc fuel) base x buf ≡ some out)
      × (length out ≤ length buf + suc k)
unfolding digits_loop
digits_loop-short fuel zero base x buf big enough small =
    let last : (x / base == 0) ≡ true =
      eq→== _ _ (omega (arith, shorter base x 1 big (omega arith))) in
    (digit (x % base) ∷ buf, rw last refl, omega arith)
digits_loop-short zero (suc k) base x buf big enough small = absurd (omega arith)
digits_loop-short (suc fuel) (suc k) base x buf big enough small =
    let fewer : x / base < 10 ^ suc k =
      shorter base x (10 ^ suc k) big (omega (arith, ten-pow (suc k))) in
    let (out, ended, short) =
      digits_loop-short fuel k base (x / base) (digit (x % base) ∷ buf) big (omega arith) fewer in
    elim (Bool-cases (x / base == 0)) [
      | inl last ↦ (digit (x % base) ∷ buf, rw last refl, omega arith)
      | inr more ↦ (out, rw more ended, omega (arith, short))
    ]

with_sign-short :
    (neg : Bool) (r : Option (List ℕ)) (out : List ℕ)
    → r ≡ some out
    → length out ≤ 10
    → (out' : List ℕ) × (with_sign neg r ≡ some out') × (length out' ≤ 11)
with_sign-short true r out e short = (b'-' ∷ out, ap (with_sign true) e, omega (arith, short))
with_sign-short false r out e short = (out, ap (with_sign false) e, omega (arith, short))

-- printint comes to its end for any number and in any base from 10 to 16, which has those of its
-- callers, and stores eleven characters at most, of the twenty that its buffer has room for.
pub printint-bounded :
    (xx base : ℕ) (sgn : Bool)
    → 10 ≤ base
    → base ≤ 16
    → (out : List ℕ) × (printint xx base sgn ≡ some out) × (length out ≤ 11)
unfolding printint
printint-bounded xx base sgn low high =
    let neg = sgn && is_negative xx in
    let (out, ended, short) =
      digits_loop-short 31 9 base (magnitude neg xx) [] low (omega arith) (ground arith) in
    with_sign-short neg (digits_loop 32 base (magnitude neg xx) []) out ended short
