-- ===== src/Printf/Tests.antt =====
-- Numbers printed and read back, and a format.
use mit6_1810_why_tea_fo.Base.{
  ℕ, ◌%◌, ◌^◌, ◌≤◌, ◌≡◌, refl, true, false, some, List, [], ◌∷◌, ◌++◌, arith, length,
}
use mit6_1810_why_tea_fo.Printf.{printint, atoi, vprintf, register, emit}
use mit6_1810_why_tea_fo.Printf.Digits.{atoi-printint}
use mit6_1810_why_tea_fo.Printf.Bounds.{printint-bounded}
use mit6_1810_why_tea_fo.Printf.Format.{
  Piece, plain, decimal, very_long_unsigned, words, percent_sign,
}

-- 2 ^ 32 + 17, before a blank
atoi-printint_example :
    (out : List ℕ) × (printint 4294967313 10 false ≡ some out)
    × (atoi (out ++ (b' ' ∷ b'7' ∷ [])) ≡ 4294967313 % 2 ^ 32)
    × (length out ≤ 10)
atoi-printint_example = atoi-printint 4294967313 false (b' ' ∷ b'7' ∷ []) (omega arith) refl

-- -1 in hexadecimal, with a sign
printint-bounded_example :
    (out : List ℕ) × (printint 0xFFFFFFFFFFFFFFFF 16 true ≡ some out) × (length out ≤ 11)
printint-bounded_example = printint-bounded 0xFFFFFFFFFFFFFFFF 16 true (omega arith) (omega arith)

abbrev pieces : List Piece
pieces = words ∷ plain b'=' (omega arith) ∷ decimal ∷ very_long_unsigned ∷ percent_sign ∷ []

-- -12, as an `int` of 64 bits
negative : printint 0xFFFFFFFFFFFFFFF4 10 true ≡ some (b'-' ∷ b'1' ∷ b'2' ∷ [])
unfolding printint
negative = refl

-- "%ld" of 2 ^ 32 + 17
cut_off : vprintf (b'%' ∷ b'l' ∷ b'd' ∷ []) (register 4294967313 ∷ []) ≡ some (b'1' ∷ b'7' ∷ [])
unfolding vprintf emit
cut_off = refl
