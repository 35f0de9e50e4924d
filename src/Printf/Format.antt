-- ===== src/Printf/Format.antt =====
-- vprintf as the concatenation of what the pieces of its format write.
use mit6_1810_why_tea_fo.Base.{
  ℕ, ◌≡◌, ◌≢◌, refl, ◌∙◌, ap, true, false, Option, none, some, List, [], ◌∷◌, ◌++◌, ◌==◌, ne→==,
}
use mit6_1810_why_tea_fo.Printf.{
  Arg, number, pointer, character, string, percent, emit, put, format_loop, vprintf,
}

-- A piece of a format: a character that is no '%', or a conversion.
pub data Piece : Type 0 where
  plain : (c : ℕ) → c ≢ b'%' → Piece
  decimal : Piece
  unsigned : Piece
  hexadecimal : Piece
  long_decimal : Piece
  long_unsigned : Piece
  long_hexadecimal : Piece
  very_long_decimal : Piece
  very_long_unsigned : Piece
  very_long_hexadecimal : Piece
  address : Piece
  letter : Piece
  words : Piece
  percent_sign : Piece

abbrev pub written : Piece → List ℕ
written (plain c ne) = c ∷ []
written decimal = b'%' ∷ b'd' ∷ []
written unsigned = b'%' ∷ b'u' ∷ []
written hexadecimal = b'%' ∷ b'x' ∷ []
written long_decimal = b'%' ∷ b'l' ∷ b'd' ∷ []
written long_unsigned = b'%' ∷ b'l' ∷ b'u' ∷ []
written long_hexadecimal = b'%' ∷ b'l' ∷ b'x' ∷ []
written very_long_decimal = b'%' ∷ b'l' ∷ b'l' ∷ b'd' ∷ []
written very_long_unsigned = b'%' ∷ b'l' ∷ b'l' ∷ b'u' ∷ []
written very_long_hexadecimal = b'%' ∷ b'l' ∷ b'l' ∷ b'x' ∷ []
written address = b'%' ∷ b'p' ∷ []
written letter = b'%' ∷ b'c' ∷ []
written words = b'%' ∷ b's' ∷ []
written percent_sign = b'%' ∷ b'%' ∷ []

abbrev pub meaning : Piece → List Arg → Option (List ℕ × List Arg)
meaning (plain c ne) args = some (c ∷ [], args)
meaning decimal args = emit (number false 10 true) args
meaning unsigned args = emit (number false 10 false) args
meaning hexadecimal args = emit (number false 16 false) args
meaning long_decimal args = emit (number true 10 true) args
meaning long_unsigned args = emit (number true 10 false) args
meaning long_hexadecimal args = emit (number true 16 false) args
meaning very_long_decimal args = emit (number true 10 true) args
meaning very_long_unsigned args = emit (number true 10 false) args
meaning very_long_hexadecimal args = emit (number true 16 false) args
meaning address args = emit pointer args
meaning letter args = emit character args
meaning words args = emit string args
meaning percent_sign args = emit percent args

abbrev pub format_of : List Piece → List ℕ
format_of [] = []
format_of (piece ∷ pieces) = written piece ++ format_of pieces

-- The pieces one after the other, each with the arguments that the ones before have left.
abbrev pub output : List Piece → List Arg → Option (List ℕ)
output [] args = some []
output (piece ∷ pieces) args = elim (meaning piece args) [
  | none ↦ none
  | some (out, args') ↦ put out (output pieces args')
]

format_step :
    (piece : Piece) (fmt : List ℕ) (args : List Arg)
    → format_loop false 0 (written piece ++ fmt) args ≡ elim (meaning piece args) [
      | none ↦ none
      | some (out, args') ↦ put out (format_loop false 0 fmt args')
    ]
unfolding format_loop
format_step (plain c ne) fmt args = let e : (c == b'%') ≡ false = ne→== c b'%' ne in rw e
format_step decimal fmt args = refl
format_step unsigned fmt args = refl
format_step hexadecimal fmt args = refl
format_step long_decimal fmt args = refl
format_step long_unsigned fmt args = refl
format_step long_hexadecimal fmt args = refl
format_step very_long_decimal fmt args = refl
format_step very_long_unsigned fmt args = refl
format_step very_long_hexadecimal fmt args = refl
format_step address fmt args = refl
format_step letter fmt args = refl
format_step words fmt args = refl
format_step percent_sign fmt args = refl

rest_output :
    (pieces : List Piece) (next : List Arg → Option (List ℕ)) (r : Option (List ℕ × List Arg))
    → ((args : List Arg) → next args ≡ output pieces args)
    → elim r as (λ _. Option (List ℕ)) [ none ↦ none | some (out, args') ↦ put out (next args') ]
      ≡ elim r [ none ↦ none | some (out, args') ↦ put out (output pieces args') ]
rest_output pieces next none h = refl
rest_output pieces next (some (out, args)) h = ap (put out) (h args)

-- vprintf of a format that is put together from plain characters and known conversions writes, one
-- after the other, what each of these writes of the arguments that the ones before it have left; it
-- has no output exactly if one of them has none, for example because its argument is not there.
pub vprintf_lem :
    (pieces : List Piece) (args : List Arg) → vprintf (format_of pieces) args ≡ output pieces args
unfolding vprintf format_loop
vprintf_lem [] args = refl
vprintf_lem (piece ∷ pieces) args =
    format_step piece (format_of pieces) args
    ∙ rest_output pieces (format_loop false 0 (format_of pieces)) (meaning piece args)
        (vprintf_lem pieces)
