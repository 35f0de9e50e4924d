-- ===== src/Printf.antt =====
-- user/printf.c, and atoi of user/ulib.c. What is written to the descriptor is the list of its
-- bytes; a C string is the list of the characters before its NUL. An argument register holds 64
-- bits, as a number; a string argument is none for a null pointer.
pub mod Digits
pub mod Bounds
pub mod Format
mod Tests
use mit6_1810_why_tea_fo.Base.{
  ℕ, zero, suc, ◌+◌, ◌-◌, ◌*◌, ◌/◌, ◌%◌, ◌^◌, Bool, true, false, ◌&&◌, ◌||◌, Option, none, some,
  List, [], ◌∷◌, ◌++◌, ◌==◌, ltb, leb, if◌then◌else◌,
}

-- `digits[d]`, for d below 16
abbrev pub digit : ℕ → ℕ
digit d = if ltb d 10 then b'0' + d else b'A' + (d - 10)

-- The `do ... while` of printint on the 32 bits of `x`; `buf` has what was stored, the last first.
-- None means that the fuel ran out.
pub digits_loop : (fuel base x : ℕ) (buf : List ℕ) → Option (List ℕ)
digits_loop zero base x buf = none
digits_loop (suc fuel) base x buf =
    let buf' = digit (x % base) ∷ buf in
    let rest = digits_loop fuel base (x / base) buf' in if x / base == 0 then some buf' else rest

abbrev pub with_sign : Bool → Option (List ℕ) → Option (List ℕ)
with_sign neg none = none
with_sign neg (some out) = some (if neg then b'-' ∷ out else out)

abbrev pub is_negative : ℕ → Bool
is_negative xx = leb (2 ^ 63) xx

-- `uint x`: the low half of xx, or of -xx
abbrev pub magnitude : (neg : Bool) (xx : ℕ) → ℕ
magnitude neg xx = if neg then (2 ^ 64 - xx) % 2 ^ 32 else xx % 2 ^ 32

-- What printint writes. Numbers of 32 bits have 32 digits at most.
pub printint : (xx base : ℕ) (sgn : Bool) → Option (List ℕ)
unfolding digits_loop
printint xx base sgn =
    let neg = sgn && is_negative xx in with_sign neg (digits_loop 32 base (magnitude neg xx) [])

-- the loop of printptr, with `n` digits to go
pub pointer_loop : (n x : ℕ) → List ℕ
pointer_loop zero x = []
pointer_loop (suc n) x = digit (x / 2 ^ 60) ∷ pointer_loop n (x * 16 % 2 ^ 64)

pub printptr : ℕ → List ℕ
unfolding pointer_loop
printptr x = b'0' ∷ b'x' ∷ pointer_loop 16 x

pub data Arg : Type 0 where
  register : ℕ → Arg
  text : Option (List ℕ) → Arg

-- `va_arg(ap, int)`, as a `long long`
abbrev pub int_arg : ℕ → ℕ
int_arg a = if leb (2 ^ 31) (a % 2 ^ 32) then a % 2 ^ 32 + (2 ^ 64 - 2 ^ 32) else a % 2 ^ 32

abbrev pub is_digit : ℕ → Bool
is_digit c = leb b'0' c && leb c b'9'

-- the loop of atoi at the number `n`, of 32 bits
pub atoi_from : (n : ℕ) (s : List ℕ) → ℕ
atoi_from n [] = n
atoi_from n (c ∷ s) =
    let rest = atoi_from ((n * 10 + (c - b'0')) % 2 ^ 32) s in if is_digit c then rest else n

pub atoi : List ℕ → ℕ
unfolding atoi_from
atoi s = atoi_from 0 s

-- The conversions that vprintf tells apart; the two flags are for 64 bits and for a sign.
pub data Directive : Type 0 where
  number : (long : Bool) (base : ℕ) (sgn : Bool) → Directive
  pointer : Directive
  character : Directive
  string : Directive
  percent : Directive
  unknown : (c0 : ℕ) → Directive

-- The directive, and how many characters of the format it takes behind the first.
abbrev pub directive : (c0 c1 c2 : ℕ) → Directive × ℕ
directive c0 c1 c2 =
    if c0 == b'd'
    then (number false 10 true, 0)
    else if c0 == b'l' && c1 == b'd'
    then (number true 10 true, 1)
    else if c0 == b'l' && (c1 == b'l' && c2 == b'd')
    then (number true 10 true, 2)
    else if c0 == b'u'
    then (number false 10 false, 0)
    else if c0 == b'l' && c1 == b'u'
    then (number true 10 false, 1)
    else if c0 == b'l' && (c1 == b'l' && c2 == b'u')
    then (number true 10 false, 2)
    else if c0 == b'x'
    then (number false 16 false, 0)
    else if c0 == b'l' && c1 == b'x'
    then (number true 16 false, 1)
    else if c0 == b'l' && (c1 == b'l' && c2 == b'x')
    then (number true 16 false, 2)
    else if c0 == b'p'
    then (pointer, 0)
    else if c0 == b'c'
    then (character, 0)
    else if c0 == b's'
    then (string, 0)
    else if c0 == b'%'
    then (percent, 0)
    else (unknown c0, 0)

abbrev pub char_at : List ℕ → ℕ → ℕ
char_at [] i = 0
char_at (c ∷ s) zero = c
char_at (c ∷ s) (suc i) = char_at s i

-- The value that printint is given.
abbrev pub number_arg : (long sgn : Bool) (a : ℕ) → ℕ
number_arg true sgn a = a
number_arg false true a = int_arg a
number_arg false false a = a % 2 ^ 32

abbrev pub null_text : List ℕ
null_text = b'(' ∷ b'n' ∷ b'u' ∷ b'l' ∷ b'l' ∷ b')' ∷ []

abbrev pub text_or_null : Option (List ℕ) → List ℕ
text_or_null none = null_text
text_or_null (some s) = s

abbrev pub and_args : List Arg → Option (List ℕ) → Option (List ℕ × List Arg)
and_args args none = none
and_args args (some out) = some (out, args)

-- What a directive writes, and the arguments that are left; none if the next one is not there.
pub emit : Directive → List Arg → Option (List ℕ × List Arg)
unfolding printint printptr
emit (number long base sgn) (register a ∷ args) =
    and_args args (printint (number_arg long sgn a) base sgn)
emit (number long base sgn) args = none
emit pointer (register a ∷ args) = some (printptr a, args)
emit pointer args = none
emit character (register a ∷ args) = some (a % 256 ∷ [], args)
emit character args = none
emit string (text s ∷ args) = some (text_or_null s, args)
emit string args = none
emit percent args = some (b'%' ∷ [], args)
emit (unknown c0) args = some (b'%' ∷ c0 ∷ [], args)

abbrev pub put : List ℕ → Option (List ℕ) → Option (List ℕ)
put out none = none
put out (some rest) = some (out ++ rest)

-- The loop of vprintf; `state` is whether a '%' was read last, and `skip` the characters that a
-- directive has taken already.
pub format_loop : (state : Bool) (skip : ℕ) (fmt : List ℕ) (args : List Arg) → Option (List ℕ)
unfolding emit
format_loop state skip [] args = some []
format_loop state (suc k) (c0 ∷ fmt) args = format_loop state k fmt args
format_loop false zero (c0 ∷ fmt) args =
    let rest = format_loop (c0 == b'%') 0 fmt args in
    if c0 == b'%' then rest else put (c0 ∷ []) rest
format_loop true zero (c0 ∷ fmt) args =
    let (d, skip) = directive c0 (char_at fmt 0) (char_at fmt 1) in
    elim (emit d args) [
      | none ↦ none
      | some (out, args') ↦ put out (format_loop false skip fmt args')
    ]

pub vprintf : (fmt : List ℕ) (args : List Arg) → Option (List ℕ)
unfolding format_loop
vprintf fmt args = format_loop false 0 fmt args
