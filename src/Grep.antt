-- ===== src/Grep.antt =====
-- The regular expression matcher of user/grep.c. A C string is the list of the characters before
-- its NUL, so that `*text == '\0'` is the empty list.
pub mod Language
pub mod Correct
mod Tests
use mit6_1810_why_tea_fo.Base.{ℕ, Bool, true, false, ◌&&◌, ◌||◌, List, [], ◌∷◌, ◌==◌, if◌then◌else◌}

-- The loop of matchstar, with `here` for `matchhere(re, ·)`.
pub matchstar : (c : ℕ) → (here : List ℕ → Bool) → (text : List ℕ) → Bool
matchstar c here [] = here []
matchstar c here (t ∷ text) =
    if here (t ∷ text) then true else if t == c || c == b'.' then matchstar c here text else false

-- `*text!='\0' && (c=='.' || c==*text)`, and then the rest of the pattern at the next character
abbrev pub match_one : (c : ℕ) → (here : List ℕ → Bool) → (text : List ℕ) → Bool
match_one c here [] = false
match_one c here (t ∷ text) = if c == b'.' || c == t then here text else false

-- `*text == '\0'`
abbrev pub at_end : List ℕ → Bool
at_end [] = true
at_end (t ∷ text) = false

pub matchhere : (re text : List ℕ) → Bool
unfolding matchstar
matchhere [] text = true
matchhere (c ∷ []) text = if c == b'$' then at_end text else match_one c (λ t. true) text
matchhere (c ∷ d ∷ re) text =
    if d == b'*' then matchstar c (matchhere re) text else match_one c (matchhere (d ∷ re)) text

-- the `do ... while` of match
pub match_from : (re text : List ℕ) → Bool
unfolding matchhere
match_from re [] = matchhere re []
match_from re (t ∷ text) = if matchhere re (t ∷ text) then true else match_from re text

pub match : (re text : List ℕ) → Bool
unfolding match_from
match [] text = match_from [] text
match (c ∷ re) text = if c == b'^' then matchhere re text else match_from (c ∷ re) text
