-- ===== src/Shell/Tokens.antt =====
-- What gettoken and peek do at a word and at a redirection.
use mit6_1810_why_tea_fo.Base.{
  ℕ, ◌≡◌, refl, ◌∙◌, ap, true, false, ◌||◌, List, [], ◌∷◌, ◌++◌, elem, arith, ◌==◌,
}
use mit6_1810_why_tea_fo.Shell.{
  whitespace, symbols, skip_space, word, behind_word, is_word_char, token, gettoken, peek,
  starts_with,
}
use mit6_1810_why_tea_fo.Shell.Grammar.{all_word_chars, is_word}

word-append :
    (w s : List ℕ)
    → all_word_chars w ≡ true
    → (word (w ++ (b' ' ∷ s)) ≡ w) × (behind_word (w ++ (b' ' ∷ s)) ≡ b' ' ∷ s)
unfolding word behind_word
word-append [] s h = (refl, refl)
word-append (c ∷ w) s h =
    let first : is_word_char c ≡ true = ground arith in
    let others : all_word_chars w ≡ true = ground arith in
    let (a, b) = word-append w s others in (rw (first, a), rw (first, b))

pub skip_space-word : (w s : List ℕ) → is_word w ≡ true → skip_space (w ++ s) ≡ w ++ s
unfolding skip_space
skip_space-word [] s h = ground arith
skip_space-word (c ∷ w) s h = let plain : elem c whitespace ≡ false = ground arith in rw plain

token-word :
    (c : ℕ) (s : List ℕ)
    → is_word_char c ≡ true
    → token (c ∷ s)
      ≡ record { ret = b'a'; text = word (c ∷ s); rest = skip_space (behind_word (c ∷ s)) }
token-word c s h =
    let a : (c == b'|' || (c == b'(' || (c == b')' || (c == b';' || (c == b'&' || c == b'<')))))
        ≡ false =
      ground arith in
    let b : (c == b'>') ≡ false = ground arith in rw (a, b)

pub gettoken-word :
    (w s : List ℕ)
    → is_word w ≡ true
    → gettoken (w ++ (b' ' ∷ s)) ≡ record { ret = b'a'; text = w; rest = skip_space s }
unfolding gettoken skip_space
gettoken-word [] s h = ground arith
gettoken-word (c ∷ w) s h =
    let all : all_word_chars (c ∷ w) ≡ true = h in
    let (a, b) = word-append (c ∷ w) s all in
    let plain : elem c whitespace ≡ false = ground arith in
    rw plain (token-word c (w ++ (b' ' ∷ s)) (ground arith) ∙ rw (a, b) refl)

-- A word is none of the symbols.
pub peek-word :
    (toks w s : List ℕ)
    → is_word w ≡ true
    → ((c : ℕ) → elem c symbols ≡ false → elem c toks ≡ false)
    → peek toks (w ++ s) ≡ false
unfolding peek
peek-word toks [] s h only = ground arith
peek-word toks (c ∷ w) s h only =
    ap (starts_with toks) (skip_space-word (c ∷ w) s h) ∙ only c (ground arith)
