-- ===== src/Grep/Language.antt =====
-- What a pattern means: the texts that it matches.
use mit6_1810_why_tea_fo.Base.{ℕ, ◌≡◌, ◌≢◌, ◌⊎◌, List, [], ◌∷◌}

-- The pattern character `c` fits the character `t`.
abbrev pub Fits : (c t : ℕ) → Type 0
Fits c t = (c ≡ b'.') ⊎ (c ≡ t)

-- `Here re text`: some beginning of `text` matches `re`. A star stands behind the character that it
-- repeats, and is itself a plain character at the front of a pattern; a dollar at the end of the
-- pattern stands for the end of the text.
pub data Here : List ℕ → List ℕ → Type 0 where
  done : {text : List ℕ} → Here [] text
  end : {c : ℕ} → c ≡ b'$' → Here (c ∷ []) []
  last : {c t : ℕ} {text : List ℕ} → c ≢ b'$' → Fits c t → Here (c ∷ []) (t ∷ text)
  one :
      {c d t : ℕ} {re text : List ℕ}
      → d ≢ b'*'
      → Fits c t
      → Here (d ∷ re) text
      → Here (c ∷ d ∷ re) (t ∷ text)
  star_zero : {c d : ℕ} {re text : List ℕ} → d ≡ b'*' → Here re text → Here (c ∷ d ∷ re) text
  star_more :
      {c d t : ℕ} {re text : List ℕ}
      → d ≡ b'*'
      → Fits c t
      → Here (c ∷ d ∷ re) text
      → Here (c ∷ d ∷ re) (t ∷ text)

-- Some part of `text` matches `re`.
pub data Somewhere (re : List ℕ) : List ℕ → Type 0 where
  at : {text : List ℕ} → Here re text → Somewhere re text
  later : {t : ℕ} {text : List ℕ} → Somewhere re text → Somewhere re (t ∷ text)

-- A caret in front ties the rest of the pattern to the beginning of the text.
pub data Matches : List ℕ → List ℕ → Type 0 where
  anchored : {c : ℕ} {re text : List ℕ} → c ≡ b'^' → Here re text → Matches (c ∷ re) text
  free : {c : ℕ} {re text : List ℕ} → c ≢ b'^' → Somewhere (c ∷ re) text → Matches (c ∷ re) text
  any : {text : List ℕ} → Matches [] text
