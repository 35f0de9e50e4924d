-- ===== src/Grep/Correct.antt =====
-- The matcher decides the language of the pattern.
use mit6_1810_why_tea_fo.Base.{
  ℕ, ◌≡◌, ◌↔◌, inl, inr, refl, Bool, true, false≢true, ◌||◌, List, [], ◌∷◌, arith, ◌==◌, Bool-cases,
  ==→eq, ==→ne, eq→==, ne→==,
}
use mit6_1810_why_tea_fo.Grep.{matchstar, matchhere, match_from, match}
use mit6_1810_why_tea_fo.Grep.Language.{
  Fits, Here, done, end, last, one, star_zero, star_more, Somewhere, at, later, Matches, anchored,
  free, any,
}

matchstar-Here :
    (c d : ℕ) (re text : List ℕ) (here : List ℕ → Bool)
    → d ≡ b'*'
    → ((t : List ℕ) → here t ≡ true → Here re t)
    → matchstar c here text ≡ true
    → Here (c ∷ d ∷ re) text
unfolding matchstar
matchstar-Here c d re [] here star sound m = star_zero star (sound [] m)
matchstar-Here c d re (t ∷ text) here star sound m = elim (Bool-cases (here (t ∷ text))) [
  | inl yes' ↦ star_zero star (sound (t ∷ text) yes')
  | inr no' ↦ elim (Bool-cases (t == c || c == b'.')) [
    | inl fits ↦
        star_more star (ground arith)
          (matchstar-Here c d re text here star sound (rw (no', fits) at m))
    | inr other ↦ absurd (false≢true (rw (no', other) at m))
  ]
]

matchhere-Here : (re text : List ℕ) → matchhere re text ≡ true → Here re text
unfolding matchhere
matchhere-Here [] text m = done
matchhere-Here (c ∷ []) [] m = end (ground arith)
matchhere-Here (c ∷ []) (t ∷ text) m = last (ground arith) (ground arith)
matchhere-Here (c ∷ d ∷ re) [] m = elim (Bool-cases (d == b'*')) [
  | inl star ↦
      matchstar-Here c d re [] (matchhere re) (==→eq d _ star) (matchhere-Here re) (rw star at m)
  | inr plain ↦ absurd (false≢true (rw plain at m))
]
matchhere-Here (c ∷ d ∷ re) (t ∷ text) m = elim (Bool-cases (d == b'*')) [
  | inl star ↦
      matchstar-Here c d re (t ∷ text) (matchhere re) (==→eq d _ star) (matchhere-Here re)
        (rw star at m)
  | inr plain ↦ elim (Bool-cases (c == b'.' || c == t)) [
    | inl fits ↦
        one (==→ne d _ plain) (ground arith) (matchhere-Here (d ∷ re) text (rw (plain, fits) at m))
    | inr other ↦ absurd (false≢true (rw (plain, other) at m))
  ]
]

matchstar_zero :
    (c : ℕ) (here : List ℕ → Bool) (text : List ℕ) → here text ≡ true → matchstar c here text ≡ true
unfolding matchstar
matchstar_zero c here [] h = h
matchstar_zero c here (t ∷ text) h = rw h

matchstar_more :
    (c : ℕ) (here : List ℕ → Bool) (t : ℕ) (text : List ℕ)
    → Fits c t
    → matchstar c here text ≡ true
    → matchstar c here (t ∷ text) ≡ true
unfolding matchstar
matchstar_more c here t text fits h = ground arith

matchhere_of_Here : {re text : List ℕ} → Here re text → matchhere re text ≡ true
unfolding matchhere
matchhere_of_Here done = refl
matchhere_of_Here (end {c} e) = ground arith
matchhere_of_Here (last {c} {t} {text} ne fits) = ground arith
matchhere_of_Here (one {c} {d} {t} {re} {text} plain fits h) =
    rw (ne→== d _ plain) (ground (arith, matchhere_of_Here h))
matchhere_of_Here (star_zero {c} {d} {re} {text} star h) =
    rw (eq→== d _ star) (matchstar_zero c (matchhere re) text (matchhere_of_Here h))
matchhere_of_Here (star_more {c} {d} {t} {re} {text} star fits h) =
    rw (eq→== d _ star)
      (matchstar_more c (matchhere re) t text fits (rw (eq→== d _ star) at (matchhere_of_Here h)))

-- matchhere returns 1 exactly when a beginning of the text matches the pattern.
pub matchhere_iff : (re text : List ℕ) → (matchhere re text ≡ true) ↔ Here re text
matchhere_iff re text = (matchhere-Here re text, matchhere_of_Here)

match_from-Somewhere : (re text : List ℕ) → match_from re text ≡ true → Somewhere re text
unfolding match_from
match_from-Somewhere re [] m = at (matchhere-Here re [] m)
match_from-Somewhere re (t ∷ text) m = elim (Bool-cases (matchhere re (t ∷ text))) [
  | inl here ↦ at (matchhere-Here re (t ∷ text) here)
  | inr other ↦ later (match_from-Somewhere re text (rw other at m))
]

match_from_at : (re text : List ℕ) → matchhere re text ≡ true → match_from re text ≡ true
unfolding match_from
match_from_at re [] h = h
match_from_at re (t ∷ text) h = rw h

match_from_of_Somewhere : {re text : List ℕ} → Somewhere re text → match_from re text ≡ true
unfolding match_from
match_from_of_Somewhere {re} (at {text} h) = match_from_at re text (matchhere_of_Here h)
match_from_of_Somewhere {re} (later {t} {text} s) = ground (arith, match_from_of_Somewhere s)

match-Matches : (re text : List ℕ) → match re text ≡ true → Matches re text
unfolding match
match-Matches [] text m = any
match-Matches (c ∷ re) text m = elim (Bool-cases (c == b'^')) [
  | inl caret ↦ anchored (==→eq c _ caret) (matchhere-Here re text (rw caret at m))
  | inr plain ↦ free (==→ne c _ plain) (match_from-Somewhere (c ∷ re) text (rw plain at m))
]

match_of_Matches : {re text : List ℕ} → Matches re text → match re text ≡ true
unfolding match
match_of_Matches (anchored {c} e h) = rw (eq→== c _ e) (matchhere_of_Here h)
match_of_Matches (free {c} ne s) = rw (ne→== c _ ne) (match_from_of_Somewhere s)
match_of_Matches (any {text}) = match_from_at [] text (matchhere_of_Here (done {text = text}))

-- match returns 1 exactly when the text has a part that matches the pattern, at its beginning where
-- the pattern begins with a caret.
pub match_iff : (re text : List ℕ) → (match re text ≡ true) ↔ Matches re text
match_iff re text = (match-Matches re text, match_of_Matches)
