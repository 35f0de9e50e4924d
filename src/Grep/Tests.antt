-- ===== src/Grep/Tests.antt =====
-- Patterns and texts, and the matcher's theorems at them.
use mit6_1810_why_tea_fo.Base.{ℕ, ◌≡◌, ◌↔◌, refl, true, false, List, [], ◌∷◌}
use mit6_1810_why_tea_fo.Grep.{matchhere, match}
use mit6_1810_why_tea_fo.Grep.Language.{Here, Matches}
use mit6_1810_why_tea_fo.Grep.Correct.{matchhere_iff, match_iff}

-- b*c$
abbrev pattern' : List ℕ
pattern' = b'b' ∷ b'*' ∷ b'c' ∷ b'$' ∷ []

abbrev text : List ℕ
text = b'a' ∷ b'b' ∷ b'b' ∷ b'c' ∷ []

match_found : match pattern' text ≡ true
unfolding match
match_found = refl

match_anchored : match (b'^' ∷ pattern') text ≡ false
unfolding match
match_anchored = refl

matchhere_iff_example : (matchhere pattern' text ≡ true) ↔ Here pattern' text
matchhere_iff_example = matchhere_iff pattern' text

match_iff_example : (match pattern' text ≡ true) ↔ Matches pattern' text
match_iff_example = match_iff pattern' text
