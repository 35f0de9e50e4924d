-- ===== src/Paths/Elements.antt =====
-- The elements of a path, and that skipelem takes them off one by one.
use mit6_1810_why_tea_fo.Base.{
  ℕ, ◌<◌, ◌≤◌, ◌≡◌, refl, ◌∙◌, true, false, Option, none, some, List, [], ◌∷◌, arith, ◌==◌,
  if◌then◌else◌, length, take, Bool-cases, inl, inr, ap, sym,
}
use mit6_1810_why_tea_fo.Paths.{
  is_end, dirsiz, skip_slashes, element, behind, take_element, skipelem,
}

-- `c` in front of the first part
abbrev pub onto_first : ℕ → List (List ℕ) → List (List ℕ)
onto_first c [] = (c ∷ []) ∷ []
onto_first c (part ∷ parts) = (c ∷ part) ∷ parts

-- The parts of a path between its slashes, the empty ones included.
pub parts : List ℕ → List (List ℕ)
parts [] = [] ∷ []
parts (c ∷ path) = if c == b'/' then [] ∷ parts path else onto_first c (parts path)

-- The parts that are not empty, cut to the length of a directory entry's name.
pub names : List (List ℕ) → List (List ℕ)
names [] = []
names ([] ∷ rest) = names rest
names ((c ∷ part) ∷ rest) = take dirsiz (c ∷ part) ∷ names rest

pub elements : List ℕ → List (List ℕ)
unfolding parts names
elements path = names (parts path)

skip-elements : (path : List ℕ) → elements (skip_slashes path) ≡ elements path
unfolding elements names parts skip_slashes
skip-elements [] = refl
skip-elements (c ∷ path) = elim (Bool-cases (c == b'/')) [
  | inl e ↦ rw e (skip-elements path)
  | inr e ↦ let same : skip_slashes (c ∷ path) ≡ c ∷ path = rw e in ap elements same
]

parts-element :
    (path : List ℕ)
    → (rest : List (List ℕ)) × (parts path ≡ element path ∷ rest)
      × (names rest ≡ elements (behind path))
unfolding elements names parts element behind
parts-element [] = ([], refl, refl)
parts-element (c ∷ path) = elim (Bool-cases (c == b'/')) [
  | inl e ↦ rw e (parts path, refl, rw e refl)
  | inr e ↦ let (rest, p, q) = parts-element path in rw (e, p) (rest, refl, q)
]

skip-first : (path : List ℕ) (c : ℕ) (s : List ℕ) → skip_slashes path ≡ c ∷ s → (c == b'/') ≡ false
unfolding skip_slashes
skip-first [] c s e = ground arith
skip-first (d ∷ path) c s e = elim (Bool-cases (d == b'/')) [
  | inl slash ↦
      let same : skip_slashes (d ∷ path) ≡ skip_slashes path = rw slash in
      skip-first path c s (sym same ∙ e)
  | inr other ↦
      let same : skip_slashes (d ∷ path) ≡ d ∷ path = rw other in
      let heads : d ∷ path ≡ c ∷ s = sym same ∙ e in ground arith
]

-- Whether a path is at its end, for one without a leading slash.
pub data Rest (rest : List ℕ) : Type 0 where
  finished : is_end rest ≡ true → elements rest ≡ [] → Rest rest
  more :
      (n : List ℕ) (ns : List (List ℕ)) → is_end rest ≡ false → elements rest ≡ n ∷ ns → Rest rest

first-elements :
    (c : ℕ) (s : List ℕ)
    → (c == b'/') ≡ false
    → (ns : List (List ℕ)) × (elements (c ∷ s) ≡ take dirsiz (element (c ∷ s)) ∷ ns)
      × (ns ≡ elements (behind (c ∷ s)))
unfolding elements names element
first-elements c s plain =
    let named : element (c ∷ s) ≡ c ∷ element s = rw plain in
    let (rest, p, q) = parts-element (c ∷ s) in (names rest, rw (p, named), q)

skipped-Rest : (path s : List ℕ) → skip_slashes path ≡ s → Rest s
unfolding elements names
skipped-Rest path [] e = finished refl refl
skipped-Rest path (c ∷ s) e =
    let (ns, p, q) = first-elements c s (skip-first path c s e) in more _ ns refl p

pub data Skipped (path : List ℕ) : Option (List ℕ × List ℕ) → Type 0 where
  no_element : elements path ≡ [] → Skipped path none
  element_of :
      (rest name : List ℕ)
      → elements path ≡ name ∷ elements rest
      → length rest < length path
      → Rest rest
      → Skipped path (some (rest, name))

skip-length : (path : List ℕ) → length (skip_slashes path) ≤ length path
unfolding skip_slashes
skip-length [] = omega arith
skip-length (c ∷ path) = ground (arith, skip-length path)

behind-length : (path : List ℕ) → length (behind path) ≤ length path
unfolding behind
behind-length [] = omega arith
behind-length (c ∷ path) = ground (arith, behind-length path)

take-Skipped : (path s : List ℕ) → skip_slashes path ≡ s → Skipped path (take_element s)
unfolding elements names element behind
take-Skipped path [] e = no_element (sym (skip-elements path) ∙ ap elements e)
take-Skipped path (c ∷ s) e =
    let plain = skip-first path c s e in
    let shorter : behind (c ∷ s) ≡ behind s = rw plain in
    let (ns, p, q) = first-elements c s plain in
    element_of _ _
      (sym (skip-elements path)
        ∙ ap elements e
        ∙ p
        ∙ ap (λ r. take dirsiz (element (c ∷ s)) ∷ r) (q ∙ sym (skip-elements (behind (c ∷ s)))))
      (omega (
        arith,
        skip-length (behind (c ∷ s)),
        ap length shorter,
        behind-length s,
        ap length e,
        skip-length path,
      ))
      (skipped-Rest (behind (c ∷ s)) _ refl)

-- skipelem returns no path for one without elements: one that is empty or all slashes. Of
-- any other it takes off the first element, cut to DIRSIZ characters, and returns a shorter path
-- with the elements that are left, which is empty exactly if none is.
pub skipelem-Skipped : (path : List ℕ) → Skipped path (skipelem path)
unfolding skipelem
skipelem-Skipped path = take-Skipped path (skip_slashes path) refl
