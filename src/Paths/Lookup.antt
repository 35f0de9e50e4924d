-- ===== src/Paths/Lookup.antt =====
-- namex looks a path up element by element, and leaves one reference, to the inode that it returns.
use mit6_1810_why_tea_fo.Base.{
  ℕ, zero, suc, ◌+◌, ◌<◌, ◌≡◌, refl, Bool, true, false, Option, none, some, List, [], ◌∷◌, arith,
  ◌==◌, if◌then◌else◌, length, Bool-cases, inl, inr, ◌⊎◌,
}
use mit6_1810_why_tea_fo.Store.{update}
use mit6_1810_why_tea_fo.Paths.{
  Named, Result, get, put, ends, enter, round, namex_loop, namex, starts_at,
}
use mit6_1810_why_tea_fo.Paths.Elements.{elements, Skipped, skipelem-Skipped}

abbrev pub holds : Option ℕ → ℕ → ℕ
holds none x = 0
holds (some ip) x = if x == ip then 1 else 0

-- An end with the inode `ip`, one reference to it, and the name `name`.
pub record EndsAt (base : ℕ → ℕ) (ip : Option ℕ) (name : Option (List ℕ)) (r : Result Named)
    : Type 0 where
  pub refs : ℕ → ℕ
  pub ended : r ≡ ends ip name refs
  pub held : (x : ℕ) → refs x ≡ base x + holds ip x

pub Option-cases : (o : Option ℕ) → (o ≡ none) ⊎ ((a : ℕ) × (o ≡ some a))
Option-cases none = inl refl
Option-cases (some a) = inr (a, refl)

module _ (is_dir : ℕ → Bool) (dirlookup : ℕ → List ℕ → Option ℕ) where
  -- The inode that is reached from `ip` by looking up one name after the other.
  abbrev pub walk : (ip : ℕ) (ns : List (List ℕ)) → Option ℕ
  walk ip [] = some ip
  walk ip (n ∷ ns) =
      let rest : Option ℕ = elim (dirlookup ip n) [ none ↦ none | some next ↦ walk next ns ] in
      if is_dir ip then rest else none

  abbrev pub walk_on : (ns : List (List ℕ)) → Option ℕ → Option ℕ
  walk_on ns none = none
  walk_on ns (some next) = walk next ns

  pub walk_dir :
      (ip : ℕ) (n : List ℕ) (ns : List (List ℕ))
      → is_dir ip ≡ true
      → walk ip (n ∷ ns) ≡ walk_on ns (dirlookup ip n)
  walk_dir ip n ns e = elim (Option-cases (dirlookup ip n)) [
    | inl none_there ↦ rw (e, none_there)
    | inr (next, there) ↦ rw (e, there)
  ]

  Finds : (again : List ℕ → (ℕ → ℕ) → ℕ → Result Named) (rest : List ℕ) (base : ℕ → ℕ) → Type 0
  Finds again rest base =
      (refs : ℕ → ℕ) (ip : ℕ)
      → ((x : ℕ) → refs x ≡ base x + holds (some ip) x)
      → EndsAt base (walk ip (elements rest)) none (again rest refs ip)

  enter-EndsAt :
      (again : List ℕ → (ℕ → ℕ) → ℕ → Result Named) (rest : List ℕ) (refs base : ℕ → ℕ) (ip : ℕ)
      (found : Option ℕ)
      → Finds again rest base
      → ((x : ℕ) → refs x ≡ base x + holds (some ip) x)
      → EndsAt base
          (walk_on (elements rest) found)
          none
          (enter is_dir dirlookup false again rest refs ip found)
  unfolding get put update Finds
  enter-EndsAt again rest refs base ip none finds h = record {
    refs = put refs ip;
    ended = refl;
    held = λ x. ground (arith, h x, h ip);
  }
  enter-EndsAt again rest refs base ip (some next) finds h =
      finds (put (get refs next) ip) next (λ x. ground (arith, h x, h ip))

  round-EndsAt :
      (again : List ℕ → (ℕ → ℕ) → ℕ → Result Named) (refs base : ℕ → ℕ) (ip : ℕ) (path : List ℕ)
      {r : Option (List ℕ × List ℕ)}
      → Skipped path r
      → ((rest : List ℕ) → length rest < length path → Finds again rest base)
      → ((x : ℕ) → refs x ≡ base x + holds (some ip) x)
      → EndsAt base (walk ip (elements path)) none (round is_dir dirlookup false again refs ip r)
  unfolding put update
  round-EndsAt again refs base ip path (Skipped.no_element e) finds h =
      rw e (record { refs = refs; ended = refl; held = h })
  round-EndsAt again refs base ip path (Skipped.element_of rest name e shorter at_end) finds h =
      elim (Bool-cases (is_dir ip)) [
        | inl dir ↦
            rw (e, walk_dir ip name (elements rest) dir, round, dir)
              (enter-EndsAt again rest refs base ip (dirlookup ip name) (finds rest shorter) h)
        | inr other ↦
            rw (e, walk, round, other)
              (record { refs = put refs ip; ended = refl; held = λ x. ground (arith, h x, h ip) })
      ]

  namex_loop-Finds :
      (fuel : ℕ) (path : List ℕ) (base : ℕ → ℕ)
      → length path < fuel
      → Finds (namex_loop is_dir dirlookup false fuel) path base
  unfolding namex_loop Finds
  namex_loop-Finds zero path base enough refs ip h = absurd (omega arith)
  namex_loop-Finds (suc fuel) path base enough refs ip h =
      round-EndsAt (namex_loop is_dir dirlookup false fuel) refs base ip path
        (skipelem-Skipped path) (λ rest shorter. namex_loop-Finds fuel rest base (omega arith)) h

  -- namei comes to its end with the inode that is reached from the root, for a path that begins
  -- with a slash, and else from the working directory, by looking up the path's elements one after
  -- the other, or with none where an element is missing or its place is no directory. It leaves one
  -- more reference to the inode that it returns, and as many as before to any other.
  pub namei_lem :
      (path : List ℕ) (cwd : ℕ) (refs : ℕ → ℕ)
      → EndsAt refs
          (walk (starts_at path cwd) (elements path))
          none
          (namex is_dir dirlookup false path cwd refs)
  unfolding namex get update Finds
  namei_lem path cwd refs =
      namex_loop-Finds (length path + 1) path refs (omega arith) _ (starts_at path cwd)
        (λ x. ground arith)
