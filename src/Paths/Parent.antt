-- ===== src/Paths/Parent.antt =====
-- namex for the parent: all elements but the last are looked up, and the last one is the name.
use mit6_1810_why_tea_fo.Base.{
  ℕ, zero, suc, ◌+◌, ◌<◌, ◌≡◌, refl, ◌∙◌, ap, Bool, true, false, Option, none, some, List, [], ◌∷◌,
  arith, if◌then◌else◌, length, Bool-cases, inl, inr,
}
use mathlib.Core.Path.{subst}
use mit6_1810_why_tea_fo.Store.{update}
use mit6_1810_why_tea_fo.Paths.{Named, Result, get, put, enter, round, namex_loop, namex, starts_at}
use mit6_1810_why_tea_fo.Paths.Elements.{elements, Skipped, skipelem-Skipped, Rest}
use mit6_1810_why_tea_fo.Paths.Lookup.{holds, EndsAt, walk, walk_on, walk_dir}

abbrev pub all_but_last : List ℕ → List (List ℕ) → List (List ℕ)
all_but_last n [] = []
all_but_last n (m ∷ ns) = n ∷ all_but_last m ns

abbrev pub last_of : List ℕ → List (List ℕ) → List ℕ
last_of n [] = n
last_of n (m ∷ ns) = last_of m ns

module _ (is_dir : ℕ → Bool) (dirlookup : ℕ → List ℕ → Option ℕ) where
  -- A directory, and the name to look up in it.
  abbrev pub in_dir : List ℕ → Option ℕ → Option (ℕ × List ℕ)
  in_dir name none = none
  in_dir name (some d) = if is_dir d then some (d, name) else none

  abbrev pub parent : (ip : ℕ) (ns : List (List ℕ)) → Option (ℕ × List ℕ)
  parent ip [] = none
  parent ip (n ∷ ns) = in_dir (last_of n ns) (walk is_dir dirlookup ip (all_but_last n ns))

  abbrev pub EndsWith : (base : ℕ → ℕ) (o : Option (ℕ × List ℕ)) (r : Result Named) → Type 0
  EndsWith base none r = EndsAt base none none r
  EndsWith base (some (d, name)) r = EndsAt base (some d) (some name) r

  abbrev parent_on : (n : List ℕ) (ns : List (List ℕ)) → Option ℕ → Option (ℕ × List ℕ)
  parent_on n ns none = none
  parent_on n ns (some next) = parent next (n ∷ ns)

  parent_on-eq :
      (n : List ℕ) (ns : List (List ℕ)) (found : Option ℕ)
      → in_dir (last_of n ns) (walk_on is_dir dirlookup (all_but_last n ns) found)
        ≡ parent_on n ns found
  parent_on-eq n ns none = refl
  parent_on-eq n ns (some next) = refl

  parent_dir :
      (ip : ℕ) (n m : List ℕ) (ns : List (List ℕ))
      → is_dir ip ≡ true
      → parent ip (n ∷ m ∷ ns) ≡ parent_on m ns (dirlookup ip n)
  parent_dir ip n m ns e =
      ap (in_dir (last_of m ns)) (walk_dir is_dir dirlookup ip n (all_but_last m ns) e)
      ∙ parent_on-eq m ns (dirlookup ip n)

  parent_other :
      (ip : ℕ) (n : List ℕ) (ns : List (List ℕ)) → is_dir ip ≡ false → parent ip (n ∷ ns) ≡ none
  parent_other ip n [] e = rw e
  parent_other ip n (m ∷ ns) e = rw e

  FindsParent :
      (again : List ℕ → (ℕ → ℕ) → ℕ → Result Named) (rest : List ℕ) (base : ℕ → ℕ) → Type 0
  FindsParent again rest base =
      (refs : ℕ → ℕ) (ip : ℕ)
      → ((x : ℕ) → refs x ≡ base x + holds (some ip) x)
      → EndsWith base (parent ip (elements rest)) (again rest refs ip)

  enter-EndsWith :
      (again : List ℕ → (ℕ → ℕ) → ℕ → Result Named) (rest : List ℕ) (refs base : ℕ → ℕ) (ip : ℕ)
      (n : List ℕ) (ns : List (List ℕ)) (found : Option ℕ)
      → elements rest ≡ n ∷ ns
      → FindsParent again rest base
      → ((x : ℕ) → refs x ≡ base x + holds (some ip) x)
      → EndsWith base (parent_on n ns found) (enter is_dir dirlookup true again rest refs ip found)
  unfolding get put update FindsParent
  enter-EndsWith again rest refs base ip n ns none e finds h = record {
    refs = put refs ip;
    ended = refl;
    held = λ x. ground (arith, h x, h ip);
  }
  enter-EndsWith again rest refs base ip n ns (some next) e finds h =
      subst
        (λ (l : List (List ℕ)).
          EndsWith base (parent next l) (again rest (put (get refs next) ip) next))
        e (finds (put (get refs next) ip) next (λ x. ground (arith, h x, h ip)))

  dir_round :
      (again : List ℕ → (ℕ → ℕ) → ℕ → Result Named) (refs base : ℕ → ℕ) (ip : ℕ)
      (rest name : List ℕ)
      → is_dir ip ≡ true
      → Rest rest
      → FindsParent again rest base
      → ((x : ℕ) → refs x ≡ base x + holds (some ip) x)
      → EndsWith base
          (parent ip (name ∷ elements rest))
          (round is_dir dirlookup true again refs ip (some (rest, name)))
  dir_round again refs base ip rest name dir (Rest.finished stop e) finds h =
      rw (e, dir, stop) (record { refs = refs; ended = refl; held = h })
  dir_round again refs base ip rest name dir (Rest.more n ns go e) finds h =
      rw (e, parent_dir ip name n ns dir, round, dir, go)
        (enter-EndsWith again rest refs base ip n ns (dirlookup ip name) e finds h)

  round-EndsWith :
      (again : List ℕ → (ℕ → ℕ) → ℕ → Result Named) (refs base : ℕ → ℕ) (ip : ℕ) (path : List ℕ)
      {r : Option (List ℕ × List ℕ)}
      → Skipped path r
      → ((rest : List ℕ) → length rest < length path → FindsParent again rest base)
      → ((x : ℕ) → refs x ≡ base x + holds (some ip) x)
      → EndsWith base (parent ip (elements path)) (round is_dir dirlookup true again refs ip r)
  unfolding put update
  round-EndsWith again refs base ip path (Skipped.no_element e) finds h =
      rw e (record { refs = put refs ip; ended = refl; held = λ x. ground (arith, h x, h ip) })
  round-EndsWith again refs base ip path (Skipped.element_of rest name e shorter at_end) finds h =
      elim (Bool-cases (is_dir ip)) [
        | inl dir ↦ rw e (dir_round again refs base ip rest name dir at_end (finds rest shorter) h)
        | inr other ↦
            rw (e, parent_other ip name (elements rest) other, round, other)
              (record { refs = put refs ip; ended = refl; held = λ x. ground (arith, h x, h ip) })
      ]

  namex_loop-FindsParent :
      (fuel : ℕ) (path : List ℕ) (base : ℕ → ℕ)
      → length path < fuel
      → FindsParent (namex_loop is_dir dirlookup true fuel) path base
  unfolding namex_loop FindsParent
  namex_loop-FindsParent zero path base enough refs ip h = absurd (omega arith)
  namex_loop-FindsParent (suc fuel) path base enough refs ip h =
      round-EndsWith (namex_loop is_dir dirlookup true fuel) refs base ip path
        (skipelem-Skipped path)
        (λ rest shorter. namex_loop-FindsParent fuel rest base (omega arith)) h

  -- nameiparent comes to its end with the directory that is reached by looking up all elements but
  -- the last, and with that last element, or with none where there is no element, one of them is
  -- missing or what is reached is no directory. It leaves one more reference to the directory that
  -- it returns, and as many as before to any other inode.
  pub nameiparent_lem :
      (path : List ℕ) (cwd : ℕ) (refs : ℕ → ℕ)
      → EndsWith refs
          (parent (starts_at path cwd) (elements path))
          (namex is_dir dirlookup true path cwd refs)
  unfolding namex get update FindsParent
  nameiparent_lem path cwd refs =
      namex_loop-FindsParent (length path + 1) path refs (omega arith) _ (starts_at path cwd)
        (λ x. ground arith)
