-- ===== src/Kalloc/Range.antt =====
-- freerange and kinit: which pages the free list starts with.
use mit6_1810_why_tea_fo.Base.{
  ℕ, zero, suc, ◌+◌, ◌-◌, ◌/◌, ◌%◌, ◌≤◌, ◌<◌, ◌≡◌, refl, ◌∙◌, Bool, true, false, false≢true, List,
  [], ◌∷◌, arith, ◌==◌, leb, elem, ◌||◌, ◌&&◌, Bool-cases, inl, inr, ◌⊎◌, leb→le,
}
use mit6_1810_why_tea_fo.Kalloc.{
  page_size, phys_stop, Kmem, Result, ok, page_round_up, freerange_loop, freerange, kinit,
}
use mit6_1810_why_tea_fo.Kalloc.FreeList.{Holds, kfree-Holds}

-- `x` is a whole page of the addresses from `p` up to `stop`.
abbrev pub is_page_of : (p stop x : ℕ) → Bool
is_page_of p stop x = (x % page_size == 0) && (leb p x && leb (x + page_size) stop)

-- The free list holds the pages `xs` and those between `p` and `stop`.
pub record Filled (end : ℕ) (xs : List ℕ) (p stop : ℕ) (r : Result Kmem) : Type 0 where
  pub state : Kmem
  pub free : List ℕ
  pub ran : r ≡ ok state
  pub holds : Holds end state free
  pub exactly : (x : ℕ) → elem x free ≡ (elem x xs || is_page_of p stop x)

module _ (end stop : ℕ) (fits : stop ≤ phys_stop) where
  loop-Filled :
      (fuel : ℕ) (k : Kmem) (p : ℕ) (xs : List ℕ)
      → (stop - p) / page_size < fuel
      → p % page_size ≡ 0
      → 0 < p
      → end ≤ p
      → ((x : ℕ) → elem x xs ≡ true → x < p)
      → Holds end k xs
      → Filled end xs p stop (freerange_loop end fuel k p stop)
  unfolding freerange_loop
  loop-Filled zero k p xs enough aligned pos above below h = absurd (omega arith)
  loop-Filled (suc fuel) k p xs enough aligned pos above below h =
      elim (Bool-cases (leb (p + page_size) stop)) [
        | inl more ↦
            let room : p + page_size ≤ stop = leb→le _ _ more in
            let new : elem p xs ≡ false = not_elem (Bool-cases (elem p xs)) (below p) in
            let (k', freed, h', same) =
              kfree-Holds end p h (aligned, above, omega arith, pos) new in
            let f =
              loop-Filled fuel k' (p + page_size) (p ∷ xs) (omega arith) (omega arith) (omega arith)
                (omega arith) (λ x e. ground (arith, below x)) h' in
            rw (more, freed)
              (record {
                state = f.state;
                free = f.free;
                ran = f.ran;
                holds = f.holds;
                exactly = λ x. f.exactly x ∙ ground arith;
              })
        | inr done ↦
            rw done
              (record { state = k; free = xs; ran = refl; holds = h; exactly = λ x. ground arith })
      ]
    where
      not_elem : {b : Bool} → (b ≡ true) ⊎ (b ≡ false) → (b ≡ true → p < p) → b ≡ false
      not_elem (inl t) lt = absurd (omega (arith, lt t))
      not_elem (inr f) lt = f

-- Over zeroed or any other memory kinit does not panic and comes to its end, and the free list then
-- holds exactly the whole pages from the end of the kernel, rounded up, to PHYSTOP, each once.
pub kinit-Filled :
    (end : ℕ) (words : ℕ → ℕ)
    → 0 < end
    → Filled end [] (page_round_up end) phys_stop (kinit end words)
unfolding kinit freerange
kinit-Filled end words nonzero =
    loop-Filled end phys_stop (omega arith) (phys_stop / page_size + 1) _ (page_round_up end) []
      (omega arith) (omega arith) (omega arith) (omega arith) (λ x e. absurd (false≢true e))
      (record { chain = refl; pages = tt; distinct = tt })
