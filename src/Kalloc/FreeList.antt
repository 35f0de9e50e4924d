-- ===== src/Kalloc/FreeList.antt =====
-- The free list: what it holds, and what kfree and kalloc do to it.
use mit6_1810_why_tea_fo.Base.{
  ℕ, ◌%◌, ◌≤◌, ◌<◌, ◌≡◌, refl, false, List, [], ◌∷◌, All, arith, ◌==◌, ltb, leb, elem, Distinct,
  if◌then◌else◌, not, ◌||◌, Bool-cases, inl, inr,
}
use mit6_1810_why_tea_fo.Memory.{inside}
use mit6_1810_why_tea_fo.Store.{update}
use mit6_1810_why_tea_fo.Kalloc.{page_size, phys_stop, Kmem, ok, panic, fill_page, kfree, kalloc}

-- From `p` the first words of the pages lead through `xs` to 0.
abbrev pub Chain : (ℕ → ℕ) → (p : ℕ) → List ℕ → Type 0
Chain words p [] = p ≡ 0
Chain words p (x ∷ xs) = (p ≡ x) × Chain words (words x) xs

-- A whole page of the memory behind the kernel.
abbrev pub IsPage : (end pa : ℕ) → Type 0
IsPage end pa = (pa % page_size ≡ 0) × (end ≤ pa) × (pa < phys_stop) × (0 < pa)

-- The free list holds the pages `xs`, each once.
pub record Holds (end : ℕ) (k : Kmem) (xs : List ℕ) : Type 0 where
  pub chain : Chain k.words k.freelist xs
  pub pages : All (IsPage end) xs
  pub distinct : Distinct xs

-- Other pages keep their words when one page is written.
Chain-kept :
    (end : ℕ) (words words' : ℕ → ℕ) (pa p : ℕ) (xs : List ℕ)
    → pa % page_size ≡ 0
    → All (IsPage end) xs
    → elem pa xs ≡ false
    → ((a : ℕ) → inside pa page_size a ≡ false → words' a ≡ words a)
    → Chain words p xs
    → Chain words' p xs
Chain-kept end words words' pa p [] aligned pages out same c = c
Chain-kept end words words' pa p (x ∷ xs) aligned pages out same c = (
  c.0,
  rw (same x (ground arith))
      (Chain-kept end words words' pa (words x) xs aligned pages.1 (ground arith) same c.1),
)

-- kfree of a page that is not free puts it in front of the free list. It writes inside that page
-- alone.
pub kfree-Holds :
    (end pa : ℕ) {k : Kmem} {xs : List ℕ}
    → Holds end k xs
    → IsPage end pa
    → elem pa xs ≡ false
    → (k' : Kmem) × (kfree end k pa ≡ ok k')
      × Holds end k' (pa ∷ xs)
      × ((a : ℕ) → inside pa page_size a ≡ false → k'.words a ≡ k.words a)
unfolding kfree update
kfree-Holds end pa {k} {xs} h page out = (
  k',
  ground arith,
  record {
    chain = (
      refl,
      rw head (Chain-kept end k.words k'.words pa k.freelist xs page.0 h.pages out same h.chain),
    );
    pages = (page, h.pages);
    distinct = (out, h.distinct);
  },
  same,
)
  where
    k' : Kmem
    k' = record { freelist = pa; words = update (fill_page k.words pa 1) pa k.freelist }

    head : k'.words pa ≡ k.freelist
    head = ground arith

    same : (a : ℕ) → inside pa page_size a ≡ false → k'.words a ≡ k.words a
    same a outside = ground arith

-- kfree panics at any other address.
pub kfree-panic : (end pa : ℕ) (k : Kmem) → 0 < pa → ¬ IsPage end pa → kfree end k pa ≡ panic
unfolding kfree
kfree-panic end pa k nonzero other =
    elim (Bool-cases (not (pa % page_size == 0) || ltb pa end || leb phys_stop pa)) [
      | inl bad ↦ rw bad
      | inr good ↦ absurd (other (ground arith, ground arith, ground arith, nonzero))
    ]

-- kalloc with a free list of `x` and more returns the page `x`, filled with fives, and leaves the
-- rest of the list; it writes inside that page alone.
pub kalloc-some :
    (end x : ℕ) (xs : List ℕ) {k : Kmem}
    → Holds end k (x ∷ xs)
    → let (r, k') = kalloc k in
      (r ≡ x)
      × Holds end k' xs
      × (elem x xs ≡ false)
      × ((a : ℕ) → k'.words a ≡ (if inside x page_size a then 0x0505050505050505 else k.words a))
unfolding kalloc
kalloc-some end x xs {k} h =
    let taken : kalloc k ≡ (x, record { freelist = k.words x; words = fill_page k.words x 5 }) =
      ground arith in
    rw taken (
      refl,
      record {
        chain =
            Chain-kept end k.words (fill_page k.words x 5) x (k.words x) xs h.pages.0.0 h.pages.1
              h.distinct.0 (λ a outside. rw outside) h.chain.1;
        pages = h.pages.1;
        distinct = h.distinct.1;
      },
      h.distinct.0,
      λ a. refl,
    )

-- kalloc with an empty free list returns 0 and changes nothing.
pub kalloc-none : (end : ℕ) {k : Kmem} → Holds end k [] → kalloc k ≡ (0, k)
unfolding kalloc
kalloc-none end {k} h = ground arith
