-- ===== src/Bio/Order.antt =====
-- What binit and brelse do to the ring.
use mit6_1810_why_tea_fo.Base.{
  ℕ, zero, suc, ◌+◌, ◌-◌, ◌≤◌, ◌<◌, ◌≡◌, refl, ◌∙◌, true, false, List, [], ◌∷◌, ◌++◌, arith,
  Bool-cases, inl, inr, eq→==, ne→==, ==→eq, ==→ne, ==_refl, ◌==◌, if◌then◌else◌, elem,
}
use mit6_1810_why_tea_fo.Base.Word.{u32_mod, sub32}
use mit6_1810_why_tea_fo.Store.{update}
use mit6_1810_why_tea_fo.Bio.{head, nbuf, Cache, ok, push_front, unlink, binit_loop, binit, brelse}
use mit6_1810_why_tea_fo.Bio.Links.{
  IsRing, push_front-IsRing, unlink-IsRing, not-elem_middle, Links-fits,
}

-- `k` buffers from `b` up, in front of `xs`, the last on top.
abbrev pub stacked : (b k : ℕ) → List ℕ → List ℕ
stacked b zero xs = xs
stacked b (suc k) xs = stacked (b + 1) k (b ∷ xs)

binit_loop-IsRing :
    (c : Cache) (b k : ℕ) (xs : List ℕ)
    → b + k ≤ head
    → ((a : ℕ) → elem a xs ≡ true → a < b)
    → IsRing c xs
    → IsRing (binit_loop c b k) (stacked b k xs)
unfolding binit_loop
binit_loop-IsRing c b zero xs fits below r = r
binit_loop-IsRing c b (suc k) xs fits below r =
    binit_loop-IsRing (push_front c b) (b + 1) k (b ∷ xs) (omega arith)
      (λ a e. ground (arith, below a))
      (push_front-IsRing c b xs (omega arith) (ground (arith, below b)) r)

-- binit links all NBUF buffers into the ring, each once, the last one in front.
pub binit-IsRing : (c : Cache) → IsRing (binit c) (stacked 0 nbuf [])
unfolding binit update
binit-IsRing c =
    binit_loop-IsRing (record c { next = update c.next head head; prev = update c.prev head head })
      0 nbuf [] (omega arith) (λ a e. ground arith)
      (record { links = (ground arith, ground arith); distinct = tt })

-- What brelse leaves of a ring `ys ++ (b ∷ zs)`.
pub record Released (c : Cache) (ys : List ℕ) (b : ℕ) (zs : List ℕ) (c' : Cache) : Type 0 where
  pub counted : (x : ℕ) → c'.refcnt x ≡ (if x == b then c.refcnt b - 1 else c.refcnt x)
  pub ring : IsRing c' (if c.refcnt b == 1 then b ∷ (ys ++ zs) else ys ++ (b ∷ zs))
  pub kept : (c'.dev ≡ c.dev) × (c'.blockno ≡ c.blockno) × (c'.valid ≡ c.valid)

released : Cache → ℕ → Cache
released c b = record c { refcnt = update c.refcnt b (sub32 (c.refcnt b) 1) }

brelse-eq :
    (c : Cache) (b : ℕ)
    → 0 < c.refcnt b
    → c.refcnt b < u32_mod
    → brelse true c b
      ≡ ok (if c.refcnt b == 1 then push_front (unlink (released c b) b) b else released c b)
unfolding brelse update released
brelse-eq c b some_left small = elim (Bool-cases (c.refcnt b == 1)) [
  | inl last ↦
      let e : (sub32 (c.refcnt b) 1 == 0) ≡ true = eq→== _ _ (omega (arith, ==→eq _ _ last)) in
      rw (==_refl b, last, e)
  | inr more ↦
      let e : (sub32 (c.refcnt b) 1 == 0) ≡ false = ne→== _ _ (omega (arith, ==→ne _ _ more)) in
      rw (==_refl b, more, e)
]

counted_lem :
    (c : Cache) (b : ℕ)
    → 0 < c.refcnt b
    → c.refcnt b < u32_mod
    → (x : ℕ) → (released c b).refcnt x ≡ (if x == b then c.refcnt b - 1 else c.refcnt x)
unfolding released update
counted_lem c b some_left small x =
    let e : sub32 (c.refcnt b) 1 ≡ c.refcnt b - 1 = omega arith in rw e

-- brelse by the holder of the buffer's lock drops one reference, and moves the buffer to the front
-- of the ring, the place of the most recently used, exactly if that was the last one. The other
-- buffers keep their order.
pub brelse-Released :
    (c : Cache) (ys : List ℕ) (b : ℕ) (zs : List ℕ)
    → IsRing c (ys ++ (b ∷ zs))
    → 0 < c.refcnt b
    → c.refcnt b < u32_mod
    → (c' : Cache) × (brelse true c b ≡ ok c') × Released c ys b zs c'
unfolding released push_front unlink
brelse-Released c ys b zs r some_left small = elim (Bool-cases (c.refcnt b == 1)) [
  | inl last ↦ (
    push_front (unlink (released c b) b) b,
    brelse-eq c b some_left small ∙ rw last,
    record {
      counted = counted_lem c b some_left small;
      ring = rw last (
          push_front-IsRing (unlink (released c b) b) b (ys ++ zs)
            (Links-fits c.next c.prev head b ys zs r.links) (not-elem_middle ys b zs r.distinct)
            (unlink-IsRing (released c b) ys b zs
              (record { links = r.links; distinct = r.distinct })));
      kept = (refl, refl, refl);
    },
  )
  | inr more ↦ (
    released c b,
    brelse-eq c b some_left small ∙ rw more,
    record {
      counted = counted_lem c b some_left small;
      ring = rw more (record { links = r.links; distinct = r.distinct });
      kept = (refl, refl, refl);
    },
  )
]
