-- ===== src/Bio/Links.antt =====
-- The ring of buffers as a list, most recently used first.
use mit6_1810_why_tea_fo.Base.{
  ℕ, ◌<◌, ◌≡◌, ◌≢◌, refl, ◌∙◌, true, false, false≢true, ◌||◌, List, [], ◌∷◌, ◌++◌, arith, elem,
  Distinct,
}
use mit6_1810_why_tea_fo.Store.{update}
use mit6_1810_why_tea_fo.Bio.{head, Cache, push_front, unlink}

-- From `p` the `next` pointers lead through the buffers `xs` to the head, and the `prev` pointers
-- back.
abbrev pub Links : (next prev : ℕ → ℕ) → (p : ℕ) → List ℕ → Type 0
Links next prev p [] = (next p ≡ head) × (prev head ≡ p)
Links next prev p (x ∷ xs) = (next p ≡ x) × (prev x ≡ p) × (x < head) × Links next prev x xs

pub record IsRing (c : Cache) (xs : List ℕ) : Type 0 where
  pub links : Links c.next c.prev head xs
  pub distinct : Distinct xs

-- Links stay when their own pointers do.
pub Links-frame :
    (next prev next' prev' : ℕ → ℕ) (p : ℕ) (xs : List ℕ)
    → ((a : ℕ) → elem a (p ∷ xs) ≡ true → next' a ≡ next a)
    → ((a : ℕ) → elem a (head ∷ xs) ≡ true → prev' a ≡ prev a)
    → Links next prev p xs
    → Links next' prev' p xs
Links-frame next prev next' prev' p [] n v l =
    (n p (ground arith) ∙ l.0, v head (ground arith) ∙ l.1)
Links-frame next prev next' prev' p (x ∷ xs) n v l = (
  n p (ground arith) ∙ l.0,
  v x (ground arith) ∙ l.1,
  l.2,
  Links-frame next prev next' prev' x xs (λ a e. n a (ground arith)) (λ a e. v a (ground arith))
      l.3,
)

-- The buffers of a ring are no heads.
pub Links-ne_head :
    (next prev : ℕ → ℕ) (p : ℕ) (xs : List ℕ) → Links next prev p xs → elem head xs ≡ false
Links-ne_head next prev p [] l = refl
Links-ne_head next prev p (x ∷ xs) l = ground (arith, Links-ne_head next prev x xs l.3)

push_front-Links :
    (c : Cache) (b : ℕ) (xs : List ℕ)
    → b < head
    → elem b xs ≡ false
    → Links c.next c.prev head xs
    → Distinct xs
    → Links (push_front c b).next (push_front c b).prev head (b ∷ xs)
unfolding push_front update
push_front-Links c b [] fits out l d =
    (ground arith, ground arith, fits, (ground arith, ground arith))
push_front-Links c b (x ∷ ys) fits out l d = (
  ground arith,
  ground arith,
  fits,
  (
    ground arith,
    ground arith,
    l.2,
    Links-frame c.next c.prev (push_front c b).next (push_front c b).prev x ys
        (λ a e. ground (arith, Links-ne_head c.next c.prev x ys l.3))
        (λ a e. ground (arith, Links-ne_head c.next c.prev x ys l.3)) l.3,
  ),
)

-- The neighbours of a buffer in the ring.
prev-elem :
    (next prev : ℕ → ℕ) (p b : ℕ) (ys zs : List ℕ)
    → Links next prev p (ys ++ (b ∷ zs))
    → elem (prev b) (p ∷ ys) ≡ true
prev-elem next prev p b [] zs l = ground arith
prev-elem next prev p b (y ∷ ys) zs l = ground (arith, prev-elem next prev y b ys zs l.3)

next-elem :
    (next prev : ℕ → ℕ) (p b : ℕ) (ys zs : List ℕ)
    → Links next prev p (ys ++ (b ∷ zs))
    → elem (next b) (head ∷ zs) ≡ true
next-elem next prev p b [] [] l = ground arith
next-elem next prev p b [] (z ∷ zs) l = ground arith
next-elem next prev p b (y ∷ ys) zs l = next-elem next prev y b ys zs l.3

pub elem-append : (a : ℕ) (xs ys : List ℕ) → elem a (xs ++ ys) ≡ (elem a xs || elem a ys)
elem-append a [] ys = refl
elem-append a (x ∷ xs) ys = ground (arith, elem-append a xs ys)

elem_ne : (a p : ℕ) (xs : List ℕ) → elem a xs ≡ true → elem p xs ≡ false → a ≢ p
elem_ne a p [] e out = absurd (false≢true e)
elem_ne a p (x ∷ xs) e out = ground (arith, elem_ne a p xs)

unlink-Links :
    (c : Cache) (p b : ℕ) (ys zs : List ℕ)
    → Links c.next c.prev p (ys ++ (b ∷ zs))
    → Distinct (p ∷ (ys ++ (b ∷ zs)))
    → Links (unlink c b).next (unlink c b).prev p (ys ++ zs)
unfolding unlink update
unlink-Links c p b [] [] l d = (ground arith, ground arith)
unlink-Links c p b [] (z ∷ zs) l d = (
  ground arith,
  ground arith,
  l.3.2,
  Links-frame c.next c.prev (unlink c b).next (unlink c b).prev z zs
      (λ a e. ground (arith, elem_ne a p (z ∷ zs) e)) (λ a e. ground (arith, elem_ne a z zs)) l.3.3,
)
unlink-Links c p b (y ∷ ys) zs l d = (
  ground (
    arith,
    prev-elem c.next c.prev y b ys zs l.3,
    elem_ne (c.prev b) p (y ∷ ys),
    elem-append p ys (b ∷ zs),
  ),
  ground (
    arith,
    next-elem c.next c.prev y b ys zs l.3,
    elem_ne (c.next b) y zs,
    elem-append y ys (b ∷ zs),
  ),
  l.2,
  unlink-Links c y b ys zs l.3 d.1,
)

-- binit and brelse put a buffer that is not in the ring at its front.
pub push_front-IsRing :
    (c : Cache) (b : ℕ) (xs : List ℕ)
    → b < head
    → elem b xs ≡ false
    → IsRing c xs
    → IsRing (push_front c b) (b ∷ xs)
push_front-IsRing c b xs fits out r = record {
  links = push_front-Links c b xs fits out r.links r.distinct;
  distinct = (out, r.distinct);
}

Distinct-remove :
    (ys : List ℕ) (b : ℕ) (zs : List ℕ) → Distinct (ys ++ (b ∷ zs)) → Distinct (ys ++ zs)
Distinct-remove [] b zs d = d.1
Distinct-remove (y ∷ ys) b zs d =
    (ground (arith, elem-append y ys (b ∷ zs), elem-append y ys zs), Distinct-remove ys b zs d.1)

pub not-elem_middle :
    (ys : List ℕ) (b : ℕ) (zs : List ℕ) → Distinct (ys ++ (b ∷ zs)) → elem b (ys ++ zs) ≡ false
not-elem_middle [] b zs d = d.0
not-elem_middle (y ∷ ys) b zs d =
    ground (arith, not-elem_middle ys b zs d.1, elem-append y ys (b ∷ zs))

pub unlink-IsRing :
    (c : Cache) (ys : List ℕ) (b : ℕ) (zs : List ℕ)
    → IsRing c (ys ++ (b ∷ zs))
    → IsRing (unlink c b) (ys ++ zs)
unlink-IsRing c ys b zs r = record {
  links =
      unlink-Links c head b ys zs r.links
        (Links-ne_head c.next c.prev head (ys ++ (b ∷ zs)) r.links, r.distinct);
  distinct = Distinct-remove ys b zs r.distinct;
}

pub Links-fits :
    (next prev : ℕ → ℕ) (p b : ℕ) (ys zs : List ℕ) → Links next prev p (ys ++ (b ∷ zs)) → b < head
Links-fits next prev p b [] zs l = l.2
Links-fits next prev p b (y ∷ ys) zs l = Links-fits next prev y b ys zs l.3
