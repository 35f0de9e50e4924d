-- ===== src/Bio/Lookup.antt =====
-- Which buffer bget gives.
use mit6_1810_why_tea_fo.Base.{
  ℕ, ◌+◌, ◌≤◌, ◌<◌, ◌≡◌, refl, sym, ◌∙◌, Bool, true, false, false≢true, ◌≢◌, Option, none, some,
  List, [], ◌∷◌, arith, elem, length, All, inl, inr,
}
use mathlib.Core.List.{reverse_aux}
use mathlib.Core.Path.{subst}
use mit6_1810_why_tea_fo.Base.Word.{add32}
use mit6_1810_why_tea_fo.Store.{update}
use mit6_1810_why_tea_fo.Bio.{
  head, nbuf, Cache, Result, ok, panic, is_for, is_unused, recycle, chosen, bget,
}
use mit6_1810_why_tea_fo.Bio.Links.{IsRing}
use mit6_1810_why_tea_fo.Bio.Search.{
  first, scan-next, Links-Back, scan-Back, length-reverse_aux, IsFirst, IsLast, first-All,
  first-IsFirst, reversed-All, first-IsLast,
}

-- The two loops of bget as searches of the ring's list, and of its reverse.
bget-first :
    (c : Cache) (xs : List ℕ) (dev blockno : ℕ)
    → IsRing c xs
    → length xs ≤ nbuf
    → bget c dev blockno
      ≡ chosen c dev blockno
          (first (is_for c dev blockno) xs)
          (first (is_unused c) (reverse_aux xs []))
unfolding bget
bget-first c xs dev blockno r fits = rw (
  scan-next c.next c.prev (is_for c dev blockno) (nbuf + 1) head xs r.links (omega arith),
  scan-Back c.prev (is_unused c) (nbuf + 1) head (reverse_aux xs [])
      (Links-Back c.next c.prev xs r.links) (omega (arith, length-reverse_aux xs [])),
)

-- No block of a device is in two buffers.
abbrev pub IsUnique : Cache → List ℕ → Type 0
IsUnique c xs =
    (a b : ℕ)
    → elem a xs ≡ true
    → elem b xs ≡ true
    → 0 < c.dev a
    → c.dev a ≡ c.dev b
    → c.blockno a ≡ c.blockno b
    → a ≡ b

first-none :
    (test : ℕ → Bool) (xs : List ℕ) (a : ℕ)
    → first test xs ≡ none
    → elem a xs ≡ true
    → test a ≡ false
first-none test [] a e m = absurd (false≢true m)
first-none test (x ∷ xs) a e m = ground (arith, first-none test xs a)

recycle-IsUnique :
    (c : Cache) (xs : List ℕ) (dev blockno b : ℕ)
    → IsUnique c xs
    → first (is_for c dev blockno) xs ≡ none
    → IsUnique (recycle c dev blockno b) xs
unfolding update
recycle-IsUnique c xs dev blockno b u e x y mx my live hd hb =
    ground
      (arith, u x y, first-none (is_for c dev blockno) xs x, first-none (is_for c dev blockno) xs y)

first-some : (test : ℕ → Bool) (xs : List ℕ) (a : ℕ) → first test xs ≡ some a → test a ≡ true
first-some test [] a e = cc
first-some test (x ∷ xs) a e = ground (arith, first-some test xs a)

-- What bget keeps, and what it gives.
abbrev Kept : Cache → List ℕ → (dev blockno : ℕ) → ℕ × Cache → Type 0
Kept c xs dev blockno (b, c') =
    IsUnique c' xs
    × (c'.next ≡ c.next)
    × (c'.prev ≡ c.prev)
    × (c'.dev b ≡ dev)
    × (c'.blockno b ≡ blockno)

eq_of_ok : (x y : ℕ × Cache) → ok x ≡ ok y → x ≡ y
eq_of_ok x y e = cc

chosen-Kept :
    (c : Cache) (xs : List ℕ) (dev blockno : ℕ) (r : ℕ × Cache) (f g : Option ℕ)
    → first (is_for c dev blockno) xs ≡ f
    → IsUnique c xs
    → chosen c dev blockno f g ≡ ok r
    → Kept c xs dev blockno r
unfolding update
chosen-Kept c xs dev blockno r (some a) g ef u e =
    let found = first-some (is_for c dev blockno) xs a ef in
    subst (Kept c xs dev blockno) (eq_of_ok _ r e) (u, refl, refl, ground arith, ground arith)
chosen-Kept c xs dev blockno r none (some a) ef u e =
    subst (Kept c xs dev blockno) (eq_of_ok _ r e)
      (recycle-IsUnique c xs dev blockno a u ef, refl, refl, ground arith, ground arith)
chosen-Kept c xs dev blockno r none none ef u e = cc

-- bget keeps the ring, and never puts a block into a second buffer.
pub bget-IsUnique :
    (c : Cache) (xs : List ℕ) (dev blockno : ℕ) {b : ℕ} {c' : Cache}
    → IsRing c xs
    → length xs ≤ nbuf
    → IsUnique c xs
    → bget c dev blockno ≡ ok (b, c')
    → IsRing c' xs × IsUnique c' xs × (c'.dev b ≡ dev) × (c'.blockno b ≡ blockno)
bget-IsUnique c xs dev blockno {b} {c'} r fits u e =
    let (unique, n, v, d, k) =
      chosen-Kept c xs dev blockno (b, c') (first (is_for c dev blockno) xs)
        (first (is_unused c) (reverse_aux xs [])) refl u
        (sym (bget-first c xs dev blockno r fits) ∙ e) in
    (record { links = rw (n, v) r.links; distinct = r.distinct }, unique, d, k)

-- The buffer `x` holds the block, or does not.
abbrev pub HoldsBlock : Cache → (dev blockno : ℕ) → ℕ → Type 0
HoldsBlock c dev blockno x = (c.dev x ≡ dev) × (c.blockno x ≡ blockno)

abbrev pub HoldsOther : Cache → (dev blockno : ℕ) → ℕ → Type 0
HoldsOther c dev blockno x = (c.dev x ≡ dev) → c.blockno x ≢ blockno

-- The ring, the contents and all buffers but `b` are as they were.
pub record IsKept (c c' : Cache) (b : ℕ) : Type 0 where
  pub next : c'.next ≡ c.next
  pub prev : c'.prev ≡ c.prev
  pub contents : c'.data' ≡ c.data'
  pub others :
      (x : ℕ)
      → x ≢ b
      → (c'.dev x ≡ c.dev x)
        × (c'.blockno x ≡ c.blockno x)
        × (c'.valid x ≡ c.valid x)
        × (c'.refcnt x ≡ c.refcnt x)

-- What a call of bget does over the ring `xs`, the most recently used buffer first.
pub data Got (c : Cache) (xs : List ℕ) (dev blockno : ℕ) : Result (ℕ × Cache) → Type 0 where
  hit :
      (b : ℕ) (c' : Cache)
      → IsFirst (HoldsBlock c dev blockno) (HoldsOther c dev blockno) xs b
      → c'.refcnt b ≡ add32 (c.refcnt b) 1
      → HoldsBlock c' dev blockno b
      → c'.valid b ≡ c.valid b
      → IsKept c c' b
      → Got c xs dev blockno (ok (b, c'))
  recycled :
      (b : ℕ) (c' : Cache)
      → All (HoldsOther c dev blockno) xs
      → IsLast (λ x. c.refcnt x ≡ 0) (λ x. c.refcnt x ≢ 0) xs b
      → c'.refcnt b ≡ 1
      → HoldsBlock c' dev blockno b
      → c'.valid b ≡ false
      → IsKept c c' b
      → Got c xs dev blockno (ok (b, c'))
  no_buffers :
      All (HoldsOther c dev blockno) xs → All (λ x. c.refcnt x ≢ 0) xs → Got c xs dev blockno panic

module _ (c : Cache) (xs : List ℕ) (dev blockno : ℕ) where
  holds_block : (x : ℕ) → is_for c dev blockno x ≡ true → HoldsBlock c dev blockno x
  holds_block x e = ground arith

  holds_other : (x : ℕ) → is_for c dev blockno x ≡ false → HoldsOther c dev blockno x
  holds_other x e d k = ground arith

  is_free : (x : ℕ) → is_unused c x ≡ true → c.refcnt x ≡ 0
  is_free x e = ground arith

  is_taken : (x : ℕ) → is_unused c x ≡ false → c.refcnt x ≢ 0
  is_taken x e = ground arith

  chosen-Got :
      (f g : Option ℕ)
      → first (is_for c dev blockno) xs ≡ f
      → first (is_unused c) (reverse_aux xs []) ≡ g
      → Got c xs dev blockno (chosen c dev blockno f g)
  unfolding update
  chosen-Got (some b) g ef eg =
      let at =
        first-IsFirst (HoldsBlock c dev blockno) (HoldsOther c dev blockno) _ holds_block
          holds_other xs b ef in
      hit b _ at (ground arith) at.holds refl (record {
        next = refl;
        prev = refl;
        contents = refl;
        others = λ x ne. (refl, refl, refl, ground arith);
      })
  chosen-Got none (some b) ef eg =
      let all =
        first-All (HoldsBlock c dev blockno) (HoldsOther c dev blockno) _ holds_block holds_other xs
          ef in
      elim (first-IsLast (λ x. c.refcnt x ≡ 0) (λ x. c.refcnt x ≢ 0) _ is_free is_taken xs [] b
        eg) [
          | inl at ↦
              recycled b _ all at (ground arith) (ground arith, ground arith) (ground arith)
                (record {
                  next = refl;
                  prev = refl;
                  contents = refl;
                  others = λ x ne. (ground arith, ground arith, ground arith, ground arith);
                })
          | inr (none_here, e) ↦ absurd (ground arith)
        ]
  chosen-Got none none ef eg =
      no_buffers
        (first-All (HoldsBlock c dev blockno) (HoldsOther c dev blockno) _ holds_block holds_other
          xs ef)
        (reversed-All (λ x. c.refcnt x ≡ 0) (λ x. c.refcnt x ≢ 0) _ is_free is_taken xs [] eg).0

  -- bget takes one more reference to the most recently used buffer that holds the block, and keeps
  -- whether that is valid. If there is none, it recycles for the block the least recently used of
  -- the buffers that have no references, which then is not valid and has one reference; it panics
  -- exactly if all buffers have references then. No other buffer changes, nor do the order of the
  -- buffers and their contents.
  pub bget_lem : IsRing c xs → length xs ≤ nbuf → Got c xs dev blockno (bget c dev blockno)
  bget_lem r fits = rw (bget-first c xs dev blockno r fits) (
      chosen-Got (first (is_for c dev blockno) xs) (first (is_unused c) (reverse_aux xs [])) refl
        refl)
