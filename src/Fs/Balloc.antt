-- ===== src/Fs/Balloc.antt =====
-- Which block balloc takes, and what balloc and bfree do to the map and to the other blocks.
use mathlib.Core.Path.{subst}
use mit6_1810_why_tea_fo.Base.{
  ℕ, zero, suc, ◌+◌, ◌*◌, ◌/◌, ◌%◌, ◌<◌, ◌≤◌, ◌≡◌, ◌≢◌, refl, ◌∙◌, sym, true, false, Option, none,
  some, ◌∷◌, arith, ◌==◌, ltb, if◌then◌else◌, Bool-cases, inl, inr, ◌⊎◌, ltb→lt, ltb→ge,
}
use mit6_1810_why_tea_fo.Store.{update}
use mit6_1810_why_tea_fo.Fs.{
  bits_per_block, Superblock, Fs, set_byte, log_write, bit, set_bit, clear_bit, bblock, bzero,
  taken, balloc_bits, balloc_blocks, or_else, or_zero, balloc, bfree,
}
use mit6_1810_why_tea_fo.Fs.Bits.{
  is_used, bit-set_bit, bit-clear_bit, is_used-set_byte, is_used_same,
}

module _ (sb : Superblock) where
  -- The block `b` marked in the map and zeroed.
  abbrev pub allocated : Fs → (b : ℕ) → Fs
  allocated fs b =
      let i = b % bits_per_block / 8 in
      bzero
        (log_write
          (set_byte fs (bblock sb b) i
            (set_bit (fs.data' (bblock sb b) i) (b % bits_per_block % 8)))
          (bblock sb b))
        b

  abbrev Found : Fs → (lo hi : ℕ) → Option (ℕ × Fs) → Type 0
  Found fs lo hi none = (x : ℕ) → lo ≤ x → x < hi → x < sb.size → is_used sb fs x ≡ true
  Found fs lo hi (some (b, fs')) =
      (b < sb.size)
      × (is_used sb fs b ≡ false)
      × ((x : ℕ) → lo ≤ x → x < b → is_used sb fs x ≡ true)
      × (fs' ≡ allocated fs b)

  Found_more :
      (fs : Fs) (lo mid hi : ℕ) (r : Option (ℕ × Fs))
      → Found fs lo mid none
      → Found fs mid hi r
      → Found fs lo hi r
  Found_more fs lo mid hi none h g = λ x a b c. elim (Bool-cases (ltb x mid)) [
    | inl e ↦ h x a (ltb→lt _ _ e) c
    | inr e ↦ g x (ltb→ge _ _ e) b c
  ]
  Found_more fs lo mid hi (some (b, fs')) h (low, free, below, e) = (
    low,
    free,
    λ x a lt. elim (Bool-cases (ltb x mid)) [
      | inl y ↦ h x a (ltb→lt _ _ y) (omega arith)
      | inr y ↦ below x (ltb→ge _ _ y) lt
    ],
    e,
  )

  tested :
      (fs : Fs) (b bi : ℕ)
      → b % bits_per_block ≡ 0
      → bi < bits_per_block
      → (is_used sb fs (b + bi) ≡ bit (fs.data' (bblock sb b) (bi / 8)) (bi % 8))
        × (taken sb fs b bi ≡ allocated fs (b + bi))
  unfolding is_used
  tested fs b bi start small =
      let block : (b + bi) / bits_per_block ≡ b / bits_per_block = omega arith in
      let index : (b + bi) % bits_per_block ≡ bi = omega arith in
      (rw (block, index) refl, rw (block, index) refl)

  balloc_bits-Found :
      (fs : Fs) (b bi n : ℕ)
      → b % bits_per_block ≡ 0
      → bi + n ≡ bits_per_block
      → Found fs (b + bi) (b + bits_per_block) (balloc_bits sb fs b bi n)
  unfolding balloc_bits
  balloc_bits-Found fs b bi zero start all = λ x a c. absurd (omega arith)
  balloc_bits-Found fs b bi (suc n) start all =
      let (used, same) = tested fs b bi start (omega arith) in
      elim (Bool-cases (ltb (b + bi) sb.size)) [
        | inr e ↦ rw e (λ x a c d. absurd (omega (arith, ltb→ge _ _ e)))
        | inl e ↦ elim (Bool-cases (bit (fs.data' (bblock sb b) (bi / 8)) (bi % 8))) [
          | inr free ↦ rw (e, free) (ltb→lt _ _ e, used ∙ free, λ x a c. absurd (omega arith), same)
          | inl full ↦
              rw (e, full)
                (Found_more fs (b + bi) (b + (bi + 1)) (b + bits_per_block)
                  (balloc_bits sb fs b (bi + 1) n)
                  (λ x a c d. (let here : x ≡ b + bi = omega arith in rw here (used ∙ full)))
                  (balloc_bits-Found fs b (bi + 1) n start (omega arith)))
        ]
      ]

  Found_next :
      (fs : Fs) (lo mid : ℕ) (r next : Option (ℕ × Fs))
      → Found fs lo mid r
      → Found fs mid sb.size next
      → Found fs lo sb.size (or_else sb r next)
  Found_next fs lo mid none next h g = Found_more fs lo mid sb.size next h g
  Found_next fs lo mid (some (b, fs')) next h g = h

  balloc_blocks-Found :
      (fuel : ℕ) (fs : Fs) (b : ℕ)
      → b % bits_per_block ≡ 0
      → sb.size < b + bits_per_block * fuel
      → Found fs b sb.size (balloc_blocks sb fuel fs b)
  unfolding balloc_blocks
  balloc_blocks-Found zero fs b start enough = λ x a c d. absurd (omega arith)
  balloc_blocks-Found (suc fuel) fs b start enough = elim (Bool-cases (ltb b sb.size)) [
    | inr e ↦ rw e (λ x a c d. absurd (omega (arith, ltb→ge _ _ e)))
    | inl e ↦ rw e (
        Found_next fs b (b + bits_per_block) (balloc_bits sb fs b 0 bits_per_block)
          (balloc_blocks sb fuel fs (b + bits_per_block))
          (subst (λ (y : ℕ). Found fs y (b + bits_per_block) (balloc_bits sb fs b 0 bits_per_block))
            (omega arith) (balloc_bits-Found fs b 0 bits_per_block start (omega arith)))
          (balloc_blocks-Found fuel fs (b + bits_per_block) (omega arith) (omega arith)))
  ]

-- Blocks below `first` are in use, and those of the map are among them.
pub record HasMap (sb : Superblock) (first : ℕ) (fs : Fs) : Type 0 where
  pub room : sb.bmapstart + sb.size / bits_per_block < first
  pub within : first ≤ sb.size
  pub low : (x : ℕ) → x < first → is_used sb fs x ≡ true

-- `b` was free, the first such block; now it is in use and zero, and the block of the map that has
-- its bit is the only other one that has changed.
pub record IsAllocated (sb : Superblock) (first : ℕ) (fs : Fs) (b : ℕ) (fs' : Fs) : Type 0 where
  pub low : first ≤ b
  pub high : b < sb.size
  pub free : is_used sb fs b ≡ false
  pub least : (x : ℕ) → x < b → is_used sb fs x ≡ true
  pub used : (x : ℕ) → x < sb.size → is_used sb fs' x ≡ (if x == b then true else is_used sb fs x)
  pub zeroed : (i : ℕ) → fs'.data' b i ≡ 0
  pub others : (x : ℕ) → first ≤ x → x ≢ b → fs'.data' x ≡ fs.data' x
  pub rest : (x : ℕ) → x ≢ b → x ≢ bblock sb b → fs'.data' x ≡ fs.data' x
  pub logged : fs'.logged ≡ b ∷ bblock sb b ∷ fs.logged
  pub map' : HasMap sb first fs'

-- `b` is free, and nothing else has changed.
pub record IsFreed (sb : Superblock) (first : ℕ) (fs : Fs) (b : ℕ) (fs' : Fs) : Type 0 where
  pub used : (x : ℕ) → x < sb.size → is_used sb fs' x ≡ (if x == b then false else is_used sb fs x)
  pub others : (x : ℕ) → first ≤ x → fs'.data' x ≡ fs.data' x
  pub logged : fs'.logged ≡ bblock sb b ∷ fs.logged
  pub map' : HasMap sb first fs'

module _ (sb : Superblock) (first : ℕ) (fs : Fs) (h : HasMap sb first fs) where
  allocated_used :
      (b : ℕ)
      → first ≤ b
      → b < sb.size
      → (x : ℕ) → x < sb.size
      → is_used sb (allocated sb fs b) x ≡ (if x == b then true else is_used sb fs x)
  unfolding bzero update
  allocated_used b low high x small =
      let i = b % bits_per_block / 8 in
      let k = b % bits_per_block % 8 in
      let v = set_bit (fs.data' (bblock sb b) i) k in
      let apart : (bblock sb x == b) ≡ false = ground (arith, h.room) in
      is_used_same sb (set_byte fs (bblock sb b) i v) (allocated sb fs b) x (rw apart)
      ∙ is_used-set_byte sb fs b v true (bit-set_bit (fs.data' (bblock sb b) i) k) x

  allocated-IsAllocated :
      (b : ℕ)
      → first ≤ b
      → b < sb.size
      → is_used sb fs b ≡ false
      → ((x : ℕ) → x < b → is_used sb fs x ≡ true)
      → IsAllocated sb first fs b (allocated sb fs b)
  unfolding bzero update
  allocated-IsAllocated b low high free least = record {
    low = low;
    high = high;
    free = free;
    least = least;
    used = allocated_used b low high;
    zeroed = λ i. ground arith;
    others = λ x far ne. ground (arith, h.room);
    rest = λ x ne apart. ground arith;
    logged = refl;
    map' = record {
      room = h.room;
      within = h.within;
      low = λ x lt. ground (arith, allocated_used b low high x, h.low x, h.within);
    };
  }

  -- balloc takes the first free block, marks it in the map, zeroes it and logs both blocks. It
  -- changes no block but this one and the map's block with its bit, and the use of no other block;
  -- it returns 0 and changes nothing exactly if every block is in use. The blocks below the first
  -- data block, those of the map among them, are in use.
  pub balloc_lem :
      ((balloc sb fs ≡ (0, fs)) × ((x : ℕ) → x < sb.size → is_used sb fs x ≡ true))
      ⊎ ((b : ℕ) × (fs' : Fs) × (balloc sb fs ≡ (b, fs')) × IsAllocated sb first fs b fs')
  unfolding balloc
  balloc_lem =
      let r = balloc_blocks sb (sb.size / bits_per_block + 1) fs 0 in
      ends r
        (balloc_blocks-Found sb (sb.size / bits_per_block + 1) fs 0 (omega arith) (omega arith))
    where
      ends :
          (r : Option (ℕ × Fs))
          → Found sb fs 0 sb.size r
          → ((or_zero sb fs r ≡ (0, fs)) × ((x : ℕ) → x < sb.size → is_used sb fs x ≡ true))
            ⊎ ((b : ℕ) × (fs' : Fs) × (or_zero sb fs r ≡ (b, fs')) × IsAllocated sb first fs b fs')
      ends none full = inl (refl, λ x lt. full x (omega arith) lt lt)
      ends (some (b, fs')) (high, free, below, e) =
          let low : first ≤ b = ground (arith, h.low b) in
          inr (
            b,
            fs',
            refl,
            subst (IsAllocated sb first fs b) (sym e)
                (allocated-IsAllocated b low high free (λ x lt. below x (omega arith) lt)),
          )

  -- bfree of a data block panics exactly if the block is free; else it frees it in the map, logs the
  -- map's block and changes no data.
  pub bfree_lem :
      (b : ℕ)
      → first ≤ b
      → b < sb.size
      → ((is_used sb fs b ≡ false) × (bfree sb fs b ≡ none))
        ⊎ ((is_used sb fs b ≡ true)
            × (fs' : Fs) × (bfree sb fs b ≡ some fs')
            × IsFreed sb first fs b fs')
  unfolding bfree is_used update
  bfree_lem b low high =
      let i = b % bits_per_block / 8 in
      let k = b % bits_per_block % 8 in
      let x = fs.data' (bblock sb b) i in
      let fs' = log_write (set_byte fs (bblock sb b) i (clear_bit x k)) (bblock sb b) in
      let used : (y : ℕ)
          → y < sb.size
          → is_used sb fs' y ≡ (if y == b then false else is_used sb fs y) =
        λ y lt. is_used-set_byte sb fs b (clear_bit x k) false (bit-clear_bit x k) y in
      elim (Bool-cases (bit x k)) [
        | inr free ↦ inl (free, rw free)
        | inl full ↦ inr (
          full,
          fs',
          rw full,
          record {
            used = used;
            others = λ y far.
                (let apart : (y == bblock sb b) ≡ false = ground (arith, h.room) in rw apart);
            logged = refl;
            map' = record {
              room = h.room;
              within = h.within;
              low = λ y lt. ground (arith, used y, h.low y, h.within);
            };
          },
        )
      ]
