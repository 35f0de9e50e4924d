-- ===== src/Fs/Bits.antt =====
-- The bits of a byte, and the free map as a predicate on blocks.
use mit6_1810_why_tea_fo.Base.{
  ℕ, zero, suc, ◌+◌, ◌*◌, ◌/◌, ◌%◌, ◌≡◌, Bool, true, false, arith, ◌==◌, if◌then◌else◌,
}
use mit6_1810_why_tea_fo.Store.{update}
use mit6_1810_why_tea_fo.Fs.{
  bits_per_block, Superblock, Fs, set_byte, bit, set_bit, clear_bit, bblock,
}

pub bit-set_bit : (x k j : ℕ) → bit (set_bit x k) j ≡ (if j == k then true else bit x j)
unfolding bit set_bit
bit-set_bit x zero zero = ground arith
bit-set_bit x zero (suc j) =
    let e : (x / 2 * 2 + 1) / 2 ≡ x / 2 = omega arith in rw e (ground arith)
bit-set_bit x (suc k) zero = ground arith
bit-set_bit x (suc k) (suc j) =
    let e : (set_bit (x / 2) k * 2 + x % 2) / 2 ≡ set_bit (x / 2) k = omega arith in
    rw e (ground (arith, bit-set_bit (x / 2) k j))

pub bit-clear_bit : (x k j : ℕ) → bit (clear_bit x k) j ≡ (if j == k then false else bit x j)
unfolding bit clear_bit
bit-clear_bit x zero zero = ground arith
bit-clear_bit x zero (suc j) = let e : x / 2 * 2 / 2 ≡ x / 2 = omega arith in rw e (ground arith)
bit-clear_bit x (suc k) zero = ground arith
bit-clear_bit x (suc k) (suc j) =
    let e : (clear_bit (x / 2) k * 2 + x % 2) / 2 ≡ clear_bit (x / 2) k = omega arith in
    rw e (ground (arith, bit-clear_bit (x / 2) k j))

module _ (sb : Superblock) where
  -- The block `b` is in use by the free map.
  unfoldable pub is_used : Fs → (b : ℕ) → Bool
  is_used fs b = bit (fs.data' (bblock sb b) (b % bits_per_block / 8)) (b % bits_per_block % 8)

  -- A change of the bit of the block `b`.
  pub is_used-set_byte :
      (fs : Fs) (b v : ℕ) (u : Bool)
      → ((j : ℕ)
          → bit v j ≡ (
              if j == b % bits_per_block % 8
              then u
              else bit (fs.data' (bblock sb b) (b % bits_per_block / 8)) j))
      → (x : ℕ)
      → is_used (set_byte fs (bblock sb b) (b % bits_per_block / 8) v) x
        ≡ (if x == b then u else is_used fs x)
  unfolding is_used update
  is_used-set_byte fs b v u h x = ground (arith, h (x % bits_per_block % 8))

  -- A block in use or a change of a block that is not in the map.
  pub is_used_same :
      (fs fs' : Fs) (x : ℕ)
      → fs'.data' (bblock sb x) ≡ fs.data' (bblock sb x)
      → is_used fs' x ≡ is_used fs x
  unfolding is_used
  is_used_same fs fs' x e = rw e
