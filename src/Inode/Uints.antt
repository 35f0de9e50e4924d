-- ===== src/Inode/Uints.antt =====
-- Numbers of 32 bits in a block, and the blocks that an inode has.
use mit6_1810_why_tea_fo.Base.{
  ℕ, ◌+◌, ◌*◌, ◌/◌, ◌%◌, ◌^◌, ◌<◌, ◌≡◌, refl, arith, ◌==◌, if◌then◌else◌, Bool-cases, inl, inr,
}
use mit6_1810_why_tea_fo.Inode.{uint_at, with_uint}

byte_in :
    (bytes : ℕ → ℕ) (k v j i : ℕ)
    → i < 4
    → with_uint bytes k v (4 * j + i) ≡ (if j == k then v / 256 ^ i % 256 else bytes (4 * j + i))
unfolding with_uint
byte_in bytes k v j i small =
    let a : (4 * j + i) / 4 ≡ j = omega arith in
    let b : (4 * j + i) % 4 ≡ i = omega arith in rw (a, b) refl

first_byte :
    (bytes : ℕ → ℕ) (k v j : ℕ)
    → with_uint bytes k v (4 * j) ≡ (if j == k then v % 256 else bytes (4 * j))
unfolding with_uint
first_byte bytes k v j =
    let a : 4 * j / 4 ≡ j = omega arith in
    let b : 4 * j % 4 ≡ 0 = omega arith in let c : v / 1 ≡ v = omega arith in rw (a, b, c) refl

pub uint_at-with_uint :
    (bytes : ℕ → ℕ) (k v j : ℕ)
    → v < 2 ^ 32
    → uint_at (with_uint bytes k v) j ≡ (if j == k then v else uint_at bytes j)
unfolding uint_at
uint_at-with_uint bytes k v j small = elim (Bool-cases (j == k)) [
  | inl e ↦
      rw
        (
          first_byte bytes k v j,
          byte_in bytes k v j 1 (omega arith),
          byte_in bytes k v j 2 (omega arith),
          byte_in bytes k v j 3 (omega arith),
          e,
        )
        (omega arith)
  | inr e ↦
      rw
        (
          first_byte bytes k v j,
          byte_in bytes k v j 1 (omega arith),
          byte_in bytes k v j 2 (omega arith),
          byte_in bytes k v j 3 (omega arith),
          e,
        )
        refl
]
