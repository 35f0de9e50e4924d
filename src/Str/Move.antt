-- ===== src/Str/Move.antt =====
-- What memset and memmove leave at each address.
use mit6_1810_why_tea_fo.Base.{
  ℕ, zero, suc, ◌+◌, ◌-◌, ◌%◌, ◌≤◌, ◌≡◌, ◌⊎◌, inl, inr, ◌&&◌, arith, ◌==◌, ltb, if◌then◌else◌,
  Bool-cases,
}
use mit6_1810_why_tea_fo.Memory.{Memory, write, inside}
use mit6_1810_why_tea_fo.Str.{memset_loop, memset, copy_up, copy_down, memmove}

memset_loop_lem :
    (m : Memory) (dst c i k x : ℕ)
    → memset_loop m dst c i k x ≡ (if inside (dst + i) k x then c % 256 else m x)
unfolding memset_loop write
memset_loop_lem m dst c i zero x = ground arith
memset_loop_lem m dst c i (suc k) x =
    ground (arith, memset_loop_lem (write m (dst + i) (c % 256)) dst c (i + 1) k x)

-- memset stores the low byte of `c` at exactly the `n` addresses from `dst` on.
memset_lem :
    (m : Memory) (dst c n x : ℕ) → memset m dst c n x ≡ (if inside dst n x then c % 256 else m x)
unfolding memset
memset_lem m dst c n x = ground (arith, memset_loop_lem m dst c 0 n x)

copy_up_lem :
    (m : Memory) (d s n x : ℕ)
    → (d ≤ s) ⊎ (s + n ≤ d)
    → copy_up m d s n x ≡ (if inside d n x then m (s + (x - d)) else m x)
unfolding copy_up write
copy_up_lem m d s zero x h = ground arith
copy_up_lem m d s (suc n) x h =
    ground (arith, copy_up_lem (write m d (m s)) (d + 1) (s + 1) n x (omega arith))

-- Here `d` and `s` are the ends of the regions.
copy_down_lem :
    (m : Memory) (d s n x : ℕ)
    → s ≤ d
    → copy_down m (d + n) (s + n) n x ≡ (if inside d n x then m (s + (x - d)) else m x)
unfolding copy_down write
copy_down_lem m d s zero x h = ground arith
copy_down_lem m d s (suc n) x h =
    let e : d + suc n - 1 ≡ d + n = omega arith in
    let e' : s + suc n - 1 ≡ s + n = omega arith in
    rw (e, e') (ground (arith, copy_down_lem (write m (d + n) (m (s + n))) d s n x h))

-- memmove copies the `n` bytes as they were before the call, also where the regions overlap, and
-- changes no other address.
pub memmove_lem :
    (m : Memory) (dst src n x : ℕ)
    → memmove m dst src n x ≡ (if inside dst n x then m (src + (x - dst)) else m x)
unfolding memmove
memmove_lem m dst src n x = elim (Bool-cases (n == 0)) [
  | inl z ↦ ground arith
  | inr nz ↦ elim (Bool-cases (ltb src dst && ltb dst (src + n))) [
    | inl over ↦ rw (nz, over) (copy_down_lem m dst src n x (ground arith))
    | inr apart ↦ rw (nz, apart) (copy_up_lem m dst src n x (ground arith))
  ]
]
