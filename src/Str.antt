-- ===== src/Str.antt =====
-- kernel/string.c over a byte memory. Where a C function returns its destination pointer, the
-- model returns the memory alone. An `int n` is an integer, a `uint n` a natural.
pub mod Move
pub mod Compare
pub mod Copy
mod Tests
use mit6_1810_why_tea_fo.Base.{
  ℕ, zero, suc, ◌+◌, ◌-◌, ◌%◌, Bool, not, ◌&&◌, Option, none, some, ◌==◌, ltb, if◌then◌else◌,
}
use mit6_1810_why_tea_fo.Base.Int.{ℤ, pos, pos_part, sub_ℕ}
use mit6_1810_why_tea_fo.Memory.{Memory, write}

-- `for(i = 0; i < n; i++) cdst[i] = c;` with `k` rounds left
memset_loop : Memory → (dst c i : ℕ) → (k : ℕ) → Memory
memset_loop m dst c i zero = m
memset_loop m dst c i (suc k) = memset_loop (write m (dst + i) (c % 256)) dst c (i + 1) k

pub memset : Memory → (dst c n : ℕ) → Memory
unfolding memset_loop
memset m dst c n = memset_loop m dst c 0 n

pub memcmp : Memory → (s1 s2 n : ℕ) → ℤ
unfolding sub_ℕ
memcmp m s1 s2 zero = pos 0
memcmp m s1 s2 (suc n) = if m s1 == m s2 then memcmp m (s1 + 1) (s2 + 1) n else sub_ℕ (m s1) (m s2)

-- `while(n-- > 0) *--d = *--s;`
copy_down : Memory → (d s : ℕ) → (n : ℕ) → Memory
copy_down m d s zero = m
copy_down m d s (suc n) = copy_down (write m (d - 1) (m (s - 1))) (d - 1) (s - 1) n

-- `while(n-- > 0) *d++ = *s++;`
copy_up : Memory → (d s : ℕ) → (n : ℕ) → Memory
copy_up m d s zero = m
copy_up m d s (suc n) = copy_up (write m d (m s)) (d + 1) (s + 1) n

pub memmove : Memory → (dst src n : ℕ) → Memory
unfolding copy_down copy_up
memmove m dst src n =
    if n == 0
    then m
    else if ltb src dst && ltb dst (src + n)
    then copy_down m (dst + n) (src + n) n
    else copy_up m dst src n

pub memcpy : Memory → (dst src n : ℕ) → Memory
unfolding memmove
memcpy m dst src n = memmove m dst src n

pub strncmp : Memory → (p q n : ℕ) → ℤ
unfolding sub_ℕ
strncmp m p q zero = pos 0
strncmp m p q (suc n) =
    if not (m p == 0) && (m p == m q) then strncmp m (p + 1) (q + 1) n else sub_ℕ (m p) (m q)

-- `while(n-- > 0) *s++ = 0;`
zero_fill : Memory → (s : ℕ) → (n : ℕ) → Memory
zero_fill m s zero = m
zero_fill m s (suc n) = zero_fill (write m s 0) (s + 1) n

strncpy_loop : Memory → (s t : ℕ) → (n : ℕ) → Memory
strncpy_loop m s t zero = m
strncpy_loop m s t (suc n) =
    let m' = write m s (m t) in
    let filled = zero_fill m' (s + 1) n in
    let rest = strncpy_loop m' (s + 1) (t + 1) n in if m t == 0 then filled else rest

pub strncpy : Memory → (s t : ℕ) → ℤ → Memory
unfolding strncpy_loop zero_fill
strncpy m s t n = strncpy_loop m s t (pos_part n)

-- `while(--n > 0 && (*s++ = *t++) != 0) ; *s = 0;` with `n` the rounds that `--n > 0` admits
safestrcpy_loop : Memory → (s t : ℕ) → (n : ℕ) → Memory
safestrcpy_loop m s t zero = write m s 0
safestrcpy_loop m s t (suc n) =
    let m' = write m s (m t) in
    let ended = write m' (s + 1) 0 in
    let rest = safestrcpy_loop m' (s + 1) (t + 1) n in if m t == 0 then ended else rest

pub safestrcpy : Memory → (s t : ℕ) → ℤ → Memory
unfolding safestrcpy_loop
safestrcpy m s t n = if pos_part n == 0 then m else safestrcpy_loop m s t (pos_part n - 1)

-- `none`: no NUL within the fuel
pub strlen_from : Memory → (s fuel n : ℕ) → Option ℕ
strlen_from m s zero n = none
strlen_from m s (suc fuel) n =
    let rest = strlen_from m s fuel (n + 1) in if m (s + n) == 0 then some n else rest

pub strlen : Memory → (s fuel : ℕ) → Option ℕ
unfolding strlen_from
strlen m s fuel = strlen_from m s fuel 0
