-- ===== src/Str/Copy.antt =====
-- What strncpy and safestrcpy leave in memory.
use mit6_1810_why_tea_fo.Base.{
  ℕ, zero, suc, ◌+◌, ◌-◌, ◌≤◌, ◌<◌, ◌≡◌, ◌≢◌, ◌⊎◌, ap, sym, ◌∙◌, arith, ◌==◌, ltb, if◌then◌else◌,
  ne→==, false,
}
use mit6_1810_why_tea_fo.Base.Int.{pos}
use mit6_1810_why_tea_fo.Memory.{Memory, write, inside, write_ne}
use mit6_1810_why_tea_fo.Str.{zero_fill, strncpy_loop, strncpy, safestrcpy_loop, safestrcpy}

zero_fill_lem : (m : Memory) (s n x : ℕ) → zero_fill m s n x ≡ (if inside s n x then 0 else m x)
unfolding zero_fill write
zero_fill_lem m s zero x = ground arith
zero_fill_lem m s (suc n) x = ground (arith, zero_fill_lem (write m s 0) (s + 1) n x)

-- The `n` addresses from `s` and the `n` from `t` have none in common.
abbrev pub Apart : (s t n : ℕ) → Type 0
Apart s t n = (s + n ≤ t) ⊎ (t + n ≤ s)

-- What a copy of `n` characters that stops behind the first NUL leaves at `x`.
abbrev pub copied : Memory → (s t k n x : ℕ) → ℕ
copied m s t k n x = if inside s n x then (if ltb (x - s) k then m (t + (x - s)) else 0) else m x

-- Writing the first character leaves the rest of the source as it is.
write-source :
    (m : Memory) (s t n v j : ℕ)
    → Apart s t (suc n)
    → j < n
    → write m s v (t + 1 + j) ≡ m (t + suc j)
write-source m s t n v j apart lt = write_ne m s v (t + 1 + j) (omega arith) ∙ ap m (omega arith)

strncpy_loop_lem :
    (m : Memory) (s t k n x : ℕ)
    → Apart s t n
    → ((j : ℕ) → j < k → m (t + j) ≢ 0)
    → k ≤ n
    → (k < n → m (t + k) ≡ 0)
    → strncpy_loop m s t n x ≡ copied m s t k n x
unfolding strncpy_loop write
strncpy_loop_lem m s t k zero x apart before le ends = ground arith
strncpy_loop_lem m s t zero (suc n) x apart before le ends =
    let z : m t ≡ 0 = ap m (omega arith) ∙ ends (omega arith) in
    rw z (ground (arith, zero_fill_lem (write m s 0) (s + 1) n x))
strncpy_loop_lem m s t (suc k) (suc n) x apart before le ends =
    let m' : Memory = write m s (m t) in
    let nz : (m t == 0) ≡ false =
      ne→== _ 0 (λ e. before 0 (omega arith) (ap m (omega arith) ∙ e)) in
    let ih : strncpy_loop m' (s + 1) (t + 1) n x ≡ copied m' (s + 1) (t + 1) k n x =
      strncpy_loop_lem m' (s + 1) (t + 1) k n x (ground arith)
        (λ j l e.
          before (suc j) (omega arith) (sym (write-source m s t n (m t) j apart (omega arith)) ∙ e))
        (omega arith) (λ l. write-source m s t n (m t) k apart l ∙ ends (omega arith)) in
    rw (nz, ih) (ground arith)

-- strncpy of `n` characters copies the string at `t` up to its length `k`, fills the rest of the
-- `n` bytes with NUL, and changes no other address, where source and destination do not overlap.
pub strncpy_lem :
    (m : Memory) (s t k n x : ℕ)
    → Apart s t n
    → k ≤ n
    → ((j : ℕ) → j < k → m (t + j) ≢ 0)
    → (k < n → m (t + k) ≡ 0)
    → strncpy m s t (pos n) x ≡ copied m s t k n x
unfolding strncpy
strncpy_lem m s t k n x apart le before ends = strncpy_loop_lem m s t k n x apart before le ends

safestrcpy_loop_outside :
    (m : Memory) (s t n x : ℕ) → inside s (suc n) x ≡ false → safestrcpy_loop m s t n x ≡ m x
unfolding safestrcpy_loop write
safestrcpy_loop_outside m s t zero x out = ground arith
safestrcpy_loop_outside m s t (suc n) x out =
    ground (arith, safestrcpy_loop_outside (write m s (m t)) (s + 1) (t + 1) n x)

safestrcpy_loop_lem :
    (m : Memory) (s t k n i : ℕ)
    → Apart s t (suc n)
    → ((j : ℕ) → j < k → m (t + j) ≢ 0)
    → k ≤ n
    → (k < n → m (t + k) ≡ 0)
    → i ≤ k
    → safestrcpy_loop m s t n (s + i) ≡ (if i == k then 0 else m (t + i))
unfolding safestrcpy_loop write
safestrcpy_loop_lem m s t k zero i apart before le ends lt = ground arith
safestrcpy_loop_lem m s t zero (suc n) i apart before le ends lt =
    let z : m t ≡ 0 = ap m (omega arith) ∙ ends (omega arith) in rw z (ground arith)
safestrcpy_loop_lem m s t (suc k) (suc n) zero apart before le ends lt =
    let nz : (m t == 0) ≡ false =
      ne→== _ 0 (λ e. before 0 (omega arith) (ap m (omega arith) ∙ e)) in
    rw nz (ground (arith, safestrcpy_loop_outside (write m s (m t)) (s + 1) (t + 1) n (s + 0)))
safestrcpy_loop_lem m s t (suc k) (suc n) (suc i) apart before le ends lt =
    let m' : Memory = write m s (m t) in
    let nz : (m t == 0) ≡ false =
      ne→== _ 0 (λ e. before 0 (omega arith) (ap m (omega arith) ∙ e)) in
    let ih : safestrcpy_loop m' (s + 1) (t + 1) n (s + 1 + i)
        ≡ (if i == k then 0 else m' (t + 1 + i)) =
      safestrcpy_loop_lem m' (s + 1) (t + 1) k n i (ground arith)
        (λ j l e.
          before (suc j) (omega arith)
            (sym (write-source m s t (suc n) (m t) j apart (omega arith)) ∙ e))
        (omega arith)
        (λ l. write-source m s t (suc n) (m t) k apart (omega arith) ∙ ends (omega arith))
        (omega arith) in
    let there : s + suc i ≡ s + 1 + i = omega arith in
    rw (nz, there, ih) (ground (arith, write-source m s t (suc n) (m t) i apart))

-- safestrcpy into a buffer of `n` bytes, `n` positive, copies the string at `t` up to `k`, its
-- length or `n - 1` if that is less, ends it with a NUL, and writes no address outside the buffer;
-- where source and destination do not overlap.
pub safestrcpy_lem :
    (m : Memory) (s t k n : ℕ)
    → Apart s t (suc n)
    → k ≤ n
    → ((j : ℕ) → j < k → m (t + j) ≢ 0)
    → (k < n → m (t + k) ≡ 0)
    → ((i : ℕ) → i < k → safestrcpy m s t (pos (suc n)) (s + i) ≡ m (t + i))
      × (safestrcpy m s t (pos (suc n)) (s + k) ≡ 0)
      × ((x : ℕ) → inside s (suc n) x ≡ false → safestrcpy m s t (pos (suc n)) x ≡ m x)
unfolding safestrcpy
safestrcpy_lem m s t k n apart le before ends =
    (λ i l. ground (arith, loop i), ground (arith, loop k), λ x out. ground (arith, outside x))
  where
    loop :
        (i : ℕ)
        → i ≤ k
        → safestrcpy_loop m s t (suc n - 1) (s + i) ≡ (if i == k then 0 else m (t + i))
    loop i l =
        let e : suc n - 1 ≡ n = omega arith in
        rw e (safestrcpy_loop_lem m s t k n i apart before le ends l)

    outside : (x : ℕ) → inside s (suc n) x ≡ false → safestrcpy_loop m s t (suc n - 1) x ≡ m x
    outside x out =
        let e : suc n - 1 ≡ n = omega arith in rw e (safestrcpy_loop_outside m s t n x out)
