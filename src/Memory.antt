-- ===== src/Memory.antt =====
-- Byte-addressed memory: what `char *` code reads and writes. Addresses do not wrap.
use mit6_1810_why_tea_fo.Base.{
  ℕ, ◌+◌, ◌≡◌, ◌≢◌, Bool, ◌&&◌, ◌==◌, leb, ltb, if◌then◌else◌, ==_refl, ne→==,
}

abbrev pub Memory : Type 0
Memory = ℕ → ℕ

unfoldable pub write : Memory → ℕ → ℕ → Memory
write m a v = λ x. if x == a then v else m x

-- The address `x` is one of the `n` from `a` on.
abbrev pub inside : ℕ → ℕ → ℕ → Bool
inside a n x = leb a x && ltb x (a + n)

pub write_self : (m : Memory) (a v : ℕ) → write m a v a ≡ v
unfolding write
write_self m a v = rw (==_refl a)

pub write_ne : (m : Memory) (a v x : ℕ) → x ≢ a → write m a v x ≡ m x
unfolding write
write_ne m a v x h = rw (ne→== x a h)
