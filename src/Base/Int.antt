-- ===== src/Base/Int.antt =====
-- Signed results, and differences of naturals as integers.
use Prim.Native.Nat.{ℕ, suc, ◌-◌, ◌<◌}
use mathlib.Core.Path.{◌≡◌}
use mathlib.Core.Logic.{◌↔◌}
use native.Mathlib.Omega.{arith}
use mit6_1810_why_tea_fo.Base.Tests.{leb, if◌then◌else◌}

-- `negsuc n` is -(n + 1).
pub data ℤ : Type 0 where
  pos : ℕ → ℤ
  negsuc : ℕ → ℤ

abbrev pub pos_part : ℤ → ℕ
pos_part (pos n) = n
pos_part (negsuc n) = 0

abbrev pub neg_part : ℤ → ℕ
neg_part (pos n) = 0
neg_part (negsuc n) = suc n

-- a - b, as an integer.
unfoldable pub sub_ℕ : ℕ → ℕ → ℤ
sub_ℕ a b = if leb b a then pos (a - b) else negsuc (b - a - 1)

-- -1, the kernel's error result.
abbrev pub minus_one : ℤ
minus_one = negsuc 0

pub sub_ℕ-eq-zero : (a b : ℕ) → sub_ℕ a b ≡ pos 0 → a ≡ b
unfolding sub_ℕ
sub_ℕ-eq-zero a b h = ground arith

pub sub_ℕ_self : (a : ℕ) → sub_ℕ a a ≡ pos 0
unfolding sub_ℕ
sub_ℕ_self a = ground arith

pub sub_ℕ_neg : (a b : ℕ) → (0 < neg_part (sub_ℕ a b)) ↔ (a < b)
unfolding sub_ℕ
sub_ℕ_neg a b = ground arith

pub sub_ℕ_pos : (a b : ℕ) → (0 < pos_part (sub_ℕ a b)) ↔ (b < a)
unfolding sub_ℕ
sub_ℕ_pos a b = ground arith
