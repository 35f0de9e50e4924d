-- ===== src/Files/Counts.antt =====
-- How often a descriptor table refers to a file.
use mit6_1810_why_tea_fo.Base.{
  ℕ, zero, suc, ◌+◌, ◌<◌, ◌≡◌, Option, none, some, [], ◌∷◌, arith, ◌==◌, if◌then◌else◌, length,
  get_or, set,
}
use mit6_1810_why_tea_fo.Files.{Ofile}

abbrev pub weight : ℕ → Option ℕ → ℕ
weight f none = 0
weight f (some g) = if f == g then 1 else 0

abbrev pub count : ℕ → Ofile → ℕ
count f [] = 0
count f (x ∷ xs) = weight f x + count f xs

pub count-set :
    (f : ℕ) (o : Ofile) (i : ℕ) (v : Option ℕ)
    → i < length o
    → count f (set o i v) + weight f (get_or o i none) ≡ count f o + weight f v
count-set f [] i v h = absurd (omega arith)
count-set f (x ∷ xs) zero v h = omega arith
count-set f (x ∷ xs) (suc i) v h = omega (arith, count-set f xs i v (omega arith))

pub count-get_or : (f : ℕ) (o : Ofile) (i : ℕ) → get_or o i none ≡ some f → 0 < count f o
count-get_or f [] i h = ground arith
count-get_or f (x ∷ xs) zero h = ground arith
count-get_or f (x ∷ xs) (suc i) h = omega (arith, count-get_or f xs i h)
