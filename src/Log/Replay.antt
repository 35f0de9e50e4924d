-- ===== src/Log/Replay.antt =====
-- The disk after any part of a commit's block writes.
use mit6_1810_why_tea_fo.Base.{
  ℕ, zero, suc, ◌+◌, ◌≤◌, ◌<◌, ◌≡◌, refl, ◌∙◌, ap, true, false, ◌⊎◌, inl, List, [], ◌∷◌, ◌++◌,
  ℕ_discrete, arith, if◌then◌else◌, take, length,
}
use mit6_1810_why_tea_fo.Memory.{inside}
use mit6_1810_why_tea_fo.Store.{Block, Disk, update, replay}
use mit6_1810_why_tea_fo.Log.Writes.{update_self, is_logged, log_writes, home_writes}

pub replay-append :
    (xs ys : List (ℕ × Block)) (d : Disk) → replay (xs ++ ys) d ≡ replay ys (replay xs d)
replay-append [] ys d = refl
replay-append ((b, v) ∷ xs) ys d = replay-append xs ys (update d b v)

-- A part of `xs ++ ys` is a part of `xs`, or all of it and a part of `ys`.
pub take-append-le {ℓ} :
    {A : Type ℓ} (j : ℕ) (xs ys : List A) → j ≤ length xs → take j (xs ++ ys) ≡ take j xs
take-append-le zero xs ys h = refl
take-append-le (suc j) [] ys h = absurd (omega arith)
take-append-le (suc j) (x ∷ xs) ys h = ap (λ t. x ∷ t) (take-append-le j xs ys (omega arith))

pub take-append-add {ℓ} :
    {A : Type ℓ} (j : ℕ) (xs ys : List A) → take (length xs + j) (xs ++ ys) ≡ xs ++ take j ys
take-append-add j [] ys = ap (λ n. take n ys) (omega arith)
take-append-add j (x ∷ xs) ys =
    let e : suc (length xs) + j ≡ suc (length xs + j) = omega arith in
    rw e (ap (λ t. x ∷ t) (take-append-add j xs ys))

module _ (start : ℕ) (block : ℕ → ℕ) (f : Disk) where
  pub length-log_writes : (tail k : ℕ) → length (log_writes start block f tail k) ≡ k
  unfolding log_writes
  length-log_writes tail zero = refl
  length-log_writes tail (suc k) = ap suc (length-log_writes (tail + 1) k)

  -- Writes to the log change only the log's blocks.
  pub replay-log_writes_other :
      (j tail k b : ℕ) (d : Disk)
      → inside (start + tail + 1) k b ≡ false
      → replay (take j (log_writes start block f tail k)) d b ≡ d b
  unfolding log_writes update
  replay-log_writes_other zero tail k b d out = refl
  replay-log_writes_other (suc j) tail zero b d out = refl
  replay-log_writes_other (suc j) tail (suc k) b d out =
      replay-log_writes_other j (tail + 1) k b (update d (start + tail + 1) (f (block tail)))
        (ground arith)
      ∙ ground arith

  pub replay-all :
      (tail k b : ℕ) (d : Disk)
      → inside (start + tail + 1) k b ≡ false
      → replay (log_writes start block f tail k) d b ≡ d b
  unfolding log_writes update
  replay-all tail zero b d out = refl
  replay-all tail (suc k) b d out =
      replay-all (tail + 1) k b (update d (start + tail + 1) (f (block tail))) (ground arith)
      ∙ ground arith

  pub replay-log_writes :
      (tail k i : ℕ) (d : Disk)
      → tail ≤ i
      → i < tail + k
      → replay (log_writes start block f tail k) d (start + i + 1) ≡ f (block i)
  unfolding log_writes update
  replay-log_writes tail zero i d le lt = absurd (omega arith)
  replay-log_writes tail (suc k) i d le lt =
      let d' : Disk = update d (start + tail + 1) (f (block tail)) in
      elim (ℕ_discrete i tail) [
        | yes e ↦ rw e (
            replay-all (tail + 1) k (start + tail + 1) d' (ground arith)
            ∙ update_self d (start + tail + 1) (f (block tail)))
        | no ne ↦ replay-log_writes (tail + 1) k i d' (omega arith) (omega arith)
      ]

module _ (block : ℕ → ℕ) (f : Disk) where
  pub length-home_writes : (tail k : ℕ) → length (home_writes block f tail k) ≡ k
  unfolding home_writes
  length-home_writes tail zero = refl
  length-home_writes tail (suc k) = ap suc (length-home_writes (tail + 1) k)

  -- A block is as before, or is a logged one and has its new contents.
  pub replay-home_writes_part :
      (j tail k b : ℕ) (d : Disk)
      → (replay (take j (home_writes block f tail k)) d b ≡ d b)
        ⊎ ((is_logged block tail k b ≡ true)
            × (replay (take j (home_writes block f tail k)) d b ≡ f b))
  unfolding home_writes is_logged update
  replay-home_writes_part zero tail k b d = inl refl
  replay-home_writes_part (suc j) tail zero b d = inl refl
  replay-home_writes_part (suc j) tail (suc k) b d =
      ground
        (arith, replay-home_writes_part j (tail + 1) k b (update d (block tail) (f (block tail))))

  pub replay-home_writes :
      (tail k b : ℕ) (d : Disk)
      → replay (home_writes block f tail k) d b ≡ (if is_logged block tail k b then f b else d b)
  unfolding home_writes is_logged update
  replay-home_writes tail zero b d = refl
  replay-home_writes tail (suc k) b d =
      ground (arith, replay-home_writes (tail + 1) k b (update d (block tail) (f (block tail))))
