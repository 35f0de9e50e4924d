-- ===== src/Log/Writes.antt =====
-- The block writes of a commit, in order, and what they leave in the cache.
use mit6_1810_why_tea_fo.Base.{
  ℕ, zero, suc, ◌+◌, ◌-◌, ◌≤◌, ◌<◌, ◌≡◌, ◌≢◌, refl, sym, ◌∙◌, Bool, false, ◌||◌, List, [], ◌∷◌,
  ◌++◌, append_assoc, append-nil, arith, ◌==◌, if◌then◌else◌, ==_refl, ne→==, ℕ_discrete,
}
use mit6_1810_why_tea_fo.Memory.{inside}
use mit6_1810_why_tea_fo.Store.{Block, Disk, Store, update, fill, bwrite}
use mit6_1810_why_tea_fo.Log.{log_blocks, write_blocks, read_blocks, write_log_loop}

pub update_self {ℓ} : {A : Type ℓ} (f : ℕ → A) (a : ℕ) (v : A) → update f a v a ≡ v
unfolding update
update_self f a v = rw (==_refl a)

pub update_ne {ℓ} : {A : Type ℓ} (f : ℕ → A) (a : ℕ) (v : A) (x : ℕ) → x ≢ a → update f a v x ≡ f x
unfolding update
update_ne f a v x h = rw (ne→== x a h)

pub write_blocks_lem :
    (block : ℕ → ℕ) (words : Block) (i k w : ℕ)
    → write_blocks block words i k w ≡ (if inside (i + 1) k w then block (w - 1) else words w)
unfolding write_blocks update
write_blocks_lem block words i zero w = ground arith
write_blocks_lem block words i (suc k) w =
    ground (arith, write_blocks_lem block (update words (i + 1) (block i)) (i + 1) k w)

pub read_blocks_lem :
    (words : Block) (block : ℕ → ℕ) (i k j : ℕ)
    → read_blocks words block i k j ≡ (if inside i k j then words (j + 1) else block j)
unfolding read_blocks update
read_blocks_lem words block i zero j = ground arith
read_blocks_lem words block i (suc k) j =
    ground (arith, read_blocks_lem words (update block i (words (i + 1))) (i + 1) k j)

-- The block is the log's: its header or one of the `log_blocks` behind it.
abbrev pub in_log : ℕ → ℕ → Bool
in_log start b = inside start (log_blocks + 1) b

-- The block is one of `block tail`, ..., `block (tail + k - 1)`.
unfoldable pub is_logged : (ℕ → ℕ) → (tail k : ℕ) → ℕ → Bool
is_logged block tail zero b = false
is_logged block tail (suc k) b = (b == block tail) || is_logged block (tail + 1) k b

-- The logged blocks lie outside the log.
abbrev pub AreHome : (start : ℕ) (block : ℕ → ℕ) (tail k : ℕ) → Type 0
AreHome start block tail k = (i : ℕ) → tail ≤ i → i < tail + k → in_log start (block i) ≡ false

-- What write_log writes, with `f` the contents of the logged blocks.
unfoldable pub log_writes : (start : ℕ) (block : ℕ → ℕ) → Disk → (tail k : ℕ) → List (ℕ × Block)
log_writes start block f tail zero = []
log_writes start block f tail (suc k) =
    (start + tail + 1, f (block tail)) ∷ log_writes start block f (tail + 1) k

-- What install_trans writes.
unfoldable pub home_writes : (block : ℕ → ℕ) → Disk → (tail k : ℕ) → List (ℕ × Block)
home_writes block f tail zero = []
home_writes block f tail (suc k) = (block tail, f (block tail)) ∷ home_writes block f (tail + 1) k

-- A block outside the log is none of the log's blocks.
pub home_ne : (start b i : ℕ) → in_log start b ≡ false → i < log_blocks → b ≢ start + i + 1
home_ne start b i out lt = ground arith

module _ (start : ℕ) (block : ℕ → ℕ) where
  log_writes_congr :
      (f g : Disk) (tail k : ℕ)
      → ((i : ℕ) → tail ≤ i → i < tail + k → f (block i) ≡ g (block i))
      → log_writes start block f tail k ≡ log_writes start block g tail k
  unfolding log_writes
  log_writes_congr f g tail zero h = refl
  log_writes_congr f g tail (suc k) h = rw (
    h tail (omega arith) (omega arith),
    log_writes_congr f g (tail + 1) k (λ i le lt. h i (omega arith) (omega arith)),
  )

  write_log_loop-cache :
      (s : Store) (tail k b : ℕ)
      → inside (start + tail + 1) k b ≡ false
      → (write_log_loop start block s tail k).cache b ≡ s.cache b
  unfolding write_log_loop
  write_log_loop-cache s tail zero b out = refl
  write_log_loop-cache s tail (suc k) b out =
      let copied = fill s (start + tail + 1) (s.cache (block tail)) in
      write_log_loop-cache (bwrite copied (start + tail + 1)) (tail + 1) k b (ground arith)
      ∙ update_ne s.cache (start + tail + 1) (s.cache (block tail)) b (ground arith)

  -- The block of the log with index `i` gets the contents of the logged block.
  pub write_log_loop-copied :
      (s : Store) (tail k i : ℕ)
      → AreHome start block tail k
      → tail + k ≤ log_blocks
      → tail ≤ i
      → i < tail + k
      → (write_log_loop start block s tail k).cache (start + i + 1) ≡ s.cache (block i)
  unfolding write_log_loop
  write_log_loop-copied s tail zero i home fits le lt = absurd (omega arith)
  write_log_loop-copied s tail (suc k) i home fits le lt =
      let s' : Store =
        bwrite (fill s (start + tail + 1) (s.cache (block tail))) (start + tail + 1) in
      elim (ℕ_discrete i tail) [
        | yes e ↦ rw e (
            write_log_loop-cache s' (tail + 1) k (start + tail + 1) (ground arith)
            ∙ update_self s.cache (start + tail + 1) (s.cache (block tail)))
        | no ne ↦
            write_log_loop-copied s' (tail + 1) k i (λ j l g. home j (omega arith) (omega arith))
              (omega arith) (omega arith) (omega arith)
            ∙ update_ne s.cache (start + tail + 1) (s.cache (block tail)) (block i)
                (home_ne start (block i) tail (home i le lt) (omega arith))
      ]

  pub write_log_loop-trace :
      (s : Store) (tail k : ℕ)
      → AreHome start block tail k
      → tail + k ≤ log_blocks
      → (write_log_loop start block s tail k).trace
        ≡ s.trace ++ log_writes start block s.cache tail k
  unfolding write_log_loop log_writes
  write_log_loop-trace s tail zero home fits = sym (append-nil s.trace)
  write_log_loop-trace s tail (suc k) home fits =
      let s' : Store =
        bwrite (fill s (start + tail + 1) (s.cache (block tail))) (start + tail + 1) in
      let entry : s'.cache (start + tail + 1) ≡ s.cache (block tail) =
        update_self s.cache (start + tail + 1) (s.cache (block tail)) in
      let same : log_writes start block s'.cache (tail + 1) k
          ≡ log_writes start block s.cache (tail + 1) k =
        log_writes_congr s'.cache s.cache (tail + 1) k (λ i le lt.
          update_ne s.cache (start + tail + 1) (s.cache (block tail)) (block i)
            (home_ne start (block i) tail (home i (omega arith) (omega arith)) (omega arith))) in
      write_log_loop-trace s' (tail + 1) k (λ j l g. home j (omega arith) (omega arith))
        (omega arith)
      ∙ rw (entry, same) (append_assoc s.trace _ _)
