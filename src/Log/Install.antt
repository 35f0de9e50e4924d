-- ===== src/Log/Install.antt =====
-- What install_trans writes, and what it leaves on the disk.
use mit6_1810_why_tea_fo.Base.{
  ℕ, zero, suc, ◌+◌, ◌≤◌, ◌<◌, ◌≡◌, refl, sym, ◌∙◌, Bool, true, false, [], ◌∷◌, ◌++◌, append_assoc,
  append-nil, false≢true, arith, if◌then◌else◌,
}
use mit6_1810_why_tea_fo.Store.{Block, Disk, Store, update}
use mit6_1810_why_tea_fo.Log.{log_blocks, install_step, install_loop}
use mit6_1810_why_tea_fo.Log.Writes.{
  update_self, update_ne, in_log, is_logged, AreHome, home_writes,
}

-- The fields after the body of the loop.
record Installed (s t : Store) (b : ℕ) (v : Block) : Type 0 where
  cache : t.cache ≡ update s.cache b v
  disk : t.disk ≡ update s.disk b v
  trace : t.trace ≡ s.trace ++ ((b, v) ∷ [])

module _ (start : ℕ) (block : ℕ → ℕ) where
  install_step-Installed :
      (recovering : Bool) (s : Store) (tail : ℕ)
      → Installed s
          (install_step start block recovering s tail)
          (block tail)
          (s.cache (start + tail + 1))
  unfolding install_step
  install_step-Installed true s tail = record {
    cache = refl;
    disk = rw (update_self s.cache (block tail) (s.cache (start + tail + 1)));
    trace = rw (update_self s.cache (block tail) (s.cache (start + tail + 1)));
  }
  install_step-Installed false s tail = record {
    cache = refl;
    disk = rw (update_self s.cache (block tail) (s.cache (start + tail + 1)));
    trace = rw (update_self s.cache (block tail) (s.cache (start + tail + 1)));
  }

module _ (start : ℕ) (block : ℕ → ℕ) (recovering : Bool) (f : Disk) where
  -- The log holds the contents `f` of the blocks from `tail` on.
  abbrev pub Copies : Store → (tail k : ℕ) → Type 0
  Copies s tail k = (i : ℕ) → tail ≤ i → i < tail + k → s.cache (start + i + 1) ≡ f (block i)

  step_keeps_log :
      (s : Store) (tail b : ℕ)
      → in_log start (block tail) ≡ false
      → in_log start b ≡ true
      → (install_step start block recovering s tail).cache b ≡ s.cache b
  step_keeps_log s tail b home lies =
      let st = install_step-Installed start block recovering s tail in
      rw st.cache (update_ne s.cache (block tail) _ b (λ e. false≢true (sym home ∙ (rw e at lies))))

  step-Copies :
      (s : Store) (tail k : ℕ)
      → AreHome start block tail (suc k)
      → tail + suc k ≤ log_blocks
      → Copies s tail (suc k)
      → Copies (install_step start block recovering s tail) (tail + 1) k
  step-Copies s tail k home fits copies i le lt =
      step_keeps_log s tail (start + i + 1) (home tail (omega arith) (omega arith)) (ground arith)
      ∙ copies i (omega arith) (omega arith)

  pub install_keeps_log :
      (s : Store) (tail k b : ℕ)
      → AreHome start block tail k
      → in_log start b ≡ true
      → (install_loop start block recovering s tail k).cache b ≡ s.cache b
  unfolding install_loop
  install_keeps_log s tail zero b home lies = refl
  install_keeps_log s tail (suc k) b home lies =
      install_keeps_log (install_step start block recovering s tail) (tail + 1) k b
        (λ i le lt. home i (omega arith) (omega arith)) lies
      ∙ step_keeps_log s tail b (home tail (omega arith) (omega arith)) lies

  pub install-trace :
      (s : Store) (tail k : ℕ)
      → AreHome start block tail k
      → tail + k ≤ log_blocks
      → Copies s tail k
      → (install_loop start block recovering s tail k).trace ≡ s.trace ++ home_writes block f tail k
  unfolding install_loop home_writes
  install-trace s tail zero home fits copies = sym (append-nil s.trace)
  install-trace s tail (suc k) home fits copies =
      let st = install_step-Installed start block recovering s tail in
      install-trace (install_step start block recovering s tail) (tail + 1) k
        (λ i le lt. home i (omega arith) (omega arith)) (omega arith)
        (step-Copies s tail k home fits copies)
      ∙ rw (st.trace, copies tail (omega arith) (omega arith)) (append_assoc s.trace _ _)

  pub install-disk :
      (s : Store) (tail k b : ℕ)
      → AreHome start block tail k
      → tail + k ≤ log_blocks
      → Copies s tail k
      → (install_loop start block recovering s tail k).disk b
        ≡ (if is_logged block tail k b then f b else s.disk b)
  unfolding install_loop is_logged update
  install-disk s tail zero b home fits copies = refl
  install-disk s tail (suc k) b home fits copies =
      let st = install_step-Installed start block recovering s tail in
      let s' : Store = install_step start block recovering s tail in
      let ih : (install_loop start block recovering s' (tail + 1) k).disk b
          ≡ (if is_logged block (tail + 1) k b then f b else s'.disk b) =
        install-disk s' (tail + 1) k b (λ i le lt. home i (omega arith) (omega arith)) (omega arith)
          (step-Copies s tail k home fits copies) in
      rw (ih, st.disk, copies tail (omega arith) (omega arith)) (ground arith)
