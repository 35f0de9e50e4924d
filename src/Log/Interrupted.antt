-- ===== src/Log/Interrupted.antt =====
-- A power failure during recovery itself.
use mit6_1810_why_tea_fo.Base.{
  ℕ, zero, suc, ◌+◌, ◌≤◌, ◌<◌, ◌≡◌, refl, sym, ◌∙◌, ap, true, false, List, [], ◌∷◌, ◌++◌, arith,
  take,
}
use mathlib.Core.Path.{subst}
use mit6_1810_why_tea_fo.Store.{Block, Disk, Store, update, replay, reboot}
use mit6_1810_why_tea_fo.Log.{log_blocks, initial, initlog, install_loop}
use mit6_1810_why_tea_fo.Log.Writes.{update_self, in_log, AreHome, home_writes}
use mit6_1810_why_tea_fo.Log.Install.{install-trace}
use mit6_1810_why_tea_fo.Log.Recovery.{
  recovered, Holds, read, read_lem, recovered_head, recovered_lem,
}
use mit6_1810_why_tea_fo.Log.Redo.{redone}

-- The block writes of a recovery, the oldest first.
abbrev pub recovery_writes : Disk → (dev start : ℕ) → List (ℕ × Block)
recovery_writes d dev start = (initlog (initial (reboot d)) dev start).store.trace

home_writes_congr :
    (block block' : ℕ → ℕ) (f : Disk) (tail k : ℕ)
    → ((i : ℕ) → tail ≤ i → i < tail + k → block i ≡ block' i)
    → home_writes block f tail k ≡ home_writes block' f tail k
unfolding home_writes
home_writes_congr block block' f tail zero h = refl
home_writes_congr block block' f tail (suc k) h = rw (
  h tail (omega arith) (omega arith),
  home_writes_congr block block' f (tail + 1) k (λ i le lt. h i (omega arith) (omega arith)),
)

module _ (d : Disk) (dev start : ℕ) where
  -- the header block that recovery writes at its end
  last_header : Block
  last_header = recovered d dev start start

  recovery_trace :
      recovery_writes d dev start
      ≡ (install_loop start (read d dev start) true (reboot d) 0 (d start 0)).trace
        ++ ((start, last_header) ∷ [])
  unfolding initlog last_header
  recovery_trace =
      let s : Store = install_loop start (read d dev start) true (reboot d) 0 (d start 0) in
      ap (λ v. s.trace ++ ((start, v) ∷ []))
        (sym (update_self s.disk start (update s.cache start (update (s.cache start) 0 0) start)))

  recovery_writes_held :
      (block : ℕ → ℕ) (f : Disk)
      → d start 0 ≤ log_blocks
      → AreHome start block 0 (d start 0)
      → Holds d start (d start 0) block f
      → recovery_writes d dev start
        ≡ home_writes block f 0 (d start 0) ++ ((start, last_header) ∷ [])
  recovery_writes_held block f fits home h =
      let same : (i : ℕ) → 0 ≤ i → i < 0 + d start 0 → read d dev start i ≡ block i =
        λ i le lt. read_lem d dev start i (omega arith) ∙ h.homes i (omega arith) in
      recovery_trace
      ∙ ap (λ t. t ++ ((start, last_header) ∷ []))
          (install-trace start (read d dev start) true f (reboot d) 0 (d start 0)
              (λ i le lt. rw (same i le lt) (home i le lt)) (omega arith)
              (λ i le lt. h.copies i (omega arith) ∙ ap f (sym (same i le lt)))
            ∙ home_writes_congr (read d dev start) block f 0 (d start 0) same)

recovery_writes_lem :
    {d : Disk} {start n : ℕ} {block : ℕ → ℕ} {f : Disk} (dev : ℕ)
    → n ≤ log_blocks
    → AreHome start block 0 n
    → Holds d start n block f
    → recovery_writes d dev start
      ≡ home_writes block f 0 n ++ ((start, last_header d dev start) ∷ [])
recovery_writes_lem {d} {start} {n} {block} {f} dev fits home h =
    subst
      (λ k.
        k ≤ log_blocks
        → AreHome start block 0 k
        → Holds d start k block f
        → recovery_writes d dev start
          ≡ home_writes block f 0 k ++ ((start, last_header d dev start) ∷ []))
      h.count (recovery_writes_held d dev start block f) fits home h

-- If the power fails after any number `j` of the block writes of a recovery, the next recovery
-- gives every block outside the log the contents that the first would have given it.
pub recovery_crash :
    {d : Disk} {start n : ℕ} {block : ℕ → ℕ} {f : Disk} (j dev b : ℕ)
    → n ≤ log_blocks
    → AreHome start block 0 n
    → Holds d start n block f
    → in_log start b ≡ false
    → recovered (replay (take j (recovery_writes d dev start)) d) dev start b
      ≡ recovered d dev start b
unfolding last_header
recovery_crash {d} {start} {n} {block} {f} j dev b fits home h out =
    ap (λ ws. recovered (replay (take j ws) d) dev start b) (recovery_writes_lem dev fits home h)
    ∙ redone start n block f fits home h (last_header d dev start) (recovered_head d dev start) j
        dev b out
    ∙ sym (recovered_lem dev b fits home h out)
