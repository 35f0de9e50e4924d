-- ===== src/Log/Recovery.antt =====
-- recover_from_log: what a start of the machine makes of a disk.
use mit6_1810_why_tea_fo.Base.{
  ℕ, zero, suc, ◌+◌, ◌≤◌, ◌<◌, ◌≡◌, ◌≢◌, refl, sym, ◌∙◌, ap, true, false, arith, if◌then◌else◌,
}
use mathlib.Core.Path.{subst}
use mit6_1810_why_tea_fo.Store.{Block, Disk, Store, update, reboot}
use mit6_1810_why_tea_fo.Log.{log_blocks, initial, initlog, read_blocks, install_loop}
use mit6_1810_why_tea_fo.Log.Writes.{
  update_self, update_ne, in_log, is_logged, AreHome, read_blocks_lem,
}
use mit6_1810_why_tea_fo.Log.Install.{install-disk}

-- What a machine that starts over the disk `d` makes of it.
abbrev pub recovered : Disk → (dev start : ℕ) → Disk
recovered d dev start = (initlog (initial (reboot d)) dev start).store.disk

-- The disk's log holds `n` blocks with the homes `block` and the contents `f`.
pub record Holds (d : Disk) (start n : ℕ) (block : ℕ → ℕ) (f : Disk) : Type 0 where
  pub count : d start 0 ≡ n
  pub homes : (i : ℕ) → i < n → d start (i + 1) ≡ block i
  pub copies : (i : ℕ) → i < n → d (start + i + 1) ≡ f (block i)

is_logged_congr :
    (block block' : ℕ → ℕ) (tail k b : ℕ)
    → ((i : ℕ) → tail ≤ i → i < tail + k → block i ≡ block' i)
    → is_logged block tail k b ≡ is_logged block' tail k b
unfolding is_logged
is_logged_congr block block' tail zero b h = refl
is_logged_congr block block' tail (suc k) b h = rw (
  h tail (omega arith) (omega arith),
  is_logged_congr block block' (tail + 1) k b (λ i le lt. h i (omega arith) (omega arith)),
)

module _ (d : Disk) (dev start : ℕ) where
  abbrev pub read : ℕ → ℕ
  read = read_blocks (d start) (λ _. 0) 0 (d start 0)

  pub recovered_head : recovered d dev start start 0 ≡ 0
  unfolding initlog
  recovered_head =
      let s : Store = install_loop start read true (reboot d) 0 (d start 0) in
      let words : Block = update (s.cache start) 0 0 in
      ap (λ v. v 0) (update_self s.disk start (update s.cache start words start))
      ∙ ap (λ v. v 0) (update_self s.cache start words)
      ∙ update_self (s.cache start) 0 0

  recovered_other :
      (b : ℕ)
      → b ≢ start
      → recovered d dev start b ≡ (install_loop start read true (reboot d) 0 (d start 0)).disk b
  unfolding initlog
  recovered_other b h = update_ne _ start _ b h

  pub read_lem : (i : ℕ) → i < d start 0 → read i ≡ d start (i + 1)
  read_lem i lt = read_blocks_lem (d start) (λ _. 0) 0 (d start 0) i ∙ ground arith

  recovered_home :
      (b : ℕ) (block : ℕ → ℕ) (f : Disk)
      → d start 0 ≤ log_blocks
      → AreHome start block 0 (d start 0)
      → Holds d start (d start 0) block f
      → in_log start b ≡ false
      → recovered d dev start b ≡ (if is_logged block 0 (d start 0) b then f b else d b)
  recovered_home b block f fits home h out =
      let same : (i : ℕ) → 0 ≤ i → i < 0 + d start 0 → read i ≡ block i =
        λ i le lt. read_lem i (omega arith) ∙ h.homes i (omega arith) in
      recovered_other b (ground arith)
      ∙ install-disk start read true f (reboot d) 0 (d start 0) b
          (λ i le lt. rw (same i le lt) (home i le lt)) (omega arith)
          (λ i le lt. h.copies i (omega arith) ∙ ap f (sym (same i le lt)))
      ∙ rw (is_logged_congr read block 0 (d start 0) b same)

-- Recovery installs what the log holds, and leaves every other home block as it is.
pub recovered_lem :
    {d : Disk} {start n : ℕ} {block : ℕ → ℕ} {f : Disk} (dev b : ℕ)
    → n ≤ log_blocks
    → AreHome start block 0 n
    → Holds d start n block f
    → in_log start b ≡ false
    → recovered d dev start b ≡ (if is_logged block 0 n b then f b else d b)
recovered_lem {d} {start} {n} {block} {f} dev b fits home h out =
    subst
      (λ k.
        k ≤ log_blocks
        → AreHome start block 0 k
        → Holds d start k block f
        → recovered d dev start b ≡ (if is_logged block 0 k b then f b else d b))
      h.count (λ fits' home' h'. recovered_home d dev start b block f fits' home' h' out) fits home
      h

pub nothing_held :
    {d : Disk} {start : ℕ} (block : ℕ → ℕ) (f : Disk) → d start 0 ≡ 0 → Holds d start 0 block f
nothing_held block f e = record {
  count = e;
  homes = λ i lt. absurd (omega arith);
  copies = λ i lt. absurd (omega arith);
}

-- Over a disk whose log is empty, recovery changes no home block.
pub recovered_empty :
    (d : Disk) (dev start b : ℕ)
    → d start 0 ≡ 0
    → in_log start b ≡ false
    → recovered d dev start b ≡ d b
unfolding is_logged
recovered_empty d dev start b e out =
    recovered_lem {d = d} {block = λ _. 0} {f = d} dev b (omega arith)
      (λ i le lt. absurd (omega arith)) (nothing_held (λ _. 0) d e) out
