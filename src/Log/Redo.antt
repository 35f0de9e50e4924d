-- ===== src/Log/Redo.antt =====
-- Installing what the log holds, in part or as a whole, and recovering from that.
use mit6_1810_why_tea_fo.Base.{
  ℕ, zero, suc, ◌+◌, ◌-◌, ◌≤◌, ◌≡◌, sym, ◌∙◌, ap, true, false, inl, inr, List, [], ◌∷◌, ◌++◌,
  dec_le, take-nil, arith, ◌==◌, if◌then◌else◌, take, length, Bool-cases, ==→eq, false≢true,
}
use mit6_1810_why_tea_fo.Store.{Block, Disk, update, replay}
use mit6_1810_why_tea_fo.Log.{log_blocks}
use mit6_1810_why_tea_fo.Log.Writes.{
  update_self, update_ne, in_log, is_logged, AreHome, home_writes,
}
use mit6_1810_why_tea_fo.Log.Replay.{
  replay-append, take-append-le, take-append-add, length-home_writes, replay-home_writes_part,
  replay-home_writes,
}
use mit6_1810_why_tea_fo.Log.Recovery.{recovered, Holds, recovered_lem, recovered_empty}

is_logged-home :
    (start : ℕ) (block : ℕ → ℕ) (tail k b : ℕ)
    → AreHome start block tail k
    → is_logged block tail k b ≡ true
    → in_log start b ≡ false
unfolding is_logged
is_logged-home start block tail zero b home e = absurd (false≢true e)
is_logged-home start block tail (suc k) b home e = elim (Bool-cases (b == block tail)) [
  | inl at ↦ rw (==→eq b (block tail) at) (home tail (omega arith) (omega arith))
  | inr other ↦
      is_logged-home start block (tail + 1) k b (λ i le lt. home i (omega arith) (omega arith))
        (rw other at e)
]

-- Over a disk whose log holds `n` blocks, any part of the writes that install them.
module _ (start n : ℕ) (block : ℕ → ℕ) (f : Disk) {d : Disk} (fits : n ≤ log_blocks)
    (home : AreHome start block 0 n) (held : Holds d start n block f) where
  homes_part : List (ℕ × Block)
  homes_part = home_writes block f 0 n

  -- the log's blocks stay the same
  log_kept : (j x : ℕ) → in_log start x ≡ true → replay (take j homes_part) d x ≡ d x
  unfolding homes_part
  log_kept j x lies = elim (replay-home_writes_part block f j 0 n x d) [
    | inl same ↦ same
    | inr (logged, new) ↦
        absurd (false≢true (sym (is_logged-home start block 0 n x home logged) ∙ lies))
  ]

  unlogged_kept : (j b : ℕ) → is_logged block 0 n b ≡ false → replay (take j homes_part) d b ≡ d b
  unfolding homes_part
  unlogged_kept j b other = elim (replay-home_writes_part block f j 0 n b d) [
    | inl same ↦ same
    | inr (logged, new) ↦ absurd (false≢true (sym other ∙ logged))
  ]

  length-homes_part : length homes_part ≡ n
  unfolding homes_part
  length-homes_part = length-home_writes block f 0 n

  redone_part :
      (j dev b : ℕ)
      → in_log start b ≡ false
      → recovered (replay (take j homes_part) d) dev start b
        ≡ (if is_logged block 0 n b then f b else d b)
  redone_part j dev b out =
      let d' : Disk = replay (take j homes_part) d in
      let head : d' start ≡ d start = log_kept j start (ground arith) in
      let held' : Holds d' start n block f = record {
        count = ap (λ v. v 0) head ∙ held.count;
        homes = λ i lt. ap (λ v. v (i + 1)) head ∙ held.homes i lt;
        copies = λ i lt. log_kept j (start + i + 1) (ground arith) ∙ held.copies i lt;
      } in
      recovered_lem dev b fits home held' out ∙ elim (Bool-cases (is_logged block 0 n b)) [
        | inl logged ↦ rw logged
        | inr other ↦ rw other (unlogged_kept j b other)
      ]

  module _ (cleared : Block) (zero_count : cleared 0 ≡ 0) where
    -- after the last write nothing is left to recover
    redone_all :
        (dev b : ℕ)
        → in_log start b ≡ false
        → recovered (replay (homes_part ++ ((start, cleared) ∷ [])) d) dev start b
          ≡ (if is_logged block 0 n b then f b else d b)
    unfolding homes_part
    redone_all dev b out =
        let d' : Disk = update (replay homes_part d) start cleared in
        rw (replay-append homes_part ((start, cleared) ∷ []) d) (
          recovered_empty d' dev start b
            (ap (λ v. v 0) (update_self (replay homes_part d) start cleared) ∙ zero_count) out
          ∙ update_ne (replay homes_part d) start cleared b (ground arith)
          ∙ replay-home_writes block f 0 n b d)

    -- With the header on the disk, recovery completes what was begun.
    pub redone :
        (j dev b : ℕ)
        → in_log start b ≡ false
        → recovered
            (replay (take j (home_writes block f 0 n ++ ((start, cleared) ∷ []))) d)
            dev
            start
            b
          ≡ (if is_logged block 0 n b then f b else d b)
    unfolding homes_part
    redone j dev b out = elim (dec_le j n) [
      | yes part ↦
          rw
            (take-append-le j homes_part ((start, cleared) ∷ []) (omega (arith, length-homes_part)))
            (redone_part j dev b out)
      | no all ↦
          let split : j ≡ length homes_part + suc (j - n - 1) = omega (arith, length-homes_part) in
          ap
            (λ k. recovered (replay (take k (homes_part ++ ((start, cleared) ∷ []))) d) dev start b)
            split
          ∙ ap (λ ws. recovered (replay ws d) dev start b)
              (take-append-add (suc (j - n - 1)) homes_part ((start, cleared) ∷ [])
                ∙ ap (λ t. homes_part ++ ((start, cleared) ∷ t)) (take-nil _ (j - n - 1)))
          ∙ redone_all dev b out
    ]
