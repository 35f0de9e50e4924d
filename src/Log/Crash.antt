-- ===== src/Log/Crash.antt =====
-- Power failures: a commit takes effect as a whole or not at all.
use mit6_1810_why_tea_fo.Base.{
  ℕ, suc, ◌+◌, ◌-◌, ◌≤◌, ◌<◌, ◌≡◌, ◌∙◌, ap, false, List, [], ◌∷◌, ◌++◌, dec_le, leb, le→leb, gt→leb,
  arith, if◌then◌else◌, take, length,
}
use mit6_1810_why_tea_fo.Store.{Block, Disk, update, replay}
use mit6_1810_why_tea_fo.Log.{Log}
use mit6_1810_why_tea_fo.Log.Writes.{
  update_self, update_ne, in_log, is_logged, log_writes, home_writes,
}
use mit6_1810_why_tea_fo.Log.Replay.{
  replay-append, take-append-le, take-append-add, length-log_writes, replay-log_writes_other,
  replay-all, replay-log_writes,
}
use mit6_1810_why_tea_fo.Log.Recovery.{recovered, Holds, recovered_empty}
use mit6_1810_why_tea_fo.Log.Commit.{crashed, IsReady, Parts, commit-Parts}
use mit6_1810_why_tea_fo.Log.Redo.{redone}

-- The cases of a crash, over the parts of the commit's writes.
module _ (l : Log) (is : IsReady l) (p : Parts l) (dev b : ℕ) (out : in_log l.start b ≡ false) where
  open l use {start, n, block, store.{disk, cache}}

  copies_part : List (ℕ × Block)
  copies_part = log_writes start block cache 0 n

  -- the disk with the header written
  decided : Disk
  decided = update (replay copies_part disk) start p.header

  before_header : (j : ℕ) → j ≤ n → crashed l j ≡ replay (take j copies_part) disk
  unfolding copies_part
  before_header j le = rw p.order (
      ap (λ ws. replay ws disk)
        (take-append-le j copies_part _ (omega (arith, length-log_writes start block cache 0 n))))

  after_header :
      (j : ℕ)
      → crashed l (n + suc j)
        ≡ replay (take j (home_writes block cache 0 n ++ ((start, p.cleared) ∷ []))) decided
  unfolding copies_part decided
  after_header j =
      let size : length copies_part ≡ n = length-log_writes start block cache 0 n in
      let split : n + suc j ≡ length copies_part + suc j = omega arith in
      rw (p.order, split)
        (ap (λ ws. replay ws disk) (take-append-add (suc j) copies_part _)
          ∙ replay-append copies_part _ disk)

  -- no write of a commit before the header shows after recovery
  old : (j : ℕ) → j ≤ n → recovered (crashed l j) dev start b ≡ disk b
  unfolding copies_part
  old j le =
      let d' : Disk = replay (take j copies_part) disk in
      rw (before_header j le) (
        recovered_empty d' dev start b
          (ap (λ v. v 0) (replay-log_writes_other start block cache j 0 n start disk (ground arith))
            ∙ is.empty)
          out
        ∙ replay-log_writes_other start block cache j 0 n b disk (ground arith))

  decided_home : decided b ≡ disk b
  unfolding decided copies_part
  decided_home =
      update_ne (replay copies_part disk) start p.header b (ground arith)
      ∙ replay-all start block cache 0 n b disk (ground arith)

  decided_copy : (i : ℕ) → i < n → decided (start + i + 1) ≡ cache (block i)
  unfolding decided copies_part
  decided_copy i lt =
      update_ne (replay copies_part disk) start p.header (start + i + 1) (omega arith)
      ∙ replay-log_writes start block cache 0 n i disk (omega arith) (omega arith)

  decided_header : decided start ≡ p.header
  unfolding decided
  decided_header = update_self (replay copies_part disk) start p.header

  decided-Holds : Holds decided start n block cache
  decided-Holds = record {
    count = ap (λ v. v 0) decided_header ∙ p.count;
    homes = λ i lt. ap (λ v. v (i + 1)) decided_header ∙ p.homes i lt;
    copies = decided_copy;
  }

  new :
      (j : ℕ)
      → recovered (crashed l (n + suc j)) dev start b
        ≡ (if is_logged block 0 n b then cache b else disk b)
  new j = rw (after_header j) (
      redone start n block cache is.fits is.home decided-Holds p.cleared p.zero j dev b out
      ∙ ap (λ v. if is_logged block 0 n b then cache b else v) decided_home)

-- A power failure after any number `j` of a commit's block writes: recovery gives every block
-- outside the log its contents from before the commit if the header was not yet written, `j ≤ n`,
-- and else gives every logged block its new contents and leaves the others.
pub crash_lem :
    (l : Log) (j dev b : ℕ)
    → IsReady l
    → in_log l.start b ≡ false
    → recovered (crashed l j) dev l.start b ≡ (
        if leb j l.n
        then l.store.disk b
        else if is_logged l.block 0 l.n b
        then l.store.cache b
        else l.store.disk b)
crash_lem l j dev b is out =
    let p = commit-Parts l is in
    elim (dec_le j l.n) [
      | yes early ↦ rw (le→leb j l.n early) (old l is p dev b out j early)
      | no late ↦
          let split : j ≡ l.n + suc (j - l.n - 1) = omega arith in
          rw (gt→leb j l.n (omega arith)) (
            ap (λ k. recovered (crashed l k) dev l.start b) split
            ∙ new l is p dev b out (j - l.n - 1))
    ]
