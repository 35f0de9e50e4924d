-- ===== src/Log/Tests.antt =====
-- A small disk and a log of two blocks, and the log theorems at them.
use mit6_1810_why_tea_fo.Base.{
  ℕ, ◌+◌, ◌≡◌, ◌≤◌, ◌<◌, ◌↔◌, refl, Bool, true, [], ◌∷◌, arith, ◌==◌, if◌then◌else◌, take, length,
  elem,
}
use mit6_1810_why_tea_fo.Base.Int.{pos}
use mit6_1810_why_tea_fo.Store.{Disk, update, reboot, replay, fill, bpin}
use mit6_1810_why_tea_fo.Log.{
  Log, ok, initial, initlog, begin_op, end_op, log_write, commit, log_blocks,
}
use mit6_1810_why_tea_fo.Log.Writes.{is_logged, AreHome}
use mit6_1810_why_tea_fo.Log.Calls.{Reach, start, next, begin, write, HasRoom, modify_and_log}
use mit6_1810_why_tea_fo.Log.Reserve.{Reach-HasRoom, log_write_never_panics, end_op_never_panics}
use mit6_1810_why_tea_fo.Log.Recovery.{recovered, Holds}
use mit6_1810_why_tea_fo.Log.Commit.{IsReady, crashed, commit_writes}
use mit6_1810_why_tea_fo.Log.Crash.{crash_lem}
use mit6_1810_why_tea_fo.Log.Interrupted.{recovery_writes, recovery_crash}
use mit6_1810_why_tea_fo.Log.Absorb.{IsOnce, Absorbed, log_write-Absorbed}

-- Every word of block `b` is `b`, but for an empty log at block 2.
abbrev disk : Disk
disk b = if b == 2 then (λ _. 0) else (λ _. b)

-- In the cache, blocks 40 and 50 are changed.
abbrev cache : Disk
cache b = if b == 40 then (λ _. 7) else if b == 50 then (λ _. 8) else disk b

abbrev two : ℕ → ℕ
two i = if i == 0 then 40 else 50

abbrev ready : Log
ready = record {
  start = 2;
  outstanding = pos 0;
  committing = true;
  dev = 1;
  n = 2;
  block = two;
  store = record { disk = disk; cache = cache; pins = λ _. 1; trace = [] };
}

two-AreHome : AreHome 2 two 0 2
two-AreHome i le lt = ground arith

ready-IsReady : IsReady ready
ready-IsReady = record {
  some_blocks = omega arith;
  fits = omega arith;
  home = two-AreHome;
  empty = refl;
}

-- with the header just written
crash_lem_example : recovered (crashed ready 3) 1 2 50 ≡ (λ _. 8)
unfolding is_logged
crash_lem_example = crash_lem ready 3 1 50 ready-IsReady refl

commit_length : length (commit_writes ready) ≡ 6
unfolding commit
commit_length = refl

crash_before : recovered (crashed ready 2) 1 2 50 3 ≡ 50
unfolding commit initlog update
crash_before = refl

crash_after : recovered (crashed ready 4) 1 2 50 3 ≡ 8
unfolding commit initlog update
crash_after = refl

-- The log on this disk holds the two blocks.
abbrev full_disk : Disk
full_disk b =
    if b == 2
    then (λ w. if w == 0 then 2 else if w == 1 then 40 else 50)
    else if b == 3
    then (λ _. 7)
    else if b == 4
    then (λ _. 8)
    else (λ _. b)

full_disk-Holds : Holds full_disk 2 2 two cache
full_disk-Holds = record { count = refl; homes = λ i lt. ground arith; copies = λ i lt. copy i lt }
  where
    copy : (i : ℕ) → i < 2 → full_disk (2 + i + 1) ≡ cache (two i)
    copy ℕ.zero lt = refl
    copy (ℕ.suc ℕ.zero) lt = refl
    copy (ℕ.suc (ℕ.suc i)) lt = absurd (omega arith)

recovery_crash_example :
    recovered (replay (take 1 (recovery_writes full_disk 1 2)) full_disk) 1 2 50
    ≡ recovered full_disk 1 2 50
recovery_crash_example =
    recovery_crash {f = cache} 1 1 50 (omega arith) two-AreHome full_disk-Holds refl

-- One running call that has not written yet.
abbrev started : Log
started = record (initlog (initial (reboot disk)) 1 2) { outstanding = pos 1 }

one_call : Reach disk 1 2 (record { log = started; ops = [] ∷ [] })
unfolding begin_op initlog
one_call = next start (begin _ started refl)

-- It logs block 40, and then again.
abbrev once_logged : Log
once_logged = record started {
  n = 1;
  block = update started.block 0 40;
  store = bpin (fill started.store 40 (λ _. 7)) 40;
}

logged_call : Reach disk 1 2 (record { log = once_logged; ops = (40 ∷ []) ∷ [] })
unfolding log_write initlog
logged_call = next one_call (write _ [] [] [] 40 (λ _. 7) once_logged refl (omega arith) refl)

Reach-HasRoom_example : HasRoom (record { log = once_logged; ops = (40 ∷ []) ∷ [] })
Reach-HasRoom_example = Reach-HasRoom logged_call

log_write_never_panics_example :
    (l : Log) × (modify_and_log once_logged 40 (λ _. 8) ≡ ok l)
    × (l.n ≤ log_blocks)
    × (elem 40 (40 ∷ []) ≡ true → l.n ≡ once_logged.n)
log_write_never_panics_example =
    log_write_never_panics [] [] (40 ∷ []) 40 (λ _. 8) logged_call refl (omega arith)

end_op_never_panics_example :
    (c : Bool) × (l : Log) × (end_op once_logged ≡ ok (c, l))
    × (l.committing ≡ c)
    × ((c ≡ true) ↔ (◌≡◌ {A = ℕ} 0 0))
end_op_never_panics_example = end_op_never_panics [] [] (40 ∷ []) logged_call refl

-- Block 50 is in the log already.
abbrev running : Log
running = record ready { outstanding = pos 1 }

running-IsOnce : IsOnce running
running-IsOnce i j hi hj same = ground arith

log_write-Absorbed_example : Absorbed running 50 (record running { block = update two 1 50 })
unfolding log_write
log_write-Absorbed_example = log_write-Absorbed running 50 running-IsOnce refl
