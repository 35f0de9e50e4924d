-- ===== src/Sleeplock.antt =====
-- kernel/sleeplock.c over the processes of Process. The spin lock inside is not a value: each
-- function is what is done while it is held. `chan` is the address of the sleep lock, and `p` the
-- process that the CPU `c` runs; the name of a lock is no part of the model.
pub mod Waiters
mod Tests
use mit6_1810_why_tea_fo.Base.{ℕ, Bool, true, false, ◌&&◌, ◌==◌, if◌then◌else◌}
use mit6_1810_why_tea_fo.Process.{Kernel, wakeup}
use mit6_1810_why_tea_fo.Process.Schedule.{sleep, awake}

pub record Sleeplock : Type 0 where
  pub locked : Bool
  pub pid : ℕ

abbrev pub initsleeplock : Sleeplock
initsleeplock = record { locked = false; pid = 0 }

-- acquiresleep up to its return, which is true, or to the switch in its call of sleep
pub acquiresleep : Sleeplock → Kernel → (c p chan : ℕ) → Bool × (Sleeplock × Kernel)
unfolding sleep
acquiresleep lk k c p chan =
    if lk.locked
    then (false, (lk, sleep k c p chan))
    else (true, (record { locked = true; pid = (k.proc p).pid }, k))

-- acquiresleep from where sleep goes on, in the same way
pub acquiresleep_again : Sleeplock → Kernel → (c p chan : ℕ) → Bool × (Sleeplock × Kernel)
unfolding acquiresleep awake
acquiresleep_again lk k c p chan = acquiresleep lk (awake k p) c p chan

pub releasesleep : Sleeplock → Kernel → (p chan : ℕ) → Sleeplock × Kernel
releasesleep lk k p chan =
    (record { locked = false; pid = 0 }, record k { proc = wakeup k.proc p chan })

pub holdingsleep : Sleeplock → Kernel → (p : ℕ) → Bool
holdingsleep lk k p = lk.locked && (lk.pid == (k.proc p).pid)
