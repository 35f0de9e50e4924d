-- ===== src/Process/Schedule.antt =====
-- scheduler, yield, sleep, kkill, setkilled and killed of kernel/proc.c. A switch to the scheduler
-- takes the process off its CPU.
use mit6_1810_why_tea_fo.Base.{ℕ, zero, suc, ◌+◌, true, Option, none, some, ◌==◌, if◌then◌else◌}
use mit6_1810_why_tea_fo.Base.Int.{ℤ, pos, minus_one}
use mit6_1810_why_tea_fo.Store.{update}
use mit6_1810_why_tea_fo.Process.{
  Proc, Procs, Kernel, sleeping, runnable, running, is_runnable, is_sleeping, with_proc, nproc,
}

-- The scheduler of the CPU `c` at the process `p`: it switches to it if it is runnable.
unfoldable pub schedule : Kernel → (c p : ℕ) → Kernel
schedule k c p =
    if is_runnable (k.proc p).state
    then record (with_proc k p (record (k.proc p) { state = running })) {
      cpus = update k.cpus c (some p);
    }
    else k

unfoldable pub yield : Kernel → (c p : ℕ) → Kernel
yield k c p = record (with_proc k p (record (k.proc p) { state = runnable })) {
  cpus = update k.cpus c none;
}

-- sleep(chan, lk), up to the switch
unfoldable pub sleep : Kernel → (c p chan : ℕ) → Kernel
sleep k c p chan = record (with_proc k p (record (k.proc p) { chan = chan; state = sleeping })) {
  cpus = update k.cpus c none;
}

-- sleep behind the switch: `p->chan = 0`
unfoldable pub awake : Kernel → (p : ℕ) → Kernel
awake k p = with_proc k p (record (k.proc p) { chan = 0 })

-- the loop of kkill
unfoldable pub with_pid : Procs → (pid p n : ℕ) → Option ℕ
with_pid t pid p zero = none
with_pid t pid p (suc n) =
    let rest = with_pid t pid (p + 1) n in if (t p).pid == pid then some p else rest

abbrev pub killing : Proc → Proc
killing r = record r { killed = true; state = if is_sleeping r.state then runnable else r.state }

abbrev pub kills : Kernel → Option ℕ → ℤ × Kernel
kills k none = (minus_one, k)
kills k (some p) = (pos 0, with_proc k p (killing (k.proc p)))

unfoldable pub kkill : Kernel → (pid : ℕ) → ℤ × Kernel
unfolding with_pid
kkill k pid = kills k (with_pid k.proc pid 0 nproc)

unfoldable pub setkilled : Kernel → (p : ℕ) → Kernel
setkilled k p = with_proc k p (record (k.proc p) { killed = true })
