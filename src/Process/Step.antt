-- ===== src/Process/Step.antt =====
-- The processes as a step relation: what happens between two releases of the locks, in any order
-- and on any CPU. No process is forked once nextpid is the largest int, whose increment C leaves
-- undefined.
use mit6_1810_why_tea_fo.Base.{ℕ, ◌<◌, ◌≡◌, ◌≢◌, Bool, Option, none, some, List}
use mit6_1810_why_tea_fo.Base.Int.{ℤ}
use mit6_1810_why_tea_fo.Store.{update}
use mit6_1810_why_tea_fo.Files.{Closing, ok}
use mit6_1810_why_tea_fo.Process.{
  Kernel, Trapframe, unused, runnable, nproc, initproc, int_max, wakeup,
}
use mit6_1810_why_tea_fo.Process.Fork.{fork_alloc, fork_link, fork_run}
use mit6_1810_why_tea_fo.Process.Exit.{exit_close, exit_finish, kwait, returns, sleeps}
use mit6_1810_why_tea_fo.Process.Schedule.{schedule, yield, sleep, awake, kkill, setkilled}

-- The kernel, and the local variable `np` of a process that is in the middle of kfork.
pub record System : Type 0 where
  pub kernel : Kernel
  pub np : ℕ → Option ℕ

-- The process `p` runs on the CPU `c`, and is not in the middle of kfork.
pub record Runs (s : System) (c p : ℕ) : Type 0 where
  pub current : s.kernel.cpus c ≡ some p
  pub idle : s.np p ≡ none

pub data Step (s : System) : System → Type 0 where
  schedules :
      (c p : ℕ)
      → p < nproc
      → s.kernel.cpus c ≡ none
      → Step s (record s { kernel = schedule s.kernel c p })
  yields : (c p : ℕ) → s.kernel.cpus c ≡ some p → Step s (record s { kernel = yield s.kernel c p })
  -- on a channel that is no address of a process
  sleeps_on :
      (c p chan : ℕ)
      → Runs s c p
      → nproc < chan
      → Step s (record s { kernel = sleep s.kernel c p chan })
  -- by `me`, a process, or an interrupt handler on a CPU that runs none, if it is no index
  wakes :
      (me chan : ℕ)
      → Step s (record s { kernel = record s.kernel { proc = wakeup s.kernel.proc me chan } })
  awakes : (c p : ℕ) → s.kernel.cpus c ≡ some p → Step s (record s { kernel = awake s.kernel p })
  forks :
      (c p : ℕ) (frame : Option Trapframe) (pagetable : Option ℕ) (uvmcopy : Bool) (np : Option ℕ)
      (k : Kernel)
      → Runs s c p
      → s.kernel.nextpid < int_max
      → fork_alloc s.kernel p frame pagetable uvmcopy ≡ ok (np, k)
      → Step s (record { kernel = k; np = update s.np p np })
  links :
      (c p np : ℕ)
      → s.kernel.cpus c ≡ some p
      → s.np p ≡ some np
      → Step s (record s { kernel = fork_link s.kernel p np })
  starts :
      (c p np : ℕ)
      → s.kernel.cpus c ≡ some p
      → s.np p ≡ some np
      → (s.kernel.proc np).parent ≡ some p
      → Step s (record { kernel = fork_run s.kernel np; np = update s.np p none })
  closes :
      (c p : ℕ) (cs : List Closing) (k : Kernel)
      → Runs s c p
      → exit_close s.kernel p ≡ ok (cs, k)
      → Step s (record s { kernel = k })
  exits :
      (c p : ℕ) (status : ℤ)
      → Runs s c p
      → p ≢ initproc
      → Step s (record s { kernel = exit_finish s.kernel c p status })
  reaps :
      (c p : ℕ) (copied : Bool) (v : ℤ) (k : Kernel)
      → Runs s c p
      → kwait s.kernel c p copied ≡ returns v k
      → Step s (record s { kernel = k })
  waits :
      (c p : ℕ) (copied : Bool) (k : Kernel)
      → Runs s c p
      → kwait s.kernel c p copied ≡ sleeps k
      → Step s (record s { kernel = k })
  kills : (pid : ℕ) → Step s (record s { kernel = (kkill s.kernel pid).1 })
  dooms : (c p : ℕ) → s.kernel.cpus c ≡ some p → Step s (record s { kernel = setkilled s.kernel p })

-- As userinit leaves it: proc[0] is the first process, and no CPU runs one.
pub record Started (s : System) : Type 0 where
  pub first : (s.kernel.proc initproc).state ≡ runnable
  pub first_pid : (s.kernel.proc initproc).pid ≡ 1
  pub no_parent : (x : ℕ) → (s.kernel.proc x).parent ≡ none
  pub others :
      (x : ℕ) → x ≢ initproc → ((s.kernel.proc x).state ≡ unused) × ((s.kernel.proc x).pid ≡ 0)
  pub next : s.kernel.nextpid ≡ 2
  pub no_cpu : (c : ℕ) → s.kernel.cpus c ≡ none
  pub no_fork : (p : ℕ) → s.np p ≡ none

pub data Reach : System → Type 0 where
  start : {s : System} → Started s → Reach s
  next : {s t : System} → Reach s → Step s t → Reach t
