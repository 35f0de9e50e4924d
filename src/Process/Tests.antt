-- ===== src/Process/Tests.antt =====
-- init forks a child, which exits; and the theorems on processes at this run.
use mit6_1810_why_tea_fo.Base.{
  ℕ, zero, suc, ◌<◌, ◌≤◌, ◌≡◌, ◌≢◌, refl, true, false, Option, some, none, [], ◌∷◌, arith,
  replicate, ◌==◌, if◌then◌else◌, get_or,
}
use mit6_1810_why_tea_fo.Base.Int.{pos}
use mit6_1810_why_tea_fo.Store.{update}
use mit6_1810_why_tea_fo.Files.{Table, fd_device, fd_none, Result, ok, panic, nofile}
use mit6_1810_why_tea_fo.Process.{
  Proc, Kernel, Trapframe, unused, sleeping, runnable, running, zombie, address, unused_proc, nproc,
  allocproc, wakeup,
}
use mit6_1810_why_tea_fo.Process.Fork.{fork_alloc, fork_link, fork_run, kfork}
use mit6_1810_why_tea_fo.Process.Exit.{exit_finish}
use mit6_1810_why_tea_fo.Process.Schedule.{schedule, sleep, kkill}
use mit6_1810_why_tea_fo.Process.Step.{System, Step, Started, Reach}
use mit6_1810_why_tea_fo.Process.Pids.{HasPids}
use mit6_1810_why_tea_fo.Process.Family.{is_live}
use mit6_1810_why_tea_fo.Process.Safety.{zombie_lem, identity_lem}
use mit6_1810_why_tea_fo.Process.Kill.{kkill-zero}
use mit6_1810_why_tea_fo.Process.Descriptors.{counted}
use mit6_1810_why_tea_fo.Process.Inherit.{IsChild, kfork_lem}

abbrev frame : Trapframe
frame = record { a0 = 7; others = λ r. 0 }

abbrev blank : Proc
blank = record {
  state = unused;
  chan = 0;
  killed = false;
  xstate = pos 0;
  pid = 0;
  parent = none;
  sz = 0;
  pagetable = none;
  trapframe = none;
  ofile = replicate 16 none;
  cwd = none;
  name = [];
}

abbrev first : Proc
first = record blank {
  state = runnable;
  pid = 1;
  sz = 4096;
  trapframe = some frame;
  pagetable = some 8192;
  ofile = some 0 ∷ some 0 ∷ replicate 14 none;
  cwd = some 1;
}

-- File 0 is the console, and init has it twice.
abbrev files : Table
files = λ f. record {
  type' = if f == 0 then fd_device else fd_none;
  ref = if f == 0 then 2 else 0;
  readable = true;
  writable = true;
  pipe = 0;
  ip = 2;
  off = 0;
  major = 1;
}

abbrev booted : Kernel
booted = record {
  proc = λ p. if p == 0 then first else blank;
  nextpid = 2;
  cpus = λ c. none;
  ftable = files;
  irefs = λ ip. if ip == 1 then 1 else 0;
}

abbrev boot : System
boot = record { kernel = booted; np = λ p. none }

boot-Started : Started boot
boot-Started = record {
  first = refl;
  first_pid = refl;
  no_parent = λ x. ground arith;
  others = λ x ne. ground arith;
  next = refl;
  no_cpu = λ c. refl;
  no_fork = λ p. refl;
}

abbrev kernel_of_fork : Result (Option ℕ × Kernel) → Kernel
kernel_of_fork (ok (np, k)) = k
kernel_of_fork panic = booted

abbrev turned : System
turned = record boot { kernel = schedule booted 0 0 }

abbrev allocated : System
allocated = record {
  kernel = kernel_of_fork (fork_alloc turned.kernel 0 (some frame) (some 12288) true);
  np = update turned.np 0 (some 1);
}

abbrev linked : System
linked = record allocated { kernel = fork_link allocated.kernel 0 1 }

abbrev child : System
child = record { kernel = fork_run linked.kernel 1; np = update linked.np 0 none }

abbrev both : System
both = record child { kernel = schedule child.kernel 1 1 }

abbrev over : System
over = record both { kernel = exit_finish both.kernel 1 1 (pos 0) }

turned-Reach : Reach turned
turned-Reach = Reach.next (Reach.start boot-Started) (Step.schedules 0 0 (omega arith) refl)

allocated-Reach : Reach allocated
unfolding fork_alloc schedule update
allocated-Reach = Reach.next turned-Reach (
    Step.forks 0 0 (some frame) (some 12288) true (some 1) allocated.kernel
      (record { current = refl; idle = refl }) (omega arith) refl)

linked-Reach : Reach linked
unfolding fork_alloc schedule update
linked-Reach = Reach.next allocated-Reach (Step.links 0 0 1 refl refl)

child-Reach : Reach child
unfolding fork_alloc schedule update fork_link
child-Reach = Reach.next linked-Reach (Step.starts 0 0 1 refl refl refl)

both-Reach : Reach both
unfolding fork_alloc schedule update fork_link fork_run
both-Reach = Reach.next child-Reach (Step.schedules 1 1 (omega arith) refl)

over-Reach : Reach over
unfolding fork_alloc schedule update fork_link fork_run
over-Reach =
    Reach.next both-Reach
      (Step.exits 1 1 (pos 0) (record { current = refl; idle = refl }) (omega arith))

-- The child sleeps on the channel 100, and init, or a driver, wakes it.
abbrev asleep : System
asleep = record both { kernel = sleep both.kernel 1 1 100 }

abbrev called : System
called = record asleep { kernel = record asleep.kernel { proc = wakeup asleep.kernel.proc 0 100 } }

called-Reach : Reach called
unfolding fork_alloc schedule update fork_link fork_run
called-Reach =
    Reach.next
      (Reach.next both-Reach
        (Step.sleeps_on 1 1 100 (record { current = refl; idle = refl }) (omega arith)))
      (Step.wakes 0 100)

child_is_runnable : (called.kernel.proc 1).state ≡ runnable
unfolding sleep wakeup update fork_alloc schedule fork_link fork_run
child_is_runnable = refl

child_is_zombie : (over.kernel.proc 1).state ≡ zombie
unfolding exit_finish update
child_is_zombie = refl

zombie_lem_example :
    (q : ℕ) × ((over.kernel.proc 1).parent ≡ some q)
    × (is_live (over.kernel.proc q).state ≡ true)
    × ((over.kernel.proc q).state ≡ sleeping → (over.kernel.proc q).chan ≢ address q)
zombie_lem_example = zombie_lem 1 over-Reach child_is_zombie

identity_lem_example :
    ((x y : ℕ)
      → (both.kernel.proc x).state ≢ unused
      → (both.kernel.proc x).pid ≡ (both.kernel.proc y).pid
      → x ≡ y)
    × ((c d p : ℕ)
        → both.kernel.cpus c ≡ some p
        → ((both.kernel.proc p).state ≡ running) × (both.kernel.cpus d ≡ some p → c ≡ d))
identity_lem_example = identity_lem both-Reach

booted-HasPids : HasPids booted
booted-HasPids = record {
  blank = λ x e. ground arith;
  given = λ x e. ground arith;
  below = λ x. ground arith;
  distinct = λ x y e l. ground arith;
}

second_is_unused : unused_proc booted.proc 0 nproc ≡ some 1
unfolding unused_proc
second_is_unused = refl

kkill-zero_example :
    ((kkill booted 0).0 ≡ pos 0)
    × ((allocproc (kkill booted 0).1 (some frame) (some 12288)).0 ≡ some 1)
    × (((allocproc (kkill booted 0).1 (some frame) (some 12288)).1.proc 1).killed ≡ true)
kkill-zero_example = kkill-zero booted 1 frame 12288 booted-HasPids second_is_unused

get_or-none : (n i : ℕ) → get_or {A = Option ℕ} (replicate n none) i none ≡ none
get_or-none zero i = refl
get_or-none (suc n) zero = refl
get_or-none (suc n) (suc i) = get_or-none n i

no_descriptors : (i : ℕ) → get_or (booted.proc 1).ofile i none ≡ none
no_descriptors i = get_or-none 16 i

init_files : (i g : ℕ) → get_or (booted.proc 0).ofile i none ≡ some g → 0 < (booted.ftable g).ref
init_files zero g e = ground arith
init_files (suc zero) g e = ground arith
init_files (suc (suc i)) g e = ground (arith, get_or-none 14 i)

first_in_use : (y : ℕ) → y < 1 → (booted.proc y).state ≢ unused
first_in_use y lt = ground arith

kfork_lem_example :
    (k' : Kernel) × (kfork booted 0 (some frame) (some 12288) true ≡ ok (pos 2, k'))
    × IsChild booted k' 0 1 12288
kfork_lem_example =
    kfork_lem booted 0 1 frame 12288 (omega arith) (omega arith) refl first_in_use (omega arith)
      (omega arith) no_descriptors init_files

-- A process other than init, with init's descriptors.
abbrev second : Kernel
second = record booted { proc = λ p. if p == 1 then first else blank }

second_refs : (f : ℕ) → counted f (second.proc 1).ofile 0 nofile ≤ (second.ftable f).ref
second_refs f = ground arith
