-- ===== src/Process.antt =====
-- kernel/proc.c: the table of processes and what changes it.
--
-- A process is its index in proc[], and the table a function of which nproc entries exist. The
-- address of proc[i], as a sleep channel, is i + 1; 0 is the null pointer. A CPU's `c->proc` is
-- `cpus`. Between two releases of the locks a call is one function: kfork is fork_alloc, fork_link
-- and fork_run, and kexit is exit_close and exit_finish. What kalloc, proc_pagetable, uvmcopy and
-- copyout answer is an argument; freed memory is no part of the state. A pid and nextpid are
-- ints, kept as their patterns of 32 bits; nextpid wraps, where C leaves the overflow undefined.
pub mod Wakeup
pub mod Fork
pub mod Exit
pub mod Schedule
pub mod Step
pub mod Reparent
pub mod Pids
pub mod Family
pub mod Burial
pub mod Running
pub mod Effects
pub mod Sound
pub mod Turns
pub mod Lifecycle
pub mod Safety
pub mod Kill
pub mod Descriptors
pub mod Inherit
mod Tests
use mit6_1810_why_tea_fo.Base.{
  ℕ, zero, suc, ◌+◌, ◌-◌, Bool, true, false, not, ◌&&◌, Option, none, some, List, [], ◌∷◌, ◌==◌,
  if◌then◌else◌, ltb, take, ◌^◌,
}
use mit6_1810_why_tea_fo.Base.Int.{ℤ, pos, negsuc}
use mit6_1810_why_tea_fo.Base.Word.{u32_mod, add32}
use mit6_1810_why_tea_fo.Store.{update}
use mit6_1810_why_tea_fo.Files.{Ofile, Closing, filedup, fileclose}
use mit6_1810_why_tea_fo.Files

pub data ProcState : Type 0 where
  unused : ProcState
  used : ProcState
  sleeping : ProcState
  runnable : ProcState
  running : ProcState
  zombie : ProcState

-- The saved user registers, a0 apart from the others.
pub record Trapframe : Type 0 where
  pub a0 : ℕ
  pub others : ℕ → ℕ

-- `struct proc`, less its lock, its kernel stack and its kernel context; `ofile` is as in Files,
-- `pagetable` an address and `cwd` an inode.
pub record Proc : Type 0 where
  pub state : ProcState
  pub chan : ℕ
  pub killed : Bool
  pub xstate : ℤ
  pub pid : ℕ
  pub parent : Option ℕ
  pub sz : ℕ
  pub pagetable : Option ℕ
  pub trapframe : Option Trapframe
  pub ofile : Ofile
  pub cwd : Option ℕ
  pub name : List ℕ

abbrev pub Procs : Type 0
Procs = ℕ → Proc

pub record Kernel : Type 0 where
  pub proc : Procs
  pub nextpid : ℕ
  -- the process that a CPU runs
  pub cpus : ℕ → Option ℕ
  pub ftable : Files.Table
  -- the references to each inode
  pub irefs : ℕ → ℕ

-- The int of a pattern of 32 bits, and the largest one.
abbrev pub int_of : ℕ → ℤ
int_of w = if ltb w (2 ^ 31) then pos w else negsuc (u32_mod - 1 - w)

abbrev pub int_max : ℕ
int_max = 2 ^ 31 - 1

abbrev pub nproc : ℕ
nproc = 64

-- `initproc`, which userinit makes of proc[0]
abbrev pub initproc : ℕ
initproc = 0

abbrev pub address : ℕ → ℕ
address p = p + 1

abbrev pub address_of : Option ℕ → ℕ
address_of none = 0
address_of (some p) = address p

abbrev pub is_unused : ProcState → Bool
is_unused unused = true
is_unused s = false

abbrev pub is_sleeping : ProcState → Bool
is_sleeping sleeping = true
is_sleeping s = false

abbrev pub is_runnable : ProcState → Bool
is_runnable runnable = true
is_runnable s = false

abbrev pub is_zombie : ProcState → Bool
is_zombie zombie = true
is_zombie s = false

abbrev pub is_proc : Option ℕ → ℕ → Bool
is_proc none p = false
is_proc (some q) p = q == p

abbrev pub with_proc : Kernel → ℕ → Proc → Kernel
with_proc k p r = record k { proc = update k.proc p r }

-- the body of wakeup's loop, for the process `p`
abbrev pub woken : (me chan : ℕ) → ℕ → Proc → Proc
woken me chan p r =
    if not (p == me) && (is_sleeping r.state && (r.chan == chan))
    then record r { state = runnable }
    else r

-- A loop over the table, at `p` and with `n` processes to go, whose body changes `*p` alone.
pub for_procs : (body : ℕ → Proc → Proc) → Procs → (p n : ℕ) → Procs
for_procs body t p zero = t
for_procs body t p (suc n) = for_procs body (update t p (body p (t p))) (p + 1) n

-- wakeup(chan) by the process `me`
pub wakeup : Procs → (me chan : ℕ) → Procs
unfolding for_procs
wakeup t me chan = for_procs (woken me chan) t 0 nproc

-- the loop of allocproc
pub unused_proc : Procs → (p n : ℕ) → Option ℕ
unused_proc t p zero = none
unused_proc t p (suc n) =
    let rest = unused_proc t (p + 1) n in if is_unused (t p).state then some p else rest

pub freeproc : Proc → Proc
freeproc r = record r {
  trapframe = none;
  pagetable = none;
  sz = 0;
  pid = 0;
  parent = none;
  name = [];
  chan = 0;
  killed = false;
  xstate = pos 0;
  state = unused;
}

-- The number that allocpid returns.
abbrev pub allocpid : Kernel → ℕ × Kernel
allocpid k = (k.nextpid, record k { nextpid = add32 k.nextpid 1 })

-- allocproc behind its loop; `frame` is the page from kalloc, with what it holds, and `pagetable`
-- what proc_pagetable returns.
abbrev pub filled : Kernel → Option Trapframe → Option ℕ → Option ℕ → Option ℕ × Kernel
filled k frame pagetable none = (none, k)
filled k frame pagetable (some p) =
    let r = record (k.proc p) { pid = (allocpid k).0; state = used } in
    let k' = (allocpid k).1 in
    elim frame [
      | none ↦ (none, with_proc k' p (freeproc (record r { trapframe = none })))
      | some f ↦ elim pagetable [
        | none ↦
            (none, with_proc k' p (freeproc (record r { trapframe = some f; pagetable = none })))
        | some a ↦ (some p, with_proc k' p (record r { trapframe = some f; pagetable = some a }))
      ]
    ]

pub allocproc : Kernel → (frame : Option Trapframe) (pagetable : Option ℕ) → Option ℕ × Kernel
unfolding unused_proc freeproc
allocproc k frame pagetable = filled k frame pagetable (unused_proc k.proc 0 nproc)
