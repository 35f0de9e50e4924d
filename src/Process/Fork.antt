-- ===== src/Process/Fork.antt =====
-- kfork of kernel/proc.c. The running process allocates the child and copies itself into it, then
-- makes itself the parent under wait_lock, then makes the child runnable.
use mit6_1810_why_tea_fo.Base.{
  ℕ, zero, suc, ◌+◌, Bool, Option, none, some, List, if◌then◌else◌, take, get_or,
}
use mit6_1810_why_tea_fo.Base.Int.{ℤ, minus_one}
use mit6_1810_why_tea_fo.Store.{update}
use mit6_1810_why_tea_fo.Files.{Ofile, Result, ok, panic, nofile, filedup}
use mit6_1810_why_tea_fo.Files
use mit6_1810_why_tea_fo.Base.{set}
use mit6_1810_why_tea_fo.Process.{
  Kernel, Trapframe, int_of, runnable, freeproc, with_proc, allocproc,
}

-- A descriptor of the parent, copied: nothing happens for a null pointer.
abbrev pub dup_one : Ofile → Files.Table → (fd : ℕ) → Option ℕ → Result (Ofile × Files.Table)
dup_one o t fd none = ok (o, t)
dup_one o t fd (some f) = elim (filedup t f) [ ok t' ↦ ok (set o fd (some f), t') | panic ↦ panic ]

-- the loop over the descriptors at `fd`, with `n` to go, from the parent's `mine` into `o`
unfoldable pub dup_all : (mine o : Ofile) → Files.Table → (fd n : ℕ) → Result (Ofile × Files.Table)
unfolding filedup
dup_all mine o t fd zero = ok (o, t)
dup_all mine o t fd (suc n) = elim (dup_one o t fd (get_or mine fd none)) [
  | ok (o', t') ↦ dup_all mine o' t' (fd + 1) n
  | panic ↦ panic
]

-- idup
abbrev pub idup : (ℕ → ℕ) → Option ℕ → ℕ → ℕ
idup irefs none = irefs
idup irefs (some ip) = update irefs ip (irefs ip + 1)

-- `safestrcpy(np->name, p->name, sizeof(p->name))`
abbrev pub copy_name : List ℕ → List ℕ
copy_name name = take 15 name

abbrev pub zero_a0 : Option Trapframe → Option Trapframe
zero_a0 none = none
zero_a0 (some f) = some (record f { a0 = 0 })

-- What fork_alloc leaves: the child, or none where kfork returns -1.
abbrev pub copied_into :
    Kernel → (p np : ℕ) → Result (Ofile × Files.Table) → Result (Option ℕ × Kernel)
copied_into k p np panic = panic
copied_into k p np (ok (o, t)) =
    let parent = k.proc p in
    ok (
      some np,
      record (with_proc k np (record (k.proc np) {
        sz = parent.sz;
        trapframe = zero_a0 parent.trapframe;
        ofile = o;
        cwd = parent.cwd;
        name = copy_name parent.name;
      })) { ftable = t; irefs = idup k.irefs parent.cwd },
    )

abbrev pub fork_copy : (uvmcopy : Bool) → (p : ℕ) → Option ℕ × Kernel → Result (Option ℕ × Kernel)
fork_copy uvmcopy p (none, k) = ok (none, k)
fork_copy uvmcopy p (some np, k) =
    if uvmcopy
    then copied_into k p np (dup_all (k.proc p).ofile (k.proc np).ofile k.ftable 0 nofile)
    else ok (none, with_proc k np (freeproc (k.proc np)))

-- kfork by the process `p`, up to its release of the child's lock
unfoldable pub fork_alloc :
    Kernel
    → (p : ℕ) (frame : Option Trapframe) (pagetable : Option ℕ) (uvmcopy : Bool)
    → Result (Option ℕ × Kernel)
unfolding dup_all allocproc freeproc
fork_alloc k p frame pagetable uvmcopy = fork_copy uvmcopy p (allocproc k frame pagetable)

-- `np->parent = p`
unfoldable pub fork_link : Kernel → (p np : ℕ) → Kernel
fork_link k p np = with_proc k np (record (k.proc np) { parent = some p })

-- `np->state = RUNNABLE`
unfoldable pub fork_run : Kernel → (np : ℕ) → Kernel
fork_run k np = with_proc k np (record (k.proc np) { state = runnable })

abbrev pub forked : (p : ℕ) → Result (Option ℕ × Kernel) → Result (ℤ × Kernel)
forked p panic = panic
forked p (ok (none, k)) = ok (minus_one, k)
forked p (ok (some np, k)) = ok (int_of (k.proc np).pid, fork_run (fork_link k p np) np)

-- kfork with nothing in between, and its value
unfoldable pub kfork :
    Kernel
    → (p : ℕ) (frame : Option Trapframe) (pagetable : Option ℕ) (uvmcopy : Bool)
    → Result (ℤ × Kernel)
unfolding fork_alloc fork_link fork_run
kfork k p frame pagetable uvmcopy = forked p (fork_alloc k p frame pagetable uvmcopy)
