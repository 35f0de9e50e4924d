-- ===== src/Process/Exit.antt =====
-- kexit, reparent and kwait of kernel/proc.c.
use mit6_1810_why_tea_fo.Base.{
  ℕ, zero, suc, ◌+◌, ◌-◌, Bool, Option, none, some, List, [], ◌∷◌, ◌==◌, if◌then◌else◌, get_or, set,
}
use mit6_1810_why_tea_fo.Base.Int.{ℤ, minus_one}
use mit6_1810_why_tea_fo.Store.{update}
use mit6_1810_why_tea_fo.Files.{Ofile, Closing, Result, ok, panic, nofile, fileclose}
use mit6_1810_why_tea_fo.Files
use mit6_1810_why_tea_fo.Process.{
  Procs, Kernel, int_of, zombie, sleeping, is_zombie, is_proc, freeproc, with_proc, nproc, initproc,
  address, address_of, wakeup,
}

-- `if(p->ofile[fd]) { fileclose(f); p->ofile[fd] = 0; }`
abbrev pub close_one :
    Ofile → Files.Table → (fd : ℕ) → Option ℕ → Result (Closing × Ofile × Files.Table)
close_one o t fd none = ok (Files.nothing, o, t)
close_one o t fd (some f) = elim (fileclose t f) [
  | ok (c, t') ↦ ok (c, set o fd none, t')
  | panic ↦ panic
]

-- the loop of kexit over the descriptors at `fd`, with `n` to go
unfoldable pub close_all :
    Ofile → Files.Table → (fd n : ℕ) → Result (List Closing × Ofile × Files.Table)
unfolding fileclose
close_all o t fd zero = ok ([], o, t)
close_all o t fd (suc n) = elim (close_one o t fd (get_or o fd none)) [
  | ok (c, o', t') ↦ elim (close_all o' t' (fd + 1) n) [
    | ok (cs, o'', t'') ↦ ok (c ∷ cs, o'', t'')
    | panic ↦ panic
  ]
  | panic ↦ panic
]

-- iput, as far as the reference goes
abbrev pub iput : (ℕ → ℕ) → Option ℕ → ℕ → ℕ
iput irefs none = irefs
iput irefs (some ip) = update irefs ip (irefs ip - 1)

abbrev pub closed :
    Kernel → (p : ℕ) → Result (List Closing × Ofile × Files.Table) → Result (List Closing × Kernel)
closed k p panic = panic
closed k p (ok (cs, o, t)) = ok (
  cs,
  record (with_proc k p (record (k.proc p) { ofile = o; cwd = none })) {
    ftable = t;
    irefs = iput k.irefs (k.proc p).cwd;
  },
)

-- kexit by the process `p` up to wait_lock, with what the closed files leave to do
unfoldable pub exit_close : Kernel → (p : ℕ) → Result (List Closing × Kernel)
unfolding close_all
exit_close k p =
    if p == initproc then panic else closed k p (close_all (k.proc p).ofile k.ftable 0 nofile)

-- the body of reparent's loop
abbrev pub adopt : Procs → (me p : ℕ) → Procs
adopt t me p =
    if is_proc (t p).parent me
    then wakeup (update t p (record (t p) { parent = some initproc })) me (address initproc)
    else t

-- the loop of reparent at `p`, with `n` processes to go
unfoldable pub reparent_loop : (me : ℕ) → Procs → (p n : ℕ) → Procs
unfolding wakeup
reparent_loop me t p zero = t
reparent_loop me t p (suc n) = reparent_loop me (adopt t me p) (p + 1) n

unfoldable pub reparent : Procs → (me : ℕ) → Procs
unfolding reparent_loop
reparent t me = reparent_loop me t 0 nproc

-- kexit under wait_lock, up to the switch to the scheduler of the CPU `c`
unfoldable pub exit_finish : Kernel → (c p : ℕ) (status : ℤ) → Kernel
unfolding reparent wakeup
exit_finish k c p status =
    let t = reparent k.proc p in
    let t' = wakeup t p (address_of (t p).parent) in
    record k {
      proc = update t' p (record (t' p) { xstate = status; state = zombie });
      cpus = update k.cpus c none;
    }

-- What kwait's loop finds: a child that has exited, or whether there are children.
pub data Children : Type 0 where
  exited : ℕ → Children
  alive : Children
  childless : Children

abbrev pub one_more : Children → Children
one_more childless = alive
one_more alive = alive
one_more (exited p) = exited p

unfoldable pub scan_children : Procs → (me p n : ℕ) → Children
scan_children t me p zero = childless
scan_children t me p (suc n) =
    let rest = scan_children t me (p + 1) n in
    if is_proc (t p).parent me
    then (if is_zombie (t p).state then exited p else one_more rest)
    else rest

pub data Waited : Type 0 where
  returns : ℤ → Kernel → Waited
  sleeps : Kernel → Waited

abbrev pub kernel_of : Waited → Kernel
kernel_of (returns v k) = k
kernel_of (sleeps k) = k

-- kwait behind the loop over the table; `copied` is false if there is an address to store the exit
-- status at and copyout fails.
abbrev pub waits : Kernel → (c p : ℕ) (copied : Bool) → Children → Waited
waits k c p copied (exited pp) =
    if copied
    then returns (int_of (k.proc pp).pid) (with_proc k pp (freeproc (k.proc pp)))
    else returns minus_one k
waits k c p copied childless = returns minus_one k
waits k c p copied alive =
    if (k.proc p).killed
    then returns minus_one k
    else sleeps (record (with_proc k p (record (k.proc p) { chan = address p; state = sleeping })) {
      cpus = update k.cpus c none;
    })

-- A round of kwait's loop by the process `p` on the CPU `c`, to its return or its sleep.
unfoldable pub kwait : Kernel → (c p : ℕ) (copied : Bool) → Waited
unfolding scan_children freeproc
kwait k c p copied = waits k c p copied (scan_children k.proc p 0 nproc)
