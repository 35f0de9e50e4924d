-- ===== src/Process/Pids.antt =====
-- Process numbers: no two processes have one and the same.
use mit6_1810_why_tea_fo.Base.{
  ℕ, zero, suc, ◌+◌, ◌<◌, ◌≡◌, refl, ◌∙◌, sym, ap, Bool, true, false, Option, none, some, List,
  arith, ◌==◌, Bool-cases, inl, inr,
}
use mit6_1810_why_tea_fo.Base.Int.{ℤ}
use mit6_1810_why_tea_fo.Base.Word.{add32}
use mit6_1810_why_tea_fo.Store.{update}
use mit6_1810_why_tea_fo.Files.{Ofile, Closing, Result, ok, panic, nofile, Ensures, Ensures-ok}
use mit6_1810_why_tea_fo.Files
use mit6_1810_why_tea_fo.Process.{
  Proc, Procs, Kernel, Trapframe, used, zombie, is_unused, nproc, initproc, int_max, address_of,
  unused_proc, filled, allocproc, freeproc,
}
use mit6_1810_why_tea_fo.Process.Fork.{fork_alloc, fork_copy, copied_into, dup_all}
use mit6_1810_why_tea_fo.Process.Exit.{
  close_all, closed, exit_close, exit_finish, reparent, Children, exited, alive, childless,
  scan_children, kwait, waits, kernel_of,
}
use mit6_1810_why_tea_fo.Process.Schedule.{kills}
use mit6_1810_why_tea_fo.Process.Reparent.{Kept, Kept-trans, wakeup-Woken, reparent-Adopted}

pub record HasPids (k : Kernel) : Type 0 where
  pub blank : (x : ℕ) → is_unused (k.proc x).state ≡ true → (k.proc x).pid ≡ 0
  pub given : (x : ℕ) → is_unused (k.proc x).state ≡ false → 0 < (k.proc x).pid
  pub below : (x : ℕ) → (k.proc x).pid < k.nextpid
  pub distinct : (x y : ℕ) → (k.proc x).pid ≡ (k.proc y).pid → 0 < (k.proc x).pid → x ≡ y

unused_proc-unused :
    (t : Procs) (p n r : ℕ) → unused_proc t p n ≡ some r → is_unused (t r).state ≡ true
unfolding unused_proc
unused_proc-unused t p zero r e = ground arith
unused_proc-unused t p (suc n) r e = elim (Bool-cases (is_unused (t p).state)) [
  | inl u ↦ ground arith
  | inr u ↦ ground (arith, unused_proc-unused t (p + 1) n r)
]

-- The fields that matter are as they were.
abbrev pub Same : Kernel → Kernel → Type 0
Same k k' =
    (x : ℕ)
    → ((k'.proc x).pid ≡ (k.proc x).pid)
      × (is_unused (k'.proc x).state ≡ is_unused (k.proc x).state)
      × (k'.nextpid ≡ k.nextpid)

pub Same-HasPids : (k k' : Kernel) → HasPids k → Same k k' → HasPids k'
Same-HasPids k k' h same = record {
  blank = λ x u. ground (arith, h.blank x, same x);
  given = λ x u. ground (arith, h.given x, same x);
  below = λ x. ground (arith, h.below x, same x);
  distinct = λ x y s l. ground (arith, h.distinct x y, same x, same y);
}

-- freeproc of a process
erased-HasPids :
    (k : Kernel) (p : ℕ)
    → HasPids k
    → HasPids (record k { proc = update k.proc p (freeproc (k.proc p)) })
unfolding freeproc update
erased-HasPids k p h = record {
  blank = λ x u. ground (arith, h.blank x);
  given = λ x u. ground (arith, h.given x);
  below = λ x. ground (arith, h.below x);
  distinct = λ x y s l. ground (arith, h.distinct x y);
}

-- The next number for a process without one.
numbered-HasPids :
    (k : Kernel) (p : ℕ) (r : Proc)
    → HasPids k
    → k.nextpid < int_max
    → is_unused (k.proc p).state ≡ true
    → HasPids (record k {
      nextpid = add32 k.nextpid 1;
      proc = update k.proc p (record r { pid = k.nextpid; state = used });
    })
unfolding update
numbered-HasPids k p r h low free = record {
  blank = λ x u. ground (arith, h.blank x);
  given = λ x u. ground (arith, h.given x, h.below p);
  below = λ x. ground (arith, h.below x);
  distinct = λ x y s l. ground (arith, h.distinct x y, h.below x, h.below y);
}

lost-HasPids :
    (k : Kernel) (p : ℕ) (r : Proc)
    → HasPids k
    → k.nextpid < int_max
    → is_unused (k.proc p).state ≡ true
    → HasPids (record k { nextpid = add32 k.nextpid 1; proc = update k.proc p (freeproc r) })
unfolding freeproc update
lost-HasPids k p r h low free = record {
  blank = λ x u. ground (arith, h.blank x);
  given = λ x u. ground (arith, h.given x);
  below = λ x. ground (arith, h.below x);
  distinct = λ x y s l. ground (arith, h.distinct x y);
}

filled-HasPids :
    (k : Kernel) (frame : Option Trapframe) (pagetable r : Option ℕ)
    → HasPids k
    → k.nextpid < int_max
    → unused_proc k.proc 0 nproc ≡ r
    → HasPids (filled k frame pagetable r).1
filled-HasPids k frame pagetable none h low e = h
filled-HasPids k none pagetable (some p) h low e =
    lost-HasPids k p _ h low (unused_proc-unused k.proc 0 nproc p e)
filled-HasPids k (some f) none (some p) h low e =
    lost-HasPids k p _ h low (unused_proc-unused k.proc 0 nproc p e)
filled-HasPids k (some f) (some a) (some p) h low e =
    numbered-HasPids k p (record (k.proc p) { trapframe = some f; pagetable = some a }) h low
      (unused_proc-unused k.proc 0 nproc p e)

copied_into-HasPids :
    (k : Kernel) (p np : ℕ) (r : Result (Ofile × Files.Table))
    → HasPids k
    → Ensures (λ o. HasPids o.1) (copied_into k p np r)
unfolding update
copied_into-HasPids k p np panic h = tt
copied_into-HasPids k p np (ok (o, t)) h = Same-HasPids k _ h (λ x. ground arith)

fork_copy-HasPids :
    (uvmcopy : Bool) (p : ℕ) (made : Option ℕ × Kernel)
    → HasPids made.1
    → Ensures (λ o. HasPids o.1) (fork_copy uvmcopy p made)
fork_copy-HasPids uvmcopy p (none, k) h = h
fork_copy-HasPids false p (some np, k) h = erased-HasPids k np h
fork_copy-HasPids true p (some np, k) h =
    copied_into-HasPids k p np (dup_all (k.proc p).ofile (k.proc np).ofile k.ftable 0 nofile) h

pub fork_alloc-HasPids :
    (k : Kernel) (p : ℕ) (frame : Option Trapframe) (pagetable : Option ℕ) (uvmcopy : Bool)
    → HasPids k
    → k.nextpid < int_max
    → Ensures (λ o. HasPids o.1) (fork_alloc k p frame pagetable uvmcopy)
unfolding fork_alloc allocproc
fork_alloc-HasPids k p frame pagetable uvmcopy h low =
    fork_copy-HasPids uvmcopy p _
      (filled-HasPids k frame pagetable (unused_proc k.proc 0 nproc) h low refl)

closed-HasPids :
    (k : Kernel) (p : ℕ) (r : Result (List Closing × Ofile × Files.Table))
    → HasPids k
    → Ensures (λ o. HasPids o.1) (closed k p r)
unfolding update
closed-HasPids k p panic h = tt
closed-HasPids k p (ok (cs, o, t)) h = Same-HasPids k _ h (λ x. ground arith)

pub exit_close-HasPids :
    (k : Kernel) (p : ℕ) → HasPids k → Ensures (λ o. HasPids o.1) (exit_close k p)
unfolding exit_close
exit_close-HasPids k p h = elim (Bool-cases (p == initproc)) [
  | inl e ↦ rw e tt
  | inr e ↦ rw e (closed-HasPids k p (close_all (k.proc p).ofile k.ftable 0 nofile) h)
]

pub Kept-unused : {t u : Procs} → Kept t u → (x : ℕ) → is_unused (u x).state ≡ is_unused (t x).state
Kept-unused {t} {u} a x = elim (a.state x) [
  | inl same ↦ ap is_unused same
  | inr (was, is) ↦ ap is_unused is ∙ sym (ap is_unused was)
]

-- The end of exit_finish, behind reparent and wakeup.
buried-HasPids :
    (k : Kernel) (t : Procs) (c p : ℕ) (status : ℤ)
    → Kept k.proc t
    → is_unused (k.proc p).state ≡ false
    → HasPids k
    → HasPids (record k {
      proc = update t p (record (t p) { xstate = status; state = zombie });
      cpus = update k.cpus c none;
    })
unfolding update
buried-HasPids k t c p status a live h =
    Same-HasPids k _ h (λ x. ground (arith, a.pid x, Kept-unused a x))

pub exit_finish-HasPids :
    (k : Kernel) (c p : ℕ) (status : ℤ)
    → is_unused (k.proc p).state ≡ false
    → HasPids k
    → HasPids (exit_finish k c p status)
unfolding exit_finish
exit_finish-HasPids k c p status live h =
    let t = reparent k.proc p in
    let kept =
      Kept-trans (reparent-Adopted k.proc p).kept
        (wakeup-Woken t p (address_of (t p).parent)).kept in
    buried-HasPids k _ c p status kept live h

waits-HasPids :
    (k : Kernel) (c p : ℕ) (copied : Bool) (found : Children)
    → is_unused (k.proc p).state ≡ false
    → HasPids k
    → HasPids (kernel_of (waits k c p copied found))
unfolding update
waits-HasPids k c p false (exited pp) live h = h
waits-HasPids k c p true (exited pp) live h = erased-HasPids k pp h
waits-HasPids k c p copied childless live h = h
waits-HasPids k c p copied alive live h = elim (Bool-cases (k.proc p).killed) [
  | inl e ↦ rw e h
  | inr e ↦ rw e (Same-HasPids k _ h (λ x. ground arith))
]

pub kwait-HasPids :
    (k : Kernel) (c p : ℕ) (copied : Bool)
    → is_unused (k.proc p).state ≡ false
    → HasPids k
    → HasPids (kernel_of (kwait k c p copied))
unfolding kwait
kwait-HasPids k c p copied live h =
    waits-HasPids k c p copied (scan_children k.proc p 0 nproc) live h

pub kills-HasPids : (k : Kernel) (r : Option ℕ) → HasPids k → HasPids (kills k r).1
unfolding update
kills-HasPids k none h = h
kills-HasPids k (some p) h = Same-HasPids k _ h (λ x. ground arith)
