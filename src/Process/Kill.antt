-- ===== src/Process/Kill.antt =====
-- kkill of the process number 0, which no process has.
use mit6_1810_why_tea_fo.Base.{
  ℕ, zero, suc, ◌+◌, ◌≡◌, refl, ◌∙◌, true, some, arith, ◌==◌, Bool-cases, inl, inr, eq→==, ne→==,
  ==_refl,
}
use mit6_1810_why_tea_fo.Base.Int.{pos}
use mit6_1810_why_tea_fo.Store.{update}
use mit6_1810_why_tea_fo.Process.{
  Procs, Kernel, Trapframe, is_unused, nproc, unused_proc, allocproc,
}
use mit6_1810_why_tea_fo.Process.Schedule.{kkill, killing, with_pid}
use mit6_1810_why_tea_fo.Process.Pids.{HasPids}

is_blank : (k : Kernel) → HasPids k → (x : ℕ) → ((k.proc x).pid == 0) ≡ is_unused (k.proc x).state
is_blank k h x = elim (Bool-cases (is_unused (k.proc x).state)) [
  | inl free ↦ rw free (eq→== _ _ (h.blank x free))
  | inr busy ↦ rw busy (ne→== _ _ (λ e. omega (arith, h.given x busy)))
]

-- The loops of kkill and of allocproc find the same entry.
with_pid-zero : (k : Kernel) (p n : ℕ) → HasPids k → with_pid k.proc 0 p n ≡ unused_proc k.proc p n
unfolding with_pid unused_proc
with_pid-zero k p zero h = refl
with_pid-zero k p (suc n) h = rw (is_blank k h p, with_pid-zero k (p + 1) n h)

unused_proc-same :
    (t u : Procs) (p n : ℕ)
    → ((x : ℕ) → is_unused (u x).state ≡ is_unused (t x).state)
    → unused_proc u p n ≡ unused_proc t p n
unfolding unused_proc
unused_proc-same t u p zero same = refl
unused_proc-same t u p (suc n) same = rw (same p, unused_proc-same t u (p + 1) n same)

killing-unused :
    (t : Procs) (y x : ℕ) → is_unused (update t y (killing (t y)) x).state ≡ is_unused (t x).state
unfolding update
killing-unused t y x = ground arith

-- Where the entries without a process number are the unused ones and x is the first of them, kkill of
-- the process number 0 returns 0, for
-- success, and the process that the next allocproc makes of x, with memory, is killed from its start.
pub kkill-zero :
    (k : Kernel) (x : ℕ) (f : Trapframe) (a : ℕ)
    → HasPids k
    → unused_proc k.proc 0 nproc ≡ some x
    → ((kkill k 0).0 ≡ pos 0)
      × ((allocproc (kkill k 0).1 (some f) (some a)).0 ≡ some x)
      × (((allocproc (kkill k 0).1 (some f) (some a)).1.proc x).killed ≡ true)
unfolding kkill allocproc update
kkill-zero k x f a h e =
    let first : with_pid k.proc 0 0 nproc ≡ some x = with_pid-zero k 0 nproc h ∙ e in
    let again : unused_proc (update k.proc x (killing (k.proc x))) 0 nproc ≡ some x =
      unused_proc-same k.proc (update k.proc x (killing (k.proc x))) 0 nproc
        (killing-unused k.proc x)
      ∙ e in
    rw (first, again) (refl, refl, rw (==_refl x))
