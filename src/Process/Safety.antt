-- ===== src/Process/Safety.antt =====
-- What holds of the processes in every reachable state.
use mit6_1810_why_tea_fo.Base.{ℕ, ◌≡◌, ◌≢◌, ap, true, some, arith, Option-cases, inl, inr}
use mit6_1810_why_tea_fo.Files.{Ensures-ok}
use mit6_1810_why_tea_fo.Process.{unused, sleeping, running, zombie, initproc, address}
use mit6_1810_why_tea_fo.Process.Exit.{kernel_of}
use mit6_1810_why_tea_fo.Process.Step.{System, Step, Started, Reach}
use mit6_1810_why_tea_fo.Process.Pids.{HasPids, fork_alloc-HasPids}
use mit6_1810_why_tea_fo.Process.Family.{is_live}
use mit6_1810_why_tea_fo.Process.Effects.{Forked, fork_alloc-Forked}
use mit6_1810_why_tea_fo.Process.Sound.{IsSound}
use mit6_1810_why_tea_fo.Process.Turns.{
  schedule-IsSound, yield-IsSound, sleep-IsSound, awake-IsSound, wakes-IsSound, setkilled-IsSound,
  kkill-IsSound,
}
use mit6_1810_why_tea_fo.Process.Lifecycle.{
  link-IsSound, run-IsSound, closed-IsSound, exit-IsSound, Forked-IsSound, kwait-IsSound,
}

-- Each step keeps the invariants.
Step-IsSound : {s t : System} → IsSound s → Step s t → IsSound t
Step-IsSound {s} h (Step.schedules c p low free) = schedule-IsSound s h c p
Step-IsSound {s} h (Step.yields c p here) = yield-IsSound s h c p here
Step-IsSound {s} h (Step.sleeps_on c p chan runs far) = sleep-IsSound s h c p chan runs.current far
Step-IsSound {s} h (Step.wakes me chan) = wakes-IsSound s h me chan
Step-IsSound {s} h (Step.awakes c p here) = awake-IsSound s h c p here
Step-IsSound {s} h (Step.forks c p frame pagetable uvmcopy np k runs low e) =
    Forked-IsSound s h c p np k runs.idle
      (Ensures-ok (λ o. HasPids o.1)
        (fork_alloc-HasPids s.kernel p frame pagetable uvmcopy h.pids low) e)
      (Ensures-ok (Forked s.kernel) (fork_alloc-Forked s.kernel p frame pagetable uvmcopy) e)
Step-IsSound {s} h (Step.links c p np here mine) = link-IsSound s h c p np here mine
Step-IsSound {s} h (Step.starts c p np here mine parent) = run-IsSound s h p np mine parent
Step-IsSound {s} h (Step.closes c p cs k runs e) = closed-IsSound s h p cs k e
Step-IsSound {s} h (Step.exits c p status runs ne) = exit-IsSound s h c p status runs.current ne
Step-IsSound {s} h (Step.reaps c p copied v k runs e) =
    kwait-IsSound s h c p copied runs.current (ap kernel_of e)
Step-IsSound {s} h (Step.waits c p copied k runs e) =
    kwait-IsSound s h c p copied runs.current (ap kernel_of e)
Step-IsSound {s} h (Step.kills pid) = kkill-IsSound s h pid
Step-IsSound {s} h (Step.dooms c p here) = setkilled-IsSound s h p

Started-IsSound : {s : System} → Started s → IsSound s
Started-IsSound {s} h = record {
  pids = record {
    blank = λ x e. ground (arith, h.others x, h.first_pid, h.first);
    given = λ x e. ground (arith, h.others x, h.first_pid, h.first);
    below = λ x. ground (arith, h.others x, h.first_pid, h.first, h.next);
    distinct = λ x y e l. ground (arith, h.others x, h.others y, h.first_pid);
  };
  family = record {
    bound = λ x far. ground (arith, h.others x);
    init = ground (arith, h.first);
    orphan = λ x e. h.no_parent x;
    parents = λ x q e. ground (arith, h.no_parent x);
    has = λ x ne a b. ground (arith, h.others x);
    embryo = λ p x e. ground (arith, h.no_fork p);
    one = λ p q x e g. ground (arith, h.no_fork p);
    awaited = λ x q e a b. ground (arith, h.no_parent x);
  };
  running = record {
    on = λ c p e. ground (arith, h.no_cpu c);
    one = λ c d p e g. ground (arith, h.no_cpu c);
  };
}

pub Reach-IsSound : {s : System} → Reach s → IsSound s
Reach-IsSound (Reach.start h) = Started-IsSound h
Reach-IsSound (Reach.next r st) = Step-IsSound (Reach-IsSound r) st

-- In every state that is reached without an overflow of nextpid each process that has exited and waits to be reaped has a parent, and
-- that parent is alive and does not sleep in kwait: the wakeup of kexit is not lost, and no exited
-- process is left without one who can reap it.
pub zombie_lem :
    {s : System} (x : ℕ)
    → Reach s
    → (s.kernel.proc x).state ≡ zombie
    → (q : ℕ) × ((s.kernel.proc x).parent ≡ some q)
      × (is_live (s.kernel.proc q).state ≡ true)
      × ((s.kernel.proc q).state ≡ sleeping → (s.kernel.proc q).chan ≢ address q)
zombie_lem {s} x reach gone =
    let f = (Reach-IsSound reach).family in
    let not_init : x ≢ initproc =
      λ e. ground (arith, f.init, ap (λ y. (s.kernel.proc y).state) e) in
    elim (Option-cases (s.kernel.proc x).parent) [
      | inl none_there ↦ absurd (ground (arith, f.has x not_init))
      | inr (q, e) ↦ (q, e, f.parents x q e, λ sleeps c. f.awaited x q e sleeps c gone)
    ]

-- In every state that is reached without an overflow of nextpid two entries of the table in use have different process numbers, and a
-- process that a CPU has for its current one is running and no other CPU's.
pub identity_lem :
    {s : System}
    → Reach s
    → ((x y : ℕ)
        → (s.kernel.proc x).state ≢ unused
        → (s.kernel.proc x).pid ≡ (s.kernel.proc y).pid
        → x ≡ y)
      × ((c d p : ℕ)
          → s.kernel.cpus c ≡ some p
          → ((s.kernel.proc p).state ≡ running) × (s.kernel.cpus d ≡ some p → c ≡ d))
identity_lem {s} reach =
    let h = Reach-IsSound reach in
    (
      λ x y used e. h.pids.distinct x y e (h.pids.given x (ground arith)),
      λ c d p e. (h.running.on c p e, λ g. h.running.one c d p e g),
    )
