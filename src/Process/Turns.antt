-- ===== src/Process/Turns.antt =====
-- The scheduler, sleep and kill keep the invariant.
use mit6_1810_why_tea_fo.Base.{ℕ, ◌<◌, ◌≡◌, refl, Option, none, some, arith, Bool-cases, inl, inr}
use mit6_1810_why_tea_fo.Store.{update}
use mit6_1810_why_tea_fo.Process.{runnable, is_runnable, is_sleeping, nproc, wakeup}
use mit6_1810_why_tea_fo.Process.Schedule.{
  schedule, yield, sleep, awake, kkill, kills, setkilled, with_pid,
}
use mit6_1810_why_tea_fo.Process.Step.{System}
use mit6_1810_why_tea_fo.Process.Pids.{Same-HasPids, Kept-unused, kills-HasPids}
use mit6_1810_why_tea_fo.Process.Family.{Alike-IsFamily, moved-IsFamily}
use mit6_1810_why_tea_fo.Process.Running.{stays-OnCpus, leaves-OnCpus, arrives-OnCpus}
use mit6_1810_why_tea_fo.Process.Sound.{IsSound, still_running}
use mit6_1810_why_tea_fo.Process.Reparent.{wakeup-Woken}
use mit6_1810_why_tea_fo.Process.Burial.{Woken-IsFamily}

module _ (s : System) (h : IsSound s) where
  pub schedule-IsSound : (c p : ℕ) → IsSound (record s { kernel = schedule s.kernel c p })
  unfolding schedule update
  schedule-IsSound c p = elim (Bool-cases (is_runnable (s.kernel.proc p).state)) [
    | inr other ↦ rw other h
    | inl ready ↦
        let was : (s.kernel.proc p).state ≡ runnable = ground arith in
        rw ready (record {
          pids = Same-HasPids s.kernel _ h.pids (λ x. ground arith);
          family =
              moved-IsFamily h.family p (λ x ne. ground arith) (ground arith) (ground arith)
                (ground arith) (λ e. ground arith);
          running =
              arrives-OnCpus h.running c p (λ e. ground arith) (ground arith)
                (λ x ne. ground arith);
        })
  ]

  -- wakeup on any channel: who sleeps may become runnable, and nothing else changes.
  pub wakes-IsSound :
      (me chan : ℕ)
      → IsSound (record s { kernel = record s.kernel { proc = wakeup s.kernel.proc me chan } })
  wakes-IsSound me chan =
      let w = wakeup-Woken s.kernel.proc me chan in
      record {
        pids = Same-HasPids s.kernel _ h.pids (λ x. (w.kept.pid x, Kept-unused w.kept x, refl));
        family = Woken-IsFamily h.family w;
        running = stays-OnCpus h.running (still_running w.kept);
      }

  -- A step of the running process `p` that leaves its CPU.
  pub yield-IsSound :
      (c p : ℕ) → s.kernel.cpus c ≡ some p → IsSound (record s { kernel = yield s.kernel c p })
  unfolding yield update
  yield-IsSound c p here =
      let was = h.running.on c p here in
      record {
        pids = Same-HasPids s.kernel _ h.pids (λ x. ground arith);
        family =
            moved-IsFamily h.family p (λ x ne. ground arith) (ground arith) (ground arith)
              (ground arith) (λ e. ground arith);
        running = leaves-OnCpus h.running c p here (λ x ne e. ground arith);
      }

  pub sleep-IsSound :
      (c p chan : ℕ)
      → s.kernel.cpus c ≡ some p
      → nproc < chan
      → IsSound (record s { kernel = sleep s.kernel c p chan })
  unfolding sleep update
  sleep-IsSound c p chan here far =
      let was = h.running.on c p here in
      record {
        pids = Same-HasPids s.kernel _ h.pids (λ x. ground arith);
        family =
            moved-IsFamily h.family p (λ x ne. ground arith) (ground arith) (ground arith)
              (ground arith) (λ e. ground (arith, h.family.bound p));
        running = leaves-OnCpus h.running c p here (λ x ne e. ground arith);
      }

  pub awake-IsSound :
      (c p : ℕ) → s.kernel.cpus c ≡ some p → IsSound (record s { kernel = awake s.kernel p })
  unfolding awake update
  awake-IsSound c p here =
      let was = h.running.on c p here in
      record {
        pids = Same-HasPids s.kernel _ h.pids (λ x. ground arith);
        family =
            moved-IsFamily h.family p (λ x ne. ground arith) (ground arith) (ground arith)
              (ground arith) (λ e. ground arith);
        running = stays-OnCpus h.running (λ x e. ground arith);
      }

  pub setkilled-IsSound : (p : ℕ) → IsSound (record s { kernel = setkilled s.kernel p })
  unfolding setkilled update
  setkilled-IsSound p = record {
    pids = Same-HasPids s.kernel _ h.pids (λ x. ground arith);
    family = Alike-IsFamily h.family (λ x. ground arith);
    running = stays-OnCpus h.running (λ x e. ground arith);
  }

  pub kills-IsSound : (r : Option ℕ) → IsSound (record s { kernel = (kills s.kernel r).1 })
  unfolding update
  kills-IsSound none = h
  kills-IsSound (some p) = record {
    pids = kills-HasPids s.kernel (some p) h.pids;
    family = elim (Bool-cases (is_sleeping (s.kernel.proc p).state)) [
      | inl e ↦
          moved-IsFamily h.family p (λ x ne. ground arith) (ground arith) (ground arith)
            (ground arith) (λ z. ground arith)
      | inr e ↦ Alike-IsFamily h.family (λ x. ground arith)
    ];
    running = stays-OnCpus h.running (λ x e. ground arith);
  }

  pub kkill-IsSound : (pid : ℕ) → IsSound (record s { kernel = (kkill s.kernel pid).1 })
  unfolding kkill
  kkill-IsSound pid = kills-IsSound (with_pid s.kernel.proc pid 0 nproc)
