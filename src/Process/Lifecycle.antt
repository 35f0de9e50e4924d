-- ===== src/Process/Lifecycle.antt =====
-- kfork, kexit and kwait keep the invariant.
use mit6_1810_why_tea_fo.Base.{
  ℕ, ◌≡◌, ◌≢◌, ◌∙◌, sym, ap, Bool, true, false, Option, none, some, List, arith, Bool-cases, inl,
  inr,
}
use mathlib.Core.Path.{subst}
use mit6_1810_why_tea_fo.Base.Int.{ℤ}
use mit6_1810_why_tea_fo.Store.{update}
use mit6_1810_why_tea_fo.Files.{Closing, ok, Ensures-ok}
use mit6_1810_why_tea_fo.Process.{
  Proc, Procs, Kernel, zombie, nproc, initproc, address_of, freeproc, wakeup,
}
use mit6_1810_why_tea_fo.Process.Fork.{fork_link, fork_run}
use mit6_1810_why_tea_fo.Process.Exit.{
  exit_close, exit_finish, reparent, kwait, waits, Children, exited, alive, childless,
  scan_children, kernel_of,
}
use mit6_1810_why_tea_fo.Process.Step.{System}
use mit6_1810_why_tea_fo.Process.Reparent.{Kept-trans, wakeup-Woken, reparent-Adopted}
use mit6_1810_why_tea_fo.Process.Pids.{
  HasPids, Same-HasPids, exit_close-HasPids, exit_finish-HasPids, kwait-HasPids,
}
use mit6_1810_why_tea_fo.Process.Family.{
  Alike-IsFamily, waiting-IsFamily, gone-IsFamily, made-IsFamily, linked-IsFamily, started-IsFamily,
}
use mit6_1810_why_tea_fo.Process.Burial.{buried-IsFamily}
use mit6_1810_why_tea_fo.Process.Running.{OnCpus, stays-OnCpus, leaves-OnCpus}
use mit6_1810_why_tea_fo.Process.Effects.{
  Forked, Scanned, scan_children-Scanned, Closed, exit_close-Closed,
}
use mit6_1810_why_tea_fo.Process.Sound.{
  IsSound, update_ne, update_self, still_running, idle-IsFamily,
}

module _ (s : System) (h : IsSound s) where
  pub link-IsSound :
      (c p np : ℕ)
      → s.kernel.cpus c ≡ some p
      → s.np p ≡ some np
      → IsSound (record s { kernel = fork_link s.kernel p np })
  unfolding fork_link update
  link-IsSound c p np here mine =
      let was = h.running.on c p here in
      let is = h.family.embryo p np mine in
      record {
        pids = Same-HasPids s.kernel _ h.pids (λ x. ground arith);
        family =
            linked-IsFamily h.family np (λ x ne. ground arith) p (ground arith) is (ground arith)
              (ground arith);
        running = stays-OnCpus h.running (λ x e. ground arith);
      }

  pub run-IsSound :
      (p np : ℕ)
      → s.np p ≡ some np
      → (s.kernel.proc np).parent ≡ some p
      → IsSound (record { kernel = fork_run s.kernel np; np = update s.np p none })
  unfolding fork_run update
  run-IsSound p np mine parent =
      let is = h.family.embryo p np mine in
      record {
        pids = Same-HasPids s.kernel _ h.pids (λ x. ground arith);
        family =
            started-IsFamily h.family np (λ x ne. ground arith) p mine parent (ground arith)
              (ground arith);
        running = stays-OnCpus h.running (λ x e. ground arith);
      }

  pub closed-IsSound :
      (p : ℕ) (cs : List Closing) (k : Kernel)
      → exit_close s.kernel p ≡ ok (cs, k)
      → IsSound (record s { kernel = k })
  closed-IsSound p cs k e =
      let closed = Ensures-ok (λ o. Closed s.kernel o.1) (exit_close-Closed s.kernel p) e in
      record {
        pids = Ensures-ok (λ o. HasPids o.1) (exit_close-HasPids s.kernel p h.pids) e;
        family = Alike-IsFamily h.family closed.alike;
        running =
            subst (OnCpus k.proc) (sym closed.cpus)
              (stays-OnCpus h.running (λ x r. (closed.alike x).0 ∙ r));
      }

  pub exit-IsSound :
      (c p : ℕ) (status : ℤ)
      → s.kernel.cpus c ≡ some p
      → p ≢ initproc
      → IsSound (record s { kernel = exit_finish s.kernel c p status })
  unfolding exit_finish update
  exit-IsSound c p status here ne =
      let was = h.running.on c p here in
      let t = reparent s.kernel.proc p in
      let a = reparent-Adopted s.kernel.proc p in
      let v = wakeup t p (address_of (t p).parent) in
      let w = wakeup-Woken t p (address_of (t p).parent) in
      let r = record (v p) { xstate = status; state = zombie } in
      let kept = Kept-trans a.kept w.kept in
      record {
        pids = exit_finish-HasPids s.kernel c p status (ground arith) h.pids;
        family =
            buried-IsFamily p h.family was ne a w (update_ne v p r)
              (ap (λ (q : Proc). q.state) (update_self v p r))
              (ap (λ (q : Proc). q.parent) (update_self v p r));
        running = leaves-OnCpus h.running c p here (λ x other e.
            ap (λ (q : Proc). q.state) (update_ne v p r x other) ∙ still_running kept x e);
      }

  pub Forked-IsSound :
      (c p : ℕ) (np : Option ℕ) (k : Kernel)
      → s.np p ≡ none
      → HasPids k
      → Forked s.kernel (np, k)
      → IsSound (record { kernel = k; np = update s.np p np })
  unfolding update
  Forked-IsSound c p _ k none_yet pids (Forked.full _ same cpus) = record {
    pids = pids;
    family =
        idle-IsFamily p
          (Alike-IsFamily h.family (λ x. ground (arith, ap (λ (t : Procs). t x) same))) none_yet;
    running =
        subst (OnCpus k.proc) (sym cpus)
          (stays-OnCpus h.running (λ x e. ground (arith, ap (λ (t : Procs). t x) same)));
  }
  Forked-IsSound c p _ k none_yet pids (Forked.undone x _ free but is alone cpus) = record {
    pids = pids;
    family =
        idle-IsFamily p (gone-IsFamily h.family x but (ground arith) (λ e. ground arith) is alone)
          none_yet;
    running =
        subst (OnCpus k.proc) (sym cpus) (stays-OnCpus h.running (λ y e. ground (arith, but y)));
  }
  Forked-IsSound c p _ k none_yet pids (Forked.made x _ free low but is alone cpus) = record {
    pids = pids;
    family = made-IsFamily h.family x but p free low is (alone ∙ h.family.orphan x free);
    running =
        subst (OnCpus k.proc) (sym cpus) (stays-OnCpus h.running (λ y e. ground (arith, but y)));
  }

  pub waits-IsSound :
      (c p : ℕ) (copied : Bool) (found : Children)
      → s.kernel.cpus c ≡ some p
      → Scanned s.kernel.proc p 0 nproc found
      → HasPids (kernel_of (waits s.kernel c p copied found))
      → IsSound (record s { kernel = kernel_of (waits s.kernel c p copied found) })
  unfolding freeproc update
  waits-IsSound c p false (exited x) here found pids = h
  waits-IsSound c p true (exited x) here (Scanned.has_exited _ parent gone) pids = record {
    pids = pids;
    family =
        gone-IsFamily h.family x (λ y ne. ground arith) (ground arith) (λ e. ground arith)
          (ground arith) (ground arith);
    running = stays-OnCpus h.running (λ y e. ground arith);
  }
  waits-IsSound c p copied childless here found pids = h
  waits-IsSound c p copied alive here (Scanned.are_alive all) pids =
      elim (Bool-cases (s.kernel.proc p).killed) [
        | inl e ↦ rw e h
        | inr e ↦
            let was = h.running.on c p here in
            rw e (record {
              pids = Same-HasPids s.kernel _ h.pids (λ x. ground arith);
              family =
                  waiting-IsFamily h.family p (λ x ne. ground arith) (ground arith) (ground arith)
                    (ground arith)
                    (λ x mine gone.
                      all x (omega arith) (ground (arith, h.family.bound x)) mine gone);
              running = leaves-OnCpus h.running c p here (λ x ne r. ground arith);
            })
      ]

  pub kwait-IsSound :
      (c p : ℕ) (copied : Bool) {k : Kernel}
      → s.kernel.cpus c ≡ some p
      → kernel_of (kwait s.kernel c p copied) ≡ k
      → IsSound (record s { kernel = k })
  unfolding kwait
  kwait-IsSound c p copied here e =
      let was = h.running.on c p here in
      subst (λ (k : Kernel). IsSound (record s { kernel = k })) e
        (waits-IsSound c p copied (scan_children s.kernel.proc p 0 nproc) here
          (scan_children-Scanned s.kernel.proc p 0 nproc)
          (kwait-HasPids s.kernel c p copied (ground arith) h.pids))
