-- ===== src/Process/Sound.antt =====
-- The invariant of the processes, and small facts about it.
use mit6_1810_why_tea_fo.Base.{ℕ, ◌≡◌, ◌≢◌, ◌∙◌, Option, none, arith, inl, inr, ne→==, ==_refl}
use mit6_1810_why_tea_fo.Store.{update}
use mit6_1810_why_tea_fo.Process.{Proc, Procs, running}
use mit6_1810_why_tea_fo.Process.Step.{System}
use mit6_1810_why_tea_fo.Process.Reparent.{Kept}
use mit6_1810_why_tea_fo.Process.Pids.{HasPids}
use mit6_1810_why_tea_fo.Process.Family.{IsFamily}
use mit6_1810_why_tea_fo.Process.Running.{OnCpus}

pub record IsSound (s : System) : Type 0 where
  pub pids : HasPids s.kernel
  pub family : IsFamily s.kernel.proc s.np
  pub running : OnCpus s.kernel.proc s.kernel.cpus

pub update_ne : (t : Procs) (p : ℕ) (r : Proc) (x : ℕ) → x ≢ p → update t p r x ≡ t x
unfolding update
update_ne t p r x ne = let e = ne→== x p ne in rw e

pub update_self : (t : Procs) (p : ℕ) (r : Proc) → update t p r p ≡ r
unfolding update
update_self t p r = rw (==_refl p)

pub still_running :
    {t u : Procs} → Kept t u → (x : ℕ) → (t x).state ≡ running → (u x).state ≡ running
still_running a x e = elim (a.state x) [ inl same ↦ same ∙ e | inr (was, is) ↦ ground arith ]

pub idle-IsFamily :
    {t : Procs} {np : ℕ → Option ℕ} (p : ℕ)
    → IsFamily t np
    → np p ≡ none
    → IsFamily t (update np p none)
unfolding update
idle-IsFamily p h e = record {
  bound = h.bound;
  init = h.init;
  orphan = h.orphan;
  parents = h.parents;
  has = h.has;
  embryo = λ q x g. ground (arith, h.embryo q x);
  one = λ q r x g j. ground (arith, h.one q r x);
  awaited = h.awaited;
}
