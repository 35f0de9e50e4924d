-- ===== src/Process/Reparent.antt =====
-- What wakeup and reparent do to the table.
use mit6_1810_why_tea_fo.Base.{
  ℕ, zero, suc, ◌+◌, ◌≤◌, ◌<◌, ◌≡◌, ◌≢◌, ◌⊎◌, refl, ◌∙◌, true, false, ◌&&◌, some, arith, ◌==◌, ltb,
  leb, if◌then◌else◌, Bool-cases, inl, inr,
}
use mit6_1810_why_tea_fo.Store.{update}
use mit6_1810_why_tea_fo.Process.{
  Procs, sleeping, runnable, nproc, initproc, address, is_sleeping, is_proc, wakeup,
}
use mit6_1810_why_tea_fo.Process.Wakeup.{wakeup_lem}
use mit6_1810_why_tea_fo.Process.Exit.{adopt, reparent_loop, reparent}

-- Processes may have been woken, and changed their parents, and nothing else.
pub record Kept (t t' : Procs) : Type 0 where
  pub pid : (x : ℕ) → (t' x).pid ≡ (t x).pid
  pub chan : (x : ℕ) → (t' x).chan ≡ (t x).chan
  pub state :
      (x : ℕ)
      → ((t' x).state ≡ (t x).state) ⊎ (((t x).state ≡ sleeping) × ((t' x).state ≡ runnable))

pub Kept-refl : (t : Procs) → Kept t t
Kept-refl t = record { pid = λ x. refl; chan = λ x. refl; state = λ x. inl refl }

pub Kept-trans : {t u v : Procs} → Kept t u → Kept u v → Kept t v
Kept-trans {t} {u} {v} a b = record {
  pid = λ x. b.pid x ∙ a.pid x;
  chan = λ x. b.chan x ∙ a.chan x;
  state = λ x. ground (arith, a.state x, b.state x);
}

-- wakeup(chan) wakes all that sleep there, but for the caller.
pub record Woken (t t' : Procs) (me chan : ℕ) : Type 0 where
  pub kept : Kept t t'
  pub parent : (x : ℕ) → (t' x).parent ≡ (t x).parent
  pub awake : (x : ℕ) → x < nproc → x ≢ me → (t x).chan ≡ chan → is_sleeping (t' x).state ≡ false

pub wakeup-Woken : (t : Procs) (me chan : ℕ) → Woken t (wakeup t me chan) me chan
wakeup-Woken t me chan = record {
  kept = record {
    pid = λ x. rw (wakeup_lem t me chan x) (ground arith);
    chan = λ x. rw (wakeup_lem t me chan x) (ground arith);
    state = λ x. rw (wakeup_lem t me chan x) (ground arith);
  };
  parent = λ x. rw (wakeup_lem t me chan x) (ground arith);
  awake = λ x lt ne e. rw (wakeup_lem t me chan x) (ground arith);
}

-- What reparent has done behind the processes from `lo` on, `n` of them.
pub record Adopted (t t' : Procs) (me lo n : ℕ) : Type 0 where
  pub kept : Kept t t'
  pub parent :
      (x : ℕ)
      → (t' x).parent ≡ (
          if leb lo x && (ltb x (lo + n) && is_proc (t x).parent me)
          then some initproc
          else (t x).parent)
  pub awake :
      (x y : ℕ)
      → lo ≤ x
      → x < lo + n
      → is_proc (t x).parent me ≡ true
      → y < nproc
      → y ≢ me
      → (t y).chan ≡ address initproc
      → is_sleeping (t' y).state ≡ false

adopt-Adopted : (t : Procs) (me p : ℕ) → Adopted t (adopt t me p) me p 1
unfolding update
adopt-Adopted t me p = elim (Bool-cases (is_proc (t p).parent me)) [
  | inl mine ↦
      let w =
        wakeup-Woken (update t p (record (t p) { parent = some initproc })) me (address initproc) in
      rw mine (record {
        kept = record {
          pid = λ x. ground (arith, w.kept.pid x);
          chan = λ x. ground (arith, w.kept.chan x);
          state = λ x. ground (arith, w.kept.state x);
        };
        parent = λ x. ground (arith, w.parent x);
        awake = λ x y low high own lt ne e. ground (arith, w.awake y lt ne);
      })
  | inr other ↦ rw other (record {
    kept = Kept-refl t;
    parent = λ x. ground arith;
    awake = λ x y low high own lt ne e. ground arith;
  })
]

Adopted-more :
    {t u v : Procs} (me p n : ℕ)
    → Adopted t u me p 1
    → Adopted u v me (p + 1) n
    → Adopted t v me p (suc n)
Adopted-more {t} {u} {v} me p n a b = record {
  kept = Kept-trans a.kept b.kept;
  parent = λ x. ground (arith, a.parent x, b.parent x);
  awake = λ x y low high own lt ne e. elim (Bool-cases (x == p)) [
    | inl here ↦ ground (arith, a.awake x y, b.kept.state y)
    | inr later ↦ ground (arith, a.parent x, a.kept.chan y, b.awake x y)
  ];
}

reparent_loop-Adopted : (me : ℕ) (t : Procs) (p n : ℕ) → Adopted t (reparent_loop me t p n) me p n
unfolding reparent_loop
reparent_loop-Adopted me t p zero = record {
  kept = Kept-refl t;
  parent = λ x. ground arith;
  awake = λ x y low high own lt ne e. absurd (omega arith);
}
reparent_loop-Adopted me t p (suc n) =
    Adopted-more me p n (adopt-Adopted t me p) (reparent_loop-Adopted me (adopt t me p) (p + 1) n)

-- reparent
pub reparent-Adopted : (t : Procs) (me : ℕ) → Adopted t (reparent t me) me 0 nproc
unfolding reparent
reparent-Adopted t me = reparent_loop-Adopted me t 0 nproc
