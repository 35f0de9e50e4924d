-- ===== src/Process/Burial.antt =====
-- What kexit does to the family: its children go to init, its parent is woken, it is a zombie.
use mit6_1810_why_tea_fo.Base.{
  ℕ, ◌<◌, ◌≡◌, ◌≢◌, ◌∙◌, sym, ap, true, false, ◌&&◌, Option, some, arith, ltb, if◌then◌else◌,
  Bool-cases, inl, inr,
}
use mit6_1810_why_tea_fo.Process.{
  Procs, sleeping, running, zombie, is_sleeping, nproc, initproc, address, address_of, is_proc,
}
use mit6_1810_why_tea_fo.Process.Family.{IsFamily, is_live}
use mit6_1810_why_tea_fo.Process.Reparent.{Kept, Kept-trans, Woken, Adopted}

-- The state behind wakeup, where it was one of these before.
woken_from : {t u : Procs} → Kept t u → (x : ℕ) → is_live (t x).state ≡ is_live (u x).state
woken_from a x = elim (a.state x) [
  | inl same ↦ ap is_live (sym same)
  | inr (was, is) ↦ ap is_live was ∙ sym (ap is_live is)
]

-- A process that is not live is as it was, and one that sleeps slept before.
dead_before :
    {t u : Procs} → Kept t u → (x : ℕ) → is_live (u x).state ≡ false → (t x).state ≡ (u x).state
dead_before a x dead = elim (a.state x) [ inl same ↦ sym same | inr (was, is) ↦ ground arith ]

slept_before : {t u : Procs} → Kept t u → (x : ℕ) → (u x).state ≡ sleeping → (t x).state ≡ sleeping
slept_before a x e = elim (a.state x) [ inl same ↦ sym same ∙ e | inr (was, is) ↦ was ]

not_woken :
    {t u : Procs} → Kept t u → (x : ℕ) → is_sleeping (t x).state ≡ false → (u x).state ≢ sleeping
not_woken a x calm e = let was = slept_before a x e in ground arith

-- wakeup keeps the family.
pub Woken-IsFamily :
    {t u : Procs} {np : ℕ → Option ℕ} {me chan : ℕ}
    → IsFamily t np
    → Woken t u me chan
    → IsFamily u np
Woken-IsFamily h w = record {
  bound = λ x far. ground (arith, h.bound x, w.kept.state x);
  init = ground (arith, h.init, w.kept.state initproc);
  orphan = λ x e. ground (arith, h.orphan x, w.kept.state x, w.parent x);
  parents = λ x q e. ground (arith, h.parents x q, w.kept.state q, w.parent x);
  has = λ x ne a b. ground (arith, h.has x, w.kept.state x, w.parent x);
  embryo = λ p x e. ground (arith, h.embryo p x, w.kept.state x);
  one = h.one;
  awaited = λ x q e a b.
      ground (arith, h.awaited x q, w.kept.state x, w.kept.state q, w.kept.chan q, w.parent x);
}

module _ {t u v w : Procs} {np : ℕ → Option ℕ} (p : ℕ) (h : IsFamily t np)
    (runs : (t p).state ≡ running) (ne : p ≢ initproc) (a : Adopted t u p 0 nproc)
    (b : Woken u v p (address_of (u p).parent)) (others : (x : ℕ) → x ≢ p → w x ≡ v x)
    (dead : (w p).state ≡ zombie) (kin : (w p).parent ≡ (v p).parent) where
  kept : Kept t v
  kept = Kept-trans a.kept b.kept

  -- The parent afterwards.
  new_parent :
      (x : ℕ)
      → (w x).parent
        ≡ (if ltb x nproc && is_proc (t x).parent p then some initproc else (t x).parent)
  new_parent x = ground (arith, others x, a.parent x, b.parent x)

  -- `q` waits for its child `x` afterwards.
  module _ (x q : ℕ) (e : (w x).parent ≡ some q) (s : (w q).state ≡ sleeping)
      (c : (w q).chan ≡ address q) where
    q-ne-p : q ≢ p
    q-ne-p same = ground (arith, dead, s, ap w same)

    slept_v : (v q).state ≡ sleeping
    slept_v = ground (arith, others q q-ne-p)

    slept : (t q).state ≡ sleeping
    slept = slept_before kept q slept_v

    chan_v : (v q).chan ≡ address q
    chan_v = ground (arith, others q q-ne-p)

    low : q < nproc
    low = ground (arith, h.bound q, slept)

    not-own : x ≢ p
    not-own same =
        let parent : (u p).parent ≡ some q = ground (arith, b.parent p, kin, ap w same) in
        let chan : (u q).chan ≡ address_of (u p).parent = ground (arith, b.kept.chan q, chan_v) in
        let calm = b.awake q low q-ne-p chan in ground (arith, slept_v)

    not-adopted : (ltb x nproc && is_proc (t x).parent p) ≡ true → ⊥
    not-adopted own =
        let is_init : q ≡ initproc = ground (arith, new_parent x) in
        let mine : is_proc (t x).parent p ≡ true = ground arith in
        let x_low : x < nproc = ground arith in
        let chan : (t q).chan ≡ address initproc = ground (arith, kept.chan q, chan_v) in
        let calm = a.awake x q (omega arith) x_low mine low q-ne-p chan in
        not_woken b.kept q calm slept_v

    buried-awaited : (w x).state ≢ zombie
    buried-awaited z = elim (Bool-cases (ltb x nproc && is_proc (t x).parent p)) [
      | inl own ↦ not-adopted own
      | inr other ↦
          let before : (t x).parent ≡ some q = ground (arith, new_parent x) in
          let gone : (t x).state ≡ zombie = ground (arith, others x not-own, dead_before kept x) in
          let chan : (t q).chan ≡ address q = ground (arith, kept.chan q, chan_v) in
          h.awaited x q before slept chan gone
    ]

  pub buried-IsFamily : IsFamily w np
  buried-IsFamily = record {
    bound = λ x far. ground (arith, h.bound x, others x, kept.state x);
    init = ground (arith, h.init, others initproc, woken_from kept initproc);
    orphan = λ x e. ground (arith, new_parent x, h.orphan x, others x, dead_before kept x);
    parents = λ x q e. ground (
      arith,
      new_parent x,
      h.init,
      h.parents x q,
      others q,
      others initproc,
      h.bound x,
      h.orphan x,
      woken_from kept initproc,
      woken_from kept q,
    );
    has = λ x other c d.
        ground (arith, new_parent x, h.has x, others x, dead_before kept x, kept.state x);
    embryo = λ q x e. ground (arith, h.embryo q x, others x, kept.state x);
    one = h.one;
    awaited = buried-awaited;
  }
