-- ===== src/Process/Wakeup.antt =====
-- A loop over the table as a map, and wakeup as such.
use mit6_1810_why_tea_fo.Base.{
  ℕ, zero, suc, ◌+◌, ◌≤◌, ◌<◌, ◌≡◌, refl, ◌∙◌, false, arith, ◌==◌, ltb, if◌then◌else◌, Bool-cases,
  inl, inr, ==→eq, ==→ne,
}
use mit6_1810_why_tea_fo.Store.{update}
use mit6_1810_why_tea_fo.Process.{Proc, Procs, nproc, woken, for_procs, wakeup}

for_procs_below :
    (body : ℕ → Proc → Proc) (t : Procs) (p n x : ℕ) → x < p → for_procs body t p n x ≡ t x
unfolding for_procs update
for_procs_below body t p zero x h = refl
for_procs_below body t p (suc n) x h =
    for_procs_below body (update t p (body p (t p))) (p + 1) n x (omega arith)
    ∙ (let e : (x == p) ≡ false = ground arith in rw e)

for_procs_at :
    (body : ℕ → Proc → Proc) (t : Procs) (p n x : ℕ)
    → p ≤ x
    → x < p + n
    → for_procs body t p n x ≡ body x (t x)
unfolding for_procs update
for_procs_at body t p zero x low high = absurd (omega arith)
for_procs_at body t p (suc n) x low high = elim (Bool-cases (x == p)) [
  | inl e ↦
      let same : x ≡ p = ==→eq _ _ e in
      for_procs_below body (update t p (body p (t p))) (p + 1) n x (omega arith) ∙ rw (e, same) refl
  | inr e ↦
      let other = ==→ne _ _ e in
      for_procs_at body (update t p (body p (t p))) (p + 1) n x (omega arith) (omega arith) ∙ rw e
]

for_procs_above :
    (body : ℕ → Proc → Proc) (t : Procs) (p n x : ℕ) → p + n ≤ x → for_procs body t p n x ≡ t x
unfolding for_procs update
for_procs_above body t p zero x h = refl
for_procs_above body t p (suc n) x h =
    for_procs_above body (update t p (body p (t p))) (p + 1) n x (omega arith)
    ∙ (let e : (x == p) ≡ false = ground arith in rw e)

-- A loop over the whole table.
pub for_procs_lem :
    (body : ℕ → Proc → Proc) (t : Procs) (x : ℕ)
    → for_procs body t 0 nproc x ≡ (if ltb x nproc then body x (t x) else t x)
for_procs_lem body t x = elim (Bool-cases (ltb x nproc)) [
  | inl e ↦ for_procs_at body t 0 nproc x (omega arith) (ground arith) ∙ rw e
  | inr e ↦ for_procs_above body t 0 nproc x (ground arith) ∙ rw e
]

pub wakeup_lem :
    (t : Procs) (me chan x : ℕ)
    → wakeup t me chan x ≡ (if ltb x nproc then woken me chan x (t x) else t x)
unfolding wakeup
wakeup_lem t me chan x = for_procs_lem (woken me chan) t x
