-- ===== src/Spinlock/Nesting.antt =====
-- Nested critical sections: interrupts stay off inside, and are as before behind the outermost one.
use mit6_1810_why_tea_fo.Base.{
  ℕ, ◌-◌, ◌<◌, ◌≡◌, refl, true, false, some, List, [], ◌∷◌, ◌++◌, ◌&&◌, arith, ◌==◌, if◌then◌else◌,
  ◌∙◌, ltb, ge→ltb, ==_refl,
}
use mit6_1810_why_tea_fo.Spinlock.{
  Cpu, Spinlock, initlock, Result, ok, spins, panic, push_off, pop_off, acquire, release,
}

pub data Op : Type 0 where
  push : Op
  pop : Op

abbrev pub and_then : Result Cpu → (Cpu → Result Cpu) → Result Cpu
and_then (ok c) f = f c
and_then (spins c) f = spins c
and_then panic f = panic

abbrev pub one : Op → Cpu → Result Cpu
one push c = ok (push_off c)
one pop c = pop_off c

abbrev pub run : List Op → Cpu → Result Cpu
run [] c = ok c
run (o ∷ os) c = and_then (one o c) (run os)

-- Every push_off has its pop_off.
pub data Matched : List Op → Type 0 where
  done : Matched []
  section : (xs ys : List Op) → Matched xs → Matched ys → Matched (push ∷ (xs ++ (pop ∷ ys)))

pub record Restored (c c' : Cpu) : Type 0 where
  pub noff : c'.noff ≡ c.noff
  pub intr : c'.intr ≡ c.intr
  pub intena : 0 < c.noff → c'.intena ≡ c.intena

-- Between a push_off and its pop_off no interrupt is taken.
abbrev pub IsMasked : Cpu → Type 0
IsMasked c = 0 < c.noff → c.intr ≡ false

and_then_assoc :
    (r : Result Cpu) (f g h : Cpu → Result Cpu)
    → ((c : Cpu) → f c ≡ and_then (g c) h)
    → and_then r f ≡ and_then (and_then r g) h
and_then_assoc (ok c) f g h e = e c
and_then_assoc (spins c) f g h e = refl
and_then_assoc panic f g h e = refl

run-append : (xs ys : List Op) (c : Cpu) → run (xs ++ ys) c ≡ and_then (run xs c) (run ys)
run-append [] ys c = refl
run-append (o ∷ xs) ys c =
    and_then_assoc (one o c) (run (xs ++ ys)) (run xs) (run ys) (run-append xs ys)

-- The pop_off of the section that `push_off c` began.
pop_lem :
    (c inside : Cpu)
    → IsMasked c
    → Restored (push_off c) inside
    → (c' : Cpu) × (pop_off inside ≡ ok c') × Restored c c'
unfolding push_off pop_off
pop_lem c inside h r =
    let off = r.intr in
    let count = r.noff in
    let kept = r.intena (omega arith) in
    let a : ltb inside.noff 1 ≡ false = ge→ltb _ _ (omega (arith, count)) in
    (
      record inside {
        noff = inside.noff - 1;
        intr = if (inside.noff - 1 == 0) && inside.intena then true else inside.intr;
      },
      rw (off, a),
      record {
        noff = omega (arith, count);
        intr = ground (arith, count, kept, off, h);
        intena = λ lt. ground (arith, count, kept, off);
      },
    )

Restored-trans : {a b c : Cpu} → Restored a b → Restored b c → Restored a c
Restored-trans r s = record {
  noff = s.noff ∙ r.noff;
  intr = s.intr ∙ r.intr;
  intena = λ lt. s.intena (omega (arith, r.noff)) ∙ r.intena lt;
}

-- Matched sections do not panic, and leave the CPU as it was, less `intena` outside all sections.
pub matched_lem :
    {os : List Op} (c : Cpu)
    → Matched os
    → IsMasked c
    → (c' : Cpu) × (run os c ≡ ok c') × Restored c c'
unfolding push_off
matched_lem c Matched.done h = (c, refl, record { noff = refl; intr = refl; intena = λ lt. refl })
matched_lem c (Matched.section xs ys mx my) h =
    let (c1, e1, r1) = matched_lem (push_off c) mx (λ lt. refl) in
    let (c2, e2, r2) = pop_lem c c1 h r1 in
    let (c3, e3, r3) = matched_lem c2 my (λ lt. r2.intr ∙ h (omega (arith, r2.noff))) in
    (
      c3,
      run-append xs (pop ∷ ys) (push_off c) ∙ rw (e1, and_then, run, one, e2) e3,
      Restored-trans r2 r3,
    )

abbrev pub taken_by : ℕ → Spinlock
taken_by me = record { locked = true; cpu = some me }

-- acquire of a free lock takes it, and interrupts are off when any matched sections inside have
-- ended; release by the same CPU then frees the lock, and brings the depth of the nesting and the
-- state of the interrupts back to what they were before acquire, if interrupts were not on inside a
-- section. No call panics or spins.
pub critical_lem :
    {os : List Op} (lk : Spinlock) (c : Cpu) (me : ℕ)
    → lk.locked ≡ false
    → Matched os
    → IsMasked c
    → (inside : Cpu) × (c' : Cpu) × (acquire lk c me ≡ ok (taken_by me, push_off c))
      × (run os (push_off c) ≡ ok inside)
      × (inside.intr ≡ false)
      × (release (taken_by me) inside me ≡ ok (initlock, c'))
      × Restored c c'
unfolding acquire release push_off
critical_lem {os} lk c me free matched h =
    let (inside, e, r) = matched_lem (push_off c) matched (λ lt. refl) in
    let (c', e', r') = pop_lem c inside h r in
    (inside, c', rw free, e, r.intr, rw (==_refl me, e'), r')
