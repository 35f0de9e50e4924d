-- ===== src/Spinlock/Tests.antt =====
-- A critical section with another one inside, on CPU 3 with interrupts on.
use mit6_1810_why_tea_fo.Base.{◌≡◌, refl, true, false, [], ◌∷◌, arith}
use mit6_1810_why_tea_fo.Spinlock.{Cpu, initlock, push_off, acquire, release, ok}
use mit6_1810_why_tea_fo.Spinlock.Nesting.{
  push, pop, run, Matched, IsMasked, Restored, taken_by, critical_lem,
}

abbrev idle : Cpu
idle = record { noff = 0; intena = false; intr = true }

idle-IsMasked : IsMasked idle
idle-IsMasked lt = absurd (omega arith)

inner : Matched (push ∷ pop ∷ [])
inner = Matched.section [] [] Matched.done Matched.done

critical_lem_example :
    (inside : Cpu) × (c' : Cpu) × (acquire initlock idle 3 ≡ ok (taken_by 3, push_off idle))
    × (run (push ∷ pop ∷ []) (push_off idle) ≡ ok inside)
    × (inside.intr ≡ false)
    × (release (taken_by 3) inside 3 ≡ ok (initlock, c'))
    × Restored idle c'
critical_lem_example = critical_lem initlock idle 3 refl inner idle-IsMasked
