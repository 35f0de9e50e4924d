-- ===== src/Spinlock.antt =====
-- kernel/spinlock.c on one CPU: initlock, push_off, pop_off, holding, acquire, release. What other
-- CPUs do is in the lock's fields. acquire is one round of its spinning loop; the name of a lock and
-- the ordering of the memory are no part of the model.
pub mod Nesting
mod Tests
use mit6_1810_why_tea_fo.Base.{
  ℕ, ◌+◌, ◌-◌, Bool, true, false, not, ◌&&◌, Option, none, some, ◌==◌, ltb, if◌then◌else◌,
}

-- `struct cpu`, and whether the CPU takes interrupts (the SIE bit of sstatus)
pub record Cpu : Type 0 where
  pub noff : ℕ
  pub intena : Bool
  pub intr : Bool

-- `struct spinlock`, with the number of the CPU that `cpu` points to
pub record Spinlock : Type 0 where
  pub locked : Bool
  pub cpu : Option ℕ

abbrev pub initlock : Spinlock
initlock = record { locked = false; cpu = none }

pub data Result (A : Type 0) : Type 0 where
  ok : A → Result A
  spins : A → Result A
  panic : Result A

unfoldable pub push_off : Cpu → Cpu
push_off c = record {
  noff = c.noff + 1;
  intena = if c.noff == 0 then c.intr else c.intena;
  intr = false;
}

unfoldable pub pop_off : Cpu → Result Cpu
pop_off c =
    let left = c.noff - 1 in
    if c.intr
    then panic
    else if ltb c.noff 1
    then panic
    else ok (record c { noff = left; intr = if (left == 0) && c.intena then true else c.intr })

abbrev pub is_cpu : Option ℕ → ℕ → Bool
is_cpu none me = false
is_cpu (some i) me = i == me

abbrev pub holding : Spinlock → (me : ℕ) → Bool
holding lk me = lk.locked && is_cpu lk.cpu me

-- `me` is the number of the CPU that runs.
pub acquire : Spinlock → Cpu → (me : ℕ) → Result (Spinlock × Cpu)
unfolding push_off
acquire lk c me =
    let c' = push_off c in
    if holding lk me
    then panic
    else if lk.locked
    then spins (lk, c')
    else ok (record { locked = true; cpu = some me }, c')

abbrev pub released : Result Cpu → Result (Spinlock × Cpu)
released (ok c) = ok (record { locked = false; cpu = none }, c)
released (spins c) = spins (record { locked = false; cpu = none }, c)
released panic = panic

pub release : Spinlock → Cpu → (me : ℕ) → Result (Spinlock × Cpu)
unfolding pop_off
release lk c me = if not (holding lk me) then panic else released (pop_off c)
