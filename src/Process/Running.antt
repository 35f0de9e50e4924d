-- ===== src/Process/Running.antt =====
-- Which process runs where: a CPU's process is running, and on no other CPU.
use mit6_1810_why_tea_fo.Base.{ℕ, ◌≡◌, ◌≢◌, Option, none, some, arith}
use mit6_1810_why_tea_fo.Store.{update}
use mit6_1810_why_tea_fo.Process.{Procs, running}

pub record OnCpus (t : Procs) (cpus : ℕ → Option ℕ) : Type 0 where
  pub on : (c p : ℕ) → cpus c ≡ some p → (t p).state ≡ running
  pub one : (c d p : ℕ) → cpus c ≡ some p → cpus d ≡ some p → c ≡ d

module _ {t t' : Procs} {cpus : ℕ → Option ℕ} (h : OnCpus t cpus) where
  pub stays-OnCpus : ((x : ℕ) → (t x).state ≡ running → (t' x).state ≡ running) → OnCpus t' cpus
  stays-OnCpus a = record { on = λ c p e. a p (h.on c p e); one = h.one }

  -- The process of the CPU `c` leaves it.
  pub leaves-OnCpus :
      (c p : ℕ)
      → cpus c ≡ some p
      → ((x : ℕ) → x ≢ p → (t x).state ≡ running → (t' x).state ≡ running)
      → OnCpus t' (update cpus c none)
  unfolding update
  leaves-OnCpus c p here a = record {
    on = λ d x e. ground (arith, h.on d x, h.one c d x, a x);
    one = λ d f x e g. ground (arith, h.one d f x);
  }

  -- A process that does not run comes to the CPU `c`.
  pub arrives-OnCpus :
      (c p : ℕ)
      → (t p).state ≢ running
      → (t' p).state ≡ running
      → ((x : ℕ) → x ≢ p → (t' x).state ≡ (t x).state)
      → OnCpus t' (update cpus c (some p))
  unfolding update
  arrives-OnCpus c p rests runs a = record {
    on = λ d x e. ground (arith, h.on d x, a x);
    one = λ d f x e g. ground (arith, h.one d f x, h.on d x, h.on f x);
  }
