-- ===== src/Pipe.antt =====
-- kernel/pipe.c: a pipe's ring of PIPESIZE bytes, and the calls that fill, drain and close it.
--
-- A call runs with pi->lock held from its start, or from its last wakeup, until it returns or goes
-- to sleep: `pipewrite` and `piperead` are one such run. A sleeping call is resumed by another run,
-- from where it stopped. `killed` and `copyin`/`copyout` are what the process table and the page
-- table answer during the run: `killed i` before byte `i`, `copyin a` the byte at the user address
-- `a` or none, `copyout a` whether that address can be written.
pub mod Contents
pub mod Write
pub mod Read
pub mod History
mod Tests
use mit6_1810_why_tea_fo.Base.{
  ℕ, zero, suc, ◌+◌, ◌-◌, ◌%◌, Bool, true, false, not, ◌&&◌, ◌||◌, Option, none, some, List, [],
  ◌∷◌, ◌==◌, if◌then◌else◌, get_or, set, replicate,
}
use mit6_1810_why_tea_fo.Base.Int.{ℤ, pos, pos_part, minus_one}
use mit6_1810_why_tea_fo.Base.Word.{add32}

abbrev pub pipe_size : ℕ
pipe_size = 512

-- `struct pipe`
pub record Pipe : Type 0 where
  pub data' : List ℕ
  pub nread : ℕ
  pub nwrite : ℕ
  pub readopen : Bool
  pub writeopen : Bool

-- The pipe as pipealloc sets it up in a page filled by kalloc.
abbrev pub fresh : Pipe
fresh = record {
  data' = replicate pipe_size 5;
  nread = 0;
  nwrite = 0;
  readopen = true;
  writeopen = true;
}

-- How a run ends.
pub data Outcome : Type 0 where
  returns : ℤ → Outcome
  sleeps : Outcome

-- `i` is the call's loop variable at the end of the run, `bytes` what the run put into the pipe,
-- `woken` whether its end, or the sleep, was preceded by a wakeup of the readers.
pub record WriteRun : Type 0 where
  pub outcome : Outcome
  pub i : ℕ
  pub bytes : List ℕ
  pub woken : Bool
  pub pipe : Pipe

-- `pi->data[pi->nwrite++ % PIPESIZE] = ch;`
unfoldable pub put : Pipe → ℕ → Pipe
put p ch = record p { data' = set p.data' (p.nwrite % pipe_size) ch; nwrite = add32 p.nwrite 1 }

-- `pi->nwrite == pi->nread + PIPESIZE`
abbrev pub is_full : Pipe → Bool
is_full p = p.nwrite == add32 p.nread pipe_size

abbrev pub stopped : Outcome → ℕ → Bool → Pipe → WriteRun
stopped o i woken p = record { outcome = o; i = i; bytes = []; woken = woken; pipe = p }

abbrev pub with_byte : ℕ → WriteRun → WriteRun
with_byte ch r = record r { bytes = ch ∷ r.bytes }

module _ (killed : ℕ → Bool) (copyin : ℕ → Option ℕ) (addr : ℕ) where
  -- the loop of pipewrite at `i`, with `k` bytes to go
  pub write_loop : Pipe → (i k : ℕ) → WriteRun
  write_loop p i zero = stopped (returns (pos i)) i true p
  write_loop p i (suc k) =
      let stored = λ (ch : ℕ). with_byte ch (write_loop (put p ch) (i + 1) k) in
      if not p.readopen || killed i
      then stopped (returns minus_one) i false p
      else if is_full p
      then stopped sleeps i true p
      else elim (copyin (addr + i)) [
        | none ↦ stopped (returns (pos i)) i true p
        | some ch ↦ stored ch
      ]

  -- a run of `pipewrite(pi, addr, n)` that has `i` bytes behind it
  pub pipewrite : Pipe → (n : ℤ) → (i : ℕ) → WriteRun
  unfolding write_loop
  pipewrite p n i = write_loop p i (pos_part n - i)

-- `lost` is what the run took out of the pipe and could not deliver.
pub record ReadRun : Type 0 where
  pub outcome : Outcome
  pub bytes : List ℕ
  pub lost : List ℕ
  pub pipe : Pipe

abbrev pub is_empty : Pipe → Bool
is_empty p = p.nread == p.nwrite

-- `pi->data[pi->nread % PIPESIZE]`
abbrev pub front : Pipe → ℕ
front p = get_or p.data' (p.nread % pipe_size) 0

-- `pi->nread++`
unfoldable pub advance : Pipe → Pipe
advance p = record p { nread = add32 p.nread 1 }

abbrev pub read_end : ℕ → List ℕ → Pipe → ReadRun
read_end i lost p = record { outcome = returns (pos i); bytes = []; lost = lost; pipe = p }

abbrev pub with_read : ℕ → ReadRun → ReadRun
with_read ch r = record r { bytes = ch ∷ r.bytes }

module _ (copyout : ℕ → Bool) (addr : ℕ) where
  -- the copying loop of piperead at `i`, with `k` bytes to go
  pub read_loop : Pipe → (i k : ℕ) → ReadRun
  read_loop p i zero = read_end i [] p
  read_loop p i (suc k) =
      let rest = with_read (front p) (read_loop (advance p) (i + 1) k) in
      if is_empty p
      then read_end i [] p
      else if copyout (addr + i)
      then rest
      else read_end i (front p ∷ []) (advance p)

  -- a run of `piperead(pi, addr, n)`; every run that returns 0 or more wakes the writers
  pub piperead : (killed : Bool) → Pipe → (n : ℤ) → ReadRun
  unfolding read_loop
  piperead killed p n =
      if is_empty p && p.writeopen
      then record {
        outcome = if killed then returns minus_one else sleeps;
        bytes = [];
        lost = [];
        pipe = p;
      }
      else read_loop p 0 (pos_part n)

-- The pipe after `pipeclose(pi, writable)`, and whether its page was given to kfree.
pub pipeclose : Pipe → (writable : Bool) → Pipe × Bool
pipeclose p writable =
    let p' = if writable then record p { writeopen = false } else record p { readopen = false } in
    (p', not p'.readopen && not p'.writeopen)
