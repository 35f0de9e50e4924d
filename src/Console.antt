-- ===== src/Console.antt =====
-- kernel/console.c: the input ring with its three counters, the line editing of the interrupt
-- handler, and the reads of user processes. cons.lock is held throughout each function; consoleread
-- is one run, from its start or its last wakeup until it returns or goes to sleep. What goes to
-- consputc is listed, and the process list, which control-P prints, is not.
pub mod Ring
pub mod Edit
pub mod Typed
pub mod Taken
pub mod Read
mod Tests
use mit6_1810_why_tea_fo.Base.{
  ℕ, zero, suc, ◌+◌, ◌-◌, ◌%◌, Bool, true, false, ◌&&◌, ◌||◌, not, Option, none, some, List, [],
  ◌∷◌, ◌==◌, ltb, if◌then◌else◌, get_or, set,
}
use mit6_1810_why_tea_fo.Base.Int.{ℤ, pos, minus_one}
use mit6_1810_why_tea_fo.Base.Word.{add32, sub32}

abbrev pub input_buf_size : ℕ
input_buf_size = 128

-- C(x), control-x
abbrev pub control : ℕ → ℕ
control x = x - b'@'

abbrev pub backspace : ℕ
backspace = 0x100

-- `cons`: the read, write and edit counters
pub record Console : Type 0 where
  pub buf : List ℕ
  pub r : ℕ
  pub w : ℕ
  pub e : ℕ

-- The console after an input character, what was given to consputc, and whether readers were woken.
pub record Handled : Type 0 where
  pub console : Console
  pub echo : List ℕ
  pub woken : Bool

abbrev pub unchanged : Console → Handled
unchanged c = record { console = c; echo = []; woken = false }

abbrev pub with_echo : ℕ → Handled → Handled
with_echo x h = record h { echo = x ∷ h.echo }

-- `cons.buf[(cons.e-1) % INPUT_BUF_SIZE]`
abbrev pub last_char : Console → ℕ
last_char c = get_or c.buf (sub32 c.e 1 % input_buf_size) 0

-- `cons.e--`
abbrev pub retreat : Console → Console
retreat c = record c { e = sub32 c.e 1 }

-- the loop that kills a line, for at most `k` rounds
pub kill_loop : Console → (k : ℕ) → Handled
kill_loop c zero = unchanged c
kill_loop c (suc k) =
    let rest = with_echo backspace (kill_loop (retreat c) k) in
    if not (c.e == c.w) && not (last_char c == b'\n') then rest else unchanged c

-- `c = (c == '\r') ? '\n' : c;`
abbrev pub newline_of : ℕ → ℕ
newline_of x = if x == b'\r' then b'\n' else x

-- `cons.buf[cons.e++ % INPUT_BUF_SIZE] = c;`
abbrev pub append : Console → ℕ → Console
append c x = record c { buf = set c.buf (c.e % input_buf_size) x; e = add32 c.e 1 }

-- the rest of the default case, for the character `x` that is stored
abbrev pub accept : Console → ℕ → Handled
accept c x =
    let c' = append c x in
    if x == b'\n' || x == control b'D' || sub32 c'.e c'.r == input_buf_size
    then record { console = record c' { w = c'.e }; echo = x ∷ []; woken = true }
    else record { console = c'; echo = x ∷ []; woken = false }

pub consoleintr : Console → ℕ → Handled
unfolding kill_loop
consoleintr c x =
    if x == control b'P'
    then unchanged c
    else if x == control b'U'
    then kill_loop c (sub32 c.e c.w)
    else if x == control b'H' || x == 0x7f
    then (if not (c.e == c.w)
        then record { console = retreat c; echo = backspace ∷ []; woken = false }
        else unchanged c)
    else if not (x == 0) && ltb (sub32 c.e c.r) input_buf_size
    then accept c (newline_of x)
    else unchanged c

-- How a run of consoleread ends; one that sleeps has `left` bytes to go.
pub data Outcome : Type 0 where
  returns : ℤ → Outcome
  sleeps : (left : ℕ) → Outcome

pub record ReadRun : Type 0 where
  pub outcome : Outcome
  pub bytes : List ℕ
  pub console : Console

abbrev pub read_end : Outcome → Console → ReadRun
read_end o c = record { outcome = o; bytes = []; console = c }

abbrev pub with_read : ℕ → ReadRun → ReadRun
with_read x run = record run { bytes = x ∷ run.bytes }

-- `cons.buf[cons.r % INPUT_BUF_SIZE]`, and `cons.r++`
abbrev pub front : Console → ℕ
front c = get_or c.buf (c.r % input_buf_size) 0

abbrev pub advance : Console → Console
advance c = record c { r = add32 c.r 1 }

-- A run of `consoleread(user_dst, dst, n)` with `n` bytes to go of `target`; `killed` is the
-- process's flag, and `copyout a` whether the destination `a` can be written.
module _ (killed : Bool) (copyout : ℕ → Bool) (target : ℕ) where
  pub consoleread : Console → (dst n : ℕ) → ReadRun
  consoleread c dst zero = read_end (returns (pos target)) c
  consoleread c dst (suc n) =
      let x = front c in
      let c' = advance c in
      let rest = with_read x (consoleread c' (dst + 1) n) in
      if c.r == c.w
      then read_end (if killed then returns minus_one else sleeps (suc n)) c
      else if x == control b'D'
      then read_end (returns (pos (target - suc n)))
          (if ltb (suc n) target then record c' { r = sub32 c'.r 1 } else c')
      else if not (copyout dst)
      then read_end (returns (pos (target - suc n))) c'
      else if x == b'\n'
      then with_read x (read_end (returns (pos (target - n))) c')
      else rest
