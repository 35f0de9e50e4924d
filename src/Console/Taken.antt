-- ===== src/Console/Taken.antt =====
-- What a run of consoleread may deliver, and how it may end.
use mit6_1810_why_tea_fo.Base.{
  ℕ, suc, ◌+◌, ◌-◌, ◌≤◌, ◌<◌, ◌≡◌, ◌≢◌, ap, ◌∙◌, Bool, true, false, List, [], ◌∷◌, ◌++◌, arith,
  length,
}
use mit6_1810_why_tea_fo.Base.Int.{pos, minus_one}
use mit6_1810_why_tea_fo.Base.Word.{add32, sub32}
use mit6_1810_why_tea_fo.Console.{Console, returns, sleeps, ReadRun, control, advance, front}
use mit6_1810_why_tea_fo.Console.Ring.{ready, edited, bytes_from, IsValid, bytes_from-mod}

-- Bytes that one read may deliver: no control-D, and a newline at the end alone.
abbrev pub IsLine : List ℕ → Type 0
IsLine [] = Unit
IsLine (x ∷ xs) = (x ≢ control b'D') × (x ≡ b'\n' → xs ≡ []) × IsLine xs

-- The destinations from `dst` on of these bytes can be written.
abbrev pub Stored : (copyout : ℕ → Bool) (dst : ℕ) → List ℕ → Type 0
Stored copyout dst [] = Unit
Stored copyout dst (x ∷ xs) = (copyout dst ≡ true) × Stored copyout (dst + 1) xs

-- How a run ends that began with `n` bytes to go of `target` and lost the bytes `gone`.
pub data Ended (killed : Bool) (copyout : ℕ → Bool) (target dst n : ℕ) (run : ReadRun)
    (gone : List ℕ) : Type 0 where
  complete :
      length run.bytes ≡ n
      → gone ≡ []
      → run.outcome ≡ returns (pos target)
      → Ended killed copyout target dst n run gone
  line_end :
      (before : List ℕ)
      → run.bytes ≡ before ++ (b'\n' ∷ [])
      → gone ≡ []
      → run.outcome ≡ returns (pos (target - n + length run.bytes))
      → Ended killed copyout target dst n run gone
  -- control-D before any byte is taken off
  end_of_file :
      run.bytes ≡ []
      → target ≤ n
      → 0 < n
      → gone ≡ control b'D' ∷ []
      → run.outcome ≡ returns (pos 0)
      → Ended killed copyout target dst n run gone
  -- control-D behind some bytes stays
  put_back :
      (after : List ℕ)
      → ready run.console ≡ control b'D' ∷ after
      → length run.bytes < n
      → 0 < target - n + length run.bytes
      → gone ≡ []
      → run.outcome ≡ returns (pos (target - n + length run.bytes))
      → Ended killed copyout target dst n run gone
  faulted :
      (x : ℕ)
      → gone ≡ x ∷ []
      → x ≢ control b'D'
      → length run.bytes < n
      → copyout (dst + length run.bytes) ≡ false
      → run.outcome ≡ returns (pos (target - n + length run.bytes))
      → Ended killed copyout target dst n run gone
  slept :
      (left : ℕ)
      → left + length run.bytes ≡ n
      → 0 < left
      → ready run.console ≡ []
      → killed ≡ false
      → gone ≡ []
      → run.outcome ≡ sleeps left
      → Ended killed copyout target dst n run gone
  killed_empty :
      length run.bytes < n
      → ready run.console ≡ []
      → killed ≡ true
      → gone ≡ []
      → run.outcome ≡ returns minus_one
      → Ended killed copyout target dst n run gone

-- A run with `n` bytes to go of `target`, into the destination `dst`.
pub record Taken (killed : Bool) (copyout : ℕ → Bool) (target : ℕ) (c : Console) (dst n : ℕ)
    (run : ReadRun) : Type 0 where
  -- what left the ring and was not delivered
  pub gone : List ℕ
  pub order : ready c ≡ run.bytes ++ (gone ++ ready run.console)
  pub valid : IsValid run.console
  pub line : edited run.console ≡ edited c
  pub limit : length run.bytes ≤ n
  pub plain : IsLine run.bytes
  pub stored : Stored copyout dst run.bytes
  pub ended : Ended killed copyout target dst n run gone

module _ {c : Console} (v : IsValid c) (some_char : c.r ≢ c.w) where
  pub advance-ready : ready c ≡ front c ∷ ready (advance c)
  advance-ready =
      let fewer : sub32 c.w c.r ≡ suc (sub32 c.w (add32 c.r 1)) =
        omega (arith, v.read_word, v.write_word) in
      ap (bytes_from c.buf c.r) fewer
      ∙ ap (λ t. front c ∷ t)
          (bytes_from-mod c.buf (c.r + 1) (add32 c.r 1) (sub32 c.w (add32 c.r 1)) (omega arith))

  pub advance-IsValid : IsValid (advance c)
  advance-IsValid = record {
    size = v.size;
    read_word = omega arith;
    write_word = v.write_word;
    edit_word = v.edit_word;
    ordered = omega (arith, v.read_word, v.write_word, v.edit_word, v.ordered, v.bounded);
    bounded = omega (arith, v.read_word, v.write_word, v.edit_word, v.ordered, v.bounded);
    one_line = v.one_line;
  }

  -- control-D put back
  pub restored : (advance c).r ≡ add32 c.r 1 → record (advance c) { r = sub32 (add32 c.r 1) 1 } ≡ c
  restored e =
      let same : sub32 (add32 c.r 1) 1 ≡ c.r = omega (arith, v.read_word) in
      ap (λ r. record c { r = r }) same

pub empty-ready : (c : Console) → c.r ≡ c.w → ready c ≡ []
empty-ready c e =
    let none_left : sub32 c.w c.r ≡ 0 = omega arith in ap (bytes_from c.buf c.r) none_left
