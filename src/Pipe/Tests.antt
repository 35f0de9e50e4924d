-- ===== src/Pipe/Tests.antt =====
-- Runs over a small pipe, and the pipe theorems at them.
use mit6_1810_why_tea_fo.Base.{
  ℕ, ◌≡◌, refl, some, none, Option, Bool, true, false, List, [], ◌∷◌, ◌++◌, arith, ◌⊎◌, ◌&&◌, ltb,
  if◌then◌else◌, length-replicate,
}
use mit6_1810_why_tea_fo.Base.Int.{pos, minus_one}
use mit6_1810_why_tea_fo.Pipe.{
  fresh, put, advance, is_empty, pipewrite, piperead, pipeclose, returns,
}
use mit6_1810_why_tea_fo.Pipe.Contents.{IsValid, contents}
use mit6_1810_why_tea_fo.Pipe.Write.{Wrote, pipewrite_lem}
use mit6_1810_why_tea_fo.Pipe.Read.{Drained, piperead_lem}
use mit6_1810_why_tea_fo.Pipe.History.{Event, writes, reads, closes, happen, happen-fifo}

abbrev alive : ℕ → Bool
alive i = false

-- user memory holds its own addresses below 1000
abbrev user : ℕ → Option ℕ
user a = if ltb a 1000 then some a else none

abbrev writable : ℕ → Bool
writable a = ltb a 52

fresh-IsValid : IsValid fresh
fresh-IsValid = record {
  size = length-replicate {A = ℕ} 512 5;
  read_word = omega arith;
  write_word = omega arith;
  bounded = omega arith;
}

pipewrite_lem_example : Wrote alive user 70 fresh 0 3 (pipewrite alive user 70 fresh (pos 3) 0)
pipewrite_lem_example = pipewrite_lem alive user 70 fresh 3 0 fresh-IsValid (omega arith)

piperead_lem_example :
    ((is_empty fresh ≡ true)
      × (fresh.writeopen ≡ true)
      × (piperead writable 50 true fresh (pos 4)
          ≡ record { outcome = returns minus_one; bytes = []; lost = []; pipe = fresh }))
    ⊎ (((is_empty fresh && fresh.writeopen) ≡ false)
        × Drained writable 50 fresh 0 4 (piperead writable 50 true fresh (pos 4)))
piperead_lem_example = piperead_lem writable 50 true fresh 4 fresh-IsValid

abbrev script : List Event
script = writes alive user 70 3 0 (omega arith) ∷ reads writable 50 false 9 ∷ closes true ∷ []

-- The third byte finds no writable user memory: it is gone.
byte_lost : (happen script fresh).accepted ≡ 70 ∷ 71 ∷ 72 ∷ []
unfolding happen pipewrite put piperead advance pipeclose
byte_lost = refl

read_loses_byte :
    (piperead writable 50 false (pipewrite alive user 70 fresh (pos 3) 0).pipe (pos 9)).lost
    ≡ 72 ∷ []
unfolding pipewrite put piperead advance
read_loses_byte = refl

happen-fifo_example :
    IsValid (happen script fresh).pipe
    × ([] ++ (happen script fresh).accepted
        ≡ (happen script fresh).consumed ++ contents (happen script fresh).pipe)
happen-fifo_example = happen-fifo script fresh fresh-IsValid
