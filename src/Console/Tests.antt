-- ===== src/Console/Tests.antt =====
-- A console with one edited line.
use mit6_1810_why_tea_fo.Base.{
  ℕ, ◌≡◌, refl, true, false, [], ◌∷◌, arith, replicate, length-replicate,
}
use mit6_1810_why_tea_fo.Console.{Console, consoleintr, consoleread, sleeps}
use mit6_1810_why_tea_fo.Console.Ring.{IsValid}
use mit6_1810_why_tea_fo.Console.Edit.{lines}
use mit6_1810_why_tea_fo.Console.Taken.{Taken}
use mit6_1810_why_tea_fo.Console.Read.{consoleread-Taken}
use mit6_1810_why_tea_fo.Console.Typed.{consoleintr_lem}

abbrev small : Console
small = record { buf = replicate 128 0; r = 5; w = 5; e = 7 }

small-IsValid : IsValid small
small-IsValid = record {
  size = length-replicate {A = ℕ} 128 0;
  read_word = omega arith;
  write_word = omega arith;
  edit_word = omega arith;
  ordered = omega arith;
  bounded = omega arith;
  one_line = omega arith;
}

consoleintr_lem_example :
    IsValid (consoleintr small b'\n').console
    × (lines (consoleintr small b'\n').console ≡ (0 ∷ 0 ∷ b'\n' ∷ [], []))
consoleintr_lem_example = consoleintr_lem small b'\n' small-IsValid

read_line :
    (consoleread false (λ _. true) 10 (consoleintr small b'\n').console 70 10).bytes
    ≡ 0 ∷ 0 ∷ b'\n' ∷ []
unfolding consoleintr consoleread
read_line = refl

read_sleeps : (consoleread false (λ _. true) 10 small 70 10).outcome ≡ sleeps 10
unfolding consoleread
read_sleeps = refl

consoleread-Taken_example :
    Taken false (λ _. true) 10 small 70 4 (consoleread false (λ _. true) 10 small 70 4)
consoleread-Taken_example =
    consoleread-Taken false (λ _. true) 10 small 70 4 small-IsValid (omega arith)
