-- ===== src/Shell/Tests.antt =====
-- A command line of every kind of command.
use mit6_1810_why_tea_fo.Base.{◌≡◌, refl, List, ℕ, [], ◌∷◌, arith}
use mit6_1810_why_tea_fo.Shell.{
  exec, redir, pipe, list, back, rdonly, wronly_create_trunc, wronly_create, ok, panic, parsecmd,
}
use mit6_1810_why_tea_fo.Shell.Grammar.{
  finish, from, to, append, argument, plain, block, single, piped, Line, line, sequence, line_text,
  line_cmd,
}
use mit6_1810_why_tea_fo.Shell.Parse.{parsecmd-line}

abbrev sort : List ℕ
sort = b's' ∷ b'o' ∷ b'r' ∷ b't' ∷ []

-- ( ls ) >> o | sort < i > o & ; ls a
abbrev ls : List ℕ
ls = b'l' ∷ b's' ∷ []

abbrev demo : Line
demo =
    sequence
      (piped
        (block (line (single (plain [] (argument ls refl [] ∷ []) (omega arith))) 0)
          (append (b'o' ∷ []) refl ∷ []))
        (single (
          plain [] (argument sort refl (from (b'i' ∷ []) refl ∷ to (b'o' ∷ []) refl ∷ []) ∷ [])
            (omega arith))))
      1
      (line
        (single (plain [] (argument ls refl [] ∷ argument (b'a' ∷ []) refl [] ∷ []) (omega arith)))
        0)

demo_tree :
    line_cmd demo
    ≡ list
        (back (
          pipe (redir (exec (ls ∷ [])) (b'o' ∷ []) wronly_create 1) (
            redir
              (redir (exec (sort ∷ [])) (b'i' ∷ []) rdonly 0)
              (b'o' ∷ [])
              wronly_create_trunc
              1)))
        (exec (ls ∷ (b'a' ∷ []) ∷ []))
unfolding line_cmd
demo_tree = refl

parsecmd-line_example : parsecmd (line_text demo finish) ≡ ok (line_cmd demo) []
parsecmd-line_example = parsecmd-line demo

-- a <
no_file : parsecmd (b'a' ∷ b' ' ∷ b'<' ∷ []) ≡ panic
unfolding parsecmd
no_file = refl
