-- ===== src/Shell/Grammar.antt =====
-- The commands that the shell reads, as they are written, with one blank behind every token.
use mit6_1810_why_tea_fo.Base.{
  ℕ, zero, suc, ◌<◌, ◌≡◌, Bool, true, false, ◌&&◌, List, [], ◌∷◌, ◌++◌, map, length,
}
use mit6_1810_why_tea_fo.Shell.{
  Cmd, exec, pipe, list, back, Redir, rdonly, wronly_create_trunc, wronly_create, redirected,
  is_word_char, max_args,
}

abbrev pub all_word_chars : List ℕ → Bool
all_word_chars [] = true
all_word_chars (c ∷ s) = is_word_char c && all_word_chars s

abbrev pub is_word : List ℕ → Bool
is_word [] = false
is_word (c ∷ s) = is_word_char c && all_word_chars s

-- What may stand behind a command: the end of the text, or a symbol and more.
pub data Follow : Type 0 where
  finish : Follow
  close : List ℕ → Follow
  amp : List ℕ → Follow
  semi : List ℕ → Follow
  bar : List ℕ → Follow

abbrev pub follow_text : Follow → List ℕ
follow_text finish = []
follow_text (close s) = b')' ∷ s
follow_text (amp s) = b'&' ∷ s
follow_text (semi s) = b';' ∷ s
follow_text (bar s) = b'|' ∷ s

pub data Redirection : Type 0 where
  from : (file : List ℕ) → is_word file ≡ true → Redirection
  to : (file : List ℕ) → is_word file ≡ true → Redirection
  append : (file : List ℕ) → is_word file ≡ true → Redirection

abbrev pub redir_of : Redirection → Redir
redir_of (from file h) = record { file = file; mode = rdonly; fd = 0 }
redir_of (to file h) = record { file = file; mode = wronly_create_trunc; fd = 1 }
redir_of (append file h) = record { file = file; mode = wronly_create; fd = 1 }

abbrev pub redirection_text : Redirection → List ℕ → List ℕ
redirection_text (from file h) s = b'<' ∷ b' ' ∷ (file ++ (b' ' ∷ s))
redirection_text (to file h) s = b'>' ∷ b' ' ∷ (file ++ (b' ' ∷ s))
redirection_text (append file h) s = b'>' ∷ b'>' ∷ b' ' ∷ (file ++ (b' ' ∷ s))

abbrev pub redirections_text : List Redirection → List ℕ → List ℕ
redirections_text [] s = s
redirections_text (r ∷ rs) s = redirection_text r (redirections_text rs s)

-- A word, and the redirections behind it.
pub data Argument : Type 0 where
  argument : (text : List ℕ) → is_word text ≡ true → List Redirection → Argument

abbrev pub argument_text : Argument → List ℕ → List ℕ
argument_text (argument text h rs) s = text ++ (b' ' ∷ redirections_text rs s)

abbrev pub arguments_text : List Argument → List ℕ → List ℕ
arguments_text [] s = s
arguments_text (a ∷ args) s = argument_text a (arguments_text args s)

abbrev pub argv_of : List Argument → List (List ℕ)
argv_of [] = []
argv_of (argument text h rs ∷ args) = text ∷ argv_of args

abbrev pub redirs_of : List Argument → List Redir
redirs_of [] = []
redirs_of (argument text h rs ∷ args) = map redir_of rs ++ redirs_of args

mutual
  pub data Simple : Type 0 where
    plain : List Redirection → (args : List Argument) → length args < max_args → Simple
    block : Line → List Redirection → Simple

  pub data Pipeline : Type 0 where
    single : Simple → Pipeline
    piped : Simple → Pipeline → Pipeline

  -- a pipeline, how many '&' stand behind it, and maybe another line behind a ';'
  pub data Line : Type 0 where
    line : Pipeline → (amps : ℕ) → Line
    sequence : Pipeline → (amps : ℕ) → Line → Line

abbrev pub amps_follow : ℕ → Follow → Follow
amps_follow zero f = f
amps_follow (suc n) f = amp (b' ' ∷ follow_text (amps_follow n f))

unfoldable mutual
  pub simple_text : Simple → Follow → List ℕ
  simple_text (plain rs args short) f = redirections_text rs (arguments_text args (follow_text f))
  simple_text (block l rs) f =
      b'(' ∷ b' ' ∷ line_text l (close (b' ' ∷ redirections_text rs (follow_text f)))

  pub pipeline_text : Pipeline → Follow → List ℕ
  pipeline_text (single s) f = simple_text s f
  pipeline_text (piped s p) f = simple_text s (bar (b' ' ∷ pipeline_text p f))

  pub line_text : Line → Follow → List ℕ
  line_text (line p amps) f = pipeline_text p (amps_follow amps f)
  line_text (sequence p amps l) f = pipeline_text p (amps_follow amps (semi (b' ' ∷ line_text l f)))

abbrev pub backs : ℕ → Cmd → Cmd
backs zero cmd = cmd
backs (suc n) cmd = backs n (back cmd)

-- The tree that stands for it.
unfoldable mutual
  pub simple_cmd : Simple → Cmd
  simple_cmd (plain rs args short) =
      redirected (exec (argv_of args)) (map redir_of rs ++ redirs_of args)
  simple_cmd (block l rs) = redirected (line_cmd l) (map redir_of rs)

  pub pipeline_cmd : Pipeline → Cmd
  pipeline_cmd (single s) = simple_cmd s
  pipeline_cmd (piped s p) = pipe (simple_cmd s) (pipeline_cmd p)

  pub line_cmd : Line → Cmd
  line_cmd (line p amps) = backs amps (pipeline_cmd p)
  line_cmd (sequence p amps l) = list (backs amps (pipeline_cmd p)) (line_cmd l)
