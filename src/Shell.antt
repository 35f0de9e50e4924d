-- ===== src/Shell.antt =====
-- The command parser of user/sh.c. The text between `s` and `es` is a list of characters, none of
-- them NUL. A word of the command is its characters from q to eq, which is the C string that
-- nulterminate makes of it; the nodes are values, so that malloc and memset are no part of the
-- model. A panic ends the shell.
pub mod Grammar
pub mod Tokens
pub mod Steps
pub mod Tight
pub mod Words
pub mod Ends
pub mod Parse
mod Tests
use mit6_1810_why_tea_fo.Base.{
  ℕ, zero, suc, ◌+◌, ◌*◌, Bool, true, false, not, ◌&&◌, ◌||◌, Option, none, some, List, [], ◌∷◌,
  ◌++◌, ◌==◌, leb, if◌then◌else◌, elem, length,
}

abbrev pub max_args : ℕ
max_args = 10

abbrev pub whitespace : List ℕ
whitespace = b' ' ∷ 9 ∷ 13 ∷ 10 ∷ 11 ∷ []

abbrev pub symbols : List ℕ
symbols = b'<' ∷ b'|' ∷ b'>' ∷ b'&' ∷ b';' ∷ b'(' ∷ b')' ∷ []

-- `while(s < es && strchr(whitespace, *s)) s++;`
pub skip_space : List ℕ → List ℕ
skip_space [] = []
skip_space (c ∷ s) = if elem c whitespace then skip_space s else c ∷ s

abbrev pub is_word_char : ℕ → Bool
is_word_char c = not (elem c whitespace) && not (elem c symbols)

-- What gettoken's last loop passes over, and what is behind it.
pub word : List ℕ → List ℕ
word [] = []
word (c ∷ s) = if is_word_char c then c ∷ word s else []

pub behind_word : List ℕ → List ℕ
behind_word [] = []
behind_word (c ∷ s) = if is_word_char c then behind_word s else c ∷ s

-- What gettoken returns, the characters from q to eq, and the text behind.
pub record Token : Type 0 where
  pub ret : ℕ
  pub text : List ℕ
  pub rest : List ℕ

-- gettoken at a '>'
abbrev pub greater : List ℕ → Token
greater [] = record { ret = b'>'; text = b'>' ∷ []; rest = [] }
greater (c ∷ s) =
    if c == b'>'
    then record { ret = b'+'; text = b'>' ∷ b'>' ∷ []; rest = skip_space s }
    else record { ret = b'>'; text = b'>' ∷ []; rest = skip_space (c ∷ s) }

-- gettoken behind its first loop
abbrev pub token : List ℕ → Token
token [] = record { ret = 0; text = []; rest = [] }
token (c ∷ s) =
    if c == b'|' || (c == b'(' || (c == b')' || (c == b';' || (c == b'&' || c == b'<'))))
    then record { ret = c; text = c ∷ []; rest = skip_space s }
    else if c == b'>'
    then greater s
    else record { ret = b'a'; text = word (c ∷ s); rest = skip_space (behind_word (c ∷ s)) }

pub gettoken : List ℕ → Token
unfolding skip_space word behind_word
gettoken s = token (skip_space s)

-- `*s && strchr(toks, *s)`
abbrev pub starts_with : (toks s : List ℕ) → Bool
starts_with toks [] = false
starts_with toks (c ∷ s) = elem c toks

-- peek also passes the white space.
pub peek : (toks s : List ℕ) → Bool
unfolding skip_space
peek toks s = starts_with toks (skip_space s)

pub data Mode : Type 0 where
  rdonly : Mode
  wronly_create_trunc : Mode
  wronly_create : Mode

-- `struct cmd` and its five kinds
pub data Cmd : Type 0 where
  exec : (argv : List (List ℕ)) → Cmd
  redir : (cmd : Cmd) (file : List ℕ) (mode : Mode) (fd : ℕ) → Cmd
  pipe : (left right : Cmd) → Cmd
  list : (left right : Cmd) → Cmd
  back : (cmd : Cmd) → Cmd

pub data Result (A : Type 0) : Type 0 where
  ok : (a : A) (s : List ℕ) → Result A
  panic : Result A
  out_of_fuel : Result A

infixl 5 ◌>>=◌
abbrev pub ◌>>=◌ : {A B : Type 0} → Result A → (A → List ℕ → Result B) → Result B
ok a s >>= f = f a s
panic >>= f = panic
out_of_fuel >>= f = out_of_fuel

-- A redirection that parseredirs has read. parseexec goes on adding words to the node inside the
-- redirections, so these are kept beside it and put around it in the end.
pub record Redir : Type 0 where
  pub file : List ℕ
  pub mode : Mode
  pub fd : ℕ

abbrev pub redirected : Cmd → List Redir → Cmd
redirected cmd [] = cmd
redirected cmd (r ∷ rs) = redirected (redir cmd r.file r.mode r.fd) rs

-- the `switch(tok)` of parseredirs
abbrev pub redirection : (tok : ℕ) (file : List ℕ) → Redir
redirection tok file =
    if tok == b'<'
    then record { file = file; mode = rdonly; fd = 0 }
    else if tok == b'>'
    then record { file = file; mode = wronly_create_trunc; fd = 1 }
    else record { file = file; mode = wronly_create; fd = 1 }

-- the loop of parseredirs, with the redirections read so far
pub parseredirs : (fuel : ℕ) (rs : List Redir) (s : List ℕ) → Result (List Redir)
unfolding gettoken peek
parseredirs zero rs s = out_of_fuel
parseredirs (suc fuel) rs s =
    let t = gettoken s in
    let file = gettoken t.rest in
    let again = parseredirs fuel (rs ++ (redirection t.ret file.text ∷ [])) file.rest in
    if not (peek (b'<' ∷ b'>' ∷ []) s)
    then ok rs (skip_space s)
    else if not (file.ret == b'a')
    then panic
    else again

-- the loop of parseexec, with the words and redirections read so far
pub exec_loop : (fuel : ℕ) (argv : List (List ℕ)) (rs : List Redir) (s : List ℕ) → Result Cmd
unfolding gettoken peek parseredirs
exec_loop zero argv rs s = out_of_fuel
exec_loop (suc fuel) argv rs s =
    let t = gettoken s in
    let argv' = argv ++ (t.text ∷ []) in
    let again = parseredirs fuel rs t.rest >>= λ rs' s'. exec_loop fuel argv' rs' s' in
    if peek (b'|' ∷ b')' ∷ b'&' ∷ b';' ∷ []) s
    then ok (redirected (exec argv) rs) (skip_space s)
    else if t.ret == 0
    then ok (redirected (exec argv) rs) t.rest
    else if not (t.ret == b'a') || leb max_args (length argv')
    then panic
    else again

-- the loop of parseline over '&'
pub back_loop : (fuel : ℕ) (cmd : Cmd) (s : List ℕ) → Result Cmd
unfolding gettoken peek
back_loop zero cmd s = out_of_fuel
back_loop (suc fuel) cmd s =
    let again = back_loop fuel (back cmd) (gettoken s).rest in
    if peek (b'&' ∷ []) s then again else ok cmd (skip_space s)

unfoldable mutual
  unfolding gettoken peek parseredirs exec_loop back_loop

  pub parseline : (fuel : ℕ) (s : List ℕ) → Result Cmd
  parseline zero s = out_of_fuel
  parseline (suc fuel) s = parsepipe fuel s >>= λ cmd s. back_loop fuel cmd s >>= λ cmd s.
      let more = parseline fuel (gettoken s).rest >>= λ right s. ok (list cmd right) s in
      if peek (b';' ∷ []) s then more else ok cmd (skip_space s)

  pub parsepipe : (fuel : ℕ) (s : List ℕ) → Result Cmd
  parsepipe zero s = out_of_fuel
  parsepipe (suc fuel) s = parseexec fuel s >>= λ cmd s.
      let more = parsepipe fuel (gettoken s).rest >>= λ right s. ok (pipe cmd right) s in
      if peek (b'|' ∷ []) s then more else ok cmd (skip_space s)

  pub parseblock : (fuel : ℕ) (s : List ℕ) → Result Cmd
  parseblock zero s = out_of_fuel
  parseblock (suc fuel) s =
      let body = parseline fuel (gettoken s).rest >>= λ cmd s.
      let redirs = parseredirs fuel [] (gettoken s).rest >>= λ rs s. ok (redirected cmd rs) s in
      if not (peek (b')' ∷ []) s) then panic else redirs in
      if not (peek (b'(' ∷ []) s) then panic else body

  pub parseexec : (fuel : ℕ) (s : List ℕ) → Result Cmd
  parseexec zero s = out_of_fuel
  parseexec (suc fuel) s =
      let block = parseblock fuel s in
      let plain = parseredirs fuel [] s >>= λ rs s. exec_loop fuel [] rs s in
      if peek (b'(' ∷ []) s then block else plain

abbrev pub all_read : Result Cmd → Result Cmd
all_read (ok cmd []) = ok cmd []
all_read (ok cmd (c ∷ s)) = panic
all_read panic = panic
all_read out_of_fuel = out_of_fuel

-- parsecmd, with four times the text and more for fuel
pub parsecmd : List ℕ → Result Cmd
unfolding parseline
parsecmd s = all_read (parseline (4 * length s + 8) s >>= λ cmd s. ok cmd (skip_space s))
