-- ===== src/Shell/Steps.antt =====
-- What each function of the parser does with what the functions that it calls return.
use mit6_1810_why_tea_fo.Base.{ℕ, suc, ◌≡◌, true, false, List, [], ◌∷◌, ◌++◌, leb, length, ◌==◌}
use mit6_1810_why_tea_fo.Shell.{
  max_args, skip_space, gettoken, peek, Cmd, pipe, list, back, ok, Redir, redirected, redirection,
  parseredirs, exec_loop, back_loop, parseline, parsepipe, parseblock, parseexec,
}

module _ (fuel : ℕ) (s : List ℕ) where
  pub redirs_end :
      (rs : List Redir)
      → peek (b'<' ∷ b'>' ∷ []) s ≡ false
      → parseredirs (suc fuel) rs s ≡ ok rs (skip_space s)
  unfolding parseredirs
  redirs_end rs p = rw p

  pub redirs_more :
      (rs : List Redir)
      → peek (b'<' ∷ b'>' ∷ []) s ≡ true
      → ((gettoken (gettoken s).rest).ret == b'a') ≡ true
      → parseredirs (suc fuel) rs s
        ≡ parseredirs fuel
            (rs ++ (redirection (gettoken s).ret (gettoken (gettoken s).rest).text ∷ []))
            (gettoken (gettoken s).rest).rest
  unfolding parseredirs
  redirs_more rs p a = rw (p, a)

  pub exec_more :
      (argv : List (List ℕ)) (rs rs' : List Redir) (s' : List ℕ)
      → peek (b'|' ∷ b')' ∷ b'&' ∷ b';' ∷ []) s ≡ false
      → (gettoken s).ret ≡ b'a'
      → leb max_args (length (argv ++ ((gettoken s).text ∷ []))) ≡ false
      → parseredirs fuel rs (gettoken s).rest ≡ ok rs' s'
      → exec_loop (suc fuel) argv rs s ≡ exec_loop fuel (argv ++ ((gettoken s).text ∷ [])) rs' s'
  unfolding exec_loop
  exec_more argv rs rs' s' p a short e = rw (p, a, short, e)

  pub back_end :
      (cmd : Cmd) → peek (b'&' ∷ []) s ≡ false → back_loop (suc fuel) cmd s ≡ ok cmd (skip_space s)
  unfolding back_loop
  back_end cmd p = rw p

  pub back_more :
      (cmd : Cmd)
      → peek (b'&' ∷ []) s ≡ true
      → back_loop (suc fuel) cmd s ≡ back_loop fuel (back cmd) (gettoken s).rest
  unfolding back_loop
  back_more cmd p = rw p

  pub exec_plain :
      (rs : List Redir) (s' : List ℕ)
      → peek (b'(' ∷ []) s ≡ false
      → parseredirs fuel [] s ≡ ok rs s'
      → parseexec (suc fuel) s ≡ exec_loop fuel [] rs s'
  unfolding parseexec
  exec_plain rs s' p e = rw (p, e)

  pub exec_block : peek (b'(' ∷ []) s ≡ true → parseexec (suc fuel) s ≡ parseblock fuel s
  unfolding parseexec
  exec_block p = rw p

  module _ (cmd right : Cmd) (s' s'' : List ℕ) where
    pub block_step :
        (rs : List Redir)
        → peek (b'(' ∷ []) s ≡ true
        → parseline fuel (gettoken s).rest ≡ ok cmd s'
        → peek (b')' ∷ []) s' ≡ true
        → parseredirs fuel [] (gettoken s').rest ≡ ok rs s''
        → parseblock (suc fuel) s ≡ ok (redirected cmd rs) s''
    unfolding parseblock
    block_step rs p e q e' = rw (p, e, q, e')

    pub pipe_end :
        parseexec fuel s ≡ ok cmd s'
        → peek (b'|' ∷ []) s' ≡ false
        → parsepipe (suc fuel) s ≡ ok cmd (skip_space s')
    unfolding parsepipe
    pipe_end e p = rw (e, p)

    pub pipe_more :
        parseexec fuel s ≡ ok cmd s'
        → peek (b'|' ∷ []) s' ≡ true
        → parsepipe fuel (gettoken s').rest ≡ ok right s''
        → parsepipe (suc fuel) s ≡ ok (pipe cmd right) s''
    unfolding parsepipe
    pipe_more e p e' = rw (e, p, e')

  module _ (cmd cmd' right : Cmd) (s' s'' s3 : List ℕ) where
    pub line_end :
        parsepipe fuel s ≡ ok cmd s'
        → back_loop fuel cmd s' ≡ ok cmd' s''
        → peek (b';' ∷ []) s'' ≡ false
        → parseline (suc fuel) s ≡ ok cmd' (skip_space s'')
    unfolding parseline
    line_end e b p = rw (e, b, p)

    pub line_more :
        parsepipe fuel s ≡ ok cmd s'
        → back_loop fuel cmd s' ≡ ok cmd' s''
        → peek (b';' ∷ []) s'' ≡ true
        → parseline fuel (gettoken s'').rest ≡ ok right s3
        → parseline (suc fuel) s ≡ ok (list cmd' right) s3
    unfolding parseline
    line_more e b p e' = rw (e, b, p, e')
