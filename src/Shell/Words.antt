-- ===== src/Shell/Words.antt =====
-- The loops of the parser on the redirections, arguments and '&' of the grammar.
use mit6_1810_why_tea_fo.Base.{
  ℕ, zero, suc, ◌+◌, ◌<◌, ◌≤◌, ◌≡◌, refl, ◌∙◌, ap, true, false, List, [], ◌∷◌, ◌++◌, map, length,
  leb, arith, ◌==◌, append_assoc, append-nil, length-append,
}
use mit6_1810_why_tea_fo.Shell.{
  max_args, skip_space, gettoken, peek, Cmd, exec, back, ok, Redir, redirected, redirection,
  parseredirs, exec_loop, back_loop,
}
use mit6_1810_why_tea_fo.Shell.Grammar.{
  is_word, Follow, finish, close, amp, semi, bar, follow_text, Redirection, from, to, append,
  redir_of, redirection_text, redirections_text, Argument, argument, arguments_text, argv_of,
  redirs_of, amps_follow, backs,
}
use mit6_1810_why_tea_fo.Shell.Tokens.{skip_space-word, gettoken-word, peek-word}
use mit6_1810_why_tea_fo.Shell.Steps.{redirs_end, redirs_more, exec_more, back_end, back_more}
use mit6_1810_why_tea_fo.Shell.Tight.{
  skip_space-follow, skip_space-redirections, skip_space-arguments, peek-arguments,
}

-- A redirection with its file.
sign_step :
    (fuel : ℕ) (rs : List Redir) (s : List ℕ) (sign : List ℕ) (tok : ℕ) (w rest : List ℕ)
    → is_word w ≡ true
    → peek (b'<' ∷ b'>' ∷ []) s ≡ true
    → gettoken s ≡ record { ret = tok; text = sign; rest = skip_space (w ++ (b' ' ∷ rest)) }
    → parseredirs (suc fuel) rs s
      ≡ parseredirs fuel (rs ++ (redirection tok w ∷ [])) (skip_space rest)
sign_step fuel rs s sign tok w rest h p e =
    let file : gettoken (gettoken s).rest
        ≡ record { ret = b'a'; text = w; rest = skip_space rest } =
      ap (λ t. gettoken t.rest) e
      ∙ ap gettoken (skip_space-word w (b' ' ∷ rest) h)
      ∙ gettoken-word w rest h in
    redirs_more fuel s rs p (ap (λ t. t.ret == b'a') file) ∙ rw (file, e) refl

redir_step :
    (r : Redirection) (fuel : ℕ) (rs : List Redir) (s : List ℕ)
    → parseredirs (suc fuel) rs (redirection_text r s)
      ≡ parseredirs fuel (rs ++ (redir_of r ∷ [])) (skip_space s)
unfolding gettoken peek skip_space
redir_step (from w h) fuel rs s =
    sign_step fuel rs (redirection_text (from w h) s) (b'<' ∷ []) b'<' w s h refl refl
redir_step (to w h) fuel rs s =
    sign_step fuel rs (redirection_text (to w h) s) (b'>' ∷ []) b'>' w s h refl refl
redir_step (append w h) fuel rs s =
    sign_step fuel rs (redirection_text (append w h) s) (b'>' ∷ b'>' ∷ []) b'+' w s h refl refl

pub parseredirs-redirections :
    (fuel : ℕ) (done : List Redir) (rs : List Redirection) (s : List ℕ)
    → length rs < fuel
    → skip_space s ≡ s
    → peek (b'<' ∷ b'>' ∷ []) s ≡ false
    → parseredirs fuel done (redirections_text rs s) ≡ ok (done ++ map redir_of rs) s
parseredirs-redirections zero done rs s enough tight p = ground arith
parseredirs-redirections (suc fuel) done [] s enough tight p =
    redirs_end fuel s done p ∙ rw (tight, append-nil done) refl
parseredirs-redirections (suc fuel) done (r ∷ rs) s enough tight p =
    let more =
      parseredirs-redirections fuel (done ++ (redir_of r ∷ [])) rs s (omega arith) tight p in
    redir_step r fuel done (redirections_text rs s)
    ∙ rw (skip_space-redirections rs s tight) more
    ∙ ap (λ rs. ok rs s) (append_assoc done (redir_of r ∷ []) (map redir_of rs))

-- A redirection takes characters.
pub length-redirections :
    (rs : List Redirection) (s : List ℕ) → length rs + length s ≤ length (redirections_text rs s)
length-redirections [] s = omega arith
length-redirections (from w h ∷ rs) s =
    omega (arith, length-redirections rs s, length-append w (b' ' ∷ redirections_text rs s))
length-redirections (to w h ∷ rs) s =
    omega (arith, length-redirections rs s, length-append w (b' ' ∷ redirections_text rs s))
length-redirections (append w h ∷ rs) s =
    omega (arith, length-redirections rs s, length-append w (b' ' ∷ redirections_text rs s))

exec_loop-follow :
    (f : Follow) (fuel : ℕ) (argv : List (List ℕ)) (rs : List Redir)
    → exec_loop (suc fuel) argv rs (follow_text f) ≡ ok (redirected (exec argv) rs) (follow_text f)
unfolding exec_loop peek gettoken skip_space
exec_loop-follow finish fuel argv rs = refl
exec_loop-follow (close s) fuel argv rs = refl
exec_loop-follow (amp s) fuel argv rs = refl
exec_loop-follow (semi s) fuel argv rs = refl
exec_loop-follow (bar s) fuel argv rs = refl

exec_step :
    (fuel : ℕ) (argv : List (List ℕ)) (done : List Redir) (w : List ℕ) (h : is_word w ≡ true)
    (rs : List Redirection) (args : List Argument) (f : Follow)
    → suc (length argv) < max_args
    → length rs < fuel
    → exec_loop (suc fuel) argv done (arguments_text (argument w h rs ∷ args) (follow_text f))
      ≡ exec_loop fuel
          (argv ++ (w ∷ []))
          (done ++ map redir_of rs)
          (arguments_text args (follow_text f))
exec_step fuel argv done w h rs args f short enough =
    let rest = arguments_text args (follow_text f) in
    let s = arguments_text (argument w h rs ∷ args) (follow_text f) in
    let tight = skip_space-redirections rs rest (skip_space-arguments args f) in
    let t = gettoken-word w (redirections_text rs rest) h in
    let none =
      peek-word (b'|' ∷ b')' ∷ b'&' ∷ b';' ∷ []) w (b' ' ∷ redirections_text rs rest) h
        (λ c h. ground arith) in
    let few : leb max_args (length (argv ++ ((gettoken s).text ∷ []))) ≡ false =
      rw t (ground (arith, length-append argv (w ∷ []))) in
    let files : parseredirs fuel done (gettoken s).rest ≡ ok (done ++ map redir_of rs) rest =
      rw (t, tight)
        (parseredirs-redirections fuel done rs rest enough (skip_space-arguments args f)
          (peek-arguments args f)) in
    exec_more fuel s argv done (done ++ map redir_of rs) rest none (ap (λ t. t.ret) t) few files
    ∙ ap (λ t. exec_loop fuel (argv ++ (t.text ∷ [])) (done ++ map redir_of rs) rest) t

pub exec_loop-arguments :
    (fuel : ℕ) (argv : List (List ℕ)) (done : List Redir) (args : List Argument) (f : Follow)
    → length argv + length args < max_args
    → length (arguments_text args (follow_text f)) < fuel
    → exec_loop fuel argv done (arguments_text args (follow_text f))
      ≡ ok (redirected (exec (argv ++ argv_of args)) (done ++ redirs_of args)) (follow_text f)
exec_loop-arguments zero argv done args f short enough = ground arith
exec_loop-arguments (suc fuel) argv done [] f short enough =
    exec_loop-follow f fuel argv done ∙ rw (append-nil argv, append-nil done) refl
exec_loop-arguments (suc fuel) argv done (argument w h rs ∷ args) f short enough =
    let rest = arguments_text args (follow_text f) in
    let size = length-append w (b' ' ∷ redirections_text rs rest) in
    let size' = length-redirections rs rest in
    let argv' = argv ++ (w ∷ []) in
    let done' = done ++ map redir_of rs in
    let count = length-append argv (w ∷ []) in
    exec_step fuel argv done w h rs args f (omega arith) (omega arith)
    ∙ exec_loop-arguments fuel argv' done' args f (omega arith) (omega arith)
    ∙ rw
        (
          append_assoc argv (w ∷ []) (argv_of args),
          append_assoc done (map redir_of rs) (redirs_of args),
        )
        refl

pub back_loop-amps :
    (fuel n : ℕ) (cmd : Cmd) (f : Follow)
    → n < fuel
    → peek (b'&' ∷ []) (follow_text f) ≡ false
    → back_loop fuel cmd (follow_text (amps_follow n f)) ≡ ok (backs n cmd) (follow_text f)
unfolding peek gettoken skip_space
back_loop-amps zero n cmd f enough p = ground arith
back_loop-amps (suc fuel) zero cmd f enough p =
    back_end fuel (follow_text f) cmd p ∙ ap (ok cmd) (skip_space-follow f)
back_loop-amps (suc fuel) (suc n) cmd f enough p =
    back_more fuel (follow_text (amps_follow (suc n) f)) cmd refl
    ∙ ap (back_loop fuel (back cmd)) (skip_space-follow (amps_follow n f))
    ∙ back_loop-amps fuel n (back cmd) f (omega arith) p
