-- ===== src/Shell/Parse.antt =====
-- parsecmd reads the commands of the grammar back.
use mit6_1810_why_tea_fo.Base.{
  ℕ, zero, suc, ◌+◌, ◌*◌, ◌<◌, ◌≤◌, ◌≡◌, refl, ◌∙◌, ap, true, List, [], ◌∷◌, map, length, arith,
}
use mit6_1810_why_tea_fo.Shell.{
  max_args, skip_space, ok, parseredirs, parseline, parsepipe, parseexec, parsecmd,
}
use mit6_1810_why_tea_fo.Shell.Grammar.{
  Follow, finish, close, semi, bar, follow_text, redir_of, Redirection, redirections_text, Argument,
  arguments_text, Simple, plain, block, Pipeline, single, piped, Line, line, sequence, amps_follow,
  backs, simple_text, pipeline_text, line_text, simple_cmd, pipeline_cmd, line_cmd,
}
use mit6_1810_why_tea_fo.Shell.Steps.{
  exec_plain, exec_block, block_step, pipe_end, pipe_more, line_end, line_more,
}
use mit6_1810_why_tea_fo.Shell.Tight.{
  skip_space-follow, skip_space-redirections, skip_space-arguments, skip_space-pipeline,
  skip_space-line, peek-follow, peek-arguments, peek-plain,
}
use mit6_1810_why_tea_fo.Shell.Words.{
  parseredirs-redirections, length-redirections, exec_loop-arguments, back_loop-amps,
}
use mit6_1810_why_tea_fo.Shell.Ends.{
  ends, gettoken-sign, length-amps, length-line, length-pipeline, length-simple, peek-bar,
  peek-close, peek-open, peek-semi, peek_amp-follow, peek_bar-follow, peek_semi-follow, stops,
  stops-amps, stops-ends,
}

parse_plain :
    (fuel : ℕ) (rs : List Redirection) (args : List Argument) (short : length args < max_args)
    (f : Follow)
    → 4 * length (simple_text (plain rs args short) f) + 6 ≤ fuel
    → parseexec fuel (simple_text (plain rs args short) f)
      ≡ ok (simple_cmd (plain rs args short)) (follow_text f)
unfolding simple_text simple_cmd
parse_plain zero rs args short f enough = ground arith
parse_plain (suc fuel) rs args short f enough =
    let rest = arguments_text args (follow_text f) in
    let size = length-redirections rs rest in
    let files =
      parseredirs-redirections fuel [] rs rest (omega arith) (skip_space-arguments args f)
        (peek-arguments args f) in
    exec_plain fuel (redirections_text rs rest) (map redir_of rs) rest (peek-plain rs args f) files
    ∙ exec_loop-arguments fuel [] (map redir_of rs) args f (omega arith) (omega arith)

-- The fuel is more at each function that a line goes through, and less by four at each character.
mutual
  unfolding simple_text pipeline_text line_text simple_cmd pipeline_cmd line_cmd

  parse_simple :
      (fuel : ℕ) (c : Simple) (f : Follow)
      → 4 * length (simple_text c f) + 6 ≤ fuel
      → parseexec fuel (simple_text c f) ≡ ok (simple_cmd c) (follow_text f)
  parse_simple fuel (plain rs args short) f enough = parse_plain fuel rs args short f enough
  parse_simple zero (block l rs) f enough = ground arith
  parse_simple (suc zero) (block l rs) f enough = ground arith
  parse_simple (suc (suc fuel)) (block l rs) f enough =
      let redirs = redirections_text rs (follow_text f) in
      let f' = close (b' ' ∷ redirs) in
      let s = simple_text (block l rs) f in
      let (first, others) = gettoken-sign (line_text l f') (skip_space-line l f') in
      let (a, (closed, b)) =
        gettoken-sign redirs (skip_space-redirections rs (follow_text f) (skip_space-follow f)) in
      let body = parse_line fuel l f' refl (omega arith) in
      let size = length-line l f' in
      let size' = length-redirections rs (follow_text f) in
      let files =
        parseredirs-redirections fuel [] rs (follow_text f) (omega arith) (skip_space-follow f)
          (peek-follow f) in
      exec_block (suc fuel) s (peek-open (line_text l f'))
      ∙ block_step fuel s (line_cmd l) (line_cmd l) (follow_text f') (follow_text f)
          (map redir_of rs) (peek-open (line_text l f')) (ap (parseline fuel) first ∙ body)
          (peek-close redirs) (ap (parseredirs fuel []) closed ∙ files)

  parse_pipeline :
      (fuel : ℕ) (p : Pipeline) (f : Follow)
      → stops f ≡ true
      → 4 * length (pipeline_text p f) + 7 ≤ fuel
      → parsepipe fuel (pipeline_text p f) ≡ ok (pipeline_cmd p) (follow_text f)
  parse_pipeline zero p f h enough = ground arith
  parse_pipeline (suc fuel) (single c) f h enough =
      pipe_end fuel (simple_text c f) (simple_cmd c) (simple_cmd c) (follow_text f) []
        (parse_simple fuel c f (omega arith)) (peek_bar-follow f h)
      ∙ ap (ok (simple_cmd c)) (skip_space-follow f)
  parse_pipeline (suc fuel) (piped c p) f h enough =
      let f' = bar (b' ' ∷ pipeline_text p f) in
      let (a, (b, (d, next))) = gettoken-sign (pipeline_text p f) (skip_space-pipeline p f) in
      let size = length-simple c f' in
      pipe_more fuel (simple_text c f') (simple_cmd c) (pipeline_cmd p) (follow_text f')
        (follow_text f) (parse_simple fuel c f' (omega arith)) (peek-bar (pipeline_text p f))
        (ap (parsepipe fuel) next ∙ parse_pipeline fuel p f h (omega arith))

  parse_line :
      (fuel : ℕ) (l : Line) (f : Follow)
      → ends f ≡ true
      → 4 * length (line_text l f) + 8 ≤ fuel
      → parseline fuel (line_text l f) ≡ ok (line_cmd l) (follow_text f)
  parse_line zero l f h enough = ground arith
  parse_line (suc fuel) (line p amps) f h enough =
      let f' = amps_follow amps f in
      let size = length-pipeline p f' in
      let size' = length-amps amps f in
      line_end fuel (pipeline_text p f') (pipeline_cmd p) (backs amps (pipeline_cmd p))
        (pipeline_cmd p) (follow_text f') (follow_text f) []
        (parse_pipeline fuel p f' (stops-amps amps f (stops-ends f h)) (omega arith))
        (back_loop-amps fuel amps (pipeline_cmd p) f (omega arith) (peek_amp-follow f h))
        (peek_semi-follow f h)
      ∙ ap (ok (backs amps (pipeline_cmd p))) (skip_space-follow f)
  parse_line (suc fuel) (sequence p amps l) f h enough =
      let end = semi (b' ' ∷ line_text l f) in
      let f' = amps_follow amps end in
      let size = length-pipeline p f' in
      let size' = length-amps amps end in
      let (a, (b, (next, d))) = gettoken-sign (line_text l f) (skip_space-line l f) in
      line_more fuel (pipeline_text p f') (pipeline_cmd p) (backs amps (pipeline_cmd p))
        (line_cmd l) (follow_text f') (follow_text end) (follow_text f)
        (parse_pipeline fuel p f' (stops-amps amps end refl) (omega arith))
        (back_loop-amps fuel amps (pipeline_cmd p) end (omega arith) (peek-semi (line_text l f)).1)
        (peek-semi (line_text l f)).0
        (ap (parseline fuel) next ∙ parse_line fuel l f h (omega arith))

-- parsecmd of a line as the grammar writes it neither panics nor runs out of fuel: it returns the
-- tree of the line, with the words in their order and the redirections from the inside out. A
-- line of the grammar has commands of at most nine words with redirections before and behind the
-- words, blocks in parentheses with redirections behind them, pipes, lists with ';', and '&',
-- with one blank behind every word and sign.
pub parsecmd-line : (l : Line) → parsecmd (line_text l finish) ≡ ok (line_cmd l) []
unfolding parsecmd skip_space
parsecmd-line l =
    rw (parse_line (4 * length (line_text l finish) + 8) l finish refl (omega arith)) refl
