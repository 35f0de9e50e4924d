-- ===== src/Shell/Tight.antt =====
-- The texts of the grammar do not begin with white space, and what peek finds at their beginnings.
use mit6_1810_why_tea_fo.Base.{ℕ, ◌≡◌, refl, false, List, [], ◌∷◌, arith}
use mit6_1810_why_tea_fo.Shell.{skip_space, peek}
use mit6_1810_why_tea_fo.Shell.Grammar.{
  Follow, finish, close, amp, semi, bar, follow_text, Redirection, from, to, append,
  redirections_text, Argument, argument, arguments_text, Simple, plain, block, Pipeline, single,
  piped, Line, line, sequence, amps_follow, simple_text, pipeline_text, line_text,
}
use mit6_1810_why_tea_fo.Shell.Tokens.{skip_space-word, peek-word}

pub skip_space-follow : (f : Follow) → skip_space (follow_text f) ≡ follow_text f
unfolding skip_space
skip_space-follow finish = refl
skip_space-follow (close s) = refl
skip_space-follow (amp s) = refl
skip_space-follow (semi s) = refl
skip_space-follow (bar s) = refl

pub skip_space-redirections :
    (rs : List Redirection) (s : List ℕ)
    → skip_space s ≡ s
    → skip_space (redirections_text rs s) ≡ redirections_text rs s
unfolding skip_space
skip_space-redirections [] s h = h
skip_space-redirections (from file w ∷ rs) s h = refl
skip_space-redirections (to file w ∷ rs) s h = refl
skip_space-redirections (append file w ∷ rs) s h = refl

pub skip_space-arguments :
    (args : List Argument) (f : Follow)
    → skip_space (arguments_text args (follow_text f)) ≡ arguments_text args (follow_text f)
skip_space-arguments [] f = skip_space-follow f
skip_space-arguments (argument text w rs ∷ args) f =
    skip_space-word text (b' ' ∷ redirections_text rs (arguments_text args (follow_text f))) w

skip_space-simple : (c : Simple) (f : Follow) → skip_space (simple_text c f) ≡ simple_text c f
unfolding skip_space simple_text
skip_space-simple (plain rs args short) f =
    skip_space-redirections rs (arguments_text args (follow_text f)) (skip_space-arguments args f)
skip_space-simple (block l rs) f = refl

pub skip_space-pipeline :
    (p : Pipeline) (f : Follow) → skip_space (pipeline_text p f) ≡ pipeline_text p f
unfolding pipeline_text
skip_space-pipeline (single c) f = skip_space-simple c f
skip_space-pipeline (piped c p) f = skip_space-simple c (bar (b' ' ∷ pipeline_text p f))

pub skip_space-line : (l : Line) (f : Follow) → skip_space (line_text l f) ≡ line_text l f
unfolding line_text
skip_space-line (line p amps) f = skip_space-pipeline p (amps_follow amps f)
skip_space-line (sequence p amps l) f =
    skip_space-pipeline p (amps_follow amps (semi (b' ' ∷ line_text l f)))

pub peek-follow : (f : Follow) → peek (b'<' ∷ b'>' ∷ []) (follow_text f) ≡ false
unfolding peek skip_space
peek-follow finish = refl
peek-follow (close s) = refl
peek-follow (amp s) = refl
peek-follow (semi s) = refl
peek-follow (bar s) = refl

pub peek-arguments :
    (args : List Argument) (f : Follow)
    → peek (b'<' ∷ b'>' ∷ []) (arguments_text args (follow_text f)) ≡ false
peek-arguments [] f = peek-follow f
peek-arguments (argument text w rs ∷ args) f =
    peek-word (b'<' ∷ b'>' ∷ []) text
      (b' ' ∷ redirections_text rs (arguments_text args (follow_text f))) w (λ c h. ground arith)

peek_block-follow : (f : Follow) → peek (b'(' ∷ []) (follow_text f) ≡ false
unfolding peek skip_space
peek_block-follow finish = refl
peek_block-follow (close s) = refl
peek_block-follow (amp s) = refl
peek_block-follow (semi s) = refl
peek_block-follow (bar s) = refl

-- A command of words and redirections does not begin with a parenthesis.
pub peek-plain :
    (rs : List Redirection) (args : List Argument) (f : Follow)
    → peek (b'(' ∷ []) (redirections_text rs (arguments_text args (follow_text f))) ≡ false
unfolding peek skip_space
peek-plain [] [] f = peek_block-follow f
peek-plain [] (argument text w rs ∷ args) f =
    peek-word (b'(' ∷ []) text (b' ' ∷ redirections_text rs (arguments_text args (follow_text f))) w
      (λ c h. ground arith)
peek-plain (from file w ∷ rs) args f = refl
peek-plain (to file w ∷ rs) args f = refl
peek-plain (append file w ∷ rs) args f = refl
