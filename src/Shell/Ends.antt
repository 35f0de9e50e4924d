-- ===== src/Shell/Ends.antt =====
-- What may stand behind a line and behind a pipeline, what peek finds there, and how long texts are.
use mit6_1810_why_tea_fo.Base.{
  ℕ, zero, suc, ◌+◌, ◌≤◌, ◌≡◌, refl, Bool, true, false, List, [], ◌∷◌, length, arith, length-append,
}
use mit6_1810_why_tea_fo.Shell.{skip_space, gettoken, peek}
use mit6_1810_why_tea_fo.Shell.Grammar.{
  Follow, finish, close, amp, semi, bar, follow_text, redirections_text, Argument, argument,
  arguments_text, Simple, plain, block, Pipeline, single, piped, Line, line, sequence, amps_follow,
  simple_text, pipeline_text, line_text,
}
use mit6_1810_why_tea_fo.Shell.Words.{length-redirections}

-- What parseline stops at, and what parsepipe does.
abbrev pub ends : Follow → Bool
ends finish = true
ends (close s) = true
ends (amp s) = false
ends (semi s) = false
ends (bar s) = false

abbrev pub stops : Follow → Bool
stops finish = true
stops (close s) = true
stops (amp s) = true
stops (semi s) = true
stops (bar s) = false

pub peek_bar-follow : (f : Follow) → stops f ≡ true → peek (b'|' ∷ []) (follow_text f) ≡ false
unfolding peek skip_space
peek_bar-follow finish h = refl
peek_bar-follow (close s) h = refl
peek_bar-follow (amp s) h = refl
peek_bar-follow (semi s) h = refl
peek_bar-follow (bar s) h = ground arith

pub peek_semi-follow : (f : Follow) → ends f ≡ true → peek (b';' ∷ []) (follow_text f) ≡ false
unfolding peek skip_space
peek_semi-follow finish h = refl
peek_semi-follow (close s) h = refl
peek_semi-follow (amp s) h = ground arith
peek_semi-follow (semi s) h = ground arith
peek_semi-follow (bar s) h = ground arith

pub peek_amp-follow : (f : Follow) → ends f ≡ true → peek (b'&' ∷ []) (follow_text f) ≡ false
unfolding peek skip_space
peek_amp-follow finish h = refl
peek_amp-follow (close s) h = refl
peek_amp-follow (amp s) h = ground arith
peek_amp-follow (semi s) h = ground arith
peek_amp-follow (bar s) h = ground arith

pub stops-ends : (f : Follow) → ends f ≡ true → stops f ≡ true
stops-ends finish h = refl
stops-ends (close s) h = refl
stops-ends (amp s) h = refl
stops-ends (semi s) h = refl
stops-ends (bar s) h = h

pub stops-amps : (n : ℕ) (f : Follow) → stops f ≡ true → stops (amps_follow n f) ≡ true
stops-amps zero f h = h
stops-amps (suc n) f h = refl

pub length-amps :
    (n : ℕ) (f : Follow) → n + length (follow_text f) ≤ length (follow_text (amps_follow n f))
length-amps zero f = omega arith
length-amps (suc n) f = omega (arith, length-amps n f)

pub gettoken-sign :
    (s : List ℕ)
    → skip_space s ≡ s
    → ((gettoken (b'(' ∷ b' ' ∷ s)).rest ≡ s)
      × (((gettoken (b')' ∷ b' ' ∷ s)).rest ≡ s)
          × (((gettoken (b';' ∷ b' ' ∷ s)).rest ≡ s) × ((gettoken (b'|' ∷ b' ' ∷ s)).rest ≡ s)))
unfolding gettoken skip_space
gettoken-sign s tight = (tight, (tight, (tight, tight)))

pub peek-open : (s : List ℕ) → peek (b'(' ∷ []) (b'(' ∷ b' ' ∷ s) ≡ true
unfolding peek skip_space
peek-open s = refl

pub peek-close : (s : List ℕ) → peek (b')' ∷ []) (b')' ∷ b' ' ∷ s) ≡ true
unfolding peek skip_space
peek-close s = refl

pub peek-bar : (s : List ℕ) → peek (b'|' ∷ []) (b'|' ∷ b' ' ∷ s) ≡ true
unfolding peek skip_space
peek-bar s = refl

pub peek-semi :
    (s : List ℕ)
    → (peek (b';' ∷ []) (b';' ∷ b' ' ∷ s) ≡ true) × (peek (b'&' ∷ []) (b';' ∷ b' ' ∷ s) ≡ false)
unfolding peek skip_space
peek-semi s = (refl, refl)

pub length-arguments :
    (args : List Argument) (s : List ℕ) → length s ≤ length (arguments_text args s)
length-arguments [] s = omega arith
length-arguments (argument w h rs ∷ args) s =
    let rest = arguments_text args s in
    omega (
      arith,
      length-append w (b' ' ∷ redirections_text rs rest),
      length-redirections rs rest,
      length-arguments args s,
    )

-- Behind a construct there is what was there before.
mutual
  unfolding simple_text pipeline_text line_text

  pub length-simple : (c : Simple) (f : Follow) → length (follow_text f) ≤ length (simple_text c f)
  length-simple (plain rs args short) f = omega (
    arith,
    length-redirections rs (arguments_text args (follow_text f)),
    length-arguments args (follow_text f),
  )
  length-simple (block l rs) f = omega (
    arith,
    length-line l (close (b' ' ∷ redirections_text rs (follow_text f))),
    length-redirections rs (follow_text f),
  )

  pub length-pipeline :
      (p : Pipeline) (f : Follow) → length (follow_text f) ≤ length (pipeline_text p f)
  length-pipeline (single c) f = length-simple c f
  length-pipeline (piped c p) f =
      omega (arith, length-simple c (bar (b' ' ∷ pipeline_text p f)), length-pipeline p f)

  pub length-line : (l : Line) (f : Follow) → length (follow_text f) ≤ length (line_text l f)
  length-line (line p amps) f =
      omega (arith, length-pipeline p (amps_follow amps f), length-amps amps f)
  length-line (sequence p amps l) f =
      let f' = semi (b' ' ∷ line_text l f) in
      omega (arith, length-pipeline p (amps_follow amps f'), length-amps amps f', length-line l f)
