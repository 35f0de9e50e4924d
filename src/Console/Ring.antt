-- ===== src/Console/Ring.antt =====
-- The bytes of the input ring: the finished lines, and the line that is being edited.
use mit6_1810_why_tea_fo.Base.{
  ℕ, zero, suc, ◌+◌, ◌-◌, ◌%◌, ◌≤◌, ◌<◌, ◌≡◌, ◌≢◌, refl, ap, ◌∙◌, List, [], ◌∷◌, ◌++◌, arith,
  length, get_or, set, get_or-set_ne, All,
}
use mathlib.Core.Path.{ap₂}
use mit6_1810_why_tea_fo.Base.Word.{u32_mod, sub32}
use mit6_1810_why_tea_fo.Console.{Console, input_buf_size}

-- The `n` bytes from counter `i` on.
abbrev pub bytes_from : List ℕ → (i n : ℕ) → List ℕ
bytes_from d i zero = []
bytes_from d i (suc n) = get_or d (i % input_buf_size) 0 ∷ bytes_from d (i + 1) n

-- What readers may take, and what is still edited.
abbrev pub ready : Console → List ℕ
ready c = bytes_from c.buf c.r (sub32 c.w c.r)

abbrev pub edited : Console → List ℕ
edited c = bytes_from c.buf c.w (sub32 c.e c.w)

pub record IsValid (c : Console) : Type 0 where
  pub size : length c.buf ≡ input_buf_size
  pub read_word : c.r < u32_mod
  pub write_word : c.w < u32_mod
  pub edit_word : c.e < u32_mod
  pub ordered : sub32 c.w c.r + sub32 c.e c.w ≡ sub32 c.e c.r
  pub bounded : sub32 c.e c.r ≤ input_buf_size
  pub one_line : All (λ x. x ≢ b'\n') (edited c)

pub bytes_from-mod :
    (d : List ℕ) (i j n : ℕ)
    → i % input_buf_size ≡ j % input_buf_size
    → bytes_from d i n ≡ bytes_from d j n
bytes_from-mod d i j zero e = refl
bytes_from-mod d i j (suc n) e = rw (e, bytes_from-mod d (i + 1) (j + 1) n (omega arith))

-- A write elsewhere in the ring.
pub bytes_from-set_other :
    (d : List ℕ) (i n k x : ℕ)
    → n ≤ k
    → k < input_buf_size
    → bytes_from (set d ((i + k) % input_buf_size) x) i n ≡ bytes_from d i n
bytes_from-set_other d i zero k x le lt = refl
bytes_from-set_other d i (suc n) k x le lt =
    let e : (i + k) % input_buf_size ≡ (i + 1 + (k - 1)) % input_buf_size =
      ap (λ t. t % input_buf_size) (omega arith) in
    ap₂ ◌∷◌ (get_or-set_ne d x 0 (omega arith)) (
      ap (λ j. bytes_from (set d j x) (i + 1) n) e
      ∙ bytes_from-set_other d (i + 1) n (k - 1) x (omega arith) (omega arith))

-- One more byte at the end.
pub bytes_from-suc :
    (d : List ℕ) (i n : ℕ)
    → bytes_from d i (suc n) ≡ bytes_from d i n ++ (get_or d ((i + n) % input_buf_size) 0 ∷ [])
bytes_from-suc d i zero = ap (λ t. get_or d (t % input_buf_size) 0 ∷ []) (omega arith)
bytes_from-suc d i (suc n) =
    ap (λ t. get_or d (i % input_buf_size) 0 ∷ t)
      (bytes_from-suc d (i + 1) n
        ∙ ap (λ t. bytes_from d (i + 1) n ++ (get_or d (t % input_buf_size) 0 ∷ [])) (omega arith))

pub bytes_from-append :
    (d : List ℕ) (i m n : ℕ) → bytes_from d i (m + n) ≡ bytes_from d i m ++ bytes_from d (i + m) n
bytes_from-append d i zero n = ap₂ (bytes_from d) (omega arith) (omega arith)
bytes_from-append d i (suc m) n =
    let e : suc m + n ≡ suc (m + n) = omega arith in
    let e' : i + suc m ≡ i + 1 + m = omega arith in
    rw (e, e') (ap (λ t. get_or d (i % input_buf_size) 0 ∷ t) (bytes_from-append d (i + 1) m n))

pub length-bytes_from : (d : List ℕ) (i n : ℕ) → length (bytes_from d i n) ≡ n
length-bytes_from d i zero = refl
length-bytes_from d i (suc n) = ap suc (length-bytes_from d (i + 1) n)
