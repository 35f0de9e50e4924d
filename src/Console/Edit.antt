-- ===== src/Console/Edit.antt =====
-- Line editing: the interrupt handler as a machine over two lists.
use mit6_1810_why_tea_fo.Base.{
  ℕ, suc, ◌+◌, ◌%◌, ◌≡◌, ◌≢◌, refl, ap, sym, ◌∙◌, false, ◌&&◌, ◌||◌, not, List, [], ◌∷◌, ◌++◌,
  arith, ◌==◌, ltb, if◌then◌else◌, length, get_or, All, ne→==,
}
use mit6_1810_why_tea_fo.Base.Word.{sub32}
use mit6_1810_why_tea_fo.Console.{Console, input_buf_size, control, newline_of, retreat, last_char}
use mit6_1810_why_tea_fo.Console.Ring.{ready, edited, bytes_from, IsValid, bytes_from-suc}

-- The finished lines and the line that is edited.
abbrev pub Lines : Type 0
Lines = List ℕ × List ℕ

abbrev pub drop_last : List ℕ → List ℕ
drop_last [] = []
drop_last (x ∷ []) = []
drop_last (x ∷ y ∷ xs) = x ∷ drop_last (y ∷ xs)

-- A character that is kept: it ends the line if it is a newline or control-D, or fills the buffer.
abbrev pub keep_char : Lines → ℕ → Lines
keep_char (rd, ed) x =
    if x == b'\n' || x == control b'D' || length rd + (length ed + 1) == input_buf_size
    then (rd ++ (ed ++ (x ∷ [])), [])
    else (rd, ed ++ (x ∷ []))

-- What a typed character does to the lines.
abbrev pub type_char : Lines → ℕ → Lines
type_char (rd, ed) x =
    if x == control b'P'
    then (rd, ed)
    else if x == control b'U'
    then (rd, [])
    else if x == control b'H' || x == 0x7f
    then (rd, drop_last ed)
    else if not (x == 0) && ltb (length rd + length ed) input_buf_size
    then keep_char (rd, ed) (newline_of x)
    else (rd, ed)

abbrev pub lines : Console → Lines
lines c = (ready c, edited c)

drop_last-append : (xs : List ℕ) (x : ℕ) → drop_last (xs ++ (x ∷ [])) ≡ xs
drop_last-append [] x = refl
drop_last-append (y ∷ []) x = refl
drop_last-append (y ∷ z ∷ xs) x = ap (λ t. y ∷ t) (drop_last-append (z ∷ xs) x)

All-front : (P : ℕ → Type 0) (xs ys : List ℕ) → All P (xs ++ ys) → All P xs
All-front P [] ys h = tt
All-front P (x ∷ xs) ys h = (h.0, All-front P xs ys h.1)

All-back : (P : ℕ → Type 0) (xs ys : List ℕ) → All P (xs ++ ys) → All P ys
All-back P [] ys h = h
All-back P (x ∷ xs) ys h = All-back P xs ys h.1

pub All-snoc : (P : ℕ → Type 0) (xs : List ℕ) (y : ℕ) → All P xs → P y → All P (xs ++ (y ∷ []))
All-snoc P [] y h hy = (hy, tt)
All-snoc P (x ∷ xs) y h hy = (h.0, All-snoc P xs y h.1 hy)

module _ {c : Console} (v : IsValid c) where
  -- cons.e-- over a line that is not empty
  retreat-edited : c.e ≢ c.w → edited c ≡ edited (retreat c) ++ (last_char c ∷ [])
  retreat-edited ne =
      let one_less : sub32 c.e c.w ≡ suc (sub32 (sub32 c.e 1) c.w) =
        omega (arith, v.write_word, v.edit_word) in
      let index : (c.w + sub32 (sub32 c.e 1) c.w) % input_buf_size ≡ sub32 c.e 1 % input_buf_size =
        omega (arith, v.write_word, v.edit_word) in
      ap (bytes_from c.buf c.w) one_less
      ∙ bytes_from-suc c.buf c.w (sub32 (sub32 c.e 1) c.w)
      ∙ ap (λ t. edited (retreat c) ++ (get_or c.buf t 0 ∷ [])) index

  pub retreat-IsValid : c.e ≢ c.w → IsValid (retreat c)
  retreat-IsValid ne = record {
    size = v.size;
    read_word = v.read_word;
    write_word = v.write_word;
    edit_word = omega arith;
    ordered = omega (arith, v.read_word, v.write_word, v.edit_word, v.ordered, v.bounded);
    bounded = omega (arith, v.read_word, v.write_word, v.edit_word, v.ordered, v.bounded);
    one_line =
        All-front (λ x. x ≢ b'\n') (edited (retreat c)) (last_char c ∷ [])
          (rw (← retreat-edited ne) v.one_line);
  }

  pub retreat-lines : c.e ≢ c.w → lines (retreat c) ≡ (ready c, drop_last (edited c))
  retreat-lines ne =
      ap (λ t. (ready c, t))
        (sym (drop_last-append (edited (retreat c)) (last_char c))
          ∙ ap drop_last (sym (retreat-edited ne)))

  pub last-ne_newline : c.e ≢ c.w → (last_char c == b'\n') ≡ false
  last-ne_newline ne =
      ne→== _ _
        (All-back (λ x. x ≢ b'\n') (edited (retreat c)) (last_char c ∷ [])
          (rw (← retreat-edited ne) v.one_line)).0
