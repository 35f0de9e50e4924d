-- ===== src/Console/Typed.antt =====
-- The interrupt handler refines the editing of lines.
use mit6_1810_why_tea_fo.Base.{
  ℕ, zero, suc, ◌+◌, ◌%◌, ◌<◌, ◌≡◌, ◌≢◌, refl, ap, sym, ◌∙◌, Bool, false, ◌&&◌, ◌||◌, not, List, [],
  ◌∷◌, ◌++◌, arith, ◌==◌, ltb, length, length-set, get_or, set, get_or-set_self, Bool-cases, inl,
  inr, ==→eq, ==→ne, ne→==,
}
use mathlib.Core.Path.{ap₂}
use mit6_1810_why_tea_fo.Base.Word.{add32, sub32}
use mit6_1810_why_tea_fo.Console.{
  Console, input_buf_size, control, newline_of, retreat, append, accept, kill_loop, consoleintr,
}
use mit6_1810_why_tea_fo.Console.Ring.{
  ready, edited, bytes_from, IsValid, bytes_from-mod, bytes_from-set_other, bytes_from-suc,
  bytes_from-append, length-bytes_from,
}
use mit6_1810_why_tea_fo.Console.Edit.{
  drop_last, keep_char, type_char, lines, All-snoc, retreat-IsValid, retreat-lines, last-ne_newline,
}

-- The loop of control-U empties the edited line.
kill_loop_lem :
    (k : ℕ) (c : Console)
    → IsValid c
    → sub32 c.e c.w ≡ k
    → IsValid (kill_loop c k).console × (lines (kill_loop c k).console ≡ (ready c, []))
unfolding kill_loop
kill_loop_lem zero c v e = (v, ap (λ n. (ready c, bytes_from c.buf c.w n)) e)
kill_loop_lem (suc k) c v e =
    let ne : c.e ≢ c.w = λ same. absurd (omega (arith, v.write_word)) in
    let (valid, same) =
      kill_loop_lem k (retreat c) (retreat-IsValid v ne)
        (omega (arith, v.write_word, v.edit_word)) in
    rw (ne→== _ _ ne, last-ne_newline v ne) (valid, same)

module _ {c : Console} (v : IsValid c) (x : ℕ) (room : sub32 c.e c.r < input_buf_size) where
  sizes :
      (sub32 (add32 c.e 1) c.w ≡ suc (sub32 c.e c.w))
      × (sub32 (add32 c.e 1) c.r ≡ sub32 c.w c.r + suc (sub32 c.e c.w))
  sizes = (
    omega (arith, v.read_word, v.write_word, v.edit_word, v.ordered),
    omega (arith, v.read_word, v.write_word, v.edit_word, v.ordered),
  )

  -- the finished lines stay
  append-ready : ready (append c x) ≡ ready c
  append-ready =
      let index : c.e % input_buf_size ≡ (c.r + sub32 c.e c.r) % input_buf_size =
        omega (arith, v.read_word, v.edit_word) in
      ap (λ t. bytes_from (set c.buf t x) c.r (sub32 c.w c.r)) index
      ∙ bytes_from-set_other c.buf c.r (sub32 c.w c.r) (sub32 c.e c.r) x (omega (arith, v.ordered))
          room

  append-edited : edited (append c x) ≡ edited c ++ (x ∷ [])
  append-edited =
      let index : c.e % input_buf_size ≡ (c.w + sub32 c.e c.w) % input_buf_size =
        omega (arith, v.write_word, v.edit_word) in
      let d : List ℕ = set c.buf (c.e % input_buf_size) x in
      ap (bytes_from d c.w) sizes.0
      ∙ bytes_from-suc d c.w (sub32 c.e c.w)
      ∙ ap₂ (λ t y. t ++ (y ∷ []))
          (ap (λ t. bytes_from (set c.buf t x) c.w (sub32 c.e c.w)) index
            ∙ bytes_from-set_other c.buf c.w (sub32 c.e c.w) (sub32 c.e c.w) x (omega arith)
                (omega (arith, v.ordered)))
          (ap (λ t. get_or d t 0) (sym index)
            ∙ get_or-set_self c.buf (c.e % input_buf_size) x 0 (omega (arith, v.size)))

  -- at the end of a line everything is finished
  commit-lines :
      let c' = append c x in
      lines (record c' { w = c'.e }) ≡ (ready c ++ (edited c ++ (x ∷ [])), [])
  commit-lines =
      let d : List ℕ = set c.buf (c.e % input_buf_size) x in
      let e' : ℕ = add32 c.e 1 in
      let nothing : sub32 e' e' ≡ 0 = omega arith in
      ap₂ (λ s t. (s, t))
        (ap (bytes_from d c.r) sizes.1
          ∙ bytes_from-append d c.r (sub32 c.w c.r) (suc (sub32 c.e c.w))
          ∙ ap₂ ◌++◌ append-ready (
              bytes_from-mod d (c.r + sub32 c.w c.r) c.w (suc (sub32 c.e c.w))
                (omega (arith, v.read_word, v.write_word))
              ∙ (ap (bytes_from d c.w) (sym sizes.0) ∙ append-edited)))
        (ap (bytes_from d e') nothing)

  append-IsValid : x ≢ b'\n' → IsValid (append c x)
  append-IsValid plain = record {
    size = length-set c.buf (c.e % input_buf_size) x ∙ v.size;
    read_word = v.read_word;
    write_word = v.write_word;
    edit_word = omega arith;
    ordered = omega (arith, sizes.0, sizes.1);
    bounded = omega (arith, sizes.1, v.ordered);
    one_line = rw append-edited (All-snoc (λ y. y ≢ b'\n') (edited c) x v.one_line plain);
  }

  commit-IsValid : let c' = append c x in IsValid (record c' { w = c'.e })
  commit-IsValid =
      let nothing : sub32 (add32 c.e 1) (add32 c.e 1) ≡ 0 = omega arith in
      record {
        size = length-set c.buf (c.e % input_buf_size) x ∙ v.size;
        read_word = v.read_word;
        write_word = omega arith;
        edit_word = omega arith;
        ordered = omega arith;
        bounded = omega (arith, sizes.1, v.ordered);
        one_line = rw nothing tt;
      }

  accept_lem : IsValid (accept c x).console × (lines (accept c x).console ≡ keep_char (lines c) x)
  accept_lem =
      let count : length (ready c) + (length (edited c) + 1) ≡ sub32 (add32 c.e 1) c.r = omega (
        arith,
        length-bytes_from c.buf c.r (sub32 c.w c.r),
        length-bytes_from c.buf c.w (sub32 c.e c.w),
        sizes.1,
      ) in
      let ends : Bool =
        x == b'\n' || x == control b'D' || sub32 (add32 c.e 1) c.r == input_buf_size in
      rw count (elim (Bool-cases ends) [
        | inl yes' ↦ rw yes' (commit-IsValid, commit-lines)
        | inr no' ↦
            rw no'
              (append-IsValid (not_newline no'), ap₂ (λ s t. (s, t)) append-ready append-edited)
      ])
    where
      not_newline :
          (x == b'\n' || x == control b'D' || sub32 (add32 c.e 1) c.r == input_buf_size) ≡ false
          → x ≢ b'\n'
      not_newline h = ground arith

-- Each input character does to the finished lines and the edited line what type_char says, and
-- keeps the ring's invariant: control-U empties the edited line, backspace drops its last
-- character, and any other character that has room is appended to it, with the line then finished
-- at a newline, a control-D or a full buffer.
pub consoleintr_lem :
    (c : Console) (x : ℕ)
    → IsValid c
    → IsValid (consoleintr c x).console × (lines (consoleintr c x).console ≡ type_char (lines c) x)
unfolding consoleintr
consoleintr_lem c x v =
    let count : length (ready c) + length (edited c) ≡ sub32 c.e c.r = omega (
      arith,
      length-bytes_from c.buf c.r (sub32 c.w c.r),
      length-bytes_from c.buf c.w (sub32 c.e c.w),
      v.ordered,
    ) in
    rw count (elim (Bool-cases (x == control b'P')) [
      | inl p ↦ rw p (v, refl)
      | inr not_p ↦ elim (Bool-cases (x == control b'U')) [
        | inl u ↦ rw (not_p, u) (kill_loop_lem (sub32 c.e c.w) c v refl)
        | inr not_u ↦ elim (Bool-cases (x == control b'H' || x == 0x7f)) [
          | inl h ↦ elim (Bool-cases (c.e == c.w)) [
            | inl empty ↦
                let none_left : sub32 c.e c.w ≡ 0 = omega (arith, ==→eq _ _ empty, v.write_word) in
                let e : edited c ≡ [] = ap (bytes_from c.buf c.w) none_left in
                rw (not_p, not_u, h, empty) (v, ap (λ t. (ready c, t)) (e ∙ ap drop_last (sym e)))
            | inr some_char ↦
                rw (not_p, not_u, h, some_char)
                  (retreat-IsValid v (==→ne _ _ some_char), retreat-lines v (==→ne _ _ some_char))
          ]
          | inr not_h ↦ elim (Bool-cases (not (x == 0) && ltb (sub32 c.e c.r) input_buf_size)) [
            | inl room ↦ rw (not_p, not_u, not_h, room) (accept_lem v (newline_of x) (ground arith))
            | inr none_left ↦ rw (not_p, not_u, not_h, none_left) (v, refl)
          ]
        ]
      ]
    ])
