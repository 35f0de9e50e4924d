-- ===== src/Pipe/Contents.antt =====
-- The bytes that a pipe holds, oldest first.
use mit6_1810_why_tea_fo.Base.{
  ℕ, zero, suc, ◌+◌, ◌%◌, ◌≤◌, ◌<◌, ◌≡◌, refl, ap, ◌∙◌, List, [], ◌∷◌, ◌++◌, arith, true, false,
  length, get_or, set, length-set, get_or-set_self, get_or-set_ne, ==→eq, ==→ne, eq→==, ◌↔◌,
}
use mathlib.Core.Path.{ap₂}
use mit6_1810_why_tea_fo.Base.Word.{u32_mod, add32, sub32}
use mit6_1810_why_tea_fo.Pipe.{Pipe, pipe_size, put, advance, front, is_full, is_empty}

-- The `n` bytes of the ring from counter `r` on.
abbrev pub ring_bytes : List ℕ → (r n : ℕ) → List ℕ
ring_bytes d r zero = []
ring_bytes d r (suc n) = get_or d (r % pipe_size) 0 ∷ ring_bytes d (r + 1) n

-- How many bytes are waiting.
abbrev pub waiting : Pipe → ℕ
waiting p = sub32 p.nwrite p.nread

abbrev pub contents : Pipe → List ℕ
contents p = ring_bytes p.data' p.nread (waiting p)

pub record IsValid (p : Pipe) : Type 0 where
  pub size : length p.data' ≡ pipe_size
  pub read_word : p.nread < u32_mod
  pub write_word : p.nwrite < u32_mod
  pub bounded : waiting p ≤ pipe_size

pub length-ring_bytes : (d : List ℕ) (r n : ℕ) → length (ring_bytes d r n) ≡ n
length-ring_bytes d r zero = refl
length-ring_bytes d r (suc n) = ap suc (length-ring_bytes d (r + 1) n)

-- Only the counter's remainder matters, so that its wrap at 2 ^ 32 does no harm.
ring_bytes-mod :
    (d : List ℕ) (r r' n : ℕ)
    → r % pipe_size ≡ r' % pipe_size
    → ring_bytes d r n ≡ ring_bytes d r' n
ring_bytes-mod d r r' zero e = refl
ring_bytes-mod d r r' (suc n) e = rw (e, ring_bytes-mod d (r + 1) (r' + 1) n (omega arith))

ring_bytes-set :
    (d : List ℕ) (r n x : ℕ)
    → length d ≡ pipe_size
    → n < pipe_size
    → ring_bytes (set d ((r + n) % pipe_size) x) r (suc n) ≡ ring_bytes d r n ++ (x ∷ [])
ring_bytes-set d r zero x size lt =
    let e : (r + 0) % pipe_size ≡ r % pipe_size = omega arith in
    rw e (rw (get_or-set_self d (r % pipe_size) x 0 (omega arith)) refl)
ring_bytes-set d r (suc n) x size lt =
    let e : (r + suc n) % pipe_size ≡ (r + 1 + n) % pipe_size = omega arith in
    ap₂ ◌∷◌ (get_or-set_ne d x 0 (omega arith)) (
      ap (λ j. ring_bytes (set d j x) (r + 1) (suc n)) e
      ∙ ring_bytes-set d (r + 1) n x size (omega arith))

module _ {p : Pipe} (v : IsValid p) where
  room_left : is_full p ≡ false → waiting p < pipe_size
  room_left room = omega (arith, ==→ne _ _ room, v.read_word, v.write_word, v.bounded)

  one_more : (ch : ℕ) → is_full p ≡ false → waiting (put p ch) ≡ suc (waiting p)
  unfolding put
  one_more ch room = omega (arith, room_left room, v.read_word, v.write_word)

  one_less : is_empty p ≡ false → waiting p ≡ suc (waiting (advance p))
  unfolding advance
  one_less some_byte = omega (arith, ==→ne _ _ some_byte, v.read_word, v.write_word, v.bounded)

  pub put-contents : (ch : ℕ) → is_full p ≡ false → contents (put p ch) ≡ contents p ++ (ch ∷ [])
  unfolding put
  put-contents ch room =
      let lt = room_left room in
      let index : p.nwrite % pipe_size ≡ (p.nread + waiting p) % pipe_size =
        omega (arith, v.read_word, v.write_word) in
      rw index (
        ap (ring_bytes (set p.data' ((p.nread + waiting p) % pipe_size) ch) p.nread)
          (one_more ch room)
        ∙ ring_bytes-set p.data' p.nread (waiting p) ch v.size lt)

  pub put-IsValid : (ch : ℕ) → is_full p ≡ false → IsValid (put p ch)
  unfolding put
  put-IsValid ch room = record {
    size = length-set p.data' (p.nwrite % pipe_size) ch ∙ v.size;
    read_word = v.read_word;
    write_word = omega arith;
    bounded = omega (arith, one_more ch room, room_left room);
  }

  pub advance-contents : is_empty p ≡ false → contents p ≡ front p ∷ contents (advance p)
  unfolding advance
  advance-contents some_byte =
      ap (ring_bytes p.data' p.nread) (one_less some_byte)
      ∙ ap (λ t. front p ∷ t)
          (ring_bytes-mod p.data' (p.nread + 1) (add32 p.nread 1) (waiting (advance p))
            (omega arith))

  pub advance-IsValid : is_empty p ≡ false → IsValid (advance p)
  unfolding advance
  advance-IsValid some_byte = ground arith

  pub full_iff : (is_full p ≡ true) ↔ (length (contents p) ≡ pipe_size)
  full_iff = (
    λ e.
        length-ring_bytes p.data' p.nread (waiting p)
        ∙ omega (arith, ==→eq _ _ e, v.read_word, v.write_word),
    λ e.
        eq→== _ _
          (omega (arith, length-ring_bytes p.data' p.nread (waiting p), v.read_word, v.write_word)),
  )

  pub empty_iff : (is_empty p ≡ true) ↔ (length (contents p) ≡ 0)
  empty_iff = (
    λ e.
        length-ring_bytes p.data' p.nread (waiting p)
        ∙ omega (arith, ==→eq _ _ e, v.read_word, v.write_word),
    λ e.
        eq→== _ _
          (omega (arith, length-ring_bytes p.data' p.nread (waiting p), v.read_word, v.write_word)),
  )
