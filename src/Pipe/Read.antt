-- ===== src/Pipe/Read.antt =====
-- What one run of piperead does.
use mit6_1810_why_tea_fo.Base.{
  ℕ, zero, suc, ◌+◌, ◌≤◌, ◌≡◌, ◌⊎◌, inl, inr, refl, ap, ◌∙◌, Bool, true, false, ◌&&◌, List, [], ◌∷◌,
  ◌++◌, arith, length, Bool-cases, if◌then◌else◌,
}
use mit6_1810_why_tea_fo.Base.Int.{pos, minus_one}
use mit6_1810_why_tea_fo.Pipe.{
  Pipe, returns, sleeps, ReadRun, advance, front, is_empty, with_read, read_loop, piperead,
}
use mit6_1810_why_tea_fo.Pipe.Contents.{
  contents, IsValid, advance-contents, advance-IsValid, empty_iff,
}

-- The user addresses from `a` on that take `bytes` can be written.
abbrev pub Delivered : (ℕ → Bool) → ℕ → List ℕ → Type 0
Delivered copyout a [] = Unit
Delivered copyout a (ch ∷ bytes) = (copyout a ≡ true) × Delivered copyout (a + 1) bytes

-- A run of the copying loop from loop variable `i`, with `k` bytes to go, over a pipe `p`.
pub record Drained (copyout : ℕ → Bool) (addr : ℕ) (p : Pipe) (i k : ℕ) (r : ReadRun) : Type 0 where
  pub valid : IsValid r.pipe
  pub taken : contents p ≡ r.bytes ++ (r.lost ++ contents r.pipe)
  pub delivered : Delivered copyout (addr + i) r.bytes
  pub counted : r.outcome ≡ returns (pos (i + length r.bytes))
  pub limit : length r.bytes ≤ k
  pub ended :
      ((r.lost ≡ []) × ((length r.bytes ≡ k) ⊎ (contents r.pipe ≡ [])))
      ⊎ ((length r.lost ≡ 1) × (copyout (addr + i + length r.bytes) ≡ false))
  pub flags : (r.pipe.readopen ≡ p.readopen) × (r.pipe.writeopen ≡ p.writeopen)

both_true : (a b : Bool) → (a && b) ≡ true → (a ≡ true) × (b ≡ true)
both_true a b h = ground arith

nil_of_length : (xs : List ℕ) → length xs ≡ 0 → xs ≡ []
nil_of_length [] h = refl
nil_of_length (x ∷ xs) h = absurd (omega arith)

module _ (copyout : ℕ → Bool) (addr : ℕ) where
  read-Drained :
      (p : Pipe) (i k : ℕ) (r : ReadRun)
      → IsValid p
      → is_empty p ≡ false
      → copyout (addr + i) ≡ true
      → Drained copyout addr (advance p) (i + 1) k r
      → Drained copyout addr p i (suc k) (with_read (front p) r)
  unfolding advance
  read-Drained p i k r v some_byte good d =
      let e : addr + (i + 1) ≡ addr + i + 1 = omega arith in
      record {
        valid = d.valid;
        taken = advance-contents v some_byte ∙ ap (λ t. front p ∷ t) d.taken;
        delivered = (good, rw e at d.delivered);
        counted = d.counted ∙ ap (λ n. returns (pos n)) (omega arith);
        limit = omega (arith, d.limit);
        ended = elim d.ended [
          | inl (l, inl all) ↦ inl (l, inl (ap suc all))
          | inl (l, inr empty) ↦ inl (l, inr empty)
          | inr (one, bad) ↦ inr (one, ap copyout (omega arith) ∙ bad)
        ];
        flags = d.flags;
      }

  read_loop-Drained :
      (p : Pipe) (i k : ℕ) → IsValid p → Drained copyout addr p i k (read_loop copyout addr p i k)
  unfolding read_loop advance
  read_loop-Drained p i zero v = record {
    valid = v;
    taken = refl;
    delivered = tt;
    counted = ap (λ n. returns (pos n)) (omega arith);
    limit = omega arith;
    ended = inl (refl, inl refl);
    flags = (refl, refl);
  }
  read_loop-Drained p i (suc k) v = elim (Bool-cases (is_empty p)) [
    | inl none_left ↦ rw none_left (record {
      valid = v;
      taken = refl;
      delivered = tt;
      counted = ap (λ n. returns (pos n)) (omega arith);
      limit = omega arith;
      ended = inl (refl, inr (nil_of_length (contents p) ((empty_iff v).0 none_left)));
      flags = (refl, refl);
    })
    | inr some_byte ↦ elim (Bool-cases (copyout (addr + i))) [
      | inl good ↦
          rw (some_byte, good)
            (read-Drained p i k (read_loop copyout addr (advance p) (i + 1) k) v some_byte good
              (read_loop-Drained (advance p) (i + 1) k (advance-IsValid v some_byte)))
      | inr bad ↦
          rw (some_byte, bad)
            (record {
              valid = advance-IsValid v some_byte;
              taken = advance-contents v some_byte;
              delivered = tt;
              counted = ap (λ n. returns (pos n)) (omega arith);
              limit = omega arith;
              ended = inr (refl, ap copyout (omega arith) ∙ bad);
              flags = (refl, refl);
            })
    ]
  ]

  -- A run of piperead over an open pipe with no bytes changes nothing, and returns -1 if the process
  -- was killed and else goes to sleep. Any other run takes bytes off the front of the pipe and
  -- stores them in user memory in order, `n` of them or all that there are, and returns their
  -- number; where user memory cannot be written it stops, and the byte at that place is taken off
  -- the pipe too and lost.
  pub piperead_lem :
      (killed : Bool) (p : Pipe) (n : ℕ)
      → IsValid p
      → ((is_empty p ≡ true)
          × (p.writeopen ≡ true)
          × (piperead copyout addr killed p (pos n) ≡ record {
            outcome = if killed then returns minus_one else sleeps;
            bytes = [];
            lost = [];
            pipe = p;
          }))
        ⊎ (((is_empty p && p.writeopen) ≡ false)
            × Drained copyout addr p 0 n (piperead copyout addr killed p (pos n)))
  unfolding piperead
  piperead_lem killed p n v = elim (Bool-cases (is_empty p && p.writeopen)) [
    | inl waits ↦ rw waits (inl ((both_true _ _ waits).0, (both_true _ _ waits).1, refl))
    | inr goes ↦ rw goes (inr (refl, read_loop-Drained p 0 n v))
  ]
