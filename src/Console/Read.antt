-- ===== src/Console/Read.antt =====
-- What a run of consoleread takes.
use mit6_1810_why_tea_fo.Base.{
  ℕ, zero, suc, ◌+◌, ◌-◌, ◌≤◌, ◌<◌, ◌≡◌, ◌≢◌, refl, ap, ◌∙◌, Bool, true, false, if◌then◌else◌, inl,
  inr, List, [], ◌∷◌, arith, ◌==◌, ltb, Bool-cases, ==→eq, ==→ne,
}
use mit6_1810_why_tea_fo.Base.Int.{pos, minus_one}
use mit6_1810_why_tea_fo.Console.{
  Console, Outcome, returns, sleeps, ReadRun, control, advance, front, consoleread, read_end,
  with_read,
}
use mit6_1810_why_tea_fo.Console.Ring.{ready, IsValid}
use mit6_1810_why_tea_fo.Console.Taken.{
  Ended, Taken, advance-ready, advance-IsValid, restored, empty-ready,
}

module _ (killed : Bool) (copyout : ℕ → Bool) (target : ℕ) where
  stopped-Taken :
      (c : Console) (dst n : ℕ) (o : Outcome)
      → IsValid c
      → Ended killed copyout target dst n (read_end o c) []
      → Taken killed copyout target c dst n (read_end o c)
  stopped-Taken c dst n o v e = record {
    gone = [];
    order = refl;
    valid = v;
    line = refl;
    limit = omega arith;
    plain = tt;
    stored = tt;
    ended = e;
  }

  count_up :
      (n len : ℕ) (o : Outcome)
      → n < target
      → o ≡ returns (pos (target - n + len))
      → o ≡ returns (pos (target - suc n + suc len))
  count_up n len o lt e =
      let same : target - n + len ≡ target - suc n + suc len = omega arith in
      e ∙ ap (λ (m : ℕ). returns (pos m)) same

  read-Ended :
      (x dst n : ℕ) (run : ReadRun) (gone : List ℕ)
      → n < target
      → Ended killed copyout target (dst + 1) n run gone
      → Ended killed copyout target dst (suc n) (with_read x run) gone
  read-Ended x dst n run gone lt (Ended.complete all none_gone o) =
      Ended.complete (ap suc all) none_gone o
  read-Ended x dst n run gone lt (Ended.line_end before e none_gone o) =
      Ended.line_end (x ∷ before) (ap (λ l. x ∷ l) e) none_gone (count_up n _ _ lt o)
  read-Ended x dst n run gone lt (Ended.end_of_file e all some' ctrl o) = absurd (omega arith)
  read-Ended x dst n run gone lt (Ended.put_back after e fewer some' none_gone o) =
      Ended.put_back after e (omega arith) (omega arith) none_gone (count_up n _ _ lt o)
  read-Ended x dst n run gone lt (Ended.faulted y e ne fewer bad o) =
      Ended.faulted y e ne (omega arith) (ap copyout (omega arith) ∙ bad) (count_up n _ _ lt o)
  read-Ended x dst n run gone lt (Ended.slept left e some' empty k none_gone o) =
      Ended.slept left (omega arith) some' empty k none_gone o
  read-Ended x dst n run gone lt (Ended.killed_empty fewer empty k none_gone o) =
      Ended.killed_empty (omega arith) empty k none_gone o

  -- a byte that is delivered, before the rest of the run
  read-Taken :
      (c : Console) (dst n : ℕ) (run : ReadRun)
      → IsValid c
      → c.r ≢ c.w
      → n < target
      → copyout dst ≡ true
      → front c ≢ control b'D'
      → front c ≢ b'\n'
      → Taken killed copyout target (advance c) (dst + 1) n run
      → Taken killed copyout target c dst (suc n) (with_read (front c) run)
  read-Taken c dst n run v ne lt good plain inner t = record {
    gone = t.gone;
    order = advance-ready v ne ∙ ap (λ l. front c ∷ l) t.order;
    valid = t.valid;
    line = t.line;
    limit = omega (arith, t.limit);
    plain = (plain, λ e. absurd (inner e), t.plain);
    stored = (good, t.stored);
    ended = read-Ended (front c) dst n run t.gone lt t.ended;
  }

  newline-Taken :
      (c : Console) (dst n : ℕ)
      → IsValid c
      → c.r ≢ c.w
      → n < target
      → copyout dst ≡ true
      → front c ≡ b'\n'
      → Taken killed copyout target c dst
          (suc n)
          (with_read (front c) (read_end (returns (pos (target - n))) (advance c)))
  newline-Taken c dst n v ne lt good e = record {
    gone = [];
    order = advance-ready v ne;
    valid = advance-IsValid v ne;
    line = refl;
    limit = omega arith;
    plain = (λ ctrl. omega arith, λ _. refl, tt);
    stored = (good, tt);
    ended =
        Ended.line_end [] (ap (λ x. x ∷ []) e) refl (ap (λ (m : ℕ). returns (pos m)) (omega arith));
  }

  -- control-D first, and a destination that cannot be written
  eof-Taken :
      (c : Console) (dst n : ℕ)
      → IsValid c
      → c.r ≢ c.w
      → target ≤ suc n
      → front c ≡ control b'D'
      → Taken killed copyout target c dst
          (suc n)
          (read_end (returns (pos (target - suc n))) (advance c))
  eof-Taken c dst n v ne le e = record {
    gone = control b'D' ∷ [];
    order = advance-ready v ne ∙ ap (λ x. x ∷ ready (advance c)) e;
    valid = advance-IsValid v ne;
    line = refl;
    limit = omega arith;
    plain = tt;
    stored = tt;
    ended =
        Ended.end_of_file refl le (omega arith) refl
          (ap (λ (m : ℕ). returns (pos m)) (omega arith));
  }

  fault-Taken :
      (c : Console) (dst n : ℕ)
      → IsValid c
      → c.r ≢ c.w
      → front c ≢ control b'D'
      → copyout dst ≡ false
      → Taken killed copyout target c dst
          (suc n)
          (read_end (returns (pos (target - suc n))) (advance c))
  fault-Taken c dst n v ne plain bad = record {
    gone = front c ∷ [];
    order = advance-ready v ne;
    valid = advance-IsValid v ne;
    line = refl;
    limit = omega arith;
    plain = tt;
    stored = tt;
    ended =
        Ended.faulted (front c) refl plain (omega arith) (ap copyout (omega arith) ∙ bad)
          (ap (λ (m : ℕ). returns (pos m)) (omega arith));
  }

  empty-Taken :
      (c : Console) (dst n : ℕ)
      → IsValid c
      → c.r ≡ c.w
      → Taken killed copyout target c dst
          (suc n)
          (read_end (if killed then returns minus_one else sleeps (suc n)) c)
  empty-Taken c dst n v e = elim (Bool-cases killed) [
    | inl k ↦
        stopped-Taken c dst (suc n) _ v
          (Ended.killed_empty (omega arith) (empty-ready c e) k refl (rw k))
    | inr k ↦
        stopped-Taken c dst (suc n) _ v
          (Ended.slept (suc n) (omega arith) (omega arith) (empty-ready c e) k refl (rw k))
  ]

  -- A run of consoleread, which has delivered `target - n` bytes before, takes bytes off the finished
  -- lines in order, leaves the edited line as it is, and delivers all that it takes up to its end.
  -- What it delivers has no control-D, and a newline at most as its last byte. It returns the number
  -- of the bytes delivered so far where it has delivered all `n`, or a newline, or comes to a
  -- control-D behind other bytes, which stays in the ring, or to a byte whose destination cannot be
  -- written, which is lost; it returns 0, for end of file, where the read's first byte is a
  -- control-D, which it takes off; over a ring with no finished line it returns -1 if the process
  -- was killed, and else sleeps with the bytes to go that it has not delivered.
  pub consoleread-Taken :
      (c : Console) (dst n : ℕ)
      → IsValid c
      → n ≤ target
      → Taken killed copyout target c dst n (consoleread killed copyout target c dst n)
  unfolding consoleread
  consoleread-Taken c dst zero v le =
      stopped-Taken c dst 0 (returns (pos target)) v (Ended.complete refl refl refl)
  consoleread-Taken c dst (suc n) v le = elim (Bool-cases (c.r == c.w)) [
    | inl none_left ↦ rw none_left (empty-Taken c dst n v (==→eq _ _ none_left))
    | inr some_char ↦
        let ne : c.r ≢ c.w = ==→ne _ _ some_char in
        elim (Bool-cases (front c == control b'D')) [
          | inl eof ↦ elim (Bool-cases (ltb (suc n) target)) [
            | inl later ↦
                rw (some_char, eof, later, restored v ne refl)
                  (stopped-Taken c dst (suc n) _ v (
                    Ended.put_back (ready (advance c))
                      (advance-ready v ne ∙ ap (λ x. x ∷ ready (advance c)) (==→eq _ _ eof))
                      (omega arith) (ground arith) refl
                      (ap (λ (m : ℕ). returns (pos m)) (omega arith))))
            | inr at_start ↦
                rw (some_char, eof, at_start)
                  (eof-Taken c dst n v ne (ground arith) (==→eq _ _ eof))
          ]
          | inr plain ↦ elim (Bool-cases (copyout dst)) [
            | inl good ↦ elim (Bool-cases (front c == b'\n')) [
              | inl newline ↦
                  rw (some_char, plain, good, newline)
                    (newline-Taken c dst n v ne (omega arith) good (==→eq _ _ newline))
              | inr more ↦
                  rw (some_char, plain, good, more)
                    (read-Taken c dst n (consoleread killed copyout target (advance c) (dst + 1) n)
                      v ne (omega arith) good (==→ne _ _ plain) (==→ne _ _ more)
                      (consoleread-Taken (advance c) (dst + 1) n (advance-IsValid v ne)
                        (omega arith)))
            ]
            | inr bad ↦ rw (some_char, plain, bad) (fault-Taken c dst n v ne (==→ne _ _ plain) bad)
          ]
        ]
  ]
