-- ===== src/Pipe/Write.antt =====
-- What one run of pipewrite does.
use mit6_1810_why_tea_fo.Base.{
  ℕ, zero, suc, ◌+◌, ◌-◌, ◌≤◌, ◌<◌, ◌≡◌, ◌⊎◌, inl, inr, refl, ap, sym, ◌∙◌, Bool, true, false, not,
  ◌||◌, Option, none, some, List, [], ◌∷◌, ◌++◌, append-nil, append_assoc, arith, length,
  Bool-cases, Option-cases, ◌==◌, ==→eq, ==→ne,
}
use mit6_1810_why_tea_fo.Base.Int.{pos, minus_one}
use mit6_1810_why_tea_fo.Pipe.{
  Pipe, Outcome, returns, sleeps, WriteRun, put, is_full, stopped, with_byte, write_loop, pipewrite,
}
use mit6_1810_why_tea_fo.Pipe.Contents.{contents, IsValid, put-contents, put-IsValid}

-- `bytes` are those at the user addresses from `a` on.
abbrev pub Fetched : (ℕ → Option ℕ) → ℕ → List ℕ → Type 0
Fetched copyin a [] = Unit
Fetched copyin a (ch ∷ bytes) = (copyin a ≡ some ch) × Fetched copyin (a + 1) bytes

-- Why a run ended, at loop variable `i` of `last`: the end of the bytes, a failed copyin, a closed
-- read end or a kill, or a full pipe, each tested in the order of the code.
abbrev pub Ended : (killed : ℕ → Bool) (copyin : ℕ → Option ℕ) (addr last : ℕ) → WriteRun → Type 0
Ended killed copyin addr last r =
    ((r.outcome ≡ returns (pos r.i)) × (r.woken ≡ true) × (r.i ≡ last))
    ⊎ ((r.outcome ≡ returns (pos r.i))
        × (r.woken ≡ true)
        × (r.i < last)
        × ((not r.pipe.readopen || killed r.i) ≡ false)
        × (is_full r.pipe ≡ false)
        × (copyin (addr + r.i) ≡ none))
    ⊎ ((r.outcome ≡ returns minus_one)
        × (r.woken ≡ false)
        × (r.i < last)
        × ((not r.pipe.readopen || killed r.i) ≡ true))
    ⊎ ((r.outcome ≡ sleeps)
        × (r.woken ≡ true)
        × (r.i < last)
        × ((not r.pipe.readopen || killed r.i) ≡ false)
        × (is_full r.pipe ≡ true))

-- A run of pipewrite from loop variable `i`, `k` bytes before its end, over a pipe `p`.
pub record Wrote (killed : ℕ → Bool) (copyin : ℕ → Option ℕ) (addr : ℕ) (p : Pipe) (i k : ℕ)
    (r : WriteRun) : Type 0 where
  pub valid : IsValid r.pipe
  pub appended : contents r.pipe ≡ contents p ++ r.bytes
  pub fetched : Fetched copyin (addr + i) r.bytes
  pub counted : r.i ≡ i + length r.bytes
  -- before none of the bytes that were put the read end was closed or the process killed
  pub passed : (j : ℕ) → i ≤ j → j < r.i → (not p.readopen || killed j) ≡ false
  pub ended : Ended killed copyin addr (i + k) r
  pub flags : (r.pipe.readopen ≡ p.readopen) × (r.pipe.writeopen ≡ p.writeopen)

module _ (killed : ℕ → Bool) (copyin : ℕ → Option ℕ) (addr : ℕ) where
  stopped-Wrote :
      {p : Pipe} (i k : ℕ) (o : Outcome) (woken : Bool)
      → IsValid p
      → Ended killed copyin addr (i + k) (stopped o i woken p)
      → Wrote killed copyin addr p i k (stopped o i woken p)
  stopped-Wrote {p} i k o woken v e = record {
    valid = v;
    appended = sym (append-nil (contents p));
    fetched = tt;
    counted = omega arith;
    passed = λ j low high. absurd (omega arith);
    ended = e;
    flags = (refl, refl);
  }

  stored-Wrote :
      {p : Pipe} (i k ch : ℕ) {r : WriteRun}
      → IsValid p
      → (not p.readopen || killed i) ≡ false
      → is_full p ≡ false
      → copyin (addr + i) ≡ some ch
      → Wrote killed copyin addr (put p ch) (i + 1) k r
      → Wrote killed copyin addr p i (suc k) (with_byte ch r)
  unfolding put
  stored-Wrote {p} i k ch {r} v here room c w = record {
    valid = w.valid;
    appended =
        w.appended
        ∙ ap (λ t. t ++ r.bytes) (put-contents v ch room)
        ∙ append_assoc (contents p) (ch ∷ []) r.bytes;
    fetched = let e : addr + (i + 1) ≡ addr + i + 1 = omega arith in (c, rw e at w.fetched);
    counted = omega (arith, w.counted);
    passed = λ j low high. elim (Bool-cases (j == i)) [
      | inl e ↦ ap (λ (t : ℕ). not p.readopen || killed t) (==→eq _ _ e) ∙ here
      | inr e ↦ let ne = ==→ne _ _ e in w.passed j (omega arith) high
    ];
    ended = let e : i + 1 + k ≡ i + suc k = omega arith in rw e at w.ended;
    flags = w.flags;
  }

  pub write_loop-Wrote :
      (p : Pipe) (i k : ℕ)
      → IsValid p
      → Wrote killed copyin addr p i k (write_loop killed copyin addr p i k)
  unfolding write_loop
  write_loop-Wrote p i zero v = stopped-Wrote i 0 _ true v (inl (refl, refl, omega arith))
  write_loop-Wrote p i (suc k) v = elim (Bool-cases (not p.readopen || killed i)) [
    | inl gone ↦
        rw gone
          (stopped-Wrote i (suc k) _ false v (inr (inr (inl (refl, refl, omega arith, gone)))))
    | inr here ↦ elim (Bool-cases (is_full p)) [
      | inl full ↦
          rw (here, full)
            (stopped-Wrote i (suc k) _ true v
              (inr (inr (inr (refl, refl, omega arith, here, full)))))
      | inr room ↦ elim (Option-cases (copyin (addr + i))) [
        | inl bad ↦
            rw (here, room, bad)
              (stopped-Wrote i (suc k) _ true v
                (inr (inl (refl, refl, omega arith, here, room, bad))))
        | inr (ch, good) ↦
            rw (here, room, good)
              (stored-Wrote i k ch v here room good
                (write_loop-Wrote (put p ch) (i + 1) k (put-IsValid v ch room)))
      ]
    ]
  ]

  -- A run of pipewrite appends to the pipe the bytes that it read from user memory, in order, as
  -- many as its loop variable advanced by, and before none of them the read end was closed or the
  -- process killed. It ends with the loop variable, after a wakeup of the readers, at `n` or, over a
  -- pipe with room, where user memory cannot be read; with -1 and no wakeup exactly where it comes
  -- to a byte with the read end closed or the process killed; or asleep, after a wakeup of the
  -- readers, over a full pipe whose read end is open.
  pub pipewrite_lem :
      (p : Pipe) (n i : ℕ)
      → IsValid p
      → i ≤ n
      → Wrote killed copyin addr p i (n - i) (pipewrite killed copyin addr p (pos n) i)
  unfolding pipewrite
  pipewrite_lem p n i v le = write_loop-Wrote p i (n - i) v
