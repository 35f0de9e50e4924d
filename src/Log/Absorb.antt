-- ===== src/Log/Absorb.antt =====
-- log_write records a block once.
use mit6_1810_why_tea_fo.Base.{
  ℕ, zero, suc, ◌+◌, ◌≤◌, ◌<◌, ◌≡◌, ◌≢◌, refl, sym, ◌∙◌, ◌⊎◌, inl, inr, ℕ_discrete, arith, ◌==◌,
  ==→eq, ==→ne, Bool-cases,
}
use mathlib.Core.Path.{subst}
use mit6_1810_why_tea_fo.Store.{update, bpin}
use mit6_1810_why_tea_fo.Log.{Log, ok, find_slot, log_write}

-- find_slot stops at the first index from `i` on that holds `b`, or behind the last.
pub record Found (block : ℕ → ℕ) (b i k r : ℕ) : Type 0 where
  pub from : i ≤ r
  pub upto : r ≤ i + k
  pub holds : r ≢ i + k → block r ≡ b
  pub first : (j : ℕ) → i ≤ j → j < r → block j ≢ b

find_slot-Found : (block : ℕ → ℕ) (b i k : ℕ) → Found block b i k (find_slot block b i k)
unfolding find_slot
find_slot-Found block b i zero = record {
  from = omega arith;
  upto = omega arith;
  holds = λ ne. absurd (ne (omega arith));
  first = λ j le lt. absurd (omega arith);
}
find_slot-Found block b i (suc k) = elim (Bool-cases (block i == b)) [
  | inl e ↦ rw e (record {
    from = omega arith;
    upto = omega arith;
    holds = λ ne. ==→eq (block i) b e;
    first = λ j le lt. absurd (omega arith);
  })
  | inr e ↦
      let f = find_slot-Found block b (i + 1) k in
      rw e (record {
        from = omega (arith, f.from);
        upto = omega (arith, f.upto);
        holds = λ ne. f.holds (λ same. ne (omega arith));
        first = λ j le lt. elim (ℕ_discrete j i) [
          | yes same ↦ rw same (==→ne (block i) b e)
          | no other ↦ f.first j (omega arith) lt
        ];
      })
]

-- No block is in the log twice.
abbrev pub IsOnce : Log → Type 0
IsOnce l = (i j : ℕ) → i < l.n → j < l.n → l.block i ≡ l.block j → i ≡ j

-- The block `b` has a place in the log.
abbrev pub Logged : Log → ℕ → Type 0
Logged l b = (i : ℕ) × (i < l.n) × (l.block i ≡ b)

pub record Absorbed (l : Log) (b : ℕ) (l' : Log) : Type 0 where
  pub once : IsOnce l'
  pub logged : Logged l' b
  pub kept : (i : ℕ) → i < l.n → l'.block i ≡ l.block i
  pub pinned :
      ((l'.n ≡ l.n) × Logged l b × (l'.store ≡ l.store))
      ⊎ ((l'.n ≡ l.n + 1) × ((i : ℕ) → i < l.n → l.block i ≢ b) × (l'.store ≡ bpin l.store b))

slot : Log → ℕ → ℕ
slot l b = find_slot l.block b 0 l.n

abbrev appended : Log → ℕ → Log
appended l b = record l { block = update l.block (slot l b) b; store = bpin l.store b; n = l.n + 1 }

abbrev rewritten : Log → ℕ → Log
rewritten l b = record l { block = update l.block (slot l b) b }

log_write-cases :
    (l : Log) (b : ℕ) {l' : Log}
    → log_write l b ≡ ok l'
    → ((slot l b ≡ l.n) × (appended l b ≡ l')) ⊎ ((slot l b ≢ l.n) × (rewritten l b ≡ l'))
unfolding log_write slot
log_write-cases l b w = ground arith

module _ (l : Log) (b : ℕ) (once : IsOnce l) where
  found : Found l.block b 0 l.n (slot l b)
  unfolding slot
  found = find_slot-Found l.block b 0 l.n

  appended-Absorbed : slot l b ≡ l.n → Absorbed l b (appended l b)
  unfolding update
  appended-Absorbed e = record {
    once = λ i j hi hj same. distinct i j hi hj same;
    logged = (l.n, omega arith, ground arith);
    kept = λ i lt. ground arith;
    pinned = inr (refl, new, refl);
  }
    where
      new : (i : ℕ) → i < l.n → l.block i ≢ b
      new i lt = found.first i (omega arith) (omega arith)

      distinct :
          (i j : ℕ)
          → i < l.n + 1
          → j < l.n + 1
          → update l.block (slot l b) b i ≡ update l.block (slot l b) b j
          → i ≡ j
      distinct i j hi hj same = ground (arith, once i j, new i, new j)

  rewritten-Absorbed : slot l b ≢ l.n → Absorbed l b (rewritten l b)
  unfolding update
  rewritten-Absorbed ne = record {
    once = λ i j hi hj same. once i j hi hj (sym (unchanged i) ∙ same ∙ unchanged j);
    logged = (slot l b, omega (arith, found.upto), ground arith);
    kept = λ i lt. unchanged i;
    pinned = inl (refl, (slot l b, omega (arith, found.upto), at_slot), refl);
  }
    where
      at_slot : l.block (slot l b) ≡ b
      at_slot = found.holds (λ e. ne (e ∙ omega arith))

      unchanged : (i : ℕ) → update l.block (slot l b) b i ≡ l.block i
      unchanged i = ground (arith, at_slot)

-- After a log_write that does not panic the block has a place in the log, the places before are as
-- they were and no block has two places; a block that had no place yet got one more place and one
-- more pin, and for any other the count and the pins stayed.
pub log_write-Absorbed :
    (l : Log) (b : ℕ) {l' : Log} → IsOnce l → log_write l b ≡ ok l' → Absorbed l b l'
log_write-Absorbed l b once w = elim (log_write-cases l b w) [
  | inl (e, same) ↦ subst (Absorbed l b) same (appended-Absorbed l b once e)
  | inr (ne, same) ↦ subst (Absorbed l b) same (rewritten-Absorbed l b once ne)
]
