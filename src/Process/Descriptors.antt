-- ===== src/Process/Descriptors.antt =====
-- The references that kfork adds and kexit drops: one for each open descriptor.
use mit6_1810_why_tea_fo.Base.{
  ℕ, zero, suc, ◌+◌, ◌<◌, ◌≤◌, ◌≡◌, refl, ◌∙◌, sym, ap, true, Option, none, some, List, [], ◌∷◌,
  arith, ltb, if◌then◌else◌, Bool-cases, Option-cases, ==→eq, ==→ne, leb, ◌&&◌, ◌==◌, inl, inr,
  length, get_or, set, length-set, get_or-set_self, get_or-set_ne,
}
use mit6_1810_why_tea_fo.Store.{update}
use mit6_1810_why_tea_fo.Files.{
  Ofile, Table, Result, ok, panic, nofile, Closing, with_ref, filedup, fileclose,
}
use mit6_1810_why_tea_fo.Files
use mit6_1810_why_tea_fo.Files.References.{filedup-ok, fileclose-last, fileclose-more}
use mit6_1810_why_tea_fo.Files.Counts.{weight}
use mit6_1810_why_tea_fo.Process.Fork.{dup_one, dup_all}
use mit6_1810_why_tea_fo.Process.Exit.{close_one, close_all}

-- The references of the descriptors `fd` to `fd + n - 1`.
abbrev pub counted : (f : ℕ) (o : Ofile) (fd n : ℕ) → ℕ
counted f o fd zero = 0
counted f o fd (suc n) = weight f (get_or o fd none) + counted f o (fd + 1) n

abbrev pub or_else : Option ℕ → Option ℕ → Option ℕ
or_else none b = b
or_else (some a) b = some a

-- What dup_all makes of the child's `o` and of the table, from `fd` on and for `n` descriptors.
pub record Dup (mine o : Ofile) (t : Table) (fd n : ℕ) (r : Result (Ofile × Table)) : Type 0 where
  pub o' : Ofile
  pub t' : Table
  pub ended : r ≡ ok (o', t')
  pub refs : (f : ℕ) → (t' f).ref ≡ (t f).ref + counted f mine fd n
  pub same : length o' ≡ length o
  pub copied :
      (i : ℕ)
      → get_or o' i none ≡ (
          if leb fd i && ltb i (fd + n)
          then or_else (get_or mine i none) (get_or o i none)
          else get_or o i none)

-- One descriptor, and then the others.
Dup-more :
    (mine o o1 : Ofile) (t t1 : Table) (fd n : ℕ) {r : Result (Ofile × Table)}
    → length o1 ≡ length o
    → ((f : ℕ) → (t1 f).ref ≡ (t f).ref + weight f (get_or mine fd none))
    → ((i : ℕ)
        → get_or o1 i none
          ≡ (if i == fd then or_else (get_or mine i none) (get_or o i none) else get_or o i none))
    → Dup mine o1 t1 (fd + 1) n r
    → Dup mine o t fd (suc n) r
Dup-more mine o o1 t t1 fd n long refs at d = record {
  o' = d.o';
  t' = d.t';
  ended = d.ended;
  refs = λ f. omega (arith, d.refs f, refs f);
  same = d.same ∙ long;
  copied = λ i. ground (arith, d.copied i, at i);
}

get_or-set :
    (o : Ofile) (fd i : ℕ) (v : Option ℕ)
    → fd < length o
    → get_or (set o fd v) i none ≡ (if i == fd then v else get_or o i none)
get_or-set o fd i v low = elim (Bool-cases (i == fd)) [
  | inl e ↦
      let same : i ≡ fd = ==→eq _ _ e in
      rw e (ap (λ j. get_or (set o fd v) j none) same ∙ get_or-set_self o fd v none low)
  | inr e ↦ rw e (get_or-set_ne o v none (λ s. ==→ne _ _ e (sym s)))
]

same-at : (o : Ofile) (fd i : ℕ) → (i == fd) ≡ true → get_or o i none ≡ get_or o fd none
same-at o fd i e = ap (λ j. get_or o j none) (==→eq _ _ e)

copy_none :
    (mine o : Ofile) (fd : ℕ)
    → get_or mine fd none ≡ none
    → (i : ℕ)
    → get_or o i none
      ≡ (if i == fd then or_else (get_or mine i none) (get_or o i none) else get_or o i none)
copy_none mine o fd e i = elim (Bool-cases (i == fd)) [
  | inl s ↦ let m : get_or mine i none ≡ none = same-at mine fd i s ∙ e in rw (s, m) refl
  | inr s ↦ rw s
]

copy_some :
    (mine o : Ofile) (fd g : ℕ)
    → get_or mine fd none ≡ some g
    → fd < length o
    → (i : ℕ)
    → get_or (set o fd (some g)) i none
      ≡ (if i == fd then or_else (get_or mine i none) (get_or o i none) else get_or o i none)
copy_some mine o fd g e low i = get_or-set o fd i (some g) low ∙ elim (Bool-cases (i == fd)) [
  | inl s ↦ let m : get_or mine i none ≡ some g = same-at mine fd i s ∙ e in rw (s, m) refl
  | inr s ↦ rw s
]

pub dup_all-Dup :
    (mine o : Ofile) (t : Table) (fd n : ℕ)
    → fd + n ≤ length o
    → ((i f : ℕ) → get_or mine i none ≡ some f → 0 < (t f).ref)
    → Dup mine o t fd n (dup_all mine o t fd n)
unfolding dup_all update
dup_all-Dup mine o t fd zero fits live = record {
  o' = o;
  t' = t;
  ended = refl;
  refs = λ f. omega arith;
  same = refl;
  copied = λ i. ground arith;
}
dup_all-Dup mine o t fd (suc n) fits live = elim (Option-cases (get_or mine fd none)) [
  | inl e ↦
      rw (dup_all, dup_one, e)
        (Dup-more mine o o t t fd n refl (λ f. ground arith) (copy_none mine o fd e)
          (dup_all-Dup mine o t (fd + 1) n (omega arith) live))
  | inr (g, e) ↦
      let some_refs = live fd g e in
      let t1 = with_ref t g ((t g).ref + 1) in
      rw (dup_all, dup_one, e, filedup-ok t g some_refs)
        (Dup-more mine o (set o fd (some g)) t t1 fd n (length-set o fd (some g))
          (λ f. ground arith) (copy_some mine o fd g e (omega arith))
          (dup_all-Dup mine (set o fd (some g)) t1 (fd + 1) n
            (omega (arith, length-set o fd (some g))) (λ i f h. ground (arith, live i f))))
]

-- What close_all makes of `o` and of the table, from `fd` on and for `n` descriptors.
pub record Dropped (o : Ofile) (t : Table) (fd n : ℕ) (r : Result (List Closing × Ofile × Table))
    : Type 0 where
  pub cs : List Closing
  pub o' : Ofile
  pub t' : Table
  pub ended : r ≡ ok (cs, o', t')
  pub refs : (f : ℕ) → (t f).ref ≡ (t' f).ref + counted f o fd n
  pub empty :
      (i : ℕ) → get_or o' i none ≡ (if leb fd i && ltb i (fd + n) then none else get_or o i none)

-- The descriptors behind `fd` do not see a write there.
counted-set :
    (f : ℕ) (o : Ofile) (i : ℕ) (v : Option ℕ) (fd n : ℕ)
    → i < fd
    → i < length o
    → counted f (set o i v) fd n ≡ counted f o fd n
counted-set f o i v fd zero lt low = refl
counted-set f o i v fd (suc n) lt low =
    let e : get_or (set o i v) fd none ≡ get_or o fd none =
      get_or-set_ne o v none (λ s. omega arith) in
    rw (e, counted-set f o i v (fd + 1) n (omega arith) low)

Dropped-more :
    (o o1 : Ofile) (t t1 : Table) (fd n : ℕ) (c : Closing)
    {r : Result (List Closing × Ofile × Table)}
    → ((f : ℕ) → (t f).ref ≡ (t1 f).ref + weight f (get_or o fd none))
    → ((f : ℕ) → counted f o1 (fd + 1) n ≡ counted f o (fd + 1) n)
    → ((i : ℕ) → get_or o1 i none ≡ (if i == fd then none else get_or o i none))
    → Dropped o1 t1 (fd + 1) n r
    → Dropped o t fd (suc n) (elim r [ ok (cs, o'', t'') ↦ ok (c ∷ cs, o'', t'') | panic ↦ panic ])
Dropped-more o o1 t t1 fd n c refs rest at d = record {
  cs = c ∷ d.cs;
  o' = d.o';
  t' = d.t';
  ended = rw d.ended;
  refs = λ f. omega (arith, d.refs f, refs f, rest f);
  empty = λ i. ground (arith, d.empty i, at i);
}

empty_at :
    (o : Ofile) (fd : ℕ)
    → get_or o fd none ≡ none
    → (i : ℕ) → get_or o i none ≡ (if i == fd then none else get_or o i none)
empty_at o fd e i = elim (Bool-cases (i == fd)) [
  | inl s ↦ rw s (same-at o fd i s ∙ e)
  | inr s ↦ rw s
]

-- fileclose of a file with references: one is dropped.
fileclose-refs :
    (t : Table) (g : ℕ)
    → 0 < (t g).ref
    → (c : Closing) × (t1 : Table) × (fileclose t g ≡ ok (c, t1))
      × ((f : ℕ) → (t f).ref ≡ (t1 f).ref + weight f (some g))
unfolding update
fileclose-refs t g some_refs = elim (Bool-cases ((t g).ref == 1)) [
  | inl e ↦ (_, _, fileclose-last t g (==→eq _ _ e), λ f. ground arith)
  | inr e ↦ let ne = ==→ne _ _ e in (_, _, fileclose-more t g (omega arith), λ f. ground arith)
]

pub close_all-Dropped :
    (o : Ofile) (t : Table) (fd n : ℕ)
    → fd + n ≤ length o
    → ((f : ℕ) → counted f o fd n ≤ (t f).ref)
    → Dropped o t fd n (close_all o t fd n)
unfolding close_all
close_all-Dropped o t fd zero fits enough = record {
  cs = [];
  o' = o;
  t' = t;
  ended = refl;
  refs = λ f. omega arith;
  empty = λ i. ground arith;
}
close_all-Dropped o t fd (suc n) fits enough = elim (Option-cases (get_or o fd none)) [
  | inl e ↦
      rw (close_all, close_one, e)
        (Dropped-more o o t t fd n Files.nothing (λ f. rw e (omega arith)) (λ f. refl)
          (empty_at o fd e)
          (close_all-Dropped o t (fd + 1) n (omega arith) (λ f. omega (arith, enough f))))
  | inr (g, e) ↦
      let low : fd < length o = omega arith in
      let here : weight g (get_or o fd none) ≡ 1 = rw e (ground arith) in
      let (c, t1, closes, refs) = fileclose-refs t g (omega (arith, enough g, here)) in
      rw (close_all, close_one, e, closes)
        (Dropped-more o (set o fd none) t t1 fd n c (λ f. rw e (refs f))
          (λ f. counted-set f o fd none (fd + 1) n (omega arith) low)
          (λ i. get_or-set o fd i none low)
          (close_all-Dropped (set o fd none) t1 (fd + 1) n (omega (arith, length-set o fd none))
            (λ f. omega (
              arith,
              enough f,
              refs f,
              ap (weight f) e,
              counted-set f o fd none (fd + 1) n (omega arith) low,
            ))))
]
