-- ===== src/Files/References.antt =====
-- Reference counts: a file's `ref` is the number of descriptors, and other holders, that refer to
-- it, so that no call panics, no file in use is handed out again, and the object behind a file is
-- closed with its last reference and not before.
use mit6_1810_why_tea_fo.Base.{
  ℕ, ◌+◌, ◌-◌, ◌<◌, ◌≡◌, ◌∙◌, sym, ap, refl, true, false, Option, none, some, arith, ◌==◌,
  if◌then◌else◌, length, get_or, set, Bool-cases, inl, inr, ltb, leb, leb→gt, ge→ltb, ==→eq, ==→ne,
  lt→ltb,
}
use mit6_1810_why_tea_fo.Base.Int.{ℤ, pos, negsuc, pos_part}
use mit6_1810_why_tea_fo.Store.{update}
use mit6_1810_why_tea_fo.Files.{
  Table, Ofile, fd_none, Result, ok, nfile, nofile, Done, Closing, nothing, closing, with_ref,
  taken, filealloc, filedup, fileclose, argfd, fdalloc, is_null, installed, dup_into, close_at,
  failed, sys_dup, sys_close,
}
use mit6_1810_why_tea_fo.Files.Counts.{weight, count, count-set, count-get_or}
use mit6_1810_why_tea_fo.Files.Alloc.{Found, FoundFd, free_file-Found, free_fd-FoundFd}

-- `others f` references to `f` are held elsewhere: by other processes, or by the call itself.
abbrev pub Counted : Table → Ofile → (others : ℕ → ℕ) → Type 0
Counted t o others = (f : ℕ) → (t f).ref ≡ count f o + others f

pub data Allocated (o : Ofile) (others : ℕ → ℕ) : Option (ℕ × Table) → Type 0 where
  gets :
      (f : ℕ) (t' : Table)
      → f < nfile
      → count f o + others f ≡ 0
      → Counted t' o (update others f 1)
      → Allocated o others (some (f, t'))
  full : ((g : ℕ) → g < nfile → 0 < count g o + others g) → Allocated o others none

taken-Allocated :
    (t : Table) (o : Ofile) (others : ℕ → ℕ) {r : Option ℕ}
    → Counted t o others
    → Found t 0 nfile r
    → Allocated o others (taken t r)
unfolding update
taken-Allocated t o others h (Found.found f low high free) =
    gets f (with_ref t f 1) (omega arith) (omega (arith, h f)) (λ g. ground (arith, h f, h g))
taken-Allocated t o others h (Found.all_used all) =
    full (λ g lt. omega (arith, h g, all g (omega arith) (omega arith)))

-- filealloc hands out a file that no descriptor and no other holder refers to, and the caller's is
-- then its one reference; it fails only if all NFILE files are referred to. Before it every file's
-- `ref` is taken to be the number of the references to it, and it is so again after it.
pub filealloc-Allocated :
    (t : Table) (o : Ofile) (others : ℕ → ℕ) → Counted t o others → Allocated o others (filealloc t)
unfolding filealloc
filealloc-Allocated t o others h = taken-Allocated t o others h (free_file-Found t 0 nfile)

-- What argfd says of the argument `n`.
data ArgCase (o : Ofile) : ℤ → Option (ℕ × ℕ) → Type 0 where
  there : (fd f : ℕ) → fd < nofile → get_or o fd none ≡ some f → ArgCase o (pos fd) (some (fd, f))
  missing :
      (n : ℤ) → ((fd : ℕ) → n ≡ pos fd → fd < nofile → get_or o fd none ≡ none) → ArgCase o n none

entry_case :
    (o : Ofile) (fd : ℕ) (x : Option ℕ)
    → fd < nofile
    → get_or o fd none ≡ x
    → ArgCase o (pos fd) (elim x [ none ↦ none | some f ↦ some (fd, f) ])
entry_case o fd none lt e =
    missing (pos fd) (λ a same lt'. ap (λ z. get_or o (pos_part z) none) (sym same) ∙ e)
entry_case o fd (some f) lt e = there fd f lt e

arg_case : (o : Ofile) (n : ℤ) → ArgCase o n (argfd o n)
unfolding argfd
arg_case o (negsuc n) = missing (negsuc n) (λ fd e. ground arith)
arg_case o (pos fd) = elim (Bool-cases (leb nofile fd)) [
  | inl e ↦ rw e (missing (pos fd) (λ a same lt. ground arith))
  | inr e ↦ rw e (entry_case o fd (get_or o fd none) (leb→gt _ _ e) refl)
]

-- What sys_dup does for the argument `n`.
pub data Dupped (o : Ofile) (t : Table) (others : ℕ → ℕ) (n : ℤ) : Result Done → Type 0 where
  duplicates :
      (old fd f : ℕ) (t' : Table)
      → n ≡ pos old
      → get_or o old none ≡ some f
      → fd < nofile
      → get_or o fd none ≡ none
      → ((g : ℕ) → g < fd → is_null (get_or o g none) ≡ false)
      → Counted t' (set o fd (some f)) others
      → Dupped o t others n (
          ok (record {
            value = pos fd;
            ofile = set o fd (some f);
            table = t';
            then_closes = nothing;
          }))
  not_open :
      ((fd : ℕ) → n ≡ pos fd → fd < nofile → get_or o fd none ≡ none)
      → Dupped o t others n (failed o t)
  no_descriptor :
      ((g : ℕ) → g < nofile → is_null (get_or o g none) ≡ false) → Dupped o t others n (failed o t)

pub filedup-ok :
    (t : Table) (f : ℕ) → 0 < (t f).ref → filedup t f ≡ ok (with_ref t f ((t f).ref + 1))
unfolding filedup
filedup-ok t f used = let e : ltb (t f).ref 1 ≡ false = ge→ltb _ _ (omega arith) in rw e

dup_into-Dupped :
    (o : Ofile) (t : Table) (others : ℕ → ℕ) (old f : ℕ) {r : Option ℕ}
    → length o ≡ nofile
    → Counted t o others
    → get_or o old none ≡ some f
    → FoundFd o 0 nofile r
    → Dupped o t others (pos old) (dup_into o t f (installed o f r))
unfolding update
dup_into-Dupped o t others old f len h e (FoundFd.found fd high free below) =
    let used = count-get_or f o old e in
    rw (dup_into, filedup-ok t f (omega (arith, h f)))
      (duplicates old fd f (with_ref t f ((t f).ref + 1)) refl e (omega arith) free
        (λ g lt. below g (omega arith) lt)
        (λ g. ground (arith, h g, h f, free, count-set g o fd (some f) (omega arith))))
dup_into-Dupped o t others old f len h e (FoundFd.all_used all) =
    no_descriptor (λ g lt. all g (omega arith) lt)

dup_case :
    (o : Ofile) (t : Table) (others : ℕ → ℕ) (n : ℤ) {r : Option (ℕ × ℕ)}
    → length o ≡ nofile
    → Counted t o others
    → ArgCase o n r
    → Dupped o t others n
        (elim r [ none ↦ failed o t | some (fd, f) ↦ dup_into o t f (fdalloc o f) ])
unfolding fdalloc
dup_case o t others n len h (ArgCase.there fd f lt e) =
    dup_into-Dupped o t others fd f len h e (free_fd-FoundFd o 0 nofile)
dup_case o t others n len h (ArgCase.missing _ all) = not_open all

-- Where every file's `ref` is the number of the references to it, sys_dup does not panic. For an
-- open descriptor it puts the same file into the lowest free descriptor, returns that one, and `ref` still is
-- the number of references; it returns -1 and changes nothing if its argument is no open
-- descriptor, or if none is free.
pub sys_dup-Dupped :
    (o : Ofile) (t : Table) (others : ℕ → ℕ) (n : ℤ)
    → length o ≡ nofile
    → Counted t o others
    → Dupped o t others n (sys_dup o t n)
unfolding sys_dup fdalloc
sys_dup-Dupped o t others n len h = dup_case o t others n len h (arg_case o n)

-- What sys_close does for the argument `n`.
pub data Closed (o : Ofile) (t : Table) (others : ℕ → ℕ) (n : ℤ) : Result Done → Type 0 where
  closes :
      (fd f : ℕ) (t' : Table) (c : Closing)
      → n ≡ pos fd
      → get_or o fd none ≡ some f
      → Counted t' (set o fd none) others
      → c ≡ (if count f (set o fd none) + others f == 0 then closing (t f) else nothing)
      → Closed o t others n
          (ok (record { value = pos 0; ofile = set o fd none; table = t'; then_closes = c }))
  not_open :
      ((fd : ℕ) → n ≡ pos fd → fd < nofile → get_or o fd none ≡ none)
      → Closed o t others n (failed o t)

-- The table and the closing of fileclose.
pub fileclose-last :
    (t : Table) (f : ℕ)
    → (t f).ref ≡ 1
    → fileclose t f ≡ ok (closing (t f), update t f (record (t f) { ref = 0; type' = fd_none }))
unfolding fileclose
fileclose-last t f e = rw e

pub fileclose-more :
    (t : Table) (f : ℕ) → 1 < (t f).ref → fileclose t f ≡ ok (nothing, with_ref t f ((t f).ref - 1))
unfolding fileclose
fileclose-more t f more =
    let a : ltb (t f).ref 1 ≡ false = ge→ltb _ _ (omega arith) in
    let b : ltb 0 ((t f).ref - 1) ≡ true = lt→ltb _ _ (omega arith) in rw (a, b)

close_at-Closed :
    (o : Ofile) (t : Table) (others : ℕ → ℕ) (fd f : ℕ)
    → length o ≡ nofile
    → Counted t o others
    → fd < nofile
    → get_or o fd none ≡ some f
    → Closed o t others (pos fd) (close_at o t fd f)
unfolding update
close_at-Closed o t others fd f len h lt e =
    let used = count-get_or f o fd e in
    let fits : fd < length o = omega arith in
    let moved : (g : ℕ) → count g (set o fd none) + weight g (some f) ≡ count g o = λ g.
      ap (λ x. count g (set o fd none) + weight g x) (sym e)
      ∙ count-set g o fd none fits
      ∙ omega arith in
    let self : weight f (some f) ≡ 1 = ground arith in
    elim (Bool-cases (count f (set o fd none) + others f == 0)) [
      | inl last ↦
          let one : (t f).ref ≡ 1 = omega (arith, h f, moved f, ==→eq _ _ last) in
          rw (close_at, fileclose-last t f one)
            (closes fd f _ _ refl e (λ g. ground (arith, h g, moved g, one)) (rw last))
      | inr more ↦
          let two : 1 < (t f).ref = omega (arith, h f, moved f, ==→ne _ _ more) in
          rw (close_at, fileclose-more t f two)
            (closes fd f _ _ refl e (λ g. ground (arith, h g, moved g, two)) (rw more))
    ]

close_case :
    (o : Ofile) (t : Table) (others : ℕ → ℕ) (n : ℤ) {r : Option (ℕ × ℕ)}
    → length o ≡ nofile
    → Counted t o others
    → ArgCase o n r
    → Closed o t others n (elim r [ none ↦ failed o t | some (fd, f) ↦ close_at o t fd f ])
close_case o t others n len h (ArgCase.there fd f lt e) = close_at-Closed o t others fd f len h lt e
close_case o t others n len h (ArgCase.missing _ all) = not_open all

-- Where every file's `ref` is the number of the references to it, sys_close does not panic. For an
-- open descriptor it empties it, `ref` still is the number of references, and the pipe or the inode
-- behind the file is closed exactly if no other reference to the file is left; it returns -1 and
-- changes nothing if its argument is no open descriptor.
pub sys_close-Closed :
    (o : Ofile) (t : Table) (others : ℕ → ℕ) (n : ℤ)
    → length o ≡ nofile
    → Counted t o others
    → Closed o t others n (sys_close o t n)
unfolding sys_close
sys_close-Closed o t others n len h = close_case o t others n len h (arg_case o n)
