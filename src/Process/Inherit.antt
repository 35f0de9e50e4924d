-- ===== src/Process/Inherit.antt =====
-- kfork and the closing half of kexit as a whole.
use mit6_1810_why_tea_fo.Base.{
  ℕ, ◌+◌, ◌<◌, ◌≤◌, ◌≡◌, ◌≢◌, ◌^◌, refl, ◌∙◌, ap, true, false, Option, none, some, List, arith, ltb,
  leb, ◌&&◌, ◌==◌, length, get_or, ==_refl, ne→==, ==→eq, ==→ne, sym, zero, suc, take, Bool-cases,
  inl, inr,
}
use mit6_1810_why_tea_fo.Base.Int.{ℤ, pos}
use mit6_1810_why_tea_fo.Store.{update}
use mit6_1810_why_tea_fo.Files.{Ofile, Table, Result, ok, panic, nofile, Closing}
use mit6_1810_why_tea_fo.Process.{
  Procs, Kernel, Trapframe, unused, runnable, nproc, initproc, int_max, int_of, is_unused,
  unused_proc, allocproc, filled, with_proc,
}
use mit6_1810_why_tea_fo.Files.Counts.{weight}
use mit6_1810_why_tea_fo.Process.Fork.{
  dup_all, idup, zero_a0, copied_into, fork_copy, fork_link, fork_run, forked, kfork,
}
use mit6_1810_why_tea_fo.Process.Exit.{iput, exit_close}
use mit6_1810_why_tea_fo.Process.Descriptors.{counted, dup_all-Dup, or_else, close_all-Dropped}

-- The process `x` is a copy of `p`, made by kfork.
pub record IsChild (k k' : Kernel) (p x : ℕ) (pagetable : ℕ) : Type 0 where
  pub state : (k'.proc x).state ≡ runnable
  pub parent : (k'.proc x).parent ≡ some p
  pub pid : (k'.proc x).pid ≡ k.nextpid
  pub pagetable' : (k'.proc x).pagetable ≡ some pagetable
  pub sz : (k'.proc x).sz ≡ (k.proc p).sz
  pub trapframe :
      (g : Trapframe)
      → (k.proc p).trapframe ≡ some g
      → (k'.proc x).trapframe ≡ some (record g { a0 = 0 })
  pub name : (k'.proc x).name ≡ take 15 (k.proc p).name
  pub cwd : (k'.proc x).cwd ≡ (k.proc p).cwd
  pub ofile :
      (i : ℕ) → i < nofile → get_or (k'.proc x).ofile i none ≡ get_or (k.proc p).ofile i none
  pub refs : (f : ℕ) → (k'.ftable f).ref ≡ (k.ftable f).ref + counted f (k.proc p).ofile 0 nofile
  pub irefs : (i : ℕ) → k'.irefs i ≡ k.irefs i + weight i (k.proc p).cwd
  pub others : (y : ℕ) → y ≢ x → k'.proc y ≡ k.proc y

or_else-none : (a : Option ℕ) → or_else a none ≡ a
or_else-none none = refl
or_else-none (some a) = refl

-- The kernel behind allocproc, and behind kfork, where the descriptors became `o` and `t`.
abbrev allocated : Kernel → (x : ℕ) → Trapframe → ℕ → Kernel
allocated k x f a = (filled k (some f) (some a) (some x)).1

abbrev kernel_or : Kernel → Result (Option ℕ × Kernel) → Kernel
kernel_or k panic = k
kernel_or k (ok (v, k')) = k'

abbrev copied : Kernel → (p x : ℕ) → Trapframe → ℕ → Ofile → Table → Kernel
copied k p x f a o t = kernel_or k (copied_into (allocated k x f a) p x (ok (o, t)))

abbrev born : Kernel → (p x : ℕ) → Trapframe → ℕ → Ofile → Table → Kernel
born k p x f a o t = fork_run (fork_link (copied k p x f a o t) p x) x

int_of_small : (w : ℕ) → w < 2 ^ 31 → int_of w ≡ pos w
int_of_small w low = ground arith

kfork-born :
    (k : Kernel) (p x : ℕ) (f : Trapframe) (a : ℕ) (o : Ofile) (t : Table)
    → k.nextpid < int_max
    → unused_proc k.proc 0 nproc ≡ some x
    → p ≢ x
    → dup_all (k.proc p).ofile (k.proc x).ofile k.ftable 0 nofile ≡ ok (o, t)
    → kfork k p (some f) (some a) true ≡ ok (pos k.nextpid, born k p x f a o t)
unfolding kfork allocproc update
kfork-born k p x f a o t few found ne dup =
    let other : (p == x) ≡ false = ne→== p x ne in
    let mine : ((allocated k x f a).proc p).ofile ≡ (k.proc p).ofile = rw other in
    let own : ((allocated k x f a).proc x).ofile ≡ (k.proc x).ofile = rw (==_refl x) in
    let alike : dup_all ((allocated k x f a).proc p).ofile ((allocated k x f a).proc x).ofile
          k.ftable 0 nofile
        ≡ ok (o, t) =
      ap (λ (l : Ofile). dup_all l ((allocated k x f a).proc x).ofile k.ftable 0 nofile) mine
      ∙ ap (λ (l : Ofile). dup_all (k.proc p).ofile l k.ftable 0 nofile) own
      ∙ dup in
    let pid : ((copied k p x f a o t).proc x).pid ≡ k.nextpid = rw (==_refl x) in
    ap (λ r. forked p (fork_copy true p (filled k (some f) (some a) r))) found
    ∙ ap (λ r. forked p (copied_into (allocated k x f a) p x r)) alike
    ∙ ap (λ (n : ℤ). ok (n, born k p x f a o t))
        (ap int_of pid ∙ int_of_small k.nextpid (omega arith))

-- The first unused entry is what allocproc's loop finds.
unused_proc-first :
    (t : Procs) (p n x : ℕ)
    → p ≤ x
    → x < p + n
    → (t x).state ≡ unused
    → ((y : ℕ) → y < x → (t y).state ≢ unused)
    → unused_proc t p n ≡ some x
unfolding unused_proc
unused_proc-first t p zero x low high e before = absurd (omega arith)
unused_proc-first t p (suc n) x low high e before = elim (Bool-cases (x == p)) [
  | inl here ↦
      let free : is_unused (t p).state ≡ true =
        ap (λ y. is_unused (t y).state) (sym (==→eq _ _ here)) ∙ ap is_unused e in
      rw free (ap some (sym (==→eq _ _ here)))
  | inr later ↦
      let ne = ==→ne _ _ later in
      let taken : is_unused (t p).state ≡ false = ground (arith, before p) in
      rw taken (unused_proc-first t (p + 1) n x (omega arith) (omega arith) e before)
]

idup-weight : (irefs : ℕ → ℕ) (cwd : Option ℕ) (i : ℕ) → idup irefs cwd i ≡ irefs i + weight i cwd
unfolding update
idup-weight irefs none i = omega arith
idup-weight irefs (some ip) i = ground arith

zero_a0-some :
    {o : Option Trapframe} (g : Trapframe) → o ≡ some g → zero_a0 o ≡ some (record g { a0 = 0 })
zero_a0-some g e = rw e

-- Where x is the first unused entry of the table and has no open files, there is memory, nextpid is
-- less than the largest int and the open files of the caller have references, kfork does not panic
-- and returns nextpid. The child in x has that number, the caller's memory size, registers, name (its
-- first fifteen characters), directory and open files, but a0 is 0; its parent is the caller, and it
-- is runnable. Each file has one more reference for each of the caller's descriptors that refers to
-- it, the caller's directory one more and no other inode, and no other process is changed.
pub kfork_lem :
    (k : Kernel) (p x : ℕ) (f : Trapframe) (a : ℕ)
    → k.nextpid < int_max
    → x < nproc
    → (k.proc x).state ≡ unused
    → ((y : ℕ) → y < x → (k.proc y).state ≢ unused)
    → p ≢ x
    → nofile ≤ length (k.proc x).ofile
    → ((i : ℕ) → get_or (k.proc x).ofile i none ≡ none)
    → ((i g : ℕ) → get_or (k.proc p).ofile i none ≡ some g → 0 < (k.ftable g).ref)
    → (k' : Kernel) × (kfork k p (some f) (some a) true ≡ ok (pos k.nextpid, k'))
      × IsChild k k' p x a
unfolding update fork_run fork_link
kfork_lem k p x f a few small free before ne long blank live =
    let found = unused_proc-first k.proc 0 nproc x (omega arith) (omega arith) free before in
    let d = dup_all-Dup (k.proc p).ofile (k.proc x).ofile k.ftable 0 nofile long live in
    let other : (p == x) ≡ false = ne→== p x ne in
    (
      born k p x f a d.o' d.t',
      kfork-born k p x f a d.o' d.t' few found ne d.ended,
      record {
        state = rw (==_refl x);
        parent = rw (==_refl x);
        pid = rw (==_refl x);
        pagetable' = rw (==_refl x);
        sz = rw (==_refl x, other);
        trapframe = λ g e. rw (==_refl x, other) (zero_a0-some g e);
        name = rw (==_refl x, other);
        cwd = rw (==_refl x, other);
        ofile = λ i low.
            let inside : (leb 0 i && ltb i (0 + nofile)) ≡ true = ground arith in
            rw (==_refl x) (d.copied i ∙ rw (inside, blank i) (or_else-none _));
        refs = d.refs;
        irefs = λ i. rw other (idup-weight k.irefs (k.proc p).cwd i);
        others = λ y ne'. let far : (y == x) ≡ false = ne→== y x ne' in rw far;
      },
    )

-- kexit of a process other than init closes all its descriptors and does not panic, where each file
-- has the references that these descriptors count for: each file loses one reference for each, the
-- directory loses one, and the process has no descriptors and no directory afterwards.
pub exit_close_lem :
    (k : Kernel) (p : ℕ)
    → p ≢ initproc
    → nofile ≤ length (k.proc p).ofile
    → ((f : ℕ) → counted f (k.proc p).ofile 0 nofile ≤ (k.ftable f).ref)
    → (cs : List Closing) × (k' : Kernel) × (exit_close k p ≡ ok (cs, k'))
      × ((f : ℕ) → (k.ftable f).ref ≡ (k'.ftable f).ref + counted f (k.proc p).ofile 0 nofile)
      × ((i : ℕ) → i < nofile → get_or (k'.proc p).ofile i none ≡ none)
      × ((k'.proc p).cwd ≡ none)
      × (k'.irefs ≡ iput k.irefs (k.proc p).cwd)
unfolding exit_close update
exit_close_lem k p ne long enough =
    let d = close_all-Dropped (k.proc p).ofile k.ftable 0 nofile long enough in
    let other : (p == initproc) ≡ false = ne→== p initproc ne in
    (
      d.cs,
      record (with_proc k p (record (k.proc p) { ofile = d.o'; cwd = none })) {
        ftable = d.t';
        irefs = iput k.irefs (k.proc p).cwd;
      },
      rw (other, d.ended),
      d.refs,
      λ i low.
          let inside : (leb 0 i && ltb i (0 + nofile)) ≡ true = ground arith in
          rw (==_refl p) (d.empty i ∙ rw inside),
      rw (==_refl p),
      refl,
    )
