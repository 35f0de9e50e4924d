-- ===== src/Process/Effects.antt =====
-- What kfork's allocation and kwait's loop find and change.
use mit6_1810_why_tea_fo.Base.{
  ℕ, zero, suc, ◌+◌, ◌<◌, ◌≤◌, ◌≡◌, ◌≢◌, refl, ◌∙◌, sym, ap, Bool, true, false, Option, none, some,
  List, arith, ◌==◌, Bool-cases, inl, inr, ==→eq, ==→ne,
}
use mit6_1810_why_tea_fo.Store.{update}
use mit6_1810_why_tea_fo.Files.{Ofile, Result, ok, panic, Ensures, nofile, Closing}
use mit6_1810_why_tea_fo.Files
use mit6_1810_why_tea_fo.Process.{
  Procs, Kernel, Trapframe, ProcState, unused, used, zombie, is_unused, is_zombie, is_proc, nproc,
  initproc, unused_proc, filled, allocproc, freeproc,
}
use mit6_1810_why_tea_fo.Process.Fork.{fork_alloc, fork_copy, copied_into, dup_all}
use mit6_1810_why_tea_fo.Process.Exit.{
  Children, exited, alive, childless, scan_children, one_more, exit_close, close_all, closed,
}
use mit6_1810_why_tea_fo.Process.Family.{But, Alike}

-- What kfork may have done to the table before it shows the child to others.
pub data Forked (k : Kernel) : Option ℕ × Kernel → Type 0 where
  full : (k' : Kernel) → k'.proc ≡ k.proc → k'.cpus ≡ k.cpus → Forked k (none, k')
  undone :
      (x : ℕ) (k' : Kernel)
      → (k.proc x).state ≡ unused
      → But x k.proc k'.proc
      → (k'.proc x).state ≡ unused
      → (k'.proc x).parent ≡ none
      → k'.cpus ≡ k.cpus
      → Forked k (none, k')
  made :
      (x : ℕ) (k' : Kernel)
      → (k.proc x).state ≡ unused
      → x < nproc
      → But x k.proc k'.proc
      → (k'.proc x).state ≡ used
      → (k'.proc x).parent ≡ (k.proc x).parent
      → k'.cpus ≡ k.cpus
      → Forked k (some x, k')

is_unused→eq : (s : ProcState) → is_unused s ≡ true → s ≡ unused
is_unused→eq s e = ground arith

unused_proc-found :
    (t : Procs) (p n r : ℕ) → unused_proc t p n ≡ some r → ((t r).state ≡ unused) × (r < p + n)
unfolding unused_proc
unused_proc-found t p zero r e = ground arith
unused_proc-found t p (suc n) r e = elim (Bool-cases (is_unused (t p).state)) [
  | inl u ↦ ground (arith, is_unused→eq (t p).state)
  | inr u ↦ ground (arith, unused_proc-found t (p + 1) n r)
]

filled-Forked :
    (k : Kernel) (frame : Option Trapframe) (pagetable r : Option ℕ)
    → unused_proc k.proc 0 nproc ≡ r
    → Forked k (filled k frame pagetable r)
unfolding freeproc update
filled-Forked k frame pagetable none e = full k refl refl
filled-Forked k none pagetable (some p) e =
    undone p _ (unused_proc-found k.proc 0 nproc p e).0 (λ x ne. ground arith) (ground arith)
      (ground arith) refl
filled-Forked k (some f) none (some p) e =
    undone p _ (unused_proc-found k.proc 0 nproc p e).0 (λ x ne. ground arith) (ground arith)
      (ground arith) refl
filled-Forked k (some f) (some a) (some p) e =
    let (free, low) = unused_proc-found k.proc 0 nproc p e in
    made p _ free (omega arith) (λ x ne. ground arith) (ground arith) (ground arith) refl

copied_into-Forked :
    (k₀ k : Kernel) (p np : ℕ) (r : Result (Ofile × Files.Table))
    → Forked k₀ (some np, k)
    → Ensures (Forked k₀) (copied_into k p np r)
unfolding update
copied_into-Forked k₀ k p np panic h = tt
copied_into-Forked k₀ k p np (ok (o, t)) (made _ _ free low but is parent cpus) =
    made np _ free low (λ x ne. ground (arith, but x)) (ground arith) (ground arith) cpus

fork_copy-Forked :
    (k₀ : Kernel) (uvmcopy : Bool) (p : ℕ) (r : Option ℕ × Kernel)
    → Forked k₀ r
    → Ensures (Forked k₀) (fork_copy uvmcopy p r)
unfolding freeproc update
fork_copy-Forked k₀ uvmcopy p (none, k) h = h
fork_copy-Forked k₀ false p (some np, k) (made _ _ free low but is parent cpus) =
    undone np _ free (λ x ne. ground (arith, but x)) (ground arith) (ground arith) cpus
fork_copy-Forked k₀ true p (some np, k) h =
    copied_into-Forked k₀ k p np (dup_all (k.proc p).ofile (k.proc np).ofile k.ftable 0 nofile) h

pub fork_alloc-Forked :
    (k : Kernel) (p : ℕ) (frame : Option Trapframe) (pagetable : Option ℕ) (uvmcopy : Bool)
    → Ensures (Forked k) (fork_alloc k p frame pagetable uvmcopy)
unfolding fork_alloc allocproc
fork_alloc-Forked k p frame pagetable uvmcopy =
    fork_copy-Forked k uvmcopy p _
      (filled-Forked k frame pagetable (unused_proc k.proc 0 nproc) refl)

-- What kwait's loop says of the children of `me` from `p` on, `n` entries.
pub data Scanned (t : Procs) (me p n : ℕ) : Children → Type 0 where
  has_exited : (x : ℕ) → (t x).parent ≡ some me → (t x).state ≡ zombie → Scanned t me p n (exited x)
  are_alive :
      ((x : ℕ) → p ≤ x → x < p + n → (t x).parent ≡ some me → (t x).state ≢ zombie)
      → Scanned t me p n alive
  are_none : ((x : ℕ) → p ≤ x → x < p + n → (t x).parent ≢ some me) → Scanned t me p n childless

Scanned-more :
    (t : Procs) (me p n : ℕ) {r : Children}
    → is_proc (t p).parent me ≡ true
    → (t p).state ≢ zombie
    → Scanned t me (p + 1) n r
    → Scanned t me p (suc n) (one_more r)
Scanned-more t me p n own on (has_exited x e z) = has_exited x e z
Scanned-more t me p n own on (are_alive all) = are_alive (λ x low high e. λ z.
    elim (Bool-cases (x == p)) [
      | inl here ↦ on (ap (λ y. (t y).state) (sym (==→eq _ _ here)) ∙ z)
      | inr later ↦ let other = ==→ne _ _ later in all x (omega arith) (omega arith) e z
    ])
Scanned-more t me p n own on (are_none all) = are_alive (λ x low high e. λ z.
    elim (Bool-cases (x == p)) [
      | inl here ↦ on (ap (λ y. (t y).state) (sym (==→eq _ _ here)) ∙ z)
      | inr later ↦ let other = ==→ne _ _ later in all x (omega arith) (omega arith) e
    ])

Scanned-other :
    (t : Procs) (me p n : ℕ) {r : Children}
    → is_proc (t p).parent me ≡ false
    → Scanned t me (p + 1) n r
    → Scanned t me p (suc n) r
Scanned-other t me p n other (has_exited x e z) = has_exited x e z
Scanned-other t me p n other (are_alive all) = are_alive (λ x low high e.
    elim (Bool-cases (x == p)) [
      | inl here ↦
          let here' : (t p).parent ≡ some me = ap (λ y. (t y).parent) (sym (==→eq _ _ here)) ∙ e in
          absurd (ground arith)
      | inr later ↦ let ne = ==→ne _ _ later in all x (omega arith) (omega arith) e
    ])
Scanned-other t me p n other (are_none all) = are_none (λ x low high e. elim (Bool-cases (x == p)) [
  | inl here ↦
      let here' : (t p).parent ≡ some me = ap (λ y. (t y).parent) (sym (==→eq _ _ here)) ∙ e in
      ground arith
  | inr later ↦ let ne = ==→ne _ _ later in all x (omega arith) (omega arith) e
])

is_proc→eq : (o : Option ℕ) (p : ℕ) → is_proc o p ≡ true → o ≡ some p
is_proc→eq o p e = ground arith

is_zombie→eq : (s : ProcState) → is_zombie s ≡ true → s ≡ zombie
is_zombie→eq s e = ground arith

pub scan_children-Scanned : (t : Procs) (me p n : ℕ) → Scanned t me p n (scan_children t me p n)
unfolding scan_children
scan_children-Scanned t me p zero = are_none (λ x low high e. omega arith)
scan_children-Scanned t me p (suc n) = elim (Bool-cases (is_proc (t p).parent me)) [
  | inr other ↦ rw other (Scanned-other t me p n other (scan_children-Scanned t me (p + 1) n))
  | inl own ↦ elim (Bool-cases (is_zombie (t p).state)) [
    | inl z ↦ rw (own, z) (has_exited p (is_proc→eq _ _ own) (is_zombie→eq _ z))
    | inr on ↦
        rw (own, on)
          (Scanned-more t me p n own (λ z. ground arith) (scan_children-Scanned t me (p + 1) n))
  ]
]

-- exit_close leaves all that matters here.
pub record Closed (k k' : Kernel) : Type 0 where
  pub alike : (x : ℕ) → Alike (k.proc x) (k'.proc x)
  pub cpus : k'.cpus ≡ k.cpus

closed-Closed :
    (k : Kernel) (p : ℕ) (r : Result (List Closing × Ofile × Files.Table))
    → Ensures (λ o. Closed k o.1) (closed k p r)
unfolding update
closed-Closed k p panic = tt
closed-Closed k p (ok (cs, o, t)) = record { alike = λ x. ground arith; cpus = refl }

pub exit_close-Closed : (k : Kernel) (p : ℕ) → Ensures (λ o. Closed k o.1) (exit_close k p)
unfolding exit_close
exit_close-Closed k p = elim (Bool-cases (p == initproc)) [
  | inl e ↦ rw e tt
  | inr e ↦ rw e (closed-Closed k p (close_all (k.proc p).ofile k.ftable 0 nofile))
]
