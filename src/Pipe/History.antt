-- ===== src/Pipe/History.antt =====
-- Any interleaving of the runs of writers and readers: bytes leave in the order they came.
use mit6_1810_why_tea_fo.Base.{
  ℕ, ◌≤◌, ◌≡◌, refl, ap, sym, ◌∙◌, Bool, true, false, Option, List, [], ◌∷◌, ◌++◌, append-nil,
  append_assoc, arith, inl, inr, not,
}
use mit6_1810_why_tea_fo.Base.Int.{pos}
use mit6_1810_why_tea_fo.Pipe.{Pipe, pipewrite, piperead, pipeclose}
use mit6_1810_why_tea_fo.Pipe.Contents.{contents, IsValid}
use mit6_1810_why_tea_fo.Pipe.Write.{pipewrite_lem}
use mit6_1810_why_tea_fo.Pipe.Read.{piperead_lem}

-- A run by some process, with what its process and page table answer; or the closing of an end.
pub data Event : Type 0 where
  writes : (killed : ℕ → Bool) (copyin : ℕ → Option ℕ) (addr n i : ℕ) → i ≤ n → Event
  reads : (copyout : ℕ → Bool) (addr : ℕ) (killed : Bool) (n : ℕ) → Event
  closes : (writable : Bool) → Event

-- The pipe at the end of some events, the bytes put into it and those taken out of it.
pub record History : Type 0 where
  pub pipe : Pipe
  pub accepted : List ℕ
  pub consumed : List ℕ

unfoldable pub happen : List Event → Pipe → History
happen [] p = record { pipe = p; accepted = []; consumed = [] }
happen (writes killed copyin addr n i le ∷ es) p =
    let r = pipewrite killed copyin addr p (pos n) i in
    let h = happen es r.pipe in record h { accepted = r.bytes ++ h.accepted }
happen (reads copyout addr killed n ∷ es) p =
    let r = piperead copyout addr killed p (pos n) in
    let h = happen es r.pipe in record h { consumed = r.bytes ++ (r.lost ++ h.consumed) }
happen (closes writable ∷ es) p = happen es (pipeclose p writable).0

piperead-taken :
    (copyout : ℕ → Bool) (addr : ℕ) (killed : Bool) (p : Pipe) (n : ℕ)
    → IsValid p
    → let r = piperead copyout addr killed p (pos n) in
      IsValid r.pipe × (contents p ≡ r.bytes ++ (r.lost ++ contents r.pipe))
piperead-taken copyout addr killed p n v = elim (piperead_lem copyout addr killed p n v) [
  | inl (none_left, open', e) ↦ rw e (v, refl)
  | inr (goes, d) ↦ (d.valid, d.taken)
]

pipeclose-kept :
    (p : Pipe) (writable : Bool)
    → IsValid p
    → IsValid (pipeclose p writable).0 × (contents (pipeclose p writable).0 ≡ contents p)
unfolding pipeclose
pipeclose-kept p true v = (
  record { size = v.size; read_word = v.read_word; write_word = v.write_word; bounded = v.bounded },
  refl,
)
pipeclose-kept p false v = (
  record { size = v.size; read_word = v.read_word; write_word = v.write_word; bounded = v.bounded },
  refl,
)

regroup_in : {c' x : List ℕ} (c b a : List ℕ) → c' ≡ c ++ b → c' ++ a ≡ x → c ++ (b ++ a) ≡ x
regroup_in {c'} c b a e h = sym (append_assoc c b a) ∙ (ap (λ t. t ++ a) (sym e) ∙ h)

regroup_out :
    {c : List ℕ} (c' b l a x y : List ℕ)
    → c ≡ b ++ (l ++ c')
    → c' ++ a ≡ x ++ y
    → c ++ a ≡ (b ++ (l ++ x)) ++ y
regroup_out c' b l a x y e h = ap (λ t. t ++ a) e ∙ simp append_assoc (ap (λ t. b ++ (l ++ t)) h)

-- Over any interleaving of runs of pipewrite, piperead and pipeclose: what was in the pipe and what
-- was put into it is, in order, what was taken out of it and what is still in it.
pub happen-fifo :
    (es : List Event) (p : Pipe)
    → IsValid p
    → let h = happen es p in
      IsValid h.pipe × (contents p ++ h.accepted ≡ h.consumed ++ contents h.pipe)
unfolding happen
happen-fifo [] p v = (v, append-nil (contents p))
happen-fifo (writes killed copyin addr n i le ∷ es) p v =
    let r = pipewrite killed copyin addr p (pos n) i in
    let w = pipewrite_lem killed copyin addr p n i v le in
    let (valid, fifo) = happen-fifo es (pipewrite killed copyin addr p (pos n) i).pipe w.valid in
    (valid, regroup_in (contents p) r.bytes (happen es r.pipe).accepted w.appended fifo)
happen-fifo (reads copyout addr killed n ∷ es) p v =
    let r = piperead copyout addr killed p (pos n) in
    let (kept, taken) = piperead-taken copyout addr killed p n v in
    let (valid, fifo) = happen-fifo es (piperead copyout addr killed p (pos n)).pipe kept in
    (
      valid,
      regroup_out (contents r.pipe) r.bytes r.lost (happen es r.pipe).accepted
          (happen es r.pipe).consumed (contents (happen es r.pipe).pipe) taken fifo,
    )
happen-fifo (closes writable ∷ es) p v =
    let (kept, same) = pipeclose-kept p writable v in
    let (valid, fifo) = happen-fifo es (pipeclose p writable).0 kept in (valid, rw (← same) fifo)

-- The pipe is given back when, and only when, the second of its two ends is closed.
pipeclose_both :
    (p : Pipe) (writable : Bool)
    → p.readopen ≡ true
    → p.writeopen ≡ true
    → ((pipeclose p writable).1 ≡ false)
      × ((pipeclose (pipeclose p writable).0 (not writable)).1 ≡ true)
      × ((pipeclose (pipeclose p writable).0 writable).1 ≡ false)
unfolding pipeclose
pipeclose_both p true hr hw = ground arith
pipeclose_both p false hr hw = ground arith
