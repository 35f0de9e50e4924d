-- ===== src/Log/Reserve.antt =====
-- Room in the log: what begin_op reserves for each call is enough for its writes.
use mit6_1810_why_tea_fo.Base.{
  ℕ, zero, suc, ◌+◌, ◌-◌, ◌≤◌, ◌<◌, ◌≡◌, ◌≢◌, ◌↔◌, refl, Bool, true, false, ◌⊎◌, inl, inr, List, [],
  ◌∷◌, ◌++◌, some, arith, length, length-append, Bool-cases, ap, sym, ◌∙◌, false≢true, All, elem,
}
use mit6_1810_why_tea_fo.Base.Int.{pos}
use mit6_1810_why_tea_fo.Store.{Block, fill, reboot, Disk}
use mit6_1810_why_tea_fo.Log.{
  Log, Result, ok, panic, max_op_blocks, log_blocks, initial, initlog, begin_op, end_op,
  end_op_commit, commit, log_write,
}
use mit6_1810_why_tea_fo.Log.Absorb.{Logged, Absorbed, log_write-Absorbed}
use mit6_1810_why_tea_fo.Log.Calls.{
  System, Step, begin, write, finish, commits, Reach, start, next, modify_and_log, with_block,
  spare, spare-append, spare-le, HasRoom, AreLogged, All-mono, All-append, All-elem, Logged-kept,
  AreLogged-kept, AreLogged-parts,
}

begin_op-log : (l : Log) {l' : Log} → begin_op l ≡ some l' → (l'.n ≡ l.n) × (l'.block ≡ l.block)
unfolding begin_op
begin_op-log l e = ground arith

begin-HasRoom :
    {s : System} (l : Log)
    → HasRoom s
    → begin_op s.log ≡ some l
    → HasRoom (record { log = l; ops = [] ∷ s.ops })
unfolding begin_op
begin-HasRoom {s} l h e =
    let (same, blocks) = begin_op-log s.log e in
    record {
      count = ground (arith, h.count);
      room = ground (arith, spare-le s.ops, h.room, h.count);
      quiet = ground arith;
      once = rw (same, blocks) h.once;
      logged =
          (tt, AreLogged-kept s.log l s.ops (omega arith) (λ i lt. ap (λ f. f i) blocks) h.logged);
    }

log_write-same :
    (l : Log) (b : ℕ) {l' : Log}
    → log_write l b ≡ ok l'
    → (l'.outstanding ≡ l.outstanding) × (l'.committing ≡ l.committing)
unfolding log_write
log_write-same l b e = ground arith

commit-n : (l : Log) → ((commit l).n ≡ 0) × ((commit l).outstanding ≡ l.outstanding)
unfolding commit
commit-n l = ground arith

-- The list of the call that logs the block `b`.
with_block-All : (P : ℕ → Type 0) (b : ℕ) (bs : List ℕ) → P b → All P bs → All P (with_block b bs)
with_block-All P b bs p h = elim (Bool-cases (elem b bs)) [
  | inl old ↦ rw old h
  | inr new ↦ rw new (p, h)
]

-- A block takes a place in the log only if its call has not logged it yet.
Absorbed-room :
    {l l' : Log} (b : ℕ) (bs : List ℕ)
    → All (Logged l) bs
    → length (with_block b bs) ≤ max_op_blocks
    → Absorbed l b l'
    → (l.n ≤ l'.n)
      × (l'.n + (max_op_blocks - length (with_block b bs)) ≤ l.n + (max_op_blocks - length bs))
Absorbed-room {l} {l'} b bs all fits a = elim (Bool-cases (elem b bs)) [
  | inl old ↦ elim a.pinned [
    | inl (same, has, pins) ↦ (omega arith, rw old (omega arith))
    | inr (more, new, pins) ↦
        let (i, lt, e) = All-elem (Logged l) b bs all old in absurd (new i lt e)
  ]
  | inr new ↦ elim a.pinned [
    | inl (same, has, pins) ↦ (omega arith, rw new (omega arith))
    | inr (more, none_there, pins) ↦
        (omega arith, let fits' = rw new at fits in rw new (omega arith))
  ]
]

write-HasRoom :
    {s : System} (xs ys : List (List ℕ)) (bs : List ℕ) (b : ℕ) (data' : Block) (l : Log)
    → HasRoom s
    → s.ops ≡ xs ++ (bs ∷ ys)
    → length (with_block b bs) ≤ max_op_blocks
    → modify_and_log s.log b data' ≡ ok l
    → HasRoom (record { log = l; ops = xs ++ (with_block b bs ∷ ys) })
write-HasRoom {s} xs ys bs b data' l h e fits w =
    let filled = record s.log { store = fill s.log.store b data' } in
    let (same, still) = log_write-same filled b w in
    let a : Absorbed filled b l = log_write-Absorbed filled b h.once w in
    let (before, mine, behind) = AreLogged-parts s.log xs ys bs e h.logged in
    let (le, room) = Absorbed-room b bs mine fits a in
    let total : spare s.ops ≡ spare xs + (max_op_blocks - length bs + spare ys) =
      rw e (spare-append xs (bs ∷ ys)) in
    let total' = spare-append xs (with_block b bs ∷ ys) in
    let size : length s.ops ≡ length xs + suc (length ys) = rw e (length-append xs (bs ∷ ys)) in
    let size' : length (xs ++ (with_block b bs ∷ ys)) ≡ length xs + suc (length ys) =
      length-append xs (with_block b bs ∷ ys) in
    record {
      count = same ∙ h.count ∙ ap pos (size ∙ sym size');
      room = omega (arith, h.room);
      quiet = λ c. omega (arith, h.quiet (sym still ∙ c));
      once = a.once;
      logged =
          All-append (λ (cs : List ℕ). All (Logged l) cs) xs _
            (AreLogged-kept s.log l xs le a.kept before)
            (
              with_block-All (Logged l) b bs a.logged
                  (All-mono (Logged s.log) (Logged l) bs (Logged-kept s.log l le a.kept) mine),
              AreLogged-kept s.log l ys le a.kept behind,
            );
    }

end_op-n :
    (l : Log) (o : ℕ) {c : Bool} {l' : Log}
    → l.outstanding ≡ pos (suc o)
    → end_op l ≡ ok (c, l')
    → (l'.n ≡ l.n)
      × (l'.block ≡ l.block)
      × (l'.outstanding ≡ pos o)
      × (l'.committing ≡ true → o ≡ 0)
unfolding end_op
end_op-n l o h e = ground arith

finish-HasRoom :
    {s : System} (xs ys : List (List ℕ)) (bs : List ℕ) (c : Bool) (l : Log)
    → HasRoom s
    → s.ops ≡ xs ++ (bs ∷ ys)
    → end_op s.log ≡ ok (c, l)
    → HasRoom (record { log = l; ops = xs ++ ys })
finish-HasRoom {s} xs ys bs c l h e w =
    let size : length s.ops ≡ suc (length xs + length ys) =
      rw e (length-append xs (bs ∷ ys) ∙ omega arith) in
    let size' : length (xs ++ ys) ≡ length xs + length ys = length-append xs ys in
    let (same, blocks, counted, last) =
      end_op-n s.log (length xs + length ys) (h.count ∙ ap pos size) w in
    let total : spare s.ops ≡ spare xs + (max_op_blocks - length bs + spare ys) =
      rw e (spare-append xs (bs ∷ ys)) in
    let (before, mine, behind) = AreLogged-parts s.log xs ys bs e h.logged in
    record {
      count = counted ∙ ap pos (sym size');
      room = omega (arith, spare-append xs ys, h.room);
      quiet = λ q. omega (arith, last q);
      once = rw (same, blocks) h.once;
      logged =
          AreLogged-kept s.log l (xs ++ ys) (omega arith) (λ i lt. ap (λ f. f i) blocks)
            (All-append (λ (cs : List ℕ). All (Logged s.log) cs) xs ys before behind);
    }

no_ops : (l : Log) (ops : List (List ℕ)) → length ops ≡ 0 → AreLogged l ops
no_ops l [] e = tt
no_ops l (bs ∷ ops) e = absurd (omega arith)

commits-HasRoom :
    {s : System}
    → HasRoom s
    → s.log.committing ≡ true
    → HasRoom (record { log = end_op_commit s.log; ops = s.ops })
unfolding end_op_commit
commits-HasRoom {s} h c =
    let (none_left, same) = commit-n s.log in
    record {
      count = same ∙ h.count;
      room = omega (arith, h.room, h.quiet c, spare-le s.ops);
      quiet = λ q. absurd (false≢true q);
      once = λ i j hi hj e. absurd (omega arith);
      logged = no_ops (commit s.log) s.ops (h.quiet c);
    }

pub Step-HasRoom : {s t : System} → Step s t → HasRoom s → HasRoom t
Step-HasRoom (begin s l e) h = begin-HasRoom l h e
Step-HasRoom (write s xs ys bs b data' l e fits w) h = write-HasRoom xs ys bs b data' l h e fits w
Step-HasRoom (finish s xs ys bs c l e w) h = finish-HasRoom xs ys bs c l h e w
Step-HasRoom (commits s c) h = commits-HasRoom h c

initlog_idle :
    (d : Disk) (dev logstart : ℕ)
    → let l = initlog (initial (reboot d)) dev logstart in
      (l.n ≡ 0) × (l.outstanding ≡ pos 0) × (l.committing ≡ false)
unfolding initlog
initlog_idle d dev logstart = (refl, refl, refl)

-- In every reachable state `outstanding` counts the running calls, the logged blocks and the new
-- blocks that the running calls may still log, up to MAXOPBLOCKS different ones each, fit into the
-- log, and no call runs during a commit; no block has two places in the log, and each block that a
-- running call has logged has one.
pub Reach-HasRoom : {d : Disk} {dev logstart : ℕ} {s : System} → Reach d dev logstart s → HasRoom s
Reach-HasRoom {d} {dev} {logstart} start =
    let (none_left, idle, open') = initlog_idle d dev logstart in
    record {
      count = idle;
      room = omega arith;
      quiet = λ q. refl;
      once = λ i j hi hj e. absurd (omega arith);
      logged = tt;
    }
Reach-HasRoom (next r st) = Step-HasRoom st (Reach-HasRoom r)

not_committing :
    {b : Bool} {n k : ℕ} → (b ≡ true) ⊎ (b ≡ false) → n ≡ suc k → (b ≡ true → n ≡ 0) → b ≡ false
not_committing (inl t) e h = absurd (omega (arith, h t))
not_committing (inr f) e h = f

end_op-commits :
    (l : Log) (o : ℕ) {c : Bool} {l' : Log}
    → l.outstanding ≡ pos (suc o)
    → l.committing ≡ false
    → end_op l ≡ ok (c, l')
    → (l'.committing ≡ c) × ((c ≡ true) ↔ (o ≡ 0))
unfolding end_op
end_op-commits l zero h q e = ground arith
end_op-commits l (suc o) h q e = ground arith

ok_of_ne_panic : {A : Type 0} (r : Result A) → r ≢ panic → (a : A) × (r ≡ ok a)
ok_of_ne_panic (ok a) h = (a, refl)
ok_of_ne_panic panic h = absurd (h refl)

log_write-ne-panic :
    (l : Log) (b o : ℕ) → l.n < log_blocks → l.outstanding ≡ pos (suc o) → log_write l b ≢ panic
unfolding log_write
log_write-ne-panic l b o lt e = ground arith

end_op-ne-panic : (l : Log) → l.committing ≡ false → end_op l ≢ panic
unfolding end_op
end_op-ne-panic l q = ground arith

-- In every reachable state a running call that has handed fewer than MAXOPBLOCKS different blocks to
-- log_write, each of them as often as it likes, can log any block: log_write does not panic, the
-- logged blocks still fit into the log, and a block that the call has logged before takes no more
-- room.
pub log_write_never_panics :
    {d : Disk} {dev logstart : ℕ} {s : System} (xs ys : List (List ℕ)) (bs : List ℕ) (b : ℕ)
    (data' : Block)
    → Reach d dev logstart s
    → s.ops ≡ xs ++ (bs ∷ ys)
    → length bs < max_op_blocks
    → (l : Log) × (modify_and_log s.log b data' ≡ ok l)
      × (l.n ≤ log_blocks)
      × (elem b bs ≡ true → l.n ≡ s.log.n)
log_write_never_panics {s} xs ys bs b data' r e lt =
    let h = Reach-HasRoom r in
    let l = record s.log { store = fill s.log.store b data' } in
    let size : length s.ops ≡ suc (length xs + length ys) =
      rw e (length-append xs (bs ∷ ys) ∙ omega arith) in
    let total : spare s.ops ≡ spare xs + (max_op_blocks - length bs + spare ys) =
      rw e (spare-append xs (bs ∷ ys)) in
    let (l', w) = ok_of_ne_panic (modify_and_log s.log b data') (
      log_write-ne-panic l b (length xs + length ys) (omega (arith, h.room))
        (h.count ∙ ap pos size)) in
    let fits : length (with_block b bs) ≤ max_op_blocks = ground arith in
    let after = write-HasRoom xs ys bs b data' l' h e fits w in
    let a : Absorbed l b l' = log_write-Absorbed l b h.once w in
    let (before, mine, behind) = AreLogged-parts s.log xs ys bs e h.logged in
    (
      l',
      w,
      omega (arith, after.room),
      λ old. elim a.pinned [
        | inl (same, has, pins) ↦ same
        | inr (more, new, pins) ↦
            let (i, low, here) = All-elem (Logged s.log) b bs mine old in absurd (new i low here)
      ],
    )

-- In every reachable state end_op of a running call does not panic, and it starts a commit exactly
-- when no other call runs.
pub end_op_never_panics :
    {d : Disk} {dev logstart : ℕ} {s : System} (xs ys : List (List ℕ)) (bs : List ℕ)
    → Reach d dev logstart s
    → s.ops ≡ xs ++ (bs ∷ ys)
    → (c : Bool) × (l : Log) × (end_op s.log ≡ ok (c, l))
      × (l.committing ≡ c)
      × ((c ≡ true) ↔ (length xs + length ys ≡ 0))
end_op_never_panics {s} xs ys bs r e =
    let h = Reach-HasRoom r in
    let size : length s.ops ≡ suc (length xs + length ys) =
      rw e (length-append xs (bs ∷ ys) ∙ omega arith) in
    let idle : s.log.committing ≡ false =
      not_committing (Bool-cases s.log.committing) size h.quiet in
    let ((c, l), w) = ok_of_ne_panic (end_op s.log) (end_op-ne-panic s.log idle) in
    let (marked, last) =
      end_op-commits s.log (length xs + length ys) (h.count ∙ ap pos size) idle w in
    (c, l, w, marked, last)
