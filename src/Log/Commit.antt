-- ===== src/Log/Commit.antt =====
-- The block writes of a commit, in order.
use mit6_1810_why_tea_fo.Base.{
  ℕ, ◌+◌, ◌≤◌, ◌<◌, ◌≡◌, ◌∙◌, ap, false, List, [], ◌∷◌, ◌++◌, append_assoc, arith, take, lt→ltb,
}
use mit6_1810_why_tea_fo.Store.{Block, Disk, Store, update, fill, bwrite, replay}
use mit6_1810_why_tea_fo.Log.{
  Log, log_blocks, commit, commit_some, write_blocks, write_log_loop, install_loop,
}
use mit6_1810_why_tea_fo.Log.Writes.{
  update_self, update_ne, AreHome, log_writes, home_writes, write_blocks_lem, write_log_loop-copied,
  write_log_loop-trace,
}
use mit6_1810_why_tea_fo.Log.Install.{install-trace}

-- The block writes of a commit, the oldest first.
abbrev pub commit_writes : Log → List (ℕ × Block)
commit_writes l = (commit (record l { store = record l.store { trace = [] } })).store.trace

-- The disk if the power fails after `j` block writes of the commit.
abbrev pub crashed : Log → ℕ → Disk
crashed l j = replay (take j (commit_writes l)) l.store.disk

-- A log that is about to be committed: its blocks fit and are home blocks, and the log on the disk
-- is empty.
pub record IsReady (l : Log) : Type 0 where
  pub some_blocks : 0 < l.n
  pub fits : l.n ≤ log_blocks
  pub home : AreHome l.start l.block 0 l.n
  pub empty : l.store.disk l.start 0 ≡ 0

-- The parts of a commit's writes: the copies, the header, the home blocks, the empty header.
pub record Parts (l : Log) : Type 0 where
  pub header : Block
  pub cleared : Block
  pub count : header 0 ≡ l.n
  pub homes : (i : ℕ) → i < l.n → header (i + 1) ≡ l.block i
  pub zero : cleared 0 ≡ 0
  pub order :
      commit_writes l
      ≡ log_writes l.start l.block l.store.cache 0 l.n
        ++ ((l.start, header)
            ∷ (home_writes l.block l.store.cache 0 l.n ++ ((l.start, cleared) ∷ [])))

regroup {ℓ} :
    {A : Type ℓ} (xs : List A) (x : A) (ys zs : List A)
    → ((xs ++ (x ∷ [])) ++ ys) ++ zs ≡ xs ++ (x ∷ (ys ++ zs))
regroup xs x ys zs = simp append_assoc

commit-eq-some : (l : Log) → 0 < l.n → commit l ≡ commit_some l
unfolding commit
commit-eq-some l h = rw (lt→ltb 0 l.n h)

pub commit-Parts : (l : Log) → IsReady l → Parts l
unfolding commit_some
commit-Parts l is =
    let s0 : Store = record l.store { trace = [] } in
    let s1 : Store = write_log_loop l.start l.block s0 0 l.n in
    let words : Block = write_blocks l.block (update (s1.cache l.start) 0 l.n) 0 l.n in
    let s2 : Store = bwrite (fill s1 l.start words) l.start in
    let s3 : Store = install_loop l.start l.block false s2 0 l.n in
    let copied : (i : ℕ)
        → 0 ≤ i
        → i < 0 + l.n
        → s2.cache (l.start + i + 1) ≡ l.store.cache (l.block i) =
      λ i le lt.
        update_ne s1.cache l.start words (l.start + i + 1) (omega arith)
        ∙ write_log_loop-copied l.start l.block s0 0 l.n i is.home (omega (arith, is.fits)) le lt in
    let logged : s1.trace ≡ log_writes l.start l.block l.store.cache 0 l.n =
      write_log_loop-trace l.start l.block s0 0 l.n is.home (omega (arith, is.fits)) in
    let traced : s3.trace
        ≡ (log_writes l.start l.block l.store.cache 0 l.n ++ ((l.start, words) ∷ []))
          ++ home_writes l.block l.store.cache 0 l.n =
      install-trace l.start l.block false l.store.cache s2 0 l.n is.home (omega (arith, is.fits))
        copied
      ∙ rw (logged, update_self s1.cache l.start words) in
    record {
      header = words;
      cleared = update (s3.cache l.start) 0 0;
      count =
          write_blocks_lem l.block (update (s1.cache l.start) 0 l.n) 0 l.n 0
          ∙ (ground arith ∙ update_self (s1.cache l.start) 0 l.n);
      homes = λ i lt.
          write_blocks_lem l.block (update (s1.cache l.start) 0 l.n) 0 l.n (i + 1) ∙ ground arith;
      zero = update_self (s3.cache l.start) 0 0;
      order =
          ap (λ c. c.store.trace) (commit-eq-some (record l { store = s0 }) is.some_blocks)
          ∙ ap (λ v. s3.trace ++ ((l.start, v) ∷ []))
              (update_self s3.cache l.start (update (s3.cache l.start) 0 0))
          ∙ ap (λ t. t ++ ((l.start, update (s3.cache l.start) 0 0) ∷ [])) traced
          ∙ regroup (log_writes l.start l.block l.store.cache 0 l.n) _ _ _;
    }
