-- ===== src/Log.antt =====
-- kernel/log.c: transactions of file-system calls over a redo log on the disk.
pub mod Writes
pub mod Install
pub mod Replay
pub mod Recovery
pub mod Redo
pub mod Commit
pub mod Crash
mod Tests
pub mod Absorb
pub mod Interrupted
pub mod Calls
pub mod Reserve
use mit6_1810_why_tea_fo.Base.{
  ℕ, zero, suc, ◌+◌, ◌-◌, ◌*◌, Bool, true, false, Option, none, some, ◌==◌, ltb, leb, if◌then◌else◌,
}
use mit6_1810_why_tea_fo.Base.Int.{ℤ, pos, negsuc}
use mit6_1810_why_tea_fo.Store.{Block, Disk, Store, update, fill, bwrite, bpin, bunpin, reboot}

abbrev pub max_op_blocks : ℕ
max_op_blocks = 10

abbrev pub log_blocks : ℕ
log_blocks = max_op_blocks * 3

-- `struct log` with its header `lh` and the disk that it works on. `struct logheader` is the count
-- `n` and the array `block`; the array is a function of its index.
pub record Log : Type 0 where
  pub start : ℕ
  pub outstanding : ℤ
  pub committing : Bool
  pub dev : ℕ
  pub n : ℕ
  pub block : ℕ → ℕ
  pub store : Store

pub data Result (A : Type 0) : Type 0 where
  ok : A → Result A
  panic : Result A

-- `bunpin` where `recovering == 0`
abbrev pub unpin : Bool → Store → ℕ → Store
unpin true s b = s
unpin false s b = bunpin s b

module _ (start : ℕ) (block : ℕ → ℕ) where
  -- the body of the loop of install_trans
  pub install_step : (recovering : Bool) → Store → (tail : ℕ) → Store
  install_step recovering s tail =
      let copied = fill s (block tail) (s.cache (start + tail + 1)) in
      unpin recovering (bwrite copied (block tail)) (block tail)

  -- that loop from `tail` with `k` rounds left
  pub install_loop : (recovering : Bool) → Store → (tail k : ℕ) → Store
  install_loop recovering s tail zero = s
  install_loop recovering s tail (suc k) =
      install_loop recovering (install_step recovering s tail) (tail + 1) k

  -- the loop of write_log
  pub write_log_loop : Store → (tail k : ℕ) → Store
  write_log_loop s tail zero = s
  write_log_loop s tail (suc k) =
      let copied = fill s (start + tail + 1) (s.cache (block tail)) in
      write_log_loop (bwrite copied (start + tail + 1)) (tail + 1) k

pub install_trans : Log → Bool → Log
unfolding install_loop install_step
install_trans l recovering = record l {
  store = install_loop l.start l.block recovering l.store 0 l.n;
}

-- `for (i = 0; i < n; i++) log.lh.block[i] = lh->block[i];` Word `i + 1` of the header block is
-- `lh->block[i]`, word 0 is `lh->n`.
pub read_blocks : Block → (ℕ → ℕ) → (i k : ℕ) → (ℕ → ℕ)
read_blocks words block i zero = block
read_blocks words block i (suc k) = read_blocks words (update block i (words (i + 1))) (i + 1) k

pub read_head : Log → Log
unfolding read_blocks
read_head l =
    let words = l.store.cache l.start in
    record l { n = words 0; block = read_blocks words l.block 0 (words 0) }

pub write_blocks : (ℕ → ℕ) → Block → (i k : ℕ) → Block
write_blocks block words i zero = words
write_blocks block words i (suc k) = write_blocks block (update words (i + 1) (block i)) (i + 1) k

pub write_head : Log → Log
unfolding write_blocks
write_head l =
    let words = write_blocks l.block (update (l.store.cache l.start) 0 l.n) 0 l.n in
    record l { store = bwrite (fill l.store l.start words) l.start }

pub recover_from_log : Log → Log
unfolding read_head install_trans write_head
recover_from_log l = let l' = install_trans (read_head l) true in write_head (record l' { n = 0 })

-- `log` as it stands in zeroed memory, over a disk
abbrev pub initial : Store → Log
initial s = record {
  start = 0;
  outstanding = pos 0;
  committing = false;
  dev = 0;
  n = 0;
  block = λ _. 0;
  store = s;
}

-- `sizeof (struct logheader) >= BSIZE` is `4 + 30 * 4 >= 1024`, and does not hold.
pub initlog : Log → (dev logstart : ℕ) → Log
unfolding recover_from_log
initlog l dev logstart = recover_from_log (record l { start = logstart; dev = dev })

pub write_log : Log → Log
unfolding write_log_loop
write_log l = record l { store = write_log_loop l.start l.block l.store 0 l.n }

-- The body of commit's `if`.
pub commit_some : Log → Log
unfolding write_log write_head install_trans
commit_some l =
    let l' = install_trans (write_head (write_log l)) false in write_head (record l' { n = 0 })

pub commit : Log → Log
unfolding commit_some
commit l = if ltb 0 l.n then commit_some l else l

-- `log.lh.n + (log.outstanding+1)*MAXOPBLOCKS > LOGBLOCKS`
abbrev pub log_full : ℕ → ℤ → Bool
log_full n (pos o) = ltb log_blocks (n + (o + 1) * max_op_blocks)
log_full n (negsuc o) = ltb log_blocks (n - o * max_op_blocks)

abbrev pub increment : ℤ → ℤ
increment (pos o) = pos (o + 1)
increment (negsuc zero) = pos 0
increment (negsuc (suc o)) = negsuc o

abbrev pub decrement : ℤ → ℤ
decrement (pos zero) = negsuc 0
decrement (pos (suc o)) = pos o
decrement (negsuc o) = negsuc (suc o)

-- One round of begin_op's loop: `none` where the caller goes to sleep on the log.
pub begin_op : Log → Option Log
begin_op l =
    if l.committing
    then none
    else if log_full l.n l.outstanding
    then none
    else some (record l { outstanding = increment l.outstanding })

abbrev pub is_zero : ℤ → Bool
is_zero (pos zero) = true
is_zero (pos (suc o)) = false
is_zero (negsuc o) = false

-- end_op up to its first release of the lock, with `do_commit`. Both branches lead to a wakeup of
-- the sleepers in begin_op: at once, or after the commit.
pub end_op : Log → Result (Bool × Log)
end_op l =
    let outstanding = decrement l.outstanding in
    if l.committing
    then panic
    else if is_zero outstanding
    then ok (true, record l { outstanding = outstanding; committing = true })
    else ok (false, record l { outstanding = outstanding })

-- the rest of end_op where `do_commit` is set
pub end_op_commit : Log → Log
unfolding commit
end_op_commit l = record (commit l) { committing = false }

abbrev pub less_than_one : ℤ → Bool
less_than_one (pos zero) = true
less_than_one (pos (suc o)) = false
less_than_one (negsuc o) = true

-- `for (i = 0; i < n; i++) if (block[i] == b) break;` with `k` rounds left
pub find_slot : (ℕ → ℕ) → ℕ → (i k : ℕ) → ℕ
find_slot block b i zero = i
find_slot block b i (suc k) =
    let rest = find_slot block b (i + 1) k in if block i == b then i else rest

-- `b` is the buffer's block number.
pub log_write : Log → ℕ → Result Log
unfolding find_slot
log_write l b =
    let i = find_slot l.block b 0 l.n in
    if leb log_blocks l.n
    then panic
    else if less_than_one l.outstanding
    then panic
    else if i == l.n
    then ok (record l { block = update l.block i b; store = bpin l.store b; n = l.n + 1 })
    else ok (record l { block = update l.block i b })
