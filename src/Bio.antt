-- ===== src/Bio.antt =====
-- kernel/bio.c: the cache of NBUF buffers, in a doubly linked ring ordered by last use. A buffer is
-- its index in bcache.buf, and `head`, behind the last index, is bcache.head; the fields of the
-- buffers are functions of the index. bcache.lock is held throughout each function but for bread
-- and bwrite; acquiresleep, which bget ends with, and releasesleep are not modelled, and whether
-- the caller holds the buffer's sleep lock is an argument. The disk driver's virtio_disk_rw copies
-- one block between the buffer and `disk`.
pub mod Links
pub mod Order
pub mod Search
pub mod Lookup
mod Tests
use mit6_1810_why_tea_fo.Base.{
  ℕ, zero, suc, ◌+◌, ◌-◌, ◌*◌, Bool, true, false, ◌&&◌, Option, none, some, ◌==◌, if◌then◌else◌,
}
use mit6_1810_why_tea_fo.Base.Word.{add32, sub32}
use mit6_1810_why_tea_fo.Store.{Block, Disk, update}
use mit6_1810_why_tea_fo.Log.{max_op_blocks}

abbrev pub nbuf : ℕ
nbuf = max_op_blocks * 3

abbrev pub head : ℕ
head = nbuf

pub record Cache : Type 0 where
  pub next : ℕ → ℕ
  pub prev : ℕ → ℕ
  pub dev : ℕ → ℕ
  pub blockno : ℕ → ℕ
  pub valid : ℕ → Bool
  pub refcnt : ℕ → ℕ
  pub data' : ℕ → Block

pub data Result (A : Type 0) : Type 0 where
  ok : A → Result A
  panic : Result A

-- `b->next = head.next; b->prev = &head; head.next->prev = b; head.next = b;`
pub push_front : Cache → ℕ → Cache
push_front c b = record c {
  next = update (update c.next b (c.next head)) head b;
  prev = update (update c.prev b head) (c.next head) b;
}

-- `b->next->prev = b->prev; b->prev->next = b->next;`
pub unlink : Cache → ℕ → Cache
unlink c b = record c {
  prev = update c.prev (c.next b) (c.prev b);
  next = update c.next (c.prev b) (c.next b);
}

-- the loop of binit at buffer `b`, with `k` to go
pub binit_loop : Cache → (b k : ℕ) → Cache
binit_loop c b zero = c
binit_loop c b (suc k) = binit_loop (push_front c b) (b + 1) k

pub binit : Cache → Cache
unfolding binit_loop push_front
binit c =
    let empty = record c { next = update c.next head head; prev = update c.prev head head } in
    binit_loop empty 0 nbuf

-- A loop of bget over the ring, by `step`, on fuel: the first buffer that passes the test.
pub scan : (step : ℕ → ℕ) → (test : ℕ → Bool) → (fuel b : ℕ) → Option ℕ
scan step test zero b = none
scan step test (suc fuel) b =
    let rest = scan step test fuel (step b) in
    if b == head then none else if test b then some b else rest

-- `b->dev == dev && b->blockno == blockno`
abbrev pub is_for : Cache → (dev blockno b : ℕ) → Bool
is_for c dev blockno b = (c.dev b == dev) && (c.blockno b == blockno)

abbrev pub is_unused : Cache → ℕ → Bool
is_unused c b = c.refcnt b == 0

abbrev pub recycle : Cache → (dev blockno b : ℕ) → Cache
recycle c dev blockno b = record c {
  dev = update c.dev b dev;
  blockno = update c.blockno b blockno;
  valid = update c.valid b false;
  refcnt = update c.refcnt b 1;
}

-- The bodies of the two loops and the panic behind them, for the buffers at which the loops stop.
abbrev pub chosen : Cache → (dev blockno : ℕ) → (cached unused : Option ℕ) → Result (ℕ × Cache)
chosen c dev blockno (some b) unused =
    ok (b, record c { refcnt = update c.refcnt b (add32 (c.refcnt b) 1) })
chosen c dev blockno none (some b) = ok (b, recycle c dev blockno b)
chosen c dev blockno none none = panic

-- The buffer, with a reference to it taken. The fuel is one more than the number of buffers.
pub bget : Cache → (dev blockno : ℕ) → Result (ℕ × Cache)
unfolding scan
bget c dev blockno =
    chosen c dev blockno (scan c.next (is_for c dev blockno) (nbuf + 1) (c.next head))
      (scan c.prev (is_unused c) (nbuf + 1) (c.prev head))

-- `virtio_disk_rw(b, 0)` and `b->valid = 1`, for a buffer that is not valid
abbrev pub load : Disk → Cache → ℕ → Cache
load disk c b =
    if c.valid b
    then c
    else record c { data' = update c.data' b (disk (c.blockno b)); valid = update c.valid b true }

pub bread : Disk → Cache → (dev blockno : ℕ) → Result (ℕ × Cache)
unfolding bget
bread disk c dev blockno = elim (bget c dev blockno) [
  | ok (b, c') ↦ ok (b, load disk c' b)
  | panic ↦ panic
]

pub bwrite : (holding : Bool) → Disk → Cache → ℕ → Result Disk
bwrite holding disk c b = if holding then ok (update disk (c.blockno b) (c.data' b)) else panic

pub brelse : (holding : Bool) → Cache → ℕ → Result Cache
unfolding push_front unlink
brelse holding c b =
    let left = record c { refcnt = update c.refcnt b (sub32 (c.refcnt b) 1) } in
    if holding
    then ok (if left.refcnt b == 0 then push_front (unlink left b) b else left)
    else panic

pub bpin : Cache → ℕ → Cache
bpin c b = record c { refcnt = update c.refcnt b (add32 (c.refcnt b) 1) }

pub bunpin : Cache → ℕ → Cache
bunpin c b = record c { refcnt = update c.refcnt b (sub32 (c.refcnt b) 1) }
