-- ===== src/Fs.antt =====
-- The blocks of kernel/fs.c: the free map (bzero, balloc, bfree). There is one device. A block is a
-- function from the index of a byte to the byte, and the state has what bread returns for each
-- block; log_write is put on record. That a log_write does not panic is a matter of Log, and what
-- becomes of the buffers, of Bio.
pub mod Bits
pub mod Balloc
mod Tests
use mit6_1810_why_tea_fo.Base.{
  ℕ, zero, suc, ◌+◌, ◌-◌, ◌*◌, ◌/◌, ◌%◌, Bool, true, false, not, Option, none, some, List, [], ◌∷◌,
  ◌++◌, ◌==◌, ltb, if◌then◌else◌,
}
use mit6_1810_why_tea_fo.Store.{update}

abbrev pub bsize : ℕ
bsize = 1024

-- BPB
abbrev pub bits_per_block : ℕ
bits_per_block = bsize * 8

-- the fields of `struct superblock` that are used here
pub record Superblock : Type 0 where
  pub size : ℕ
  pub ninodes : ℕ
  pub inodestart : ℕ
  pub bmapstart : ℕ

pub record Fs : Type 0 where
  pub data' : ℕ → ℕ → ℕ
  -- the arguments of log_write, the last one first
  pub logged : List ℕ

abbrev pub set_byte : Fs → (b i v : ℕ) → Fs
set_byte fs b i v = record fs { data' = update fs.data' b (update (fs.data' b) i v) }

abbrev pub log_write : Fs → (b : ℕ) → Fs
log_write fs b = record fs { logged = b ∷ fs.logged }

-- `x & (1 << k)` is not 0.
unfoldable pub bit : (x k : ℕ) → Bool
bit x zero = x % 2 == 1
bit x (suc k) = bit (x / 2) k

-- `x | (1 << k)`
pub set_bit : (x k : ℕ) → ℕ
set_bit x zero = x / 2 * 2 + 1
set_bit x (suc k) = set_bit (x / 2) k * 2 + x % 2

-- `x & ~(1 << k)`
pub clear_bit : (x k : ℕ) → ℕ
clear_bit x zero = x / 2 * 2
clear_bit x (suc k) = clear_bit (x / 2) k * 2 + x % 2

pub bzero : Fs → (bno : ℕ) → Fs
bzero fs bno = log_write (record fs { data' = update fs.data' bno (λ i. 0) }) bno

module _ (sb : Superblock) where
  -- BBLOCK
  abbrev pub bblock : ℕ → ℕ
  bblock b = b / bits_per_block + sb.bmapstart

  -- what balloc does at a free block, before it returns `b + bi`
  abbrev pub taken : Fs → (b bi : ℕ) → Fs
  taken fs b bi =
      let map' =
        set_byte fs (bblock b) (bi / 8) (set_bit (fs.data' (bblock b) (bi / 8)) (bi % 8)) in
      bzero (log_write map' (bblock b)) (b + bi)

  -- the inner loop of balloc at `bi`, with `n` rounds to BPB
  pub balloc_bits : Fs → (b bi n : ℕ) → Option (ℕ × Fs)
  unfolding bit
  balloc_bits fs b bi zero = none
  balloc_bits fs b bi (suc n) =
      let rest = balloc_bits fs b (bi + 1) n in
      if not (ltb (b + bi) sb.size)
      then none
      else if not (bit (fs.data' (bblock b) (bi / 8)) (bi % 8))
      then some (b + bi, taken fs b bi)
      else rest

  abbrev pub or_else : Option (ℕ × Fs) → Option (ℕ × Fs) → Option (ℕ × Fs)
  or_else none next = next
  or_else (some r) next = some r

  -- the outer loop of balloc at `b`
  pub balloc_blocks : (fuel : ℕ) → Fs → (b : ℕ) → Option (ℕ × Fs)
  balloc_blocks zero fs b = none
  balloc_blocks (suc fuel) fs b =
      let next = balloc_blocks fuel fs (b + bits_per_block) in
      let r = or_else (balloc_bits fs b 0 bits_per_block) next in
      if not (ltb b sb.size) then none else r

  abbrev pub or_zero : Fs → Option (ℕ × Fs) → ℕ × Fs
  or_zero fs none = (0, fs)
  or_zero fs (some r) = r

  -- The map has `size / BPB + 1` blocks at most.
  pub balloc : Fs → ℕ × Fs
  balloc fs = or_zero fs (balloc_blocks (sb.size / bits_per_block + 1) fs 0)

  -- None is a panic.
  pub bfree : Fs → (b : ℕ) → Option Fs
  unfolding bit clear_bit
  bfree fs b =
      let bi = b % bits_per_block in
      let x = fs.data' (bblock b) (bi / 8) in
      if not (bit x (bi % 8))
      then none
      else some (log_write (set_byte fs (bblock b) (bi / 8) (clear_bit x (bi % 8))) (bblock b))
