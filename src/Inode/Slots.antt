-- ===== src/Inode/Slots.antt =====
-- The blocks that an inode has: those of its content by their number, and the indirect block.
use mit6_1810_why_tea_fo.Base.{
  ℕ, ◌-◌, ◌^◌, ◌<◌, ◌≤◌, ◌≡◌, ◌≢◌, refl, true, false, arith, ◌==◌, ltb, if◌then◌else◌,
}
use mit6_1810_why_tea_fo.Fs.{Superblock, Fs}
use mit6_1810_why_tea_fo.Fs.Bits.{is_used}
use mit6_1810_why_tea_fo.Fs.Balloc.{HasMap}
use mit6_1810_why_tea_fo.Inode.{Inode, uint_at, ndirect, maxfile}

abbrev pub entry : Fs → (b k : ℕ) → ℕ
entry fs b k = if b == 0 then 0 else uint_at (fs.data' b) k

-- The block with the number `n`, or 0; the indirect block has the number MAXFILE here.
unfoldable pub slot : Fs → Inode → (n : ℕ) → ℕ
slot fs ip n =
    if ltb n ndirect
    then ip.addrs n
    else if n == maxfile
    then ip.addrs ndirect
    else entry fs (ip.addrs ndirect) (n - ndirect)

pub slot-maxfile : (fs : Fs) (ip : Inode) → slot fs ip maxfile ≡ ip.addrs ndirect
unfolding slot
slot-maxfile fs ip = refl

-- An inode has data blocks only, all in use and no block twice.
pub record HasBlocks (sb : Superblock) (first : ℕ) (fs : Fs) (ip : Inode) : Type 0 where
  pub map' : HasMap sb first fs
  pub small : sb.size < 2 ^ 32
  pub low : (n : ℕ) → n ≤ maxfile → slot fs ip n ≢ 0 → first ≤ slot fs ip n
  pub high : (n : ℕ) → n ≤ maxfile → slot fs ip n ≢ 0 → slot fs ip n < sb.size
  pub used : (n : ℕ) → n ≤ maxfile → slot fs ip n ≢ 0 → is_used sb fs (slot fs ip n) ≡ true
  pub distinct :
      (n m : ℕ) → n ≤ maxfile → m ≤ maxfile → slot fs ip n ≢ 0 → slot fs ip n ≡ slot fs ip m → n ≡ m

-- A free block `a` has been given the number `k`.
pub record Grown (sb : Superblock) (first : ℕ) (fs : Fs) (ip : Inode) (k a : ℕ) (fs' : Fs)
    (ip' : Inode) : Type 0 where
  pub free : is_used sb fs a ≡ false
  pub low : first ≤ a
  pub high : a < sb.size
  pub used : (x : ℕ) → x < sb.size → is_used sb fs' x ≡ (if x == a then true else is_used sb fs x)
  pub slots : (n : ℕ) → n ≤ maxfile → slot fs' ip' n ≡ (if n == k then a else slot fs ip n)
  pub map' : HasMap sb first fs'

module _ (sb : Superblock) (first : ℕ) (fs fs' : Fs) (ip ip' : Inode) where
  pub Grown-HasBlocks :
      (k a : ℕ)
      → HasBlocks sb first fs ip
      → Grown sb first fs ip k a fs' ip'
      → HasBlocks sb first fs' ip'
  Grown-HasBlocks k a h g = record {
    map' = g.map';
    small = h.small;
    low = λ n le ne. ground (arith, g.slots n, h.low n, g.low);
    high = λ n le ne. ground (arith, g.slots n, h.high n, g.high);
    used =
        λ n le ne. ground (arith, g.slots n, h.high n, h.used n, g.used (slot fs' ip' n), g.high);
    distinct = λ n m le le' ne e.
        ground (arith, g.slots n, g.slots m, h.distinct n m, h.used n, h.used m, g.free);
  }

  -- The same blocks in use under the same numbers.
  pub same_slots-HasBlocks :
      HasBlocks sb first fs ip
      → HasMap sb first fs'
      → ((x : ℕ) → x < sb.size → is_used sb fs' x ≡ is_used sb fs x)
      → ((n : ℕ) → slot fs' ip' n ≡ slot fs ip n)
      → HasBlocks sb first fs' ip'
  same_slots-HasBlocks h map' used slots = record {
    map' = map';
    small = h.small;
    low = λ n le ne. ground (arith, slots n, h.low n);
    high = λ n le ne. ground (arith, slots n, h.high n);
    used = λ n le ne. ground (arith, slots n, h.high n, h.used n, used (slot fs ip n));
    distinct = λ n m le le' ne e. ground (arith, slots n, slots m, h.distinct n m);
  }
