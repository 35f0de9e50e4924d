-- ===== src/Inode/Update.antt =====
-- What iupdate leaves alone.
use mit6_1810_why_tea_fo.Base.{
  ℕ, ◌+◌, ◌-◌, ◌*◌, ◌/◌, ◌<◌, ◌≤◌, ◌≡◌, ◌≢◌, refl, ◌∙◌, sym, false, arith, ◌==◌, Bool-cases, inl,
  inr, ==→ne,
}
use mit6_1810_why_tea_fo.Store.{update}
use mit6_1810_why_tea_fo.Fs.{bsize, bits_per_block, Superblock, Fs}
use mit6_1810_why_tea_fo.Fs.Bits.{is_used, is_used_same}
use mit6_1810_why_tea_fo.Inode.{Inode, ndirect, maxfile, iblock, iupdate}
use mit6_1810_why_tea_fo.Inode.Slots.{entry, slot, slot-maxfile, HasBlocks, same_slots-HasBlocks}
use mit6_1810_why_tea_fo.Inode.Content.{content}

-- The blocks of an inode hold the bytes below its size, and its place on the disk lies before the
-- free map.
pub record IsInode (sb : Superblock) (first : ℕ) (fs : Fs) (ip : Inode) : Type 0 where
  pub blocks : HasBlocks sb first fs ip
  pub dense : (k : ℕ) → k < ip.size → slot fs ip (k / bsize) ≢ 0
  pub most : ip.size ≤ maxfile * bsize
  pub place : iblock sb ip.inum < sb.bmapstart

-- The number of bytes is no matter of the blocks.
pub resized-HasBlocks :
    (sb : Superblock) (first : ℕ) (fs : Fs) (ip : Inode) (size : ℕ)
    → HasBlocks sb first fs ip
    → HasBlocks sb first fs (record ip { size = size })
unfolding slot
resized-HasBlocks sb first fs ip size h =
    same_slots-HasBlocks sb first fs fs ip (record ip { size = size }) h h.map' (λ x lt. refl)
      (λ n. refl)

module _ (sb : Superblock) (first : ℕ) (fs : Fs) (ip : Inode) (h : HasBlocks sb first fs ip)
    (place : iblock sb ip.inum < sb.bmapstart) where
  pub data'-iupdate : (b : ℕ) → first ≤ b → (iupdate sb fs ip).data' b ≡ fs.data' b
  unfolding iupdate update
  data'-iupdate b low =
      let e : (b == iblock sb ip.inum) ≡ false = ground (arith, h.map'.room) in rw e

  pub is_used-iupdate : (x : ℕ) → is_used sb (iupdate sb fs ip) x ≡ is_used sb fs x
  unfolding iupdate update
  is_used-iupdate x = is_used_same sb fs (iupdate sb fs ip) x (
      let e : (x / bits_per_block + sb.bmapstart == iblock sb ip.inum) ≡ false = ground arith in
      rw e)

  entry_kept :
      (k : ℕ) → entry (iupdate sb fs ip) (ip.addrs ndirect) k ≡ entry fs (ip.addrs ndirect) k
  entry_kept k = elim (Bool-cases (ip.addrs ndirect == 0)) [
    | inl e ↦ rw e
    | inr e ↦
        let at = slot-maxfile fs ip in
        let low : first ≤ ip.addrs ndirect =
          rw (← at) (h.low maxfile (omega arith) (λ z. ==→ne _ _ e (sym at ∙ z))) in
        rw (e, data'-iupdate (ip.addrs ndirect) low) refl
  ]

  pub slot-iupdate : (n : ℕ) → slot (iupdate sb fs ip) ip n ≡ slot fs ip n
  unfolding slot
  slot-iupdate n = rw (entry_kept (n - ndirect)) refl

  pub iupdate-HasBlocks : HasBlocks sb first (iupdate sb fs ip) ip
  iupdate-HasBlocks =
      same_slots-HasBlocks sb first fs (iupdate sb fs ip) ip ip h
        (record {
          room = h.map'.room;
          within = h.map'.within;
          low = λ x lt. is_used-iupdate x ∙ h.map'.low x lt;
        })
        (λ x lt. is_used-iupdate x) slot-iupdate

  pub content-iupdate :
      (k : ℕ) → k < maxfile * bsize → content (iupdate sb fs ip) ip k ≡ content fs ip k
  unfolding content
  content-iupdate k lt = elim (Bool-cases (slot fs ip (k / bsize) == 0)) [
    | inl e ↦ rw (slot-iupdate (k / bsize), e)
    | inr e ↦
        let low = h.low (k / bsize) (omega arith) (==→ne _ _ e) in
        rw (slot-iupdate (k / bsize), e, data'-iupdate (slot fs ip (k / bsize)) low) refl
  ]
