-- ===== src/Itable/Drop.antt =====
-- iput.
use mit6_1810_why_tea_fo.Base.{
  ℕ, ◌+◌, ◌-◌, ◌<◌, ◌≤◌, ◌≡◌, ◌≢◌, refl, ◌∙◌, sym, ap, Bool, true, false, ◌&&◌, some, arith, ◌==◌,
  Bool-cases, false≢true, inl, inr, ==_refl,
}
use mit6_1810_why_tea_fo.Store.{update}
use mit6_1810_why_tea_fo.Fs.{Superblock, Fs}
use mit6_1810_why_tea_fo.Fs.Bits.{is_used}
use mit6_1810_why_tea_fo.Inode.{Inode, maxfile, iupdate, itrunc}
use mit6_1810_why_tea_fo.Inode.Slots.{slot, HasBlocks, same_slots-HasBlocks}
use mit6_1810_why_tea_fo.Inode.Update.{IsInode, is_used-iupdate}
use mit6_1810_why_tea_fo.Inode.Trunc.{IsTruncated, itrunc_lem}
use mit6_1810_why_tea_fo.Itable.{Entry, Itable, loaded, iput}
use mit6_1810_why_tea_fo.Itable.Load.{no_type_back}

abbrev pub is_discarded : Entry → Bool
is_discarded e = (e.ref == 1) && (e.valid && (e.ip.nlink == 0))

module _ (sb : Superblock) (first : ℕ) (fs : Fs) (ip : Inode) where
  -- The inode is free on the disk, and so are the blocks that it had; the others are as they were.
  pub record IsDiscarded (fs' : Fs) (ip' : Inode) : Type 0 where
    pub inum : ip'.inum ≡ ip.inum
    pub no_type : (loaded sb fs' ip').type' ≡ 0
    pub freed : (n : ℕ) → n ≤ maxfile → slot fs ip n ≢ 0 → is_used sb fs' (slot fs ip n) ≡ false
    pub others :
        (x : ℕ)
        → x < sb.size
        → ((n : ℕ) → n ≤ maxfile → slot fs ip n ≢ x)
        → is_used sb fs' x ≡ is_used sb fs x

  untyped-HasBlocks :
      (fs' : Fs) (ip' : Inode)
      → HasBlocks sb first fs' ip'
      → HasBlocks sb first fs' (record ip' { type' = 0 })
  unfolding slot
  untyped-HasBlocks fs' ip' h =
      same_slots-HasBlocks sb first fs' fs' ip' (record ip' { type' = 0 }) h h.map' (λ x lt. refl)
        (λ n. refl)

  truncated-IsDiscarded :
      (fs' : Fs) (ip' : Inode)
      → IsTruncated sb first fs ip fs' ip'
      → let ip2 : Inode = record ip' { type' = 0 } in IsDiscarded (iupdate sb fs' ip2) ip2
  truncated-IsDiscarded fs' ip' t =
      let ip2 : Inode = record ip' { type' = 0 } in
      let blocks = untyped-HasBlocks fs' ip' t.inode.blocks in
      let used = is_used-iupdate sb first fs' ip2 blocks t.inode.place in
      record {
        inum = ap (λ (j : Inode). j.inum) t.same;
        no_type = no_type_back sb fs' ip2 refl;
        freed = λ n le ne. used (slot fs ip n) ∙ t.freed n le ne;
        others = λ x lt no'. used x ∙ t.others x lt no';
      }

module _ (sb : Superblock) (first : ℕ) (fs : Fs) (t : Itable) (i : ℕ) where
  pub record Put (fs' : Fs) (t' : Itable) : Type 0 where
    pub ref : (t' i).ref + 1 ≡ (t i).ref
    pub others : (j : ℕ) → j ≢ i → t' j ≡ t j
    pub kept :
        is_discarded (t i) ≡ false
        → (fs' ≡ fs) × ((t' i).valid ≡ (t i).valid) × ((t' i).ip ≡ (t i).ip)
    pub gone :
        is_discarded (t i) ≡ true
        → ((t' i).valid ≡ false) × IsDiscarded sb first fs (t i).ip fs' (t' i).ip

module _ (sb : Superblock) (first : ℕ) (fs : Fs) (t : Itable) (i : ℕ) where
  -- the last reference to an inode without links
  iput-last :
      (ip' : Inode) (fs' : Fs)
      → 0 < (t i).ref
      → is_discarded (t i) ≡ true
      → itrunc sb fs (t i).ip ≡ some (ip', fs')
      → IsTruncated sb first fs (t i).ip fs' ip'
      → (t' : Itable) × (fs2 : Fs) × (iput sb fs t i ≡ some (t', fs2)) × Put sb first fs t i fs2 t'
  unfolding iput update
  iput-last ip' fs' held e e' tr =
      let ip2 : Inode = record ip' { type' = 0 } in
      let t1 : Itable = update t i (record (t i) { valid = false; ip = ip2 }) in
      (
        update t1 i (record (t1 i) { ref = (t1 i).ref - 1 }),
        iupdate sb fs' ip2,
        rw (e, e') refl,
        record {
          ref = rw (==_refl i) (omega arith);
          others = λ j ne. ground arith;
          kept = λ no'. absurd (false≢true (sym no' ∙ e));
          gone = λ yes. (
            rw (==_refl i) refl,
            rw (==_refl i) (truncated-IsDiscarded sb first fs (t i).ip fs' ip' tr),
          );
        },
      )

-- iput of an entry that is in use does not panic. It takes one reference from the entry and keeps the
-- other entries. If that was the last one, of a valid inode that no directory has a link to, the inode
-- and its blocks are free on the disk then, the entry is not valid, and no other block has become free
-- or got in use; otherwise neither the disk nor the entry's inode changes.
pub iput_lem :
    (sb : Superblock) (first : ℕ) (fs : Fs) (t : Itable) (i : ℕ)
    → 0 < (t i).ref
    → ((t i).valid ≡ true → IsInode sb first fs (t i).ip)
    → (t' : Itable) × (fs' : Fs) × (iput sb fs t i ≡ some (t', fs')) × Put sb first fs t i fs' t'
unfolding iput update
iput_lem sb first fs t i held h = elim (Bool-cases (is_discarded (t i))) [
  | inl e ↦
      let (ip', fs', e', tr) = itrunc_lem sb first fs (t i).ip (h (ground arith)) in
      iput-last sb first fs t i ip' fs' held e e' tr
  | inr e ↦ (
    update t i (record (t i) { ref = (t i).ref - 1 }),
    fs,
    rw e refl,
    record {
      ref = rw (==_refl i) (omega arith);
      others = λ j ne. ground arith;
      kept = λ no'. (refl, rw (==_refl i) refl, rw (==_refl i) refl);
      gone = λ yes. absurd (false≢true (sym e ∙ yes));
    },
  )
]
