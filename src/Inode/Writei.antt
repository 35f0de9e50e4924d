-- ===== src/Inode/Writei.antt =====
-- writei as a write to an array of bytes.
use mit6_1810_why_tea_fo.Base.{
  ℕ, ◌+◌, ◌*◌, ◌/◌, ◌^◌, ◌<◌, ◌≤◌, ◌≡◌, ◌≢◌, refl, ◌∙◌, ap, true, Option, none, some, arith, ltb,
  ◌||◌, if◌then◌else◌, Bool-cases, inl, inr, ◌⊎◌, ltb→lt, ltb→ge,
}
use mit6_1810_why_tea_fo.Base.Int.{pos, minus_one}
use mit6_1810_why_tea_fo.Base.Word.{add32}
use mit6_1810_why_tea_fo.Fs.{bsize, Superblock, Fs}
use mit6_1810_why_tea_fo.Fs.Bits.{is_used}
use mit6_1810_why_tea_fo.Inode.{Inode, maxfile, iblock, writei, iupdate}
use mit6_1810_why_tea_fo.Inode.Slots.{slot}
use mit6_1810_why_tea_fo.Inode.Content.{content}
use mit6_1810_why_tea_fo.Inode.Write.{Written, write_loop-Written}
use mit6_1810_why_tea_fo.Inode.Update.{
  IsInode, resized-HasBlocks, slot-iupdate, iupdate-HasBlocks, content-iupdate, is_used-iupdate,
}

abbrev pub grown_size : (size end : ℕ) → ℕ
grown_size size end = if ltb size end then end else size

-- `t` bytes of `src` stand at `off`.
pub record IsWritten (sb : Superblock) (first : ℕ) (src : ℕ → ℕ) (refused : ℕ → Option ℕ) (n : ℕ)
    (fs : Fs) (ip : Inode) (off t : ℕ) (fs' : Fs) (ip' : Inode) : Type 0 where
  pub inode : IsInode sb first fs' ip'
  pub most : t ≤ n
  pub same : ip' ≡ record ip { addrs = ip'.addrs; size = grown_size ip.size (off + t) }
  pub wrote : (i : ℕ) → i < t → content fs' ip' (off + i) ≡ src i
  pub before : (k : ℕ) → k < off → content fs' ip' k ≡ content fs ip k
  pub behind : (k : ℕ) → off + n ≤ k → k < maxfile * bsize → content fs' ip' k ≡ content fs ip k
  pub clean :
      refused t ≡ none
      → (k : ℕ) → off + t ≤ k
      → k < maxfile * bsize
      → content fs' ip' k ≡ content fs ip k
  pub ended : (t ≡ n) ⊎ ((refused t ≢ none) ⊎ ((x : ℕ) → x < sb.size → is_used sb fs' x ≡ true))

content_resized :
    (fs : Fs) (ip : Inode) (size k : ℕ) → content fs (record ip { size = size }) k ≡ content fs ip k
unfolding content slot
content_resized fs ip size k = refl

slot_resized :
    (fs : Fs) (ip : Inode) (size n : ℕ) → slot fs (record ip { size = size }) n ≡ slot fs ip n
unfolding slot
slot_resized fs ip size n = refl

module _ (sb : Superblock) (first : ℕ) (src : ℕ → ℕ) (refused : ℕ → Option ℕ) (n : ℕ) (fs : Fs)
    (ip : Inode) (off : ℕ) (h : IsInode sb first fs ip) where
  -- The size and the inode's place on the disk are written behind the loop.
  finished :
      (r : ℕ × ℕ × Inode × Fs)
      → off ≤ ip.size
      → off + n ≤ maxfile * bsize
      → Written sb first src refused n fs ip 0 off r
      → let ip' : Inode = record r.2 { size = grown_size r.2.size r.1 } in
        IsWritten sb first src refused n fs ip off r.0 (iupdate sb r.3 ip') ip'
  finished r low high w =
      let end : r.1 ≡ off + r.0 = omega (arith, w.moved) in
      let size = grown_size r.2.size r.1 in
      let ip' : Inode = record r.2 { size = size } in
      let old_size : r.2.size ≡ ip.size = ap (λ (j : Inode). j.size) w.same in
      let old_inum : r.2.inum ≡ ip.inum = ap (λ (j : Inode). j.inum) w.same in
      let place : iblock sb ip'.inum < sb.bmapstart = rw old_inum h.place in
      let blocks = resized-HasBlocks sb first r.3 r.2 size w.blocks in
      let bytes : (k : ℕ)
          → k < maxfile * bsize
          → content (iupdate sb r.3 ip') ip' k ≡ content r.3 r.2 k =
        λ k lt.
          content-iupdate sb first r.3 ip' blocks place k lt ∙ content_resized r.3 r.2 size k in
      let slots : (j : ℕ) → slot (iupdate sb r.3 ip') ip' j ≡ slot r.3 r.2 j =
        λ j. slot-iupdate sb first r.3 ip' blocks place j ∙ slot_resized r.3 r.2 size j in
      record {
        inode = record {
          blocks = iupdate-HasBlocks sb first r.3 ip' blocks place;
          dense = λ k lt. rw (slots (k / bsize)) (elim (Bool-cases (ltb k ip.size)) [
            | inl e ↦
                let old = ltb→lt _ _ e in
                w.still (k / bsize) (omega (arith, h.most)) (h.dense k old)
            | inr e ↦ let new = ltb→ge _ _ e in w.mapped k (omega arith) (ground (arith, old_size))
          ]);
          most = ground (arith, h.most, w.most);
          place = place;
        };
        most = w.most;
        same =
            ap (λ (j : Inode). record j { size = grown_size j.size r.1 }) w.same
            ∙ ap (λ (e : ℕ). record ip { addrs = r.2.addrs; size = grown_size ip.size e }) end;
        wrote = λ i lt.
            bytes (off + i) (omega (arith, w.most))
            ∙ w.wrote (off + i) (omega arith) (omega arith)
            ∙ ap src (omega arith);
        before = λ k lt. bytes k (omega arith) ∙ w.before k lt (omega arith);
        behind = λ k le lt. bytes k lt ∙ w.behind k (omega arith) lt;
        clean = λ e k le lt. bytes k lt ∙ w.clean e k (omega arith) lt;
        ended = elim w.ended [
          | inl all ↦ inl all
          | inr (inl stop) ↦ inr (inl stop)
          | inr (inr full) ↦
              inr (inr (λ x lt. is_used-iupdate sb first r.3 ip' blocks place x ∙ full x lt))
        ];
      }

  -- writei behind the end of the inode, or past the largest one, returns -1 and changes nothing. Any
  -- other returns a number t up to n, and the inode's bytes from off on are then the first t of the
  -- source; no other byte changes but, where either_copyin failed, some behind those and before off + n.
  -- The size grows to off + t if it was less, the inode's blocks stay its own, and t is less than n only
  -- where either_copyin failed or every block of the disk is in use.
  pub writei_lem :
      off < 2 ^ 32
      → n < 2 ^ 32
      → (((ip.size < off) ⊎ (maxfile * bsize < off + n))
          × (writei sb src refused n fs ip off ≡ some (minus_one, ip, fs)))
        ⊎ ((t : ℕ) × (ip' : Inode) × (fs' : Fs) × (writei sb src refused n fs ip off
              ≡ some (pos t, ip', fs'))
            × IsWritten sb first src refused n fs ip off t fs' ip')
  unfolding writei
  writei_lem off_small n_small = elim (Bool-cases (ltb ip.size off || ltb (add32 off n) off)) [
    | inl e ↦ inl (ground arith, rw e)
    | inr e ↦ elim (Bool-cases (ltb (maxfile * bsize) (add32 off n))) [
      | inl e' ↦ inl (inr (ground arith), rw (e, e'))
      | inr e' ↦
          let low : off ≤ ip.size = ground arith in
          let high : off + n ≤ maxfile * bsize = ground arith in
          let (r, x, w) =
            write_loop-Written sb first src refused n (n + 1) fs ip 0 off h.blocks (omega arith)
              (omega arith) (omega arith) in
          inr (
            r.0,
            record r.2 { size = grown_size r.2.size r.1 },
            iupdate sb r.3 (record r.2 { size = grown_size r.2.size r.1 }),
            rw (e, e', x) refl,
            finished r low high w,
          )
    ]
  ]
