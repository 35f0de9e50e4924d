-- ===== src/Inode/Content.antt =====
-- An inode's blocks as one array of bytes, which bmap does not change.
use mit6_1810_why_tea_fo.Base.{
  ℕ, ◌*◌, ◌/◌, ◌%◌, ◌<◌, ◌≤◌, ◌≡◌, ◌≢◌, refl, ◌∙◌, sym, false, List, arith, ◌==◌, if◌then◌else◌,
  Bool-cases, inl, inr, ==→eq, ==→ne, ne→==, ==_refl,
}
use mit6_1810_why_tea_fo.Store.{update}
use mit6_1810_why_tea_fo.Fs.{bsize, Superblock, Fs}
use mit6_1810_why_tea_fo.Inode.{Inode, ndirect, maxfile}
use mit6_1810_why_tea_fo.Inode.Slots.{slot-maxfile, slot, HasBlocks, same_slots-HasBlocks}
use mit6_1810_why_tea_fo.Inode.Bmap.{Mapped, data_write}

-- The byte `k` of the contents; a block that is not there reads as zeros.
unfoldable pub content : Fs → Inode → (k : ℕ) → ℕ
content fs ip k =
    if slot fs ip (k / bsize) == 0 then 0 else fs.data' (slot fs ip (k / bsize)) (k % bsize)

module _ (sb : Superblock) (first : ℕ) (fs : Fs) (ip : Inode) (h : HasBlocks sb first fs ip) where
  module _ (n : ℕ) (r : ℕ × Inode × Fs) (m : Mapped sb first fs ip n r) where
    other_content :
        (k : ℕ) → k / bsize < maxfile → k / bsize ≢ n → content r.2 r.1 k ≡ content fs ip k
    unfolding content
    other_content k lt ne = elim (Bool-cases (slot fs ip (k / bsize) == 0)) [
      | inl e ↦ rw (m.others (k / bsize) lt ne, e)
      | inr e ↦
          let i = k / bsize in
          let some' : slot fs ip i ≢ 0 = ==→ne _ _ e in
          let apart : slot fs ip i ≢ slot fs ip maxfile = λ same.
            absurd (omega (arith, h.distinct i maxfile (omega arith) (omega arith) some' same)) in
          let data_same =
            m.unchanged (slot fs ip i) (h.low i (omega arith) some') (h.high i (omega arith) some')
              (h.used i (omega arith) some') apart in
          rw (m.others i lt ne, e, data_same) refl
    ]

    own_content : (k : ℕ) → k / bsize ≡ n → content r.2 r.1 k ≡ content fs ip k
    unfolding content
    own_content k e = elim (Bool-cases (slot fs ip n == 0)) [
      | inr ne ↦ let (p, q) = m.kept (==→ne _ _ ne) in rw (p, q)
      | inl none' ↦ elim (Bool-cases (r.0 == 0)) [
        | inl z ↦ rw (e, m.at, none', z)
        | inr new ↦
            rw (e, m.at, none', new) (m.zeroed (==→eq _ _ none') (==→ne _ _ new) (k % bsize))
      ]
    ]

    -- bmap leaves the contents as they were.
    pub Mapped-content : (k : ℕ) → k < maxfile * bsize → content r.2 r.1 k ≡ content fs ip k
    Mapped-content k lt = elim (Bool-cases (k / bsize == n)) [
      | inl e ↦ own_content k (==→eq _ _ e)
      | inr e ↦ other_content k (omega arith) (==→ne _ _ e)
    ]

  -- A write to the inode's block `b` with the number `n`.
  module _ (n b : ℕ) (lt : n < maxfile) (here : slot fs ip n ≡ b) (some' : b ≢ 0) (bytes : ℕ → ℕ)
      (l : List ℕ) where
    abbrev pub rewritten : Fs
    rewritten = record { data' = update fs.data' b bytes; logged = l }

    apart_from_indirect : ip.addrs ndirect ≢ b
    apart_from_indirect same = absurd (
        omega (
          arith,
          h.distinct n maxfile (omega arith) (omega arith) (λ e. some' (sym here ∙ e))
              (here ∙ sym same ∙ sym (slot-maxfile fs ip)),
        ))

    pub rewritten-slot : (j : ℕ) → slot rewritten ip j ≡ slot fs ip j
    unfolding slot update
    rewritten-slot j =
        let e : (ip.addrs ndirect == b) ≡ false = ne→== _ _ apart_from_indirect in rw e

    pub rewritten-HasBlocks : HasBlocks sb first rewritten ip
    rewritten-HasBlocks =
        let low : first ≤ b = ground (arith, h.low n) in
        let (used, map') = data_write sb first fs ip h b bytes fs l h.map' low in
        same_slots-HasBlocks sb first fs rewritten ip ip h map' used rewritten-slot

    pub rewritten-content :
        (k : ℕ)
        → k < maxfile * bsize
        → content rewritten ip k ≡ (if k / bsize == n then bytes (k % bsize) else content fs ip k)
    unfolding content update
    rewritten-content k small = elim (Bool-cases (k / bsize == n)) [
      | inl e ↦
          let own : k / bsize ≡ n = ==→eq _ _ e in
          let has : (b == 0) ≡ false = ne→== _ _ some' in
          rw (rewritten-slot (k / bsize), own, here, has, ==_refl b, ==_refl n) refl
      | inr e ↦
          let j = k / bsize in
          elim (Bool-cases (slot fs ip j == 0)) [
            | inl z ↦ rw (rewritten-slot j, e, z)
            | inr has ↦
                let apart : slot fs ip j ≢ b = λ same.
                  ==→ne _ _ e (
                    h.distinct j n (omega arith) (omega arith) (==→ne _ _ has) (same ∙ sym here)) in
                rw (rewritten-slot j, e, has, ne→== _ _ apart) refl
          ]
    ]
