-- ===== src/Inode/Rounds.antt =====
-- One round of the loop of writei.
use mit6_1810_why_tea_fo.Base.{
  ℕ, ◌+◌, ◌-◌, ◌*◌, ◌/◌, ◌%◌, ◌<◌, ◌≤◌, ◌≡◌, ◌≢◌, refl, ◌∙◌, ap, false, List, arith, ◌==◌,
  if◌then◌else◌, Bool-cases, inl, inr, ==→eq, ==→ne, ne→==,
}
use mit6_1810_why_tea_fo.Memory.{inside}
use mit6_1810_why_tea_fo.Store.{update}
use mit6_1810_why_tea_fo.Fs.{bsize, Superblock, Fs}
use mit6_1810_why_tea_fo.Inode.{Inode, maxfile, copied}
use mit6_1810_why_tea_fo.Inode.Slots.{slot, HasBlocks}
use mit6_1810_why_tea_fo.Inode.Bmap.{Mapped}
use mit6_1810_why_tea_fo.Inode.Content.{
  content, Mapped-content, rewritten-slot, rewritten-HasBlocks, rewritten-content,
}

-- A copy into a block, seen in the whole contents.
round_bytes :
    (block src : ℕ → ℕ) (tot off m k c c' : ℕ)
    → off % bsize + m ≤ bsize
    → c' ≡ c
    → (k / bsize ≡ off / bsize → c' ≡ block (k % bsize))
    → (if k / bsize == off / bsize then copied block (off % bsize) m tot src (k % bsize) else c')
      ≡ (if inside off m k then src (tot + (k - off)) else c)
round_bytes block src tot off m k c c' fits old own = elim (Bool-cases (k / bsize == off / bsize)) [
  | inl e ↦
      let same : k / bsize ≡ off / bsize = ==→eq _ _ e in
      let range : inside (off % bsize) m (k % bsize) ≡ inside off m k = ground arith in
      let index : k % bsize - off % bsize ≡ k - off = omega arith in
      rw (e, range, index, ← own same, old) refl
  | inr e ↦
      let ne = ==→ne _ _ e in let out : inside off m k ≡ false = ground arith in rw (e, out) old
]

pub content-slot :
    (fs : Fs) (ip : Inode) (b k : ℕ)
    → slot fs ip (k / bsize) ≡ b
    → b ≢ 0
    → content fs ip k ≡ fs.data' b (k % bsize)
unfolding content
content-slot fs ip b k e ne = let has : (b == 0) ≡ false = ne→== _ _ ne in rw (e, has) refl

module _ (sb : Superblock) (first : ℕ) (src : ℕ → ℕ) where
  -- `m` bytes have been put into one block of the inode, at `off`.
  pub record Round (fs : Fs) (ip : Inode) (tot off m : ℕ) (fs' : Fs) (ip' : Inode) : Type 0 where
    pub blocks : HasBlocks sb first fs' ip'
    pub bytes :
        (k : ℕ)
        → k < maxfile * bsize
        → content fs' ip' k ≡ (if inside off m k then src (tot + (k - off)) else content fs ip k)
    pub mapped : slot fs' ip' (off / bsize) ≢ 0
    pub still : (j : ℕ) → j < maxfile → slot fs ip j ≢ 0 → slot fs' ip' j ≢ 0
    pub same : ip' ≡ record ip { addrs = ip'.addrs }

  pub Mapped_still :
      (fs : Fs) (ip : Inode) (n : ℕ) (r : ℕ × Inode × Fs)
      → Mapped sb first fs ip n r
      → (j : ℕ) → j < maxfile
      → slot fs ip j ≢ 0
      → slot r.2 r.1 j ≢ 0
  Mapped_still fs ip n r m j lt ne = elim (Bool-cases (j == n)) [
    | inr e ↦ rw (m.others j lt (==→ne _ _ e)) ne
    | inl e ↦
        let own : j ≡ n = ==→eq _ _ e in
        let (p, q) = m.kept (λ z. ne (ap (slot fs ip) own ∙ z)) in rw (p, q) ne
  ]

  pub Mapped-Round :
      (fs : Fs) (ip : Inode)
      → HasBlocks sb first fs ip
      → (tot off m : ℕ) (r : ℕ × Inode × Fs) (l : List ℕ) → off / bsize < maxfile
      → off % bsize + m ≤ bsize
      → Mapped sb first fs ip (off / bsize) r
      → r.0 ≢ 0
      → Round fs ip tot off m
          (record {
            data' = update r.2.data' r.0 (copied (r.2.data' r.0) (off % bsize) m tot src);
            logged = l;
          })
          r.1
  Mapped-Round fs ip h tot off m r l small fits mp some' =
      let n = off / bsize in
      let bytes' = copied (r.2.data' r.0) (off % bsize) m tot src in
      let slots = rewritten-slot sb first r.2 r.1 mp.blocks n r.0 small mp.at some' bytes' l in
      record {
        blocks = rewritten-HasBlocks sb first r.2 r.1 mp.blocks n r.0 small mp.at some' bytes' l;
        bytes = λ k lt.
            rewritten-content sb first r.2 r.1 mp.blocks n r.0 small mp.at some' bytes' l k lt
            ∙ round_bytes (r.2.data' r.0) src tot off m k (content fs ip k) (content r.2 r.1 k) fits
                (Mapped-content sb first fs ip h n r mp k lt)
                (λ e. content-slot r.2 r.1 r.0 k (ap (slot r.2 r.1) e ∙ mp.at) some');
        mapped = rw (slots n, mp.at) some';
        still = λ j lt ne. rw (slots j) (Mapped_still fs ip n r mp j lt ne);
        same = mp.same;
      }
