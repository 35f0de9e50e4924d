-- ===== src/Inode/Write.antt =====
-- What writei leaves in the inode.
use mit6_1810_why_tea_fo.Base.{
  ℕ, zero, suc, min, ◌+◌, ◌-◌, ◌*◌, ◌/◌, ◌%◌, ◌<◌, ◌≤◌, ◌≡◌, ◌≢◌, refl, ◌∙◌, ap, true, false,
  Option, none, some, ◌∷◌, arith, ◌==◌, ltb, if◌then◌else◌, Bool-cases, Option-cases, inl, inr, ◌⊎◌,
  ==→eq, ==→ne, ltb→lt, ltb→ge,
}
use mit6_1810_why_tea_fo.Memory.{inside}
use mit6_1810_why_tea_fo.Fs.{bsize, Superblock, Fs, log_write}
use mit6_1810_why_tea_fo.Fs.Bits.{is_used}
use mit6_1810_why_tea_fo.Inode.{Inode, maxfile, with_copied, write_loop}
use mit6_1810_why_tea_fo.Inode.Slots.{slot, HasBlocks}
use mit6_1810_why_tea_fo.Inode.Bmap.{bmap_lem}
use mit6_1810_why_tea_fo.Inode.Content.{content, Mapped-content}
use mit6_1810_why_tea_fo.Inode.Rounds.{Round, Mapped_still, Mapped-Round}

outside :
    (x y off m k d : ℕ) → m ≤ d → (k < off) ⊎ (off + d ≤ k) → (if inside off m k then x else y) ≡ y
outside x y off m k d le (inl h) = let e : inside off m k ≡ false = ground arith in rw e
outside x y off m k d le (inr h) = let e : inside off m k ≡ false = ground arith in rw e

module _ (sb : Superblock) (first : ℕ) (src : ℕ → ℕ) (refused : ℕ → Option ℕ) (n : ℕ) where
  -- The bytes from `tot` to `r.0` have been put at `off` to `r.1`.
  pub record Written (fs : Fs) (ip : Inode) (tot off : ℕ) (r : ℕ × ℕ × Inode × Fs) : Type 0 where
    pub moved : r.1 + tot ≡ off + r.0
    pub ahead : tot ≤ r.0
    pub most : r.0 ≤ n
    pub blocks : HasBlocks sb first r.3 r.2
    pub wrote : (k : ℕ) → off ≤ k → k < r.1 → content r.3 r.2 k ≡ src (tot + (k - off))
    pub before : (k : ℕ) → k < off → k < maxfile * bsize → content r.3 r.2 k ≡ content fs ip k
    pub behind :
        (k : ℕ) → off + (n - tot) ≤ k → k < maxfile * bsize → content r.3 r.2 k ≡ content fs ip k
    -- where the copy has not failed, the bytes that it would have come to are as before
    pub clean :
        refused r.0 ≡ none
        → (k : ℕ) → r.1 ≤ k
        → k < maxfile * bsize
        → content r.3 r.2 k ≡ content fs ip k
    pub mapped : (k : ℕ) → off ≤ k → k < r.1 → slot r.3 r.2 (k / bsize) ≢ 0
    pub still : (j : ℕ) → j < maxfile → slot fs ip j ≢ 0 → slot r.3 r.2 j ≢ 0
    pub same : r.2 ≡ record ip { addrs = r.2.addrs }
    -- why it ended
    pub ended :
        (r.0 ≡ n) ⊎ ((refused r.0 ≢ none) ⊎ ((x : ℕ) → x < sb.size → is_used sb r.3 x ≡ true))

  stopped :
      (fs : Fs) (ip : Inode) (tot off : ℕ) (ip' : Inode) (fs' : Fs)
      → tot ≤ n
      → HasBlocks sb first fs' ip'
      → ((k : ℕ)
          → k < maxfile * bsize
          → (k < off) ⊎ (off + (n - tot) ≤ k)
          → content fs' ip' k ≡ content fs ip k)
      → (refused tot ≡ none → (k : ℕ) → k < maxfile * bsize → content fs' ip' k ≡ content fs ip k)
      → ((j : ℕ) → j < maxfile → slot fs ip j ≢ 0 → slot fs' ip' j ≢ 0)
      → ip' ≡ record ip { addrs = ip'.addrs }
      → (tot ≡ n) ⊎ ((refused tot ≢ none) ⊎ ((x : ℕ) → x < sb.size → is_used sb fs' x ≡ true))
      → Written fs ip tot off (tot, off, ip', fs')
  stopped fs ip tot off ip' fs' le b c clean st sm why = record {
    moved = omega arith;
    ahead = omega arith;
    most = le;
    blocks = b;
    wrote = λ k a z. absurd (omega arith);
    before = λ k a z. c k z (inl a);
    behind = λ k a z. c k z (inr a);
    clean = λ e k a z. clean e k z;
    mapped = λ k a z. absurd (omega arith);
    still = st;
    same = sm;
    ended = why;
  }

  Round-Written :
      (fs : Fs) (ip : Inode) (tot off m : ℕ) (fs' : Fs) (ip' : Inode) (r : ℕ × ℕ × Inode × Fs)
      → off % bsize + m ≤ bsize
      → tot + m ≤ n
      → off + (n - tot) ≤ maxfile * bsize
      → Round sb first src fs ip tot off m fs' ip'
      → Written fs' ip' (tot + m) (off + m) r
      → Written fs ip tot off r
  Round-Written fs ip tot off m fs' ip' r fits le all one w = record {
    moved = omega (arith, w.moved);
    ahead = omega (arith, w.ahead);
    most = w.most;
    blocks = w.blocks;
    wrote = λ k a z. elim (Bool-cases (ltb k (off + m))) [
      | inl e ↦
          let lt = ltb→lt _ _ e in
          let within : inside off m k ≡ true = ground arith in
          w.before k lt (omega arith) ∙ one.bytes k (omega arith) ∙ rw within
      | inr e ↦ let le' = ltb→ge _ _ e in w.wrote k le' z ∙ ap src (omega arith)
    ];
    before = λ k a z. w.before k (omega arith) z ∙ one.bytes k z ∙ ground arith;
    behind = λ k a z. w.behind k (omega arith) z ∙ one.bytes k z ∙ ground arith;
    clean = λ e k a z. w.clean e k a z ∙ one.bytes k z ∙ ground (arith, w.moved, w.ahead);
    mapped = λ k a z. elim (Bool-cases (ltb k (off + m))) [
      | inl e ↦
          let lt = ltb→lt _ _ e in
          let here : k / bsize ≡ off / bsize = omega arith in
          rw here (w.still (off / bsize) (omega arith) one.mapped)
      | inr e ↦ w.mapped k (ltb→ge _ _ e) z
    ];
    still = λ j lt ne. w.still j lt (one.still j lt ne);
    same = w.same ∙ ap (λ (j : Inode). record j { addrs = r.2.addrs }) one.same;
    ended = w.ended;
  }

  pub write_loop-Written :
      (fuel : ℕ) (fs : Fs) (ip : Inode) (tot off : ℕ)
      → HasBlocks sb first fs ip
      → tot ≤ n
      → n - tot < fuel
      → off + (n - tot) ≤ maxfile * bsize
      → (r : ℕ × ℕ × Inode × Fs) × (write_loop sb src refused n fuel fs ip tot off ≡ some r)
        × Written fs ip tot off r
  unfolding write_loop
  write_loop-Written zero fs ip tot off h le enough all = absurd (omega arith)
  write_loop-Written (suc fuel) fs ip tot off h le enough all = elim (Bool-cases (ltb tot n)) [
    | inr done ↦ (
      (tot, off, ip, fs),
      rw done,
      stopped fs ip tot off ip fs le h (λ k z a. refl) (λ e k z. refl) (λ j lt ne. ne) refl
          (inl (omega (arith, ltb→ge _ _ done))),
    )
    | inl more ↦ elim (bmap_lem sb first fs ip h (off / bsize)) [
      | inl (out, e) ↦ absurd (omega (arith, ltb→lt _ _ more))
      | inr (small, r, e, mp) ↦
          let same_bytes = Mapped-content sb first fs ip h (off / bsize) r mp in
          let going = ltb→lt _ _ more in
          let m = min (n - tot) (bsize - off % bsize) in
          let still = Mapped_still sb first src fs ip (off / bsize) r mp in
          elim (Bool-cases (r.0 == 0)) [
            | inl full ↦ (
              (tot, off, r.1, r.2),
              rw (more, e, full) refl,
              stopped fs ip tot off r.1 r.2 le mp.blocks (λ k z a. same_bytes k z)
                  (λ x k z. same_bytes k z) still mp.same (inr (inr (mp.full (==→eq _ _ full)))),
            )
            | inr has ↦ elim (Option-cases (refused tot)) [
              | inr (k, fails) ↦
                  let m' = min k m in
                  let one =
                    Mapped-Round sb first src fs ip h tot off m' r r.2.logged small (omega arith) mp
                      (==→ne _ _ has) in
                  let fs' = with_copied r.2 r.0 (off % bsize) m' tot src in
                  (
                    (tot, off, r.1, fs'),
                    rw (more, e, has, fails) refl,
                    stopped fs ip tot off r.1 fs' le one.blocks
                        (λ j z out.
                          one.bytes j z ∙ outside _ _ off m' j (n - tot) (omega arith) out)
                        (λ z. cc) one.still one.same (inr (inl (λ z. cc))),
                  )
              | inl goes ↦
                  let one =
                    Mapped-Round sb first src fs ip h tot off m r (r.0 ∷ r.2.logged) small
                      (omega arith) mp (==→ne _ _ has) in
                  let fs' = log_write (with_copied r.2 r.0 (off % bsize) m tot src) r.0 in
                  let (r', e', w) =
                    write_loop-Written fuel fs' r.1 (tot + m) (off + m) one.blocks (omega arith)
                      (omega arith) (omega arith) in
                  (
                    r',
                    rw (more, e, has, goes) e',
                    Round-Written fs ip tot off m fs' r.1 r' (omega arith) (omega arith) all one w,
                  )
            ]
          ]
    ]
  ]
