-- ===== src/Inode/Bmap.antt =====
-- Which block bmap returns, and what it does to the inode's blocks where it allocates one.
use mathlib.Core.Path.{subst}
use mit6_1810_why_tea_fo.Base.{
  ℕ, ◌+◌, ◌-◌, ◌*◌, ◌/◌, ◌^◌, ◌<◌, ◌≤◌, ◌≡◌, ◌≢◌, refl, ◌∙◌, sym, ap, true, false, false≢true, none,
  some, List, ◌∷◌, arith, ◌==◌, ltb, if◌then◌else◌, Bool-cases, inl, inr, ◌⊎◌, ==→eq, ==→ne, ne→==,
  ge→ltb, ltb→lt, ltb→ge,
}
use mit6_1810_why_tea_fo.Store.{update}
use mit6_1810_why_tea_fo.Fs.{bits_per_block, Superblock, Fs, log_write}
use mit6_1810_why_tea_fo.Fs.Bits.{is_used, is_used_same}
use mit6_1810_why_tea_fo.Fs.Balloc.{HasMap, IsAllocated, balloc_lem}
use mit6_1810_why_tea_fo.Inode.{
  Inode, uint_at, with_uint, ndirect, nindirect, maxfile, addr_at, entry_at, bmap,
}
use mit6_1810_why_tea_fo.Inode.Uints.{uint_at-with_uint}
use mit6_1810_why_tea_fo.Inode.Slots.{slot-maxfile, entry, slot, HasBlocks, Grown, Grown-HasBlocks}

-- The block `x` is none of the free map's.
abbrev pub IsOutside : Superblock → ℕ → Type 0
IsOutside sb x = (x < sb.bmapstart) ⊎ (sb.bmapstart + sb.size / bits_per_block < x)

-- What bmap has done when it returns the block `r.0`, 0 if the disk is full, for the number `n`.
pub record Mapped (sb : Superblock) (first : ℕ) (fs : Fs) (ip : Inode) (n : ℕ) (r : ℕ × Inode × Fs)
    : Type 0 where
  pub blocks : HasBlocks sb first r.2 r.1
  pub at : slot r.2 r.1 n ≡ r.0
  pub others : (m : ℕ) → m < maxfile → m ≢ n → slot r.2 r.1 m ≡ slot fs ip m
  -- a block that the inode had is found
  pub kept : slot fs ip n ≢ 0 → (r.1 ≡ ip) × (r.2 ≡ fs)
  -- a new one was free and is zero
  pub fresh : slot fs ip n ≡ 0 → r.0 ≢ 0 → is_used sb fs r.0 ≡ false
  pub zeroed : slot fs ip n ≡ 0 → r.0 ≢ 0 → (i : ℕ) → r.2.data' r.0 i ≡ 0
  pub full : r.0 ≡ 0 → (x : ℕ) → x < sb.size → is_used sb r.2 x ≡ true
  -- the blocks in use, less the inode's indirect block, are as they were
  pub unchanged :
      (x : ℕ)
      → first ≤ x
      → x < sb.size
      → is_used sb fs x ≡ true
      → x ≢ slot fs ip maxfile
      → r.2.data' x ≡ fs.data' x
  -- below the data blocks only those of the free map may change
  pub rest : (x : ℕ) → x < first → IsOutside sb x → r.2.data' x ≡ fs.data' x
  pub used : (x : ℕ) → x < sb.size → is_used sb fs x ≡ true → is_used sb r.2 x ≡ true
  pub same : r.1 ≡ record ip { addrs = r.1.addrs }

module _ (sb : Superblock) (first : ℕ) (fs : Fs) (ip : Inode) (h : HasBlocks sb first fs ip) where
  found : (n : ℕ) → slot fs ip n ≢ 0 → Mapped sb first fs ip n (slot fs ip n, ip, fs)
  found n ne = record {
    blocks = h;
    at = refl;
    others = λ m lt ne. refl;
    kept = λ ne. (refl, refl);
    fresh = λ e. absurd (ne e);
    zeroed = λ e. absurd (ne e);
    full = λ e. absurd (ne e);
    unchanged = λ x a b c d. refl;
    rest = λ x a b. refl;
    used = λ x a b. b;
    same = refl;
  }

  disk_full :
      (n : ℕ)
      → slot fs ip n ≡ 0
      → ((x : ℕ) → x < sb.size → is_used sb fs x ≡ true)
      → Mapped sb first fs ip n (0, ip, fs)
  disk_full n e all = record {
    blocks = h;
    at = e;
    others = λ m lt ne. refl;
    kept = λ ne. absurd (ne e);
    fresh = λ e ne. absurd (ne refl);
    zeroed = λ e ne. absurd (ne refl);
    full = λ e. all;
    unchanged = λ x a b c d. refl;
    rest = λ x a b. refl;
    used = λ x a b. b;
    same = refl;
  }

  grown :
      (n a : ℕ) (ip' : Inode) (fs' : Fs)
      → n ≤ maxfile
      → slot fs ip n ≡ 0
      → Grown sb first fs ip n a fs' ip'
      → ((i : ℕ) → fs'.data' a i ≡ 0)
      → ((x : ℕ) → first ≤ x → x ≢ a → x ≢ slot fs ip maxfile → fs'.data' x ≡ fs.data' x)
      → ((x : ℕ) → x < first → IsOutside sb x → fs'.data' x ≡ fs.data' x)
      → ip' ≡ record ip { addrs = ip'.addrs }
      → Mapped sb first fs ip n (a, ip', fs')
  grown n a ip' fs' le e g zero' unchanged rest same = record {
    blocks = Grown-HasBlocks sb first fs fs' ip ip' n a h g;
    at = ground (arith, g.slots n);
    others = λ m lt ne. ground (arith, g.slots m);
    kept = λ ne. absurd (ne e);
    fresh = λ e ne. g.free;
    zeroed = λ e ne. zero';
    full = λ none'. absurd (omega (arith, g.low, h.map'.room));
    unchanged = λ x far lt old ne. ground (arith, unchanged x, g.free);
    rest = rest;
    used = λ x lt old. ground (arith, g.used x);
    same = same;
  }

  -- An allocation below the data blocks.
  allocated_rest :
      (a : ℕ) (fs' : Fs)
      → IsAllocated sb first fs a fs'
      → (x : ℕ) → x < first
      → IsOutside sb x
      → fs'.data' x ≡ fs.data' x
  allocated_rest a fs' al x lt (inl below) = al.rest x (omega (arith, al.low)) (omega arith)
  allocated_rest a fs' al x lt (inr above) =
      al.rest x (omega (arith, al.low)) (omega (arith, al.high))

  -- The number of `ip->addrs[n]`.
  abbrev number : ℕ → ℕ
  number n = if n == ndirect then maxfile else n

  addr-number : (n : ℕ) → n ≤ ndirect → slot fs ip (number n) ≡ ip.addrs n
  unfolding slot
  addr-number n le = ground arith

  zero_entry : (fs' : Fs) (a k : ℕ) → ((i : ℕ) → fs'.data' a i ≡ 0) → uint_at (fs'.data' a) k ≡ 0
  unfolding uint_at
  zero_entry fs' a k z = omega (arith, z (4 * k), z (4 * k + 1), z (4 * k + 2), z (4 * k + 3))

  -- An allocation leaves the indirect block alone.
  indirect_same :
      (a : ℕ) (fs' : Fs)
      → IsAllocated sb first fs a fs'
      → ip.addrs ndirect ≢ 0
      → fs'.data' (ip.addrs ndirect) ≡ fs.data' (ip.addrs ndirect)
  unfolding slot
  indirect_same a fs' al ne =
      let low : first ≤ ip.addrs ndirect = h.low maxfile (omega arith) ne in
      let old : is_used sb fs (ip.addrs ndirect) ≡ true = h.used maxfile (omega arith) ne in
      al.others (ip.addrs ndirect) low
        (λ e. false≢true (sym al.free ∙ ap (is_used sb fs) (sym e) ∙ old))

  entry_same :
      (a : ℕ) (fs' : Fs) (k : ℕ)
      → IsAllocated sb first fs a fs'
      → entry fs' (ip.addrs ndirect) k ≡ entry fs (ip.addrs ndirect) k
  entry_same a fs' k al = elim (Bool-cases (ip.addrs ndirect == 0)) [
    | inl e ↦ rw e
    | inr e ↦ rw (e, indirect_same a fs' al (==→ne _ _ e)) refl
  ]

  addr_slots :
      (n a : ℕ) (fs' : Fs)
      → n ≤ ndirect
      → ip.addrs n ≡ 0
      → IsAllocated sb first fs a fs'
      → (m : ℕ) → m ≤ maxfile
      → slot fs' (record ip { addrs = update ip.addrs n a }) m
        ≡ (if m == number n then a else slot fs ip m)
  unfolding slot update
  addr_slots n a fs' le e al m le' = elim (Bool-cases (n == ndirect)) [
    | inl last ↦
        let here : n ≡ ndirect = ==→eq _ _ last in
        ground (arith, zero_entry fs' a (m - ndirect) al.zeroed)
    | inr other ↦ ground (arith, entry_same a fs' (m - ndirect) al)
  ]

  addr_at-Mapped : (n : ℕ) → n ≤ ndirect → Mapped sb first fs ip (number n) (addr_at sb fs ip n)
  unfolding addr_at
  addr_at-Mapped n le = elim (Bool-cases (ip.addrs n == 0)) [
    | inr e ↦ rw e (
        subst (λ (a : ℕ). Mapped sb first fs ip (number n) (a, ip, fs)) (addr-number n le)
          (found (number n) (ground (arith, addr-number n le))))
    | inl e ↦
        let none' : slot fs ip (number n) ≡ 0 = addr-number n le ∙ ==→eq _ _ e in
        elim (balloc_lem sb first fs h.map') [
          | inl (r, all) ↦ rw (e, r) (disk_full (number n) none' all)
          | inr (a, fs', r, al) ↦
              let positive : (a == 0) ≡ false = ground (arith, al.low, h.map'.room) in
              rw (e, r, positive)
                (grown (number n) a (record ip { addrs = update ip.addrs n a }) fs' (ground arith)
                  none'
                  (record {
                    free = al.free;
                    low = al.low;
                    high = al.high;
                    used = al.used;
                    slots = addr_slots n a fs' le (==→eq _ _ e) al;
                    map' = al.map';
                  })
                  al.zeroed (λ x far ne ne'. al.others x far ne) (allocated_rest a fs' al) refl)
        ]
  ]

  -- `addr_slots` for the entry `k` of the indirect block.
  entry_slots :
      (k a : ℕ) (fs' : Fs)
      → k < 256
      → ip.addrs ndirect ≢ 0
      → IsAllocated sb first fs a fs'
      → let b = ip.addrs ndirect in
        let fs'' =
          log_write (record fs' { data' = update fs'.data' b (with_uint (fs'.data' b) k a) }) b in
        (m : ℕ) → m ≤ maxfile → slot fs'' ip m ≡ (if m == k + ndirect then a else slot fs ip m)
  unfolding slot update
  entry_slots k a fs' small ne al m le =
      let same = indirect_same a fs' al ne in
      let low : a < 2 ^ 32 = omega (arith, al.high, h.small) in
      let e = uint_at-with_uint (fs.data' (ip.addrs ndirect)) k a (m - ndirect) low in
      rw same (ground arith)

  -- A write to a data block is none to the map.
  pub data_write :
      (b : ℕ) (bytes : ℕ → ℕ) (fs' : Fs) (l : List ℕ)
      → HasMap sb first fs'
      → first ≤ b
      → let fs'' : Fs = record { data' = update fs'.data' b bytes; logged = l } in
        ((x : ℕ) → x < sb.size → is_used sb fs'' x ≡ is_used sb fs' x) × HasMap sb first fs''
  unfolding update
  data_write b bytes fs' l m low =
      let fs'' : Fs = record { data' = update fs'.data' b bytes; logged = l } in
      let used : (x : ℕ) → x < sb.size → is_used sb fs'' x ≡ is_used sb fs' x = λ x lt.
        is_used_same sb fs' fs'' x (
          let apart : (x / bits_per_block + sb.bmapstart == b) ≡ false = ground (arith, m.room) in
          rw apart) in
      (
        used,
        record {
          room = m.room;
          within = m.within;
          low = λ x lt. ground (arith, used x, m.low x, m.within);
        },
      )

  pub slot-entry : (k : ℕ) → k < 256 → slot fs ip (k + ndirect) ≡ entry fs (ip.addrs ndirect) k
  unfolding slot
  slot-entry k small =
      let a : ltb (k + ndirect) ndirect ≡ false = ge→ltb _ _ (omega arith) in
      let b : (k + ndirect == maxfile) ≡ false = ne→== _ _ (omega arith) in
      let c : k + ndirect - ndirect ≡ k = omega arith in rw (a, b, c) refl

  entry_new :
      (k a : ℕ) (fs' : Fs)
      → k < 256
      → ip.addrs ndirect ≢ 0
      → IsAllocated sb first fs a fs'
      → slot fs ip (k + ndirect) ≡ 0
      → let b = ip.addrs ndirect in
        Mapped sb first fs ip (k + ndirect) (
          a,
          ip,
          log_write (record fs' { data' = update fs'.data' b (with_uint (fs'.data' b) k a) }) b,
        )
  unfolding update slot
  entry_new k a fs' small ne al none' =
      let b = ip.addrs ndirect in
      let low : first ≤ b = h.low maxfile (omega arith) ne in
      let (used, map') =
        data_write b (with_uint (fs'.data' b) k a) fs' (b ∷ fs'.logged) al.map' low in
      let apart : a ≢ b =
        λ e. false≢true (sym al.free ∙ ap (is_used sb fs) e ∙ h.used maxfile (omega arith) ne) in
      grown (k + ndirect) a ip
        (log_write (record fs' { data' = update fs'.data' b (with_uint (fs'.data' b) k a) }) b)
        (omega arith) none'
        (record {
          free = al.free;
          low = al.low;
          high = al.high;
          used = λ x lt. used x lt ∙ al.used x lt;
          slots = entry_slots k a fs' small ne al;
          map' = map';
        })
        (λ i. ground (arith, apart, al.zeroed i))
        (λ x far other ne'.
          (let e : (x == b) ≡ false = ne→== _ _ ne' in rw e (al.others x far other)))
        (λ x lt out.
          (let e : (x == b) ≡ false = ne→== _ _ (omega arith) in
            rw e (allocated_rest a fs' al x lt out)))
        refl

  entry_at-Mapped :
      (k : ℕ)
      → k < 256
      → (ip.addrs ndirect ≡ 0 → (x : ℕ) → x < sb.size → is_used sb fs x ≡ true)
      → Mapped sb first fs ip (k + ndirect) (entry_at sb k (ip.addrs ndirect, ip, fs))
  unfolding entry_at
  entry_at-Mapped k small all = elim (Bool-cases (ip.addrs ndirect == 0)) [
    | inl e ↦ rw e (disk_full (k + ndirect) (slot-entry k small ∙ rw e) (all (==→eq _ _ e)))
    | inr ind ↦
        let at : slot fs ip (k + ndirect) ≡ uint_at (fs.data' (ip.addrs ndirect)) k =
          slot-entry k small ∙ rw ind in
        elim (Bool-cases (uint_at (fs.data' (ip.addrs ndirect)) k == 0)) [
          | inr e ↦
              rw (ind, e)
                (subst (λ (a : ℕ). Mapped sb first fs ip (k + ndirect) (a, ip, fs)) at
                  (found (k + ndirect) (ground arith)))
          | inl e ↦
              let none' : slot fs ip (k + ndirect) ≡ 0 = at ∙ ==→eq _ _ e in
              elim (balloc_lem sb first fs h.map') [
                | inl (r, full) ↦ rw (ind, e, r) (disk_full (k + ndirect) none' full)
                | inr (a, fs', r, al) ↦
                    let positive : (a == 0) ≡ false = ground (arith, al.low, h.map'.room) in
                    rw (ind, e, r, positive) (entry_new k a fs' small (==→ne _ _ ind) al none')
              ]
        ]
  ]

needs_indirect :
    (fs : Fs) (ip : Inode) (k : ℕ) → k < 256 → slot fs ip (k + ndirect) ≢ 0 → slot fs ip maxfile ≢ 0
unfolding slot
needs_indirect fs ip k small ne = ground arith

-- The indirect block, and then its entry.
module _ (sb : Superblock) (first : ℕ) (fs : Fs) (ip : Inode) (k b : ℕ) (fs' : Fs) (ip' : Inode)
    (r : ℕ × Inode × Fs) (small : k < 256) (one : Mapped sb first fs ip maxfile (b, ip', fs'))
    (two : Mapped sb first fs' ip' (k + ndirect) r) where
  same_number : slot fs' ip' (k + ndirect) ≡ slot fs ip (k + ndirect)
  same_number = one.others (k + ndirect) (omega arith) (omega arith)

  still_fresh : slot fs ip (k + ndirect) ≡ 0 → r.0 ≢ 0 → is_used sb fs r.0 ≡ false
  still_fresh e ne = elim (Bool-cases (is_used sb fs r.0)) [
    | inr free ↦ free
    | inl old ↦
        let bound = two.blocks.high (k + ndirect) (omega arith) in
        let high : r.0 < sb.size = ground (arith, two.at, bound) in
        absurd (false≢true (sym (two.fresh (same_number ∙ e) ne) ∙ one.used r.0 high old))
  ]

  not_indirect :
      (x : ℕ)
      → first ≤ x
      → is_used sb fs x ≡ true
      → x ≢ slot fs ip maxfile
      → x ≢ slot fs' ip' maxfile
  not_indirect x far old ne = elim (Bool-cases (slot fs ip maxfile == 0)) [
    | inr e ↦ let (p, q) = one.kept (==→ne _ _ e) in rw (p, q) ne
    | inl e ↦ λ same.
        let here : x ≡ b = same ∙ one.at in
        let some' : b ≢ 0 = omega (arith, one.blocks.map'.room) in
        false≢true (sym (one.fresh (==→eq _ _ e) some') ∙ ap (is_used sb fs) (sym here) ∙ old)
  ]

  Mapped_then : Mapped sb first fs ip (k + ndirect) r
  Mapped_then = record {
    blocks = two.blocks;
    at = two.at;
    others = λ m lt ne. two.others m lt ne ∙ one.others m lt (omega arith);
    kept = λ ne.
        let (p, q) = two.kept (λ e. ne (sym same_number ∙ e)) in
        let (p', q') = one.kept (needs_indirect fs ip k small ne) in (p ∙ p', q ∙ q');
    fresh = still_fresh;
    zeroed = λ e ne. two.zeroed (same_number ∙ e) ne;
    full = two.full;
    unchanged = λ x far lt old ne.
        two.unchanged x far lt (one.used x lt old) (not_indirect x far old ne)
        ∙ one.unchanged x far lt old ne;
    rest = λ x lt out. two.rest x lt out ∙ one.rest x lt out;
    used = λ x lt u. two.used x lt (one.used x lt u);
    same = two.same ∙ ap (λ (j : Inode). record j { addrs = r.1.addrs }) one.same;
  }

module _ (sb : Superblock) (first : ℕ) (fs : Fs) (ip : Inode) (h : HasBlocks sb first fs ip) where
  -- bmap panics for a number that is out of range. For any other it returns the block that the inode
  -- has under that number and changes nothing; where it has none, it returns a block that was free and
  -- is zero now, which the inode then has under that number, or 0 if every block is in use at the end.
  -- The inode keeps its other blocks and no block is used twice. Of the blocks in use only the
  -- inode's indirect block and those of the free map may change, and what was in use stays so.
  pub bmap_lem :
      (bn : ℕ)
      → ((maxfile ≤ bn) × (bmap sb fs ip bn ≡ none))
        ⊎ ((bn < maxfile)
            × (r : ℕ × Inode × Fs) × (bmap sb fs ip bn ≡ some r)
            × Mapped sb first fs ip bn r)
  unfolding bmap
  bmap_lem bn = elim (Bool-cases (ltb bn ndirect)) [
    | inl e ↦
        let low = ltb→lt _ _ e in
        let direct : number sb first fs ip h bn ≡ bn = ground arith in
        inr (
          omega arith,
          addr_at sb fs ip bn,
          rw e,
          subst (λ (n : ℕ). Mapped sb first fs ip n (addr_at sb fs ip bn)) direct
              (addr_at-Mapped sb first fs ip h bn (omega arith)),
        )
    | inr e ↦ elim (Bool-cases (ltb (bn - ndirect) nindirect)) [
      | inr e' ↦ inl (omega (arith, ltb→ge _ _ e, ltb→ge _ _ e'), rw (e, e'))
      | inl e' ↦
          let (b, ip', fs') = addr_at sb fs ip ndirect in
          let one : Mapped sb first fs ip maxfile (b, ip', fs') =
            addr_at-Mapped sb first fs ip h ndirect (omega arith) in
          let k = bn - ndirect in
          let small : k < 256 = ltb→lt _ _ e' in
          let two : Mapped sb first fs' ip' (k + ndirect) (entry_at sb k (b, ip', fs')) =
            let e : ip'.addrs ndirect ≡ b = sym (slot-maxfile fs' ip') ∙ one.at in
            subst (λ (c : ℕ). Mapped sb first fs' ip' (k + ndirect) (entry_at sb k (c, ip', fs'))) e
              (entry_at-Mapped sb first fs' ip' one.blocks k small (λ z. one.full (sym e ∙ z))) in
          let back : k + ndirect ≡ bn = omega (arith, ltb→ge _ _ e) in
          inr (
            omega (arith, back),
            entry_at sb k (b, ip', fs'),
            rw (e, e') refl,
            subst (λ (n : ℕ). Mapped sb first fs ip n (entry_at sb k (b, ip', fs'))) back
                (Mapped_then sb first fs ip k b fs' ip' (entry_at sb k (b, ip', fs')) small one
                  two),
          )
    ]
  ]
