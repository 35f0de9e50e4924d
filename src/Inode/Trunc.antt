-- ===== src/Inode/Trunc.antt =====
-- itrunc frees the blocks of the inode, and no other.
use mit6_1810_why_tea_fo.Base.{
  ℕ, ◌+◌, ◌-◌, ◌<◌, ◌≤◌, ◌≡◌, ◌≢◌, refl, ◌∙◌, sym, ap, true, false, false≢true, some, arith, ◌==◌,
  ltb, if◌then◌else◌, Bool-cases, inl, inr, ==→eq, ==→ne, ne→==, eq→==, lt→ltb, ltb→lt, ltb→ge,
  ==_refl,
}
use mit6_1810_why_tea_fo.Memory.{inside}
use mit6_1810_why_tea_fo.Store.{update}
use mit6_1810_why_tea_fo.Fs.{Superblock, Fs, bfree}
use mit6_1810_why_tea_fo.Fs.Bits.{is_used}
use mit6_1810_why_tea_fo.Fs.Balloc.{HasMap, IsFreed, bfree_lem}
use mit6_1810_why_tea_fo.Inode.{
  Inode, uint_at, ndirect, nindirect, maxfile, iblock, iupdate, free_direct, free_entries,
  free_indirect, emptied, itrunc,
}
use mit6_1810_why_tea_fo.Inode.Slots.{slot, slot-maxfile, HasBlocks}
use mit6_1810_why_tea_fo.Inode.Bmap.{slot-entry}
use mit6_1810_why_tea_fo.Inode.Update.{
  IsInode, iupdate-HasBlocks, is_used-iupdate, slot-iupdate, data'-iupdate,
}
use mit6_1810_why_tea_fo.Inode.Free.{
  owned, owned_yes, owned_no, Ready, Released, free_direct-Released, free_entries-Released,
}

zeroed_addrs :
    (f f' : ℕ → ℕ) (n : ℕ)
    → n ≤ ndirect
    → f' n ≡ (if inside 0 ndirect n then 0 else f n)
    → update f' ndirect 0 n ≡ 0
unfolding update
zeroed_addrs f f' n le e = ground arith

pub empty_slots :
    (fs : Fs) (ip : Inode)
    → ((n : ℕ) → n ≤ ndirect → ip.addrs n ≡ 0)
    → (n : ℕ) → n ≤ maxfile
    → slot fs ip n ≡ 0
unfolding slot
empty_slots fs ip z n le = ground (arith, z n, z ndirect)

module _ (sb : Superblock) where
  no_indirect_step :
      (fs : Fs) (ip : Inode) → ip.addrs ndirect ≡ 0 → free_indirect sb fs ip ≡ some (ip, fs)
  unfolding free_indirect
  no_indirect_step fs ip z = let e : (ip.addrs ndirect == 0) ≡ true = eq→== _ _ z in rw e

  indirect_step :
      (fs fs' fs'' : Fs) (ip : Inode) (b : ℕ)
      → ip.addrs ndirect ≡ b
      → b ≢ 0
      → free_entries sb nindirect fs b 0 ≡ some fs'
      → bfree sb fs' b ≡ some fs''
      → free_indirect sb fs ip ≡ some (record ip { addrs = update ip.addrs ndirect 0 }, fs'')
  unfolding free_indirect
  indirect_step fs fs' fs'' ip b at has e e' =
      let ne : (ip.addrs ndirect == 0) ≡ false = ne→== _ _ (λ z. has (sym at ∙ z)) in
      let first : free_entries sb nindirect fs (ip.addrs ndirect) 0 ≡ some fs' =
        ap (λ (a : ℕ). free_entries sb nindirect fs a 0) at ∙ e in
      let second : bfree sb fs' (ip.addrs ndirect) ≡ some fs'' = ap (bfree sb fs') at ∙ e' in
      rw (ne, first, second)

  itrunc_step :
      (fs fs1 fs' : Fs) (ip ip1 ip' : Inode)
      → free_direct sb ndirect fs ip 0 ≡ some (ip1, fs1)
      → free_indirect sb fs1 ip1 ≡ some (ip', fs')
      → itrunc sb fs ip ≡ emptied sb (some (ip', fs'))
  unfolding itrunc
  itrunc_step fs fs1 fs' ip ip1 ip' e e' = rw (e, itrunc) (ap (emptied sb) e')

module _ (sb : Superblock) (first : ℕ) (fs : Fs) (ip : Inode) where
  -- All the inode's blocks are free.
  pub record IsTruncated (fs' : Fs) (ip' : Inode) : Type 0 where
    pub inode : IsInode sb first fs' ip'
    pub same : ip' ≡ record ip { addrs = ip'.addrs; size = 0 }
    pub slots : (n : ℕ) → n ≤ maxfile → slot fs' ip' n ≡ 0
    pub freed : (n : ℕ) → n ≤ maxfile → slot fs ip n ≢ 0 → is_used sb fs' (slot fs ip n) ≡ false
    pub others :
        (x : ℕ)
        → x < sb.size
        → ((n : ℕ) → n ≤ maxfile → slot fs ip n ≢ x)
        → is_used sb fs' x ≡ is_used sb fs x
    pub bytes : (x : ℕ) → first ≤ x → fs'.data' x ≡ fs.data' x

  slot-direct : (n : ℕ) → n < ndirect → slot fs ip n ≡ ip.addrs n
  unfolding slot
  slot-direct n lt = let e : ltb n ndirect ≡ true = lt→ltb _ _ lt in rw e

  module _ (h : HasBlocks sb first fs ip) where
    direct-Ready : Ready sb first ip.addrs 0 ndirect fs
    direct-Ready = record {
      map' = h.map';
      low = λ n a b. ground (arith, slot-direct n, h.low n);
      high = λ n a b. ground (arith, slot-direct n, h.high n);
      used = λ n a b. ground (arith, slot-direct n, h.used n);
      distinct = λ n m a b c. ground (arith, slot-direct n, slot-direct m, h.distinct n m);
    }

    module _ (b : ℕ) (at : ip.addrs ndirect ≡ b) (has : b ≢ 0) where
      abbrev entries : ℕ → ℕ
      entries n = uint_at (fs.data' b) n

      b_slot : slot fs ip maxfile ≡ b
      b_slot = slot-maxfile fs ip ∙ at

      b_high : b < sb.size
      b_high = omega (arith, b_slot, h.high maxfile (omega arith) (λ z. has (sym b_slot ∙ z)))

      b_low : first ≤ b
      b_low = omega (arith, b_slot, h.low maxfile (omega arith) (λ z. has (sym b_slot ∙ z)))

      slot-entries : (n : ℕ) → n < nindirect → slot fs ip (n + ndirect) ≡ entries n
      slot-entries n lt =
          slot-entry sb first fs ip h n lt
          ∙ (let e : (b == 0) ≡ false = ne→== _ _ has in rw (at, e) refl)

      entries-Ready :
          (fs' : Fs)
          → Released sb first ip.addrs 0 ndirect fs fs'
          → Ready sb first entries 0 nindirect fs'
      entries-Ready fs' g = record {
        map' = g.map';
        low = λ n a lt. ground (arith, slot-entries n, h.low (n + ndirect));
        high = λ n a lt. ground (arith, slot-entries n, h.high (n + ndirect));
        used = λ n a lt ne.
            let same = slot-entries n (omega arith) in
            let ne' : slot fs ip (n + ndirect) ≢ 0 = λ z. ne (sym same ∙ z) in
            let high : entries n < sb.size =
              omega (arith, h.high (n + ndirect) (omega arith) ne') in
            let apart : owned ip.addrs 0 ndirect (entries n) ≡ false =
              owned_no ip.addrs 0 ndirect (entries n) (λ m a' lt' ne''. λ e. absurd (
                omega (
                  arith,
                  h.distinct (n + ndirect) m (omega arith) (omega arith) ne'
                      (same ∙ sym e ∙ sym (slot-direct m lt')),
                ))) in
            g.used (entries n) high
            ∙ rw apart (ap (is_used sb fs) (sym same) ∙ h.used (n + ndirect) (omega arith) ne');
        distinct = λ n m a lt c.
            ground (arith, slot-entries n, slot-entries m, h.distinct (n + ndirect) (m + ndirect));
      }

    -- The blocks are free, and their numbers are gone.
    record Cleared (fs' : Fs) (ip' : Inode) : Type 0 where
      map' : HasMap sb first fs'
      addrs : (n : ℕ) → n ≤ ndirect → ip'.addrs n ≡ 0
      same : ip' ≡ record ip { addrs = ip'.addrs }
      freed : (n : ℕ) → n ≤ maxfile → slot fs ip n ≢ 0 → is_used sb fs' (slot fs ip n) ≡ false
      others :
          (x : ℕ)
          → x < sb.size
          → ((n : ℕ) → n ≤ maxfile → slot fs ip n ≢ x)
          → is_used sb fs' x ≡ is_used sb fs x
      bytes : (x : ℕ) → first ≤ x → fs'.data' x ≡ fs.data' x

    direct_freed :
        (fs' : Fs)
        → Released sb first ip.addrs 0 ndirect fs fs'
        → (n : ℕ) → n < ndirect
        → slot fs ip n ≢ 0
        → is_used sb fs' (slot fs ip n) ≡ false
    direct_freed fs' g n lt ne =
        let at = slot-direct n lt in
        let mine =
          owned_yes ip.addrs 0 ndirect (slot fs ip n) n (omega arith) (omega arith)
            (λ z. ne (at ∙ z)) (sym at) in
        g.used (slot fs ip n) (h.high n (omega arith) ne) ∙ rw mine

    direct_kept :
        (fs' : Fs)
        → Released sb first ip.addrs 0 ndirect fs fs'
        → (x : ℕ) → x < sb.size
        → ((n : ℕ) → n ≤ maxfile → slot fs ip n ≢ x)
        → is_used sb fs' x ≡ is_used sb fs x
    direct_kept fs' g x lt no' =
        let other =
          owned_no ip.addrs 0 ndirect x (λ n a b ne e. no' n (omega arith) (slot-direct n b ∙ e)) in
        g.used x lt ∙ rw other

    no_indirect : ip.addrs ndirect ≡ 0 → (n : ℕ) → ndirect ≤ n → n ≤ maxfile → slot fs ip n ≡ 0
    unfolding slot
    no_indirect z n a b = ground arith

    -- without an indirect block
    direct-Cleared :
        (fs' : Fs) (ip' : Inode)
        → ip.addrs ndirect ≡ 0
        → Released sb first ip.addrs 0 ndirect fs fs'
        → ip' ≡ record ip { addrs = ip'.addrs }
        → ((n : ℕ) → ip'.addrs n ≡ (if inside 0 ndirect n then 0 else ip.addrs n))
        → Cleared fs' ip'
    direct-Cleared fs' ip' z g same addrs = record {
      map' = g.map';
      addrs = λ n le. ground (arith, addrs n);
      same = same;
      freed = λ n le ne. elim (Bool-cases (ltb n ndirect)) [
        | inl e ↦ direct_freed fs' g n (ltb→lt _ _ e) ne
        | inr e ↦ absurd (ne (no_indirect z n (ltb→ge _ _ e) le))
      ];
      others = direct_kept fs' g;
      bytes = g.bytes;
    }

    -- with the indirect block `b`
    module _ (b : ℕ) (at : ip.addrs ndirect ≡ b) (has : b ≢ 0) (fs1 fs2 fs3 : Fs)
        (g : Released sb first ip.addrs 0 ndirect fs fs1)
        (g2 : Released sb first (entries b at has) 0 nindirect fs1 fs2) where
      kept_to_2 :
          (x : ℕ)
          → x < sb.size
          → ((n : ℕ) → n < maxfile → slot fs ip n ≢ 0 → slot fs ip n ≢ x)
          → is_used sb fs2 x ≡ is_used sb fs x
      kept_to_2 x lt no' =
          let one = owned_no ip.addrs 0 ndirect x (λ n a c ne e.
            no' n (omega arith) (λ z. ne (sym (slot-direct n c) ∙ z)) (slot-direct n c ∙ e)) in
          let two = owned_no (entries b at has) 0 nindirect x (λ n a c ne e.
            (let s = slot-entries b at has n c in
              no' (n + ndirect) (omega arith) (λ z. ne (sym s ∙ z)) (s ∙ e))) in
          g2.used x lt ∙ rw two (g.used x lt ∙ rw one)

      b_used : is_used sb fs2 b ≡ true
      b_used =
          kept_to_2 b (b_high b at has) (λ n lt ne e. absurd (
            omega (
              arith,
              h.distinct n maxfile (omega arith) (omega arith) ne (e ∙ sym (b_slot b at has)),
            )))
          ∙ ap (is_used sb fs) (sym (b_slot b at has))
          ∙ h.used maxfile (omega arith) (λ z. has (sym (b_slot b at has) ∙ z))

      freed_to_2 : (n : ℕ) → n < maxfile → slot fs ip n ≢ 0 → is_used sb fs2 (slot fs ip n) ≡ false
      freed_to_2 n lt ne = elim (Bool-cases (ltb n ndirect)) [
        | inl e ↦
            let one = direct_freed fs1 g n (ltb→lt _ _ e) ne in
            ground (arith, g2.used (slot fs ip n), h.high n)
        | inr e ↦
            let le = ltb→ge _ _ e in
            let k = n - ndirect in
            let back : k + ndirect ≡ n = omega arith in
            let s : entries b at has k ≡ slot fs ip n =
              sym (slot-entries b at has k (omega arith)) ∙ ap (slot fs ip) back in
            let mine =
              owned_yes (entries b at has) 0 nindirect (slot fs ip n) k (omega arith) (omega arith)
                (λ z. ne (sym s ∙ z)) s in
            g2.used (slot fs ip n) (h.high n (omega arith) ne) ∙ rw mine
      ]

      indirect-Cleared :
          (ip' : Inode)
          → IsFreed sb first fs2 b fs3
          → ip' ≡ record ip { addrs = ip'.addrs }
          → ((n : ℕ) → n ≤ ndirect → ip'.addrs n ≡ 0)
          → Cleared fs3 ip'
      indirect-Cleared ip' f same addrs = record {
        map' = f.map';
        addrs = addrs;
        same = same;
        freed = λ n le ne. elim (Bool-cases (n == maxfile)) [
          | inl e ↦
              let last : slot fs ip n ≡ b = ap (slot fs ip) (==→eq _ _ e) ∙ b_slot b at has in
              f.used (slot fs ip n) (h.high n le ne) ∙ rw (last, ==_refl b) refl
          | inr e ↦
              let gone = freed_to_2 n (omega (arith, ==→ne _ _ e)) ne in
              f.used (slot fs ip n) (h.high n le ne) ∙ ground arith
        ];
        others = λ x lt no'.
            f.used x lt
            ∙ (let e : (x == b) ≡ false =
                  ne→== _ _ (λ z. no' maxfile (omega arith) (b_slot b at has ∙ sym z)) in
                rw e (kept_to_2 x lt (λ n l ne. no' n (omega arith))));
        bytes = λ x le. f.others x le ∙ g2.bytes x le ∙ g.bytes x le;
      }

    free_all :
        (ip1 : Inode) × (fs1 : Fs) × (ip' : Inode) × (fs' : Fs) × (free_direct sb ndirect fs ip 0
          ≡ some (ip1, fs1))
        × (free_indirect sb fs1 ip1 ≡ some (ip', fs'))
        × Cleared fs' ip'
    free_all =
        let (ip1, fs1, e1, g, same, addrs) =
          free_direct-Released sb first ip.addrs ndirect fs ip 0 (λ n le. refl) direct-Ready in
        let old : ip1.addrs ndirect ≡ ip.addrs ndirect = addrs ndirect in
        elim (Bool-cases (ip.addrs ndirect == 0)) [
          | inl z ↦
              let none' = ==→eq _ _ z in
              (
                ip1,
                fs1,
                ip1,
                fs1,
                e1,
                no_indirect_step sb fs1 ip1 (old ∙ none'),
                direct-Cleared fs1 ip1 none' g same addrs,
              )
          | inr ne ↦
              let b = ip.addrs ndirect in
              let has = ==→ne _ _ ne in
              let low = b_low b refl has in
              let (fs2, e2, g2) =
                free_entries-Released sb first (entries b refl has) b nindirect fs1 0 low
                  (λ n. ap (λ (d : ℕ → ℕ). uint_at d n) (g.bytes b low))
                  (entries-Ready b refl has fs1 g) in
              let ip3 : Inode = record ip1 { addrs = update ip1.addrs ndirect 0 } in
              elim (bfree_lem sb first fs2 g2.map' b low (b_high b refl has)) [
                | inl (free, x) ↦
                    absurd (false≢true (sym free ∙ b_used b refl has fs1 fs2 fs2 g g2))
                | inr (full, fs3, e3, f) ↦ (
                  ip1,
                  fs1,
                  ip3,
                  fs3,
                  e1,
                  indirect_step sb fs1 fs2 fs3 ip1 b old has e2 e3,
                  indirect-Cleared b refl has fs1 fs2 fs3 g g2 ip3 f
                      (ap (λ (j : Inode). record j { addrs = update ip1.addrs ndirect 0 }) same)
                      (λ n le. zeroed_addrs ip.addrs ip1.addrs n le (addrs n)),
                )
              ]
        ]

    emptied-IsTruncated :
        (fs' : Fs) (ip' : Inode)
        → iblock sb ip.inum < sb.bmapstart
        → Cleared fs' ip'
        → let ip1 : Inode = record ip' { size = 0 } in IsTruncated (iupdate sb fs' ip1) ip1
    emptied-IsTruncated fs' ip' place c =
        let ip1 : Inode = record ip' { size = 0 } in
        let none' : (n : ℕ) → n ≤ maxfile → slot fs' ip1 n ≡ 0 = empty_slots fs' ip1 c.addrs in
        let blocks : HasBlocks sb first fs' ip1 = record {
          map' = c.map';
          small = h.small;
          low = λ n le ne. absurd (ne (none' n le));
          high = λ n le ne. absurd (ne (none' n le));
          used = λ n le ne. absurd (ne (none' n le));
          distinct = λ n m le le' ne. absurd (ne (none' n le));
        } in
        let place' : iblock sb ip1.inum < sb.bmapstart =
          rw (ap (λ (j : Inode). j.inum) c.same) place in
        let used = is_used-iupdate sb first fs' ip1 blocks place' in
        record {
          inode = record {
            blocks = iupdate-HasBlocks sb first fs' ip1 blocks place';
            dense = λ k lt. absurd (omega arith);
            most = omega arith;
            place = place';
          };
          same = ap (λ (j : Inode). record j { size = 0 }) c.same;
          slots = λ n le. slot-iupdate sb first fs' ip1 blocks place' n ∙ none' n le;
          freed = λ n le ne. used (slot fs ip n) ∙ c.freed n le ne;
          others = λ x lt no'. used x ∙ c.others x lt no';
          bytes = λ x le. data'-iupdate sb first fs' ip1 blocks place' x le ∙ c.bytes x le;
        }

-- itrunc does not panic. The blocks that the inode had are free then, the indirect block among them,
-- every other block is in use if it was before, and no data block has changed; the inode has no
-- blocks and no bytes.
pub itrunc_lem :
    (sb : Superblock) (first : ℕ) (fs : Fs) (ip : Inode)
    → IsInode sb first fs ip
    → (ip' : Inode) × (fs' : Fs) × (itrunc sb fs ip ≡ some (ip', fs'))
      × IsTruncated sb first fs ip fs' ip'
itrunc_lem sb first fs ip h =
    let (ip1, fs1, ip', fs', e1, e2, c) = free_all sb first fs ip h.blocks in
    let ip2 : Inode = record ip' { size = 0 } in
    (
      ip2,
      iupdate sb fs' ip2,
      itrunc_step sb fs fs1 fs' ip ip1 ip' e1 e2,
      emptied-IsTruncated sb first fs ip h.blocks fs' ip' h.place c,
    )
