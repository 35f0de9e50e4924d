-- ===== src/Inode/Free.antt =====
-- The loops of itrunc, over any numbers of blocks.
use mathlib.Core.Path.{subst}
use mit6_1810_why_tea_fo.Base.{
  ℕ, zero, suc, ◌+◌, ◌<◌, ◌≤◌, ◌≡◌, ◌≢◌, refl, ◌∙◌, sym, ap, Bool, true, false, not, false≢true,
  some, arith, ◌==◌, ◌&&◌, ◌||◌, if◌then◌else◌, Bool-cases, inl, inr, ==→eq, ==→ne, ne→==,
}
use mit6_1810_why_tea_fo.Memory.{inside}
use mit6_1810_why_tea_fo.Store.{update}
use mit6_1810_why_tea_fo.Fs.{Superblock, Fs, bfree}
use mit6_1810_why_tea_fo.Fs.Bits.{is_used}
use mit6_1810_why_tea_fo.Fs.Balloc.{HasMap, IsFreed, bfree_lem}
use mit6_1810_why_tea_fo.Inode.{Inode, uint_at, free_direct, free_entries}

-- `x` is one of the numbers f i, ..., f (i + k - 1), and not 0.
pub owned : (f : ℕ → ℕ) (i k x : ℕ) → Bool
owned f i zero x = false
owned f i (suc k) x = (not (f i == 0) && (f i == x)) || owned f (i + 1) k x

cleared : (f : ℕ → ℕ) (i n : ℕ) → n ≢ i → update f i 0 n ≡ f n
unfolding update
cleared f i n ne = let e : (n == i) ≡ false = ne→== _ _ ne in rw e

addrs_skip :
    (f : ℕ → ℕ) (i k n : ℕ)
    → f i ≡ 0
    → (if inside (i + 1) k n then 0 else f n) ≡ (if inside i (suc k) n then 0 else f n)
addrs_skip f i k n z = ground arith

addrs_cleared :
    (f : ℕ → ℕ) (i k n : ℕ)
    → (if inside (i + 1) k n then 0 else update f i 0 n) ≡ (if inside i (suc k) n then 0 else f n)
unfolding update
addrs_cleared f i k n = ground arith

module _ (sb : Superblock) (first : ℕ) where
  -- The blocks f i, ..., f (i + k - 1) can be freed: those that are not 0 are data blocks in use, no two
  -- of them the same.
  pub record Ready (f : ℕ → ℕ) (i k : ℕ) (fs : Fs) : Type 0 where
    pub map' : HasMap sb first fs
    pub low : (n : ℕ) → i ≤ n → n < i + k → f n ≢ 0 → first ≤ f n
    pub high : (n : ℕ) → i ≤ n → n < i + k → f n ≢ 0 → f n < sb.size
    pub used : (n : ℕ) → i ≤ n → n < i + k → f n ≢ 0 → is_used sb fs (f n) ≡ true
    pub distinct : (n m : ℕ) → i ≤ n → n < m → m < i + k → f n ≢ 0 → f n ≢ f m

  -- They have been freed.
  pub record Released (f : ℕ → ℕ) (i k : ℕ) (fs fs' : Fs) : Type 0 where
    pub map' : HasMap sb first fs'
    pub used :
        (x : ℕ)
        → x < sb.size
        → is_used sb fs' x ≡ (if owned f i k x then false else is_used sb fs x)
    pub bytes : (x : ℕ) → first ≤ x → fs'.data' x ≡ fs.data' x

  Released-none : (f : ℕ → ℕ) (i : ℕ) (fs : Fs) → HasMap sb first fs → Released f i zero fs fs
  unfolding owned
  Released-none f i fs h = record { map' = h; used = λ x lt. refl; bytes = λ x le. refl }

  Ready-skip : (f : ℕ → ℕ) (i k : ℕ) (fs : Fs) → Ready f i (suc k) fs → Ready f (i + 1) k fs
  Ready-skip f i k fs h = record {
    map' = h.map';
    low = λ n a b. h.low n (omega arith) (omega arith);
    high = λ n a b. h.high n (omega arith) (omega arith);
    used = λ n a b. h.used n (omega arith) (omega arith);
    distinct = λ n m a b c. h.distinct n m (omega arith) b (omega arith);
  }

  Ready-freed :
      (f : ℕ → ℕ) (i k : ℕ) (fs fs' : Fs)
      → f i ≢ 0
      → Ready f i (suc k) fs
      → IsFreed sb first fs (f i) fs'
      → Ready f (i + 1) k fs'
  Ready-freed f i k fs fs' ne h g = record {
    map' = g.map';
    low = λ n a b. h.low n (omega arith) (omega arith);
    high = λ n a b. h.high n (omega arith) (omega arith);
    used = λ n a b z. ground (arith, g.used (f n), h.high n, h.used n, h.distinct i n);
    distinct = λ n m a b c. h.distinct n m (omega arith) b (omega arith);
  }

  Released-skip :
      (f : ℕ → ℕ) (i k : ℕ) (fs fs' : Fs)
      → f i ≡ 0
      → Released f (i + 1) k fs fs'
      → Released f i (suc k) fs fs'
  unfolding owned
  Released-skip f i k fs fs' z h = record {
    map' = h.map';
    used = λ x lt. ground (arith, h.used x);
    bytes = h.bytes;
  }

  Released-freed :
      (f : ℕ → ℕ) (i k : ℕ) (fs fs' fs'' : Fs)
      → f i ≢ 0
      → IsFreed sb first fs (f i) fs'
      → Released f (i + 1) k fs' fs''
      → Released f i (suc k) fs fs''
  unfolding owned
  Released-freed f i k fs fs' fs'' ne g h = record {
    map' = h.map';
    used = λ x lt. ground (arith, h.used x, g.used x);
    bytes = λ x le. h.bytes x le ∙ g.others x le;
  }

  bfree-Ready :
      (f : ℕ → ℕ) (i k : ℕ) (fs : Fs) (b : ℕ)
      → b ≡ f i
      → b ≢ 0
      → Ready f i (suc k) fs
      → (fs' : Fs) × (bfree sb fs b ≡ some fs') × IsFreed sb first fs b fs'
  bfree-Ready f i k fs b e ne h =
      let ne' : f i ≢ 0 = λ z. ne (e ∙ z) in
      let low : first ≤ b = omega (arith, h.low i (omega arith) (omega arith) ne') in
      let high : b < sb.size = omega (arith, h.high i (omega arith) (omega arith) ne') in
      elim (bfree_lem sb first fs h.map' b low high) [
        | inl (free, x) ↦ absurd (
            false≢true (sym free ∙ ap (is_used sb fs) e ∙ h.used i (omega arith) (omega arith) ne'))
        | inr (full, fs', x, g) ↦ (fs', x, g)
      ]

  pub free_direct-Released :
      (f : ℕ → ℕ) (k : ℕ) (fs : Fs) (ip : Inode) (i : ℕ)
      → ((n : ℕ) → i ≤ n → ip.addrs n ≡ f n)
      → Ready f i k fs
      → (ip' : Inode) × (fs' : Fs) × (free_direct sb k fs ip i ≡ some (ip', fs'))
        × Released f i k fs fs'
        × (ip' ≡ record ip { addrs = ip'.addrs })
        × ((n : ℕ) → ip'.addrs n ≡ (if inside i k n then 0 else ip.addrs n))
  unfolding free_direct
  free_direct-Released f zero fs ip i agree h = (
    ip,
    fs,
    refl,
    Released-none f i fs h.map',
    refl,
    λ n. (let e : inside i 0 n ≡ false = ground arith in rw e),
  )
  free_direct-Released f (suc k) fs ip i agree h = elim (Bool-cases (ip.addrs i == 0)) [
    | inl z ↦
        let zero' : f i ≡ 0 = sym (agree i (omega arith)) ∙ ==→eq _ _ z in
        let (ip', fs', e, g, same, addrs) =
          free_direct-Released f k fs ip (i + 1) (λ n le. agree n (omega arith))
            (Ready-skip f i k fs h) in
        (
          ip',
          fs',
          rw z e,
          Released-skip f i k fs fs' zero' g,
          same,
          λ n. addrs n ∙ addrs_skip ip.addrs i k n (==→eq _ _ z),
        )
    | inr has ↦
        let ne = ==→ne _ _ has in
        let at = agree i (omega arith) in
        let ne' : f i ≢ 0 = λ z. ne (at ∙ z) in
        let (fs1, x, freed) = bfree-Ready f i k fs (ip.addrs i) at ne h in
        let freed' : IsFreed sb first fs (f i) fs1 =
          subst (λ (b : ℕ). IsFreed sb first fs b fs1) at freed in
        let ip1 : Inode = record ip { addrs = update ip.addrs i 0 } in
        let (ip', fs', e, g, same, addrs) =
          free_direct-Released f k fs1 ip1 (i + 1)
            (λ n le. cleared ip.addrs i n (omega arith) ∙ agree n (omega arith))
            (Ready-freed f i k fs fs1 ne' h freed') in
        (
          ip',
          fs',
          rw (has, x) e,
          Released-freed f i k fs fs1 fs' ne' freed' g,
          same,
          λ n. addrs n ∙ addrs_cleared ip.addrs i k n,
        )
  ]

  pub free_entries-Released :
      (f : ℕ → ℕ) (b k : ℕ) (fs : Fs) (j : ℕ)
      → first ≤ b
      → ((n : ℕ) → uint_at (fs.data' b) n ≡ f n)
      → Ready f j k fs
      → (fs' : Fs) × (free_entries sb k fs b j ≡ some fs') × Released f j k fs fs'
  unfolding free_entries
  free_entries-Released f b zero fs j low agree h = (fs, refl, Released-none f j fs h.map')
  free_entries-Released f b (suc k) fs j low agree h =
      elim (Bool-cases (uint_at (fs.data' b) j == 0)) [
        | inl z ↦
            let zero' : f j ≡ 0 = sym (agree j) ∙ ==→eq _ _ z in
            let (fs', e, g) =
              free_entries-Released f b k fs (j + 1) low agree (Ready-skip f j k fs h) in
            (fs', rw z e, Released-skip f j k fs fs' zero' g)
        | inr has ↦
            let ne = ==→ne _ _ has in
            let at = agree j in
            let ne' : f j ≢ 0 = λ z. ne (at ∙ z) in
            let (fs1, x, freed) = bfree-Ready f j k fs (uint_at (fs.data' b) j) at ne h in
            let freed' : IsFreed sb first fs (f j) fs1 =
              subst (λ (a : ℕ). IsFreed sb first fs a fs1) at freed in
            let (fs', e, g) =
              free_entries-Released f b k fs1 (j + 1) low
                (λ n. ap (λ (d : ℕ → ℕ). uint_at d n) (freed.others b low) ∙ agree n)
                (Ready-freed f j k fs fs1 ne' h freed') in
            (fs', rw (has, x) e, Released-freed f j k fs fs1 fs' ne' freed' g)
      ]

pub owned_yes :
    (f : ℕ → ℕ) (i k x n : ℕ) → i ≤ n → n < i + k → f n ≢ 0 → f n ≡ x → owned f i k x ≡ true
unfolding owned
owned_yes f i zero x n a b ne e = absurd (omega arith)
owned_yes f i (suc k) x n a b ne e = elim (Bool-cases (n == i)) [
  | inl here ↦ let same : n ≡ i = ==→eq _ _ here in ground arith
  | inr later ↦
      let other : n ≢ i = ==→ne _ _ later in
      ground (arith, owned_yes f (i + 1) k x n (omega arith) (omega arith) ne e)
]

pub owned_no :
    (f : ℕ → ℕ) (i k x : ℕ)
    → ((n : ℕ) → i ≤ n → n < i + k → f n ≢ 0 → f n ≢ x)
    → owned f i k x ≡ false
unfolding owned
owned_no f i zero x h = refl
owned_no f i (suc k) x h =
    ground (arith, h i, owned_no f (i + 1) k x (λ n a b. h n (omega arith) (omega arith)))
