-- ===== src/Inode/Read.antt =====
-- readi as a read of an array of bytes, and after writei.
use mathlib.Core.Path.{subst}
use mit6_1810_why_tea_fo.Base.{
  ℕ, zero, suc, min, ◌+◌, ◌-◌, ◌*◌, ◌/◌, ◌%◌, ◌^◌, ◌<◌, ◌≤◌, ◌≡◌, ◌≢◌, refl, ◌∙◌, sym, ap, Bool,
  true, false, false≢true, Option, some, arith, ◌==◌, ltb, ◌||◌, if◌then◌else◌, Bool-cases, inl,
  inr, ◌⊎◌, ne→==, ltb→lt, ltb→ge,
}
use mit6_1810_why_tea_fo.Base.Int.{ℤ, pos, minus_one}
use mit6_1810_why_tea_fo.Base.Word.{add32}
use mit6_1810_why_tea_fo.Memory.{inside}
use mit6_1810_why_tea_fo.Fs.{bsize, Superblock, Fs}
use mit6_1810_why_tea_fo.Inode.{Inode, maxfile, bmap, copied, read_loop, readi, writei}
use mit6_1810_why_tea_fo.Inode.Slots.{slot, HasBlocks}
use mit6_1810_why_tea_fo.Inode.Bmap.{bmap_lem}
use mit6_1810_why_tea_fo.Inode.Content.{content}
use mit6_1810_why_tea_fo.Inode.Rounds.{content-slot}
use mit6_1810_why_tea_fo.Inode.Update.{IsInode}
use mit6_1810_why_tea_fo.Inode.Writei.{grown_size, IsWritten, writei_lem}

module _ (sb : Superblock) (first : ℕ) (refused : ℕ → Bool) (n : ℕ) (fs : Fs) (ip : Inode) where
  -- The bytes from `tot` to `n` are those of the inode from `off` on, and the others as they were.
  abbrev pub Taken : (dst : ℕ → ℕ) (tot off : ℕ) (dst' : ℕ → ℕ) → Type 0
  Taken dst tot off dst' =
      (i : ℕ) → dst' i ≡ (if inside tot (n - tot) i then content fs ip (off + (i - tot)) else dst i)

  abbrev pub Read : (dst : ℕ → ℕ) (tot off : ℕ) → Option (ℤ × (ℕ → ℕ) × Inode × Fs) → Type 0
  Read dst tot off r =
      ((dst' : ℕ → ℕ) × (r ≡ some (pos n, dst', ip, fs)) × Taken dst tot off dst')
      ⊎ ((t : ℕ) × (dst' : ℕ → ℕ) × (tot ≤ t)
          × (t < n)
          × (refused t ≡ true)
          × (r ≡ some (minus_one, dst', ip, fs)))

  Taken-more :
      (dst dst' block : ℕ → ℕ) (tot off m : ℕ)
      → tot + m ≤ n
      → off % bsize + m ≤ bsize
      → ((k : ℕ) → k / bsize ≡ off / bsize → content fs ip k ≡ block (k % bsize))
      → Taken (copied dst tot m (off % bsize) block) (tot + m) (off + m) dst'
      → Taken dst tot off dst'
  Taken-more dst dst' block tot off m le fits own h i = h i ∙ (elim (Bool-cases (inside tot m i)) [
    | inl e ↦
        let out : inside (tot + m) (n - (tot + m)) i ≡ false = ground arith in
        let within : inside tot (n - tot) i ≡ true = ground arith in
        let lo : tot ≤ i = ground arith in
        let hi : i < tot + m = ground arith in
        let index : off % bsize + (i - tot) ≡ (off + (i - tot)) % bsize = omega arith in
        rw (out, within, e, index) (sym (own (off + (i - tot)) (omega arith)))
    | inr e ↦ elim (Bool-cases (inside (tot + m) (n - (tot + m)) i)) [
      | inl e' ↦
          let within : inside tot (n - tot) i ≡ true = ground arith in
          let lo : tot + m ≤ i = ground arith in rw (e', within) (ap (content fs ip) (omega arith))
      | inr e' ↦ let out : inside tot (n - tot) i ≡ false = ground arith in rw (e', e, out) refl
    ]
  ])

  bmap-slot :
      HasBlocks sb first fs ip
      → (j : ℕ) → j < maxfile
      → slot fs ip j ≢ 0
      → bmap sb fs ip j ≡ some (slot fs ip j, ip, fs)
  bmap-slot h j lt ne = elim (bmap_lem sb first fs ip h j) [
    | inl (out, e) ↦ absurd (omega arith)
    | inr (small, r, e, m) ↦
        let (p, q) = m.kept ne in
        let at : r.0 ≡ slot fs ip j = sym m.at ∙ rw (p, q) refl in e ∙ (λ i. some (at i, p i, q i))
  ]

  read_loop-Read :
      (fuel : ℕ) (dst : ℕ → ℕ) (tot off : ℕ)
      → HasBlocks sb first fs ip
      → tot ≤ n
      → n - tot < fuel
      → off + (n - tot) ≤ maxfile * bsize
      → ((k : ℕ) → off ≤ k → k < off + (n - tot) → slot fs ip (k / bsize) ≢ 0)
      → Read dst tot off (read_loop sb refused n fuel fs ip dst tot off)
  unfolding read_loop
  read_loop-Read zero dst tot off h le enough all dense = absurd (omega arith)
  read_loop-Read (suc fuel) dst tot off h le enough all dense = elim (Bool-cases (ltb tot n)) [
    | inr done ↦
        let end : tot ≡ n = omega (arith, ltb→ge _ _ done) in
        rw done (
          inl (
            dst,
            ap (λ (t : ℕ). some (pos t, dst, ip, fs)) end,
            λ i. (let out : inside tot (n - tot) i ≡ false = ground arith in rw out),
          ))
    | inl more ↦
        let going = ltb→lt _ _ more in
        let b = slot fs ip (off / bsize) in
        let m = min (n - tot) (bsize - off % bsize) in
        let has = dense off (omega arith) (omega arith) in
        let some' : (b == 0) ≡ false = ne→== _ _ has in
        let found = bmap-slot h (off / bsize) (omega arith) has in
        let next = copied dst tot m (off % bsize) (fs.data' b) in
        elim (Bool-cases (refused tot)) [
          | inl fails ↦
              rw (more, found, some', fails) (inr (tot, dst, omega arith, going, fails, refl))
          | inr goes ↦
              let rest =
                read_loop-Read fuel next (tot + m) (off + m) h (omega arith) (omega arith)
                  (omega arith) (λ k a z. dense k (omega arith) (omega arith)) in
              rw (more, found, some', goes)
                (elim rest [
                  | inl (dst', e, taken) ↦ inl (
                    dst',
                    e,
                    Taken-more dst dst' (fs.data' b) tot off m (omega arith) (omega arith)
                        (λ k same. content-slot fs ip b k (ap (slot fs ip) same) has) taken,
                  )
                  | inr (t, dst', a, lt, x, e) ↦ inr (t, dst', omega arith, lt, x, e)
                ])
        ]
  ]

-- How many bytes there are to read.
abbrev pub clipped : (size off n : ℕ) → ℕ
clipped size off n = if ltb size (off + n) then size - off else n

-- readi behind the end of the inode, or where off + n wraps, returns 0; any other puts the inode's n
-- bytes from off on, or as many of them as it has, at the destination and returns their number, or
-- returns -1 where either_copyout fails. It changes neither the inode nor the disk.
pub readi_lem :
    (sb : Superblock) (first : ℕ) (refused : ℕ → Bool) (fs : Fs) (ip : Inode) (dst : ℕ → ℕ)
    (off n : ℕ)
    → IsInode sb first fs ip
    → off < 2 ^ 32
    → n < 2 ^ 32
    → (((ip.size < off) ⊎ (2 ^ 32 ≤ off + n))
        × (readi sb refused fs ip dst off n ≡ some (pos 0, dst, ip, fs)))
      ⊎ ((off ≤ ip.size)
          × Read sb first refused
              (clipped ip.size off n)
              fs
              ip
              dst
              0
              off
              (readi sb refused fs ip dst off n))
unfolding readi
readi_lem sb first refused fs ip dst off n h off_small n_small =
    elim (Bool-cases (ltb ip.size off || ltb (add32 off n) off)) [
      | inl e ↦ inl (ground arith, rw e)
      | inr e ↦
          let low : off ≤ ip.size = ground arith in
          let exact : add32 off n ≡ off + n = ground arith in
          let c = clipped ip.size off n in
          let fits : off + c ≤ ip.size = ground arith in
          inr (
            low,
            rw (e, exact)
                (read_loop-Read sb first refused c fs ip (c + 1) dst 0 off h.blocks (omega arith)
                  (omega arith) (omega (arith, fits, h.most))
                  (λ k a z. h.dense k (omega (arith, fits)))),
          )
    ]

read_written :
    (sb : Superblock) (first : ℕ) (src : ℕ → ℕ) (refused : ℕ → Option ℕ) (n : ℕ) (fs : Fs)
    (ip : Inode) (off : ℕ) (ip' : Inode) (fs' : Fs) (dst : ℕ → ℕ)
    → off < 2 ^ 32
    → n < 2 ^ 32
    → IsWritten sb first src refused n fs ip off n fs' ip'
    → (dst' : ℕ → ℕ) × (readi sb (λ t. false) fs' ip' dst off n ≡ some (pos n, dst', ip', fs'))
      × ((i : ℕ) → dst' i ≡ (if ltb i n then src i else dst i))
read_written sb first src refused n fs ip off ip' fs' dst off_small n_small w =
    let size : ip'.size ≡ grown_size ip.size (off + n) = ap (λ (j : Inode). j.size) w.same in
    let fits : off + n ≤ ip'.size = ground arith in
    let all : clipped ip'.size off n ≡ n = ground arith in
    elim (readi_lem sb first (λ t. false) fs' ip' dst off n w.inode off_small n_small) [
      | inl (inl behind, e) ↦ absurd (omega arith)
      | inl (inr wraps, e) ↦ absurd (omega (arith, w.inode.most))
      | inr (low, inr (t, dst', a, lt, x, e)) ↦ absurd (false≢true x)
      | inr (low, inl (dst', e, taken)) ↦ (
        dst',
        e ∙ ap (λ (c : ℕ). some (pos c, dst', ip', fs')) all,
        λ i. taken i ∙ (elim (Bool-cases (ltb i n)) [
          | inl in_range ↦
              let within : inside 0 (clipped ip'.size off n - 0) i ≡ true = ground arith in
              let index : off + (i - 0) ≡ off + i = omega arith in
              rw (within, in_range, index) (w.wrote i (ltb→lt _ _ in_range))
          | inr other ↦
              let out : inside 0 (clipped ip'.size off n - 0) i ≡ false = ground arith in
              rw (out, other) refl
        ]),
      )
    ]

-- What writei has written in full, readi reads back, with either_copyout never failing.
pub readi-writei :
    (sb : Superblock) (first : ℕ) (src : ℕ → ℕ) (refused : ℕ → Option ℕ) (n : ℕ) (fs : Fs)
    (ip : Inode) (off : ℕ) (ip' : Inode) (fs' : Fs) (dst : ℕ → ℕ)
    → IsInode sb first fs ip
    → off < 2 ^ 32
    → n < 2 ^ 32
    → writei sb src refused n fs ip off ≡ some (pos n, ip', fs')
    → (dst' : ℕ → ℕ) × (readi sb (λ t. false) fs' ip' dst off n ≡ some (pos n, dst', ip', fs'))
      × ((i : ℕ) → dst' i ≡ (if ltb i n then src i else dst i))
readi-writei sb first src refused n fs ip off ip' fs' dst h off_small n_small e =
    elim (writei_lem sb first src refused n fs ip off h off_small n_small) [
      | inl (out, e') ↦ cc
      | inr (t, ip1, fs1, e', w) ↦
          let all : t ≡ n = cc in
          let ip_same : ip1 ≡ ip' = cc in
          let fs_same : fs1 ≡ fs' = cc in
          read_written sb first src refused n fs ip off ip' fs' dst off_small n_small (
            subst (λ (z : ℕ × Inode × Fs). IsWritten sb first src refused n fs ip off z.0 z.2 z.1)
              (λ i. (all i, ip_same i, fs_same i)) w)
    ]
