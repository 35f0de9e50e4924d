-- ===== src/Inode/Tests.antt =====
-- An inode with one block on a small disk.
use mit6_1810_why_tea_fo.Base.{
  ℕ, zero, suc, ◌+◌, ◌<◌, ◌≤◌, ◌≡◌, ◌⊎◌, ◌^◌, refl, true, false, ◌&&◌, none, some, [], arith, ◌==◌,
  ltb, if◌then◌else◌, ◌/◌, ◌*◌,
}
use mit6_1810_why_tea_fo.Base.Int.{pos, minus_one}
use mit6_1810_why_tea_fo.Store.{update}
use mit6_1810_why_tea_fo.Fs.{Superblock, Fs, bsize, bit, log_write}
use mit6_1810_why_tea_fo.Fs.Bits.{is_used}
use mit6_1810_why_tea_fo.Inode.{
  Inode, maxfile, bmap, addr_at, with_copied, write_loop, writei, readi, iupdate, itrunc,
}
use mit6_1810_why_tea_fo.Inode.Slots.{slot, HasBlocks}
use mit6_1810_why_tea_fo.Inode.Bmap.{Mapped, bmap_lem}
use mit6_1810_why_tea_fo.Inode.Update.{IsInode}
use mit6_1810_why_tea_fo.Inode.Writei.{IsWritten, writei_lem}
use mit6_1810_why_tea_fo.Inode.Read.{clipped, Read, readi_lem, readi-writei}
use mit6_1810_why_tea_fo.Inode.Trunc.{IsTruncated, itrunc_lem}

-- The blocks 0 to 3 are in use, and 3 is the inode's first.
abbrev pub sb : Superblock
sb = record { size = 9; ninodes = 16; inodestart = 1; bmapstart = 2 }

abbrev pub disk : Fs
disk = record { data' = λ b i. if (b == 2) && (i == 0) then 15 else 0; logged = [] }

abbrev pub file : Inode
file = record {
  inum = 1;
  type' = 2;
  major = 0;
  minor = 0;
  nlink = 0;
  size = 5;
  addrs = λ n. if n == 0 then 3 else 0;
}

low_used : (x : ℕ) → x < 3 → is_used sb disk x ≡ true
unfolding is_used bit
low_used zero h = refl
low_used (suc zero) h = refl
low_used (suc (suc zero)) h = refl
low_used (suc (suc (suc x))) h = absurd (omega arith)

three_used : is_used sb disk 3 ≡ true
unfolding is_used bit
three_used = refl

file_slots : (n : ℕ) → slot disk file n ≡ (if n == 0 then 3 else 0)
unfolding slot
file_slots n = ground arith

file-HasBlocks : HasBlocks sb 3 disk file
file-HasBlocks = record {
  map' = record { room = omega arith; within = omega arith; low = low_used };
  small = omega arith;
  low = λ n le ne. ground (arith, file_slots n);
  high = λ n le ne. ground (arith, file_slots n);
  used = λ n le ne. ground (arith, file_slots n, three_used);
  distinct = λ n m le le' ne e. ground (arith, file_slots n, file_slots m);
}

pub file-IsInode : IsInode sb 3 disk file
file-IsInode = record {
  blocks = file-HasBlocks;
  dense = λ k lt. (let e : k / bsize ≡ 0 = omega arith in ground (arith, file_slots (k / bsize)));
  most = omega arith;
  place = omega arith;
}

bmap_lem_example :
    ((maxfile ≤ 1) × (bmap sb disk file 1 ≡ none))
    ⊎ ((1 < maxfile)
        × (r : ℕ × Inode × Fs) × (bmap sb disk file 1 ≡ some r)
        × Mapped sb 3 disk file 1 r)
bmap_lem_example = bmap_lem sb 3 disk file file-HasBlocks 1

abbrev letters : ℕ → ℕ
letters i = b'a' + i

writei_lem_example :
    (((5 < 5) ⊎ (maxfile * bsize < 5 + 2000))
      × (writei sb letters (λ t. none) 2000 disk file 5 ≡ some (minus_one, file, disk)))
    ⊎ ((t : ℕ) × (ip' : Inode) × (fs' : Fs) × (writei sb letters (λ t. none) 2000 disk file 5
          ≡ some (pos t, ip', fs'))
        × IsWritten sb 3 letters (λ t. none) 2000 disk file 5 t fs' ip')
writei_lem_example =
    writei_lem sb 3 letters (λ t. none) 2000 disk file 5 file-IsInode (omega arith) (omega arith)

readi_lem_example :
    (((5 < 2) ⊎ (2 ^ 32 ≤ 2 + 8))
      × (readi sb (λ t. false) disk file (λ i. 0) 2 8 ≡ some (pos 0, λ i. 0, file, disk)))
    ⊎ ((2 ≤ 5)
        × Read sb 3
            (λ t. false)
            (clipped 5 2 8)
            disk
            file
            (λ i. 0)
            0
            2
            (readi sb (λ t. false) disk file (λ i. 0) 2 8))
readi_lem_example =
    readi_lem sb 3 (λ t. false) disk file (λ i. 0) 2 8 file-IsInode (omega arith) (omega arith)

abbrev written : Fs
written = iupdate sb (log_write (with_copied disk 3 0 3 0 letters) 3) file

writes : writei sb letters (λ t. none) 3 disk file 0 ≡ some (pos 3, file, written)
unfolding writei write_loop bmap addr_at update
writes = refl

readi-writei_example :
    (dst : ℕ → ℕ) × (readi sb (λ t. false) written file (λ i. 0) 0 3
      ≡ some (pos 3, dst, file, written))
    × ((i : ℕ) → dst i ≡ (if ltb i 3 then letters i else 0))
readi-writei_example =
    readi-writei sb 3 letters (λ t. none) 3 disk file 0 file written (λ i. 0) file-IsInode
      (omega arith) (omega arith) writes

itrunc_lem_example :
    (ip' : Inode) × (fs' : Fs) × (itrunc sb disk file ≡ some (ip', fs'))
    × IsTruncated sb 3 disk file fs' ip'
itrunc_lem_example = itrunc_lem sb 3 disk file file-IsInode
