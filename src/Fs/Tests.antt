-- ===== src/Fs/Tests.antt =====
-- A disk of 100 blocks, of which 0 to 12 are in use, and those from 12 on are for data.
use mit6_1810_why_tea_fo.Base.{
  ℕ, zero, suc, ◌<◌, ◌≡◌, ◌⊎◌, refl, true, ◌&&◌, [], arith, ◌==◌, if◌then◌else◌,
}
use mit6_1810_why_tea_fo.Fs.{Superblock, Fs, bit, balloc, balloc_blocks, balloc_bits}
use mit6_1810_why_tea_fo.Fs.Bits.{is_used}
use mit6_1810_why_tea_fo.Fs.Balloc.{HasMap, IsAllocated, balloc_lem}

abbrev sb : Superblock
sb = record { size = 100; ninodes = 32; inodestart = 2; bmapstart = 10 }

abbrev disk : Fs
disk = record {
  data' = λ b i. if (b == 10) && (i == 0) then 255 else if (b == 10) && (i == 1) then 31 else 0;
  logged = [];
}

low_used : (x : ℕ) → x < 12 → is_used sb disk x ≡ true
unfolding is_used bit
low_used zero h = refl
low_used (suc zero) h = refl
low_used (suc (suc zero)) h = refl
low_used (suc (suc (suc zero))) h = refl
low_used (suc (suc (suc (suc zero)))) h = refl
low_used (suc (suc (suc (suc (suc zero))))) h = refl
low_used (suc (suc (suc (suc (suc (suc zero)))))) h = refl
low_used (suc (suc (suc (suc (suc (suc (suc zero))))))) h = refl
low_used (suc (suc (suc (suc (suc (suc (suc (suc zero)))))))) h = refl
low_used (suc (suc (suc (suc (suc (suc (suc (suc (suc zero))))))))) h = refl
low_used (suc (suc (suc (suc (suc (suc (suc (suc (suc (suc zero)))))))))) h = refl
low_used (suc (suc (suc (suc (suc (suc (suc (suc (suc (suc (suc zero))))))))))) h = refl
low_used (suc (suc (suc (suc (suc (suc (suc (suc (suc (suc (suc (suc x)))))))))))) h =
    absurd (omega arith)

disk-HasMap : HasMap sb 12 disk
disk-HasMap = record { room = omega arith; within = omega arith; low = low_used }

balloc_lem_example :
    ((balloc sb disk ≡ (0, disk)) × ((x : ℕ) → x < 100 → is_used sb disk x ≡ true))
    ⊎ ((b : ℕ) × (fs' : Fs) × (balloc sb disk ≡ (b, fs')) × IsAllocated sb 12 disk b fs')
balloc_lem_example = balloc_lem sb 12 disk disk-HasMap

-- The first free block is 13, the one behind the map's last bit.
takes_13 : (balloc sb disk).0 ≡ 13
unfolding balloc balloc_blocks balloc_bits bit
takes_13 = refl
