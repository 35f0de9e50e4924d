-- ===== src/Store.antt =====
-- The disk behind the buffer cache, as kernel/log.c sees it: bread gives the block's buffer, whose
-- contents the holder changes in place, and bwrite puts them on the disk, one block at a time and
-- atomically. The order and eviction of the buffers is kernel/bio.c's, in Bio.
use mit6_1810_why_tea_fo.Base.{ℕ, ◌+◌, ◌-◌, List, [], ◌∷◌, ◌++◌, ◌==◌, if◌then◌else◌}

-- The 256 words of a block of BSIZE bytes.
abbrev pub Block : Type 0
Block = ℕ → ℕ

abbrev pub Disk : Type 0
Disk = ℕ → Block

pub record Store : Type 0 where
  -- what the disk holds
  pub disk : Disk
  -- what bread returns: the buffer's contents
  pub cache : Disk
  -- how often a block is pinned in the cache
  pub pins : ℕ → ℕ
  -- the block writes that the disk has carried out, the oldest first
  pub trace : List (ℕ × Block)

unfoldable pub update {ℓ} : {A : Type ℓ} → (ℕ → A) → ℕ → A → ℕ → A
update f a v = λ x. if x == a then v else f x

abbrev pub fill : Store → ℕ → Block → Store
fill s b data' = record s { cache = update s.cache b data' }

abbrev pub bwrite : Store → ℕ → Store
bwrite s b = record s {
  disk = update s.disk b (s.cache b);
  trace = s.trace ++ ((b, s.cache b) ∷ []);
}

abbrev pub bpin : Store → ℕ → Store
bpin s b = record s { pins = update s.pins b (s.pins b + 1) }

abbrev pub bunpin : Store → ℕ → Store
bunpin s b = record s { pins = update s.pins b (s.pins b - 1) }

-- The disk after some block writes.
abbrev pub replay : List (ℕ × Block) → Disk → Disk
replay [] d = d
replay ((b, v) ∷ ws) d = replay ws (update d b v)

-- The machine after a power failure: the caches are empty, so bread reads the disk.
abbrev pub reboot : Disk → Store
reboot d = record { disk = d; cache = d; pins = λ _. 0; trace = [] }
