-- ===== src/Kalloc.antt =====
-- kernel/kalloc.c: the list of free physical pages, kept in the pages themselves. Memory is a
-- function from the address of an aligned 8-byte word to its value; `struct run` is the first word
-- of a free page. kmem.lock is held throughout what follows the checks.
pub mod FreeList
pub mod Range
mod Tests
use mit6_1810_why_tea_fo.Base.{
  ℕ, zero, suc, ◌+◌, ◌-◌, ◌*◌, ◌/◌, ◌%◌, Bool, not, ◌||◌, ◌==◌, ltb, leb, if◌then◌else◌,
}
use mit6_1810_why_tea_fo.Memory.{inside}
use mit6_1810_why_tea_fo.Store.{update}

abbrev pub page_size : ℕ
page_size = 4096

-- KERNBASE + 128*1024*1024
abbrev pub phys_stop : ℕ
phys_stop = 0x80000000 + 128 * 1024 * 1024

pub record Kmem : Type 0 where
  pub freelist : ℕ
  pub words : ℕ → ℕ

pub data Result (A : Type 0) : Type 0 where
  ok : A → Result A
  panic : Result A
  out_of_fuel : Result A

-- `memset(pa, c, PGSIZE)`, each word eight times the byte `c`
unfoldable pub fill_page : (ℕ → ℕ) → (pa c : ℕ) → ℕ → ℕ
fill_page words pa c a = if inside pa page_size a then c * 0x0101010101010101 else words a

-- PGROUNDUP
abbrev pub page_round_up : ℕ → ℕ
page_round_up sz = (sz + page_size - 1) / page_size * page_size

-- `end` is the first address behind the kernel, which the linker gives.
module _ (end : ℕ) where
  pub kfree : Kmem → (pa : ℕ) → Result Kmem
  unfolding fill_page
  kfree k pa =
      if not (pa % page_size == 0) || ltb pa end || leb phys_stop pa
      then panic
      else ok (record { freelist = pa; words = update (fill_page k.words pa 1) pa k.freelist })

  -- the loop of freerange at `p`
  pub freerange_loop : (fuel : ℕ) → Kmem → (p pa_end : ℕ) → Result Kmem
  freerange_loop zero k p pa_end = out_of_fuel
  freerange_loop (suc fuel) k p pa_end =
      let rest : Result Kmem = elim (kfree k p) [
        | ok k' ↦ freerange_loop fuel k' (p + page_size) pa_end
        | panic ↦ panic
        | out_of_fuel ↦ out_of_fuel
      ] in
      if leb (p + page_size) pa_end then rest else ok k

  pub freerange : Kmem → (pa_start pa_end : ℕ) → Result Kmem
  unfolding kfree freerange_loop
  freerange k pa_start pa_end =
      freerange_loop (pa_end / page_size + 1) k (page_round_up pa_start) pa_end

  pub kinit : (words : ℕ → ℕ) → Result Kmem
  unfolding freerange
  kinit words = freerange (record { freelist = 0; words = words }) end phys_stop

-- The page, 0 if there is none, and the new state.
pub kalloc : Kmem → ℕ × Kmem
unfolding fill_page
kalloc k =
    let r = k.freelist in
    if r == 0 then (r, k) else (r, record { freelist = k.words r; words = fill_page k.words r 5 })
