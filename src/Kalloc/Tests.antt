-- ===== src/Kalloc/Tests.antt =====
-- A small free list, and the allocator's theorems at it.
use mit6_1810_why_tea_fo.Base.{ℕ, ◌≡◌, refl, false, [], ◌∷◌, arith, if◌then◌else◌, ◌==◌}
use mit6_1810_why_tea_fo.Memory.{inside}
use mit6_1810_why_tea_fo.Kalloc.{page_size, phys_stop, page_round_up, Kmem, ok, kfree, kinit}
use mit6_1810_why_tea_fo.Kalloc.FreeList.{Holds, kfree-Holds}
use mit6_1810_why_tea_fo.Kalloc.Range.{Filled, kinit-Filled}

abbrev kernel_end : ℕ
kernel_end = 0x80001234

abbrev first : ℕ
first = 0x80002000

abbrev second : ℕ
second = 0x80003000

-- `first` leads to `second`, and that to nothing.
abbrev two_pages : Kmem
two_pages = record { freelist = first; words = λ a. if a == first then second else 0 }

two_pages-Holds : Holds kernel_end two_pages (first ∷ second ∷ [])
two_pages-Holds = record {
  chain = (refl, (refl, refl));
  pages = omega arith;
  distinct = (refl, (refl, tt));
}

kfree-Holds_example :
    (k' : Kmem) × (kfree kernel_end two_pages 0x80004000 ≡ ok k')
    × Holds kernel_end k' (0x80004000 ∷ first ∷ second ∷ [])
    × ((a : ℕ) → inside 0x80004000 page_size a ≡ false → k'.words a ≡ two_pages.words a)
kfree-Holds_example = kfree-Holds kernel_end 0x80004000 two_pages-Holds (omega arith) refl

kinit-Filled_example :
    Filled kernel_end [] (page_round_up kernel_end) phys_stop (kinit kernel_end (λ _. 0))
kinit-Filled_example = kinit-Filled kernel_end (λ _. 0) (omega arith)
