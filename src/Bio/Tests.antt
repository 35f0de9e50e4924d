-- ===== src/Bio/Tests.antt =====
-- A ring of three buffers, and the buffer cache's theorems at it.
use mit6_1810_why_tea_fo.Base.{◌≡◌, refl, true, [], ◌∷◌, arith, ◌==◌, if◌then◌else◌}
use mit6_1810_why_tea_fo.Store.{update}
use mit6_1810_why_tea_fo.Bio.{Cache, ok, head, brelse, bget}
use mit6_1810_why_tea_fo.Bio.Links.{IsRing}
use mit6_1810_why_tea_fo.Bio.Order.{Released, brelse-Released}
use mit6_1810_why_tea_fo.Bio.Lookup.{Got, bget_lem, IsUnique}

-- Buffers 2, 0, 1 from the front; 0 and 1 are in use, for blocks 7 and 8 of device 1.
abbrev three : Cache
three = record {
  next = λ b. if b == head then 2 else if b == 2 then 0 else if b == 0 then 1 else head;
  prev = λ b. if b == head then 1 else if b == 1 then 0 else if b == 0 then 2 else head;
  dev = λ b. if b == 2 then 0 else 1;
  blockno = λ b. if b == 0 then 7 else if b == 1 then 8 else 0;
  valid = λ b. true;
  refcnt = λ b. if b == 2 then 0 else 1;
  data' = λ b w. 0;
}

three-IsRing : IsRing three (2 ∷ 0 ∷ 1 ∷ [])
three-IsRing = record {
  links =
      (refl, refl, omega arith, (refl, refl, omega arith, (refl, refl, omega arith, (refl, refl))));
  distinct = (refl, (refl, (refl, tt)));
}

three-IsUnique : IsUnique three (2 ∷ 0 ∷ 1 ∷ [])
three-IsUnique a b ma mb live d k = ground arith

brelse-Released_example :
    (c' : Cache) × (brelse true three 1 ≡ ok c') × Released three (2 ∷ 0 ∷ []) 1 [] c'
brelse-Released_example =
    brelse-Released three (2 ∷ 0 ∷ []) 1 [] three-IsRing (omega arith) (omega arith)

bget_lem_example : Got three (2 ∷ 0 ∷ 1 ∷ []) 1 9 (bget three 1 9)
bget_lem_example = bget_lem three (2 ∷ 0 ∷ 1 ∷ []) 1 9 three-IsRing (omega arith)

-- Block 8 is in buffer 1.
abbrev three' : Cache
three' = record three { refcnt = update three.refcnt 1 2 }

found_again : bget three 1 8 ≡ ok (1, three')
unfolding bget
found_again = refl
