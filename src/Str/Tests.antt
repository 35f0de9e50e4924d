-- ===== src/Str/Tests.antt =====
-- The string theorems at small memories.
use mit6_1810_why_tea_fo.Base.{◌≡◌, ◌↔◌, refl, ◌==◌, if◌then◌else◌}
use mit6_1810_why_tea_fo.Base.Int.{pos, negsuc}
use mit6_1810_why_tea_fo.Memory.{Memory, write}
use mit6_1810_why_tea_fo.Str.{memcmp, memmove, strncmp}
use mit6_1810_why_tea_fo.Str.Move.{memmove_lem}
use mit6_1810_why_tea_fo.Str.Compare.{SamePrefix, strncmp_iff}

-- Each address holds its own number.
abbrev ramp : Memory
ramp a = a

-- "abc" at 100, zero elsewhere
abbrev text : Memory
text a = if a == 100 then 97 else if a == 101 then 98 else if a == 102 then 99 else 0

-- an overlapping copy upwards
memmove_lem_example : memmove ramp 12 10 8 15 ≡ 13
memmove_lem_example = memmove_lem ramp 12 10 8 15

memmove_run : memmove ramp 12 10 8 15 ≡ 13
unfolding memmove write
memmove_run = refl

memcmp_less : memcmp ramp 3 5 2 ≡ negsuc 1
unfolding memcmp
memcmp_less = refl

strncmp_iff_example : (strncmp text 100 101 2 ≡ pos 0) ↔ SamePrefix text 100 101 2
strncmp_iff_example = strncmp_iff text 100 101 2
