-- ===== src/Files/Tests.antt =====
-- A process with two descriptors for one pipe, and the file table's theorems at it.
use mit6_1810_why_tea_fo.Base.{
  ◌≡◌, refl, true, false, some, none, ◌∷◌, arith, replicate, ◌==◌, if◌then◌else◌,
}
use mit6_1810_why_tea_fo.Base.Int.{pos}
use mit6_1810_why_tea_fo.Files.{Table, Ofile, fd_none, fd_pipe, fdalloc, sys_close}
use mit6_1810_why_tea_fo.Files.References.{Counted, Closed, sys_close-Closed}

-- File 0 is the write end of the pipe at 4096.
abbrev table : Table
table = λ f.
    if f == 0
    then record {
      type' = fd_pipe;
      ref = 2;
      readable = false;
      writable = true;
      pipe = 4096;
      ip = 0;
      off = 0;
      major = 0;
    }
    else record {
      type' = fd_none;
      ref = 0;
      readable = false;
      writable = false;
      pipe = 0;
      ip = 0;
      off = 0;
      major = 0;
    }

abbrev ofile : Ofile
ofile = some 0 ∷ some 0 ∷ replicate 14 none

table-Counted : Counted table ofile (λ f. 0)
table-Counted f = ground arith

sys_close-Closed_example : Closed ofile table (λ f. 0) (pos 1) (sys_close ofile table (pos 1))
sys_close-Closed_example = sys_close-Closed ofile table (λ f. 0) (pos 1) refl table-Counted

duplicated : fdalloc ofile 0 ≡ some (2, some 0 ∷ some 0 ∷ some 0 ∷ replicate 13 none)
unfolding fdalloc
duplicated = refl
