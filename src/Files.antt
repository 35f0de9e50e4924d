-- ===== src/Files.antt =====
-- kernel/file.c's table of open files, and the system calls of kernel/sysfile.c that move references
-- to it between descriptors: argfd, fdalloc, sys_dup, sys_close.
--
-- A file is its index in ftable.file. The table is a function on the indexes, of which NFILE exist.
-- A reference count is an int that is never negative and that the model does not let overflow; the
-- descriptor table p->ofile is a list of NOFILE entries, `none` for a null pointer. ftable.lock is
-- held from a check to the change that follows it.
pub mod Counts
pub mod Alloc
pub mod References
mod Tests
use mit6_1810_why_tea_fo.Base.{
  ℕ, zero, suc, ◌+◌, ◌-◌, Bool, true, false, ◌||◌, Option, none, some, List, ◌==◌, ltb, leb,
  if◌then◌else◌, get_or, set,
}
use mathlib.Core.Path.{◌≡◌, subst}
use mit6_1810_why_tea_fo.Base.Int.{ℤ, pos, negsuc, minus_one}
use mit6_1810_why_tea_fo.Store.{update}

abbrev pub nfile : ℕ
nfile = 100

abbrev pub nofile : ℕ
nofile = 16

pub data FileType : Type 0 where
  fd_none : FileType
  fd_pipe : FileType
  fd_inode : FileType
  fd_device : FileType

-- `struct file`; `pipe` and `ip` are addresses.
pub record File : Type 0 where
  pub type' : FileType
  pub ref : ℕ
  pub readable : Bool
  pub writable : Bool
  pub pipe : ℕ
  pub ip : ℕ
  pub off : ℕ
  pub major : ℕ

abbrev pub Table : Type 0
Table = ℕ → File

abbrev pub Ofile : Type 0
Ofile = List (Option ℕ)

pub data Result (A : Type 0) : Type 0 where
  ok : A → Result A
  panic : Result A

-- What holds of the result, if there is one.
abbrev pub Ensures : {A : Type 0} → (A → Type 0) → Result A → Type 0
Ensures P (ok a) = P a
Ensures P panic = Unit

pub Ensures-ok : {A : Type 0} (P : A → Type 0) {r : Result A} {a : A} → Ensures P r → r ≡ ok a → P a
Ensures-ok P h e = subst (Ensures P) (e) h

-- What fileclose does behind the table: nothing, pipeclose(pipe, writable), or iput(ip) between
-- begin_op and end_op.
pub data Closing : Type 0 where
  nothing : Closing
  closes_pipe : (pipe : ℕ) (writable : Bool) → Closing
  puts_inode : (ip : ℕ) → Closing

abbrev pub closing : File → Closing
closing ff = elim ff.type' [
  | fd_pipe ↦ closes_pipe ff.pipe ff.writable
  | fd_inode ↦ puts_inode ff.ip
  | fd_device ↦ puts_inode ff.ip
  | fd_none ↦ nothing
]

-- the loop of filealloc at `f`, with `k` files to go
pub free_file : Table → (f k : ℕ) → Option ℕ
free_file t f zero = none
free_file t f (suc k) = let rest = free_file t (f + 1) k in if (t f).ref == 0 then some f else rest

abbrev pub with_ref : Table → (f ref : ℕ) → Table
with_ref t f ref = update t f (record (t f) { ref = ref })

abbrev pub taken : Table → Option ℕ → Option (ℕ × Table)
taken t none = none
taken t (some f) = some (f, with_ref t f 1)

pub filealloc : Table → Option (ℕ × Table)
unfolding free_file
filealloc t = taken t (free_file t 0 nfile)

unfoldable pub filedup : Table → ℕ → Result Table
filedup t f = if ltb (t f).ref 1 then panic else ok (with_ref t f ((t f).ref + 1))

unfoldable pub fileclose : Table → ℕ → Result (Closing × Table)
fileclose t f =
    let left = (t f).ref - 1 in
    if ltb (t f).ref 1
    then panic
    else if ltb 0 left
    then ok (nothing, with_ref t f left)
    else ok (closing (t f), update t f (record (t f) { ref = 0; type' = fd_none }))

-- The descriptor and its file, for the argument `fd` of a system call.
pub argfd : Ofile → (fd : ℤ) → Option (ℕ × ℕ)
argfd ofile (negsuc fd) = none
argfd ofile (pos fd) =
    if leb nofile fd
    then none
    else elim (get_or ofile fd none) [ none ↦ none | some f ↦ some (fd, f) ]

abbrev pub is_null : Option ℕ → Bool
is_null none = true
is_null (some f) = false

-- the loop of fdalloc at `fd`, with `k` descriptors to go
pub free_fd : Ofile → (fd k : ℕ) → Option ℕ
free_fd ofile fd zero = none
free_fd ofile fd (suc k) =
    let rest = free_fd ofile (fd + 1) k in if is_null (get_or ofile fd none) then some fd else rest

abbrev pub installed : Ofile → ℕ → Option ℕ → Option (ℕ × Ofile)
installed ofile f none = none
installed ofile f (some fd) = some (fd, set ofile fd (some f))

pub fdalloc : Ofile → ℕ → Option (ℕ × Ofile)
unfolding free_fd
fdalloc ofile f = installed ofile f (free_fd ofile 0 nofile)

-- A system call's value, the descriptors and the table.
pub record Done : Type 0 where
  pub value : ℤ
  pub ofile : Ofile
  pub table : Table
  pub then_closes : Closing

abbrev pub failed : Ofile → Table → Result Done
failed ofile t = ok (record { value = minus_one; ofile = ofile; table = t; then_closes = nothing })

-- sys_dup from fdalloc on, for the file `f`
abbrev pub dup_into : Ofile → Table → ℕ → Option (ℕ × Ofile) → Result Done
dup_into ofile t f none = failed ofile t
dup_into ofile t f (some (fd, ofile')) = elim (filedup t f) [
  | ok t' ↦ ok (record { value = pos fd; ofile = ofile'; table = t'; then_closes = nothing })
  | panic ↦ panic
]

pub sys_dup : Ofile → Table → (fd : ℤ) → Result Done
unfolding argfd fdalloc filedup
sys_dup ofile t fd = elim (argfd ofile fd) [
  | none ↦ failed ofile t
  | some (fd, f) ↦ dup_into ofile t f (fdalloc ofile f)
]

-- sys_close behind argfd
abbrev pub close_at : Ofile → Table → (fd f : ℕ) → Result Done
close_at ofile t fd f = elim (fileclose t f) [
  | ok (then_closes, t') ↦
      ok
        (record { value = pos 0; ofile = set ofile fd none; table = t'; then_closes = then_closes })
  | panic ↦ panic
]

pub sys_close : Ofile → Table → (fd : ℤ) → Result Done
unfolding argfd fileclose
sys_close ofile t fd = elim (argfd ofile fd) [
  | none ↦ failed ofile t
  | some (fd, f) ↦ close_at ofile t fd f
]
