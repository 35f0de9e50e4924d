-- ===== src/Log/Calls.antt =====
-- The file-system calls that run between their begin_op and their end_op, as a step relation over
-- the log of kernel/log.c. param.h bounds the different blocks that one call writes.
use mathlib.Core.Path.{subst}
use mit6_1810_why_tea_fo.Base.{
  ℕ, ◌+◌, ◌-◌, ◌*◌, ◌≤◌, ◌<◌, ◌≡◌, sym, ◌∙◌, Bool, true, false≢true, inl, inr, List, [], ◌∷◌, ◌++◌,
  some, arith, length, Bool-cases, All, elem, ◌==◌, ==→eq, if◌then◌else◌,
}
use mit6_1810_why_tea_fo.Base.Int.{pos}
use mit6_1810_why_tea_fo.Store.{Block, fill, reboot, Disk}
use mit6_1810_why_tea_fo.Log.{
  Log, Result, ok, max_op_blocks, log_blocks, initial, initlog, begin_op, end_op, end_op_commit,
  log_write,
}
use mit6_1810_why_tea_fo.Log.Absorb.{IsOnce, Logged}

-- The log and, for each file-system call between its begin_op and its end_op, the blocks that it has
-- handed to log_write, each once.
pub record System : Type 0 where
  pub log : Log
  pub ops : List (List ℕ)

-- A call changes block `b` in the cache and hands it to log_write.
abbrev pub modify_and_log : Log → ℕ → Block → Result Log
modify_and_log l b data' = log_write (record l { store = fill l.store b data' }) b

abbrev pub with_block : ℕ → List ℕ → List ℕ
with_block b bs = if elem b bs then bs else b ∷ bs

-- What the calls and the committer do to the log between two releases of its lock. A call hands any
-- number of blocks to log_write, of which at most `max_op_blocks` are different.
pub data Step : System → System → Type 0 where
  begin :
      (s : System) (l : Log)
      → begin_op s.log ≡ some l
      → Step s (record { log = l; ops = [] ∷ s.ops })
  write :
      (s : System) (xs ys : List (List ℕ)) (bs : List ℕ) (b : ℕ) (data' : Block) (l : Log)
      → s.ops ≡ xs ++ (bs ∷ ys)
      → length (with_block b bs) ≤ max_op_blocks
      → modify_and_log s.log b data' ≡ ok l
      → Step s (record { log = l; ops = xs ++ (with_block b bs ∷ ys) })
  finish :
      (s : System) (xs ys : List (List ℕ)) (bs : List ℕ) (commits : Bool) (l : Log)
      → s.ops ≡ xs ++ (bs ∷ ys)
      → end_op s.log ≡ ok (commits, l)
      → Step s (record { log = l; ops = xs ++ ys })
  commits :
      (s : System)
      → s.log.committing ≡ true
      → Step s (record { log = end_op_commit s.log; ops = s.ops })

-- The states after initlog over a disk.
pub data Reach (d : Disk) (dev logstart : ℕ) : System → Type 0 where
  start :
      Reach d dev logstart (record { log = initlog (initial (reboot d)) dev logstart; ops = [] })
  next : {s t : System} → Reach d dev logstart s → Step s t → Reach d dev logstart t

-- How many more blocks the running calls may log.
abbrev pub spare : List (List ℕ) → ℕ
spare [] = 0
spare (bs ∷ ops) = (max_op_blocks - length bs) + spare ops

pub spare-append : (xs ys : List (List ℕ)) → spare (xs ++ ys) ≡ spare xs + spare ys
spare-append [] ys = omega arith
spare-append (x ∷ xs) ys = omega (arith, spare-append xs ys)

pub spare-le : (ops : List (List ℕ)) → spare ops ≤ length ops * max_op_blocks
spare-le [] = omega arith
spare-le (bs ∷ ops) = omega (arith, spare-le ops)

-- All blocks of the running calls have a place in the log.
abbrev pub AreLogged : Log → List (List ℕ) → Type 0
AreLogged l ops = All (λ (bs : List ℕ). All (Logged l) bs) ops

pub record HasRoom (s : System) : Type 0 where
  pub count : s.log.outstanding ≡ pos (length s.ops)
  pub room : s.log.n + spare s.ops ≤ log_blocks
  pub quiet : s.log.committing ≡ true → length s.ops ≡ 0
  pub once : IsOnce s.log
  pub logged : AreLogged s.log s.ops

pub All-mono {ℓ κ} :
    {A : Type ℓ} (P Q : A → Type κ) (xs : List A) → ((x : A) → P x → Q x) → All P xs → All Q xs
All-mono P Q [] f h = tt
All-mono P Q (x ∷ xs) f (p, h) = (f x p, All-mono P Q xs f h)

module _ {ℓ κ} {A : Type ℓ} (P : A → Type κ) where
  pub All-append : (xs ys : List A) → All P xs → All P ys → All P (xs ++ ys)
  All-append [] ys h g = g
  All-append (x ∷ xs) ys (p, h) g = (p, All-append xs ys h g)

  pub All-parts : (xs ys : List A) → All P (xs ++ ys) → All P xs × All P ys
  All-parts [] ys h = (tt, h)
  All-parts (x ∷ xs) ys (p, h) = let (g, r) = All-parts xs ys h in ((p, g), r)

pub All-elem {κ} : (P : ℕ → Type κ) (b : ℕ) (bs : List ℕ) → All P bs → elem b bs ≡ true → P b
All-elem P b [] h e = absurd (false≢true e)
All-elem P b (x ∷ bs) (p, h) e = elim (Bool-cases (b == x)) [
  | inl same ↦ subst P (sym (==→eq _ _ same)) p
  | inr other ↦ All-elem P b bs h (ground arith)
]

-- Places of the log that stay.
pub Logged-kept :
    (l l' : Log)
    → l.n ≤ l'.n
    → ((i : ℕ) → i < l.n → l'.block i ≡ l.block i)
    → (b : ℕ) → Logged l b
    → Logged l' b
Logged-kept l l' le kept b (i, lt, e) = (i, omega arith, kept i lt ∙ e)

pub AreLogged-kept :
    (l l' : Log) (ops : List (List ℕ))
    → l.n ≤ l'.n
    → ((i : ℕ) → i < l.n → l'.block i ≡ l.block i)
    → AreLogged l ops
    → AreLogged l' ops
AreLogged-kept l l' ops le kept =
    All-mono _ _ ops (λ bs. All-mono (Logged l) (Logged l') bs (λ b. Logged-kept l l' le kept b))

pub AreLogged-parts :
    (l : Log) (xs ys : List (List ℕ)) (bs : List ℕ) {ops : List (List ℕ)}
    → ops ≡ xs ++ (bs ∷ ys)
    → AreLogged l ops
    → AreLogged l xs × All (Logged l) bs × AreLogged l ys
AreLogged-parts l xs ys bs e h =
    let parts =
      All-parts (λ (cs : List ℕ). All (Logged l) cs) xs (bs ∷ ys) (subst (AreLogged l) e h) in
    (parts.0, parts.1.0, parts.1.1)
