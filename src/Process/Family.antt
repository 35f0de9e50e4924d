-- ===== src/Process/Family.antt =====
-- Parents and children: what holds of the table between two steps, and the steps that change one
-- process.
use mit6_1810_why_tea_fo.Base.{ℕ, ◌<◌, ◌≤◌, ◌≡◌, ◌≢◌, Bool, true, false, Option, none, some, arith}
use mit6_1810_why_tea_fo.Store.{update}
use mit6_1810_why_tea_fo.Process.{
  Proc, Procs, ProcState, unused, used, sleeping, runnable, running, zombie, nproc, initproc,
  address,
}

abbrev pub is_live : ProcState → Bool
is_live sleeping = true
is_live runnable = true
is_live running = true
is_live s = false

abbrev pub is_some : Option ℕ → Bool
is_some none = false
is_some (some p) = true

-- `np` is what each process in the middle of kfork has made.
pub record IsFamily (t : Procs) (np : ℕ → Option ℕ) : Type 0 where
  pub bound : (x : ℕ) → nproc ≤ x → (t x).state ≡ unused
  pub init : is_live (t initproc).state ≡ true
  pub orphan : (x : ℕ) → (t x).state ≡ unused → (t x).parent ≡ none
  -- a parent is alive
  pub parents : (x q : ℕ) → (t x).parent ≡ some q → is_live (t q).state ≡ true
  pub has :
      (x : ℕ)
      → x ≢ initproc
      → (t x).state ≢ unused
      → (t x).state ≢ used
      → is_some (t x).parent ≡ true
  pub embryo : (p x : ℕ) → np p ≡ some x → (t x).state ≡ used
  pub one : (p q x : ℕ) → np p ≡ some x → np q ≡ some x → p ≡ q
  -- a process that waits for its children has none that has exited
  pub awaited :
      (x q : ℕ)
      → (t x).parent ≡ some q
      → (t q).state ≡ sleeping
      → (t q).chan ≡ address q
      → (t x).state ≢ zombie

-- The fields that matter here.
abbrev pub Alike : Proc → Proc → Type 0
Alike r r' = (r'.state ≡ r.state) × (r'.parent ≡ r.parent) × (r'.chan ≡ r.chan)

-- All processes but `p` are as they were.
abbrev pub But : ℕ → Procs → Procs → Type 0
But p t t' = (x : ℕ) → x ≢ p → Alike (t x) (t' x)

pub Alike-IsFamily :
    {t t' : Procs} {np : ℕ → Option ℕ}
    → IsFamily t np
    → ((x : ℕ) → Alike (t x) (t' x))
    → IsFamily t' np
Alike-IsFamily h a = record {
  bound = λ x far. ground (arith, h.bound x, a x);
  init = ground (arith, h.init, a initproc);
  orphan = λ x u. ground (arith, h.orphan x, a x);
  parents = λ x q e. ground (arith, h.parents x q, a x, a q);
  has = λ x ne b c. ground (arith, h.has x, a x);
  embryo = λ q x e. ground (arith, h.embryo q x, a x);
  one = h.one;
  awaited = λ x q e b c. ground (arith, h.awaited x q, a x, a q);
}

module _ {t t' : Procs} {np : ℕ → Option ℕ} (h : IsFamily t np) (p : ℕ) (a : But p t t') where
  -- A live process goes on living, and does not come to wait.
  pub moved-IsFamily :
      is_live (t p).state ≡ true
      → is_live (t' p).state ≡ true
      → (t' p).parent ≡ (t p).parent
      → ((t' p).state ≡ sleeping → (t' p).chan ≢ address p)
      → IsFamily t' np
  moved-IsFamily live lives same waits = record {
    bound = λ x far. ground (arith, h.bound x, a x, h.bound p);
    init = ground (arith, h.init, a initproc);
    orphan = λ x u. ground (arith, h.orphan x, a x);
    parents = λ x q e. ground (arith, h.parents x q, a x, a q);
    has = λ x ne b c. ground (arith, h.has x, a x);
    embryo = λ q x e. ground (arith, h.embryo q x, a x);
    one = h.one;
    awaited = λ x q e b c. ground (arith, h.awaited x q, a x, a q);
  }

  -- A live process comes to wait, and none of its children has exited.
  pub waiting-IsFamily :
      is_live (t p).state ≡ true
      → (t' p).state ≡ sleeping
      → (t' p).parent ≡ (t p).parent
      → ((x : ℕ) → (t x).parent ≡ some p → (t x).state ≢ zombie)
      → IsFamily t' np
  waiting-IsFamily live lives same none_exited = record {
    bound = λ x far. ground (arith, h.bound x, a x, h.bound p);
    init = ground (arith, h.init, a initproc);
    orphan = λ x u. ground (arith, h.orphan x, a x);
    parents = λ x q e. ground (arith, h.parents x q, a x, a q);
    has = λ x ne b c. ground (arith, h.has x, a x);
    embryo = λ q x e. ground (arith, h.embryo q x, a x);
    one = h.one;
    awaited = λ x q e b c. ground (arith, h.awaited x q, a x, a q, none_exited x);
  }

  -- A process that no process has for its parent is gone.
  pub gone-IsFamily :
      is_live (t p).state ≡ false
      → (t p).state ≢ used
      → (t' p).state ≡ unused
      → (t' p).parent ≡ none
      → IsFamily t' np
  gone-IsFamily dead old free alone = record {
    bound = λ x far. ground (arith, h.bound x, a x);
    init = ground (arith, h.init, a initproc);
    orphan = λ x u. ground (arith, h.orphan x, a x);
    parents = λ x q e. ground (arith, h.parents x q, a x, a q);
    has = λ x ne b c. ground (arith, h.has x, a x);
    embryo = λ q x e. ground (arith, h.embryo q x, a x);
    one = h.one;
    awaited = λ x q e b c. ground (arith, h.awaited x q, a x, a q);
  }

  -- kfork's child, just allocated
  pub made-IsFamily :
      (q : ℕ)
      → (t p).state ≡ unused
      → p < nproc
      → (t' p).state ≡ used
      → (t' p).parent ≡ none
      → IsFamily t' (update np q (some p))
  unfolding update
  made-IsFamily q free low made alone = record {
    bound = λ x far. ground (arith, h.bound x, a x);
    init = ground (arith, h.init, a initproc);
    orphan = λ x u. ground (arith, h.orphan x, a x);
    parents = λ x y e. ground (arith, h.parents x y, a x, a y);
    has = λ x ne b c. ground (arith, h.has x, a x);
    embryo = λ y x e. ground (arith, h.embryo y x, a x);
    one = λ y z x e g. ground (arith, h.one y z x, h.embryo y x, h.embryo z x);
    awaited = λ x y e b c. ground (arith, h.awaited x y, a x, a y);
  }

  -- ... gets its parent
  pub linked-IsFamily :
      (q : ℕ)
      → is_live (t q).state ≡ true
      → (t p).state ≡ used
      → (t' p).state ≡ used
      → (t' p).parent ≡ some q
      → IsFamily t' np
  linked-IsFamily q live was is parent = record {
    bound = λ x far. ground (arith, h.bound x, a x, h.bound p);
    init = ground (arith, h.init, a initproc);
    orphan = λ x u. ground (arith, h.orphan x, a x);
    parents = λ x y e. ground (arith, h.parents x y, a x, a y, a q);
    has = λ x ne b c. ground (arith, h.has x, a x);
    embryo = λ y x e. ground (arith, h.embryo y x, a x);
    one = h.one;
    awaited = λ x y e b c. ground (arith, h.awaited x y, a x, a y);
  }

  -- ... and is made runnable.
  pub started-IsFamily :
      (q : ℕ)
      → np q ≡ some p
      → (t p).parent ≡ some q
      → (t' p).state ≡ runnable
      → (t' p).parent ≡ (t p).parent
      → IsFamily t' (update np q none)
  unfolding update
  started-IsFamily q mine parent runs same = record {
    bound = λ x far. ground (arith, h.bound x, a x, h.bound p, h.embryo q p);
    init = ground (arith, h.init, a initproc);
    orphan = λ x u. ground (arith, h.orphan x, a x);
    parents = λ x y e. ground (arith, h.parents x y, a x, a y);
    has = λ x ne b c. ground (arith, h.has x, a x);
    embryo = λ y x e. ground (arith, h.embryo y x, a x, h.one y q x, h.one y q p);
    one = λ y z x e g. ground (arith, h.one y z x);
    awaited = λ x y e b c. ground (arith, h.awaited x y, a x, a y, h.embryo q p);
  }
