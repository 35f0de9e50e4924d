-- ===== src/Sleeplock/Waiters.antt =====
-- Processes that take a sleep lock, wait for it and release it, in any order.
use mit6_1810_why_tea_fo.Base.{
  ℕ, ◌<◌, ◌≡◌, refl, Bool, true, false, ◌&&◌, ◌==◌, arith, Bool-cases, inl, inr,
}
use mit6_1810_why_tea_fo.Store.{update}
use mit6_1810_why_tea_fo.Process.{Proc, Kernel, running, is_sleeping, nproc, wakeup}
use mit6_1810_why_tea_fo.Process.Schedule.{sleep, awake}
use mit6_1810_why_tea_fo.Process.Wakeup.{wakeup_lem}
use mit6_1810_why_tea_fo.Sleeplock.{
  Sleeplock, initsleeplock, acquiresleep, acquiresleep_again, releasesleep, holdingsleep,
}

-- The lock, the processes, and which of them have returned from acquiresleep and not called
-- releasesleep since.
pub record State : Type 0 where
  pub lock : Sleeplock
  pub kernel : Kernel
  pub holds : ℕ → Bool

abbrev pub sleeps_on : ℕ → Proc → Bool
sleeps_on chan r = is_sleeping r.state && (r.chan == chan)

-- What acquiresleep leaves.
abbrev pub tried : State → (p : ℕ) → Bool × (Sleeplock × Kernel) → State
tried s p (b, (lk, k)) = record { lock = lk; kernel = k; holds = update s.holds p b }

abbrev pub freed : State → (p : ℕ) → Sleeplock × Kernel → State
freed s p (lk, k) = record { lock = lk; kernel = k; holds = update s.holds p false }

-- Other code does not sleep on the lock, and a process keeps its pid while it holds the lock.
pub record Elsewhere (chan : ℕ) (holds : ℕ → Bool) (k k' : Kernel) : Type 0 where
  pub sleepers : (q : ℕ) → sleeps_on chan (k'.proc q) ≡ true → sleeps_on chan (k.proc q) ≡ true
  pub pids : (q : ℕ) → holds q ≡ true → (k'.proc q).pid ≡ (k.proc q).pid

pub data Step (chan : ℕ) : State → State → Type 0 where
  takes :
      (s : State) (c p : ℕ)
      → (s.kernel.proc p).state ≡ running
      → p < nproc
      → s.holds p ≡ false
      → Step chan s (tried s p (acquiresleep s.lock s.kernel c p chan))
  goes_on :
      (s : State) (c p : ℕ)
      → (s.kernel.proc p).state ≡ running
      → p < nproc
      → s.holds p ≡ false
      → Step chan s (tried s p (acquiresleep_again s.lock s.kernel c p chan))
  releases :
      (s : State) (p : ℕ)
      → (s.kernel.proc p).state ≡ running
      → s.holds p ≡ true
      → Step chan s (freed s p (releasesleep s.lock s.kernel p chan))
  elsewhere :
      (s : State) (k : Kernel)
      → Elsewhere chan s.holds s.kernel k
      → Step chan s (record s { kernel = k })

pub data Reach (chan : ℕ) : State → Type 0 where
  begins :
      (k : Kernel)
      → ((q : ℕ) → sleeps_on chan (k.proc q) ≡ false)
      → Reach chan (record { lock = initsleeplock; kernel = k; holds = λ q. false })
  then_step : {s s' : State} → Reach chan s → Step chan s s' → Reach chan s'

pub record IsSound (chan : ℕ) (s : State) : Type 0 where
  -- one process at most has the lock, and the lock names it
  pub one : (p q : ℕ) → s.holds p ≡ true → s.holds q ≡ true → p ≡ q
  pub held : (p : ℕ) → s.holds p ≡ true → holdingsleep s.lock s.kernel p ≡ true
  -- a taken lock is one that a process has
  pub owner : s.lock.locked ≡ true → (p : ℕ) × (s.holds p ≡ true)
  -- a process that waits, waits for a lock that is taken
  pub waits : (q : ℕ) → sleeps_on chan (s.kernel.proc q) ≡ true → s.lock.locked ≡ true
  pub bound : (q : ℕ) → sleeps_on chan (s.kernel.proc q) ≡ true → q < nproc

module _ (chan : ℕ) where
  Elsewhere-IsSound :
      (s : State) (k : Kernel)
      → IsSound chan s
      → Elsewhere chan s.holds s.kernel k
      → IsSound chan (record s { kernel = k })
  unfolding holdingsleep
  Elsewhere-IsSound s k h other = record {
    one = h.one;
    held = λ p e. rw (other.pids p e) (h.held p e);
    owner = h.owner;
    waits = λ q e. h.waits q (other.sleepers q e);
    bound = λ q e. h.bound q (other.sleepers q e);
  }

  takes-IsSound :
      (s : State) (c p : ℕ)
      → IsSound chan s
      → p < nproc
      → s.holds p ≡ false
      → s.lock.locked ≡ false
      → IsSound chan (record {
        lock = record { locked = true; pid = (s.kernel.proc p).pid };
        kernel = s.kernel;
        holds = update s.holds p true;
      })
  unfolding holdingsleep update
  takes-IsSound s c p h below free unlocked =
      let nobody : (q : ℕ) → s.holds q ≡ false = λ q. ground (arith, h.held q) in
      record {
        one = λ q r a b. ground (arith, nobody q, nobody r);
        held = λ q e. ground (arith, nobody q);
        owner = λ e. (p, ground arith);
        waits = λ q e. refl;
        bound = h.bound;
      }

  waits-IsSound :
      (s : State) (c p : ℕ)
      → IsSound chan s
      → p < nproc
      → s.holds p ≡ false
      → s.lock.locked ≡ true
      → IsSound chan (record {
        lock = s.lock;
        kernel = sleep s.kernel c p chan;
        holds = update s.holds p false;
      })
  unfolding holdingsleep update sleep
  waits-IsSound s c p h below free locked = record {
    one = λ q r a b. ground (arith, h.one q r);
    held = λ q e. ground (arith, h.held q);
    owner = λ e. (let (q, has) = h.owner e in (q, ground arith));
    waits = λ q e. locked;
    bound = λ q e. ground (arith, h.bound q);
  }

  tried-IsSound :
      (s : State) (c p : ℕ)
      → IsSound chan s
      → p < nproc
      → s.holds p ≡ false
      → IsSound chan (tried s p (acquiresleep s.lock s.kernel c p chan))
  unfolding acquiresleep
  tried-IsSound s c p h below free = elim (Bool-cases s.lock.locked) [
    | inl e ↦ simp e (waits-IsSound s c p h below free e)
    | inr e ↦ rw e (takes-IsSound s c p h below free e)
  ]

  awake-Elsewhere :
      (holds : ℕ → Bool) (k : Kernel) (p : ℕ)
      → (k.proc p).state ≡ running
      → Elsewhere chan holds k (awake k p)
  unfolding awake update
  awake-Elsewhere holds k p e = record {
    sleepers = λ q a. ground arith;
    pids = λ q a. ground arith;
  }

  nobody_waits :
      (k : Kernel) (p q : ℕ)
      → (k.proc p).state ≡ running
      → (sleeps_on chan (k.proc q) ≡ true → q < nproc)
      → sleeps_on chan (wakeup k.proc p chan q) ≡ false
  nobody_waits k p q e below = ground (arith, wakeup_lem k.proc p chan q)

  freed-IsSound :
      (s : State) (p : ℕ)
      → IsSound chan s
      → (s.kernel.proc p).state ≡ running
      → s.holds p ≡ true
      → IsSound chan (freed s p (releasesleep s.lock s.kernel p chan))
  unfolding releasesleep update
  freed-IsSound s p h e has =
      let others : (q : ℕ) → s.holds q ≡ true → q ≡ p = λ q a. h.one q p a has in
      let quiet : (q : ℕ) → sleeps_on chan (wakeup s.kernel.proc p chan q) ≡ false =
        λ q. nobody_waits s.kernel p q e (h.bound q) in
      record {
        one = λ q r a b. ground (arith, others q);
        held = λ q a. ground (arith, others q);
        owner = λ a. ground arith;
        waits = λ q a. ground (arith, quiet q);
        bound = λ q a. ground (arith, quiet q);
      }

  Step-IsSound : {s s' : State} → IsSound chan s → Step chan s s' → IsSound chan s'
  unfolding acquiresleep_again
  Step-IsSound h (takes s c p e below free) = tried-IsSound s c p h below free
  Step-IsSound h (goes_on s c p e below free) =
      let other = awake-Elsewhere s.holds s.kernel p e in
      tried-IsSound (record s { kernel = awake s.kernel p }) c p
        (Elsewhere-IsSound s (awake s.kernel p) h other) below free
  Step-IsSound h (releases s p e has) = freed-IsSound s p h e has
  Step-IsSound h (elsewhere s k other) = Elsewhere-IsSound s k h other

-- From a lock that initsleeplock has made and on which no process sleeps, in any order of
-- acquiresleep, releasesleep, and other code that does not sleep on the lock or change the pid of
-- its holder: one process at most is between its return from acquiresleep and its releasesleep,
-- holdingsleep is true for it, a taken lock has such a process, and a process that sleeps on the
-- lock sleeps on a taken lock, so that no wakeup is lost.
pub Reach-IsSound : (chan : ℕ) (s : State) → Reach chan s → IsSound chan s
Reach-IsSound chan s (begins k quiet) = record {
  one = λ p q a b. ground arith;
  held = λ p a. ground arith;
  owner = λ a. ground arith;
  waits = λ q a. ground (arith, quiet q);
  bound = λ q a. ground (arith, quiet q);
}
Reach-IsSound chan s' (then_step {s} r step) = Step-IsSound chan (Reach-IsSound chan s r) step
