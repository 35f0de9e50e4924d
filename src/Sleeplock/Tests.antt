-- ===== src/Sleeplock/Tests.antt =====
-- A process takes the lock, and a second one goes to sleep on it.
use mit6_1810_why_tea_fo.Base.{◌+◌, ◌≡◌, refl, true, false, none, some, [], arith, replicate}
use mit6_1810_why_tea_fo.Base.Int.{pos}
use mit6_1810_why_tea_fo.Store.{update}
use mit6_1810_why_tea_fo.Files.{fd_none}
use mit6_1810_why_tea_fo.Process.{Kernel, running}
use mit6_1810_why_tea_fo.Process.Schedule.{sleep}
use mit6_1810_why_tea_fo.Sleeplock.{initsleeplock, acquiresleep}
use mit6_1810_why_tea_fo.Sleeplock.Waiters.{
  State, tried, sleeps_on, Step, takes, Reach, begins, then_step, IsSound, Reach-IsSound,
}

abbrev two : Kernel
two = record {
  proc = λ p. record {
    state = running;
    chan = 0;
    killed = false;
    xstate = pos 0;
    pid = p + 1;
    parent = none;
    sz = 0;
    pagetable = none;
    trapframe = none;
    ofile = replicate 16 none;
    cwd = none;
    name = [];
  };
  nextpid = 65;
  cpus = λ c. some (c + 1);
  ftable = λ f. record {
    type' = fd_none;
    ref = 0;
    readable = false;
    writable = false;
    pipe = 0;
    ip = 0;
    off = 0;
    major = 0;
  };
  irefs = λ i. 0;
}

abbrev start : State
start = record { lock = initsleeplock; kernel = two; holds = λ q. false }

abbrev taken : State
taken = tried start 1 (acquiresleep start.lock start.kernel 0 1 99)

abbrev waiting : State
waiting = tried taken 2 (acquiresleep taken.lock taken.kernel 1 2 99)

waits_there : sleeps_on 99 (waiting.kernel.proc 2) ≡ true
unfolding acquiresleep update sleep
waits_there = refl

reached : Reach 99 waiting
unfolding acquiresleep update sleep
reached =
    let first : Step 99 start taken = takes start 0 1 refl (omega arith) refl in
    let second : Step 99 taken waiting = takes taken 1 2 refl (omega arith) refl in
    then_step (then_step (begins two (λ q. refl)) first) second

Reach-IsSound_example : IsSound 99 waiting
Reach-IsSound_example = Reach-IsSound 99 waiting reached
