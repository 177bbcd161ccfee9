-- ===== src/Smunch/Tests.antt =====
-- Tests of the system calls: the theorems of their modules for one live task, and a sleeping one.
use os_spring.Common.{
  ◌∷◌, List, Option, ◌+◌, replicate, ℕ, ◌-◌, ◌^◌, ◌≡◌, refl, Bool, true, false, not, ◌||◌, some,
  none, [], arith, ◌==◌, if◌then◌else◌,
}
use os_spring.Smunch.Signals.{bit, SignalSets, Task}
use os_spring.Smunch.Counters.{get_sigcounter-init_sigcounter}
use os_spring.Smunch.Sleeping.{WaitQueues, without, asleep, sleep_on, deepsleep}
use os_spring.Smunch.Calls.{init_sigcounter, get_sigcounter, Kernel, smunch, stooge_smunch}
use os_spring.Smunch.Smunching.{stooge_smunch-eq-smunch, stooge_keeps_others}

-- A set as a test of a signal's number.
abbrev signal_sets : SignalSets
signal_sets = record {
  Sigset = ℕ → Bool;
  siginitset = λ mask sig. bit mask (sig - 1);
  sigismember = λ set sig. set sig;
  sigaddsetmask = λ set mask sig. set sig || bit mask (sig - 1);
  sigmask = λ sig. 2 ^ (sig - 1);
  member-init = λ mask sig lo hi. refl;
  member-add = λ set mask sig lo hi. refl;
  sigmask_lem = λ sig lo hi. refl;
}

abbrev task : ℕ → Task signal_sets
task traced = record {
  thread_group_empty = true;
  ptrace = traced;
  trace = traced;
  is_zombie = false;
  sighand = some 2;
  shared_pending = λ sig. false;
  sigpending = false;
  woken = false;
  released = false;
}

-- task 5 is live, with these flags in both fields
abbrev kernel : ℕ → Kernel signal_sets
kernel traced = record {
  tasks = λ pid. if pid == 5 then some (task traced) else none;
  counters = λ h. [];
}

kernel-same :
    (t : Task signal_sets) → (kernel 0).tasks 5 ≡ some t → (t.ptrace == 1) ≡ not (t.trace == 0)
kernel-same t e = ground arith

-- SIGKILL and signal 1
stooge_smunch-eq-smunch_example :
    stooge_smunch signal_sets 5 257 (kernel 0) ≡ smunch signal_sets 5 257 (kernel 0)
stooge_smunch-eq-smunch_example = stooge_smunch-eq-smunch signal_sets 5 257 (kernel 0) kernel-same

stooge_keeps_others_example :
    (t' : Task signal_sets) × ((stooge_smunch signal_sets 5 257 (kernel 0)).0.tasks 5 ≡ some t')
    × (signal_sets.sigismember t'.shared_pending 1 ≡ true)
stooge_keeps_others_example =
    stooge_keeps_others signal_sets 5 257 2 1 (kernel 0) (task 0) refl refl refl refl refl refl
      (omega arith) (omega arith) refl

-- every set of handlers has 64 counters, and task 6 has those of task 5
abbrev counting : Kernel signal_sets
counting = record {
  tasks = λ pid. if pid == 5 || pid == 6 then some (task 0) else none;
  counters = λ h. replicate 64 (h + 1);
}

get_sigcounter-init_sigcounter_example :
    (s' : Kernel signal_sets) × (init_sigcounter signal_sets 5 counting ≡ some (s', 1))
    × (get_sigcounter signal_sets 6 63 s'
        ≡ (if 2 == 2 then some 0 else get_sigcounter signal_sets 6 63 counting))
get_sigcounter-init_sigcounter_example =
    get_sigcounter-init_sigcounter signal_sets 5 2 2 6 63 counting (task 0) (task 0) refl refl refl
      refl refl (omega arith)

-- A state is the holder of the queue's lock and the tasks in the queue; task 9 takes the lock before
-- the sleeping task runs again.
abbrev wait_queues : WaitQueues
wait_queues = record {
  State = Option ℕ × List ℕ;
  holder = λ s. s.0;
  waiting = λ s. s.1;
  set_uninterruptible = λ me s. s;
  spin_lock_irqsave = λ me s. (some me, s.1);
  add_wait_queue = λ me s. (s.0, me ∷ s.1);
  spin_unlock = λ s. (none, s.1);
  schedule = λ s. (some 9, s.1);
  remove_wait_queue = λ me s. (s.0, without me s.1);
  spin_unlock_irqrestore = λ s. (none, s.1);
  holder-remove = λ me s. refl;
  waiting-remove = λ me s. refl;
  holder-irqrestore = λ s. refl;
  waiting-irqrestore = λ s. refl;
}

lock_is_lost : deepsleep wait_queues 3 (none, 4 ∷ []) ≡ (none, 4 ∷ [])
unfolding deepsleep sleep_on asleep
lock_is_lost = refl
