-- ===== src/Smunch/Signals.antt =====
-- What Smunch-SystemCalls uses of the kernel's signal sets, and the tasks that it works on.
use os_spring.Common.{ℕ, ◌-◌, ◌/◌, ◌%◌, ◌^◌, ◌<◌, ◌≡◌, Bool, ◌||◌, Option, ◌==◌}

-- bit `i` of a mask
abbrev pub bit : ℕ → ℕ → Bool
bit mask i = (mask / 2 ^ i) % 2 == 1

-- linux/signal.h: signal `sig` is bit `sig - 1`. A set made from a mask holds the signals of its
-- first word, and adding a mask adds those of the mask.
pub record SignalSets : Type 1 where
  pub Sigset : Type 0
  pub siginitset : ℕ → Sigset
  pub sigismember : Sigset → ℕ → Bool
  pub sigaddsetmask : Sigset → ℕ → Sigset
  pub sigmask : ℕ → ℕ
  pub member-init :
      (mask sig : ℕ) → 0 < sig → sig < 65 → sigismember (siginitset mask) sig ≡ bit mask (sig - 1)
  pub member-add :
      (set : Sigset) (mask sig : ℕ)
      → 0 < sig
      → sig < 65
      → sigismember (sigaddsetmask set mask) sig ≡ (sigismember set sig || bit mask (sig - 1))
  pub sigmask_lem : (sig : ℕ) → 0 < sig → sig < 65 → sigmask sig ≡ 2 ^ (sig - 1)

abbrev pub sigkill : ℕ
sigkill = 9

-- The fields of a `struct task_struct` that the calls use: whether the task is alone in its thread
-- group, its `ptrace` flags and the field `trace` that smunch.c tests instead, whether it is a zombie, and its signal handlers, which tasks may share
-- and which a task that has exited has no more. The last three record `set_tsk_thread_flag`,
-- `wake_up_process` and `release_task`.
pub record Task (k : SignalSets) : Type 0 where
  pub thread_group_empty : Bool
  pub ptrace : ℕ
  pub trace : ℕ
  pub is_zombie : Bool
  pub sighand : Option ℕ
  pub shared_pending : k.Sigset
  pub sigpending : Bool
  pub woken : Bool
  pub released : Bool
