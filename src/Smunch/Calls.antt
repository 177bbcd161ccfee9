-- ===== src/Smunch/Calls.antt =====
-- The system calls (Smunch-SystemCalls/stoogecalls.c, lines 30 to 58 and 68 to 114, and
-- Smunch-SystemCalls/smunch.c, lines 7 to 34). Messages to the kernel's log are left out.
use os_spring.Common.{
  ℕ, zero, suc, ◌+◌, true, not, ◌||◌, Option, none, some, List, ◌==◌, if◌then◌else◌, set, get_elem?,
}
use os_spring.Smunch.Signals.{SignalSets, Task, sigkill}

-- The tasks by their number, and the counters `isigcnt` of each set of signal handlers.
pub record Kernel (k : SignalSets) : Type 0 where
  pub tasks : ℕ → Option (Task k)
  pub counters : ℕ → List ℕ

pub data Status : Type 0 where
  failed done : Status

module _ (k : SignalSets) where
  open k use {Sigset, siginitset, sigismember, sigaddsetmask, sigmask}

  abbrev pub put_task : ℕ → Task k → Kernel k → Kernel k
  put_task pid t s = record s { tasks = λ p. if p == pid then some t else s.tasks p }

  -- Behind `lock_task_sighand`: the mask becomes pending and the task is woken.
  unfoldable pub deliver : ℕ → Task k → Task k
  deliver mask t = record t {
    shared_pending = sigaddsetmask t.shared_pending mask;
    sigpending = true;
    woken = true;
  }

  unfoldable pub deliver_locked : ℕ → ℕ → Task k → Kernel k → Kernel k × Status
  unfolding deliver
  deliver_locked pid mask t s = elim t.sighand [
    | none ↦ (s, failed)
    | some h ↦ (put_task pid (deliver mask t) s, done)
  ]

  -- `smunch` of smunch.c for a task that was found.
  unfoldable pub smunch_task : ℕ → ℕ → Task k → Kernel k → Kernel k × Status
  unfolding deliver_locked
  smunch_task pid sig_mask t s =
      if not t.thread_group_empty || not (t.trace == 0)
      then (s, failed)
      else if t.is_zombie
      then (
        if sigismember (siginitset sig_mask) sigkill
            then put_task pid (record t { released = true }) s
            else s,
        done,
      )
      else deliver_locked pid sig_mask t s

  unfoldable pub smunch : ℕ → ℕ → Kernel k → Kernel k × Status
  unfolding smunch_task
  smunch pid sig_mask s = elim (s.tasks pid) [
    | none ↦ (s, failed)
    | some t ↦ smunch_task pid sig_mask t s
  ]

  -- The set that `smunch` of stoogecalls.c makes of the mask.
  unfoldable pub new_set : ℕ → Sigset
  new_set bit_pattern =
      let s = siginitset bit_pattern in
      if sigismember s sigkill then siginitset (sigmask sigkill) else s

  -- `smunch` of stoogecalls.c for a task that was found.
  unfoldable pub stooge_smunch_task : ℕ → ℕ → Task k → Kernel k → Kernel k × Status
  unfolding deliver_locked
  stooge_smunch_task pid bit_pattern t s =
      if not t.thread_group_empty || (t.ptrace == 1)
      then (s, failed)
      else if t.is_zombie
      then (
        if sigismember (new_set bit_pattern) sigkill
            then put_task pid (record t { released = true }) s
            else s,
        done,
      )
      else deliver_locked pid bit_pattern t s

  unfoldable pub stooge_smunch : ℕ → ℕ → Kernel k → Kernel k × Status
  unfolding stooge_smunch_task
  stooge_smunch pid bit_pattern s = elim (s.tasks pid) [
    | none ↦ (s, failed)
    | some t ↦ stooge_smunch_task pid bit_pattern t s
  ]

  -- `for(i=0;i<64;i++) isigcnt[i] = 0;` with the rounds that are left.
  unfoldable pub clear_counters : (rounds i : ℕ) → List ℕ → List ℕ
  clear_counters zero i cnt = cnt
  clear_counters (suc rounds) i cnt = clear_counters rounds (i + 1) (set cnt i 0)

  -- `init_sigcounter`. The result of `lock_task_sighand` is not looked at: `none` is the access
  -- through the null pointer of a task without handlers.
  unfoldable pub init_sigcounter : ℕ → Kernel k → Option (Kernel k × ℕ)
  unfolding clear_counters
  init_sigcounter pid s = elim (s.tasks pid) [
    | none ↦ some (s, 0)
    | some t ↦ elim t.sighand [
      | none ↦ none
      | some h ↦ some (
        record s {
          counters = λ g. if g == h then clear_counters 64 0 (s.counters h) else s.counters g;
        },
        1,
      )
    ]
  ]

  -- `get_sigcounter` of the task `current`. `none` is an access outside of the counters.
  unfoldable pub get_sigcounter : (current signumber : ℕ) → Kernel k → Option ℕ
  get_sigcounter current signumber s = elim (s.tasks current) [
    | none ↦ some 0
    | some t ↦ elim t.sighand [ none ↦ none | some h ↦ get_elem? (s.counters h) signumber ]
  ]
