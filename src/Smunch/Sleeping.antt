-- ===== src/Smunch/Sleeping.antt =====
-- Sleeping on a wait queue (Smunch-SystemCalls/stoogecalls.c, lines 8 to 28 and 60 to 65).
use os_spring.Common.{ℕ, ◌≡◌, ◌∙◌, Option, none, some, List, [], ◌∷◌, ◌==◌, if◌then◌else◌}

-- a queue's tasks, but for one
abbrev pub without : ℕ → List ℕ → List ℕ
without me [] = []
without me (p ∷ ps) = if p == me then without me ps else p ∷ without me ps

-- linux/wait.h and linux/spinlock.h: the lock of a queue has a holder, or none; to give it back leaves
-- it without a holder, whoever held it; to add or remove an entry does not look at the lock.
pub record WaitQueues : Type 1 where
  pub State : Type 0
  pub holder : State → Option ℕ
  pub waiting : State → List ℕ
  pub set_uninterruptible : ℕ → State → State
  pub spin_lock_irqsave : ℕ → State → State
  pub add_wait_queue : ℕ → State → State
  pub spin_unlock : State → State
  pub schedule : State → State
  pub remove_wait_queue : ℕ → State → State
  pub spin_unlock_irqrestore : State → State
  pub holder-remove : (me : ℕ) (s : State) → holder (remove_wait_queue me s) ≡ holder s
  pub waiting-remove :
      (me : ℕ) (s : State) → waiting (remove_wait_queue me s) ≡ without me (waiting s)
  pub holder-irqrestore : (s : State) → holder (spin_unlock_irqrestore s) ≡ none
  pub waiting-irqrestore : (s : State) → waiting (spin_unlock_irqrestore s) ≡ waiting s

-- `goober`, whose message to the log is left out.
unfoldable goober : (myarg : ℕ) → ℕ
goober myarg = 1

module _ (k : WaitQueues) where
  open k use {
    State, holder, waiting, set_uninterruptible, spin_lock_irqsave, add_wait_queue, spin_unlock,
    schedule, remove_wait_queue, spin_unlock_irqrestore,
  }

  -- `sleep_on` of the task `me`, up to where `schedule` returns
  unfoldable pub asleep : (me : ℕ) → State → State
  asleep me s =
      let s = set_uninterruptible me s in
      let s = spin_lock_irqsave me s in
      let s = add_wait_queue me s in let s = spin_unlock s in schedule s

  unfoldable pub sleep_on : (me : ℕ) → State → State
  unfolding asleep
  sleep_on me s = let s = asleep me s in let s = remove_wait_queue me s in spin_unlock_irqrestore s

  -- The queue of `deepsleep` is `gone`, the only one here.
  unfoldable pub deepsleep : (me : ℕ) → State → State
  unfolding sleep_on
  deepsleep = sleep_on

  -- If another task holds the queue's lock when `schedule` returns, then `deepsleep` takes its own entry
  -- off the queue all the same, and at its end the other task holds the lock no more.
  deepsleep_unlocks_other :
      (me other : ℕ) (s : State)
      → holder (asleep me s) ≡ some other
      → (holder (remove_wait_queue me (asleep me s)) ≡ some other)
        × (waiting (deepsleep me s) ≡ without me (waiting (asleep me s)))
        × (holder (deepsleep me s) ≡ none)
  unfolding deepsleep
  deepsleep_unlocks_other me other s h =
      let woken = asleep me s in
      (
        k.holder-remove me woken ∙ h,
        k.waiting-irqrestore (remove_wait_queue me woken) ∙ k.waiting-remove me woken,
        k.holder-irqrestore (remove_wait_queue me woken),
      )
