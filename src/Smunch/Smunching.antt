-- ===== src/Smunch/Smunching.antt =====
-- What the two versions of `smunch` do, and where they differ
-- (Smunch-SystemCalls/stoogecalls.c, lines 68 to 114, and Smunch-SystemCalls/smunch.c, lines 7 to 34).
use os_spring.Common.{
  ℕ, ◌-◌, ◌<◌, ◌≡◌, ◌≢◌, ◌⊎◌, refl, true, false, not, ◌||◌, ◌==◌, Option, none, some, arith,
  if◌then◌else◌,
}
use os_spring.Smunch.Signals.{SignalSets, Task, bit, sigkill}
use os_spring.Smunch.Calls.{Kernel, failed, done, put_task, deliver, smunch, new_set, stooge_smunch}

module _ (k : SignalSets) where
  open k use {siginitset, sigismember, sigaddsetmask, sigmask, member-init, member-add, sigmask_lem}

  -- Of a live task that is alone, with `trace` 0, and has handlers `smunch` makes exactly the signals of
  -- the mask pending, beside those that were, and wakes it; it changes no other task. It does nothing
  -- to a task that is missing, has threads, has its `trace` set or has lost its handlers, and reports that;
  -- a zombie it releases exactly if the mask holds SIGKILL.
  pub smunch_lem :
      (pid mask : ℕ) (s : Kernel k) (t : Task k)
      → let (s', status) = smunch k pid mask s in
        (s.tasks pid ≡ none → (s' ≡ s) × (status ≡ failed))
        × (s.tasks pid ≡ some t
            → (t.thread_group_empty ≡ false) ⊎ (t.trace ≢ 0)
            → (s' ≡ s) × (status ≡ failed))
        × (s.tasks pid ≡ some t
            → t.thread_group_empty ≡ true
            → t.trace ≡ 0
            → ((t.is_zombie ≡ true
                  → (status ≡ done)
                    × (s'.tasks pid
                        ≡ some (if bit mask 8 then record t { released = true } else t)))
                × (t.is_zombie ≡ false → t.sighand ≡ none → (s' ≡ s) × (status ≡ failed))
                × ((h : ℕ)
                    → t.is_zombie ≡ false
                    → t.sighand ≡ some h
                    → (status ≡ done) × (s'.tasks pid ≡ some (deliver k mask t)))))
        × ((other : ℕ) → other ≢ pid → s'.tasks other ≡ s.tasks other)
        × ((sig : ℕ)
            → 0 < sig
            → sig < 65
            → sigismember (deliver k mask t).shared_pending sig
              ≡ (sigismember t.shared_pending sig || bit mask (sig - 1)))
  unfolding smunch
  smunch_lem pid mask s t =
      let kill = member-init mask 9 in
      (
        ground arith,
        ground arith,
        ground (arith, kill),
        ground arith,
        λ sig lo hi. member-add t.shared_pending mask sig lo hi,
      )

  new_set-kill :
      (mask : ℕ) → sigismember (new_set k mask) sigkill ≡ sigismember (siginitset mask) sigkill
  unfolding new_set
  new_set-kill mask = ground (arith, member-init (sigmask 9) 9, sigmask_lem 9)

  -- The set that stoogecalls.c narrows to SIGKILL makes no difference: the two versions do the same to
  -- every task whose `ptrace` flags are 1, which stoogecalls.c tests, exactly if its `trace` is not 0,
  -- which smunch.c tests, and to a missing one.
  pub stooge_smunch-eq-smunch :
      (pid mask : ℕ) (s : Kernel k)
      → ((t : Task k) → s.tasks pid ≡ some t → (t.ptrace == 1) ≡ not (t.trace == 0))
      → stooge_smunch k pid mask s ≡ smunch k pid mask s
  unfolding stooge_smunch smunch
  stooge_smunch-eq-smunch pid mask s same = found (s.tasks pid) refl
    where
      found :
          (o : Option (Task k)) → s.tasks pid ≡ o → stooge_smunch k pid mask s ≡ smunch k pid mask s
      found none e = ground arith
      found (some t) e = ground (arith, same t e, new_set-kill mask)

  -- A live task that is alone in its group, has handlers, has `trace` set and has `ptrace` flags above 1
  -- escapes the test of stoogecalls.c: it gets the signals, which smunch.c refuses to send.
  pub stooge_smunches_traced :
      (pid mask h : ℕ) (s : Kernel k) (t : Task k)
      → s.tasks pid ≡ some t
      → 1 < t.ptrace
      → t.trace ≢ 0
      → t.thread_group_empty ≡ true
      → t.is_zombie ≡ false
      → t.sighand ≡ some h
      → (stooge_smunch k pid mask s ≡ (put_task k pid (deliver k mask t) s, done))
        × (smunch k pid mask s ≡ (s, failed))
  unfolding stooge_smunch smunch
  stooge_smunches_traced pid mask h s t found traced set alone alive hand = ground arith

  -- Narrowing the set to SIGKILL has no effect on a live, untraced task that is alone in its group and
  -- has handlers: with SIGKILL in the mask every other signal of the mask becomes pending too.
  pub stooge_keeps_others :
      (pid mask h sig : ℕ) (s : Kernel k) (t : Task k)
      → s.tasks pid ≡ some t
      → t.ptrace ≡ 0
      → t.thread_group_empty ≡ true
      → t.is_zombie ≡ false
      → t.sighand ≡ some h
      → bit mask 8 ≡ true
      → 0 < sig
      → sig < 65
      → bit mask (sig - 1) ≡ true
      → (t' : Task k) × ((stooge_smunch k pid mask s).0.tasks pid ≡ some t')
        × (sigismember t'.shared_pending sig ≡ true)
  unfolding stooge_smunch
  stooge_keeps_others pid mask h sig s t found un alone alive hand kill lo hi b =
      (deliver k mask t, ground arith, ground (arith, member-add t.shared_pending mask sig))
