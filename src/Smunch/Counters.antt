-- ===== src/Smunch/Counters.antt =====
-- The counters of received signals (Smunch-SystemCalls/stoogecalls.c, lines 30 to 58).
use os_spring.Common.{
  if_eq, if_ne, ℕ, zero, suc, ◌+◌, ◌<◌, ◌≤◌, ◌≡◌, ◌≢◌, refl, ap, ◌∙◌, none, some, List, [], ◌∷◌,
  arith, ◌==◌, if◌then◌else◌, length, set, get_elem?, length-set,
}
use native.Mathlib.Decide.{ℕ_discrete}
use os_spring.Smunch.Signals.{SignalSets, Task}
use os_spring.Smunch.Calls.{Kernel, clear_counters, init_sigcounter, get_sigcounter}

get_elem?-set_self : (xs : List ℕ) (i v : ℕ) → i < length xs → get_elem? (set xs i v) i ≡ some v
get_elem?-set_self [] i v h = absurd (omega arith)
get_elem?-set_self (x ∷ xs) zero v h = refl
get_elem?-set_self (x ∷ xs) (suc i) v h = get_elem?-set_self xs i v (omega arith)

get_elem?-set_ne : (xs : List ℕ) (i j v : ℕ) → i ≢ j → get_elem? (set xs i v) j ≡ get_elem? xs j
get_elem?-set_ne [] i j v h = refl
get_elem?-set_ne (x ∷ xs) zero zero v h = absurd (h refl)
get_elem?-set_ne (x ∷ xs) zero (suc j) v h = refl
get_elem?-set_ne (x ∷ xs) (suc i) zero v h = refl
get_elem?-set_ne (x ∷ xs) (suc i) (suc j) v h = get_elem?-set_ne xs i j v (λ e. h (ap suc e))

get_elem?-none : (xs : List ℕ) (i : ℕ) → length xs ≤ i → get_elem? xs i ≡ none
get_elem?-none [] i h = refl
get_elem?-none (x ∷ xs) zero h = absurd (omega arith)
get_elem?-none (x ∷ xs) (suc i) h = get_elem?-none xs i (omega arith)

module _ (k : SignalSets) where
  length-clear_counters :
      (rounds i : ℕ) (cnt : List ℕ) → length (clear_counters k rounds i cnt) ≡ length cnt
  unfolding clear_counters
  length-clear_counters zero i cnt = refl
  length-clear_counters (suc rounds) i cnt =
      length-clear_counters rounds (i + 1) (set cnt i 0) ∙ length-set cnt i 0

  cleared_before :
      (rounds i j : ℕ) (cnt : List ℕ)
      → j < i
      → get_elem? (clear_counters k rounds i cnt) j ≡ get_elem? cnt j
  unfolding clear_counters
  cleared_before zero i j cnt h = refl
  cleared_before (suc rounds) i j cnt h =
      cleared_before rounds (i + 1) j (set cnt i 0) (omega arith)
      ∙ get_elem?-set_ne cnt i j 0 (omega arith)

  cleared :
      (rounds i j : ℕ) (cnt : List ℕ)
      → i ≤ j
      → j < i + rounds
      → i + rounds ≤ length cnt
      → get_elem? (clear_counters k rounds i cnt) j ≡ some 0
  unfolding clear_counters
  cleared zero i j cnt lo hi room = absurd (omega arith)
  cleared (suc rounds) i j cnt lo hi room = elim (ℕ_discrete i j) [
    | yes e ↦ rw (← e) (
        cleared_before rounds (i + 1) i (set cnt i 0) (omega arith)
        ∙ get_elem?-set_self cnt i 0 (omega arith))
    | no ne ↦
        cleared rounds (i + 1) j (set cnt i 0) (omega arith) (omega arith)
          (omega (arith, length-set cnt i 0))
  ]

  -- After `init_sigcounter` of a task with 64 counters, `get_sigcounter` gives 0 for each of them, in
  -- that task and in every one that shares its handlers; a task with other handlers keeps its
  -- counters. Outside of the 64 counters `get_sigcounter` reads past their end.
  init_sigcounter-clears :
      (pid h : ℕ) (s : Kernel k) (t : Task k)
      → s.tasks pid ≡ some t
      → t.sighand ≡ some h
      → length (s.counters h) ≡ 64
      → (s' : Kernel k) × (init_sigcounter k pid s ≡ some (s', 1))
        × ((current g sig : ℕ) (u : Task k)
            → s.tasks current ≡ some u
            → u.sighand ≡ some g
            → (g ≡ h → sig < 64 → get_sigcounter k current sig s' ≡ some 0)
              × (g ≡ h → 64 ≤ sig → get_sigcounter k current sig s' ≡ none)
              × (g ≢ h → get_sigcounter k current sig s' ≡ get_sigcounter k current sig s))
  unfolding init_sigcounter get_sigcounter
  init_sigcounter-clears pid h s t found hand size =
      let after = clear_counters k 64 0 (s.counters h) in
      (
        record s { counters = λ g. if g == h then after else s.counters g },
        ground arith,
        λ current g sig u there shared. (
          λ e lt. ground (arith, cleared 64 0 sig (s.counters h)),
          λ e ge. ground (
            arith,
            get_elem?-none after sig (omega (arith, length-clear_counters 64 0 (s.counters h))),
          ),
          λ ne. ground arith,
        ),
      )

  -- After `init_sigcounter` of a task with 64 counters, which succeeds, `get_sigcounter` of any of the
  -- 64 gives 0 to every task that shares its handlers, and what it gave before to a task with others.
  pub get_sigcounter-init_sigcounter :
      (pid h g current sig : ℕ) (s : Kernel k) (t u : Task k)
      → s.tasks pid ≡ some t
      → t.sighand ≡ some h
      → length (s.counters h) ≡ 64
      → s.tasks current ≡ some u
      → u.sighand ≡ some g
      → sig < 64
      → (s' : Kernel k) × (init_sigcounter k pid s ≡ some (s', 1))
        × (get_sigcounter k current sig s'
            ≡ (if g == h then some 0 else get_sigcounter k current sig s))
  get_sigcounter-init_sigcounter pid h g current sig s t u found hand size there shared lt =
      let (s', ran, each) = init_sigcounter-clears pid h s t found hand size in
      let (same, outside, apart) = each current g sig u there shared in
      (
        s',
        ran,
        elim (ℕ_discrete g h) [
          | yes e ↦ same e lt ∙ if_eq _ _ g h e
          | no ne ↦ apart ne ∙ if_ne _ _ g h ne
        ],
      )
