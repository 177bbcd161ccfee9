-- ===== src/Kyouko3/Ring/Calls.antt =====
-- The calls of `ioctl` as runs of the system of steps (Kyouko3_GrpahicsDriver/mymod.c, lines 160 to 300
-- and 382 to 414).
use mathlib.Core.Path.{subst}
use os_spring.Common.{
  Bool, ℕ, ◌+◌, ◌≡◌, ◌≢◌, ◌<◌, refl, sym, ap, true, false, List, [], ◌∷◌, arith, length,
}
use native.Mathlib.Decide.{ℕ_discrete}
use os_spring.Kyouko3.State.{Kyouko3, Bus}
use os_spring.Kyouko3.Dma.{
  dma_intr, interrupts, wait_not_full, Phase, refused, issuing, waiting, returning,
  start_dma_locked, start_dma_finish, start_dma,
}
use os_spring.Kyouko3.Ring.{
  Transfer, transfers, Thread, ready, unissued, blocked, System, enter, reports, submit, issue,
  resume, completion, other_interrupt, Reach, here, next,
}
use os_spring.Kyouko3.Ring.Invariant.{IsCoherent, At}
use os_spring.Kyouko3.Ring.Guarantees.{Reach-IsCoherent}
use os_spring.Kyouko3.Ring.Timely.{Timely, Silent, TimelyWait, TimelyPhase, handed_over}

Reach-trans : (x y z : System) → Reach x y → Reach y z → Reach x z
Reach-trans x y z r here = r
Reach-trans x y z r (next {z = w} q st) = next (Reach-trans x y w r q) st

-- The system gets to this state of the driver and of its thread.
abbrev pub Reaches : System → Kyouko3 → Thread → List Transfer → Type 0
Reaches y t thread sub =
    (c : ℕ) × Reach y (record { dev = t; thread = thread; submitted = sub; completed = c })

pub Reaches-then :
    (y : System) (s t : Kyouko3) (a b : Thread) (sub sub' : List Transfer)
    → Reaches y s a sub
    → ((c : ℕ)
        → Reach y (record { dev = s; thread = a; submitted = sub; completed = c })
        → Reaches (record { dev = s; thread = a; submitted = sub; completed = c }) t b sub')
    → Reaches y t b sub'
Reaches-then y s t a b sub sub' (c, r) k = let (d, q) = k c r in (d, Reach-trans y _ _ r q)

-- not between the unlock and the FIFO stores of `start_dma`
abbrev is_issued : Thread → Bool
is_issued (unissued count) = false
is_issued t = true

has_transfer :
    (thread : Thread) (s : Kyouko3) (sub : List Transfer) (c : ℕ)
    → is_issued thread ≡ true
    → At thread s sub c
    → s.queued_count ≢ 0
    → c < length (transfers s.effects)
has_transfer ready s sub c o a ne = ground arith
has_transfer (unissued n) s sub c o a ne = absurd (ground arith)
has_transfer blocked s sub c o a ne = ground arith

interrupt-Reaches :
    (bus : Bus) (y : System)
    → IsCoherent y
    → is_issued y.thread ≡ true
    → (reports bus y.dev ≢ 0 → y.dev.queued_count ≢ 0)
    → Reaches y (dma_intr bus y.dev).0 y.thread y.submitted
interrupt-Reaches bus y c o h = elim (ℕ_discrete (reports bus y.dev) 0) [
  | yes e ↦ (y.completed, next here (other_interrupt bus e refl))
  | no ne ↦ (
    y.completed + 1,
    next here (
        completion bus ne (has_transfer y.thread y.dev y.submitted y.completed o c.at (h ne)) refl),
  )
]

pub interrupts-Reaches :
    (buses : List Bus) (y : System)
    → IsCoherent y
    → is_issued y.thread ≡ true
    → Timely buses y.dev
    → Reaches y (interrupts buses y.dev) y.thread y.submitted
unfolding interrupts
interrupts-Reaches [] y c o h = (y.completed, here)
interrupts-Reaches (bus ∷ more) y c o (h, hs) =
    Reaches-then y _ _ _ _ _ _ (interrupt-Reaches bus y c o h)
      (λ n r. interrupts-Reaches more _ (Reach-IsCoherent y _ c r) o hs)

Silent-Reaches :
    (buses : List Bus) (y : System)
    → Silent buses y.dev
    → Reaches y (interrupts buses y.dev) y.thread y.submitted
unfolding interrupts
Silent-Reaches [] y h = (y.completed, here)
Silent-Reaches (bus ∷ more) y (h, hs) =
    Reaches-then y _ _ _ _ _ _ (y.completed, next here (other_interrupt bus h refl))
      (λ n r. Silent-Reaches more _ hs)

wait-full :
    (bus : Bus) (more : List Bus) (s : Kyouko3)
    → s.queued_count ≡ 8
    → wait_not_full (bus ∷ more) s ≡ wait_not_full more (dma_intr bus s).0
unfolding wait_not_full
wait-full bus more s e = ground arith

wait-room :
    (bus : Bus) (more : List Bus) (s : Kyouko3)
    → s.queued_count ≢ 8
    → wait_not_full (bus ∷ more) s ≡ s
unfolding wait_not_full
wait-room bus more s ne = ground arith

-- A wait that no signal ends.
wait-Reaches :
    (wait : List Bus) (y : System)
    → IsCoherent y
    → y.thread ≡ blocked
    → TimelyWait wait y.dev
    → Reaches y (wait_not_full wait y.dev) ready y.submitted
unfolding wait_not_full
wait-Reaches [] y c e h = (y.completed, next here (resume e h refl))
wait-Reaches (bus ∷ more) y c e h = elim (ℕ_discrete y.dev.queued_count 8) [
  | no room ↦ (
    y.completed,
    next here (
        resume e room (
          ap (λ (s : Kyouko3). record y { dev = s; thread = ready })
            (wait-room bus more y.dev room))),
  )
  | yes full ↦
      subst (λ s. Reaches y s ready y.submitted) (sym (wait-full bus more y.dev full))
        (Reaches-then y _ _ _ _ _ _ (interrupt-Reaches bus y c (ap is_issued e) (h full).0)
          (λ n r. wait-Reaches more _ (Reach-IsCoherent y _ c r) e (h full).1))
]

-- What `start_dma` does behind the unlock.
finish-Reaches :
    (phase : Phase) (count : ℕ) (gap wait : List Bus) (t : Kyouko3) (y : System)
    → y.thread ≡ ready
    → IsCoherent (enter count (t, phase) y)
    → TimelyPhase phase gap wait t
    → Reaches
        (enter count (t, phase) y)
        (start_dma_finish phase count wait (interrupts gap t)).0
        ready
        (enter count (t, phase) y).submitted
unfolding enter start_dma_finish
finish-Reaches refused count gap wait t y e c h =
    subst (λ u. Reaches (enter count (t, refused) y) (interrupts gap t) u y.submitted) e
      (interrupts-Reaches gap (record y { dev = t }) c (ap is_issued e) h)
finish-Reaches issuing count gap wait t y e c h =
    Reaches-then _ _ _ _ _ _ _ (Silent-Reaches gap (enter count (t, issuing) y) h)
      (λ n r. (n, next here (issue count refl refl)))
finish-Reaches waiting count gap wait t y e c h =
    Reaches-then _ _ _ _ _ _ _ (interrupts-Reaches gap (enter count (t, waiting) y) c refl h.0)
      (λ n r. wait-Reaches wait _ (Reach-IsCoherent _ _ c r) refl h.1)
finish-Reaches returning count gap wait t y e c h =
    subst
      (λ u.
        Reaches (enter count (t, returning) y) (interrupts gap t) u
          (enter count (t, returning) y).submitted)
      e (interrupts-Reaches gap (enter count (t, returning) y) c (ap is_issued e) h)

enter-submits :
    (count : ℕ) (y : System)
    → (enter count (start_dma_locked count y.dev) y).submitted ≡ handed_over count y.dev y.submitted
unfolding enter start_dma_locked
enter-submits count y = ground arith

-- `start_dma` as a whole is a run of the steps: it hands its buffer over, unless it refuses the count.
pub start_dma-Reaches :
    (count : ℕ) (gap wait : List Bus) (y : System)
    → y.thread ≡ ready
    → IsCoherent y
    → TimelyPhase (start_dma_locked count y.dev).1 gap wait (start_dma_locked count y.dev).0
    → Reaches y (start_dma count gap wait y.dev).0 ready (handed_over count y.dev y.submitted)
unfolding start_dma
start_dma-Reaches count gap wait y e c h =
    let entered = next here (submit count e refl) in
    let (n, r) =
      finish-Reaches (start_dma_locked count y.dev).1 count gap wait
        (start_dma_locked count y.dev).0 y e (Reach-IsCoherent y _ c entered) h in
    subst (λ l. Reaches y (start_dma count gap wait y.dev).0 ready l) (enter-submits count y)
      (n, Reach-trans y _ _ entered r)
