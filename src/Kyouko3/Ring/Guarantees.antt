-- ===== src/Kyouko3/Ring/Guarantees.antt =====
-- What the DMA queue guarantees, and what it stores in the FIFO, in every state that the driver and the card can reach.
use os_spring.Common.{
  ℕ, zero, suc, ◌+◌, ◌-◌, ◌<◌, ◌≤◌, ◌≡◌, ◌≢◌, ◌⊎◌, inl, inr, refl, ap, ◌∙◌, List, [], ◌∷◌, ◌++◌,
  arith, ◌==◌, if◌then◌else◌, length, u32,
}
use mathlib.Core.Path.{subst}
use native.Mathlib.Decide.{ℕ_discrete}
use os_spring.Kyouko3.State.{Kyouko3, Bus, buffer, dma_not_full, Effect, wake_up_interruptible}
use os_spring.Kyouko3.Dma.{dma_intr}
use os_spring.Kyouko3.Ring.{
  Transfer, transfers, Thread, ready, unissued, blocked, System, reports, Step, submit, issue,
  resume, completion, other_interrupt, command, other_call, Reach, here, next,
}
use os_spring.Kyouko3.Ring.Pending.{pending, length-pending}
use os_spring.Kyouko3.Ring.Parts.{fifo_write-SameQueue, fifo_write-transfers}
use os_spring.Kyouko3.Ring.Invariant.{
  IsRing, IsCoherent, At, in_flight, At-quiet, IsRing-quiet, dma_intr-quiet, dma_intr-Retired,
  At-retire, IsRing-retire, start_dma_issue-Queued,
}
use os_spring.Kyouko3.Ring.Submit.{enter-IsCoherent}

At-thread :
    (y : System) (t : Thread) → y.thread ≡ t → IsCoherent y → At t y.dev y.submitted y.completed
At-thread y t e c = subst (λ u. At u y.dev y.submitted y.completed) e c.at

-- Every step of the thread, of the card and of the shared interrupt line keeps the invariant of the
-- DMA queue.
Step-IsCoherent : (y z : System) → Step y z → IsCoherent y → IsCoherent z
Step-IsCoherent y z (submit count e f) c = rw f (enter-IsCoherent count y e c)
Step-IsCoherent y z (issue count e f) c =
    let (ring, at) =
      start_dma_issue-Queued count y.dev y.submitted y.completed c.ring (At-thread y _ e c) in
    rw f (record { ring = ring; at = at })
Step-IsCoherent y z (resume e ne f) c =
    let (q, le) = At-thread y _ e c in rw f (record { ring = c.ring; at = (q, omega arith) })
Step-IsCoherent y z (completion bus r lt f) c =
    let retired = dma_intr-Retired bus y.dev r in
    rw f (record {
      ring = IsRing-retire retired c.ring;
      at = At-retire y.thread y.dev _ y.submitted y.completed retired c.ring lt c.at;
    })
Step-IsCoherent y z (other_interrupt bus r f) c =
    let (same, given) = dma_intr-quiet bus y.dev r in
    rw f (record {
      ring = IsRing-quiet same c.ring;
      at = At-quiet y.thread y.dev _ y.submitted y.completed same given c.at;
    })
Step-IsCoherent y z (command reg value e na nc f) c =
    let same = fifo_write-SameQueue reg value y.dev in
    rw f (record {
      ring = IsRing-quiet same c.ring;
      at =
          At-quiet y.thread y.dev _ y.submitted y.completed same
            (fifo_write-transfers reg value y.dev nc) c.at;
    })
Step-IsCoherent y z (other_call t e same given f) c = rw f (record {
  ring = IsRing-quiet same c.ring;
  at = At-quiet y.thread y.dev t y.submitted y.completed same given c.at;
})

pub Reach-IsCoherent : (y z : System) → IsCoherent y → Reach y z → IsCoherent z
Reach-IsCoherent y z c here = c
Reach-IsCoherent y z c (next {z = u} r st) = Step-IsCoherent u z st (Reach-IsCoherent y u c r)

-- From a coherent state on, the transfers stored in the FIFO are the first ones that the thread
-- submitted, each once, in the order of submission, with the buffer's address and the count of the
-- call; those that were not stored yet are no more than the queue holds.
pub transfers_in_order :
    (y z : System)
    → IsCoherent y
    → Reach y z
    → (p : List Transfer) × (z.submitted ≡ p ++ transfers z.dev.effects)
      × (length p ≤ z.dev.queued_count)
transfers_in_order y z c r =
    split z.thread z.dev z.submitted z.completed (Reach-IsCoherent y z c r).at
  where
    split :
        (t : Thread) (s : Kyouko3) (sub : List Transfer) (n : ℕ)
        → At t s sub n
        → (p : List Transfer) × (sub ≡ p ++ transfers s.effects) × (length p ≤ s.queued_count)
    split ready s sub n ((_, e, _), _) = (
      pending s.dma_buffers s.drain (s.queued_count - 1),
      e,
      omega (arith, length-pending s.dma_buffers s.drain (s.queued_count - 1)),
    )
    split (unissued count) s sub n (_, q, e, _) =
        ((u32 (buffer s s.drain).p_base, count) ∷ [], e, omega arith)
    split blocked s sub n ((_, e, _), _) = (
      pending s.dma_buffers s.drain (s.queued_count - 1),
      e,
      omega (arith, length-pending s.dma_buffers s.drain (s.queued_count - 1)),
    )

-- From a coherent state on: once the thread is outside `start_dma` and as many transfers were reported
-- as stored in the FIFO, everything that the thread submitted was stored.
pub nothing_left_behind :
    (y z : System)
    → IsCoherent y
    → Reach y z
    → z.thread ≡ ready
    → z.completed ≡ length (transfers z.dev.effects)
    → z.submitted ≡ transfers z.dev.effects
nothing_left_behind y z c r e done =
    let ((_, all, n), _) = At-thread z ready e (Reach-IsCoherent y z c r) in
    all
    ∙ ap (λ (l : List Transfer). l ++ transfers z.dev.effects)
        (none_pending z.dev.queued_count z.completed _ z.dev n done)
  where
    none_pending :
        (q n m : ℕ) (s : Kyouko3)
        → m ≡ n + in_flight q
        → n ≡ m
        → pending s.dma_buffers s.drain (q - 1) ≡ []
    none_pending zero n m s e d = refl
    none_pending (suc q) n m s e d = absurd (ground arith)

-- From a coherent state on, the queue never holds more than the eight buffers, both indices stay
-- inside the array, and the card has at most one transfer that it has not reported.
queue_bounds :
    (y z : System)
    → IsCoherent y
    → Reach y z
    → (z.dev.queued_count ≤ 8)
      × (z.dev.fill < length z.dev.dma_buffers)
      × (z.dev.drain < length z.dev.dma_buffers)
      × (z.completed ≤ length (transfers z.dev.effects))
      × (length (transfers z.dev.effects) ≤ z.completed + 1)
queue_bounds y z c r =
    let d = Reach-IsCoherent y z c r in bounds z.thread z.dev z.submitted z.completed d.ring d.at
  where
    bounds :
        (t : Thread) (s : Kyouko3) (sub : List Transfer) (n : ℕ)
        → IsRing s
        → At t s sub n
        → (s.queued_count ≤ 8)
          × (s.fill < length s.dma_buffers)
          × (s.drain < length s.dma_buffers)
          × (n ≤ length (transfers s.effects))
          × (length (transfers s.effects) ≤ n + 1)
    bounds ready s sub n ring a = ground arith
    bounds (unissued count) s sub n ring a = ground arith
    bounds blocked s sub n ring a = ground arith

-- how often the interrupt handler has woken the threads that wait for room
unfoldable pub wake_ups : List Effect → ℕ
wake_ups [] = 0
wake_ups (wake_up_interruptible dma_not_full ∷ es) = suc (wake_ups es)
wake_ups (_ ∷ es) = wake_ups es

-- With one to eight buffers queued, an interrupt that reports a transfer leaves one buffer less in
-- the queue, and wakes the waiting threads exactly if the queue was full.
dma_intr-wakes :
    (bus : Bus) (s : Kyouko3)
    → reports bus s ≢ 0
    → s.queued_count ≢ 0
    → s.queued_count ≤ 8
    → (suc (dma_intr bus s).0.queued_count ≡ s.queued_count)
      × (wake_ups (dma_intr bus s).0.effects
          ≡ (if s.queued_count == 8 then suc (wake_ups s.effects) else wake_ups s.effects))
unfolding dma_intr wake_ups
dma_intr-wakes bus s r busy le = ground arith

-- From a coherent state on: a thread that waits for room finds its condition true already, or a transfer
-- was stored in the FIFO that is not reported, and the interrupt that reports it wakes the thread with
-- its condition true.
pub blocked_wakes :
    (y z : System) (bus : Bus)
    → IsCoherent y
    → Reach y z
    → z.thread ≡ blocked
    → reports bus z.dev ≢ 0
    → (z.dev.queued_count ≢ 8)
      ⊎ ((z.completed < length (transfers z.dev.effects))
          × ((dma_intr bus z.dev).0.queued_count ≢ 8)
          × (wake_ups (dma_intr bus z.dev).0.effects ≡ suc (wake_ups z.dev.effects)))
blocked_wakes y z bus c r e rep =
    let d = Reach-IsCoherent y z c r in
    let ((_, _, n), le) = At-thread z blocked e d in
    elim (ℕ_discrete z.dev.queued_count 8) [
      | yes full ↦
          let (less, woken) = dma_intr-wakes bus z.dev rep (omega arith) (omega arith) in
          inr (ground arith, omega arith, woken ∙ ground arith)
      | no room ↦ inl room
    ]
