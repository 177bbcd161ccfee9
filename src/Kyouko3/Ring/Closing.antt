-- ===== src/Kyouko3/Ring/Closing.antt =====
-- Giving the buffers back at the end of a session (Kyouko3_GrpahicsDriver/mymod.c, lines 220 to 245).
use os_spring.Common.{
  ℕ, zero, suc, ◌+◌, ◌≡◌, ◌≢◌, ◌≤◌, refl, sym, ◌∙◌, List, [], ◌∷◌, ◌++◌, arith, length,
  if◌then◌else◌, ◌==◌,
}
use mathlib.Core.Path.{subst}
use native.Mathlib.Decide.{ℕ_discrete}
use os_spring.Kyouko3.State.{Kyouko3, Bus}
use os_spring.Kyouko3.Dma.{
  dma_intr, interrupts, wait_empty, free_buffers, unmap_buffers, late_unbind_dma,
  on_time_unbind_dma,
}
use os_spring.Kyouko3.Ring.{Transfer, transfers, here}
use os_spring.Kyouko3.Ring.Guarantees.{transfers_in_order}
use os_spring.Kyouko3.Ring.Calls.{interrupts-Reaches}
use os_spring.Kyouko3.Ring.Flushes.{Quiet, Quiet-Reaches}
use os_spring.Kyouko3.Ring.Sessions.{InSession, Reaches-InSession}

-- The wait for an empty queue: it ends by its condition.
abbrev pub TimelyEmpty : List Bus → Kyouko3 → Type 0
TimelyEmpty [] s = s.queued_count ≡ 0
TimelyEmpty (bus ∷ more) s = s.queued_count ≢ 0 → TimelyEmpty more (dma_intr bus s).0

wait-empty :
    (bus : Bus) (more : List Bus) (s : Kyouko3) → s.queued_count ≡ 0 → wait_empty (bus ∷ more) s ≡ s
unfolding wait_empty
wait-empty bus more s e = ground arith

wait-queued :
    (bus : Bus) (more : List Bus) (s : Kyouko3)
    → s.queued_count ≢ 0
    → wait_empty (bus ∷ more) s ≡ wait_empty more (dma_intr bus s).0
unfolding wait_empty
wait-queued bus more s ne = ground arith

-- in a session whose queue is empty
abbrev Drained : (address : ℕ → ℕ) → List Transfer → Kyouko3 → Type 0
Drained address sub s = InSession address s sub × (s.queued_count ≡ 0)

one_interrupt :
    (address : ℕ → ℕ) (bus : Bus) (s : Kyouko3) (sub : List Transfer)
    → InSession address s sub
    → s.queued_count ≢ 0
    → InSession address (dma_intr bus s).0 sub
one_interrupt address bus s sub i ne =
    Reaches-InSession address s (dma_intr bus s).0 sub sub i
      (unfold interrupts in interrupts-Reaches (bus ∷ []) _ i.coherent refl ((λ r. ne), tt))

wait_empty-Drained :
    (address : ℕ → ℕ) (wait : List Bus) (s : Kyouko3) (sub : List Transfer)
    → InSession address s sub
    → TimelyEmpty wait s
    → Drained address sub (wait_empty wait s)
unfolding wait_empty
wait_empty-Drained address [] s sub i h = (i, h)
wait_empty-Drained address (bus ∷ more) s sub i h = elim (ℕ_discrete s.queued_count 0) [
  | yes e ↦ subst (Drained address sub) (sym (wait-empty bus more s e)) (i, e)
  | no ne ↦ subst (Drained address sub) (sym (wait-queued bus more s ne)) (
      wait_empty-Drained address more (dma_intr bus s).0 sub (one_interrupt address bus s sub i ne)
        (h ne))
]

Drained-transfers :
    (address : ℕ → ℕ) (s : Kyouko3) (sub : List Transfer)
    → Drained address sub s
    → transfers s.effects ≡ sub
Drained-transfers address s sub (i, e) =
    let (p, order, few) = transfers_in_order _ _ i.coherent here in sym (order ∙ none_left p few)
  where
    none_left :
        (p : List Transfer)
        → length p ≤ s.queued_count
        → p ++ transfers s.effects ≡ transfers s.effects
    none_left [] few = refl
    none_left (x ∷ p) few = absurd (omega arith)

pub unmap_buffers-Quiet : (rounds i : ℕ) (s : Kyouko3) → Quiet s (unmap_buffers rounds i s)
unfolding unmap_buffers transfers
unmap_buffers-Quiet zero i s =
    (record { buffers = refl; fill = refl; drain = refl; queued = refl; mapped = refl }, refl)
unmap_buffers-Quiet (suc rounds) i s =
    let (same, given) = unmap_buffers-Quiet rounds (i + 1) _ in
    (
      record {
        buffers = same.buffers;
        fill = same.fill;
        drain = same.drain;
        queued = same.queued;
        mapped = same.mapped;
      },
      given,
    )

free_buffers-transfers :
    (rounds i : ℕ) (s : Kyouko3) → transfers (free_buffers rounds i s).effects ≡ transfers s.effects
unfolding free_buffers transfers
free_buffers-transfers zero i s = refl
free_buffers-transfers (suc rounds) i s = free_buffers-transfers rounds (i + 1) _

waited : List Bus → Kyouko3 → Kyouko3
waited wait s = if s.queued_count == 0 then s else wait_empty wait s

waited-Drained :
    (address : ℕ → ℕ) (wait : List Bus) (s : Kyouko3) (sub : List Transfer)
    → InSession address s sub
    → TimelyEmpty wait s
    → Drained address sub (waited wait s)
unfolding waited
waited-Drained address wait s sub i h = elim (ℕ_discrete s.queued_count 0) [
  | yes e ↦ subst (Drained address sub) (ground arith) (i, e)
  | no ne ↦ subst (Drained address sub) (ground arith) (wait_empty-Drained address wait s sub i h)
]

late_unbind-transfers :
    (wait : List Bus) (s : Kyouko3)
    → transfers (late_unbind_dma wait s).effects ≡ transfers (waited wait s).effects
unfolding late_unbind_dma waited transfers
late_unbind-transfers wait s = free_buffers-transfers 8 0 _

-- Once `UNBIND_DMA` returns from its wait, all that was handed over has been stored in the FIFO.
pub unbind-transfers :
    (address : ℕ → ℕ) (wait : List Bus) (s : Kyouko3) (sub : List Transfer)
    → InSession address s sub
    → TimelyEmpty wait (unmap_buffers 8 0 s)
    → transfers (on_time_unbind_dma wait s).0.effects ≡ sub
unfolding on_time_unbind_dma
unbind-transfers address wait s sub i h =
    let u = unmap_buffers 8 0 s in
    let j =
      Reaches-InSession address s u sub sub i
        (Quiet-Reaches s u sub i.completed (unmap_buffers-Quiet 8 0 s)) in
    simp i.mapped (
      late_unbind-transfers wait u
      ∙ Drained-transfers address (waited wait u) sub (waited-Drained address wait u sub j h))
