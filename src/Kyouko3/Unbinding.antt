-- ===== src/Kyouko3/Unbinding.antt =====
-- The wait of `late_unbind_dma`, and what is freed behind it
-- (Kyouko3_GrpahicsDriver/mymod.c, lines 220 to 245).
use os_spring.Common.{
  ℕ, zero, suc, ◌+◌, ◌-◌, ◌*◌, ◌/◌, ◌≤◌, ◌≡◌, ◌≢◌, refl, sym, ap, ◌∙◌, false, List, [], ◌∷◌, ◌++◌,
  arith, bit_and, dec32, ◌==◌, if◌then◌else◌, inl, inr, Bool-cases,
}
use mathlib.Core.Path.{subst}
use native.Mathlib.Decide.{ℕ_discrete}
use os_spring.Kyouko3.Register.{offset, interrupt_status}
use os_spring.Kyouko3.State.{Kyouko3, Bus, k_read_register}
use os_spring.Kyouko3.Dma.{dma_intr, wait_empty, free_buffers, late_unbind_dma, BindAnswers}
use os_spring.Kyouko3.Ring.{reports}
use os_spring.Kyouko3.Freeing.{Allocated, freed, allocated, free_buffers-freed}

-- how many of the interrupts report a transfer of the card, whose registers stand at `control`
unfoldable pub reported : (control : ℕ) → List Bus → ℕ
reported control [] = 0
reported control (bus ∷ more) =
    let rest = reported control more in
    if bit_and (bus (control + 4 * (offset interrupt_status / 4))) 0x02 == 0 then rest else suc rest

-- What an interrupt does to the count and leaves of the rest.
record Counted (bus : Bus) (s t : Kyouko3) : Type 0 where
  count : t.queued_count ≡ (if reports bus s == 0 then s.queued_count else dec32 s.queued_count)
  control : t.k_control_base ≡ s.k_control_base
  buffers : t.dma_buffers ≡ s.dma_buffers
  none_freed : freed t.effects ≡ freed s.effects

dma_intr-Counted : (bus : Bus) (s : Kyouko3) → Counted bus s (dma_intr bus s).0
unfolding dma_intr freed
dma_intr-Counted bus s = ground arith

-- The wait leaves the queue shorter by the reported transfers, down to nothing.
record Waited (wait : List Bus) (s t : Kyouko3) : Type 0 where
  count : t.queued_count ≡ s.queued_count - reported s.k_control_base wait
  buffers : t.dma_buffers ≡ s.dma_buffers
  none_freed : freed t.effects ≡ freed s.effects

wait_empty-idle :
    (bus : Bus) (more : List Bus) (s : Kyouko3) → s.queued_count ≡ 0 → wait_empty (bus ∷ more) s ≡ s
unfolding wait_empty
wait_empty-idle bus more s e = ground arith

wait_empty-busy :
    (bus : Bus) (more : List Bus) (s : Kyouko3)
    → s.queued_count ≢ 0
    → wait_empty (bus ∷ more) s ≡ wait_empty more (dma_intr bus s).0
unfolding wait_empty
wait_empty-busy bus more s ne = ground arith

-- an interrupt's part in the count
reported-step :
    (bus : Bus) (more : List Bus) (s t : Kyouko3)
    → Counted bus s t
    → s.queued_count ≢ 0
    → s.queued_count ≤ 8
    → (t.queued_count ≤ 8)
      × (t.queued_count - reported t.k_control_base more
          ≡ s.queued_count - reported s.k_control_base (bus ∷ more))
unfolding reported k_read_register
reported-step bus more s t c ne le = rw c.control (ground (arith, c.count))

wait_empty-Waited :
    (wait : List Bus) (s : Kyouko3) → s.queued_count ≤ 8 → Waited wait s (wait_empty wait s)
unfolding wait_empty reported
wait_empty-Waited [] s le = record { count = omega arith; buffers = refl; none_freed = refl }
wait_empty-Waited (bus ∷ more) s le = elim (ℕ_discrete s.queued_count 0) [
  | yes e ↦
      subst (Waited (bus ∷ more) s) (sym (wait_empty-idle bus more s e))
        (record { count = omega arith; buffers = refl; none_freed = refl })
  | no ne ↦
      let t = (dma_intr bus s).0 in
      let c = dma_intr-Counted bus s in
      let (small, same) = reported-step bus more s t c ne le in
      let w = wait_empty-Waited more t small in
      subst (Waited (bus ∷ more) s) (sym (wait_empty-busy bus more s ne)) (record {
        count = w.count ∙ same;
        buffers = w.buffers ∙ c.buffers;
        none_freed = w.none_freed ∙ c.none_freed;
      })
]

-- the state in which `late_unbind_dma` begins to free
abbrev waited : List Bus → Kyouko3 → Kyouko3
waited wait s = if s.queued_count == 0 then s else wait_empty wait s

waited-Waited : (wait : List Bus) (s : Kyouko3) → s.queued_count ≤ 8 → Waited wait s (waited wait s)
waited-Waited wait s le = elim (Bool-cases (s.queued_count == 0)) [
  | inl e ↦ simp e (record { count = ground arith; buffers = refl; none_freed = refl })
  | inr e ↦ simp e (wait_empty-Waited wait s le)
]

same_slots :
    (answers : BindAnswers) (s t : Kyouko3)
    → t.dma_buffers ≡ s.dma_buffers
    → Allocated answers s
    → Allocated answers t
same_slots answers s t e each = rw e each

free_buffers-queued_count :
    (rounds i : ℕ) (s : Kyouko3) → (free_buffers rounds i s).queued_count ≡ s.queued_count
unfolding free_buffers
free_buffers-queued_count zero i s = refl
free_buffers-queued_count (suc rounds) i s = free_buffers-queued_count rounds (i + 1) _

-- With up to eight buffers queued, `late_unbind_dma` leaves the queue shorter by the transfers that
-- are reported before a signal ends its wait, and then gives back all eight allocations, empty queue or
-- not: with as many reports as buffers queued the card is done with them, with fewer it is not.
pub late_unbind_dma-frees :
    (answers : BindAnswers) (wait : List Bus) (s : Kyouko3)
    → Allocated answers s
    → s.queued_count ≤ 8
    → let t = late_unbind_dma wait s in
      (t.queued_count ≡ s.queued_count - reported s.k_control_base wait)
      × (t.dma_mapped ≡ false)
      × (freed t.effects ≡ allocated answers 8 ++ freed s.effects)
unfolding late_unbind_dma freed
late_unbind_dma-frees answers wait s each le =
    let t = waited wait s in
    let w = waited-Waited wait s le in
    (
      free_buffers-queued_count 8 0 t ∙ w.count,
      refl,
      free_buffers-freed answers t (same_slots answers s t w.buffers each)
          ∙ ap (λ (l : List (ℕ × ℕ)). allocated answers 8 ++ l) w.none_freed,
    )
