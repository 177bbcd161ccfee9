-- ===== src/Kyouko3/Ring/Callers.antt =====
-- Two threads in `start_dma` at once: the lock is given up before `fill` moves on
-- (Kyouko3_GrpahicsDriver/mymod.c, lines 266 to 271).
use mathlib.Core.Path.{subst}
use os_spring.Common.{ap₂, sym, ℕ, ◌+◌, ◌%◌, ◌≤◌, ◌≡◌, ◌≢◌, refl, ◌∙◌, List, ◌∷◌, arith, u32}
use os_spring.Kyouko3.State.{Kyouko3, Bus, DmaBuffer, buffer, dma_buff_size}
use os_spring.Kyouko3.Dma.{dma_intr, issuing, start_dma_locked, start_dma_issue}
use os_spring.Kyouko3.Ring.{Transfer, transfers, reports}
use os_spring.Kyouko3.Ring.Pending.{entry}
use os_spring.Kyouko3.Ring.Invariant.{IsRing, dma_intr-Retired}

-- The second thread gets to its unlock before the first one issues its transfer.
abbrev both_locked : (a b : ℕ) → Kyouko3 → Kyouko3
both_locked a b s = (start_dma_locked b (start_dma_locked a s).0).0

abbrev pub both_issued : (a b : ℕ) → Kyouko3 → Kyouko3
both_issued a b s = start_dma_issue b (start_dma_issue a (both_locked a b s))

-- Two calls in the empty branch.
record Collided (a b : ℕ) (s t : Kyouko3) : Type 0 where
  queued : t.queued_count ≡ 2
  drain : t.drain ≡ s.drain
  fill : t.fill ≡ (s.drain + 2) % 8
  buffers : t.dma_buffers ≡ s.dma_buffers
  control : t.k_control_base ≡ s.k_control_base
  given :
      transfers t.effects
      ≡ (u32 (buffer s s.drain).p_base, b)
        ∷ (u32 (buffer s s.drain).p_base, a)
        ∷ transfers s.effects

module _ (s : Kyouko3) (ring : IsRing s) (empty : s.fill ≡ s.drain) (idle : s.queued_count ≡ 0)
    (a b : ℕ) (some_a : a ≢ 0) (fits_a : a ≤ dma_buff_size) (some_b : b ≢ 0)
    (fits_b : b ≤ dma_buff_size) where
  first_locked : start_dma_locked a s ≡ (record s { queued_count = 1 }, issuing)
  unfolding start_dma_locked
  first_locked = ground arith

  both_locked_lem : both_locked a b s ≡ record s { queued_count = 2 }
  unfolding start_dma_locked
  both_locked_lem = ground arith

  issued-Collided :
      Collided a b s (start_dma_issue b (start_dma_issue a (record s { queued_count = 2 })))
  unfolding start_dma_issue transfers
  issued-Collided = record {
    queued = refl;
    drain = refl;
    fill = omega (arith, ring.drain_in, empty);
    buffers = refl;
    control = refl;
    given = refl;
  }

  both_issued-Collided : Collided a b s (both_issued a b s)
  both_issued-Collided =
      subst (λ (u : Kyouko3). Collided a b s (start_dma_issue b (start_dma_issue a u)))
        (sym both_locked_lem) issued-Collided

  -- On a device with an empty queue, where a second call of `start_dma` takes the lock after the first
  -- has given it up and before the first has moved `fill` on: both calls give the card the same buffer,
  -- each with its own count, and once the card has reported one of the two transfers the interrupt
  -- handler gives it the buffer behind, with the count that was stored there before: three transfers
  -- for two calls.
  pub callers_collide :
      (bus : Bus)
      → reports bus (both_issued a b s) ≢ 0
      → let t = both_issued a b s in
        let first = buffer s s.drain in
        let behind = buffer s ((s.drain + 1) % 8) in
        let given : List Transfer =
          (u32 first.p_base, b) ∷ (u32 first.p_base, a) ∷ transfers s.effects in
        ((start_dma_locked b (start_dma_locked a s).0).1 ≡ issuing)
        × (transfers t.effects ≡ given)
        × (transfers (dma_intr bus t).0.effects ≡ (u32 behind.p_base, behind.stored_count) ∷ given)
        × ((dma_intr bus t).0.queued_count ≡ 1)
  unfolding start_dma_locked
  callers_collide bus r =
      let c = both_issued-Collided in
      let retired = dma_intr-Retired bus (both_issued a b s) r in
      (
        ground arith,
        c.given,
        retired.goes_on (omega (arith, c.queued))
            ∙ ap₂ ◌∷◌
                (ap₂ (λ (bs : List DmaBuffer) (d : ℕ). entry bs ((d + 1) % 8)) c.buffers c.drain)
                c.given,
        retired.queued ∙ omega (arith, c.queued),
      )
