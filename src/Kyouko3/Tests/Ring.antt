-- ===== src/Kyouko3/Tests/Ring.antt =====
-- Tests of the DMA queue: its theorems on a device at work.
use os_spring.Common.{◌≡◌, refl, List, [], ◌∷◌, arith, u32}
use os_spring.Kyouko3.Register.{offset, buffer_a_address, buffer_a_config}
use os_spring.Kyouko3.State.{Kyouko3, store_fifo, buffer, k_read_register}
use os_spring.Kyouko3.Dma.{issuing, dma_intr, start_dma, start_dma_locked, start_dma_issue}
use os_spring.Kyouko3.Ring.{Transfer, transfers, ready, System, enter}
use os_spring.Kyouko3.Ring.Invariant.{IsRing}
use os_spring.Kyouko3.Ring.Callers.{both_issued, callers_collide}
use os_spring.Kyouko3.Ring.Signal.{signal_overtakes}
use os_spring.Kyouko3.Tests.Samples.{slot, device, reporting}

-- The idle device, then a submission of 72 bytes, and its stores.
abbrev idle : System
idle = record { dev = device 6 0; thread = ready; submitted = []; completed = 0 }

abbrev entered : System
entered = enter 72 (start_dma_locked 72 idle.dev) idle

abbrev issued : System
issued = record entered { dev = start_dma_issue 72 entered.dev; thread = ready }

-- The device with seven buffers queued, the oldest of which the card is working on.
abbrev card_at_work : Kyouko3
card_at_work = record (device 5 7) {
  effects =
      store_fifo (offset buffer_a_config) 72
      ∷ store_fifo (offset buffer_a_address) (slot 6).p_base
      ∷ [];
}

seven-IsRing : IsRing card_at_work
seven-IsRing = record { size = refl; fill_in = omega arith; drain_in = omega arith }

signal_overtakes_example :
    let t = (start_dma 144 [] [] card_at_work).0 in
    (transfers (start_dma 216 [] [] t).0.effects
      ≡ (u32 (buffer card_at_work card_at_work.drain).p_base, 216) ∷ transfers card_at_work.effects)
    × ((start_dma 144 [] [] card_at_work).1 ≡ (buffer card_at_work card_at_work.drain).u_base)
    × ((start_dma 216 [] [] t).0.queued_count ≡ 9)
signal_overtakes_example =
    signal_overtakes card_at_work seven-IsRing refl refl 144 (omega arith) (omega arith) 216
      (omega arith) (omega arith)

callers_collide_example :
    let t = both_issued 72 144 idle.dev in
    let given : List Transfer =
      (u32 (buffer idle.dev 6).p_base, 144) ∷ (u32 (buffer idle.dev 6).p_base, 72) ∷ [] in
    ((start_dma_locked 144 (start_dma_locked 72 idle.dev).0).1 ≡ issuing)
    × (transfers t.effects ≡ given)
    × (transfers (dma_intr reporting t).0.effects ≡ (u32 (buffer idle.dev 7).p_base, 0) ∷ given)
    × ((dma_intr reporting t).0.queued_count ≡ 1)
unfolding transfers k_read_register
callers_collide_example =
    callers_collide idle.dev (record { size = refl; fill_in = omega arith; drain_in = omega arith })
      refl refl 72 144 (omega arith) (omega arith) (omega arith) (omega arith) reporting
      (omega arith)
