-- ===== src/Kyouko3/Ring/Signal.antt =====
-- What `start_dma` does when a signal ends its wait for room: `wait_event_interruptible` returns
-- with the queue still full, and the code goes on as if there were room
-- (Kyouko3_GrpahicsDriver/mymod.c, line 279).
use os_spring.Common.{ℕ, ◌+◌, ◌%◌, ◌≤◌, ◌≡◌, ◌≢◌, [], ◌∷◌, arith, u32, get_or-set_ne}
use os_spring.Kyouko3.State.{Kyouko3, buffer, dma_buff_size, no_buffer, DmaBuffer}
use os_spring.Kyouko3.Dma.{start_dma}
use os_spring.Kyouko3.Ring.{transfers}
use os_spring.Kyouko3.Ring.Invariant.{IsRing}

module _ (s : Kyouko3) (ring : IsRing s) (seven : s.queued_count ≡ 7)
    (behind : s.fill ≡ (s.drain + 7) % 8) (count : ℕ) (some_bytes : count ≢ 0)
    (fits : count ≤ dma_buff_size) where
  -- With seven buffers queued, a signal that ends the wait of the eighth submission leaves the
  -- queue full with both indices equal, which `start_dma` otherwise takes to mean an empty queue.
  full_after_signal :
      let t = (start_dma count [] [] s).0 in (t.fill ≡ t.drain) × (t.queued_count ≡ 8)
  unfolding start_dma
  full_after_signal = ground (arith, ring.drain_in)

  -- With seven buffers queued in order, a submission whose wait a signal ends returns the address of the
  -- oldest of them, the one that the card is working on.
  signal_returns_busy : (start_dma count [] [] s).1 ≡ (buffer s s.drain).u_base
  unfolding start_dma
  signal_returns_busy =
      let b : DmaBuffer = record (buffer s s.fill) { stored_count = count } in
      ground (arith, ring.drain_in, get_or-set_ne s.dma_buffers s.fill s.drain b no_buffer)

  -- On eight buffers of which seven are queued in order from `drain` on: if a signal ends the wait of a
  -- submission before any interrupt comes, and the program then submits again, each of the two with
  -- some bytes and no more than a buffer holds, and no interrupt comes in between, then the second call
  -- stores for the card the transfer of the buffer at `drain`, the oldest one queued, which the first
  -- call told the program to fill, with the second call's count, and takes nine buffers for queued.
  pub signal_overtakes :
      (more : ℕ)
      → more ≢ 0
      → more ≤ dma_buff_size
      → let t = (start_dma count [] [] s).0 in
        (transfers (start_dma more [] [] t).0.effects
          ≡ (u32 (buffer s s.drain).p_base, more) ∷ transfers s.effects)
        × ((start_dma count [] [] s).1 ≡ (buffer s s.drain).u_base)
        × ((start_dma more [] [] t).0.queued_count ≡ 9)
  unfolding start_dma transfers
  signal_overtakes more h k =
      let b : DmaBuffer = record (buffer s s.fill) { stored_count = count } in
      (
        ground (arith, ring.drain_in, get_or-set_ne s.dma_buffers s.fill s.drain b no_buffer),
        signal_returns_busy,
        ground (arith, ring.drain_in),
      )
