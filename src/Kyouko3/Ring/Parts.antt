-- ===== src/Kyouko3/Ring/Parts.antt =====
-- What the parts of the DMA code do to the fields that the queue depends on.
use os_spring.Common.{ℕ, ◌+◌, ◌%◌, ◌≡◌, ◌≢◌, ◌∷◌, arith, refl, u32, dec32}
use os_spring.Kyouko3.Register.{offset, buffer_a_config}
use os_spring.Kyouko3.State.{Kyouko3, SameQueue, fifo_write}
use os_spring.Kyouko3.Dma.{start_transfer, retire_buffer}
use os_spring.Kyouko3.Ring.{transfers}
use os_spring.Kyouko3.Ring.Pending.{entry}

pub start_transfer-SameQueue :
    (address count : ℕ) (s : Kyouko3) → SameQueue s (start_transfer address count s)
unfolding start_transfer
start_transfer-SameQueue address count s = record {
  buffers = refl;
  fill = refl;
  drain = refl;
  queued = refl;
  mapped = refl;
}

pub start_transfer-transfers :
    (address count : ℕ) (s : Kyouko3)
    → transfers (start_transfer address count s).effects
      ≡ (u32 address, count) ∷ transfers s.effects
unfolding start_transfer transfers
start_transfer-transfers address count s = refl

pub fifo_write-SameQueue : (reg value : ℕ) (s : Kyouko3) → SameQueue s (fifo_write reg value s)
unfolding fifo_write
fifo_write-SameQueue reg value s = record {
  buffers = refl;
  fill = refl;
  drain = refl;
  queued = refl;
  mapped = refl;
}

pub fifo_write-transfers :
    (reg value : ℕ) (s : Kyouko3)
    → reg ≢ offset buffer_a_config
    → transfers (fifo_write reg value s).effects ≡ transfers s.effects
unfolding fifo_write transfers
fifo_write-transfers reg value s h = ground arith

-- What a completed transfer does to the queue.
pub record Retired (s t : Kyouko3) : Type 0 where
  pub buffers : t.dma_buffers ≡ s.dma_buffers
  pub fill : t.fill ≡ s.fill
  pub drain : t.drain ≡ (s.drain + 1) % 8
  pub queued : t.queued_count ≡ dec32 s.queued_count
  pub mapped : t.dma_mapped ≡ s.dma_mapped
  pub idle : dec32 s.queued_count ≡ 0 → transfers t.effects ≡ transfers s.effects
  pub goes_on :
      dec32 s.queued_count ≢ 0
      → transfers t.effects ≡ entry s.dma_buffers ((s.drain + 1) % 8) ∷ transfers s.effects

pub retire_buffer-Retired : (s : Kyouko3) → Retired s (retire_buffer s)
unfolding retire_buffer transfers
retire_buffer-Retired s = ground arith
