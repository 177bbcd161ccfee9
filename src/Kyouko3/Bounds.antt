-- ===== src/Kyouko3/Bounds.antt =====
-- No operation of the driver leaves its arrays: the FIFO's 1024 entries and the eight DMA buffers
-- (Kyouko3_GrpahicsDriver/mymod.c, lines 152 to 453).
pub mod Dma
pub mod Calls
use os_spring.Common.{ℕ, ◌+◌, ◌<◌, ◌≡◌, List, arith, length, length-set}
use os_spring.Kyouko3.State.{
  Kyouko3, Fifo, FifoEntry, DmaBuffer, fifo_entries, dma_num_buffs, fifo_write,
}

pub record InBounds (f : Fifo) (bs : List DmaBuffer) (fill drain : ℕ) : Type 0 where
  pub entries : length f.entries ≡ fifo_entries
  pub head_in : f.head < fifo_entries
  pub size : length bs ≡ dma_num_buffs
  pub fill_in : fill < dma_num_buffs
  pub drain_in : drain < dma_num_buffs

-- Every array of the driver has its size, and every index into one is in range.
abbrev pub IsDevice : Kyouko3 → Type 0
IsDevice s = InBounds s.fifo s.dma_buffers s.fill s.drain

-- `FIFO_WRITE` stores inside the queue and leaves the head inside it.
pub fifo_write-IsDevice :
    (reg value : ℕ) (s : Kyouko3) → IsDevice s → IsDevice (fifo_write reg value s)
unfolding fifo_write
fifo_write-IsDevice reg value s v =
    ground (arith, length-set s.fifo.entries s.fifo.head (record { command = reg; value = value }))
