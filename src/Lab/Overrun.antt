-- ===== src/Lab/Overrun.antt =====
-- How many commands the lab driver's FIFO takes, and what of the DMA memory it gives back
-- (mylab/5lab/mymod.c, lines 78 to 87, 309 to 375).
use os_spring.Common.{
  ℕ, zero, suc, ◌+◌, ◌*◌, ◌<◌, ◌≤◌, ◌≡◌, ap, ◌∙◌, Bool, Option, none, some, List, [], ◌∷◌, arith,
  leb, u32, length, set, length-set,
}
use native.Mathlib.Decide.{ℕ_discrete}
use os_spring.Kyouko3.State.{
  FifoEntry, Effect, store_fifo, pci_free_consistent, pci_alloc_consistent,
}
use os_spring.Kyouko3.Queue.{is_some}
use os_spring.Lab.Driver.{Lab, record_effect, LabBuffer, lab_fifo_write, fifo_writes}
use os_spring.Lab.Calls.{
  LabBind, bound_size, unbound_size, lab_bind_buffer, lab_bind_buffers, lab_bind_dma,
  free_dma_buffs, ubind_dma,
}

-- the state after a write below the end
abbrev pub stored : ℕ → ℕ → Lab → Lab
stored reg value s = record s {
  fifo = record s.fifo {
    entries = set s.fifo.entries s.fifo.head (record { command = reg; value = value });
    head = s.fifo.head + 1;
  };
  effects = store_fifo reg value ∷ s.effects;
}

-- A write below the end moves the head on; it is never set back to 0.
pub lab_fifo_write-some :
    (reg value : ℕ) (s : Lab)
    → length s.fifo.entries ≡ 1024
    → s.fifo.head < 1024
    → lab_fifo_write reg value s ≡ some (stored reg value s)
unfolding lab_fifo_write
lab_fifo_write-some reg value s size lt = ground arith

lab_fifo_write-none :
    (reg value : ℕ) (s : Lab)
    → length s.fifo.entries ≡ 1024
    → s.fifo.head ≡ 1024
    → lab_fifo_write reg value s ≡ none
unfolding lab_fifo_write
lab_fifo_write-none reg value s size e = ground arith

-- With memory for 1024 entries and the head at most one past the last, a run of commands stays inside
-- that memory exactly if it ends at most one past the last entry: `FIFO_WRITE` never sets the head
-- back in time.
pub fifo_writes_fit :
    (es : List FifoEntry) (s : Lab)
    → length s.fifo.entries ≡ 1024
    → s.fifo.head ≤ 1024
    → is_some (fifo_writes es s) ≡ leb (s.fifo.head + length es) 1024
unfolding fifo_writes
fifo_writes_fit [] s size in_range = ground arith
fifo_writes_fit (e ∷ es) s size in_range = elim (ℕ_discrete s.fifo.head 1024) [
  | yes full ↦ ap after (lab_fifo_write-none e.command e.value s size full) ∙ ground arith
  | no room ↦
      let t = stored e.command e.value s in
      let kept = length-set s.fifo.entries s.fifo.head e ∙ size in
      let ih = fifo_writes_fit es t kept (omega arith) in
      ap after (lab_fifo_write-some e.command e.value s size (omega arith)) ∙ ih ∙ ground arith
]
  where
    after : Option Lab → Bool
    after o = is_some (elim o as (λ _. Option Lab) [ none ↦ none | some t ↦ fifo_writes es t ])

-- the bytes that the driver has asked for, and those that it has given back
unfoldable pub allocated_bytes : List Effect → ℕ
allocated_bytes [] = 0
allocated_bytes (pci_alloc_consistent n ∷ es) = n + allocated_bytes es
allocated_bytes (_ ∷ es) = allocated_bytes es

unfoldable pub freed_bytes : List Effect → ℕ
freed_bytes [] = 0
freed_bytes (pci_free_consistent n k p ∷ es) = n + freed_bytes es
freed_bytes (_ ∷ es) = freed_bytes es

free_dma_buffs-bytes :
    (bs : List LabBuffer) (s : Lab)
    → (allocated_bytes (free_dma_buffs bs s).effects ≡ allocated_bytes s.effects)
      × (freed_bytes (free_dma_buffs bs s).effects
          ≡ freed_bytes s.effects + unbound_size * length bs)
unfolding free_dma_buffs allocated_bytes freed_bytes
free_dma_buffs-bytes [] s = ground arith
free_dma_buffs-bytes (b ∷ bs) s = ground (
  arith,
  free_dma_buffs-bytes bs (record_effect (pci_free_consistent unbound_size b.kv_base b.phy_base) s),
)

lab_bind_buffers-bytes :
    (answers : LabBind) (rounds i : ℕ) (s : Lab)
    → let t = lab_bind_buffers answers rounds i s in
      (allocated_bytes t.effects ≡ allocated_bytes s.effects + bound_size * rounds)
      × (freed_bytes t.effects ≡ freed_bytes s.effects)
      × (length t.dma_buffs ≡ length s.dma_buffs)
unfolding lab_bind_buffers lab_bind_buffer allocated_bytes freed_bytes
lab_bind_buffers-bytes answers zero i s = ground arith
lab_bind_buffers-bytes answers (suc rounds) i s = ground (
  arith,
  lab_bind_buffers-bytes answers rounds (i + 1) (lab_bind_buffer answers i s),
  length-set s.dma_buffs i (record {
    phy_base = (answers.pci_alloc_consistent i).1;
    kv_base = u32 (answers.pci_alloc_consistent i).0;
  }),
)

-- `bind_dma` and `ubind_dma` with the eight buffers: whether or not the interrupt line is granted,
-- the first asks for eight times the bytes that the second gives back.
pub ubind_dma_leaks :
    (answers : LabBind) (arg : ℕ) (s : Lab)
    → length s.dma_buffs ≡ 8
    → let t = ubind_dma (lab_bind_dma answers arg s) in
      (allocated_bytes t.effects ≡ allocated_bytes s.effects + 8126464)
      × (freed_bytes t.effects ≡ freed_bytes s.effects + 1015808)
unfolding ubind_dma lab_bind_dma allocated_bytes freed_bytes
ubind_dma_leaks answers arg s size =
    let b = lab_bind_buffers-bytes answers 8 0 s in
    ground (
      arith,
      b,
      free_dma_buffs-bytes (lab_bind_dma answers arg s).dma_buffs (lab_bind_dma answers arg s),
    )
