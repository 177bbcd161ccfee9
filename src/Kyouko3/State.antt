-- ===== src/Kyouko3/State.antt =====
-- The driver's data, and its accesses to the card's registers
-- (Kyouko3_GrpahicsDriver/mymod.c, lines 48 to 150).
use os_spring.Common.{
  ℕ, ◌≡◌, ◌+◌, ◌*◌, ◌/◌, Bool, List, ◌∷◌, inc32, leb, set, get_or, if◌then◌else◌,
}
use os_spring.Kyouko3.Register.{Register, offset}

abbrev pub control_size : ℕ
control_size = 65536

abbrev pub fifo_entries : ℕ
fifo_entries = 1024

abbrev pub dma_num_buffs : ℕ
dma_num_buffs = 8

abbrev pub dma_buff_size : ℕ
dma_buff_size = 126976

pub record FifoEntry : Type 0 where
  pub command : ℕ
  pub value : ℕ

-- The queue in memory that the card reads too: its addresses for the card and for the kernel, and
-- the entries that the memory holds.
pub record Fifo : Type 0 where
  pub p_base : ℕ
  pub k_base : ℕ
  pub entries : List FifoEntry
  pub head : ℕ
  pub tail_cache : ℕ

pub record DmaBuffer : Type 0 where
  pub p_base : ℕ
  pub k_base : ℕ
  pub u_base : ℕ
  pub stored_count : ℕ

pub data WaitQueue : Type 0 where
  dma_not_full dma_empty : WaitQueue

-- What the driver does to the world around it: stores that the card sees, and calls of the kernel.
pub data Effect : Type 0 where
  store_register : ℕ → ℕ → Effect
  store_fifo : ℕ → ℕ → Effect
  wake_up_interruptible : WaitQueue → Effect
  pci_enable_msi pci_disable_msi request_irq free_irq pci_set_master : Effect
  pci_enable_device pci_disable_device pci_register_driver pci_unregister_driver : Effect
  pci_alloc_consistent : ℕ → Effect
  pci_free_consistent : ℕ → ℕ → ℕ → Effect
  vm_mmap : ℕ → ℕ → Effect
  vm_munmap : ℕ → ℕ → Effect
  ioremap : ℕ → ℕ → Effect
  iounmap : ℕ → Effect
  cdev_add : ℕ → ℕ → Effect
  cdev_del : Effect
  copy_to_user : ℕ → ℕ → Effect
  io_remap_pfn_range : ℕ → Effect
  msleep : ℕ → Effect

-- `struct kyouko3`, and the driver's effects, newest first. `queued_count` is an `int` pattern.
pub record Kyouko3 : Type 0 where
  pub p_control_base : ℕ
  pub p_ram_card_base : ℕ
  pub k_control_base : ℕ
  pub k_ram_card_base : ℕ
  pub fifo : Fifo
  pub graphics_on : Bool
  pub dma_mapped : Bool
  pub dma_buffers : List DmaBuffer
  pub fill : ℕ
  pub drain : ℕ
  pub queued_count : ℕ
  pub effects : List Effect

abbrev pub perform : Effect → Kyouko3 → Kyouko3
perform e s = record s { effects = e ∷ s.effects }

-- `kyouko3.dma_buffers[i]`; the invariants of `Kyouko3.Ring` keep `i` in bounds.
abbrev pub no_buffer : DmaBuffer
no_buffer = record { p_base = 0; k_base = 0; u_base = 0; stored_count = 0 }

abbrev pub buffer : Kyouko3 → ℕ → DmaBuffer
buffer s i = get_or s.dma_buffers i no_buffer

-- The fields of the DMA queue agree.
pub record SameQueue (s t : Kyouko3) : Type 0 where
  pub buffers : t.dma_buffers ≡ s.dma_buffers
  pub fill : t.fill ≡ s.fill
  pub drain : t.drain ≡ s.drain
  pub queued : t.queued_count ≡ s.queued_count
  pub mapped : t.dma_mapped ≡ s.dma_mapped

-- What the card answers to a load at an address of the bus.
abbrev pub Bus : Type 0
Bus = ℕ → ℕ

-- the address that `k_control_base + (reg >> 2)` points at, an `unsigned int` taking 4 bytes
abbrev pub register_address : Kyouko3 → ℕ → ℕ
register_address s reg = s.k_control_base + 4 * (reg / 4)

unfoldable pub k_read_register : Bus → ℕ → Kyouko3 → ℕ
k_read_register bus reg s = bus (register_address s reg)

abbrev pub k_write_register : Register → ℕ → Kyouko3 → Kyouko3
k_write_register reg value s = perform (store_register (register_address s (offset reg)) value) s

-- `FIFO_WRITE`: two stores into the entry at the head, which then moves on.
unfoldable pub fifo_write : ℕ → ℕ → Kyouko3 → Kyouko3
fifo_write reg value s =
    let f = s.fifo in
    let moved : ℕ = inc32 f.head in
    record s {
      fifo = record f {
        entries = set f.entries f.head (record { command = reg; value = value });
        head = if leb fifo_entries moved then 0 else moved;
      };
      effects = store_fifo reg value ∷ s.effects;
    }
