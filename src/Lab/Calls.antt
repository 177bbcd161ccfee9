-- ===== src/Lab/Calls.antt =====
-- The file operations and the PCI callbacks of the lab driver (mylab/5lab/mymod.c, lines 89 to 147,
-- 177 to 227, 296 to 436 and 450 to 470).
use os_spring.Common.{
  ℕ, zero, suc, ◌+◌, ◌*◌, ◌/◌, false, Option, some, List, [], ◌∷◌, ◌==◌, u32, if◌then◌else◌, set,
}
use mathlib.Core.Option
use os_spring.Kyouko3.State.{FifoEntry, Bus, Effect}
use os_spring.Lab.Driver.{
  Lab, LabBuffer, device_ram, fifostart, fifoend, interrupt_set, record_effect, k_read_reg,
  k_write_reg, lab_fifo_write, lab_fifo_flush, off_graphics_mode, fifo_vmode,
}

-- `kyouko3_probe` for the addresses of the card's resources; both are stored as `u32`.
unfoldable pub lab_probe : (control ram : ℕ) → Lab → Lab × ℕ
lab_probe control ram s =
    let s = record s { k_control_base = u32 control; k_ram_card_base = u32 ram } in
    (record_effect Effect.pci_set_master (record_effect Effect.pci_enable_device s), 0)

unfoldable pub lab_remove : Lab → Lab
lab_remove s = record_effect Effect.pci_disable_device s

-- What the kernel answers to `kyouko3fops_open`: two mappings, the FIFO's addresses for the card
-- and the kernel, and what its memory holds.
pub record LabOpen : Type 0 where
  pub control_base : ℕ
  pub ram_card_base : ℕ
  pub fifo_p_base : ℕ
  pub fifo_k_base : ℕ
  pub fifo_memory : List FifoEntry

unfoldable pub kyouko3fops_open : LabOpen → Bus → Lab → Lab × ℕ
kyouko3fops_open answers bus s =
    let s = record_effect (Effect.ioremap s.k_control_base 65536) s in
    let s = record s { kv_control_base = answers.control_base } in
    let ram_size : ℕ = u32 (k_read_reg bus device_ram s * (1024 * 1024)) in
    let s = record_effect (Effect.ioremap s.k_ram_card_base ram_size) s in
    let s = record s { kv_ram_card_base = answers.ram_card_base } in
    let s = record_effect (Effect.pci_alloc_consistent 8192) s in
    let s = k_write_reg fifostart (u32 answers.fifo_p_base) s in
    let s = k_write_reg fifoend (u32 (answers.fifo_p_base + 8192)) s in
    (
      record s {
        fifo = record {
          p_base = answers.fifo_p_base;
          k_base = answers.fifo_k_base;
          entries = answers.fifo_memory;
          head = 0;
          tail = 0;
        };
        graphics_on = false;
        dma_mapped = false;
      },
      0,
    )

unfoldable pub kyouko3fops_release : List Bus → Lab → Option (Lab × ℕ)
unfolding off_graphics_mode
kyouko3fops_release turns s =
    Option.map
      (λ (s : Lab).
        let s = record_effect (Effect.pci_free_consistent 8192 s.fifo.k_base s.fifo.p_base) s in
        let s = record_effect (Effect.iounmap s.kv_control_base) s in
        (record_effect (Effect.iounmap s.kv_ram_card_base) s, 0))
      (off_graphics_mode turns s)

-- `kyouko3fops_mmap` for a page offset, which becomes an `int`, and the status that
-- `io_remap_pfn_range` answers.
unfoldable pub kyouko3fops_mmap : (vm_pgoff status : ℕ) → Lab → Lab × ℕ
kyouko3fops_mmap vm_pgoff status s =
    let bits : ℕ = u32 (vm_pgoff * 4096) in
    if bits == 0
    then (record_effect (Effect.io_remap_pfn_range (s.k_control_base / 4096)) s, status)
    else if bits == 0x80000000
    then (record_effect (Effect.io_remap_pfn_range (s.k_ram_card_base / 4096)) s, status)
    else (s, 1)

-- `entry` is what the stack holds after `copy_from_user`, `ret` the number of bytes not copied.
unfoldable pub lab_fifo_queue : (ret : ℕ) → FifoEntry → Lab → Option (Lab × ℕ)
unfolding lab_fifo_write
lab_fifo_queue ret entry s =
    Option.map (λ (s : Lab). (s, ret)) (lab_fifo_write entry.command entry.value s)

-- the size that `bind_dma` asks for, and the one that `ubind_dma` gives back
abbrev pub bound_size : ℕ
bound_size = 8 * 124 * 1024

abbrev pub unbound_size : ℕ
unbound_size = 124 * 1024

-- What the kernel answers to `bind_dma`.
pub record LabBind : Type 0 where
  pub pci_alloc_consistent : ℕ → ℕ × ℕ
  pub request_irq : ℕ

unfoldable pub lab_bind_buffer : LabBind → ℕ → Lab → Lab
lab_bind_buffer answers i s =
    let (kv, phy) = answers.pci_alloc_consistent i in
    let s = record_effect (Effect.pci_alloc_consistent bound_size) (record s { fill = i }) in
    let s = record s {
      dma_buffs = set s.dma_buffs i (record { phy_base = phy; kv_base = u32 kv });
    } in
    record_effect (Effect.vm_mmap bound_size 0x1) s

unfoldable pub lab_bind_buffers : LabBind → (rounds i : ℕ) → Lab → Lab
unfolding lab_bind_buffer
lab_bind_buffers answers zero i s = s
lab_bind_buffers answers (suc rounds) i s =
    lab_bind_buffers answers rounds (i + 1) (lab_bind_buffer answers i s)

-- the first element, or what `dma_buffs` holds before it is set
abbrev pub first_buffer : List LabBuffer → LabBuffer
first_buffer [] = record { phy_base = 0; kv_base = 0 }
first_buffer (b ∷ bs) = b

-- `bind_dma`, up to its value, which `ioctl` drops. The copy reads from the address in `kv_base`.
unfoldable pub lab_bind_dma : LabBind → (arg : ℕ) → Lab → Lab
unfolding lab_bind_buffers
lab_bind_dma answers arg s =
    let s = lab_bind_buffers answers 8 0 s in
    let s = record_effect Effect.request_irq (record_effect Effect.pci_enable_device s) in
    let t = k_write_reg interrupt_set 0x02 s in
    if answers.request_irq == 0
    then record_effect (Effect.copy_to_user arg (first_buffer s.dma_buffs).kv_base) t
    else record_effect Effect.pci_disable_device s

unfoldable pub free_dma_buffs : List LabBuffer → Lab → Lab
free_dma_buffs [] s = s
free_dma_buffs (b ∷ bs) s =
    free_dma_buffs bs
      (record_effect (Effect.pci_free_consistent unbound_size b.kv_base b.phy_base) s)

unfoldable pub ubind_dma : Lab → Lab
unfolding free_dma_buffs
ubind_dma s = free_dma_buffs s.dma_buffs s

-- A call of `ioctl`; `start_dma` does nothing yet, like an unknown command.
pub data LabIoctl : Type 0 where
  queue : (ret : ℕ) → FifoEntry → LabIoctl
  flush : List Bus → LabIoctl
  set_vmode : (mode : ℕ) → List Bus → LabIoctl
  bind : LabBind → (arg : ℕ) → LabIoctl
  ubind other : LabIoctl

unfoldable pub kyouko3fops_ioctl : LabIoctl → Lab → Option (Lab × ℕ)
unfolding lab_fifo_queue lab_fifo_flush fifo_vmode lab_bind_dma ubind_dma
kyouko3fops_ioctl (queue ret entry) s = lab_fifo_queue ret entry s
kyouko3fops_ioctl (flush turns) s = Option.map (λ (s : Lab). (s, 0)) (lab_fifo_flush turns s)
kyouko3fops_ioctl (set_vmode mode turns) s =
    Option.map (λ (s : Lab). (s, 0)) (fifo_vmode (u32 mode) turns s)
kyouko3fops_ioctl (bind answers arg) s = some (lab_bind_dma answers arg s, 0)
kyouko3fops_ioctl ubind s = some (ubind_dma s, 0)
kyouko3fops_ioctl other s = some (s, 0)

unfoldable pub my_init_function : (status : ℕ) → Lab → Lab × ℕ
my_init_function status s =
    (record_effect Effect.pci_register_driver (record_effect (Effect.cdev_add 500 127) s), status)

unfoldable pub my_exit_function : Lab → Lab
my_exit_function s = record_effect Effect.cdev_del (record_effect Effect.pci_unregister_driver s)
