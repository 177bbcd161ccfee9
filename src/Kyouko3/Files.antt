-- ===== src/Kyouko3/Files.antt =====
-- The file operations, the PCI callbacks and the module's entry points
-- (Kyouko3_GrpahicsDriver/mymod.c, lines 348 to 518, and mymod.h, lines 16 to 26).
use os_spring.Common.{
  ℕ, not, ◌+◌, ◌-◌, ◌*◌, ◌/◌, ◌^◌, false, Option, none, some, List, ◌==◌, u32, if◌then◌else◌,
  get_elem?, ltb,
}
use mathlib.Core.Option
use os_spring.Kyouko3.Register.{offset, device_vram, fifo_start, fifo_end}
use os_spring.Kyouko3.State.{
  Kyouko3, Fifo, FifoEntry, DmaBuffer, Bus, perform, k_read_register, k_write_register,
  control_size, fifo_entries,
}
use os_spring.Kyouko3.State
use os_spring.Kyouko3.Dma
use os_spring.Kyouko3.Dma.{BindAnswers, late_unbind_dma, on_time_unbind_dma, page_size}
use os_spring.Kyouko3.Graphics
use os_spring.Kyouko3.Graphics.{Turn, graphics_on, graphics_off}

abbrev pub fifo_bytes : ℕ
fifo_bytes = 8192

-- What the kernel answers to `kyouko3_open`: the address of each mapping, those of the FIFO's memory
-- for the card and the kernel, and what that memory holds.
pub record OpenAnswers : Type 0 where
  pub control_base : ℕ
  pub ram_card_base : ℕ
  pub fifo_p_base : ℕ
  pub fifo_k_base : ℕ
  pub fifo_memory : List FifoEntry

unfoldable pub kyouko3_open : OpenAnswers → Bus → Kyouko3 → Kyouko3 × ℕ
kyouko3_open answers bus s =
    let s = perform (State.ioremap s.p_control_base control_size) s in
    let s = record s { k_control_base = answers.control_base } in
    let ram_size : ℕ = u32 (k_read_register bus (offset device_vram) s * (1024 * 1024)) in
    let s = perform (State.ioremap s.p_ram_card_base ram_size) s in
    let s = record s { k_ram_card_base = answers.ram_card_base } in
    let s = perform (State.pci_alloc_consistent fifo_bytes) s in
    let f = record s.fifo {
      p_base = answers.fifo_p_base;
      k_base = answers.fifo_k_base;
      entries = answers.fifo_memory;
    } in
    let s = record s { fifo = f } in
    let s = k_write_register fifo_start (u32 f.p_base) s in
    let s = k_write_register fifo_end (u32 (f.p_base + fifo_bytes)) s in
    (
      record s {
        fifo = record f { head = 0; tail_cache = 0 };
        graphics_on = false;
        dma_mapped = false;
      },
      0,
    )

-- The part of `kyouko3_release` behind the two conditional clean-ups.
unfoldable pub free_device : Kyouko3 → Kyouko3
free_device s =
    let s = perform (State.pci_free_consistent fifo_bytes s.fifo.k_base s.fifo.p_base) s in
    perform (State.iounmap s.k_ram_card_base) (perform (State.iounmap s.k_control_base) s)

unfoldable pub kyouko3_release : (wait : List Bus) → List Turn → Kyouko3 → Option (Kyouko3 × ℕ)
unfolding free_device
kyouko3_release wait turns s =
    let s = if s.dma_mapped then late_unbind_dma wait s else s in
    Option.map (λ (s : Kyouko3). (free_device s, 0))
      (if s.graphics_on then graphics_off turns s else some s)

-- A call of `ioctl` with what the kernel and the card answer on its way. `ret` and `out` are the
-- numbers of bytes that `copy_from_user` and `copy_to_user` do not copy; an `entry` or a
-- `byte_count` is what the driver's variable holds after the copy.
pub data Ioctl : Type 0 where
  fifo_queue : (ret : ℕ) → FifoEntry → Ioctl
  fifo_flush : List Turn → Ioctl
  vmode : (arg : ℕ) → List Turn → Ioctl
  bind_dma : BindAnswers → (arg out : ℕ) → Ioctl
  unbind_dma : (wait : List Bus) → Ioctl
  start_dma : (ret byte_count arg out : ℕ) → (gap wait : List Bus) → Ioctl
  other : Ioctl

-- `next_dma_buffer` of a call, given back to the user unless it is 0.
unfoldable pub give_buffer : (ret arg out : ℕ) → Kyouko3 × ℕ → Kyouko3 × ℕ
give_buffer ret arg out (s, next) =
    if next == 0 then (s, 1) else (perform (State.copy_to_user arg next) s, ret + out)

-- `none`: the call does not return within the given turns.
unfoldable pub kyouko3_ioctl : Ioctl → Kyouko3 → Option (Kyouko3 × ℕ)
unfolding give_buffer
kyouko3_ioctl (fifo_queue ret entry) s = some (Graphics.fifo_queue ret entry s)
kyouko3_ioctl (fifo_flush turns) s =
    Option.map (λ (s : Kyouko3). (s, 0)) (Graphics.fifo_flush turns s)
kyouko3_ioctl (vmode arg turns) s =
    Option.map (λ (s : Kyouko3). (s, 0))
      (if u32 arg == 0 then graphics_off turns s else graphics_on turns s)
kyouko3_ioctl (bind_dma answers arg out) s = some (give_buffer 0 arg out (Dma.bind_dma answers s))
kyouko3_ioctl (unbind_dma wait) s = some (on_time_unbind_dma wait s)
kyouko3_ioctl (start_dma ret byte_count arg out gap wait) s =
    some (give_buffer ret arg out (Dma.start_dma byte_count gap wait s))
kyouko3_ioctl other s = some (s, 0)

-- `kyouko3_mmap` for a page offset, with the status that `io_remap_pfn_range` answers. The page
-- offset becomes an `int`; `none` is an access outside of `dma_buffers`.
unfoldable pub mapped_page : ℕ → Kyouko3 → Option ℕ
mapped_page vm_pgoff s =
    let bits : ℕ = u32 (vm_pgoff * page_size) in
    let index : ℕ = bits / page_size - 1 in
    if bits == 0
    then some (s.p_control_base / page_size)
    else if bits == 0x80000000
    then some (s.p_ram_card_base / page_size)
    else if ltb bits (2 ^ 31)
    then Option.map (λ (b : DmaBuffer). b.p_base / page_size) (get_elem? s.dma_buffers index)
    else none

unfoldable pub kyouko3_mmap : (uid vm_pgoff status : ℕ) → Kyouko3 → Option (Kyouko3 × ℕ)
unfolding mapped_page
kyouko3_mmap uid vm_pgoff status s =
    if not (uid == 0)
    then some (s, 0)
    else Option.map (λ (pfn : ℕ). (perform (State.io_remap_pfn_range pfn) s, status))
        (mapped_page vm_pgoff s)

-- `kyouko3_probe`, for the addresses of the card's resources and the status of
-- `pci_enable_device`. The handle `pci_dev` is left out of the state.
unfoldable pub kyouko3_probe : (control ram status : ℕ) → Kyouko3 → Kyouko3 × ℕ
kyouko3_probe control ram status s =
    let s = record s { p_control_base = control; p_ram_card_base = ram } in
    (perform State.pci_set_master (perform State.pci_enable_device s), status)

unfoldable pub kyouko3_remove : Kyouko3 → Kyouko3
kyouko3_remove s = perform State.pci_disable_device s

abbrev pub kyouko3_major : ℕ
kyouko3_major = 500

abbrev pub kyouko3_minor : ℕ
kyouko3_minor = 127

unfoldable pub kyouko3_init : (status : ℕ) → Kyouko3 → Kyouko3 × ℕ
kyouko3_init status s = (
  perform State.pci_register_driver (perform (State.cdev_add kyouko3_major kyouko3_minor) s),
  status,
)

unfoldable pub kyouko3_exit : Kyouko3 → Kyouko3
kyouko3_exit s = perform State.cdev_del (perform State.pci_unregister_driver s)
