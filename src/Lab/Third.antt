-- ===== src/Lab/Third.antt =====
-- The third lab's driver (mylab/lab3/mymod.c): the FIFO and the graphics mode, and no DMA yet. The
-- registers have the offsets of mylab/5lab/mymod.h.
use os_spring.Common.{
  ℕ, ◌+◌, ◌*◌, ◌/◌, ◌%◌, ◌^◌, Bool, true, false, Option, none, some, List, [], ◌∷◌, ◌==◌, ltb, u32,
  inc32, if◌then◌else◌, set, length,
}
use mathlib.Core.Option
use os_spring.Kyouko3.State.{
  FifoEntry, Bus, Effect, store_register, store_fifo, msleep, ioremap, iounmap, pci_set_master,
  pci_enable_device, pci_disable_device, pci_free_consistent, io_remap_pfn_range,
  pci_register_driver, pci_unregister_driver, cdev_add, cdev_del,
}
use os_spring.Lab.Driver.{
  LabFifo, LabRegister, reg_offset, device_ram, fifostart, fifoend, fifohead, fifotail,
  framecolumns, framerows, framerowpitch, framepixelformat, framestartaddress, encoderwidth,
  encoderheight, encoderoffsetx, encoderoffsety, encoderframe, configacceleration, configmodeset,
}
use os_spring.Lab.Calls.{LabOpen, LabIoctl, queue, flush, set_vmode, bind, ubind, other}

-- `struct kyouko3`, with the driver's effects, newest first.
pub record Third : Type 0 where
  pub k_control_base : ℕ
  pub k_ram_card_base : ℕ
  pub kv_control_base : ℕ
  pub kv_ram_card_base : ℕ
  pub fifo : LabFifo
  pub graphics_on : Bool
  pub dma_mapped : Bool
  pub effects : List Effect

abbrev pub third_effect : Effect → Third → Third
third_effect e s = record s { effects = e ∷ s.effects }

unfoldable pub third_read_reg : Bus → LabRegister → Third → ℕ
third_read_reg bus reg s = bus (s.kv_control_base + 4 * (reg_offset reg / 4))

abbrev pub third_write_reg : LabRegister → ℕ → Third → Third
third_write_reg reg value s =
    third_effect (store_register (s.kv_control_base + 4 * (reg_offset reg / 4)) value) s

-- Both resource addresses are stored as `u32`; a failure of `pci_enable_device` is only logged.
unfoldable pub third_probe : (control ram : ℕ) → Third → Third × ℕ
third_probe control ram s =
    let s = record s { k_control_base = u32 control; k_ram_card_base = u32 ram } in
    (third_effect pci_set_master (third_effect pci_enable_device s), 0)

unfoldable pub third_remove : Third → Third
third_remove s = third_effect pci_disable_device s

unfoldable pub third_open : LabOpen → Bus → Third → Third × ℕ
third_open answers bus s =
    let s = third_effect (ioremap s.k_control_base 65536) s in
    let s = record s { kv_control_base = answers.control_base } in
    let ram_size : ℕ = u32 (third_read_reg bus device_ram s * (1024 * 1024)) in
    let s = third_effect (ioremap s.k_ram_card_base ram_size) s in
    let s = record s { kv_ram_card_base = answers.ram_card_base } in
    let s = third_effect (Effect.pci_alloc_consistent 8192) s in
    let s = third_write_reg fifostart (u32 answers.fifo_p_base) s in
    let s = third_write_reg fifoend (u32 (answers.fifo_p_base + 8192)) s in
    (
      record s {
        fifo = record {
          p_base = answers.fifo_p_base;
          k_base = answers.fifo_k_base;
          entries = answers.fifo_memory;
          head = 0;
          tail = 0;
        };
        graphics_on = false;
        dma_mapped = false;
      },
      0,
    )

-- `none`: the card's answers ran out and the loop is still going.
unfoldable pub third_flush_loop : List Bus → Third → Option Third
third_flush_loop [] s = if s.fifo.tail == s.fifo.head then some s else none
third_flush_loop (bus ∷ more) s =
    let rest =
      third_flush_loop more
        (record s { fifo = record s.fifo { tail = third_read_reg bus fifotail s } }) in
    if s.fifo.tail == s.fifo.head then some s else rest

unfoldable pub third_fifo_flush : List Bus → Third → Option Third
unfolding third_flush_loop
third_fifo_flush turns s = third_flush_loop turns (third_write_reg fifohead s.fifo.head s)

unfoldable pub third_off_graphics_mode : List Bus → Third → Option Third
unfolding third_fifo_flush
third_off_graphics_mode turns s =
    Option.map
      (λ (s : Third).
        let s = third_write_reg configacceleration 0x80000000 s in
        let s = third_write_reg configmodeset 0 s in
        record (third_effect (msleep 10) s) { graphics_on = false })
      (third_fifo_flush turns s)

unfoldable pub third_release : List Bus → Third → Option (Third × ℕ)
unfolding third_off_graphics_mode
third_release turns s =
    Option.map
      (λ (s : Third).
        let s = third_effect (pci_free_consistent 8192 s.fifo.k_base s.fifo.p_base) s in
        let s = third_effect (iounmap s.kv_control_base) s in
        (third_effect (iounmap s.kv_ram_card_base) s, 0))
      (third_off_graphics_mode turns s)

-- The page offset is shifted as an `unsigned long`; `status` is what `io_remap_pfn_range` answers.
unfoldable pub third_mmap : (vm_pgoff status : ℕ) → Third → Third × ℕ
third_mmap vm_pgoff status s =
    let offset : ℕ = (vm_pgoff * 4096) % 2 ^ 64 in
    if offset == 0
    then (third_effect (io_remap_pfn_range (s.k_control_base / 4096)) s, status)
    else if offset == 0x80000000
    then (third_effect (io_remap_pfn_range (s.k_ram_card_base / 4096)) s, status)
    else (s, 1)

-- `none` is a store behind the FIFO's memory.
unfoldable pub third_fifo_write : ℕ → ℕ → Third → Option Third
third_fifo_write reg value s =
    let f = s.fifo in
    let moved : ℕ = inc32 f.head in
    if ltb f.head (length f.entries)
    then some (record s {
      fifo = record f {
        entries = set f.entries f.head (record { command = reg; value = value });
        head = if ltb 1024 moved then 0 else moved;
      };
      effects = store_fifo reg value ∷ s.effects;
    })
    else none

unfoldable pub third_fifo_queue : (ret : ℕ) → FifoEntry → Third → Option (Third × ℕ)
unfolding third_fifo_write
third_fifo_queue ret entry s =
    Option.map (λ (s : Third). (s, ret)) (third_fifo_write entry.command entry.value s)

-- The registers that `on_GraphicsMode` sets, up to `msleep(10)`.
unfoldable pub third_set_mode : Third → Third
third_set_mode s =
    let s = third_write_reg framecolumns 1024 s in
    let s = third_write_reg framerows 768 s in
    let s = third_write_reg framerowpitch (1024 * 4) s in
    let s = third_write_reg framepixelformat 0xf888 s in
    let s = third_write_reg framestartaddress 0 s in
    let s = third_write_reg configacceleration 0x40000000 s in
    let s = third_write_reg encoderwidth 1024 s in
    let s = third_write_reg encoderheight 768 s in
    let s = third_write_reg encoderoffsetx 0 s in
    let s = third_write_reg encoderoffsety 0 s in
    let s = third_write_reg encoderframe 0 s in
    let s = third_write_reg configmodeset 0 s in third_effect (msleep 10) s

-- its six commands: the screen is cleared to black
abbrev black_commands : List FifoEntry
black_commands =
    record { command = 0x5108; value = 0 }
    ∷ record { command = 0x5104; value = 0 }
    ∷ record { command = 0x5100; value = 0 }
    ∷ record { command = 0x510C; value = 0 }
    ∷ record { command = 0x3008; value = 0x03 }
    ∷ record { command = 0x3FFC; value = 0x0 }
    ∷ []

-- calls of `FIFO_WRITE` one after another
unfoldable pub third_fifo_writes : List FifoEntry → Third → Option Third
third_fifo_writes [] s = some s
third_fifo_writes (e ∷ es) s = elim (third_fifo_write e.command e.value s) [
  | none ↦ none
  | some t ↦ third_fifo_writes es t
]

unfoldable third_on_graphics_mode : List Bus → Third → Option Third
unfolding third_set_mode third_fifo_writes third_fifo_flush
third_on_graphics_mode turns s = elim (third_fifo_writes black_commands (third_set_mode s)) [
  | none ↦ none
  | some t ↦ Option.map (λ (t : Third). record t { graphics_on = true }) (third_fifo_flush turns t)
]

unfoldable pub third_fifo_vmode : ℕ → List Bus → Third → Option Third
unfolding third_off_graphics_mode third_on_graphics_mode
third_fifo_vmode mode turns s =
    if mode == 0 then third_off_graphics_mode turns s else third_on_graphics_mode turns s

-- The DMA commands have numbers, but go to the `default` branch.
unfoldable pub third_ioctl : LabIoctl → Third → Option (Third × ℕ)
unfolding third_fifo_queue third_fifo_flush third_fifo_vmode
third_ioctl (queue ret entry) s = third_fifo_queue ret entry s
third_ioctl (flush turns) s = Option.map (λ (s : Third). (s, 0)) (third_fifo_flush turns s)
third_ioctl (set_vmode mode turns) s =
    Option.map (λ (s : Third). (s, 0)) (third_fifo_vmode (u32 mode) turns s)
third_ioctl (bind answers arg) s = some (s, 0)
third_ioctl ubind s = some (s, 0)
third_ioctl other s = some (s, 0)

-- What `pci_register_driver` answers is not looked at.
unfoldable third_init : Third → Third × ℕ
third_init s = (third_effect pci_register_driver (third_effect (cdev_add 500 127) s), 0)

unfoldable pub third_exit : Third → Third
third_exit s = third_effect cdev_del (third_effect pci_unregister_driver s)
