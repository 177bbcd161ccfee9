-- ===== src/Lab/Fourth.antt =====
-- The fourth lab's driver (mylab/lab4/mymod.c). An operation that is the third lab's has the third's
-- text.
use os_spring.Common.{ℕ, true, false, Option, none, some, List, [], ◌∷◌, ◌==◌, u32, if◌then◌else◌}
use mathlib.Core.Option
use os_spring.Kyouko3.State.{
  FifoEntry, Bus, msleep, iounmap, pci_free_consistent, pci_register_driver, cdev_add,
}
use os_spring.Lab.Driver.{LabRegister, configacceleration, configmodeset}
use os_spring.Lab.Calls.{LabOpen, LabIoctl, queue, flush, set_vmode, bind, ubind, other}
use os_spring.Lab.Third.{
  Third, third_effect, third_read_reg, third_write_reg, third_probe, third_remove, third_open,
  third_fifo_flush, third_mmap, third_fifo_write, third_fifo_queue, third_set_mode,
  third_fifo_writes, third_exit,
}

unfoldable fourth_read_reg : Bus → LabRegister → Third → ℕ
unfolding third_read_reg
fourth_read_reg = third_read_reg

abbrev fourth_write_reg : LabRegister → ℕ → Third → Third
fourth_write_reg = third_write_reg

unfoldable fourth_probe : (control ram : ℕ) → Third → Third × ℕ
unfolding third_probe
fourth_probe = third_probe

unfoldable fourth_remove : Third → Third
unfolding third_remove
fourth_remove = third_remove

unfoldable pub fourth_open : LabOpen → Bus → Third → Third × ℕ
unfolding third_open
fourth_open = third_open

unfoldable pub fourth_fifo_flush : List Bus → Third → Option Third
unfolding third_fifo_flush
fourth_fifo_flush = third_fifo_flush

-- The flush is a comment in the source: the mode goes off at once.
unfoldable pub fourth_off_graphics_mode : Third → Third
fourth_off_graphics_mode s =
    let s = fourth_write_reg configacceleration 0x80000000 s in
    let s = fourth_write_reg configmodeset 0 s in
    record (third_effect (msleep 10) s) { graphics_on = false }

unfoldable pub fourth_release : Third → Third × ℕ
unfolding fourth_off_graphics_mode
fourth_release s =
    let s = fourth_off_graphics_mode s in
    let s = third_effect (pci_free_consistent 8192 s.fifo.k_base s.fifo.p_base) s in
    let s = third_effect (iounmap s.kv_control_base) s in
    (third_effect (iounmap s.kv_ram_card_base) s, 0)

unfoldable pub fourth_mmap : (vm_pgoff status : ℕ) → Third → Third × ℕ
unfolding third_mmap
fourth_mmap = third_mmap

unfoldable fourth_fifo_write : ℕ → ℕ → Third → Option Third
unfolding third_fifo_write
fourth_fifo_write = third_fifo_write

unfoldable pub fourth_fifo_queue : (ret : ℕ) → FifoEntry → Third → Option (Third × ℕ)
unfolding third_fifo_queue
fourth_fifo_queue = third_fifo_queue

-- The screen is cleared to the blue of 0.2f.
abbrev blue_commands : List FifoEntry
blue_commands =
    record { command = 0x5108; value = 0 }
    ∷ record { command = 0x5104; value = 0 }
    ∷ record { command = 0x5100; value = 0x3e4ccccd }
    ∷ record { command = 0x510C; value = 0 }
    ∷ record { command = 0x3008; value = 0x03 }
    ∷ record { command = 0x3FFC; value = 0x0 }
    ∷ []

unfoldable pub fourth_on_graphics_mode : List Bus → Third → Option Third
unfolding third_set_mode third_fifo_writes fourth_fifo_flush
fourth_on_graphics_mode turns s = elim (third_fifo_writes blue_commands (third_set_mode s)) [
  | none ↦ none
  | some t ↦ Option.map (λ (t : Third). record t { graphics_on = true }) (fourth_fifo_flush turns t)
]

unfoldable pub fourth_fifo_vmode : ℕ → List Bus → Third → Option Third
unfolding fourth_off_graphics_mode fourth_on_graphics_mode
fourth_fifo_vmode mode turns s =
    if mode == 0 then some (fourth_off_graphics_mode s) else fourth_on_graphics_mode turns s

unfoldable pub fourth_ioctl : LabIoctl → Third → Option (Third × ℕ)
unfolding fourth_fifo_queue fourth_fifo_flush fourth_fifo_vmode
fourth_ioctl (queue ret entry) s = fourth_fifo_queue ret entry s
fourth_ioctl (flush turns) s = Option.map (λ (s : Third). (s, 0)) (fourth_fifo_flush turns s)
fourth_ioctl (set_vmode mode turns) s =
    Option.map (λ (s : Third). (s, 0)) (fourth_fifo_vmode (u32 mode) turns s)
fourth_ioctl (bind answers arg) s = some (s, 0)
fourth_ioctl ubind s = some (s, 0)
fourth_ioctl other s = some (s, 0)

-- Here the answer of `pci_register_driver` is returned.
unfoldable fourth_init : (status : ℕ) → Third → Third × ℕ
fourth_init status s =
    (third_effect pci_register_driver (third_effect (cdev_add 500 127) s), status)

unfoldable fourth_exit : Third → Third
unfolding third_exit
fourth_exit = third_exit
