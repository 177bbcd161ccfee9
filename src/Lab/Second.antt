-- ===== src/Lab/Second.antt =====
-- The second lab's driver and program (mylab/lab2/mymod.c and user.c), which only map the card, and the
-- first lab's (mylab/lab1/mymod.c and user.c), which only open and close the device.
use os_spring.Common.{ℕ, ◌+◌, ◌*◌, ◌/◌, List, ◌∷◌, u32}
use os_spring.Kyouko3.State.{
  Bus, Effect, ioremap, iounmap, pci_set_master, pci_enable_device, pci_disable_device,
  io_remap_pfn_range, pci_register_driver, pci_unregister_driver, cdev_add, cdev_del,
}
use os_spring.Lab.Driver.{device_ram, reg_offset}

-- `struct kyuoko3`, with the driver's effects, newest first.
pub record Second : Type 0 where
  pub k_control_base : ℕ
  pub k_ram_card_base : ℕ
  pub kv_control_base : ℕ
  pub kv_ram_card_base : ℕ
  pub effects : List Effect

abbrev second_effect : Effect → Second → Second
second_effect e s = record s { effects = e ∷ s.effects }

unfoldable second_probe : (control ram : ℕ) → Second → Second × ℕ
second_probe control ram s =
    let s = record s { k_control_base = u32 control; k_ram_card_base = u32 ram } in
    (second_effect pci_set_master (second_effect pci_enable_device s), 0)

unfoldable second_remove : Second → Second
second_remove s = second_effect pci_disable_device s

unfoldable second_read_reg : Bus → (reg : ℕ) → Second → ℕ
second_read_reg bus reg s = bus (s.kv_control_base + 4 * (reg / 4))

-- `control` and `frame` are the addresses that `ioremap` answers.
unfoldable second_open : (control frame : ℕ) → Bus → Second → Second × ℕ
unfolding second_read_reg
second_open control frame bus s =
    let s = second_effect (ioremap s.k_control_base 65536) s in
    let s = record s { kv_control_base = control } in
    let ram_size : ℕ = u32 (second_read_reg bus (reg_offset device_ram) s * (1024 * 1024)) in
    let s = second_effect (ioremap s.k_ram_card_base ram_size) s in
    (record s { kv_ram_card_base = frame }, 0)

unfoldable second_release : Second → Second × ℕ
second_release s =
    let s = second_effect (iounmap s.kv_control_base) s in
    (second_effect (iounmap s.kv_ram_card_base) s, 0)

-- Every offset maps the registers.
unfoldable second_mmap : (vm_pgoff status : ℕ) → Second → Second × ℕ
second_mmap vm_pgoff status s =
    (second_effect (io_remap_pfn_range (s.k_control_base / 4096)) s, status)

-- What `pci_register_driver` answers is not looked at.
unfoldable second_init : Second → Second × ℕ
second_init s = (second_effect pci_register_driver (second_effect (cdev_add 500 127) s), 0)

unfoldable second_exit : Second → Second
second_exit s = second_effect cdev_del (second_effect pci_unregister_driver s)

-- A program reads a register where the card's control region is mapped for it.
unfoldable second_user_read : Bus → (base reg : ℕ) → ℕ
second_user_read bus base reg = bus (base + 4 * (reg / 4))

-- The program, for the address and the status of its mapping, with the size of the memory that it
-- prints.
unfoldable second_main : (control frame : ℕ) → Bus → (base status : ℕ) → Second → Second × ℕ
unfolding second_open second_mmap second_release second_user_read
second_main control frame bus base status s =
    let s = (second_open control frame bus s).0 in
    let s = (second_mmap 0 status s).0 in
    let result = second_user_read bus base (reg_offset device_ram) in ((second_release s).0, result)

-- The state of the first lab's driver is its effects.
unfoldable first_open : List Effect → List Effect × ℕ
first_open s = (s, 0)

unfoldable first_release : List Effect → List Effect × ℕ
first_release s = (s, 0)

unfoldable first_init : List Effect → List Effect × ℕ
first_init s = (cdev_add 500 127 ∷ s, 0)

unfoldable first_exit : List Effect → List Effect
first_exit s = cdev_del ∷ s

unfoldable first_main : List Effect → List Effect
unfolding first_open first_release
first_main s = (first_release (first_open s).0).0
