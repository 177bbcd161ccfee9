-- ===== src/Lab/Driver.antt =====
-- The data, the register accesses and the FIFO of the lab driver (mylab/5lab/mymod.h, and
-- mylab/5lab/mymod.c, lines 28 to 112, 149 to 175 and 239 to 294).
use os_spring.Common.{
  ℕ, ◌+◌, ◌*◌, ◌/◌, Bool, true, false, Option, none, some, List, [], ◌∷◌, ◌==◌, ltb, inc32,
  if◌then◌else◌, set, length,
}
use mathlib.Core.Option
use os_spring.Kyouko3.State.{FifoEntry, Bus, Effect, store_register, store_fifo, msleep}

pub data LabRegister : Type 0 where
  device_ram fifostart fifoend fifohead fifotail : LabRegister
  framecolumns framerows framerowpitch framepixelformat framestartaddress : LabRegister
  encoderwidth encoderheight encoderoffsetx encoderoffsety encoderframe : LabRegister
  configacceleration configmodeset interrupt_set : LabRegister

abbrev pub reg_offset : LabRegister → ℕ
reg_offset device_ram = 0x0020
reg_offset fifostart = 0x1020
reg_offset fifoend = 0x1024
reg_offset fifohead = 0x4010
reg_offset fifotail = 0x4014
reg_offset framecolumns = 0x8000
reg_offset framerows = 0x8004
reg_offset framerowpitch = 0x8008
reg_offset framepixelformat = 0x800C
reg_offset framestartaddress = 0x8010
reg_offset encoderwidth = 0x9000
reg_offset encoderheight = 0x9004
reg_offset encoderoffsetx = 0x9008
reg_offset encoderoffsety = 0x900C
reg_offset encoderframe = 0x9010
reg_offset configacceleration = 0x1010
reg_offset configmodeset = 0x1008
reg_offset interrupt_set = 0x100C

pub record LabFifo : Type 0 where
  pub p_base : ℕ
  pub k_base : ℕ
  pub entries : List FifoEntry
  pub head : ℕ
  pub tail : ℕ

pub record LabBuffer : Type 0 where
  pub phy_base : ℕ
  pub kv_base : ℕ

-- `struct kyouko3` and the array `dma_buffs`, with the driver's effects, newest first. The fields
-- `v_base` and `count` of a buffer are never used.
pub record Lab : Type 0 where
  pub k_control_base : ℕ
  pub k_ram_card_base : ℕ
  pub kv_control_base : ℕ
  pub kv_ram_card_base : ℕ
  pub fifo : LabFifo
  pub graphics_on : Bool
  pub dma_mapped : Bool
  pub fill : ℕ
  pub drain : ℕ
  pub dma_buffs : List LabBuffer
  pub effects : List Effect

abbrev pub record_effect : Effect → Lab → Lab
record_effect e s = record s { effects = e ∷ s.effects }

unfoldable pub k_read_reg : Bus → LabRegister → Lab → ℕ
k_read_reg bus reg s = bus (s.kv_control_base + 4 * (reg_offset reg / 4))

abbrev pub k_write_reg : LabRegister → ℕ → Lab → Lab
k_write_reg reg value s =
    record_effect (store_register (s.kv_control_base + 4 * (reg_offset reg / 4)) value) s

-- `FIFO_WRITE`, with the test as it stands in the code; `none` is a store behind the FIFO's memory.
unfoldable pub lab_fifo_write : ℕ → ℕ → Lab → Option Lab
lab_fifo_write reg value s =
    let f = s.fifo in
    let moved : ℕ = inc32 f.head in
    if ltb f.head (length f.entries)
    then some (record s {
      fifo = record f {
        entries = set f.entries f.head (record { command = reg; value = value });
        head = if ltb 1024 moved then 0 else moved;
      };
      effects = store_fifo reg value ∷ s.effects;
    })
    else none

-- calls of `FIFO_WRITE` one after another
unfoldable pub fifo_writes : List FifoEntry → Lab → Option Lab
fifo_writes [] s = some s
fifo_writes (e ∷ es) s = elim (lab_fifo_write e.command e.value s) [
  | none ↦ none
  | some t ↦ fifo_writes es t
]

-- `fifo_flush` over the card's answers; `none`: they ran out and the loop is still going.
unfoldable pub lab_flush_loop : List Bus → Lab → Option Lab
lab_flush_loop [] s = if s.fifo.tail == s.fifo.head then some s else none
lab_flush_loop (bus ∷ more) s =
    let rest =
      lab_flush_loop more
        (record s { fifo = record s.fifo { tail = k_read_reg bus fifotail s } }) in
    if s.fifo.tail == s.fifo.head then some s else rest

unfoldable pub lab_fifo_flush : List Bus → Lab → Option Lab
unfolding lab_flush_loop
lab_fifo_flush turns s = lab_flush_loop turns (k_write_reg fifohead s.fifo.head s)

unfoldable pub off_graphics_mode : List Bus → Lab → Option Lab
unfolding lab_fifo_flush
off_graphics_mode turns s =
    Option.map
      (λ (s : Lab).
        let s = k_write_reg configacceleration 0x80000000 s in
        let s = k_write_reg configmodeset 0 s in
        record (record_effect (msleep 10) s) { graphics_on = false })
      (lab_fifo_flush turns s)

-- the bit pattern of 0.2f
abbrev pub blue : ℕ
blue = 0x3e4ccccd

-- the six commands of `on_GraphicsMode`
abbrev pub clear_commands : List FifoEntry
clear_commands =
    record { command = 0x5108; value = 0 }
    ∷ record { command = 0x5104; value = 0 }
    ∷ record { command = 0x5100; value = blue }
    ∷ record { command = 0x510C; value = 0 }
    ∷ record { command = 0x3008; value = 0x03 }
    ∷ record { command = 0x3FFC; value = 0x0 }
    ∷ []

-- The registers that `on_GraphicsMode` sets, up to `msleep(10)`.
unfoldable pub lab_set_mode : Lab → Lab
lab_set_mode s =
    let s = k_write_reg framecolumns 1024 s in
    let s = k_write_reg framerows 768 s in
    let s = k_write_reg framerowpitch (1024 * 4) s in
    let s = k_write_reg framepixelformat 0xf888 s in
    let s = k_write_reg framestartaddress 0 s in
    let s = k_write_reg configacceleration 0x40000000 s in
    let s = k_write_reg encoderwidth 1024 s in
    let s = k_write_reg encoderheight 768 s in
    let s = k_write_reg encoderoffsetx 0 s in
    let s = k_write_reg encoderoffsety 0 s in
    let s = k_write_reg encoderframe 0 s in
    let s = k_write_reg configmodeset 0 s in record_effect (msleep 10) s

unfoldable pub on_graphics_mode : List Bus → Lab → Option Lab
unfolding lab_set_mode fifo_writes lab_fifo_flush
on_graphics_mode turns s = elim (fifo_writes clear_commands (lab_set_mode s)) [
  | none ↦ none
  | some t ↦ Option.map (λ (t : Lab). record t { graphics_on = true }) (lab_fifo_flush turns t)
]

unfoldable pub fifo_vmode : ℕ → List Bus → Lab → Option Lab
unfolding off_graphics_mode on_graphics_mode
fifo_vmode mode turns s = if mode == 0 then off_graphics_mode turns s else on_graphics_mode turns s
