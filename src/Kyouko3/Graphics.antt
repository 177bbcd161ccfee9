-- ===== src/Kyouko3/Graphics.antt =====
-- FIFO flushing and the graphics mode (Kyouko3_GrpahicsDriver/mymod.c, lines 285 to 346).
use os_spring.Common.{ℕ, ◌*◌, true, false, Option, none, some, List, [], ◌∷◌, ◌==◌, if◌then◌else◌}
use mathlib.Core.Option
use os_spring.Kyouko3.Register.{
  offset, fifo_head, fifo_tail, frame_columns, frame_rows, frame_row_pitch, frame_pixel_format,
  frame_start_address, encoder_width, encoder_height, encoder_offset_x, encoder_offset_y,
  encoder_frame, config_acceleration, config_mode_set, draw_clear_color4f_blue,
  draw_clear_color4f_green, draw_clear_color4f_red, draw_clear_color4f_alpha, raster_clear, code,
  raster_flush,
}
use os_spring.Kyouko3.State.{
  Kyouko3, Bus, FifoEntry, perform, msleep, k_read_register, k_write_register, fifo_write,
}
use os_spring.Kyouko3.Dma.{interrupts}

-- One round of the loop of `fifo_flush`: what the card answers to the load of the tail, and the
-- interrupts that arrive while `schedule` lets others run.
pub record Turn : Type 0 where
  pub bus : Bus
  pub arriving : List Bus

abbrev pub read_tail : Bus → Kyouko3 → Kyouko3
read_tail bus s = record s {
  fifo = record s.fifo { tail_cache = k_read_register bus (offset fifo_tail) s };
}

-- `none`: the turns ran out and the loop is still going.
unfoldable pub flush_loop : List Turn → Kyouko3 → Option Kyouko3
flush_loop [] s = if s.fifo.tail_cache == s.fifo.head then some s else none
flush_loop (turn ∷ more) s =
    let rest = flush_loop more (interrupts turn.arriving (read_tail turn.bus s)) in
    if s.fifo.tail_cache == s.fifo.head then some s else rest

unfoldable pub fifo_flush : List Turn → Kyouko3 → Option Kyouko3
unfolding flush_loop
fifo_flush turns s = flush_loop turns (k_write_register fifo_head s.fifo.head s)

-- `entry` is what the stack holds after `copy_from_user`, `ret` the number of bytes not copied.
unfoldable pub fifo_queue : (ret : ℕ) → (entry : FifoEntry) → Kyouko3 → Kyouko3 × ℕ
unfolding fifo_write
fifo_queue ret entry s = (fifo_write entry.command entry.value s, ret)

-- The bit patterns of 0.3f and 0.0f.
abbrev pub clear_shade : ℕ
clear_shade = 0x3e99999a

abbrev pub clear_alpha : ℕ
clear_alpha = 0x00000000

-- The frame, the encoder and the mode, up to `msleep(50)`.
unfoldable pub set_mode : Kyouko3 → Kyouko3
set_mode s =
    let s = k_write_register frame_columns 1024 s in
    let s = k_write_register frame_rows 768 s in
    let s = k_write_register frame_row_pitch (1024 * 4) s in
    let s = k_write_register frame_pixel_format 0xf888 s in
    let s = k_write_register frame_start_address 0 s in
    let s = k_write_register config_acceleration 0x40000000 s in
    let s = k_write_register encoder_width 1024 s in
    let s = k_write_register encoder_height 768 s in
    let s = k_write_register encoder_offset_x 0 s in
    let s = k_write_register encoder_offset_y 0 s in
    let s = k_write_register encoder_frame 0 s in
    let s = k_write_register config_mode_set 0 s in perform (msleep 50) s

-- The colour and the clearing of the screen.
unfoldable pub clear_screen : Kyouko3 → Kyouko3
clear_screen s =
    let s = fifo_write (offset draw_clear_color4f_red) clear_shade s in
    let s = fifo_write (offset draw_clear_color4f_green) clear_shade s in
    let s = fifo_write (offset draw_clear_color4f_blue) clear_shade s in
    let s = fifo_write (offset draw_clear_color4f_alpha) clear_alpha s in
    let s = fifo_write (offset raster_clear) 0x03 s in fifo_write (code raster_flush) 0x0 s

unfoldable pub graphics_on : List Turn → Kyouko3 → Option Kyouko3
unfolding set_mode clear_screen fifo_flush
graphics_on turns s =
    Option.map (λ (s : Kyouko3). record s { graphics_on = true })
      (fifo_flush turns (clear_screen (set_mode s)))

-- What follows the flush in `graphics_off`.
unfoldable pub leave_mode : Kyouko3 → Kyouko3
leave_mode s =
    let s = k_write_register config_acceleration 0x80000000 s in
    let s = k_write_register config_mode_set 0 s in
    record (perform (msleep 10) s) { graphics_on = false }

unfoldable pub graphics_off : List Turn → Kyouko3 → Option Kyouko3
unfolding leave_mode fifo_flush
graphics_off turns s =
    Option.map leave_mode (fifo_flush turns (fifo_write (offset raster_clear) 0x03 s))
