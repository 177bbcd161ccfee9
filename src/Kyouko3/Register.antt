-- ===== src/Kyouko3/Register.antt =====
-- Offsets in the card's control window (Kyouko3_GrpahicsDriver/mymod.c, lines 51 to 86) and the
-- commands that user programs share with the driver (Kyouko3_GrpahicsDriver/mymod.h, lines 29 to 34).
use os_spring.Common.{ℕ}

pub data Register : Type 0 where
  device_vram fifo_start fifo_end fifo_head fifo_tail : Register
  frame_columns frame_rows frame_row_pitch frame_pixel_format frame_start_address : Register
  encoder_width encoder_height encoder_offset_x encoder_offset_y encoder_frame : Register
  config_acceleration config_mode_set config_interrupt interrupt_status : Register
  buffer_a_address buffer_a_config : Register
  draw_clear_color4f_blue draw_clear_color4f_green : Register
  draw_clear_color4f_red draw_clear_color4f_alpha raster_clear : Register

abbrev pub offset : Register → ℕ
offset device_vram = 0x0020
offset fifo_start = 0x1020
offset fifo_end = 0x1024
offset fifo_head = 0x4010
offset fifo_tail = 0x4014
offset frame_columns = 0x8000
offset frame_rows = 0x8004
offset frame_row_pitch = 0x8008
offset frame_pixel_format = 0x800C
offset frame_start_address = 0x8010
offset encoder_width = 0x9000
offset encoder_height = 0x9004
offset encoder_offset_x = 0x9008
offset encoder_offset_y = 0x900C
offset encoder_frame = 0x9010
offset config_acceleration = 0x1010
offset config_mode_set = 0x1008
offset config_interrupt = 0x100C
offset interrupt_status = 0x4008
offset buffer_a_address = 0x2000
offset buffer_a_config = 0x2008
offset draw_clear_color4f_blue = 0x5100
offset draw_clear_color4f_green = 0x5104
offset draw_clear_color4f_red = 0x5108
offset draw_clear_color4f_alpha = 0x510C
offset raster_clear = 0x3008

pub data Command : Type 0 where
  vertex_color vertex_coordinate command_primitive vertex_emit raster_flush : Command

abbrev pub code : Command → ℕ
code vertex_color = 0x5010
code vertex_coordinate = 0x5000
code command_primitive = 0x3000
code vertex_emit = 0x3004
code raster_flush = 0x3FFC
