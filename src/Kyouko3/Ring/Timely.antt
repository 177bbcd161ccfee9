-- ===== src/Kyouko3/Ring/Timely.antt =====
-- When a card keeps to what it was given: the interrupts that come during a call report a transfer only
-- if the card has one, and no signal ends a wait (Kyouko3_GrpahicsDriver/mymod.c, lines 160 to 300 and
-- 382 to 414).
use os_spring.Common.{ℕ, ◌≡◌, ◌≢◌, true, false, List, [], ◌∷◌, ◌==◌, if◌then◌else◌, ltb, u32}
use os_spring.Kyouko3.Register.{offset, buffer_a_address, buffer_a_config, raster_clear, fifo_head}
use os_spring.Kyouko3.State.{Kyouko3, Bus, buffer, fifo_write, k_write_register, dma_buff_size}
use os_spring.Kyouko3.Dma.{
  dma_intr, interrupts, Phase, refused, issuing, waiting, returning, start_dma_locked,
}
use os_spring.Kyouko3.Graphics.{Turn, read_tail, set_mode, clear_screen}
use os_spring.Kyouko3.Files.{
  Ioctl, fifo_queue, fifo_flush, vmode, bind_dma, unbind_dma, start_dma, other,
}
use os_spring.Kyouko3.Ring.{Transfer, reports}

-- interrupts one after another: a report only while a buffer is queued
abbrev pub Timely : List Bus → Kyouko3 → Type 0
Timely [] s = Unit {0}
Timely (bus ∷ more) s = (reports bus s ≢ 0 → s.queued_count ≢ 0) × Timely more (dma_intr bus s).0

-- no report at all
abbrev pub Silent : List Bus → Kyouko3 → Type 0
Silent [] s = Unit {0}
Silent (bus ∷ more) s = (reports bus s ≡ 0) × Silent more (dma_intr bus s).0

-- The wait for room: it ends by its condition.
abbrev pub TimelyWait : List Bus → Kyouko3 → Type 0
TimelyWait [] s = s.queued_count ≢ 8
TimelyWait (bus ∷ more) s =
    s.queued_count ≡ 8
    → (reports bus s ≢ 0 → s.queued_count ≢ 0) × TimelyWait more (dma_intr bus s).0

abbrev pub TimelyPhase : Phase → (gap wait : List Bus) → Kyouko3 → Type 0
TimelyPhase refused gap wait s = Timely gap s
TimelyPhase issuing gap wait s = Silent gap s
TimelyPhase waiting gap wait s = Timely gap s × TimelyWait wait (interrupts gap s)
TimelyPhase returning gap wait s = Timely gap s

abbrev pub TimelyFlush : List Turn → Kyouko3 → Type 0
TimelyFlush [] s = Unit {0}
TimelyFlush (turn ∷ more) s =
    s.fifo.tail_cache ≢ s.fifo.head
    → Timely turn.arriving (read_tail turn.bus s)
      × TimelyFlush more (interrupts turn.arriving (read_tail turn.bus s))

-- what `fifo_flush` starts its loop with
abbrev pub told : Kyouko3 → Kyouko3
told s = k_write_register fifo_head s.fifo.head s

-- A call of a program on bound buffers: no command of its own is about buffer A, and it does not give
-- the buffers back.
abbrev pub TimelyCall : Ioctl → Kyouko3 → Type 0
TimelyCall (fifo_queue ret e) s =
    (e.command ≢ offset buffer_a_address) × (e.command ≢ offset buffer_a_config)
TimelyCall (fifo_flush turns) s = TimelyFlush turns (told s)
TimelyCall (vmode arg turns) s = TimelyFlush turns (
    if u32 arg == 0
    then told (fifo_write (offset raster_clear) 0x03 s)
    else told (clear_screen (set_mode s)))
TimelyCall (bind_dma answers arg out) s = s.dma_mapped ≡ true
TimelyCall (unbind_dma wait) s = s.dma_mapped ≡ false
TimelyCall (start_dma ret count arg out gap wait) s =
    TimelyPhase (start_dma_locked count s).1 gap wait (start_dma_locked count s).0
TimelyCall other s = Unit {0}

-- what a count hands over, unless it is refused
abbrev pub handed_over : ℕ → Kyouko3 → List Transfer → List Transfer
handed_over count s sub =
    if count == 0
    then sub
    else if ltb dma_buff_size count
    then sub
    else (u32 (buffer s s.fill).p_base, count) ∷ sub

abbrev pub submits : Ioctl → Kyouko3 → List Transfer → List Transfer
submits (start_dma ret count arg out gap wait) s sub = handed_over count s sub
submits c s sub = sub
