-- ===== src/Triangles/Program.antt =====
-- The program that draws on the driver, from `open` to `close` (Kyouko3_GrpahicsDriver/main.c,
-- lines 25 to 163).
use os_spring.Common.{
  ℕ, zero, suc, ◌+◌, ◌*◌, ◌/◌, ◌%◌, none, some, List, [], ◌∷◌, ◌==◌, if◌then◌else◌,
}
use os_spring.Kyouko3.Register.{code, raster_flush}
use os_spring.Kyouko3.State.{Kyouko3, FifoEntry, Bus, Effect, copy_to_user}
use os_spring.Kyouko3.Dma.{BindAnswers, interrupts}
use os_spring.Kyouko3.Graphics.{Turn}
use os_spring.Kyouko3.Files.{
  OpenAnswers, kyouko3_open, kyouko3_release, Ioctl, fifo_queue, fifo_flush, vmode, bind_dma,
  unbind_dma, start_dma, kyouko3_ioctl,
}
use os_spring.Triangles.Commands.{Vertex, fifo_commands}
use os_spring.Triangles.Buffers.{Triangle, dma_buffer}

-- What the calls of `drand48` give: the bits of the n-th number as a float, and those of twice the
-- number less one.
pub record Draws : Type 0 where
  pub color_bits : ℕ → ℕ
  pub coordinate_bits : ℕ → ℕ

-- The nine values that are set after `n` numbers were drawn.
unfoldable generate_colors : Draws → (n : ℕ) → ℕ → ℕ
generate_colors d n = λ j. d.color_bits (n + j)

-- Two numbers of each three; the third value is 0.
unfoldable generate_coordinates : Draws → (n : ℕ) → ℕ → ℕ
generate_coordinates d n =
    λ j. if j % 3 == 2 then 0 else d.coordinate_bits (n + 2 * (j / 3) + j % 3)

-- the loop over the triangles of a buffer, after `n` numbers were drawn
unfoldable pub generate_triangles : Draws → (rounds n : ℕ) → List Triangle
unfolding generate_colors generate_coordinates
generate_triangles d zero n = []
generate_triangles d (suc rounds) n =
    record { colors = generate_colors d n; coords = generate_coordinates d (n + 9) }
    ∷ generate_triangles d rounds (n + 15)

abbrev pub u_num_triangles : ℕ
u_num_triangles = 1000

abbrev u_num_buffs : ℕ
u_num_buffs = 50

-- A buffer that the program filled, and the count of its `START_DMA`.
pub record Store : Type 0 where
  pub address : ℕ
  pub words : List ℕ
  pub byte_count : ℕ

-- The driver, the program's `u_buff_base`, and the buffers that it filled, newest first.
pub record Program : Type 0 where
  pub driver : Kyouko3
  pub u_buff_base : ℕ
  pub stores : List Store

-- `lost`: a flush does not return within the given turns. `died`: `die_with_message` was called.
pub data Run : Type 0 where
  lost died going : Program → Run

infixl 5 ◌>>=◌
abbrev pub ◌>>=◌ : Run → (Program → Run) → Run
lost p >>= f = lost p
died p >>= f = died p
going p >>= f = f p

-- A call of `ioctl` whose value is not looked at.
unfoldable pub call : Ioctl → Program → Run
call c p = elim (kyouko3_ioctl c p.driver) [
  | none ↦ lost p
  | some (s, status) ↦ going (record p { driver = s })
]

unfoldable pub call_or_die : Ioctl → Program → Run
call_or_die c p = elim (kyouko3_ioctl c p.driver) [
  | none ↦ lost p
  | some (s, status) ↦ let q = record p { driver = s } in if status == 0 then going q else died q
]

-- `u_fifo_queue`. The copies between the program and the driver succeed.
abbrev pub u_fifo_queue : FifoEntry → Program → Run
u_fifo_queue e p = call_or_die (fifo_queue 0 e) p

unfoldable pub queue_commands : List FifoEntry → Program → Run
unfolding call_or_die
queue_commands [] p = going p
queue_commands (e ∷ es) p = u_fifo_queue e p >>= λ p. queue_commands es p

-- the end of both kinds of drawing: `RasterFlush`, and a flush of the FIFO
unfoldable pub flush_commands : List Turn → Program → Run
unfolding call call_or_die
flush_commands turns p = do
  p ← u_fifo_queue (record { command = code raster_flush; value = 0 }) p
  call (fifo_flush turns) p

-- what the newest effect copied to the program
abbrev pub handed : List Effect → ℕ
handed (copy_to_user arg value ∷ es) = value
handed es = 0

-- `u_buff_base` after the driver has given back a buffer
abbrev pub take_buffer : Program → Program
take_buffer p = record p { u_buff_base = handed p.driver.effects }

-- What the card and the kernel do in a round: while the program fills the buffer, in the flush, before
-- `START_DMA`, and around its wait.
pub record Round : Type 0 where
  pub filling : List Bus
  pub flushed : List Turn
  pub before : List Bus
  pub gap : List Bus
  pub wait : List Bus

-- Interrupts come while the program runs.
abbrev pub meanwhile : List Bus → Program → Program
meanwhile buses p = record p { driver = interrupts buses p.driver }

-- a round of the loop over the buffers; `arg` is the address of `u_buff_base`
unfoldable pub dma_round : Round → (arg : ℕ) → List Triangle → Program → Run
unfolding flush_commands
dma_round r arg ts p =
    let (words, byte_count) = dma_buffer ts in
    let stored =
      record { address = p.u_buff_base; words = words; byte_count = byte_count } ∷ p.stores in
    do
      p ←
          flush_commands r.flushed
            (record (meanwhile r.filling p) { u_buff_base = byte_count; stores = stored })
      p ← going (meanwhile r.before p)
      p ← call_or_die (start_dma 0 byte_count arg 0 r.gap r.wait) p
      going (take_buffer p)

unfoldable pub dma_rounds : Draws → (ℕ → Round) → (arg rounds n : ℕ) → Program → Run
unfolding dma_round generate_triangles
dma_rounds d round arg zero n p = going p
dma_rounds d round arg (suc rounds) n p = do
  p ← dma_round (round rounds) arg (generate_triangles d u_num_triangles n) p
  dma_rounds d round arg rounds (n + 15 * u_num_triangles) p

-- `round` is indexed by the number of rounds that follow.
unfoldable pub dma_commands :
    Draws → BindAnswers → (ℕ → Round) → (arg : ℕ) → List Turn → List Bus → Program → Run
unfolding dma_rounds
dma_commands d answers round arg turns wait p = do
  p ← call_or_die (bind_dma answers arg 0) p
  p ← dma_rounds d round arg u_num_buffs 0 (take_buffer p)
  p ← flush_commands turns p
  call (unbind_dma wait) p

abbrev corner : (blue green red : ℕ) → (x y : ℕ) → Vertex
corner blue green red x y = record {
  color = λ j. if j == 0 then blue else if j == 1 then green else if j == 2 then red else 0;
  coordinate = λ j. if j == 0 then x else if j == 1 then y else if j == 2 then 0 else 0x3f800000;
}

-- `coordinates` and `colors`: the corners at (-0.7, -0.7), (0.7, -0.7) and (0.7, 0.7)
abbrev pub corners : List Vertex
corners =
    corner 0 0 0x3f800000 0xbf333333 0xbf333333
    ∷ corner 0 0x3f800000 0 0x3f333333 0xbf333333
    ∷ corner 0x3f800000 0 0 0x3f333333 0x3f333333
    ∷ []

-- What the card and the kernel do on the way of `main`: for `open`, for the three modes of its flushes,
-- for `dma_commands`, and for `close`.
pub record Answers : Type 0 where
  pub opened : OpenAnswers
  pub bus : Bus
  pub on : List Turn
  pub flushed : List Turn
  pub off : List Turn
  pub bound : BindAnswers
  pub round : ℕ → Round
  pub unbound : List Bus
  pub closing_wait : List Bus
  pub closing : List Turn

-- `close`
unfoldable pub close : List Bus → List Turn → Program → Run
close wait turns p = elim (kyouko3_release wait turns p.driver) [
  | none ↦ lost p
  | some (s, status) ↦ going (record p { driver = s })
]

-- `main` for the number that it was called with; the open of the device succeeds.
unfoldable pub draw_main : (mode : ℕ) → Draws → Answers → (arg : ℕ) → Program → Run
unfolding call queue_commands dma_commands close
draw_main mode d a arg p =
    let opened = record p { driver = (kyouko3_open a.opened a.bus p.driver).0 } in
    do
      p ← call (vmode 1 a.on) opened
      p ←
          (if mode == 0
            then (queue_commands (fifo_commands corners) p >>= λ p. call (fifo_flush a.flushed) p)
            else dma_commands d a.bound a.round arg a.flushed a.unbound p)
      p ← call (vmode 0 a.off) p
      close a.closing_wait a.closing p
