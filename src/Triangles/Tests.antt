-- ===== src/Triangles/Tests.antt =====
-- Tests of the drawing program: a triangle through the FIFO, and the thousand of a DMA buffer.
use os_spring.Common.{
  Bool, false, ℕ, ◌+◌, ◌-◌, ◌*◌, ◌/◌, ◌%◌, ◌^◌, ◌≡◌, refl, true, false, List, [], ◌∷◌, arith,
  length, replicate,
}
use os_spring.Kyouko3.State.{Kyouko3}
use os_spring.Kyouko3.Queue.{IsFifo, window}
use os_spring.Triangles.Commands.{Vertex, fifo_commands, queue_all, triangle_reaches_card}
use os_spring.Kyouko3.State.{fifo_write, k_read_register}
use os_spring.Kyouko3.Dma.{interrupts}
use os_spring.Kyouko3.Files.{kyouko3_ioctl, kyouko3_open, kyouko3_release}
use os_spring.Triangles.Commands.{vertices, vertex_commands, components}
use os_spring.Kyouko3.Graphics.{Turn, graphics_on, graphics_off, fifo_queue}
use os_spring.Triangles.Program.{Run, lost, died, going, Draws, Answers, Program, draw_main}
use os_spring.Triangles.Drawn.{drawn, all_values, drawn-fifo_commands}
use os_spring.Triangles.Contents.{
  read_triangles, behind_header, all_components, read_triangles-dma_buffer,
}
use os_spring.Triangles.Buffers.{Triangle, first_word, dma_buffer, header_counts}

abbrev device : Kyouko3
device = record {
  p_control_base = 0;
  p_ram_card_base = 0;
  k_control_base = 0x10000;
  k_ram_card_base = 0x20000;
  fifo = record {
    p_base = 0x3000;
    k_base = 0x4000;
    entries = replicate 1024 (record { command = 0; value = 0 });
    head = 1020;
    tail_cache = 1020;
  };
  graphics_on = true;
  dma_mapped = false;
  dma_buffers = [];
  fill = 0;
  drain = 0;
  queued_count = 0;
  effects = [];
}

abbrev vertex : ℕ → Vertex
vertex n = record { color = λ j. n + j; coordinate = λ j. 100 * n + j }

abbrev corners : List Vertex
corners = vertex 1 ∷ vertex 2 ∷ vertex 3 ∷ []

device-IsFifo : IsFifo device
device-IsFifo = record { size = refl; head_in = omega arith }

triangle_reaches_card_example :
    window
      (queue_all (fifo_commands corners) device).fifo.entries
      1020
      (((queue_all (fifo_commands corners) device).fifo.head + 1024 - 1020) % 1024)
    ≡ fifo_commands corners
triangle_reaches_card_example =
    triangle_reaches_card corners device 1020 device-IsFifo refl (omega arith)

abbrev triangle : Triangle
triangle = record { colors = λ i. i; coords = λ i. 7 * i }

abbrev thousand : List Triangle
thousand = replicate 1000 triangle

header_counts_example :
    ((first_word (dma_buffer thousand).0 / 2 ^ 14) % 2 ^ 10 ≡ (3 * length thousand) % 1024)
    × (first_word (dma_buffer thousand).0 % 2 ^ 14 ≡ 0x1045)
    × (first_word (dma_buffer thousand).0 / 2 ^ 24 ≡ 0x14)
header_counts_example = header_counts thousand

drawn-fifo_commands_example : drawn (fifo_commands corners) (λ reg. 5) ≡ all_values corners
drawn-fifo_commands_example = drawn-fifo_commands corners (λ reg. 5)

read_triangles-dma_buffer_example :
    read_triangles (length thousand) (behind_header (dma_buffer thousand).0)
    ≡ all_components thousand
read_triangles-dma_buffer_example = read_triangles-dma_buffer thousand

abbrev draws : Draws
draws = record { color_bits = λ n. n; coordinate_bits = λ n. 2 * n }

-- a turn in which the card's tail stands at this number, and no interrupt comes
abbrev tail_at : ℕ → Turn
tail_at n = record { bus = λ address. n; arriving = [] }

abbrev answers : Answers
answers = record {
  opened = record {
    control_base = 0x10000;
    ram_card_base = 0x20000;
    fifo_p_base = 0x3000;
    fifo_k_base = 0x4000;
    fifo_memory = replicate 1024 (record { command = 0; value = 0 });
  };
  bus = λ address. 32;
  on = tail_at 6 ∷ [];
  flushed = tail_at 7 ∷ [];
  off = [];
  bound = record {
    pci_alloc_consistent = λ i. (4096 * i, 8192 * i);
    vm_mmap = λ i. 0x7000000 + 0x20000 * i;
    pci_enable_msi = 0;
    request_irq = 0;
  };
  round = λ n. record { filling = []; flushed = tail_at 9 ∷ []; before = []; gap = []; wait = [] };
  unbound = [];
  closing_wait = [];
  closing = [];
}

abbrev program : Program
program = record { driver = device; u_buff_base = 0; stores = [] }

abbrev fifo_answers : Answers
fifo_answers = record answers { flushed = tail_at 36 ∷ []; off = tail_at 37 ∷ [] }

abbrev ended : Run → Bool
ended (lost p) = false
ended (died p) = false
ended (going p) = true

-- The program gets to its end with the triangle of `fifo_commands`.
draws_triangle : ended (draw_main 0 draws fifo_answers 0 program) ≡ true
unfolding draw_main kyouko3_ioctl graphics_on fifo_write kyouko3_open interrupts k_read_register
    fifo_commands fifo_queue vertices vertex_commands components graphics_off kyouko3_release
draws_triangle = refl
