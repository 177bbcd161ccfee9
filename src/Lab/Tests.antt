-- ===== src/Lab/Tests.antt =====
-- Tests of the lab driver's model: its FIFO filled to the end, its DMA buffers bound and unbound, a
-- call on two versions of the driver, and the triangle program.
use os_spring.Common.{
  ◌==◌, get_or, length-replicate, ℕ, some, none, if◌then◌else◌, ℕ, ◌+◌, ◌*◌, ◌≡◌, ◌≢◌, refl, false,
  List, [], ◌∷◌, arith, leb, length, replicate,
}
use os_spring.Kyouko3.State.{Bus, FifoEntry}
use os_spring.Kyouko3.Queue.{is_some}
use os_spring.Lab.Driver.{Lab, fifo_writes}
use os_spring.Lab.Calls.{LabIoctl, LabOpen, LabBind, lab_bind_dma, ubind_dma}
use mathlib.Core.Option
use os_spring.Triangles.Commands.{fifo_commands}
use os_spring.Triangles.Drawn.{drawn}
use os_spring.Kyouko3.State.{Bus}
use os_spring.Lab.Calls.{LabOpen, LabIoctl, kyouko3fops_ioctl}
use os_spring.Lab.FourthClient.{fourth_main}
use os_spring.Lab.FourthProgram.{fourth_main_draws}
use os_spring.Lab.Third.{Third, third_ioctl}
use os_spring.Lab.Fourth.{fourth_ioctl}
use os_spring.Lab.Versions.{forget, forget_result, turns_on, forget-ioctl}
use os_spring.Lab.Client.{draw_vertices, triangle_vertices, user_main}
use os_spring.Lab.Drawn.{as_vertices, drawn-draw_vertices}
use os_spring.Lab.Pixels.{write_row, write_row-paints}
use os_spring.Lab.Filled.{take}
use os_spring.Lab.Progress.{lab_reaches}
use os_spring.Lab.Program.{program_commands, user_main_draws}
use os_spring.Lab.Overrun.{fifo_writes_fit, allocated_bytes, freed_bytes, ubind_dma_leaks}

abbrev no_command : FifoEntry
no_command = record { command = 0; value = 0 }

-- the head stands two entries before the end
abbrev lab : Lab
lab = record {
  k_control_base = 0;
  k_ram_card_base = 0;
  kv_control_base = 0x10000;
  kv_ram_card_base = 0x20000;
  fifo = record {
    p_base = 0x3000;
    k_base = 0x4000;
    entries = replicate 1024 no_command;
    head = 1022;
    tail = 1022;
  };
  graphics_on = false;
  dma_mapped = false;
  fill = 0;
  drain = 0;
  dma_buffs = replicate 8 (record { phy_base = 0; kv_base = 0 });
  effects = [];
}

abbrev three : List FifoEntry
three = no_command ∷ no_command ∷ no_command ∷ []

fifo_writes_fit_example : is_some (fifo_writes three lab) ≡ leb (lab.fifo.head + length three) 1024
fifo_writes_fit_example = fifo_writes_fit three lab refl (omega arith)

abbrev answers : LabBind
answers = record { pci_alloc_consistent = λ i. (4096 * i, 8192 * i); request_irq = 0 }

ubind_dma_leaks_example :
    (allocated_bytes (ubind_dma (lab_bind_dma answers 0 lab)).effects
      ≡ allocated_bytes lab.effects + 8126464)
    × (freed_bytes (ubind_dma (lab_bind_dma answers 0 lab)).effects
        ≡ freed_bytes lab.effects + 1015808)
ubind_dma_leaks_example = ubind_dma_leaks answers 0 lab refl

abbrev lab_calls_on : LabIoctl
lab_calls_on = LabIoctl.set_vmode 1 ((λ address. 1022) ∷ (λ address. 4) ∷ [])

forget-ioctl_example : Option.map forget_result (kyouko3fops_ioctl lab_calls_on lab) ≡ (
    if turns_on lab_calls_on
    then fourth_ioctl lab_calls_on (forget lab)
    else third_ioctl lab_calls_on (forget lab))
forget-ioctl_example = forget-ioctl lab_calls_on lab refl

drawn-draw_vertices_example :
    drawn (draw_vertices triangle_vertices) (λ reg. 7)
    ≡ drawn (fifo_commands (as_vertices triangle_vertices)) (λ reg. 7)
drawn-draw_vertices_example = drawn-draw_vertices triangle_vertices (λ reg. 7)

abbrev opened : LabOpen
opened = record {
  control_base = 0x10000;
  ram_card_base = 0x20000;
  fifo_p_base = 0x3000;
  fifo_k_base = 0x4000;
  fifo_memory = replicate 1024 no_command;
}

-- the tail a card answers
abbrev tail_at : ℕ → Bus
tail_at n = λ address. n

user_main_draws_example :
    let run = λ (mapped : ℕ).
      user_main opened
        (tail_at 32)
        mapped
        0
        (tail_at 3 ∷ tail_at 6 ∷ [])
        []
        (tail_at 20 ∷ tail_at 36 ∷ [])
        []
        []
        lab in
    ((t : Lab) × (run 0 ≡ some t)
      × (t.graphics_on ≡ false)
      × (take 36 t.fifo.entries ≡ program_commands))
    × ((refused : ℕ) → refused ≢ 0 → run refused ≡ none)
unfolding lab_reaches
user_main_draws_example =
    user_main_draws opened (tail_at 32) 0 (tail_at 3 ∷ tail_at 6 ∷ []) []
      (tail_at 20 ∷ tail_at 36 ∷ []) [] [] lab refl refl refl

fourth_main_draws_example :
    let run = λ (mapped : ℕ).
      fourth_main opened
        (tail_at 32)
        mapped
        0
        (tail_at 3 ∷ tail_at 6 ∷ [])
        []
        (tail_at 20 ∷ tail_at 36 ∷ [])
        (forget lab) in
    ((t : Third) × (run 0 ≡ some t)
      × (t.graphics_on ≡ false)
      × (take 36 t.fifo.entries ≡ program_commands)
      × (t.fifo.tail ≡ 36))
    × ((refused : ℕ) → refused ≢ 0 → run refused ≡ none)
unfolding lab_reaches
fourth_main_draws_example =
    fourth_main_draws opened (tail_at 32) 0 (tail_at 3 ∷ tail_at 6 ∷ []) []
      (tail_at 20 ∷ tail_at 36 ∷ []) (forget lab) refl refl refl

unfoldable black_screen : (pixels : ℕ) → List ℕ
black_screen pixels = replicate pixels 0

length-black_screen : (pixels : ℕ) → length (black_screen pixels) ≡ pixels
unfolding black_screen
length-black_screen pixels = length-replicate pixels 0

write_row-paints_example :
    (painted : List ℕ) × (write_row (black_screen (1024 * 768)) ≡ some painted)
    × (length painted ≡ 1024 * 768)
    × (get_or painted (1024 * 200 + 17) 0
        ≡ (if 200 == 200 then 0xff0000 else get_or (black_screen (1024 * 768)) (1024 * 200 + 17) 0))
write_row-paints_example =
    write_row-paints (black_screen (1024 * 768)) 17 200 (length-black_screen (1024 * 768))
      (omega arith)
