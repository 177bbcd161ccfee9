-- ===== src/Triangles/RunTests.antt =====
-- A test of the DMA mode of the drawing program: a card that reports a transfer whenever the program
-- waits for one.
use os_spring.Common.{
  ◌<◌, ◌≡◌, ℕ, zero, suc, ◌+◌, ◌*◌, refl, false, true, [], ◌∷◌, arith, replicate,
}
use os_spring.Kyouko3.State.{fifo_write, Kyouko3, Bus, k_read_register}
use os_spring.Kyouko3.Dma.{start_dma_locked, interrupts, BindAnswers, unmap_buffers}
use os_spring.Kyouko3.Ring.Closing.{TimelyEmpty, unmap_buffers-Quiet}
use os_spring.Kyouko3.Tests.Calm.{
  flush-answered, report, tails_below, tails-Timely, phase-Timely, empty-Timely,
}
use os_spring.Triangles.Buffers.{dma_buffer}
use os_spring.Triangles.Completes.{AnsweredRounds, AnsweredCommands, dma_commands-completes}
use os_spring.Triangles.Ending.{AnsweredFlush, addresses, turns_of}
use os_spring.Kyouko3.Files.{bind_dma}
use os_spring.Kyouko3.Ring.{transfers}
use os_spring.Triangles.Program.{
  call_or_die, dma_round, flush_commands, u_num_triangles, generate_triangles, Draws, Program, Run,
  lost, died, going, Round, dma_commands, dma_rounds, take_buffer, meanwhile,
}
use os_spring.Triangles.Rounds.{dma_rounds-HandedRun}
use os_spring.Triangles.Session.{
  queued_flush, in_turn, TimelyFlushing, filled, Along, TimelyRounds, Handed, HandedRun,
  flush_commands-HandedRun,
}
use os_spring.Triangles.Fifty.{TimelyCommands, bind-HandedRun}

-- an interrupt of another device
abbrev unrelated : Bus
unrelated address = 0

abbrev round : Round
round = record {
  filling = unrelated ∷ [];
  flushed = tails_below 1024;
  before = [];
  gap = [];
  wait = report ∷ [];
}

Along-all : (r : Run) {P : Program → Type 0} → ((p : Program) → P p) → Along r P
Along-all (lost p) h = tt
Along-all (died p) h = tt
Along-all (going p) h = h p

rounds-Timely :
    (d : Draws) (arg rounds n : ℕ) (p : Program) → TimelyRounds d (λ k. round) arg rounds n p
unfolding k_read_register
rounds-Timely d arg zero n p = tt
rounds-Timely d arg (suc rounds) n p =
    let ts = generate_triangles d u_num_triangles n in
    (
      (
        ((λ r. absurd (r refl)), tt),
        tails-Timely 1024 _,
        Along-all (flush_commands (tails_below 1024) (filled ts (meanwhile (unrelated ∷ []) p)))
            (λ q. (
              tt,
              let (started, phase) = start_dma_locked (dma_buffer ts).1 (interrupts [] q.driver) in
                  phase-Timely phase started,
            )),
      ),
      Along-all (dma_round round arg ts p)
          (λ q. rounds-Timely d arg rounds (n + 15 * u_num_triangles) q),
    )

Along-handed :
    (address : ℕ → ℕ) (n : ℕ) (r : Run) {P : Program → Type 0}
    → HandedRun address n r
    → ((p : Program) → Handed address n p → P p)
    → Along r P
Along-handed address n (lost p) h f = tt
Along-handed address n (died p) h f = tt
Along-handed address n (going p) h f = f p h

abbrev answers : BindAnswers
answers = record {
  pci_enable_msi = 0;
  request_irq = 0;
  pci_alloc_consistent = λ i. (4096 * i, 8192 * i + 7);
  vm_mmap = λ i. 0x7000000 + 0x20000 * i;
}

abbrev program : Program
program = record {
  driver = record {
    p_control_base = 0;
    p_ram_card_base = 0;
    k_control_base = 0x10000;
    k_ram_card_base = 0x20000;
    fifo = record {
      p_base = 0x3000;
      k_base = 0x4000;
      entries = replicate 1024 (record { command = 0; value = 0 });
      head = 6;
      tail_cache = 6;
    };
    graphics_on = true;
    dma_mapped = false;
    dma_buffers = replicate 8 (record { p_base = 0; k_base = 0; u_base = 0; stored_count = 0 });
    fill = 0;
    drain = 0;
    queued_count = 0;
    effects = [];
  };
  u_buff_base = 0;
  stores = [];
}

abbrev draws : Draws
draws = record { color_bits = λ n. n; coordinate_bits = λ n. 2 * n }

abbrev slots : ℕ → ℕ
slots i = 8192 * i + 7

closing-Timely :
    (q : Program)
    → Handed slots 50 q
    → TimelyFlushing (tails_below 1024) q
      × Along
          (flush_commands (tails_below 1024) q)
          (λ v. TimelyEmpty (replicate 8 report) (unmap_buffers 8 0 v.driver))
closing-Timely q h =
    let flushed = flush_commands-HandedRun slots 50 (tails_below 1024) q h (tails-Timely 1024 _) in
    (
      tails-Timely 1024 _,
      Along-handed slots 50 _ flushed (λ v e.
          empty-Timely 8 _
            (omega (arith, (unmap_buffers-Quiet 8 0 v.driver).0.queued, e.coherent.at))),
    )

fifty-Timely :
    (q : Program)
    → Handed slots 0 q
    → TimelyRounds draws (λ k. round) 64 50 0 q
      × Along (dma_rounds draws (λ k. round) 64 50 0 q) (λ u.
        TimelyFlushing (tails_below 1024) u
        × Along
            (flush_commands (tails_below 1024) u)
            (λ v. TimelyEmpty (replicate 8 report) (unmap_buffers 8 0 v.driver)))
fifty-Timely q h =
    let timely = rounds-Timely draws 64 50 0 q in
    (
      timely,
      Along-handed slots 50 _
          (dma_rounds-HandedRun slots draws (λ k. round) 64 50 0 50 0 q refl h timely)
          closing-Timely,
    )

commands-Timely :
    TimelyCommands draws answers (λ k. round) 64 (tails_below 1024) (replicate 8 report) program
commands-Timely =
    Along-handed slots 0 _
      (bind-HandedRun answers 64 program refl refl refl refl (unfold transfers in refl))
      (λ q h. fifty-Timely (take_buffer q) h)

fifo_write-head : (reg value : ℕ) (s : Kyouko3) → (fifo_write reg value s).fifo.head < 1024
unfolding fifo_write
fifo_write-head reg value s = ground arith

flush-Answered : (p : Program) → AnsweredFlush (tails_below 1024) p
flush-Answered p = flush-answered (queued_flush p).driver (fifo_write-head _ _ p.driver)

rounds-Answered :
    (d : Draws) (arg rounds n : ℕ) (p : Program) → AnsweredRounds d (λ k. round) arg rounds n p
rounds-Answered d arg zero n p = tt
rounds-Answered d arg (suc rounds) n p = (
  flush-Answered (meanwhile (unrelated ∷ []) p),
  Along-all (dma_round round arg (generate_triangles d u_num_triangles n) p)
      (λ q. rounds-Answered d arg rounds (n + 15 * u_num_triangles) q),
)

commands-Answered : AnsweredCommands draws answers (λ k. round) 64 (tails_below 1024) program
commands-Answered = Along-all (call_or_die (bind_dma answers 64 0) program) (λ q. (
  rounds-Answered draws 64 50 0 (take_buffer q),
  Along-all (dma_rounds draws (λ k. round) 64 50 0 (take_buffer q)) flush-Answered,
))

dma_commands-completes_example :
    (q : Program) × (dma_commands draws answers
        (λ k. round)
        64
        (tails_below 1024)
        (replicate 8 report)
        program
      ≡ going q)
    × (addresses q.stores ≡ turns_of answers.vm_mmap 50)
    × (transfers q.driver.effects ≡ in_turn slots 72000 50)
dma_commands-completes_example =
    dma_commands-completes draws answers (λ k. round) 64 (tails_below 1024) (replicate 8 report)
      program refl refl refl refl (unfold transfers in refl) refl (λ i h. omega arith)
      commands-Timely commands-Answered
