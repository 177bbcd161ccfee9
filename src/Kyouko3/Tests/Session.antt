-- ===== src/Kyouko3/Tests/Session.antt =====
-- Tests of whole programs on the driver.
use os_spring.Common.{
  ℕ, zero, suc, ◌+◌, ◌%◌, ◌<◌, ◌≤◌, ◌≡◌, refl, false, List, [], ◌∷◌, ◌++◌, some, none, arith,
  length,
}
use os_spring.Kyouko3.State.{Kyouko3, Bus, k_read_register}
use os_spring.Kyouko3.Register.{code, raster_flush}
use os_spring.Kyouko3.Dma
use os_spring.Kyouko3.Graphics
use os_spring.Kyouko3.Dma.{BindAnswers, bind_dma, start_dma_locked}
use os_spring.Kyouko3.Files.{kyouko3_open, fifo_queue, fifo_flush, start_dma, kyouko3_ioctl}
use os_spring.Kyouko3.Ring.{Transfer, transfers}
use os_spring.Kyouko3.Ring.Memory.{IsInside, All}
use os_spring.Kyouko3.Ring.Sessions.{calls, meanwhile, Happening, logged, TimelyRun, calls_in_order}
use os_spring.Kyouko3.Tests.Samples.{slot, device, memory, answers}
use os_spring.Kyouko3.Tests.Calm.{report, tails_below, tails-Timely, phase-Timely}

abbrev unrelated : Bus
unrelated address = 0

-- `n` rounds, each of which queues a command, flushes the FIFO and hands over 144 bytes, while interrupts
-- of another device come
abbrev sends : ℕ → List Happening
sends zero = []
sends (suc n) =
    calls (fifo_queue 0 (record { command = code raster_flush; value = 0 }))
    ∷ calls (fifo_flush (tails_below 40))
    ∷ meanwhile (unrelated ∷ [])
    ∷ calls (start_dma 0 144 0 0 [] (report ∷ []))
    ∷ sends n

sends-Timely : (n : ℕ) (s : Kyouko3) → TimelyRun (sends n) s
unfolding k_read_register
sends-Timely zero s = tt
sends-Timely (suc n) s = (
  ((λ e. absurd (omega arith)), (λ e. absurd (omega arith))),
  λ t a u. (
    tails-Timely 40 _,
    λ v b w. (
      ((λ r. absurd (r refl)), tt),
      (
        let (started, phase) = start_dma_locked 144 (Dma.interrupts (unrelated ∷ []) v) in
            phase-Timely phase started,
        λ x c y. sends-Timely n x,
      ),
    ),
  ),
)

abbrev fresh : Kyouko3
fresh = record (device 3 4) { dma_mapped = false }

abbrev bound : Kyouko3
bound = (bind_dma answers (kyouko3_open memory report fresh).0).0

-- the program and what it handed over after `n` rounds
abbrev after : ℕ → Kyouko3 × List Transfer
after n = elim (logged (sends n) bound []) [ none ↦ (fresh, []) | some r ↦ r ]

nine_rounds : logged (sends 9) bound [] ≡ some (after 9)
unfolding bind_dma kyouko3_open kyouko3_ioctl Graphics.fifo_flush Graphics.fifo_queue Dma.start_dma
    Dma.bind_session Dma.bind_buffers Dma.interrupts k_read_register Dma.dma_intr
nine_rounds = refl

calls_in_order_example :
    (p : List Transfer) × ((after 9).1 ≡ p ++ transfers (after 9).0.effects)
    × (length p ≤ (after 9).0.queued_count)
    × ((after 9).0.queued_count < 8)
    × ((after 9).0.fill ≡ ((after 9).0.drain + (after 9).0.queued_count) % 8)
    × All (IsInside (λ i. (slot i).p_base)) (transfers (after 9).0.effects)
calls_in_order_example =
    calls_in_order memory report answers fresh (after 9).0 (sends 9) (after 9).1 refl refl refl refl
      (sends-Timely 9 _) nine_rounds
