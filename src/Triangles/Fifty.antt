-- ===== src/Triangles/Fifty.antt =====
-- `dma_commands` as a whole (Kyouko3_GrpahicsDriver/main.c, lines 96 to 142).
use os_spring.Common.{
  ℕ, ◌≤◌, ◌≡◌, refl, Bool, true, false, List, [], ◌++◌, arith, length, if◌then◌else◌,
}
use os_spring.Kyouko3.State.{Bus}
use os_spring.Kyouko3.Dma
use os_spring.Kyouko3.Dma.{BindAnswers, unmap_buffers, on_time_unbind_dma}
use os_spring.Kyouko3.Graphics.{Turn}
use os_spring.Kyouko3.Files.{bind_dma, unbind_dma, kyouko3_ioctl}
use os_spring.Kyouko3.Ring.{Transfer, transfers, here}
use os_spring.Kyouko3.Ring.Guarantees.{transfers_in_order}
use os_spring.Kyouko3.Ring.Flushes.{Quiet-Reaches}
use os_spring.Kyouko3.Ring.Refine.{give_buffer-Quiet}
use os_spring.Kyouko3.Ring.Sessions.{Reaches-InSession, bound-InSession}
use os_spring.Kyouko3.Ring.Closing.{TimelyEmpty, unbind-transfers}
use os_spring.Triangles.Program.{
  Draws, Program, Run, lost, died, going, ◌>>=◌, call, call_or_die, flush_commands, Round,
  dma_rounds, dma_commands, take_buffer,
}
use os_spring.Triangles.Rounds.{dma_rounds-HandedRun}
use os_spring.Triangles.Session.{
  Along, TimelyFlushing, TimelyRounds, in_turn, Handed, HandedRun, flush_commands-HandedRun,
}

-- A run of `dma_commands` in which the card keeps to what it was given, and no signal ends a wait.
abbrev pub TimelyCommands :
    Draws → BindAnswers → (ℕ → Round) → (arg : ℕ) → List Turn → List Bus → Program → Type 0
TimelyCommands d answers round arg turns wait p =
    Along (call_or_die (bind_dma answers arg 0) p) (λ q.
      TimelyRounds d round arg 50 0 (take_buffer q)
      × Along (dma_rounds d round arg 50 0 (take_buffer q)) (λ u.
        TimelyFlushing turns u
        × Along (flush_commands turns u) (λ v. TimelyEmpty wait (unmap_buffers 8 0 v.driver))))

-- The first of those handed over are stored in the FIFO, but for those in the queue.
abbrev DeliveredPart : (address : ℕ → ℕ) → Program → Type 0
DeliveredPart address p =
    (n : ℕ) × (rest : List Transfer) × (n ≤ 50)
    × (in_turn address 72000 n ≡ rest ++ transfers p.driver.effects)
    × (length rest ≤ p.driver.queued_count)

-- At the end of the run all fifty transfers are stored, each eighth
-- time from the same one; where the run stops before, a part of them.
abbrev pub Delivered : (address : ℕ → ℕ) → Run → Type 0
Delivered address (going p) = transfers p.driver.effects ≡ in_turn address 72000 50
Delivered address (lost p) = DeliveredPart address p
Delivered address (died p) = DeliveredPart address p

module _ (address : ℕ → ℕ) where
  part : (n : ℕ) (p : Program) → n ≤ 50 → Handed address n p → DeliveredPart address p
  part n p le h =
      let (rest, order, few) = transfers_in_order _ _ h.coherent here in (n, rest, le, order, few)

  then-Delivered :
      (n : ℕ) (f : Program → Run) (T : Program → Type 0) (r : Run)
      → n ≤ 50
      → HandedRun address n r
      → Along r T
      → ((q : Program) → Handed address n q → T q → Delivered address (f q))
      → Delivered address (r >>= f)
  then-Delivered n f T (lost p) le (k, l, h) t next = part k p (omega arith) h
  then-Delivered n f T (died p) le (k, l, h) t next = part k p (omega arith) h
  then-Delivered n f T (going p) le h t next = next p h t

  unbind-Delivered :
      (wait : List Bus) (p : Program)
      → Handed address 50 p
      → TimelyEmpty wait (unmap_buffers 8 0 p.driver)
      → Delivered address (call (unbind_dma wait) p)
  unfolding call kyouko3_ioctl
  unbind-Delivered wait p h t = unbind-transfers address wait p.driver _ h t

by_status-HandedRun :
    (address : ℕ → ℕ) (b : Bool) (p : Program)
    → Handed address 0 p
    → HandedRun address 0 (if b then going p else died p)
by_status-HandedRun address true p h = h
by_status-HandedRun address false p h = (0, omega arith, h)

pub bind-HandedRun :
    (answers : BindAnswers) (arg : ℕ) (p : Program)
    → p.driver.dma_mapped ≡ false
    → answers.pci_enable_msi ≡ 0
    → answers.request_irq ≡ 0
    → length p.driver.dma_buffers ≡ 8
    → transfers p.driver.effects ≡ []
    → HandedRun (λ i. (answers.pci_alloc_consistent i).1) 0 (call_or_die (bind_dma answers arg 0) p)
unfolding call_or_die kyouko3_ioctl
bind-HandedRun answers arg p unmapped msi irq size fresh =
    let address = λ (i : ℕ). (answers.pci_alloc_consistent i).1 in
    let (s, user) = Dma.bind_dma answers p.driver in
    let i = bound-InSession answers p.driver unmapped msi irq size fresh in
    by_status-HandedRun address _ _ (
      Reaches-InSession address s _ [] [] i
        (Quiet-Reaches s _ [] i.completed (give_buffer-Quiet 0 arg 0 user s)))

-- If the interrupts report a transfer only while a buffer is queued and
-- no signal ends a wait: a run of `dma_commands` on an open device that gets to its end has stored in
-- the FIFO fifty transfers and no others, in the order in which the program filled the buffers, the `n`th
-- from the allocation of slot `n % 8` and each of 72000 bytes; a run that stops before, since a flush
-- does not return or a call fails, has stored the first of those, but for the buffers in the queue.
pub dma_commands-delivers :
    (d : Draws) (answers : BindAnswers) (round : ℕ → Round) (arg : ℕ) (turns : List Turn)
    (wait : List Bus) (p : Program)
    → p.driver.dma_mapped ≡ false
    → answers.pci_enable_msi ≡ 0
    → answers.request_irq ≡ 0
    → length p.driver.dma_buffers ≡ 8
    → transfers p.driver.effects ≡ []
    → TimelyCommands d answers round arg turns wait p
    → Delivered
        (λ i. (answers.pci_alloc_consistent i).1)
        (dma_commands d answers round arg turns wait p)
unfolding dma_commands
dma_commands-delivers d answers round arg turns wait p unmapped msi irq size fresh timely =
    let address = λ (i : ℕ). (answers.pci_alloc_consistent i).1 in
    then-Delivered address 0 _ _ _ (omega arith)
      (bind-HandedRun answers arg p unmapped msi irq size fresh) timely
      (λ q h (t, ts).
        then-Delivered address 50 _ _ _ (omega arith)
          (dma_rounds-HandedRun address d round arg 50 0 50 0 (take_buffer q) refl h t) ts
          (λ u g (k, ks).
            then-Delivered address 50 _ _ _ (omega arith)
              (flush_commands-HandedRun address 50 turns u g k) ks
              (λ v e l. unbind-Delivered address wait v e l)))
