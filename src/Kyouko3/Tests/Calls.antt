-- ===== src/Kyouko3/Tests/Calls.antt =====
-- Tests of the FIFO and of the driver's calls: their theorems on a device at rest.
use os_spring.Common.{
  ◌⊎◌, get_or, zero, suc, ◌+◌, ◌-◌, ◌%◌, ◌≡◌, refl, false, ◌||◌, ◌==◌, some, none, List, [], ◌∷◌,
  ◌++◌, arith, replicate,
}
use os_spring.Kyouko3.Register.{fifo_head}
use os_spring.Kyouko3.State.{Kyouko3, FifoEntry, k_read_register, k_write_register, fifo_write}
use os_spring.Kyouko3.Dma.{dma_intr, late_unbind_dma, interrupts, BindAnswers, on_time_unbind_dma}
use os_spring.Kyouko3.Graphics.{read_tail, flush_loop, fifo_flush}
use os_spring.Kyouko3.Mapping.{mmap_reads_outside}
use os_spring.Kyouko3.Files.{kyouko3_mmap, Ioctl, kyouko3_ioctl}
use os_spring.Kyouko3.Freeing.{Allocated, freed, allocated, unbind_frees_all}
use os_spring.Kyouko3.Bounds.Calls.{Leaves, kyouko3_ioctl-IsDevice}
use os_spring.Kyouko3.Flushing.{Seen, fifo_flush-Seen}
use os_spring.Kyouko3.Queue.{
  no_entry, write_all, window, card_reads, overrun_is_lost, fifo_flush-returns, is_some, reaches,
}
use os_spring.Kyouko3.Unbinding.{reported, late_unbind_dma-frees}
use os_spring.Kyouko3.Interrupted.{
  store_entry, advance_head, transfer_commands, interrupted_write_lost,
}
use os_spring.Kyouko3.Tests.Samples.{
  reporting, slot, sample_entry, device, tail_answer, turn, device-IsDevice, device-IsFifo,
}

kyouko3_ioctl-IsDevice_example :
    Leaves (kyouko3_ioctl (Ioctl.fifo_queue 0 (sample_entry 7)) (device 6 0))
kyouko3_ioctl-IsDevice_example =
    kyouko3_ioctl-IsDevice (Ioctl.fifo_queue 0 (sample_entry 7)) (device 6 0) device-IsDevice

abbrev three : List FifoEntry
three = sample_entry 4 ∷ sample_entry 5 ∷ sample_entry 6 ∷ []

card_reads_example :
    window
      (write_all three (device 6 0)).fifo.entries
      1022
      (((write_all three (device 6 0)).fifo.head + 1024 - 1022) % 1024)
    ≡ three
card_reads_example = card_reads three (device 6 0) 1022 (device-IsFifo 6 0) refl (omega arith)

-- a command is queued, and then flushed
abbrev one_more : Kyouko3
one_more = fifo_write 4 4 (device 6 0)

abbrev flushed : Kyouko3
flushed = read_tail tail_answer (k_write_register fifo_head one_more.fifo.head one_more)

fifo_flush-Seen_example :
    ((one_more.fifo.tail_cache ≡ one_more.fifo.head)
      × (flushed ≡ k_write_register fifo_head one_more.fifo.head one_more))
    ⊎ Seen one_more.k_control_base flushed.fifo.head (turn ∷ [])
unfolding fifo_flush flush_loop interrupts k_read_register fifo_write
fifo_flush-Seen_example = fifo_flush-Seen (turn ∷ []) one_more flushed refl

fifo_flush-returns_example : is_some (fifo_flush (turn ∷ []) one_more) ≡ (
    (one_more.fifo.tail_cache == one_more.fifo.head)
    || reaches one_more.k_control_base one_more.fifo.head (turn ∷ []))
fifo_flush-returns_example = fifo_flush-returns (turn ∷ []) one_more (refl, tt)

-- one command for each of the 1024 entries
abbrev round : List FifoEntry
round = replicate 1024 (sample_entry 4)

overrun_is_lost_example :
    fifo_flush [] (write_all round (device 6 0))
    ≡ some (k_write_register fifo_head 1022 (write_all round (device 6 0)))
unfolding write_all fifo_write
overrun_is_lost_example = overrun_is_lost round (device 6 0) [] (device-IsFifo 6 0) refl refl

abbrev answers : BindAnswers
answers = record {
  pci_enable_msi = 0;
  request_irq = 0;
  pci_alloc_consistent = λ i. ((slot i).k_base, (slot i).p_base);
  vm_mmap = λ i. (slot i).u_base;
}

abbrev unbound : Kyouko3
unbound = record (device 0 0) { dma_mapped = false }

slots-Allocated : Allocated answers (device 6 0)
slots-Allocated zero h = refl
slots-Allocated (suc zero) h = refl
slots-Allocated (suc (suc zero)) h = refl
slots-Allocated (suc (suc (suc zero))) h = refl
slots-Allocated (suc (suc (suc (suc zero)))) h = refl
slots-Allocated (suc (suc (suc (suc (suc zero))))) h = refl
slots-Allocated (suc (suc (suc (suc (suc (suc zero)))))) h = refl
slots-Allocated (suc (suc (suc (suc (suc (suc (suc zero))))))) h = refl
slots-Allocated (suc (suc (suc (suc (suc (suc (suc (suc i)))))))) h = absurd (omega arith)

unbind_frees_all_example :
    ((on_time_unbind_dma [] (device 6 0)).1 ≡ 0)
    × ((on_time_unbind_dma [] (device 6 0)).0.dma_mapped ≡ false)
    × (freed (on_time_unbind_dma [] (device 6 0)).0.effects ≡ allocated answers 8 ++ freed [])
unbind_frees_all_example = unbind_frees_all answers (device 6 0) [] slots-Allocated refl refl

mmap_reads_outside_example : kyouko3_mmap 0 9 0 (device 6 0) ≡ none
mmap_reads_outside_example =
    mmap_reads_outside (device 6 0) 0 9 refl (omega arith) (omega arith) (omega arith)

-- With three buffers queued the wait sees one report, and then a signal.
late_unbind_dma-frees_example :
    ((late_unbind_dma (reporting ∷ []) (device 1 3)).queued_count
      ≡ 3 - reported 0x10000 (reporting ∷ []))
    × ((late_unbind_dma (reporting ∷ []) (device 1 3)).dma_mapped ≡ false)
    × (freed (late_unbind_dma (reporting ∷ []) (device 1 3)).effects
        ≡ allocated answers 8 ++ freed [])
late_unbind_dma-frees_example =
    late_unbind_dma-frees answers (reporting ∷ []) (device 1 3) slots-Allocated (omega arith)

interrupted_write_lost_example :
    ((advance_head (dma_intr reporting (store_entry 4 4 (device 1 3))).0).fifo.head
      ≡ (1022 + 3) % 1024)
    × (window
          (advance_head (dma_intr reporting (store_entry 4 4 (device 1 3))).0).fifo.entries
          1022
          2
        ≡ transfer_commands (slot 7))
    × (get_or
          (advance_head (dma_intr reporting (store_entry 4 4 (device 1 3))).0).fifo.entries
          ((1022 + 2) % 1024)
          no_entry
        ≡ get_or (device 1 3).fifo.entries ((1022 + 2) % 1024) no_entry)
unfolding k_read_register
interrupted_write_lost_example =
    interrupted_write_lost reporting 4 4 (device 1 3) (device-IsFifo 1 3) (omega arith)
      (omega arith) (omega arith)
