-- ===== src/Kyouko3/Tests/Samples.antt =====
-- A device with eight DMA buffers and an empty FIFO, and answers of its card.
use os_spring.Common.{ℕ, ◌+◌, ◌*◌, refl, true, List, [], ◌∷◌, arith, replicate}
use os_spring.Kyouko3.State.{Kyouko3, Bus, FifoEntry, DmaBuffer}
use os_spring.Kyouko3.Dma.{BindAnswers}
use os_spring.Kyouko3.Files.{OpenAnswers}
use os_spring.Kyouko3.Graphics.{Turn}
use os_spring.Kyouko3.Bounds.{IsDevice}
use os_spring.Kyouko3.Queue.{IsFifo}

abbrev pub slot : ℕ → DmaBuffer
slot i = record {
  p_base = 4096 * (i + 1);
  k_base = 8192 * (i + 1);
  u_base = 16384 * (i + 1);
  stored_count = 0;
}

abbrev pub slots : List DmaBuffer
slots = slot 0 ∷ slot 1 ∷ slot 2 ∷ slot 3 ∷ slot 4 ∷ slot 5 ∷ slot 6 ∷ slot 7 ∷ []

abbrev pub sample_entry : ℕ → FifoEntry
sample_entry n = record { command = n; value = n }

-- a device with `queued` buffers queued from slot 6 on
abbrev pub device : (fill queued : ℕ) → Kyouko3
device fill queued = record {
  p_control_base = 0xf0000000;
  p_ram_card_base = 0xe0000000;
  k_control_base = 0x10000;
  k_ram_card_base = 0x20000;
  fifo = record {
    p_base = 0x3000;
    k_base = 0x4000;
    entries = replicate 1024 (sample_entry 0);
    head = 1022;
    tail_cache = 1022;
  };
  graphics_on = true;
  dma_mapped = true;
  dma_buffers = slots;
  fill = fill;
  drain = 6;
  queued_count = queued;
  effects = [];
}

abbrev pub reporting : Bus
reporting address = 2

pub device-IsDevice : IsDevice (device 6 0)
device-IsDevice = record {
  entries = refl;
  head_in = omega arith;
  size = refl;
  fill_in = omega arith;
  drain_in = omega arith;
}

-- the card's tail, one command further
abbrev pub tail_answer : Bus
tail_answer address = 1023

abbrev pub turn : Turn
turn = record { bus = tail_answer; arriving = [] }

pub device-IsFifo : (fill queued : ℕ) → IsFifo (device fill queued)
device-IsFifo fill queued = record { size = refl; head_in = omega arith }

abbrev pub memory : OpenAnswers
memory = record {
  control_base = 0x10000;
  ram_card_base = 0x20000;
  fifo_p_base = 0x3000;
  fifo_k_base = 0x4000;
  fifo_memory = replicate 1024 (sample_entry 0);
}

abbrev pub answers : BindAnswers
answers = record {
  pci_enable_msi = 0;
  request_irq = 0;
  pci_alloc_consistent = λ i. ((slot i).k_base, (slot i).p_base);
  vm_mmap = λ i. (slot i).u_base;
}
