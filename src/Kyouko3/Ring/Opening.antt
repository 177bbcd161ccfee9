-- ===== src/Kyouko3/Ring/Opening.antt =====
-- The driver and the card from `kyouko3_open` and a `bind_dma` that succeeds on
-- (Kyouko3_GrpahicsDriver/mymod.c, lines 186 to 215 and 348 to 368).
use os_spring.Common.{ℕ, zero, suc, ◌+◌, ◌≡◌, refl, ◌∙◌, inl, false, List, [], ◌++◌, arith, length}
use os_spring.Kyouko3.State.{Kyouko3, Bus}
use os_spring.Kyouko3.Dma.{BindAnswers, bind_buffer, bind_buffers, bind_session}
use os_spring.Kyouko3.Files.{OpenAnswers, kyouko3_open}
use os_spring.Kyouko3.Binding.{asked, bind_dma-session}
use os_spring.Kyouko3.Ring.{Transfer}
use os_spring.Kyouko3.Ring.Card.{
  stored, register_value, head_address, Holds, SameFifo, Holds-same, Told-same, Told-head,
}
use os_spring.Kyouko3.Ring.Memory.{IsInside, All, session, session-IsCoherent, session-IsInside}
use os_spring.Kyouko3.Ring.Boards.{
  Board, given, IsBoard, BoardReach, BoardReach-IsBoard, BoardReach-Reach, given-transfers,
}

-- Loops that store nothing in the FIFO.
bind_buffers-SameFifo :
    (control : ℕ) (answers : BindAnswers) (rounds i : ℕ) (s : Kyouko3)
    → SameFifo control s (bind_buffers answers rounds i s)
unfolding bind_buffers bind_buffer stored register_value
bind_buffers-SameFifo control answers zero i s = record {
  entries = refl;
  head = refl;
  window = refl;
  log = refl;
  told = inl refl;
}
bind_buffers-SameFifo control answers (suc rounds) i s =
    let rest = bind_buffers-SameFifo control answers rounds (i + 1) (bind_buffer answers i s) in
    record {
      entries = rest.entries;
      head = rest.head;
      window = rest.window;
      log = rest.log;
      told = rest.told;
    }

bind_session-SameFifo :
    (control : ℕ) (answers : BindAnswers) (s : Kyouko3)
    → s.k_control_base ≡ control
    → SameFifo control s (bind_session answers s).0
unfolding bind_session stored register_value
bind_session-SameFifo control answers s at =
    let b = bind_buffers-SameFifo control answers 8 0 s in ground (arith, b, b.window)

asked-SameFifo : (control : ℕ) (s : Kyouko3) → SameFifo control s (asked s)
unfolding asked stored register_value
asked-SameFifo control s = record {
  entries = refl;
  head = refl;
  window = refl;
  log = refl;
  told = inl refl;
}

-- The card's tail is at the start of the memory that it was told.
abbrev pub session_board : OpenAnswers → Bus → BindAnswers → Kyouko3 → Board
session_board memory bus answers s = record {
  sys = session memory bus answers s;
  control = memory.control_base;
  tail = 0;
  taken = [];
}

opened-unmapped :
    (memory : OpenAnswers) (bus : Bus) (s : Kyouko3)
    → (kyouko3_open memory bus s).0.dma_mapped ≡ false
unfolding kyouko3_open
opened-unmapped memory bus s = refl

asked-window : (s : Kyouko3) → (asked s).k_control_base ≡ s.k_control_base
unfolding asked
asked-window s = refl

opened-Holds :
    (memory : OpenAnswers) (bus : Bus) (s : Kyouko3)
    → length memory.fifo_memory ≡ 1024
    → s.effects ≡ []
    → let t = (kyouko3_open memory bus s).0 in
      Holds memory.control_base 0 [] t
      × (register_value (head_address memory.control_base) t.effects ≡ t.fifo.head)
unfolding kyouko3_open stored register_value
opened-Holds memory bus s size fresh = (
  record {
    fifo = record { size = size; head_in = omega arith };
    window = refl;
    tail_in = omega arith;
    history = rw fresh;
  },
  rw fresh (ground arith),
)

pub session-IsBoard :
    (memory : OpenAnswers) (bus : Bus) (answers : BindAnswers) (s : Kyouko3)
    → length memory.fifo_memory ≡ 1024
    → answers.pci_enable_msi ≡ 0
    → answers.request_irq ≡ 0
    → length s.dma_buffers ≡ 8
    → s.effects ≡ []
    → IsBoard (session_board memory bus answers s)
session-IsBoard memory bus answers s room msi irq size fresh =
    let control = memory.control_base in
    let opened = (kyouko3_open memory bus s).0 in
    let (holds, told) = opened-Holds memory bus s room fresh in
    let t = asked opened in
    let bound = bind_session-SameFifo control answers t (asked-window opened ∙ holds.window) in
    let holds' = Holds-same control 0 [] opened t (asked-SameFifo control opened) holds in
    let told' =
      Told-same control 0 [] opened t (asked-SameFifo control opened) holds
        (Told-head control 0 [] opened holds told) in
    let e = bind_dma-session answers opened (opened-unmapped memory bus s) msi irq in
    record {
      coherent = (session-IsCoherent memory bus answers s msi irq size fresh).0;
      holds = rw e (Holds-same control 0 [] t _ bound holds');
      told = rw e (Told-same control 0 [] t _ bound holds' told');
    }

-- From `kyouko3_open` of a device with no effects yet, with memory for 1024 commands, and a
-- `bind_dma` that succeeds on, in every run of the driver and the card with one thread, no command
-- of the program about buffer A, no signal that ends a wait, room in the FIFO wherever the driver
-- stores commands, no interrupt inside of a `FIFO_WRITE`, and a card that reports only transfers
-- whose commands it took: each transfer that the card was given, by the commands that it took and
-- those that it finds up to the head that it was last told, has some bytes, no more than a buffer
-- holds, and reads from the address of one of the eight allocations; and they are the first
-- transfers submitted, in order.
pub card_reads-IsInside :
    (memory : OpenAnswers) (bus : Bus) (answers : BindAnswers) (s : Kyouko3) (z : Board)
    → length memory.fifo_memory ≡ 1024
    → answers.pci_enable_msi ≡ 0
    → answers.request_irq ≡ 0
    → length s.dma_buffers ≡ 8
    → s.effects ≡ []
    → BoardReach (session_board memory bus answers s) z
    → All (IsInside (λ i. (answers.pci_alloc_consistent i).1)) (given z)
      × ((p : List Transfer) × (z.sys.submitted ≡ p ++ given z))
card_reads-IsInside memory bus answers s z room msi irq size fresh r =
    let y = session_board memory bus answers s in
    let b = session-IsBoard memory bus answers s room msi irq size fresh in
    let same = given-transfers z (BoardReach-IsBoard y z b r) in
    rw same
      (session-IsInside memory bus answers s z.sys msi irq size fresh (BoardReach-Reach y z r))
