-- ===== src/Kyouko3/Tests/Board.antt =====
-- Tests of the driver and the card together: their theorems on a new device, and on one at work.
use os_spring.Common.{
  suc, ◌+◌, ◌<◌, ◌≤◌, ◌≡◌, ◌≢◌, ◌⊎◌, refl, List, [], ◌∷◌, ◌++◌, arith, length, get_or,
}
use os_spring.Kyouko3.State.{Kyouko3, k_read_register}
use os_spring.Kyouko3.Dma.{
  start_transfer, bind_session, bind_buffers, bind_dma, dma_intr, start_dma_locked, start_dma_issue,
}
use os_spring.Kyouko3.Files.{kyouko3_open}
use os_spring.Kyouko3.Queue.{no_entry}
use os_spring.Kyouko3.Ring.{Transfer, transfers, ready, System, enter, submit, issue, completion}
use os_spring.Kyouko3.Ring.Pending.{pending}
use os_spring.Kyouko3.Ring.Guarantees.{wake_ups}
use os_spring.Kyouko3.Ring.Card.{carried, stored, register_value}
use os_spring.Kyouko3.Ring.Memory.{IsInside, All}
use os_spring.Kyouko3.Ring.Boards.{Board, given, IsBoard, BoardReach, start, later, drive, fetch}
use os_spring.Kyouko3.Ring.Delivery.{given_in_order, card_catches_up, waiting_wakes}
use os_spring.Kyouko3.Ring.Opening.{session_board, session-IsBoard, card_reads-IsInside}
use os_spring.Kyouko3.Tests.Samples.{slot, slots, device, reporting, memory, answers}

-- A new device with a FIFO and eight buffers: a submission of 72 bytes, its stores, the card that takes
-- the two commands, and its report.
abbrev begun : Board
begun = session_board memory reporting answers (device 6 0)

abbrev entered : System
entered = enter 72 (start_dma_locked 72 begun.sys.dev) begun.sys

abbrev issued : System
issued = record entered { dev = start_dma_issue 72 entered.dev; thread = ready }

abbrev told : Board
told = record begun { sys = issued }

abbrev took : Board → Board
took y = record y {
  tail = y.tail + 1;
  taken = get_or y.sys.dev.fifo.entries y.tail no_entry ∷ y.taken;
}

abbrev caught_up : Board
caught_up = took (took told)

abbrev reported : Board
reported = record caught_up {
  sys = record issued { dev = (dma_intr reporting issued.dev).0; completed = 1 };
}

begun-IsBoard : IsBoard begun
begun-IsBoard = session-IsBoard memory reporting answers (device 6 0) refl refl refl refl refl

begun-Reach-told : BoardReach begun told
unfolding start_dma_locked enter bind_dma bind_session bind_buffers kyouko3_open
begun-Reach-told =
    later (later start (drive entered (submit 72 refl refl) tt refl))
      (drive issued (issue 72 refl refl) (omega arith) refl)

begun-Reach-caught_up : BoardReach begun caught_up
unfolding start_dma_locked start_dma_issue enter bind_dma bind_session bind_buffers kyouko3_open
    register_value
begun-Reach-caught_up =
    later (later begun-Reach-told (fetch (omega arith) refl)) (fetch (omega arith) refl)

begun-Reach-reported : BoardReach begun reported
unfolding start_dma_locked start_dma_issue enter bind_dma bind_session bind_buffers kyouko3_open
    k_read_register carried transfers dma_intr
begun-Reach-reported = later begun-Reach-caught_up (
    drive reported.sys (completion reporting (omega arith) (omega arith) refl)
      (omega arith, omega arith) refl)

given_in_order_example :
    ((p : List Transfer) × (told.sys.submitted ≡ p ++ given told)
      × (length p ≤ told.sys.dev.queued_count))
    × ((q : List Transfer) × (given told ≡ q ++ carried told.taken))
given_in_order_example = given_in_order begun told begun-IsBoard begun-Reach-told

card_catches_up_example : reported.sys.submitted ≡ carried reported.taken
unfolding start_dma_locked start_dma_issue enter bind_dma bind_session bind_buffers kyouko3_open
    k_read_register carried transfers dma_intr register_value
card_catches_up_example =
    card_catches_up begun reported begun-IsBoard begun-Reach-reported refl refl refl

card_reads-IsInside_example :
    All (IsInside (λ i. (slot i).p_base)) (given told)
    × ((p : List Transfer) × (told.sys.submitted ≡ p ++ given told))
card_reads-IsInside_example =
    card_reads-IsInside memory reporting answers (device 6 0) told refl refl refl refl refl
      begun-Reach-told

-- Seven buffers queued, the oldest of which was just given to the card; and the submission that finds
-- the queue full.
abbrev card_at_work : Kyouko3
card_at_work = start_transfer (slot 6).p_base 72 (device 5 7)

abbrev seven : Board
seven = record {
  sys = record {
    dev = card_at_work;
    thread = ready;
    submitted = pending slots 6 6 ++ transfers card_at_work.effects;
    completed = 0;
  };
  control = 0x10000;
  tail = 1022;
  taken = [];
}

abbrev full : Board
full = record seven { sys = enter 144 (start_dma_locked 144 seven.sys.dev) seven.sys }

seven-IsBoard : IsBoard seven
unfolding transfers start_transfer stored register_value carried
seven-IsBoard = record {
  coherent = record {
    ring = record { size = refl; fill_in = omega arith; drain_in = omega arith };
    at = ((refl, refl, refl), omega arith);
  };
  holds = record {
    fifo = record { size = refl; head_in = omega arith };
    window = refl;
    tail_in = omega arith;
    history = refl;
  };
  told = record { told_in = omega arith; behind = omega arith; all_given = refl };
}

seven-Reach-full : BoardReach seven full
unfolding start_dma_locked enter
seven-Reach-full = later start (drive full.sys (submit 144 refl refl) tt refl)

waiting_wakes_example :
    (full.sys.dev.queued_count ≢ 8)
    ⊎ ((full.sys.completed < length (given full))
        × ((dma_intr reporting full.sys.dev).0.queued_count ≢ 8)
        × (wake_ups (dma_intr reporting full.sys.dev).0.effects
            ≡ suc (wake_ups full.sys.dev.effects)))
unfolding start_dma_locked enter k_read_register start_transfer
waiting_wakes_example =
    waiting_wakes seven full reporting seven-IsBoard seven-Reach-full refl (omega arith)
