-- ===== src/Kyouko3/Ring/Delivery.antt =====
-- What the card is given by way of the FIFO's memory, in every state that the driver and the card can
-- reach (Kyouko3_GrpahicsDriver/mymod.c, lines 152 to 282).
use os_spring.Common.{
  suc, ◌+◌, ◌-◌, ◌%◌, ◌<◌, ◌≤◌, ◌≡◌, ◌≢◌, ◌⊎◌, inl, inr, refl, sym, ap, ◌∙◌, List, [], ◌∷◌, ◌++◌,
  arith, ◌==◌, if◌then◌else◌, length,
}
use os_spring.Kyouko3.Register.{offset, buffer_a_config}
use os_spring.Kyouko3.State.{Bus, FifoEntry}
use os_spring.Kyouko3.Dma.{dma_intr}
use os_spring.Kyouko3.Ring.{Transfer, ready, blocked, reports}
use os_spring.Kyouko3.Ring.Guarantees.{
  transfers_in_order, nothing_left_behind, wake_ups, blocked_wakes,
}
use os_spring.Kyouko3.Ring.Card.{address_of, carried, register_value, head_address}
use os_spring.Kyouko3.Ring.Boards.{
  Board, given, IsBoard, BoardReach, BoardReach-IsBoard, BoardReach-Reach, given-transfers,
}

-- What the card has taken is the older part of what it was given.
carried-append :
    (es fs : List FifoEntry) → (q : List Transfer) × (carried (es ++ fs) ≡ q ++ carried fs)
unfolding carried
carried-append [] fs = ([], refl)
carried-append (e ∷ es) fs =
    let (q, same) = carried-append es fs in
    (
      if e.command == offset buffer_a_config then (address_of (es ++ fs), e.value) ∷ q else q,
      ground (arith, same),
    )

-- In every run of the driver and the card from a state in which they agree on the FIFO, with one
-- thread, no command of the program about buffer A, no signal that ends a wait, room in the FIFO
-- wherever the driver stores commands, no interrupt inside of a `FIFO_WRITE`, and a card that
-- reports only transfers whose commands it took: the transfers that the card was given, by the
-- commands that it took and those that it finds in the FIFO's memory up to the head that it was
-- last told, are the first ones that the thread submitted, each once, in the order of submission,
-- with the buffer's address and the count of the call; those that it was not given yet are no more
-- than the queue holds; and those whose commands it took are the first ones given.
pub given_in_order :
    (y z : Board)
    → IsBoard y
    → BoardReach y z
    → ((p : List Transfer) × (z.sys.submitted ≡ p ++ given z) × (length p ≤ z.sys.dev.queued_count))
      × ((q : List Transfer) × (given z ≡ q ++ carried z.taken))
given_in_order y z b r =
    let same = given-transfers z (BoardReach-IsBoard y z b r) in
    let (p, order, few) = transfers_in_order y.sys z.sys b.coherent (BoardReach-Reach y z r) in
    ((p, order ∙ ap (λ (l : List Transfer). p ++ l) (sym same), few), carried-append _ z.taken)

-- A card whose tail is at the head that it was told has taken all that it was given.
taken-all :
    (z : Board)
    → IsBoard z
    → register_value (head_address z.control) z.sys.dev.effects ≡ z.tail
    → given z ≡ carried z.taken
taken-all z b e =
    let none_left : (register_value (head_address z.control) z.sys.dev.effects + 1024 - z.tail)
          % 1024
        ≡ 0 =
      omega (arith, b.told.told_in) in
    rw none_left

-- In every run of the driver and the card from a state in which they agree on the FIFO, with one
-- thread, no command of the program about buffer A, no signal that ends a wait, room in the FIFO
-- wherever the driver stores commands, no interrupt inside of a `FIFO_WRITE`, and a card that
-- reports only transfers whose commands it took: once the thread is outside `start_dma`, the card's
-- tail is at the head that it was last told and the card has reported every transfer whose commands
-- it took, it took everything that the thread submitted, in that order.
pub card_catches_up :
    (y z : Board)
    → IsBoard y
    → BoardReach y z
    → z.sys.thread ≡ ready
    → register_value (head_address z.control) z.sys.dev.effects ≡ z.tail
    → z.sys.completed ≡ length (carried z.taken)
    → z.sys.submitted ≡ carried z.taken
card_catches_up y z b r e caught done =
    let agree = BoardReach-IsBoard y z b r in
    let same = sym (taken-all z agree caught) ∙ given-transfers z agree in
    nothing_left_behind y.sys z.sys b.coherent (BoardReach-Reach y z r) e (done ∙ ap length same)
    ∙ sym same

-- In every run of the driver and the card from a state in which they agree on the FIFO, with one
-- thread, no command of the program about buffer A, no signal that ends a wait, room in the FIFO
-- wherever the driver stores commands, no interrupt inside of a `FIFO_WRITE`, and a card that
-- reports only transfers whose commands it took: no wake-up is lost: a thread that waits for room
-- finds its condition true already, or the card was given a transfer that it has not reported, and
-- the interrupt that reports it wakes the thread with its condition true.
pub waiting_wakes :
    (y z : Board) (bus : Bus)
    → IsBoard y
    → BoardReach y z
    → z.sys.thread ≡ blocked
    → reports bus z.sys.dev ≢ 0
    → (z.sys.dev.queued_count ≢ 8)
      ⊎ ((z.sys.completed < length (given z))
          × ((dma_intr bus z.sys.dev).0.queued_count ≢ 8)
          × (wake_ups (dma_intr bus z.sys.dev).0.effects ≡ suc (wake_ups z.sys.dev.effects)))
waiting_wakes y z bus b r e rep =
    let same = given-transfers z (BoardReach-IsBoard y z b r) in
    elim (blocked_wakes y.sys z.sys bus b.coherent (BoardReach-Reach y z r) e rep) [
      | inl room ↦ inl room
      | inr (some_left, room, woken) ↦ inr (rw same some_left, room, woken)
    ]
