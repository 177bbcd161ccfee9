-- ===== src/Kyouko3/Ring/Boards.antt =====
-- The driver and the card together: the steps of `Kyouko3.Ring`, and the card that takes commands
-- from the FIFO's memory (Kyouko3_GrpahicsDriver/mymod.c, lines 152 to 282).
use os_spring.Common.{
  ℕ, ◌+◌, ◌%◌, ◌<◌, ◌≡◌, ◌≢◌, ◌⊎◌, inl, inr, refl, ◌∙◌, List, ◌∷◌, arith, ◌==◌, if◌then◌else◌, true,
  false, get_or, length, bit_and, dec32, inc32, Bool-cases,
}
use os_spring.Kyouko3.Register.{offset, interrupt_status}
use os_spring.Kyouko3.State.{
  Kyouko3, FifoEntry, Bus, dma_not_full, wake_up_interruptible, perform, buffer, dma_num_buffs,
  k_read_register, k_write_register,
}
use os_spring.Kyouko3.Dma.{
  start_transfer, dma_intr, start_dma_locked, start_dma_issue, Phase, refused, issuing, waiting,
  returning,
}
use os_spring.Kyouko3.Queue.{no_entry}
use os_spring.Kyouko3.Ring.{
  Transfer, System, transfers, enter, reports, Step, submit, issue, resume, completion,
  other_interrupt, command, other_call, Reach, here, next,
}
use os_spring.Kyouko3.Ring.Invariant.{IsCoherent}
use os_spring.Kyouko3.Ring.Guarantees.{Reach-IsCoherent}
use os_spring.Kyouko3.Ring.Card.{
  stored, register_value, head_address, distance, carried, carried-stored, visible, Holds, Told,
  SameFifo, Holds-same, Told-same, start_transfer-Told, fetch-Told, fifo_write-Told,
  fifo_write-Holds,
}

-- Beside the driver: where its control window is mapped, the card's tail, and the commands that the
-- card has taken, newest first.
pub record Board : Type 0 where
  pub sys : System
  pub control : ℕ
  pub tail : ℕ
  pub taken : List FifoEntry

-- The transfers that the card was given: by the commands that it has taken, and by those that it
-- finds in the FIFO's memory between its tail and the head that it was last told.
abbrev pub given : Board → List Transfer
given y = carried (visible y.control y.tail y.taken y.sys.dev)

-- The FIFO has room for `n` commands more. The driver has no test for this.
abbrev pub Room : ℕ → Board → Type 0
Room n y = distance y.tail y.sys.dev.fifo.head + n < 1024

-- What a step asks of the card: room where the driver stores commands, and a report only of a
-- transfer whose commands the card has taken. Other calls store nothing.
abbrev pub Allowed : (y : Board) (t : System) → Step y.sys t → Type 0
Allowed y t (submit count e f) = Unit {0}
Allowed y t (issue count e f) = Room 2 y
Allowed y t (resume e ne f) = Unit {0}
Allowed y t (completion bus r lt f) = Room 2 y × (y.sys.completed < length (carried y.taken))
Allowed y t (other_interrupt bus r f) = Unit {0}
Allowed y t (command reg value e na nc f) = Room 1 y
Allowed y t (other_call u e same given f) = SameFifo y.control y.sys.dev u

pub data BoardStep (y z : Board) : Type 0 where
  drive :
      (t : System) (st : Step y.sys t) → Allowed y t st → z ≡ record y { sys = t } → BoardStep y z
  fetch :
      register_value (head_address y.control) y.sys.dev.effects ≢ y.tail
      → z ≡ record y {
        tail = (y.tail + 1) % 1024;
        taken = get_or y.sys.dev.fifo.entries y.tail no_entry ∷ y.taken;
      }
      → BoardStep y z

pub data BoardReach (y : Board) : Board → Type 0 where
  start : BoardReach y y
  later : {z w : Board} → BoardReach y z → BoardStep z w → BoardReach y w

-- The card and the driver agree on the FIFO.
pub record IsBoard (y : Board) : Type 0 where
  pub coherent : IsCoherent y.sys
  pub holds : Holds y.control y.tail y.taken y.sys.dev
  pub told : Told y.control y.tail y.taken y.sys.dev

start_dma_locked-SameFifo :
    (control count : ℕ) (s : Kyouko3) → SameFifo control s (start_dma_locked count s).0
unfolding start_dma_locked
start_dma_locked-SameFifo control count s = ground arith

enter-dev :
    (count : ℕ) (s : Kyouko3) (phase : Phase) (y : System) → (enter count (s, phase) y).dev ≡ s
unfolding enter
enter-dev count s refused y = refl
enter-dev count s issuing y = refl
enter-dev count s waiting y = refl
enter-dev count s returning y = refl

-- The handler up to its choice between a transfer and the threads that wait for an empty queue.
abbrev counted : Bus → Kyouko3 → Kyouko3
counted bus s =
    let iflags = k_read_register bus (offset interrupt_status) s in
    let s = k_write_register interrupt_status (bit_and iflags 0xf) s in
    let s = record s {
      queued_count = dec32 s.queued_count;
      drain = (s.drain + 1) % dma_num_buffs;
    } in
    if inc32 s.queued_count == dma_num_buffs
    then perform (wake_up_interruptible dma_not_full) s
    else s

counted-SameFifo :
    (control : ℕ) (bus : Bus) (s : Kyouko3)
    → s.k_control_base ≡ control
    → SameFifo control s (counted bus s)
unfolding k_read_register stored register_value
counted-SameFifo control bus s at = ground arith

dma_intr-other :
    (control : ℕ) (bus : Bus) (s : Kyouko3)
    → s.k_control_base ≡ control
    → (reports bus s == 0) ≡ true
    → SameFifo control s (dma_intr bus s).0
unfolding dma_intr stored register_value
dma_intr-other control bus s at z = ground arith

dma_intr-idle :
    (control : ℕ) (bus : Bus) (s : Kyouko3)
    → s.k_control_base ≡ control
    → (reports bus s == 0) ≡ false
    → (dec32 s.queued_count == 0) ≡ true
    → SameFifo control s (dma_intr bus s).0
unfolding dma_intr stored register_value
dma_intr-idle control bus s at nz idle = ground arith

dma_intr-more :
    (bus : Bus) (s : Kyouko3)
    → (reports bus s == 0) ≡ false
    → (dec32 s.queued_count == 0) ≡ false
    → (dma_intr bus s).0 ≡ (
        let b = buffer s ((s.drain + 1) % dma_num_buffs) in
        start_transfer b.p_base b.stored_count (counted bus s))
unfolding dma_intr start_transfer
dma_intr-more bus s nz more = ground arith

-- The handler stores nothing, or a transfer.
dma_intr-stores :
    (control : ℕ) (bus : Bus) (s : Kyouko3)
    → s.k_control_base ≡ control
    → SameFifo control s (dma_intr bus s).0
      ⊎ ((u : Kyouko3) × (address : ℕ) × (count : ℕ) × SameFifo control s u
          × ((dma_intr bus s).0 ≡ start_transfer address count u))
dma_intr-stores control bus s at = elim (Bool-cases (reports bus s == 0)) [
  | inl z ↦ inl (dma_intr-other control bus s at z)
  | inr nz ↦ elim (Bool-cases (dec32 s.queued_count == 0)) [
    | inl idle ↦ inl (dma_intr-idle control bus s at nz idle)
    | inr more ↦ inr (
      counted bus s,
      (buffer s ((s.drain + 1) % dma_num_buffs)).p_base,
      (buffer s ((s.drain + 1) % dma_num_buffs)).stored_count,
      counted-SameFifo control bus s at,
      dma_intr-more bus s nz more,
    )
  ]
]

start_dma_issue-eq :
    (count : ℕ) (s : Kyouko3)
    → start_dma_issue count s
      ≡ start_transfer
          (buffer s s.drain).p_base
          count
          (record s { fill = (s.fill + 1) % dma_num_buffs })
unfolding start_dma_issue
start_dma_issue-eq count s = refl

-- Each step of the driver keeps its agreement with the card.
abbrev Agree : Board → Kyouko3 → Type 0
Agree y s = Holds y.control y.tail y.taken s × Told y.control y.tail y.taken s

same-Agree : (y : Board) (s : Kyouko3) → IsBoard y → SameFifo y.control y.sys.dev s → Agree y s
same-Agree y s b same = (
  Holds-same y.control y.tail y.taken y.sys.dev s same b.holds,
  Told-same y.control y.tail y.taken y.sys.dev s same b.holds b.told,
)

transfer-Agree :
    (y : Board) (u : Kyouko3) (address count : ℕ)
    → IsBoard y
    → Room 2 y
    → SameFifo y.control y.sys.dev u
    → Agree y (start_transfer address count u)
transfer-Agree y u address count b room same =
    start_transfer-Told y.control y.tail y.taken address count u
      (Holds-same y.control y.tail y.taken y.sys.dev u same b.holds) (rw same.head room)

drive-Agree :
    (y : Board) (t : System) (st : Step y.sys t) → Allowed y t st → IsBoard y → Agree y t.dev
drive-Agree y t (submit count e f) ok b =
    let (s, phase) = start_dma_locked count y.sys.dev in
    rw (f, enter-dev count s phase y.sys)
      (same-Agree y s b (start_dma_locked-SameFifo y.control count y.sys.dev))
drive-Agree y t (issue count e f) ok b =
    rw (f, start_dma_issue-eq count y.sys.dev)
      (transfer-Agree y (record y.sys.dev { fill = (y.sys.dev.fill + 1) % dma_num_buffs }) _ count b
        ok (record { entries = refl; head = refl; window = refl; log = refl; told = inl refl }))
drive-Agree y t (resume e ne f) ok b = rw f (b.holds, b.told)
drive-Agree y t (completion bus r lt f) (room, taken) b =
    rw f (elim (dma_intr-stores y.control bus y.sys.dev b.holds.window) [
      | inl same ↦ same-Agree y _ b same
      | inr (u, address, count, same, e) ↦ rw e (transfer-Agree y u address count b room same)
    ])
drive-Agree y t (other_interrupt bus r f) ok b =
    rw f (same-Agree y _ b (dma_intr-other y.control bus y.sys.dev b.holds.window (ground arith)))
drive-Agree y t (command reg value e na nc f) room b = rw f (
  (fifo_write-Holds y.control y.tail y.taken reg value y.sys.dev b.holds room).0,
  fifo_write-Told y.control y.tail y.taken reg value y.sys.dev nc b.holds b.told room,
)
drive-Agree y t (other_call u e same given f) fifo b = rw f (same-Agree y u b fifo)

BoardStep-IsBoard : (y z : Board) → BoardStep y z → IsBoard y → IsBoard z
BoardStep-IsBoard y z (drive t st ok f) b =
    let (holds, told) = drive-Agree y t st ok b in
    rw f (record {
      coherent = Reach-IsCoherent y.sys t b.coherent (next here st);
      holds = holds;
      told = told;
    })
BoardStep-IsBoard y z (fetch more f) b =
    let (holds, told) = fetch-Told y.control y.tail y.taken y.sys.dev more b.holds b.told in
    rw f (record { coherent = b.coherent; holds = holds; told = told })

pub BoardReach-IsBoard : (y z : Board) → IsBoard y → BoardReach y z → IsBoard z
BoardReach-IsBoard y z b start = b
BoardReach-IsBoard y z b (later {z = u} r st) =
    BoardStep-IsBoard u z st (BoardReach-IsBoard y u b r)

-- The driver's part of a run.
pub BoardReach-Reach : (y z : Board) → BoardReach y z → Reach y.sys z.sys
BoardReach-Reach y z start = here
BoardReach-Reach y z (later {z = u} r (drive t st ok f)) = rw f (next (BoardReach-Reach y u r) st)
BoardReach-Reach y z (later {z = u} r (fetch more f)) = rw f (BoardReach-Reach y u r)

-- What the card was given is what the driver stored for it.
pub given-transfers : (y : Board) → IsBoard y → given y ≡ transfers y.sys.dev.effects
given-transfers y b = b.told.all_given ∙ carried-stored y.sys.dev.effects
