-- ===== src/Kyouko3/Ring.antt =====
-- The DMA buffer queue as a system of steps: one user thread in `start_dma`, the interrupt handler
-- and the card, which works on one transfer after another and reports each by an interrupt
-- (Kyouko3_GrpahicsDriver/mymod.c, lines 160 to 282).
--
-- The spin lock disables interrupts only, so the steps of the thread are the stretches between the
-- points where an interrupt can come in: up to the unlock, and from there to the return or the wait.
pub mod Pending
pub mod Parts
pub mod Card
pub mod Invariant
pub mod Submit
pub mod Guarantees
pub mod Boards
pub mod Delivery
pub mod Opening
pub mod Timely
pub mod Calls
pub mod Flushes
pub mod Refine
pub mod Count
pub mod Users
pub mod Sessions
pub mod Closing
pub mod Signal
pub mod Callers
pub mod Memory
use os_spring.Common.{
  ℕ, suc, ◌+◌, ◌<◌, ◌≡◌, ◌≢◌, List, [], ◌∷◌, bit_and, u32, ◌==◌, if◌then◌else◌, length,
}
use os_spring.Kyouko3.Register.{offset, interrupt_status, buffer_a_address, buffer_a_config}
use os_spring.Kyouko3.State.{
  Kyouko3, SameQueue, Bus, Effect, store_fifo, buffer, k_read_register, fifo_write, dma_num_buffs,
}
use os_spring.Kyouko3.Dma.{
  dma_intr, Phase, refused, issuing, waiting, returning, start_dma_locked, start_dma_issue,
}

-- A transfer: the address of a buffer as the card sees it, and a byte count.
abbrev pub Transfer : Type 0
Transfer = ℕ × ℕ

-- The address that the FIFO stores give last.
unfoldable pub last_address : List Effect → ℕ
last_address [] = 0
last_address (store_fifo reg value ∷ es) =
    let rest = last_address es in if reg == offset buffer_a_address then value else rest
last_address (_ ∷ es) = last_address es

-- The transfers that were stored in the FIFO, newest first.
unfoldable pub transfers : List Effect → List Transfer
unfolding last_address
transfers [] = []
transfers (store_fifo reg value ∷ es) =
    if reg == offset buffer_a_config then (last_address es, value) ∷ transfers es else transfers es
transfers (_ ∷ es) = transfers es

pub data Thread : Type 0 where
  ready : Thread
  unissued : ℕ → Thread
  blocked : Thread

-- `submitted` lists what the thread has handed to `start_dma`, newest first; `completed` counts the
-- transfers that the card has reported.
pub record System : Type 0 where
  pub dev : Kyouko3
  pub thread : Thread
  pub submitted : List Transfer
  pub completed : ℕ

-- The thread has taken the locked stretch of `start_dma`.
unfoldable pub enter : ℕ → Kyouko3 × Phase → System → System
enter count (s, refused) y = record y { dev = s }
enter count (s, issuing) y = record y {
  dev = s;
  thread = unissued count;
  submitted = (u32 (buffer y.dev y.dev.fill).p_base, count) ∷ y.submitted;
}
enter count (s, waiting) y = record y {
  dev = s;
  thread = blocked;
  submitted = (u32 (buffer y.dev y.dev.fill).p_base, count) ∷ y.submitted;
}
enter count (s, returning) y = record y {
  dev = s;
  submitted = (u32 (buffer y.dev y.dev.fill).p_base, count) ∷ y.submitted;
}

-- whether the card reports a finished transfer
abbrev pub reports : Bus → Kyouko3 → ℕ
reports bus s = bit_and (k_read_register bus (offset interrupt_status) s) 0x02

-- The card reports a transfer only if it has one that is not reported yet; any other interrupt on
-- the shared line may come at any time. `command` is a FIFO command of the user program that is
-- not about buffer A, `other_call` any code of the driver that leaves the queue alone and gives the
-- card no transfer.
pub data Step (y z : System) : Type 0 where
  submit :
      (count : ℕ) → y.thread ≡ ready → z ≡ enter count (start_dma_locked count y.dev) y → Step y z
  issue :
      (count : ℕ)
      → y.thread ≡ unissued count
      → z ≡ record y { dev = start_dma_issue count y.dev; thread = ready }
      → Step y z
  resume :
      y.thread ≡ blocked
      → y.dev.queued_count ≢ dma_num_buffs
      → z ≡ record y { thread = ready }
      → Step y z
  completion :
      (bus : Bus)
      → reports bus y.dev ≢ 0
      → y.completed < length (transfers y.dev.effects)
      → z ≡ record y { dev = (dma_intr bus y.dev).0; completed = y.completed + 1 }
      → Step y z
  other_interrupt :
      (bus : Bus) → reports bus y.dev ≡ 0 → z ≡ record y { dev = (dma_intr bus y.dev).0 } → Step y z
  command :
      (reg value : ℕ)
      → y.thread ≡ ready
      → reg ≢ offset buffer_a_address
      → reg ≢ offset buffer_a_config
      → z ≡ record y { dev = fifo_write reg value y.dev }
      → Step y z
  other_call :
      (t : Kyouko3)
      → y.thread ≡ ready
      → SameQueue y.dev t
      → transfers t.effects ≡ transfers y.dev.effects
      → z ≡ record y { dev = t }
      → Step y z

pub data Reach (y : System) : System → Type 0 where
  here : Reach y y
  next : {z w : System} → Reach y z → Step z w → Reach y w
