-- ===== src/Kyouko3/Interrupted.antt =====
-- `FIFO_WRITE` with an interrupt in its middle: `fifo_queue` stores a command with interrupts on, and
-- `dma_intr` stores into the same queue (Kyouko3_GrpahicsDriver/mymod.c, lines 152 to 181 and 286 to
-- 292).
use os_spring.Common.{
  ℕ, ◌+◌, ◌%◌, ◌≤◌, ◌<◌, ◌≡◌, ◌≢◌, refl, ap, ◌∙◌, List, [], ◌∷◌, arith, inc32, dec32, u32, leb,
  if◌then◌else◌, set, get_or, length-set, get_or-set_ne,
}
use os_spring.Kyouko3.Register.{offset, buffer_a_address, buffer_a_config}
use os_spring.Kyouko3.State.{
  Kyouko3, Bus, Fifo, FifoEntry, DmaBuffer, buffer, store_fifo, fifo_write, fifo_entries,
  k_read_register,
}
use os_spring.Kyouko3.Dma.{dma_intr}
use os_spring.Kyouko3.Ring.{reports}
use os_spring.Kyouko3.Queue.{
  IsFifo, no_entry, window, write_all, write_all-head, write_all-window, write_all-other,
}

-- The two stores of `FIFO_WRITE`, and what follows them.
unfoldable pub store_entry : ℕ → ℕ → Kyouko3 → Kyouko3
store_entry reg value s = record s {
  fifo = record s.fifo {
    entries = set s.fifo.entries s.fifo.head (record { command = reg; value = value });
  };
  effects = store_fifo reg value ∷ s.effects;
}

unfoldable pub advance_head : Kyouko3 → Kyouko3
advance_head s =
    let moved : ℕ = inc32 s.fifo.head in
    record s { fifo = record s.fifo { head = if leb fifo_entries moved then 0 else moved } }

-- With nothing in between they are `FIFO_WRITE`.
fifo_write-eq :
    (reg value : ℕ) (s : Kyouko3) → fifo_write reg value s ≡ advance_head (store_entry reg value s)
unfolding fifo_write advance_head store_entry
fifo_write-eq reg value s = refl

-- the two commands that start a transfer
abbrev pub transfer_commands : DmaBuffer → List FifoEntry
transfer_commands b =
    record { command = offset buffer_a_address; value = u32 b.p_base }
    ∷ record { command = offset buffer_a_config; value = b.stored_count }
    ∷ []

dma_intr-fifo :
    (bus : Bus) (s : Kyouko3)
    → reports bus s ≢ 0
    → dec32 s.queued_count ≢ 0
    → (dma_intr bus s).0.fifo
      ≡ (write_all (transfer_commands (buffer s ((s.drain + 1) % 8))) s).fifo
unfolding dma_intr write_all
dma_intr-fifo bus s r more = ground arith

store_entry-IsFifo : (reg value : ℕ) (s : Kyouko3) → IsFifo s → IsFifo (store_entry reg value s)
unfolding store_entry
store_entry-IsFifo reg value s v = record {
  size = length-set s.fifo.entries s.fifo.head (record { command = reg; value = value }) ∙ v.size;
  head_in = v.head_in;
}

-- An interrupt that reports a transfer while others are queued, and that comes between the stores of
-- `FIFO_WRITE` and its increment of the head: its two commands take the place of the one that was
-- stored, and the increment behind it hands the card an entry that nobody wrote.
pub interrupted_write_lost :
    (bus : Bus) (reg value : ℕ) (s : Kyouko3)
    → IsFifo s
    → reports bus s ≢ 0
    → 1 < s.queued_count
    → s.queued_count ≤ 8
    → let t = advance_head (dma_intr bus (store_entry reg value s)).0 in
      let next = buffer s ((s.drain + 1) % 8) in
      (t.fifo.head ≡ (s.fifo.head + 3) % 1024)
      × (window t.fifo.entries s.fifo.head 2 ≡ transfer_commands next)
      × (get_or t.fifo.entries ((s.fifo.head + 2) % 1024) no_entry
          ≡ get_or s.fifo.entries ((s.fifo.head + 2) % 1024) no_entry)
unfolding advance_head store_entry k_read_register
interrupted_write_lost bus reg value s v r several le =
    let u = store_entry reg value s in
    let es = transfer_commands (buffer s ((s.drain + 1) % 8)) in
    let w = store_entry-IsFifo reg value s v in
    let e = dma_intr-fifo bus u r (omega arith) in
    let moved = write_all-head es u w in
    (
      rw e (ground (arith, moved)),
      ap (λ (f : Fifo). window f.entries s.fifo.head 2) e ∙ write_all-window es u w (omega arith),
      ap (λ (f : Fifo). get_or f.entries ((s.fifo.head + 2) % 1024) no_entry) e
          ∙ (write_all-other es u ((s.fifo.head + 2) % 1024) w (omega arith)
                (λ k h. omega (arith, v.head_in))
              ∙ get_or-set_ne s.fifo.entries s.fifo.head ((s.fifo.head + 2) % 1024)
                  (record { command = reg; value = value }) no_entry (omega (arith, v.head_in))),
    )
