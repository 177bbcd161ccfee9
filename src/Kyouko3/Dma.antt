-- ===== src/Kyouko3/Dma.antt =====
-- The interrupt handler and the DMA buffer queue (Kyouko3_GrpahicsDriver/mymod.c, lines 160 to 282).
--
-- An interrupt runs `dma_intr`, to which the card answers by a `Bus`. Where the code lets one in,
-- a list says which interrupts arrive there, in order.
use os_spring.Common.{
  ℕ, zero, suc, ◌+◌, ◌*◌, ◌%◌, ◌^◌, true, false, not, List, [], ◌∷◌, bit_and, u32, inc32, dec32,
  ltb, ◌==◌, if◌then◌else◌, set,
}
use os_spring.Kyouko3.Register.{offset, interrupt_status, buffer_a_address, buffer_a_config}
use os_spring.Kyouko3.Register.{fifo_head, config_interrupt}
use os_spring.Kyouko3.State.{
  Kyouko3, DmaBuffer, Bus, WaitQueue, dma_not_full, dma_empty, wake_up_interruptible, perform,
  buffer, k_read_register, k_write_register, fifo_write, dma_num_buffs, dma_buff_size,
}
use os_spring.Kyouko3.State

pub data IrqReturn : Type 0 where
  irq_none irq_handled : IrqReturn

-- The address and the byte count of a buffer go to the card through the FIFO.
unfoldable pub start_transfer : ℕ → ℕ → Kyouko3 → Kyouko3
unfolding fifo_write
start_transfer address count s =
    let s = fifo_write (offset buffer_a_address) (u32 address) s in
    let s = fifo_write (offset buffer_a_config) count s in k_write_register fifo_head s.fifo.head s

-- The handler once the interrupt is known to be the card's.
unfoldable pub retire_buffer : Kyouko3 → Kyouko3
unfolding start_transfer
retire_buffer s =
    let s = record s {
      queued_count = dec32 s.queued_count;
      drain = (s.drain + 1) % dma_num_buffs;
    } in
    let s =
      if inc32 s.queued_count == dma_num_buffs
      then perform (wake_up_interruptible dma_not_full) s
      else s in
    let b = buffer s s.drain in
    if s.queued_count == 0
    then perform (wake_up_interruptible dma_empty) s
    else start_transfer b.p_base b.stored_count s

unfoldable pub dma_intr : Bus → Kyouko3 → Kyouko3 × IrqReturn
unfolding retire_buffer k_read_register
dma_intr bus s =
    let iflags = k_read_register bus (offset interrupt_status) s in
    let s = k_write_register interrupt_status (bit_and iflags 0xf) s in
    if bit_and iflags 0x02 == 0 then (s, irq_none) else (retire_buffer s, irq_handled)

unfoldable pub interrupts : List Bus → Kyouko3 → Kyouko3
interrupts [] s = s
interrupts (bus ∷ more) s = interrupts more (dma_intr bus s).0

-- `wait_event_interruptible(dma_not_full, ...)`. Each interrupt lets the condition be tested again;
-- where the list ends first, a signal ends the wait.
unfoldable pub wait_not_full : List Bus → Kyouko3 → Kyouko3
wait_not_full [] s = s
wait_not_full (bus ∷ more) s =
    let rest = wait_not_full more (dma_intr bus s).0 in
    if s.queued_count == dma_num_buffs then rest else s

unfoldable pub wait_empty : List Bus → Kyouko3 → Kyouko3
wait_empty [] s = s
wait_empty (bus ∷ more) s =
    let rest = wait_empty more (dma_intr bus s).0 in if s.queued_count == 0 then s else rest

-- What `start_dma` has left to do when it gives up its spin lock.
pub data Phase : Type 0 where
  refused issuing waiting returning : Phase

-- Up to `spin_unlock_irqrestore`. The comparison with the unsigned size reads `count` as unsigned.
unfoldable pub start_dma_locked : ℕ → Kyouko3 → Kyouko3 × Phase
start_dma_locked count s =
    if count == 0
    then (s, refused)
    else if ltb dma_buff_size count
    then (s, refused)
    else let s = record s { queued_count = inc32 s.queued_count } in
      let b = buffer s s.fill in
      let next : ℕ = (s.fill + 1) % dma_num_buffs in
      if s.fill == s.drain then (s, issuing) else (
        record s {
          dma_buffers = set s.dma_buffers s.fill (record b { stored_count = count });
          fill = next;
        },
        if next == s.drain then waiting else returning,
      )

-- The rest of the branch in which the queue was empty.
unfoldable pub start_dma_issue : ℕ → Kyouko3 → Kyouko3
unfolding start_transfer
start_dma_issue count s =
    let s = record s { fill = (s.fill + 1) % dma_num_buffs } in
    start_transfer (buffer s s.drain).p_base count s

-- `start_dma`: the interrupts `gap` arrive as soon as the lock is given up, and `wait` during the
-- wait. A refused call returns 0.
unfoldable pub start_dma_finish : Phase → ℕ → List Bus → Kyouko3 → Kyouko3 × ℕ
start_dma_finish refused count wait s = (s, 0)
start_dma_finish issuing count wait s =
    let s = start_dma_issue count s in (s, (buffer s s.fill).u_base)
start_dma_finish waiting count wait s =
    let s = wait_not_full wait s in (s, (buffer s s.fill).u_base)
start_dma_finish returning count wait s = (s, (buffer s s.fill).u_base)

unfoldable pub start_dma : ℕ → List Bus → List Bus → Kyouko3 → Kyouko3 × ℕ
unfolding start_dma_locked start_dma_finish start_dma_issue interrupts wait_not_full
start_dma count gap wait s =
    let (s, phase) = start_dma_locked count s in
    start_dma_finish phase count wait (interrupts gap s)

-- What the kernel answers to `bind_dma`: a status of 0 is success. The `i`th allocation gives a
-- kernel and a card address, the `i`th mapping a user address.
pub record BindAnswers : Type 0 where
  pub pci_enable_msi : ℕ
  pub request_irq : ℕ
  pub pci_alloc_consistent : ℕ → ℕ × ℕ
  pub vm_mmap : ℕ → ℕ

abbrev pub page_size : ℕ
page_size = 2 ^ 12

-- One round of the loop of `bind_dma`.
unfoldable pub bind_buffer : BindAnswers → ℕ → Kyouko3 → Kyouko3
bind_buffer answers i s =
    let (k, p) = answers.pci_alloc_consistent i in
    let b = buffer s i in
    let fresh = record b { k_base = k; p_base = p; u_base = answers.vm_mmap i } in
    perform (State.vm_mmap dma_buff_size ((i + 1) * page_size)) (
      perform (State.pci_alloc_consistent dma_buff_size)
        (record s { dma_buffers = set s.dma_buffers i fresh }))

unfoldable pub bind_buffers : BindAnswers → (rounds i : ℕ) → Kyouko3 → Kyouko3
unfolding bind_buffer
bind_buffers answers zero i s = s
bind_buffers answers (suc rounds) i s =
    bind_buffers answers rounds (i + 1) (bind_buffer answers i s)

-- `bind_dma` once both answers are a success.
unfoldable pub bind_session : BindAnswers → Kyouko3 → Kyouko3 × ℕ
bind_session answers s =
    let s = bind_buffers answers dma_num_buffs 0 s in
    let s = record s { dma_mapped = true; fill = 0; drain = 0; queued_count = 0 } in
    let s = k_write_register config_interrupt 0x02 s in (s, (buffer s s.fill).u_base)

unfoldable pub bind_dma : BindAnswers → Kyouko3 → Kyouko3 × ℕ
bind_dma answers s =
    if s.dma_mapped
    then (s, 0)
    else let s = perform State.pci_enable_msi s in
      if not (answers.pci_enable_msi == 0)
      then (s, 0)
      else let s = perform State.request_irq s in
        if not (answers.request_irq == 0)
        then (perform State.pci_disable_msi s, 0)
        else bind_session answers s

unfoldable pub free_buffers : (rounds i : ℕ) → Kyouko3 → Kyouko3
free_buffers zero i s = s
free_buffers (suc rounds) i s =
    let b = buffer s i in
    free_buffers rounds (i + 1)
      (perform (State.pci_free_consistent dma_buff_size b.k_base b.p_base) s)

-- The interrupts `wait` arrive while the driver waits for an empty queue.
unfoldable pub late_unbind_dma : List Bus → Kyouko3 → Kyouko3
late_unbind_dma wait s =
    let s = if s.queued_count == 0 then s else wait_empty wait s in
    let s = free_buffers dma_num_buffs 0 s in
    let s = k_write_register config_interrupt 0x0 s in
    record (perform State.pci_disable_msi (perform State.free_irq s)) { dma_mapped = false }

unfoldable pub unmap_buffers : (rounds i : ℕ) → Kyouko3 → Kyouko3
unmap_buffers zero i s = s
unmap_buffers (suc rounds) i s =
    unmap_buffers rounds (i + 1) (perform (State.vm_munmap (buffer s i).u_base dma_buff_size) s)

unfoldable pub on_time_unbind_dma : List Bus → Kyouko3 → Kyouko3 × ℕ
on_time_unbind_dma wait s =
    if s.dma_mapped then (late_unbind_dma wait (unmap_buffers dma_num_buffs 0 s), 0) else (s, 1)
