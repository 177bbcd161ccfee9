-- ===== src/Kyouko3/Bounds/Dma.antt =====
-- The DMA operations and the interrupt handler stay in bounds
-- (Kyouko3_GrpahicsDriver/mymod.c, lines 160 to 282).
use os_spring.Common.{
  ℕ, zero, suc, ◌+◌, ◌%◌, u32, dec32, bit_and, List, [], ◌∷◌, arith, length-set, Bool-cases, inl,
  inr, ◌==◌,
}
use os_spring.Kyouko3.State.{
  Kyouko3, request_irq, pci_enable_msi, k_read_register, k_write_register, fifo_write, perform,
  wake_up_interruptible, dma_not_full, Bus, DmaBuffer, buffer, dma_num_buffs,
}
use os_spring.Kyouko3.Register.{offset, interrupt_status, buffer_a_address, buffer_a_config}
use os_spring.Kyouko3.Dma.{
  start_transfer, retire_buffer, dma_intr, interrupts, wait_not_full, wait_empty, Phase, refused,
  issuing, waiting, returning, start_dma_locked, start_dma_issue, start_dma_finish, start_dma,
  BindAnswers, bind_buffer, bind_buffers, bind_session, bind_dma, free_buffers, unmap_buffers,
  late_unbind_dma, on_time_unbind_dma,
}
use os_spring.Kyouko3.Bounds.{IsDevice, fifo_write-IsDevice}

pub start_transfer-IsDevice :
    (address count : ℕ) (s : Kyouko3) → IsDevice s → IsDevice (start_transfer address count s)
unfolding start_transfer
start_transfer-IsDevice address count s v =
    let a : ℕ = u32 address in
    let first = fifo_write-IsDevice (offset buffer_a_address) a s v in
    fifo_write-IsDevice (offset buffer_a_config) count (fifo_write (offset buffer_a_address) a s)
      first

retired-IsDevice : (s : Kyouko3) → IsDevice s → IsDevice (retire_buffer s)
unfolding retire_buffer
retired-IsDevice s v =
    let d : ℕ = (s.drain + 1) % dma_num_buffs in
    let s' : Kyouko3 = record s { queued_count = dec32 s.queued_count; drain = d } in
    let v' : IsDevice s' = omega arith in
    let woken : Kyouko3 = perform (wake_up_interruptible dma_not_full) s' in
    let b = buffer s' d in
    ground (
      arith,
      start_transfer-IsDevice b.p_base b.stored_count s' v',
      start_transfer-IsDevice b.p_base b.stored_count woken v',
    )

pub dma_intr-IsDevice : (bus : Bus) (s : Kyouko3) → IsDevice s → IsDevice (dma_intr bus s).0
unfolding dma_intr
dma_intr-IsDevice bus s v =
    let iflags = k_read_register bus (offset interrupt_status) s in
    let s' = k_write_register interrupt_status (bit_and iflags 0xf) s in
    ground (arith, retired-IsDevice s' v)

pub interrupts-IsDevice :
    (buses : List Bus) (s : Kyouko3) → IsDevice s → IsDevice (interrupts buses s)
unfolding interrupts
interrupts-IsDevice [] s v = v
interrupts-IsDevice (bus ∷ more) s v =
    interrupts-IsDevice more (dma_intr bus s).0 (dma_intr-IsDevice bus s v)

wait_not_full-IsDevice :
    (buses : List Bus) (s : Kyouko3) → IsDevice s → IsDevice (wait_not_full buses s)
unfolding wait_not_full
wait_not_full-IsDevice [] s v = v
wait_not_full-IsDevice (bus ∷ more) s v =
    let rest = wait_not_full-IsDevice more (dma_intr bus s).0 (dma_intr-IsDevice bus s v) in
    elim (Bool-cases (s.queued_count == dma_num_buffs)) [ inl e ↦ rw e rest | inr e ↦ rw e v ]

wait_empty-IsDevice : (buses : List Bus) (s : Kyouko3) → IsDevice s → IsDevice (wait_empty buses s)
unfolding wait_empty
wait_empty-IsDevice [] s v = v
wait_empty-IsDevice (bus ∷ more) s v =
    let rest = wait_empty-IsDevice more (dma_intr bus s).0 (dma_intr-IsDevice bus s v) in
    elim (Bool-cases (s.queued_count == 0)) [ inl e ↦ rw e v | inr e ↦ rw e rest ]

locked-IsDevice : (count : ℕ) (s : Kyouko3) → IsDevice s → IsDevice (start_dma_locked count s).0
unfolding start_dma_locked
locked-IsDevice count s v =
    let b : DmaBuffer = record (buffer s s.fill) { stored_count = count } in
    ground (arith, length-set s.dma_buffers s.fill b)

issue-IsDevice : (count : ℕ) (s : Kyouko3) → IsDevice s → IsDevice (start_dma_issue count s)
unfolding start_dma_issue
issue-IsDevice count s v =
    let s' : Kyouko3 = record s { fill = (s.fill + 1) % dma_num_buffs } in
    start_transfer-IsDevice (buffer s' s'.drain).p_base count s' (omega arith)

finish-IsDevice :
    (phase : Phase) (count : ℕ) (wait : List Bus) (s : Kyouko3)
    → IsDevice s
    → IsDevice (start_dma_finish phase count wait s).0
unfolding start_dma_finish
finish-IsDevice refused count wait s v = v
finish-IsDevice issuing count wait s v = issue-IsDevice count s v
finish-IsDevice waiting count wait s v = wait_not_full-IsDevice wait s v
finish-IsDevice returning count wait s v = v

pub start_dma-IsDevice :
    (count : ℕ) (gap wait : List Bus) (s : Kyouko3)
    → IsDevice s
    → IsDevice (start_dma count gap wait s).0
unfolding start_dma
start_dma-IsDevice count gap wait s v =
    let (s', phase) = start_dma_locked count s in
    finish-IsDevice phase count wait (interrupts gap s')
      (interrupts-IsDevice gap s' (locked-IsDevice count s v))

pub bind_buffer-IsDevice :
    (answers : BindAnswers) (i : ℕ) (s : Kyouko3) → IsDevice s → IsDevice (bind_buffer answers i s)
unfolding bind_buffer
bind_buffer-IsDevice answers i s v =
    let b = buffer s i in
    let (k, p) = answers.pci_alloc_consistent i in
    let b' : DmaBuffer = record b { k_base = k; p_base = p; u_base = answers.vm_mmap i } in
    omega (arith, length-set s.dma_buffers i b')

bind_buffers-IsDevice :
    (answers : BindAnswers) (rounds i : ℕ) (s : Kyouko3)
    → IsDevice s
    → IsDevice (bind_buffers answers rounds i s)
unfolding bind_buffers
bind_buffers-IsDevice answers zero i s v = v
bind_buffers-IsDevice answers (suc rounds) i s v =
    bind_buffers-IsDevice answers rounds (i + 1) (bind_buffer answers i s)
      (bind_buffer-IsDevice answers i s v)

pub bind_dma-IsDevice :
    (answers : BindAnswers) (s : Kyouko3) → IsDevice s → IsDevice (bind_dma answers s).0
unfolding bind_dma bind_session
bind_dma-IsDevice answers s v =
    let asked : Kyouko3 = perform request_irq (perform pci_enable_msi s) in
    ground (arith, bind_buffers-IsDevice answers dma_num_buffs 0 asked v)

free_buffers-IsDevice :
    (rounds i : ℕ) (s : Kyouko3) → IsDevice s → IsDevice (free_buffers rounds i s)
unfolding free_buffers
free_buffers-IsDevice zero i s v = v
free_buffers-IsDevice (suc rounds) i s v = free_buffers-IsDevice rounds (i + 1) _ v

unmap_buffers-IsDevice :
    (rounds i : ℕ) (s : Kyouko3) → IsDevice s → IsDevice (unmap_buffers rounds i s)
unfolding unmap_buffers
unmap_buffers-IsDevice zero i s v = v
unmap_buffers-IsDevice (suc rounds) i s v = unmap_buffers-IsDevice rounds (i + 1) _ v

pub late_unbind_dma-IsDevice :
    (wait : List Bus) (s : Kyouko3) → IsDevice s → IsDevice (late_unbind_dma wait s)
unfolding late_unbind_dma
late_unbind_dma-IsDevice wait s v = elim (Bool-cases (s.queued_count == 0)) [
  | inl e ↦ rw e (free_buffers-IsDevice dma_num_buffs 0 s v)
  | inr e ↦
      rw e
        (free_buffers-IsDevice dma_num_buffs 0 (wait_empty wait s) (wait_empty-IsDevice wait s v))
]

pub on_time_unbind_dma-IsDevice :
    (wait : List Bus) (s : Kyouko3) → IsDevice s → IsDevice (on_time_unbind_dma wait s).0
unfolding on_time_unbind_dma
on_time_unbind_dma-IsDevice wait s v =
    let s' = unmap_buffers dma_num_buffs 0 s in
    let unbound = late_unbind_dma-IsDevice wait s' (unmap_buffers-IsDevice dma_num_buffs 0 s v) in
    elim (Bool-cases s.dma_mapped) [ inl e ↦ simp e unbound | inr e ↦ simp e v ]
