-- ===== src/Kyouko3/Binding.antt =====
-- Binding the DMA buffers (Kyouko3_GrpahicsDriver/mymod.c, lines 185 to 218).
use mathlib.Core.Path.{subst}
use native.Mathlib.Decide.{ℕ_discrete}
use os_spring.Common.{
  ℕ, zero, suc, ◌+◌, ◌<◌, ◌≤◌, ◌≡◌, ◌≢◌, refl, ap, ◌∙◌, sym, true, false, List, arith, length,
  length-set, get_or, set, get_or-set_self, get_or-set_ne,
}
use os_spring.Kyouko3.State.{Kyouko3, DmaBuffer, Effect, buffer, no_buffer, perform}
use os_spring.Kyouko3.Dma.{BindAnswers, bind_buffer, bind_buffers, bind_session, bind_dma}
use os_spring.Kyouko3.Ring.{transfers, ready, System}
use os_spring.Kyouko3.Ring.Invariant.{IsCoherent}

-- what a slot holds after it was bound
abbrev pub bound : BindAnswers → ℕ → DmaBuffer → DmaBuffer
bound answers i b = record b {
  k_base = (answers.pci_alloc_consistent i).0;
  p_base = (answers.pci_alloc_consistent i).1;
  u_base = answers.vm_mmap i;
}

bind_buffer-buffers :
    (answers : BindAnswers) (i : ℕ) (s : Kyouko3)
    → (bind_buffer answers i s).dma_buffers ≡ set s.dma_buffers i (bound answers i (buffer s i))
unfolding bind_buffer
bind_buffer-buffers answers i s = refl

length-bind_buffers :
    (answers : BindAnswers) (rounds i : ℕ) (s : Kyouko3)
    → length (bind_buffers answers rounds i s).dma_buffers ≡ length s.dma_buffers
unfolding bind_buffers
length-bind_buffers answers zero i s = refl
length-bind_buffers answers (suc rounds) i s =
    length-bind_buffers answers rounds (i + 1) (bind_buffer answers i s)
    ∙ ap length (bind_buffer-buffers answers i s)
    ∙ length-set s.dma_buffers i (bound answers i (buffer s i))

transfers-bind_buffers :
    (answers : BindAnswers) (rounds i : ℕ) (s : Kyouko3)
    → transfers (bind_buffers answers rounds i s).effects ≡ transfers s.effects
unfolding bind_buffers bind_buffer transfers
transfers-bind_buffers answers zero i s = refl
transfers-bind_buffers answers (suc rounds) i s =
    transfers-bind_buffers answers rounds (i + 1) (bind_buffer answers i s)

-- The loop leaves the slots before its own alone.
bind_buffers-below :
    (answers : BindAnswers) (rounds i j : ℕ) (s : Kyouko3)
    → j < i
    → buffer (bind_buffers answers rounds i s) j ≡ buffer s j
unfolding bind_buffers
bind_buffers-below answers zero i j s lt = refl
bind_buffers-below answers (suc rounds) i j s lt =
    bind_buffers-below answers rounds (i + 1) j (bind_buffer answers i s) (omega arith)
    ∙ ap (λ (bs : List DmaBuffer). get_or bs j no_buffer) (bind_buffer-buffers answers i s)
    ∙ get_or-set_ne s.dma_buffers i j (bound answers i (buffer s i)) no_buffer (omega arith)

-- and binds each of its own.
bind_buffers-bound :
    (answers : BindAnswers) (rounds i j : ℕ) (s : Kyouko3)
    → i ≤ j
    → j < i + rounds
    → i + rounds ≤ length s.dma_buffers
    → buffer (bind_buffers answers rounds i s) j ≡ bound answers j (buffer s j)
unfolding bind_buffers
bind_buffers-bound answers zero i j s le lt room = absurd (omega arith)
bind_buffers-bound answers (suc rounds) i j s le lt room =
    let s' = bind_buffer answers i s in
    let b = bound answers i (buffer s i) in
    let step = bind_buffer-buffers answers i s in
    elim (ℕ_discrete i j) [
      | yes e ↦ rw (← e) (
          bind_buffers-below answers rounds (i + 1) i s' (omega arith)
          ∙ ap (λ (bs : List DmaBuffer). get_or bs i no_buffer) step
          ∙ get_or-set_self s.dma_buffers i b no_buffer (omega arith))
      | no ne ↦
          bind_buffers-bound answers rounds (i + 1) j s' (omega arith) (omega arith)
            (omega (arith, ap length step, length-set s.dma_buffers i b))
          ∙ ap (bound answers j) (
              ap (λ (bs : List DmaBuffer). get_or bs j no_buffer) step
              ∙ get_or-set_ne s.dma_buffers i j b no_buffer ne)
    ]

unfoldable pub asked : Kyouko3 → Kyouko3
asked s = perform Effect.request_irq (perform Effect.pci_enable_msi s)

pub bind_dma-session :
    (answers : BindAnswers) (s : Kyouko3)
    → s.dma_mapped ≡ false
    → answers.pci_enable_msi ≡ 0
    → answers.request_irq ≡ 0
    → bind_dma answers s ≡ bind_session answers (asked s)
unfolding bind_dma asked
bind_dma-session answers s unmapped msi irq = ground arith

-- what a session starts with
abbrev pub Started : BindAnswers → Kyouko3 → Kyouko3 × ℕ → Type 0
Started answers s (t, user) =
    let given = transfers s.effects in
    let y : System = record {
      dev = t;
      thread = ready;
      submitted = given;
      completed = length given;
    } in
    IsCoherent y
    × (t.dma_mapped ≡ true)
    × (t.fill ≡ 0)
    × (user ≡ answers.vm_mmap 0)
    × ((i : ℕ) → i < 8 → buffer t i ≡ bound answers i (buffer s i))

bind_session-Started :
    (answers : BindAnswers) (s : Kyouko3)
    → length s.dma_buffers ≡ 8
    → Started answers s (bind_session answers s)
unfolding bind_session transfers
bind_session-Started answers s size =
    let each = λ (i : ℕ) (h : i < 8).
      bind_buffers-bound answers 8 0 i s (omega arith) h (omega (arith, size)) in
    let given = transfers-bind_buffers answers 8 0 s in
    (
      record {
        ring = record {
          size = length-bind_buffers answers 8 0 s ∙ size;
          fill_in = omega arith;
          drain_in = omega arith;
        };
        at = ((omega arith, sym given, omega (arith, ap length given)), omega arith);
      },
      refl,
      refl,
      ap (λ (b : DmaBuffer). b.u_base) (each 0 (omega arith)),
      each,
    )

-- If the buffers are not bound yet and the kernel grants the message interrupts and the interrupt
-- line, `bind_dma` returns the user address of the first buffer, gives every buffer the
-- addresses that the kernel answered, and starts the DMA queue in its invariant and at its first
-- slot, with nothing submitted and nothing in flight.
pub bind_dma-starts :
    (answers : BindAnswers) (s : Kyouko3)
    → s.dma_mapped ≡ false
    → answers.pci_enable_msi ≡ 0
    → answers.request_irq ≡ 0
    → length s.dma_buffers ≡ 8
    → Started answers s (bind_dma answers s)
bind_dma-starts answers s unmapped msi irq size =
    subst (Started answers s) (sym (bind_dma-session answers s unmapped msi irq))
      (unfold asked transfers in bind_session-Started answers (asked s) size)

-- On every failing branch `bind_dma` returns 0 and touches nothing of the driver's data. It asks the
-- kernel for nothing if the buffers are bound already, and gives the message interrupts back if the
-- interrupt line is refused.
pub bind_dma-refused :
    (answers : BindAnswers) (s : Kyouko3)
    → (s.dma_mapped ≡ true → bind_dma answers s ≡ (s, 0))
      × (s.dma_mapped ≡ false
          → answers.pci_enable_msi ≢ 0
          → bind_dma answers s ≡ (perform Effect.pci_enable_msi s, 0))
      × (s.dma_mapped ≡ false
          → answers.pci_enable_msi ≡ 0
          → answers.request_irq ≢ 0
          → bind_dma answers s ≡ (
            perform Effect.pci_disable_msi
                (perform Effect.request_irq (perform Effect.pci_enable_msi s)),
            0,
          ))
unfolding bind_dma
bind_dma-refused answers s = ground arith
