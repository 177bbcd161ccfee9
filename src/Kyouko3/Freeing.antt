-- ===== src/Kyouko3/Freeing.antt =====
-- What unbinding the DMA buffers gives back to the kernel (Kyouko3_GrpahicsDriver/mymod.c, lines 220 to
-- 245).
use os_spring.Common.{
  ℕ, zero, suc, ◌+◌, ◌<◌, ◌≡◌, refl, ap₂, true, false, List, [], ◌∷◌, ◌++◌, arith,
}
use os_spring.Kyouko3.State.{
  Kyouko3, Bus, Effect, pci_free_consistent, buffer, perform, dma_buff_size,
}
use os_spring.Kyouko3.Dma.{
  BindAnswers, free_buffers, unmap_buffers, late_unbind_dma, on_time_unbind_dma,
}

-- the kernel and card addresses that the driver gives back, newest first
unfoldable pub freed : List Effect → List (ℕ × ℕ)
freed [] = []
freed (pci_free_consistent size k p ∷ es) = (k, p) ∷ freed es
freed (_ ∷ es) = freed es

-- the first `n` allocations, newest first
abbrev pub allocated : BindAnswers → ℕ → List (ℕ × ℕ)
allocated answers zero = []
allocated answers (suc n) = answers.pci_alloc_consistent n ∷ allocated answers n

-- the card and kernel address of each slot are those of the allocations
abbrev pub Allocated : BindAnswers → Kyouko3 → Type 0
Allocated answers s =
    (i : ℕ) → i < 8 → ((buffer s i).k_base, (buffer s i).p_base) ≡ answers.pci_alloc_consistent i

-- Unmapping the buffers changes the effects only, and gives no memory back.
record Unmapped (s t : Kyouko3) : Type 0 where
  buffers : t.dma_buffers ≡ s.dma_buffers
  queued : t.queued_count ≡ s.queued_count
  none_freed : freed t.effects ≡ freed s.effects

unmap_buffers-Unmapped : (rounds i : ℕ) (s : Kyouko3) → Unmapped s (unmap_buffers rounds i s)
unfolding unmap_buffers freed
unmap_buffers-Unmapped zero i s = record { buffers = refl; queued = refl; none_freed = refl }
unmap_buffers-Unmapped (suc rounds) i s =
    let once = perform (Effect.vm_munmap (buffer s i).u_base dma_buff_size) s in
    let u = unmap_buffers-Unmapped rounds (i + 1) once in
    record { buffers = u.buffers; queued = u.queued; none_freed = u.none_freed }

pub free_buffers-freed :
    (answers : BindAnswers) (s : Kyouko3)
    → Allocated answers s
    → freed (free_buffers 8 0 s).effects ≡ allocated answers 8 ++ freed s.effects
unfolding free_buffers freed
free_buffers-freed answers s each =
    let add = λ (i : ℕ) (h : i < 8) (l m : List (ℕ × ℕ)) (e : l ≡ m). ap₂ ◌∷◌ (each i h) e in
    add 7 (omega arith) _ _ (
      add 6 (omega arith) _ _ (
        add 5 (omega arith) _ _ (
          add 4 (omega arith) _ _ (
            add 3 (omega arith) _ _
              (add 2 (omega arith) _ _ (add 1 (omega arith) _ _ (add 0 (omega arith) _ _ refl)))))))

-- With the buffers bound at the allocated addresses and nothing queued, `UNBIND_DMA` gives back each
-- of the eight allocations once, with both of its addresses, and takes the buffers for unbound.
pub unbind_frees_all :
    (answers : BindAnswers) (s : Kyouko3) (wait : List Bus)
    → Allocated answers s
    → s.dma_mapped ≡ true
    → s.queued_count ≡ 0
    → let (t, status) = on_time_unbind_dma wait s in
      (status ≡ 0)
      × (t.dma_mapped ≡ false)
      × (freed t.effects ≡ allocated answers 8 ++ freed s.effects)
unfolding on_time_unbind_dma late_unbind_dma freed
unbind_frees_all answers s wait each mapped idle =
    let t = unmap_buffers 8 0 s in
    let u = unmap_buffers-Unmapped 8 0 s in
    let e = free_buffers-freed answers t (rw u.buffers each) in ground (arith, u, e)
