-- ===== src/Kyouko3/Bounds/Calls.antt =====
-- The file operations stay in bounds (Kyouko3_GrpahicsDriver/mymod.c, lines 285 to 453).
use os_spring.Common.{
  ℕ, if◌then◌else◌, ◌<◌, ◌≡◌, Option, none, some, List, [], ◌∷◌, arith, length, Bool-cases, inl,
  inr, ◌==◌, u32,
}
use mathlib.Core.Option
use os_spring.Kyouko3.Register.{
  fifo_head, offset, raster_clear, draw_clear_color4f_red, draw_clear_color4f_green,
  draw_clear_color4f_blue, draw_clear_color4f_alpha,
}
use os_spring.Kyouko3.State.{
  Kyouko3, Bus, k_write_register, fifo_write, fifo_entries, dma_num_buffs,
}
use os_spring.Kyouko3.Dma.{interrupts, late_unbind_dma}
use os_spring.Kyouko3.Graphics
use os_spring.Kyouko3.Graphics.{
  Turn, clear_shade, clear_alpha, read_tail, flush_loop, set_mode, clear_screen, leave_mode,
  graphics_on, graphics_off,
}
use os_spring.Kyouko3.Files.{
  OpenAnswers, kyouko3_open, Ioctl, kyouko3_ioctl, give_buffer, kyouko3_release, free_device,
  fifo_queue, fifo_flush, vmode, bind_dma, unbind_dma, start_dma, other,
}
use os_spring.Kyouko3.Bounds.{IsDevice, fifo_write-IsDevice}
use os_spring.Kyouko3.Bounds.Dma.{
  interrupts-IsDevice, start_dma-IsDevice, bind_dma-IsDevice, late_unbind_dma-IsDevice,
  on_time_unbind_dma-IsDevice,
}

-- What holds of the result of a call, if it returns.
abbrev Holds : {A : Type 0} → (A → Type 0) → Option A → Type 0
Holds P none = Unit {0}
Holds P (some a) = P a

module _ {A B : Type 0} where
  Holds-map :
      (P : A → Type 0) (Q : B → Type 0) (f : A → B)
      → ((a : A) → P a → Q (f a))
      → (o : Option A) → Holds P o
      → Holds Q (Option.map f o)
  Holds-map P Q f keep none h = tt
  Holds-map P Q f keep (some a) h = keep a h

flush_loop-IsDevice :
    (turns : List Turn) (s : Kyouko3) → IsDevice s → Holds IsDevice (flush_loop turns s)
unfolding flush_loop
flush_loop-IsDevice [] s v = elim (Bool-cases (s.fifo.tail_cache == s.fifo.head)) [
  | inl e ↦ simp e v
  | inr e ↦ simp e tt
]
flush_loop-IsDevice (turn ∷ more) s v =
    let s' = interrupts turn.arriving (read_tail turn.bus s) in
    let v' = interrupts-IsDevice turn.arriving (read_tail turn.bus s) (omega (arith, v)) in
    let rest = flush_loop-IsDevice more s' v' in
    elim (Bool-cases (s.fifo.tail_cache == s.fifo.head)) [ inl e ↦ simp e v | inr e ↦ simp e rest ]

fifo_flush-IsDevice :
    (turns : List Turn) (s : Kyouko3) → IsDevice s → Holds IsDevice (Graphics.fifo_flush turns s)
unfolding Graphics.fifo_flush
fifo_flush-IsDevice turns s v =
    flush_loop-IsDevice turns (k_write_register fifo_head s.fifo.head s) v

set_mode-IsDevice : (s : Kyouko3) → IsDevice s → IsDevice (set_mode s)
unfolding set_mode
set_mode-IsDevice s v = v

clear_screen-IsDevice : (s : Kyouko3) → IsDevice s → IsDevice (clear_screen s)
unfolding clear_screen
clear_screen-IsDevice s v =
    let s₁ = fifo_write (offset draw_clear_color4f_red) clear_shade s in
    let s₂ = fifo_write (offset draw_clear_color4f_green) clear_shade s₁ in
    let s₃ = fifo_write (offset draw_clear_color4f_blue) clear_shade s₂ in
    let s₄ = fifo_write (offset draw_clear_color4f_alpha) clear_alpha s₃ in
    let s₅ = fifo_write (offset raster_clear) 0x03 s₄ in
    let v₁ = fifo_write-IsDevice _ _ s v in
    let v₂ = fifo_write-IsDevice _ _ s₁ v₁ in
    let v₃ = fifo_write-IsDevice _ _ s₂ v₂ in
    let v₄ = fifo_write-IsDevice _ _ s₃ v₃ in
    let v₅ = fifo_write-IsDevice _ _ s₄ v₄ in fifo_write-IsDevice _ _ s₅ v₅

graphics_on-IsDevice :
    (turns : List Turn) (s : Kyouko3) → IsDevice s → Holds IsDevice (graphics_on turns s)
unfolding graphics_on
graphics_on-IsDevice turns s v =
    Holds-map IsDevice IsDevice _ (λ t w. w) _
      (fifo_flush-IsDevice turns (clear_screen (set_mode s))
        (clear_screen-IsDevice (set_mode s) (set_mode-IsDevice s v)))

leave_mode-IsDevice : (s : Kyouko3) → IsDevice s → IsDevice (leave_mode s)
unfolding leave_mode
leave_mode-IsDevice s v = v

graphics_off-IsDevice :
    (turns : List Turn) (s : Kyouko3) → IsDevice s → Holds IsDevice (graphics_off turns s)
unfolding graphics_off
graphics_off-IsDevice turns s v =
    let s' = fifo_write (offset raster_clear) 0x03 s in
    Holds-map IsDevice IsDevice leave_mode leave_mode-IsDevice _
      (fifo_flush-IsDevice turns s' (fifo_write-IsDevice _ _ s v))

give_buffer-IsDevice :
    (ret arg out : ℕ) (r : Kyouko3 × ℕ) → IsDevice r.0 → IsDevice (give_buffer ret arg out r).0
unfolding give_buffer
give_buffer-IsDevice ret arg out (s, next) v = elim (Bool-cases (next == 0)) [
  | inl e ↦ rw e v
  | inr e ↦ rw e v
]

-- Given memory for the 1024 entries of the FIFO, and eight DMA buffers with both indices in range,
-- `kyouko3_open` leaves every array with its size and every index in range.
kyouko3_open-IsDevice :
    (answers : OpenAnswers) (bus : Bus) (s : Kyouko3)
    → length answers.fifo_memory ≡ fifo_entries
    → length s.dma_buffers ≡ dma_num_buffs
    → s.fill < dma_num_buffs
    → s.drain < dma_num_buffs
    → IsDevice (kyouko3_open answers bus s).0
unfolding kyouko3_open
kyouko3_open-IsDevice answers bus s m b f d = omega (arith, m, b, f, d)

-- the state beside a call's result
abbrev pub Leaves : Option (Kyouko3 × ℕ) → Type 0
Leaves = Holds (λ (r : Kyouko3 × ℕ). IsDevice r.0)

-- Whatever a program asks by `ioctl`, whatever interrupts and signals arrive in the waits, the turns of a
-- flush and behind the unlock of `start_dma`, and whatever the kernel and the card answer: if the FIFO has
-- its 1024 entries with `head` inside, there are eight DMA buffers and `fill` and `drain` are indices of
-- them, and the call returns, then all of that holds again.
pub kyouko3_ioctl-IsDevice :
    (call : Ioctl) (s : Kyouko3) → IsDevice s → Leaves (kyouko3_ioctl call s)
unfolding kyouko3_ioctl
kyouko3_ioctl-IsDevice (fifo_queue ret entry) s v =
    unfold Graphics.fifo_queue in fifo_write-IsDevice entry.command entry.value s v
kyouko3_ioctl-IsDevice (fifo_flush turns) s v =
    Holds-map IsDevice _ _ (λ t w. w) _ (fifo_flush-IsDevice turns s v)
kyouko3_ioctl-IsDevice (vmode arg turns) s v = elim (Bool-cases (u32 arg == 0)) [
  | inl e ↦ rw e (Holds-map IsDevice _ _ (λ t w. w) _ (graphics_off-IsDevice turns s v))
  | inr e ↦ rw e (Holds-map IsDevice _ _ (λ t w. w) _ (graphics_on-IsDevice turns s v))
]
kyouko3_ioctl-IsDevice (bind_dma answers arg out) s v =
    give_buffer-IsDevice 0 arg out _ (bind_dma-IsDevice answers s v)
kyouko3_ioctl-IsDevice (unbind_dma wait) s v = on_time_unbind_dma-IsDevice wait s v
kyouko3_ioctl-IsDevice (start_dma ret byte_count arg out gap wait) s v =
    give_buffer-IsDevice ret arg out _ (start_dma-IsDevice byte_count gap wait s v)
kyouko3_ioctl-IsDevice other s v = v

-- the clean-up of the graphics mode in `kyouko3_release`
close-IsDevice :
    (turns : List Turn) (s : Kyouko3)
    → IsDevice s
    → Leaves (
        Option.map
          (λ (s : Kyouko3). (free_device s, 0))
          (if s.graphics_on then graphics_off turns s else some s))
unfolding free_device
close-IsDevice turns s v = elim (Bool-cases s.graphics_on) [
  | inl e ↦ simp e (Holds-map IsDevice _ _ (λ t w. w) _ (graphics_off-IsDevice turns s v))
  | inr e ↦ simp e v
]

-- Whatever interrupts and signals arrive during the last `close`: if it returns, no index has left its
-- array.
kyouko3_release-IsDevice :
    (wait : List Bus) (turns : List Turn) (s : Kyouko3)
    → IsDevice s
    → Leaves (kyouko3_release wait turns s)
unfolding kyouko3_release
kyouko3_release-IsDevice wait turns s v = elim (Bool-cases s.dma_mapped) [
  | inl e ↦
      simp e (close-IsDevice turns (late_unbind_dma wait s) (late_unbind_dma-IsDevice wait s v))
  | inr e ↦ simp e (close-IsDevice turns s v)
]
