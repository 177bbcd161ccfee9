-- ===== src/Kyouko3/Ring/Refine.antt =====
-- `kyouko3_ioctl` refines the system of steps (Kyouko3_GrpahicsDriver/mymod.c, lines 160 to 345 and 382
-- to 414).
use mathlib.Core.Path.{subst}
use mathlib.Core.Option
use os_spring.Common.{
  ℕ, ◌≡◌, refl, sym, ap, ◌∙◌, true, false, Bool, Option, some, none, List, arith, ◌==◌,
  if◌then◌else◌, u32,
}
use os_spring.Kyouko3.Register.{offset, raster_clear}
use os_spring.Kyouko3.State.{Kyouko3, Bus, fifo_write}
use os_spring.Kyouko3.Dma.{BindAnswers, interrupts, start_dma_locked, on_time_unbind_dma}
use os_spring.Kyouko3.Dma
use os_spring.Kyouko3.Graphics
use os_spring.Kyouko3.Graphics.{
  Turn, read_tail, flush_loop, set_mode, clear_screen, leave_mode, graphics_on, graphics_off,
}
use os_spring.Kyouko3.Files.{
  Ioctl, fifo_queue, fifo_flush, vmode, bind_dma, unbind_dma, start_dma, other, give_buffer,
  kyouko3_ioctl,
}
use os_spring.Kyouko3.Ring.{Transfer, transfers, ready, here, next, command}
use os_spring.Kyouko3.Ring.Invariant.{IsCoherent}
use os_spring.Kyouko3.Ring.Guarantees.{Reach-IsCoherent}
use os_spring.Kyouko3.Ring.Timely.{TimelyFlush, TimelyCall, told, submits}
use os_spring.Kyouko3.Ring.Flushes.{calling, Quiet, Quiet-Reaches, fifo_flush-Reaches}
use os_spring.Kyouko3.Ring.Calls.{Reaches, Reaches-then, start_dma-Reaches}

-- what a mapped result was made of
map-some :
    {A : Type 0} (f : Kyouko3 → A) (o : Option Kyouko3) (x : A)
    → Option.map f o ≡ some x
    → (u : Kyouko3) × (o ≡ some u) × (f u ≡ x)
map-some f none x e = absurd (ground arith)
map-some f (some u) x e = (u, refl, ground arith)

-- A flush between two stretches that are quiet.
around_flush :
    (turns : List Turn) (f : Kyouko3 → Kyouko3) (s s' t : Kyouko3) (sub : List Transfer) (c : ℕ)
    → ((u : Kyouko3) → Quiet u (f u))
    → Quiet s s'
    → IsCoherent (calling s sub c)
    → TimelyFlush turns (told s')
    → Option.map f (Graphics.fifo_flush turns s') ≡ some t
    → Reaches (calling s sub c) t ready sub
around_flush turns f s s' t sub c after before i h e =
    let (u, flushed, made) = map-some f (Graphics.fifo_flush turns s') t e in
    Reaches-then _ _ _ _ _ _ _ (Quiet-Reaches s s' sub c before) (λ n r.
      Reaches-then _ _ _ _ _ _ _
        (fifo_flush-Reaches turns s' u sub n (Reach-IsCoherent _ _ i r) h flushed)
        (λ m q.
          subst (λ v. Reaches (calling u sub m) v ready sub) made
            (Quiet-Reaches u (f u) sub m (after u))))

screen-Quiet : (s : Kyouko3) → Quiet s (clear_screen (set_mode s))
unfolding clear_screen set_mode fifo_write transfers
screen-Quiet s =
    (record { buffers = refl; fill = refl; drain = refl; queued = refl; mapped = refl }, refl)

leave-Quiet : (s : Kyouko3) → Quiet s (leave_mode s)
unfolding leave_mode transfers
leave-Quiet s =
    (record { buffers = refl; fill = refl; drain = refl; queued = refl; mapped = refl }, refl)

clearing-Quiet : (s : Kyouko3) → Quiet s (fifo_write (offset raster_clear) 0x03 s)
unfolding fifo_write transfers
clearing-Quiet s =
    (record { buffers = refl; fill = refl; drain = refl; queued = refl; mapped = refl }, refl)

vmode-Reaches :
    (arg : ℕ) (turns : List Turn) (s t : Kyouko3) (sub : List Transfer) (c : ℕ)
    → IsCoherent (calling s sub c)
    → TimelyCall (vmode arg turns) s
    → (if u32 arg == 0 then graphics_off turns s else graphics_on turns s) ≡ some t
    → Reaches (calling s sub c) t ready sub
unfolding graphics_on graphics_off
vmode-Reaches arg turns s t sub c i h e = by_test (u32 arg == 0) h e
  where
    by_test :
        (b : Bool)
        → TimelyFlush turns (
            if b
            then told (fifo_write (offset raster_clear) 0x03 s)
            else told (clear_screen (set_mode s)))
        → (if b then graphics_off turns s else graphics_on turns s) ≡ some t
        → Reaches (calling s sub c) t ready sub
    by_test true h e =
        around_flush turns leave_mode s _ t sub c leave-Quiet (clearing-Quiet s) i h e
    by_test false h e =
        around_flush turns (λ u. record u { graphics_on = true }) s _ t sub c
          (λ u. (
            record { buffers = refl; fill = refl; drain = refl; queued = refl; mapped = refl },
            refl,
          ))
          (screen-Quiet s) i h e

pub give_buffer-Quiet :
    (ret arg out address : ℕ) (s : Kyouko3) → Quiet s (give_buffer ret arg out (s, address)).0
unfolding give_buffer transfers
give_buffer-Quiet ret arg out address s = ground arith

device_of : (r p : Kyouko3 × ℕ) → some r ≡ some p → r.0 ≡ p.0
device_of r p e =
    ap (λ (o : Option (Kyouko3 × ℕ)). elim o as (λ _. Kyouko3) [ none ↦ r.0 | some q ↦ q.0 ]) e

-- Buffers are bound only once, and given back only if they are bound.
bind_again :
    (answers : BindAnswers) (arg out : ℕ) (s : Kyouko3)
    → s.dma_mapped ≡ true
    → (give_buffer 0 arg out (Dma.bind_dma answers s)).0 ≡ s
unfolding Dma.bind_dma give_buffer
bind_again answers arg out s e = ground arith

unbind_unbound :
    (wait : List Bus) (s : Kyouko3) → s.dma_mapped ≡ false → (on_time_unbind_dma wait s).0 ≡ s
unfolding on_time_unbind_dma
unbind_unbound wait s e = ground arith

-- A call of `ioctl` on bound buffers is a run of the steps.
pub kyouko3_ioctl-Reaches :
    (c : Ioctl) (s t : Kyouko3) (status : ℕ) (sub : List Transfer) (n : ℕ)
    → IsCoherent (calling s sub n)
    → TimelyCall c s
    → kyouko3_ioctl c s ≡ some (t, status)
    → Reaches (calling s sub n) t ready (submits c s sub)
unfolding kyouko3_ioctl Graphics.fifo_queue
kyouko3_ioctl-Reaches (fifo_queue ret e) s t status sub n i (na, nc) h =
    subst (λ u. Reaches (calling s sub n) u ready sub) (device_of _ (t, status) h)
      (n, next here (command e.command e.value refl na nc refl))
kyouko3_ioctl-Reaches (fifo_flush turns) s t status sub n i k h =
    let (u, flushed, made) = map-some _ (Graphics.fifo_flush turns s) (t, status) h in
    fifo_flush-Reaches turns s t sub n i k (flushed ∙ ap some (ap (λ (r : Kyouko3 × ℕ). r.0) made))
kyouko3_ioctl-Reaches (vmode arg turns) s t status sub n i k h =
    let (u, flushed, made) =
      map-some _ (if u32 arg == 0 then graphics_off turns s else graphics_on turns s) (t, status)
        h in
    vmode-Reaches arg turns s t sub n i k (flushed ∙ ap some (ap (λ (r : Kyouko3 × ℕ). r.0) made))
kyouko3_ioctl-Reaches (bind_dma answers arg out) s t status sub n i k h =
    subst (λ u. Reaches (calling s sub n) u ready sub)
      (sym (bind_again answers arg out s k) ∙ device_of _ (t, status) h) (n, here)
kyouko3_ioctl-Reaches (unbind_dma wait) s t status sub n i k h =
    subst (λ u. Reaches (calling s sub n) u ready sub)
      (sym (unbind_unbound wait s k) ∙ device_of _ (t, status) h) (n, here)
kyouko3_ioctl-Reaches (start_dma ret count arg out gap wait) s t status sub n i k h =
    subst
      (λ u.
        Reaches (calling s sub n) u ready (submits (start_dma ret count arg out gap wait) s sub))
      (device_of _ (t, status) h)
      (Reaches-then _ _ _ _ _ _ _ (start_dma-Reaches count gap wait (calling s sub n) refl i k)
        (λ m r. Quiet-Reaches _ _ _ m (
          give_buffer-Quiet ret arg out (Dma.start_dma count gap wait s).1
            (Dma.start_dma count gap wait s).0)))
kyouko3_ioctl-Reaches other s t status sub n i k h =
    subst (λ u. Reaches (calling s sub n) u ready sub) (device_of _ (t, status) h) (n, here)
