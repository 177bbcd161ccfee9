-- ===== src/Lab/Versions.antt =====
-- The drivers of the third, the fourth and the last lab against each other (mylab/lab3/mymod.c,
-- mylab/lab4/mymod.c and mylab/5lab/mymod.c).
use os_spring.Common.{
  ℕ, not, ◌≡◌, refl, ap, ◌∙◌, Bool, true, false, Option, none, some, List, [], ◌∷◌, arith, ◌==◌,
  u32, if◌then◌else◌,
}
use mathlib.Core.Option
use os_spring.Kyouko3.State.{FifoEntry, Bus}
use os_spring.Lab.Driver.{
  Lab, lab_fifo_write, fifo_writes, lab_flush_loop, lab_fifo_flush, off_graphics_mode,
  on_graphics_mode, lab_set_mode, fifo_vmode, k_read_reg, fifotail, fifohead, k_write_reg,
  clear_commands,
}
use os_spring.Lab.Calls.{
  LabIoctl, queue, flush, set_vmode, bind, ubind, other, kyouko3fops_ioctl, lab_fifo_queue,
}
use os_spring.Lab.Third.{
  Third, third_read_reg, third_fifo_write, third_fifo_writes, third_flush_loop, third_fifo_flush,
  third_off_graphics_mode, third_set_mode, third_fifo_vmode, third_fifo_queue, third_ioctl,
}
use os_spring.Lab.Fourth.{fourth_on_graphics_mode, fourth_fifo_vmode, fourth_ioctl}

-- the last lab's state without its DMA buffers
abbrev pub forget : Lab → Third
forget s = record {
  k_control_base = s.k_control_base;
  k_ram_card_base = s.k_ram_card_base;
  kv_control_base = s.kv_control_base;
  kv_ram_card_base = s.kv_ram_card_base;
  fifo = s.fifo;
  graphics_on = s.graphics_on;
  dma_mapped = s.dma_mapped;
  effects = s.effects;
}

forget-fifo_write :
    (reg value : ℕ) (s : Lab)
    → Option.map forget (lab_fifo_write reg value s) ≡ third_fifo_write reg value (forget s)
unfolding lab_fifo_write third_fifo_write
forget-fifo_write reg value s = ground arith

map-if :
    (b : Bool) (x : Lab) (o : Option Lab)
    → Option.map forget (if b then some x else o)
      ≡ (if b then some (forget x) else Option.map forget o)
map-if true x o = refl
map-if false x o = refl

forget-flush_loop :
    (turns : List Bus) (s : Lab)
    → Option.map forget (lab_flush_loop turns s) ≡ third_flush_loop turns (forget s)
unfolding lab_flush_loop third_flush_loop k_read_reg third_read_reg
forget-flush_loop [] s = ground arith
forget-flush_loop (bus ∷ more) s =
    let ih =
      forget-flush_loop more
        (record s { fifo = record s.fifo { tail = k_read_reg bus fifotail s } }) in
    map-if (s.fifo.tail == s.fifo.head) s _
    ∙ ap (λ (o : Option Third). if s.fifo.tail == s.fifo.head then some (forget s) else o) ih

forget-fifo_flush :
    (turns : List Bus) (s : Lab)
    → Option.map forget (lab_fifo_flush turns s) ≡ third_fifo_flush turns (forget s)
unfolding lab_fifo_flush third_fifo_flush
forget-fifo_flush turns s = forget-flush_loop turns (k_write_reg fifohead s.fifo.head s)

-- What follows a step that both drivers take alike, if it commutes with `forget`.
forget-then :
    (f : Lab → Option Lab) (g : Third → Option Third)
    → ((t : Lab) → Option.map forget (f t) ≡ g (forget t))
    → (o : Option Lab)
    → Option.map forget (elim o as (λ _. Option Lab) [ none ↦ none | some t ↦ f t ])
      ≡ elim (Option.map forget o) as (λ _. Option Third) [ none ↦ none | some t ↦ g t ]
forget-then f g h none = refl
forget-then f g h (some t) = h t

forget-map {ℓ} :
    {A B : Type ℓ} (f : Lab → A) (g : Third → B) (h : A → B)
    → ((t : Lab) → h (f t) ≡ g (forget t))
    → (o : Option Lab) → Option.map h (Option.map f o) ≡ Option.map g (Option.map forget o)
forget-map f g h e none = refl
forget-map f g h e (some t) = ap some (e t)

forget-fifo_writes :
    (es : List FifoEntry) (s : Lab)
    → Option.map forget (fifo_writes es s) ≡ third_fifo_writes es (forget s)
unfolding fifo_writes third_fifo_writes
forget-fifo_writes [] s = refl
forget-fifo_writes (e ∷ es) s =
    forget-then _ _ (forget-fifo_writes es) (lab_fifo_write e.command e.value s)
    ∙ ap
        (λ (o : Option Third). elim o as (λ _. Option Third) [
          | none ↦ none
          | some t ↦ third_fifo_writes es t
        ])
        (forget-fifo_write e.command e.value s)

forget-off :
    (turns : List Bus) (s : Lab)
    → Option.map forget (off_graphics_mode turns s) ≡ third_off_graphics_mode turns (forget s)
unfolding off_graphics_mode third_off_graphics_mode
forget-off turns s =
    forget-map _ _ _ (λ t. refl) (lab_fifo_flush turns s)
    ∙ ap (Option.map _) (forget-fifo_flush turns s)

abbrev turned_on : Third → Third
turned_on t = record t { graphics_on = true }

forget-on_flush :
    (turns : List Bus) (t : Lab)
    → Option.map forget
        (Option.map (λ (t : Lab). record t { graphics_on = true }) (lab_fifo_flush turns t))
      ≡ Option.map turned_on (third_fifo_flush turns (forget t))
forget-on_flush turns t =
    forget-map _ _ _ (λ t. refl) (lab_fifo_flush turns t)
    ∙ ap (Option.map turned_on) (forget-fifo_flush turns t)

forget-on :
    (turns : List Bus) (s : Lab)
    → Option.map forget (on_graphics_mode turns s) ≡ fourth_on_graphics_mode turns (forget s)
unfolding on_graphics_mode fourth_on_graphics_mode lab_set_mode third_set_mode
forget-on turns s =
    forget-then _ _ (forget-on_flush turns) (fifo_writes clear_commands (lab_set_mode s))
    ∙ ap
        (λ (o : Option Third). elim o as (λ _. Option Third) [
          | none ↦ none
          | some t ↦ Option.map turned_on (third_fifo_flush turns t)
        ])
        (forget-fifo_writes clear_commands (lab_set_mode s))

-- whether a call of `ioctl` is one of the FIFO's, and whether it turns the graphics on
abbrev is_fifo_call : LabIoctl → Bool
is_fifo_call (bind answers arg) = false
is_fifo_call ubind = false
is_fifo_call c = true

abbrev pub turns_on : LabIoctl → Bool
turns_on (set_vmode mode turns) = not (u32 mode == 0)
turns_on c = false

abbrev pub forget_result : Lab × ℕ → Third × ℕ
forget_result (s, status) = (forget s, status)

if-map {ℓ} :
    {A B : Type ℓ} (f : A → B) (b : Bool) (x y : Option A)
    → Option.map f (if b then x else y) ≡ (if b then Option.map f x else Option.map f y)
if-map f true x y = refl
if-map f false x y = refl

by_mode :
    (x y t f o u : Option Third) (b : Bool)
    → x ≡ t
    → y ≡ f
    → (if b then x else y) ≡ (if not b then (if b then o else f) else (if b then t else u))
by_mode x y t f o u true p q = p
by_mode x y t f o u false p q = q

forget-vmode :
    (mode : ℕ) (turns : List Bus) (s : Lab)
    → Option.map forget (fifo_vmode mode turns s) ≡ (
        if not (mode == 0)
        then fourth_fifo_vmode mode turns (forget s)
        else third_fifo_vmode mode turns (forget s))
unfolding fifo_vmode fourth_fifo_vmode third_fifo_vmode
forget-vmode mode turns s =
    if-map forget (mode == 0) _ _
    ∙ by_mode _ _ _ _ _ _ (mode == 0) (forget-off turns s) (forget-on turns s)

-- On every call of `ioctl` but the two of DMA, the last lab's driver is the third lab's, on the state
-- without DMA buffers: with the same value, effects and FIFO, and with the same failures. A call that
-- turns the graphics on is the fourth lab's instead, which clears the screen to blue.
pub forget-ioctl :
    (c : LabIoctl) (s : Lab)
    → is_fifo_call c ≡ true
    → Option.map forget_result (kyouko3fops_ioctl c s)
      ≡ (if turns_on c then fourth_ioctl c (forget s) else third_ioctl c (forget s))
unfolding kyouko3fops_ioctl third_ioctl fourth_ioctl lab_fifo_queue third_fifo_queue
forget-ioctl (queue ret entry) s h =
    forget-map _ _ _ (λ t. refl) (lab_fifo_write entry.command entry.value s)
    ∙ ap (Option.map _) (forget-fifo_write entry.command entry.value s)
forget-ioctl (flush turns) s h =
    forget-map _ _ _ (λ t. refl) (lab_fifo_flush turns s)
    ∙ ap (Option.map _) (forget-fifo_flush turns s)
forget-ioctl (set_vmode mode turns) s h =
    forget-map _ _ _ (λ t. refl) (fifo_vmode (u32 mode) turns s)
    ∙ ap (Option.map _) (forget-vmode (u32 mode) turns s)
    ∙ if-map _ (not (u32 mode == 0)) _ _
forget-ioctl (bind answers arg) s h = absurd (ground arith)
forget-ioctl ubind s h = absurd (ground arith)
forget-ioctl other s h = refl
