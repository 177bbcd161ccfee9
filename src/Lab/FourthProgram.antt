-- ===== src/Lab/FourthProgram.antt =====
-- The triangle program on the fourth lab's driver, from `open` to `close` (mylab/lab4/user.c, lines 156 to
-- 192, and mylab/lab4/mymod.c, lines 87 to 302), by way of the last lab's.
use mathlib.Core.Path.{subst}
use mathlib.Core.Option
use os_spring.Common.{
  ℕ, ◌≡◌, ◌≢◌, refl, sym, ap, ◌∙◌, Bool, true, false, not, ◌&&◌, Option, none, some, List, [], ◌∷◌,
  ◌++◌, arith, length, ◌==◌, u32, if◌then◌else◌,
}
use os_spring.Kyouko3.State.{Bus}
use os_spring.Lab.Driver.{Lab}
use os_spring.Lab.Calls.{
  LabOpen, LabIoctl, queue, flush, set_vmode, bind, ubind, other, kyouko3fops_ioctl,
}
use os_spring.Lab.Third.{Third, third_ioctl}
use os_spring.Lab.Fourth
use os_spring.Lab.Fourth.{
  fourth_open, fourth_mmap, fourth_release, fourth_ioctl, fourth_fifo_vmode,
  fourth_off_graphics_mode,
}
use os_spring.Lab.Versions.{forget, forget_result, forget-ioctl}
use os_spring.Lab.Client.{draw_triangle, queue_calls, run_calls}
use os_spring.Lab.FourthClient.{fourth_drawing_calls, fourth_run_calls, fourth_main}
use os_spring.Lab.Filled.{take}
use os_spring.Lab.Progress.{lab_reaches, Settled}
use os_spring.Lab.Program.{program_commands, length-program_commands, drawn_calls}

-- a state of the last lab's driver that differs only in its DMA buffers, of which there are none
abbrev widened : Third → Lab
widened s = record {
  k_control_base = s.k_control_base;
  k_ram_card_base = s.k_ram_card_base;
  kv_control_base = s.kv_control_base;
  kv_ram_card_base = s.kv_ram_card_base;
  fifo = s.fifo;
  graphics_on = s.graphics_on;
  dma_mapped = s.dma_mapped;
  fill = 0;
  drain = 0;
  dma_buffs = [];
  effects = s.effects;
}

-- The calls that both drivers answer alike: the FIFO's, and those that turn the graphics on.
abbrev alike : LabIoctl → Bool
alike (queue ret entry) = true
alike (flush turns) = true
alike (set_vmode mode turns) = not (u32 mode == 0)
alike (bind answers arg) = false
alike ubind = false
alike other = false

abbrev all_alike : List LabIoctl → Bool
all_alike [] = true
all_alike (c ∷ cs) = alike c && all_alike cs

fourth_ioctl-alike :
    (c : LabIoctl) (s t : Lab) (status : ℕ)
    → alike c ≡ true
    → kyouko3fops_ioctl c s ≡ some (t, status)
    → fourth_ioctl c (forget s) ≡ some (forget t, status)
unfolding fourth_ioctl third_ioctl Fourth.fourth_fifo_queue Fourth.fourth_fifo_flush
fourth_ioctl-alike (queue ret entry) s t status h e =
    sym (forget-ioctl (queue ret entry) s refl) ∙ ap (Option.map forget_result) e
fourth_ioctl-alike (flush turns) s t status h e =
    sym (forget-ioctl (flush turns) s refl) ∙ ap (Option.map forget_result) e
fourth_ioctl-alike (set_vmode mode turns) s t status h e =
    let c = set_vmode mode turns in
    ap (λ (b : Bool). if b then fourth_ioctl c (forget s) else third_ioctl c (forget s)) (sym h)
    ∙ sym (forget-ioctl c s refl)
    ∙ ap (Option.map forget_result) e
fourth_ioctl-alike (bind answers arg) s t status h e = absurd (ground arith)
fourth_ioctl-alike ubind s t status h e = absurd (ground arith)
fourth_ioctl-alike other s t status h e = absurd (ground arith)

-- A first call that returns, and the rest.
run_calls-first :
    (c : LabIoctl) (cs : List LabIoctl) (s t : Lab) (o : Option (Lab × ℕ))
    → kyouko3fops_ioctl c s ≡ o
    → run_calls (c ∷ cs) s ≡ some t
    → (u : Lab) × (status : ℕ) × (kyouko3fops_ioctl c s ≡ some (u, status))
      × (run_calls cs u ≡ some t)
unfolding run_calls
run_calls-first c cs s t none w e = absurd (ground arith)
run_calls-first c cs s t (some (u, status)) w e = (u, status, w, ground arith)

fourth_run_calls-first :
    (c : LabIoctl) (cs : List LabIoctl) (s u : Third) (status : ℕ)
    → fourth_ioctl c s ≡ some (u, status)
    → fourth_run_calls (c ∷ cs) s ≡ fourth_run_calls cs u
unfolding fourth_run_calls
fourth_run_calls-first c cs s u status h = ground (arith, h)

-- A run of calls that both drivers answer alike.
fourth_run_calls-alike :
    (cs : List LabIoctl) (s t : Lab)
    → all_alike cs ≡ true
    → run_calls cs s ≡ some t
    → fourth_run_calls cs (forget s) ≡ some (forget t)
unfolding run_calls fourth_run_calls
fourth_run_calls-alike [] s t h e = ap (Option.map forget) e
fourth_run_calls-alike (c ∷ cs) s t h e =
    let (u, status, first, rest) = run_calls-first c cs s t (kyouko3fops_ioctl c s) refl e in
    fourth_run_calls-first c cs (forget s) (forget u) status
      (fourth_ioctl-alike c s u status (ground arith) first)
    ∙ fourth_run_calls-alike cs u t (ground arith) rest

-- Both programs draw the same.
drawing_calls_lem :
    (on first triangle : List Bus)
    → fourth_drawing_calls on first triangle
      ≡ (set_vmode 1 on ∷ flush first ∷ (queue_calls draw_triangle ++ (flush triangle ∷ [])))
unfolding fourth_drawing_calls draw_triangle
drawing_calls_lem on first triangle = refl

drawing_calls-all_alike :
    (on first triangle : List Bus) → all_alike (fourth_drawing_calls on first triangle) ≡ true
unfolding fourth_drawing_calls
drawing_calls-all_alike on first triangle = refl

drawing_done :
    (control : ℕ) (on first triangle : List Bus) (u : Third)
    → length u.fifo.entries ≡ 1024
    → u.kv_control_base ≡ control
    → u.fifo.head ≡ 0
    → lab_reaches control 6 on ≡ true
    → lab_reaches control 36 triangle ≡ true
    → (t : Lab) × (fourth_run_calls (fourth_drawing_calls on first triangle) u ≡ some (forget t))
      × Settled control program_commands t
drawing_done control on first triangle u size at head h k =
    let (t, ran, settled) =
      drawn_calls control on first triangle [] (widened u)
        (record { size = size; at = at; head = head; written = refl }) h k in
    let calls = drawing_calls_lem on first triangle in
    (
      t,
      fourth_run_calls-alike (fourth_drawing_calls on first triangle) (widened u) t
          (drawing_calls-all_alike on first triangle)
          (ap (λ (cs : List LabIoctl). run_calls cs (widened u)) calls
            ∙ ran
            ∙ unfold run_calls in refl),
      settled,
    )

-- If the kernel maps the control window for the program, the card's tail gets to 6 while the mode is
-- set, and to 36 while the triangle is flushed, then the fourth lab's program comes to its end on the
-- fourth lab's driver: with the graphics off, the thirty-six commands in the FIFO's memory from its
-- start, in their order, and the card's tail seen behind the last of them, although this driver does
-- not wait for the card before it gives that memory back. If the kernel refuses that mapping, the
-- program does not come to its end.
pub fourth_main_draws :
    (answers : LabOpen) (bus : Bus) (frame : ℕ) (on first triangle : List Bus) (s : Third)
    → length answers.fifo_memory ≡ 1024
    → lab_reaches answers.control_base 6 on ≡ true
    → lab_reaches answers.control_base 36 triangle ≡ true
    → ((t : Third) × (fourth_main answers bus 0 frame on first triangle s ≡ some t)
        × (t.graphics_on ≡ false)
        × (take 36 t.fifo.entries ≡ program_commands)
        × (t.fifo.tail ≡ 36))
      × ((refused : ℕ)
          → refused ≢ 0
          → fourth_main answers bus refused frame on first triangle s ≡ none)
unfolding fourth_main fourth_open fourth_mmap fourth_release fourth_ioctl fourth_fifo_vmode
    fourth_off_graphics_mode fourth_run_calls
fourth_main_draws answers bus frame on first triangle s size h k =
    let u = (fourth_mmap 0x80000 frame (fourth_mmap 0 0 (fourth_open answers bus s).0).0).0 in
    let (t, ran, settled) =
      drawing_done answers.control_base on first triangle u size refl refl h k in
    (
      (
        (fourth_release (fourth_off_graphics_mode (forget t))).0,
        ap
            (λ (o : Option Third). elim o as (λ _. Option Third) [
              | none ↦ none
              | some v ↦ some (fourth_release (fourth_off_graphics_mode v)).0
            ])
            ran,
        refl,
        subst (λ n. take n t.fifo.entries ≡ program_commands) length-program_commands
            settled.filled.written,
        settled.tail ∙ length-program_commands,
      ),
      λ refused ne. ground arith,
    )
