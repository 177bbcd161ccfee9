-- ===== src/Lab/Program.antt =====
-- The triangle program on the lab driver, from `open` to `close` (mylab/5lab/user.c, lines 153 to 196,
-- and mylab/5lab/mymod.c, lines 117 to 307 and 400 to 436).
use os_spring.Common.{
  ℕ, ◌≡◌, ◌≢◌, inl, inr, refl, sym, ap, ◌∙◌, true, false, Option, none, some, List, [], ◌∷◌, ◌++◌,
  arith, length,
}
use mathlib.Core.Path.{subst}
use mathlib.Core.Option
use os_spring.Kyouko3.State.{FifoEntry, Bus, Effect}
use os_spring.Lab.Driver.{
  Lab, record_effect, lab_fifo_write, fifo_writes, lab_fifo_flush, off_graphics_mode,
  on_graphics_mode, fifo_vmode, clear_commands,
}
use os_spring.Lab.Calls.{
  LabOpen, kyouko3fops_open, kyouko3fops_mmap, kyouko3fops_release, LabIoctl, kyouko3fops_ioctl,
  lab_fifo_queue,
}
use os_spring.Lab.Client.{
  draw_triangle, queue_calls, main_calls, run_calls, user_main, draw_vertices, emit_vertices,
  emit_vertex, set_vertex_buffer, set_color_buffer,
}
use os_spring.Lab.Filled.{take, IsFilled, fifo_writes-IsFilled}
use os_spring.Lab.Progress.{
  lab_reaches, Settled, lab_fifo_flush-Settled, on_graphics_mode-Settled, off_graphics_mode-Settled,
}

-- One call that succeeds, and the rest.
run_calls-cons :
    (c : LabIoctl) (cs : List LabIoctl) (s t : Lab) (status : ℕ)
    → kyouko3fops_ioctl c s ≡ some (t, status)
    → run_calls (c ∷ cs) s ≡ run_calls cs t
unfolding run_calls
run_calls-cons c cs s t status h = ground (arith, h)

queue_then :
    (e : FifoEntry) (es : List FifoEntry) (cs : List LabIoctl) (s t : Lab) (o : Option Lab)
    → lab_fifo_write e.command e.value s ≡ o
    → fifo_writes (e ∷ es) s ≡ some t
    → ((u : Lab) → fifo_writes es u ≡ some t → run_calls (queue_calls es ++ cs) u ≡ run_calls cs t)
    → run_calls (queue_calls (e ∷ es) ++ cs) s ≡ run_calls cs t
unfolding fifo_writes kyouko3fops_ioctl lab_fifo_queue
queue_then e es cs s t none w i ih = ground arith
queue_then e es cs s t (some u) w i ih =
    run_calls-cons (LabIoctl.queue 0 e) (queue_calls es ++ cs) s u 0
      (ap (Option.map (λ (v : Lab). (v, 0))) w)
    ∙ ih u (ground arith)

-- Queueing entry by entry is a run of `FIFO_WRITE`.
run_calls-queue_calls :
    (es : List FifoEntry) (cs : List LabIoctl) (s t : Lab)
    → fifo_writes es s ≡ some t
    → run_calls (queue_calls es ++ cs) s ≡ run_calls cs t
unfolding fifo_writes
run_calls-queue_calls [] cs s t h = ground (arith, h)
run_calls-queue_calls (e ∷ es) cs s t h =
    queue_then e es cs s t (lab_fifo_write e.command e.value s) refl h
      (λ u i. run_calls-queue_calls es cs u t i)

ioctl-on :
    (turns : List Bus) (s t : Lab)
    → on_graphics_mode turns s ≡ some t
    → kyouko3fops_ioctl (LabIoctl.set_vmode 1 turns) s ≡ some (t, 0)
unfolding kyouko3fops_ioctl fifo_vmode
ioctl-on turns s t h = ap (Option.map (λ (v : Lab). (v, 0))) h

ioctl-off :
    (turns : List Bus) (s t : Lab)
    → off_graphics_mode turns s ≡ some t
    → kyouko3fops_ioctl (LabIoctl.set_vmode 0 turns) s ≡ some (t, 0)
unfolding kyouko3fops_ioctl fifo_vmode
ioctl-off turns s t h = ap (Option.map (λ (v : Lab). (v, 0))) h

ioctl-flush :
    (turns : List Bus) (s t : Lab)
    → lab_fifo_flush turns s ≡ some t
    → kyouko3fops_ioctl (LabIoctl.flush turns) s ≡ some (t, 0)
unfolding kyouko3fops_ioctl
ioctl-flush turns s t h = ap (Option.map (λ (v : Lab). (v, 0))) h

-- the commands of a run of the program: six of `on_GraphicsMode`, thirty of `DrawTriangle`
abbrev pub program_commands : List FifoEntry
program_commands = clear_commands ++ draw_triangle

length-draw_triangle : length draw_triangle ≡ 30
unfolding draw_triangle draw_vertices emit_vertices emit_vertex set_vertex_buffer set_color_buffer
length-draw_triangle = refl

pub length-program_commands : length program_commands ≡ 36
unfolding draw_triangle draw_vertices emit_vertices emit_vertex set_vertex_buffer set_color_buffer
length-program_commands = refl

-- The calls up to the flush of the triangle, on an opened device, before any others.
pub drawn_calls :
    (control : ℕ) (on first triangle : List Bus) (cs : List LabIoctl) (s : Lab)
    → IsFilled control [] s
    → lab_reaches control 6 on ≡ true
    → lab_reaches control 36 triangle ≡ true
    → (t : Lab) × (run_calls
          (LabIoctl.set_vmode 1 on
            ∷ LabIoctl.flush first
            ∷ (queue_calls draw_triangle ++ (LabIoctl.flush triangle ∷ cs)))
          s
        ≡ run_calls cs t)
      × Settled control program_commands t
drawn_calls control on first triangle cs s f h k =
    let (t₁, e₁, s₁, _) = on_graphics_mode-Settled control on s f (inr h) in
    let (t₂, e₂, s₂) =
      lab_fifo_flush-Settled control clear_commands first t₁ s₁.filled (inl s₁.tail) in
    let thirty = length-draw_triangle in
    let (t₃, e₃, f₃, same) =
      fifo_writes-IsFilled control clear_commands draw_triangle t₂ s₂.filled (omega arith) in
    let (t₄, e₄, s₄) =
      lab_fifo_flush-Settled control program_commands triangle t₃ f₃ (
        inr (subst (λ n. lab_reaches control n triangle ≡ true) (sym length-program_commands) k)) in
    (
      t₄,
      run_calls-cons (LabIoctl.set_vmode 1 on) _ s t₁ 0 (ioctl-on on s t₁ e₁)
          ∙ run_calls-cons (LabIoctl.flush first) _ t₁ t₂ 0 (ioctl-flush first t₁ t₂ e₂)
          ∙ run_calls-queue_calls draw_triangle _ t₂ t₃ e₃
          ∙ run_calls-cons (LabIoctl.flush triangle) cs t₃ t₄ 0 (ioctl-flush triangle t₃ t₄ e₄),
      s₄,
    )

-- the calls of the program on an opened device
calls_done :
    (control : ℕ) (on first triangle off : List Bus) (s : Lab)
    → IsFilled control [] s
    → lab_reaches control 6 on ≡ true
    → lab_reaches control 36 triangle ≡ true
    → (t : Lab) × (run_calls (main_calls on first triangle off) s ≡ some t)
      × Settled control program_commands t
unfolding main_calls
calls_done control on first triangle off s f h k =
    let (t₄, e₄, s₄) =
      drawn_calls control on first triangle (LabIoctl.set_vmode 0 off ∷ []) s f h k in
    let (t₅, e₅, s₅, _) =
      off_graphics_mode-Settled control program_commands off t₄ s₄.filled (inl s₄.tail) in
    (
      t₅,
      e₄
          ∙ run_calls-cons (LabIoctl.set_vmode 0 off) [] t₄ t₅ 0 (ioctl-off off t₄ t₅ e₅)
          ∙ unfold run_calls in refl,
      s₅,
    )

-- what `kyouko3fops_release` does behind the graphics mode
abbrev let_go : Lab → Lab × ℕ
let_go s =
    let s = record_effect (Effect.pci_free_consistent 8192 s.fifo.k_base s.fifo.p_base) s in
    let s = record_effect (Effect.iounmap s.kv_control_base) s in
    (record_effect (Effect.iounmap s.kv_ram_card_base) s, 0)

release_lem :
    (closing : List Bus) (s t : Lab)
    → off_graphics_mode closing s ≡ some t
    → kyouko3fops_release closing s ≡ some (let_go t)
unfolding kyouko3fops_release
release_lem closing s t h = ap (Option.map let_go) h

-- If the kernel maps the control window for the program, the card's tail gets to 6 while the mode is
-- set, and to 36 while the triangle is flushed, then the program comes to its end: with the graphics
-- off, and the thirty-six commands in the FIFO's memory from its start, in their order. If the kernel
-- refuses that mapping, the program does not come to its end.
pub user_main_draws :
    (answers : LabOpen) (bus : Bus) (frame : ℕ) (on first triangle off closing : List Bus) (s : Lab)
    → length answers.fifo_memory ≡ 1024
    → lab_reaches answers.control_base 6 on ≡ true
    → lab_reaches answers.control_base 36 triangle ≡ true
    → ((t : Lab) × (user_main answers bus 0 frame on first triangle off closing s ≡ some t)
        × (t.graphics_on ≡ false)
        × (take 36 t.fifo.entries ≡ program_commands))
      × ((refused : ℕ)
          → refused ≢ 0
          → user_main answers bus refused frame on first triangle off closing s ≡ none)
unfolding user_main kyouko3fops_open kyouko3fops_mmap kyouko3fops_release
user_main_draws answers bus frame on first triangle off closing s size h k =
    let s₀ =
      (kyouko3fops_mmap 0x80000 frame
        (kyouko3fops_mmap 0 0 (kyouko3fops_open answers bus s).0).0).0 in
    let (t, ran, settled) =
      calls_done answers.control_base on first triangle off s₀
        (record { size = size; at = refl; head = refl; written = refl }) h k in
    let (u, closed, kept, dark) =
      off_graphics_mode-Settled answers.control_base program_commands closing t settled.filled
        (inl settled.tail) in
    (
      (
        (let_go u).0,
        ap
              (λ (o : Option Lab). elim o as (λ _. Option Lab) [
                | none ↦ none
                | some v ↦ elim (kyouko3fops_release closing v) as (λ _. Option Lab) [
                  | none ↦ none
                  | some r ↦ some r.0
                ]
              ])
              ran
            ∙ ap
                (λ (o : Option (Lab × ℕ)). elim o as (λ _. Option Lab) [
                  | none ↦ none
                  | some r ↦ some r.0
                ])
                (release_lem closing t u closed),
        dark,
        subst (λ n. take n u.fifo.entries ≡ program_commands) length-program_commands
            kept.filled.written,
      ),
      λ refused ne. ground arith,
    )
