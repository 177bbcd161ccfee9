-- ===== src/Lab/Progress.antt =====
-- What the calls of the lab driver do to a FIFO that has not come to its end
-- (mylab/5lab/mymod.c, lines 79 to 87, 149 to 175 and 239 to 307).
use os_spring.Common.{
  ℕ, ◌+◌, ◌*◌, ◌/◌, ◌≡◌, ◌≢◌, ◌⊎◌, inl, inr, refl, ap, ◌∙◌, Bool, true, false, ◌||◌, Option, none,
  some, List, [], ◌∷◌, arith, ◌==◌, length, Bool-cases, ==_iff,
}
use mathlib.Core.Option
use native.Mathlib.Decide.{ℕ_discrete}
use os_spring.Kyouko3.State.{FifoEntry, Bus}
use os_spring.Lab.Driver.{
  Lab, reg_offset, fifotail, fifohead, k_read_reg, k_write_reg, lab_flush_loop, lab_fifo_flush,
  off_graphics_mode, on_graphics_mode, lab_set_mode, clear_commands,
}
use os_spring.Lab.Filled.{take, IsFilled, fifo_writes-IsFilled}

-- whether the card's tail stands at `head` in one of its answers
unfoldable pub lab_reaches : (control head : ℕ) → List Bus → Bool
lab_reaches control head [] = false
lab_reaches control head (bus ∷ more) =
    (bus (control + 4 * (reg_offset fifotail / 4)) == head) || lab_reaches control head more

-- A flush that returns leaves the memory and the head as they were, and the tail at the head.
pub record Flushed (s t : Lab) : Type 0 where
  pub entries : t.fifo.entries ≡ s.fifo.entries
  pub head : t.fifo.head ≡ s.fifo.head
  pub at : t.kv_control_base ≡ s.kv_control_base
  pub tail : t.fifo.tail ≡ s.fifo.head

abbrev read_tail : Bus → Lab → Lab
read_tail bus s = record s { fifo = record s.fifo { tail = k_read_reg bus fifotail s } }

lab_flush_loop-idle :
    (turns : List Bus) (s : Lab) → s.fifo.tail ≡ s.fifo.head → lab_flush_loop turns s ≡ some s
unfolding lab_flush_loop
lab_flush_loop-idle [] s e = ground arith
lab_flush_loop-idle (bus ∷ more) s e = ground arith

lab_flush_loop-busy :
    (bus : Bus) (more : List Bus) (s : Lab)
    → s.fifo.tail ≢ s.fifo.head
    → lab_flush_loop (bus ∷ more) s ≡ lab_flush_loop more (read_tail bus s)
unfolding lab_flush_loop
lab_flush_loop-busy bus more s ne = ground arith

reaches_next :
    (bus : Bus) (more : List Bus) (s : Lab)
    → lab_reaches s.kv_control_base s.fifo.head (bus ∷ more) ≡ true
    → (k_read_reg bus fifotail s ≡ s.fifo.head)
      ⊎ (lab_reaches s.kv_control_base s.fifo.head more ≡ true)
unfolding lab_reaches k_read_reg
reaches_next bus more s r =
    let tail = bus (s.kv_control_base + 4 * (reg_offset fifotail / 4)) in
    elim (Bool-cases (tail == s.fifo.head)) [
      | inl e ↦ inl ((==_iff tail s.fifo.head).0 e)
      | inr ne ↦ inr (ground arith)
    ]

lab_flush_loop-Flushed :
    (turns : List Bus) (s : Lab)
    → (s.fifo.tail ≡ s.fifo.head) ⊎ (lab_reaches s.kv_control_base s.fifo.head turns ≡ true)
    → (t : Lab) × (lab_flush_loop turns s ≡ some t) × Flushed s t
unfolding lab_reaches
lab_flush_loop-Flushed turns s (inl e) =
    (s, lab_flush_loop-idle turns s e, record { entries = refl; head = refl; at = refl; tail = e })
lab_flush_loop-Flushed [] s (inr r) = absurd (ground arith)
lab_flush_loop-Flushed (bus ∷ more) s (inr r) = elim (ℕ_discrete s.fifo.tail s.fifo.head) [
  | yes e ↦ (
    s,
    lab_flush_loop-idle (bus ∷ more) s e,
    record { entries = refl; head = refl; at = refl; tail = e },
  )
  | no ne ↦
      let (t, done, f) =
        lab_flush_loop-Flushed more (read_tail bus s) (reaches_next bus more s r) in
      (
        t,
        lab_flush_loop-busy bus more s ne ∙ done,
        record { entries = f.entries; head = f.head; at = f.at; tail = f.tail },
      )
]

-- the tail is at the head already, or one of the card's answers is
abbrev Settles : (head tail control : ℕ) → List Bus → Type 0
Settles head tail control turns = (tail ≡ head) ⊎ (lab_reaches control head turns ≡ true)

lab_fifo_flush-Flushed :
    (turns : List Bus) (s : Lab)
    → Settles s.fifo.head s.fifo.tail s.kv_control_base turns
    → (t : Lab) × (lab_fifo_flush turns s ≡ some t) × Flushed s t
unfolding lab_fifo_flush
lab_fifo_flush-Flushed turns s h =
    let (t, done, f) = lab_flush_loop-Flushed turns (k_write_reg fifohead s.fifo.head s) h in
    (t, done, record { entries = f.entries; head = f.head; at = f.at; tail = f.tail })

Flushed-IsFilled :
    (control : ℕ) (es : List FifoEntry) {s t : Lab}
    → Flushed s t
    → IsFilled control es s
    → IsFilled control es t
Flushed-IsFilled control es g f = record {
  size = ap (λ (l : List FifoEntry). length l) g.entries ∙ f.size;
  at = g.at ∙ f.at;
  head = g.head ∙ f.head;
  written = ap (λ (l : List FifoEntry). take (length es) l) g.entries ∙ f.written;
}

-- What a call leaves, if it comes back with these commands written and none of them unread.
pub record Settled (control : ℕ) (es : List FifoEntry) (t : Lab) : Type 0 where
  pub filled : IsFilled control es t
  pub tail : t.fifo.tail ≡ length es

pub lab_fifo_flush-Settled :
    (control : ℕ) (es : List FifoEntry) (turns : List Bus) (s : Lab)
    → IsFilled control es s
    → Settles (length es) s.fifo.tail control turns
    → (t : Lab) × (lab_fifo_flush turns s ≡ some t) × Settled control es t
lab_fifo_flush-Settled control es turns s f h =
    let (t, done, g) = lab_fifo_flush-Flushed turns s (rw (f.head, f.at) h) in
    (t, done, record { filled = Flushed-IsFilled control es g f; tail = g.tail ∙ f.head })

pub on_graphics_mode-Settled :
    (control : ℕ) (turns : List Bus) (s : Lab)
    → IsFilled control [] s
    → Settles 6 s.fifo.tail control turns
    → (t : Lab) × (on_graphics_mode turns s ≡ some t)
      × Settled control clear_commands t
      × (t.graphics_on ≡ true)
unfolding on_graphics_mode lab_set_mode
on_graphics_mode-Settled control turns s f h =
    let s' = lab_set_mode s in
    let (u, wrote, g, same) =
      fifo_writes-IsFilled control [] clear_commands s'
        (record { size = f.size; at = f.at; head = f.head; written = f.written }) (omega arith) in
    let (t, done, settled) = lab_fifo_flush-Settled control clear_commands turns u g (rw same h) in
    (
      record t { graphics_on = true },
      ap
            (λ (o : Option Lab). elim o as (λ _. Option Lab) [
              | none ↦ none
              | some v ↦
                  Option.map (λ (v : Lab). record v { graphics_on = true }) (lab_fifo_flush turns v)
            ])
            wrote
          ∙ ap (Option.map (λ (v : Lab). record v { graphics_on = true })) done,
      record {
        filled = record {
          size = settled.filled.size;
          at = settled.filled.at;
          head = settled.filled.head;
          written = settled.filled.written;
        };
        tail = settled.tail;
      },
      refl,
    )

pub off_graphics_mode-Settled :
    (control : ℕ) (es : List FifoEntry) (turns : List Bus) (s : Lab)
    → IsFilled control es s
    → Settles (length es) s.fifo.tail control turns
    → (t : Lab) × (off_graphics_mode turns s ≡ some t)
      × Settled control es t
      × (t.graphics_on ≡ false)
unfolding off_graphics_mode
off_graphics_mode-Settled control es turns s f h =
    let (t, done, settled) = lab_fifo_flush-Settled control es turns s f h in
    (
      _,
      ap (Option.map _) done,
      record {
        filled = record {
          size = settled.filled.size;
          at = settled.filled.at;
          head = settled.filled.head;
          written = settled.filled.written;
        };
        tail = settled.tail;
      },
      refl,
    )
