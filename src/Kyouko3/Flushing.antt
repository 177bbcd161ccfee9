-- ===== src/Kyouko3/Flushing.antt =====
-- What a flush that returns has seen (Kyouko3_GrpahicsDriver/mymod.c, lines 160 to 181 and 294 to 300).
use os_spring.Common.{
  ℕ, ◌≡◌, ◌⊎◌, inl, inr, refl, sym, ap, ◌∙◌, some, List, [], ◌∷◌, ◌++◌, arith, ◌==◌, Bool-cases,
  ==_iff,
}
use os_spring.Kyouko3.Register.{fifo_head}
use os_spring.Kyouko3.State.{Kyouko3, Bus, k_read_register, k_write_register}
use os_spring.Kyouko3.Dma.{dma_intr, interrupts}
use os_spring.Kyouko3.Graphics.{Turn, read_tail, flush_loop, fifo_flush}
use os_spring.Kyouko3.Queue.{tail_of}

-- The interrupt handler neither reads the card's tail nor maps the control window anew.
dma_intr-kept :
    (bus : Bus) (s : Kyouko3)
    → ((dma_intr bus s).0.fifo.tail_cache ≡ s.fifo.tail_cache)
      × ((dma_intr bus s).0.k_control_base ≡ s.k_control_base)
unfolding dma_intr
dma_intr-kept bus s = ground arith

interrupts-kept :
    (buses : List Bus) (s : Kyouko3)
    → ((interrupts buses s).fifo.tail_cache ≡ s.fifo.tail_cache)
      × ((interrupts buses s).k_control_base ≡ s.k_control_base)
unfolding interrupts
interrupts-kept [] s = (refl, refl)
interrupts-kept (bus ∷ more) s =
    let (tail, control) = dma_intr-kept bus s in
    let (tails, controls) = interrupts-kept more (dma_intr bus s).0 in
    (tails ∙ tail, controls ∙ control)

read_tail-tail :
    (turn : Turn) (s : Kyouko3)
    → (read_tail turn.bus s).fifo.tail_cache ≡ tail_of s.k_control_base turn
unfolding k_read_register
read_tail-tail turn s = refl

-- The head is the tail that the card answered in one of the turns.
abbrev pub Seen : (control head : ℕ) → List Turn → Type 0
Seen control head turns =
    (before : List Turn) × (turn : Turn) × (after : List Turn) × (turns ≡ before ++ (turn ∷ after))
    × (head ≡ tail_of control turn)

some-inj : (a b : Kyouko3) → some a ≡ some b → a ≡ b
some-inj a b e = cc

flush_loop-Seen :
    (turns : List Turn) (s t : Kyouko3)
    → flush_loop turns s ≡ some t
    → ((s.fifo.tail_cache ≡ s.fifo.head) × (t ≡ s)) ⊎ Seen s.k_control_base t.fifo.head turns
unfolding flush_loop
flush_loop-Seen [] s t h = elim (Bool-cases (s.fifo.tail_cache == s.fifo.head)) [
  | inl e ↦ inl ((==_iff _ _).0 e, ground arith)
  | inr e ↦ absurd (ground arith)
]
flush_loop-Seen (turn ∷ more) s t h =
    let u = interrupts turn.arriving (read_tail turn.bus s) in
    let (tail, control) = interrupts-kept turn.arriving (read_tail turn.bus s) in
    elim (Bool-cases (s.fifo.tail_cache == s.fifo.head)) [
      | inl e ↦ inl ((==_iff _ _).0 e, ground arith)
      | inr e ↦ elim (flush_loop-Seen more u t (ground arith)) [
        | inl (at, same) ↦ inr (
          [],
          turn,
          more,
          refl,
          ap (λ (v : Kyouko3). v.fifo.head) same ∙ sym at ∙ tail ∙ read_tail-tail turn s,
        )
        | inr (before, last, after, order, seen) ↦ inr (
          turn ∷ before,
          last,
          after,
          ap (λ (l : List Turn). turn ∷ l) order,
          seen ∙ ap (λ (c : ℕ). tail_of c last) control,
        )
      ]
    ]

-- A flush that returns did so at once, having told the card the head, since the tail that the driver
-- remembered from earlier was at it; or in one of the turns the card answered a tail that is the
-- driver's head at the return, whatever interrupts moved the head in between.
pub fifo_flush-Seen :
    (turns : List Turn) (s t : Kyouko3)
    → fifo_flush turns s ≡ some t
    → ((s.fifo.tail_cache ≡ s.fifo.head) × (t ≡ k_write_register fifo_head s.fifo.head s))
      ⊎ Seen s.k_control_base t.fifo.head turns
unfolding fifo_flush
fifo_flush-Seen turns s t h = flush_loop-Seen turns (k_write_register fifo_head s.fifo.head s) t h
