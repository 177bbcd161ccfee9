-- ===== src/Kyouko3/Ring/Count.antt =====
-- Which slot comes next: `fill` counts the buffers that were handed over, modulo the eight slots
-- (Kyouko3_GrpahicsDriver/mymod.c, lines 160 to 282).
use mathlib.Core.Path.{subst}
use os_spring.Common.{
  ℕ, ◌+◌, ◌%◌, ◌≡◌, refl, ap, ◌∙◌, arith, inl, inr, ◌==◌, ltb, Bool-cases, length,
}
use os_spring.Kyouko3.State.{Kyouko3, dma_buff_size}
use os_spring.Kyouko3.Dma.{
  Phase, refused, issuing, waiting, returning, start_dma_locked, start_dma_issue,
}
use os_spring.Kyouko3.Ring.{
  Thread, ready, unissued, blocked, System, enter, Step, submit, issue, resume, completion,
  other_interrupt, command, other_call, Reach, here, next,
}
use os_spring.Kyouko3.Ring.Parts.{fifo_write-SameQueue}
use os_spring.Kyouko3.Ring.Invariant.{dma_intr-quiet, dma_intr-Retired}

-- Between the unlock and the FIFO stores the index has not moved yet.
abbrev CountAt : Thread → (fill handed : ℕ) → Type 0
CountAt ready fill n = fill ≡ n % 8
CountAt (unissued count) fill n = (fill + 1) % 8 ≡ n % 8
CountAt blocked fill n = fill ≡ n % 8

abbrev IsCounted : System → Type 0
IsCounted y = CountAt y.thread y.dev.fill (length y.submitted)

CountAt-fill : (thread : Thread) {f g : ℕ} (n : ℕ) → g ≡ f → CountAt thread f n → CountAt thread g n
CountAt-fill thread n e h = rw e h

enter-IsCounted :
    (count : ℕ) (y : System)
    → y.thread ≡ ready
    → IsCounted y
    → IsCounted (enter count (start_dma_locked count y.dev) y)
unfolding enter start_dma_locked
enter-IsCounted count y e c =
    let a : CountAt ready y.dev.fill (length y.submitted) =
      subst (λ t. CountAt t y.dev.fill (length y.submitted)) e c in
    elim (Bool-cases (count == 0)) [
      | inl z ↦ rw z c
      | inr nz ↦ elim (Bool-cases (ltb dma_buff_size count)) [
        | inl big ↦ rw (nz, big) c
        | inr fits ↦ elim (Bool-cases (y.dev.fill == y.dev.drain)) [
          | inl same ↦ rw (nz, fits, same) (omega arith)
          | inr apart ↦ elim (Bool-cases ((y.dev.fill + 1) % 8 == y.dev.drain)) [
            | inl full ↦ rw (nz, fits, apart, full) (omega arith)
            | inr room ↦ rw (nz, fits, apart, room) (rw e (omega arith))
          ]
        ]
      ]
    ]

issue-fill : (count : ℕ) (s : Kyouko3) → (start_dma_issue count s).fill ≡ (s.fill + 1) % 8
unfolding start_dma_issue
issue-fill count s = refl

Step-IsCounted : (y z : System) → Step y z → IsCounted y → IsCounted z
Step-IsCounted y z (submit count e f) c = rw f (enter-IsCounted count y e c)
Step-IsCounted y z (issue count e f) c =
    rw f (issue-fill count y.dev ∙ subst (λ t. CountAt t y.dev.fill (length y.submitted)) e c)
Step-IsCounted y z (resume e ne f) c =
    rw f (subst (λ t. CountAt t y.dev.fill (length y.submitted)) e c)
Step-IsCounted y z (completion bus r lt f) c =
    rw f (CountAt-fill y.thread (length y.submitted) (dma_intr-Retired bus y.dev r).fill c)
Step-IsCounted y z (other_interrupt bus r f) c =
    rw f (CountAt-fill y.thread (length y.submitted) (dma_intr-quiet bus y.dev r).0.fill c)
Step-IsCounted y z (command reg value e na nc f) c =
    rw f (CountAt-fill y.thread (length y.submitted) (fifo_write-SameQueue reg value y.dev).fill c)
Step-IsCounted y z (other_call t e same given f) c =
    rw f (CountAt-fill y.thread (length y.submitted) same.fill c)

pub Reach-IsCounted : (y z : System) → IsCounted y → Reach y z → IsCounted z
Reach-IsCounted y z c here = c
Reach-IsCounted y z c (next {z = u} r st) = Step-IsCounted u z st (Reach-IsCounted y u c r)

locked-mapped : (count : ℕ) (s : Kyouko3) → (start_dma_locked count s).0.dma_mapped ≡ s.dma_mapped
unfolding start_dma_locked
locked-mapped count s = ground arith

pub enter-dev :
    (count : ℕ) (s : Kyouko3) (phase : Phase) (y : System) → (enter count (s, phase) y).dev ≡ s
unfolding enter
enter-dev count s refused y = refl
enter-dev count s issuing y = refl
enter-dev count s waiting y = refl
enter-dev count s returning y = refl

issue-mapped : (count : ℕ) (s : Kyouko3) → (start_dma_issue count s).dma_mapped ≡ s.dma_mapped
unfolding start_dma_issue
issue-mapped count s = refl

Step-mapped : (y z : System) → Step y z → z.dev.dma_mapped ≡ y.dev.dma_mapped
Step-mapped y z (submit count e f) = rw f (
    ap (λ (s : Kyouko3). s.dma_mapped)
      (enter-dev count (start_dma_locked count y.dev).0 (start_dma_locked count y.dev).1 y)
    ∙ locked-mapped count y.dev)
Step-mapped y z (issue count e f) = rw f (issue-mapped count y.dev)
Step-mapped y z (resume e ne f) = rw f refl
Step-mapped y z (completion bus r lt f) = rw f ((dma_intr-Retired bus y.dev r).mapped)
Step-mapped y z (other_interrupt bus r f) = rw f ((dma_intr-quiet bus y.dev r).0.mapped)
Step-mapped y z (command reg value e na nc f) = rw f ((fifo_write-SameQueue reg value y.dev).mapped)
Step-mapped y z (other_call t e same given f) = rw f (same.mapped)

-- No step gives the buffers back.
pub Reach-mapped : (y z : System) → Reach y z → z.dev.dma_mapped ≡ y.dev.dma_mapped
Reach-mapped y z here = refl
Reach-mapped y z (next {z = u} r st) = Step-mapped u z st ∙ Reach-mapped y u r
