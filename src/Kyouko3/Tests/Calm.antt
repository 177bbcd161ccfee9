-- ===== src/Kyouko3/Tests/Calm.antt =====
-- A card that reports one transfer whenever a program waits for it, and no other: the answers of the
-- machine that the tests of whole programs use.
use os_spring.Common.{
  ◌<◌, ◌∙◌, refl, true, Option, none, some, ℕ, zero, suc, ◌≤◌, ◌≡◌, ◌≢◌, List, [], ◌∷◌, arith,
  replicate, dec32,
}
use os_spring.Kyouko3.State.{Kyouko3, Bus, k_read_register}
use native.Mathlib.Decide.{ℕ_discrete}
use mathlib.Core.Option
use os_spring.Kyouko3.Graphics
use os_spring.Kyouko3.Files.{fifo_flush, kyouko3_ioctl}
use os_spring.Kyouko3.Queue.{is_some, reaches, Quiet, fifo_flush-returns}
use os_spring.Kyouko3.Dma.{dma_intr, interrupts, Phase, refused, issuing, waiting, returning}
use os_spring.Kyouko3.Graphics.{Turn}
use os_spring.Kyouko3.Ring.{reports}
use os_spring.Kyouko3.Ring.Invariant.{dma_intr-Retired}
use os_spring.Kyouko3.Ring.Timely.{TimelyPhase, TimelyFlush}
use os_spring.Kyouko3.Ring.Closing.{TimelyEmpty}

abbrev pub report : Bus
report = λ address. 2

-- turns in which the card's tail stands at 0, 1, 2 and so on below a number, and no interrupt comes
abbrev pub tails_below : ℕ → List Turn
tails_below zero = []
tails_below (suc n) = record { bus = λ address. n; arriving = [] } ∷ tails_below n

report-reports : (s : Kyouko3) → reports report s ≢ 0
unfolding k_read_register
report-reports s = λ e. absurd (omega arith)

report-queued : (s : Kyouko3) → (dma_intr report s).0.queued_count ≡ dec32 s.queued_count
report-queued s = (dma_intr-Retired report s (report-reports s)).queued

pub tails-Timely : (n : ℕ) (s : Kyouko3) → TimelyFlush (tails_below n) s
tails-Timely zero s = tt
tails-Timely (suc n) s = λ ne. (tt, tails-Timely n _)

pub phase-Timely : (phase : Phase) (s : Kyouko3) → TimelyPhase phase [] (report ∷ []) s
unfolding interrupts
phase-Timely refused s = tt
phase-Timely issuing s = tt
phase-Timely waiting s = (
  tt,
  λ full.
      ((λ r e. absurd (omega (arith, full))), (λ e. absurd (omega (arith, full, report-queued s)))),
)
phase-Timely returning s = tt

pub empty-Timely : (k : ℕ) (s : Kyouko3) → s.queued_count ≤ k → TimelyEmpty (replicate k report) s
empty-Timely zero s le = omega arith
empty-Timely (suc k) s le = λ ne. empty-Timely k _ (omega (arith, report-queued s))

tails-Quiet : (n : ℕ) → Quiet (tails_below n)
tails-Quiet zero = tt
tails-Quiet (suc n) = (refl, tails-Quiet n)

tails-reaches : (control head n : ℕ) → head < n → reaches control head (tails_below n) ≡ true
unfolding reaches
tails-reaches control head zero lt = absurd (omega arith)
tails-reaches control head (suc n) lt = elim (ℕ_discrete n head) [
  | yes e ↦ ground (arith, e)
  | no ne ↦ ground (arith, tails-reaches control head n (omega arith))
]

is_some-map : {A B : Type 0} (f : A → B) (o : Option A) → is_some (Option.map f o) ≡ is_some o
is_some-map f none = refl
is_some-map f (some a) = refl

-- A flush returns, since the tail comes to every place in the FIFO.
pub flush-answered :
    (s : Kyouko3)
    → s.fifo.head < 1024
    → is_some (kyouko3_ioctl (fifo_flush (tails_below 1024)) s) ≡ true
unfolding kyouko3_ioctl
flush-answered s lt =
    is_some-map _ (Graphics.fifo_flush (tails_below 1024) s)
    ∙ fifo_flush-returns (tails_below 1024) s (tails-Quiet 1024)
    ∙ ground (arith, tails-reaches s.k_control_base s.fifo.head 1024 lt)
