-- ===== src/Kyouko3/Ring/Flushes.antt =====
-- A flush of the FIFO, and what leaves the queue alone, as runs of the system
-- (Kyouko3_GrpahicsDriver/mymod.c, lines 294 to 300).
use mathlib.Core.Path.{subst}
use native.Mathlib.Decide.{ℕ_discrete}
use os_spring.Common.{ℕ, ◌≡◌, ◌≢◌, refl, sym, ◌∙◌, some, List, [], ◌∷◌, arith}
use os_spring.Kyouko3.State.{Kyouko3, SameQueue, Bus}
use os_spring.Kyouko3.Dma.{interrupts}
use os_spring.Kyouko3.Graphics
use os_spring.Kyouko3.Graphics.{
  Turn, read_tail, flush_loop, set_mode, clear_screen, leave_mode, graphics_on, graphics_off,
}
use os_spring.Kyouko3.Ring.{Transfer, transfers, ready, System, here, next, other_call}
use os_spring.Kyouko3.Ring.Invariant.{IsCoherent}
use os_spring.Kyouko3.Ring.Guarantees.{Reach-IsCoherent}
use os_spring.Kyouko3.Ring.Timely.{TimelyFlush, told}
use os_spring.Kyouko3.Ring.Calls.{Reaches, Reaches-then, interrupts-Reaches}

-- a device at which a program makes its calls
abbrev pub calling : Kyouko3 → List Transfer → ℕ → System
calling s sub c = record { dev = s; thread = ready; submitted = sub; completed = c }

-- Code that leaves the queue alone and gives the card nothing.
abbrev pub Quiet : Kyouko3 → Kyouko3 → Type 0
Quiet s t = SameQueue s t × (transfers t.effects ≡ transfers s.effects)

pub Quiet-Reaches :
    (s t : Kyouko3) (sub : List Transfer) (c : ℕ)
    → Quiet s t
    → Reaches (calling s sub c) t ready sub
Quiet-Reaches s t sub c (same, given) = (c, next here (other_call t refl same given refl))

read_tail-Quiet : (bus : Bus) (s : Kyouko3) → Quiet s (read_tail bus s)
read_tail-Quiet bus s =
    (record { buffers = refl; fill = refl; drain = refl; queued = refl; mapped = refl }, refl)

told-Quiet : (s : Kyouko3) → Quiet s (told s)
unfolding transfers
told-Quiet s =
    (record { buffers = refl; fill = refl; drain = refl; queued = refl; mapped = refl }, refl)

flush-idle :
    (turn : Turn) (more : List Turn) (s : Kyouko3)
    → s.fifo.tail_cache ≡ s.fifo.head
    → flush_loop (turn ∷ more) s ≡ some s
unfolding flush_loop
flush-idle turn more s e = ground arith

flush-busy :
    (turn : Turn) (more : List Turn) (s : Kyouko3)
    → s.fifo.tail_cache ≢ s.fifo.head
    → flush_loop (turn ∷ more) s ≡ flush_loop more (interrupts turn.arriving (read_tail turn.bus s))
unfolding flush_loop
flush-busy turn more s ne = ground arith

some-injective : {a b : Kyouko3} → some a ≡ some b → a ≡ b
some-injective e = cc

flush_loop-Reaches :
    (turns : List Turn) (s t : Kyouko3) (sub : List Transfer) (c : ℕ)
    → IsCoherent (calling s sub c)
    → TimelyFlush turns s
    → flush_loop turns s ≡ some t
    → Reaches (calling s sub c) t ready sub
unfolding flush_loop
flush_loop-Reaches [] s t sub c i h e =
    subst (λ u. Reaches (calling s sub c) u ready sub) (ground arith) (c, here)
flush_loop-Reaches (turn ∷ more) s t sub c i h e = elim (ℕ_discrete s.fifo.tail_cache s.fifo.head) [
  | yes idle ↦
      subst (λ u. Reaches (calling s sub c) u ready sub)
        (some-injective (sym (flush-idle turn more s idle) ∙ e)) (c, here)
  | no ne ↦
      Reaches-then _ _ _ _ _ _ _
        (Quiet-Reaches s (read_tail turn.bus s) sub c (read_tail-Quiet turn.bus s))
        (λ n r.
          let j = Reach-IsCoherent _ _ i r in
          Reaches-then _ _ _ _ _ _ _ (interrupts-Reaches turn.arriving _ j refl (h ne).0) (λ m q.
            flush_loop-Reaches more _ t sub m (Reach-IsCoherent _ _ j q) (h ne).1
              (sym (flush-busy turn more s ne) ∙ e)))
]

pub fifo_flush-Reaches :
    (turns : List Turn) (s t : Kyouko3) (sub : List Transfer) (c : ℕ)
    → IsCoherent (calling s sub c)
    → TimelyFlush turns (told s)
    → Graphics.fifo_flush turns s ≡ some t
    → Reaches (calling s sub c) t ready sub
unfolding Graphics.fifo_flush
fifo_flush-Reaches turns s t sub c i h e =
    Reaches-then _ _ _ _ _ _ _ (Quiet-Reaches s (told s) sub c (told-Quiet s))
      (λ n r. flush_loop-Reaches turns (told s) t sub n (Reach-IsCoherent _ _ i r) h e)
