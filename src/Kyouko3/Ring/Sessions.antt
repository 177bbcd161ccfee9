-- ===== src/Kyouko3/Ring/Sessions.antt =====
-- Programs on bound buffers: any calls of `ioctl`, one after another
-- (Kyouko3_GrpahicsDriver/mymod.c, lines 160 to 414).
use mathlib.Core.Path.{subst}
use os_spring.Common.{
  ℕ, ◌+◌, ◌%◌, ◌<◌, ◌≤◌, ◌≡◌, refl, ap, ◌∙◌, true, false, Option, some, none, List, [], ◌∷◌, ◌++◌,
  arith, length,
}
use os_spring.Kyouko3.State.{Kyouko3, Bus, DmaBuffer}
use os_spring.Kyouko3.Dma.{BindAnswers, bind_dma, interrupts}
use os_spring.Kyouko3.Files.{OpenAnswers, kyouko3_open, Ioctl, kyouko3_ioctl}
use os_spring.Kyouko3.Binding.{bind_dma-starts}
use os_spring.Kyouko3.Ring.{Transfer, transfers, ready, here}
use os_spring.Kyouko3.Ring.Invariant.{IsCoherent}
use os_spring.Kyouko3.Ring.Guarantees.{Reach-IsCoherent, transfers_in_order}
use os_spring.Kyouko3.Ring.Memory.{IsInside, All, All-suffix, Owns, Reach-Owns}
use os_spring.Kyouko3.Ring.Count.{Reach-IsCounted, Reach-mapped}
use os_spring.Kyouko3.Ring.Timely.{Timely, TimelyCall, submits}
use os_spring.Kyouko3.Ring.Calls.{Reaches, interrupts-Reaches}
use os_spring.Kyouko3.Ring.Flushes.{calling}
use os_spring.Kyouko3.Ring.Refine.{kyouko3_ioctl-Reaches}

-- The buffers are bound at these card addresses, and these transfers were handed over.
pub record InSession (address : ℕ → ℕ) (s : Kyouko3) (sub : List Transfer) : Type 0 where
  pub completed : ℕ
  pub coherent : IsCoherent (calling s sub completed)
  pub owns : Owns address (calling s sub completed)
  pub counted : s.fill ≡ length sub % 8
  pub mapped : s.dma_mapped ≡ true

pub Reaches-InSession :
    (address : ℕ → ℕ) (s t : Kyouko3) (sub sub' : List Transfer) (i : InSession address s sub)
    → Reaches (calling s sub i.completed) t ready sub'
    → InSession address t sub'
Reaches-InSession address s t sub sub' i (c, r) = record {
  completed = c;
  coherent = Reach-IsCoherent _ _ i.coherent r;
  owns = Reach-Owns address _ _ r i.coherent i.owns;
  counted = Reach-IsCounted _ (calling t sub' c) i.counted r;
  mapped = Reach-mapped _ (calling t sub' c) r ∙ i.mapped;
}

pub ioctl-InSession :
    (address : ℕ → ℕ) (c : Ioctl) (s t : Kyouko3) (status : ℕ) (sub : List Transfer)
    → InSession address s sub
    → TimelyCall c s
    → kyouko3_ioctl c s ≡ some (t, status)
    → InSession address t (submits c s sub)
ioctl-InSession address c s t status sub i h e =
    Reaches-InSession address s t sub _ i
      (kyouko3_ioctl-Reaches c s t status sub i.completed i.coherent h e)

-- What happens to the driver in a program's run: a call, or interrupts while the program runs.
pub data Happening : Type 0 where
  calls : Ioctl → Happening
  meanwhile : List Bus → Happening

-- Happenings in order, and what the calls hand over, newest first. `none`: a call does not return.
abbrev pub logged : List Happening → Kyouko3 → List Transfer → Option (Kyouko3 × List Transfer)
logged [] s sub = some (s, sub)
logged (meanwhile buses ∷ hs) s sub = logged hs (interrupts buses s) sub
logged (calls c ∷ hs) s sub = elim (kyouko3_ioctl c s) [
  | none ↦ none
  | some r ↦ logged hs r.0 (submits c s sub)
]

-- Each of them is timely where the ones before it end.
abbrev pub TimelyRun : List Happening → Kyouko3 → Type 0
TimelyRun [] s = Unit {0}
TimelyRun (meanwhile buses ∷ hs) s = Timely buses s × TimelyRun hs (interrupts buses s)
TimelyRun (calls c ∷ hs) s =
    TimelyCall c s
    × ((t : Kyouko3) (status : ℕ) → kyouko3_ioctl c s ≡ some (t, status) → TimelyRun hs t)

some-inj : {A : Type 0} {a b : A} → some a ≡ some b → a ≡ b
some-inj e = cc

-- A run that returns has a first call that returns.
logged-cons :
    (c : Ioctl) (cs : List Happening) (s : Kyouko3) (sub : List Transfer)
    (x : Kyouko3 × List Transfer) (o : Option (Kyouko3 × ℕ))
    → kyouko3_ioctl c s ≡ o
    → logged (calls c ∷ cs) s sub ≡ some x
    → (u : Kyouko3) × (status : ℕ) × (kyouko3_ioctl c s ≡ some (u, status))
      × (logged cs u (submits c s sub) ≡ some x)
logged-cons c cs s sub x none w e = absurd (ground arith)
logged-cons c cs s sub x (some (u, status)) w e = (u, status, w, ground arith)

logged-InSession :
    (address : ℕ → ℕ) (cs : List Happening) (s t : Kyouko3) (sub all : List Transfer)
    → InSession address s sub
    → TimelyRun cs s
    → logged cs s sub ≡ some (t, all)
    → InSession address t all
logged-InSession address [] s t sub all i h e =
    subst (λ (x : Kyouko3 × List Transfer). InSession address x.0 x.1) (some-inj e) i
logged-InSession address (meanwhile buses ∷ cs) s t sub all i (h, hs) e =
    logged-InSession address cs (interrupts buses s) t sub all
      (Reaches-InSession address s (interrupts buses s) sub sub i
        (interrupts-Reaches buses (calling s sub i.completed) i.coherent refl h))
      hs e
logged-InSession address (calls c ∷ cs) s t sub all i (h, hs) e =
    let (u, status, w, rest) = logged-cons c cs s sub (t, all) (kyouko3_ioctl c s) refl e in
    logged-InSession address cs u t (submits c s sub) all
      (ioctl-InSession address c s u status sub i h w) (hs u status w) rest

-- a `bind_dma` that succeeds
pub bound-InSession :
    (answers : BindAnswers) (s : Kyouko3)
    → s.dma_mapped ≡ false
    → answers.pci_enable_msi ≡ 0
    → answers.request_irq ≡ 0
    → length s.dma_buffers ≡ 8
    → transfers s.effects ≡ []
    → InSession (λ i. (answers.pci_alloc_consistent i).1) (bind_dma answers s).0 []
bound-InSession answers s unmapped msi irq size fresh =
    let (coherent, mapped, first, user, each) = bind_dma-starts answers s unmapped msi irq size in
    record {
      completed = 0;
      coherent =
          subst (λ (l : List Transfer). IsCoherent (calling (bind_dma answers s).0 l (length l)))
            fresh coherent;
      owns = record { addresses = λ i h. ap (λ (b : DmaBuffer). b.p_base) (each i h); inside = tt };
      counted = first;
      mapped = mapped;
    }

opened-transfers :
    (memory : OpenAnswers) (bus : Bus) (s : Kyouko3)
    → s.effects ≡ []
    → transfers (kyouko3_open memory bus s).0.effects ≡ []
unfolding kyouko3_open transfers
opened-transfers memory bus s fresh = ap transfers fresh

-- Whatever calls of `ioctl` a program makes on an opened device whose buffers were bound, with commands
-- that are not about buffer A and without giving the buffers back, and whatever interrupts come between
-- the calls, in their waits, in the turns of a flush and behind the unlock of `start_dma`, if they report
-- a transfer only while a buffer is queued, and none between that unlock and the stores of an empty
-- queue's transfer, and no signal ends a wait: at a point where all calls have returned, the transfers
-- that the driver has stored in the FIFO, whether or not the FIFO had room for them, are the first ones
-- that the calls of `START_DMA` handed over, in their order; the others are no more than the queue holds,
-- which has room for the next; the buffer that the program fills next lies behind those in the queue;
-- and each transfer stored has some bytes, no more than a buffer holds, and is from one of the eight
-- allocations.
pub calls_in_order :
    (memory : OpenAnswers) (bus : Bus) (answers : BindAnswers) (s t : Kyouko3) (cs : List Happening)
    (all : List Transfer)
    → answers.pci_enable_msi ≡ 0
    → answers.request_irq ≡ 0
    → length s.dma_buffers ≡ 8
    → s.effects ≡ []
    → TimelyRun cs (bind_dma answers (kyouko3_open memory bus s).0).0
    → logged cs (bind_dma answers (kyouko3_open memory bus s).0).0 [] ≡ some (t, all)
    → (p : List Transfer) × (all ≡ p ++ transfers t.effects)
      × (length p ≤ t.queued_count)
      × (t.queued_count < 8)
      × (t.fill ≡ (t.drain + t.queued_count) % 8)
      × All (IsInside (λ i. (answers.pci_alloc_consistent i).1)) (transfers t.effects)
calls_in_order memory bus answers s t cs all msi irq size fresh timely ran =
    let opened = (kyouko3_open memory bus s).0 in
    let i =
      logged-InSession (λ i. (answers.pci_alloc_consistent i).1) cs _ t [] all
        (bound-InSession answers opened (unfold kyouko3_open in refl) msi irq
          (unfold kyouko3_open in size) (opened-transfers memory bus s fresh))
        timely ran in
    let (p, order, few) = transfers_in_order _ _ i.coherent here in
    let ((f, _, _), room) = i.coherent.at in
    (
      p,
      order,
      few,
      room,
      f,
      All-suffix (IsInside (λ i. (answers.pci_alloc_consistent i).1)) p (transfers t.effects)
          (subst (All (IsInside (λ i. (answers.pci_alloc_consistent i).1))) order i.owns.inside),
    )
