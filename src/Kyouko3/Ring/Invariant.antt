-- ===== src/Kyouko3/Ring/Invariant.antt =====
-- The invariant of the DMA queue, and that every step keeps it.
use os_spring.Common.{
  ℕ, zero, suc, ◌+◌, ◌-◌, ◌%◌, ◌<◌, ◌≤◌, ◌≡◌, ◌≢◌, refl, ap, ◌∙◌, sym, List, ◌∷◌, ◌++◌, arith, u32,
  dec32, ◌==◌, if◌then◌else◌, length,
}
use mathlib.Core.List.{append_assoc}
use os_spring.Kyouko3.State.{Kyouko3, SameQueue, Bus, buffer, DmaBuffer}
use os_spring.Kyouko3.Dma.{dma_intr, start_dma_issue}
use os_spring.Kyouko3.Ring.{Transfer, transfers, Thread, ready, unissued, blocked, System, reports}
use os_spring.Kyouko3.Ring.Pending.{entry, pending, pending-suc}
use os_spring.Kyouko3.Ring.Parts.{Retired}

-- the transfers that were stored and are not reported: at most one
abbrev pub in_flight : ℕ → ℕ
in_flight queued = if queued == 0 then 0 else 1

-- `fill` stands `queued_count` slots past `drain`; the card has the oldest buffer, and what is
-- pending and what was stored for it make up what was submitted, in order.
abbrev pub Queued : Kyouko3 → List Transfer → ℕ → Type 0
Queued s submitted completed =
    (s.fill ≡ (s.drain + s.queued_count) % 8)
    × (submitted ≡ pending s.dma_buffers s.drain (s.queued_count - 1) ++ transfers s.effects)
    × (length (transfers s.effects) ≡ completed + in_flight s.queued_count)

-- Between the unlock and the FIFO stores the card has nothing.
abbrev pub Unissued : Kyouko3 → ℕ → List Transfer → ℕ → Type 0
Unissued s count submitted completed =
    (s.fill ≡ s.drain)
    × (s.queued_count ≡ 1)
    × (submitted ≡ (u32 (buffer s s.drain).p_base, count) ∷ transfers s.effects)
    × (length (transfers s.effects) ≡ completed)

abbrev pub At : Thread → Kyouko3 → List Transfer → ℕ → Type 0
At ready s submitted completed = Queued s submitted completed × (s.queued_count < 8)
At (unissued count) s submitted completed = Unissued s count submitted completed
At blocked s submitted completed = Queued s submitted completed × (s.queued_count ≤ 8)

pub record IsRing (s : Kyouko3) : Type 0 where
  pub size : length s.dma_buffers ≡ 8
  pub fill_in : s.fill < 8
  pub drain_in : s.drain < 8

pub record IsCoherent (y : System) : Type 0 where
  pub ring : IsRing y.dev
  pub at : At y.thread y.dev y.submitted y.completed

-- What touches neither the queue nor the transfers keeps the invariant.
pub At-quiet :
    (thread : Thread) (s t : Kyouko3) (submitted : List Transfer) (completed : ℕ)
    → SameQueue s t
    → transfers t.effects ≡ transfers s.effects
    → At thread s submitted completed
    → At thread t submitted completed
At-quiet ready s t submitted completed q e a = ground arith
At-quiet (unissued count) s t submitted completed q e a = ground arith
At-quiet blocked s t submitted completed q e a = ground arith

pub IsRing-quiet : {s t : Kyouko3} → SameQueue s t → IsRing s → IsRing t
IsRing-quiet q r = ground arith

pub dma_intr-quiet :
    (bus : Bus) (s : Kyouko3)
    → reports bus s ≡ 0
    → SameQueue s (dma_intr bus s).0 × (transfers (dma_intr bus s).0.effects ≡ transfers s.effects)
unfolding dma_intr transfers
dma_intr-quiet bus s e = ground arith

pub dma_intr-Retired : (bus : Bus) (s : Kyouko3) → reports bus s ≢ 0 → Retired s (dma_intr bus s).0
unfolding dma_intr transfers
dma_intr-Retired bus s ne = ground arith

-- The oldest pending transfer goes to the card.
advance :
    (bs : List DmaBuffer) (drain q : ℕ) (given given' : List Transfer)
    → q ≢ 0
    → q ≤ 8
    → (dec32 q ≡ 0 → given' ≡ given)
    → (dec32 q ≢ 0 → given' ≡ entry bs ((drain + 1) % 8) ∷ given)
    → pending bs drain (q - 1) ++ given ≡ pending bs ((drain + 1) % 8) (dec32 q - 1) ++ given'
advance bs drain zero given given' ne le idle goes_on = absurd (ne refl)
advance bs drain (suc zero) given given' ne le idle goes_on = sym (idle refl)
advance bs drain (suc (suc m)) given given' ne le idle goes_on =
    let first : dec32 (suc (suc m)) - 1 ≡ m = omega arith in
    let second : suc (suc m) - 1 ≡ suc m = omega arith in
    rw (first, second, goes_on (omega arith))
      (ap (λ (l : List Transfer). l ++ given) (pending-suc bs drain m)
        ∙ append_assoc (pending bs ((drain + 1) % 8) m) _ _)

length-advance :
    (q c : ℕ) {x : Transfer} {given given' : List Transfer}
    → q ≢ 0
    → q ≤ 8
    → (dec32 q ≡ 0 → given' ≡ given)
    → (dec32 q ≢ 0 → given' ≡ x ∷ given)
    → length given ≡ c + in_flight q
    → length given' ≡ c + 1 + in_flight (dec32 q)
length-advance zero c ne le idle goes_on n = absurd (ne refl)
length-advance (suc zero) c ne le idle goes_on n = rw (idle refl) (omega arith)
length-advance (suc (suc m)) c {x} ne le idle goes_on n =
    let left : dec32 (suc (suc m)) ≡ suc m = omega arith in
    rw (goes_on (omega arith), left) (ground arith)

busy : (q c n : ℕ) → c < n → n ≡ c + in_flight q → q ≢ 0
busy zero c n lt e = absurd (omega arith)
busy (suc q) c n lt e = omega arith

-- A reported transfer was in flight, and the next pending one takes its place.
Queued-retire :
    (s t : Kyouko3) (submitted : List Transfer) (completed : ℕ)
    → Retired s t
    → IsRing s
    → s.queued_count ≤ 8
    → completed < length (transfers s.effects)
    → Queued s submitted completed
    → Queued t submitted (completed + 1) × (suc t.queued_count ≡ s.queued_count)
Queued-retire s t submitted completed r ring le lt (f, e, n) =
    let ne = busy s.queued_count completed _ lt n in
    (
      (
        rw (r.fill, r.drain, r.queued) (omega arith),
        rw (r.buffers, r.drain, r.queued)
            (e ∙ advance s.dma_buffers s.drain s.queued_count _ _ ne le r.idle r.goes_on),
        rw r.queued (length-advance s.queued_count completed ne le r.idle r.goes_on n),
      ),
      rw r.queued (omega arith),
    )

pub IsRing-retire : {s t : Kyouko3} → Retired s t → IsRing s → IsRing t
IsRing-retire r ring = ground arith

pub At-retire :
    (thread : Thread) (s t : Kyouko3) (submitted : List Transfer) (completed : ℕ)
    → Retired s t
    → IsRing s
    → completed < length (transfers s.effects)
    → At thread s submitted completed
    → At thread t submitted (completed + 1)
At-retire ready s t sub c r ring lt (q, small) =
    let (q', less) = Queued-retire s t sub c r ring (omega arith) lt q in (q', omega arith)
At-retire (unissued count) s t sub c r ring lt (_, _, _, n) = absurd (omega arith)
At-retire blocked s t sub c r ring lt (q, small) =
    let (q', less) = Queued-retire s t sub c r ring small lt q in (q', omega arith)

pub start_dma_issue-Queued :
    (count : ℕ) (s : Kyouko3) (submitted : List Transfer) (completed : ℕ)
    → IsRing s
    → Unissued s count submitted completed
    → IsRing (start_dma_issue count s) × At ready (start_dma_issue count s) submitted completed
unfolding start_dma_issue transfers
start_dma_issue-Queued count s submitted completed ring (f, q, e, n) =
    (ground arith, ((omega arith, simp q e, simp q (omega arith)), omega arith))
