-- ===== src/Kyouko3/Ring/Memory.antt =====
-- Which memory the card is told to read: the buffers of `bind_dma`, up to their size
-- (Kyouko3_GrpahicsDriver/mymod.c, lines 160 to 282 and 348 to 368).
use os_spring.Common.{
  ℕ, zero, suc, ◌<◌, ◌≤◌, ◌≡◌, ◌≢◌, refl, ap, ◌∙◌, List, [], ◌∷◌, ◌++◌, arith, u32, set, get_or,
  length,
}
use mathlib.Core.Path.{subst}
use os_spring.Kyouko3.State.{Kyouko3, DmaBuffer, Bus, buffer, no_buffer, fifo_write, dma_buff_size}
use os_spring.Kyouko3.Dma.{
  dma_intr, Phase, refused, issuing, waiting, returning, start_dma_locked, start_dma_issue,
  BindAnswers, bind_dma,
}
use os_spring.Kyouko3.Files.{OpenAnswers, kyouko3_open}
use os_spring.Kyouko3.Ring.{
  Transfer, transfers, ready, System, enter, Step, submit, issue, resume, completion,
  other_interrupt, command, other_call, Reach, here, next,
}
use os_spring.Kyouko3.Ring.Parts.{fifo_write-SameQueue}
use os_spring.Kyouko3.Ring.Invariant.{IsCoherent, dma_intr-quiet, dma_intr-Retired}
use os_spring.Kyouko3.Ring.Guarantees.{Reach-IsCoherent, transfers_in_order}
use os_spring.Kyouko3.Binding.{bind_dma-starts}

-- A transfer of some bytes from one of the eight buffers, and no more than it holds.
abbrev pub IsInside : (address : ℕ → ℕ) → Transfer → Type 0
IsInside address (from, count) =
    (i : ℕ) × (i < 8) × (from ≡ u32 (address i)) × (count ≢ 0) × (count ≤ dma_buff_size)

abbrev pub All : (Transfer → Type 0) → List Transfer → Type 0
All P [] = Unit {0}
All P (x ∷ xs) = P x × All P xs

pub All-suffix : (P : Transfer → Type 0) (xs ys : List Transfer) → All P (xs ++ ys) → All P ys
All-suffix P [] ys a = a
All-suffix P (x ∷ xs) ys a = All-suffix P xs ys a.1

-- the slots have these card addresses
abbrev Addresses : (ℕ → ℕ) → Kyouko3 → Type 0
Addresses address s = (i : ℕ) → i < 8 → (buffer s i).p_base ≡ address i

-- A field that a store keeps where it stores is the same in every slot.
pub set-field :
    (field : DmaBuffer → ℕ) (bs : List DmaBuffer) (i j : ℕ) (b : DmaBuffer)
    → field b ≡ field (get_or bs i no_buffer)
    → field (get_or (set bs i b) j no_buffer) ≡ field (get_or bs j no_buffer)
set-field field [] i j b e = refl
set-field field (x ∷ xs) zero zero b e = e
set-field field (x ∷ xs) zero (suc j) b e = refl
set-field field (x ∷ xs) (suc i) zero b e = refl
set-field field (x ∷ xs) (suc i) (suc j) b e = set-field field xs i j b e

start_dma_locked-p_base :
    (count i : ℕ) (s : Kyouko3)
    → (buffer (start_dma_locked count s).0 i).p_base ≡ (buffer s i).p_base
unfolding start_dma_locked
start_dma_locked-p_base count i s =
    let b : DmaBuffer = record (buffer s s.fill) { stored_count = count } in
    let kept : (get_or (set s.dma_buffers s.fill b) i no_buffer).p_base ≡ (buffer s i).p_base =
      set-field (λ (c : DmaBuffer). c.p_base) s.dma_buffers s.fill i b refl in
    ground (arith, kept)

-- A call that is not refused has some bytes, and no more than a buffer holds.
start_dma_locked-fits :
    (count : ℕ) (s : Kyouko3)
    → (start_dma_locked count s).1 ≢ refused
    → (count ≢ 0) × (count ≤ dma_buff_size)
unfolding start_dma_locked
start_dma_locked-fits count s h = ground arith

pub record Owns (address : ℕ → ℕ) (y : System) : Type 0 where
  pub addresses : Addresses address y.dev
  pub inside : All (IsInside address) y.submitted

at_fill :
    (address : ℕ → ℕ) (count : ℕ) (y : System)
    → Owns address y
    → y.dev.fill < 8
    → (count ≢ 0) × (count ≤ dma_buff_size)
    → IsInside address (u32 (buffer y.dev y.dev.fill).p_base, count)
at_fill address count y o f (some_bytes, fits) =
    (y.dev.fill, f, ap u32 (o.addresses y.dev.fill f), some_bytes, fits)

enter-Owns :
    (address : ℕ → ℕ) (count : ℕ) (y : System) (s : Kyouko3) (phase : Phase)
    → Owns address y
    → y.dev.fill < 8
    → Addresses address s
    → (phase ≢ refused → (count ≢ 0) × (count ≤ dma_buff_size))
    → Owns address (enter count (s, phase) y)
unfolding enter
enter-Owns address count y s refused o f a fits = record { addresses = a; inside = o.inside }
enter-Owns address count y s issuing o f a fits = record {
  addresses = a;
  inside = (at_fill address count y o f (fits (λ e. cc)), o.inside);
}
enter-Owns address count y s waiting o f a fits = record {
  addresses = a;
  inside = (at_fill address count y o f (fits (λ e. cc)), o.inside);
}
enter-Owns address count y s returning o f a fits = record {
  addresses = a;
  inside = (at_fill address count y o f (fits (λ e. cc)), o.inside);
}

same_slots :
    (address : ℕ → ℕ) (s t : Kyouko3)
    → t.dma_buffers ≡ s.dma_buffers
    → Addresses address s
    → Addresses address t
same_slots address s t e a i h =
    ap (λ (bs : List DmaBuffer). (get_or bs i no_buffer).p_base) e ∙ a i h

start_dma_issue-buffers :
    (count : ℕ) (s : Kyouko3) → (start_dma_issue count s).dma_buffers ≡ s.dma_buffers
unfolding start_dma_issue
start_dma_issue-buffers count s = refl

Step-Owns :
    (address : ℕ → ℕ) (y z : System) → Step y z → IsCoherent y → Owns address y → Owns address z
Step-Owns address y z (submit count e f) c o = rw f (
    enter-Owns address count y (start_dma_locked count y.dev).0 (start_dma_locked count y.dev).1 o
      c.ring.fill_in (λ i h. start_dma_locked-p_base count i y.dev ∙ o.addresses i h)
      (start_dma_locked-fits count y.dev))
Step-Owns address y z (issue count e f) c o = rw f (record {
  addresses =
      same_slots address y.dev (start_dma_issue count y.dev) (start_dma_issue-buffers count y.dev)
        o.addresses;
  inside = o.inside;
})
Step-Owns address y z (resume e ne f) c o =
    rw f (record { addresses = o.addresses; inside = o.inside })
Step-Owns address y z (completion bus r lt f) c o = rw f (record {
  addresses =
      same_slots address y.dev (dma_intr bus y.dev).0 (dma_intr-Retired bus y.dev r).buffers
        o.addresses;
  inside = o.inside;
})
Step-Owns address y z (other_interrupt bus r f) c o = rw f (record {
  addresses =
      same_slots address y.dev (dma_intr bus y.dev).0 (dma_intr-quiet bus y.dev r).0.buffers
        o.addresses;
  inside = o.inside;
})
Step-Owns address y z (command reg value e na nc f) c o = rw f (record {
  addresses =
      same_slots address y.dev (fifo_write reg value y.dev)
        (fifo_write-SameQueue reg value y.dev).buffers o.addresses;
  inside = o.inside;
})
Step-Owns address y z (other_call t e same given f) c o =
    rw f (record {
      addresses = same_slots address y.dev t same.buffers o.addresses;
      inside = o.inside;
    })

pub Reach-Owns :
    (address : ℕ → ℕ) (y z : System) → Reach y z → IsCoherent y → Owns address y → Owns address z
Reach-Owns address y z here c o = o
Reach-Owns address y z (next {z = u} r st) c o =
    Step-Owns address u z st (Reach-IsCoherent y u c r) (Reach-Owns address y u r c o)

-- the device after `kyouko3_open` and a `bind_dma` that succeeds
abbrev pub session : OpenAnswers → Bus → BindAnswers → Kyouko3 → System
session memory bus answers s = record {
  dev = (bind_dma answers (kyouko3_open memory bus s).0).0;
  thread = ready;
  submitted = [];
  completed = 0;
}

pub session-IsCoherent :
    (memory : OpenAnswers) (bus : Bus) (answers : BindAnswers) (s : Kyouko3)
    → answers.pci_enable_msi ≡ 0
    → answers.request_irq ≡ 0
    → length s.dma_buffers ≡ 8
    → s.effects ≡ []
    → IsCoherent (session memory bus answers s)
      × Addresses (λ i. (answers.pci_alloc_consistent i).1) (session memory bus answers s).dev
unfolding kyouko3_open transfers
session-IsCoherent memory bus answers s msi irq size fresh =
    let opened = (kyouko3_open memory bus s).0 in
    let (coherent, mapped, first, user, each) = bind_dma-starts answers opened refl msi irq size in
    (
      subst
          (λ (l : List Transfer). IsCoherent (record {
            dev = (bind_dma answers opened).0;
            thread = ready;
            submitted = l;
            completed = length l;
          }))
          (ap transfers fresh) coherent,
      λ i h. ap (λ (b : DmaBuffer). b.p_base) (each i h),
    )

-- From `kyouko3_open` of a device with no effects yet and a successful `bind_dma` on, in every run of the
-- steps: each transfer stored in the FIFO has some bytes, no more than a buffer holds, and the address
-- of one of the eight allocations; and the transfers stored are the first ones submitted, in order.
pub session-IsInside :
    (memory : OpenAnswers) (bus : Bus) (answers : BindAnswers) (s : Kyouko3) (z : System)
    → answers.pci_enable_msi ≡ 0
    → answers.request_irq ≡ 0
    → length s.dma_buffers ≡ 8
    → s.effects ≡ []
    → Reach (session memory bus answers s) z
    → All (IsInside (λ i. (answers.pci_alloc_consistent i).1)) (transfers z.dev.effects)
      × ((p : List Transfer) × (z.submitted ≡ p ++ transfers z.dev.effects))
session-IsInside memory bus answers s z msi irq size fresh r =
    let y = session memory bus answers s in
    let (c, a) = session-IsCoherent memory bus answers s msi irq size fresh in
    let inside = (Reach-Owns _ y z r c (record { addresses = a; inside = tt })).inside in
    let (p, order, few) = transfers_in_order y z c r in
    (
      All-suffix (IsInside (λ i. (answers.pci_alloc_consistent i).1)) p (transfers z.dev.effects)
          (subst (All (IsInside (λ i. (answers.pci_alloc_consistent i).1))) order inside),
      (p, order),
    )
