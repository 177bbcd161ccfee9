-- ===== src/Kyouko3/Ring/Users.antt =====
-- What the driver returns to the user: where the slots are mapped for it
-- (Kyouko3_GrpahicsDriver/mymod.c, lines 160 to 282).
use os_spring.Common.{ℕ, ◌≡◌, ◌≢◌, ◌≤◌, refl, ap, ◌∙◌, List, arith, set, get_or}
use os_spring.Kyouko3.State.{Kyouko3, Bus, DmaBuffer, buffer, no_buffer, dma_buff_size}
use os_spring.Kyouko3.Dma.{
  start_dma_locked, start_dma_issue, start_dma_finish, start_dma, Phase, refused, issuing, waiting,
  returning,
}
use os_spring.Kyouko3.Ring.{
  System, Step, submit, issue, resume, completion, other_interrupt, command, other_call, Reach,
  here, next,
}
use os_spring.Kyouko3.Ring.Parts.{fifo_write-SameQueue}
use os_spring.Kyouko3.Ring.Invariant.{dma_intr-quiet, dma_intr-Retired}
use os_spring.Kyouko3.Ring.Memory.{set-field}
use os_spring.Kyouko3.Ring.Count.{enter-dev}

-- The slots of one are mapped where those of the other are.
abbrev pub SameUsers : Kyouko3 → Kyouko3 → Type 0
SameUsers s t = (i : ℕ) → (buffer t i).u_base ≡ (buffer s i).u_base

start_dma_locked-SameUsers : (count : ℕ) (s : Kyouko3) → SameUsers s (start_dma_locked count s).0
unfolding start_dma_locked
start_dma_locked-SameUsers count s i =
    let b : DmaBuffer = record (buffer s s.fill) { stored_count = count } in
    let kept : (get_or (set s.dma_buffers s.fill b) i no_buffer).u_base ≡ (buffer s i).u_base =
      set-field (λ (c : DmaBuffer). c.u_base) s.dma_buffers s.fill i b refl in
    ground (arith, kept)

start_dma_issue-SameUsers : (count : ℕ) (s : Kyouko3) → SameUsers s (start_dma_issue count s)
unfolding start_dma_issue
start_dma_issue-SameUsers count s i = refl

same_buffers :
    {bs cs : List DmaBuffer}
    → cs ≡ bs
    → (i : ℕ) → (get_or cs i no_buffer).u_base ≡ (get_or bs i no_buffer).u_base
same_buffers e i = ap (λ (bs : List DmaBuffer). (get_or bs i no_buffer).u_base) e

Step-SameUsers : (y z : System) → Step y z → SameUsers y.dev z.dev
Step-SameUsers y z (submit count e f) i = rw f (
    ap (λ (s : Kyouko3). (buffer s i).u_base)
      (enter-dev count (start_dma_locked count y.dev).0 (start_dma_locked count y.dev).1 y)
    ∙ start_dma_locked-SameUsers count y.dev i)
Step-SameUsers y z (issue count e f) i = rw f (start_dma_issue-SameUsers count y.dev i)
Step-SameUsers y z (resume e ne f) i = rw f refl
Step-SameUsers y z (completion bus r lt f) i =
    rw f (same_buffers (dma_intr-Retired bus y.dev r).buffers i)
Step-SameUsers y z (other_interrupt bus r f) i =
    rw f (same_buffers (dma_intr-quiet bus y.dev r).0.buffers i)
Step-SameUsers y z (command reg value e na nc f) i =
    rw f (same_buffers (fifo_write-SameQueue reg value y.dev).buffers i)
Step-SameUsers y z (other_call t e same given f) i = rw f (same_buffers same.buffers i)

pub Reach-SameUsers : (y z : System) → Reach y z → SameUsers y.dev z.dev
Reach-SameUsers y z here i = refl
Reach-SameUsers y z (next {z = u} r st) i = Step-SameUsers u z st i ∙ Reach-SameUsers y u r i

finish-user :
    (phase : Phase) (count : ℕ) (wait : List Bus) (s : Kyouko3)
    → phase ≢ refused
    → let (t, user) = start_dma_finish phase count wait s in user ≡ (buffer t t.fill).u_base
unfolding start_dma_finish
finish-user refused count wait s ne = absurd (ne refl)
finish-user issuing count wait s ne = refl
finish-user waiting count wait s ne = refl
finish-user returning count wait s ne = refl

accepted :
    (count : ℕ) (s : Kyouko3)
    → count ≢ 0
    → count ≤ dma_buff_size
    → (start_dma_locked count s).1 ≢ refused
unfolding start_dma_locked
accepted count s some_bytes fits = ground arith

-- A call that is not refused returns where the next slot is mapped.
pub start_dma-user :
    (count : ℕ) (gap wait : List Bus) (s : Kyouko3)
    → count ≢ 0
    → count ≤ dma_buff_size
    → let (t, user) = start_dma count gap wait s in user ≡ (buffer t t.fill).u_base
unfolding start_dma
start_dma-user count gap wait s some_bytes fits =
    finish-user (start_dma_locked count s).1 count wait _ (accepted count s some_bytes fits)
