-- ===== src/Triangles/Ending.antt =====
-- When the DMA mode of the drawing program comes to its end (Kyouko3_GrpahicsDriver/main.c, lines 96 to
-- 142, and mymod.c, lines 160 to 300 and 399 to 410).
use mathlib.Core.Path.{subst}
use os_spring.Common.{
  ℕ, zero, suc, ◌%◌, ◌<◌, [], ◌∷◌, ◌≡◌, ◌≢◌, refl, sym, ap, ◌∙◌, true, Option, none, some, List,
  arith, ◌==◌, if◌then◌else◌,
}
use os_spring.Kyouko3.State.{Kyouko3, Bus, buffer, copy_to_user, perform, fifo_write}
use os_spring.Kyouko3.Dma
use os_spring.Kyouko3.Dma.{interrupts}
use os_spring.Kyouko3.Graphics.{Turn}
use os_spring.Kyouko3.Files.{Ioctl, fifo_flush, start_dma, give_buffer, kyouko3_ioctl}
use os_spring.Kyouko3.Queue.{is_some}
use os_spring.Kyouko3.Ring.Flushes.{calling}
use os_spring.Kyouko3.Ring.Refine.{kyouko3_ioctl-Reaches}
use os_spring.Kyouko3.Ring.Users.{SameUsers, Reach-SameUsers, start_dma-user}
use os_spring.Kyouko3.Ring.Timely.{Timely, TimelyCall}
use os_spring.Kyouko3.Ring.Calls.{interrupts-Reaches}
use os_spring.Kyouko3.Ring.Sessions.{InSession, ioctl-InSession}
use os_spring.Triangles.Program.{
  Store, Program, Run, lost, died, going, ◌>>=◌, call, call_or_die, flush_commands, meanwhile,
  handed, take_buffer,
}
use os_spring.Triangles.Rounds.{start-HandedRun}
use os_spring.Triangles.Session.{
  HandedRun, TimelyFlushing, queued_flush, flush_commands_lem, queued-Handed, Handed, in_turn,
  length-in_turn, meanwhile-Handed,
}

-- A call leaves the slots mapped where they are.
ioctl-SameUsers :
    (address : ℕ → ℕ) (c : Ioctl) (s t : Kyouko3) (status n : ℕ)
    → InSession address s (in_turn address 72000 n)
    → TimelyCall c s
    → kyouko3_ioctl c s ≡ some (t, status)
    → SameUsers s t
ioctl-SameUsers address c s t status n i h e =
    let (k, r) = kyouko3_ioctl-Reaches c s t status _ i.completed i.coherent h e in
    Reach-SameUsers (calling s (in_turn address 72000 n) i.completed) _ r

-- the slots are mapped for the program at these addresses
abbrev pub IsMapped : (user : ℕ → ℕ) → Kyouko3 → Type 0
IsMapped user s = (i : ℕ) → i < 8 → (buffer s i).u_base ≡ user i

IsMapped-SameUsers :
    (user : ℕ → ℕ) (s t : Kyouko3) → SameUsers s t → IsMapped user s → IsMapped user t
IsMapped-SameUsers user s t same m i h = same i ∙ m i h

-- where the program has filled its buffers, newest first
abbrev pub addresses : List Store → List ℕ
addresses [] = []
addresses (t ∷ ts) = t.address ∷ addresses ts

-- the first `n` of the eight buffers in turn, newest first
abbrev pub turns_of : (user : ℕ → ℕ) → (n : ℕ) → List ℕ
turns_of user zero = []
turns_of user (suc n) = user (n % 8) ∷ turns_of user n

-- The flush returns.
abbrev pub AnsweredFlush : List Turn → Program → Type 0
AnsweredFlush turns p = is_some (kyouko3_ioctl (fifo_flush turns) (queued_flush p).driver) ≡ true

some_of : {A : Type 0} (o : Option A) → is_some o ≡ true → (a : A) × (o ≡ some a)
some_of none h = absurd (ground arith)
some_of (some a) h = (a, refl)

pub call-going :
    (c : Ioctl) (p : Program) (t : Kyouko3) (status : ℕ)
    → kyouko3_ioctl c p.driver ≡ some (t, status)
    → call c p ≡ going (record p { driver = t })
unfolding call
call-going c p t status e =
    ap
      (λ (o : Option (Kyouko3 × ℕ)). elim o as (λ _. Run) [
        | none ↦ lost p
        | some r ↦ going (record p { driver = r.0 })
      ])
      e

pub call_or_die-going :
    (c : Ioctl) (p : Program) (t : Kyouko3)
    → kyouko3_ioctl c p.driver ≡ some (t, 0)
    → call_or_die c p ≡ going (record p { driver = t })
unfolding call_or_die
call_or_die-going c p t e =
    ap
      (λ (o : Option (Kyouko3 × ℕ)). elim o as (λ _. Run) [
        | none ↦ lost p
        | some r ↦
            if r.1 == 0 then going (record p { driver = r.0 }) else died (record p { driver = r.0 })
      ])
      e

pub give_buffer-given :
    (arg next : ℕ) (t : Kyouko3)
    → next ≢ 0
    → give_buffer 0 arg 0 (t, next) ≡ (perform (copy_to_user arg next) t, 0)
unfolding give_buffer
give_buffer-given arg next t ne = ground arith

give_buffer-refused :
    (arg next : ℕ) (t : Kyouko3) → next ≡ 0 → give_buffer 0 arg 0 (t, next) ≡ (t, 1)
unfolding give_buffer
give_buffer-refused arg next t e = ground arith

module _ (address user : ℕ → ℕ) (mapped : (i : ℕ) → i < 8 → user i ≢ 0) where
  -- The program has handed over `n` buffers and filled `m`, in turn.
  abbrev pub Filling : (n m : ℕ) → Program → Type 0
  Filling n m p =
      Handed address n p × IsMapped user p.driver × (addresses p.stores ≡ turns_of user m)

  -- The run goes on, with so many buffers handed over and filled.
  abbrev pub Going : (n m : ℕ) → Run → Type 0
  Going n m r = (q : Program) × (r ≡ going q) × Filling n m q

  -- The run goes on with the next buffer in the program's hands.
  abbrev pub Ready : ℕ → Run → Type 0
  Ready n r = (q : Program) × (r ≡ going q) × Filling n n q × (q.u_buff_base ≡ user (n % 8))

  -- A call of the driver has put the next buffer's address in the program's hands.
  abbrev pub Given : ℕ → Run → Type 0
  Given n r =
      (q : Program) × (r ≡ going q) × Filling n n q × (handed q.driver.effects ≡ user (n % 8))

  pub take-Ready : (n : ℕ) (r : Run) → Given n r → Ready n (r >>= λ q. going (take_buffer q))
  take-Ready n r (q, e, (h, m, s), a) =
      (take_buffer q, ap (λ (x : Run). x >>= λ q. going (take_buffer q)) e, (h, m, s), a)

  pub then-Ready :
      (n m k : ℕ) (f : Program → Run) (r : Run)
      → Going n m r
      → ((q : Program) → r ≡ going q → Filling n m q → Ready k (f q))
      → Ready k (r >>= f)
  then-Ready n m k f r (q, e, h) next =
      let (u, g, w, at) = next q e h in (u, ap (λ (x : Run). x >>= f) e ∙ g, w, at)

  pub Ready-then :
      (n k : ℕ) (f : Program → Run) (r : Run)
      → Ready n r
      → ((q : Program) → r ≡ going q → Filling n n q → q.u_buff_base ≡ user (n % 8) → Ready k (f q))
      → Ready k (r >>= f)
  Ready-then n k f r (q, e, h, at) next =
      let (u, g, w, to) = next q e h at in (u, ap (λ (x : Run). x >>= f) e ∙ g, w, to)

  pub meanwhile-Filling :
      (n m : ℕ) (buses : List Bus) (p : Program)
      → Filling n m p
      → Timely buses p.driver
      → Filling n m (meanwhile buses p)
  meanwhile-Filling n m buses p (h, at, s) t =
      let (k, r) =
        interrupts-Reaches buses (calling p.driver (in_turn address 72000 n) h.completed) h.coherent
          refl t in
      (
        meanwhile-Handed address n buses p h t,
        IsMapped-SameUsers user p.driver (interrupts buses p.driver) (Reach-SameUsers _ _ r) at,
        s,
      )

  pub flush_commands-Going :
      (n l : ℕ) (turns : List Turn) (p : Program)
      → Filling n l p
      → TimelyFlushing turns p
      → AnsweredFlush turns p
      → Going n l (flush_commands turns p)
  flush_commands-Going n l turns p (h, m, stored) k answered =
      let q = queued_flush p in
      let i = queued-Handed address n p h in
      let ((t, status), e) = some_of _ answered in
      (
        record q { driver = t },
        flush_commands_lem turns p ∙ call-going (fifo_flush turns) q t status e,
        (
          ioctl-InSession address (fifo_flush turns) q.driver t status _ i k e,
          IsMapped-SameUsers user q.driver t
              (ioctl-SameUsers address (fifo_flush turns) q.driver t status n i k e)
              (unfold fifo_write in m),
          stored,
        ),
      )

  start_ioctl-given :
      (arg : ℕ) (gap wait : List Bus) (s : Kyouko3)
      → (Dma.start_dma 72000 gap wait s).1 ≢ 0
      → let (t, user) = Dma.start_dma 72000 gap wait s in
        kyouko3_ioctl (start_dma 0 72000 arg 0 gap wait) s
        ≡ some (perform (copy_to_user arg user) t, 0)
  unfolding kyouko3_ioctl
  start_ioctl-given arg gap wait s ne = ap some (give_buffer-given arg _ _ ne)

  start_ioctl-refused :
      (arg : ℕ) (gap wait : List Bus) (s : Kyouko3)
      → (Dma.start_dma 72000 gap wait s).1 ≡ 0
      → kyouko3_ioctl (start_dma 0 72000 arg 0 gap wait) s
        ≡ some ((Dma.start_dma 72000 gap wait s).0, 1)
  unfolding kyouko3_ioctl
  start_ioctl-refused arg gap wait s e = ap some (give_buffer-refused arg _ _ e)

  -- The driver has a next buffer for the program.
  start_dma-given :
      (n l arg : ℕ) (gap wait : List Bus) (p : Program)
      → Filling n l p
      → TimelyCall (start_dma 0 72000 arg 0 gap wait) p.driver
      → (Dma.start_dma 72000 gap wait p.driver).1 ≢ 0
  start_dma-given n l arg gap wait p (h, m, _) k =
      λ (e : (Dma.start_dma 72000 gap wait p.driver).1 ≡ 0).
        let c = start_dma 0 72000 arg 0 gap wait in
        let t = (Dma.start_dma 72000 gap wait p.driver).0 in
        let w = start_ioctl-refused arg gap wait p.driver e in
        let i = ioctl-InSession address c p.driver t 1 _ h k w in
        mapped t.fill i.coherent.ring.fill_in (
          sym (
            IsMapped-SameUsers user p.driver t (ioctl-SameUsers address c p.driver t 1 n h k w) m
              t.fill i.coherent.ring.fill_in)
          ∙ sym (start_dma-user 72000 gap wait p.driver (omega arith) (omega arith))
          ∙ e)

  pub start-Going :
      (n arg : ℕ) (gap wait : List Bus) (p : Program)
      → Filling n (suc n) p
      → TimelyCall (start_dma 0 72000 arg 0 gap wait) p.driver
      → Given (suc n) (call_or_die (start_dma 0 72000 arg 0 gap wait) p)
  start-Going n arg gap wait p (h, m, stored) k =
      let c = start_dma 0 72000 arg 0 gap wait in
      let (t, next) = Dma.start_dma 72000 gap wait p.driver in
      let w =
        start_ioctl-given arg gap wait p.driver
          (start_dma-given n (suc n) arg gap wait p (h, m, stored) k) in
      let goes = call_or_die-going c p (perform (copy_to_user arg next) t) w in
      let handed_on : Handed address (suc n)
          (record p { driver = perform (copy_to_user arg next) t }) =
        subst (HandedRun address (suc n)) goes (start-HandedRun address n arg gap wait p h k) in
      let at : IsMapped user t =
        IsMapped-SameUsers user p.driver t (ioctl-SameUsers address c p.driver _ 0 n h k w) m in
      (
        record p { driver = perform (copy_to_user arg next) t },
        goes,
        (handed_on, at, stored),
        start_dma-user 72000 gap wait p.driver (omega arith) (omega arith)
            ∙ at t.fill handed_on.coherent.ring.fill_in
            ∙ ap user
                (handed_on.counted ∙ ap (λ (l : ℕ). l % 8) (length-in_turn address 72000 (suc n))),
      )
