-- ===== src/Triangles/Session.antt =====
-- The fifty buffers of the drawing program on their way to the card (Kyouko3_GrpahicsDriver/main.c,
-- lines 96 to 142, and mymod.c, lines 160 to 300).
use mathlib.Core.Path.{subst}
use os_spring.Common.{
  Bool, ℕ, zero, suc, ◌+◌, ◌*◌, ◌%◌, ◌≤◌, ◌≡◌, refl, sym, ap, true, false, Option, none, some, List,
  [], ◌∷◌, arith, length, ◌==◌, if◌then◌else◌, u32,
}
use os_spring.Kyouko3.Register.{code, raster_flush}
use os_spring.Kyouko3.State.{Kyouko3, Bus, fifo_write}
use os_spring.Kyouko3.Dma.{interrupts}
use os_spring.Kyouko3.Graphics
use os_spring.Kyouko3.Graphics.{Turn}
use os_spring.Kyouko3.Files.{Ioctl, fifo_queue, fifo_flush, start_dma, kyouko3_ioctl}
use os_spring.Kyouko3.Ring.{Transfer}
use os_spring.Kyouko3.Ring.Timely.{Timely, TimelyCall, submits}
use os_spring.Kyouko3.Ring.Calls.{interrupts-Reaches}
use os_spring.Kyouko3.Ring.Flushes.{calling}
use os_spring.Kyouko3.Ring.Sessions.{InSession, Reaches-InSession, ioctl-InSession}
use os_spring.Triangles.Buffers.{Triangle, dma_buffer}
use os_spring.Triangles.Program.{
  Draws, generate_triangles, u_num_triangles, Program, Run, lost, died, going, ◌>>=◌, call,
  call_or_die, flush_commands, Round, dma_round, meanwhile,
}

-- what holds where the run goes on
abbrev pub Along : Run → (Program → Type 0) → Type 0
Along (going p) P = P p
Along r P = Unit {0}

abbrev queue_flush : Ioctl
queue_flush = fifo_queue 0 (record { command = code raster_flush; value = 0 })

-- A call of `flush_commands`, of a round, and of all the rounds that is timely.
abbrev pub TimelyFlushing : List Turn → Program → Type 0
TimelyFlushing turns p = TimelyCall (fifo_flush turns) (fifo_write (code raster_flush) 0 p.driver)

-- the program once it has filled the buffer
abbrev pub filled : List Triangle → Program → Program
filled ts p =
    let (words, byte_count) = dma_buffer ts in
    record p {
      u_buff_base = byte_count;
      stores =
          record { address = p.u_buff_base; words = words; byte_count = byte_count } ∷ p.stores;
    }

abbrev pub TimelyRound : Round → (arg : ℕ) → List Triangle → Program → Type 0
TimelyRound r arg ts p =
    Timely r.filling p.driver
    × TimelyFlushing r.flushed (meanwhile r.filling p)
    × Along (flush_commands r.flushed (filled ts (meanwhile r.filling p))) (λ q.
      Timely r.before q.driver
      × TimelyCall (start_dma 0 (dma_buffer ts).1 arg 0 r.gap r.wait)
          (interrupts r.before q.driver))

abbrev pub TimelyRounds : Draws → (ℕ → Round) → (arg rounds n : ℕ) → Program → Type 0
TimelyRounds d round arg zero n p = Unit {0}
TimelyRounds d round arg (suc rounds) n p =
    let ts = generate_triangles d u_num_triangles n in
    TimelyRound (round rounds) arg ts p
    × Along (dma_round (round rounds) arg ts p)
        (λ q. TimelyRounds d round arg rounds (n + 15 * u_num_triangles) q)

-- `n` transfers of as many bytes, newest first, from the eight buffers in turn
abbrev pub in_turn : (address : ℕ → ℕ) → (count n : ℕ) → List Transfer
in_turn address count zero = []
in_turn address count (suc n) = (u32 (address (n % 8)), count) ∷ in_turn address count n

pub length-in_turn : (address : ℕ → ℕ) (count n : ℕ) → length (in_turn address count n) ≡ n
length-in_turn address count zero = refl
length-in_turn address count (suc n) = ap suc (length-in_turn address count n)

-- the program once `RasterFlush` is in the FIFO
abbrev pub queued_flush : Program → Program
queued_flush p = record p { driver = fifo_write (code raster_flush) 0 p.driver }

pub flush_commands_lem :
    (turns : List Turn) (p : Program)
    → flush_commands turns p ≡ call (fifo_flush turns) (queued_flush p)
unfolding flush_commands call_or_die kyouko3_ioctl Graphics.fifo_queue
flush_commands_lem turns p = refl

module _ (address : ℕ → ℕ) where
  -- The program has handed over `n` buffers.
  abbrev pub Handed : ℕ → Program → Type 0
  Handed n p = InSession address p.driver (in_turn address 72000 n)

  -- Timely interrupts keep that.
  pub meanwhile-Handed :
      (n : ℕ) (buses : List Bus) (p : Program)
      → Handed n p
      → Timely buses p.driver
      → Handed n (meanwhile buses p)
  meanwhile-Handed n buses p h t =
      Reaches-InSession address p.driver (interrupts buses p.driver) _ _ h
        (interrupts-Reaches buses (calling p.driver _ h.completed) h.coherent refl t)

  -- A run on its way from `n` buffers to `m`, or at its end.
  abbrev pub HandedRun : (m : ℕ) → Run → Type 0
  HandedRun m (going p) = Handed m p
  HandedRun m (lost p) = (n : ℕ) × (n ≤ m) × Handed n p
  HandedRun m (died p) = (n : ℕ) × (n ≤ m) × Handed n p

  pub then-HandedRun :
      (n m : ℕ) (f : Program → Run) (T : Program → Type 0) (r : Run)
      → n ≤ m
      → HandedRun n r
      → Along r T
      → ((q : Program) → Handed n q → T q → HandedRun m (f q))
      → HandedRun m (r >>= f)
  then-HandedRun n m f T (lost p) le (k, l, h) t next = (k, omega arith, h)
  then-HandedRun n m f T (died p) le (k, l, h) t next = (k, omega arith, h)
  then-HandedRun n m f T (going p) le h t next = next p h t

  -- A call that hands over what takes `n` buffers to `m`.
  pub record Takes (n m : ℕ) (c : Ioctl) (p : Program) : Type 0 where
    pub few : n ≤ m
    pub hands : submits c p.driver (in_turn address 72000 n) ≡ in_turn address 72000 m
    pub before : Handed n p
    pub timely : TimelyCall c p.driver

  after_call :
      (n m : ℕ) (c : Ioctl) (p : Program) (t : Kyouko3) (status : ℕ)
      → Takes n m c p
      → kyouko3_ioctl c p.driver ≡ some (t, status)
      → Handed m (record p { driver = t })
  after_call n m c p t status k w =
      subst (λ l. InSession address t l) k.hands
        (ioctl-InSession address c p.driver t status _ k.before k.timely w)

  call-HandedRun :
      (n m : ℕ) (c : Ioctl) (p : Program) (o : Option (Kyouko3 × ℕ))
      → kyouko3_ioctl c p.driver ≡ o
      → Takes n m c p
      → HandedRun m (call c p)
  unfolding call
  call-HandedRun n m c p none w k = rw (w, HandedRun) (n, k.few, k.before)
  call-HandedRun n m c p (some (t, status)) w k =
      rw (w, HandedRun) (after_call n m c p t status k w)

  pub call_or_die-HandedRun :
      (n m : ℕ) (c : Ioctl) (p : Program) (o : Option (Kyouko3 × ℕ))
      → kyouko3_ioctl c p.driver ≡ o
      → Takes n m c p
      → HandedRun m (call_or_die c p)
  unfolding call_or_die
  call_or_die-HandedRun n m c p none w k = rw (w, HandedRun) (n, k.few, k.before)
  call_or_die-HandedRun n m c p (some (t, status)) w k =
      rw (w, HandedRun) (by_status (status == 0) (after_call n m c p t status k w))
    where
      by_status :
          (b : Bool)
          → Handed m (record p { driver = t })
          → HandedRun m
              (if b then going (record p { driver = t }) else died (record p { driver = t }))
      by_status true h = h
      by_status false h = (m, omega arith, h)

  -- `RasterFlush` is not about buffer A.
  pub queued-Handed : (n : ℕ) (p : Program) → Handed n p → Handed n (queued_flush p)
  queued-Handed n p h =
      after_call n n queue_flush p (queued_flush p).driver 0
        (record {
          few = omega arith;
          hands = refl;
          before = h;
          timely = ((λ e. absurd (omega arith)), (λ e. absurd (omega arith)));
        })
        (unfold kyouko3_ioctl Graphics.fifo_queue in refl)

  pub flush_commands-HandedRun :
      (n : ℕ) (turns : List Turn) (p : Program)
      → Handed n p
      → TimelyFlushing turns p
      → HandedRun n (flush_commands turns p)
  flush_commands-HandedRun n turns p h k = subst (HandedRun n) (sym (flush_commands_lem turns p)) (
      call-HandedRun n n (fifo_flush turns) (queued_flush p) _ refl
        (record { few = omega arith; hands = refl; before = queued-Handed n p h; timely = k }))
