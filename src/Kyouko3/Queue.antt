-- ===== src/Kyouko3/Queue.antt =====
-- The FIFO as a queue of commands: what the card finds between its tail and the head, and when a
-- flush returns (Kyouko3_GrpahicsDriver/mymod.c, lines 152 to 157 and 294 to 300).
use os_spring.Common.{
  ℕ, zero, suc, ◌+◌, ◌-◌, ◌*◌, ◌/◌, ◌%◌, ◌<◌, ◌≤◌, ◌≡◌, ◌≢◌, refl, sym, ap, ap₂, ◌∙◌, Bool, true,
  false, ◌||◌, Option, none, some, List, [], ◌∷◌, arith, ◌==◌, length, get_or, set, length-set,
  get_or-set_self, get_or-set_ne,
}
use os_spring.Kyouko3.Register.{offset, fifo_tail, fifo_head}
use os_spring.Kyouko3.State.{
  Kyouko3, FifoEntry, fifo_entries, fifo_write, k_read_register, k_write_register,
}
use os_spring.Kyouko3.Dma.{interrupts}
use os_spring.Kyouko3.Graphics.{Turn, read_tail, flush_loop, fifo_flush}

-- a run of commands, each by `FIFO_WRITE`
unfoldable pub write_all : List FifoEntry → Kyouko3 → Kyouko3
write_all [] s = s
write_all (e ∷ es) s = write_all es (fifo_write e.command e.value s)

abbrev pub no_entry : FifoEntry
no_entry = record { command = 0; value = 0 }

-- The `n` entries from index `i` on, going round at the end: what the card reads.
abbrev pub window : List FifoEntry → (i n : ℕ) → List FifoEntry
window entries i zero = []
window entries i (suc n) = get_or entries i no_entry ∷ window entries ((i + 1) % 1024) n

pub record IsFifo (s : Kyouko3) : Type 0 where
  pub size : length s.fifo.entries ≡ fifo_entries
  pub head_in : s.fifo.head < fifo_entries

pub fifo_write-head :
    (reg value : ℕ) (s : Kyouko3)
    → IsFifo s
    → (fifo_write reg value s).fifo.head ≡ (s.fifo.head + 1) % 1024
unfolding fifo_write
fifo_write-head reg value s v = ground arith

pub fifo_write-entries :
    (reg value : ℕ) (s : Kyouko3)
    → (fifo_write reg value s).fifo.entries
      ≡ set s.fifo.entries s.fifo.head (record { command = reg; value = value })
unfolding fifo_write
fifo_write-entries reg value s = refl

pub fifo_write-IsFifo : (reg value : ℕ) (s : Kyouko3) → IsFifo s → IsFifo (fifo_write reg value s)
fifo_write-IsFifo reg value s v = record {
  size =
      ap length (fifo_write-entries reg value s)
      ∙ length-set s.fifo.entries s.fifo.head (record { command = reg; value = value })
      ∙ v.size;
  head_in = omega (arith, fifo_write-head reg value s v);
}

-- Entries outside of a run of writes stay as they are.
pub write_all-other :
    (es : List FifoEntry) (s : Kyouko3) (j : ℕ)
    → IsFifo s
    → j < 1024
    → ((k : ℕ) → k < length es → (s.fifo.head + k) % 1024 ≢ j)
    → get_or (write_all es s).fifo.entries j no_entry ≡ get_or s.fifo.entries j no_entry
unfolding write_all
write_all-other [] s j v lt apart = refl
write_all-other (e ∷ es) s j v lt apart =
    let s' = fifo_write e.command e.value s in
    write_all-other es s' j (fifo_write-IsFifo e.command e.value s v) lt (λ k h.
      let a = apart (suc k) (omega arith) in
      omega (arith, a, fifo_write-head e.command e.value s v))
    ∙ ap (λ (l : List FifoEntry). get_or l j no_entry) (fifo_write-entries e.command e.value s)
    ∙ get_or-set_ne s.fifo.entries s.fifo.head j e no_entry
        (λ eq. let a = apart 0 (omega arith) in absurd (omega (arith, v.head_in)))

pub write_all-head :
    (es : List FifoEntry) (s : Kyouko3)
    → IsFifo s
    → (write_all es s).fifo.head ≡ (s.fifo.head + length es) % 1024
unfolding write_all
write_all-head [] s v = omega (arith, v.head_in)
write_all-head (e ∷ es) s v =
    let ih =
      write_all-head es (fifo_write e.command e.value s)
        (fifo_write-IsFifo e.command e.value s v) in
    omega (arith, ih, fifo_write-head e.command e.value s v)

pub write_all-window :
    (es : List FifoEntry) (s : Kyouko3)
    → IsFifo s
    → length es ≤ 1024
    → window (write_all es s).fifo.entries s.fifo.head (length es) ≡ es
unfolding write_all
write_all-window [] s v le = refl
write_all-window (e ∷ es) s v le =
    let s' = fifo_write e.command e.value s in
    let v' = fifo_write-IsFifo e.command e.value s v in
    let moved = fifo_write-head e.command e.value s v in
    let kept =
      write_all-other es s' s.fifo.head v' v.head_in (λ k h. omega (arith, moved, v.head_in)) in
    let written =
      get_or-set_self s.fifo.entries s.fifo.head e no_entry (omega (arith, v.size, v.head_in)) in
    ap₂ ◌∷◌
      (kept
        ∙ ap (λ (l : List FifoEntry). get_or l s.fifo.head no_entry)
            (fifo_write-entries e.command e.value s)
        ∙ written)
      (rw (← moved) (write_all-window es s' v' (omega arith)))

-- If the card has emptied the queue, and then fewer than 1024 commands are written, the entries from
-- its tail up to the head are those commands in the order of writing.
pub card_reads :
    (es : List FifoEntry) (s : Kyouko3) (tail : ℕ)
    → IsFifo s
    → s.fifo.head ≡ tail
    → length es < 1024
    → let f = (write_all es s).fifo in window f.entries tail ((f.head + 1024 - tail) % 1024) ≡ es
card_reads es s tail v empty lt =
    let count : ((write_all es s).fifo.head + 1024 - tail) % 1024 ≡ length es =
      omega (arith, write_all-head es s v, v.head_in) in
    rw (count, ← empty) (write_all-window es s v (omega arith))

flush_loop-idle :
    (turns : List Turn) (s : Kyouko3)
    → s.fifo.tail_cache ≡ s.fifo.head
    → flush_loop turns s ≡ some s
unfolding flush_loop
flush_loop-idle [] s e = ground arith
flush_loop-idle (turn ∷ more) s e = ground arith

-- `FIFO_WRITE` has no test for a full queue: after exactly 1024 commands on a queue whose tail is at
-- its head, a flush returns at once, having stored the head that the card already had.
pub overrun_is_lost :
    (es : List FifoEntry) (s : Kyouko3) (turns : List Turn)
    → IsFifo s
    → (write_all es s).fifo.tail_cache ≡ s.fifo.head
    → length es ≡ 1024
    → fifo_flush turns (write_all es s)
      ≡ some (k_write_register fifo_head s.fifo.head (write_all es s))
unfolding fifo_flush
overrun_is_lost es s turns v empty full =
    let back : (write_all es s).fifo.head ≡ s.fifo.head =
      omega (arith, write_all-head es s v, v.head_in) in
    flush_loop-idle turns (k_write_register fifo_head (write_all es s).fifo.head (write_all es s))
      (empty ∙ sym back)
    ∙ ap (λ (h : ℕ). some (k_write_register fifo_head h (write_all es s))) back

abbrev pub is_some : {A : Type 0} → Option A → Bool
is_some none = false
is_some (some a) = true

-- the tail that the card answers in a turn
abbrev pub tail_of : ℕ → Turn → ℕ
tail_of control turn = turn.bus (control + 4 * (offset fifo_tail / 4))

-- whether the card's tail reaches the head in one of the turns
unfoldable pub reaches : (control head : ℕ) → List Turn → Bool
reaches control head [] = false
reaches control head (turn ∷ more) = (tail_of control turn == head) || reaches control head more

-- no interrupt arrives
abbrev pub Quiet : List Turn → Type 0
Quiet [] = Unit {0}
Quiet (turn ∷ more) = (turn.arriving ≡ []) × Quiet more

flush_loop-returns :
    (turns : List Turn) (s : Kyouko3)
    → Quiet turns
    → is_some (flush_loop turns s)
      ≡ ((s.fifo.tail_cache == s.fifo.head) || reaches s.k_control_base s.fifo.head turns)
unfolding flush_loop reaches interrupts k_read_register
flush_loop-returns [] s q = ground arith
flush_loop-returns (turn ∷ more) s (quiet, q) =
    let ih = flush_loop-returns more (read_tail turn.bus s) q in
    let same : is_some (flush_loop more (interrupts turn.arriving (read_tail turn.bus s))) ≡ (
        (tail_of s.k_control_base turn == s.fifo.head)
        || reaches s.k_control_base s.fifo.head more) =
      rw quiet ih in
    ground (arith, same)

-- With no interrupts in between, a flush returns exactly if the tail is known to be at the head or
-- the card's tail reaches the head in one of the given turns.
pub fifo_flush-returns :
    (turns : List Turn) (s : Kyouko3)
    → Quiet turns
    → is_some (fifo_flush turns s)
      ≡ ((s.fifo.tail_cache == s.fifo.head) || reaches s.k_control_base s.fifo.head turns)
unfolding fifo_flush
fifo_flush-returns turns s q = flush_loop-returns turns (k_write_register fifo_head s.fifo.head s) q
