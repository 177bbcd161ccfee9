-- ===== src/Triangles/Sizes.antt =====
-- What the drawing program stores in the DMA buffers, and asks of `START_DMA`
-- (Kyouko3_GrpahicsDriver/main.c, lines 96 to 163, and mymod.c, lines 247 to 260).
use os_spring.Common.{
  Bool, true, false, ℕ, zero, suc, ◌+◌, ◌*◌, ◌<◌, ◌≤◌, ◌≡◌, ◌≢◌, refl, ap, sym, List, [], ◌∷◌,
  arith, length, ◌==◌, if◌then◌else◌,
}
use mathlib.Core.Path.{subst}
use os_spring.Kyouko3.State.{Kyouko3, FifoEntry, Bus, dma_buff_size}
use os_spring.Kyouko3.Graphics.{Turn}
use os_spring.Kyouko3.Files.{Ioctl, fifo_flush, vmode, bind_dma, unbind_dma}
use os_spring.Triangles.Commands.{fifo_commands}
use os_spring.Kyouko3.Dma.{BindAnswers, start_dma_locked, refused}
use os_spring.Triangles.Buffers.{Triangle, dma_buffer, dma_buffer_sizes}
use os_spring.Triangles.Program.{
  Draws, generate_triangles, u_num_triangles, Store, Program, Run, lost, died, going, ◌>>=◌, call,
  call_or_die, queue_commands, flush_commands, Round, dma_round, dma_rounds, dma_commands, Answers,
  close, draw_main, take_buffer, corners,
}

-- The words lie within a buffer of the driver, which refuses the count in no state.
pub record IsFitting (t : Store) : Type 0 where
  pub inside : 4 * length t.words ≤ dma_buff_size
  pub accepted : (s : Kyouko3) → (start_dma_locked t.byte_count s).1 ≢ refused

abbrev pub AllFit : List Store → Type 0
AllFit [] = Unit {0}
AllFit (t ∷ ts) = IsFitting t × AllFit ts

-- the program as far as the run has come
abbrev pub reached : Run → Program
reached (lost p) = p
reached (died p) = p
reached (going p) = p

pub length-generate_triangles :
    (d : Draws) (rounds n : ℕ) → length (generate_triangles d rounds n) ≡ rounds
unfolding generate_triangles
length-generate_triangles d zero n = refl
length-generate_triangles d (suc rounds) n = ap suc (length-generate_triangles d rounds (n + 15))

start_dma_locked-accepts :
    (count : ℕ) (s : Kyouko3)
    → 0 < count
    → count ≤ dma_buff_size
    → (start_dma_locked count s).1 ≢ refused
unfolding start_dma_locked
start_dma_locked-accepts count s lo hi = ground arith

dma_buffer-IsFitting :
    (ts : List Triangle) (address : ℕ)
    → length ts ≡ u_num_triangles
    → IsFitting
        (record { address = address; words = (dma_buffer ts).0; byte_count = (dma_buffer ts).1 })
dma_buffer-IsFitting ts address h =
    let (words, count, both) = dma_buffer_sizes ts in
    record {
      inside = omega (arith, words, h);
      accepted = λ s.
          start_dma_locked-accepts (dma_buffer ts).1 s (omega (arith, count, h))
            (omega (arith, count, h));
    }

record Fits (r : Run) : Type 0 where
  pub fits : AllFit (reached r).stores

-- A step, and one after another.
abbrev Keeps : (Program → Run) → Type 0
Keeps f = (p : Program) → Fits (going p) → Fits (f p)

then-Keeps : (f : Program → Run) (r : Run) → Keeps f → Fits r → Fits (r >>= f)
then-Keeps f (lost p) k a = record { fits = a.fits }
then-Keeps f (died p) k a = record { fits = a.fits }
then-Keeps f (going p) k a = k p a

call-stores : (c : Ioctl) (p : Program) → (reached (call c p)).stores ≡ p.stores
unfolding call
call-stores c p = ground arith

call_or_die-stores : (c : Ioctl) (p : Program) → (reached (call_or_die c p)).stores ≡ p.stores
unfolding call_or_die
call_or_die-stores c p = ground arith

close-stores :
    (wait : List Bus) (turns : List Turn) (p : Program)
    → (reached (close wait turns p)).stores ≡ p.stores
unfolding close
close-stores wait turns p = ground arith

call-Keeps : (c : Ioctl) → Keeps (call c)
call-Keeps c p a = record { fits = subst AllFit (sym (call-stores c p)) a.fits }

call_or_die-Keeps : (c : Ioctl) → Keeps (call_or_die c)
call_or_die-Keeps c p a = record { fits = subst AllFit (sym (call_or_die-stores c p)) a.fits }

flush_commands-Keeps : (turns : List Turn) → Keeps (flush_commands turns)
unfolding flush_commands
flush_commands-Keeps turns p a =
    then-Keeps _ _ (call-Keeps (fifo_flush turns)) (call_or_die-Keeps _ p a)

queue_commands-Keeps : (es : List FifoEntry) → Keeps (queue_commands es)
unfolding queue_commands
queue_commands-Keeps [] p a = a
queue_commands-Keeps (e ∷ es) p a =
    then-Keeps _ _ (queue_commands-Keeps es) (call_or_die-Keeps _ p a)

dma_round-Keeps :
    (r : Round) (arg : ℕ) (ts : List Triangle)
    → length ts ≡ u_num_triangles
    → Keeps (dma_round r arg ts)
unfolding dma_round
dma_round-Keeps r arg ts h p a =
    then-Keeps _ _
      (λ q b.
        then-Keeps _ _ (λ q c. record { fits = c.fits })
          (call_or_die-Keeps _ _ (record { fits = b.fits })))
      (flush_commands-Keeps r.flushed _
        (record { fits = (dma_buffer-IsFitting ts p.u_buff_base h, a.fits) }))

dma_rounds-Keeps :
    (d : Draws) (round : ℕ → Round) (arg rounds n : ℕ) → Keeps (dma_rounds d round arg rounds n)
unfolding dma_rounds
dma_rounds-Keeps d round arg zero n p a = a
dma_rounds-Keeps d round arg (suc rounds) n p a =
    then-Keeps _ _ (dma_rounds-Keeps d round arg rounds (n + 15 * u_num_triangles)) (
      dma_round-Keeps (round rounds) arg (generate_triangles d u_num_triangles n)
        (length-generate_triangles d u_num_triangles n) p a)

dma_commands-Keeps :
    (d : Draws) (answers : BindAnswers) (round : ℕ → Round) (arg : ℕ) (turns : List Turn)
    (wait : List Bus)
    → Keeps (dma_commands d answers round arg turns wait)
unfolding dma_commands
dma_commands-Keeps d answers round arg turns wait p a =
    then-Keeps _ _
      (λ q b.
        then-Keeps _ _
          (λ q c. then-Keeps _ _ (call-Keeps (unbind_dma wait)) (flush_commands-Keeps turns q c))
          (dma_rounds-Keeps d round arg 50 0 (take_buffer q) (record { fits = b.fits })))
      (call_or_die-Keeps (bind_dma answers arg 0) p a)

either-Fits : (b : Bool) (q r : Run) → Fits q → Fits r → Fits (if b then q else r)
either-Fits true q r f g = f
either-Fits false q r f g = g

drawing-Keeps :
    (mode : ℕ) (d : Draws) (a : Answers) (arg : ℕ)
    → Keeps (λ p.
      if mode == 0
      then (queue_commands (fifo_commands corners) p >>= λ p. call (fifo_flush a.flushed) p)
      else dma_commands d a.bound a.round arg a.flushed a.unbound p)
drawing-Keeps mode d a arg p h =
    either-Fits (mode == 0) _ _
      (then-Keeps _ _ (call-Keeps (fifo_flush a.flushed))
        (queue_commands-Keeps (fifo_commands corners) p h))
      (dma_commands-Keeps d a.bound a.round arg a.flushed a.unbound p h)

-- However the card and the kernel answer, and however far the program gets: what it has stored in each DMA
-- buffer, header included, is no longer than a buffer of the driver, and the driver refuses the count of
-- no `START_DMA`, whatever its state.
draw_main-fits :
    (mode : ℕ) (d : Draws) (a : Answers) (arg : ℕ) (p : Program)
    → p.stores ≡ []
    → AllFit (reached (draw_main mode d a arg p)).stores
unfolding draw_main
draw_main-fits mode d a arg p h =
    (then-Keeps _ _
      (λ q b.
        then-Keeps _ _
          (λ q c.
            then-Keeps _ _
              (λ q e. record {
                fits = subst AllFit (sym (close-stores a.closing_wait a.closing q)) e.fits;
              })
              (call-Keeps (vmode 0 a.off) q c))
          (drawing-Keeps mode d a arg q b))
      (call-Keeps (vmode 1 a.on) _ (record { fits = subst AllFit (sym h) tt }))).fits
