-- ===== src/Triangles/Rounds.antt =====
-- The rounds of `dma_commands` (Kyouko3_GrpahicsDriver/main.c, lines 109 to 138).
use mathlib.Core.Path.{subst}
use os_spring.Common.{
  ℕ, zero, suc, ◌+◌, ◌*◌, ◌%◌, ◌≡◌, refl, sym, ap, ◌∙◌, List, ◌∷◌, arith, length, u32,
}
use os_spring.Kyouko3.State.{Bus, buffer}
use os_spring.Kyouko3.Files.{start_dma}
use os_spring.Kyouko3.Ring.Timely.{TimelyCall, handed_over}
use os_spring.Triangles.Buffers.{Triangle, dma_buffer, dma_buffer_sizes}
use os_spring.Triangles.Sizes.{length-generate_triangles}
use os_spring.Triangles.Program.{
  Draws, generate_triangles, u_num_triangles, Program, Run, lost, died, going, call_or_die,
  flush_commands, meanwhile, Round, dma_round, dma_rounds, take_buffer,
}
use os_spring.Triangles.Session.{
  Along, TimelyRound, TimelyRounds, filled, in_turn, length-in_turn, Handed, HandedRun,
  then-HandedRun, call_or_die-HandedRun, flush_commands-HandedRun, meanwhile-Handed,
}

Along-unit : (r : Run) → Along r (λ p. Unit {0})
Along-unit (lost p) = tt
Along-unit (died p) = tt
Along-unit (going p) = tt

pub byte_count-dma_buffer :
    (ts : List Triangle) → length ts ≡ u_num_triangles → (dma_buffer ts).1 ≡ 72000
byte_count-dma_buffer ts h = omega (arith, (dma_buffer_sizes ts).1, h)

module _ (address : ℕ → ℕ) where
  pub start-HandedRun :
      (n : ℕ) (arg : ℕ) (gap wait : List Bus) (p : Program)
      → Handed address n p
      → TimelyCall (start_dma 0 72000 arg 0 gap wait) p.driver
      → HandedRun address (suc n) (call_or_die (start_dma 0 72000 arg 0 gap wait) p)
  start-HandedRun n arg gap wait p h k =
      call_or_die-HandedRun address n (suc n) (start_dma 0 72000 arg 0 gap wait) p _ refl
        (record { few = omega arith; hands = handed_next n p h; before = h; timely = k })
    where
      handed_next :
          (n : ℕ) (p : Program)
          → Handed address n p
          → handed_over 72000 p.driver (in_turn address 72000 n) ≡ in_turn address 72000 (suc n)
      handed_next n p h =
          ap (λ (x : ℕ). (u32 x, 72000) ∷ in_turn address 72000 n)
            (ap (λ (i : ℕ). (buffer p.driver i).p_base)
                (h.counted ∙ ap (λ (l : ℕ). l % 8) (length-in_turn address 72000 n))
              ∙ h.owns.addresses (n % 8) (omega arith))

  dma_round-HandedRun :
      (n : ℕ) (r : Round) (arg : ℕ) (ts : List Triangle) (p : Program)
      → length ts ≡ u_num_triangles
      → Handed address n p
      → TimelyRound r arg ts p
      → HandedRun address (suc n) (dma_round r arg ts p)
  unfolding dma_round
  dma_round-HandedRun n r arg ts p size h (f, k, ks) =
      let p' = filled ts (meanwhile r.filling p) in
      then-HandedRun address n (suc n) _ _ (flush_commands r.flushed p') (omega arith)
        (flush_commands-HandedRun address n r.flushed p'
          (meanwhile-Handed address n r.filling p h f) k)
        ks
        (λ q g (b, t).
          then-HandedRun address (suc n) (suc n) (λ u. going (take_buffer u)) (λ u. Unit {0}) _
            (omega arith)
            (started (meanwhile r.before q) (meanwhile-Handed address n r.before q g b) t)
            (Along-unit _) (λ u v w. v))
    where
      started :
          (q : Program)
          → Handed address n q
          → TimelyCall (start_dma 0 (dma_buffer ts).1 arg 0 r.gap r.wait) q.driver
          → HandedRun address
              (suc n)
              (call_or_die (start_dma 0 (dma_buffer ts).1 arg 0 r.gap r.wait) q)
      started q g t =
          subst
            (λ (b : ℕ).
              TimelyCall (start_dma 0 b arg 0 r.gap r.wait) q.driver
              → HandedRun address (suc n) (call_or_die (start_dma 0 b arg 0 r.gap r.wait) q))
            (sym (byte_count-dma_buffer ts size)) (start-HandedRun n arg r.gap r.wait q g) t

  pub dma_rounds-HandedRun :
      (d : Draws) (round : ℕ → Round) (arg rounds n m k : ℕ) (p : Program)
      → m ≡ k + rounds
      → Handed address k p
      → TimelyRounds d round arg rounds n p
      → HandedRun address m (dma_rounds d round arg rounds n p)
  unfolding dma_rounds
  dma_rounds-HandedRun d round arg zero n m k p e h t =
      subst (λ (l : ℕ). Handed address l p) (omega arith) h
  dma_rounds-HandedRun d round arg (suc rounds) n m k p e h (t, ts) =
      let triangles = generate_triangles d u_num_triangles n in
      then-HandedRun address (suc k) m _ _ (dma_round (round rounds) arg triangles p) (omega arith)
        (dma_round-HandedRun k (round rounds) arg triangles p
          (length-generate_triangles d u_num_triangles n) h t)
        ts
        (λ q g u.
          dma_rounds-HandedRun d round arg rounds (n + 15 * u_num_triangles) m (suc k) q
            (omega arith) g u)
