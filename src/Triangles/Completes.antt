-- ===== src/Triangles/Completes.antt =====
-- `dma_commands` comes to its end (Kyouko3_GrpahicsDriver/main.c, lines 96 to 142).
use mathlib.Core.Path.{subst}
use os_spring.Common.{
  some, ℕ, zero, suc, ◌+◌, ◌*◌, ◌%◌, ◌∷◌, ap₂, ◌<◌, ◌≡◌, ◌≢◌, refl, sym, ap, ◌∙◌, false, List, [],
  arith, length,
}
use os_spring.Kyouko3.State.{Bus, DmaBuffer, copy_to_user, perform}
use os_spring.Kyouko3.Dma
use os_spring.Kyouko3.Dma.{BindAnswers}
use os_spring.Kyouko3.Graphics.{Turn}
use os_spring.Kyouko3.Files.{bind_dma, unbind_dma, start_dma, kyouko3_ioctl}
use os_spring.Kyouko3.Binding.{bind_dma-starts}
use os_spring.Kyouko3.Ring.{transfers}
use os_spring.Kyouko3.Ring.Timely.{TimelyCall}
use os_spring.Triangles.Buffers.{Triangle, dma_buffer}
use os_spring.Triangles.Sizes.{length-generate_triangles}
use os_spring.Triangles.Program.{
  Draws, generate_triangles, u_num_triangles, Program, Run, going, ◌>>=◌, call, call_or_die,
  flush_commands, Round, dma_round, dma_rounds, dma_commands, take_buffer, meanwhile, handed,
}
use os_spring.Triangles.Session.{Along, TimelyRound, TimelyRounds, filled, in_turn, HandedRun}
use os_spring.Triangles.Rounds.{byte_count-dma_buffer}
use os_spring.Triangles.Fifty.{TimelyCommands, Delivered, bind-HandedRun, dma_commands-delivers}
use os_spring.Triangles.Ending.{
  AnsweredFlush, IsMapped, Filling, Going, Ready, Given, then-Ready, Ready-then, take-Ready,
  meanwhile-Filling, flush_commands-Going, start-Going, call-going, call_or_die-going,
  give_buffer-given, addresses, turns_of,
}

-- Each flush of the rounds, and of the whole run, returns.
abbrev pub AnsweredRounds : Draws → (ℕ → Round) → (arg rounds n : ℕ) → Program → Type 0
AnsweredRounds d round arg zero n p = Unit {0}
AnsweredRounds d round arg (suc rounds) n p =
    AnsweredFlush (round rounds).flushed (meanwhile (round rounds).filling p)
    × Along (dma_round (round rounds) arg (generate_triangles d u_num_triangles n) p)
        (λ q. AnsweredRounds d round arg rounds (n + 15 * u_num_triangles) q)

abbrev pub AnsweredCommands :
    Draws → BindAnswers → (ℕ → Round) → (arg : ℕ) → List Turn → Program → Type 0
AnsweredCommands d answers round arg turns p = Along (call_or_die (bind_dma answers arg 0) p) (λ q.
    AnsweredRounds d round arg 50 0 (take_buffer q)
    × Along (dma_rounds d round arg 50 0 (take_buffer q)) (λ u. AnsweredFlush turns u))

along : (P : Program → Type 0) {r : Run} {q : Program} → r ≡ going q → Along r P → P q
along P e a = subst (λ (x : Run). Along x P) e a

module _ (address user : ℕ → ℕ) (mapped : (i : ℕ) → i < 8 → user i ≢ 0) where
  dma_round-Ready :
      (n : ℕ) (r : Round) (arg : ℕ) (ts : List Triangle) (p : Program)
      → length ts ≡ u_num_triangles
      → Filling address user mapped n n p
      → p.u_buff_base ≡ user (n % 8)
      → TimelyRound r arg ts p
      → AnsweredFlush r.flushed (meanwhile r.filling p)
      → Ready address user mapped (suc n) (dma_round r arg ts p)
  unfolding dma_round
  dma_round-Ready n r arg ts p size h at (f, k, ks) answered =
      let (given, slots, stored) = meanwhile-Filling address user mapped n n r.filling p h f in
      let p' = filled ts (meanwhile r.filling p) in
      then-Ready address user mapped n (suc n) (suc n) _ (flush_commands r.flushed p')
        (flush_commands-Going address user mapped n (suc n) r.flushed p'
          (given, slots, ap₂ ◌∷◌ at stored) k answered)
        (λ q e g.
          let (b, t) = along _ e ks in
          take-Ready address user mapped (suc n) _ (
            started (meanwhile r.before q)
              (meanwhile-Filling address user mapped n (suc n) r.before q g b) t))
    where
      started :
          (q : Program)
          → Filling address user mapped n (suc n) q
          → TimelyCall (start_dma 0 (dma_buffer ts).1 arg 0 r.gap r.wait) q.driver
          → Given address user mapped
              (suc n)
              (call_or_die (start_dma 0 (dma_buffer ts).1 arg 0 r.gap r.wait) q)
      started q g t =
          subst
            (λ (b : ℕ).
              TimelyCall (start_dma 0 b arg 0 r.gap r.wait) q.driver
              → Given address user mapped (suc n)
                  (call_or_die (start_dma 0 b arg 0 r.gap r.wait) q))
            (sym (byte_count-dma_buffer ts size))
            (start-Going address user mapped n arg r.gap r.wait q g) t

  dma_rounds-Ready :
      (d : Draws) (round : ℕ → Round) (arg rounds n m k : ℕ) (p : Program)
      → m ≡ k + rounds
      → Filling address user mapped k k p
      → p.u_buff_base ≡ user (k % 8)
      → TimelyRounds d round arg rounds n p
      → AnsweredRounds d round arg rounds n p
      → Ready address user mapped m (dma_rounds d round arg rounds n p)
  unfolding dma_rounds
  dma_rounds-Ready d round arg zero n m k p e h at t a =
      let same : k ≡ m = omega arith in
      (
        p,
        refl,
        subst (λ (l : ℕ). Filling address user mapped l l p) same h,
        at ∙ ap (λ (l : ℕ). user (l % 8)) same,
      )
  dma_rounds-Ready d round arg (suc rounds) n m k p e h at (t, ts) (a, more) =
      let triangles = generate_triangles d u_num_triangles n in
      Ready-then address user mapped (suc k) m _ (dma_round (round rounds) arg triangles p)
        (dma_round-Ready k (round rounds) arg triangles p
          (length-generate_triangles d u_num_triangles n) h at t a)
        (λ q f g to.
          dma_rounds-Ready d round arg rounds (n + 15 * u_num_triangles) m (suc k) q (omega arith) g
            to (along _ f ts) (along _ f more))

  -- The run gets to its end, and the program has filled the fifty buffers in turn.
  abbrev Ends : Run → Type 0
  Ends r = (u : Program) × (r ≡ going u) × (addresses u.stores ≡ turns_of user 50)

  then-Ends :
      (n l : ℕ) (f : Program → Run) (r : Run)
      → Going address user mapped n l r
      → ((q : Program) → r ≡ going q → Filling address user mapped n l q → Ends (f q))
      → Ends (r >>= f)
  then-Ends n l f r (q, e, h) next =
      let (u, g, s) = next q e h in (u, ap (λ (x : Run). x >>= f) e ∙ g, s)

  Given-Ends :
      (n : ℕ) (f : Program → Run) (r : Run)
      → Given address user mapped n r
      → ((q : Program)
          → r ≡ going q
          → Filling address user mapped n n q
          → handed q.driver.effects ≡ user (n % 8)
          → Ends (f q))
      → Ends (r >>= f)
  Given-Ends n f r (q, e, h, at) next =
      let (u, g, s) = next q e h at in (u, ap (λ (x : Run). x >>= f) e ∙ g, s)

  Ready-Ends :
      (n : ℕ) (f : Program → Run) (r : Run)
      → Ready address user mapped n r
      → ((q : Program) → r ≡ going q → Filling address user mapped n n q → Ends (f q))
      → Ends (r >>= f)
  Ready-Ends n f r (q, e, h, _) next =
      let (u, g, s) = next q e h in (u, ap (λ (x : Run). x >>= f) e ∙ g, s)

  unbind-Ends :
      (wait : List Bus) (p : Program)
      → addresses p.stores ≡ turns_of user 50
      → Ends (call (unbind_dma wait) p)
  unfolding kyouko3_ioctl
  unbind-Ends wait p s = (_, call-going (unbind_dma wait) p _ _ refl, s)

module _ (answers : BindAnswers) (arg : ℕ) (p : Program) (unmapped : p.driver.dma_mapped ≡ false)
    (msi : answers.pci_enable_msi ≡ 0) (irq : answers.request_irq ≡ 0)
    (size : length p.driver.dma_buffers ≡ 8) (fresh : transfers p.driver.effects ≡ [])
    (mapped : (i : ℕ) → i < 8 → answers.vm_mmap i ≢ 0) (unfilled : p.stores ≡ []) where
  bind_ioctl-given :
      let (t, user) = Dma.bind_dma answers p.driver in
      kyouko3_ioctl (bind_dma answers arg 0) p.driver ≡ some (perform (copy_to_user arg user) t, 0)
  unfolding kyouko3_ioctl
  bind_ioctl-given =
      let (_, _, _, user, _) = bind_dma-starts answers p.driver unmapped msi irq size in
      ap some (give_buffer-given arg _ _ (λ e. mapped 0 (omega arith) (sym user ∙ e)))

  bind-IsMapped : IsMapped answers.vm_mmap (Dma.bind_dma answers p.driver).0
  bind-IsMapped i h =
      let (_, _, _, _, each) = bind_dma-starts answers p.driver unmapped msi irq size in
      ap (λ (b : DmaBuffer). b.u_base) (each i h)

  bind-Given :
      Given
        (λ i. (answers.pci_alloc_consistent i).1)
        answers.vm_mmap
        mapped
        0
        (call_or_die (bind_dma answers arg 0) p)
  bind-Given =
      let address = λ (i : ℕ). (answers.pci_alloc_consistent i).1 in
      let (t, first) = Dma.bind_dma answers p.driver in
      let goes = call_or_die-going (bind_dma answers arg 0) p _ bind_ioctl-given in
      let (_, _, _, user, _) = bind_dma-starts answers p.driver unmapped msi irq size in
      (
        record p { driver = perform (copy_to_user arg first) t },
        goes,
        (
          subst (HandedRun address 0) goes
              (bind-HandedRun answers arg p unmapped msi irq size fresh),
          bind-IsMapped,
          ap addresses unfilled,
        ),
        user,
      )

  commands-Ends :
      (d : Draws) (round : ℕ → Round) (turns : List Turn) (wait : List Bus)
      → TimelyCommands d answers round arg turns wait p
      → AnsweredCommands d answers round arg turns p
      → Ends
          (λ i. (answers.pci_alloc_consistent i).1)
          answers.vm_mmap
          mapped
          (dma_commands d answers round arg turns wait p)
  unfolding dma_commands
  commands-Ends d round turns wait timely answered =
      let address = λ (i : ℕ). (answers.pci_alloc_consistent i).1 in
      let user = answers.vm_mmap in
      Given-Ends address user mapped 0 _ _ bind-Given (λ q e h at.
        let (t, ts) = along _ e timely in
        let (a, more) = along _ e answered in
        Ready-Ends address user mapped 50 _ _
          (dma_rounds-Ready address user mapped d round arg 50 0 50 0 (take_buffer q) refl h at t a)
          (λ u f g.
            let (k, ks) = along _ f ts in
            then-Ends address user mapped 50 50 _ _
              (flush_commands-Going address user mapped 50 50 turns u g k (along _ f more))
              (λ v _ w. unbind-Ends address user mapped wait v w.2)))

-- If the kernel binds the buffers and maps each of them somewhere other than 0, interrupts come
-- while the program fills a buffer, in the turns of its flushes, before `START_DMA`, in it behind
-- the unlock, in its wait and in that of `UNBIND_DMA`, and nowhere else, and report a transfer only
-- while a buffer is queued, none between that unlock and the stores of an empty queue's transfer,
-- no signal ends a wait and every flush returns: a run of `dma_commands` on an open device gets to
-- its end; the program has filled fifty buffers, the `n`th at the address where slot `n % 8` is
-- mapped for it; and the driver has stored in the FIFO exactly fifty transfers, in that order, the
-- `n`th of 72000 bytes from the allocation of slot `n % 8`.
pub dma_commands-completes :
    (d : Draws) (answers : BindAnswers) (round : ℕ → Round) (arg : ℕ) (turns : List Turn)
    (wait : List Bus) (p : Program)
    → p.driver.dma_mapped ≡ false
    → answers.pci_enable_msi ≡ 0
    → answers.request_irq ≡ 0
    → length p.driver.dma_buffers ≡ 8
    → transfers p.driver.effects ≡ []
    → p.stores ≡ []
    → ((i : ℕ) → i < 8 → answers.vm_mmap i ≢ 0)
    → TimelyCommands d answers round arg turns wait p
    → AnsweredCommands d answers round arg turns p
    → (q : Program) × (dma_commands d answers round arg turns wait p ≡ going q)
      × (addresses q.stores ≡ turns_of answers.vm_mmap 50)
      × (transfers q.driver.effects ≡ in_turn (λ i. (answers.pci_alloc_consistent i).1) 72000 50)
dma_commands-completes d answers round arg turns wait p unmapped msi irq size fresh unfilled mapped
      timely answered =
    let (q, e, filled_in_turn) =
      commands-Ends answers arg p unmapped msi irq size fresh mapped unfilled d round turns wait
        timely answered in
    (
      q,
      e,
      filled_in_turn,
      subst (Delivered (λ i. (answers.pci_alloc_consistent i).1)) e (
          dma_commands-delivers d answers round arg turns wait p unmapped msi irq size fresh
            timely),
    )
