-- ===== src/Kyouko3/Ring/Submit.antt =====
-- The locked stretch of `start_dma` and the invariant (Kyouko3_GrpahicsDriver/mymod.c, lines 262 to
-- 278).
use os_spring.Common.{
  ℕ, zero, suc, ◌+◌, ◌-◌, ◌%◌, ◌<◌, ◌≡◌, ◌≢◌, refl, ap, ap₂, ◌∙◌, sym, List, [], ◌∷◌, ◌++◌, arith,
  u32, inc32, ◌==◌, length, length-set, get_or, get_or-set_self, set, false, inl, inr, ltb,
  Bool-cases, ==_iff,
}
use mathlib.Core.Path.{subst}
use os_spring.Kyouko3.State.{Kyouko3, buffer, DmaBuffer, no_buffer, dma_buff_size}
use os_spring.Kyouko3.Dma.{start_dma_locked}
use os_spring.Kyouko3.Ring.{Transfer, transfers, ready, System, enter}
use os_spring.Kyouko3.Ring.Pending.{pending, pending-set}
use os_spring.Kyouko3.Ring.Invariant.{IsRing, IsCoherent, Queued, Unissued, At, in_flight}

-- what the thread hands over
abbrev handed : Kyouko3 → ℕ → Transfer
handed s count = (u32 (buffer s s.fill).p_base, count)

-- the buffer is left in the queue
abbrev stored : Kyouko3 → ℕ → Kyouko3
stored s count = record s {
  queued_count = inc32 s.queued_count;
  dma_buffers = set s.dma_buffers s.fill (record (buffer s s.fill) { stored_count = count });
  fill = (s.fill + 1) % 8;
}

pending-stored :
    (bs : List DmaBuffer) (drain fill q count : ℕ)
    → length bs ≡ 8
    → drain < 8
    → q < 8
    → fill ≡ (drain + q) % 8
    → q ≢ 0
    → let b = get_or bs fill no_buffer in
      pending (set bs fill (record b { stored_count = count })) drain (inc32 q - 1)
      ≡ (u32 b.p_base, count) ∷ pending bs drain (q - 1)
pending-stored bs drain fill zero count size d small f ne = absurd (ne refl)
pending-stored bs drain fill (suc q) count size d small f ne =
    let b = get_or bs fill no_buffer in
    let b' : DmaBuffer = record b { stored_count = count } in
    let n : inc32 (suc q) - 1 ≡ suc q = omega arith in
    let m : suc q - 1 ≡ q = omega arith in
    let written : get_or (set bs fill b') ((drain + suc q) % 8) no_buffer ≡ b' =
      rw (← f) (get_or-set_self bs fill b' no_buffer (omega arith)) in
    rw (n, m)
      (ap₂ ◌∷◌ (ap (λ (c : DmaBuffer). (u32 c.p_base, c.stored_count)) written)
        (pending-set bs drain q fill b' (omega arith) f q (omega arith)))

pending-empty : (bs : List DmaBuffer) (drain q : ℕ) → q ≡ 0 → pending bs drain (q - 1) ≡ []
pending-empty bs drain zero e = refl
pending-empty bs drain (suc q) e = absurd (omega arith)

in_flight-busy : (q : ℕ) → q ≢ 0 → in_flight q ≡ 1
in_flight-busy q ne = ground arith

in_flight-idle : (q : ℕ) → q ≡ 0 → in_flight q ≡ 0
in_flight-idle q e = ground arith

module _ (count : ℕ) (s : Kyouko3) (sub : List Transfer) (c : ℕ) (ring : IsRing s) where
  submit_empty :
      Queued s sub c
      → s.queued_count < 8
      → s.fill ≡ s.drain
      → Unissued (record s { queued_count = inc32 s.queued_count }) count (handed s count ∷ sub) c
  submit_empty (f, e, n) small same =
      let idle : s.queued_count ≡ 0 = omega (arith, ring.drain_in) in
      (
        same,
        omega arith,
        ap₂ ◌∷◌ (ap (λ (i : ℕ). (u32 (get_or s.dma_buffers i no_buffer).p_base, count)) same) (
            e
            ∙ ap (λ (l : List Transfer). l ++ transfers s.effects)
                (pending-empty s.dma_buffers s.drain s.queued_count idle)),
        omega (arith, n, in_flight-idle s.queued_count idle),
      )

  submit_stored :
      Queued s sub c
      → s.queued_count < 8
      → s.fill ≢ s.drain
      → Queued (stored s count) (handed s count ∷ sub) c
  submit_stored (f, e, n) small other =
      let busy : s.queued_count ≢ 0 =
        λ (z : s.queued_count ≡ 0). other (omega (arith, ring.drain_in)) in
      (
        omega arith,
        ap (λ (l : List Transfer). handed s count ∷ l) e
            ∙ ap (λ (l : List Transfer). l ++ transfers s.effects)
                (sym (
                  pending-stored s.dma_buffers s.drain s.fill s.queued_count count ring.size
                    ring.drain_in small f busy)),
        omega (
          arith,
          n,
          in_flight-busy s.queued_count busy,
          in_flight-busy (inc32 s.queued_count) (omega arith),
        ),
      )

  IsRing-stored : IsRing (stored s count)
  IsRing-stored = omega (
    arith,
    ring,
    length-set s.dma_buffers s.fill (record (buffer s s.fill) { stored_count = count }),
  )

  IsRing-counted : IsRing (record s { queued_count = inc32 s.queued_count })
  IsRing-counted = omega (arith, ring)

not_full :
    (s : Kyouko3)
    → IsRing s
    → s.fill ≡ (s.drain + s.queued_count) % 8
    → s.queued_count < 8
    → ((s.fill + 1) % 8 == s.drain) ≡ false
    → inc32 s.queued_count < 8
not_full s ring f small room =
    let ne : (s.fill + 1) % 8 ≢ s.drain = ground arith in omega (arith, ring.drain_in)

-- The locked stretch keeps the invariant on each of its branches.
pub enter-IsCoherent :
    (count : ℕ) (y : System)
    → y.thread ≡ ready
    → IsCoherent y
    → IsCoherent (enter count (start_dma_locked count y.dev) y)
unfolding enter start_dma_locked
enter-IsCoherent count y e c =
    let a : At ready y.dev y.submitted y.completed =
      subst (λ t. At t y.dev y.submitted y.completed) e c.at in
    elim (Bool-cases (count == 0)) [
      | inl z ↦ rw z c
      | inr nz ↦ elim (Bool-cases (ltb dma_buff_size count)) [
        | inl big ↦ rw (nz, big) c
        | inr fits ↦ elim (Bool-cases (y.dev.fill == y.dev.drain)) [
          | inl same ↦
              rw (nz, fits, same)
                (record {
                  ring = IsRing-counted count y.dev y.submitted y.completed c.ring;
                  at =
                      submit_empty count y.dev y.submitted y.completed c.ring a.0 a.1
                        ((==_iff y.dev.fill y.dev.drain).0 same);
                })
          | inr other ↦ elim (Bool-cases ((y.dev.fill + 1) % 8 == y.dev.drain)) [
            | inl full ↦
                rw (nz, fits, other, full)
                  (record {
                    ring = IsRing-stored count y.dev y.submitted y.completed c.ring;
                    at = (
                      submit_stored count y.dev y.submitted y.completed c.ring a.0 a.1
                          (ground arith),
                      omega (arith, a.1),
                    );
                  })
            | inr room ↦
                rw (nz, fits, other, room)
                  (record {
                    ring = IsRing-stored count y.dev y.submitted y.completed c.ring;
                    at = rw e (
                      submit_stored count y.dev y.submitted y.completed c.ring a.0 a.1
                          (ground arith),
                      not_full y.dev c.ring a.0.0 a.1 room,
                    );
                  })
          ]
        ]
      ]
    ]
