-- ===== src/Sstf/Placed.antt =====
-- The scheduler keeps its queues in order and loses no request
-- (SSTF/greedy-iosched.c, lines 18 to 53).
use os_spring.Common.{
  ◌-◌, ◌^◌, ◌≤◌, ◌<◌, ◌≡◌, inl, inr, refl, sym, ap, ◌∙◌, true, Option, none, some, List, [], ◌∷◌,
  ◌++◌, arith, ltb, Bool-cases,
}
use mathlib.Core.Path.{subst}
use mathlib.Core.List.{append_assoc, Perm, perm_middle}
use os_spring.Sstf.Links.{Node, KernelList}
use os_spring.Sstf.Scheduler.{Requests, GreedyData, greedy_dispatch}
use os_spring.Sstf.Segment.{occurs}
use os_spring.Sstf.Schedule.{Schedule, split_last, pick, dispatch, All, IsPlaced, Spaced}
use os_spring.Sstf.Refine.{Represents}
use os_spring.Sstf.Dispatch.{dispatch_refines}
use os_spring.Sstf.Spacing.{
  All-get, All-append, append-All, Spaced-append, Spaced-across, Spaced-size, Spaced-remove,
}
use os_spring.Sstf.Nearest.{waiting, whole, whole-split_last}

pub All-of :
    (P : Node → Type 0) (xs : List Node) → ((m : Node) → occurs m xs ≡ true → P m) → All P xs
All-of P [] f = tt
All-of P (x ∷ xs) f = (f x (ground arith), All-of P xs (λ m i. f m (ground arith)))

below_Perm :
    (s : Schedule) (l : Node) (ls : List Node) (t : Node)
    → s.lower ≡ l ∷ ls
    → l ≡ t
    → Perm (waiting s) (t ∷ (s.upper ++ ls))
below_Perm s l ls t f e =
    subst (λ v. Perm (waiting s) (v ∷ (s.upper ++ ls))) e
      (subst (λ lo. Perm (s.upper ++ lo) (l ∷ (s.upper ++ ls))) (sym f) (perm_middle s.upper ls))

above_Perm :
    (s : Schedule) (us : List Node) (u t : Node)
    → s.upper ≡ us ++ (u ∷ [])
    → u ≡ t
    → Perm (waiting s) (t ∷ (us ++ s.lower))
above_Perm s us u t f e =
    let parts : waiting s ≡ us ++ (u ∷ s.lower) =
      ap (λ (up : List Node). up ++ s.lower) f ∙ append_assoc us (u ∷ []) s.lower in
    subst (λ v. Perm (waiting s) (v ∷ (us ++ s.lower))) e
      (subst (λ l. Perm l (u ∷ (us ++ s.lower))) (sym parts) (perm_middle us s.lower))

module _ (rs : Requests) where
  open rs use {blk_rq_pos as pos, rq_end_sector as end}

  sectors_of :
      (xs : List Node) (e : Node) (ys : List Node)
      → All (λ x. end x < 2 ^ 64) (xs ++ (e ∷ ys))
      → (end e < 2 ^ 64) × All (λ x. end x < 2 ^ 64) (xs ++ ys)
  sectors_of xs e ys a =
      let (b, c) = All-append (λ x. end x < 2 ^ 64) xs (e ∷ ys) a in
      (c.0, append-All (λ x. end x < 2 ^ 64) xs ys b c.1)

  -- After serving any request between two spaced parts the head stands between them.
  served :
      (xs : List Node) (e : Node) (ys : List Node)
      → Spaced rs (xs ++ (e ∷ ys))
      → All (λ x. end x < 2 ^ 64) (xs ++ (e ∷ ys))
      → IsPlaced rs (record { head = end e; lower = ys; upper = xs })
  served xs e ys s b =
      let (_, own) = Spaced-append rs xs (e ∷ ys) s in
      record {
        spaced = Spaced-remove rs xs e ys s;
        below =
            All-of (λ x. pos x < end e) ys
              (λ m i. omega (
                arith,
                All-get (λ w. end w ≤ pos e) ys m own.1 i,
                Spaced-size rs ys m own.2 i,
                own.0,
              ));
        above =
            All-of (λ x. end e ≤ pos x) xs
              (λ m i. Spaced-across rs xs (e ∷ ys) m e s i (ground arith));
        small = (sectors_of xs e ys b).0;
        sectors = (sectors_of xs e ys b).1;
      }

  lower_served :
      (s : Schedule) (l : Node) (ls : List Node)
      → IsPlaced rs s
      → s.lower ≡ l ∷ ls
      → IsPlaced rs (record s { head = end l; lower = ls })
  lower_served s l ls p e =
      served s.upper l ls (subst (λ lo. Spaced rs (s.upper ++ lo)) e p.spaced)
        (subst (λ lo. All (λ x. end x < 2 ^ 64) (s.upper ++ lo)) e p.sectors)

  upper_served :
      (s : Schedule) (us : List Node) (u : Node)
      → IsPlaced rs s
      → s.upper ≡ us ++ (u ∷ [])
      → IsPlaced rs (record s { head = end u; upper = us })
  upper_served s us u p e =
      let parts : s.upper ++ s.lower ≡ us ++ (u ∷ s.lower) =
        ap (λ (up : List Node). up ++ s.lower) e ∙ append_assoc us (u ∷ []) s.lower in
      served us u s.lower (subst (Spaced rs) parts p.spaced)
        (subst (All (λ x. end x < 2 ^ 64)) parts p.sectors)

  pick-IsPlaced :
      (s : Schedule) (lo : List Node) (o : Option (List Node × Node))
      → IsPlaced rs s
      → s.lower ≡ lo
      → s.upper ≡ whole o
      → IsPlaced rs (pick rs s lo o).0
  unfolding pick
  pick-IsPlaced s [] none p f e = p
  pick-IsPlaced s (l ∷ ls) none p f e = lower_served s l ls p f
  pick-IsPlaced s [] (some (us, u)) p f e = upper_served s us u p e
  pick-IsPlaced s (l ∷ ls) (some (us, u)) p f e =
      elim (Bool-cases (ltb (s.head - pos l) (pos u - s.head))) [
        | inl near ↦ rw near (lower_served s l ls p f)
        | inr far ↦ rw far (upper_served s us u p e)
      ]

  -- What is picked was waiting, and the others still are.
  pick-Perm :
      (s : Schedule) (lo : List Node) (o : Option (List Node × Node)) (t : Node)
      → s.lower ≡ lo
      → s.upper ≡ whole o
      → (pick rs s lo o).1 ≡ some t
      → Perm (waiting s) (t ∷ waiting (pick rs s lo o).0)
  unfolding pick
  pick-Perm s [] none t f e h = cc
  pick-Perm s (l ∷ ls) none t f e h = below_Perm s l ls t f cc
  pick-Perm s [] (some (us, u)) t f e h = above_Perm s us u t e cc
  pick-Perm s (l ∷ ls) (some (us, u)) t f e h =
      elim (Bool-cases (ltb (s.head - pos l) (pos u - s.head))) [
        | inl near ↦ rw near (below_Perm s l ls t f (ground arith))
        | inr far ↦ rw far (above_Perm s us u t e (ground arith))
      ]

  pick-none :
      (s : Schedule) (lo : List Node) (o : Option (List Node × Node))
      → s.lower ≡ lo
      → s.upper ≡ whole o
      → (pick rs s lo o).1 ≡ none
      → (waiting s ≡ []) × (waiting (pick rs s lo o).0 ≡ [])
  unfolding pick
  pick-none s [] none f e h = (rw (f, e), rw (f, e))
  pick-none s (l ∷ ls) none f e h = cc
  pick-none s [] (some (us, u)) f e h = cc
  pick-none s (l ∷ ls) (some (us, u)) f e h = absurd (ground arith)

-- What a dispatch takes out of the requests that wait: one of them, or none where none waits.
abbrev pub Taken : Option Node → List Node → List Node → Type 0
Taken none before after = (before ≡ []) × (after ≡ [])
Taken (some t) before after = Perm before (t ∷ after)

Taken-intro :
    (served : Option Node) (before after : List Node)
    → ((t : Node) → served ≡ some t → Perm before (t ∷ after))
    → (served ≡ none → (before ≡ []) × (after ≡ []))
    → Taken served before after
Taken-intro none before after one empty = empty refl
Taken-intro (some t) before after one empty = one t refl

-- From two queues in order, with the head between them, a dispatch leaves such queues; it serves one of the waiting
-- requests and leaves the others waiting, and serves none only if none waits.
pub greedy_dispatch-keeps :
    (k : KernelList) (rs : Requests) (gd : GreedyData) (s : Schedule)
    → Represents gd s
    → IsPlaced rs s
    → (s' : Schedule) × Represents (greedy_dispatch rs k gd).0 s'
      × IsPlaced rs s'
      × Taken (greedy_dispatch rs k gd).1 (waiting s) (waiting s')
greedy_dispatch-keeps k rs gd s r p =
    let picked = dispatch_refines k rs gd s r p in
    let up = sym (whole-split_last s.upper) in
    unfold dispatch in
    (
      (dispatch rs s).0,
      picked.represents,
      pick-IsPlaced rs s s.lower (split_last s.upper) p refl up,
      Taken-intro (greedy_dispatch rs k gd).1 _ _
          (λ t h. pick-Perm rs s s.lower (split_last s.upper) t refl up (sym picked.same ∙ h))
          (λ h. pick-none rs s s.lower (split_last s.upper) refl up (sym picked.same ∙ h)),
    )
