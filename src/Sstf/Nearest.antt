-- ===== src/Sstf/Nearest.antt =====
-- The scheduler serves the nearest request, and takes out that one alone
-- (SSTF/greedy-iosched.c, lines 18 to 43).
use os_spring.Common.{
  ℕ, ◌-◌, ◌≤◌, ◌<◌, ◌≡◌, ◌⊎◌, inl, inr, refl, sym, ◌∙◌, true, Option, none, some, List, [], ◌∷◌,
  ◌++◌, arith, ◌==◌, ltb, Bool-cases, ==_iff,
}
use mathlib.Core.Path.{subst}
use os_spring.Sstf.Links.{Node, KernelList}
use os_spring.Sstf.Scheduler.{Requests, GreedyData, greedy_dispatch}
use os_spring.Sstf.Segment.{occurs}
use os_spring.Sstf.Queues.{occurs-append}
use os_spring.Sstf.Schedule.{Schedule, split_last, pick, dispatch, distance, All, IsPlaced, Spaced}
use os_spring.Sstf.Refine.{Represents}
use os_spring.Sstf.Dispatch.{split_last-nil, split_last-append, dispatch_refines}
use os_spring.Sstf.Spacing.{All-get, Spaced-append, Spaced-across, Spaced-size}

-- the requests in both queues
abbrev pub waiting : Schedule → List Node
waiting s = s.upper ++ s.lower

-- a queue from what `split_last` makes of it
abbrev pub whole : Option (List Node × Node) → List Node
whole none = []
whole (some (ys, z)) = ys ++ (z ∷ [])

pub whole-split_last : (xs : List Node) → whole (split_last xs) ≡ xs
whole-split_last xs = go (split_last xs) refl
  where
    go : (o : Option (List Node × Node)) → split_last xs ≡ o → whole o ≡ xs
    go none e = sym (split_last-nil xs e)
    go (some (ys, z)) e = sym (split_last-append xs ys z e)

module _ (rs : Requests) where
  open rs use {blk_rq_pos as pos, rq_end_sector as end}

  -- The first request below the head is the nearest of those below it.
  nearest_below :
      (head : ℕ) (l : Node) (ls : List Node) (r : Node)
      → Spaced rs (l ∷ ls)
      → All (λ x. pos x < head) (l ∷ ls)
      → occurs r (l ∷ ls) ≡ true
      → (pos l < head) × (pos r ≤ pos l)
  nearest_below head l ls r s b i = elim (Bool-cases (r == l)) [
    | inl e ↦ (b.0, subst (λ v. pos v ≤ pos l) (sym ((==_iff r l).0 e)) (omega arith))
    | inr ne ↦
        let after = All-get (λ w. end w ≤ pos l) ls r s.1 (ground arith) in
        (b.0, omega (arith, after, Spaced-size rs ls r s.2 (ground arith)))
  ]

  -- The last one of the upper queue is the nearest of those above it.
  nearest_above :
      (head : ℕ) (us : List Node) (u : Node) (ys : List Node) (r : Node)
      → Spaced rs ((us ++ (u ∷ [])) ++ ys)
      → All (λ x. head ≤ pos x) (us ++ (u ∷ []))
      → occurs r (us ++ (u ∷ [])) ≡ true
      → (head ≤ pos u) × (pos u ≤ pos r)
  nearest_above head us u ys r s a i =
      let in_up : occurs u (us ++ (u ∷ [])) ≡ true = ground (arith, occurs-append u us (u ∷ [])) in
      let (upper, _) = Spaced-append rs (us ++ (u ∷ [])) ys s in
      let here = All-get (λ x. head ≤ pos x) (us ++ (u ∷ [])) u a in_up in
      elim (Bool-cases (r == u)) [
        | inl e ↦ (here, subst (λ v. pos u ≤ pos v) (sym ((==_iff r u).0 e)) (omega arith))
        | inr ne ↦
            let across =
              Spaced-across rs us (u ∷ []) r u upper (ground (arith, occurs-append r us (u ∷ [])))
                (ground arith) in
            (here, omega (arith, across, Spaced-size rs (us ++ (u ∷ [])) u upper in_up))
      ]

  -- a request in one of the queues, against the candidates of both
  nearest_of :
      (head : ℕ) (lo : List Node) (us : List Node) (u l r : Node) (ls : List Node)
      → lo ≡ l ∷ ls
      → Spaced rs ((us ++ (u ∷ [])) ++ lo)
      → All (λ x. pos x < head) lo
      → All (λ x. head ≤ pos x) (us ++ (u ∷ []))
      → occurs r ((us ++ (u ∷ [])) ++ lo) ≡ true
      → (head ≤ pos u)
        × (pos l < head)
        × (((head ≤ pos r) × (pos u ≤ pos r)) ⊎ ((pos r < head) × (pos r ≤ pos l)))
  nearest_of head lo us u l r ls e s b a i =
      let up = us ++ (u ∷ []) in
      let (_, s') = Spaced-append rs up lo s in
      let sl = subst (Spaced rs) e s' in
      let bl = subst (All (λ x. pos x < head)) e b in
      let in_up : occurs u up ≡ true = ground (arith, occurs-append u us (u ∷ [])) in
      let above = nearest_above head us u lo u s a in_up in
      elim (Bool-cases (occurs r up)) [
        | inl here ↦
            let (c, d) = nearest_above head us u lo r s a here in (c, bl.0, inl (omega arith, d))
        | inr away ↦
            let there : occurs r (l ∷ ls) ≡ true =
              subst (λ xs. occurs r xs ≡ true) e (ground (arith, occurs-append r up lo)) in
            let (c, d) = nearest_below head l ls r sl bl there in (above.0, c, inr (omega arith, d))
      ]

  pick-nearest :
      (s : Schedule) (lo : List Node) (o : Option (List Node × Node)) (t r : Node)
      → Spaced rs (whole o ++ lo)
      → All (λ x. pos x < s.head) lo
      → All (λ x. s.head ≤ pos x) (whole o)
      → (pick rs s lo o).1 ≡ some t
      → occurs r (whole o ++ lo) ≡ true
      → distance rs s.head t ≤ distance rs s.head r
  unfolding pick
  pick-nearest s [] none t r sp b a h i = cc
  pick-nearest s (l ∷ ls) none t r sp b a h i =
      let (c, d) = nearest_below s.head l ls r sp b i in
      let e : l ≡ t = cc in subst (λ v. distance rs s.head v ≤ distance rs s.head r) e (omega arith)
  pick-nearest s [] (some (us, u)) t r sp b a h i =
      let up = us ++ (u ∷ []) in
      let (c, d) = nearest_above s.head us u [] r sp a (ground (arith, occurs-append r up [])) in
      let e : u ≡ t = cc in subst (λ v. distance rs s.head v ≤ distance rs s.head r) e (omega arith)
  pick-nearest s (l ∷ ls) (some (us, u)) t r sp b a h i =
      let facts = nearest_of s.head (l ∷ ls) us u l r ls refl sp b a i in
      elim (Bool-cases (ltb (s.head - pos l) (pos u - s.head))) [
        | inl near ↦
            let e : l ≡ t = ground arith in
            subst (λ v. distance rs s.head v ≤ distance rs s.head r) e (ground arith)
        | inr far ↦
            let e : u ≡ t = ground arith in
            subst (λ v. distance rs s.head v ≤ distance rs s.head r) e (ground arith)
      ]

  dispatch-nearest :
      (s : Schedule) (t r : Node)
      → IsPlaced rs s
      → (dispatch rs s).1 ≡ some t
      → occurs r (waiting s) ≡ true
      → distance rs s.head t ≤ distance rs s.head r
  unfolding dispatch
  dispatch-nearest s t r p h i =
      let w = whole-split_last s.upper in
      pick-nearest s s.lower (split_last s.upper) t r
        (subst (λ up. Spaced rs (up ++ s.lower)) (sym w) p.spaced) p.below
        (subst (All (λ x. s.head ≤ pos x)) (sym w) p.above) h
        (subst (λ up. occurs r (up ++ s.lower) ≡ true) (sym w) i)

-- Greedy: while the links stand for two queues of requests that do not overlap, with the head between
-- them, the request that `greedy_dispatch` serves is at least as near to the head as any that waits.
pub greedy_dispatch-nearest :
    (k : KernelList) (rs : Requests) (gd : GreedyData) (s : Schedule) (t r : Node)
    → Represents gd s
    → IsPlaced rs s
    → (greedy_dispatch rs k gd).1 ≡ some t
    → occurs r (waiting s) ≡ true
    → distance rs gd.disk_head t ≤ distance rs gd.disk_head r
greedy_dispatch-nearest k rs gd s t r rep p h i =
    let picked = dispatch_refines k rs gd s rep p in
    rw rep.head (dispatch-nearest rs s t r p (sym picked.same ∙ h) i)
