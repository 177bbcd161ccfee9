-- ===== src/Sstf/Dispatch.antt =====
-- `greedy_dispatch` dispatches what the schedule picks (SSTF/greedy-iosched.c, lines 18 to 43).
use os_spring.Common.{
  ℕ, ◌-◌, ◌^◌, ◌≤◌, ◌<◌, ◌≡◌, ◌≢◌, refl, sym, false, Option, none, some, List, [], ◌∷◌, ◌++◌, arith,
  ◌==◌, ltb, Bool-cases, inl, inr, sub64,
}
use mathlib.Core.Path.{subst}
use mathlib.Core.List.{append-nil}
use os_spring.Sstf.Links.{Node, Links, KernelList}
use os_spring.Sstf.Scheduler.{Requests, GreedyData, dispatch_target, greedy_dispatch}
use os_spring.Sstf.Segment.{Back}
use os_spring.Sstf.Queues.{TwoQueues, swap, TwoQueues-del, occurs-append}
use os_spring.Sstf.Schedule.{Schedule, split_last, pick, dispatch, All, IsPlaced, Spaced}
use os_spring.Sstf.Refine.{Represents}

pub split_last-nil : (xs : List Node) → split_last xs ≡ none → xs ≡ []
unfolding split_last
split_last-nil [] h = refl
split_last-nil (x ∷ xs) h = ground arith

pub split_last-append :
    (xs ys : List Node) (z : Node) → split_last xs ≡ some (ys, z) → xs ≡ ys ++ (z ∷ [])
unfolding split_last
split_last-append [] ys z h = cc
split_last-append (x ∷ xs) ys z h = last (split_last xs) refl h (split_last-append xs)
  where
    last :
        (o : Option (List Node × Node))
        → split_last xs ≡ o
        → elim o as (λ _. Option (List Node × Node)) [
          | none ↦ some ([], x)
          | some (vs, v) ↦ some (x ∷ vs, v)
        ]
          ≡ some (ys, z)
        → ((vs : List Node) (v : Node) → split_last xs ≡ some (vs, v) → xs ≡ vs ++ (v ∷ []))
        → x ∷ xs ≡ ys ++ (z ∷ [])
    last none e h ih = ground (arith, split_last-nil xs e)
    last (some (vs, v)) e h ih = ground (arith, ih vs v e)

Back-last :
    (l : Links) (b : Node) (xs : List Node) (z a : Node)
    → Back l b (xs ++ (z ∷ [])) a
    → l.next a ≡ z
Back-last l b [] z a (p, q, (r, s)) = s
Back-last l b (x ∷ xs) z a (p, q, rest) = Back-last l x xs z a rest

-- the numbers that the choice depends on
record InRange (rs : Requests) (head : ℕ) (lo up : List Node) : Type 0 where
  small : head < 2 ^ 64
  below : All (λ x. rs.blk_rq_pos x < head) lo
  above : All (λ x. (head ≤ rs.blk_rq_pos x) × (rs.blk_rq_pos x < 2 ^ 64)) up

All-last : (P : Node → Type 0) (xs : List Node) (z : Node) → All P (xs ++ (z ∷ [])) → P z
All-last P [] z h = h.0
All-last P (x ∷ xs) z h = All-last P xs z h.1

in_range :
    (rs : Requests) (head : ℕ) (xs ys : List Node)
    → Spaced rs (xs ++ ys)
    → All (λ x. head ≤ rs.blk_rq_pos x) xs
    → All (λ x. rs.rq_end_sector x < 2 ^ 64) (xs ++ ys)
    → All (λ x. (head ≤ rs.blk_rq_pos x) × (rs.blk_rq_pos x < 2 ^ 64)) xs
in_range rs head [] ys s a b = tt
in_range rs head (x ∷ xs) ys s a b = ((a.0, omega arith), in_range rs head xs ys s.2 a.1 b.1)

-- What is picked over links is what is picked over lists, and it leaves its queue.
pub record Picked (a : GreedyData × Option Node) (b : Schedule × Option Node) : Type 0 where
  pub same : a.1 ≡ b.1
  pub represents : Represents a.0 b.0

module _ (k : KernelList) (rs : Requests) (gd : GreedyData) where
  taken : Node → GreedyData × Option Node
  taken t =
      (record gd { disk_head = rs.rq_end_sector t; links = k.list_del_init t gd.links }, some t)

  greedy_dispatch-none : dispatch_target rs gd ≡ none → greedy_dispatch rs k gd ≡ (gd, none)
  unfolding greedy_dispatch
  greedy_dispatch-none e = rw (e, greedy_dispatch)

  greedy_dispatch-some :
      (t : Node) → dispatch_target rs gd ≡ some t → greedy_dispatch rs k gd ≡ taken t
  unfolding greedy_dispatch taken
  greedy_dispatch-some t e = rw (e, greedy_dispatch)

  pick_none :
      (s : Schedule)
      → Represents gd s
      → dispatch_target rs gd ≡ none
      → Picked (greedy_dispatch rs k gd) (s, none)
  pick_none s r e =
      subst (λ a. Picked a (s, none)) (sym (greedy_dispatch-none e))
        (record { same = refl; represents = r })

  pick_lower :
      (l : Node) (ls up : List Node)
      → TwoQueues gd.links gd.lower_queue (l ∷ ls) gd.upper_queue up
      → dispatch_target rs gd ≡ some l
      → Picked
          (greedy_dispatch rs k gd)
          (record { head = rs.rq_end_sector l; lower = ls; upper = up }, some l)
  unfolding taken
  pick_lower l ls up q e =
      subst (λ a. Picked a (record { head = rs.rq_end_sector l; lower = ls; upper = up }, some l))
        (sym (greedy_dispatch-some l e))
        (record {
          same = refl;
          represents = record {
            queues = TwoQueues-del k gd.links gd.lower_queue gd.upper_queue [] l ls up q;
            head = refl;
          };
        })

  pick_upper :
      (u : Node) (us lo : List Node)
      → TwoQueues gd.links gd.lower_queue lo gd.upper_queue (us ++ (u ∷ []))
      → dispatch_target rs gd ≡ some u
      → Picked
          (greedy_dispatch rs k gd)
          (record { head = rs.rq_end_sector u; lower = lo; upper = us }, some u)
  unfolding taken
  pick_upper u us lo q e =
      let left = TwoQueues-del k gd.links gd.upper_queue gd.lower_queue us u [] lo (swap q) in
      subst (λ a. Picked a (record { head = rs.rq_end_sector u; lower = lo; upper = us }, some u))
        (sym (greedy_dispatch-some u e))
        (record {
          same = refl;
          represents = record { queues = swap (rw append-nil at left); head = refl };
        })

  -- what the code reads of the upper queue
  next_upper-nil :
      (lo up : List Node)
      → TwoQueues gd.links gd.lower_queue lo gd.upper_queue up
      → split_last up ≡ none
      → gd.links.next gd.upper_queue ≡ gd.upper_queue
  next_upper-nil lo up q e =
      let empty =
        subst (λ l. Back gd.links gd.upper_queue l gd.upper_queue) (split_last-nil up e) q.second in
      empty.1

  next_upper-last :
      (lo us : List Node) (u : Node)
      → TwoQueues gd.links gd.lower_queue lo gd.upper_queue (us ++ (u ∷ []))
      → (gd.links.next gd.upper_queue ≡ u) × (u ≢ gd.upper_queue)
  next_upper-last lo us u q = (
    Back-last gd.links gd.upper_queue us u gd.upper_queue q.second,
    ground (arith, q.second_head, occurs-append gd.upper_queue us (u ∷ [])),
  )

  -- The choice over links is the choice over lists.
  pick_refines :
      (head : ℕ) (lo up : List Node) (o : Option (List Node × Node))
      → TwoQueues gd.links gd.lower_queue lo gd.upper_queue up
      → gd.disk_head ≡ head
      → InRange rs head lo up
      → split_last up ≡ o
      → Picked
          (greedy_dispatch rs k gd)
          (pick rs (record { head = head; lower = lo; upper = up }) lo o)
  unfolding pick dispatch_target
  pick_refines head [] up none q h n e =
      pick_none (record { head = head; lower = []; upper = up }) (record { queues = q; head = h })
        (ground (arith, q.first, next_upper-nil [] up q e))
  pick_refines head (l ∷ ls) up none q h n e =
      pick_lower l ls up q (ground (arith, q.first, q.first_head, next_upper-nil (l ∷ ls) up q e))
  pick_refines head [] up (some (us, u)) q h n e =
      let q' =
        subst (λ ys. TwoQueues gd.links gd.lower_queue [] gd.upper_queue ys)
          (split_last-append up us u e) q in
      pick_upper u us [] q' (ground (arith, q.first, next_upper-last [] us u q'))
  pick_refines head (l ∷ ls) up (some (us, u)) q h n e =
      let q' =
        subst (λ ys. TwoQueues gd.links gd.lower_queue (l ∷ ls) gd.upper_queue ys)
          (split_last-append up us u e) q in
      let up_last = next_upper-last (l ∷ ls) us u q' in
      let in_up : (head ≤ rs.blk_rq_pos u) × (rs.blk_rq_pos u < 2 ^ 64) =
        All-last (λ x. (head ≤ rs.blk_rq_pos x) × (rs.blk_rq_pos x < 2 ^ 64)) us u
          (subst (λ ys. All (λ x. (head ≤ rs.blk_rq_pos x) × (rs.blk_rq_pos x < 2 ^ 64)) ys)
            (split_last-append up us u e) n.above) in
      let down : sub64 gd.disk_head (rs.blk_rq_pos l) ≡ head - rs.blk_rq_pos l =
        omega (arith, h, n.small, n.below) in
      let along : sub64 (rs.blk_rq_pos u) gd.disk_head ≡ rs.blk_rq_pos u - head =
        omega (arith, h, n.small, in_up) in
      let first_not_head : (l == gd.lower_queue) ≡ false = ground (arith, q.first_head) in
      let last_not_head : (u == gd.upper_queue) ≡ false = ground (arith, up_last) in
      elim (Bool-cases (ltb (head - rs.blk_rq_pos l) (rs.blk_rq_pos u - head))) [
        | inl near ↦ rw near (
            pick_lower l ls up q
              (rw (q.first.0, up_last.0, first_not_head, last_not_head, down, along, near)))
        | inr far ↦ rw far (
            pick_upper u us (l ∷ ls) q'
              (rw (q.first.0, up_last.0, first_not_head, last_not_head, down, along, far)))
      ]

-- From links that stand for a schedule in order, `greedy_dispatch` returns the request that the schedule picks, or none as it does, and leaves
-- links and disk head as the schedule does.
pub dispatch_refines :
    (k : KernelList) (rs : Requests) (gd : GreedyData) (s : Schedule)
    → Represents gd s
    → IsPlaced rs s
    → Picked (greedy_dispatch rs k gd) (dispatch rs s)
unfolding dispatch
dispatch_refines k rs gd s r p =
    pick_refines k rs gd s.head s.lower s.upper (split_last s.upper) r.queues r.head
      (record {
        small = p.small;
        below = p.below;
        above = in_range rs s.head s.upper s.lower p.spaced p.above p.sectors;
      })
      refl
