-- ===== src/Sstf/Schedule.antt =====
-- What the scheduler promises, with no links: two queues of requests, from the last one back, and a
-- disk head (the specification of SSTF/greedy-iosched.c, lines 18 to 53).
use os_spring.Common.{
  ℕ, ◌+◌, ◌-◌, ◌^◌, ◌≤◌, ◌<◌, Option, none, some, List, [], ◌∷◌, ◌++◌, ltb, if◌then◌else◌,
}
use os_spring.Sstf.Links.{Node}
use os_spring.Sstf.Scheduler.{Requests}
use os_spring.Sstf.Insert.{insert}

pub record Schedule : Type 0 where
  pub head : ℕ
  pub lower : List Node
  pub upper : List Node

unfoldable pub split_last : List Node → Option (List Node × Node)
split_last [] = none
split_last (x ∷ xs) = elim (split_last xs) [ none ↦ some ([], x) | some (ys, z) ↦ some (x ∷ ys, z) ]

module _ (rs : Requests) where
  open rs use {blk_rq_pos, rq_end_sector}

  unfoldable pub add : Node → Schedule → Schedule
  add rq s =
      if ltb (blk_rq_pos rq) s.head
      then record s { lower = insert rs rq s.lower }
      else record s { upper = insert rs rq s.upper }

  abbrev pub take_lower : Node → List Node → Schedule → Schedule × Option Node
  take_lower t rest s = (record s { head = rq_end_sector t; lower = rest }, some t)

  abbrev pub take_upper : Node → List Node → Schedule → Schedule × Option Node
  take_upper t rest s = (record s { head = rq_end_sector t; upper = rest }, some t)

  -- The last request below the head or the first one above it, whichever is nearer; the one above
  -- where both are as near.
  unfoldable pub pick : Schedule → List Node → Option (List Node × Node) → Schedule × Option Node
  pick s [] none = (s, none)
  pick s (l ∷ ls) none = take_lower l ls s
  pick s [] (some (us, u)) = take_upper u us s
  pick s (l ∷ ls) (some (us, u)) =
      if ltb (s.head - blk_rq_pos l) (blk_rq_pos u - s.head)
      then take_lower l ls s
      else take_upper u us s

  unfoldable pub dispatch : Schedule → Schedule × Option Node
  dispatch s = pick s s.lower (split_last s.upper)

  -- how far the disk has to go
  abbrev pub distance : ℕ → Node → ℕ
  distance head r = (head - blk_rq_pos r) + (blk_rq_pos r - head)

abbrev pub All : (Node → Type 0) → List Node → Type 0
All P [] = Unit {0}
All P (x ∷ xs) = P x × All P xs

-- No two requests overlap, each has a sector, and a later one stands further up.
abbrev pub Spaced : Requests → List Node → Type 0
Spaced rs [] = Unit {0}
Spaced rs (x ∷ xs) =
    (rs.blk_rq_pos x < rs.rq_end_sector x)
    × All (λ y. rs.rq_end_sector y ≤ rs.blk_rq_pos x) xs
    × Spaced rs xs

-- The head stands between the queues, and positions are of type `sector_t`.
pub record IsPlaced (rs : Requests) (s : Schedule) : Type 0 where
  pub spaced : Spaced rs (s.upper ++ s.lower)
  pub below : All (λ x. rs.blk_rq_pos x < s.head) s.lower
  pub above : All (λ x. s.head ≤ rs.blk_rq_pos x) s.upper
  pub small : s.head < 2 ^ 64
  pub sectors : All (λ x. rs.rq_end_sector x < 2 ^ 64) (s.upper ++ s.lower)
