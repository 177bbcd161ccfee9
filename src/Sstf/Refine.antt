-- ===== src/Sstf/Refine.antt =====
-- The operations over links do what the schedule does (SSTF/greedy-iosched.c, lines 18 to 53).
use os_spring.Common.{ℕ, ◌<◌, ◌≡◌, some, ◌∷◌, arith, ltb, length, Bool-cases, inl, inr}
use os_spring.Sstf.Links.{Node, KernelList}
use os_spring.Sstf.Scheduler.{Requests, GreedyData, target_queue, greedy_add_request}
use os_spring.Sstf.Segment.{◌∉◌}
use os_spring.Sstf.Queues.{TwoQueues, swap, TwoQueues-add}
use os_spring.Sstf.Schedule.{Schedule, add}

pub record Represents (gd : GreedyData) (s : Schedule) : Type 0 where
  pub queues : TwoQueues gd.links gd.lower_queue s.lower gd.upper_queue s.upper
  pub head : gd.disk_head ≡ s.head

-- a request that is in neither queue
abbrev pub IsNew : Node → GreedyData → Schedule → Type 0
IsNew rq gd s = rq ∉ (gd.lower_queue ∷ gd.upper_queue ∷ s.lower) × (rq ∉ s.upper)

-- From links that stand for a schedule, with fuel above the lengths of its queues,
-- `greedy_add_request` ends for every new request and leaves links that stand for the schedule with
-- the request in its place, in the queue on its side of the disk head.
pub add_refines :
    (k : KernelList) (rs : Requests) (fuel : ℕ) (rq : Node) (gd : GreedyData) (s : Schedule)
    → Represents gd s
    → IsNew rq gd s
    → length s.lower < fuel
    → length s.upper < fuel
    → (gd' : GreedyData) × (greedy_add_request rs k fuel rq gd ≡ some gd')
      × Represents gd' (add rs rq s)
unfolding greedy_add_request target_queue add
add_refines k rs fuel rq gd s r new lo up = elim (Bool-cases (ltb (rs.blk_rq_pos rq) s.head)) [
  | inl low ↦
      let (pos, found, q) =
        TwoQueues-add k rs gd.links gd.lower_queue gd.upper_queue s.lower s.upper fuel rq lo new.0
          new.1 r.queues in
      (
        record gd { links = k.list_add rq pos gd.links },
        ground (arith, r.head, low, found),
        rw low (record { queues = q; head = r.head }),
      )
  | inr high ↦
      let (pos, found, q) =
        TwoQueues-add k rs gd.links gd.upper_queue gd.lower_queue s.upper s.lower fuel rq up
          (ground arith) (ground arith) (swap r.queues) in
      (
        record gd { links = k.list_add rq pos gd.links },
        ground (arith, r.head, high, found),
        rw high (record { queues = swap q; head = r.head }),
      )
]
