-- ===== src/Sstf/Neighbours.antt =====
-- The neighbours of a waiting request, merging, and the life of the queues
-- (SSTF/greedy-iosched.c, lines 14 to 16 and 55 to 101), and what a request left behind the head
-- does to the choice (lines 33 to 36).
use os_spring.Common.{
  ◌^◌, ◌≤◌, ◌<◌, ◌≡◌, ◌≢◌, ◌↔◌, refl, true, false, ◌||◌, Option, none, some, List, [], ◌∷◌, ◌++◌,
  arith, ◌==◌, ltb, if◌then◌else◌, sub64, lt→ltb,
}
use mathlib.Core.Path.{subst}
use os_spring.Sstf.Links.{Node, Links, KernelList}
use os_spring.Sstf.Scheduler.{
  Requests, GreedyData, dispatch_target, greedy_merged_requests, greedy_former_request,
  greedy_latter_request, initialised, greedy_init_queue, greedy_exit_queue,
}
use os_spring.Sstf.Segment.{occurs, ◌∉◌, Back}
use os_spring.Sstf.Queues.{TwoQueues, swap, TwoQueues-del, occurs-append}
use os_spring.Sstf.Schedule.{Schedule}
use os_spring.Sstf.Refine.{Represents}

abbrev pub first : List Node → Option Node
first [] = none
first (x ∷ xs) = some x

abbrev pub last : List Node → Option Node
last [] = none
last (x ∷ xs) = elim (last xs) [ none ↦ some x | some y ↦ some y ]

abbrev or : Option Node → Node → Node
or none a = a
or (some x) a = x

Back-prev :
    (l : Links) (b a rq : Node) (us vs : List Node)
    → Back l b (us ++ (rq ∷ vs)) a
    → l.prev rq ≡ or (first vs) a
Back-prev l b a rq [] [] (p, q, (r, s)) = r
Back-prev l b a rq [] (v ∷ vs) (p, q, (r, s, rest)) = r
Back-prev l b a rq (u ∷ us) vs (p, q, rest) = Back-prev l u a rq us vs rest

Back-next :
    (l : Links) (b a rq : Node) (us vs : List Node)
    → Back l b (us ++ (rq ∷ vs)) a
    → l.next rq ≡ or (last us) b
Back-next l b a rq [] vs (p, q, rest) = q
Back-next l b a rq (u ∷ us) vs (p, q, rest) = ground (arith, Back-next l u a rq us vs rest)

first-mem : (x a : Node) (vs : List Node) → a ∉ vs → first vs ≡ some x → x ≢ a
first-mem x a [] out e = cc
first-mem x a (v ∷ vs) out e = ground arith

last-mem : (x a : Node) (us : List Node) → a ∉ us → last us ≡ some x → x ≢ a
last-mem x a [] out e = cc
last-mem x a (u ∷ us) out e = ground (arith, last-mem x a us)

-- in the queue at `a`, with the other one at `b`
module _ (l : Links) (a b rq : Node) (us vs ys : List Node) where
  neighbours :
      TwoQueues l a (us ++ (rq ∷ vs)) b ys
      → ((if (l.prev rq == a) || (l.prev rq == b) then none else some (l.prev rq)) ≡ first vs)
        × ((if (l.next rq == a) || (l.next rq == b) then none else some (l.next rq)) ≡ last us)
  neighbours q =
      let p = Back-prev l a a rq us vs q.first in
      let n = Back-next l a a rq us vs q.first in
      let out_a = occurs-append a us (rq ∷ vs) in
      let out_b = occurs-append b us (rq ∷ vs) in
      (before (first vs) refl p out_a out_b, after (last us) refl n out_a out_b)
    where
      before :
          (o : Option Node)
          → first vs ≡ o
          → l.prev rq ≡ or (first vs) a
          → occurs a (us ++ (rq ∷ vs)) ≡ (occurs a us || occurs a (rq ∷ vs))
          → occurs b (us ++ (rq ∷ vs)) ≡ (occurs b us || occurs b (rq ∷ vs))
          → (if (l.prev rq == a) || (l.prev rq == b) then none else some (l.prev rq)) ≡ first vs
      before none e p out_a out_b = ground arith
      before (some x) e p out_a out_b =
          ground (arith, first-mem x a vs, first-mem x b vs, q.first_head)

      after :
          (o : Option Node)
          → last us ≡ o
          → l.next rq ≡ or (last us) a
          → occurs a (us ++ (rq ∷ vs)) ≡ (occurs a us || occurs a (rq ∷ vs))
          → occurs b (us ++ (rq ∷ vs)) ≡ (occurs b us || occurs b (rq ∷ vs))
          → (if (l.next rq == a) || (l.next rq == b) then none else some (l.next rq)) ≡ last us
      after none e p out_a out_b = ground arith
      after (some x) e p out_a out_b =
          ground (arith, last-mem x a us, last-mem x b us, q.first_head)

-- Of a request in either queue `greedy_former_request` finds the one before it and
-- `greedy_latter_request` the one behind it, and each finds none at the queue's end.
pub neighbours_lem :
    (gd : GreedyData) (s : Schedule) (rq : Node) (us vs : List Node)
    → Represents gd s
    → ((s.lower ≡ us ++ (rq ∷ vs))
        → (greedy_former_request rq gd ≡ first vs) × (greedy_latter_request rq gd ≡ last us))
      × ((s.upper ≡ us ++ (rq ∷ vs))
          → (greedy_former_request rq gd ≡ first vs) × (greedy_latter_request rq gd ≡ last us))
unfolding greedy_former_request greedy_latter_request
neighbours_lem gd s rq us vs r =
    let l = gd.links in
    let a = gd.lower_queue in
    let b = gd.upper_queue in
    (
      λ e. neighbours l a b rq us vs s.upper (subst (λ xs. TwoQueues l a xs b s.upper) e r.queues),
      λ e.
          let q = subst (λ ys. TwoQueues l a s.lower b ys) e r.queues in
          let there = neighbours l b a rq us vs s.lower (swap q) in ground (arith, there),
    )

-- Merging takes the second request out of its queue and leaves everything else.
pub merged_lem :
    (k : KernelList) (gd : GreedyData) (s : Schedule) (rq next : Node) (us vs : List Node)
    → Represents gd s
    → ((s.lower ≡ us ++ (next ∷ vs))
        → Represents (greedy_merged_requests k rq next gd) (record s { lower = us ++ vs }))
      × ((s.upper ≡ us ++ (next ∷ vs))
          → Represents (greedy_merged_requests k rq next gd) (record s { upper = us ++ vs }))
unfolding greedy_merged_requests
merged_lem k gd s rq next us vs r =
    let l = gd.links in
    let a = gd.lower_queue in
    let b = gd.upper_queue in
    (
      λ e. record {
        queues =
            TwoQueues-del k l a b us next vs s.upper
              (subst (λ xs. TwoQueues l a xs b s.upper) e r.queues);
        head = r.head;
      },
      λ e. record {
        queues = swap (
            TwoQueues-del k l b a us next vs s.lower
              (swap (subst (λ ys. TwoQueues l a s.lower b ys) e r.queues)));
        head = r.head;
      },
    )

abbrev pub empty : Schedule
empty = record { head = 0; lower = []; upper = [] }

-- If both allocations succeed, `greedy_init_queue` starts with empty queues and the head at 0.
pub greedy_init_queue_lem :
    (k : KernelList) (l : Links) (lower upper : Node)
    → lower ≢ upper
    → (gd : GreedyData) × (greedy_init_queue k (some tt) (some (lower, upper)) l ≡ initialised gd)
      × Represents gd empty
unfolding greedy_init_queue
greedy_init_queue_lem k l lower upper ne =
    let g = k.init_list_head lower l in
    (
      record {
        lower_queue = lower;
        upper_queue = upper;
        disk_head = 0;
        links = k.init_list_head upper g;
      },
      refl,
      record {
        queues = record {
          first = ground (
            arith,
            k.prev-init upper g lower,
            k.next-init upper g lower,
            k.prev-init lower l lower,
            k.next-init lower l lower,
          );
          second = ground (arith, k.prev-init upper g upper, k.next-init upper g upper);
          heads_differ = ne;
          first_head = (refl, refl);
          second_head = (refl, refl);
          first_distinct = tt;
          second_distinct = tt;
          disjoint = λ m i. refl;
        };
        head = refl;
      },
    )

next-occurs :
    (l : Links) (b x : Node) (xs : List Node) (a : Node)
    → Back l b (x ∷ xs) a
    → occurs (l.next a) (x ∷ xs) ≡ true
next-occurs l b x [] a (p, q, (r, s)) = ground arith
next-occurs l b x (y ∷ ys) a (p, q, rest) = ground (arith, next-occurs l x y ys a rest)

list_empty :
    (l : Links) (h : Node) (xs : List Node)
    → Back l h xs h
    → h ∉ xs
    → ((l.next h == h) ≡ true) ↔ (xs ≡ [])
list_empty l h [] seg out = ground arith
list_empty l h (x ∷ xs) seg out = ground (arith, next-occurs l h x xs h seg)

-- For links that stand for a schedule, the `BUG_ON` tests of `greedy_exit_queue` pass exactly if no
-- request waits.
pub greedy_exit_queue_lem :
    (gd : GreedyData) (s : Schedule)
    → Represents gd s
    → (greedy_exit_queue gd ≡ true) ↔ ((s.lower ≡ []) × (s.upper ≡ []))
unfolding greedy_exit_queue
greedy_exit_queue_lem gd s r =
    let lo = list_empty gd.links gd.lower_queue s.lower r.queues.first r.queues.first_head.0 in
    let up = list_empty gd.links gd.upper_queue s.upper r.queues.second r.queues.second_head.1 in
    ground (arith, lo, up)

-- A request of the upper queue that the head has passed is taken for one far away: its distance wraps
-- round, and the first request of the lower queue is served, however far it is.
pub passed_request_waits :
    (rs : Requests) (gd : GreedyData) (l u : Node)
    → gd.links.prev gd.lower_queue ≡ l
    → l ≢ gd.lower_queue
    → gd.links.next gd.upper_queue ≡ u
    → u ≢ gd.upper_queue
    → rs.blk_rq_pos l ≤ gd.disk_head
    → rs.blk_rq_pos u < gd.disk_head
    → gd.disk_head < 2 ^ 63
    → dispatch_target rs gd ≡ some l
unfolding dispatch_target
passed_request_waits rs gd l u p np n nn below passed small =
    let first_there : (l == gd.lower_queue) ≡ false = ground arith in
    let last_there : (u == gd.upper_queue) ≡ false = ground arith in
    let near : ltb (sub64 gd.disk_head (rs.blk_rq_pos l)) (sub64 (rs.blk_rq_pos u) gd.disk_head)
        ≡ true =
      lt→ltb _ _ (omega arith) in
    rw (p, n, first_there, last_there, near)
