-- ===== src/Sstf/Scheduler.antt =====
-- The operations of SSTF/greedy-iosched.c, over the list heads in memory.
use os_spring.Common.{
  ℕ, zero, suc, Bool, true, false, ◌&&◌, ◌||◌, Option, none, some, ◌==◌, ltb, if◌then◌else◌, sub64,
}
use os_spring.Sstf.Links.{Node, Links, KernelList}

-- `blk_rq_pos` and `rq_end_sector` of the request that a node lies in.
pub record Requests : Type 0 where
  pub blk_rq_pos : Node → ℕ
  pub rq_end_sector : Node → ℕ

-- `struct greedy_data`, with the list heads in memory.
pub record GreedyData : Type 0 where
  pub lower_queue : Node
  pub upper_queue : Node
  pub disk_head : ℕ
  pub links : Links

module _ (rs : Requests) where
  open rs use {blk_rq_pos, rq_end_sector}

  -- The choice of `greedy_dispatch`. The distances are of type `unsigned long`.
  unfoldable pub dispatch_target : GreedyData → Option Node
  dispatch_target gd =
      let next_lower : Node = gd.links.prev gd.lower_queue in
      let next_upper : Node = gd.links.next gd.upper_queue in
      let is_lower_empty : Bool = next_lower == gd.lower_queue in
      let is_upper_empty : Bool = next_upper == gd.upper_queue in
      let lower_distance : ℕ = sub64 gd.disk_head (blk_rq_pos next_lower) in
      let upper_distance : ℕ = sub64 (blk_rq_pos next_upper) gd.disk_head in
      if is_lower_empty && is_upper_empty
      then none
      else if is_lower_empty
      then some next_upper
      else if is_upper_empty
      then some next_lower
      else if ltb lower_distance upper_distance
      then some next_lower
      else some next_upper

  -- The loop `list_for_each_entry_reverse` of `greedy_add_request` from a cursor on: the node that it
  -- stops at, which is the queue's head if no request breaks the loop. `none`: out of fuel.
  unfoldable pub reverse_search : ℕ → (target cursor rq : Node) → Links → Option Node
  reverse_search zero target cursor rq l = none
  reverse_search (suc fuel) target cursor rq l =
      let pos : Node = l.prev cursor in
      let rest = reverse_search fuel target pos rq l in
      if pos == target
      then some target
      else if ltb (blk_rq_pos pos) (blk_rq_pos rq)
      then some pos
      else rest

  -- the queue that a request goes to
  unfoldable pub target_queue : Node → GreedyData → Node
  target_queue rq gd = if ltb (blk_rq_pos rq) gd.disk_head then gd.lower_queue else gd.upper_queue

  module _ (k : KernelList) where
    -- The dispatched request is the one given to `elv_dispatch_add_tail`; without one the code
    -- returns 0.
    unfoldable pub greedy_dispatch : GreedyData → GreedyData × Option Node
    greedy_dispatch gd = elim (dispatch_target gd) [
      | none ↦ (gd, none)
      | some target ↦ (
        record gd { disk_head = rq_end_sector target; links = k.list_del_init target gd.links },
        some target,
      )
    ]

    unfoldable pub greedy_add_request : ℕ → Node → GreedyData → Option GreedyData
    greedy_add_request fuel rq gd =
        let target = target_queue rq gd in
        elim (reverse_search fuel target target rq gd.links) [
          | none ↦ none
          | some pos ↦ some (record gd { links = k.list_add rq pos gd.links })
        ]

unfoldable pub greedy_merged_requests : KernelList → (rq next : Node) → GreedyData → GreedyData
greedy_merged_requests k rq next gd = record gd { links = k.list_del_init next gd.links }

unfoldable pub greedy_former_request : Node → GreedyData → Option Node
greedy_former_request rq gd =
    let p : Node = gd.links.prev rq in
    if p == gd.lower_queue || p == gd.upper_queue then none else some p

unfoldable pub greedy_latter_request : Node → GreedyData → Option Node
greedy_latter_request rq gd =
    let n : Node = gd.links.next rq in
    if n == gd.lower_queue || n == gd.upper_queue then none else some n

-- `greedy_init_queue` for what the two allocations answer: the elevator queue, and the addresses of
-- the two list heads in the new `struct greedy_data`. `none` is -ENOMEM; the flag says whether the
-- elevator queue was given back.
pub data InitResult : Type 0 where
  out_of_memory : (put_back : Bool) → InitResult
  initialised : GreedyData → InitResult

unfoldable pub greedy_init_queue :
    KernelList → Option (Unit {0}) → Option (Node × Node) → Links → InitResult
greedy_init_queue k none allocated l = out_of_memory false
greedy_init_queue k (some eq) none l = out_of_memory true
greedy_init_queue k (some eq) (some (lower, upper)) l = initialised (record {
  lower_queue = lower;
  upper_queue = upper;
  disk_head = 0;
  links = k.init_list_head upper (k.init_list_head lower l);
})

-- Whether `greedy_exit_queue` passes both of its `BUG_ON` tests: `list_empty` compares a head's
-- next node with the head.
unfoldable pub greedy_exit_queue : GreedyData → Bool
greedy_exit_queue gd =
    (gd.links.next gd.lower_queue == gd.lower_queue)
    && (gd.links.next gd.upper_queue == gd.upper_queue)
