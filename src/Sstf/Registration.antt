-- ===== src/Sstf/Registration.antt =====
-- The table of operations that the module of the scheduler registers (SSTF/greedy-iosched.c, lines 103 to
-- 123). What the kernel keeps of registered elevators is a parameter.
use os_spring.Common.{ℕ, Bool, Option}
use os_spring.Sstf.Links.{Node, Links, KernelList}
use os_spring.Sstf.Scheduler.{
  Requests, GreedyData, InitResult, greedy_merged_requests, greedy_dispatch, greedy_add_request,
  greedy_former_request, greedy_latter_request, greedy_init_queue, greedy_exit_queue,
}

-- `struct elevator_type` with the operations that the scheduler fills in. The fuel is that of
-- `greedy_add_request`; the name and the owner are left out.
pub record ElevatorType : Type 0 where
  pub merge_req : KernelList → (rq next : Node) → GreedyData → GreedyData
  pub dispatch : Requests → KernelList → GreedyData → GreedyData × Option Node
  pub add_req : Requests → KernelList → (fuel : ℕ) → Node → GreedyData → Option GreedyData
  pub former_req : Node → GreedyData → Option Node
  pub latter_req : Node → GreedyData → Option Node
  pub init : KernelList → Option (Unit {0}) → Option (Node × Node) → Links → InitResult
  pub exit : GreedyData → Bool

abbrev elevator_greedy : ElevatorType
elevator_greedy = record {
  merge_req = greedy_merged_requests;
  dispatch = greedy_dispatch;
  add_req = greedy_add_request;
  former_req = greedy_former_request;
  latter_req = greedy_latter_request;
  init = greedy_init_queue;
  exit = greedy_exit_queue;
}

-- The kernel's list of elevators.
pub record Elevators (State : Type 0) : Type 0 where
  pub elv_register : ElevatorType → State → State × ℕ
  pub elv_unregister : ElevatorType → State → State

unfoldable greedy_init : {State : Type 0} → Elevators State → State → State × ℕ
greedy_init core s = core.elv_register elevator_greedy s

unfoldable greedy_exit : {State : Type 0} → Elevators State → State → State
greedy_exit core s = core.elv_unregister elevator_greedy s
