-- ===== src/Sstf/Tests.antt =====
-- Tests of the scheduler: the theorems of its modules for two waiting requests.
use os_spring.Common.{
  ◌+◌, ◌*◌, ◌≤◌, ◌≡◌, refl, true, some, List, ◌++◌, replicate, [], ◌∷◌, arith, ◌==◌, if◌then◌else◌,
}
use mathlib.Core.List.{Perm}
use os_spring.Sstf.Links.{Node, KernelList}
use os_spring.Sstf.Scheduler.{
  Requests, GreedyData, dispatch_target, greedy_dispatch, greedy_add_request, greedy_exit_queue,
  greedy_init_queue, initialised,
}
use os_spring.Sstf.Schedule.{Schedule, add, dispatch, distance, IsPlaced}
use os_spring.Sstf.Refine.{Represents, IsNew, add_refines}
use os_spring.Sstf.Dispatch.{Picked, dispatch_refines}
use os_spring.Sstf.Nearest.{waiting, greedy_dispatch-nearest}
use os_spring.Sstf.Placed.{Taken, greedy_dispatch-keeps}
use os_spring.Sstf.Adding.{greedy_add_request-keeps}
use os_spring.Sstf.Run.{Call, requests_of, run}
use os_spring.Sstf.Elevator.{elevator_serves_all}
use os_spring.Sstf.Neighbours.{passed_request_waits}

-- linux/list.h on the two fields
abbrev kernel_list : KernelList
kernel_list = record {
  list_add = λ entry after l. record {
    next = λ m. if m == after then entry else if m == entry then l.next after else l.next m;
    prev = λ m. if m == l.next after then entry else if m == entry then after else l.prev m;
  };
  list_del_init = λ entry l. record {
    next = λ m. if m == entry then entry else if m == l.prev entry then l.next entry else l.next m;
    prev = λ m. if m == entry then entry else if m == l.next entry then l.prev entry else l.prev m;
  };
  init_list_head = λ head l. record {
    next = λ m. if m == head then head else l.next m;
    prev = λ m. if m == head then head else l.prev m;
  };
  next-add = λ entry after l m h. refl;
  prev-add = λ entry after l m h k. refl;
  next-del = λ entry l m. refl;
  prev-del = λ entry l m. refl;
  next-init = λ head l m. refl;
  prev-init = λ head l m. refl;
}

-- request `n` covers eight sectors from `10 * n` on
abbrev requests : Requests
requests = record { blk_rq_pos = λ n. 10 * n; rq_end_sector = λ n. 10 * n + 8 }

-- Queue heads 100 and 200, request 3 below the disk head and request 7 above it.
abbrev partner : Node → Node
partner m =
    if m == 100
    then 3
    else if m == 3
    then 100
    else if m == 200
    then 7
    else if m == 7
    then 200
    else m

abbrev two_waiting : GreedyData
two_waiting = record {
  lower_queue = 100;
  upper_queue = 200;
  disk_head = 45;
  links = record { next = partner; prev = partner };
}

abbrev schedule : Schedule
schedule = record { head = 45; lower = 3 ∷ []; upper = 7 ∷ [] }

two_waiting-Represents : Represents two_waiting schedule
two_waiting-Represents = record {
  queues = record {
    first = (refl, refl, (refl, refl));
    second = (refl, refl, (refl, refl));
    heads_differ = omega arith;
    first_head = ground arith;
    second_head = ground arith;
    first_distinct = ground arith;
    second_distinct = ground arith;
    disjoint = λ m i. ground arith;
  };
  head = refl;
}

schedule-IsPlaced : IsPlaced requests schedule
schedule-IsPlaced = record {
  spaced = (omega arith, (omega arith, tt), (omega arith, tt, tt));
  below = (omega arith, tt);
  above = (omega arith, tt);
  small = omega arith;
  sectors = (omega arith, (omega arith, tt));
}

dispatch_refines_example :
    Picked (greedy_dispatch requests kernel_list two_waiting) (dispatch requests schedule)
dispatch_refines_example =
    dispatch_refines kernel_list requests two_waiting schedule two_waiting-Represents
      schedule-IsPlaced

-- Request 3 is 15 sectors away and request 7 is 25.
greedy_dispatch-nearest_example : distance requests 45 3 ≤ distance requests 45 7
unfolding greedy_dispatch dispatch_target
greedy_dispatch-nearest_example =
    greedy_dispatch-nearest kernel_list requests two_waiting schedule 3 7 two_waiting-Represents
      schedule-IsPlaced refl refl

greedy_dispatch-keeps_example :
    (s' : Schedule) × Represents (greedy_dispatch requests kernel_list two_waiting).0 s'
    × IsPlaced requests s'
    × Taken (greedy_dispatch requests kernel_list two_waiting).1 (waiting schedule) (waiting s')
greedy_dispatch-keeps_example =
    greedy_dispatch-keeps kernel_list requests two_waiting schedule two_waiting-Represents
      schedule-IsPlaced

five-IsNew : IsNew 5 two_waiting schedule
five-IsNew = (refl, refl)

greedy_add_request-keeps_example :
    (gd' : GreedyData) × (s' : Schedule) × (greedy_add_request requests kernel_list 2 5 two_waiting
      ≡ some gd')
    × Represents gd' s'
    × IsPlaced requests s'
    × Perm (waiting s') (5 ∷ waiting schedule)
greedy_add_request-keeps_example =
    greedy_add_request-keeps kernel_list requests 2 5 two_waiting schedule two_waiting-Represents
      schedule-IsPlaced five-IsNew (omega arith) (omega arith) (omega arith) (omega arith)
      (ground arith)

-- the head has passed request 7 as well
abbrev passed : GreedyData
passed = record two_waiting { disk_head = 75 }

passed_request_waits_example : dispatch_target requests passed ≡ some 3
passed_request_waits_example =
    passed_request_waits requests passed 3 7 refl (omega arith) refl (omega arith) (omega arith)
      (omega arith) (omega arith)

add_refines_example :
    (gd' : GreedyData) × (greedy_add_request requests kernel_list 2 5 two_waiting ≡ some gd')
    × Represents gd' (add requests 5 schedule)
add_refines_example =
    add_refines kernel_list requests 2 5 two_waiting schedule two_waiting-Represents five-IsNew
      (omega arith) (omega arith)

-- Requests 5 and 2 come, one is served, and request 9 comes.
abbrev calls : List Call
calls = Call.add 5 ∷ Call.add 2 ∷ Call.dispatch ∷ Call.add 9 ∷ []

elevator_serves_all_example :
    (gd : GreedyData) × (end : GreedyData) × (served : List Node) × (greedy_init_queue kernel_list
        (some tt)
        (some (100, 200))
        two_waiting.links
      ≡ initialised gd)
    × (run requests kernel_list 5 (calls ++ replicate 3 Call.dispatch) gd ≡ some (end, served))
    × Perm (requests_of calls) served
    × (greedy_exit_queue end ≡ true)
elevator_serves_all_example =
    elevator_serves_all requests kernel_list two_waiting.links 100 200 5 3 calls (omega arith)
      (ground arith) (omega arith) (omega arith)
