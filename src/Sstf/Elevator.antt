-- ===== src/Sstf/Elevator.antt =====
-- The whole life of a queue of the scheduler: set up, any run of requests and dispatches, dispatches
-- until nothing waits, and its end (SSTF/greedy-iosched.c, lines 18 to 53 and 71 to 101).
use os_spring.Common.{
  ℕ, zero, suc, ◌≤◌, ◌<◌, ◌≡◌, ◌≢◌, refl, ap, ◌∙◌, true, Option, none, some, List, [], ◌∷◌, ◌++◌,
  arith, length, replicate, length-append,
}
use mathlib.Core.List.{Perm, append-nil}
use mathlib.Core.List.Perm
use os_spring.Sstf.Links.{Node, Links, KernelList}
use os_spring.Sstf.Scheduler.{
  Requests, GreedyData, greedy_dispatch, greedy_add_request, greedy_init_queue, greedy_exit_queue,
  initialised,
}
use os_spring.Sstf.Schedule.{Schedule, IsPlaced}
use os_spring.Sstf.Refine.{Represents}
use os_spring.Sstf.Nearest.{waiting}
use os_spring.Sstf.Placed.{Taken, greedy_dispatch-keeps}
use os_spring.Sstf.Neighbours.{empty, greedy_init_queue_lem, greedy_exit_queue_lem}
use os_spring.Sstf.Perms.{length-Perm}
use os_spring.Sstf.Run.{
  Call, add, dispatch, requests_of, run, given, IsValid, Kept, Kept-dispatch, run-Kept,
}

nil_of_length : (xs : List Node) → length xs ≤ 0 → xs ≡ []
nil_of_length [] h = refl
nil_of_length (x ∷ xs) h = absurd (omega arith)

given-append : (t : Option Node) (vs us : List Node) → given t vs ++ us ≡ given t (vs ++ us)
given-append none vs us = refl
given-append (some t) vs us = refl

module _ (rs : Requests) (k : KernelList) where
  Taken-less :
      (n : ℕ) (t : Option Node) (ws ws' : List Node)
      → Taken t ws ws'
      → length ws ≤ suc n
      → length ws' ≤ n
  Taken-less n none ws ws' (e, f) h = ground (arith, e, f)
  Taken-less n (some t) ws ws' p h = omega (arith, length-Perm p)

  -- what a call leads to, for each answer of the operation
  added_then :
      (fuel : ℕ) (rq : Node) (cs ds : List Call) (gd : GreedyData) (x y : GreedyData × List Node)
      → ((gd' : GreedyData) → run rs k fuel cs gd' ≡ some x → run rs k fuel (cs ++ ds) gd' ≡ some y)
      → (o : Option GreedyData) → greedy_add_request rs k fuel rq gd ≡ o
      → run rs k fuel (add rq ∷ cs) gd ≡ some x
      → run rs k fuel (add rq ∷ (cs ++ ds)) gd ≡ some y
  unfolding run
  added_then fuel rq cs ds gd x y ih none e h = ground arith
  added_then fuel rq cs ds gd x y ih (some gd') e h = ground (arith, ih gd')

  dispatched_then :
      (fuel : ℕ) (cs ds : List Call) (gd mid end : GreedyData) (ts us : List Node)
      → ((vs : List Node)
          → run rs k fuel cs (greedy_dispatch rs k gd).0 ≡ some (mid, vs)
          → run rs k fuel (cs ++ ds) (greedy_dispatch rs k gd).0 ≡ some (end, vs ++ us))
      → (o : Option (GreedyData × List Node)) → run rs k fuel cs (greedy_dispatch rs k gd).0 ≡ o
      → run rs k fuel (dispatch ∷ cs) gd ≡ some (mid, ts)
      → run rs k fuel (dispatch ∷ (cs ++ ds)) gd ≡ some (end, ts ++ us)
  unfolding run
  dispatched_then fuel cs ds gd mid end ts us ih none e h = ground arith
  dispatched_then fuel cs ds gd mid end ts us ih (some (f, vs)) e h =
      ground (arith, ih vs, given-append (greedy_dispatch rs k gd).1 vs us)

  run-append :
      (fuel : ℕ) (cs ds : List Call) (gd mid end : GreedyData) (ts us : List Node)
      → run rs k fuel cs gd ≡ some (mid, ts)
      → run rs k fuel ds mid ≡ some (end, us)
      → run rs k fuel (cs ++ ds) gd ≡ some (end, ts ++ us)
  unfolding run
  run-append fuel [] ds gd mid end ts us h g = ground arith
  run-append fuel (add rq ∷ cs) ds gd mid end ts us h g =
      added_then fuel rq cs ds gd (mid, ts) (end, ts ++ us)
        (λ gd' i. run-append fuel cs ds gd' mid end ts us i g) (greedy_add_request rs k fuel rq gd)
        refl h
  run-append fuel (dispatch ∷ cs) ds gd mid end ts us h g =
      dispatched_then fuel cs ds gd mid end ts us
        (λ vs i. run-append fuel cs ds (greedy_dispatch rs k gd).0 mid end vs us i g)
        (run rs k fuel cs (greedy_dispatch rs k gd).0) refl h

  -- Enough dispatches in a row leave nothing waiting.
  drains :
      (n fuel : ℕ) (gd : GreedyData) (s : Schedule)
      → Represents gd s
      → IsPlaced rs s
      → length (waiting s) ≤ n
      → (kept : Kept rs k fuel (replicate n dispatch) gd s) × (waiting kept.rest ≡ [])
  unfolding run
  drains zero fuel gd s r p le = (
    record {
      end = gd;
      rest = s;
      served = [];
      returns = refl;
      represents = r;
      placed = p;
      same = Perm.refl (waiting s);
    },
    nil_of_length (waiting s) le,
  )
  drains (suc n) fuel gd s r p le =
      let (s', r', p', taken) = greedy_dispatch-keeps k rs gd s r p in
      let (kept, none_left) =
        drains n fuel (greedy_dispatch rs k gd).0 s' r' p'
          (Taken-less n (greedy_dispatch rs k gd).1 (waiting s) (waiting s') taken le) in
      let (more, same) = Kept-dispatch rs k fuel (replicate n dispatch) gd s s' taken kept in
      (more, ap waiting same ∙ none_left)

append_nil_both : (xs ys : List Node) → xs ++ ys ≡ [] → (ys ≡ []) × (xs ≡ [])
append_nil_both [] ys h = (h, refl)
append_nil_both (x ∷ xs) ys h = absurd (ground arith)

no_requests : (n : ℕ) → requests_of (replicate n dispatch) ≡ []
no_requests zero = refl
no_requests (suc n) = no_requests n

init-heads :
    (k : KernelList) (l : Links) (lower upper : Node) (gd : GreedyData)
    → greedy_init_queue k (some tt) (some (lower, upper)) l ≡ initialised gd
    → (gd.lower_queue ≡ lower) × (gd.upper_queue ≡ upper)
unfolding greedy_init_queue
init-heads k l lower upper gd h = ground arith

empty-IsPlaced : (rs : Requests) → IsPlaced rs empty
empty-IsPlaced rs = record {
  spaced = tt;
  below = tt;
  above = tt;
  small = omega arith;
  sectors = tt;
}

-- Two runs, the second of dispatches only, that leave nothing waiting.
all_served :
    (qs ds ts us ws vs : List Node)
    → ds ≡ []
    → vs ≡ []
    → Perm (qs ++ []) (ts ++ ws)
    → Perm (ds ++ ws) (us ++ vs)
    → Perm qs (ts ++ us)
all_served qs ds ts us ws vs e f p q =
    let rest : Perm ws us = simp (e, f, append-nil) at q in
    Perm.trans (simp append-nil at p) (Perm.append_left ts rest)

-- From `greedy_init_queue` on, whatever valid run of calls comes, and however its requests and
-- dispatches are mixed: with fuel above the number of calls the run returns, and as many dispatches as
-- requests behind it leave every request served exactly once, and both queues as
-- `greedy_exit_queue` wants them.
pub elevator_serves_all :
    (rs : Requests) (k : KernelList) (l : Links) (lower upper : Node) (fuel n : ℕ) (cs : List Call)
    → lower ≢ upper
    → IsValid rs lower upper [] cs
    → length cs < fuel
    → length (requests_of cs) ≤ n
    → (gd : GreedyData) × (end : GreedyData) × (served : List Node) × (greedy_init_queue k
          (some tt)
          (some (lower, upper))
          l
        ≡ initialised gd)
      × (run rs k fuel (cs ++ replicate n dispatch) gd ≡ some (end, served))
      × Perm (requests_of cs) served
      × (greedy_exit_queue end ≡ true)
elevator_serves_all rs k l lower upper fuel n cs ne v room enough =
    let (gd, started, r) = greedy_init_queue_lem k l lower upper ne in
    let (lo, up) = init-heads k l lower upper gd started in
    let first =
      run-Kept rs k fuel cs [] gd empty r (empty-IsPlaced rs) (simp (lo, up) v) (λ m i. i)
        (omega arith) in
    let counted = length-Perm first.same in
    let few : length (waiting first.rest) ≤ n = omega (
      arith,
      counted,
      length-append (requests_of cs) [],
      length-append first.served (waiting first.rest),
    ) in
    let (last, none_left) =
      drains rs k n fuel first.end first.rest first.represents first.placed few in
    (
      gd,
      last.end,
      first.served ++ last.served,
      started,
      run-append rs k fuel cs (replicate n dispatch) gd first.end last.end first.served last.served
          first.returns last.returns,
      all_served (requests_of cs) (requests_of (replicate n dispatch)) first.served last.served
          (waiting first.rest) (waiting last.rest) (no_requests n) none_left first.same last.same,
      (greedy_exit_queue_lem last.end last.rest last.represents).1
          (ground (arith, append_nil_both last.rest.upper last.rest.lower none_left)),
    )
