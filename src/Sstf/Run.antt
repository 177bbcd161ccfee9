-- ===== src/Sstf/Run.antt =====
-- The scheduler through a run of requests and dispatches, as the block layer makes them between
-- `greedy_init_queue` and `greedy_exit_queue` (SSTF/greedy-iosched.c, lines 18 to 53 and 71 to 101).
use os_spring.Common.{
  ℕ, ◌+◌, ◌^◌, ◌≤◌, ◌<◌, ◌≡◌, refl, true, Option, none, some, List, [], ◌∷◌, ◌++◌, arith, length,
  length-append,
}
use mathlib.Core.List.{Perm, perm_middle}
use mathlib.Core.List.Perm
use os_spring.Sstf.Links.{Node, KernelList}
use os_spring.Sstf.Scheduler.{Requests, GreedyData, greedy_dispatch, greedy_add_request}
use os_spring.Sstf.Segment.{occurs, ◌∉◌}
use os_spring.Sstf.Schedule.{Schedule, All, IsPlaced}
use os_spring.Sstf.Refine.{Represents}
use os_spring.Sstf.Spacing.{All-get}
use os_spring.Sstf.Nearest.{waiting}
use os_spring.Sstf.Queues.{occurs-append}
use os_spring.Sstf.Placed.{All-of, Taken, greedy_dispatch-keeps}
use os_spring.Sstf.Adding.{Clear, greedy_add_request-keeps}
use os_spring.Sstf.Perms.{length-Perm, occurs-Perm}

-- A call of the block layer.
pub data Call : Type 0 where
  add : Node → Call
  dispatch : Call

abbrev pub requests_of : List Call → List Node
requests_of [] = []
requests_of (add rq ∷ cs) = rq ∷ requests_of cs
requests_of (dispatch ∷ cs) = requests_of cs

abbrev pub given : Option Node → List Node → List Node
given none ts = ts
given (some t) ts = t ∷ ts

module _ (rs : Requests) (k : KernelList) where
  -- The calls in order, with the requests that are dispatched; `none`: out of fuel.
  unfoldable pub run : ℕ → List Call → GreedyData → Option (GreedyData × List Node)
  run fuel [] gd = some (gd, [])
  run fuel (add rq ∷ cs) gd = elim (greedy_add_request rs k fuel rq gd) [
    | none ↦ none
    | some gd' ↦ run fuel cs gd'
  ]
  run fuel (dispatch ∷ cs) gd =
      let (gd', t) = greedy_dispatch rs k gd in
      elim (run fuel cs gd') [ none ↦ none | some (e, ts) ↦ some (e, given t ts) ]

-- Every request is added once, is a request and no queue's head, has a sector, and overlaps none that
-- was added before.
abbrev pub IsValid : Requests → (lower upper : Node) → List Node → List Call → Type 0
IsValid rs lo up past [] = Unit {0}
IsValid rs lo up past (add rq ∷ cs) =
    (rq ∉ (lo ∷ up ∷ past))
    × (rs.blk_rq_pos rq < rs.rq_end_sector rq)
    × (rs.rq_end_sector rq < 2 ^ 64)
    × All (Clear rs rq) past
    × IsValid rs lo up (rq ∷ past) cs
IsValid rs lo up past (dispatch ∷ cs) = IsValid rs lo up past cs

module _ (rs : Requests) (k : KernelList) where
  add-heads :
      (fuel : ℕ) (rq : Node) (gd gd' : GreedyData)
      → greedy_add_request rs k fuel rq gd ≡ some gd'
      → (gd'.lower_queue ≡ gd.lower_queue) × (gd'.upper_queue ≡ gd.upper_queue)
  unfolding greedy_add_request
  add-heads fuel rq gd gd' h = ground arith

  dispatch-heads :
      (gd : GreedyData)
      → ((greedy_dispatch rs k gd).0.lower_queue ≡ gd.lower_queue)
        × ((greedy_dispatch rs k gd).0.upper_queue ≡ gd.upper_queue)
  unfolding greedy_dispatch
  dispatch-heads gd = ground arith

  -- What a run leaves: the requests that waited and those that came are the dispatched ones and
  -- those that still wait.
  pub record Kept (fuel : ℕ) (cs : List Call) (gd : GreedyData) (s : Schedule) : Type 0 where
    pub end : GreedyData
    pub rest : Schedule
    pub served : List Node
    pub returns : run rs k fuel cs gd ≡ some (end, served)
    pub represents : Represents end rest
    pub placed : IsPlaced rs rest
    pub same : Perm (requests_of cs ++ waiting s) (served ++ waiting rest)

  none_waits :
      (m : Node) (s : Schedule) (past : List Node)
      → ((n : Node) → occurs n (waiting s) ≡ true → occurs n past ≡ true)
      → m ∉ past
      → (m ∉ s.upper) × (m ∉ s.lower)
  none_waits m s past sub out = ground (arith, occurs-append m s.upper s.lower, sub m)

  Perm-add :
      (rq : Node) (qs ws ws' : List Node) {ts : List Node}
      → Perm ws' (rq ∷ ws)
      → Perm (qs ++ ws') ts
      → Perm (rq ∷ (qs ++ ws)) ts
  Perm-add rq qs ws ws' p q =
      Perm.trans (Perm.symm (perm_middle qs ws)) (Perm.trans (Perm.append_left qs (Perm.symm p)) q)

  Perm-dispatch :
      (t : Option Node) (qs ws ws' ts us : List Node)
      → Taken t ws ws'
      → Perm (qs ++ ws') (ts ++ us)
      → Perm (qs ++ ws) (given t ts ++ us)
  Perm-dispatch none qs ws ws' ts us (e, f) q = rw e (rw f at q)
  Perm-dispatch (some t) qs ws ws' ts us p q =
      Perm.trans (Perm.append_left qs p) (Perm.trans (perm_middle qs ws') (Perm.cons t q))

  run-add :
      (fuel : ℕ) (rq : Node) (cs : List Call) (gd gd' : GreedyData) (end : GreedyData × List Node)
      → greedy_add_request rs k fuel rq gd ≡ some gd'
      → run rs k fuel cs gd' ≡ some end
      → run rs k fuel (add rq ∷ cs) gd ≡ some end
  unfolding run
  run-add fuel rq cs gd gd' end done rest = ground arith

  run-dispatch :
      (fuel : ℕ) (cs : List Call) (gd end : GreedyData) (ts : List Node)
      → run rs k fuel cs (greedy_dispatch rs k gd).0 ≡ some (end, ts)
      → run rs k fuel (dispatch ∷ cs) gd ≡ some (end, given (greedy_dispatch rs k gd).1 ts)
  unfolding run
  run-dispatch fuel cs gd end ts rest = ground arith

  Taken-occurs :
      (m : Node) (t : Option Node) (ws ws' : List Node)
      → Taken t ws ws'
      → occurs m ws' ≡ true
      → occurs m ws ≡ true
  Taken-occurs m none ws ws' (e, f) i = ground (arith, e, f)
  Taken-occurs m (some t) ws ws' p i = ground (arith, occurs-Perm m p)

  Taken-length : (t : Option Node) (ws ws' : List Node) → Taken t ws ws' → length ws' ≤ length ws
  Taken-length none ws ws' (e, f) = ground (arith, e, f)
  Taken-length (some t) ws ws' p = omega (arith, length-Perm p)

  Kept-add :
      (fuel : ℕ) (rq : Node) (cs : List Call) (gd gd' : GreedyData) (s s' : Schedule)
      → greedy_add_request rs k fuel rq gd ≡ some gd'
      → Perm (waiting s') (rq ∷ waiting s)
      → Kept fuel cs gd' s'
      → Kept fuel (add rq ∷ cs) gd s
  Kept-add fuel rq cs gd gd' s s' done perm ih = record {
    end = ih.end;
    rest = ih.rest;
    served = ih.served;
    returns = run-add fuel rq cs gd gd' (ih.end, ih.served) done ih.returns;
    represents = ih.represents;
    placed = ih.placed;
    same = Perm-add rq (requests_of cs) (waiting s) (waiting s') perm ih.same;
  }

  pub Kept-dispatch :
      (fuel : ℕ) (cs : List Call) (gd : GreedyData) (s s' : Schedule)
      → Taken (greedy_dispatch rs k gd).1 (waiting s) (waiting s')
      → (ih : Kept fuel cs (greedy_dispatch rs k gd).0 s')
      → (kept : Kept fuel (dispatch ∷ cs) gd s) × (kept.rest ≡ ih.rest)
  Kept-dispatch fuel cs gd s s' taken ih = (
    record {
      end = ih.end;
      rest = ih.rest;
      served = given (greedy_dispatch rs k gd).1 ih.served;
      returns = run-dispatch fuel cs gd ih.end ih.served ih.returns;
      represents = ih.represents;
      placed = ih.placed;
      same =
          Perm-dispatch (greedy_dispatch rs k gd).1 (requests_of cs) (waiting s) (waiting s')
            ih.served (waiting ih.rest) taken ih.same;
    },
    refl,
  )

  -- A valid run ends with fuel above the requests that wait and the calls that come.
  pub run-Kept :
      (fuel : ℕ) (cs : List Call) (past : List Node) (gd : GreedyData) (s : Schedule)
      → Represents gd s
      → IsPlaced rs s
      → IsValid rs gd.lower_queue gd.upper_queue past cs
      → ((m : Node) → occurs m (waiting s) ≡ true → occurs m past ≡ true)
      → length (waiting s) + length cs < fuel
      → Kept fuel cs gd s
  unfolding run
  run-Kept fuel [] past gd s r p v sub room = record {
    end = gd;
    rest = s;
    served = [];
    returns = refl;
    represents = r;
    placed = p;
    same = Perm.refl (waiting s);
  }
  run-Kept fuel (add rq ∷ cs) past gd s r p (out, size, small, clear, v) sub room =
      let apart = none_waits rq s past sub (ground arith) in
      let rq_clear =
        All-of (Clear rs rq) (waiting s) (λ m i. All-get (Clear rs rq) past m clear (sub m i)) in
      let few = length-append s.upper s.lower in
      let (gd', s', done, r', p', perm) =
        greedy_add_request-keeps k rs fuel rq gd s r p (ground arith) (omega (arith, few))
          (omega (arith, few)) size small rq_clear in
      let (lo, up) = add-heads fuel rq gd gd' done in
      let ih =
        run-Kept fuel cs (rq ∷ past) gd' s' r' p' (simp (lo, up) v)
          (λ m i. ground (arith, occurs-Perm m perm, sub m)) (omega (arith, length-Perm perm)) in
      Kept-add fuel rq cs gd gd' s s' done perm ih
  run-Kept fuel (dispatch ∷ cs) past gd s r p v sub room =
      let (s', r', p', taken) = greedy_dispatch-keeps k rs gd s r p in
      let (lo, up) = dispatch-heads gd in
      let ih =
        run-Kept fuel cs past (greedy_dispatch rs k gd).0 s' r' p' (simp (lo, up) v)
          (λ m i.
            sub m (Taken-occurs m (greedy_dispatch rs k gd).1 (waiting s) (waiting s') taken i))
          (omega
            (arith, Taken-length (greedy_dispatch rs k gd).1 (waiting s) (waiting s') taken)) in
      (Kept-dispatch fuel cs gd s s' taken ih).0
