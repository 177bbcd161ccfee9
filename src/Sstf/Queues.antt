-- ===== src/Sstf/Queues.antt =====
-- Two queues in one memory: a change of one leaves the other alone
-- (SSTF/greedy-iosched.c, lines 8 to 53).
use os_spring.Common.{
  ℕ, ◌<◌, ◌≡◌, ◌≢◌, refl, sym, true, ◌||◌, List, [], ◌∷◌, ◌++◌, arith, ◌==◌, length, some,
}
use os_spring.Sstf.Links.{Node, Links, KernelList}
use os_spring.Sstf.Scheduler.{Requests, reverse_search}
use os_spring.Sstf.Segment.{occurs, ◌∉◌, Distinct, Back, Back-frame}
use os_spring.Sstf.Insert.{insert, reverse_search-Inserted}
use os_spring.Sstf.Remove.{del-Removed}

-- Heads `a` and `b`, with the requests of each queue from its last one back.
pub record TwoQueues (l : Links) (a : Node) (xs : List Node) (b : Node) (ys : List Node)
    : Type 0 where
  pub first : Back l a xs a
  pub second : Back l b ys b
  pub heads_differ : a ≢ b
  pub first_head : (a ∉ xs) × (b ∉ xs)
  pub second_head : (a ∉ ys) × (b ∉ ys)
  pub first_distinct : Distinct xs
  pub second_distinct : Distinct ys
  pub disjoint : (m : Node) → occurs m xs ≡ true → m ∉ ys

pub occurs-append :
    (m : Node) (xs ys : List Node) → occurs m (xs ++ ys) ≡ (occurs m xs || occurs m ys)
occurs-append m [] ys = refl
occurs-append m (x ∷ xs) ys = ground (arith, occurs-append m xs ys)

pub occurs-insert :
    (rs : Requests) (m rq : Node) (xs : List Node)
    → occurs m (insert rs rq xs) ≡ ((m == rq) || occurs m xs)
unfolding insert
occurs-insert rs m rq [] = refl
occurs-insert rs m rq (x ∷ xs) = ground (arith, occurs-insert rs m rq xs)

Distinct-insert :
    (rs : Requests) (rq : Node) (xs : List Node)
    → rq ∉ xs
    → Distinct xs
    → Distinct (insert rs rq xs)
unfolding insert
Distinct-insert rs rq [] out d = ground arith
Distinct-insert rs rq (x ∷ xs) out d =
    ground (arith, occurs-insert rs x rq xs, Distinct-insert rs rq xs)

pub Distinct-remove :
    (xs : List Node) (e : Node) (ys : List Node)
    → Distinct (xs ++ (e ∷ ys))
    → Distinct (xs ++ ys) × (e ∉ (xs ++ ys))
Distinct-remove [] e ys d = (d.1, d.0)
Distinct-remove (x ∷ xs) e ys d =
    ground (arith, Distinct-remove xs e ys d.1, occurs-append x xs (e ∷ ys), occurs-append x xs ys)

pub swap :
    {l : Links} {a b : Node} {xs ys : List Node} → TwoQueues l a xs b ys → TwoQueues l b ys a xs
swap q = record {
  first = q.second;
  second = q.first;
  heads_differ = λ e. q.heads_differ (sym e);
  first_head = (q.second_head.1, q.second_head.0);
  second_head = (q.first_head.1, q.first_head.0);
  first_distinct = q.second_distinct;
  second_distinct = q.first_distinct;
  disjoint = λ m i. ground (arith, q.disjoint m);
}

module _ (k : KernelList) (rs : Requests) (l : Links) (a b : Node) (xs ys : List Node) where
  -- A new request goes into its place of the first queue.
  pub TwoQueues-add :
      (fuel : ℕ) (rq : Node)
      → length xs < fuel
      → rq ∉ (a ∷ b ∷ xs)
      → rq ∉ ys
      → TwoQueues l a xs b ys
      → (pos : Node) × (reverse_search rs fuel a a rq l ≡ some pos)
        × TwoQueues (k.list_add rq pos l) a (insert rs rq xs) b ys
  TwoQueues-add fuel rq lt out apart q =
      let (pos, found, ins) =
        reverse_search-Inserted k rs fuel rq a a xs l lt (ground arith) q.first_head.0
          q.first_head.0 q.first_distinct q.first in
      (
        pos,
        found,
        record {
          first = ins.segment;
          second =
              Back-frame l (k.list_add rq pos l) b ys b
                (λ m i. ins.next m (ground (arith, q.disjoint m)))
                (λ m i. ins.prev m (ground (arith, q.disjoint m))) q.second;
          heads_differ = q.heads_differ;
          first_head =
              ground (arith, occurs-insert rs a rq xs, occurs-insert rs b rq xs, q.first_head);
          second_head = q.second_head;
          first_distinct = Distinct-insert rs rq xs (ground arith) q.first_distinct;
          second_distinct = q.second_distinct;
          disjoint = λ m i. ground (arith, occurs-insert rs m rq xs, q.disjoint m);
        },
      )

module _ (k : KernelList) (l : Links) (a b : Node) (us : List Node) (e : Node)
    (vs ys : List Node) where
  -- A request leaves the first queue.
  pub TwoQueues-del :
      TwoQueues l a (us ++ (e ∷ vs)) b ys → TwoQueues (k.list_del_init e l) a (us ++ vs) b ys
  TwoQueues-del q =
      let (d, out) = Distinct-remove us e vs q.first_distinct in
      let before = λ (m : Node). occurs-append m us (e ∷ vs) in
      let after = λ (m : Node). occurs-append m us vs in
      let rem =
        del-Removed k e a us vs a l (ground (arith, before a, after a, before e, out, q.first_head))
          (ground (arith, before a, after a, q.first_head))
          (ground (arith, before a, after a, q.first_head)) d q.first in
      record {
        first = rem.segment;
        second =
            Back-frame l (k.list_del_init e l) b ys b
              (λ m i. rem.next m (
                ground (
                  arith,
                  before m,
                  after m,
                  q.disjoint m,
                  q.second_head,
                  q.heads_differ,
                  before e,
                )))
              (λ m i. rem.prev m (
                ground (
                  arith,
                  before m,
                  after m,
                  q.disjoint m,
                  q.second_head,
                  q.heads_differ,
                  before e,
                )))
              q.second;
        heads_differ = q.heads_differ;
        first_head = ground (arith, before a, after a, before b, after b, q.first_head);
        second_head = q.second_head;
        first_distinct = d;
        second_distinct = q.second_distinct;
        disjoint = λ m i. ground (arith, before m, after m, q.disjoint m);
      }
