-- ===== src/Sstf/Insert.antt =====
-- `greedy_add_request` puts a request behind the last one of a lower position, and touches nothing
-- else (SSTF/greedy-iosched.c, lines 45 to 53).
use os_spring.Common.{
  ℕ, zero, suc, ◌<◌, ◌≡◌, ◌≢◌, ◌∙◌, true, false, some, List, [], ◌∷◌, arith, ◌==◌, ltb,
  if◌then◌else◌, length, Bool-cases, inl, inr,
}
use os_spring.Sstf.Links.{Node, Links, KernelList}
use os_spring.Sstf.Scheduler.{Requests, reverse_search}
use os_spring.Sstf.Segment.{◌∉◌, Distinct, Back, Back-frame}

-- A queue from its last request back, with a request put in its place.
unfoldable pub insert : Requests → Node → List Node → List Node
insert rs rq [] = rq ∷ []
insert rs rq (x ∷ xs) =
    if ltb (rs.blk_rq_pos x) (rs.blk_rq_pos rq) then rq ∷ x ∷ xs else x ∷ insert rs rq xs

-- `g` is `l` with `rq` put into the segment.
pub record Inserted (rs : Requests) (rq b : Node) (xs : List Node) (a : Node) (l g : Links)
    : Type 0 where
  pub segment : Back g b (insert rs rq xs) a
  pub next : (m : Node) → m ∉ (rq ∷ a ∷ xs) → g.next m ≡ l.next m
  pub prev : (m : Node) → m ∉ (rq ∷ b ∷ xs) → g.prev m ≡ l.prev m

module _ (k : KernelList) (rs : Requests) where
  -- at the end of the loop
  add-nil :
      (rq b a : Node) (l : Links)
      → rq ≢ a
      → rq ≢ b
      → Back l b [] a
      → Inserted rs rq b [] a l (k.list_add rq a l)
  unfolding insert
  add-nil rq b a l na nb (e, f) = record {
    segment = ground (
      arith,
      k.next-add rq a l a,
      k.next-add rq a l rq,
      k.prev-add rq a l b,
      k.prev-add rq a l rq,
    );
    next = λ m h. ground (arith, k.next-add rq a l m);
    prev = λ m h. ground (arith, k.prev-add rq a l m);
  }

  -- where the loop breaks
  add-cons :
      (rq b a x : Node) (xs : List Node) (l : Links)
      → rq ∉ (a ∷ b ∷ x ∷ xs)
      → b ∉ (x ∷ xs)
      → a ∉ (x ∷ xs)
      → x ∉ xs
      → ltb (rs.blk_rq_pos x) (rs.blk_rq_pos rq) ≡ true
      → Back l b (x ∷ xs) a
      → Inserted rs rq b (x ∷ xs) a l (k.list_add rq x l)
  unfolding insert
  add-cons rq b a x xs l out nb na nx lt (e, f, rest) = record {
    segment = rw lt (
      ground (arith, k.prev-add rq x l b),
      ground (arith, k.next-add rq x l rq),
      (
        ground (arith, k.prev-add rq x l rq),
        ground (arith, k.next-add rq x l x),
        Back-frame l (k.list_add rq x l) x xs a (λ m i. ground (arith, k.next-add rq x l m))
            (λ m i. ground (arith, k.prev-add rq x l m)) rest,
      ),
    );
    next = λ m h. ground (arith, k.next-add rq x l m);
    prev = λ m h. ground (arith, k.prev-add rq x l m);
  }

  -- The loop ends within as many rounds as there are requests, and one; what `list_add` then does is
  -- to put the request in its place.
  pub reverse_search-Inserted :
      (fuel : ℕ) (rq b a : Node) (xs : List Node) (l : Links)
      → length xs < fuel
      → rq ∉ (a ∷ b ∷ xs)
      → b ∉ xs
      → a ∉ xs
      → Distinct xs
      → Back l b xs a
      → (pos : Node) × (reverse_search rs fuel a b rq l ≡ some pos)
        × Inserted rs rq b xs a l (k.list_add rq pos l)
  unfolding reverse_search insert
  reverse_search-Inserted zero rq b a xs l lt out nb na d seg = absurd (omega arith)
  reverse_search-Inserted (suc fuel) rq b a [] l lt out nb na d seg =
      (a, ground arith, add-nil rq b a l (ground arith) (ground arith) seg)
  reverse_search-Inserted (suc fuel) rq b a (x ∷ xs) l lt out nb na d (e, f, rest) =
      let away : (x == a) ≡ false = ground arith in
      elim (Bool-cases (ltb (rs.blk_rq_pos x) (rs.blk_rq_pos rq))) [
        | inl less ↦ (
          x,
          rw (e, away, less),
          add-cons rq b a x xs l (ground arith) nb na d.0 less (e, f, rest),
        )
        | inr more ↦
            let (pos, found, ins) =
              reverse_search-Inserted fuel rq x a xs l (omega arith) (ground arith) d.0
                (ground arith) d.1 rest in
            (
              pos,
              rw (e, away, more) found,
              record {
                segment =
                    rw more
                      (ins.prev b (ground arith) ∙ e, ins.next x (ground arith) ∙ f, ins.segment);
                next = λ m h. ins.next m (ground arith);
                prev = λ m h. ins.prev m (ground arith);
              },
            )
      ]
