-- ===== src/Sstf/Adding.antt =====
-- A new request that overlaps none keeps the queues in order (SSTF/greedy-iosched.c, lines 45 to 53).
use os_spring.Common.{
  ℕ, ◌^◌, ◌≤◌, ◌<◌, ◌≡◌, ◌⊎◌, inl, inr, refl, sym, some, List, [], ◌∷◌, ◌++◌, arith, ltb, length,
  Bool-cases,
}
use mathlib.Core.Path.{subst}
use mathlib.Core.List.{Perm}
use mathlib.Core.List.Perm
use os_spring.Sstf.Links.{Node, KernelList}
use os_spring.Sstf.Scheduler.{Requests, GreedyData, greedy_add_request}
use os_spring.Sstf.Insert.{insert}
use os_spring.Sstf.Schedule.{Schedule, add, All, IsPlaced, Spaced}
use os_spring.Sstf.Refine.{Represents, IsNew, add_refines}
use os_spring.Sstf.Spacing.{All-map}
use os_spring.Sstf.Nearest.{waiting}

-- whether a request is clear of another one
abbrev pub Clear : Requests → Node → Node → Type 0
Clear rs rq x = (rs.rq_end_sector rq ≤ rs.blk_rq_pos x) ⊎ (rs.rq_end_sector x ≤ rs.blk_rq_pos rq)

module _ (rs : Requests) (rq : Node) where
  open rs use {blk_rq_pos as pos, rq_end_sector as end}

  All-insert : (P : Node → Type 0) (xs : List Node) → P rq → All P xs → All P (insert rs rq xs)
  unfolding insert
  All-insert P [] h a = (h, tt)
  All-insert P (x ∷ xs) h a = elim (Bool-cases (ltb (pos x) (pos rq))) [
    | inl less ↦ rw less (h, a)
    | inr more ↦ rw more (a.0, All-insert P xs h a.1)
  ]

  Spaced-insert :
      (xs : List Node)
      → pos rq < end rq
      → All (Clear rs rq) xs
      → Spaced rs xs
      → Spaced rs (insert rs rq xs)
  unfolding insert
  Spaced-insert [] size c s = (size, tt, tt)
  Spaced-insert (x ∷ xs) size c s = elim (Bool-cases (ltb (pos x) (pos rq))) [
    | inl less ↦
        let ends : end x ≤ pos rq = ground arith in
        rw less (
          size,
          (ends, All-map (λ w. end w ≤ pos x) (λ w. end w ≤ pos rq) xs (λ w h. omega arith) s.1),
          s,
        )
    | inr more ↦
        let ends : end rq ≤ pos x = ground arith in
        rw more (s.0, All-insert (λ w. end w ≤ pos x) xs ends s.1, Spaced-insert xs size c.1 s.2)
  ]

  -- below every request of the upper queue the place is in the lower one
  insert-append_lower :
      (head : ℕ) (up lo : List Node)
      → pos rq < head
      → All (λ x. head ≤ pos x) up
      → insert rs rq (up ++ lo) ≡ up ++ insert rs rq lo
  unfolding insert
  insert-append_lower head [] lo h a = refl
  insert-append_lower head (x ∷ up) lo h a = ground (arith, insert-append_lower head up lo h a.1)

  -- and above every request of the lower queue it is in the upper one.
  insert-append_upper :
      (head : ℕ) (up lo : List Node)
      → head ≤ pos rq
      → All (λ x. pos x < head) lo
      → insert rs rq (up ++ lo) ≡ insert rs rq up ++ lo
  unfolding insert
  insert-append_upper head [] [] h a = refl
  insert-append_upper head [] (l ∷ lo) h a = ground arith
  insert-append_upper head (x ∷ up) lo h a = ground (arith, insert-append_upper head up lo h a)

  insert-Perm : (xs : List Node) → Perm (insert rs rq xs) (rq ∷ xs)
  unfolding insert
  insert-Perm [] = Perm.refl (rq ∷ [])
  insert-Perm (x ∷ xs) = elim (Bool-cases (ltb (pos x) (pos rq))) [
    | inl less ↦ rw less (Perm.refl (rq ∷ x ∷ xs))
    | inr more ↦ rw more (Perm.trans (Perm.cons x (insert-Perm xs)) (Perm.swap rq x xs))
  ]

  waiting-add :
      (s : Schedule)
      → All (λ x. pos x < s.head) s.lower
      → All (λ x. s.head ≤ pos x) s.upper
      → waiting (add rs rq s) ≡ insert rs rq (waiting s)
  unfolding add
  waiting-add s b a = ground (
    arith,
    λ (h : pos rq < s.head). insert-append_lower s.head s.upper s.lower h a,
    λ (h : s.head ≤ pos rq). insert-append_upper s.head s.upper s.lower h b,
  )

  -- The request goes to its side of the head, which stays.
  add_sides :
      (s : Schedule)
      → All (λ x. pos x < s.head) s.lower
      → All (λ x. s.head ≤ pos x) s.upper
      → let s' = add rs rq s in
        All (λ x. pos x < s.head) s'.lower × All (λ x. s.head ≤ pos x) s'.upper × (s'.head ≡ s.head)
  unfolding add
  add_sides s b a = elim (Bool-cases (ltb (pos rq) s.head)) [
    | inl low ↦ rw low (All-insert (λ x. pos x < s.head) s.lower (ground arith) b, a, refl)
    | inr high ↦ rw high (b, All-insert (λ x. s.head ≤ pos x) s.upper (ground arith) a, refl)
  ]

  pub add-IsPlaced :
      (s : Schedule)
      → pos rq < end rq
      → end rq < 2 ^ 64
      → All (Clear rs rq) (waiting s)
      → IsPlaced rs s
      → IsPlaced rs (add rs rq s)
  add-IsPlaced s size small clear p =
      let same = waiting-add s p.below p.above in
      let (below, above, head) = add_sides s p.below p.above in
      record {
        spaced = subst (Spaced rs) (sym same) (Spaced-insert (waiting s) size clear p.spaced);
        below = rw head below;
        above = rw head above;
        small = rw head p.small;
        sectors =
            subst (All (λ x. end x < 2 ^ 64)) (sym same)
              (All-insert (λ x. end x < 2 ^ 64) (waiting s) small p.sectors);
      }

-- From two queues in order, with fuel above their lengths, `greedy_add_request` ends for every new
-- request that overlaps none of those waiting; it adds that request to them, and leaves the queues in
-- order.
pub greedy_add_request-keeps :
    (k : KernelList) (rs : Requests) (fuel : ℕ) (rq : Node) (gd : GreedyData) (s : Schedule)
    → Represents gd s
    → IsPlaced rs s
    → IsNew rq gd s
    → length s.lower < fuel
    → length s.upper < fuel
    → rs.blk_rq_pos rq < rs.rq_end_sector rq
    → rs.rq_end_sector rq < 2 ^ 64
    → All (Clear rs rq) (waiting s)
    → (gd' : GreedyData) × (s' : Schedule) × (greedy_add_request rs k fuel rq gd ≡ some gd')
      × Represents gd' s'
      × IsPlaced rs s'
      × Perm (waiting s') (rq ∷ waiting s)
greedy_add_request-keeps k rs fuel rq gd s r p new lo up size small clear =
    let (gd', done, r') = add_refines k rs fuel rq gd s r new lo up in
    (
      gd',
      add rs rq s,
      done,
      r',
      add-IsPlaced rs rq s size small clear p,
      subst (λ l. Perm l (rq ∷ waiting s)) (sym (waiting-add rs rq s p.below p.above))
          (insert-Perm rs rq (waiting s)),
    )
