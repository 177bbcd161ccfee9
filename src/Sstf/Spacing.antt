-- ===== src/Sstf/Spacing.antt =====
-- Requests that do not overlap, in order (for SSTF/greedy-iosched.c, lines 18 to 53).
use os_spring.Common.{
  ◌≤◌, ◌<◌, ◌≡◌, inl, inr, sym, true, List, [], ◌∷◌, ◌++◌, arith, ◌==◌, Bool-cases, ==_iff,
}
use mathlib.Core.Path.{subst}
use os_spring.Sstf.Links.{Node}
use os_spring.Sstf.Scheduler.{Requests}
use os_spring.Sstf.Segment.{occurs}
use os_spring.Sstf.Schedule.{All, Spaced}

pub All-get : (P : Node → Type 0) (xs : List Node) (m : Node) → All P xs → occurs m xs ≡ true → P m
All-get P [] m a i = cc
All-get P (x ∷ xs) m a i = elim (Bool-cases (m == x)) [
  | inl e ↦ subst P (sym ((==_iff m x).0 e)) a.0
  | inr ne ↦ All-get P xs m a.1 (ground arith)
]

pub All-append : (P : Node → Type 0) (xs ys : List Node) → All P (xs ++ ys) → All P xs × All P ys
All-append P [] ys a = (tt, a)
All-append P (x ∷ xs) ys a = let (b, c) = All-append P xs ys a.1 in ((a.0, b), c)

pub append-All : (P : Node → Type 0) (xs ys : List Node) → All P xs → All P ys → All P (xs ++ ys)
append-All P [] ys a b = b
append-All P (x ∷ xs) ys a b = (a.0, append-All P xs ys a.1 b)

pub All-map :
    (P Q : Node → Type 0) (xs : List Node) → ((x : Node) → P x → Q x) → All P xs → All Q xs
All-map P Q [] f a = tt
All-map P Q (x ∷ xs) f a = (f x a.0, All-map P Q xs f a.1)

module _ (rs : Requests) where
  open rs use {blk_rq_pos as pos, rq_end_sector as end}

  pub Spaced-append : (xs ys : List Node) → Spaced rs (xs ++ ys) → Spaced rs xs × Spaced rs ys
  Spaced-append [] ys s = (tt, s)
  Spaced-append (x ∷ xs) ys s =
      let (a, b) = Spaced-append xs ys s.2 in
      ((s.0, (All-append (λ y. end y ≤ pos x) xs ys s.1).0, a), b)

  -- Every request of a later part ends before one of an earlier part begins.
  pub Spaced-across :
      (xs ys : List Node) (x y : Node)
      → Spaced rs (xs ++ ys)
      → occurs x xs ≡ true
      → occurs y ys ≡ true
      → end y ≤ pos x
  Spaced-across [] ys x y s i j = cc
  Spaced-across (z ∷ xs) ys x y s i j = elim (Bool-cases (x == z)) [
    | inl e ↦
        let there =
          All-get (λ w. end w ≤ pos z) ys y (All-append (λ w. end w ≤ pos z) xs ys s.1).1 j in
        subst (λ v. end y ≤ pos v) (sym ((==_iff x z).0 e)) there
    | inr ne ↦ Spaced-across xs ys x y s.2 (ground arith) j
  ]

  pub Spaced-size : (xs : List Node) (x : Node) → Spaced rs xs → occurs x xs ≡ true → pos x < end x
  Spaced-size [] x s i = cc
  Spaced-size (z ∷ xs) x s i = elim (Bool-cases (x == z)) [
    | inl e ↦ subst (λ v. pos v < end v) (sym ((==_iff x z).0 e)) s.0
    | inr ne ↦ Spaced-size xs x s.2 (ground arith)
  ]

  -- Taking a request out leaves the others spaced.
  pub Spaced-remove :
      (xs : List Node) (e : Node) (ys : List Node)
      → Spaced rs (xs ++ (e ∷ ys))
      → Spaced rs (xs ++ ys)
  Spaced-remove [] e ys s = s.2
  Spaced-remove (x ∷ xs) e ys s =
      let (a, b) = All-append (λ w. end w ≤ pos x) xs (e ∷ ys) s.1 in
      (s.0, append-All (λ w. end w ≤ pos x) xs ys a b.1, Spaced-remove xs e ys s.2)
