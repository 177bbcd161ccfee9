-- ===== src/Sstf/Segment.antt =====
-- What the links of a queue stand for: its requests, from the last one back to the first.
use os_spring.Common.{◌≡◌, ◌∙◌, Bool, true, false, ◌||◌, List, [], ◌∷◌, arith, ◌==◌}
use os_spring.Sstf.Links.{Node, Links}

abbrev pub occurs : Node → List Node → Bool
occurs a [] = false
occurs a (x ∷ xs) = (a == x) || occurs a xs

infix 40 ◌∉◌
abbrev pub ◌∉◌ : Node → List Node → Type 0
a ∉ xs = occurs a xs ≡ false

abbrev pub Distinct : List Node → Type 0
Distinct [] = Unit {0}
Distinct (x ∷ xs) = (x ∉ xs) × Distinct xs

-- From `b` the `prev` fields lead through `xs` to `a`, and the `next` fields back.
abbrev pub Back : Links → Node → List Node → Node → Type 0
Back l b [] a = (l.prev b ≡ a) × (l.next a ≡ b)
Back l b (x ∷ xs) a = (l.prev b ≡ x) × (l.next x ≡ b) × Back l x xs a

-- the links of `g` and `l` agree outside of the nodes of a segment
pub record SameOutside (b : Node) (xs : List Node) (a : Node) (l g : Links) : Type 0 where
  pub next : (m : Node) → m ∉ (a ∷ xs) → g.next m ≡ l.next m
  pub prev : (m : Node) → m ∉ (b ∷ xs) → g.prev m ≡ l.prev m

-- A segment survives a change that spares the fields that it is made of.
pub Back-frame :
    (l g : Links) (b : Node) (xs : List Node) (a : Node)
    → ((m : Node) → occurs m (a ∷ xs) ≡ true → g.next m ≡ l.next m)
    → ((m : Node) → occurs m (b ∷ xs) ≡ true → g.prev m ≡ l.prev m)
    → Back l b xs a
    → Back g b xs a
Back-frame l g b [] a n p (e, f) = (p b (ground arith) ∙ e, n a (ground arith) ∙ f)
Back-frame l g b (x ∷ xs) a n p (e, f, rest) = (
  p b (ground arith) ∙ e,
  n x (ground arith) ∙ f,
  Back-frame l g x xs a (λ m i. n m (ground arith)) (λ m i. p m (ground arith)) rest,
)
