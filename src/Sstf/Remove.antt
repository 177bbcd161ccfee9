-- ===== src/Sstf/Remove.antt =====
-- `list_del_init` takes one request out of its queue and touches nothing else
-- (SSTF/greedy-iosched.c, lines 15 and 40).
use os_spring.Common.{◌≡◌, ◌∙◌, List, [], ◌∷◌, ◌++◌, arith}
use os_spring.Sstf.Links.{Node, Links, KernelList}
use os_spring.Sstf.Segment.{◌∉◌, Distinct, Back, Back-frame}

-- `g` is `l` with `e` taken out between `xs` and `ys`.
pub record Removed (e b : Node) (xs ys : List Node) (a : Node) (l g : Links) : Type 0 where
  pub segment : Back g b (xs ++ ys) a
  pub next : (m : Node) → m ∉ (e ∷ a ∷ xs ++ ys) → g.next m ≡ l.next m
  pub prev : (m : Node) → m ∉ (e ∷ b ∷ xs ++ ys) → g.prev m ≡ l.prev m

module _ (k : KernelList) where
  del-nil :
      (e b : Node) (ys : List Node) (a : Node) (l : Links)
      → e ∉ (a ∷ b ∷ ys)
      → b ∉ ys
      → a ∉ ys
      → Distinct ys
      → Back l b (e ∷ ys) a
      → Removed e b [] ys a l (k.list_del_init e l)
  del-nil e b [] a l out nb na d (p, q, (r, s)) = record {
    segment = (ground (arith, k.prev-del e l b), ground (arith, k.next-del e l a));
    next = λ m h. ground (arith, k.next-del e l m);
    prev = λ m h. ground (arith, k.prev-del e l m);
  }
  del-nil e b (y ∷ ys) a l out nb na d (p, q, (r, s, rest)) = record {
    segment = (
      ground (arith, k.prev-del e l b),
      ground (arith, k.next-del e l y),
      Back-frame l (k.list_del_init e l) y ys a (λ m i. ground (arith, k.next-del e l m))
          (λ m i. ground (arith, k.prev-del e l m)) rest,
    );
    next = λ m h. ground (arith, k.next-del e l m);
    prev = λ m h. ground (arith, k.prev-del e l m);
  }

  pub del-Removed :
      (e b : Node) (xs ys : List Node) (a : Node) (l : Links)
      → e ∉ (a ∷ b ∷ xs ++ ys)
      → b ∉ (xs ++ ys)
      → a ∉ (xs ++ ys)
      → Distinct (xs ++ ys)
      → Back l b (xs ++ (e ∷ ys)) a
      → Removed e b xs ys a l (k.list_del_init e l)
  del-Removed e b [] ys a l out nb na d seg = del-nil e b ys a l out nb na d seg
  del-Removed e b (x ∷ xs) ys a l out nb na d (p, q, rest) =
      let rem = del-Removed e x xs ys a l (ground arith) d.0 (ground arith) d.1 rest in
      record {
        segment = (rem.prev b (ground arith) ∙ p, rem.next x (ground arith) ∙ q, rem.segment);
        next = λ m h. rem.next m (ground arith);
        prev = λ m h. rem.prev m (ground arith);
      }
