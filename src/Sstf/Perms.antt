-- ===== src/Sstf/Perms.antt =====
-- What a rearrangement keeps of a list of requests, in native numbers and Boolean tests.
use os_spring.Common.{suc, ◌≡◌, refl, ap, ◌∙◌, List, arith, length}
use mathlib.Core.Logic.{∥∥₁_elim}
use mathlib.Core.List.{Perm, Permᴰ}
use os_spring.Sstf.Links.{Node}
use os_spring.Sstf.Segment.{occurs}

lengthᴰ : {xs ys : List Node} → Permᴰ xs ys → length xs ≡ length ys
lengthᴰ Permᴰ.nil = refl
lengthᴰ (Permᴰ.cons e d) = ap suc (lengthᴰ d)
lengthᴰ (Permᴰ.swap e f) = refl
lengthᴰ (Permᴰ.trans d f) = lengthᴰ d ∙ lengthᴰ f

occursᴰ : (m : Node) {xs ys : List Node} → Permᴰ xs ys → occurs m xs ≡ occurs m ys
occursᴰ m Permᴰ.nil = refl
occursᴰ m (Permᴰ.cons e d) = ground (arith, e, occursᴰ m d)
occursᴰ m (Permᴰ.swap e f) = ground (arith, e, f)
occursᴰ m (Permᴰ.trans d f) = occursᴰ m d ∙ occursᴰ m f

pub length-Perm : {xs ys : List Node} → Perm xs ys → length xs ≡ length ys
length-Perm p = ∥∥₁_elim p (hlevel) lengthᴰ

pub occurs-Perm : (m : Node) {xs ys : List Node} → Perm xs ys → occurs m xs ≡ occurs m ys
occurs-Perm m p = ∥∥₁_elim p (hlevel) (λ d. occursᴰ m d)
