-- ===== src/Triangles/Contents.antt =====
-- Reading the triangles back from a DMA buffer (Kyouko3_GrpahicsDriver/main.c, lines 96 to 138).
use os_spring.Common.{ℕ, zero, suc, ◌≡◌, refl, sym, ap, ◌∙◌, List, [], ◌∷◌, ◌++◌, length}
use mathlib.Core.List.{append_assoc, append-nil}
use os_spring.Triangles.Buffers.{
  Triangle, Filled, triples, fill_triangle, fill_triangles, no_triangles, dma_buffer,
}

-- nine words from a buffer, and the rest
pub record Nine : Type 0 where
  pub words : List ℕ
  pub rest : List ℕ

abbrev take_nine : List ℕ → Nine
take_nine (a ∷ b ∷ c ∷ d ∷ e ∷ f ∷ g ∷ h ∷ i ∷ ws) = record {
  words = a ∷ b ∷ c ∷ d ∷ e ∷ f ∷ g ∷ h ∷ i ∷ [];
  rest = ws;
}
take_nine ws = record { words = []; rest = [] }

-- `n` triangles: nine colours and nine coordinates of each
unfoldable pub read_triangles : ℕ → List ℕ → List (List ℕ × List ℕ)
read_triangles zero ws = []
read_triangles (suc n) ws =
    let colors = take_nine ws in
    let coords = take_nine colors.rest in
    (colors.words, coords.words) ∷ read_triangles n coords.rest

abbrev nine_of : (ℕ → ℕ) → List ℕ
nine_of f = f 0 ∷ f 1 ∷ f 2 ∷ f 3 ∷ f 4 ∷ f 5 ∷ f 6 ∷ f 7 ∷ f 8 ∷ []

abbrev pub all_components : List Triangle → List (List ℕ × List ℕ)
all_components [] = []
all_components (t ∷ ts) = (nine_of t.colors, nine_of t.coords) ∷ all_components ts

abbrev flat : List Triangle → List ℕ
flat [] = []
flat (t ∷ ts) = nine_of t.colors ++ (nine_of t.coords ++ flat ts)

fill_triangles-flat :
    (ts : List Triangle) (f : Filled) → (fill_triangles ts f).words ≡ f.words ++ flat ts
unfolding fill_triangles fill_triangle triples
fill_triangles-flat [] f = sym (append-nil f.words)
fill_triangles-flat (t ∷ ts) f =
    fill_triangles-flat ts (fill_triangle t f)
    ∙ append_assoc f.words (nine_of t.colors ++ nine_of t.coords) (flat ts)

read_triangles-flat :
    (ts : List Triangle) → read_triangles (length ts) (flat ts) ≡ all_components ts
unfolding read_triangles
read_triangles-flat [] = refl
read_triangles-flat (t ∷ ts) =
    ap (λ (l : List (List ℕ × List ℕ)). (nine_of t.colors, nine_of t.coords) ∷ l)
      (read_triangles-flat ts)

abbrev pub behind_header : List ℕ → List ℕ
behind_header [] = []
behind_header (w ∷ ws) = ws

-- Reading the words behind the header, nine for the colours and nine for the coordinates, gives back
-- the triangles that the buffer was filled with, in their order.
pub read_triangles-dma_buffer :
    (ts : List Triangle)
    → read_triangles (length ts) (behind_header (dma_buffer ts).0) ≡ all_components ts
unfolding dma_buffer
read_triangles-dma_buffer ts =
    ap (read_triangles (length ts)) (fill_triangles-flat ts no_triangles) ∙ read_triangles-flat ts
