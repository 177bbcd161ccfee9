-- ===== src/Lab/Drawn.antt =====
-- The commands of the lab program against those of Kyouko3_GrpahicsDriver/main.c
-- (mylab/5lab/user.c, lines 58 to 151).
use os_spring.Common.{ℕ, ◌≡◌, refl, sym, ap, ◌∙◌, List, [], ◌∷◌, ◌++◌, ◌==◌, if◌then◌else◌}
use mathlib.Core.List.{append_assoc}
use os_spring.Kyouko3.State.{FifoEntry}
use os_spring.Triangles.Commands.{Vertex, fifo_commands}
use os_spring.Triangles.Drawn.{
  Registers, load, loaded, drawn, values_of, all_values, drawn-fifo_commands,
}
use os_spring.Lab.Client.{
  VertexCoordColor, queue_fifo, set_vertex_buffer, set_color_buffer, emit_vertex, emit_vertices,
  draw_vertices,
}

-- The same vertex for `fifo_commands`: the card has the colours in the order blue, green, red, alpha.
abbrev as_vertex : VertexCoordColor → Vertex
as_vertex v = record {
  color = λ j.
      if j == 0
      then v.color.b
      else if j == 1
      then v.color.g
      else if j == 2
      then v.color.r
      else v.color.a;
  coordinate = λ j.
      if j == 0
      then v.coord.x
      else if j == 1
      then v.coord.y
      else if j == 2
      then v.coord.z
      else v.coord.w;
}

abbrev pub as_vertices : List VertexCoordColor → List Vertex
as_vertices [] = []
as_vertices (v ∷ vs) = as_vertex v ∷ as_vertices vs

drawn-emit_vertex :
    (v : VertexCoordColor) (es : List FifoEntry) (regs : Registers)
    → drawn (emit_vertex v ++ es) regs
      ≡ values_of (as_vertex v) ∷ drawn es (loaded (emit_vertex v) regs)
unfolding drawn emit_vertex set_vertex_buffer set_color_buffer
drawn-emit_vertex v es regs = refl

drawn-emit_vertices :
    (vs : List VertexCoordColor) (es : List FifoEntry) (regs : Registers)
    → ((r : Registers) → drawn es r ≡ [])
    → drawn (emit_vertices vs ++ es) regs ≡ all_values (as_vertices vs)
unfolding emit_vertices
drawn-emit_vertices [] es regs none = none regs
drawn-emit_vertices (v ∷ vs) es regs none =
    ap (λ (l : List FifoEntry). drawn l regs) (append_assoc (emit_vertex v) (emit_vertices vs) es)
    ∙ drawn-emit_vertex v (emit_vertices vs ++ es) regs
    ∙ ap (λ (l : List (List ℕ)). values_of (as_vertex v) ∷ l)
        (drawn-emit_vertices vs es (loaded (emit_vertex v) regs) none)

-- For any vertices, and whatever the registers hold before, a card that keeps the last value of each
-- register and takes a vertex at each emit draws the same vertices of `DrawTriangle`'s commands as of
-- those of `fifo_commands`, although the programs set coordinates and colours in another order.
pub drawn-draw_vertices :
    (vs : List VertexCoordColor) (regs : Registers)
    → drawn (draw_vertices vs) regs ≡ drawn (fifo_commands (as_vertices vs)) regs
unfolding drawn draw_vertices
drawn-draw_vertices vs regs =
    drawn-emit_vertices vs _ (load (queue_fifo 0x3000 2) regs) (λ r. refl)
    ∙ sym (drawn-fifo_commands (as_vertices vs) regs)
