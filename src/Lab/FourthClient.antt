-- ===== src/Lab/FourthClient.antt =====
-- The program that draws a triangle with the fourth lab's driver (mylab/lab4/user.c). An operation that
-- has the text of mylab/5lab/user.c is that of Lab.Client.
use os_spring.Common.{ℕ, not, ◌==◌, if◌then◌else◌, Option, none, some, List, [], ◌∷◌, ◌++◌}
use os_spring.Kyouko3.State.{FifoEntry, Bus}
use os_spring.Lab.Calls.{LabOpen, LabIoctl}
use os_spring.Lab.Third.{Third}
use os_spring.Lab.Fourth.{fourth_open, fourth_mmap, fourth_release, fourth_ioctl}
use os_spring.Lab.Client.{
  Coord, Color, VertexCoordColor, queue_fifo, set_vertex_buffer, set_color_buffer,
  triangle_vertices, queue_calls,
}

unfoldable fourth_set_vertex_buffer : Coord → List FifoEntry
unfolding set_vertex_buffer
fourth_set_vertex_buffer = set_vertex_buffer

unfoldable fourth_set_color_buffer : Color → List FifoEntry
unfolding set_color_buffer
fourth_set_color_buffer = set_color_buffer

-- One of the three stretches of `DrawTriangle` that set up a vertex and emit it, and all of them.
unfoldable fourth_emit_vertices : List VertexCoordColor → List FifoEntry
unfolding fourth_set_vertex_buffer fourth_set_color_buffer
fourth_emit_vertices [] = []
fourth_emit_vertices (v ∷ vs) =
    (fourth_set_vertex_buffer v.coord
      ++ (fourth_set_color_buffer v.color ++ (queue_fifo 0x3004 0 ∷ [])))
    ++ fourth_emit_vertices vs

-- what `DrawTriangle` queues: the same triangle
unfoldable fourth_draw_triangle : List FifoEntry
unfolding fourth_emit_vertices
fourth_draw_triangle =
    queue_fifo 0x3000 2
    ∷ (fourth_emit_vertices triangle_vertices ++ (queue_fifo 0x3000 0 ∷ queue_fifo 0x3FFC 0x0 ∷ []))

-- The calls of `ioctl` that `main` makes until the triangle is flushed.
unfoldable pub fourth_drawing_calls : (on first triangle : List Bus) → List LabIoctl
unfolding fourth_draw_triangle
fourth_drawing_calls on first triangle =
    LabIoctl.set_vmode 1 on
    ∷ LabIoctl.flush first
    ∷ (queue_calls fourth_draw_triangle ++ (LabIoctl.flush triangle ∷ []))

unfoldable pub fourth_run_calls : List LabIoctl → Third → Option Third
fourth_run_calls [] s = some s
fourth_run_calls (c ∷ cs) s = elim (fourth_ioctl c s) [
  | none ↦ none
  | some r ↦ fourth_run_calls cs r.0
]

-- `main`, from `open` to `close`; as in the last lab, a refused first mapping ends it at the read of
-- the memory's size. This driver turns the graphics off without a flush, so that no answer
-- of the card is asked for behind the triangle.
unfoldable pub fourth_main :
    LabOpen → Bus → (control frame : ℕ) → (on first triangle : List Bus) → Third → Option Third
unfolding fourth_run_calls fourth_drawing_calls
fourth_main answers bus control frame on first triangle s =
    let s = (fourth_open answers bus s).0 in
    let (s, refused) = fourth_mmap 0 control s in
    if not (refused == 0)
    then none
    else let s = (fourth_mmap 0x80000 frame s).0 in
      elim (fourth_run_calls (fourth_drawing_calls on first triangle) s) [
        | none ↦ none
        | some t ↦ elim (fourth_run_calls (LabIoctl.set_vmode 0 [] ∷ []) t) [
          | none ↦ none
          | some u ↦ some (fourth_release u).0
        ]
      ]
