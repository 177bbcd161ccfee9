-- ===== src/Lab/Client.antt =====
-- The program that draws a triangle with the lab driver (mylab/5lab/user.c).
use os_spring.Common.{ℕ, not, ◌==◌, if◌then◌else◌, Option, none, some, List, [], ◌∷◌, ◌++◌}
use os_spring.Kyouko3.State.{FifoEntry, Bus}
use os_spring.Lab.Driver.{Lab}
use os_spring.Lab.Calls.{
  LabOpen, kyouko3fops_open, kyouko3fops_mmap, kyouko3fops_release, LabIoctl, kyouko3fops_ioctl,
}

-- The bit patterns of four floats each.
pub record Coord : Type 0 where
  pub x : ℕ
  pub y : ℕ
  pub z : ℕ
  pub w : ℕ

pub record Color : Type 0 where
  pub r : ℕ
  pub g : ℕ
  pub b : ℕ
  pub a : ℕ

pub record VertexCoordColor : Type 0 where
  pub coord : Coord
  pub color : Color

-- what `Queue_FIFO` hands to the driver
abbrev pub queue_fifo : ℕ → ℕ → FifoEntry
queue_fifo command value = record { command = command; value = value }

unfoldable pub set_vertex_buffer : Coord → List FifoEntry
set_vertex_buffer c =
    queue_fifo 0x5000 c.x
    ∷ queue_fifo 0x5004 c.y
    ∷ queue_fifo 0x5008 c.z
    ∷ queue_fifo 0x500C c.w
    ∷ []

unfoldable pub set_color_buffer : Color → List FifoEntry
set_color_buffer c =
    queue_fifo 0x5018 c.r
    ∷ queue_fifo 0x5014 c.g
    ∷ queue_fifo 0x5010 c.b
    ∷ queue_fifo 0x501C c.a
    ∷ []

-- One of the three stretches of `DrawTriangle` that set up a vertex and emit it.
unfoldable pub emit_vertex : VertexCoordColor → List FifoEntry
unfolding set_vertex_buffer set_color_buffer
emit_vertex v =
    set_vertex_buffer v.coord ++ (set_color_buffer v.color ++ (queue_fifo 0x3004 0 ∷ []))

unfoldable pub emit_vertices : List VertexCoordColor → List FifoEntry
unfolding emit_vertex
emit_vertices [] = []
emit_vertices (v ∷ vs) = emit_vertex v ++ emit_vertices vs

-- the entries that `DrawTriangle` queues, for any vertices
unfoldable pub draw_vertices : List VertexCoordColor → List FifoEntry
unfolding emit_vertices
draw_vertices vs =
    queue_fifo 0x3000 2 ∷ (emit_vertices vs ++ (queue_fifo 0x3000 0 ∷ queue_fifo 0x3FFC 0x0 ∷ []))

abbrev corner : (x y : ℕ) → (r g b : ℕ) → VertexCoordColor
corner x y r g b = record {
  coord = record { x = x; y = y; z = 0; w = 0x3f800000 };
  color = record { r = r; g = g; b = b; a = 0 };
}

-- the vertices at (-0.5, -0.5), (0.5, 0) and (0.125, 0.5), in red, green and blue
abbrev pub triangle_vertices : List VertexCoordColor
triangle_vertices =
    corner 0xbf000000 0xbf000000 0x3f800000 0 0
    ∷ corner 0x3f000000 0 0 0x3f800000 0
    ∷ corner 0x3e000000 0x3f000000 0 0 0x3f800000
    ∷ []

unfoldable pub draw_triangle : List FifoEntry
unfolding draw_vertices
draw_triangle = draw_vertices triangle_vertices

abbrev pub queue_calls : List FifoEntry → List LabIoctl
queue_calls [] = []
queue_calls (e ∷ es) = LabIoctl.queue 0 e ∷ queue_calls es

-- The calls of `ioctl` that `main` makes, for what the card answers to each flush. Every copy of an
-- entry succeeds.
unfoldable pub main_calls : (on first triangle off : List Bus) → List LabIoctl
unfolding draw_triangle
main_calls on first triangle off =
    LabIoctl.set_vmode 1 on
    ∷ LabIoctl.flush first
    ∷ (queue_calls draw_triangle ++ (LabIoctl.flush triangle ∷ LabIoctl.set_vmode 0 off ∷ []))

-- Calls in order, whose results the program does not look at.
unfoldable pub run_calls : List LabIoctl → Lab → Option Lab
run_calls [] s = some s
run_calls (c ∷ cs) s = elim (kyouko3fops_ioctl c s) [ none ↦ none | some r ↦ run_calls cs r.0 ]

-- `main`, from `open` to `close`, with the status of each mapping. The read of the memory's size goes
-- through the first one, and ends the program if the kernel refused it; what it reads is only printed.
-- `none`: the program does not come to its end, by that read or in a flush.
unfoldable pub user_main :
    LabOpen
    → Bus
    → (control frame : ℕ) → (on first triangle off closing : List Bus) → Lab
    → Option Lab
unfolding run_calls
user_main answers bus control frame on first triangle off closing s =
    let s = (kyouko3fops_open answers bus s).0 in
    let (s, refused) = kyouko3fops_mmap 0 control s in
    if not (refused == 0)
    then none
    else let s = (kyouko3fops_mmap 0x80000 frame s).0 in
      elim (run_calls (main_calls on first triangle off) s) [
        | none ↦ none
        | some t ↦ elim (kyouko3fops_release closing t) [ none ↦ none | some r ↦ some r.0 ]
      ]
