-- ===== src/Triangles/Commands.antt =====
-- A triangle through the FIFO (Kyouko3_GrpahicsDriver/main.c, lines 41 to 70), and what the card
-- reads of it.
use os_spring.Common.{
  ℕ, zero, suc, ◌+◌, ◌-◌, ◌*◌, ◌%◌, ◌≤◌, ◌≡◌, refl, ap, List, [], ◌∷◌, ◌++◌, arith, length,
  length-append,
}
use os_spring.Kyouko3.Register.{
  code, vertex_color, vertex_coordinate, command_primitive, vertex_emit, raster_flush,
}
use os_spring.Kyouko3.State.{Kyouko3, FifoEntry}
use os_spring.Kyouko3.Graphics.{fifo_queue}
use os_spring.Kyouko3.Queue.{IsFifo, window, write_all, card_reads}

abbrev entry : ℕ → ℕ → FifoEntry
entry command value = record { command = command; value = value }

-- The bit patterns of a vertex: four of its colour and four of its coordinates.
pub record Vertex : Type 0 where
  pub color : ℕ → ℕ
  pub coordinate : ℕ → ℕ

-- `for(j = 0; j < 4; ++j) u_fifo_queue(fd, base + j * 4, ...)` from `j` on.
unfoldable pub components : (base : ℕ) → (values : ℕ → ℕ) → (rounds j : ℕ) → List FifoEntry
components base values zero j = []
components base values (suc rounds) j =
    entry (base + j * 4) (values j) ∷ components base values rounds (j + 1)

unfoldable pub vertex_commands : Vertex → List FifoEntry
vertex_commands v =
    components (code vertex_color) v.color 4 0
    ++ (components (code vertex_coordinate) v.coordinate 4 0 ++ (entry (code vertex_emit) 0 ∷ []))

unfoldable pub vertices : List Vertex → List FifoEntry
vertices [] = []
vertices (v ∷ vs) = vertex_commands v ++ vertices vs

-- What `fifo_commands` queues before it flushes.
unfoldable pub fifo_commands : List Vertex → List FifoEntry
fifo_commands vs =
    entry (code command_primitive) 1
    ∷ (vertices vs ++ (entry (code command_primitive) 0 ∷ entry (code raster_flush) 0 ∷ []))

-- The calls of `u_fifo_queue` in order, each an `ioctl` whose copy succeeds.
unfoldable pub queue_all : List FifoEntry → Kyouko3 → Kyouko3
queue_all [] s = s
queue_all (e ∷ es) s = queue_all es (fifo_queue 0 e s).0

queue_all-eq-write_all : (es : List FifoEntry) (s : Kyouko3) → queue_all es s ≡ write_all es s
unfolding queue_all write_all fifo_queue
queue_all-eq-write_all [] s = refl
queue_all-eq-write_all (e ∷ es) s = queue_all-eq-write_all es _

length-components :
    (base : ℕ) (values : ℕ → ℕ) (rounds j : ℕ) → length (components base values rounds j) ≡ rounds
unfolding components
length-components base values zero j = refl
length-components base values (suc rounds) j = ap suc (length-components base values rounds (j + 1))

length-vertex_commands : (v : Vertex) → length (vertex_commands v) ≡ 9
unfolding vertex_commands components
length-vertex_commands v = refl

length-vertices : (vs : List Vertex) → length (vertices vs) ≡ 9 * length vs
unfolding vertices
length-vertices [] = refl
length-vertices (v ∷ vs) = omega (
  arith,
  length-append (vertex_commands v) (vertices vs),
  length-vertex_commands v,
  length-vertices vs,
)

length-fifo_commands : (vs : List Vertex) → length (fifo_commands vs) ≡ 9 * length vs + 3
unfolding fifo_commands
length-fifo_commands vs = omega (
  arith,
  length-append (vertices vs) (entry (code command_primitive) 0 ∷ entry (code raster_flush) 0 ∷ []),
  length-vertices vs,
)

-- From an empty FIFO the card reads the program's commands, all of them and in order, for up to 113
-- vertices between two flushes; the program's triangle has three.
pub triangle_reaches_card :
    (vs : List Vertex) (s : Kyouko3) (tail : ℕ)
    → IsFifo s
    → s.fifo.head ≡ tail
    → length vs ≤ 113
    → let f = (queue_all (fifo_commands vs) s).fifo in
      window f.entries tail ((f.head + 1024 - tail) % 1024) ≡ fifo_commands vs
triangle_reaches_card vs s tail v empty few =
    rw (queue_all-eq-write_all (fifo_commands vs) s)
      (card_reads (fifo_commands vs) s tail v empty (omega (arith, length-fifo_commands vs)))
