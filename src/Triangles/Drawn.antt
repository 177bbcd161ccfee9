-- ===== src/Triangles/Drawn.antt =====
-- Reading vertices back from the commands of Kyouko3_GrpahicsDriver/main.c, lines 46 to 70: a register
-- keeps its last value, and each `VertexEmit` takes a vertex of the values that the registers hold.
use os_spring.Common.{ℕ, ◌≡◌, refl, ap, ◌∙◌, List, [], ◌∷◌, ◌++◌, ◌==◌, if◌then◌else◌}
use mathlib.Core.List.{append_assoc}
use os_spring.Kyouko3.Register.{code, vertex_emit, command_primitive}
use os_spring.Kyouko3.State.{FifoEntry}
use os_spring.Triangles.Commands.{Vertex, components, vertex_commands, vertices, fifo_commands}

-- the registers, by their offsets
abbrev pub Registers : Type 0
Registers = ℕ → ℕ

abbrev pub load : FifoEntry → Registers → Registers
load e regs reg = if reg == e.command then e.value else regs reg

-- the four colour registers and the four coordinate registers
abbrev latched : Registers → List ℕ
latched regs =
    regs 0x5010
    ∷ regs 0x5014
    ∷ regs 0x5018
    ∷ regs 0x501C
    ∷ regs 0x5000
    ∷ regs 0x5004
    ∷ regs 0x5008
    ∷ regs 0x500C
    ∷ []

unfoldable pub drawn : List FifoEntry → Registers → List (List ℕ)
drawn [] regs = []
drawn (e ∷ es) regs =
    let rest = drawn es (load e regs) in
    if e.command == code vertex_emit then latched regs ∷ rest else rest

-- the eight values of a vertex, in the order of the registers
abbrev pub values_of : Vertex → List ℕ
values_of v =
    v.color 0
    ∷ v.color 1
    ∷ v.color 2
    ∷ v.color 3
    ∷ v.coordinate 0
    ∷ v.coordinate 1
    ∷ v.coordinate 2
    ∷ v.coordinate 3
    ∷ []

abbrev pub all_values : List Vertex → List (List ℕ)
all_values [] = []
all_values (v ∷ vs) = values_of v ∷ all_values vs

-- the registers behind a run of commands
abbrev pub loaded : List FifoEntry → Registers → Registers
loaded [] regs = regs
loaded (e ∷ es) regs = loaded es (load e regs)

drawn-vertex_commands :
    (v : Vertex) (es : List FifoEntry) (regs : Registers)
    → drawn (vertex_commands v ++ es) regs
      ≡ values_of v ∷ drawn es (loaded (vertex_commands v) regs)
unfolding drawn vertex_commands components
drawn-vertex_commands v es regs = refl

drawn-vertices :
    (vs : List Vertex) (es : List FifoEntry) (regs : Registers)
    → ((r : Registers) → drawn es r ≡ [])
    → drawn (vertices vs ++ es) regs ≡ all_values vs
unfolding vertices
drawn-vertices [] es regs none = none regs
drawn-vertices (v ∷ vs) es regs none =
    ap (λ (l : List FifoEntry). drawn l regs) (append_assoc (vertex_commands v) (vertices vs) es)
    ∙ drawn-vertex_commands v (vertices vs ++ es) regs
    ∙ ap (λ (l : List (List ℕ)). values_of v ∷ l)
        (drawn-vertices vs es (loaded (vertex_commands v) regs) none)

-- Whatever the registers held before, a card that keeps the last value of each register and takes a
-- vertex at each `VertexEmit` draws the vertices that `fifo_commands` was given, each with its own colour
-- and coordinate, in their order, and no others.
pub drawn-fifo_commands :
    (vs : List Vertex) (regs : Registers) → drawn (fifo_commands vs) regs ≡ all_values vs
unfolding drawn fifo_commands
drawn-fifo_commands vs regs =
    drawn-vertices vs _ (load (record { command = code command_primitive; value = 1 }) regs)
      (λ r. refl)
