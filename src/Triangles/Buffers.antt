-- ===== src/Triangles/Buffers.antt =====
-- The DMA buffers that the user program fills (Kyouko3_GrpahicsDriver/main.c, lines 90 to 142).
use os_spring.Common.{
  ℕ, zero, suc, ◌+◌, ◌*◌, ◌/◌, ◌%◌, ◌^◌, ◌<◌, ◌≡◌, List, [], ◌∷◌, ◌++◌, arith, length,
  length-append,
}

-- `struct u_dma_header`, three bit fields of 14, 10 and 8 bits.
pub record DmaHeader : Type 0 where
  pub address : ℕ
  pub count : ℕ
  pub opcode : ℕ

-- The header as the word that is stored, the first field in the low bits.
unfoldable header_word : DmaHeader → ℕ
header_word h = h.address + h.count * 2 ^ 14 + h.opcode * 2 ^ 24

-- The bit patterns of the nine colours and nine coordinates of a triangle.
pub record Triangle : Type 0 where
  pub colors : ℕ → ℕ
  pub coords : ℕ → ℕ

-- One of the two loops over `k`, from `k` on: three words each.
unfoldable pub triples : (values : ℕ → ℕ) → (rounds k : ℕ) → List ℕ
triples values zero k = []
triples values (suc rounds) k =
    values (k * 3 + 0) ∷ values (k * 3 + 1) ∷ values (k * 3 + 2) ∷ triples values rounds (k + 1)

-- The loop over the triangles: the words behind the header, and the two counters. The header's count
-- is a field of ten bits.
pub record Filled : Type 0 where
  pub words : List ℕ
  pub count : ℕ
  pub byte_count : ℕ

unfoldable pub fill_triangle : Triangle → Filled → Filled
unfolding triples
fill_triangle t f = record {
  words = f.words ++ (triples t.colors 3 0 ++ triples t.coords 3 0);
  count = (f.count + 3) % 2 ^ 10;
  byte_count = f.byte_count + 72;
}

unfoldable pub fill_triangles : List Triangle → Filled → Filled
unfolding fill_triangle
fill_triangles [] f = f
fill_triangles (t ∷ ts) f = fill_triangles ts (fill_triangle t f)

abbrev pub no_triangles : Filled
no_triangles = record { words = []; count = 0; byte_count = 0 }

-- A whole buffer: its words, header first, and the byte count for `START_DMA`.
unfoldable pub dma_buffer : List Triangle → List ℕ × ℕ
unfolding header_word fill_triangles
dma_buffer ts =
    let f = fill_triangles ts no_triangles in
    (
      header_word (record { address = 0x1045; count = f.count; opcode = 0x14 }) ∷ f.words,
      f.byte_count,
    )

fill_triangles-words :
    (ts : List Triangle) (f : Filled)
    → length (fill_triangles ts f).words ≡ length f.words + 18 * length ts
unfolding fill_triangles
fill_triangles-words [] f = omega arith
fill_triangles-words (t ∷ ts) f = omega (
  arith,
  fill_triangles-words ts (fill_triangle t f),
  length-append f.words (triples t.colors 3 0 ++ triples t.coords 3 0),
)

fill_triangles-counts :
    (ts : List Triangle) (f : Filled)
    → f.count < 2 ^ 10
    → ((fill_triangles ts f).count ≡ (f.count + 3 * length ts) % 2 ^ 10)
      × ((fill_triangles ts f).byte_count ≡ f.byte_count + 72 * length ts)
unfolding fill_triangles
fill_triangles-counts [] f h = omega arith
fill_triangles-counts (t ∷ ts) f h =
    omega (arith, fill_triangles-counts ts (fill_triangle t f) (omega arith))

-- A buffer of `n` triangles holds the header and 18 words for each; its byte count is that of the
-- words behind the header.
pub dma_buffer_sizes :
    (ts : List Triangle)
    → let (words, byte_count) = dma_buffer ts in
      (length words ≡ 18 * length ts + 1)
      × (byte_count ≡ 72 * length ts)
      × (byte_count + 4 ≡ 4 * length words)
unfolding dma_buffer
dma_buffer_sizes ts = omega (
  arith,
  fill_triangles-words ts no_triangles,
  fill_triangles-counts ts no_triangles (omega arith),
)

abbrev pub first_word : List ℕ → ℕ
first_word [] = 0
first_word (w ∷ ws) = w

-- The ten bits of the header that count the vertices hold three for each triangle modulo 1024; the
-- bits below are the address 0x1045, and those above the opcode 0x14.
pub header_counts :
    (ts : List Triangle)
    → let word = first_word (dma_buffer ts).0 in
      ((word / 2 ^ 14) % 2 ^ 10 ≡ (3 * length ts) % 1024)
      × (word % 2 ^ 14 ≡ 0x1045)
      × (word / 2 ^ 24 ≡ 0x14)
unfolding dma_buffer
header_counts ts = omega (arith, fill_triangles-counts ts no_triangles (omega arith))
