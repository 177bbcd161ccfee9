-- ===== src/Kyouko3/Mapping.antt =====
-- The pages that `kyouko3_mmap` maps, and the addresses of the registers
-- (Kyouko3_GrpahicsDriver/mymod.c, lines 51 to 86, 141 to 150 and 416 to 453).
use os_spring.Common.{
  ℕ, ◌+◌, ◌-◌, ◌*◌, ◌/◌, ◌%◌, ◌<◌, ◌≤◌, ◌≡◌, ◌≢◌, refl, ap, Option, none, some, List, [], ◌∷◌,
  arith, length, get_elem?, get_or, suc, zero, sym, ◌∙◌, ◌==◌, if◌then◌else◌,
}
use os_spring.Kyouko3.Register.{
  Register, offset, device_vram, fifo_start, fifo_end, fifo_head, fifo_tail, frame_columns,
  frame_rows, frame_row_pitch, frame_pixel_format, frame_start_address, encoder_width,
  encoder_height, encoder_offset_x, encoder_offset_y, encoder_frame, config_acceleration,
  config_mode_set, config_interrupt, interrupt_status, buffer_a_address, buffer_a_config,
  draw_clear_color4f_blue, draw_clear_color4f_green, draw_clear_color4f_red,
  draw_clear_color4f_alpha, raster_clear,
}
use os_spring.Kyouko3.State.{
  Kyouko3, Effect, buffer, no_buffer, perform, register_address, control_size,
}
use os_spring.Kyouko3.Dma.{page_size}
use os_spring.Kyouko3.Files.{mapped_page, kyouko3_mmap}

get_elem?-eq-get_or {ℓ} :
    {A : Type ℓ} (xs : List A) (i : ℕ) (d : A)
    → i < length xs
    → get_elem? xs i ≡ some (get_or xs i d)
get_elem?-eq-get_or [] i d h = absurd (omega arith)
get_elem?-eq-get_or (x ∷ xs) zero d h = refl
get_elem?-eq-get_or (x ∷ xs) (suc i) d h = get_elem?-eq-get_or xs i d (omega arith)

get_elem?-none {ℓ} : {A : Type ℓ} (xs : List A) (i : ℕ) → length xs ≤ i → get_elem? xs i ≡ none
get_elem?-none [] i h = refl
get_elem?-none (x ∷ xs) zero h = absurd (omega arith)
get_elem?-none (x ∷ xs) (suc i) h = get_elem?-none xs i (omega arith)

-- the page of a buffer, as the card addresses it
abbrev buffer_page : Kyouko3 → ℕ → ℕ
buffer_page s i = (buffer s i).p_base / page_size

-- the call that maps pages from `pfn` on
abbrev pub maps : (pfn status : ℕ) → Kyouko3 → Option (Kyouko3 × ℕ)
maps pfn status s = some (perform (Effect.io_remap_pfn_range pfn) s, status)

-- For root `mmap` maps the registers at page offset 0, the card's memory at 0x80000, and the `i`th of
-- the eight DMA buffers at the offset by which `bind_dma` asks for it, the `i + 1`st page.
mmap_maps :
    (s : Kyouko3) (status i : ℕ)
    → length s.dma_buffers ≡ 8
    → i < 8
    → (kyouko3_mmap 0 0 status s ≡ maps (s.p_control_base / page_size) status s)
      × (kyouko3_mmap 0 0x80000 status s ≡ maps (s.p_ram_card_base / page_size) status s)
      × (kyouko3_mmap 0 ((i + 1) * page_size / page_size) status s
          ≡ maps (buffer_page s i) status s)
unfolding kyouko3_mmap mapped_page
mmap_maps s status i size h = (
  refl,
  refl,
  ground (arith, get_elem?-eq-get_or s.dma_buffers i no_buffer (omega (arith, size))),
)

-- For root, with eight buffers, any page offset from 9 to 0xfffff other than that of the card's memory
-- reads outside of the array of buffers.
pub mmap_reads_outside :
    (s : Kyouko3) (status vm_pgoff : ℕ)
    → length s.dma_buffers ≡ 8
    → 8 < vm_pgoff
    → vm_pgoff < 0x100000
    → vm_pgoff ≢ 0x80000
    → kyouko3_mmap 0 vm_pgoff status s ≡ none
unfolding kyouko3_mmap mapped_page
mmap_reads_outside s status p size h k ne =
    ground (arith, get_elem?-none s.dma_buffers (p - 1) (omega (arith, size)))

-- Another user's `mmap` maps nothing, and reports success all the same.
mmap_needs_root :
    (s : Kyouko3) (uid vm_pgoff status : ℕ)
    → uid ≢ 0
    → kyouko3_mmap uid vm_pgoff status s ≡ some (s, 0)
unfolding kyouko3_mmap
mmap_needs_root s uid p status h = ground arith

offset-aligned : (r : Register) → (offset r % 4 ≡ 0) × (offset r < control_size)
offset-aligned device_vram = omega arith
offset-aligned _ = omega arith

registers : List Register
registers =
    device_vram ∷ fifo_start ∷ fifo_end ∷ fifo_head ∷ fifo_tail ∷ frame_columns ∷ frame_rows
    ∷ frame_row_pitch ∷ frame_pixel_format ∷ frame_start_address ∷ encoder_width ∷ encoder_height
    ∷ encoder_offset_x ∷ encoder_offset_y ∷ encoder_frame ∷ config_acceleration ∷ config_mode_set
    ∷ config_interrupt ∷ interrupt_status ∷ buffer_a_address ∷ buffer_a_config
    ∷ draw_clear_color4f_blue ∷ draw_clear_color4f_green ∷ draw_clear_color4f_red
    ∷ draw_clear_color4f_alpha ∷ raster_clear ∷ []

find_register : ℕ → List Register → Option Register
find_register n [] = none
find_register n (r ∷ rs) = if offset r == n then some r else find_register n rs

find_register-offset : (r : Register) → find_register (offset r) registers ≡ some r
unfolding find_register registers
find_register-offset device_vram = refl
find_register-offset _ = refl

some_inj : {q r : Register} → some q ≡ some r → q ≡ r
some_inj h = cc

-- A register's word stands at its offset from the base, inside the 64 KiB of the control window.
register_in_window :
    (s : Kyouko3) (r : Register)
    → (register_address s (offset r) ≡ s.k_control_base + offset r) × (offset r + 4 ≤ control_size)
register_in_window s r = (omega (arith, offset-aligned r), omega (arith, offset-aligned r))

-- No two registers share a word: `k_control_base + (reg >> 2)` tells them apart.
register_address_inj :
    (s : Kyouko3) (q r : Register)
    → register_address s (offset q) ≡ register_address s (offset r)
    → q ≡ r
register_address_inj s q r e =
    let same : offset q ≡ offset r = omega (arith, offset-aligned r, offset-aligned q) in
    some_inj (
      sym (find_register-offset q)
      ∙ ap (λ (n : ℕ). find_register n registers) same
      ∙ find_register-offset r)
