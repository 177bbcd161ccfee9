-- ===== src/Lab/Pixels.antt =====
-- The program that colours a row of the screen (mylab/lab3/user.c).
use os_spring.Common.{
  if_eq, if_ne, ◌>>=◌, Bool-cases, ℕ, zero, suc, ◌+◌, ◌-◌, ◌*◌, ◌≤◌, ◌<◌, ◌≡◌, refl, ap, ◌∙◌,
  Option, none, some, List, arith, ltb, if◌then◌else◌, ◌==◌, length, set, get_or, get_or-set_self,
  get_or-set_ne, length-set, ◌⊎◌, inl, inr, ◌≢◌,
}
use native.Mathlib.Decide.{ℕ_discrete}
use os_spring.Kyouko3.State.{FifoEntry, Bus}
use os_spring.Lab.Calls.{LabOpen, LabIoctl, queue, flush, set_vmode}
use os_spring.Lab.Third.{Third, third_open, third_mmap, third_ioctl, third_release}

-- `U_WRITE_FB` on the words of the mapped frame; `none` is a store behind it.
unfoldable write_fb : (i color : ℕ) → List ℕ → Option (List ℕ)
write_fb i color frame = if ltb i (length frame) then some (set frame i color) else none

-- the loop of `main` from the pixel `i`
unfoldable write_pixels : (rounds i color : ℕ) → List ℕ → Option (List ℕ)
unfolding write_fb
write_pixels zero i color frame = some frame
write_pixels (suc rounds) i color frame = elim (write_fb i color frame) [
  | none ↦ none
  | some painted ↦ write_pixels rounds (i + 1) color painted
]

unfoldable pub write_row : List ℕ → Option (List ℕ)
unfolding write_pixels
write_row frame = write_pixels (201 * 1024 - 200 * 1024) (200 * 1024) 0xff0000 frame

-- `command` of `main`, as `fifo_queue` reads its two halves: the number of `FIFO_QUEUE` is in the upper.
abbrev packed_entry : (fifo_queue : ℕ) → FifoEntry
packed_entry fifo_queue = record { command = 0x3; value = fifo_queue }

-- A call of `ioctl` whose value the program does not look at.
unfoldable third_call : LabIoctl → Third → Option Third
unfolding third_ioctl
third_call c s = elim (third_ioctl c s) [ none ↦ none | some r ↦ some r.0 ]

-- What `main` leaves: the driver, and the words of the frame.
record Row : Type 0 where
  driver : Third
  frame : List ℕ

-- `main`, from `open` to `close`, with the status of each mapping and the words of the frame. The read
-- of the memory's size goes through the first mapping, and the pixels go through the second: `none`
-- where the kernel refused the one that is used, or where a flush does not return.
unfoldable row_main :
    LabOpen
    → Bus
    → (control mapped fifo_queue : ℕ) → (on drawn off closing : List Bus) → List ℕ
    → Third
    → Option Row
unfolding third_call write_row third_open third_mmap third_release
row_main answers bus control mapped fifo_queue on drawn off closing frame s =
    let s = (third_open answers bus s).0 in
    let (s, refused) = third_mmap 0 control s in
    let (s, unmapped) = third_mmap 0x80000 mapped s in
    do
      s ← (if refused == 0 then some s else none)
      s ← third_call (set_vmode 1 on) s
      s ← (if unmapped == 0 then some s else none)
      frame ← write_row frame
      s ← third_call (queue 0 (packed_entry fifo_queue)) s
      s ← third_call (flush drawn) s
      s ← third_call (set_vmode 0 off) s
      (s, status) ← third_release closing s
      some (record { driver = s; frame = frame })

-- the frame with the pixels from `i` to before `j` in `color`
record Painted (i j color : ℕ) (frame painted : List ℕ) : Type 0 where
  pub size : length painted ≡ length frame
  pub inside : (k : ℕ) → i ≤ k → k < j → get_or painted k 0 ≡ color
  pub outside : (k : ℕ) → (k < i) ⊎ (j ≤ k) → get_or painted k 0 ≡ get_or frame k 0

write_fb-some :
    (i color : ℕ) (frame : List ℕ)
    → i < length frame
    → write_fb i color frame ≡ some (set frame i color)
unfolding write_fb
write_fb-some i color frame h = ground arith

write_pixels-Painted :
    (rounds i color : ℕ) (frame : List ℕ)
    → i + rounds ≤ length frame
    → (painted : List ℕ) × (write_pixels rounds i color frame ≡ some painted)
      × Painted i (i + rounds) color frame painted
unfolding write_pixels
write_pixels-Painted zero i color frame h = (
  frame,
  refl,
  record { size = refl; inside = λ k a b. absurd (omega arith); outside = λ k o. refl },
)
write_pixels-Painted (suc rounds) i color frame h =
    let first = set frame i color in
    let at_self : (k : ℕ) → k ≡ i → get_or first k 0 ≡ color =
      λ k e. ap (λ (n : ℕ). get_or first n 0) e ∙ get_or-set_self frame i color 0 (omega arith) in
    let narrow : (k : ℕ) → (k < i) ⊎ (i + suc rounds ≤ k) → (k < i + 1) ⊎ (i + 1 + rounds ≤ k) =
      λ k o. elim o [ inl l ↦ inl (omega arith) | inr r ↦ inr (omega arith) ] in
    let apart : (k : ℕ) → (k < i) ⊎ (i + suc rounds ≤ k) → i ≢ k =
      λ k o e. elim o [ inl l ↦ omega arith | inr r ↦ omega arith ] in
    let (painted, ran, p) =
      write_pixels-Painted rounds (i + 1) color first (omega (arith, length-set frame i color)) in
    (
      painted,
      ap
            (λ (o : Option (List ℕ)). elim o as (λ _. Option (List ℕ)) [
              | none ↦ none
              | some f ↦ write_pixels rounds (i + 1) color f
            ])
            (write_fb-some i color frame (omega arith))
          ∙ ran,
      record {
        size = p.size ∙ length-set frame i color;
        inside = λ k a b. elim (ℕ_discrete k i) [
          | yes e ↦ p.outside k (inl (omega arith)) ∙ at_self k e
          | no ne ↦ p.inside k (omega arith) (omega arith)
        ];
        outside = λ k o. p.outside k (narrow k o) ∙ get_or-set_ne frame i k color 0 (apart k o);
      },
    )

beside_row :
    (x y : ℕ)
    → x < 1024
    → y ≢ 200
    → (1024 * y + x < 200 * 1024) ⊎ (200 * 1024 + 1024 ≤ 1024 * y + x)
beside_row x y h ne = elim (Bool-cases (ltb y 200)) [
  | inl l ↦ inl (ground arith)
  | inr g ↦ inr (ground arith)
]

-- On a frame that holds the screen's 768 rows of 1024 pixels, every store of the loop is inside, and it
-- colours the whole of row 200 red and no pixel of another row.
pub write_row-paints :
    (frame : List ℕ) (x y : ℕ)
    → length frame ≡ 1024 * 768
    → x < 1024
    → (painted : List ℕ) × (write_row frame ≡ some painted)
      × (length painted ≡ 1024 * 768)
      × (get_or painted (1024 * y + x) 0
          ≡ (if y == 200 then 0xff0000 else get_or frame (1024 * y + x) 0))
unfolding write_row
write_row-paints frame x y size h =
    let (painted, ran, p) =
      write_pixels-Painted 1024 (200 * 1024) 0xff0000 frame (omega (arith, size)) in
    (
      painted,
      ran,
      p.size ∙ size,
      elim (ℕ_discrete y 200) [
        | yes e ↦ p.inside (1024 * y + x) (omega arith) (omega arith) ∙ if_eq _ _ y 200 e
        | no ne ↦ p.outside (1024 * y + x) (beside_row x y h ne) ∙ if_ne _ _ y 200 ne
      ],
    )
