-- ===== src/Kyouko3/Ring/Pending.antt =====
-- What lies in the queue of DMA buffers behind the one that the card works on.
use os_spring.Common.{
  ℕ, zero, suc, ◌+◌, ◌%◌, ◌<◌, ◌≤◌, ◌≡◌, refl, ap, ap₂, List, [], ◌∷◌, ◌++◌, arith, u32, get_or,
  set, get_or-set_ne, length,
}
use os_spring.Kyouko3.State.{DmaBuffer, no_buffer}

-- what a buffer's slot tells the card
abbrev pub entry : List DmaBuffer → ℕ → ℕ × ℕ
entry bs i = let b = get_or bs i no_buffer in (u32 b.p_base, b.stored_count)

-- The slots `drain + 1` to `drain + n`, going round at 8, newest first.
abbrev pub pending : List DmaBuffer → (drain n : ℕ) → List (ℕ × ℕ)
pending bs drain zero = []
pending bs drain (suc n) = entry bs ((drain + suc n) % 8) ∷ pending bs drain n

-- The oldest of them is the next slot of the ring.
pub pending-suc :
    (bs : List DmaBuffer) (drain n : ℕ)
    → pending bs drain (suc n) ≡ pending bs ((drain + 1) % 8) n ++ (entry bs ((drain + 1) % 8) ∷ [])
pending-suc bs drain zero = refl
pending-suc bs drain (suc n) = ap₂ ◌∷◌ (ap (entry bs) (omega arith)) (pending-suc bs drain n)

-- A store into another slot leaves them alone.
pub pending-set :
    (bs : List DmaBuffer) (drain n i : ℕ) (b : DmaBuffer)
    → n < 8
    → i ≡ (drain + suc n) % 8
    → (m : ℕ) → m ≤ n
    → pending (set bs i b) drain m ≡ pending bs drain m
pending-set bs drain n i b small e zero h = refl
pending-set bs drain n i b small e (suc m) h =
    ap₂ ◌∷◌
      (ap (λ (c : DmaBuffer). (u32 c.p_base, c.stored_count))
        (get_or-set_ne bs i ((drain + suc m) % 8) b no_buffer (omega arith)))
      (pending-set bs drain n i b small e m (omega arith))

pub length-pending : (bs : List DmaBuffer) (drain n : ℕ) → length (pending bs drain n) ≡ n
length-pending bs drain zero = refl
length-pending bs drain (suc n) = ap suc (length-pending bs drain n)
