-- ===== src/Lab/Filled.antt =====
-- The FIFO of the lab driver while it fills from the start of its memory (mylab/5lab/mymod.c,
-- lines 79 to 87 and 260 to 266).
use os_spring.Common.{
  ℕ, zero, suc, ◌+◌, ◌≤◌, ◌<◌, ◌≡◌, refl, sym, ap, ap₂, ◌∙◌, Option, none, some, List, [], ◌∷◌,
  ◌++◌, arith, length, set, length-set, length-append,
}
use mathlib.Core.Path.{subst}
use mathlib.Core.List.{append_assoc, append-nil}
use os_spring.Kyouko3.State.{FifoEntry}
use os_spring.Lab.Driver.{Lab, fifo_writes}
use os_spring.Lab.Overrun.{stored, lab_fifo_write-some}

module _ {ℓ} {A : Type ℓ} where
  abbrev pub take : ℕ → List A → List A
  take zero xs = []
  take (suc n) [] = []
  take (suc n) (x ∷ xs) = x ∷ take n xs

  take-set :
      (xs : List A) (n : ℕ) (v : A)
      → n < length xs
      → take (suc n) (set xs n v) ≡ take n xs ++ (v ∷ [])
  take-set [] n v h = absurd (omega arith)
  take-set (x ∷ xs) zero v h = refl
  take-set (x ∷ xs) (suc n) v h = ap (λ (l : List A). x ∷ l) (take-set xs n v (omega arith))

-- From the start of its memory, the FIFO holds these commands and no more.
pub record IsFilled (control : ℕ) (es : List FifoEntry) (s : Lab) : Type 0 where
  pub size : length s.fifo.entries ≡ 1024
  pub at : s.kv_control_base ≡ control
  pub head : s.fifo.head ≡ length es
  pub written : take (length es) s.fifo.entries ≡ es

stored-IsFilled :
    (control : ℕ) (es : List FifoEntry) (e : FifoEntry) (s : Lab)
    → IsFilled control es s
    → length es < 1024
    → IsFilled control (es ++ (e ∷ [])) (stored e.command e.value s)
stored-IsFilled control es e s f lt =
    let more : length (es ++ (e ∷ [])) ≡ suc (length es) =
      omega (arith, length-append es (e ∷ [])) in
    record {
      size = length-set s.fifo.entries s.fifo.head e ∙ f.size;
      at = f.at;
      head = omega (arith, more, f.head);
      written =
          ap₂ (λ (n : ℕ) (h : ℕ). take n (set s.fifo.entries h e)) more f.head
          ∙ take-set s.fifo.entries (length es) e (omega (arith, f.size))
          ∙ ap (λ (l : List FifoEntry). l ++ (e ∷ [])) f.written;
    }

pub fifo_writes-IsFilled :
    (control : ℕ) (es ds : List FifoEntry) (s : Lab)
    → IsFilled control es s
    → length es + length ds ≤ 1024
    → (t : Lab) × (fifo_writes ds s ≡ some t)
      × IsFilled control (es ++ ds) t
      × (t.fifo.tail ≡ s.fifo.tail)
unfolding fifo_writes
fifo_writes-IsFilled control es [] s f le =
    (s, refl, subst (λ l. IsFilled control l s) (sym (append-nil es)) f, refl)
fifo_writes-IsFilled control es (d ∷ ds) s f le =
    let u = stored d.command d.value s in
    let first = lab_fifo_write-some d.command d.value s f.size (omega (arith, f.head)) in
    let (t, rest, g, same) =
      fifo_writes-IsFilled control (es ++ (d ∷ [])) ds u
        (stored-IsFilled control es d s f (omega arith))
        (omega (arith, length-append es (d ∷ []))) in
    (
      t,
      ap
            (λ (o : Option Lab). elim o as (λ _. Option Lab) [
              | none ↦ none
              | some v ↦ fifo_writes ds v
            ])
            first
          ∙ rest,
      subst (λ l. IsFilled control l t) (append_assoc es (d ∷ []) ds) g,
      same,
    )
