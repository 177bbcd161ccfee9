-- ===== src/Kyouko3/Ring/Card.antt =====
-- The card's side of the FIFO: what it finds in the queue's memory between its own tail and the head
-- that it was last told (Kyouko3_GrpahicsDriver/mymod.c, lines 152 to 181).
use os_spring.Common.{
  ℕ, zero, suc, ◌+◌, ◌-◌, ◌*◌, ◌/◌, ◌%◌, ◌<◌, ◌≤◌, ◌≡◌, ◌≢◌, ◌⊎◌, inl, inr, refl, sym, ap, ap₂, ◌∙◌,
  List, [], ◌∷◌, ◌++◌, arith, ◌==◌, if◌then◌else◌, get_or, set, get_or-set_self, get_or-set_ne, u32,
}
use mathlib.Core.List.{append_assoc}
use os_spring.Kyouko3.Dma.{start_transfer}
use os_spring.Kyouko3.Register.{offset, buffer_a_address, buffer_a_config, fifo_head}
use os_spring.Kyouko3.State.{
  Kyouko3, FifoEntry, Effect, store_fifo, store_register, fifo_write, k_write_register,
}
use os_spring.Kyouko3.Queue.{
  IsFifo, no_entry, fifo_write-head, fifo_write-entries, fifo_write-IsFifo,
}
use os_spring.Kyouko3.Ring.{Transfer, transfers, last_address}

-- The address and the transfers that commands give, newest first.
unfoldable pub address_of : List FifoEntry → ℕ
address_of [] = 0
address_of (e ∷ es) =
    let rest = address_of es in if e.command == offset buffer_a_address then e.value else rest

unfoldable pub carried : List FifoEntry → List Transfer
unfolding address_of
carried [] = []
carried (e ∷ es) =
    if e.command == offset buffer_a_config
    then (address_of es, e.value) ∷ carried es
    else carried es

-- The commands that were stored, newest first.
unfoldable pub stored : List Effect → List FifoEntry
stored [] = []
stored (store_fifo reg value ∷ es) = record { command = reg; value = value } ∷ stored es
stored (_ ∷ es) = stored es

-- The last value written to the register at this address, and 0 before the first.
unfoldable pub register_value : ℕ → List Effect → ℕ
register_value address [] = 0
register_value address (store_register a value ∷ es) =
    if a == address then value else register_value address es
register_value address (_ ∷ es) = register_value address es

address_of-stored : (es : List Effect) → address_of (stored es) ≡ last_address es
unfolding stored address_of last_address
address_of-stored [] = refl
address_of-stored (store_fifo reg value ∷ es) = ground (arith, address_of-stored es)
address_of-stored (_ ∷ es) = address_of-stored es

pub carried-stored : (es : List Effect) → carried (stored es) ≡ transfers es
unfolding stored carried transfers
carried-stored [] = refl
carried-stored (store_fifo reg value ∷ es) = ground (arith, carried-stored es, address_of-stored es)
carried-stored (_ ∷ es) = carried-stored es

-- where `FifoHead` stands in a control window mapped here
abbrev pub head_address : ℕ → ℕ
head_address control = control + 4 * (offset fifo_head / 4)

-- The `n` entries from index `i` on, going round at 1024, newest first.
abbrev pub between : List FifoEntry → (i n : ℕ) → List FifoEntry
between entries i zero = []
between entries i (suc n) = get_or entries ((i + n) % 1024) no_entry ∷ between entries i n

pub between-suc :
    (entries : List FifoEntry) (i n : ℕ)
    → i < 1024
    → between entries i (suc n)
      ≡ between entries ((i + 1) % 1024) n ++ (get_or entries i no_entry ∷ [])
between-suc entries i zero h = ap (λ (j : ℕ). get_or entries j no_entry ∷ []) (omega arith)
between-suc entries i (suc n) h =
    ap₂ ◌∷◌ (ap (λ (j : ℕ). get_or entries j no_entry) (omega arith)) (between-suc entries i n h)

-- A store behind them leaves them alone.
pub between-set :
    (entries : List FifoEntry) (i j m : ℕ) (e : FifoEntry)
    → j ≡ (i + m) % 1024
    → m < 1024
    → (n : ℕ) → n ≤ m
    → between (set entries j e) i n ≡ between entries i n
between-set entries i j m e at small zero le = refl
between-set entries i j m e at small (suc n) le =
    ap₂ ◌∷◌ (get_or-set_ne entries j ((i + n) % 1024) e no_entry (omega arith))
      (between-set entries i j m e at small n (omega arith))

-- how far it is from the tail to the head
abbrev pub distance : (tail head : ℕ) → ℕ
distance tail head = (head + 1024 - tail) % 1024

-- The card has taken these commands, newest first, and its tail is here; what was stored since is in
-- the memory between its tail and the driver's head.
pub record Holds (control tail : ℕ) (taken : List FifoEntry) (s : Kyouko3) : Type 0 where
  pub fifo : IsFifo s
  pub window : s.k_control_base ≡ control
  pub tail_in : tail < 1024
  pub history : stored s.effects ≡ between s.fifo.entries tail (distance tail s.fifo.head) ++ taken

-- the commands that the card finds up to the head that it was told, and those that it has taken
abbrev pub visible : (control tail : ℕ) → List FifoEntry → Kyouko3 → List FifoEntry
visible control tail taken s =
    between s.fifo.entries tail (distance tail (register_value (head_address control) s.effects))
    ++ taken

-- The card was told of all commands about buffer A.
pub record Told (control tail : ℕ) (taken : List FifoEntry) (s : Kyouko3) : Type 0 where
  pub told_in : register_value (head_address control) s.effects < 1024
  pub behind :
      distance tail (register_value (head_address control) s.effects) ≤ distance tail s.fifo.head
  pub all_given : carried (visible control tail taken s) ≡ carried (stored s.effects)

-- Nothing was stored, and the card was told nothing or the head.
pub record SameFifo (control : ℕ) (s t : Kyouko3) : Type 0 where
  pub entries : t.fifo.entries ≡ s.fifo.entries
  pub head : t.fifo.head ≡ s.fifo.head
  pub window : t.k_control_base ≡ s.k_control_base
  pub log : stored t.effects ≡ stored s.effects
  pub told :
      (register_value (head_address control) t.effects
        ≡ register_value (head_address control) s.effects)
      ⊎ (register_value (head_address control) t.effects ≡ s.fifo.head)

fifo_write-stored :
    (reg value : ℕ) (s : Kyouko3)
    → stored (fifo_write reg value s).effects
      ≡ record { command = reg; value = value } ∷ stored s.effects
unfolding fifo_write stored
fifo_write-stored reg value s = refl

fifo_write-window :
    (reg value : ℕ) (s : Kyouko3) → (fifo_write reg value s).k_control_base ≡ s.k_control_base
unfolding fifo_write
fifo_write-window reg value s = refl

fifo_write-register :
    (address reg value : ℕ) (s : Kyouko3)
    → register_value address (fifo_write reg value s).effects ≡ register_value address s.effects
unfolding fifo_write register_value
fifo_write-register address reg value s = refl

carried-other :
    (reg value : ℕ) (es : List FifoEntry)
    → reg ≢ offset buffer_a_config
    → carried (record { command = reg; value = value } ∷ es) ≡ carried es
unfolding carried
carried-other reg value es ne = ground arith

head_told :
    {control : ℕ} (s : Kyouko3)
    → s.k_control_base ≡ control
    → register_value (head_address control) (k_write_register fifo_head s.fifo.head s).effects
      ≡ s.fifo.head
unfolding register_value
head_told s e = ground arith

start_transfer-eq :
    (address count : ℕ) (s : Kyouko3)
    → start_transfer address count s ≡ (
        let s₂ =
          fifo_write
            (offset buffer_a_config)
            count
            (fifo_write (offset buffer_a_address) (u32 address) s) in
        k_write_register fifo_head s₂.fifo.head s₂)
unfolding start_transfer
start_transfer-eq address count s = refl

module _ (control tail : ℕ) (taken : List FifoEntry) where
  pub Holds-same :
      (s t : Kyouko3)
      → SameFifo control s t
      → Holds control tail taken s
      → Holds control tail taken t
  Holds-same s t same h = record {
    fifo = record { size = rw same.entries h.fifo.size; head_in = rw same.head h.fifo.head_in };
    window = same.window ∙ h.window;
    tail_in = h.tail_in;
    history = rw (same.log, same.entries, same.head) h.history;
  }

  -- Once it is told the head, the card was told of everything.
  pub Told-head :
      (s : Kyouko3)
      → Holds control tail taken s
      → register_value (head_address control) s.effects ≡ s.fifo.head
      → Told control tail taken s
  Told-head s h e = record {
    told_in = rw e h.fifo.head_in;
    behind = rw e (omega arith);
    all_given = rw (e, h.history) refl;
  }

  pub Told-same :
      (s t : Kyouko3)
      → SameFifo control s t
      → Holds control tail taken s
      → Told control tail taken s
      → Told control tail taken t
  Told-same s t same h told = elim same.told [
    | inl e ↦ record {
      told_in = rw e told.told_in;
      behind = rw (e, same.head) told.behind;
      all_given = rw (e, same.entries, same.log) told.all_given;
    }
    | inr e ↦ Told-head t (Holds-same s t same h) (e ∙ sym same.head)
  ]

  pub fifo_write-Holds :
      (reg value : ℕ) (s : Kyouko3)
      → Holds control tail taken s
      → distance tail s.fifo.head + 1 < 1024
      → Holds control tail taken (fifo_write reg value s)
        × (distance tail (fifo_write reg value s).fifo.head ≡ distance tail s.fifo.head + 1)
  unfolding fifo_write
  fifo_write-Holds reg value s h room =
      let e : FifoEntry = record { command = reg; value = value } in
      let moved = fifo_write-head reg value s h.fifo in
      let n = distance tail s.fifo.head in
      let further : distance tail (fifo_write reg value s).fifo.head ≡ suc n =
        omega (arith, moved, h.fifo.head_in, h.tail_in) in
      let at : s.fifo.head ≡ (tail + n) % 1024 = omega (arith, h.fifo.head_in, h.tail_in) in
      let written : get_or (set s.fifo.entries s.fifo.head e) ((tail + n) % 1024) no_entry ≡ e =
        rw (← at) (
          get_or-set_self s.fifo.entries s.fifo.head e no_entry
            (omega (arith, h.fifo.size, h.fifo.head_in))) in
      (
        record {
          fifo = fifo_write-IsFifo reg value s h.fifo;
          window = fifo_write-window reg value s ∙ h.window;
          tail_in = h.tail_in;
          history =
              rw (fifo_write-stored reg value s, further, fifo_write-entries reg value s)
                (ap₂ (λ (x : FifoEntry) (xs : List FifoEntry). (x ∷ xs)) (sym written)
                  (h.history
                    ∙ ap (λ (l : List FifoEntry). l ++ taken)
                        (sym (
                          between-set s.fifo.entries tail s.fifo.head n e at (omega arith) n
                            (omega arith)))));
        },
        further ∙ omega arith,
      )

  -- A transfer is stored and told behind what is there.
  pub start_transfer-Told :
      (address count : ℕ) (s : Kyouko3)
      → Holds control tail taken s
      → distance tail s.fifo.head + 2 < 1024
      → Holds control tail taken (start_transfer address count s)
        × Told control tail taken (start_transfer address count s)
  start_transfer-Told address count s h room =
      let (h₁, d₁) = fifo_write-Holds (offset buffer_a_address) (u32 address) s h (omega arith) in
      let s₁ = fifo_write (offset buffer_a_address) (u32 address) s in
      let (h₂, d₂) = fifo_write-Holds (offset buffer_a_config) count s₁ h₁ (omega (arith, d₁)) in
      let s₂ = fifo_write (offset buffer_a_config) count s₁ in
      let t = k_write_register fifo_head s₂.fifo.head s₂ in
      let told = head_told s₂ h₂.window in
      let same : SameFifo control s₂ t = record {
        entries = refl;
        head = refl;
        window = refl;
        log = unfold stored in refl;
        told = inr told;
      } in
      let h₃ = Holds-same s₂ t same h₂ in
      rw (start_transfer-eq address count s) (h₃, Told-head t h₃ told)

  -- The card takes the next command.
  pub fetch-Told :
      (s : Kyouko3)
      → register_value (head_address control) s.effects ≢ tail
      → Holds control tail taken s
      → Told control tail taken s
      → let next = get_or s.fifo.entries tail no_entry ∷ taken in
        Holds control ((tail + 1) % 1024) next s × Told control ((tail + 1) % 1024) next s
  fetch-Told s more h told =
      let head = register_value (head_address control) s.effects in
      let e = get_or s.fifo.entries tail no_entry in
      let tail' = (tail + 1) % 1024 in
      let move : (to : ℕ)
          → to < 1024
          → distance tail to ≢ 0
          → between s.fifo.entries tail (distance tail to) ++ taken
            ≡ between s.fifo.entries tail' (distance tail' to) ++ (e ∷ taken) =
        λ to in_range ne.
          let d : distance tail to ≡ suc (distance tail' to) = omega (arith, h.tail_in) in
          rw d (
            ap (λ (l : List FifoEntry). l ++ taken)
              (between-suc s.fifo.entries tail (distance tail' to) h.tail_in)
            ∙ append_assoc (between s.fifo.entries tail' (distance tail' to)) _ _) in
      let k : distance tail head ≢ 0 = omega (arith, more, told.told_in, h.tail_in) in
      let n : distance tail s.fifo.head ≢ 0 = omega (arith, k, told.behind) in
      (
        record {
          fifo = h.fifo;
          window = h.window;
          tail_in = omega arith;
          history = h.history ∙ move s.fifo.head h.fifo.head_in n;
        },
        record {
          told_in = told.told_in;
          behind = omega (arith, told.behind, k, n, told.told_in, h.tail_in, h.fifo.head_in);
          all_given = ap carried (sym (move head told.told_in k)) ∙ told.all_given;
        },
      )

  -- A command of the program that is not about buffer A.
  pub fifo_write-Told :
      (reg value : ℕ) (s : Kyouko3)
      → reg ≢ offset buffer_a_config
      → Holds control tail taken s
      → Told control tail taken s
      → distance tail s.fifo.head + 1 < 1024
      → Told control tail taken (fifo_write reg value s)
  fifo_write-Told reg value s nc h told room =
      let e : FifoEntry = record { command = reg; value = value } in
      let (h', d) = fifo_write-Holds reg value s h room in
      let n = distance tail s.fifo.head in
      let at : s.fifo.head ≡ (tail + n) % 1024 = omega (arith, h.fifo.head_in, h.tail_in) in
      let same = fifo_write-register (head_address control) reg value s in
      record {
        told_in = rw same told.told_in;
        behind = rw same (omega (arith, d, told.behind));
        all_given =
            rw (same, fifo_write-entries reg value s, fifo_write-stored reg value s)
              (ap (λ (l : List FifoEntry). carried (l ++ taken))
                  (between-set s.fifo.entries tail s.fifo.head n e at (omega arith) _ told.behind)
                ∙ told.all_given
                ∙ sym (carried-other reg value (stored s.effects) nc));
      }
