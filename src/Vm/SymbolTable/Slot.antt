-- ===== src/Vm/SymbolTable/Slot.antt =====
-- Slots of the symbol table, and its loops as searches round the ring.
use smalltalk_a_vm.Prelude.{
  ℕ, ◌-◌, ◌^◌, ◌<◌, ◌≡◌, refl, sym, ap, ap₂, ◌∙◌, arith, Bool, true, not, ◌&&◌, ◌||◌, Option, none,
  some, List, [], ◌∷◌, length, ◌==◌, inl, inr, Bool-cases,
}
use smalltalk_a_vm.Probe.{Slots, seek, walk, ring_pos, stops_at, find}
use smalltalk_a_vm.Probe.Ring.{step_mask32, start_mask}
use smalltalk_a_vm.Probe.Seek.{walk-eq-seek, seek-cong_at}
use smalltalk_a_vm.Vm.SymbolTable.{
  Symbol, SymbolTable, symbol_hash, bytes_equal, is_empty, has_bytes, get_hash, slot_at, start_slot,
  next_slot, probe,
}

pub bytes_equal_sound : (xs ys : List ℕ) → bytes_equal xs ys ≡ true → xs ≡ ys
bytes_equal_sound [] [] h = refl
bytes_equal_sound [] (y ∷ ys) h = absurd (ground arith)
bytes_equal_sound (x ∷ xs) [] h = absurd (ground arith)
bytes_equal_sound (x ∷ xs) (y ∷ ys) h =
    let head : x ≡ y = ground arith in
    ap₂ (λ u us. u ∷ us) head (bytes_equal_sound xs ys (ground arith))

pub bytes_equal_refl : (xs : List ℕ) → bytes_equal xs xs ≡ true
bytes_equal_refl [] = refl
bytes_equal_refl (x ∷ xs) = ground (arith, bytes_equal_refl xs)

-- A symbol of these bytes that carries their hash.
abbrev pub is_symbol : List ℕ → Option Symbol → Bool
is_symbol k s = has_bytes k s && get_hash s == symbol_hash k

abbrev pub in_use : Option Symbol → Bool
in_use s = not (is_empty s)

pub in_use_if_symbol : (k : List ℕ) (s : Option Symbol) → is_symbol k s ≡ true → in_use s ≡ true
in_use_if_symbol k none h = absurd (ground arith)
in_use_if_symbol k (some s) h = refl

pub one_symbol :
    (j k : List ℕ) (s : Option Symbol) → is_symbol j s ≡ true → is_symbol k s ≡ true → j ≡ k
one_symbol j k none h h' = absurd (ground arith)
one_symbol j k (some s) h h' =
    sym (bytes_equal_sound s.bytes j (ground arith)) ∙ bytes_equal_sound s.bytes k (ground arith)

abbrev pub slots : Slots (Option Symbol) (List ℕ)
slots = record {
  empty = none;
  occupied = in_use;
  holds = is_symbol;
  home = symbol_hash;
  empty_free = refl;
  holds_occupied = in_use_if_symbol;
  holds_one = one_symbol;
}

-- The hash in a symbol is that of its bytes.
abbrev pub Hashed : Option Symbol → Type 0
Hashed none = Unit
Hashed (some s) = s.hash ≡ symbol_hash s.bytes

pub Hashed-symbol : (k : List ℕ) (s : Option Symbol) → Hashed s → is_symbol k s ≡ has_bytes k s
Hashed-symbol k none h = refl
Hashed-symbol k (some s) h = elim (Bool-cases (bytes_equal s.bytes k)) [
  | inr n ↦ rw n refl
  | inl y ↦
      let e = ap symbol_hash (bytes_equal_sound s.bytes k y) in
      let same : (s.hash == symbol_hash k) ≡ true = ground arith in rw (y, same) refl
]

pub walk-eq-ring :
    (stop : Option Symbol → Bool) (xs : List (Option Symbol)) (k : List ℕ) (e cap n : ℕ)
    → cap ≡ 2 ^ e
    → cap < 2 ^ 32
    → walk stop (slot_at xs) (next_slot (cap - 1)) n (start_slot (symbol_hash k) (cap - 1))
      ≡ seek stop (slot_at xs) (ring_pos slots cap (symbol_hash k)) n 0
walk-eq-ring stop xs k e cap n c small =
    ap (walk stop (slot_at xs) (next_slot (cap - 1)) n) (start_mask e cap (symbol_hash k) c)
    ∙ walk-eq-seek stop (slot_at xs) (ring_pos slots cap (symbol_hash k)) (next_slot (cap - 1))
        (λ i. step_mask32 e cap (symbol_hash k) i c small) n 0

pub probe-eq-find :
    (st : SymbolTable) (k : List ℕ) (e : ℕ)
    → st.capacity ≡ 2 ^ e
    → st.capacity < 2 ^ 32
    → length st.slots ≡ st.capacity
    → ((p : ℕ) → Hashed (slot_at st.slots p))
    → probe st k (symbol_hash k) ≡ find slots st.slots k
unfolding probe
probe-eq-find st k e c small sized hashed =
    walk-eq-ring (λ s. is_empty s || has_bytes k s) st.slots k e st.capacity st.capacity c small
    ∙ seek-cong_at (λ s. is_empty s || has_bytes k s) (stops_at slots k) (slot_at st.slots)
        (ring_pos slots st.capacity (symbol_hash k)) st.capacity 0
        (λ p. rw (Hashed-symbol k (slot_at st.slots p) (hashed p)) (ground arith))
    ∙ ap (λ n. seek (stops_at slots k) (slot_at st.slots) (ring_pos slots n (symbol_hash k)) n 0)
        (sym sized)
