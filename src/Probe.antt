-- ===== src/Probe.antt =====
-- Open addressing with linear probing, which src/vm/symbol_table.c, src/vm/method_dict.c,
-- src/actor/registry.c and src/actor/future_table.c each write out by hand.
-- `seek` is their search loop; `Slots` is what a table says of its slots.
pub mod Ring
pub mod Seek
pub mod Invariant
pub mod Find
pub mod Entries
pub mod Content
pub mod Rehash
pub mod Gap
pub mod Refill
pub mod Close
pub mod Remove
use smalltalk_a_vm.Prelude.{
  ℕ, zero, suc, ◌+◌, ◌%◌, ◌<◌, ◌≡◌, Bool, true, false, not, ◌||◌, Option, none, some, List, [], ◌∷◌,
  length, get_or, if◌then◌else◌,
}

-- `for (i = ...; i < ...; i++) if (stop(slots[pos(i)])) return pos(i);` on the rounds left.
unfoldable pub seek {ℓ} : {S : Type ℓ} → (S → Bool) → (ℕ → S) → (ℕ → ℕ) → ℕ → ℕ → Option ℕ
seek stop slot pos zero i = none
seek stop slot pos (suc n) i =
    let rest = seek stop slot pos n (i + 1) in if stop (slot (pos i)) then some (pos i) else rest

-- `while (!stop(slots[idx])) idx = next(idx);` on fuel.
unfoldable pub walk {ℓ} : {S : Type ℓ} → (S → Bool) → (ℕ → S) → (ℕ → ℕ) → ℕ → ℕ → Option ℕ
walk stop slot next zero idx = none
walk stop slot next (suc n) idx =
    let rest = walk stop slot next n (next idx) in if stop (slot idx) then some idx else rest

-- A table's reading of a slot. A slot that is occupied and holds no key is a tombstone.
pub record Slots (S K : Type 0) : Type 0 where
  pub empty : S
  pub occupied : S → Bool
  pub holds : K → S → Bool
  pub home : K → ℕ
  pub empty_free : occupied empty ≡ false
  pub holds_occupied : (k : K) (s : S) → holds k s ≡ true → occupied s ≡ true
  pub holds_one : (j k : K) (s : S) → holds j s ≡ true → holds k s ≡ true → j ≡ k

module _ {S K : Type 0} (t : Slots S K) where
  abbrev pub slot_at : List S → ℕ → S
  slot_at xs p = get_or xs p t.empty

  -- The `i`-th slot that a search for `k` visits.
  abbrev pub ring_pos : ℕ → ℕ → ℕ → ℕ
  ring_pos cap h i = (h + i) % cap

  -- Number of occupied slots.
  abbrev pub load : List S → ℕ
  load [] = 0
  load (x ∷ xs) = if t.occupied x then suc (load xs) else load xs

  -- The slots that a search for `k` visits before its `d`-th one are occupied.
  abbrev pub Clear : List S → K → ℕ → Type 0
  Clear xs k d =
      (j : ℕ) → j < d → t.occupied (slot_at xs (ring_pos (length xs) (t.home k) j)) ≡ true

  -- A search for `k` that stops at empty slots comes to position `p`.
  abbrev pub Reaches : List S → K → ℕ → Type 0
  Reaches xs k p =
      (d : ℕ) × (d < length xs) × (p ≡ ring_pos (length xs) (t.home k) d) × Clear xs k d

  abbrev pub Absent : List S → K → Type 0
  Absent xs k = (p : ℕ) → p < length xs → t.holds k (slot_at xs p) ≡ false

  -- The probing invariant: every key is reachable, and stands in one slot.
  pub record IsProbed (xs : List S) : Type 0 where
    pub reach : (k : K) (p : ℕ) → p < length xs → t.holds k (slot_at xs p) ≡ true → Reaches xs k p
    pub one :
        (k : K) (p q : ℕ)
        → p < length xs
        → q < length xs
        → t.holds k (slot_at xs p) ≡ true
        → t.holds k (slot_at xs q) ≡ true
        → p ≡ q

  -- Where a search stops: at an empty slot or at the key.
  abbrev pub stops_at : K → S → Bool
  stops_at k s = not (t.occupied s) || t.holds k s

  -- The search of every lookup: the position of the key, or of the first empty slot.
  abbrev pub find : List S → K → Option ℕ
  find xs k = seek (stops_at k) (slot_at xs) (ring_pos (length xs) (t.home k)) (length xs) 0

  -- What stands under `k`: the slot that holds it.
  pub content : List S → K → Option S
  content xs k = elim (find xs k) [
    | some p ↦ if t.holds k (slot_at xs p) then some (slot_at xs p) else none
    | none ↦ none
  ]

  abbrev pub Stored : List S → K → S → Type 0
  Stored xs k s = (p : ℕ) × (p < length xs) × (slot_at xs p ≡ s) × (t.holds k s ≡ true)
