-- ===== src/Vm/SymbolTable/Store.antt =====
-- The end of an interning: the slot is found and the symbol put there.
use smalltalk_a_vm.Prelude.{
  ℕ, ◌+◌, ◌*◌, ◌%◌, ◌^◌, ◌≤◌, ◌<◌, ◌≡◌, ◌≢◌, refl, sym, ◌∙◌, subst, arith, true, false, none, some,
  List, length, set, length-set, ltb, inl, inr, Bool-cases,
}
use smalltalk_a_vm.Probe.{load, content, Absent, Reaches}
use smalltalk_a_vm.Probe.Invariant.{load-set_fresh}
use smalltalk_a_vm.Probe.Content.{store_lem}
use smalltalk_a_vm.Vm.SymbolTable.{
  Symbol, SymbolTable, symbol_hash, slot_at, probe, overloaded, store, make_room, table_grow,
}
use smalltalk_a_vm.Vm.SymbolTable.Slot.{slots, is_symbol, bytes_equal_refl}
use smalltalk_a_vm.Vm.SymbolTable.Invariant.{IsValid, room, probe_cases}
use smalltalk_a_vm.Vm.SymbolTable.Growth.{table_grow-IsValid, set-Hashed}

-- A slot for the bytes `k`, in a table that holds them not and has room.
pub record Spot (st : SymbolTable) (k : List ℕ) (p : ℕ) : Type 0 where
  pub valid : IsValid st
  pub spare : (st.count + 1) * 10 ≤ st.capacity * 7
  pub inside : p < length st.slots
  pub reached : Reaches slots st.slots k p
  pub vacant : slot_at st.slots p ≡ none
  pub absent : Absent slots st.slots k

pub overloaded_iff :
    (st : SymbolTable) → IsValid st → overloaded st ≡ ltb (st.capacity * 7) ((st.count + 1) * 10)
unfolding overloaded
overloaded_iff st v =
    let a : st.capacity * 7 % 2 ^ 32 ≡ st.capacity * 7 = omega (arith, v.small) in
    let b : (st.count + 1) % 2 ^ 32 * 10 % 2 ^ 32 ≡ (st.count + 1) * 10 =
      omega (arith, v.small, v.slack) in
    rw (a, b) refl

pub make_room_lem :
    (st : SymbolTable) (k : List ℕ) (idx : ℕ)
    → IsValid st
    → st.capacity ≤ 2 ^ 27
    → probe st k (symbol_hash k) ≡ some idx
    → content slots st.slots k ≡ none
    → idx < length st.slots
    → Reaches slots st.slots k idx
    → slot_at st.slots idx ≡ none
    → Absent slots st.slots k
    → (wide : SymbolTable) × (at : ℕ) × (make_room st idx k (symbol_hash k) ≡ some (wide, at))
      × Spot wide k at
      × ((j : List ℕ) → content slots wide.slots j ≡ content slots st.slots j)
unfolding make_room
make_room_lem st k idx v grows found gone inside r z absent = elim (Bool-cases (overloaded st)) [
  | inr light ↦ (
    st,
    idx,
    rw light refl,
    record {
      valid = v;
      spare = ground (arith, overloaded_iff st v);
      inside = inside;
      reached = r;
      vacant = z;
      absent = absent;
    },
    λ j. refl,
  )
  | inl heavy ↦
      let (v', spare, same) = table_grow-IsValid st v grows in
      let (p, found', inside', r', c) = probe_cases (table_grow st) k v' in
      elim c [
        | inl e ↦ let (s, _, _, h) = e in let clash = sym h ∙ same k ∙ gone in absurd (cc)
        | inr e ↦
            let (z', _, absent') = e in
            (
              table_grow st,
              p,
              rw (heavy, found') refl,
              record {
                valid = v';
                spare = spare;
                inside = inside';
                reached = r';
                vacant = z';
                absent = absent';
              },
              same,
            )
      ]
]

-- What `store` does to the map.
pub store-IsValid :
    (st : SymbolTable) (symbol : Symbol) (p : ℕ)
    → Spot st symbol.bytes p
    → symbol.hash ≡ symbol_hash symbol.bytes
    → IsValid (store st p symbol)
      × (content slots (store st p symbol).slots symbol.bytes ≡ some (some symbol))
      × ((j : List ℕ)
          → j ≢ symbol.bytes
          → content slots (store st p symbol).slots j ≡ content slots st.slots j)
unfolding store
store-IsValid st symbol p spot hashed =
    let v = spot.valid in
    let (probed, here, other) =
      store_lem slots st.slots symbol.bytes p (some symbol) v.probed (room v) spot.inside mine
        spot.reached (λ i a h. let f = spot.absent i a in absurd (ground arith))
        (λ j h. let h' = subst (λ x. is_symbol j x ≡ true) spot.vacant h in absurd (ground arith))
        (omega (arith, loads, len, v.counted, v.sized, spot.spare, v.large)) in
    (
      record {
        power = v.power;
        sized = len ∙ v.sized;
        probed = probed;
        hashed = set-Hashed st.slots p (some symbol) hashed v.hashed;
        counted = omega (arith, loads, v.counted, v.slack, v.small);
        slack = omega (arith, spot.spare, v.small);
        large = v.large;
        small = v.small;
      },
      here,
      other,
    )
  where
    mine : is_symbol symbol.bytes (some symbol) ≡ true
    mine = rw (bytes_equal_refl symbol.bytes) (ground arith)

    len : length (set st.slots p (some symbol)) ≡ length st.slots
    len = length-set st.slots p (some symbol)

    empty_there : slots.occupied (slot_at st.slots p) ≡ false
    empty_there = rw spot.vacant refl

    loads : load slots (set st.slots p (some symbol)) ≡ load slots st.slots + 1
    loads = load-set_fresh slots st.slots p (some symbol) spot.inside refl empty_there ∙ omega arith
