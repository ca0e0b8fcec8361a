-- ===== src/Vm/SymbolTable.antt =====
-- Symbol interning, src/vm/symbol_table.c. A slot is `none` or the Symbol object that its OOP refers
-- to, with the hash in its first word and the bytes up to the NUL. What `alloc_symbol` gets from
-- `sta_immutable_alloc` is an argument: the new OOP, 0 for no room.
pub mod Slot
pub mod Invariant
pub mod Growth
pub mod Store
pub mod Create
pub mod Laws
use smalltalk_a_vm.Prelude.{
  ℕ, zero, suc, ◌+◌, ◌-◌, ◌*◌, ◌%◌, ◌^◌, Bool, true, false, not, ◌&&◌, ◌||◌, Option, none, some,
  List, [], ◌∷◌, length, get_or, set, replicate, bit_and, bit_xor, ltb, ◌==◌, if◌then◌else◌,
}
use smalltalk_a_vm.Prelude.Pow2.{round_up}
use smalltalk_a_vm.Probe.{walk}
use smalltalk_a_vm.Probe.Rehash.{rehash}

pub record Symbol : Type 0 where
  pub oop : ℕ
  pub hash : ℕ
  pub bytes : List ℕ

pub record SymbolTable : Type 0 where
  pub slots : List (Option Symbol)
  pub capacity : ℕ
  pub count : ℕ

-- FNV-1a on 32 bits, from the state `h`.
unfoldable pub hash_from : ℕ → List ℕ → ℕ
hash_from h [] = h
hash_from h (b ∷ bytes) = hash_from (bit_xor h b * 16777619 % 2 ^ 32) bytes

unfoldable pub symbol_hash : List ℕ → ℕ
symbol_hash bytes = hash_from 2166136261 bytes

-- `sta_symbol_table_init`, where `calloc` succeeds.
unfoldable pub init : ℕ → SymbolTable
init initial_capacity =
    let cap = round_up 16 initial_capacity in
    record { slots = replicate cap none; capacity = cap; count = 0 }

-- `symbol_bytes_equal`: the lengths and then `memcmp`.
abbrev pub bytes_equal : List ℕ → List ℕ → Bool
bytes_equal [] [] = true
bytes_equal [] (y ∷ ys) = false
bytes_equal (x ∷ xs) [] = false
bytes_equal (x ∷ xs) (y ∷ ys) = x == y && bytes_equal xs ys

abbrev pub is_empty : Option Symbol → Bool
is_empty none = true
is_empty (some s) = false

abbrev pub has_bytes : List ℕ → Option Symbol → Bool
has_bytes utf8 none = false
has_bytes utf8 (some s) = bytes_equal s.bytes utf8

abbrev pub slot_at : List (Option Symbol) → ℕ → Option Symbol
slot_at slots i = get_or slots i none

-- `hash & mask`, and `(idx + 1) & mask`.
abbrev pub start_slot : ℕ → ℕ → ℕ
start_slot hash mask = bit_and hash mask

abbrev pub next_slot : ℕ → ℕ → ℕ
next_slot mask idx = bit_and ((idx + 1) % 2 ^ 32) mask

-- `probe`, on as many rounds as there are slots.
unfoldable pub probe : SymbolTable → List ℕ → ℕ → Option ℕ
probe st utf8 hash =
    walk (λ s. is_empty s || has_bytes utf8 s) (slot_at st.slots) (next_slot (st.capacity - 1))
      st.capacity (start_slot hash (st.capacity - 1))

abbrev pub get_hash : Option Symbol → ℕ
get_hash none = 0
get_hash (some s) = s.hash

-- The inner loop of `table_grow`.
unfoldable pub grow_spot : ℕ → List (Option Symbol) → Option Symbol → Option ℕ
grow_spot cap fresh s =
    walk is_empty (slot_at fresh) (next_slot (cap - 1)) cap (start_slot (get_hash s) (cap - 1))

-- `table_grow`, where `calloc` succeeds.
unfoldable pub table_grow : SymbolTable → SymbolTable
table_grow st =
    let new_cap = st.capacity * 2 % 2 ^ 32 in
    record st {
      slots = rehash (λ s. not (is_empty s)) (grow_spot new_cap) st.slots (replicate new_cap none);
      capacity = new_cap;
    }

-- `sta_symbol_lookup`: the outer option is none where the loop does not end.
unfoldable pub lookup : SymbolTable → List ℕ → Option ℕ
lookup st utf8 = elim (probe st utf8 (symbol_hash utf8)) [
  | none ↦ none
  | some idx ↦ elim (slot_at st.slots idx) [ none ↦ some 0 | some s ↦ some s.oop ]
]

unfoldable pub overloaded : SymbolTable → Bool
overloaded st = ltb (st.capacity * 7 % 2 ^ 32) ((st.count + 1) % 2 ^ 32 * 10 % 2 ^ 32)

unfoldable pub store : SymbolTable → ℕ → Symbol → SymbolTable
store st idx symbol = record st {
  slots = set st.slots idx (some symbol);
  count = (st.count + 1) % 2 ^ 32;
}

-- The table and the slot for a new symbol: after a growth, the slot is searched again.
unfoldable pub make_room : SymbolTable → ℕ → List ℕ → ℕ → Option (SymbolTable × ℕ)
make_room st idx utf8 hash =
    if overloaded st
    then elim (probe (table_grow st) utf8 hash) [
      | none ↦ none
      | some again ↦ some (table_grow st, again)
    ]
    else some (st, idx)

-- `sta_symbol_table_register`: the table, and whether 0 is returned. `memory` is whether `calloc`
-- succeeds.
unfoldable pub register : SymbolTable → Bool → Symbol → Option (SymbolTable × Bool)
register st memory symbol = elim (probe st symbol.bytes symbol.hash) [
  | none ↦ none
  | some idx ↦
      if not (is_empty (slot_at st.slots idx))
      then some (st, true)
      else (if overloaded st && not memory
          then some (st, false)
          else elim (make_room st idx symbol.bytes symbol.hash) [
            | none ↦ none
            | some (wide, at) ↦ some (store wide at symbol, true)
          ])
]

-- What `strlen` and `sta_symbol_get_bytes` see of the bytes that `alloc_symbol` copies.
abbrev pub until_nul : List ℕ → List ℕ
until_nul [] = []
until_nul (b ∷ bytes) = if b == 0 then [] else b ∷ until_nul bytes

-- `alloc_symbol`, where `sta_immutable_alloc` gives `new_oop`.
abbrev pub alloc_symbol : ℕ → List ℕ → ℕ → Symbol
alloc_symbol new_oop utf8 hash = record { oop = new_oop; hash = hash; bytes = until_nul utf8 }

-- `sta_symbol_intern`: the table and the OOP, 0 for a failure. `new_oop` is 0 where the immutable
-- space has no room, which comes to light after the growth.
unfoldable pub intern : SymbolTable → Bool → ℕ → List ℕ → Option (SymbolTable × ℕ)
intern st memory new_oop utf8 = elim (probe st utf8 (symbol_hash utf8)) [
  | none ↦ none
  | some idx ↦ elim (slot_at st.slots idx) [
    | some s ↦ some (st, s.oop)
    | none ↦
        if overloaded st && not memory
        then some (st, 0)
        else elim (make_room st idx utf8 (symbol_hash utf8)) [
          | none ↦ none
          | some (wide, at) ↦
              if new_oop == 0
              then some (wide, 0)
              else some (store wide at (alloc_symbol new_oop utf8 (symbol_hash utf8)), new_oop)
        ]
  ]
]
