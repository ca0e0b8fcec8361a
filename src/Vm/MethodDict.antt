-- ===== src/Vm/MethodDict.antt =====
-- The method dictionary, src/vm/method_dict.c: selectors to methods by open addressing without
-- removal. OOPs are numbers, 0 for an empty slot. The pairs of the backing Array are one slot each,
-- so the capacity is its length; `hash` is what `sta_symbol_get_hash` reads in a selector.
-- Whether `sta_heap_alloc` has room for a new Array is an argument.
pub mod Slot
pub mod Invariant
pub mod Store
pub mod Laws
use smalltalk_a_vm.Prelude.{
  ℕ, zero, suc, ◌+◌, ◌*◌, ◌%◌, ◌^◌, Bool, true, false, not, ◌||◌, Option, none, some, List, length,
  get_or, set, replicate, ltb, ◌==◌, if◌then◌else◌,
}
use smalltalk_a_vm.Probe.{seek}
use smalltalk_a_vm.Probe.Rehash.{rehash}

-- Two words of the backing Array.
pub record Pair : Type 0 where
  pub selector : ℕ
  pub method : ℕ

abbrev pub no_pair : Pair
no_pair = record { selector = 0; method = 0 }

-- The MethodDictionary object: tally and backing Array.
pub record Dict : Type 0 where
  pub tally : ℕ
  pub array : List Pair

abbrev pub capacity : Dict → ℕ
capacity d = length d.array

abbrev pub pair_at : List Pair → ℕ → Pair
pair_at slots i = get_or slots i no_pair

-- `sta_method_dict_create`, where both allocations succeed.
unfoldable pub create : ℕ → Dict
create requested = record {
  tally = 0;
  array = replicate (if requested == 0 then 4 else requested) no_pair;
}

-- `(tally + 1) * 10 > cap * 7`, in 32 bits.
unfoldable pub overloaded : Dict → Bool
overloaded d = ltb (capacity d * 7 % 2 ^ 32) ((d.tally + 1) * 10 % 2 ^ 32)

module _ (hash : ℕ → ℕ) where
  -- `(idx + i) % cap` with `idx = hash % cap`, in 32 bits.
  abbrev pub probe_pos : ℕ → ℕ → ℕ → ℕ
  probe_pos cap selector i = (hash selector % cap + i) % 2 ^ 32 % cap

  -- The loop that every operation has: up to `cap` slots, to an empty one or the selector.
  unfoldable pub probe : List Pair → ℕ → Option ℕ
  probe slots selector =
      seek (λ s. s.selector == 0 || s.selector == selector) (pair_at slots)
        (probe_pos (length slots) selector) (length slots) 0

  -- `sta_method_dict_lookup`
  unfoldable pub lookup : Dict → ℕ → ℕ
  lookup d selector = elim (probe d.array selector) [
    | none ↦ 0
    | some pos ↦ if (pair_at d.array pos).selector == 0 then 0 else (pair_at d.array pos).method
  ]

  unfoldable pub raw_insert : List Pair → ℕ → ℕ → List Pair
  raw_insert slots selector method = elim (probe slots selector) [
    | none ↦ slots
    | some pos ↦ set slots pos (record { selector = selector; method = method })
  ]

  -- Whether the first loop of `sta_method_dict_insert` finds the selector, and where.
  unfoldable pub present : List Pair → ℕ → Option ℕ
  present slots selector = elim (probe slots selector) [
    | none ↦ none
    | some pos ↦ if (pair_at slots pos).selector == 0 then none else some pos
  ]

  -- The rehashing loop of `sta_method_dict_insert`: `raw_insert` of each pair that is not empty.
  unfoldable pub grown : List Pair → List Pair
  grown slots =
      rehash (λ s. not (s.selector == 0)) (λ new s. probe new s.selector) slots
        (replicate (length slots * 2) no_pair)

  unfoldable pub insert_new : Dict → List Pair → ℕ → ℕ → Dict
  insert_new d slots selector method = record {
    tally = (d.tally + 1) % 2 ^ 32;
    array = raw_insert slots selector method;
  }

  -- `sta_method_dict_insert`: `none` for -1.
  unfoldable pub insert : Dict → Bool → ℕ → ℕ → Option Dict
  insert d memory selector method = elim (present d.array selector) [
    | some pos ↦
        some
          (record d { array = set d.array pos (record (pair_at d.array pos) { method = method }) })
    | none ↦
        if overloaded d
        then (if memory then some (insert_new d (grown d.array) selector method) else none)
        else some (insert_new d d.array selector method)
  ]
