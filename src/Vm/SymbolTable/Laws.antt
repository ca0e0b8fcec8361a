-- ===== src/Vm/SymbolTable/Laws.antt =====
-- `sta_symbol_intern`: one symbol for each string.
use smalltalk_a_vm.Prelude.{
  ℕ, ◌+◌, ◌*◌, ◌^◌, ◌≤◌, ◌<◌, ◌≡◌, ◌≢◌, refl, sym, ap, ◌∙◌, subst, arith, Bool, true, false, not,
  ◌&&◌, Option, none, some, List, ◌==◌, if◌then◌else◌, ◌⊎◌, inl, inr, Bool-cases,
}
use smalltalk_a_vm.Probe.{content, Stored, Absent}
use smalltalk_a_vm.Vm.SymbolTable.{
  Symbol, SymbolTable, symbol_hash, bytes_equal, lookup, overloaded, store, intern, until_nul,
  alloc_symbol,
}
use smalltalk_a_vm.Vm.SymbolTable.Slot.{slots, bytes_equal_refl, bytes_equal_sound}
use smalltalk_a_vm.Vm.SymbolTable.Invariant.{IsValid, probe_cases, oop_in, lookup-eq-content}
use smalltalk_a_vm.Vm.SymbolTable.Store.{Spot, overloaded_iff, make_room_lem, store-IsValid}

-- The three ends of an interning: a slot holds the string's symbol, which is returned; no slot
-- holds one, and there is no memory for a wider table where one is needed or for the symbol; or no
-- slot holds one, and the symbol is new.
pub data Interned (st : SymbolTable) (memory : Bool) (new_oop : ℕ) (utf8 : List ℕ)
    (st' : SymbolTable) (oop : ℕ) : Type 0 where
  already :
      (s : Symbol)
      → Stored slots st.slots utf8 (some s)
      → oop ≡ s.oop
      → lookup st utf8 ≡ some oop
      → st' ≡ st
      → Interned st memory new_oop utf8 st' oop
  no_memory :
      Absent slots st.slots utf8
      → oop ≡ 0
      → ((memory ≡ false) × (st.capacity * 7 < (st.count + 1) * 10)) ⊎ (new_oop ≡ 0)
      → ((k : List ℕ) → lookup st' k ≡ lookup st k)
      → Interned st memory new_oop utf8 st' oop
  added :
      Absent slots st.slots utf8
      → oop ≡ new_oop
      → new_oop ≢ 0
      → (memory ≡ true) ⊎ ((st.count + 1) * 10 ≤ st.capacity * 7)
      → lookup st utf8 ≡ some 0
      → ((k : List ℕ) → lookup st' k ≡ (if bytes_equal k utf8 then some oop else lookup st k))
      → Interned st memory new_oop utf8 st' oop

-- What the test before the growth says.
poor_full :
    (st : SymbolTable) (memory : Bool)
    → IsValid st
    → (overloaded st && not memory) ≡ true
    → (memory ≡ false) × (st.capacity * 7 < (st.count + 1) * 10)
poor_full st memory v h = let e = overloaded_iff st v in (ground arith, ground arith)

rich_room :
    (st : SymbolTable) (memory : Bool)
    → IsValid st
    → (overloaded st && not memory) ≡ false
    → (memory ≡ true) ⊎ ((st.count + 1) * 10 ≤ st.capacity * 7)
rich_room st memory v h = elim (Bool-cases memory) [
  | inl m ↦ inl m
  | inr m ↦ let e = overloaded_iff st v in inr (ground arith)
]

-- A change of the content is a change of what lookups return.
lookups_same :
    (st st' : SymbolTable)
    → IsValid st
    → IsValid st'
    → ((k : List ℕ) → content slots st'.slots k ≡ content slots st.slots k)
    → (k : List ℕ) → lookup st' k ≡ lookup st k
lookups_same st st' v v' same k =
    lookup-eq-content st' k v' ∙ ap (λ c. some (oop_in c)) (same k) ∙ sym (lookup-eq-content st k v)

lookups_added :
    (st wide st' : SymbolTable) (symbol : Symbol) (utf8 : List ℕ)
    → IsValid st
    → IsValid st'
    → content slots st'.slots utf8 ≡ some (some symbol)
    → ((j : List ℕ) → j ≢ utf8 → content slots st'.slots j ≡ content slots wide.slots j)
    → ((j : List ℕ) → content slots wide.slots j ≡ content slots st.slots j)
    → (k : List ℕ) → lookup st' k ≡ (if bytes_equal k utf8 then some symbol.oop else lookup st k)
lookups_added st wide st' symbol utf8 v v' here other same k =
    elim (Bool-cases (bytes_equal k utf8)) [
      | inl y ↦ rw y (
          lookup-eq-content st' k v'
          ∙ ap (λ c. some (oop_in c))
              (ap (content slots st'.slots) (bytes_equal_sound k utf8 y) ∙ here))
      | inr n ↦ rw n (
          lookup-eq-content st' k v'
          ∙ ap (λ c. some (oop_in c)) (other k (differs n) ∙ same k)
          ∙ sym (lookup-eq-content st k v))
    ]
  where
    differs : bytes_equal k utf8 ≡ false → k ≢ utf8
    differs n e =
        let y = subst (λ w. bytes_equal k w ≡ true) e (bytes_equal_refl k) in absurd (ground arith)

-- Interning a string without NUL always ends and keeps the table valid. If a slot holds the
-- string's symbol, that is returned, and the table is as it was. If none does, then 0 is returned,
-- and lookups return what they did, where there is no memory for the symbol, or the table is at 70
-- percent and there is no memory for a wider one; elsewhere the new symbol is returned, a lookup of
-- the string returns it, and a lookup of any other string what it did. The capacity is at most 2^27,
-- so that it can still double.
pub intern-lookup :
    (st : SymbolTable) (memory : Bool) (new_oop : ℕ) (utf8 : List ℕ)
    → IsValid st
    → st.capacity ≤ 2 ^ 27
    → until_nul utf8 ≡ utf8
    → (st' : SymbolTable) × (oop : ℕ) × (intern st memory new_oop utf8 ≡ some (st', oop))
      × IsValid st'
      × Interned st memory new_oop utf8 st' oop
unfolding intern
intern-lookup st memory new_oop utf8 v grows text =
    let (idx, found, inside, r, c) = probe_cases st utf8 v in
    elim c [
      | inl e ↦
          let (s, at, held, h) = e in
          (
            st,
            s.oop,
            rw (found, at, intern) refl,
            v,
            Interned.already s (idx, inside, at, held) refl
                (lookup-eq-content st utf8 v ∙ ap (λ c. some (oop_in c)) h) refl,
          )
      | inr e ↦
          let (z, gone, absent) = e in
          elim (Bool-cases (overloaded st && not memory)) [
            | inl poor ↦ (
              st,
              0,
              rw (found, z, poor, intern) refl,
              v,
              Interned.no_memory absent refl (inl (poor_full st memory v poor)) (λ k. refl),
            )
            | inr rich ↦
                let (wide, at, made, spot, same) =
                  make_room_lem st utf8 idx v grows found gone inside r z absent in
                elim (Bool-cases (new_oop == 0)) [
                  | inl full ↦ (
                    wide,
                    0,
                    rw (found, z, rich, made, full, intern) refl,
                    spot.valid,
                    Interned.no_memory absent refl (inr (ground arith))
                        (lookups_same st wide v spot.valid same),
                  )
                  | inr space ↦
                      let (v', here, other) =
                        store-IsValid wide (symbol) at (subst (λ w. Spot wide w at) (sym text) spot)
                          (ap symbol_hash (sym text)) in
                      (
                        store wide at (alloc_symbol new_oop utf8 (symbol_hash utf8)),
                        new_oop,
                        rw (found, z, rich, made, space, intern) refl,
                        v',
                        Interned.added absent refl (ground arith) (rich_room st memory v rich)
                            (lookup-eq-content st utf8 v ∙ ap (λ c. some (oop_in c)) gone)
                            (lookups_added st wide _ (symbol) utf8 v v'
                              (ap (content slots _) (sym text) ∙ here)
                              (λ j ne. other j (λ e. ne (e ∙ text))) same),
                      )
                ]
          ]
    ]
  where
    symbol : Symbol
    symbol = alloc_symbol new_oop utf8 (symbol_hash utf8)

-- A string that has a symbol is interned as it.
again :
    (st : SymbolTable) (utf8 : List ℕ) (memory : Bool) (new_oop oop : ℕ)
    → IsValid st
    → lookup st utf8 ≡ some oop
    → oop ≢ 0
    → intern st memory new_oop utf8 ≡ some (st, oop)
unfolding intern
again st utf8 memory new_oop oop v there real =
    let (idx, found, inside, r, c) = probe_cases st utf8 v in
    let same = sym there ∙ lookup-eq-content st utf8 v in
    elim c [
      | inl e ↦
          let (s, at, _, h) = e in
          let o = same ∙ ap (λ c. some (oop_in c)) h in
          rw (found, at, intern) (ap (λ c. some (st, oop_value c)) (sym o))
      | inr e ↦
          let (z, gone, absent) = e in
          let o = same ∙ ap (λ c. some (oop_in c)) gone in absurd (real (ap oop_value o))
    ]
  where
    oop_value : Option ℕ → ℕ
    oop_value none = 0
    oop_value (some n) = n

-- A string that was interned without failure gives the same symbol and the same table again, in
-- whatever state the memory is then.
pub intern_twice :
    (st : SymbolTable) (memory : Bool) (new_oop : ℕ) (utf8 : List ℕ) (st' : SymbolTable) (oop : ℕ)
    (memory' : Bool) (new_oop' : ℕ)
    → IsValid st
    → st.capacity ≤ 2 ^ 27
    → until_nul utf8 ≡ utf8
    → intern st memory new_oop utf8 ≡ some (st', oop)
    → oop ≢ 0
    → intern st' memory' new_oop' utf8 ≡ some (st', oop)
intern_twice st memory new_oop utf8 st' oop memory' new_oop' v grows text once real =
    let (t, o, e, v', what) = intern-lookup st memory new_oop utf8 v grows text in
    let same : Path (Option (SymbolTable × ℕ)) (some (t, o)) (some (st', oop)) = sym e ∙ once in
    let table : t ≡ st' = ap (λ r. (pair_of r).0) same in
    let symbol : o ≡ oop = ap (λ r. (pair_of r).1) same in
    again st' utf8 memory' new_oop' oop (subst IsValid table v')
      (subst (λ w. lookup w utf8 ≡ some oop) table
        (answered t o (λ z. real (sym symbol ∙ z)) what ∙ ap some symbol))
      real
  where
    pair_of : Option (SymbolTable × ℕ) → SymbolTable × ℕ
    pair_of none = (st, 0)
    pair_of (some r) = r

    answered :
        (t : SymbolTable) (o : ℕ)
        → o ≢ 0
        → Interned st memory new_oop utf8 t o
        → lookup t utf8 ≡ some o
    answered t o nz (Interned.already s p q l same) = ap (λ w. lookup w utf8) same ∙ l
    answered t o nz (Interned.no_memory g z m same) = absurd (nz z)
    answered t o nz (Interned.added g e r m l new) = new utf8 ∙ rw (bytes_equal_refl utf8) refl
