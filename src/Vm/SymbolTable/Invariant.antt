-- ===== src/Vm/SymbolTable/Invariant.antt =====
-- The representation invariant of the symbol table, and what a lookup returns under it.
use smalltalk_a_vm.Prelude.{
  ℕ, ◌*◌, ◌^◌, ◌≤◌, ◌<◌, ◌≡◌, refl, ◌∙◌, subst, arith, true, Option, none, some, List, length, ◌⊎◌,
  inl, inr, Option-cases,
}
use smalltalk_a_vm.Probe.{load, content, IsProbed, Absent, Reaches}
use smalltalk_a_vm.Probe.Find.{find_cases, content_stored, content-Absent}
use smalltalk_a_vm.Vm.SymbolTable.{Symbol, SymbolTable, symbol_hash, slot_at, probe, lookup}
use smalltalk_a_vm.Vm.SymbolTable.Slot.{slots, Hashed, is_symbol, probe-eq-find}

pub record IsValid (st : SymbolTable) : Type 0 where
  pub power : (e : ℕ) × (st.capacity ≡ 2 ^ e)
  pub sized : length st.slots ≡ st.capacity
  pub probed : IsProbed slots st.slots
  pub hashed : (p : ℕ) → Hashed (slot_at st.slots p)
  pub counted : st.count ≡ load slots st.slots
  pub slack : st.count * 10 ≤ st.capacity * 7
  pub large : 1 ≤ st.capacity
  pub small : st.capacity ≤ 2 ^ 28

pub room : {st : SymbolTable} → IsValid st → load slots st.slots < length st.slots
room v = omega arith

-- The symbol that stands for some bytes, 0 for none.
abbrev pub oop_of : Option Symbol → ℕ
oop_of none = 0
oop_of (some s) = s.oop

abbrev pub oop_in : Option (Option Symbol) → ℕ
oop_in none = 0
oop_in (some s) = oop_of s

-- Where `probe` stops.
pub probe_cases :
    (st : SymbolTable) (k : List ℕ)
    → IsValid st
    → (p : ℕ) × (probe st k (symbol_hash k) ≡ some p)
      × (p < length st.slots)
      × Reaches slots st.slots k p
      × (((s : Symbol) × (slot_at st.slots p ≡ some s)
            × (is_symbol k (some s) ≡ true)
            × (content slots st.slots k ≡ some (some s)))
          ⊎ ((slot_at st.slots p ≡ none)
              × (content slots st.slots k ≡ none)
              × Absent slots st.slots k))
probe_cases st k v =
    let (e, c) = v.power in
    let (p, found, inside, r, split) = find_cases slots st.slots k v.probed (room v) in
    (
      p,
      probe-eq-find st k e c (omega arith) v.sized v.hashed ∙ found,
      inside,
      r,
      elim split [
        | inl h ↦ elim (Option-cases (slot_at st.slots p)) [
          | inl n ↦ let h' = rw n at h in absurd (ground arith)
          | inr (s, n) ↦ inl (
            s,
            n,
            subst (λ x. is_symbol k x ≡ true) n h,
            content_stored slots st.slots k (some s) v.probed
                (p, inside, n, subst (λ x. is_symbol k x ≡ true) n h),
          )
        ]
        | inr (f, absent) ↦ elim (Option-cases (slot_at st.slots p)) [
          | inl n ↦ inr (n, content-Absent slots st.slots k absent (room v), absent)
          | inr (s, n) ↦ let f' = rw n at f in absurd (ground arith)
        ]
      ],
    )

pub lookup-eq-content :
    (st : SymbolTable) (k : List ℕ)
    → IsValid st
    → lookup st k ≡ some (oop_in (content slots st.slots k))
unfolding lookup
lookup-eq-content st k v =
    let (p, found, _, _, c) = probe_cases st k v in
    elim c [
      | inl e ↦ let (s, at, _, h) = e in rw (found, at, h, lookup) refl
      | inr e ↦ let (at, h, _) = e in rw (found, at, h, lookup) refl
    ]
