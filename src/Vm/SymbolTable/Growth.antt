-- ===== src/Vm/SymbolTable/Growth.antt =====
-- `table_grow` keeps what stands under every string.
use native.Mathlib.Nat.{pow-suc, mod-eq_of_lt}
use smalltalk_a_vm.Prelude.{
  ℕ, suc, ◌+◌, ◌*◌, ◌%◌, ◌^◌, ◌≤◌, ◌<◌, ◌≡◌, refl, sym, ap, ◌∙◌, subst, arith, Bool, true, false,
  ◌&&◌, Option, none, some, List, [], ◌∷◌, length, set, replicate, get_or-replicate,
  get_or-set_self, get_or-set_ne, get_or_past, length-set, ◌==◌, inl, inr, Bool-cases, ℕ_discrete,
  dec_lt,
}
use smalltalk_a_vm.Probe.{seek, load, content, IsProbed, Absent, Reaches, ring_pos, slot_at}
use smalltalk_a_vm.Probe.Entries.{live_count}
use smalltalk_a_vm.Probe.Find.{search_ends}
use smalltalk_a_vm.Probe.Rehash.{rehash, rehash_lem, put_at}
use smalltalk_a_vm.Vm.SymbolTable.{
  Symbol, SymbolTable, symbol_hash, is_empty, get_hash, grow_spot, table_grow,
}
use smalltalk_a_vm.Vm.SymbolTable.Slot.{
  slots, Hashed, in_use, is_symbol, bytes_equal_refl, bytes_equal_sound, walk-eq-ring,
}
use smalltalk_a_vm.Vm.SymbolTable.Invariant.{IsValid, room}

abbrev bytes_of : Option Symbol → List ℕ
bytes_of none = []
bytes_of (some s) = s.bytes

-- A slot in use whose symbol carries the right hash; in a valid table that is every one in use.
abbrev sound : Option Symbol → Bool
sound s = in_use s && get_hash s == symbol_hash (bytes_of s)

abbrev AllHashed : List (Option Symbol) → Type 0
AllHashed xs = (p : ℕ) → Hashed (slot_at slots xs p)

sound-Hashed : (s : Option Symbol) → Hashed s → sound s ≡ in_use s
sound-Hashed none h = refl
sound-Hashed (some s) h = ground arith

rehash_sound :
    (spot : List (Option Symbol) → Option Symbol → Option ℕ) (xs new : List (Option Symbol))
    → AllHashed xs
    → rehash in_use spot xs new ≡ rehash sound spot xs new
unfolding rehash
rehash_sound spot [] new h = refl
rehash_sound spot (x ∷ xs) new h =
    rw (sound-Hashed x (h 0)) (rehash_sound spot xs _ (λ p. h (suc p)))

sound-eq-load :
    (xs : List (Option Symbol)) → AllHashed xs → live_count slots sound xs ≡ load slots xs
sound-eq-load [] h = refl
sound-eq-load (x ∷ xs) h = rw (sound-Hashed x (h 0), sound-eq-load xs (λ p. h (suc p))) refl

pub set-Hashed :
    (new : List (Option Symbol)) (q : ℕ) (x : Option Symbol)
    → Hashed x
    → AllHashed new
    → AllHashed (set new q x)
set-Hashed new q x h all p = elim (ℕ_discrete q p) [
  | no ne ↦ subst Hashed (sym (get_or-set_ne new q p x none ne)) (all p)
  | yes e ↦ elim (dec_lt q (length new)) [
    | yes inside ↦
        subst (λ r. Hashed (slot_at slots (set new q x) r)) e
          (subst Hashed (sym (get_or-set_self new q x none inside)) h)
    | no past ↦
        subst Hashed (sym (get_or_past (set new q x) p none (omega (arith, length-set new q x)))) tt
  ]
]

put-Hashed :
    (o : Option ℕ) (x : Option Symbol) (new : List (Option Symbol))
    → Hashed x
    → AllHashed new
    → AllHashed (put_at o x new)
put-Hashed none x new h all = all
put-Hashed (some q) x new h all = set-Hashed new q x h all

rehash-Hashed :
    (spot : List (Option Symbol) → Option Symbol → Option ℕ) (xs new : List (Option Symbol))
    → AllHashed xs
    → AllHashed new
    → AllHashed (rehash in_use spot xs new)
unfolding rehash
rehash-Hashed spot [] new h all = all
rehash-Hashed spot (x ∷ xs) new h all =
    rehash-Hashed spot xs _ (λ p. h (suc p))
      (elim (Bool-cases (in_use x)) [
        | inl live ↦ rw live (put-Hashed (spot new x) x new (h 0) all)
        | inr dead ↦ rw dead all
      ])

sound_holds : (s : Option Symbol) → sound s ≡ true → is_symbol (bytes_of s) s ≡ true
sound_holds none h = absurd (ground arith)
sound_holds (some s) h = rw (bytes_equal_refl s.bytes) (ground arith)

holds_sound : (k : List ℕ) (s : Option Symbol) → is_symbol k s ≡ true → sound s ≡ true
holds_sound k none h = absurd (ground arith)
holds_sound k (some s) h =
    let e = ap symbol_hash (bytes_equal_sound s.bytes k (ground arith)) in ground arith

sound_hash : (s : Option Symbol) → sound s ≡ true → get_hash s ≡ symbol_hash (bytes_of s)
sound_hash none h = absurd (ground arith)
sound_hash (some s) h = ground arith

spot_free :
    (e cap : ℕ)
    → cap ≡ 2 ^ e
    → cap < 2 ^ 32
    → (fresh : List (Option Symbol)) (x : Option Symbol) → length fresh ≡ cap
    → IsProbed slots fresh
    → load slots fresh < cap
    → sound x ≡ true
    → Absent slots fresh (bytes_of x)
    → (p : ℕ) × (grow_spot cap fresh x ≡ some p)
      × (p < length fresh)
      × (slots.occupied (slot_at slots fresh p) ≡ false)
      × Reaches slots fresh (bytes_of x) p
unfolding grow_spot
spot_free e cap c small fresh x len v free live absent =
    let (p, found, a, stopped, r) =
      search_ends slots fresh (bytes_of x) is_empty (λ y f. ground arith) (omega arith) in
    (
      p,
      rw (sound_hash x live) (
          walk-eq-ring is_empty fresh (bytes_of x) e cap cap c small
          ∙ ap
              (λ n.
                seek is_empty (slot_at slots fresh) (ring_pos slots n (symbol_hash (bytes_of x))) n
                  0)
              (sym len)
          ∙ found),
      a,
      ground arith,
      r,
    )

-- It doubles the capacity, which leaves room for one more symbol.
pub table_grow-IsValid :
    (st : SymbolTable)
    → IsValid st
    → st.capacity ≤ 2 ^ 27
    → IsValid (table_grow st)
      × (((table_grow st).count + 1) * 10 ≤ (table_grow st).capacity * 7)
      × ((k : List ℕ) → content slots (table_grow st).slots k ≡ content slots st.slots k)
unfolding table_grow
table_grow-IsValid st v grows =
    let (e, c) = v.power in
    let double : st.capacity * 2 % 2 ^ 32 ≡ st.capacity * 2 = mod-eq_of_lt (omega arith) in
    let power : st.capacity * 2 % 2 ^ 32 ≡ 2 ^ suc e = omega (arith, pow-suc 2 e) in
    let same_rehash =
      rehash_sound (grow_spot (st.capacity * 2 % 2 ^ 32)) st.slots
        (replicate (st.capacity * 2 % 2 ^ 32) none) v.hashed in
    let (len, probed, counted, _, same) =
      rehash_lem slots sound bytes_of (grow_spot (st.capacity * 2 % 2 ^ 32))
        (st.capacity * 2 % 2 ^ 32) sound_holds holds_sound
        (spot_free (suc e) (st.capacity * 2 % 2 ^ 32) power (omega arith)) st.slots v.probed
        (room v) (omega (arith, double, sound-eq-load st.slots v.hashed)) in
    (
      record {
        power = (suc e, power);
        sized = ap length same_rehash ∙ len;
        probed = subst (IsProbed slots) (sym same_rehash) probed;
        hashed =
            rehash-Hashed (grow_spot (st.capacity * 2 % 2 ^ 32)) st.slots
              (replicate (st.capacity * 2 % 2 ^ 32) none) v.hashed
              (λ p. subst Hashed (sym (get_or-replicate (st.capacity * 2 % 2 ^ 32) none p)) tt);
        counted =
            v.counted
            ∙ sym (sound-eq-load st.slots v.hashed)
            ∙ sym counted
            ∙ ap (load slots) (sym same_rehash);
        slack = omega arith;
        large = omega arith;
        small = omega arith;
      },
      omega arith,
      λ k. ap (λ xs. content slots xs k) same_rehash ∙ same k,
    )
