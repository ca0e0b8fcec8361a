-- ===== src/Probe/Content.antt =====
-- What stands under each key after a write.
use smalltalk_a_vm.Prelude.{
  ◌↔◌, ℕ, ◌<◌, ◌≡◌, ◌≢◌, refl, sym, ◌∙◌, subst, arith, true, false, none, some, List, length, set,
  length-set, get_or-set_self, get_or-set_ne, ℕ_discrete, Bool-cases, inl, inr,
}
use smalltalk_a_vm.Probe.{Slots, slot_at, load, Reaches, Absent, IsProbed, content, Stored}
use smalltalk_a_vm.Probe.Invariant.{write-IsProbed, holds_elsewhere}
use smalltalk_a_vm.Probe.Find.{find_cases, content_stored, content-Absent}

-- What stands under a key depends on the entries alone.
pub content_of_entries :
    {S K : Type 0} (t : Slots S K) (xs ys : List S) (k : K)
    → IsProbed t xs
    → IsProbed t ys
    → load t xs < length xs
    → load t ys < length ys
    → ((s : S) → Stored t ys k s ↔ Stored t xs k s)
    → content t ys k ≡ content t xs k
content_of_entries t xs ys k v w a b same =
    let (p, _, inside, _, split) = find_cases t xs k v a in
    elim split [
      | inl h ↦
          content_stored t ys k (slot_at t xs p) w ((same (slot_at t xs p)).1 (p, inside, refl, h))
          ∙ sym (content_stored t xs k (slot_at t xs p) v (p, inside, refl, h))
      | inr (f, absent) ↦
          content-Absent t ys k
            (λ q q_in. elim (Bool-cases (t.holds k (slot_at t ys q))) [
              | inr g ↦ g
              | inl g ↦
                  let (r, r_in, e, h) = (same (slot_at t ys q)).0 (q, q_in, refl, g) in
                  let n = absent r r_in in absurd (let h' = rw (sym e) at h in ground arith)
            ])
            b
          ∙ sym (content-Absent t xs k absent a)
    ]

module _ {S K : Type 0} (t : Slots S K) (xs : List S) (p : ℕ) (s : S) (inside : p < length xs) where
  -- If the write leaves a probed table with room, and neither the old nor the new slot at `p`
  -- holds `j`, then `j` stands where it did.
  pub content_elsewhere :
      (j : K)
      → IsProbed t xs
      → load t xs < length xs
      → IsProbed t (set xs p s)
      → load t (set xs p s) < length (set xs p s)
      → t.holds j (slot_at t xs p) ≡ false
      → t.holds j s ≡ false
      → content t (set xs p s) j ≡ content t xs j
  content_elsewhere j v room v' room' before after =
      let (q, _, a, _, c) = find_cases t xs j v room in
      elim c [
        | inl h ↦
            content_stored t (set xs p s) j _ v' (q, rw (length-set xs p s) a, kept q h, h)
            ∙ sym (content_stored t xs j _ v (q, a, refl, h))
        | inr (f, absent) ↦
            content-Absent t (set xs p s) j (gone absent) room'
            ∙ sym (content-Absent t xs j absent room)
      ]
    where
      kept : (q : ℕ) → t.holds j (slot_at t xs q) ≡ true → slot_at t (set xs p s) q ≡ slot_at t xs q
      kept q h = elim (ℕ_discrete p q) [
        | no ne ↦ get_or-set_ne xs p q s t.empty ne
        | yes e ↦
            let h' = subst (λ r. t.holds j (slot_at t xs r) ≡ true) (sym e) h in
            absurd (ground arith)
      ]

      gone : Absent t xs j → Absent t (set xs p s) j
      gone absent q b = elim (ℕ_discrete p q) [
        | no ne ↦ rw (get_or-set_ne xs p q s t.empty ne) (absent q (rw (sym (length-set xs p s)) b))
        | yes e ↦
            subst (λ r. t.holds j (slot_at t (set xs p s) r) ≡ false) e
              (rw (get_or-set_self xs p s t.empty inside) after)
      ]

  pub content_written :
      (k : K) → IsProbed t (set xs p s) → t.holds k s ≡ true → content t (set xs p s) k ≡ some s
  content_written k v' h =
      content_stored t (set xs p s) k s v'
        (p, rw (length-set xs p s) inside, get_or-set_self xs p s t.empty inside, h)

  pub content_buried :
      (k : K)
      → IsProbed t xs
      → t.holds k (slot_at t xs p) ≡ true
      → t.holds k s ≡ false
      → load t (set xs p s) < length (set xs p s)
      → content t (set xs p s) k ≡ none
  content_buried k v h after room' = content-Absent t (set xs p s) k gone room'
    where
      gone : Absent t (set xs p s) k
      gone q b = elim (ℕ_discrete p q) [
        | yes e ↦
            subst (λ r. t.holds k (slot_at t (set xs p s) r) ≡ false) e
              (rw (get_or-set_self xs p s t.empty inside) after)
        | no ne ↦ elim (Bool-cases (t.holds k (slot_at t (set xs p s) q))) [
          | inr f ↦ f
          | inl h' ↦ absurd (
              ne (
                v.one k p q inside (rw (sym (length-set xs p s)) b) h
                  (holds_elsewhere t xs p s inside k q ne h')))
        ]
      ]

-- Storing an entry where a search for its key comes to: the table's map is updated at that key.
module _ {S K : Type 0} (t : Slots S K) (xs : List S) (k : K) (p : ℕ) (s : S) where
  pub store_lem :
      IsProbed t xs
      → load t xs < length xs
      → p < length xs
      → t.holds k s ≡ true
      → Reaches t xs k p
      → ((q : ℕ) → q < length xs → t.holds k (slot_at t xs q) ≡ true → q ≡ p)
      → ((j : K) → t.holds j (slot_at t xs p) ≡ true → j ≡ k)
      → load t (set xs p s) < length (set xs p s)
      → IsProbed t (set xs p s)
        × (content t (set xs p s) k ≡ some s)
        × ((j : K) → j ≢ k → content t (set xs p s) j ≡ content t xs j)
  store_lem v room inside h r only alone room' =
      let v' = write-IsProbed t xs k p s v inside h r only in
      (
        v',
        content_written t xs p s inside k v' h,
        λ j ne. content_elsewhere t xs p s inside j v room v' room' (before j ne) (after j ne),
      )
    where
      before : (j : K) → j ≢ k → t.holds j (slot_at t xs p) ≡ false
      before j ne = elim (Bool-cases (t.holds j (slot_at t xs p))) [
        | inr f ↦ f
        | inl g ↦ absurd (ne (alone j g))
      ]

      after : (j : K) → j ≢ k → t.holds j s ≡ false
      after j ne = elim (Bool-cases (t.holds j s)) [
        | inr f ↦ f
        | inl g ↦ absurd (ne (t.holds_one j k s g h))
      ]
