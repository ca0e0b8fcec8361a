-- ===== src/Probe/Rehash.antt =====
-- Putting the entries of an old array into a fresh one, one by one.
use smalltalk_a_vm.Prelude.{
  ℕ, ◌+◌, ◌<◌, ◌≡◌, refl, sym, ◌∙◌, subst, arith, Bool, true, false, Option, none, some, List, [],
  ◌∷◌, length, set, replicate, length-set, length-replicate, get_or-replicate, Bool-cases, ◌⊎◌, inl,
  inr, if◌then◌else◌,
}
use smalltalk_a_vm.Probe.{Slots, slot_at, load, Reaches, Absent, IsProbed, content, Stored}
use smalltalk_a_vm.Probe.Invariant.{
  replicate-IsProbed, load-replicate, write-IsProbed, load-set_fresh,
}
use smalltalk_a_vm.Probe.Entries.{
  Listed, Distinct, live_count, listed_stored, stored_listed, Single-Distinct, stored_keep,
  stored_new, stored_set, Absent-set, live_count-set, live_count-replicate,
}
use smalltalk_a_vm.Probe.Find.{find_cases, content_stored, content-Absent}

-- `fresh[spot(fresh, s)] = s;`
abbrev pub put_at {ℓ} : {S : Type ℓ} → Option ℕ → S → List S → List S
put_at none s new = new
put_at (some p) s new = set new p s

-- The loop over the old array: entries that are not live are skipped, the others go to the slot
-- that the table's own probing loop picks.
unfoldable pub rehash {ℓ} :
    {S : Type ℓ} → (S → Bool) → (List S → S → Option ℕ) → List S → List S → List S
rehash live spot [] new = new
rehash live spot (s ∷ old) new =
    rehash live spot old (if live s then put_at (spot new s) s new else new)

module _ {S K : Type 0} (t : Slots S K) where
  module _ (live : S → Bool) (key : S → K) (spot : List S → S → Option ℕ) (cap : ℕ)
      (live_holds : (s : S) → live s ≡ true → t.holds (key s) s ≡ true)
      (holds_live : (k : K) (s : S) → t.holds k s ≡ true → live s ≡ true)
      (spot_free : (new : List S) (s : S)
        → length new ≡ cap
        → IsProbed t new
        → load t new < cap
        → live s ≡ true
        → Absent t new (key s)
        → (p : ℕ) × (spot new s ≡ some p)
          × (p < length new)
          × (t.occupied (slot_at t new p) ≡ false)
          × Reaches t new (key s) p) where
    not_live : (s : S) → t.occupied s ≡ false → live s ≡ false
    not_live s f = elim (Bool-cases (live s)) [
      | inr d ↦ d
      | inl l ↦ let o = t.holds_occupied (key s) s (live_holds s l) in absurd (ground arith)
    ]

    -- What the loop has made of the old entries and of a new array that held none of them.
    record Moved (old new out : List S) : Type 0 where
      pub sized : length out ≡ cap
      pub probed : IsProbed t out
      pub counted : load t out ≡ load t new + live_count t live old
      pub lived : live_count t live out ≡ live_count t live new + live_count t live old
      pub complete : (k : K) (s : S) → (Stored t new k s) ⊎ (Listed t old k s) → Stored t out k s
      pub sound : (k : K) (s : S) → Stored t out k s → (Stored t new k s) ⊎ (Listed t old k s)

    -- One round of the loop, for an entry that is skipped and for one that is moved.
    skipped :
        (x : S) (old new out : List S)
        → live x ≡ false
        → Moved old new out
        → Moved (x ∷ old) new out
    skipped x old new out dead m = record {
      sized = m.sized;
      probed = m.probed;
      counted = ground (arith, m.counted);
      lived = ground (arith, m.lived);
      complete = λ k s h. elim h [
        | inl a ↦ m.complete k s (inl a)
        | inr (inl (e, g)) ↦ let l = holds_live k s g in absurd (ground arith)
        | inr (inr b) ↦ m.complete k s (inr b)
      ];
      sound = λ k s h. elim (m.sound k s h) [ inl a ↦ inl a | inr b ↦ inr (inr b) ];
    }

    placed :
        (x : S) (old new : List S) (p : ℕ) (out : List S)
        → live x ≡ true
        → (inside : p < length new) → (vacant : t.occupied (slot_at t new p) ≡ false)
        → Moved old (set new p x) out
        → Moved (x ∷ old) new out
    placed x old new p out alive inside vacant m = record {
      sized = m.sized;
      probed = m.probed;
      counted = ground (
        arith,
        m.counted,
        load-set_fresh t new p x inside (t.holds_occupied (key x) x (live_holds x alive)) vacant,
      );
      lived = ground (arith, m.lived, live_count-set t live new p x inside, not_live _ vacant);
      complete = λ k s h. elim h [
        | inl a ↦ m.complete k s (inl (stored_keep t new p x inside vacant k s a))
        | inr (inl (e, g)) ↦ m.complete k s (
            inl
              (subst (Stored t (set new p x) k) e (stored_new t new p x inside vacant k (rw e g))))
        | inr (inr b) ↦ m.complete k s (inr b)
      ];
      sound = λ k s h. elim (m.sound k s h) [
        | inl a ↦ elim (stored_set t new p x inside vacant k s a) [
          | inl b ↦ inl b
          | inr c ↦ inr (inl c)
        ]
        | inr b ↦ inr (inr b)
      ];
    }

    rehash-Moved :
        (old new : List S)
        → length new ≡ cap
        → IsProbed t new
        → load t new + live_count t live old < cap
        → Distinct t old
        → ((k : K) (s : S) → Listed t old k s → Absent t new k)
        → Moved old new (rehash live spot old new)
    unfolding rehash
    rehash-Moved [] new len v room d apart = record {
      sized = len;
      probed = v;
      counted = omega arith;
      lived = omega arith;
      complete = λ k s h. elim h [ inl a ↦ a | inr b ↦ absurd b ];
      sound = λ k s h. inl h;
    }
    rehash-Moved (x ∷ old) new len v room d apart = elim (Bool-cases (live x)) [
      | inr dead ↦
          let m = rehash-Moved old new len v (ground arith) d.1 (λ k s l. apart k s (inr l)) in
          rw dead (skipped x old new _ dead m)
      | inl alive ↦
          let absent = apart (key x) x (inl (refl, live_holds x alive)) in
          let (p, e, a, f, r) = spot_free new x len v (ground arith) alive absent in
          let m =
            rehash-Moved old (set new p x) (length-set new p x ∙ len)
              (write-IsProbed t new (key x) p x v a (live_holds x alive) r
                (λ q b h. let c = absent q b in absurd (ground arith)))
              (ground (
                arith,
                load-set_fresh t new p x a (t.holds_occupied (key x) x (live_holds x alive)) f,
              ))
              d.1 (λ k s l. Absent-set t new p x a f k (apart k s (inr l)) (λ h. d.0 k s h l)) in
          rw (alive, e) (placed x old new p _ alive a f m)
    ]

    -- Rehashing into an empty array keeps what stands under every key, and drops the tombstones.
    pub rehash_lem :
        (old : List S)
        → IsProbed t old
        → load t old < length old
        → live_count t live old < cap
        → let out = rehash live spot old (replicate cap t.empty) in
          (length out ≡ cap)
          × IsProbed t out
          × (load t out ≡ live_count t live old)
          × (live_count t live out ≡ live_count t live old)
          × ((k : K) → content t out k ≡ content t old k)
    rehash_lem old v full room = (m.sized, m.probed, counted, lived, same)
      where
        fresh : List S
        fresh = replicate cap t.empty

        out : List S
        out = rehash live spot old fresh

        nothing : (k : K) → Absent t fresh k
        nothing k p a = elim (Bool-cases (t.holds k (slot_at t fresh p))) [
          | inr f ↦ f
          | inl h ↦
              let o = t.holds_occupied k t.empty (rw (get_or-replicate cap t.empty p) at h) in
              absurd (ground (arith, t.empty_free))
        ]

        m : Moved old fresh out
        m =
            rehash-Moved old fresh (length-replicate cap t.empty) (replicate-IsProbed t cap)
              (rw (load-replicate t cap) (omega arith)) (Single-Distinct t old v.one)
              (λ k s l. nothing k)

        counted : load t out ≡ live_count t live old
        counted = omega (arith, m.counted, load-replicate t cap)

        lived : live_count t live out ≡ live_count t live old
        lived =
            omega (arith, m.lived, live_count-replicate t live cap (not_live t.empty t.empty_free))

        out_room : load t out < length out
        out_room = omega (arith, counted, m.sized)

        gone : (k : K) → Absent t old k → Absent t out k
        gone k absent q b = elim (Bool-cases (t.holds k (slot_at t out q))) [
          | inr f ↦ f
          | inl h ↦ elim (m.sound k _ (q, b, refl, h)) [
            | inl (r, c, e, h') ↦
                let n = nothing k r c in let h'' = rw (sym e) at h' in absurd (ground arith)
            | inr l ↦
                let (r, c, e, h') = listed_stored t old k _ l in
                let n = absent r c in let h'' = rw (sym e) at h' in absurd (ground arith)
          ]
        ]

        same : (k : K) → content t out k ≡ content t old k
        same k =
            let (p, _, a, _, c) = find_cases t old k v full in
            elim c [
              | inl h ↦
                  content_stored t out k _ m.probed
                    (m.complete k _ (inr (stored_listed t old k _ p a refl h)))
                  ∙ sym (content_stored t old k _ v (p, a, refl, h))
              | inr (f, absent) ↦
                  content-Absent t out k (gone k absent) out_room
                  ∙ sym (content-Absent t old k absent full)
            ]
