-- ===== src/Actor/FutureTable/Growth.antt =====
-- Growing the future table, and the loop that finds a free bucket.
use native.Mathlib.Nat.{pow-suc, mod-eq_of_lt}
use smalltalk_a_vm.Prelude.{
  ℕ, suc, ◌*◌, ◌%◌, ◌^◌, ◌≤◌, ◌<◌, ◌≡◌, refl, sym, ap, ◌∙◌, arith, true, false, some, List, [], ◌∷◌,
  length, ◌==◌, inl, inr,
}
use smalltalk_a_vm.Probe.{Slots, seek, load, content, IsProbed, Reaches, ring_pos, slot_at, Stored}
use smalltalk_a_vm.Probe.Entries.{live_count}
use smalltalk_a_vm.Probe.Find.{search_ends, find_cases, content_stored, content-Absent}
use smalltalk_a_vm.Probe.Rehash.{rehash_lem}
use smalltalk_a_vm.Actor.FutureTable.{Bucket, FutureTable, is_taken, table_rehash, free_spot}
use smalltalk_a_vm.Actor.FutureTable.Slot.{slots, has_future, free_spot-eq-ring}
use smalltalk_a_vm.Actor.FutureTable.Invariant.{IsValid, room}

-- The loop ends at an empty bucket that a search for the id comes to.
pub free_spot_lem :
    (e cap : ℕ)
    → cap ≡ 2 ^ e
    → cap < 2 ^ 32
    → (bs : List Bucket) (b : Bucket) → length bs ≡ cap
    → load slots bs < cap
    → (p : ℕ) × (free_spot cap bs b ≡ some p)
      × (p < length bs)
      × (is_taken (slot_at slots bs p) ≡ false)
      × Reaches slots bs b.future_id p
free_spot_lem e cap c small bs b len room =
    let (p, found, a, stopped, r) =
      search_ends slots bs b.future_id (λ y. y.future == 0) (λ y f. ground arith) (omega arith) in
    (
      p,
      free_spot-eq-ring bs b e cap c small
          ∙ ap
              (λ n. seek (λ y. y.future == 0) (slot_at slots bs) (ring_pos slots n b.future_id) n 0)
              (sym len)
          ∙ found,
      a,
      ground arith,
      r,
    )

load-eq-live : (bs : List Bucket) → live_count slots is_taken bs ≡ load slots bs
load-eq-live [] = refl
load-eq-live (b ∷ bs) = ground (arith, load-eq-live bs)

pub taken_has : (b : Bucket) → is_taken b ≡ true → has_future b.future_id b ≡ true
taken_has b h = ground arith

has_taken : (k : ℕ) (b : Bucket) → has_future k b ≡ true → is_taken b ≡ true
has_taken k b h = ground arith

-- What a lookup of the map finds is stored.
pub content-Stored :
    {S K : Type 0} (t : Slots S K) (xs : List S) (k : K) (s : S)
    → IsProbed t xs
    → load t xs < length xs
    → content t xs k ≡ some s
    → Stored t xs k s
content-Stored t xs k s v a e =
    let (p, _, inside, _, split) = find_cases t xs k v a in
    elim split [
      | inl h ↦
          let c = content_stored t xs k (slot_at t xs p) v (p, inside, refl, h) in
          let same : slot_at t xs p ≡ s = cc in (p, inside, same, rw same at h)
      | inr (f, absent) ↦ let c = content-Absent t xs k absent a in absurd (cc)
    ]

-- A wider table holds the same futures.
pub table_rehash-IsValid :
    (t : FutureTable)
    → IsValid t
    → t.capacity ≤ 2 ^ 28
    → IsValid (table_rehash t (t.capacity * 2 % 2 ^ 32))
      × ((k : ℕ)
          → content slots (table_rehash t (t.capacity * 2 % 2 ^ 32)).buckets k
            ≡ content slots t.buckets k)
unfolding table_rehash
table_rehash-IsValid t v grows =
    let (e, c) = v.power in
    let double : t.capacity * 2 % 2 ^ 32 ≡ t.capacity * 2 = mod-eq_of_lt (omega arith) in
    let power : t.capacity * 2 % 2 ^ 32 ≡ 2 ^ suc e = omega (arith, pow-suc 2 e) in
    let few = load-eq-live t.buckets in
    let (len, probed, counted, lived, same) =
      rehash_lem slots is_taken (λ b. b.future_id) (free_spot (t.capacity * 2 % 2 ^ 32))
        (t.capacity * 2 % 2 ^ 32) taken_has has_taken
        (λ bs b l w r h absent.
          free_spot_lem (suc e) (t.capacity * 2 % 2 ^ 32) power (omega arith) bs b l r)
        t.buckets v.probed (room v) (omega (arith, double, v.counted, v.sized, room v)) in
    (
      record {
        power = (suc e, power);
        sized = len;
        probed = probed;
        counted = v.counted ∙ sym (counted ∙ few);
        slack = omega (arith, double, v.slack);
        large = omega (arith, double, v.large);
        small = omega (arith, double);
        issued = λ k b s. v.issued k b (
            content-Stored slots t.buckets k b v.probed (room v)
              (sym (same k) ∙ content_stored slots _ k b probed s));
        next_pos = v.next_pos;
      },
      same,
    )
