-- ===== src/Actor/FutureTable/Invariant.antt =====
-- The invariant of the future table, and what a lookup returns under it.
use smalltalk_a_vm.Prelude.{
  ℕ, ◌+◌, ◌*◌, ◌^◌, ◌≤◌, ◌<◌, ◌≡◌, refl, ◌∙◌, arith, true, Option, none, some, length, ◌==◌, ◌⊎◌,
  inl, inr, Bool-cases,
}
use smalltalk_a_vm.Probe.{load, content, IsProbed, Stored}
use smalltalk_a_vm.Probe.Find.{find_cases, content_stored, content-Absent}
use smalltalk_a_vm.Actor.FutureTable.{
  Bucket, FutureTable, bucket_at, scan, find_future, retain_found,
}
use smalltalk_a_vm.Actor.FutureTable.Slot.{slots, scan-eq-find}

pub record IsValid (t : FutureTable) : Type 0 where
  pub power : (e : ℕ) × (t.capacity ≡ 2 ^ e)
  pub sized : length t.buckets ≡ t.capacity
  pub probed : IsProbed slots t.buckets
  pub counted : t.count ≡ load slots t.buckets
  pub slack : t.count * 10 < t.capacity * 7 + 10
  pub large : 8 ≤ t.capacity
  pub small : t.capacity ≤ 2 ^ 29
  -- Ids are given out in order, from 1 on.
  pub issued : (k : ℕ) (b : Bucket) → Stored slots t.buckets k b → (0 < k) × (k < t.next_id)
  pub next_pos : 0 < t.next_id

pub room : {t : FutureTable} → IsValid t → load slots t.buckets < length t.buckets
room v = omega arith

abbrev pub future_in : Option Bucket → ℕ
future_in none = 0
future_in (some b) = b.future

unfoldable pub future_of : FutureTable → ℕ → ℕ
future_of t id = future_in (content slots t.buckets id)

-- Where the loop of lookup and removal stops.
pub scan_cases :
    (t : FutureTable) (id : ℕ)
    → IsValid t
    → (pos : ℕ) × (scan t id ≡ some pos)
      × (pos < length t.buckets)
      × (((slots.holds id (bucket_at t.buckets pos) ≡ true)
            × (content slots t.buckets id ≡ some (bucket_at t.buckets pos)))
          ⊎ (((bucket_at t.buckets pos).future ≡ 0) × (content slots t.buckets id ≡ none)))
scan_cases t id v =
    let (e, c) = v.power in
    let (p, found, inside, _, split) = find_cases slots t.buckets id v.probed (room v) in
    (
      p,
      scan-eq-find t e id c (omega arith) v.sized ∙ found,
      inside,
      elim split [
        | inl h ↦ inl (h, content_stored slots t.buckets id _ v.probed (p, inside, refl, h))
        | inr (f, absent) ↦ inr (ground arith, content-Absent slots t.buckets id absent (room v))
      ],
    )

-- Id 0 is never in the table.
pub zero_content : (t : FutureTable) → IsValid t → content slots t.buckets 0 ≡ none
zero_content t v =
    let (p, found, inside, _, split) = find_cases slots t.buckets 0 v.probed (room v) in
    elim split [
      | inl h ↦ absurd (omega (arith, v.issued 0 (bucket_at t.buckets p) (p, inside, refl, h)))
      | inr (f, absent) ↦ content-Absent slots t.buckets 0 absent (room v)
    ]

pub find_future-eq :
    (t : FutureTable) (refcounts : ℕ → ℕ) (id : ℕ)
    → IsValid t
    → find_future t refcounts id ≡ (future_of t id, retain_found refcounts (future_of t id))
unfolding find_future future_of
find_future-eq t refcounts id v = elim (Bool-cases (id == 0)) [
  | inl z ↦
      let e : id ≡ 0 = ground arith in rw (z, e, zero_content t v) (unfold retain_found in refl)
  | inr nz ↦
      let (pos, found, inside, c) = scan_cases t id v in
      elim c [ inl (h, s) ↦ rw (nz, found, s) | inr (z, s) ↦ rw (nz, found, s, z) ]
]
