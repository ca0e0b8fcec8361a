-- ===== src/Actor/FutureTable/Laws.antt =====
-- The future table as a map: what creation and removal change of what lookups return.
use native.Mathlib.Nat.{mod-eq_of_lt}
use smalltalk_a_vm.Prelude.{
  ℕ, ◌+◌, ◌*◌, ◌%◌, ◌^◌, ◌≤◌, ◌<◌, ◌≡◌, ◌≢◌, refl, sym, ap, ◌∙◌, arith, true, false, some, set,
  length-set, ◌==◌, if◌then◌else◌, inl, inr, Bool-cases,
}
use smalltalk_a_vm.Probe.{content, Absent}
use smalltalk_a_vm.Probe.Invariant.{load-set_fresh}
use smalltalk_a_vm.Probe.Entries.{stored_set}
use smalltalk_a_vm.Probe.Content.{store_lem}
use smalltalk_a_vm.Actor.FutureTable.{
  Bucket, FutureTable, bucket_at, is_taken, needs_grow, table_rehash, insert_new, put_future, new,
  find_future, retain_found,
}
use smalltalk_a_vm.Actor.FutureTable.Slot.{slots, has_future}
use smalltalk_a_vm.Actor.FutureTable.Invariant.{IsValid, room, future_in, future_of, find_future-eq}
use smalltalk_a_vm.Actor.FutureTable.Growth.{free_spot_lem, table_rehash-IsValid}

abbrev new_bucket : FutureTable → ℕ → Bucket
new_bucket t f = record { future = f; future_id = t.next_id }

-- The table that holds `f` under the next id and is otherwise `t`.
record IsExtended (t : FutureTable) (f : ℕ) (t' : FutureTable) : Type 0 where
  valid : IsValid t'
  counts : t'.next_id ≡ t.next_id + 1
  here : content slots t'.buckets t.next_id ≡ some (new_bucket t f)
  elsewhere : (j : ℕ) → j ≢ t.next_id → content slots t'.buckets j ≡ content slots t.buckets j

module _ (t : FutureTable) (v : IsValid t) (f : ℕ) (proper : f ≢ 0) (ids : t.next_id + 1 < 2 ^ 32)
    (slack : t.count * 10 < t.capacity * 7) where
  unissued : Absent slots t.buckets t.next_id
  unissued p a = elim (Bool-cases (has_future t.next_id (bucket_at t.buckets p))) [
    | inr g ↦ g
    | inl h ↦ absurd (omega (arith, v.issued t.next_id (bucket_at t.buckets p) (p, a, refl, h)))
  ]

  insert_new-IsExtended : (t' : FutureTable) × (insert_new t f ≡ some (t', f)) × IsExtended t f t'
  unfolding insert_new
  insert_new-IsExtended =
      let (e, c) = v.power in
      let b = new_bucket t f in
      let (p, found, inside, vacant, r) =
        free_spot_lem e t.capacity c (omega arith) t.buckets b v.sized
          (omega (arith, room v, v.sized)) in
      let held : has_future t.next_id b ≡ true = ground arith in
      let taken : is_taken b ≡ true = ground arith in
      let fresh = load-set_fresh slots t.buckets p b inside taken vacant in
      let (probed, at, other) =
        store_lem slots t.buckets t.next_id p b v.probed (room v) inside held r
          (λ i a h. let n = unissued i a in absurd (ground arith)) (λ j h. absurd (ground arith))
          (omega (arith, fresh, length-set t.buckets p b, v.counted, v.sized)) in
      let count : (t.count + 1) % 2 ^ 32 ≡ t.count + 1 = mod-eq_of_lt (omega arith) in
      let id : (t.next_id + 1) % 2 ^ 32 ≡ t.next_id + 1 = mod-eq_of_lt ids in
      (
        record t { buckets = set t.buckets p b; count = t.count + 1; next_id = t.next_id + 1 },
        ap (put_future t f) found ∙ rw (count, id),
        record {
          valid = record {
            power = v.power;
            sized = length-set t.buckets p b ∙ v.sized;
            probed = probed;
            counted = omega (arith, fresh, v.counted);
            slack = omega arith;
            large = v.large;
            small = v.small;
            issued = λ k x s. elim (stored_set slots t.buckets p b inside vacant k x s) [
              | inl old ↦ omega (arith, v.issued k x old)
              | inr (same, h) ↦
                  let h' : has_future k b ≡ true = rw (sym same) at h in
                  let k' : k ≡ t.next_id = ground arith in omega (arith, v.next_pos)
            ];
            next_pos = omega arith;
          };
          counts = refl;
          here = at;
          elsewhere = other;
        },
      )

not_full : (t : FutureTable) → IsValid t → needs_grow t ≡ false → t.count * 10 < t.capacity * 7
unfolding needs_grow
not_full t v h =
    let a : t.capacity * 7 % 2 ^ 32 ≡ t.capacity * 7 = mod-eq_of_lt (omega (arith, v.small)) in
    let b : t.count * 10 % 2 ^ 32 ≡ t.count * 10 = mod-eq_of_lt (omega (arith, v.slack, v.small)) in
    ground arith

after_growth :
    (t : FutureTable)
    → IsValid t
    → t.capacity ≤ 2 ^ 28
    → (table_rehash t (t.capacity * 2 % 2 ^ 32)).count * 10
      < (table_rehash t (t.capacity * 2 % 2 ^ 32)).capacity * 7
unfolding table_rehash
after_growth t v h = omega (arith, v.slack, v.large)

-- A change of the map is a change of what lookups return.
abbrev pub Answers : FutureTable → FutureTable → ℕ → ℕ → Type 0
Answers t t' id f =
    (j : ℕ) (refcounts : ℕ → ℕ)
    → find_future t' refcounts j
      ≡ (if j == id then (f, retain_found refcounts f) else find_future t refcounts j)

pub Answers-of_content :
    (t t' : FutureTable) (id f : ℕ)
    → IsValid t
    → IsValid t'
    → future_in (content slots t'.buckets id) ≡ f
    → ((j : ℕ) → j ≢ id → content slots t'.buckets j ≡ content slots t.buckets j)
    → Answers t t' id f
unfolding future_of
Answers-of_content t t' id f v v' here other j refcounts = elim (Bool-cases (j == id)) [
  | inl e ↦ let same : j ≡ id = ground arith in rw (e, find_future-eq t' refcounts j v', same, here)
  | inr ne ↦
      rw (
        ne,
        find_future-eq t' refcounts j v',
        find_future-eq t refcounts j v,
        other j (ground arith),
      )
]

module _ (t : FutureTable) (f : ℕ) (v : IsValid t) (proper : f ≢ 0) (ids : t.next_id + 1 < 2 ^ 32)
    (grows : t.capacity ≤ 2 ^ 28) where
  extended : (t' : FutureTable) × (new t f true ≡ some (t', f)) × IsExtended t f t'
  unfolding new table_rehash
  extended =
      let nonzero : (f == 0) ≡ false = ground arith in
      elim (Bool-cases (needs_grow t)) [
        | inr fits ↦
            let slack : t.count * 10 < t.capacity * 7 = not_full t v fits in
            let (t', e, x) = insert_new-IsExtended t v f proper ids slack in
            (t', rw (nonzero, fits) e, x)
        | inl full ↦
            let (w, same) = table_rehash-IsValid t v grows in
            let (t', e, x) =
              insert_new-IsExtended (table_rehash t (t.capacity * 2 % 2 ^ 32)) w f proper ids
                (after_growth t v grows) in
            (
              t',
              rw (nonzero, full) e,
              record {
                valid = x.valid;
                counts = x.counts;
                here = x.here;
                elsewhere = λ j ne. x.elsewhere j ne ∙ same j;
              },
            )
      ]

-- A new future in a valid table, with memory, ids left below 2^32 and a capacity of at most 2^28,
-- gets the next id: from then on a lookup of that id returns it and retains it, every other lookup
-- returns what it did, and the table is valid with the id counter advanced by one.
pub new-find :
    (t : FutureTable) (f : ℕ)
    → IsValid t
    → f ≢ 0
    → t.next_id + 1 < 2 ^ 32
    → t.capacity ≤ 2 ^ 28
    → (t' : FutureTable) × (new t f true ≡ some (t', f))
      × IsValid t'
      × (t'.next_id ≡ t.next_id + 1)
      × Answers t t' t.next_id f
new-find t f v proper ids grows =
    let (t', e, x) = extended t f v proper ids grows in
    (
      t',
      e,
      x.valid,
      x.counts,
      Answers-of_content t t' t.next_id f v x.valid (ap future_in x.here) x.elsewhere,
    )
