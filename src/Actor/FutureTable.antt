-- ===== src/Actor/FutureTable.antt =====
-- The table of futures, src/actor/future_table.c: a map from future ids to futures by open
-- addressing, where a removal puts the entries after it again. A pointer is a number, 0 for NULL;
-- a bucket shows the id of the future that it points to, which never changes. Each operation runs
-- under the table's mutex, so it is one step here; what `calloc` returns is an argument. A new
-- future's own fields, which the table does not read, are left out.
pub mod Slot
pub mod Invariant
pub mod Growth
pub mod Laws
pub mod Remove
pub mod Create
use smalltalk_a_vm.Prelude.{
  ℕ, ◌+◌, ◌-◌, ◌*◌, ◌%◌, ◌^◌, Bool, true, false, not, ◌&&◌, ◌||◌, Option, none, some, List, [], ◌∷◌,
  get_or, set, replicate, leb, ◌==◌, if◌then◌else◌, bit_and,
}
use smalltalk_a_vm.Prelude.Pow2.{next_pow2}
use smalltalk_a_vm.Probe.{seek, walk}
use smalltalk_a_vm.Probe.Rehash.{rehash}
use smalltalk_a_vm.Probe.Gap.{close_gap}

-- One element of `buckets`, with `future_id` of the future.
pub record Bucket : Type 0 where
  pub future : ℕ
  pub future_id : ℕ

abbrev pub no_future : Bucket
no_future = record { future = 0; future_id = 0 }

-- `STA_FutureTable`
pub record FutureTable : Type 0 where
  pub buckets : List Bucket
  pub capacity : ℕ
  pub count : ℕ
  pub next_id : ℕ

abbrev pub bucket_at : List Bucket → ℕ → Bucket
bucket_at bs i = get_or bs i no_future

abbrev pub is_taken : Bucket → Bool
is_taken b = not (b.future == 0)

-- `t->count * 10 >= t->capacity * 7`, in 32 bits.
unfoldable pub needs_grow : FutureTable → Bool
needs_grow t = leb (t.capacity * 7 % 2 ^ 32) (t.count * 10 % 2 ^ 32)

abbrev pub slot_index : ℕ → ℕ → ℕ
slot_index future_id mask = bit_and future_id mask

-- `(idx + 1) & mask`
abbrev pub next_index : ℕ → ℕ → ℕ
next_index mask idx = bit_and ((idx + 1) % 2 ^ 32) mask

-- `while (buckets[idx]) idx = (idx + 1) & mask;` from the start of the future in `b`.
unfoldable pub free_spot : ℕ → List Bucket → Bucket → Option ℕ
free_spot cap bs b =
    walk (λ x. x.future == 0) (bucket_at bs) (next_index (cap - 1)) cap
      (slot_index b.future_id (cap - 1))

-- `table_rehash`, after `calloc`.
unfoldable pub table_rehash : FutureTable → ℕ → FutureTable
table_rehash t new_cap = record t {
  buckets = rehash is_taken (free_spot new_cap) t.buckets (replicate new_cap no_future);
  capacity = new_cap;
}

-- `sta_future_table_create`, where every allocation succeeds.
unfoldable pub create : ℕ → FutureTable
create initial_capacity =
    let cap = next_pow2 (if leb 8 initial_capacity then initial_capacity else 8) in
    record { buckets = replicate cap no_future; capacity = cap; count = 0; next_id = 1 }

abbrev pub put_future : FutureTable → ℕ → Option ℕ → Option (FutureTable × ℕ)
put_future t f none = none
put_future t f (some idx) = some (
  record t {
    buckets = set t.buckets idx (record { future = f; future_id = t.next_id });
    count = (t.count + 1) % 2 ^ 32;
    next_id = (t.next_id + 1) % 2 ^ 32;
  },
  f,
)

-- What `sta_future_table_new` does once there is room.
unfoldable pub insert_new : FutureTable → ℕ → Option (FutureTable × ℕ)
insert_new t f =
    put_future t f (free_spot t.capacity t.buckets (record { future = f; future_id = t.next_id }))

-- `sta_future_table_new`: `f` is what `calloc` returns for the future, `memory` says whether it has
-- room for a wider table. The second part is the result. `none` is a loop that does not end within
-- one turn.
unfoldable pub new : FutureTable → ℕ → Bool → Option (FutureTable × ℕ)
new t f memory =
    if f == 0
    then some (t, 0)
    else if needs_grow t
    then (if memory then insert_new (table_rehash t (t.capacity * 2 % 2 ^ 32)) f else some (t, 0))
    else insert_new t f

-- The loop that lookup and removal share: up to an empty bucket, or to the id.
unfoldable pub scan : FutureTable → ℕ → Option ℕ
scan t future_id =
    seek (λ b. b.future == 0 || b.future_id == future_id) (bucket_at t.buckets)
      (λ i. bit_and ((slot_index future_id (t.capacity - 1) + i) % 2 ^ 32) (t.capacity - 1))
      t.capacity 0

-- `sta_future_retain` on the result, on the reference counts of all futures by address.
unfoldable pub retain_found : (ℕ → ℕ) → ℕ → ℕ → ℕ
retain_found refcounts result f =
    if not (result == 0) && f == result then (refcounts f + 1) % 2 ^ 32 else refcounts f

abbrev pub found_future : FutureTable → Option ℕ → ℕ
found_future t none = 0
found_future t (some pos) = (bucket_at t.buckets pos).future

-- `sta_future_table_lookup`
unfoldable pub find_future : FutureTable → (ℕ → ℕ) → ℕ → ℕ × (ℕ → ℕ)
find_future t refcounts future_id =
    if future_id == 0
    then (0, refcounts)
    else (let result = found_future t (scan t future_id) in (result, retain_found refcounts result))

abbrev pub closed : FutureTable → Option (List Bucket) → Option FutureTable
closed t none = none
closed t (some bs) = some (record t { buckets = bs; count = (t.count + (2 ^ 32 - 1)) % 2 ^ 32 })

-- The entries after the one that was removed are taken out and put again; each of these lowers and
-- raises `count` by one.
unfoldable pub remove_at : FutureTable → ℕ → Option FutureTable
remove_at t pos = closed t (
    close_gap no_future is_taken (free_spot t.capacity) (next_index (t.capacity - 1)) t.capacity
      (next_index (t.capacity - 1) pos) (set t.buckets pos no_future))

abbrev pub remove_found : FutureTable → Option ℕ → Option FutureTable
remove_found t none = some t
remove_found t (some pos) =
    if (bucket_at t.buckets pos).future == 0 then some t else remove_at t pos

-- `sta_future_table_remove`; `none` is a loop that does not end within one turn.
unfoldable pub remove : FutureTable → ℕ → Option FutureTable
remove t future_id = if future_id == 0 then some t else remove_found t (scan t future_id)

-- The futures that `sta_future_table_destroy` releases, in order.
unfoldable pub destroy_table : List Bucket → List ℕ
destroy_table [] = []
destroy_table (b ∷ bs) = if is_taken b then b.future ∷ destroy_table bs else destroy_table bs
