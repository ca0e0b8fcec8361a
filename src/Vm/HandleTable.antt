-- ===== src/Vm/HandleTable.antt =====
-- The handle table, src/vm/handle.c: reference-counted handles in slabs of 64 that stay where they
-- are, with a free list through the unused ones.
-- The slabs are numbered along their chain, so that the slab after `s` is `s + 1`; a pointer to a
-- handle is the number of its slab and its place there. Whether `calloc` succeeds is an argument.
pub mod Free
pub mod Threading
pub mod Count
pub mod Laws
pub mod Release
pub mod Create
use smalltalk_a_vm.Prelude.{
  ℕ, zero, suc, ◌+◌, ◌-◌, ◌*◌, ◌/◌, ◌%◌, ◌^◌, Bool, true, false, ◌&&◌, Option, none, some, ltb,
  ◌==◌, if◌then◌else◌,
}
use smalltalk_a_vm.Prelude.Words.{u32_max}

-- `STA_HANDLE_SLAB_SIZE`
abbrev pub slab_size : ℕ
slab_size = 64

-- `struct STA_Handle`
pub record Handle : Type 0 where
  pub oop : ℕ
  pub refcount : ℕ
  pub next_free : ℕ

-- `STA_Handle *`
pub record Pointer : Type 0 where
  pub slab : ℕ
  pub slot : ℕ

-- `STA_HandleTable`, with the entries of its slabs.
pub record HandleTable : Type 0 where
  pub entries : ℕ → ℕ → Handle
  pub first : ℕ
  pub last : ℕ
  pub slab_count : ℕ
  pub count : ℕ
  pub free_head : ℕ

-- `*h` and `*h = v`
abbrev pub entry_at : HandleTable → Pointer → Handle
entry_at t h = t.entries h.slab h.slot

abbrev pub store : (ℕ → ℕ → Handle) → ℕ → ℕ → Handle → ℕ → ℕ → Handle
store entries s i v s' i' = if s' == s && i' == i then v else entries s' i'

-- The loop `for (i = 0; i < n; i++) s = s->next;`
abbrev pub nth_slab : ℕ → ℕ → ℕ
nth_slab zero s = s
nth_slab (suc n) s = nth_slab n (s + 1)

unfoldable pub index_to_entry : HandleTable → ℕ → Pointer
index_to_entry t idx = record { slab = nth_slab (idx / slab_size) t.first; slot = idx % slab_size }

-- The loop of `entry_to_index` from slab `s` on, the `slab_idx`-th; the assertion fails past the
-- end of the chain.
unfoldable pub slab_search : Pointer → ℕ → ℕ → ℕ → Option ℕ
slab_search h zero s slab_idx = none
slab_search h (suc slabs) s slab_idx =
    let rest = slab_search h slabs (s + 1) ((slab_idx + 1) % 2 ^ 32) in
    if s == h.slab && ltb h.slot slab_size
    then some ((slab_idx * slab_size + h.slot) % 2 ^ 32)
    else rest

unfoldable pub entry_to_index : HandleTable → Pointer → Option ℕ
unfolding slab_search
entry_to_index t h = slab_search h t.slab_count t.first 0

-- The first `n` rounds of the loop of `thread_slab_free_list`.
unfoldable pub thread_slots : (ℕ → ℕ → Handle) → ℕ → ℕ → ℕ → ℕ → ℕ → Handle
thread_slots entries s base_index zero = entries
thread_slots entries s base_index (suc n) =
    let before = thread_slots entries s base_index n in
    store before s n
      (record (before s n) { refcount = 0; next_free = (base_index + n + 1) % 2 ^ 32 })

unfoldable pub thread_slab_free_list : HandleTable → ℕ → HandleTable
thread_slab_free_list t base_index =
    let before = thread_slots t.entries t.last base_index (slab_size - 1) in
    record t {
      entries =
          store before t.last (slab_size - 1)
            (record (before t.last (slab_size - 1)) { refcount = 0; next_free = t.free_head });
      free_head = base_index;
    }

-- What `calloc` leaves in a slab.
abbrev pub cleared : Handle
cleared = record { oop = 0; refcount = 0; next_free = 0 }

-- `sta_handle_table_init`, where `calloc` succeeds.
unfoldable pub init : HandleTable
unfolding thread_slab_free_list
init =
    thread_slab_free_list
      (record {
        entries = λ s i. cleared;
        first = 0;
        last = 0;
        slab_count = 1;
        count = 0;
        free_head = u32_max;
      })
      0

-- `handle_table_grow`
unfoldable pub grow : HandleTable → Bool → Option HandleTable
unfolding thread_slab_free_list
grow t memory =
    if memory
    then some (
        thread_slab_free_list
          (record t {
            entries = λ s i. if s == t.last + 1 then cleared else t.entries s i;
            last = t.last + 1;
            slab_count = (t.slab_count + 1) % 2 ^ 32;
          })
          (t.slab_count * slab_size % 2 ^ 32))
    else none

abbrev pub take_entry : HandleTable → ℕ → Pointer → HandleTable × Pointer
take_entry t oop h = (
  record t {
    free_head = (entry_at t h).next_free;
    entries =
        store t.entries h.slab h.slot (record { oop = oop; refcount = 1; next_free = u32_max });
    count = (t.count + 1) % 2 ^ 32;
  },
  h,
)

-- What `sta_handle_create` does once there is a free entry.
unfoldable pub take_free : HandleTable → ℕ → HandleTable × Pointer
unfolding index_to_entry
take_free t oop = take_entry t oop (index_to_entry t t.free_head)

abbrev pub create_in : Option HandleTable → ℕ → Option (HandleTable × Pointer)
create_in none oop = none
create_in (some t) oop = some (take_free t oop)

-- `sta_handle_create`; `none` is the return of NULL.
unfoldable pub create : HandleTable → Bool → ℕ → Option (HandleTable × Pointer)
unfolding grow take_free
create t memory oop =
    if t.free_head == u32_max then create_in (grow t memory) oop else some (take_free t oop)

-- `sta_handle_get`, `sta_handle_retain_entry` and `sta_handle_release_entry`; `none` is a failed
-- assertion.
unfoldable pub get : HandleTable → Pointer → Option ℕ
get t h = if ltb 0 (entry_at t h).refcount then some (entry_at t h).oop else none

unfoldable pub retain_entry : HandleTable → Pointer → Option HandleTable
retain_entry t h =
    if ltb 0 (entry_at t h).refcount
    then some (record t {
      entries =
          store t.entries h.slab h.slot
            (record (entry_at t h) { refcount = ((entry_at t h).refcount + 1) % 2 ^ 32 });
    })
    else none

-- The entry goes to the front of the free list, by its index.
abbrev pub release_at : HandleTable → Pointer → Option ℕ → Option HandleTable
release_at t h none = none
release_at t h (some idx) = some (record t {
  entries =
      store t.entries h.slab h.slot (record { oop = 0; refcount = 0; next_free = t.free_head });
  free_head = idx;
  count = (t.count + 2 ^ 32 - 1) % 2 ^ 32;
})

unfoldable pub release_entry : HandleTable → Pointer → Option HandleTable
unfolding entry_to_index
release_entry t h =
    if ltb 0 (entry_at t h).refcount
    then (if (entry_at t h).refcount == 1
        then release_at t h (entry_to_index t h)
        else some (record t {
          entries =
              store t.entries h.slab h.slot
                (record (entry_at t h) { refcount = (entry_at t h).refcount - 1 });
        }))
    else none
