-- ===== src/Actor/Registry/Create.antt =====
-- `sta_registry_create`: a valid table with no actor.
use smalltalk_a_vm.Prelude.{
  ℕ, Bool-cases, inl, inr, ◌^◌, ◌≤◌, ◌≡◌, ◌∙◌, refl, sym, arith, none, some, leb, replicate,
  length-replicate, get_or-replicate,
}
use smalltalk_a_vm.Prelude.Pow2.{next_pow2, round_up_lem}
use smalltalk_a_vm.Probe.{content}
use smalltalk_a_vm.Probe.Invariant.{replicate-IsProbed, load-replicate}
use smalltalk_a_vm.Probe.Entries.{live_count-replicate}
use smalltalk_a_vm.Probe.Find.{content-Absent}
use smalltalk_a_vm.Actor.Registry.{Registry, no_entry, is_live, create, lookup}
use smalltalk_a_vm.Actor.Registry.Slot.{slots}
use smalltalk_a_vm.Actor.Registry.Invariant.{
  IsValid, room, actor_of, lookup-eq-actor_of, retained-null,
}

capacity_power :
    (n : ℕ)
    → 8 ≤ n
    → n ≤ 2 ^ 28
    → (k : ℕ) × (next_pow2 n ≡ 2 ^ k) × (n ≤ next_pow2 n) × (next_pow2 n ≤ 2 ^ 29)
unfolding next_pow2
capacity_power n lo hi =
    let (k, _, e, above, below) = round_up_lem 1 n (omega arith) (omega arith) in
    (k, e, omega (arith, e), omega (arith, e, below))

-- The array that `calloc` returns.
module _ (n k : ℕ) (lo : 8 ≤ n) (hi : n ≤ 2 ^ 29) (power : n ≡ 2 ^ k) where
  abbrev vacant : Registry
  vacant = record { entries = replicate n no_entry; capacity = n; count = 0; used = 0 }

  vacant-IsValid : IsValid vacant
  vacant-IsValid = record {
    power = (k, power);
    sized = length-replicate n no_entry;
    probed = replicate-IsProbed slots n;
    counted = sym (live_count-replicate slots is_live n refl);
    loaded = sym (load-replicate slots n);
    slack = omega arith;
    large = lo;
    small = hi;
  }

  vacant-lookup : (id : ℕ) (refcounts : ℕ → ℕ) → lookup vacant refcounts id ≡ some (0, refcounts)
  unfolding actor_of
  vacant-lookup id refcounts =
      lookup-eq-actor_of vacant refcounts id vacant-IsValid ∙ rw (nothing, retained-null)
    where
      nothing : content slots (replicate n no_entry) id ≡ none
      nothing =
          content-Absent slots (replicate n no_entry) id
            (λ p a. ground (arith, get_or-replicate n no_entry p)) (room vacant-IsValid)

abbrev fresh_of : ℕ → Registry
fresh_of n = record {
  entries = replicate (next_pow2 n) no_entry;
  capacity = next_pow2 n;
  count = 0;
  used = 0;
}

-- For any request of at least 8 slots.
rounded :
    (n : ℕ)
    → 8 ≤ n
    → n ≤ 2 ^ 28
    → IsValid (fresh_of n)
      × (n ≤ next_pow2 n)
      × ((id : ℕ) (refcounts : ℕ → ℕ) → lookup (fresh_of n) refcounts id ≡ some (0, refcounts))
rounded n lo hi =
    let (k, power, above, below) = capacity_power n lo hi in
    (
      vacant-IsValid (next_pow2 n) k (omega arith) below power,
      above,
      vacant-lookup (next_pow2 n) k (omega arith) below power,
    )

-- Creating a registry rounds the capacity up to a power of two that is not below the request, and
-- leaves it valid; every lookup then finds nothing. The request is at most 2^28.
pub create-IsValid :
    (initial : ℕ)
    → initial ≤ 2 ^ 28
    → IsValid (create initial)
      × (initial ≤ (create initial).capacity)
      × ((id : ℕ) (refcounts : ℕ → ℕ) → lookup (create initial) refcounts id ≡ some (0, refcounts))
unfolding create
create-IsValid initial h = elim (Bool-cases (leb 8 initial)) [
  | inl big ↦ rw big (rounded initial (ground arith) h)
  | inr few ↦ let (v, a, l) = rounded 8 (omega arith) (omega arith) in rw few (v, ground arith, l)
]
