-- ===== src/Actor/Registry/Growth.antt =====
-- Growing the registry: `registry_rehash` to twice the capacity.
use native.Mathlib.Nat.{pow-suc, mod-eq_of_lt}
use smalltalk_a_vm.Prelude.{
  ℕ, suc, ◌*◌, ◌%◌, ◌^◌, ◌≤◌, ◌<◌, ◌≡◌, sym, ap, ◌∙◌, arith, true, false, some, List, [], ◌∷◌,
  length, ◌==◌,
}
use smalltalk_a_vm.Probe.{seek, load, content, IsProbed, Absent, Reaches, ring_pos, slot_at}
use smalltalk_a_vm.Probe.Entries.{live_count}
use smalltalk_a_vm.Probe.Find.{search_ends}
use smalltalk_a_vm.Probe.Rehash.{rehash_lem}
use smalltalk_a_vm.Actor.Registry.{
  Entry, Registry, entry_empty, is_live, registry_rehash, rehash_spot,
}
use smalltalk_a_vm.Actor.Registry.Slot.{slots, has_id, rehash_spot-eq-ring}
use smalltalk_a_vm.Actor.Registry.Invariant.{IsValid, room}

-- The static loop of `registry_rehash` ends at an empty slot of the fresh array.
spot_free :
    (e cap : ℕ)
    → cap ≡ 2 ^ e
    → cap < 2 ^ 32
    → (fresh : List Entry) (x : Entry) → length fresh ≡ cap
    → IsProbed slots fresh
    → load slots fresh < cap
    → is_live x ≡ true
    → Absent slots fresh x.actor_id
    → (p : ℕ) × (rehash_spot cap fresh x ≡ some p)
      × (p < length fresh)
      × (slots.occupied (slot_at slots fresh p) ≡ false)
      × Reaches slots fresh x.actor_id p
spot_free e cap c small fresh x len v free live absent =
    let (p, found, a, stopped, r) =
      search_ends slots fresh x.actor_id (λ y. y.actor_id == entry_empty) (λ y f. ground arith)
        (omega arith) in
    (
      p,
      rehash_spot-eq-ring fresh x e cap c small
          ∙ ap
              (λ n.
                seek (λ y. y.actor_id == entry_empty) (slot_at slots fresh)
                  (ring_pos slots n x.actor_id) n 0)
              (sym len)
          ∙ found,
      a,
      ground arith,
      r,
    )

pub live-le-load : (es : List Entry) → live_count slots is_live es ≤ load slots es
live-le-load [] = omega arith
live-le-load (e ∷ es) = ground (arith, live-le-load es)

live_has_id : (x : Entry) → is_live x ≡ true → has_id x.actor_id x ≡ true
live_has_id x h = ground arith

has_id_live : (k : ℕ) (x : Entry) → has_id k x ≡ true → is_live x ≡ true
has_id_live k x h = ground arith

-- It keeps the invariant and what stands under every id, and sheds the tombstones.
pub registry_rehash-IsValid :
    (reg : Registry)
    → IsValid reg
    → reg.capacity ≤ 2 ^ 28
    → IsValid (registry_rehash reg (reg.capacity * 2 % 2 ^ 32))
      × ((id : ℕ)
          → content slots (registry_rehash reg (reg.capacity * 2 % 2 ^ 32)).entries id
            ≡ content slots reg.entries id)
unfolding registry_rehash
registry_rehash-IsValid reg v grows =
    let (e, c) = v.power in
    let double : reg.capacity * 2 % 2 ^ 32 ≡ reg.capacity * 2 = mod-eq_of_lt (omega arith) in
    let power : reg.capacity * 2 % 2 ^ 32 ≡ 2 ^ suc e = omega (arith, pow-suc 2 e) in
    let few = live-le-load reg.entries in
    let (len, probed, counted, lived, same) =
      rehash_lem slots is_live (λ x. x.actor_id) (rehash_spot (reg.capacity * 2 % 2 ^ 32))
        (reg.capacity * 2 % 2 ^ 32) live_has_id has_id_live
        (spot_free (suc e) (reg.capacity * 2 % 2 ^ 32) power (omega arith)) reg.entries v.probed
        (room v) (omega (arith, double)) in
    (
      record {
        power = (suc e, power);
        sized = len;
        probed = probed;
        counted = v.counted ∙ sym lived;
        loaded = omega arith;
        slack = omega arith;
        large = omega arith;
        small = omega arith;
      },
      same,
    )
