-- ===== src/Actor/Registry/Slot.antt =====
-- The registry's entries as slots, and its loops as searches round the ring.
use smalltalk_a_vm.Prelude.{
  ℕ, ◌-◌, ◌^◌, ◌<◌, ◌≡◌, ◌≢◌, refl, sym, ap, ◌∙◌, arith, Bool, true, not, ◌&&◌, ◌||◌, List, length,
  ◌==◌,
}
use mathlib.Core.Path.{fun_ext}
use smalltalk_a_vm.Probe.{Slots, seek, walk, slot_at, ring_pos, stops_at, find}
use smalltalk_a_vm.Probe.Ring.{step_mask32, start_mask}
use smalltalk_a_vm.Probe.Seek.{walk-eq-seek}
use smalltalk_a_vm.Actor.Registry.{
  Entry, Registry, no_entry, entry_empty, entry_tombstone, entry_at, is_live, start_slot, next_slot,
  rehash_spot, search,
}

abbrev pub in_use : Entry → Bool
in_use e = not (e.actor_id == entry_empty)

abbrev pub has_id : ℕ → Entry → Bool
has_id k e = is_live e && e.actor_id == k

pub in_use_if_has_id : (k : ℕ) (e : Entry) → has_id k e ≡ true → in_use e ≡ true
in_use_if_has_id k e h = ground arith

pub one_id : (j k : ℕ) (e : Entry) → has_id j e ≡ true → has_id k e ≡ true → j ≡ k
one_id j k e h h' = ground arith

abbrev pub slots : Slots Entry ℕ
slots = record {
  empty = no_entry;
  occupied = in_use;
  holds = has_id;
  home = λ k. k;
  empty_free = refl;
  holds_occupied = in_use_if_has_id;
  holds_one = one_id;
}

-- The loops written with a mask visit the ring, where the capacity is a power of two.
pub walk-eq-ring :
    (stop : Entry → Bool) (es : List Entry) (e cap k n : ℕ)
    → cap ≡ 2 ^ e
    → cap < 2 ^ 32
    → walk stop (entry_at es) (next_slot (cap - 1)) n (start_slot k (cap - 1))
      ≡ seek stop (slot_at slots es) (ring_pos slots cap k) n 0
walk-eq-ring stop es e cap k n c small =
    ap (walk stop (entry_at es) (next_slot (cap - 1)) n) (start_mask e cap k c)
    ∙ walk-eq-seek stop (entry_at es) (ring_pos slots cap k) (next_slot (cap - 1))
        (λ i. step_mask32 e cap k i c small) n 0

pub rehash_spot-eq-ring :
    (es : List Entry) (x : Entry) (e cap : ℕ)
    → cap ≡ 2 ^ e
    → cap < 2 ^ 32
    → rehash_spot cap es x
      ≡ seek
          (λ y. y.actor_id == entry_empty)
          (slot_at slots es)
          (ring_pos slots cap x.actor_id)
          cap
          0
unfolding rehash_spot
rehash_spot-eq-ring es x e cap c small =
    walk-eq-ring (λ y. y.actor_id == entry_empty) es e cap x.actor_id cap c small

-- For an id that is no sentinel, `search` is the search of a probed table.
pub same_stops :
    (id : ℕ) (e : Entry)
    → id ≢ entry_empty
    → id ≢ entry_tombstone
    → (e.actor_id == entry_empty || e.actor_id == id) ≡ stops_at slots id e
same_stops id e a b = ground arith

pub search-eq-find :
    (reg : Registry) (e id : ℕ)
    → reg.capacity ≡ 2 ^ e
    → reg.capacity < 2 ^ 32
    → length reg.entries ≡ reg.capacity
    → id ≢ entry_empty
    → id ≢ entry_tombstone
    → search reg id ≡ find slots reg.entries id
unfolding search
search-eq-find reg e id c small sized a b =
    walk-eq-ring (λ x. x.actor_id == entry_empty || x.actor_id == id) reg.entries e reg.capacity id
      reg.capacity c small
    ∙ ap (λ f. seek f (slot_at slots reg.entries) (ring_pos slots reg.capacity id) reg.capacity 0)
        (fun_ext λ x. same_stops id x a b)
    ∙ ap (λ n. seek (stops_at slots id) (slot_at slots reg.entries) (ring_pos slots n id) n 0)
        (sym sized)
