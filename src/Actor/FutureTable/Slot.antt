-- ===== src/Actor/FutureTable/Slot.antt =====
-- The buckets of the future table as slots, and its loops as searches round the ring.
use native.Mathlib.Nat.{mod-lt, mod-add-mod, mod-eq_of_lt}
use smalltalk_a_vm.Prelude.{
  ℕ, ◌+◌, ◌-◌, ◌%◌, ◌^◌, ◌≤◌, ◌<◌, ◌≡◌, refl, sym, ap, ◌∙◌, arith, Bool, true, ◌&&◌, ◌||◌, List,
  length, ◌==◌, bit_and,
}
use smalltalk_a_vm.Prelude.Words.{bit_and_mask}
use smalltalk_a_vm.Probe.{Slots, seek, walk, slot_at, ring_pos, stops_at, find}
use smalltalk_a_vm.Probe.Ring.{step_mask32, start_mask}
use smalltalk_a_vm.Probe.Seek.{walk-eq-seek, seek-cong}
use smalltalk_a_vm.Actor.FutureTable.{
  Bucket, FutureTable, no_future, bucket_at, is_taken, slot_index, next_index, free_spot, scan,
}

abbrev pub has_future : ℕ → Bucket → Bool
has_future k b = is_taken b && b.future_id == k

pub taken_if_has : (k : ℕ) (b : Bucket) → has_future k b ≡ true → is_taken b ≡ true
taken_if_has k b h = ground arith

pub one_future : (j k : ℕ) (b : Bucket) → has_future j b ≡ true → has_future k b ≡ true → j ≡ k
one_future j k b h h' = ground arith

abbrev pub slots : Slots Bucket ℕ
slots = record {
  empty = no_future;
  occupied = is_taken;
  holds = has_future;
  home = λ k. k;
  empty_free = refl;
  holds_occupied = taken_if_has;
  holds_one = one_future;
}

pub free_spot-eq-ring :
    (bs : List Bucket) (b : Bucket) (e cap : ℕ)
    → cap ≡ 2 ^ e
    → cap < 2 ^ 32
    → free_spot cap bs b
      ≡ seek (λ x. x.future == 0) (slot_at slots bs) (ring_pos slots cap b.future_id) cap 0
unfolding free_spot
free_spot-eq-ring bs b e cap c small =
    ap (walk (λ x. x.future == 0) (bucket_at bs) (next_index (cap - 1)) cap)
      (start_mask e cap b.future_id c)
    ∙ walk-eq-seek (λ x. x.future == 0) (bucket_at bs) (ring_pos slots cap b.future_id)
        (next_index (cap - 1)) (λ i. step_mask32 e cap b.future_id i c small) cap 0

-- The `i`-th position of the loop of lookup and removal.
masked :
    (e cap id i : ℕ)
    → cap ≡ 2 ^ e
    → cap ≤ 2 ^ 31
    → i < cap
    → bit_and ((slot_index id (cap - 1) + i) % 2 ^ 32) (cap - 1) ≡ (id + i) % cap
masked e cap id i c small a =
    ap (λ x. bit_and ((x + i) % 2 ^ 32) (cap - 1)) (start_mask e cap id c)
    ∙ ap (λ x. bit_and x (cap - 1))
        (mod-eq_of_lt (omega (arith, mod-lt (id + 0) {m = cap} (omega arith))))
    ∙ ap (λ m. bit_and ((id + 0) % cap + i) (m - 1)) c
    ∙ bit_and_mask e ((id + 0) % cap + i)
    ∙ ap (λ m. ((id + 0) % cap + i) % m) (sym c)
    ∙ mod-add-mod (id + 0) cap i
    ∙ ap (λ x. x % cap) (omega arith)

pub scan-eq-find :
    (t : FutureTable) (e id : ℕ)
    → t.capacity ≡ 2 ^ e
    → t.capacity ≤ 2 ^ 31
    → length t.buckets ≡ t.capacity
    → scan t id ≡ find slots t.buckets id
unfolding scan
scan-eq-find t e id c small sized =
    seek-cong (λ b. b.future == 0 || b.future_id == id) (stops_at slots id) (bucket_at t.buckets)
      (λ i. bit_and ((slot_index id (t.capacity - 1) + i) % 2 ^ 32) (t.capacity - 1))
      (ring_pos slots t.capacity id) t.capacity 0 (λ b. ground arith)
      (λ j a b. masked e t.capacity id j c small (omega arith))
    ∙ ap (λ n. seek (stops_at slots id) (slot_at slots t.buckets) (ring_pos slots n id) n 0)
        (sym sized)
