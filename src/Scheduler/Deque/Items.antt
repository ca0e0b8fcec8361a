-- ===== src/Scheduler/Deque/Items.antt =====
-- The actors that a deque holds, from the top to the bottom.
use smalltalk_a_vm.Prelude.{
  ℕ, zero, suc, ◌+◌, ◌-◌, ◌%◌, ◌^◌, ◌≤◌, ◌<◌, ◌≡◌, ◌≢◌, refl, sym, ap, ap₂, ◌∙◌, arith, List, [],
  ◌∷◌, ◌++◌, length, get_or, set, get_or-set_ne,
}
use smalltalk_a_vm.Prelude.Words.{bit_and_mask}
use smalltalk_a_vm.Probe.Ring.{ring_injective}
use smalltalk_a_vm.Scheduler.Deque.{WorkDeque, slot, size}

abbrev pub items_from : List ℕ → ℕ → ℕ → List ℕ
items_from buf t zero = []
items_from buf t (suc n) = get_or buf (t % 1024) 0 ∷ items_from buf (t + 1) n

abbrev pub items : WorkDeque → List ℕ
items dq = items_from dq.buf dq.top (size dq)

pub record IsValid (dq : WorkDeque) : Type 0 where
  pub sized : length dq.buf ≡ 1024
  pub top_word : dq.top < 2 ^ 32
  pub bottom_word : dq.bottom < 2 ^ 32
  pub bounded : size dq ≤ 1024

pub slot-eq : (i : ℕ) → slot i ≡ i % 1024
slot-eq i = bit_and_mask 10 i

pub items_last :
    (buf : List ℕ) (n t : ℕ)
    → items_from buf t (suc n) ≡ items_from buf t n ++ (get_or buf ((t + n) % 1024) 0 ∷ [])
items_last buf zero t = let e : t + 0 ≡ t = omega arith in rw e refl
items_last buf (suc n) t =
    let e : t + 1 + n ≡ t + suc n = omega arith in
    ap (λ xs. get_or buf (t % 1024) 0 ∷ xs)
      (items_last buf n (t + 1)
        ∙ ap (λ k. items_from buf (t + 1) n ++ (get_or buf (k % 1024) 0 ∷ [])) e)

-- Only the position round the ring matters.
pub items_ring :
    (buf : List ℕ) (n t u : ℕ) → t % 1024 ≡ u % 1024 → items_from buf t n ≡ items_from buf u n
items_ring buf zero t u e = refl
items_ring buf (suc n) t u e =
    ap₂ (λ k xs. get_or buf k 0 ∷ xs) e (items_ring buf n (t + 1) (u + 1) (omega arith))

-- A write at the bottom reaches none of up to 1023 items.
pub items-set :
    (buf : List ℕ) (v n t b : ℕ)
    → t + n ≤ b
    → b < t + 1024
    → items_from (set buf (b % 1024) v) t n ≡ items_from buf t n
items-set buf v zero t b lo hi = refl
items-set buf v (suc n) t b lo hi =
    ap₂ (λ x xs. x ∷ xs) (get_or-set_ne buf (b % 1024) (t % 1024) v 0 apart)
      (items-set buf v n (t + 1) b (omega arith) (omega arith))
  where
    apart : b % 1024 ≢ t % 1024
    apart e =
        let d : b ≡ t + (b - t) = omega arith in
        let z : t + 0 ≡ t = omega arith in
        let same =
          ring_injective 1024 t (b - t) 0 (omega arith) (omega arith)
            (ap (λ k. k % 1024) (sym d) ∙ e ∙ ap (λ k. k % 1024) (sym z)) in
        omega arith
