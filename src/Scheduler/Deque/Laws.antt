-- ===== src/Scheduler/Deque/Laws.antt =====
-- The deque against a list: pushes and pops at its end, steals at its front.
use smalltalk_a_vm.Prelude.{
  ℕ, suc, ◌+◌, ◌-◌, ◌%◌, ◌^◌, ◌≡◌, ◌≢◌, refl, sym, ap, ap₂, ◌∙◌, arith, true, false, not, none,
  some, [], ◌∷◌, ◌++◌, get_or, set, length-set, get_or-set_self, leb, ◌==◌, ◌⊎◌, inl, inr,
  Bool-cases, ℕ_discrete,
}
use smalltalk_a_vm.Scheduler.Deque.{WorkDeque, slot, minus, is_positive, push, pop, steal, size}
use smalltalk_a_vm.Scheduler.Deque.Items.{
  items, items_from, IsValid, slot-eq, items_last, items_ring, items-set,
}

-- A push puts the actor at the end, or is refused where 1024 are there.
pub push-items :
    (dq : WorkDeque) (a : ℕ)
    → IsValid dq
    → ((size dq ≡ 1024) × (push dq a ≡ none))
      ⊎ ((dq' : WorkDeque) × (push dq a ≡ some dq')
          × IsValid dq'
          × (items dq' ≡ items dq ++ (a ∷ [])))
unfolding push size
push-items dq a v = elim (Bool-cases (leb 1024 (minus dq.bottom dq.top))) [
  | inl full ↦ inl (ground (arith, v.bounded), rw full refl)
  | inr room ↦ inr (
    record { top = dq.top; bottom = (dq.bottom + 1) % 2 ^ 32; buf = set dq.buf (slot dq.bottom) a },
    rw room refl,
    record {
      sized = length-set dq.buf (slot dq.bottom) a ∙ v.sized;
      top_word = v.top_word;
      bottom_word = omega arith;
      bounded = ground (arith, more);
    },
    ap (λ n. items_from (set dq.buf (slot dq.bottom) a) dq.top n) more
        ∙ items_last (set dq.buf (slot dq.bottom) a) n dq.top
        ∙ ap₂ (λ xs x. xs ++ (x ∷ [])) (kept room) (last room),
  )
]
  where
    n : ℕ
    n = minus dq.bottom dq.top

    more : minus ((dq.bottom + 1) % 2 ^ 32) dq.top ≡ suc n
    more = omega (arith, v.bounded, v.top_word, v.bottom_word)

    at : slot dq.bottom ≡ (dq.top + n) % 1024
    at = slot-eq dq.bottom ∙ omega (arith, v.top_word, v.bottom_word)

    kept :
        leb 1024 n ≡ false
        → items_from (set dq.buf (slot dq.bottom) a) dq.top n ≡ items_from dq.buf dq.top n
    kept room =
        ap (λ k. items_from (set dq.buf k a) dq.top n) at
        ∙ items-set dq.buf a n dq.top (dq.top + n) (omega arith) (ground arith)

    last : leb 1024 n ≡ false → get_or (set dq.buf (slot dq.bottom) a) ((dq.top + n) % 1024) 0 ≡ a
    last room =
        ap (λ k. get_or (set dq.buf k a) ((dq.top + n) % 1024) 0) at
        ∙ get_or-set_self dq.buf ((dq.top + n) % 1024) a 0 (omega (arith, v.sized))

-- A steal takes the first actor, or returns NULL where none is there and changes nothing.
pub steal-items :
    (dq : WorkDeque)
    → IsValid dq
    → ((items dq ≡ []) × (steal dq ≡ (dq, 0)))
      ⊎ ((dq' : WorkDeque) × (a : ℕ) × (steal dq ≡ (dq', a))
          × IsValid dq'
          × (items dq ≡ a ∷ items dq'))
unfolding steal size
steal-items dq v = elim (ℕ_discrete (minus dq.bottom dq.top) 0) [
  | yes none_there ↦
      let stop : not (is_positive (minus dq.bottom dq.top)) ≡ true = ground arith in
      inl (ap (items_from dq.buf dq.top) none_there, rw stop refl)
  | no some_there ↦
      let go : not (is_positive (minus dq.bottom dq.top)) ≡ false = ground (arith, v.bounded) in
      let less : minus dq.bottom ((dq.top + 1) % 2 ^ 32) ≡ n - 1 =
        omega (arith, v.bounded, v.top_word, v.bottom_word) in
      let more : n ≡ suc (n - 1) = omega arith in
      inr (
        record dq { top = (dq.top + 1) % 2 ^ 32 },
        get_or dq.buf (slot dq.top) 0,
        rw go refl,
        record {
          sized = v.sized;
          top_word = omega arith;
          bottom_word = v.bottom_word;
          bounded = omega (arith, less, v.bounded);
        },
        ap (items_from dq.buf dq.top) more
            ∙ ap₂ (λ k xs. get_or dq.buf k 0 ∷ xs) (sym (slot-eq dq.top))
                (items_ring dq.buf (n - 1) (dq.top + 1) ((dq.top + 1) % 2 ^ 32) (omega arith)
                  ∙ ap (items_from dq.buf ((dq.top + 1) % 2 ^ 32)) (sym less)),
      )
]
  where
    n : ℕ
    n = minus dq.bottom dq.top

-- Where the bottom counter stands at 0, as it does once in 2^32 pushes, a pop returns NULL and
-- changes nothing, whatever is there. Elsewhere it takes the last actor, or returns NULL and
-- changes nothing where none is there.
pub pop-items :
    (dq : WorkDeque)
    → IsValid dq
    → (((items dq ≡ []) ⊎ (dq.bottom ≡ 0)) × (pop dq ≡ (dq, 0)))
      ⊎ ((dq' : WorkDeque) × (a : ℕ) × (dq.bottom ≢ 0)
          × (pop dq ≡ (dq', a))
          × IsValid dq'
          × (items dq ≡ items dq' ++ (a ∷ [])))
unfolding pop size
pop-items dq v = elim (ℕ_discrete dq.bottom 0) [
  | yes z ↦
      let wrapped : (dq.bottom == 0) ≡ true = ground arith in inl (inr z, rw (wrapped, pop) refl)
  | no nz ↦
      let plain : (dq.bottom == 0) ≡ false = ground arith in
      elim (ℕ_discrete n 0) [
        | yes none_there ↦
            let stop : is_positive (minus dq.top (dq.bottom - 1)) ≡ true =
              ground (arith, v.top_word, v.bottom_word) in
            let back : (dq.bottom - 1 + 1) % 2 ^ 32 ≡ dq.bottom = omega (arith, v.bottom_word) in
            inl (inl (ap (items_from dq.buf dq.top) none_there), rw (plain, stop, back, pop) refl)
        | no some_there ↦
            let go : is_positive (minus dq.top (dq.bottom - 1)) ≡ false =
              ground (arith, v.bounded, v.top_word, v.bottom_word) in
            elim (ℕ_discrete n 1) [
              | yes one ↦
                  let same : (dq.top == dq.bottom - 1) ≡ true =
                    ground (arith, v.top_word, v.bottom_word) in
                  let zero_left : minus ((dq.top + 1) % 2 ^ 32) ((dq.top + 1) % 2 ^ 32) ≡ 0 =
                    omega arith in
                  let at : slot (dq.bottom - 1) ≡ dq.top % 1024 =
                    slot-eq (dq.bottom - 1) ∙ omega (arith, v.top_word, v.bottom_word) in
                  inr (
                    record dq { top = (dq.top + 1) % 2 ^ 32; bottom = (dq.top + 1) % 2 ^ 32 },
                    get_or dq.buf (slot (dq.bottom - 1)) 0,
                    nz,
                    rw (plain, go, same, pop) refl,
                    record {
                      sized = v.sized;
                      top_word = omega arith;
                      bottom_word = omega arith;
                      bounded = omega (arith, zero_left);
                    },
                    ap (items_from dq.buf dq.top) one
                        ∙ ap (λ k. get_or dq.buf k 0 ∷ []) (sym at)
                        ∙ ap
                            (λ k.
                              items_from dq.buf ((dq.top + 1) % 2 ^ 32) k
                              ++ (get_or dq.buf (slot (dq.bottom - 1)) 0 ∷ []))
                            (sym zero_left),
                  )
              | no several ↦
                  let other : (dq.top == dq.bottom - 1) ≡ false =
                    ground (arith, v.top_word, v.bottom_word) in
                  let less : minus (dq.bottom - 1) dq.top ≡ n - 1 =
                    omega (arith, v.bounded, v.top_word, v.bottom_word) in
                  let more : n ≡ suc (n - 1) = omega arith in
                  let at : slot (dq.bottom - 1) ≡ (dq.top + (n - 1)) % 1024 =
                    slot-eq (dq.bottom - 1) ∙ omega (arith, v.bounded, v.top_word, v.bottom_word) in
                  inr (
                    record dq { bottom = dq.bottom - 1 },
                    get_or dq.buf (slot (dq.bottom - 1)) 0,
                    nz,
                    rw (plain, go, other, pop) refl,
                    record {
                      sized = v.sized;
                      top_word = v.top_word;
                      bottom_word = omega (arith, v.bottom_word);
                      bounded = omega (arith, less, v.bounded);
                    },
                    ap (items_from dq.buf dq.top) more
                        ∙ items_last dq.buf (n - 1) dq.top
                        ∙ ap₂ (λ k m. items_from dq.buf dq.top m ++ (get_or dq.buf k 0 ∷ []))
                            (sym at) (sym less),
                  )
            ]
      ]
]
  where
    n : ℕ
    n = minus dq.bottom dq.top
