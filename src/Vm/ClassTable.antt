-- ===== src/Vm/ClassTable.antt =====
-- The class table, src/vm/class_table.c: OOPs of classes by index. Index 0 is no class, and the
-- first `reserved_count` indices are fixed.
use smalltalk_a_vm.Prelude.{
  ℕ, ◌-◌, ◌≤◌, ◌<◌, ◌≡◌, ◌≢◌, refl, ap, ◌∙◌, subst, arith, Bool, true, false, not, ◌&&◌, ◌||◌, none,
  some, List, length, get_or, set, replicate, length-set, get_or-set, leb, ◌==◌, if◌then◌else◌, ◌⊎◌,
  inl, inr, Bool-cases, Option-cases, dec_lt,
}
use smalltalk_a_vm.Probe.{seek}
use smalltalk_a_vm.Probe.Seek.{seek_sound, seek-none}

abbrev pub reserved_count : ℕ
reserved_count = 36

abbrev pub initial_capacity : ℕ
initial_capacity = 256

pub record ClassTable : Type 0 where
  pub entries : List ℕ

abbrev pub capacity : ClassTable → ℕ
capacity ct = length ct.entries

-- `sta_class_table_init`, where `calloc` succeeds.
unfoldable pub init : ClassTable
init = record { entries = replicate initial_capacity 0 }

-- `sta_class_table_set`: the table, and whether 0 is returned.
unfoldable pub set_class : ClassTable → ℕ → ℕ → ClassTable × Bool
set_class ct index class_oop =
    if index == 0 || leb (capacity ct) index
    then (ct, false)
    else (record { entries = set ct.entries index class_oop }, true)

unfoldable pub get_class : ClassTable → ℕ → ℕ
get_class ct index = if leb (capacity ct) index then 0 else get_or ct.entries index 0

-- `for (i = first; i < capacity; i++) if (entries[i] == oop) return i; return 0;`
abbrev pub scan : ClassTable → ℕ → ℕ → ℕ
scan ct first oop =
    elim (seek (λ e. e == oop) (λ i. get_or ct.entries i 0) (λ i. i) (capacity ct - first) first) [
      | none ↦ 0
      | some i ↦ i
    ]

unfoldable pub index_of : ClassTable → ℕ → ℕ
index_of ct class_oop = if class_oop == 0 then 0 else scan ct 1 class_oop

unfoldable pub alloc_index : ClassTable → ℕ
alloc_index ct = scan ct reserved_count 0

-- Setting an index in range makes the table return the class there and what it did elsewhere;
-- index 0 and an index out of range are refused, and nothing changes.
pub set_class-get_class :
    (ct : ClassTable) (index class_oop j : ℕ)
    → let (ct', ok) = set_class ct index class_oop in
      (capacity ct' ≡ capacity ct)
      × (ok ≡ not (index == 0 || leb (capacity ct) index))
      × (get_class ct' j ≡ (if ok && j == index then class_oop else get_class ct j))
unfolding set_class get_class
set_class-get_class ct index class_oop j =
    elim (Bool-cases (index == 0 || leb (capacity ct) index)) [
      | inl bad ↦ rw bad (refl, refl, refl)
      | inr good ↦ rw good (len, refl, at good)
    ]
  where
    len : length (set ct.entries index class_oop) ≡ length ct.entries
    len = length-set ct.entries index class_oop

    at :
        (index == 0 || leb (length ct.entries) index) ≡ false
        → (if leb (length (set ct.entries index class_oop)) j
            then 0
            else get_or (set ct.entries index class_oop) j 0)
          ≡ (if j == index
              then class_oop
              else (if leb (length ct.entries) j then 0 else get_or ct.entries j 0))
    at good = rw len (elim (Bool-cases (leb (length ct.entries) j)) [
      | inl past ↦ let ne : (j == index) ≡ false = ground arith in rw (past, ne) refl
      | inr inside ↦ rw inside (get_or-set ct.entries index j class_oop 0 (ground arith) ∙ swap)
    ])
      where
        swap :
            (if index == j then class_oop else get_or ct.entries j 0)
            ≡ (if j == index then class_oop else get_or ct.entries j 0)
        swap = ground arith

scan_lem :
    (ct : ClassTable) (first oop : ℕ)
    → 1 ≤ first
    → first ≤ capacity ct
    → ((scan ct first oop ≡ 0)
        × ((i : ℕ) → first ≤ i → i < capacity ct → (get_or ct.entries i 0 == oop) ≡ false))
      ⊎ ((first ≤ scan ct first oop)
          × (scan ct first oop < capacity ct)
          × (get_or ct.entries (scan ct first oop) 0 ≡ oop)
          × ((i : ℕ) → first ≤ i → i < scan ct first oop → (get_or ct.entries i 0 == oop) ≡ false))
scan_lem ct first oop pos fits =
    elim (Option-cases
      (seek (λ e. e == oop) (λ i. get_or ct.entries i 0) (λ i. i) (capacity ct - first) first)) [
        | inl e ↦
            rw (e, scan)
              (inl (
                refl,
                λ i a b.
                    seek-none (λ e. e == oop) (λ i. get_or ct.entries i 0) (λ i. i)
                      (capacity ct - first) first e i a (omega arith),
              ))
        | inr (p, e) ↦
            let (d, a, b, at, hit, before) =
              seek_sound (λ e. e == oop) (λ i. get_or ct.entries i 0) (λ i. i) (capacity ct - first)
                first p e in
            rw (e, scan)
              (inr (omega arith, omega arith, ground arith, λ i c h. before i c (omega arith)))
      ]

found_least :
    (ct : ClassTable) (first oop i : ℕ)
    → 1 ≤ first
    → first ≤ i
    → i < capacity ct
    → get_class ct i ≡ oop
    → (first ≤ scan ct first oop)
      × (scan ct first oop ≤ i)
      × (get_class ct (scan ct first oop) ≡ oop)
unfolding get_class
found_least ct first oop i pos a b here = elim (scan_lem ct first oop pos (omega arith)) [
  | inl e ↦ let (_, none_there) = e in let n = none_there i a b in absurd (ground arith)
  | inr e ↦
      let (c, d, h, before) = e in
      (
        c,
        elim (dec_lt i (scan ct first oop)) [
          | no n ↦ omega arith
          | yes y ↦ let n = before i a y in absurd (ground arith)
        ],
        ground arith,
      )
]

-- A class that the table holds is found at the least of its indices.
pub index_of-least :
    (ct : ClassTable) (class_oop i : ℕ)
    → class_oop ≢ 0
    → 1 ≤ i
    → i < capacity ct
    → get_class ct i ≡ class_oop
    → (1 ≤ index_of ct class_oop)
      × (index_of ct class_oop ≤ i)
      × (get_class ct (index_of ct class_oop) ≡ class_oop)
unfolding index_of
index_of-least ct class_oop i real a b here =
    let ne : (class_oop == 0) ≡ false = ground arith in
    rw ne (found_least ct 1 class_oop i (omega arith) a b here)

-- While an index that is not reserved is free, the least such one is allocated; storing a class
-- there makes the table return it, and leaves what every other index has.
pub alloc_index-free :
    (ct : ClassTable) (i class_oop j : ℕ)
    → reserved_count ≤ i
    → i < capacity ct
    → get_class ct i ≡ 0
    → (reserved_count ≤ alloc_index ct)
      × (alloc_index ct ≤ i)
      × (get_class ct (alloc_index ct) ≡ 0)
      × (get_class (set_class ct (alloc_index ct) class_oop).0 j
          ≡ (if j == alloc_index ct then class_oop else get_class ct j))
unfolding alloc_index
alloc_index-free ct i class_oop j a b free =
    let (c, d, e) = found_least ct reserved_count 0 i (omega arith) a b free in
    let (_, ok, after) = set_class-get_class ct (alloc_index ct) class_oop j in
    let good : (alloc_index ct == 0 || leb (capacity ct) (alloc_index ct)) ≡ false = ground arith in
    (
      c,
      d,
      e,
      subst
          (λ b.
            get_class (set_class ct (alloc_index ct) class_oop).0 j
            ≡ (if b && j == alloc_index ct then class_oop else get_class ct j))
          (ok ∙ ap not good) after,
    )
