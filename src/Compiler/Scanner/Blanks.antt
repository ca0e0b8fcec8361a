-- ===== src/Compiler/Scanner/Blanks.antt =====
-- Blank text, and what `skip_whitespace_and_comments` passes over.
use smalltalk_a_vm.Prelude.{
  ℕ, ◌+◌, ◌≡◌, ◌≢◌, refl, ap, subst, arith, Bool, true, false, ◌||◌, List, [], ◌∷◌, ◌++◌, length,
  ◌==◌, Bool-cases, ◌⊎◌, inl, inr,
}
use smalltalk_a_vm.Compiler.Scanner.{Scanner, first, is_blank, skip_loop, next_line}

-- Text without a double quote.
abbrev pub Unquoted : List ℕ → Type 0
Unquoted [] = Unit
Unquoted (c ∷ cs) = ((c == b'"') ≡ false) × Unquoted cs

-- Spaces, tabs, line ends and comments in double quotes, before some other text. A comment that is
-- still open has no text behind it.
pub data Blank : List ℕ → List ℕ → Type 0 where
  empty : (behind : List ℕ) → Blank [] behind
  space :
      (c : ℕ) (cs behind : List ℕ)
      → (c ≡ b' ') ⊎ (c ≡ b'\t') ⊎ (c ≡ b'\r') ⊎ (c ≡ b'\n')
      → Blank cs behind
      → Blank (c ∷ cs) behind
  comment :
      (body cs behind : List ℕ)
      → Unquoted body
      → Blank cs behind
      → Blank (b'"' ∷ (body ++ b'"' ∷ cs)) behind
  open_comment : (body : List ℕ) → Unquoted body → Blank (b'"' ∷ body) []

-- The text starts with no space, tab, line end or double quote.
abbrev pub NonBlank : List ℕ → Type 0
NonBlank cs =
    (first cs ≢ b' ')
    × (first cs ≢ b'\t')
    × (first cs ≢ b'\r')
    × (first cs ≢ b'\n')
    × (first cs ≢ b'"')

-- The rest of a comment, and what follows it.
pub data InComment : List ℕ → List ℕ → Type 0 where
  closing :
      (body cs behind : List ℕ)
      → Unquoted body
      → Blank cs behind
      → InComment (body ++ b'"' ∷ cs) behind
  ending : (body : List ℕ) → Unquoted body → InComment body []

abbrev pub Passed : Bool → List ℕ → List ℕ → Type 0
Passed true gap behind = InComment gap behind
Passed false gap behind = Blank gap behind

within :
    (c : ℕ) (gap behind : List ℕ)
    → (c == b'"') ≡ false
    → InComment gap behind
    → InComment (c ∷ gap) behind
within c gap behind e (InComment.closing body cs _ u b) =
    InComment.closing (c ∷ body) cs behind (e, u) b
within c gap behind e (InComment.ending body u) = InComment.ending (c ∷ body) (e, u)

started : (gap behind : List ℕ) → InComment gap behind → Blank (b'"' ∷ gap) behind
started gap behind (InComment.closing body cs _ u b) = Blank.comment body cs behind u b
started gap behind (InComment.ending body u) = Blank.open_comment body u

stops : (c : ℕ) (cs : List ℕ) → (is_blank c || c == b'"') ≡ false → NonBlank (c ∷ cs)
stops c cs h = (
  (λ e. ground (arith, h, e)),
  (λ e. ground (arith, h, e)),
  (λ e. ground (arith, h, e)),
  (λ e. ground (arith, h, e)),
  (λ e. ground (arith, h, e)),
)

none_left : NonBlank []
none_left = (
  (λ e. omega (arith, e)),
  (λ e. omega (arith, e)),
  (λ e. omega (arith, e)),
  (λ e. omega (arith, e)),
  (λ e. omega (arith, e)),
)

which_blank : (c : ℕ) → is_blank c ≡ true → (c ≡ b' ') ⊎ (c ≡ b'\t') ⊎ (c ≡ b'\r') ⊎ (c ≡ b'\n')
which_blank c h = elim (Bool-cases (c == b' ')) [
  | inl e ↦ inl (ground arith)
  | inr e ↦ elim (Bool-cases (c == b'\t')) [
    | inl f ↦ inr (inl (ground arith))
    | inr f ↦ elim (Bool-cases (c == b'\r')) [
      | inl g ↦ inr (inr (inl (ground arith)))
      | inr g ↦ inr (inr (inr (ground arith)))
    ]
  ]
]

-- What the loop passes over, from inside a comment or not.
pub record Skipped (b : Bool) (cs : List ℕ) (pos : ℕ) (s : Scanner) : Type 0 where
  pub gap : List ℕ
  pub passed : Passed b gap s.rest
  pub stopped : NonBlank s.rest
  pub whole : cs ≡ gap ++ s.rest
  pub moved : s.pos ≡ pos + length gap

one_more :
    {b b' : Bool} {c : ℕ} {cs : List ℕ} {pos : ℕ} {s : Scanner}
    → (k : Skipped b cs (pos + 1) s) → Passed b' (c ∷ k.gap) s.rest
    → Skipped b' (c ∷ cs) pos s
one_more {c = c} k p = record {
  gap = c ∷ k.gap;
  passed = p;
  stopped = k.stopped;
  whole = ap (λ t. c ∷ t) k.whole;
  moved = omega (arith, k.moved);
}

pub skip_loop-Skipped :
    (b : Bool) (cs : List ℕ) (pos line : ℕ) → Skipped b cs pos (skip_loop b cs pos line)
unfolding skip_loop
skip_loop-Skipped true [] pos line = record {
  gap = [];
  passed = InComment.ending [] tt;
  stopped = none_left;
  whole = refl;
  moved = omega arith;
}
skip_loop-Skipped false [] pos line = record {
  gap = [];
  passed = Blank.empty [];
  stopped = none_left;
  whole = refl;
  moved = omega arith;
}
skip_loop-Skipped true (c ∷ cs) pos line = elim (Bool-cases (c == b'"')) [
  | inl e ↦
      let k = skip_loop-Skipped false cs (pos + 1) (next_line c line) in
      rw e (
        one_more k (
          let same : b'"' ≡ c = ground arith in
          let behind = (skip_loop false cs (pos + 1) (next_line c line)).rest in
          subst (λ d. InComment (d ∷ k.gap) behind) same
            (InComment.closing [] k.gap behind tt k.passed)))
  | inr e ↦
      let k = skip_loop-Skipped true cs (pos + 1) (next_line c line) in
      rw e (one_more k (within c k.gap _ e k.passed))
]
skip_loop-Skipped false (c ∷ cs) pos line = elim (Bool-cases (c == b'"')) [
  | inl e ↦
      let k = skip_loop-Skipped true cs (pos + 1) (next_line c line) in
      let go : (is_blank c || c == b'"') ≡ true = ground arith in
      rw (go, e)
        (one_more k (
          let same : b'"' ≡ c = ground arith in
          let behind = (skip_loop true cs (pos + 1) (next_line c line)).rest in
          subst (λ d. Blank (d ∷ k.gap) behind) same (started k.gap behind k.passed)))
  | inr e ↦ elim (Bool-cases (is_blank c)) [
    | inl f ↦
        let k = skip_loop-Skipped false cs (pos + 1) (next_line c line) in
        let go : (is_blank c || c == b'"') ≡ true = ground arith in
        rw (go, e) (one_more k (Blank.space c k.gap _ (which_blank c f) k.passed))
    | inr f ↦
        let stop : (is_blank c || c == b'"') ≡ false = ground arith in
        rw stop (record {
          gap = [];
          passed = Blank.empty (c ∷ cs);
          stopped = stops c cs stop;
          whole = refl;
          moved = omega arith;
        })
  ]
]
