-- ===== src/Compiler/Scanner/Moves.antt =====
-- The scanner moves by `advance` alone, and never past the end of the source.
use smalltalk_a_vm.Prelude.{
  ℕ, ◌+◌, ◌≤◌, ◌<◌, ◌≡◌, refl, ◌∙◌, arith, Bool, true, false, not, ◌&&◌, ◌||◌, List, [], ◌∷◌,
  length, ◌==◌, if◌then◌else◌, Bool-cases, inl, inr,
}
use smalltalk_a_vm.Compiler.Scanner.{
  Scanner, first, advance, next_line, is_blank, skip_loop, while_loop, quote_loop,
}

-- Some number of advances, each over a byte of the source.
pub data Moves (s : Scanner) : Scanner → Type 0 where
  stay : Moves s s
  move : {t : Scanner} → Moves s t → 0 < length t.rest → Moves s (advance t)

pub Moves-trans : {s t u : Scanner} → Moves s t → Moves t u → Moves s u
Moves-trans a stay = a
Moves-trans a (move b h) = move (Moves-trans a b) h

pub one_move : (s : Scanner) → 0 < length s.rest → Moves s (advance s)
one_move s h = move stay h

-- No move loses or makes up a byte.
pub advance_total :
    (s : Scanner)
    → 0 < length s.rest
    → (advance s).pos + length (advance s).rest ≡ s.pos + length s.rest
unfolding advance
advance_total s h = ground arith

pub Moves-total : {s t : Scanner} → Moves s t → t.pos + length t.rest ≡ s.pos + length s.rest
Moves-total stay = refl
Moves-total (move {t} m h) = advance_total t h ∙ Moves-total m

pub pos-advance : (s : Scanner) → (advance s).pos ≡ s.pos + 1
unfolding advance
pos-advance s = refl

pub Moves-pos : {s t : Scanner} → Moves s t → s.pos ≤ t.pos
Moves-pos {s} stay = omega arith
Moves-pos (move {t} m h) = omega (arith, Moves-pos m, pos-advance t)

abbrev pub at : List ℕ → ℕ → ℕ → Scanner
at cs pos line = record { rest = cs; pos = pos; line = line }

first_move :
    (c : ℕ) (cs : List ℕ) (pos line : ℕ) {t : Scanner}
    → Moves (at cs (pos + 1) (next_line c line)) t
    → Moves (at (c ∷ cs) pos line) t
unfolding advance
first_move c cs pos line m = Moves-trans (one_move (at (c ∷ cs) pos line) (omega arith)) m

pub skip_loop-Moves :
    (b : Bool) (cs : List ℕ) (pos line : ℕ) → Moves (at cs pos line) (skip_loop b cs pos line)
unfolding skip_loop
skip_loop-Moves b [] pos line = stay
skip_loop-Moves b (c ∷ cs) pos line = elim (Bool-cases (b || is_blank c || c == b'"')) [
  | inl go ↦ rw go (
      first_move c cs pos line (
        skip_loop-Moves (if b then not (c == b'"') else c == b'"') cs (pos + 1) (next_line c line)))
  | inr end ↦ rw end stay
]

pub while_loop-Moves :
    (p : ℕ → Bool) (cs : List ℕ) (pos line : ℕ) → Moves (at cs pos line) (while_loop p cs pos line)
unfolding while_loop
while_loop-Moves p [] pos line = stay
while_loop-Moves p (c ∷ cs) pos line = elim (Bool-cases (p c)) [
  | inl go ↦ rw go (first_move c cs pos line (while_loop-Moves p cs (pos + 1) (next_line c line)))
  | inr end ↦ rw end stay
]

pub quote_loop-Moves :
    (b : Bool) (cs : List ℕ) (pos line : ℕ) → Moves (at cs pos line) (quote_loop b cs pos line).1
unfolding quote_loop
quote_loop-Moves b [] pos line = stay
quote_loop-Moves b (c ∷ cs) pos line = elim (Bool-cases (b && not (c == b'\''))) [
  | inl end ↦ rw end stay
  | inr go ↦ rw go (
      first_move c cs pos line
        (quote_loop-Moves (not b && c == b'\'') cs (pos + 1) (next_line c line)))
]

-- A loop whose test holds at the start moves on.
pub while_loop-ahead :
    (p : ℕ → Bool) (cs : List ℕ) (pos line : ℕ)
    → 0 < length cs
    → p (first cs) ≡ true
    → pos < (while_loop p cs pos line).pos
unfolding while_loop
while_loop-ahead p [] pos line h e = elim h [ ]
while_loop-ahead p (c ∷ cs) pos line h e =
    rw e (omega (arith, Moves-pos (while_loop-Moves p cs (pos + 1) (next_line c line))))

-- Where it stops, its test fails.
pub while_loop-stop :
    (p : ℕ → Bool) (cs : List ℕ) (pos line : ℕ)
    → (0 < length (while_loop p cs pos line).rest)
    → p (first (while_loop p cs pos line).rest) ≡ false
unfolding while_loop
while_loop-stop p [] pos line h = elim h [ ]
while_loop-stop p (c ∷ cs) pos line h = elim (Bool-cases (p c)) [
  | inl go ↦ rw go (while_loop-stop p cs (pos + 1) (next_line c line) (rw (go, while_loop) at h))
  | inr end ↦ rw end end
]

-- A byte that passes a test that NUL fails is there.
pub there : (cs : List ℕ) (p : ℕ → Bool) → p 0 ≡ false → p (first cs) ≡ true → 0 < length cs
there [] p z h = absurd (cc)
there (c ∷ cs) p z h = omega arith
