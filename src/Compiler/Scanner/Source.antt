-- ===== src/Compiler/Scanner/Source.antt =====
-- The scanner over a whole source: where it stands, what a token covers, and that it ends.
use mathlib.Core.List.{append_assoc}
use smalltalk_a_vm.Prelude.{
  ℕ, zero, suc, ◌+◌, ◌%◌, ◌^◌, ◌≤◌, ◌<◌, ◌≡◌, ◌≢◌, refl, sym, ap, ◌∙◌, arith, false, List, [], ◌∷◌,
  ◌++◌, length, length-append, ◌==◌, if◌then◌else◌, Bool-cases, ◌⊎◌, inl, inr,
}
use smalltalk_a_vm.Compiler.Scanner.{
  Scanner, TokenType, Start, source_at, message, eof, first, tail, advance, scan_here, is_at_end,
  skip_whitespace_and_comments, scan_token, init, next,
}
use smalltalk_a_vm.Compiler.Scanner.Moves.{
  Moves, stay, move, Moves-trans, Moves-total, Moves-pos, skip_loop-Moves,
}
use smalltalk_a_vm.Compiler.Scanner.Blanks.{Blank, NonBlank, Skipped, skip_loop-Skipped}
use smalltalk_a_vm.Compiler.Scanner.Spans.{Fits, TextWithin}
use smalltalk_a_vm.Compiler.Scanner.Tokens.{scan_here-Scanned}

-- The number of line ends in a text.
abbrev pub newlines : List ℕ → ℕ
newlines [] = 0
newlines (c ∷ cs) = if c == b'\n' then suc (newlines cs) else newlines cs

newlines-append : (xs ys : List ℕ) → newlines (xs ++ ys) ≡ newlines xs + newlines ys
newlines-append [] ys = omega arith
newlines-append (c ∷ cs) ys = ground (arith, newlines-append cs ys)

-- The scanner stands in the source: what it consumed and what is left make up the source, `pos`
-- counts what it consumed, and `line` counts the line ends in it from 1, in 32 bits.
pub record StandsIn (source : List ℕ) (s : Scanner) : Type 0 where
  pub front : List ℕ
  pub whole : front ++ s.rest ≡ source
  pub offset : length front ≡ s.pos
  pub lines : s.line ≡ (newlines front + 1) % 2 ^ 32

advance-StandsIn :
    (source : List ℕ) (s : Scanner) (cs : List ℕ)
    → s.rest ≡ cs
    → 0 < length cs
    → StandsIn source s
    → StandsIn source (advance s)
unfolding advance
advance-StandsIn source s [] e h a = elim h [ ]
advance-StandsIn source s (c ∷ cs) e h a = record {
  front = a.front ++ (c ∷ []);
  whole =
      append_assoc a.front (c ∷ []) (tail s.rest)
      ∙ ap (λ r. a.front ++ (c ∷ tail r)) e
      ∙ ap (λ r. a.front ++ r) (sym e)
      ∙ a.whole;
  offset = omega (arith, length-append a.front (c ∷ []), a.offset);
  lines = ground (arith, newlines-append a.front (c ∷ []), ap first e, a.lines);
}

Moves-StandsIn :
    (source : List ℕ) {s t : Scanner} → Moves s t → StandsIn source s → StandsIn source t
Moves-StandsIn source stay a = a
Moves-StandsIn source (move {t} m h) a =
    advance-StandsIn source t t.rest refl h (Moves-StandsIn source m a)

pub init-StandsIn : (source : List ℕ) → StandsIn source (init source)
unfolding init
init-StandsIn source = record { front = []; whole = refl; offset = refl; lines = refl }

pub StandsIn-Fits :
    (source : List ℕ) (s : Scanner) → length source < 2 ^ 32 → StandsIn source s → Fits s
StandsIn-Fits source s h a =
    omega (arith, length-append a.front s.rest, ap length a.whole, a.offset)

skipped : (s : Scanner) → Moves s (skip_whitespace_and_comments s)
skipped s = skip_loop-Moves false s.rest s.pos s.line

pub scan_token-Moves : (s : Scanner) → Fits s → Moves s (scan_token s).1
unfolding scan_token
scan_token-Moves s f = elim (Bool-cases (is_at_end (skip_whitespace_and_comments s))) [
  | inl e ↦ unfold scan_here in rw e (skipped s)
  | inr n ↦
      Moves-trans (skipped s)
        (scan_here-Scanned (skip_whitespace_and_comments s) (omega (arith, Moves-total (skipped s)))
          n).moves
]

-- Reading a token leaves the scanner in its source: it consumed some more of the source and no
-- byte past its end, and its offset and line number are those of what it has consumed. The source
-- is shorter than 2^32 bytes.
pub scan_token-StandsIn :
    (source : List ℕ) (s : Scanner)
    → length source < 2 ^ 32
    → StandsIn source s
    → StandsIn source (scan_token s).1
scan_token-StandsIn source s h a =
    Moves-StandsIn source (scan_token-Moves s (StandsIn-Fits source s h a)) a

TextWithin-mono :
    {a b : ℕ} (start : Start) (len : ℕ) (type : TokenType) (stop : ℕ)
    → a ≤ b
    → TextWithin b start len type stop
    → TextWithin a start len type stop
TextWithin-mono (source_at p) len type stop h w = (omega arith, w.1)
TextWithin-mono (message m) len type stop h w = w

pub scan_token_covers :
    (source : List ℕ) (s : Scanner)
    → length source < 2 ^ 32
    → StandsIn source s
    → let (t, s') = next s in
      (gap : List ℕ) × (behind : List ℕ) × Blank gap behind
      × (s.rest ≡ gap ++ behind)
      × (((first behind ≡ 0)
            × (s'.rest ≡ behind)
            × (t.type ≡ eof)
            × (t.start ≡ source_at s'.pos)
            × (t.length ≡ 0)
            × (s'.pos ≡ s.pos + length gap))
          ⊎ ((first behind ≢ 0)
              × NonBlank behind
              × (s.pos < s'.pos)
              × TextWithin (s.pos + length gap) t.start t.length t.type s'.pos))
unfolding scan_token
scan_token_covers source s h a = (
  k.gap,
  w.rest,
  k.passed,
  k.whole,
  elim (Bool-cases (is_at_end w)) [
    | inl e ↦ unfold scan_here in rw e (inl (ground (arith, e), refl, refl, refl, refl, k.moved))
    | inr n ↦
        let r =
          scan_here-Scanned w (omega (arith, Moves-total (skipped s), StandsIn-Fits source s h a))
            n in
        inr (
          (λ z. ground (arith, n, z)),
          k.stopped,
          omega (arith, Moves-pos (skipped s), r.ahead),
          TextWithin-mono _ _ _ _ (omega (arith, k.moved)) r.within,
        )
  ],
)
  where
    w : Scanner
    w = skip_whitespace_and_comments s

    k : Skipped false s.rest s.pos w
    k = skip_loop-Skipped false s.rest s.pos s.line

-- The scanner after a number of calls.
abbrev pub after : ℕ → Scanner → Scanner
after zero s = s
after (suc n) s = after n (next s).1

reaches_eof :
    (source : List ℕ) (fuel : ℕ) (s : Scanner)
    → length source < 2 ^ 32
    → StandsIn source s
    → length s.rest ≤ fuel
    → (n : ℕ) × (n ≤ length s.rest) × ((next (after n s)).0.type ≡ eof)
reaches_eof source zero s h a b = elim (scan_token_covers source s h a).4 [
  | inl (_, _, e, _, _, _) ↦ (0, omega arith, e)
  | inr (_, _, moved, _) ↦
      let t = Moves-total (scan_token-Moves s (StandsIn-Fits source s h a)) in absurd (omega arith)
]
reaches_eof source (suc fuel) s h a b = elim (scan_token_covers source s h a).4 [
  | inl (_, _, e, _, _, _) ↦ (0, omega arith, e)
  | inr (_, _, moved, _) ↦
      let t = Moves-total (scan_token-Moves s (StandsIn-Fits source s h a)) in
      let (n, few, e) =
        reaches_eof source fuel (next s).1 h (scan_token-StandsIn source s h a) (omega arith) in
      (suc n, omega arith, e)
]

-- Calling the scanner again and again comes to the end of input, within as many calls as the
-- source has bytes and one more.
pub scan_token_ends :
    (source : List ℕ)
    → length source < 2 ^ 32
    → (n : ℕ) × (n ≤ length source) × ((next (after n (init source))).0.type ≡ eof)
unfolding init
scan_token_ends source h =
    reaches_eof source (length source) (init source) h (init-StandsIn source) (omega arith)
