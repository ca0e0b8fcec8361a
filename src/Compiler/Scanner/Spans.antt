-- ===== src/Compiler/Scanner/Spans.antt =====
-- Each scanning function moves on over the source, and its token's text is what it moved over.
use native.Mathlib.Nat.{mod-eq_of_lt}
use smalltalk_a_vm.Prelude.{
  ℕ, ◌+◌, ◌-◌, ◌^◌, ◌≤◌, ◌<◌, ◌≡◌, ◌≢◌, refl, sym, subst, arith, Bool, true, false, not, ◌&&◌,
  length, ◌==◌, if◌then◌else◌, Bool-cases, inl, inr,
}
use smalltalk_a_vm.Compiler.Scanner.{
  Scanner, Token, TokenType, Start, source_at, message, error, advance, advance_while, is_word,
  is_digit, is_letter, is_binary_char, span, peek_char, peek_next, quote_loop,
  scan_identifier_or_keyword, scan_number, scan_string, scan_binary_selector, scan_char, scan_colon,
  is_at_end,
}
use smalltalk_a_vm.Compiler.Scanner.Moves.{
  Moves, move, Moves-trans, one_move, Moves-total, Moves-pos, pos-advance, while_loop-Moves,
  while_loop-ahead, quote_loop-Moves, there,
}

-- A token that stands in the source begins at `base` at the earliest and ends at `stop`; any other
-- is an error.
abbrev pub TextWithin : ℕ → Start → ℕ → TokenType → ℕ → Type 0
TextWithin base (source_at b) len type stop = (base ≤ b) × (b + len ≡ stop)
TextWithin base (message m) len type stop = type ≡ error

pub record Scanned (base : ℕ) (s : Scanner) (r : Token × Scanner) : Type 0 where
  pub moves : Moves s r.1
  pub within : TextWithin base r.0.start r.0.length r.0.type r.1.pos
  pub ahead : base < r.1.pos

-- The source is shorter than 2^32 bytes, so that a length fits its field.
abbrev pub Fits : Scanner → Type 0
Fits s = s.pos + length s.rest < 2 ^ 32

pub span_exact :
    (s t : Scanner) (base : ℕ) → Fits s → Moves s t → base ≤ t.pos → base + span t base ≡ t.pos
span_exact s t base f m h = omega (
  arith,
  Moves-total m,
  mod-eq_of_lt {n = t.pos - base} {m = 2 ^ 32} (omega (arith, Moves-total m)),
)

pub is_binary_char-nul : is_binary_char 0 ≡ false
unfolding is_binary_char
is_binary_char-nul = refl

pub is_word-nul : is_word 0 ≡ false
unfolding is_letter is_digit
is_word-nul = refl

pub byte_there : (s : Scanner) (c : ℕ) → (peek_char s == c) ≡ true → c ≢ 0 → 0 < length s.rest
byte_there s c e ne = there s.rest (λ d. d == c) (ground arith) e

pub scan_identifier_or_keyword-Scanned :
    (s : Scanner)
    → Fits s
    → is_word (peek_char s) ≡ true
    → Scanned s.pos s (scan_identifier_or_keyword s)
unfolding scan_identifier_or_keyword
scan_identifier_or_keyword-Scanned s f w =
    elim (Bool-cases (peek_char t == b':' && not (peek_next t == b'='))) [
      | inl k ↦
          let m = Moves-trans m0 (one_move t (byte_there t b':' (ground arith) (omega arith))) in
          rw k (record {
            moves = m;
            within = (omega arith, span_exact s (advance t) s.pos f m (Moves-pos m));
            ahead = omega (arith, pos-advance t, first_byte);
          })
      | inr i ↦ rw i (record {
        moves = m0;
        within = (omega arith, span_exact s t s.pos f m0 (Moves-pos m0));
        ahead = first_byte;
      })
    ]
  where
    t : Scanner
    t = advance_while is_word s

    m0 : Moves s t
    m0 = while_loop-Moves is_word s.rest s.pos s.line

    first_byte : s.pos < t.pos
    first_byte = while_loop-ahead is_word s.rest s.pos s.line (there s.rest is_word is_word-nul w) w

pub is_digit-nul : is_digit 0 ≡ false
unfolding is_digit
is_digit-nul = refl

-- `base` is where the text starts, one before `s` if a minus was consumed.
pub scan_number-Scanned :
    (s : Scanner) (negative : Bool) (base : ℕ)
    → Fits s
    → base ≡ (if negative then s.pos - 1 else s.pos)
    → is_digit (peek_char s) ≡ true
    → Scanned base s (scan_number s negative)
unfolding scan_number
scan_number-Scanned s negative base f b w =
    subst (λ x. Scanned x s (scan_number s negative)) (sym b)
      (elim (Bool-cases (peek_char t == b'.' && is_digit (peek_next t))) [
        | inl k ↦
            let m1 = Moves-trans m0 (one_move t (byte_there t b'.' (ground arith) (omega arith))) in
            let m =
              Moves-trans m1
                (while_loop-Moves is_digit (advance t).rest (advance t).pos (advance t).line) in
            rw k (record {
              moves = m;
              within = (omega arith, span_exact s u start f m (omega (arith, low, Moves-pos m)));
              ahead = omega (
                arith,
                low,
                first_byte,
                Moves-pos m1,
                pos-advance t,
                Moves-pos
                    (while_loop-Moves is_digit (advance t).rest (advance t).pos (advance t).line),
              );
            })
        | inr i ↦ rw i (record {
          moves = m0;
          within = (omega arith, span_exact s t start f m0 (omega (arith, low, Moves-pos m0)));
          ahead = omega (arith, low, first_byte);
        })
      ])
  where
    start : ℕ
    start = if negative then s.pos - 1 else s.pos

    low : start ≤ s.pos
    low = ground arith

    t : Scanner
    t = advance_while is_digit s

    u : Scanner
    u = advance_while is_digit (advance t)

    m0 : Moves s t
    m0 = while_loop-Moves is_digit s.rest s.pos s.line

    first_byte : s.pos < t.pos
    first_byte =
        while_loop-ahead is_digit s.rest s.pos s.line (there s.rest is_digit is_digit-nul w) w

-- A quoted text, from the opening quote at `s` on.
module _ (s : Scanner) (here : 0 < length s.rest) where
  pub quoted-Moves : Moves s (quote_loop false (advance s).rest (advance s).pos (advance s).line).1
  quoted-Moves =
      Moves-trans (one_move s here)
        (quote_loop-Moves false (advance s).rest (advance s).pos (advance s).line)

  pub quoted_ahead :
      s.pos < (quote_loop false (advance s).rest (advance s).pos (advance s).line).1.pos
  quoted_ahead = omega (
    arith,
    pos-advance s,
    Moves-pos (quote_loop-Moves false (advance s).rest (advance s).pos (advance s).line),
  )

pub scan_string-Scanned :
    (s : Scanner) → Fits s → 0 < length s.rest → Scanned s.pos s (scan_string s)
unfolding scan_string
scan_string-Scanned s f here =
    elim (Bool-cases (quote_loop false (advance s).rest (advance s).pos (advance s).line).0) [
      | inl c ↦ rw c (record {
        moves = quoted-Moves s here;
        within = (
          omega arith,
          span_exact s _ s.pos f (quoted-Moves s here) (Moves-pos (quoted-Moves s here)),
        );
        ahead = quoted_ahead s here;
      })
      | inr o ↦
          rw o (record { moves = quoted-Moves s here; within = refl; ahead = quoted_ahead s here })
    ]

-- One byte, and a second one if it is a binary character too.
unfoldable pub binary_pair : Scanner → Scanner
binary_pair s = if is_binary_char (peek_char (advance s)) then advance (advance s) else advance s

pub binary_pair-Moves : (s : Scanner) → 0 < length s.rest → Moves s (binary_pair s)
unfolding binary_pair
binary_pair-Moves s here = elim (Bool-cases (is_binary_char (peek_char (advance s)))) [
  | inl b ↦
      rw b (move (one_move s here) (there (advance s).rest is_binary_char is_binary_char-nul b))
  | inr e ↦ rw e (one_move s here)
]

pub binary_pair-ahead : (s : Scanner) → s.pos < (binary_pair s).pos
unfolding binary_pair
binary_pair-ahead s = ground (arith, pos-advance s, pos-advance (advance s))

pub scan_binary_selector-Scanned :
    (s : Scanner) → Fits s → 0 < length s.rest → Scanned s.pos s (scan_binary_selector s)
unfolding scan_binary_selector binary_pair
scan_binary_selector-Scanned s f here = record {
  moves = binary_pair-Moves s here;
  within = (
    omega arith,
    span_exact s (binary_pair s) s.pos f (binary_pair-Moves s here)
        (Moves-pos (binary_pair-Moves s here)),
  );
  ahead = binary_pair-ahead s;
}

pub scan_char-Scanned : (s : Scanner) → Fits s → 0 < length s.rest → Scanned s.pos s (scan_char s)
unfolding scan_char
scan_char-Scanned s f here = elim (Bool-cases (is_at_end (advance s))) [
  | inl e ↦
      rw e (record { moves = one_move s here; within = refl; ahead = omega (arith, pos-advance s) })
  | inr n ↦
      let m =
        move (one_move s here) (there (advance s).rest (λ d. not (d == 0)) refl (ground arith)) in
      rw n (record {
        moves = m;
        within = (omega arith, span_exact s _ s.pos f m (Moves-pos m));
        ahead = omega (arith, pos-advance s, pos-advance (advance s));
      })
]

pub scan_colon-Scanned : (s : Scanner) → 0 < length s.rest → Scanned s.pos s (scan_colon s)
unfolding scan_colon
scan_colon-Scanned s here = elim (Bool-cases (peek_char (advance s) == b'=')) [
  | inl e ↦ rw e (record {
    moves = move (one_move s here) (byte_there (advance s) b'=' e (omega arith));
    within = (
      omega (arith, pos-advance s, pos-advance (advance s)),
      omega (arith, pos-advance s, pos-advance (advance s)),
    );
    ahead = omega (arith, pos-advance s, pos-advance (advance s));
  })
  | inr n ↦ rw n (record {
    moves = one_move s here;
    within = (omega (arith, pos-advance s), omega (arith, pos-advance s));
    ahead = omega (arith, pos-advance s);
  })
]
