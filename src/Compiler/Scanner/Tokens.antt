-- ===== src/Compiler/Scanner/Tokens.antt =====
-- `scan_token` as a whole: symbols, single characters, and the choice by the first byte.
use smalltalk_a_vm.Prelude.{
  ℕ, ◌-◌, ◌≤◌, ◌<◌, ◌≡◌, refl, subst, arith, true, false, not, ◌||◌, length, ◌==◌, Bool-cases,
  Option-cases, inl, inr,
}
use smalltalk_a_vm.Compiler.Scanner.{
  Scanner, TokenType, source_at, advance, advance_while, is_word, is_digit, is_letter,
  is_binary_char, span, peek_char, peek_next, quote_loop, scan_number, scan_symbol_after_hash,
  scan_quoted_symbol, scan_binary_selector, scan_single, single, scan_here, is_at_end,
}
use smalltalk_a_vm.Compiler.Scanner.Moves.{
  Moves, stay, Moves-trans, one_move, Moves-pos, pos-advance, advance_total, while_loop-Moves,
  there,
}
use smalltalk_a_vm.Compiler.Scanner.Spans.{
  Scanned, Fits, span_exact, byte_there, is_binary_char-nul, is_digit-nul, quoted-Moves,
  quoted_ahead, binary_pair, binary_pair-Moves, scan_identifier_or_keyword-Scanned,
  scan_number-Scanned, scan_string-Scanned, scan_binary_selector-Scanned, scan_char-Scanned,
  scan_colon-Scanned,
}

is_letter-nul : is_letter 0 ≡ false
unfolding is_letter
is_letter-nul = refl

-- A symbol's text from the `#` at `s.pos - 1` to wherever the scanner moved.
symbol_text :
    (s t : Scanner) (type : TokenType) (line : ℕ)
    → Fits s
    → 1 ≤ s.pos
    → Moves s t
    → Scanned (s.pos - 1) s (
      record {
        type = type;
        start = source_at (s.pos - 1);
        length = span t (s.pos - 1);
        line = line;
      },
      t,
    )
symbol_text s t type line f h m = record {
  moves = m;
  within = (omega arith, span_exact s t (s.pos - 1) f m (omega (arith, Moves-pos m)));
  ahead = omega (arith, Moves-pos m);
}

scan_quoted_symbol-Scanned :
    (s : Scanner)
    → Fits s
    → 1 ≤ s.pos
    → 0 < length s.rest
    → Scanned (s.pos - 1) s (scan_quoted_symbol s)
unfolding scan_quoted_symbol
scan_quoted_symbol-Scanned s f h here =
    elim (Bool-cases (quote_loop false (advance s).rest (advance s).pos (advance s).line).0) [
      | inl c ↦ rw c (symbol_text s _ _ _ f h (quoted-Moves s here))
      | inr o ↦ rw o (record {
        moves = quoted-Moves s here;
        within = refl;
        ahead = omega (arith, quoted_ahead s here);
      })
    ]

pub scan_symbol_after_hash-Scanned :
    (s : Scanner) → Fits s → 1 ≤ s.pos → Scanned (s.pos - 1) s (scan_symbol_after_hash s)
unfolding scan_symbol_after_hash
scan_symbol_after_hash-Scanned s f h = elim (Bool-cases (peek_char s == b'(')) [
  | inl p ↦ rw p (record {
    moves = one_move s (byte_there s b'(' p (omega arith));
    within = (omega arith, omega (arith, pos-advance s));
    ahead = omega (arith, pos-advance s);
  })
  | inr np ↦ elim (Bool-cases (peek_char s == b'\'')) [
    | inl q ↦ rw (np, q) (scan_quoted_symbol-Scanned s f h (byte_there s b'\'' q (omega arith)))
    | inr nq ↦ elim (Bool-cases (is_letter (peek_char s))) [
      | inl l ↦ rw (np, nq, l) (symbol_text s _ _ _ f h words)
      | inr nl ↦ elim (Bool-cases (is_binary_char (peek_char s))) [
        | inl b ↦
            rw (np, nq, nl, b)
              (unfold binary_pair in
                symbol_text s (binary_pair s) _ _ f h
                  (binary_pair-Moves s (there s.rest is_binary_char is_binary_char-nul b)))
        | inr nb ↦ rw (np, nq, nl, nb) (record { moves = stay; within = refl; ahead = omega arith })
      ]
    ]
  ]
]
  where
    word : Scanner
    word = advance_while is_word s

    words : Moves s (advance_while (λ d. d == b':' || is_word d) word)
    words =
        Moves-trans (while_loop-Moves is_word s.rest s.pos s.line)
          (while_loop-Moves (λ d. d == b':' || is_word d) word.rest word.pos word.line)

-- A token that begins where the scanner stands, one byte long.
one_byte :
    (s : Scanner) (type : TokenType)
    → 0 < length s.rest
    → Scanned s.pos s
        (record { type = type; start = source_at s.pos; length = 1; line = s.line }, advance s)
one_byte s type here = record {
  moves = one_move s here;
  within = (omega arith, omega (arith, pos-advance s));
  ahead = omega (arith, pos-advance s);
}

scan_single-Scanned : (s : Scanner) → Fits s → 0 < length s.rest → Scanned s.pos s (scan_single s)
unfolding scan_single
scan_single-Scanned s f here = elim (Option-cases (single (peek_char s))) [
  | inr (type, e) ↦ rw (e, scan_single) (one_byte s type here)
  | inl e ↦ elim (Bool-cases (is_binary_char (peek_char s))) [
    | inl b ↦
        rw (e, scan_single, b)
          (unfold scan_binary_selector in scan_binary_selector-Scanned s f here)
    | inr n ↦
        rw (e, scan_single, n)
          (record { moves = one_move s here; within = refl; ahead = omega (arith, pos-advance s) })
  ]
]

next_digit : (s : Scanner) → is_digit (peek_next s) ≡ true → is_digit (peek_char (advance s)) ≡ true
unfolding advance
next_digit s d = elim (Bool-cases (is_at_end s)) [
  | inr n ↦ rw n at d
  | inl e ↦ let z = rw e at d in ground (arith, is_digit-nul)
]

scan_minus-Scanned :
    (s : Scanner)
    → Fits s
    → 0 < length s.rest
    → is_digit (peek_next s) ≡ true
    → Scanned s.pos s (scan_number (advance s) true)
scan_minus-Scanned s f here d =
    let n =
      scan_number-Scanned (advance s) true s.pos (omega (arith, advance_total s here))
        (omega (arith, pos-advance s)) (next_digit s d) in
    record { moves = Moves-trans (one_move s here) n.moves; within = n.within; ahead = n.ahead }

scan_hash-Scanned :
    (s : Scanner)
    → Fits s
    → 0 < length s.rest
    → Scanned s.pos s (scan_symbol_after_hash (advance s))
scan_hash-Scanned s f here =
    let base : (advance s).pos - 1 ≡ s.pos = omega (arith, pos-advance s) in
    let n =
      scan_symbol_after_hash-Scanned (advance s) (omega (arith, advance_total s here))
        (omega (arith, pos-advance s)) in
    subst (λ b. Scanned b s (scan_symbol_after_hash (advance s))) base
      (record { moves = Moves-trans (one_move s here) n.moves; within = n.within; ahead = n.ahead })

-- What the scanner does at a byte that begins a token, in the order of its tests.
pub scan_here-Scanned : (s : Scanner) → Fits s → is_at_end s ≡ false → Scanned s.pos s (scan_here s)
unfolding scan_here
scan_here-Scanned s f ne = elim (Bool-cases (is_letter c)) [
  | inl l ↦ rw (ne, l) (scan_identifier_or_keyword-Scanned s f (ground arith))
  | inr nl ↦ elim (Bool-cases (is_digit c)) [
    | inl d ↦ rw (ne, nl, d) (scan_number-Scanned s false s.pos f refl d)
    | inr nd ↦ elim (Bool-cases (c == b'-')) [
      | inl m ↦ elim (Bool-cases (is_digit (peek_next s))) [
        | inl d ↦ rw (ne, nl, nd, m, (rw ne at d)) (scan_minus-Scanned s f here d)
        | inr n ↦ rw (ne, nl, nd, m, (rw ne at n)) (scan_binary_selector-Scanned s f here)
      ]
      | inr nm ↦ elim (Bool-cases (c == b'\'')) [
        | inl q ↦ rw (ne, nl, nd, nm, q) (scan_string-Scanned s f here)
        | inr nq ↦ elim (Bool-cases (c == b'$')) [
          | inl d ↦ rw (ne, nl, nd, nm, nq, d) (scan_char-Scanned s f here)
          | inr nc ↦ elim (Bool-cases (c == b'#')) [
            | inl h ↦ rw (ne, nl, nd, nm, nq, nc, h) (scan_hash-Scanned s f here)
            | inr nh ↦ elim (Bool-cases (c == b':')) [
              | inl k ↦ rw (ne, nl, nd, nm, nq, nc, nh, k) (scan_colon-Scanned s here)
              | inr nk ↦ rw (ne, nl, nd, nm, nq, nc, nh, nk) (scan_single-Scanned s f here)
            ]
          ]
        ]
      ]
    ]
  ]
]
  where
    c : ℕ
    c = peek_char s

    here : 0 < length s.rest
    here = there s.rest (λ d. not (d == 0)) refl (ground arith)
