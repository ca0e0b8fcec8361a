-- ===== src/Compiler/Scanner.antt =====
-- The lexer, src/compiler/scanner.c and scanner.h. `current` is the list of bytes from the pointer
-- up to the terminating NUL, with the pointer's distance from the source's start beside it; NUL is
-- what stands behind the last byte, so the bytes of a source are not 0.
pub mod Moves
pub mod Blanks
pub mod Spans
pub mod Tokens
pub mod Source
use Prim.Native.String.{String, len}
use smalltalk_a_vm.Prelude.{
  ℕ, ◌+◌, ◌-◌, ◌%◌, ◌^◌, ◌≡◌, Bool, true, false, not, ◌&&◌, ◌||◌, Option, none, some, List, [], ◌∷◌,
  leb, ◌==◌, if◌then◌else◌,
}

-- `STA_TokenType`
pub data TokenType : Type 0 where
  identifier keyword integer float string symbol_literal char_literal hash_paren : TokenType
  binary_selector assign return lparen rparen lbracket rbracket period semicolon : TokenType
  colon vbar bang eof error : TokenType

-- Where a token's text stands: in the source, or a message of the scanner.
pub data Start : Type 0 where
  source_at : ℕ → Start
  message : String → Start

-- `STA_Token`
pub record Token : Type 0 where
  pub type : TokenType
  pub start : Start
  pub length : ℕ
  pub line : ℕ

-- `STA_Scanner`: `rest` are the bytes at `current`, `pos` is `current - source`.
pub record Scanner : Type 0 where
  pub rest : List ℕ
  pub pos : ℕ
  pub line : ℕ

-- `*s->current`, NUL at the end.
abbrev pub first : List ℕ → ℕ
first [] = 0
first (c ∷ cs) = c

abbrev pub tail : List ℕ → List ℕ
tail [] = []
tail (c ∷ cs) = cs

abbrev pub is_at_end : Scanner → Bool
is_at_end s = first s.rest == 0

abbrev pub peek_char : Scanner → ℕ
peek_char s = first s.rest

abbrev pub peek_next : Scanner → ℕ
peek_next s = if is_at_end s then 0 else first (tail s.rest)

abbrev pub next_line : ℕ → ℕ → ℕ
next_line c line = if c == b'\n' then (line + 1) % 2 ^ 32 else line

-- `advance`. At the end the pointer would leave the source, which `pos` then shows.
unfoldable pub advance : Scanner → Scanner
advance s = record { rest = tail s.rest; pos = s.pos + 1; line = next_line (first s.rest) s.line }

unfoldable pub is_binary_char : ℕ → Bool
is_binary_char c =
    c == b'+'
    || c == b'-'
    || c == b'*'
    || c == b'/'
    || c == b'<'
    || c == b'>'
    || c == b'='
    || c == b'~'
    || c == b'&'
    || c == b'@'
    || c == b'%'
    || c == b','
    || c == b'?'
    || c == b'!'
    || c == b'\\'

unfoldable pub is_letter : ℕ → Bool
is_letter c = leb b'a' c && leb c b'z' || leb b'A' c && leb c b'Z' || c == b'_'

unfoldable pub is_digit : ℕ → Bool
is_digit c = leb b'0' c && leb c b'9'

abbrev pub is_word : ℕ → Bool
is_word c = is_letter c || is_digit c

abbrev pub make_token : TokenType → ℕ → ℕ → ℕ → Token
make_token type start length line = record {
  type = type;
  start = source_at start;
  length = length;
  line = line;
}

abbrev pub error_token : String → ℕ → Token
error_token text line = record {
  type = error;
  start = message text;
  length = len text;
  line = line;
}

abbrev pub is_blank : ℕ → Bool
is_blank c = c == b' ' || c == b'\t' || c == b'\r' || c == b'\n'

-- The two loops of `skip_whitespace_and_comments` in one: `in_comment` says which one runs.
unfoldable pub skip_loop : Bool → List ℕ → ℕ → ℕ → Scanner
skip_loop in_comment [] pos line = record { rest = []; pos = pos; line = line }
skip_loop in_comment (c ∷ cs) pos line =
    let rest =
      skip_loop (if in_comment then not (c == b'"') else c == b'"') cs (pos + 1)
        (next_line c line) in
    if in_comment || is_blank c || c == b'"'
    then rest
    else record { rest = c ∷ cs; pos = pos; line = line }

abbrev pub skip_whitespace_and_comments : Scanner → Scanner
skip_whitespace_and_comments s = skip_loop false s.rest s.pos s.line

-- `while (p(peek(s))) advance(s);`
unfoldable pub while_loop : (ℕ → Bool) → List ℕ → ℕ → ℕ → Scanner
while_loop p [] pos line = record { rest = []; pos = pos; line = line }
while_loop p (c ∷ cs) pos line =
    let rest = while_loop p cs (pos + 1) (next_line c line) in
    if p c then rest else record { rest = c ∷ cs; pos = pos; line = line }

abbrev pub advance_while : (ℕ → Bool) → Scanner → Scanner
advance_while p s = while_loop p s.rest s.pos s.line

-- The loop over a quoted text, from behind the opening quote; `quoted` says that the byte before
-- was a quote that may close the text. The first part of the result is false if the text does not
-- end.
unfoldable pub quote_loop : Bool → List ℕ → ℕ → ℕ → Bool × Scanner
quote_loop quoted [] pos line = (quoted, record { rest = []; pos = pos; line = line })
quote_loop quoted (c ∷ cs) pos line =
    let rest = quote_loop (not quoted && c == b'\'') cs (pos + 1) (next_line c line) in
    if quoted && not (c == b'\'')
    then (true, record { rest = c ∷ cs; pos = pos; line = line })
    else rest

abbrev pub span : Scanner → ℕ → ℕ
span s start = (s.pos - start) % 2 ^ 32

unfoldable pub scan_identifier_or_keyword : Scanner → Token × Scanner
scan_identifier_or_keyword s =
    let t = advance_while is_word s in
    if peek_char t == b':' && not (peek_next t == b'=')
    then (make_token keyword s.pos (span (advance t) s.pos) s.line, advance t)
    else (make_token identifier s.pos (span t s.pos) s.line, t)

-- `negative` says that a minus was consumed before.
unfoldable pub scan_number : Scanner → Bool → Token × Scanner
scan_number s negative =
    let start = if negative then s.pos - 1 else s.pos in
    let t = advance_while is_digit s in
    if peek_char t == b'.' && is_digit (peek_next t)
    then (let u = advance_while is_digit (advance t) in
        (make_token float start (span u start) s.line, u))
    else (make_token integer start (span t start) s.line, t)

unfoldable pub scan_string : Scanner → Token × Scanner
scan_string s =
    let (closed, t) = quote_loop false (advance s).rest (advance s).pos (advance s).line in
    if closed
    then (make_token string s.pos (span t s.pos) s.line, t)
    else (error_token "unterminated string" s.line, t)

-- The branch of `scan_symbol_after_hash` for `#'…'`.
unfoldable pub scan_quoted_symbol : Scanner → Token × Scanner
scan_quoted_symbol s =
    let hash_start = s.pos - 1 in
    let (closed, t) = quote_loop false (advance s).rest (advance s).pos (advance s).line in
    if closed
    then (make_token symbol_literal hash_start (span t hash_start) s.line, t)
    else (error_token "unterminated symbol string" s.line, t)

-- From behind the `#`.
unfoldable pub scan_symbol_after_hash : Scanner → Token × Scanner
scan_symbol_after_hash s =
    let hash_start = s.pos - 1 in
    let c = peek_char s in
    if c == b'('
    then (make_token hash_paren hash_start 2 s.line, advance s)
    else if c == b'\''
    then scan_quoted_symbol s
    else if is_letter c
    then
        -- The loop over the colons stops where neither a colon nor a word goes on.
        (let t = advance_while (λ d. d == b':' || is_word d) (advance_while is_word s) in
        (make_token symbol_literal hash_start (span t hash_start) s.line, t))
    else if is_binary_char c
    then (let t =
          if is_binary_char (peek_char (advance s)) then advance (advance s) else advance s in
        (make_token symbol_literal hash_start (span t hash_start) s.line, t))
    else (error_token "invalid symbol literal" s.line, s)

unfoldable pub scan_binary_selector : Scanner → Token × Scanner
scan_binary_selector s =
    let t = if is_binary_char (peek_char (advance s)) then advance (advance s) else advance s in
    (make_token binary_selector s.pos (span t s.pos) s.line, t)

-- `$` and the byte behind it.
unfoldable pub scan_char : Scanner → Token × Scanner
scan_char s =
    let t = advance s in
    if is_at_end t
    then (error_token "unterminated character literal" s.line, t)
    else (make_token char_literal s.pos (span (advance t) s.pos) s.line, advance t)

unfoldable pub scan_colon : Scanner → Token × Scanner
scan_colon s =
    let t = advance s in
    if peek_char t == b'='
    then (make_token assign ((advance t).pos - 2) 2 (advance t).line, advance t)
    else (make_token colon (t.pos - 1) 1 t.line, t)

-- The `switch` on single characters, `none` where it breaks.
unfoldable pub single : ℕ → Option TokenType
single c =
    if c == b'^'
    then some return
    else if c == b'('
    then some lparen
    else if c == b')'
    then some rparen
    else if c == b'['
    then some lbracket
    else if c == b']'
    then some rbracket
    else if c == b'.'
    then some period
    else if c == b';'
    then some semicolon
    else if c == b'|'
    then some vbar
    else none

unfoldable pub scan_single : Scanner → Token × Scanner
scan_single s =
    let c = peek_char s in
    let t = advance s in
    elim (single c) [
      | some type ↦ (make_token type s.pos 1 s.line, t)
      | none ↦
          if is_binary_char c
          then (let u = if is_binary_char (peek_char t) then advance t else t in
              (make_token binary_selector s.pos (span u s.pos) s.line, u))
          else (error_token "unexpected character" s.line, t)
    ]

-- `scan_token`, from behind the whitespace and comments.
unfoldable pub scan_here : Scanner → Token × Scanner
scan_here s =
    let c = peek_char s in
    if is_at_end s
    then (make_token eof s.pos 0 s.line, s)
    else if is_letter c
    then scan_identifier_or_keyword s
    else if is_digit c
    then scan_number s false
    else if c == b'-'
    then (if is_digit (peek_next s) then scan_number (advance s) true else scan_binary_selector s)
    else if c == b'\''
    then scan_string s
    else if c == b'$'
    then scan_char s
    else if c == b'#'
    then scan_symbol_after_hash (advance s)
    else if c == b':'
    then scan_colon s
    else scan_single s

unfoldable pub scan_token : Scanner → Token × Scanner
scan_token s = scan_here (skip_whitespace_and_comments s)

-- `sta_scanner_init`, `sta_scanner_next` and `sta_scanner_peek`.
unfoldable pub init : List ℕ → Scanner
init source = record { rest = source; pos = 0; line = 1 }

abbrev pub next : Scanner → Token × Scanner
next s = scan_token s

unfoldable pub peek : Scanner → Token × Scanner
peek s = let (t, s') = scan_token s in (t, record s' { rest = s.rest; pos = s.pos; line = s.line })
