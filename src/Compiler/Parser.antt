-- ===== src/Compiler/Parser.antt =====
-- The recursive descent parser, src/compiler/parser.c and parser.h: its state, and what all its
-- functions use. A function of the parser is an action on the state, whose result is `none` where
-- the fuel for its loops and its recursion does not suffice. NULL for a node is `none` of the inner
-- option. Allocations succeed, and what is only freed is left out.
pub mod Literals
pub mod Blocks
pub mod Sends
pub mod Expressions
pub mod Methods
pub mod Quotes
pub mod Runs
pub mod Rules
pub mod Arrays
pub mod Nested
pub mod Primary
pub mod Levels
pub mod Cascades
pub mod Laws
use Prim.Native.String.{String}
use smalltalk_a_vm.Prelude.{
  take, drop, ℕ, zero, suc, ◌-◌, ◌%◌, ◌^◌, Bool, true, false, ◌&&◌, Option, none, some, List, [],
  ◌∷◌, ◌==◌, if◌then◌else◌,
}
use smalltalk_a_vm.Compiler.Scanner.{Token, TokenType, Start, source_at, message, Scanner, next}
use smalltalk_a_vm.Compiler.Ast.{Node, Text, node_variable}

-- The number of a token type, for its comparison.
abbrev pub code : TokenType → ℕ
code TokenType.identifier = 0
code TokenType.keyword = 1
code TokenType.integer = 2
code TokenType.float = 3
code TokenType.string = 4
code TokenType.symbol_literal = 5
code TokenType.char_literal = 6
code TokenType.hash_paren = 7
code TokenType.binary_selector = 8
code TokenType.assign = 9
code TokenType.return = 10
code TokenType.lparen = 11
code TokenType.rparen = 12
code TokenType.lbracket = 13
code TokenType.rbracket = 14
code TokenType.period = 15
code TokenType.semicolon = 16
code TokenType.colon = 17
code TokenType.vbar = 18
code TokenType.bang = 19
code TokenType.eof = 20
code TokenType.error = 21

-- `STA_Parser`; `source` are the bytes that the tokens point into, and the error message stands as
-- the line and the text that are printed into it.
pub record Parser : Type 0 where
  pub source : List ℕ
  pub scanner : Scanner
  pub current : Token
  pub previous : Token
  pub had_error : Bool
  pub error_line : ℕ
  pub error_text : String
  pub block_depth : ℕ

abbrev pub Parse {ℓ} : Type ℓ → Type ℓ
Parse A = Parser → Option (A × Parser)

abbrev pub pure {ℓ} : {A : Type ℓ} → A → Parse A
pure a p = some (a, p)

abbrev pub go_on {ℓ κ} :
    {A : Type ℓ} {B : Type κ} → (A → Parse B) → Option (A × Parser) → Option (B × Parser)
go_on f none = none
go_on f (some (a, p)) = f a p

infixl 20 ◌>>=◌
abbrev pub ◌>>=◌ {ℓ κ} : {A : Type ℓ} {B : Type κ} → Parse A → (A → Parse B) → Parse B
(m >>= f) p = go_on f (m p)

infixl 20 ◌>>◌
abbrev pub ◌>>◌ {ℓ} : {B : Type ℓ} → (Parser → Parser) → Parse B → Parse B
(f >> k) p = k (f p)

-- `parser_error`, which keeps the first error.
unfoldable pub parser_error : String → Parser → Parser
parser_error msg p =
    if p.had_error
    then p
    else record p { had_error = true; error_line = p.current.line; error_text = msg }

unfoldable pub advance_token : Parser → Parser
advance_token p = record p {
  previous = p.current;
  current = (next p.scanner).0;
  scanner = (next p.scanner).1;
}

-- `check`
abbrev pub check : TokenType → Parser → Bool
check type p = code p.current.type == code type

abbrev pub ask : (Parser → Bool) → Parse Bool
ask test p = some (test p, p)

-- `advance_token`, with the token that it consumes, which is `p->previous` then.
unfoldable pub advance : Parse Token
unfolding advance_token
advance p = some (p.current, advance_token p)

unfoldable pub match : TokenType → Parse Bool
unfolding advance_token
match type p = if check type p then some (true, advance_token p) else some (false, p)

unfoldable pub consume : TokenType → String → Parse Bool
unfolding advance_token parser_error
consume type msg p =
    if check type p then some (true, advance_token p) else some (false, parser_error msg p)

-- `parser_error(p, msg); return NULL;`
unfoldable pub fail {ℓ} : {A : Type ℓ} → String → Parse (Option A)
unfolding parser_error
fail msg p = some (none, parser_error msg p)

-- The bytes of a token; a message of the scanner is not read.
unfoldable pub token_text : List ℕ → Token → Text
token_text source t = from t.start
  where
    from : Start → Text
    from (source_at pos) = take t.length (drop pos source)
    from (message text) = []

-- `token_str`
abbrev pub token_str : Token → Parse Text
token_str t p = some (token_text p.source t, p)

-- `len == n && memcmp(txt, word, n) == 0`
unfoldable pub same : Text → Text → Bool
same [] [] = true
same [] (d ∷ ds) = false
same (c ∷ cs) [] = false
same (c ∷ cs) (d ∷ ds) = c == d && same cs ds

-- `if (!n || p->had_error) return n;`
abbrev pub unless_error : Option Node → (Node → Parse (Option Node)) → Parse (Option Node)
unless_error none k p = some (none, p)
unless_error (some n) k p = if p.had_error then some (some n, p) else k n p

-- `if (!n) return NULL;`
abbrev pub unless_null {ℓ κ} :
    {A : Type ℓ} {B : Type κ} → Option A → (A → Parse (Option B)) → Parse (Option B)
unless_null none k p = some (none, p)
unless_null (some n) k p = k n p

-- What a round of a loop comes to: another round, the end of the loop, or `return NULL;`.
pub data Round {ℓ} (A : Type ℓ) : Type ℓ where
  continue : A → Round A
  break : A → Round A
  give_up : Round A

abbrev pub go_round {ℓ} :
    {A : Type ℓ} → (A → Parse (Option A)) → Option (Round A × Parser) → Option (Option A × Parser)
go_round again none = none
go_round again (some (continue a, p)) = again a p
go_round again (some (break a, p)) = some (some a, p)
go_round again (some (give_up, p)) = some (none, p)

-- A loop of at most `fuel` rounds.
unfoldable pub loop {ℓ} : {A : Type ℓ} → ℕ → (A → Parse (Round A)) → A → Parse (Option A)
loop zero body a p = none
loop (suc fuel) body a p = go_round (loop fuel body) (body a p)
