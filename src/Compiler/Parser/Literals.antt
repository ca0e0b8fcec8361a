-- ===== src/Compiler/Parser/Literals.antt =====
-- Literals, `parse_literal` and `parse_literal_array` of src/compiler/parser.c.
use smalltalk_a_vm.Prelude.{
  take, ℕ, zero, suc, ◌+◌, ◌-◌, ◌*◌, ◌%◌, ◌^◌, min, Bool, true, false, ◌&&◌, ◌||◌, Option, none,
  some, [], ◌∷◌, length, leb, ◌==◌, if◌then◌else◌,
}
use smalltalk_a_vm.Compiler.Scanner.{Token, TokenType, first, tail}
use smalltalk_a_vm.Compiler.Ast.{
  Text, Node, Nodes, no_nodes, push, node_literal_int, node_literal_float, node_literal_string,
  node_literal_symbol, node_literal_char, node_literal_array, node_literal_bool, node_literal_nil,
}
use smalltalk_a_vm.Compiler.Parser.{
  Parser, Parse, pure, ◌>>=◌, check, advance, consume, fail, token_str, same, Round, continue,
  break, loop,
}

abbrev pub word_nil : Text
word_nil = b'n' ∷ b'i' ∷ b'l' ∷ []

abbrev pub word_true : Text
word_true = b't' ∷ b'r' ∷ b'u' ∷ b'e' ∷ []

abbrev pub word_false : Text
word_false = b'f' ∷ b'a' ∷ b'l' ∷ b's' ∷ b'e' ∷ []

abbrev pub digits : ℕ → Text → ℕ
digits n [] = n
digits n (c ∷ cs) = digits (n * 10 + (c - b'0')) cs

-- `strtoll` on the text of an integer token, as a 64-bit word.
unfoldable pub strtoll : Text → ℕ
strtoll text =
    if first text == b'-'
    then (2 ^ 64 - min (digits 0 (tail text)) (2 ^ 63)) % 2 ^ 64
    else min (digits 0 text) (2 ^ 63 - 1)

-- A quoted text without its quotes, where two quotes stand for one.
unfoldable pub unescape : Text → Text
unescape [] = []
unescape (c ∷ []) = c ∷ []
unescape (c ∷ d ∷ ds) =
    let doubled = c ∷ unescape ds in
    let other = c ∷ unescape (d ∷ ds) in if c == b'\'' && d == b'\'' then doubled else other

abbrev pub quoted : Text → Text
quoted text = unescape (take ((length text + (2 ^ 32 - 2)) % 2 ^ 32) (tail text))

-- The name of a symbol literal, from its text behind the `#`.
unfoldable pub symbol_name : Text → Text
unfolding unescape
symbol_name text = if leb 2 (length text) && first text == b'\'' then quoted text else text

-- What the branches of `parse_literal` make of their token.
unfoldable pub literal_of : TokenType → Token → Text → Node
unfolding strtoll unescape symbol_name
literal_of TokenType.integer t text = node_literal_int t.line (strtoll text)
literal_of TokenType.float t text = node_literal_float t.line text
literal_of TokenType.string t text = node_literal_string t.line (quoted text)
literal_of TokenType.symbol_literal t text = node_literal_symbol t.line (symbol_name (tail text))
literal_of _ t text = node_literal_char t.line (first (tail text))

abbrev pub is_simple : Parser → Bool
is_simple p =
    check TokenType.integer p
    || check TokenType.float p
    || check TokenType.string p
    || check TokenType.symbol_literal p
    || check TokenType.char_literal p

abbrev pub starts_literal : Parser → Bool
starts_literal p = is_simple p || check TokenType.hash_paren p

abbrev pub take_literal : Parse (Option Node)
take_literal = do t ← advance; text ← token_str t; pure (some (literal_of t.type t text))

-- `parse_literal`; `array` is `parse_literal_array` behind its opening token.
unfoldable pub parse_literal : (Token → Parse (Option Node)) → Parse (Option Node)
unfolding advance literal_of
parse_literal array p =
    if is_simple p
    then take_literal p
    else if check TokenType.hash_paren p
    then (do t ← advance; array t) p
    else some (none, p)

-- The node for an identifier in a literal array.
unfoldable pub name_literal : ℕ → Text → Node
unfolding same
name_literal line text =
    if same text word_nil
    then node_literal_nil line
    else if same text word_true
    then node_literal_bool line true
    else if same text word_false
    then node_literal_bool line false
    else node_literal_symbol line text

abbrev pub push_if : Nodes → Option Node → Round Nodes
push_if xs none = break xs
push_if xs (some n) = continue (push xs n)

-- A round of the loop over a nested array in parentheses.
unfoldable pub inner_round : (Token → Parse (Option Node)) → Nodes → Parse (Round Nodes)
unfolding parse_literal
inner_round array inner p =
    if check TokenType.rparen p || check TokenType.eof p || p.had_error
    then some (break inner, p)
    else (do elem ← parse_literal array; pure (push_if inner elem)) p

-- From the closing parenthesis on.
abbrev pub close_array : Bool → ℕ → Option Nodes → Option Node
close_array closed line none = none
close_array false line (some xs) = none
close_array true line (some xs) = some (node_literal_array line xs)

-- A nested array in parentheses, behind the opening one.
unfoldable pub parse_inner_array : ℕ → (Token → Parse (Option Node)) → Token → Parse (Option Node)
unfolding loop inner_round consume
parse_inner_array fuel array t = do
  inner ← loop fuel (inner_round array) no_nodes
  closed ← consume TokenType.rparen "expected ')' in nested literal array"
  pure (close_array closed t.line inner)

-- The branches on the first token of an element.
unfoldable pub parse_element : ℕ → (Token → Parse (Option Node)) → Parse (Option Node)
unfolding parse_literal parse_inner_array advance name_literal fail
parse_element fuel array p =
    if starts_literal p
    then parse_literal array p
    else if check TokenType.identifier p
    then (do t ← advance; text ← token_str t; pure (some (name_literal t.line text))) p
    else if check TokenType.lparen p
    then (do t ← advance; parse_inner_array fuel array t) p
    else if check TokenType.binary_selector p
    then (do t ← advance; text ← token_str t; pure (some (node_literal_symbol t.line text))) p
    else fail "unexpected token in literal array" p

unfoldable pub array_round : ℕ → (Token → Parse (Option Node)) → Nodes → Parse (Round Nodes)
unfolding parse_element
array_round fuel array elems p =
    if check TokenType.rparen p || check TokenType.eof p || p.had_error
    then some (break elems, p)
    else (do elem ← parse_element fuel array; pure (push_if elems elem)) p

-- `parse_literal_array`, to the given depth of nested arrays; `t` is its opening token.
unfoldable pub parse_literal_array : ℕ → ℕ → Token → Parse (Option Node)
unfolding loop array_round consume
parse_literal_array fuel zero t p = none
parse_literal_array fuel (suc depth) t p =
    (do
      elems ← loop fuel (array_round fuel (parse_literal_array fuel depth)) no_nodes
      closed ← consume TokenType.rparen "expected ')' after literal array"
      pure (close_array closed t.line elems))
      p
