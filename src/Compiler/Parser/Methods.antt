-- ===== src/Compiler/Parser/Methods.antt =====
-- Methods, `parse_method_header` and `sta_parse_method` of src/compiler/parser.c.
use Prim.Native.String.{String}
use smalltalk_a_vm.Prelude.{ℕ, false, ◌||◌, Option, none, some, List, [], ◌∷◌, ◌++◌, if◌then◌else◌}
use smalltalk_a_vm.Compiler.Scanner.{TokenType, init, next}
use smalltalk_a_vm.Compiler.Ast.{node_method, Text, Node, Nodes, no_nodes}
use smalltalk_a_vm.Compiler.Parser.{
  Parser, Parse, pure, ◌>>=◌, check, advance, consume, fail, token_str, unless_null, Round,
  continue, break, give_up, loop,
}
use smalltalk_a_vm.Compiler.Parser.Blocks.{
  consumed_text, if_found, parse_temps, return_or, end_statement,
}
use smalltalk_a_vm.Compiler.Parser.Expressions.{parse_expression}

-- The selector so far and the argument names.
unfoldable pub header_round : Text × List Text → Parse (Round (Text × List Text))
unfolding advance consume
header_round (selector, args) p =
    if check TokenType.keyword p
    then (do
      t ← advance
      text ← token_str t
      found ← consume TokenType.identifier "expected argument name after keyword"
      name ← consumed_text
      pure (if found then continue (selector ++ text, args ++ name ∷ []) else give_up))
        p
    else some (break (selector, args), p)

-- The line, the selector and the argument names of the method's node.
pub record Header : Type 0 where
  pub line : ℕ
  pub selector : Text
  pub args : List Text

abbrev pub keyword_header : ℕ → Option (Text × List Text) → Option Header
keyword_header line none = none
keyword_header line (some (selector, args)) =
    some (record { line = line; selector = selector; args = args })

unfoldable pub binary_header : Parse (Option Header)
unfolding advance consume
binary_header p =
    (do
      t ← advance
      selector ← token_str t
      found ← consume TokenType.identifier "expected argument name after binary selector"
      name ← consumed_text
      pure (
          if_found found (record { line = p.current.line; selector = selector; args = name ∷ [] })))
      p

unfoldable pub parse_method_header : ℕ → Parse (Option Header)
unfolding loop header_round binary_header advance fail
parse_method_header fuel p =
    if check TokenType.keyword p
    then (do
      message ← loop fuel header_round ([], [])
      pure (keyword_header p.current.line message))
        p
    else if check TokenType.binary_selector p || check TokenType.vbar p
    then binary_header p
    else if check TokenType.identifier p
    then (do
      t ← advance
      selector ← token_str t
      pure (some (record { line = p.current.line; selector = selector; args = [] })))
        p
    else fail "expected method header" p

-- `parse_statement`
unfoldable pub parse_statement : ℕ → Parse (Option Node)
unfolding return_or parse_expression
parse_statement fuel p =
    if p.had_error then some (none, p) else return_or (parse_expression fuel fuel) p

-- A round ends the loop before the end of the source too, which the next round would find.
unfoldable pub statement_round : ℕ → Nodes → Parse (Round Nodes)
unfolding parse_statement end_statement
statement_round fuel body p =
    if check TokenType.eof p || p.had_error
    then some (break body, p)
    else (do stmt ← parse_statement fuel; end_statement body stmt) p

-- After the body: NULL for an error.
abbrev pub method_of : Header → List Text → Option Nodes → Parse (Option Node)
method_of h temps none p = some (none, p)
method_of h temps (some body) p =
    if p.had_error
    then some (none, p)
    else some (some (node_method h.line h.selector h.args temps body), p)

abbrev pub unless_failed : Option Header → (Header → Parse (Option Node)) → Parse (Option Node)
unless_failed none k p = some (none, p)
unless_failed (some h) k p = if p.had_error then some (none, p) else k h p

-- From the primed state on.
unfoldable pub parse_rest : ℕ → Parse (Option Node)
unfolding parse_method_header parse_temps loop statement_round
parse_rest fuel = do
  header ← parse_method_header fuel
  unless_failed header (λ h. do
    temps ← parse_temps fuel "expected '|' after temporary variables"
    unless_null temps
        (λ names. do body ← loop fuel (statement_round fuel) no_nodes; method_of h names body))

-- The state in which the first token is current. `previous` is not set yet in the code, and not
-- read before it is.
unfoldable pub prime : List ℕ → Parser
unfolding init
prime source = record {
  source = source;
  scanner = (next (init source)).1;
  current = (next (init source)).0;
  previous = (next (init source)).0;
  had_error = false;
  error_line = 0;
  error_text = "";
  block_depth = 0;
}

-- `sta_parse_method`
unfoldable pub parse_method : ℕ → List ℕ → Option (Option Node × Parser)
unfolding parse_rest
parse_method fuel source = parse_rest fuel (prime source)

-- `sta_parser_error`: the line and the text of the message.
abbrev pub parser_message : Parser → Option (ℕ × String)
parser_message p = if p.had_error then some (p.error_line, p.error_text) else none
