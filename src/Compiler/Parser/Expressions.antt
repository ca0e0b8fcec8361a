-- ===== src/Compiler/Parser/Expressions.antt =====
-- Cascades, assignments and statements of src/compiler/parser.c. `parse_expression` ties the knot of
-- the nested expressions, on fuel for their depth.
use smalltalk_a_vm.Prelude.{ℕ, zero, suc, Option, none, some, [], ◌++◌, if◌then◌else◌}
use smalltalk_a_vm.Compiler.Scanner.{Token, TokenType}
use smalltalk_a_vm.Compiler.Ast.{
  Text, Node, Nodes, no_nodes, nodes, CascadeMsgs, no_messages, messages, push_message, line_of,
  node_assign, node_send, node_super_send, node_cascade, node_variable,
}
use smalltalk_a_vm.Compiler.Parser.{
  Parse, pure, ◌>>=◌, check, advance, advance_token, fail, token_str, unless_error, Round, continue,
  break, loop,
}
use smalltalk_a_vm.Compiler.Parser.Sends.{
  parse_unary_expr, parse_binary_expr, parse_keyword_expr, add_keyword,
}

-- A missing argument ends the message of a cascade, which is kept.
unfoldable pub cascade_keyword_round :
    ℕ → Parse (Option Node) → Text × Nodes → Parse (Round (Text × Nodes))
unfolding advance parse_binary_expr
cascade_keyword_round fuel expr (selector, args) p =
    if check TokenType.keyword p
    then (do
      t ← advance
      text ← token_str t
      arg ← parse_binary_expr fuel expr
      pure (add_keyword (break (selector ++ text, args)) (selector ++ text) args arg))
        p
    else some (break (selector, args), p)

abbrev pub binary_message : Text → Option Node → Option (Text × Nodes)
binary_message selector none = none
binary_message selector (some arg) = some (selector, nodes arg no_nodes)

-- The message behind a semicolon.
unfoldable pub cascade_message : ℕ → Parse (Option Node) → Parse (Option (Text × Nodes))
unfolding advance parse_unary_expr loop cascade_keyword_round fail
cascade_message fuel expr p =
    if check TokenType.identifier p
    then (do t ← advance; text ← token_str t; pure (some (text, no_nodes))) p
    else if check TokenType.binary_selector p
    then (do
      t ← advance
      text ← token_str t
      arg ← parse_unary_expr fuel expr
      pure (binary_message text arg))
        p
    else if check TokenType.keyword p
    then loop fuel (cascade_keyword_round fuel expr) ([], no_nodes) p
    else fail "expected message after cascade ';'" p

abbrev pub add_message : CascadeMsgs → Option (Text × Nodes) → Round CascadeMsgs
add_message msgs none = break msgs
add_message msgs (some (selector, args)) = continue (push_message msgs selector args)

unfoldable pub cascade_round : ℕ → Parse (Option Node) → CascadeMsgs → Parse (Round CascadeMsgs)
unfolding advance cascade_message
cascade_round fuel expr msgs p =
    if check TokenType.semicolon p
    then (do
      semicolon ← advance
      λ q.
          if q.had_error
          then some (break msgs, q)
          else (do message ← cascade_message fuel expr; pure (add_message msgs message)) q)
        p
    else some (break msgs, p)

abbrev pub cascade_of : Node → Option CascadeMsgs → Option Node
cascade_of receiver none = none
cascade_of receiver (some msgs) = some (node_cascade (line_of receiver) receiver msgs)

unfoldable pub parse_messages : ℕ → Parse (Option Node) → Node → Text → Nodes → Parse (Option Node)
unfolding loop cascade_round
parse_messages fuel expr receiver selector args = do
  msgs ← loop fuel (cascade_round fuel expr) (messages selector args no_messages)
  pure (cascade_of receiver msgs)

-- What stands before a semicolon gives up its receiver and its message.
unfoldable pub start_cascade : ℕ → Parse (Option Node) → Node → Parse (Option Node)
unfolding parse_messages fail
start_cascade fuel expr (node_send line receiver selector args) =
    parse_messages fuel expr receiver selector args
start_cascade fuel expr (node_super_send line receiver selector args) =
    parse_messages fuel expr receiver selector args
start_cascade fuel expr _ = fail "cascade (;) requires a message send before it"

unfoldable pub parse_cascade_or_expr : ℕ → Parse (Option Node) → Parse (Option Node)
unfolding parse_keyword_expr start_cascade
parse_cascade_or_expr fuel expr = do
  sent ← parse_keyword_expr fuel expr
  unless_error sent
      (λ n p. if check TokenType.semicolon p then start_cascade fuel expr n p else some (some n, p))

abbrev pub assign_to : ℕ → Text → Option Node → Option Node
assign_to line name none = none
assign_to line name (some value) = some (node_assign line (node_variable line name) value)

-- The assignment behind its `:=`.
unfoldable pub parse_assign : Parse (Option Node) → Token → Parse (Option Node)
unfolding advance
parse_assign expr ident = do
  assign ← advance
  value ← expr
  name ← token_str ident
  pure (assign_to ident.line name value)

-- An identifier is read to see whether `:=` follows it; if not, the scanner goes back.
unfoldable pub expression_body : ℕ → Parse (Option Node) → Parse (Option Node)
unfolding advance_token parse_assign parse_cascade_or_expr
expression_body fuel expr p =
    if p.had_error
    then some (none, p)
    else if check TokenType.identifier p
    then (if check TokenType.assign (advance_token p)
        then parse_assign expr p.current (advance_token p)
        else parse_cascade_or_expr fuel expr
            (record (advance_token p) { scanner = p.scanner; current = p.current }))
    else parse_cascade_or_expr fuel expr p

-- `parse_expression`
unfoldable pub parse_expression : ℕ → ℕ → Parse (Option Node)
unfolding expression_body
parse_expression fuel zero p = none
parse_expression fuel (suc depth) p = expression_body fuel (parse_expression fuel depth) p
