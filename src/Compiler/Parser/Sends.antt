-- ===== src/Compiler/Parser/Sends.antt =====
-- Unary, binary and keyword sends of src/compiler/parser.c, by precedence.
use smalltalk_a_vm.Prelude.{
  ℕ, Bool, true, false, not, ◌&&◌, ◌||◌, Option, none, some, [], ◌++◌, if◌then◌else◌,
}
use smalltalk_a_vm.Compiler.Scanner.{TokenType}
use smalltalk_a_vm.Compiler.Ast.{
  Text, Node, Nodes, no_nodes, nodes, push, node_send, node_super_send, node_variable,
}
use smalltalk_a_vm.Compiler.Parser.{
  Parse, pure, ◌>>=◌, check, advance, token_str, same, token_text, unless_error, Round, continue,
  break, give_up, loop,
}
use smalltalk_a_vm.Compiler.Parser.Literals.{word_nil, word_true, word_false}
use smalltalk_a_vm.Compiler.Parser.Blocks.{word_self, word_super, word_this_context, parse_primary}

abbrev pub is_super : Node → Bool
is_super (node_variable line name) = same name word_super
is_super _ = false

abbrev pub send : Bool → ℕ → Node → Text → Nodes → Node
send true line receiver selector args = node_super_send line receiver selector args
send false line receiver selector args = node_send line receiver selector args

-- The names that are no unary selectors.
unfoldable pub is_pseudo : Text → Bool
unfolding same
is_pseudo text =
    same text word_self
    || same text word_super
    || same text word_nil
    || same text word_true
    || same text word_false
    || same text word_this_context

-- The first part of the state says that the receiver is `super`.
unfoldable pub unary_round : Bool × Node → Parse (Round (Bool × Node))
unfolding advance
unary_round (super, receiver) p =
    if check TokenType.identifier p && not (is_pseudo (token_text p.source p.current))
    then (do
      t ← advance
      text ← token_str t
      pure (continue (false, send super t.line receiver text no_nodes)))
        p
    else some (break (super, receiver), p)

abbrev pub receiver_of : Option (Bool × Node) → Option Node
receiver_of none = none
receiver_of (some (super, receiver)) = some receiver

unfoldable pub parse_unary_expr : ℕ → Parse (Option Node) → Parse (Option Node)
unfolding parse_primary loop unary_round same
parse_unary_expr fuel expr = do
  primary ← parse_primary fuel expr
  unless_error primary (λ receiver. do
    sent ← loop fuel unary_round (is_super receiver, receiver)
    pure (receiver_of sent))

abbrev pub send_binary : Node → ℕ → Text → Option Node → Round Node
send_binary left line selector none = give_up
send_binary left line selector (some right) =
    continue (send (is_super left) line left selector (nodes right no_nodes))

unfoldable pub binary_round : ℕ → Parse (Option Node) → Node → Parse (Round Node)
unfolding advance parse_unary_expr same
binary_round fuel expr left p =
    if check TokenType.binary_selector p || check TokenType.vbar p
    then (do
      t ← advance
      text ← token_str t
      right ← parse_unary_expr fuel expr
      pure (send_binary left t.line text right))
        p
    else some (break left, p)

unfoldable pub parse_binary_expr : ℕ → Parse (Option Node) → Parse (Option Node)
unfolding parse_unary_expr loop binary_round
parse_binary_expr fuel expr = do
  unary ← parse_unary_expr fuel expr
  unless_error unary (loop fuel (binary_round fuel expr))

-- The selector so far and the arguments; `if_null` is what a missing argument comes to.
abbrev pub add_keyword : Round (Text × Nodes) → Text → Nodes → Option Node → Round (Text × Nodes)
add_keyword if_null selector args none = if_null
add_keyword if_null selector args (some arg) = continue (selector, push args arg)

unfoldable pub keyword_round : ℕ → Parse (Option Node) → Text × Nodes → Parse (Round (Text × Nodes))
unfolding advance parse_binary_expr
keyword_round fuel expr (selector, args) p =
    if check TokenType.keyword p
    then (do
      t ← advance
      text ← token_str t
      arg ← parse_binary_expr fuel expr
      pure (add_keyword give_up (selector ++ text) args arg))
        p
    else some (break (selector, args), p)

abbrev pub send_keywords : ℕ → Node → Option (Text × Nodes) → Option Node
send_keywords line receiver none = none
send_keywords line receiver (some (selector, args)) =
    some (send (is_super receiver) line receiver selector args)

unfoldable pub parse_keyword_expr : ℕ → Parse (Option Node) → Parse (Option Node)
unfolding parse_binary_expr loop keyword_round same
parse_keyword_expr fuel expr = do
  binary ← parse_binary_expr fuel expr
  unless_error binary (λ receiver p.
      if check TokenType.keyword p
      then (do
        message ← loop fuel (keyword_round fuel expr) ([], no_nodes)
        pure (send_keywords p.current.line receiver message))
          p
      else some (some receiver, p))
