-- ===== src/Compiler/Parser/Blocks.antt =====
-- Blocks and primaries of src/compiler/parser.c. What parses a nested expression is the argument
-- `expr`, which Expressions provides.
use Prim.Native.String.{String}
use smalltalk_a_vm.Prelude.{
  ℕ, ◌+◌, ◌-◌, Bool, true, false, ◌||◌, Option, none, some, List, [], ◌∷◌, ◌++◌, if◌then◌else◌,
}
use smalltalk_a_vm.Compiler.Scanner.{Token, TokenType}
use smalltalk_a_vm.Compiler.Ast.{
  Text, Node, Nodes, no_nodes, push, node_return, node_variable, node_literal_bool,
  node_literal_nil, node_block, node_self,
}
use smalltalk_a_vm.Compiler.Parser.{
  Parser, Parse, pure, ◌>>=◌, ◌>>◌, check, advance, match, consume, fail, token_str, same,
  token_text, unless_null, Round, continue, break, give_up, loop,
}
use smalltalk_a_vm.Compiler.Parser.Literals.{
  word_nil, word_true, word_false, starts_literal, parse_literal, parse_literal_array,
}

abbrev pub word_self : Text
word_self = b's' ∷ b'e' ∷ b'l' ∷ b'f' ∷ []

abbrev pub word_super : Text
word_super = b's' ∷ b'u' ∷ b'p' ∷ b'e' ∷ b'r' ∷ []

abbrev pub word_this_context : Text
word_this_context = b't' ∷ b'h' ∷ b'i' ∷ b's' ∷ b'C' ∷ b'o' ∷ b'n' ∷ b't' ∷ b'e' ∷ b'x' ∷ b't' ∷ []

-- `token_str(&p->previous)`
abbrev pub consumed_text : Parse Text
consumed_text p = some (token_text p.source p.previous, p)

-- The loop over block arguments: `:x :y`.
unfoldable pub argument_round : List Text → Parse (Round (List Text))
unfolding advance consume
argument_round args p =
    if check TokenType.colon p
    then (do
      colon ← advance
      found ← consume TokenType.identifier "expected block argument name"
      text ← consumed_text
      pure (if found then continue (args ++ text ∷ []) else give_up))
        p
    else some (break args, p)

abbrev pub if_found {ℓ} : {A : Type ℓ} → Bool → A → Option A
if_found true a = some a
if_found false a = none

unfoldable pub parse_arguments : ℕ → Parse (Option (List Text))
unfolding loop argument_round consume
parse_arguments fuel p =
    if check TokenType.colon p
    then (do
      args ← loop fuel argument_round []
      unless_null args (λ names. do
        closed ← consume TokenType.vbar "expected '|' after block arguments"
        pure (if_found closed names)))
        p
    else some (some [], p)

unfoldable pub name_round : List Text → Parse (Round (List Text))
unfolding advance
name_round temps p =
    if check TokenType.identifier p
    then (do t ← advance; text ← token_str t; pure (continue (temps ++ text ∷ []))) p
    else some (break temps, p)

-- The temporaries between two bars, if there are any; `parse_temps` and a part of `parse_block`.
unfoldable pub parse_temps : ℕ → String → Parse (Option (List Text))
unfolding loop name_round consume advance
parse_temps fuel msg p =
    if check TokenType.vbar p
    then (do
      bar ← advance
      temps ← loop fuel name_round []
      unless_null temps
          (λ names. do closed ← consume TokenType.vbar msg; pure (if_found closed names)))
        p
    else some (some [], p)

abbrev pub wrap_return : ℕ → Option Node → Option Node
wrap_return line none = none
wrap_return line (some n) = some (node_return line n)

-- A return or an expression; in a block, `^` is a return from the method around it.
unfoldable pub return_or : Parse (Option Node) → Parse (Option Node)
unfolding advance
return_or expr p =
    if check TokenType.return p
    then (do t ← advance; value ← expr; pure (wrap_return t.line value)) p
    else expr p

-- After a statement: another one follows a period.
unfoldable pub end_statement : Nodes → Option Node → Parse (Round Nodes)
unfolding match
end_statement body none p = some (break body, p)
end_statement body (some stmt) p =
    (do
      period ← match TokenType.period
      pure (if period then continue (push body stmt) else break (push body stmt)))
      p

unfoldable pub body_round : Parse (Option Node) → Nodes → Parse (Round Nodes)
unfolding return_or end_statement
body_round expr body p =
    if check TokenType.rbracket p || check TokenType.eof p || p.had_error
    then some (break body, p)
    else (do stmt ← return_or expr; end_statement body stmt) p

abbrev pub enter_block : Parser → Parser
enter_block p = record p { block_depth = p.block_depth + 1 }

abbrev pub leave_block : Parser → Parser
leave_block p = record p { block_depth = p.block_depth - 1 }

-- `parse_block` between the two changes of `block_depth`.
unfoldable pub block_inside : ℕ → Parse (Option Node) → Token → Parse (Option Node)
unfolding parse_arguments parse_temps loop body_round consume
block_inside fuel expr t = do
  args ← parse_arguments fuel
  unless_null args (λ names. do
    temps ← parse_temps fuel "expected '|' after block temporaries"
    unless_null temps (λ locals. do
      body ← loop fuel (body_round expr) no_nodes
      unless_null body (λ stmts. do
        closed ← consume TokenType.rbracket "expected ']' after block body"
        pure (if_found closed (node_block t.line names locals stmts)))))

-- `parse_block`, whose every return restores `block_depth`.
unfoldable pub parse_block : ℕ → Parse (Option Node) → Token → Parse (Option Node)
unfolding block_inside
parse_block fuel expr t =
    enter_block >> (do node ← block_inside fuel expr t; leave_block >> pure node)

-- The node for an identifier.
unfoldable pub name_node : ℕ → Text → Node
unfolding same
name_node line text =
    if same text word_self
    then node_self line
    else if same text word_nil
    then node_literal_nil line
    else if same text word_true
    then node_literal_bool line true
    else if same text word_false
    then node_literal_bool line false
    else node_variable line text

-- An expression in parentheses, behind the opening one.
unfoldable pub parse_parens : Parse (Option Node) → Parse (Option Node)
unfolding consume
parse_parens expr = do
  inside ← expr
  unless_null inside (λ n. do
    closed ← consume TokenType.rparen "expected ')' after expression"
    pure (if_found closed n))

unfoldable pub parse_primary : ℕ → Parse (Option Node) → Parse (Option Node)
unfolding advance name_node parse_literal parse_literal_array parse_block parse_parens fail
parse_primary fuel expr p =
    if check TokenType.identifier p
    then (do t ← advance; text ← token_str t; pure (some (name_node t.line text))) p
    else if starts_literal p
    then parse_literal (parse_literal_array fuel fuel) p
    else if check TokenType.lbracket p
    then (do t ← advance; parse_block fuel expr t) p
    else if check TokenType.lparen p
    then (do t ← advance; parse_parens expr) p
    else fail "expected expression" p
