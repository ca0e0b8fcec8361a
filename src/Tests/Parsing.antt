-- ===== src/Tests/Parsing.antt =====
-- The parser, src/compiler/parser.c, on short methods.
use Prim.Native.String.{String}
use smalltalk_a_vm.Prelude.{
  ℕ, ◌<◌, ◌≡◌, refl, arith, true, Option, none, some, List, [], ◌∷◌, ◌^◌, length, ◌↔◌,
}
use smalltalk_a_vm.Compiler.Scanner.{
  scan_token, init, scan_here, skip_loop, while_loop, advance, is_letter, is_digit, is_binary_char,
  scan_identifier_or_keyword, scan_number, single, scan_single, scan_colon, scan_binary_selector,
  scan_symbol_after_hash,
}
use smalltalk_a_vm.Compiler.Ast.{Node, Nodes, CascadeMsgs, push, push_message}
use smalltalk_a_vm.Compiler.Parser.{Parser, token_text}
use smalltalk_a_vm.Compiler.Scanner.Source.{StandsIn}
use smalltalk_a_vm.Compiler.Parser.Literals.{quoted, symbol_name}
use smalltalk_a_vm.Compiler.Parser.Quotes.{escape, literal, quoted-literal}
use smalltalk_a_vm.Compiler.Parser.Methods.{parse_method, prime, parser_message}
use smalltalk_a_vm.Compiler.Parser.Expressions.{parse_expression}
use smalltalk_a_vm.Compiler.Parser.Runs.{Runs}
use smalltalk_a_vm.Compiler.Parser.Rules.{Yields}
use smalltalk_a_vm.Compiler.Parser.Laws.{
  parse_expression_lem, parse_method_lem, prime_stands, left-prime,
}
use smalltalk_a_vm.Compiler.Parser.Sends.{is_pseudo}

abbrev node_of : Option (Option Node × Parser) → Option (Option Node)
node_of none = none
node_of (some (n, p)) = some n

-- `at: i put: v | t | t := i foo; bar: 3 + v. ^[:x | x]`
abbrev source : List ℕ
source =
    97 ∷ 116 ∷ 58 ∷ 32 ∷ 105 ∷ 32 ∷ 112 ∷ 117 ∷ 116 ∷ 58 ∷ 32 ∷ 118 ∷ 32 ∷ 124 ∷ 32 ∷ 116 ∷ 32 ∷ 124
    ∷ 32 ∷ 116 ∷ 32 ∷ 58 ∷ 61 ∷ 32 ∷ 105 ∷ 32 ∷ 102 ∷ 111 ∷ 111 ∷ 59 ∷ 32 ∷ 98 ∷ 97 ∷ 114 ∷ 58 ∷ 32
    ∷ 51 ∷ 32 ∷ 43 ∷ 32 ∷ 118 ∷ 46 ∷ 32 ∷ 94 ∷ 91 ∷ 58 ∷ 120 ∷ 32 ∷ 124 ∷ 32 ∷ 120 ∷ 93 ∷ []

abbrev sum : Node
sum =
    Node.node_send 1 (Node.node_literal_int 1 3) (43 ∷ [])
      (Nodes.nodes (Node.node_variable 1 (118 ∷ [])) Nodes.no_nodes)

abbrev cascade : Node
cascade = Node.node_cascade 1 (Node.node_variable 1 (105 ∷ [])) (
    CascadeMsgs.messages (102 ∷ 111 ∷ 111 ∷ []) Nodes.no_nodes (
      CascadeMsgs.messages (98 ∷ 97 ∷ 114 ∷ 58 ∷ []) (Nodes.nodes sum Nodes.no_nodes)
        CascadeMsgs.no_messages))

abbrev identity : Node
identity =
    Node.node_block 1 ((120 ∷ []) ∷ []) []
      (Nodes.nodes (Node.node_variable 1 (120 ∷ [])) Nodes.no_nodes)

parses :
    node_of (parse_method 60 source)
    ≡ some (
        some (
          Node.node_method 1
            (97 ∷ 116 ∷ 58 ∷ 112 ∷ 117 ∷ 116 ∷ 58 ∷ [])
            ((105 ∷ []) ∷ (118 ∷ []) ∷ [])
            ((116 ∷ []) ∷ [])
            (Nodes.nodes
              (Node.node_assign 1 (Node.node_variable 1 (116 ∷ [])) cascade)
              (Nodes.nodes (Node.node_return 1 identity) Nodes.no_nodes))))
unfolding parse_method scan_token init prime scan_here skip_loop is_letter
    scan_identifier_or_keyword while_loop is_digit advance scan_single single scan_colon is_pseudo
    token_text scan_number is_binary_char push push_message scan_binary_selector
parses = refl

-- `a ^1 ]`: what stands behind the last statement is not read.
abbrev with_rest : List ℕ
with_rest = 97 ∷ 32 ∷ 94 ∷ 49 ∷ 32 ∷ 93 ∷ []

ignores_rest :
    node_of (parse_method 20 with_rest)
    ≡ some (
        some (
          Node.node_method 1
            (97 ∷ [])
            []
            []
            (Nodes.nodes (Node.node_return 1 (Node.node_literal_int 1 1)) Nodes.no_nodes)))
unfolding parse_method scan_token init prime scan_here skip_loop is_letter
    scan_identifier_or_keyword while_loop is_digit advance scan_single single scan_colon is_pseudo
    token_text scan_number is_binary_char push push_message scan_binary_selector
ignores_rest = refl

source_short : length source < 2 ^ 32
source_short = omega arith

parse_method_lem_example :
    (x : Option Node) × (q : Parser) × (parse_method 60 source ≡ some (x, q))
    × ((x ≡ none) ↔ (q.had_error ≡ true))
    × (q.block_depth ≡ 0)
    × StandsIn source q.scanner
parse_method_lem_example = parse_method_lem source source_short 60 (omega arith)

-- `[:y | 3 `: a block without its end.
abbrev open_block : List ℕ
open_block = 91 ∷ 58 ∷ 121 ∷ 32 ∷ 124 ∷ 32 ∷ 51 ∷ 32 ∷ []

open_short : length open_block < 2 ^ 32
open_short = omega arith

parse_expression_lem_example :
    Runs
      (Yields open_block open_short (prime open_block))
      (parse_expression 20 20 (prime open_block))
parse_expression_lem_example =
    parse_expression_lem open_block open_short 20 (prime open_block)
      (prime_stands open_block open_short) (omega (arith, left-prime open_block open_short))

-- The parser stops at the missing bracket, with the message for it.
abbrev report_of : Option (Option Node × Parser) → Option (Option (ℕ × String))
report_of none = none
report_of (some (n, p)) = some (parser_message p)

reports :
    report_of (parse_expression 20 20 (prime open_block))
    ≡ some (some (1, "expected ']' after block body"))
unfolding parse_expression scan_token init prime scan_here skip_loop is_letter
    scan_identifier_or_keyword while_loop is_digit advance scan_single single scan_colon is_pseudo
    token_text scan_number is_binary_char push push_message scan_binary_selector
reports = refl

-- `#(a)` and `#((a))`: a name is a symbol in a literal array, but an error in a nested one.
abbrev names : List ℕ
names = 35 ∷ 40 ∷ 97 ∷ 41 ∷ []

abbrev nested_names : List ℕ
nested_names = 35 ∷ 40 ∷ 40 ∷ 97 ∷ 41 ∷ 41 ∷ []

nested_reports :
    (report_of (parse_expression 20 20 (prime names)) ≡ some none)
    × (report_of (parse_expression 20 20 (prime nested_names))
        ≡ some (some (1, "expected ')' in nested literal array")))
unfolding parse_expression scan_token init prime scan_here skip_loop is_letter
    scan_identifier_or_keyword while_loop is_digit advance scan_single single scan_colon is_pseudo
    token_text scan_number is_binary_char push scan_symbol_after_hash
nested_reports = (refl, refl)

-- `it's`
abbrev contraction : List ℕ
contraction = 105 ∷ 116 ∷ 39 ∷ 115 ∷ []

quoted-literal_example :
    (quoted (literal contraction) ≡ contraction) × (symbol_name (literal contraction) ≡ contraction)
unfolding escape
quoted-literal_example = quoted-literal contraction (omega arith)
