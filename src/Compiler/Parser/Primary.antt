-- ===== src/Compiler/Parser/Primary.antt =====
-- The fuel and the results of blocks and primaries: `parse_block`, `parse_primary`.
use smalltalk_a_vm.Prelude.{ℕ, suc, ◌^◌, ◌<◌, refl, arith, ◌||◌, Option, none, some, List, length}
use smalltalk_a_vm.Compiler.Scanner.{Token, TokenType}
use smalltalk_a_vm.Compiler.Scanner.Source.{StandsIn}
use smalltalk_a_vm.Compiler.Ast.{Node, Nodes, no_nodes}
use smalltalk_a_vm.Compiler.Parser.{Parser, Parse, check, advance_token, advance, fail, loop}
use smalltalk_a_vm.Compiler.Parser.Literals.{starts_literal, parse_literal_array}
use smalltalk_a_vm.Compiler.Parser.Blocks.{
  parse_arguments, parse_temps, return_or, body_round, enter_block, leave_block, block_inside,
  parse_block, parse_parens, parse_primary,
}
use smalltalk_a_vm.Compiler.Parser.Runs.{
  left, Runs, ran, Runs-go_on, Runs-if, Done, Keeps, Keeps-refl, loop-Runs, token-Steps,
  parser_error-Keeps,
}
use smalltalk_a_vm.Compiler.Parser.Rules.{
  Ends, Turns, Good, Yields-Ends, Ends-Yields, unless_null-Ends, close-Ends,
}
use smalltalk_a_vm.Compiler.Parser.Arrays.{parse_literal-Yields, parse_literal_array-Ends}
use smalltalk_a_vm.Compiler.Parser.Nested.{
  parse_arguments-Ends, parse_temps-Ends, return_or-Good, end_statement-Turns,
}

module _ (source : List ℕ) (short : length source < 2 ^ 32) where
  module _ {fuel n : ℕ} (small : n < fuel) {expr : Parse (Option Node)}
      (good : Good source short n expr) where
    body_round-Turns :
        (body : Nodes) (p : Parser)
        → StandsIn source p.scanner
        → left p < n
        → Runs (Turns source short p) (body_round expr body p)
    unfolding body_round
    body_round-Turns body p s b =
        Runs-if (check TokenType.rbracket p || check TokenType.eof p || p.had_error) _ _
          (λ _. ran (Keeps-refl source short p s, tt))
          (λ _.
            Runs-go_on (return_or expr p) _ (return_or-Good source short good p s b)
              (λ r q e. end_statement-Turns source short p q body r e))

    block_inside-Ends :
        (t : Token) (p : Parser)
        → StandsIn source p.scanner
        → left p < n
        → Runs (Ends source short p) (block_inside fuel expr t p)
    unfolding block_inside
    block_inside-Ends t p s b =
        unless_null-Ends source short p (parse_arguments fuel p) _
          (parse_arguments-Ends source short fuel p s (omega arith))
          (λ args q k.
            unless_null-Ends source short q (parse_temps fuel _ q) _
              (parse_temps-Ends source short fuel _ q k.stands (omega (arith, k.less)))
              (λ temps q' k'.
                unless_null-Ends source short q' (loop fuel (body_round expr) no_nodes q') _
                  (loop-Runs source short fuel n (body_round expr) body_round-Turns no_nodes q'
                    k'.stands (omega (arith, k.less, k'.less)) (omega (arith, k.less, k'.less)))
                  (λ body q'' k''.
                    close-Ends source short TokenType.rbracket _ _ q'' refl k''.stands)))

    -- The block's own change of `block_depth` is undone.
    left_block :
        (p q : Parser) → Keeps source short (enter_block p) q → Keeps source short p (leave_block q)
    left_block p q k = record {
      stands = k.stands;
      less = k.less;
      depth = omega (arith, k.depth);
      blame = k.blame;
    }

    left_Done {ℓ} : {A : Type ℓ} (q : Parser) (r : Option A) → Done r q → Done r (leave_block q)
    left_Done q none e = e
    left_Done q (some a) e = tt

    pub parse_block-Ends :
        (t : Token) (p : Parser)
        → StandsIn source p.scanner
        → left p < n
        → Runs (Ends source short p) (parse_block fuel expr t p)
    unfolding parse_block
    parse_block-Ends t p s b =
        Runs-go_on (block_inside fuel expr t (enter_block p)) _
          (block_inside-Ends t (enter_block p) s b)
          (λ r q (k, e). ran (left_block p q k, left_Done q r e))

    parse_parens-Ends :
        (p : Parser)
        → StandsIn source p.scanner
        → left p < n
        → Runs (Ends source short p) (parse_parens expr p)
    unfolding parse_parens
    parse_parens-Ends p s b =
        unless_null-Ends source short p (expr p) _
          (Yields-Ends source short p (expr p) (good p s b))
          (λ m q k. close-Ends source short TokenType.rparen _ m q refl k.stands)

    pub parse_primary-Good : Good source short (suc n) (parse_primary fuel expr)
    unfolding parse_primary advance fail
    parse_primary-Good p s b =
        Runs-if (check TokenType.identifier p) _ _
          (λ e. ran (token-Steps source short TokenType.identifier p refl s e))
          (λ _.
            Runs-if (starts_literal p) _ _
              (λ e.
                parse_literal-Yields source short {n = n} {array = parse_literal_array fuel fuel}
                  (λ t q s' b'.
                    parse_literal_array-Ends source short fuel fuel t q s' (omega arith)
                      (omega arith))
                  p s b e)
              (λ _.
                Runs-if (check TokenType.lbracket p) _ _
                  (λ e.
                    let step = token-Steps source short TokenType.lbracket p refl s e in
                    Ends-Yields source short p (advance_token p) _ step (
                      parse_block-Ends p.current (advance_token p) step.0.stands
                        (omega (arith, step.1))))
                  (λ _.
                    Runs-if (check TokenType.lparen p) _ _
                      (λ e.
                        let step = token-Steps source short TokenType.lparen p refl s e in
                        Ends-Yields source short p (advance_token p) _ step (
                          parse_parens-Ends (advance_token p) step.0.stands
                            (omega (arith, step.1))))
                      (λ _. ran (parser_error-Keeps source short _ p s)))))
