-- ===== src/Compiler/Parser/Cascades.antt =====
-- The fuel and the results of cascades, assignments and whole expressions.
use smalltalk_a_vm.Prelude.{
  ℕ, zero, suc, ◌^◌, ◌≤◌, ◌<◌, ◌≡◌, refl, arith, true, Option, none, some, List, [], length,
}
use smalltalk_a_vm.Compiler.Scanner.{Token, TokenType}
use smalltalk_a_vm.Compiler.Scanner.Source.{StandsIn}
use smalltalk_a_vm.Compiler.Ast.{
  Text, Node, Nodes, no_nodes, CascadeMsgs, node_send, node_super_send, messages, no_messages,
}
use smalltalk_a_vm.Compiler.Parser.{Parser, Parse, check, advance_token, advance, fail, break, loop}
use smalltalk_a_vm.Compiler.Parser.Sends.{
  parse_unary_expr, parse_binary_expr, add_keyword, parse_keyword_expr,
}
use smalltalk_a_vm.Compiler.Parser.Expressions.{
  cascade_keyword_round, binary_message, cascade_message, add_message, cascade_round, cascade_of,
  parse_messages, start_cascade, parse_cascade_or_expr, assign_to, parse_assign, expression_body,
  parse_expression,
}
use smalltalk_a_vm.Compiler.Parser.Runs.{
  left, Runs, ran, Runs-go_on, Runs-mono, Runs-if, Done, Turned, Keeps-refl, Keeps-trans, loop-Runs,
  token-Steps, parser_error-Keeps,
}
use smalltalk_a_vm.Compiler.Parser.Rules.{
  Yields, Ends, Turns, Good, Yields-Ends, Ends-Yields, Ends-after, unless_error-Yields,
}
use smalltalk_a_vm.Compiler.Parser.Levels.{
  argument, parse_unary_expr-Good, parse_binary_expr-Good, parse_keyword_expr-Good,
}

module _ (source : List ℕ) (short : length source < 2 ^ 32) where
  module _ {fuel n : ℕ} (small : n < fuel) {expr : Parse (Option Node)}
      (good : Good source short n expr) where
    argument_Turned :
        (p : Parser) (sel : Text) (args : Nodes) (r : Option Node) (q : Parser)
        → left q < left p
        → Done r q
        → Turned p (add_keyword (break (sel, args)) sel args r) q
    argument_Turned p sel args none q b e = tt
    argument_Turned p sel args (some arg) q b e = b

    cascade_keyword_round-Turns :
        (x : Text × Nodes) (p : Parser)
        → StandsIn source p.scanner
        → left p < suc n
        → Runs (Turns source short p) (cascade_keyword_round fuel expr x p)
    unfolding cascade_keyword_round advance
    cascade_keyword_round-Turns x p s b =
        Runs-if (check TokenType.keyword p) _ _
          (λ e.
            let step = token-Steps source short TokenType.keyword p refl s e in
            argument source short p (parse_binary_expr fuel expr) _ step
              (parse_binary_expr-Good source short small good (advance_token p) step.0.stands
                (omega (arith, step.1)))
              (argument_Turned p _ _))
          (λ _. ran (Keeps-refl source short p s, tt))

    message_Done :
        (sel : Text) (r : Option Node) (q : Parser) → Done r q → Done (binary_message sel r) q
    message_Done sel none q e = e
    message_Done sel (some arg) q e = tt

    cascade_message-Ends :
        (p : Parser)
        → StandsIn source p.scanner
        → left p < suc n
        → Runs (Ends source short p) (cascade_message fuel expr p)
    unfolding cascade_message advance fail
    cascade_message-Ends p s b =
        Runs-if (check TokenType.identifier p) _ _
          (λ e. ran ((token-Steps source short TokenType.identifier p refl s e).0, tt))
          (λ _.
            Runs-if (check TokenType.binary_selector p) _ _
              (λ e.
                let step = token-Steps source short TokenType.binary_selector p refl s e in
                Ends-after source short p (advance_token p) _ step.0 (
                  Runs-go_on (parse_unary_expr fuel expr (advance_token p)) _
                    (Yields-Ends source short (advance_token p) _ (
                      parse_unary_expr-Good source short small good (advance_token p) step.0.stands
                        (omega (arith, step.1))))
                    (λ r q (k, e). ran (k, message_Done _ r q e))))
              (λ _.
                Runs-if (check TokenType.keyword p) _ _
                  (λ _.
                    loop-Runs source short fuel (suc n) (cascade_keyword_round fuel expr)
                      cascade_keyword_round-Turns ([], no_nodes) p s b (omega arith))
                  (λ _. ran (parser_error-Keeps source short _ p s))))

    add_Turned :
        (p : Parser) (msgs : CascadeMsgs) (r : Option (Text × Nodes)) (q : Parser)
        → left q < left p
        → Turned p (add_message msgs r) q
    add_Turned p msgs none q b = tt
    add_Turned p msgs (some x) q b = b

    cascade_round-Turns :
        (msgs : CascadeMsgs) (p : Parser)
        → StandsIn source p.scanner
        → left p < suc n
        → Runs (Turns source short p) (cascade_round fuel expr msgs p)
    unfolding cascade_round advance
    cascade_round-Turns msgs p s b =
        Runs-if (check TokenType.semicolon p) _ _
          (λ e.
            let step = token-Steps source short TokenType.semicolon p refl s e in
            Runs-if (advance_token p).had_error _ _ (λ _. ran (step.0, tt))
              (λ _.
                Runs-go_on (cascade_message fuel expr (advance_token p)) _
                  (cascade_message-Ends (advance_token p) step.0.stands (omega (arith, step.1)))
                  (λ r q (k, e). ran (
                    Keeps-trans source short step.0 k,
                    add_Turned p msgs r q (omega (arith, step.1, k.less)),
                  ))))
          (λ _. ran (Keeps-refl source short p s, tt))

    cascade_Done :
        (receiver : Node) (r : Option CascadeMsgs) (q : Parser)
        → Done r q
        → Done (cascade_of receiver r) q
    cascade_Done receiver none q e = e
    cascade_Done receiver (some msgs) q e = tt

    parse_messages-Ends :
        (receiver : Node) (sel : Text) (args : Nodes) (p : Parser)
        → StandsIn source p.scanner
        → left p < suc n
        → Runs (Ends source short p) (parse_messages fuel expr receiver sel args p)
    unfolding parse_messages
    parse_messages-Ends receiver sel args p s b =
        Runs-go_on (loop fuel (cascade_round fuel expr) (messages sel args no_messages) p) _
          (loop-Runs source short fuel (suc n) (cascade_round fuel expr) cascade_round-Turns
            (messages sel args no_messages) p s b (omega arith))
          (λ r q (k, e). ran (k, cascade_Done receiver r q e))

    start_cascade-Ends :
        (x : Node) (p : Parser)
        → StandsIn source p.scanner
        → left p < suc n
        → Runs (Ends source short p) (start_cascade fuel expr x p)
    unfolding start_cascade fail
    start_cascade-Ends (node_send line receiver sel args) p s b =
        parse_messages-Ends receiver sel args p s b
    start_cascade-Ends (node_super_send line receiver sel args) p s b =
        parse_messages-Ends receiver sel args p s b
    start_cascade-Ends _ p s b = ran (parser_error-Keeps source short _ p s)

    pub parse_cascade_or_expr-Good : Good source short (suc n) (parse_cascade_or_expr fuel expr)
    unfolding parse_cascade_or_expr
    parse_cascade_or_expr-Good p s b =
        unless_error-Yields source short p (parse_keyword_expr fuel expr p) _
          (parse_keyword_expr-Good source short small good p s b)
          (λ x q step.
            Runs-if (check TokenType.semicolon q) _ _
              (λ _. start_cascade-Ends x q step.0.stands (omega (arith, step.1)))
              (λ _. ran (Keeps-refl source short q step.0.stands, tt)))

    assign_Done :
        (line : ℕ) (name : Text) (r : Option Node) (q : Parser)
        → Done r q
        → Done (assign_to line name r) q
    assign_Done line name none q e = e
    assign_Done line name (some x) q e = tt

    parse_assign-Ends :
        (ident : Token) (p : Parser)
        → StandsIn source p.scanner
        → left p < suc n
        → check TokenType.assign p ≡ true
        → Runs (Ends source short p) (parse_assign expr ident p)
    unfolding parse_assign advance
    parse_assign-Ends ident p s b e =
        let step = token-Steps source short TokenType.assign p refl s e in
        Ends-after source short p (advance_token p) _ step.0 (
          Runs-go_on (expr (advance_token p)) _
            (Yields-Ends source short (advance_token p) (expr (advance_token p))
              (good (advance_token p) step.0.stands (omega (arith, step.1))))
            (λ r q (k, e). ran (k, assign_Done _ _ r q e)))

    -- The scanner goes back to where it was; only `previous` has changed.
    went_back :
        (p : Parser) (t : Token) (r : Option Node) (q : Parser)
        → Yields source short (record p { previous = t }) r q
        → Yields source short p r q
    went_back p t none q (k, e) =
        (record { stands = k.stands; less = k.less; depth = k.depth; blame = k.blame }, e)
    went_back p t (some x) q (k, e) =
        (record { stands = k.stands; less = k.less; depth = k.depth; blame = k.blame }, e)

    expression_body-Good : Good source short (suc n) (expression_body fuel expr)
    unfolding expression_body advance_token
    expression_body-Good p s b =
        Runs-if p.had_error _ _ (λ e. ran (Keeps-refl source short p s, e))
          (λ _.
            Runs-if (check TokenType.identifier p) _ _
              (λ e.
                let step = token-Steps source short TokenType.identifier p refl s e in
                Runs-if (check TokenType.assign (advance_token p)) _ _
                  (λ e'. Ends-Yields source short p (advance_token p) _ step (
                    parse_assign-Ends p.current (advance_token p) step.0.stands
                      (omega (arith, step.1)) e'))
                  (λ _.
                    Runs-mono _ (parse_cascade_or_expr-Good (record p { previous = p.current }) s b)
                      (λ r q y. went_back p p.current r q y)))
              (λ _. parse_cascade_or_expr-Good p s b))

  pub parse_expression-Good :
      (fuel depth n : ℕ) → n < fuel → n ≤ depth → Good source short n (parse_expression fuel depth)
  unfolding parse_expression
  parse_expression-Good fuel zero n small deep p s b = absurd (omega arith)
  parse_expression-Good fuel (suc depth) zero small deep p s b = absurd (omega arith)
  parse_expression-Good fuel (suc depth) (suc n) small deep p s b =
      expression_body-Good {fuel = fuel} {n = n} (omega arith)
        (parse_expression-Good fuel depth n (omega arith) (omega arith)) p s b
