-- ===== src/Compiler/Parser/Levels.antt =====
-- The fuel and the results of unary, binary and keyword sends.
use smalltalk_a_vm.Prelude.{
  ℕ, suc, ◌^◌, ◌<◌, refl, arith, Bool, ◌||◌, Option, none, some, List, [], length, not, ◌&&◌,
}
use smalltalk_a_vm.Compiler.Scanner.{TokenType}
use smalltalk_a_vm.Compiler.Scanner.Source.{StandsIn}
use smalltalk_a_vm.Compiler.Ast.{Text, Node, Nodes, no_nodes}
use smalltalk_a_vm.Compiler.Parser.{
  Parser, Parse, check, advance_token, advance, go_on, token_text, Round, give_up, loop,
}
use smalltalk_a_vm.Compiler.Parser.Blocks.{parse_primary}
use smalltalk_a_vm.Compiler.Parser.Sends.{
  is_super, is_pseudo, unary_round, receiver_of, parse_unary_expr, send_binary, binary_round,
  parse_binary_expr, add_keyword, keyword_round, send_keywords, parse_keyword_expr,
}
use smalltalk_a_vm.Compiler.Parser.Runs.{
  left, Runs, ran, Runs-go_on, Runs-if, Done, Turned, Keeps-refl, Keeps-trans, Steps, loop-Runs,
  advance-Steps, token-Steps,
}
use smalltalk_a_vm.Compiler.Parser.Rules.{Yields, Turns, Good, Yields-Ends, unless_error-Yields}
use smalltalk_a_vm.Compiler.Parser.Primary.{parse_primary-Good}

module _ (source : List ℕ) (short : length source < 2 ^ 32) where
  unary_round-Turns :
      (x : Bool × Node) (p : Parser)
      → StandsIn source p.scanner
      → Runs (Turns source short p) (unary_round x p)
  unfolding unary_round advance
  unary_round-Turns x p s =
      Runs-if (check TokenType.identifier p && not (is_pseudo (token_text p.source p.current))) _ _
        (λ e. ran (token-Steps source short TokenType.identifier p refl s (ground arith)))
        (λ _. ran (Keeps-refl source short p s, tt))

  receiver_Done : (r : Option (Bool × Node)) (q : Parser) → Done r q → Done (receiver_of r) q
  receiver_Done none q e = e
  receiver_Done (some x) q e = tt

  -- After a consumed token, an argument that an action yields.
  pub argument {ℓ} :
      {A B : Type ℓ} (p : Parser) (m : Parse (Option A)) (round : Option A → Round B)
      → Steps source short p (advance_token p)
      → Runs (Yields source short (advance_token p)) (m (advance_token p))
      → ((r : Option A) (q : Parser) → left q < left p → Done r q → Turned p (round r) q)
      → Runs (Turns source short p) (go_on (λ r q. some (round r, q)) (m (advance_token p)))
  argument p m round step runs turned =
      Runs-go_on (m (advance_token p)) _ (Yields-Ends source short (advance_token p) _ runs)
        (λ r q (k, e).
          ran (Keeps-trans source short step.0 k, turned r q (omega (arith, step.1, k.less)) e))

  module _ {fuel n : ℕ} (small : n < fuel) {expr : Parse (Option Node)}
      (good : Good source short n expr) where
    pub parse_unary_expr-Good : Good source short (suc n) (parse_unary_expr fuel expr)
    unfolding parse_unary_expr
    parse_unary_expr-Good p s b =
        unless_error-Yields source short p (parse_primary fuel expr p) _
          (parse_primary-Good source short small good p s b)
          (λ receiver q step.
            Runs-go_on (loop fuel unary_round (is_super receiver, receiver) q) _
              (loop-Runs source short fuel fuel unary_round (λ x q' s' _. unary_round-Turns x q' s')
                (is_super receiver, receiver) q step.0.stands (omega (arith, step.1))
                (omega (arith, step.1)))
              (λ r q' (k, e). ran (k, receiver_Done r q' e)))

    binary_Turned :
        (p : Parser) (x : Node) (line : ℕ) (sel : Text) (r : Option Node) (q : Parser)
        → left q < left p
        → Done r q
        → Turned p (send_binary x line sel r) q
    binary_Turned p x line sel none q b e = e
    binary_Turned p x line sel (some right) q b e = b

    binary_step :
        (x : Node) (p : Parser)
        → left p < suc n
        → Steps source short p (advance_token p)
        → Runs (Turns source short p) (
            go_on
              (λ r q. some (send_binary x p.current.line (token_text p.source p.current) r, q))
              (parse_unary_expr fuel expr (advance_token p)))
    binary_step x p b step =
        argument p (parse_unary_expr fuel expr) _ step
          (parse_unary_expr-Good (advance_token p) step.0.stands (omega (arith, step.1)))
          (binary_Turned p x _ _)

    binary_round-Turns :
        (x : Node) (p : Parser)
        → StandsIn source p.scanner
        → left p < suc n
        → Runs (Turns source short p) (binary_round fuel expr x p)
    unfolding binary_round advance advance_token
    binary_round-Turns x p s b =
        Runs-if (check TokenType.binary_selector p || check TokenType.vbar p) _ _
          (λ e. binary_step x p b (advance-Steps source short p s (ground arith)))
          (λ _. ran (Keeps-refl source short p s, tt))

    pub parse_binary_expr-Good : Good source short (suc n) (parse_binary_expr fuel expr)
    unfolding parse_binary_expr
    parse_binary_expr-Good p s b =
        unless_error-Yields source short p (parse_unary_expr fuel expr p) _
          (parse_unary_expr-Good p s b)
          (λ left_side q step.
            loop-Runs source short fuel (suc n) (binary_round fuel expr) binary_round-Turns
              left_side q step.0.stands (omega (arith, step.1)) (omega (arith, step.1)))

    keyword_Turned :
        (p : Parser) (sel : Text) (args : Nodes) (r : Option Node) (q : Parser)
        → left q < left p
        → Done r q
        → Turned p (add_keyword give_up sel args r) q
    keyword_Turned p sel args none q b e = e
    keyword_Turned p sel args (some arg) q b e = b

    keyword_round-Turns :
        (x : Text × Nodes) (p : Parser)
        → StandsIn source p.scanner
        → left p < suc n
        → Runs (Turns source short p) (keyword_round fuel expr x p)
    unfolding keyword_round advance
    keyword_round-Turns x p s b =
        Runs-if (check TokenType.keyword p) _ _
          (λ e.
            let step = token-Steps source short TokenType.keyword p refl s e in
            argument p (parse_binary_expr fuel expr) _ step
              (parse_binary_expr-Good (advance_token p) step.0.stands (omega (arith, step.1)))
              (keyword_Turned p _ _))
          (λ _. ran (Keeps-refl source short p s, tt))

    keywords_Done :
        (line : ℕ) (receiver : Node) (r : Option (Text × Nodes)) (q : Parser)
        → Done r q
        → Done (send_keywords line receiver r) q
    keywords_Done line receiver none q e = e
    keywords_Done line receiver (some x) q e = tt

    pub parse_keyword_expr-Good : Good source short (suc n) (parse_keyword_expr fuel expr)
    unfolding parse_keyword_expr
    parse_keyword_expr-Good p s b =
        unless_error-Yields source short p (parse_binary_expr fuel expr p) _
          (parse_binary_expr-Good p s b)
          (λ receiver q step.
            Runs-if (check TokenType.keyword q) _ _
              (λ _.
                Runs-go_on (loop fuel (keyword_round fuel expr) ([], no_nodes) q) _
                  (loop-Runs source short fuel (suc n) (keyword_round fuel expr) keyword_round-Turns
                    ([], no_nodes) q step.0.stands (omega (arith, step.1)) (omega (arith, step.1)))
                  (λ r q' (k, e). ran (k, keywords_Done _ receiver r q' e)))
              (λ _. ran (Keeps-refl source short q step.0.stands, tt)))
