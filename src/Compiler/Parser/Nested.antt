-- ===== src/Compiler/Parser/Nested.antt =====
-- The fuel and the results of the parts of blocks: arguments, temporaries and statements.
use smalltalk_a_vm.Prelude.{
  ℕ, ◌^◌, ◌<◌, ◌≡◌, refl, arith, Bool, true, false, Option, none, some, List, [], length, ◌==◌,
  if◌then◌else◌,
}
use Prim.Native.String.{String}
use smalltalk_a_vm.Compiler.Scanner.{TokenType}
use smalltalk_a_vm.Compiler.Scanner.Source.{StandsIn}
use smalltalk_a_vm.Compiler.Ast.{Text, Node, Nodes, push}
use smalltalk_a_vm.Compiler.Parser.{
  Parser, Parse, code, check, advance_token, advance, match, consume, continue, break, give_up,
  loop,
}
use smalltalk_a_vm.Compiler.Parser.Blocks.{
  argument_round, parse_arguments, name_round, parse_temps, wrap_return, return_or, end_statement,
}
use smalltalk_a_vm.Compiler.Parser.Runs.{
  left, Runs, ran, Runs-go_on, Runs-if, Done, Found, Keeps, Keeps-refl, Keeps-trans, Steps,
  consume-Runs, loop-Runs, token-Steps,
}
use smalltalk_a_vm.Compiler.Parser.Rules.{
  Yields, Ends, Turns, Good, Yields-Ends, Ends-Yields, Ends-after, unless_null-Ends, close-Ends,
}

module _ (source : List ℕ) (short : length source < 2 ^ 32) where
  -- A round that consumes a token and then needs another one.
  pub Found-Turns {ℓ} :
      {A : Type ℓ} (p q q' : Parser) (b : Bool) (a : A)
      → Steps source short p q
      → Keeps source short q q'
      → Found q b q'
      → Turns source short p (if b then continue a else give_up) q'
  Found-Turns p q q' true a s k e = (Keeps-trans source short s.0 k, omega (arith, s.1, k.less))
  Found-Turns p q q' false a s k e = (Keeps-trans source short s.0 k, e)

  argument_round-Turns :
      (args : List Text) (p : Parser)
      → StandsIn source p.scanner
      → Runs (Turns source short p) (argument_round args p)
  unfolding argument_round advance
  argument_round-Turns args p s =
      Runs-if (check TokenType.colon p) _ _
        (λ e.
          let step = token-Steps source short TokenType.colon p refl s e in
          Runs-go_on (consume TokenType.identifier _ (advance_token p)) _
            (consume-Runs source short TokenType.identifier _ (advance_token p) refl step.0.stands)
            (λ b q (k, f). ran (Found-Turns p (advance_token p) q b _ step k f)))
        (λ _. ran (Keeps-refl source short p s, tt))

  name_round-Turns :
      (names : List Text) (p : Parser)
      → StandsIn source p.scanner
      → Runs (Turns source short p) (name_round names p)
  unfolding name_round advance
  name_round-Turns names p s =
      Runs-if (check TokenType.identifier p) _ _
        (λ e. ran (token-Steps source short TokenType.identifier p refl s e))
        (λ _. ran (Keeps-refl source short p s, tt))

  pub parse_arguments-Ends :
      (fuel : ℕ) (p : Parser)
      → StandsIn source p.scanner
      → left p < fuel
      → Runs (Ends source short p) (parse_arguments fuel p)
  unfolding parse_arguments
  parse_arguments-Ends fuel p s f =
      Runs-if (check TokenType.colon p) _ _
        (λ _.
          unless_null-Ends source short p (loop fuel argument_round [] p) _
            (loop-Runs source short fuel fuel argument_round
              (λ args q s' _. argument_round-Turns args q s') [] p s f f)
            (λ args q k. close-Ends source short TokenType.vbar _ args q refl k.stands))
        (λ _. ran (Keeps-refl source short p s, tt))

  pub parse_temps-Ends :
      (fuel : ℕ) (msg : String) (p : Parser)
      → StandsIn source p.scanner
      → left p < fuel
      → Runs (Ends source short p) (parse_temps fuel msg p)
  unfolding parse_temps advance
  parse_temps-Ends fuel msg p s f =
      Runs-if (check TokenType.vbar p) _ _
        (λ e.
          let step = token-Steps source short TokenType.vbar p refl s e in
          Ends-after source short p (advance_token p) _ step.0 (
            unless_null-Ends source short (advance_token p)
              (loop fuel name_round [] (advance_token p)) _
              (loop-Runs source short fuel fuel name_round
                (λ names q s' _. name_round-Turns names q s') [] (advance_token p) step.0.stands
                (omega (arith, step.1)) (omega (arith, step.1)))
              (λ names q k. close-Ends source short TokenType.vbar msg names q refl k.stands)))
        (λ _. ran (Keeps-refl source short p s, tt))

  wrapped :
      (p : Parser) (line : ℕ) (r : Option Node) (q : Parser)
      → Done r q
      → Done (wrap_return line r) q
  wrapped p line none q e = e
  wrapped p line (some m) q e = tt

  pub return_or-Good :
      {n : ℕ} {expr : Parse (Option Node)}
      → Good source short n expr
      → Good source short n (return_or expr)
  unfolding return_or advance
  return_or-Good {n} {expr} good p s b =
      Runs-if (check TokenType.return p) _ _
        (λ e.
          let step = token-Steps source short TokenType.return p refl s e in
          Ends-Yields source short p (advance_token p) _ step (
            Runs-go_on (expr (advance_token p)) _
              (Yields-Ends source short (advance_token p) (expr (advance_token p))
                (good (advance_token p) step.0.stands (omega (arith, step.1))))
              (λ r q (k, e). ran (k, wrapped p _ r q e))))
        (λ _. good p s b)

  match-Keeps :
      (type : TokenType) (p : Parser)
      → (code type == 20) ≡ false
      → StandsIn source p.scanner
      → Runs (λ b q. Keeps source short p q) (match type p)
  unfolding match
  match-Keeps type p other s =
      Runs-if (check type p) _ _ (λ e. ran (token-Steps source short type p other s e).0)
        (λ _. ran (Keeps-refl source short p s))

  more_Turns {ℓ} :
      {A : Type ℓ} (p q q' : Parser) (b : Bool) (a : A)
      → Steps source short p q
      → Keeps source short q q'
      → Turns source short p (if b then continue a else break a) q'
  more_Turns p q q' true a s k = (Keeps-trans source short s.0 k, omega (arith, s.1, k.less))
  more_Turns p q q' false a s k = (Keeps-trans source short s.0 k, tt)

  period_Turns :
      (p q : Parser) (body : Nodes) (n : Node)
      → Steps source short p q
      → Runs (Turns source short p) (end_statement body (some n) q)
  unfolding end_statement
  period_Turns p q body n step =
      Runs-go_on (match TokenType.period q) _ (match-Keeps TokenType.period q refl step.0.stands)
        (λ b q' k. ran (more_Turns p q q' b (push body n) step k))

  pub end_statement-Turns :
      (p q : Parser) (body : Nodes) (r : Option Node)
      → Yields source short p r q
      → Runs (Turns source short p) (end_statement body r q)
  unfolding end_statement
  end_statement-Turns p q body none e = ran (e.0, tt)
  end_statement-Turns p q body (some n) e = period_Turns p q body n e
