-- ===== src/Compiler/Parser/Arrays.antt =====
-- The fuel and the results of literals: `parse_literal`, `parse_literal_array`.
use Prim.Native.String.{String}
use smalltalk_a_vm.Prelude.{
  Bool-cases, inl, inr, ℕ, zero, suc, ◌^◌, ◌<◌, ◌≡◌, refl, arith, Bool, true, false, ◌||◌, Option,
  none, some, List, length,
}
use smalltalk_a_vm.Compiler.Scanner.{Token, TokenType}
use smalltalk_a_vm.Compiler.Scanner.Source.{StandsIn}
use smalltalk_a_vm.Compiler.Ast.{Node, Nodes, no_nodes}
use smalltalk_a_vm.Compiler.Parser.{
  Parser, Parse, check, advance_token, advance, fail, consume, go_on, Round, loop,
}
use smalltalk_a_vm.Compiler.Parser.Literals.{
  is_simple, starts_literal, parse_literal, push_if, inner_round, close_array, parse_inner_array,
  parse_element, array_round, parse_literal_array,
}
use smalltalk_a_vm.Compiler.Parser.Runs.{
  left, Runs, ran, Runs-go_on, Runs-mono, Runs-if, Done, Found, Keeps, Keeps-refl, Keeps-trans,
  Steps, consume-Runs, loop-Runs, advance-Steps, token-Steps, parser_error-Keeps,
}
use smalltalk_a_vm.Compiler.Parser.Rules.{Yields, Ends, Turns, Ends-Yields}

pub literal_not_eof : (p : Parser) → starts_literal p ≡ true → check TokenType.eof p ≡ false
literal_not_eof p e = ground arith

module _ (source : List ℕ) (short : length source < 2 ^ 32) where
  -- A result has consumed a token; NULL may come without an error.
  abbrev Read : Parser → Option Node → Parser → Type 0
  Read p none q = Keeps source short p q
  Read p (some n) q = Steps source short p q

  module _ {n : ℕ} {array : Token → Parse (Option Node)}
      (good : (t : Token) (p : Parser)
        → StandsIn source p.scanner
        → left p < n
        → Runs (Ends source short p) (array t p)) where
    array_Yields :
        (p : Parser)
        → StandsIn source p.scanner
        → left p < suc n
        → check TokenType.eof p ≡ false
        → Runs (Yields source short p) (array p.current (advance_token p))
    array_Yields p s b e =
        let step = advance-Steps source short p s e in
        Ends-Yields source short p (advance_token p) _ step
          (good p.current (advance_token p) step.0.stands (omega (arith, step.1)))

    pub parse_literal-Yields :
        (p : Parser)
        → StandsIn source p.scanner
        → left p < suc n
        → starts_literal p ≡ true
        → Runs (Yields source short p) (parse_literal array p)
    unfolding parse_literal advance
    parse_literal-Yields p s b e =
        Runs-if (is_simple p) _ _ (λ _. ran (advance-Steps source short p s (literal_not_eof p e)))
          (λ f.
            Runs-if (check TokenType.hash_paren p) _ _
              (λ _. array_Yields p s b (literal_not_eof p e)) (λ g. absurd (ground arith)))

    yielded : (p q : Parser) (r : Option Node) → Yields source short p r q → Read p r q
    yielded p q none e = e.0
    yielded p q (some m) e = e

    not_literal :
        (p : Parser)
        → StandsIn source p.scanner
        → starts_literal p ≡ false
        → Runs (Read p) (parse_literal array p)
    unfolding parse_literal
    not_literal p s e =
        Runs-if (is_simple p) _ _ (λ f. absurd (ground arith))
          (λ _.
            Runs-if (check TokenType.hash_paren p) _ _ (λ f. absurd (ground arith))
              (λ _. ran (Keeps-refl source short p s)))

    parse_literal-Read :
        (p : Parser)
        → StandsIn source p.scanner
        → left p < suc n
        → Runs (Read p) (parse_literal array p)
    parse_literal-Read p s b = elim (Bool-cases (starts_literal p)) [
      | inl e ↦
          Runs-mono (parse_literal array p) (parse_literal-Yields p s b e)
            (λ r q y. yielded p q r y)
      | inr e ↦ not_literal p s e
    ]

    push_Turns :
        (p q : Parser) (xs : Nodes) (r : Option Node)
        → Read p r q
        → Turns source short p (push_if xs r) q
    push_Turns p q xs none e = (e, tt)
    push_Turns p q xs (some m) e = e

    inner_round-Turns :
        (xs : Nodes) (p : Parser)
        → StandsIn source p.scanner
        → left p < suc n
        → Runs (Turns source short p) (inner_round array xs p)
    unfolding inner_round
    inner_round-Turns xs p s b =
        Runs-if (check TokenType.rparen p || check TokenType.eof p || p.had_error) _ _
          (λ _. ran (Keeps-refl source short p s, tt))
          (λ _.
            Runs-go_on (parse_literal array p) _ (parse_literal-Read p s b)
              (λ r q e. ran (push_Turns p q xs r e)))

    closed_Done :
        (p q : Parser) (line : ℕ) (b : Bool) (r : Option Nodes)
        → Found p b q
        → (p.had_error ≡ true → q.had_error ≡ true)
        → Done r p
        → Done (close_array b line r) q
    closed_Done p q line true none e f d = f d
    closed_Done p q line false none e f d = e
    closed_Done p q line true (some xs) e f d = tt
    closed_Done p q line false (some xs) e f d = e

    -- A loop over elements, and the parenthesis behind them.
    array_Ends :
        (fuel line : ℕ) (msg : String) (round : Nodes → Parse (Round Nodes)) (p : Parser)
        → ((xs : Nodes) (q : Parser)
            → StandsIn source q.scanner
            → left q < suc n
            → Runs (Turns source short q) (round xs q))
        → StandsIn source p.scanner
        → left p < suc n
        → left p < fuel
        → Runs (Ends source short p) (
            go_on
              (λ xs q.
                go_on (λ b q'. some (close_array b line xs, q')) (consume TokenType.rparen msg q))
              (loop fuel round no_nodes p))
    array_Ends fuel line msg round p turns s b f =
        Runs-go_on (loop fuel round no_nodes p) _
          (loop-Runs source short fuel (suc n) round turns no_nodes p s b f)
          (λ r q (k, d).
            Runs-go_on (consume TokenType.rparen msg q) _
              (consume-Runs source short TokenType.rparen msg q refl k.stands)
              (λ c q' (l, e).
                ran (
                  Keeps-trans source short k l,
                  closed_Done q q' line c r e (λ h. (l.blame h).0) d,
                )))

    parse_element-Yields :
        (fuel : ℕ) (p : Parser)
        → n < fuel
        → StandsIn source p.scanner
        → left p < suc n
        → Runs (Yields source short p) (parse_element fuel array p)
    unfolding parse_element parse_inner_array advance fail
    parse_element-Yields fuel p small s b =
        Runs-if (starts_literal p) _ _ (λ e. parse_literal-Yields p s b e)
          (λ _.
            Runs-if (check TokenType.identifier p) _ _
              (λ e. ran (token-Steps source short TokenType.identifier p refl s e))
              (λ _.
                Runs-if (check TokenType.lparen p) _ _
                  (λ e.
                    let step = token-Steps source short TokenType.lparen p refl s e in
                    Ends-Yields source short p (advance_token p) _ step (
                      array_Ends fuel _ _ (inner_round array) (advance_token p) inner_round-Turns
                        step.0.stands (omega (arith, step.1)) (omega (arith, step.1))))
                  (λ _.
                    Runs-if (check TokenType.binary_selector p) _ _
                      (λ e. ran (token-Steps source short TokenType.binary_selector p refl s e))
                      (λ _. ran (parser_error-Keeps source short _ p s)))))

    pub array_round-Turns :
        (fuel : ℕ) (xs : Nodes) (p : Parser)
        → n < fuel
        → StandsIn source p.scanner
        → left p < suc n
        → Runs (Turns source short p) (array_round fuel array xs p)
    unfolding array_round
    array_round-Turns fuel xs p small s b =
        Runs-if (check TokenType.rparen p || check TokenType.eof p || p.had_error) _ _
          (λ _. ran (Keeps-refl source short p s, tt))
          (λ _.
            Runs-go_on (parse_element fuel array p) _ (parse_element-Yields fuel p small s b)
              (λ r q e. ran (push_Turns p q xs r (yielded p q r e))))

  pub parse_literal_array-Ends :
      (fuel depth : ℕ) (t : Token) (p : Parser)
      → StandsIn source p.scanner
      → left p < depth
      → left p < fuel
      → Runs (Ends source short p) (parse_literal_array fuel depth t p)
  unfolding parse_literal_array
  parse_literal_array-Ends fuel zero t p s b f = absurd (omega arith)
  parse_literal_array-Ends fuel (suc depth) t p s b f =
      array_Ends {n = left p} {array = parse_literal_array fuel depth}
        (λ t' q s' b'. parse_literal_array-Ends fuel depth t' q s' (omega arith) (omega arith)) fuel
        t.line _ (array_round fuel (parse_literal_array fuel depth)) p
        (λ xs q s' b'.
          array_round-Turns {n = left p} {array = parse_literal_array fuel depth}
            (λ t' q' s'' b''.
              parse_literal_array-Ends fuel depth t' q' s'' (omega arith) (omega arith))
            fuel xs q f s' b')
        s (omega arith) f
