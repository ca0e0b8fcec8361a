-- ===== src/Compiler/Parser/Laws.antt =====
-- Whole expressions and methods: `parse_expression` and `sta_parse_method`.
use smalltalk_a_vm.Prelude.{
  ℕ, suc, ◌+◌, ◌^◌, ◌≤◌, ◌<◌, ◌≡◌, ◌↔◌, refl, arith, true, false, ◌||◌, Option, none, some, List,
  [], length, Bool-cases, inl, inr,
}
use smalltalk_a_vm.Compiler.Scanner.{TokenType, init}
use smalltalk_a_vm.Compiler.Scanner.Moves.{Moves-total}
use smalltalk_a_vm.Compiler.Scanner.Source.{
  StandsIn, StandsIn-Fits, init-StandsIn, scan_token-Moves, scan_token-StandsIn,
}
use smalltalk_a_vm.Compiler.Ast.{Text, Node, Nodes, no_nodes}
use smalltalk_a_vm.Compiler.Parser.{
  Parser, Parse, check, advance_token, advance, fail, consume, go_on, unless_null, loop,
}
use smalltalk_a_vm.Compiler.Parser.Blocks.{parse_temps}
use smalltalk_a_vm.Compiler.Parser.Expressions.{parse_expression}
use smalltalk_a_vm.Compiler.Parser.Methods.{
  Header, header_round, keyword_header, binary_header, parse_method_header, parse_statement,
  statement_round, method_of, unless_failed, parse_rest, prime, parse_method,
}
use smalltalk_a_vm.Compiler.Parser.Runs.{
  left, Runs, ran, Runs-go_on, Runs-mono, Runs-if, Done, Keeps, Keeps-refl, Keeps-trans,
  consume-Runs, loop-Runs, advance-Steps, token-Steps, parser_error-Keeps,
}
use smalltalk_a_vm.Compiler.Parser.Rules.{Yields, Ends, Turns, found_Done}
use smalltalk_a_vm.Compiler.Parser.Nested.{
  Found-Turns, parse_temps-Ends, return_or-Good, end_statement-Turns,
}
use smalltalk_a_vm.Compiler.Parser.Cascades.{parse_expression-Good}

-- Wherever the scanner stands in a source below 2^32 bytes, and with more fuel than the tokens that
-- are left, `parse_expression` returns. A node has consumed a token, NULL comes with an error
-- recorded; the scanner has stayed in the source and no token has come back, `block_depth` is what
-- it was, and an error that was recorded before is kept with its line and text.
pub parse_expression_lem :
    (source : List ℕ) (short : length source < 2 ^ 32) (fuel : ℕ) (p : Parser)
    → StandsIn source p.scanner
    → left p + 1 < fuel
    → Runs (Yields source short p) (parse_expression fuel fuel p)
parse_expression_lem source short fuel p s f =
    parse_expression-Good source short fuel fuel (suc (left p)) (omega arith) (omega arith) p s
      (omega arith)

-- NULL with an error, or a method without one.
abbrev pub Verdict : Option Node → Parser → Type 0
Verdict none q = q.had_error ≡ true
Verdict (some n) q = q.had_error ≡ false

module _ (source : List ℕ) (short : length source < 2 ^ 32) where
  header_round-Turns :
      (x : Text × List Text) (p : Parser)
      → StandsIn source p.scanner
      → Runs (Turns source short p) (header_round x p)
  unfolding header_round advance
  header_round-Turns x p s =
      Runs-if (check TokenType.keyword p) _ _
        (λ e.
          let step = token-Steps source short TokenType.keyword p refl s e in
          Runs-go_on (consume TokenType.identifier _ (advance_token p)) _
            (consume-Runs source short TokenType.identifier _ (advance_token p) refl step.0.stands)
            (λ b q (k, f). ran (Found-Turns source short p (advance_token p) q b _ step k f)))
        (λ _. ran (Keeps-refl source short p s, tt))

  header_Done :
      (line : ℕ) (r : Option (Text × List Text)) (q : Parser)
      → Done r q
      → Done (keyword_header line r) q
  header_Done line none q e = e
  header_Done line (some x) q e = tt

  binary_header-Ends :
      (p : Parser)
      → StandsIn source p.scanner
      → check TokenType.eof p ≡ false
      → Runs (Ends source short p) (binary_header p)
  unfolding binary_header advance
  binary_header-Ends p s e =
      let step = advance-Steps source short p s e in
      Runs-go_on (consume TokenType.identifier _ (advance_token p)) _
        (consume-Runs source short TokenType.identifier _ (advance_token p) refl step.0.stands)
        (λ b q (k, f).
          ran
            (Keeps-trans source short step.0 k, found_Done source short (advance_token p) q b _ f))

  parse_method_header-Ends :
      (fuel : ℕ) (p : Parser)
      → StandsIn source p.scanner
      → left p < fuel
      → Runs (Ends source short p) (parse_method_header fuel p)
  unfolding parse_method_header advance fail
  parse_method_header-Ends fuel p s f =
      Runs-if (check TokenType.keyword p) _ _
        (λ _.
          Runs-go_on (loop fuel header_round ([], []) p) _
            (loop-Runs source short fuel fuel header_round (λ x q s' _. header_round-Turns x q s')
              ([], []) p s f f)
            (λ r q (k, e). ran (k, header_Done _ r q e)))
        (λ _.
          Runs-if (check TokenType.binary_selector p || check TokenType.vbar p) _ _
            (λ e. binary_header-Ends p s (ground arith))
            (λ _.
              Runs-if (check TokenType.identifier p) _ _
                (λ e. ran ((token-Steps source short TokenType.identifier p refl s e).0, tt))
                (λ _. ran (parser_error-Keeps source short _ p s))))

  statement_round-Turns :
      (fuel n : ℕ) (body : Nodes) (p : Parser)
      → n < fuel
      → StandsIn source p.scanner
      → left p < n
      → Runs (Turns source short p) (statement_round fuel body p)
  unfolding statement_round parse_statement
  statement_round-Turns fuel n body p small s b =
      Runs-if (check TokenType.eof p || p.had_error) _ _
        (λ _. ran (Keeps-refl source short p s, tt))
        (λ _.
          Runs-go_on (parse_statement fuel p) _
            (Runs-if p.had_error _ _ (λ e. ran (Keeps-refl source short p s, e))
              (λ _.
                return_or-Good source short {n = n}
                  (parse_expression-Good source short fuel fuel n small (omega arith)) p s b))
            (λ r q e. end_statement-Turns source short p q body r e))

  method_Verdict :
      (h : Header) (temps : List Text) (p q : Parser) (r : Option Nodes)
      → Ends source short p r q
      → Runs (λ x q'. Keeps source short p q' × Verdict x q') (method_of h temps r q)
  method_Verdict h temps p q none e = ran e
  method_Verdict h temps p q (some body) (k, _) =
      Runs-if q.had_error _ _ (λ e. ran (k, e)) (λ e. ran (k, e))

  Verdict-after :
      (p q : Parser) (m : Option (Option Node × Parser))
      → Keeps source short p q
      → Runs (λ x q'. Keeps source short q q' × Verdict x q') m
      → Runs (λ x q'. Keeps source short p q' × Verdict x q') m
  Verdict-after p q m k r = Runs-mono m r (λ x q' (l, e). (Keeps-trans source short k l, e))

  body_Verdict :
      (fuel : ℕ) (h : Header) (p q : Parser) (temps : Option (List Text))
      → left p + 1 < fuel
      → Ends source short p temps q
      → Runs
          (λ x q'. Keeps source short p q' × Verdict x q')
          (unless_null temps
            (λ names q'. go_on (method_of h names) (loop fuel (statement_round fuel) no_nodes q'))
            q)
  body_Verdict fuel h p q none f e = ran e
  body_Verdict fuel h p q (some names) f (k, _) =
      Runs-go_on (loop fuel (statement_round fuel) no_nodes q) _
        (loop-Runs source short fuel (suc (left p)) (statement_round fuel)
          (λ body q' s b. statement_round-Turns fuel (suc (left p)) body q' (omega arith) s b)
          no_nodes q k.stands (omega (arith, k.less)) (omega (arith, k.less)))
        (λ r q' (l, e). method_Verdict h names p q' r (Keeps-trans source short k l, e))

  rest_of : ℕ → Header → Parse (Option Node)
  rest_of fuel h p =
      go_on
        (λ temps.
          unless_null temps
            (λ names q. go_on (method_of h names) (loop fuel (statement_round fuel) no_nodes q)))
        (parse_temps fuel "expected '|' after temporary variables" p)

  rest_Verdict :
      (fuel : ℕ) (h : Header) (p : Parser)
      → StandsIn source p.scanner
      → left p + 1 < fuel
      → Runs (λ x q. Keeps source short p q × Verdict x q) (rest_of fuel h p)
  unfolding rest_of
  rest_Verdict fuel h p s f =
      Runs-go_on (parse_temps fuel _ p) _ (parse_temps-Ends source short fuel _ p s (omega arith))
        (λ temps q e. body_Verdict fuel h p q temps f e)

  header_Verdict :
      (fuel : ℕ) (p q : Parser) (h : Option Header)
      → left p + 1 < fuel
      → Ends source short p h q
      → Runs (λ x q'. Keeps source short p q' × Verdict x q') (unless_failed h (rest_of fuel) q)
  header_Verdict fuel p q none f e = ran e
  header_Verdict fuel p q (some h) f (k, _) =
      Runs-if q.had_error _ _ (λ e. ran (k, e))
        (λ _.
          Verdict-after p q (rest_of fuel h q) k
            (rest_Verdict fuel h q k.stands (omega (arith, k.less))))

  parse_rest-Verdict :
      (fuel : ℕ) (p : Parser)
      → StandsIn source p.scanner
      → left p + 1 < fuel
      → Runs (λ x q. Keeps source short p q × Verdict x q) (parse_rest fuel p)
  unfolding parse_rest rest_of
  parse_rest-Verdict fuel p s f =
      Runs-go_on (parse_method_header fuel p) _ (parse_method_header-Ends fuel p s (omega arith))
        (λ h q e. header_Verdict fuel p q h f e)

  pub left-prime : left (prime source) ≤ length source + 1
  unfolding prime init
  left-prime =
      let m =
        scan_token-Moves (init source)
          (StandsIn-Fits source (init source) short (init-StandsIn source)) in
      let total = Moves-total m in
      elim (Bool-cases (check TokenType.eof (prime source))) [
        | inl e ↦ rw e (omega arith)
        | inr e ↦ rw e (omega arith)
      ]

  pub prime_stands : StandsIn source (prime source).scanner
  unfolding prime
  prime_stands = scan_token-StandsIn source (init source) short (init-StandsIn source)

  parsed :
      (r : Option (Option Node × Parser))
      → Runs (λ x q. Keeps source short (prime source) q × Verdict x q) r
      → (x : Option Node) × (q : Parser) × (r ≡ some (x, q))
        × ((x ≡ none) ↔ (q.had_error ≡ true))
        × (q.block_depth ≡ 0)
        × StandsIn source q.scanner
  unfolding prime
  parsed none u = elim u [ ]
  parsed (some (none, q)) (ran (k, e)) = (none, q, refl, (λ _. e, λ _. refl), k.depth, k.stands)
  parsed (some (some x, q)) (ran (k, e)) = (some x, q, refl, (λ h. cc, λ h. cc), k.depth, k.stands)

-- With fuel above the length of the source, which is below 2^32, parsing a method returns: NULL
-- exactly if an error has been recorded. `block_depth` is 0 again, and the scanner has not left
-- the source.
pub parse_method_lem :
    (source : List ℕ) (short : length source < 2 ^ 32) (fuel : ℕ)
    → length source + 2 < fuel
    → (x : Option Node) × (q : Parser) × (parse_method fuel source ≡ some (x, q))
      × ((x ≡ none) ↔ (q.had_error ≡ true))
      × (q.block_depth ≡ 0)
      × StandsIn source q.scanner
unfolding parse_method
parse_method_lem source short fuel f = parsed source short (parse_rest fuel (prime source)) (
    parse_rest-Verdict source short fuel (prime source) (prime_stands source short)
      (omega (arith, left-prime source short)))
