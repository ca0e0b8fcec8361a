-- ===== src/Tests/Lexer.antt =====
-- The scanner, src/compiler/scanner.c, on a short method.
use smalltalk_a_vm.Prelude.{ℕ, ◌≤◌, ◌≡◌, arith, List, [], ◌∷◌}
use smalltalk_a_vm.Compiler.Scanner.{TokenType, init, next, scan_token}
use smalltalk_a_vm.Compiler.Scanner.Source.{
  StandsIn, init-StandsIn, scan_token-StandsIn, scan_token_ends, after,
}

-- `x := 3`
abbrev source : List ℕ
source = 120 ∷ 32 ∷ 58 ∷ 61 ∷ 32 ∷ 51 ∷ []

scan_token-StandsIn_example : StandsIn source (scan_token (init source)).1
scan_token-StandsIn_example =
    scan_token-StandsIn source (init source) (omega arith) (init-StandsIn source)

scan_token_ends_example :
    (n : ℕ) × (n ≤ 6) × ((next (after n (init source))).0.type ≡ TokenType.eof)
scan_token_ends_example = scan_token_ends source (omega arith)
