-- ===== src/Compiler/Parser/Rules.antt =====
-- The parser's sequences: what follows a consumed token, a test for NULL or for an error, and a
-- closing token.
use smalltalk_a_vm.Prelude.{
  ℕ, ◌^◌, ◌<◌, ◌≡◌, arith, Bool, true, false, Option, none, some, List, length, ◌==◌,
}
use Prim.Native.String.{String}
use smalltalk_a_vm.Compiler.Scanner.{TokenType}
use smalltalk_a_vm.Compiler.Scanner.Source.{StandsIn}
use smalltalk_a_vm.Compiler.Ast.{Node}
use smalltalk_a_vm.Compiler.Parser.{
  Parser, Parse, code, consume, pure, go_on, unless_null, unless_error, Round,
}
use smalltalk_a_vm.Compiler.Parser.Blocks.{if_found}
use smalltalk_a_vm.Compiler.Parser.Runs.{
  left, Runs, ran, Runs-go_on, Runs-mono, Runs-if, Result, Done, Found, Turned, Keeps, Keeps-trans,
  Steps, consume-Runs,
}

module _ (source : List ℕ) (short : length source < 2 ^ 32) where
  abbrev pub Yields {ℓ} : {A : Type ℓ} → Parser → Option A → Parser → Type 0
  Yields p r q = Keeps source short p q × Result p r q

  abbrev pub Ends {ℓ} : {A : Type ℓ} → Parser → Option A → Parser → Type 0
  Ends p r q = Keeps source short p q × Done r q

  abbrev pub Turns {ℓ} : {A : Type ℓ} → Parser → Round A → Parser → Type 0
  Turns p r q = Keeps source short p q × Turned p r q

  -- An action that yields a result wherever the scanner stands in the source with fewer than `n`
  -- tokens left.
  abbrev pub Good {ℓ} : {A : Type ℓ} → ℕ → Parse (Option A) → Type ℓ
  Good n m = (p : Parser) → StandsIn source p.scanner → left p < n → Runs (Yields p) (m p)

  weaken {ℓ} : {A : Type ℓ} (p q : Parser) (r : Option A) → Result p r q → Done r q
  weaken p q none e = e
  weaken p q (some a) e = tt

  pub Yields-Ends {ℓ} :
      {A : Type ℓ} (p : Parser) (m : Option (Option A × Parser))
      → Runs (Yields p) m
      → Runs (Ends p) m
  Yields-Ends p m r = Runs-mono m r (λ a q (k, e). (k, weaken p q a e))

  strengthen {ℓ} :
      {A : Type ℓ} (p q q' : Parser) (r : Option A)
      → Steps source short p q
      → Keeps source short q q'
      → Done r q'
      → Result p r q'
  strengthen p q q' none s k e = e
  strengthen p q q' (some a) s k e = omega (arith, s.1, k.less)

  -- After a token has been consumed.
  pub Ends-Yields {ℓ} :
      {A : Type ℓ} (p q : Parser) (m : Option (Option A × Parser))
      → Steps source short p q
      → Runs (Ends q) m
      → Runs (Yields p) m
  Ends-Yields p q m s r =
      Runs-mono m r (λ a q' (k, e). (Keeps-trans source short s.0 k, strengthen p q q' a s k e))

  pub Ends-after {ℓ} :
      {A : Type ℓ} (p q : Parser) (m : Option (Option A × Parser))
      → Keeps source short p q
      → Runs (Ends q) m
      → Runs (Ends p) m
  Ends-after p q m k r = Runs-mono m r (λ a q' (l, e). (Keeps-trans source short k l, e))

  null_Ends {ℓ κ} :
      {A : Type ℓ} {B : Type κ} (p q : Parser) (k : A → Parse (Option B)) (r : Option A)
      → Ends p r q
      → ((a : A) → Runs (Ends q) (k a q))
      → Runs (Ends p) (unless_null r k q)
  null_Ends p q k none e f = ran e
  null_Ends p q k (some a) (l, _) f = Ends-after p q (k a q) l (f a)

  pub unless_null-Ends {ℓ κ} :
      {A : Type ℓ} {B : Type κ} (p : Parser) (m : Option (Option A × Parser))
      (k : A → Parse (Option B))
      → Runs (Ends p) m
      → ((a : A) (q : Parser) → Keeps source short p q → Runs (Ends q) (k a q))
      → Runs (Ends p) (go_on (λ r. unless_null r k) m)
  unless_null-Ends p m k r f = Runs-go_on m _ r (λ a q e. null_Ends p q k a e (λ b. f b q e.0))

  error_Yields :
      (p q : Parser) (k : Node → Parse (Option Node)) (r : Option Node)
      → Yields p r q
      → ((n : Node) → Steps source short p q → Runs (Ends q) (k n q))
      → Runs (Yields p) (unless_error r k q)
  error_Yields p q k none e f = ran e
  error_Yields p q k (some n) e f =
      Runs-if q.had_error _ _ (λ _. ran e) (λ _. Ends-Yields p q (k n q) e (f n e))

  pub unless_error-Yields :
      (p : Parser) (m : Option (Option Node × Parser)) (k : Node → Parse (Option Node))
      → Runs (Yields p) m
      → ((n : Node) (q : Parser) → Steps source short p q → Runs (Ends q) (k n q))
      → Runs (Yields p) (go_on (λ r. unless_error r k) m)
  unless_error-Yields p m k r f = Runs-go_on m _ r (λ a q e. error_Yields p q k a e (λ n. f n q))

  pub found_Done {ℓ} :
      {A : Type ℓ} (p q : Parser) (b : Bool) (a : A) → Found p b q → Done (if_found b a) q
  found_Done p q true a e = tt
  found_Done p q false a e = e

  -- A closing token, with the result that it completes.
  pub close-Ends {ℓ} :
      {A : Type ℓ} (type : TokenType) (msg : String) (a : A) (p : Parser)
      → (code type == 20) ≡ false
      → StandsIn source p.scanner
      → Runs (Ends p) (go_on (λ b. pure (if_found b a)) (consume type msg p))
  close-Ends type msg a p other s =
      Runs-go_on (consume type msg p) _ (consume-Runs source short type msg p other s)
        (λ b q (k, e). ran (k, found_Done p q b a e))
