-- ===== src/Compiler/Parser/Runs.antt =====
-- What every function of the parser does to the state, and the rules by which its parts say so for
-- the whole: sequences, branches and loops.
use Prim.Native.String.{String}
use smalltalk_a_vm.Prelude.{
  Bool-cases, ℕ, zero, suc, ◌+◌, ◌^◌, ◌≤◌, ◌<◌, ◌≡◌, refl, ◌∙◌, arith, Bool, true, false, Option,
  none, some, List, length, ◌==◌, if◌then◌else◌, inl, inr,
}
use smalltalk_a_vm.Compiler.Scanner.{TokenType}
use smalltalk_a_vm.Compiler.Scanner.Source.{
  StandsIn, StandsIn-Fits, scan_token-Moves, scan_token-StandsIn, scan_token_covers,
}
use smalltalk_a_vm.Compiler.Scanner.Moves.{Moves-total, Moves-pos}
use smalltalk_a_vm.Compiler.Parser.{
  Parser, Parse, code, check, advance_token, parser_error, consume, go_on, Round, continue, break,
  give_up, go_round, loop,
}

-- A bound on the tokens that are left, the current one included.
abbrev pub left : Parser → ℕ
left p = length p.scanner.rest + (if check TokenType.eof p then 0 else 1)

-- The action has fuel enough, and its result and the new state satisfy `Q`.
pub data Runs {ℓ} {A : Type ℓ} (Q : A → Parser → Type 0) : Option (A × Parser) → Type ℓ where
  ran : {a : A} {p : Parser} → Q a p → Runs Q (some (a, p))

pub Runs-go_on {ℓ κ} :
    {A : Type ℓ} {B : Type κ} {Q : A → Parser → Type 0} {R : B → Parser → Type 0}
    (r : Option (A × Parser)) (f : A → Parse B)
    → Runs Q r
    → ((a : A) (q : Parser) → Q a q → Runs R (f a q))
    → Runs R (go_on f r)
Runs-go_on r f (ran u) k = k _ _ u

pub Runs-mono {ℓ} :
    {A : Type ℓ} {Q R : A → Parser → Type 0} (r : Option (A × Parser))
    → Runs Q r
    → ((a : A) (q : Parser) → Q a q → R a q)
    → Runs R r
Runs-mono r (ran u) k = ran (k _ _ u)

pub Runs-if {ℓ} :
    {A : Type ℓ} {Q : A → Parser → Type 0} (b : Bool) (x y : Option (A × Parser))
    → (b ≡ true → Runs Q x)
    → (b ≡ false → Runs Q y)
    → Runs Q (if b then x else y)
Runs-if true x y f g = f refl
Runs-if false x y f g = g refl

-- A result that is not NULL has consumed a token; NULL comes with an error.
abbrev pub Result {ℓ} : {A : Type ℓ} → Parser → Option A → Parser → Type 0
Result p none q = q.had_error ≡ true
Result p (some a) q = left q < left p

-- The same, where a result need not have consumed any.
abbrev pub Done {ℓ} : {A : Type ℓ} → Option A → Parser → Type 0
Done none q = q.had_error ≡ true
Done (some a) q = Unit {0}

abbrev pub Found : Parser → Bool → Parser → Type 0
Found p true q = left q < left p
Found p false q = q.had_error ≡ true

abbrev pub Turned {ℓ} : {A : Type ℓ} → Parser → Round A → Parser → Type 0
Turned p (continue a) q = left q < left p
Turned p (break a) q = Unit {0}
Turned p give_up q = q.had_error ≡ true

module _ (source : List ℕ) (short : length source < 2 ^ 32) where
  -- The scanner stays in the source, no token comes back, `block_depth` is as before, and an error
  -- stays the error that it was.
  pub record Keeps (p q : Parser) : Type 0 where
    pub stands : StandsIn source q.scanner
    pub less : left q ≤ left p
    pub depth : q.block_depth ≡ p.block_depth
    pub blame :
        p.had_error ≡ true
        → (q.had_error ≡ true) × (q.error_line ≡ p.error_line) × (q.error_text ≡ p.error_text)

  pub Keeps-refl : (p : Parser) → StandsIn source p.scanner → Keeps p p
  Keeps-refl p a = record {
    stands = a;
    less = omega arith;
    depth = refl;
    blame = λ e. (e, refl, refl);
  }

  pub Keeps-trans : {p q r : Parser} → Keeps p q → Keeps q r → Keeps p r
  Keeps-trans k l = record {
    stands = l.stands;
    less = omega (arith, k.less, l.less);
    depth = l.depth ∙ k.depth;
    blame = λ e.
        let (e', line, text) = k.blame e in
        let (e'', line', text') = l.blame e' in (e'', line' ∙ line, text' ∙ text);
  }

  abbrev pub Steps : Parser → Parser → Type 0
  Steps p q = Keeps p q × (left q < left p)

  advance_less :
      (p : Parser)
      → StandsIn source p.scanner
      → check TokenType.eof p ≡ false
      → left (advance_token p) < left p
  unfolding advance_token
  advance_less p a e =
      let m = scan_token-Moves p.scanner (StandsIn-Fits source p.scanner short a) in
      let total = Moves-total m in
      let on = Moves-pos m in
      rw e (elim (scan_token_covers source p.scanner short a).4 [
        | inl (_, _, type, _, _, _) ↦ rw type (omega arith)
        | inr (_, _, moved, _) ↦ elim (Bool-cases (check TokenType.eof (advance_token p))) [
          | inl e' ↦ rw e' (omega arith)
          | inr e' ↦ rw e' (omega arith)
        ]
      ])

  advance-Keeps :
      (p : Parser)
      → StandsIn source p.scanner
      → check TokenType.eof p ≡ false
      → Keeps p (advance_token p)
  unfolding advance_token
  advance-Keeps p a e = record {
    stands = scan_token-StandsIn source p.scanner short a;
    less = omega (arith, advance_less p a e);
    depth = refl;
    blame = λ e. (e, refl, refl);
  }

  pub advance-Steps :
      (p : Parser)
      → StandsIn source p.scanner
      → check TokenType.eof p ≡ false
      → Steps p (advance_token p)
  advance-Steps p a e = (advance-Keeps p a e, advance_less p a e)

  -- A token of another type is not the end.
  not_eof :
      (type : TokenType) (p : Parser)
      → (code type == 20) ≡ false
      → check type p ≡ true
      → check TokenType.eof p ≡ false
  not_eof type p other e = ground arith

  pub token-Steps :
      (type : TokenType) (p : Parser)
      → (code type == 20) ≡ false
      → StandsIn source p.scanner
      → check type p ≡ true
      → Steps p (advance_token p)
  token-Steps type p other a e = advance-Steps p a (not_eof type p other e)

  pub parser_error-Keeps :
      (msg : String) (p : Parser)
      → StandsIn source p.scanner
      → Keeps p (parser_error msg p) × ((parser_error msg p).had_error ≡ true)
  unfolding parser_error
  parser_error-Keeps msg p a = failed p.had_error refl
    where
      failed :
          (b : Bool)
          → p.had_error ≡ b
          → let q =
              if b
              then p
              else record p { had_error = true; error_line = p.current.line; error_text = msg } in
            Keeps p q × (q.had_error ≡ true)
      failed true e = (Keeps-refl p a, e)
      failed false e = (
        record {
          stands = a;
          less = omega arith;
          depth = refl;
          blame = λ e'. absurd (ground arith);
        },
        refl,
      )

  pub consume-Runs :
      (type : TokenType) (msg : String) (p : Parser)
      → (code type == 20) ≡ false
      → StandsIn source p.scanner
      → Runs (λ b q. Keeps p q × Found p b q) (consume type msg p)
  unfolding consume
  consume-Runs type msg p other a =
      Runs-if (check type p) _ _ (λ e. ran (token-Steps type p other a e))
        (λ e. ran (parser_error-Keeps msg p a))

  -- A loop ends, for its rounds consume tokens, with what they all keep.
  go_round-Runs {ℓ} :
      {A : Type ℓ} (p : Parser) (again : A → Parse (Option A)) (r : Option (Round A × Parser))
      → Runs (λ t q. Keeps p q × Turned p t q) r
      → ((a : A) (q : Parser)
          → StandsIn source q.scanner
          → left q < left p
          → Runs (λ x q'. Keeps q q' × Done x q') (again a q))
      → Runs (λ x q. Keeps p q × Done x q) (go_round again r)
  go_round-Runs p again none u k = elim u [ ]
  go_round-Runs p again (some (continue a, q)) (ran (kept, less)) k =
      Runs-mono (again a q) (k a q kept.stands less)
        (λ x q' (kept', d). (Keeps-trans kept kept', d))
  go_round-Runs p again (some (break a, q)) (ran (kept, d)) k = ran (kept, tt)
  go_round-Runs p again (some (give_up, q)) (ran (kept, d)) k = ran (kept, d)

  pub loop-Runs {ℓ} :
      {A : Type ℓ} (fuel n : ℕ) (body : A → Parse (Round A))
      → ((a : A) (q : Parser)
          → StandsIn source q.scanner
          → left q < n
          → Runs (λ t q'. Keeps q q' × Turned q t q') (body a q))
      → (a : A) (p : Parser) → StandsIn source p.scanner
      → left p < n
      → left p < fuel
      → Runs (λ x q. Keeps p q × Done x q) (loop fuel body a p)
  unfolding loop
  loop-Runs zero n body k a p s b f = absurd (omega arith)
  loop-Runs (suc fuel) n body k a p s b f =
      go_round-Runs p (loop fuel body) (body a p) (k a p s b)
        (λ a' q s' less. loop-Runs fuel n body k a' q s' (omega arith) (omega arith))
