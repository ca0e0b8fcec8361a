-- ===== src/Compiler/Parser/Quotes.antt =====
-- Quoted texts: string literals and the symbols `#'…'`, as `parse_literal` reads them.
use smalltalk_a_vm.Prelude.{
  ℕ, ◌+◌, ◌-◌, ◌%◌, ◌^◌, ◌<◌, ◌≡◌, refl, ap, ◌∙◌, arith, true, false, [], ◌∷◌, ◌++◌, length,
  length-append, take, take_all, take-append, leb, ◌==◌, if◌then◌else◌, Bool-cases, inl, inr,
}
use smalltalk_a_vm.Compiler.Ast.{Text}
use smalltalk_a_vm.Compiler.Parser.Literals.{unescape, quoted, symbol_name}

-- A text as it is written between quotes: each quote in it twice.
unfoldable pub escape : Text → Text
escape [] = []
escape (c ∷ cs) = let rest = escape cs in if c == b'\'' then c ∷ c ∷ rest else c ∷ rest

unescape_plain : (c : ℕ) (cs : Text) → (c == b'\'') ≡ false → unescape (c ∷ cs) ≡ c ∷ unescape cs
unfolding unescape
unescape_plain c [] e = refl
unescape_plain c (d ∷ ds) e = rw e

unescape_double :
    (c : ℕ) (cs : Text) → (c == b'\'') ≡ true → unescape (c ∷ c ∷ cs) ≡ c ∷ unescape cs
unfolding unescape
unescape_double c cs e = rw e

unescape-escape : (text : Text) → unescape (escape text) ≡ text
unfolding escape
unescape-escape [] = unfold unescape in refl
unescape-escape (c ∷ cs) = elim (Bool-cases (c == b'\'')) [
  | inl e ↦ rw e (unescape_double c (escape cs) e ∙ ap (λ t. c ∷ t) (unescape-escape cs))
  | inr e ↦ rw e (unescape_plain c (escape cs) e ∙ ap (λ t. c ∷ t) (unescape-escape cs))
]

abbrev pub literal : Text → Text
literal text = b'\'' ∷ escape text ++ b'\'' ∷ []

inside : (text : Text) → length (literal text) < 2 ^ 32 → quoted (literal text) ≡ text
inside text h =
    let size : length (literal text) ≡ length (escape text) + 2 =
      omega (arith, length-append (escape text) (b'\'' ∷ [])) in
    let n : (length (literal text) + (2 ^ 32 - 2)) % 2 ^ 32 ≡ length (escape text) = omega arith in
    ap (λ k. unescape (take k (escape text ++ b'\'' ∷ []))) n
    ∙ ap unescape (
        take-append (escape text) (b'\'' ∷ []) (length (escape text)) (omega arith)
        ∙ take_all (escape text))
    ∙ unescape-escape text

-- Any text, written between quotes with each quote in it doubled, is read back as that text, as a
-- string literal and as the name of a symbol literal. The literal is shorter than 2^32 bytes.
pub quoted-literal :
    (text : Text)
    → length (literal text) < 2 ^ 32
    → (quoted (literal text) ≡ text) × (symbol_name (literal text) ≡ text)
unfolding symbol_name
quoted-literal text h =
    let long : leb 2 (length (literal text)) ≡ true =
      ground (arith, length-append (escape text) (b'\'' ∷ [])) in
    (inside text h, rw long (inside text h))
