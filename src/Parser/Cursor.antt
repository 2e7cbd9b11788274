-- ===== src/Parser/Cursor.antt =====
-- What `Parser::peek` and `Parser::consume` (src/parser.cxx) read of the tokens that the lexer makes.
use b2_lang.Prelude.{
  ℕ, zero, suc, ◌+◌, ◌≤◌, ◌≡◌, refl, Bool, true, false, List, [], ◌∷◌, arith, length, ◌==◌,
  if◌then◌else◌,
}
use b2_lang.Token.{Token, TokenType, type_eq}
use b2_lang.Error.{ok}
use b2_lang.Lexer.Progress.{ends_once}
use b2_lang.Parser.{Parser, peek, back}

abbrev at : List Token → ℕ → Parser
at ts i = record { tokens = ts; index = i }

ends_once-tail :
    (b : Bool) (n : ℕ) (rest : Bool) → (if b then suc n == 0 else rest) ≡ true → rest ≡ true
ends_once-tail true n rest h = ground arith
ends_once-tail false n rest h = h

ends_once-single : (b : Bool) → (if b then true else false) ≡ true → b ≡ true
ends_once-single true h = refl
ends_once-single false h = h

-- For a list of tokens with exactly one `EndOfFile`, its last, and for every index, `peek` of the
-- parser returns a token, and from the last index on it returns an `EndOfFile`.
pub peek-ends_once :
    (ts : List Token) (i : ℕ)
    → ends_once ts ≡ true
    → (t : Token) × (peek (record { tokens = ts; index = i }) ≡ ok t)
      × (length ts ≤ i + 1 → type_eq t.type TokenType.end_of_file ≡ true)
unfolding peek back
peek-ends_once [] i h = cc
peek-ends_once (t ∷ []) zero h =
    (t, refl, λ l. ends_once-single (type_eq t.type TokenType.end_of_file) h)
peek-ends_once (t ∷ []) (suc i) h =
    (t, refl, λ l. ends_once-single (type_eq t.type TokenType.end_of_file) h)
peek-ends_once (t ∷ u ∷ ts) zero h = (t, refl, λ l. absurd (omega (arith, l)))
peek-ends_once (t ∷ u ∷ ts) (suc i) h =
    let rest =
      ends_once-tail (type_eq t.type TokenType.end_of_file) (length ts) (ends_once (u ∷ ts)) h in
    let found = peek-ends_once (u ∷ ts) i rest in
    (found.0, found.1, λ l. found.2 (omega (arith, l)))
