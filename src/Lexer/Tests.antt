-- ===== src/Lexer/Tests.antt =====
-- Runs of the lexer, after tests/lexer_test.cxx.
use b2_lang.Prelude.{◌≡◌, refl, none, some, List, [], ◌∷◌, map, Option, Bytes, codes}
use b2_lang.Token.{Token, TokenType}
use b2_lang.Error.{Result, ok}
use b2_lang.Lexer.{tokenise}

abbrev types : List Token → List TokenType
types ts = map (λ (t : Token). t.type) ts

abbrev values : List Token → List Bytes
values ts = map (λ (t : Token). t.value) ts

abbrev types_of : Option (Result (List Token)) → Option (List TokenType)
types_of (some (ok ts)) = some (types ts)
types_of _ = none

abbrev values_of : Option (Result (List Token)) → Option (List Bytes)
values_of (some (ok ts)) = some (values ts)
values_of _ = none

declaration_types :
    types_of (tokenise [] (codes "x = 1.5 <= foo-bar"))
    ≡ some (
        TokenType.identifier ∷ TokenType.assignment ∷ TokenType.float_literal
        ∷ TokenType.less_than_equals ∷ TokenType.identifier ∷ TokenType.end_of_file ∷ [])
unfolding tokenise
declaration_types = refl

keyword_types :
    types_of (tokenise [] (codes "func main() end"))
    ≡ some (
        TokenType.function_kw ∷ TokenType.identifier ∷ TokenType.lparen ∷ TokenType.rparen
        ∷ TokenType.end_kw ∷ TokenType.end_of_file ∷ [])
unfolding tokenise
keyword_types = refl

-- The closing quote is part of a string literal's value.
string_values : values_of (tokenise [] (codes "\"hi\"")) ≡ some (codes "hi\"" ∷ [] ∷ [])
unfolding tokenise
string_values = refl

-- A byte that starts no token ends the file for the lexer.
unknown_types :
    types_of (tokenise [] (codes "x $ y"))
    ≡ some (TokenType.identifier ∷ TokenType.end_of_file ∷ [])
unfolding tokenise
unknown_types = refl

-- An operator directly before a parenthesis is read together with it, and is not in the table.
joined_symbols : types_of (tokenise [] (codes "1 +(2)")) ≡ none
unfolding tokenise
joined_symbols = refl
