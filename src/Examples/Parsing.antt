-- ===== src/Examples/Parsing.antt =====
-- The theorems on the parser (src/parser.cxx) at concrete tokens.
use b2_lang.Prelude.{
  ℕ, ◌≤◌, ◌<◌, ◌≡◌, ◌+◌, ◌++◌, refl, true, some, List, [], ◌∷◌, ℤ, pos, Bytes, codes, length, arith,
}
use b2_lang.Parser.{Parser}
use b2_lang.Parser.Expr.{parse_expression}
use b2_lang.Parser.Grammar.{
  Lexeme, Expression, Operator, number, variable, call, operation, parentheses, node_of, emit, size,
  fits, HasNumbersRead,
}
use b2_lang.Parser.Grammar.Place.{At}
use b2_lang.Parser.Grammar.RoundTrip.{parse_expression-emit}
use b2_lang.Token.{Token, TokenType, SourceLocation, type_eq}
use b2_lang.Lexer.{tokenise}
use b2_lang.Error.{ok}
use b2_lang.Parser.{peek}
use b2_lang.Parser.Cursor.{peek-ends_once}
use b2_lang.Examples.Compiling.{decimal}

abbrev place : SourceLocation
place = record { line = 1; column = 1; filename = [] }

abbrev break_tokens : List Token
break_tokens =
    record { type = TokenType.break_kw; value = codes "break"; source_location = place }
    ∷ record { type = TokenType.end_of_file; value = []; source_location = place }
    ∷ []

peek-ends_once_example :
    (t : Token) × (peek (record { tokens = break_tokens; index = 5 }) ≡ ok t)
    × (length break_tokens ≤ 5 + 1 → type_eq t.type TokenType.end_of_file ≡ true)
peek-ends_once_example = peek-ends_once break_tokens 5 refl

-- A token of the first line.
abbrev at_column : ℕ → Bytes → Lexeme
at_column n text = (text, record { line = 1; column = n; filename = [] })

-- `1 - 2 * a - (f() + 4)`.
abbrev written : Expression ℤ
written =
    operation Operator.minus (at_column 10 (codes "-"))
      (operation Operator.minus (at_column 2 (codes "-")) (number (at_column 0 (codes "1")) (pos 1))
        (operation Operator.times (at_column 6 (codes "*"))
          (number (at_column 4 (codes "2")) (pos 2)) (variable (at_column 8 (codes "a")))))
      (parentheses (at_column 12 (codes "("))
        (operation Operator.plus (at_column 17 (codes "+"))
          (call (at_column 13 (codes "f")) (at_column 14 (codes "(")) (at_column 15 (codes ")")))
          (number (at_column 19 (codes "4")) (pos 4)))
        (at_column 20 (codes ")")))

-- It has the location of the token before it.
abbrev end_token : Token
end_token = record {
  type = TokenType.end_of_file;
  value = [];
  source_location = (at_column 20 []).1;
}

abbrev written_tokens : List Token
written_tokens = emit written ++ (end_token ∷ [])

written_lexed : tokenise [] (codes "1 - 2 * a - (f() + 4)") ≡ some (ok written_tokens)
unfolding tokenise emit b2_lang.Parser.Grammar.type_of
written_lexed = refl

written_numbers : HasNumbersRead decimal written
unfolding HasNumbersRead
written_numbers = ((refl, (refl, tt)), (tt, refl))

fits-written : fits 0 written ≡ true
unfolding fits b2_lang.Parser.Grammar.type_of b2_lang.Parser.precedence
fits-written = refl

end_loose : b2_lang.Parser.precedence TokenType.end_of_file ≡ 0
unfolding b2_lang.Parser.precedence
end_loose = refl

written_small : size written < 40
unfolding size
written_small = omega arith

parse_expression-emit_example :
    (q : Parser) × At q (end_token ∷ [])
    × (parse_expression decimal 40 0 (record { tokens = written_tokens; index = 0 })
        ≡ some (ok (node_of written end_token.source_location, q)))
parse_expression-emit_example =
    parse_expression-emit decimal written end_token [] 40 written_numbers fits-written end_loose
      refl written_small
