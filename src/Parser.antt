-- ===== src/Parser.antt =====
-- src/parser.cxx and include/parser.h: the place of the parser in the tokens, and the precedence of
-- operators. A token that is read where there is none is undefined.
pub mod Cursor
pub mod Run
pub mod Expr
pub mod Grammar
pub mod Stmt
pub mod Safe
pub mod Total
pub mod Shape
mod Tests
use b2_lang.Prelude.{
  ℕ, ◌+◌, Bool, true, false, not, none, some, List, [], ◌∷◌, get_elem?, if◌then◌else◌,
}
use b2_lang.Token.{Token, TokenType, type_eq}
use b2_lang.Error.{Result, ok, err, undefined, ◌>>=◌, parse_error, expected_token}

unfoldable pub precedence : TokenType → ℕ
precedence TokenType.equals = 1
precedence TokenType.not_equals = 1
precedence TokenType.greater_than = 2
precedence TokenType.less_than = 2
precedence TokenType.greater_than_equals = 2
precedence TokenType.less_than_equals = 2
precedence TokenType.plus = 3
precedence TokenType.minus = 3
precedence TokenType.asterisk = 4
precedence TokenType.forward_slash = 4
precedence _ = 0

-- `contains(terminators, token)`.
unfoldable pub is_terminator : List TokenType → TokenType → Bool
is_terminator [] token = false
is_terminator (term ∷ terms) token = if type_eq term token then true else is_terminator terms token

pub record Parser : Type 0 where
  pub tokens : List Token
  pub index : ℕ

-- `tokens.back()`.
unfoldable pub back : List Token → Result Token
back [] = undefined
back (t ∷ []) = ok t
back (t ∷ u ∷ ts) = back (u ∷ ts)

-- `tokens[index]`, or the last token behind the end.
unfoldable pub peek : Parser → Result Token
unfolding back
peek p = elim (get_elem? p.tokens p.index) [ none ↦ back p.tokens | some t ↦ ok t ]

unfoldable pub advance : Parser → Parser
advance p = record p { index = p.index + 1 }

unfoldable pub consume : TokenType → Parser → Result (Token × Parser)
unfolding peek advance
consume expected p = peek p >>= λ t.
    if not (type_eq t.type expected)
    then err (parse_error t.source_location (expected_token expected t.type))
    else ok (t, advance p)
