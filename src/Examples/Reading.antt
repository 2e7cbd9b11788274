-- ===== src/Examples/Reading.antt =====
-- The theorems on the lexer (src/lexer.cxx) at concrete texts.
use b2_lang.Lexer.Munch.{word_type, next_token_word}
use b2_lang.Container.Lookup.{lookup}
use b2_lang.Prelude.{bytes_eq, ◌≡◌, ◌⊎◌, refl, true, some, List, [], ◌∷◌, ◌++◌, codes}
use b2_lang.Container.Order.{bytes_order}
use b2_lang.Token.{TokenType, Token}
use b2_lang.Error.{Result, ok, Post}
use b2_lang.Lexer.{
  Lexer, tokenise, initial_lexer, next_token, is_space, token, is_identifier_char, is_alnum,
  is_digit, is_symbol_char,
}
use b2_lang.Lexer.Number.{next_token_int}
use b2_lang.Lexer.Word.{drop_while}
use b2_lang.Lexer.Lexeme.{next_token_value}
use b2_lang.Lexer.Progress.{ends_once, tokenise_total}

tokenise_total_example :
    (r : Result (List Token)) × (tokenise [] (codes "x = 1") ≡ some r)
    × Post (λ ts. ends_once ts ≡ true) r
tokenise_total_example = tokenise_total [] (codes "x = 1")

-- A state of the lexer before ` x = 1`.
abbrev before_x : Lexer
before_x = initial_lexer [] (codes " x = 1")

abbrev x_token : Token
x_token = record {
  type = TokenType.identifier;
  value = codes "x";
  source_location = record { line = 1; column = 1; filename = [] };
}

abbrev behind_x : Lexer
behind_x = record {
  token_location = record { line = 1; column = 1; filename = [] };
  current_location = record { line = 1; column = 2; filename = [] };
  unread = codes " = 1";
}

x_read : next_token before_x ≡ ok (x_token, behind_x)
unfolding next_token
x_read = refl

next_token_value_example :
    (drop_while is_space (codes " x = 1") ≡ codes "x" ++ codes " = 1")
    ⊎ ((TokenType.identifier ≡ TokenType.string_literal)
        × (drop_while is_space (codes " x = 1") ≡ b'"' ∷ codes "x" ++ codes " = 1"))
next_token_value_example = next_token_value before_x behind_x x_token x_read refl

next_token_word_example :
    (s' : Lexer) × (next_token (initial_lexer [] (codes "func main"))
      ≡ ok (
        token
            (word_type (codes "func"))
            (codes "func")
            (initial_lexer [] (codes "func main")).current_location,
        s',
      ))
    × (s'.unread ≡ codes " main")
unfolding is_identifier_char is_alnum is_digit is_symbol_char
next_token_word_example =
    next_token_word (initial_lexer [] (codes "func main")) b'f' (codes "unc") (codes " main") refl
      refl refl refl refl

func_word : word_type (codes "func") ≡ TokenType.function_kw
unfolding lookup bytes_eq
func_word = refl

next_token_int_example :
    (s' : Lexer) × (next_token (initial_lexer [] (codes "12.x"))
      ≡ ok (
        token TokenType.int_literal (codes "12") (initial_lexer [] (codes "12.x")).current_location,
        s',
      ))
    × (s'.unread ≡ codes ".x")
unfolding is_digit
next_token_int_example =
    next_token_int (initial_lexer [] (codes "12.x")) b'1' (codes "2") (codes ".x") refl refl refl
      refl
