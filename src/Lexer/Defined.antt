-- ===== src/Lexer/Defined.antt =====
-- The lexer (src/lexer.cxx) has no undefined behaviour.
use b2_lang.Prelude.{
  ℕ, zero, suc, Bool, true, false, ◌&&◌, not, Option, none, some, List, [], ◌∷◌, Bytes, ◌==◌, ◌+◌,
  length,
}
use b2_lang.Token.{Token, TokenType, SourceLocation, type_eq}
use b2_lang.Error.{Result, ok, err, ◌>>=◌, Defined, Defined-then, Defined-if}
use b2_lang.Lexer.{
  Lexer, current, peek, advance_while, consume, parse_number, run_string, string_end,
  parse_string_literal, parse_identifier, symbol_token, parse_symbol, start_token, next_token,
  collect, tokenise_loop, tokenise, initial_lexer, is_digit, is_symbol_char, is_identifier_char,
  is_space, is_end,
}

number-Defined : (s : Lexer) → Defined (parse_number s)
unfolding parse_number
number-Defined s =
    let whole = advance_while is_digit s in
    Defined-if (current whole == b'.' && is_digit (peek whole)) _ _ tt tt

string_end-Defined :
    (loc : SourceLocation) (start : Lexer) (o : Option Lexer) → Defined (string_end loc start o)
unfolding string_end
string_end-Defined loc start none = tt
string_end-Defined loc start (some s) = tt

string-Defined : (s : Lexer) → Defined (parse_string_literal s)
unfolding parse_string_literal consume
string-Defined s =
    Defined-then (consume b'"' s) _ (Defined-if (not (current s == b'"')) _ _ tt tt)
      λ start. string_end-Defined start.token_location start (run_string start.unread start)

symbol_token-Defined :
    (loc : SourceLocation) (word : Bytes) (s : Lexer) (o : Option TokenType)
    → Defined (symbol_token loc word s o)
unfolding symbol_token
symbol_token-Defined loc word s none = tt
symbol_token-Defined loc word s (some t) = tt

symbol-Defined : (s : Lexer) → Defined (parse_symbol s)
unfolding parse_symbol
symbol-Defined s =
    Defined-if (current s == b'(') _ _ tt
      (Defined-if (current s == b')') _ _ tt (symbol_token-Defined _ _ _ _))

start_token-Defined : (s : Lexer) → Defined (start_token s)
unfolding start_token parse_identifier
start_token-Defined s = Defined-if (current s == b'"') _ _ (string-Defined s) (
    Defined-if (is_symbol_char (current s)) _ _ (symbol-Defined s) (
      Defined-if (is_digit (current s)) _ _ (number-Defined s)
        (Defined-if (is_identifier_char (current s)) _ _ tt tt)))

next_token-Defined : (s : Lexer) → Defined (next_token s)
unfolding next_token
next_token-Defined s =
    let s' = advance_while is_space s in
    Defined-if (is_end s'.unread) _ _ tt
      (start_token-Defined (record s' { token_location = s'.current_location }))

-- The same of an answer that may be missing.
abbrev pub AnswerDefined : Option (Result (List Token)) → Type 0
AnswerDefined none = Unit
AnswerDefined (some r) = Defined r

collect-Defined :
    (more : Lexer → Option (Result (List Token))) (r : Result (Token × Lexer))
    → Defined r
    → ((s : Lexer) → AnswerDefined (more s))
    → AnswerDefined (collect more r)
unfolding collect
collect-Defined more (err e) d k = tt
collect-Defined more Result.undefined d k = d
collect-Defined more (ok (t, s)) d k = chosen (type_eq t.type TokenType.end_of_file) (more s) (k s)
  where
    chosen :
        (b : Bool) (o : Option (Result (List Token)))
        → AnswerDefined o
        → AnswerDefined (elim b [
          | true ↦ some (ok (t ∷ []))
          | false ↦ elim o [ none ↦ none | some r ↦ some (r >>= λ ts. ok (t ∷ ts)) ]
        ])
    chosen true o h = tt
    chosen false none h = tt
    chosen false (some r) h = Defined-then r _ h λ ts. tt

tokenise_loop-Defined : (fuel : ℕ) (s : Lexer) → AnswerDefined (tokenise_loop fuel s)
unfolding tokenise_loop
tokenise_loop-Defined zero s = tt
tokenise_loop-Defined (suc fuel) s =
    collect-Defined (tokenise_loop fuel) (next_token s) (next_token-Defined s)
      (tokenise_loop-Defined fuel)

-- The answer of `tokenise` is not undefined behaviour.
pub tokenise-Defined : (name text : Bytes) → AnswerDefined (tokenise name text)
unfolding tokenise
tokenise-Defined name text = tokenise_loop-Defined (length text + 1) (initial_lexer name text)
