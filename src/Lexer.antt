-- ===== src/Lexer.antt =====
-- src/lexer.cxx and include/lexer.h: from the bytes of a file to tokens.
-- `data` and `index` are the bytes from `index` on, `unread`; `data.substr(start, index - start)` is
-- what two such states differ by. The tests of <cctype> are those of the C locale.
pub mod Branches
pub mod Defined
pub mod Lexeme
pub mod Munch
pub mod Number
pub mod Progress
pub mod Word
mod Tests
use b2_lang.Prelude.{
  ℕ, zero, suc, ◌+◌, ◌-◌, Bool, true, false, not, ◌&&◌, ◌||◌, Option, none, some, List, [], ◌∷◌,
  if◌then◌else◌, ◌==◌, leb, Bytes, length, take, get_or,
}
use b2_lang.Container.{find}
use b2_lang.Container.Order.{bytes_order}
use b2_lang.Token.{TokenType, SourceLocation, Token, type_eq, keywords, symbols}
use b2_lang.Error.{
  Result, ok, err, ◌>>=◌, lexer_error, LexProblem, unterminated_string, unknown_token,
  expected_char,
}

abbrev within : ℕ → ℕ → ℕ → Bool
within lo hi c = leb lo c && leb c hi

-- `std::isdigit`, `std::isalnum`, `std::isspace`.
unfoldable pub is_digit : ℕ → Bool
is_digit c = within b'0' b'9' c

unfoldable pub is_alnum : ℕ → Bool
unfolding is_digit
is_alnum c = is_digit c || within b'a' b'z' c || within b'A' b'Z' c

unfoldable pub is_space : ℕ → Bool
is_space c = c == b' ' || within 9 13 c

unfoldable pub is_identifier_char : ℕ → Bool
unfolding is_alnum
is_identifier_char c = is_alnum c || c == b'_' || c == b'-'

unfoldable pub is_symbol_char : ℕ → Bool
is_symbol_char c =
    c == b'+'
    || c == b'-'
    || c == b'*'
    || c == b'/'
    || c == b'('
    || c == b')'
    || c == b'='
    || c == b':'
    || c == b'<'
    || c == b'>'
    || c == b'{'
    || c == b'}'
    || c == b'!'

pub record Lexer : Type 0 where
  pub token_location : SourceLocation
  pub current_location : SourceLocation
  pub unread : Bytes

-- `data[index]`, or '\0' at the end.
abbrev pub head_or_nul : Bytes → ℕ
head_or_nul [] = 0
head_or_nul (c ∷ cs) = c

abbrev pub tail_of : Bytes → Bytes
tail_of [] = []
tail_of (c ∷ cs) = cs

unfoldable pub current : Lexer → ℕ
current s = head_or_nul s.unread

unfoldable pub peek : Lexer → ℕ
peek s = head_or_nul (tail_of s.unread)

-- The location behind a byte.
move : ℕ → SourceLocation → SourceLocation
move c loc =
    if c == b'\n'
    then record loc { line = loc.line + 1; column = 1 }
    else record loc { column = loc.column + 1 }

unfoldable pub advance : Lexer → Lexer
unfolding move current
advance s = record s {
  current_location = move (current s) s.current_location;
  unread = tail_of s.unread;
}

-- `while (test(current())) advance();` on the bytes that are left. At the end `current()` is '\0',
-- which no test of the source accepts.
pub run_while : (ℕ → Bool) → Bytes → Lexer → Lexer
run_while test [] s = s
run_while test (c ∷ cs) s = if test c then run_while test cs (advance s) else s

unfoldable pub advance_while : (ℕ → Bool) → Lexer → Lexer
unfolding run_while advance
advance_while test s = run_while test s.unread s

-- `data.substr(start, index - start)`, from the state at `start`.
unfoldable pub slice : Lexer → Lexer → Bytes
slice start s = take (length start.unread - length s.unread) start.unread

abbrev pub token : TokenType → Bytes → SourceLocation → Token
token t v loc = record { type = t; value = v; source_location = loc }

abbrev pub raise {ℓ} : {A : Type ℓ} → SourceLocation → LexProblem → Result A
raise loc p = err (lexer_error loc p)

unfoldable pub consume : ℕ → Lexer → Result Lexer
unfolding current advance
consume expected s =
    if not (current s == expected)
    then raise s.token_location (expected_char expected (current s))
    else ok (advance s)

unfoldable pub parse_number : Lexer → Result (Token × Lexer)
unfolding advance_while current peek advance slice is_digit
parse_number s =
    let whole = advance_while is_digit s in
    let fraction = advance_while is_digit (advance whole) in
    if current whole == b'.' && is_digit (peek whole)
    then ok (token TokenType.float_literal (slice s fraction) s.token_location, fraction)
    else ok (token TokenType.int_literal (slice s whole) s.token_location, whole)

-- `while (current() != '"')`; `none` is the thrown error of an unterminated literal.
pub run_string : Bytes → Lexer → Option Lexer
run_string [] s = none
run_string (c ∷ cs) s =
    if c == b'"' then some s else if c == 0 then none else run_string cs (advance s)

string_end : SourceLocation → Lexer → Option Lexer → Result (Token × Lexer)
unfolding advance slice
string_end loc start none = raise loc unterminated_string
string_end loc start (some s) =
    let closed = advance s in ok (token TokenType.string_literal (slice start closed) loc, closed)

unfoldable pub parse_string_literal : Lexer → Result (Token × Lexer)
unfolding consume run_string string_end
parse_string_literal s = do
  start ← consume b'"' s
  string_end start.token_location start (run_string start.unread start)

unfoldable pub parse_identifier : Lexer → Result (Token × Lexer)
unfolding advance_while slice keywords find is_identifier_char
parse_identifier s =
    let stop = advance_while is_identifier_char s in
    let word = slice s stop in
    ok (token (get_or (find keywords word) TokenType.identifier) word s.token_location, stop)

symbol_token : SourceLocation → Bytes → Lexer → Option TokenType → Result (Token × Lexer)
symbol_token loc word stop none = raise loc (unknown_token word)
symbol_token loc word stop (some t) = ok (token t word loc, stop)

unfoldable pub parse_symbol : Lexer → Result (Token × Lexer)
unfolding current advance advance_while slice symbols find symbol_token is_symbol_char
parse_symbol s =
    let stop = advance_while is_symbol_char s in
    let word = slice s stop in
    if current s == b'('
    then ok (token TokenType.lparen (b'(' ∷ []) s.token_location, advance s)
    else if current s == b')'
    then ok (token TokenType.rparen (b')' ∷ []) s.token_location, advance s)
    else symbol_token s.token_location word stop (find symbols word)

abbrev pub is_end : Bytes → Bool
is_end [] = true
is_end (c ∷ cs) = c == 0

-- `next_token` from `token_location = current_location` on.
unfoldable pub start_token : Lexer → Result (Token × Lexer)
unfolding current advance parse_string_literal parse_symbol parse_number parse_identifier
start_token s =
    if current s == b'"'
    then parse_string_literal s
    else if is_symbol_char (current s)
    then parse_symbol s
    else if is_digit (current s)
    then parse_number s
    else if is_identifier_char (current s)
    then parse_identifier s
    else (let s' = advance (record s { current_location = s.token_location }) in
        ok (token TokenType.end_of_file [] s.token_location, s'))

unfoldable pub next_token : Lexer → Result (Token × Lexer)
unfolding advance_while is_space start_token
next_token s =
    let s' = advance_while is_space s in
    if is_end s'.unread
    then ok (token TokenType.end_of_file [] s'.token_location, s')
    else start_token (record s' { token_location = s'.current_location })

-- The loop of `tokenise`; `none` means that the fuel ran out.
collect :
    (Lexer → Option (Result (List Token))) → Result (Token × Lexer) → Option (Result (List Token))
collect more (ok (t, s)) = elim (type_eq t.type TokenType.end_of_file) [
  | true ↦ some (ok (t ∷ []))
  | false ↦ elim (more s) [ none ↦ none | some r ↦ some (r >>= λ ts. ok (t ∷ ts)) ]
]
collect more (err e) = some (err e)
collect more Result.undefined = some Result.undefined

pub tokenise_loop : ℕ → Lexer → Option (Result (List Token))
unfolding collect
tokenise_loop zero s = none
tokenise_loop (suc fuel) s = collect (tokenise_loop fuel) (next_token s)

-- `SourceLocation{}` and the constructor of `Lexer`.
abbrev pub initial_lexer : Bytes → Bytes → Lexer
initial_lexer name bytes = record {
  token_location = record { line = 1; column = 0; filename = [] };
  current_location = record { line = 1; column = 0; filename = name };
  unread = bytes;
}

-- Each round but the last reads at least a byte.
unfoldable pub tokenise : Bytes → Bytes → Option (Result (List Token))
unfolding tokenise_loop next_token
tokenise name bytes = tokenise_loop (length bytes + 1) (initial_lexer name bytes)
