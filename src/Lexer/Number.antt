-- ===== src/Lexer/Number.antt =====
-- Which texts `parse_number` (src/lexer.cxx) reads as one token.
use b2_lang.Prelude.{ℕ, ◌≡◌, ap, ◌∙◌, Bool, true, false, ◌&&◌, ◌∷◌, ◌++◌, ◌==◌, arith, Bytes}
use b2_lang.Token.{TokenType}
use b2_lang.Error.{ok}
use b2_lang.Lexer.{
  Lexer, token, head_or_nul, tail_of, current, peek, advance, advance_while, slice, parse_symbol,
  parse_number, parse_string_literal, start_token, next_token, is_digit, is_alnum, is_symbol_char,
  is_identifier_char,
}
use b2_lang.Lexer.Branches.{current-head}
use b2_lang.Lexer.Munch.{
  all, take_while-append, drop_while-append, next_token-start_token, identifier_char-space,
  identifier_char-nul, identifier_char-quote, if-false, if-true, starting,
}
use b2_lang.Lexer.Word.{take_while, drop_while, slice-advance_while, unread-advance_while}

digit-identifier_char : (c : ℕ) → is_digit c ≡ true → is_identifier_char c ≡ true
unfolding is_identifier_char is_alnum is_digit
digit-identifier_char c h = ground arith

digit-symbol_char : (c : ℕ) → is_digit c ≡ true → is_symbol_char c ≡ false
unfolding is_digit is_symbol_char
digit-symbol_char c h = ground arith

start_token-parse_number :
    (s : Lexer) {c : ℕ} {cs : Bytes}
    → s.unread ≡ c ∷ cs
    → is_digit c ≡ true
    → start_token s ≡ parse_number s
unfolding start_token
start_token-parse_number s {c} h digit =
    let head = current-head s h in
    let quote = identifier_char-quote c (digit-identifier_char c digit) in
    if-false (current s == b'"') (parse_string_literal s) _ (ap (λ x. x == b'"') head ∙ quote)
    ∙ if-false (is_symbol_char (current s)) (parse_symbol s) _
        (ap is_symbol_char head ∙ digit-symbol_char c digit)
    ∙ if-true (is_digit (current s)) (parse_number s) _ (ap is_digit head ∙ digit)

-- A point and a digit.
abbrev pub starts_fraction : Bytes → Bool
starts_fraction xs = head_or_nul xs == b'.' && is_digit (head_or_nul (tail_of xs))

parse_number_whole :
    (s : Lexer) (digits rest : Bytes)
    → s.unread ≡ digits ++ rest
    → all is_digit digits ≡ true
    → is_digit (head_or_nul rest) ≡ false
    → starts_fraction rest ≡ false
    → parse_number s
      ≡ ok (token TokenType.int_literal digits s.token_location, advance_while is_digit s)
unfolding parse_number current peek
parse_number_whole s digits rest h k end point =
    let whole = advance_while is_digit s in
    let fraction = advance_while is_digit (advance whole) in
    if-false (starts_fraction whole.unread)
      (ok (token TokenType.float_literal (slice s fraction) s.token_location, fraction)) _
      (ap starts_fraction (
          unread-advance_while is_digit s
          ∙ ap (drop_while is_digit) h
          ∙ drop_while-append is_digit digits rest k end)
        ∙ point)
    ∙ ap (λ w. ok (token TokenType.int_literal w s.token_location, whole))
        (slice-advance_while is_digit s
          ∙ ap (take_while is_digit) h
          ∙ take_while-append is_digit digits rest k end)

-- If the text that is left is a non-empty row of digits, followed by a text that starts neither
-- with a digit nor with a point and a digit, then `next_token` returns all the digits as one
-- `IntLiteral` at the current location and leaves the text behind them.
pub next_token_int :
    (s : Lexer) (c : ℕ) (cs rest : Bytes)
    → s.unread ≡ c ∷ cs ++ rest
    → all is_digit (c ∷ cs) ≡ true
    → is_digit (head_or_nul rest) ≡ false
    → starts_fraction rest ≡ false
    → (s' : Lexer) × (next_token s
        ≡ ok (token TokenType.int_literal (c ∷ cs) s.current_location, s'))
      × (s'.unread ≡ rest)
next_token_int s c cs rest h digits end point =
    let first : is_digit c ≡ true = ground arith in
    let letter = digit-identifier_char c first in
    let start = starting s in
    (
      advance_while is_digit start,
      next_token-start_token s h (identifier_char-space c letter) (identifier_char-nul c letter)
          ∙ start_token-parse_number start h first
          ∙ parse_number_whole start (c ∷ cs) rest h digits end point,
      unread-advance_while is_digit start
          ∙ ap (drop_while is_digit) h
          ∙ drop_while-append is_digit (c ∷ cs) rest digits end,
    )
