-- ===== src/Lexer/Munch.antt =====
-- Which texts `parse_identifier` (src/lexer.cxx) reads as one token.
use b2_lang.Prelude.{
  ℕ, ◌≡◌, refl, ap, ◌∙◌, Bool, true, false, ◌&&◌, [], ◌∷◌, ◌++◌, ◌==◌, arith, Bytes, if◌then◌else◌,
  get_or,
}
use b2_lang.Container.{find}
use b2_lang.Container.Lookup.{lookup}
use b2_lang.Container.Order.{bytes_order}
use b2_lang.Token.{Token, TokenType, keywords, keyword_entries}
use b2_lang.Token.Tables.{find-keywords}
use b2_lang.Error.{Result, ok}
use b2_lang.Lexer.{
  Lexer, token, head_or_nul, current, run_while, advance_while, parse_identifier, parse_symbol,
  parse_number, parse_string_literal, start_token, next_token, is_digit, is_alnum, is_symbol_char,
  is_identifier_char, is_space, is_end,
}
use b2_lang.Lexer.Branches.{current-head}
use b2_lang.Lexer.Word.{take_while, drop_while, slice-advance_while, unread-advance_while}

abbrev pub all : (ℕ → Bool) → Bytes → Bool
all test [] = true
all test (c ∷ cs) = test c && all test cs

pub take_while-append :
    (test : ℕ → Bool) (word rest : Bytes)
    → all test word ≡ true
    → test (head_or_nul rest) ≡ false
    → take_while test (word ++ rest) ≡ word
unfolding take_while
take_while-append test [] [] h k = refl
take_while-append test [] (c ∷ cs) h k = rw k
take_while-append test (c ∷ cs) rest h k =
    let head : test c ≡ true = ground arith in
    rw head (ap (◌∷◌ c) (take_while-append test cs rest (ground arith) k))

pub drop_while-append :
    (test : ℕ → Bool) (word rest : Bytes)
    → all test word ≡ true
    → test (head_or_nul rest) ≡ false
    → drop_while test (word ++ rest) ≡ rest
unfolding drop_while
drop_while-append test [] [] h k = refl
drop_while-append test [] (c ∷ cs) h k = rw k
drop_while-append test (c ∷ cs) rest h k =
    let head : test c ≡ true = ground arith in
    rw head (drop_while-append test cs rest (ground arith) k)

pub identifier_char-space : (c : ℕ) → is_identifier_char c ≡ true → is_space c ≡ false
unfolding is_identifier_char is_alnum is_digit is_space
identifier_char-space c h = ground arith

pub identifier_char-quote : (c : ℕ) → is_identifier_char c ≡ true → (c == b'"') ≡ false
unfolding is_identifier_char is_alnum is_digit
identifier_char-quote c h = ground arith

pub identifier_char-nul : (c : ℕ) → is_identifier_char c ≡ true → (c == 0) ≡ false
unfolding is_identifier_char is_alnum is_digit
identifier_char-nul c h = ground arith

pub if-false {ℓ} : {A : Type ℓ} (b : Bool) (x y : A) → b ≡ false → (if b then x else y) ≡ y
if-false true x y h = cc
if-false false x y h = refl

pub if-true {ℓ} : {A : Type ℓ} (b : Bool) (x y : A) → b ≡ true → (if b then x else y) ≡ x
if-true true x y h = refl
if-true false x y h = cc

run_while-none :
    (test : ℕ → Bool) (s : Lexer) (c : ℕ) (cs : Bytes)
    → test c ≡ false
    → run_while test (c ∷ cs) s ≡ s
unfolding run_while
run_while-none test s c cs t = rw t

advance_while-none :
    (test : ℕ → Bool) (s : Lexer) {c : ℕ} {cs : Bytes}
    → s.unread ≡ c ∷ cs
    → test c ≡ false
    → advance_while test s ≡ s
unfolding advance_while
advance_while-none test s {c} {cs} h t =
    ap (λ xs. run_while test xs s) h ∙ run_while-none test s c cs t

-- The state in which a token starts.
abbrev pub starting : Lexer → Lexer
starting s = record s { token_location = s.current_location }

pub next_token-start_token :
    (s : Lexer) {c : ℕ} {cs : Bytes}
    → s.unread ≡ c ∷ cs
    → is_space c ≡ false
    → (c == 0) ≡ false
    → next_token s ≡ start_token (starting s)
unfolding next_token
next_token-start_token s h space nul =
    ap after (advance_while-none is_space s h space)
    ∙ if-false (is_end s.unread) (end s) (start_token (starting s)) (ap is_end h ∙ nul)
  where
    end : Lexer → Result (Token × Lexer)
    end s' = ok (token TokenType.end_of_file [] s'.token_location, s')

    after : Lexer → Result (Token × Lexer)
    after s' = if is_end s'.unread then end s' else start_token (starting s')

start_token-parse_identifier :
    (s : Lexer) {c : ℕ} {cs : Bytes}
    → s.unread ≡ c ∷ cs
    → (c == b'"') ≡ false
    → is_symbol_char c ≡ false
    → is_digit c ≡ false
    → is_identifier_char c ≡ true
    → start_token s ≡ parse_identifier s
unfolding start_token
start_token-parse_identifier s {c} h quote symbol digit word =
    let head = current-head s h in
    if-false (current s == b'"') (parse_string_literal s) _ (ap (λ x. x == b'"') head ∙ quote)
    ∙ if-false (is_symbol_char (current s)) (parse_symbol s) _ (ap is_symbol_char head ∙ symbol)
    ∙ if-false (is_digit (current s)) (parse_number s) _ (ap is_digit head ∙ digit)
    ∙ if-true (is_identifier_char (current s)) (parse_identifier s) _
        (ap is_identifier_char head ∙ word)

-- The kind of a word: that of the keyword, if it is one.
abbrev pub word_type : Bytes → TokenType
word_type word = get_or (lookup keyword_entries word) TokenType.identifier

parse_identifier_word :
    (s : Lexer) (word rest : Bytes)
    → s.unread ≡ word ++ rest
    → all is_identifier_char word ≡ true
    → is_identifier_char (head_or_nul rest) ≡ false
    → parse_identifier s
      ≡ ok (token (word_type word) word s.token_location, advance_while is_identifier_char s)
unfolding parse_identifier
parse_identifier_word s word rest h k end =
    ap (λ w. read w (get_or (find ⦃o = bytes_order⦄ keywords w) TokenType.identifier))
      (slice-advance_while is_identifier_char s
        ∙ ap (take_while is_identifier_char) h
        ∙ take_while-append is_identifier_char word rest k end)
    ∙ ap (λ t. read word (get_or t TokenType.identifier)) (find-keywords word)
  where
    read : Bytes → TokenType → Result (Token × Lexer)
    read w t = ok (token t w s.token_location, advance_while is_identifier_char s)

-- If the text that is left is a non-empty word of identifier characters whose first is neither a
-- symbol character nor a digit, followed by a text that does not start with an identifier
-- character, then `next_token` returns the whole word as one token at the current location, of the
-- kind that the keyword table has for the word or else `Identifier`, and leaves the text behind the
-- word.
pub next_token_word :
    (s : Lexer) (c : ℕ) (cs rest : Bytes)
    → s.unread ≡ c ∷ cs ++ rest
    → all is_identifier_char (c ∷ cs) ≡ true
    → is_symbol_char c ≡ false
    → is_digit c ≡ false
    → is_identifier_char (head_or_nul rest) ≡ false
    → (s' : Lexer) × (next_token s
        ≡ ok (token (word_type (c ∷ cs)) (c ∷ cs) s.current_location, s'))
      × (s'.unread ≡ rest)
next_token_word s c cs rest h word symbol digit end =
    let first : is_identifier_char c ≡ true = ground arith in
    let start = starting s in
    (
      advance_while is_identifier_char start,
      next_token-start_token s h (identifier_char-space c first) (identifier_char-nul c first)
          ∙ start_token-parse_identifier start h (identifier_char-quote c first) symbol digit first
          ∙ parse_identifier_word start (c ∷ cs) rest h word end,
      unread-advance_while is_identifier_char start
          ∙ ap (drop_while is_identifier_char) h
          ∙ drop_while-append is_identifier_char (c ∷ cs) rest word end,
    )
