-- ===== src/Lexer/Lexeme.antt =====
-- Where in the text (src/lexer.cxx) the value of a token stands.
use b2_lang.Prelude.{
  ℕ, ◌-◌, ◌≡◌, refl, sym, ap, ◌∙◌, ◌⊎◌, inl, inr, Bool, true, false, ◌&&◌, Option, none, some, [],
  ◌∷◌, ◌++◌, append_assoc, ◌==◌, arith, Bytes, ==_iff, Bool-cases, length, length-append, take,
  subst,
}
use b2_lang.Container.{find}
use b2_lang.Container.Order.{bytes_order}
use b2_lang.Lexer.Word.{drop_while, unread-advance_while}
use b2_lang.Token.{Token, TokenType, type_eq, SourceLocation, symbols}
use b2_lang.Error.{ok, Post}
use b2_lang.Lexer.{
  Lexer, tail_of, token, current, peek, advance, run_while, advance_while, slice, parse_number,
  run_string, string_end, parse_string_literal, parse_identifier, symbol_token, parse_symbol,
  start_token, next_token, is_digit, is_symbol_char, is_identifier_char, is_space, is_end,
}
use b2_lang.Lexer.Branches.{Branch, Post-when, current-head, consume-head, start_token-Post}

-- The second state is behind the first by the bytes.
abbrev Behind : Lexer → Lexer → Type 0
Behind s s' = (read : Bytes) × (s.unread ≡ read ++ s'.unread)

Behind-refl : (s : Lexer) → Behind s s
Behind-refl s = ([], refl)

Behind-trans : (s t u : Lexer) → Behind s t → Behind t u → Behind s u
Behind-trans s t u (p, h) (q, k) = (p ++ q, rw (h, k, append_assoc p q u.unread))

advance-Behind : (s : Lexer) → Behind s (advance s)
unfolding advance
advance-Behind s = go s.unread
  where
    go : (xs : Bytes) → (read : Bytes) × (xs ≡ read ++ tail_of xs)
    go [] = ([], refl)
    go (c ∷ cs) = (c ∷ [], refl)

run_while-Behind :
    (test : ℕ → Bool) (xs : Bytes) (s : Lexer) → s.unread ≡ xs → Behind s (run_while test xs s)
unfolding run_while advance
run_while-Behind test [] s h = Behind-refl s
run_while-Behind test (c ∷ cs) s h = elim (Bool-cases (test c)) [
  | inl e ↦ rw e (
      Behind-trans s (advance s) (run_while test cs (advance s)) (advance-Behind s)
        (run_while-Behind test cs (advance s) (ap tail_of h)))
  | inr e ↦ rw e (Behind-refl s)
]

advance_while-Behind : (test : ℕ → Bool) (s : Lexer) → Behind s (advance_while test s)
unfolding advance_while
advance_while-Behind test s = run_while-Behind test s.unread s refl

take-append : (p q : Bytes) → take (length p) (p ++ q) ≡ p
take-append [] q = refl
take-append (c ∷ p) q = ap (◌∷◌ c) (take-append p q)

-- What was read is what `slice` cuts out.
slice-Behind : (s s' : Lexer) → Behind s s' → s.unread ≡ slice s s' ++ s'.unread
unfolding slice
slice-Behind s s' (read, h) = h ∙ ap (λ xs. xs ++ s'.unread) (sym cut)
  where
    count : length s.unread - length s'.unread ≡ length read
    count = rw (h) (omega (arith, length-append read s'.unread))

    cut : take (length s.unread - length s'.unread) s.unread ≡ read
    cut = rw (count, h) (take-append read s'.unread)

-- The token is `EndOfFile`, or the text is the token's value and what is left; before the value of a
-- string literal stands its opening quote.
abbrev pub Lexeme : Lexer → Token × Lexer → Type 0
Lexeme s (t, s') =
    (t.type ≡ TokenType.end_of_file)
    ⊎ (s.unread ≡ t.value ++ s'.unread)
    ⊎ ((t.type ≡ TokenType.string_literal) × (s.unread ≡ b'"' ∷ t.value ++ s'.unread))

number-Lexeme : (s : Lexer) → Post (Lexeme s) (parse_number s)
unfolding parse_number
number-Lexeme s =
    let whole = advance_while is_digit s in
    let fraction = advance_while is_digit (advance whole) in
    let read_whole = advance_while-Behind is_digit s in
    elim (Bool-cases (current whole == b'.' && is_digit (peek whole))) [
      | inl e ↦ rw e (
          inr (
            inl (
              slice-Behind s fraction (
                Behind-trans s whole fraction read_whole (
                  Behind-trans whole (advance whole) fraction (advance-Behind whole)
                    (advance_while-Behind is_digit (advance whole)))))))
      | inr e ↦ rw e (inr (inl (slice-Behind s whole read_whole)))
    ]

identifier-Lexeme : (s : Lexer) → Post (Lexeme s) (parse_identifier s)
unfolding parse_identifier
identifier-Lexeme s =
    let stop = advance_while is_identifier_char s in
    inr (inl (slice-Behind s stop (advance_while-Behind is_identifier_char s)))

symbol_token-Lexeme :
    (s : Lexer) (loc : SourceLocation) (t : Option TokenType)
    → let stop = advance_while is_symbol_char s in
      Post (Lexeme s) (symbol_token loc (slice s stop) stop t)
unfolding symbol_token
symbol_token-Lexeme s loc none = tt
symbol_token-Lexeme s loc (some t) =
    let stop = advance_while is_symbol_char s in
    inr (inl (slice-Behind s stop (advance_while-Behind is_symbol_char s)))

byte-unread :
    (s : Lexer) (c d : ℕ) (cs : Bytes)
    → s.unread ≡ c ∷ cs
    → (c == d) ≡ true
    → s.unread ≡ d ∷ (advance s).unread
unfolding advance
byte-unread s c d cs h e = rw h (ap (λ x. x ∷ cs) ((==_iff c d).0 e))

symbol-Lexeme : Branch Lexeme is_symbol_char parse_symbol
unfolding parse_symbol
symbol-Lexeme s c cs h d =
    let stop = advance_while is_symbol_char s in
    let word = slice s stop in
    elim (Bool-cases (c == b'(')) [
      | inl e ↦ rw (current-head s h, e) (inr (inl (byte-unread s c b'(' cs h e)))
      | inr e ↦ elim (Bool-cases (c == b')')) [
        | inl e' ↦ rw (current-head s h, e, e') (inr (inl (byte-unread s c b')' cs h e')))
        | inr e' ↦
            rw (current-head s h, e, e')
              (symbol_token-Lexeme s s.token_location (find ⦃o = bytes_order⦄ symbols word))
      ]
    ]

-- A loop that finds the closing quote ends behind the state.
abbrev Ends : Lexer → Option Lexer → Type 0
Ends s none = Unit
Ends s (some s') = Behind s s'

run_string-Ends : (xs : Bytes) (start s : Lexer) → Behind start s → Ends start (run_string xs s)
unfolding run_string
run_string-Ends [] start s h = tt
run_string-Ends (c ∷ cs) start s h = elim (Bool-cases (c == b'"')) [
  | inl e ↦ rw e h
  | inr e ↦ elim (Bool-cases (c == 0)) [
    | inl z ↦ rw (e, z) tt
    | inr z ↦
        rw (e, z)
          (run_string-Ends cs start (advance s)
            (Behind-trans start s (advance s) h (advance-Behind s)))
  ]
]

string_end-Lexeme :
    (s start : Lexer) (loc : SourceLocation) (r : Option Lexer)
    → s.unread ≡ b'"' ∷ start.unread
    → Ends start r
    → Post (Lexeme s) (string_end loc start r)
unfolding string_end
string_end-Lexeme s start loc none h k = tt
string_end-Lexeme s start loc (some s') h k =
    let closed = advance s' in
    inr (
      inr (
        refl,
        h
            ∙ ap (λ xs. b'"' ∷ xs)
                (slice-Behind start closed (Behind-trans start s' closed k (advance-Behind s'))),
      ))

string-Lexeme : Branch Lexeme (λ c. c == b'"') parse_string_literal
unfolding parse_string_literal
string-Lexeme s c cs h d =
    let start = advance s in
    rw (consume-head s h d) (
      string_end-Lexeme s start start.token_location (run_string start.unread start)
        (byte-unread s c b'"' cs h d)
        (run_string-Ends start.unread start start (Behind-refl start)))

start_token-Lexeme : (s : Lexer) → Post (Lexeme s) (start_token s)
start_token-Lexeme =
    start_token-Post Lexeme string-Lexeme symbol-Lexeme (λ s c cs h d. number-Lexeme s)
      (λ s c cs h d. identifier-Lexeme s) (λ s end. inl refl)

next_token-Lexeme : (s : Lexer) → Post (Lexeme (advance_while is_space s)) (next_token s)
unfolding next_token
next_token-Lexeme s =
    let s' = advance_while is_space s in
    let start = record s' { token_location = s'.current_location } in
    Post-when (Lexeme s') (is_end s'.unread)
      (ok (token TokenType.end_of_file [] s'.token_location, s')) (start_token start)
      (λ e. inl refl) (start_token-Lexeme start)

-- If `next_token` returns a token that is not `EndOfFile`, then the text that is left, without the
-- white space at its start, is the value of the token followed by the text that the lexer leaves;
-- for a string literal it may have the opening quote before them. So the lexer neither skips nor
-- repeats a byte between two tokens.
pub next_token_value :
    (s s' : Lexer) (t : Token)
    → next_token s ≡ ok (t, s')
    → type_eq t.type TokenType.end_of_file ≡ false
    → (drop_while is_space s.unread ≡ t.value ++ s'.unread)
      ⊎ ((t.type ≡ TokenType.string_literal)
          × (drop_while is_space s.unread ≡ b'"' ∷ t.value ++ s'.unread))
next_token_value s s' t h n =
    elim (subst (Post (Lexeme (advance_while is_space s))) h (next_token-Lexeme s)) [
      | inl e ↦ cc (rw e at n)
      | inr (inl e) ↦ inl (sym (unread-advance_while is_space s) ∙ e)
      | inr (inr (k, e)) ↦ inr (k, sym (unread-advance_while is_space s) ∙ e)
    ]
