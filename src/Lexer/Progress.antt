-- ===== src/Lexer/Progress.antt =====
-- How much of the text a token of src/lexer.cxx reads, and where `tokenise` ends.
use b2_lang.Prelude.{
  ℕ, zero, suc, ◌+◌, ◌≤◌, ◌<◌, ◌≡◌, refl, sym, subst, ap, ◌∙◌, ◌⊎◌, inl, inr, Bool, true, false,
  ◌&&◌, Option, none, some, List, [], ◌∷◌, if◌then◌else◌, ◌==◌, arith, Bytes, Bool-cases, length,
}
use b2_lang.Token.{Token, TokenType, type_eq, SourceLocation}
use b2_lang.Error.{Result, ok, err, ◌>>=◌, Post, Post-bind, Post-weaken}
use b2_lang.Lexer.{
  Lexer, current, peek, advance, run_while, advance_while, slice, consume, parse_number, run_string,
  string_end, parse_string_literal, parse_identifier, symbol_token, parse_symbol, start_token,
  next_token, collect, tokenise_loop, tokenise, initial_lexer, is_digit, is_symbol_char,
  is_identifier_char, is_space, is_end,
}
use b2_lang.Lexer.Branches.{Branch, Post-when, current-head, consume-head, start_token-Post}
use b2_lang.Lexer.Word.{take_while, unread-advance_while, length-drop_while}

-- Bytes that are left.
abbrev left : Lexer → ℕ
left s = length s.unread

advance-le : (s : Lexer) → left (advance s) ≤ left s
unfolding advance
advance-le s = go s.unread
  where
    go : (xs : Bytes) → length (b2_lang.Lexer.tail_of xs) ≤ length xs
    go [] = omega arith
    go (c ∷ cs) = omega arith

advance-lt : (s : Lexer) {c : ℕ} {cs : Bytes} → s.unread ≡ c ∷ cs → left (advance s) < left s
unfolding advance
advance-lt s h = rw h (omega arith)

advance_while-le : (test : ℕ → Bool) (s : Lexer) → left (advance_while test s) ≤ left s
advance_while-le test s =
    rw (unread-advance_while test s) (omega (arith, length-drop_while test s.unread))

length-take_while_pos :
    (test : ℕ → Bool) (c : ℕ) (cs : Bytes) → test c ≡ true → 0 < length (take_while test (c ∷ cs))
unfolding take_while
length-take_while_pos test c cs h = rw h (omega arith)

advance_while-lt :
    (test : ℕ → Bool) (s : Lexer) {c : ℕ} {cs : Bytes}
    → s.unread ≡ c ∷ cs
    → test c ≡ true
    → left (advance_while test s) < left s
advance_while-lt test s {c} {cs} h t =
    rw (unread-advance_while test s, h)
      (omega (arith, length-drop_while test (c ∷ cs), length-take_while_pos test c cs t))

-- A token was read from at least one byte, or it is the last.
abbrev Reads : Lexer → Token × Lexer → Type 0
Reads s r = (type_eq r.0.type TokenType.end_of_file ≡ true) ⊎ (left r.1 < left s)

module _ (s : Lexer) {c : ℕ} {cs : Bytes} (h : s.unread ≡ c ∷ cs) where
  number-Reads : is_digit c ≡ true → Post (Reads s) (parse_number s)
  unfolding parse_number
  number-Reads d =
      let whole = advance_while is_digit s in
      elim (Bool-cases (current whole == b'.' && is_digit (peek whole))) [
        | inl e ↦ rw e (
            inr (
              omega (
                arith,
                advance_while-lt is_digit s h d,
                advance-le whole,
                advance_while-le is_digit (advance whole),
              )))
        | inr e ↦ rw e (inr (advance_while-lt is_digit s h d))
      ]

  identifier-Reads : is_identifier_char c ≡ true → Post (Reads s) (parse_identifier s)
  unfolding parse_identifier
  identifier-Reads d = inr (advance_while-lt is_identifier_char s h d)

  symbol_token-Reads :
      (loc : SourceLocation) (word : Bytes) (t : Option TokenType)
      → is_symbol_char c ≡ true
      → Post (Reads s) (symbol_token loc word (advance_while is_symbol_char s) t)
  unfolding symbol_token
  symbol_token-Reads loc word none d = tt
  symbol_token-Reads loc word (some t) d = inr (advance_while-lt is_symbol_char s h d)

  symbol-Reads : is_symbol_char c ≡ true → Post (Reads s) (parse_symbol s)
  unfolding parse_symbol
  symbol-Reads d = elim (Bool-cases (c == b'(')) [
    | inl e ↦ rw (current-head s h, e) (inr (advance-lt s h))
    | inr e ↦ elim (Bool-cases (c == b')')) [
      | inl e' ↦ rw (current-head s h, e, e') (inr (advance-lt s h))
      | inr e' ↦ rw (current-head s h, e, e') (symbol_token-Reads _ _ _ d)
    ]
  ]

-- A loop that finds the closing quote leaves at most `n` bytes.
abbrev AtMost : ℕ → Option Lexer → Type 0
AtMost n none = Unit
AtMost n (some s) = left s ≤ n

run_string-AtMost : (xs : Bytes) (s : Lexer) (n : ℕ) → left s ≤ n → AtMost n (run_string xs s)
unfolding run_string
run_string-AtMost [] s n h = tt
run_string-AtMost (c ∷ cs) s n h = elim (Bool-cases (c == b'"')) [
  | inl e ↦ rw e h
  | inr e ↦ elim (Bool-cases (c == 0)) [
    | inl z ↦ rw (e, z) tt
    | inr z ↦ rw (e, z) (run_string-AtMost cs (advance s) n (omega (arith, advance-le s)))
  ]
]

string_end-Reads :
    (s start : Lexer) (loc : SourceLocation) (r : Option Lexer) (n : ℕ)
    → AtMost n r
    → n < left s
    → Post (Reads s) (string_end loc start r)
unfolding string_end
string_end-Reads s start loc none n h lt = tt
string_end-Reads s start loc (some s') n h lt = inr (omega (arith, advance-le s'))

string-Reads : Branch Reads (λ c. c == b'"') parse_string_literal
unfolding parse_string_literal
string-Reads s c cs h d =
    let start = advance s in
    rw (consume-head s h d) (
      string_end-Reads s start start.token_location (run_string start.unread start) (left start)
        (run_string-AtMost start.unread start (left start) (omega arith)) (advance-lt s h))

start_token-Reads : (s : Lexer) → Post (Reads s) (start_token s)
start_token-Reads =
    start_token-Post Reads string-Reads (λ s c cs h. symbol-Reads s h)
      (λ s c cs h. number-Reads s h) (λ s c cs h. identifier-Reads s h) (λ s end. inl refl)

next_token-Reads : (s : Lexer) → Post (Reads s) (next_token s)
unfolding next_token
next_token-Reads s =
    let s' = advance_while is_space s in
    let start = record s' { token_location = s'.current_location } in
    let end = ok (b2_lang.Lexer.token TokenType.end_of_file [] s'.token_location, s') in
    Post-when (Reads s) (is_end s'.unread) end (start_token start) (λ e. inl refl)
      (Post-weaken (Reads start) (Reads s) (start_token start) closer (start_token-Reads start))
  where
    closer : (r : Token × Lexer) → Reads (advance_while is_space s) r → Reads s r
    closer r (inl e) = inl e
    closer r (inr lt) = inr (omega (arith, lt, advance_while-le is_space s))

-- The list ends in its only `EndOfFile`.
abbrev pub ends_once : List Token → Bool
ends_once [] = false
ends_once (t ∷ ts) =
    let rest = ends_once ts in if type_eq t.type TokenType.end_of_file then length ts == 0 else rest

abbrev Answers : Option (Result (List Token)) → Type 0
Answers o = (r : Result (List Token)) × (o ≡ some r) × Post (λ ts. ends_once ts ≡ true) r

collect-last :
    (more : Lexer → Option (Result (List Token))) (t : Token) (s : Lexer)
    → type_eq t.type TokenType.end_of_file ≡ true
    → collect more (ok (t, s)) ≡ some (ok (t ∷ []))
unfolding collect
collect-last more t s e =
    ap
      (λ (b : Bool). elim b as (λ x. Option (Result (List Token))) [
        | true ↦ some (ok (t ∷ []))
        | false ↦ elim (more s) [ none ↦ none | some r ↦ some (r >>= λ ts. ok (t ∷ ts)) ]
      ])
      e

collect-more :
    (more : Lexer → Option (Result (List Token))) (t : Token) (s : Lexer) (r : Result (List Token))
    → type_eq t.type TokenType.end_of_file ≡ false
    → more s ≡ some r
    → collect more (ok (t, s)) ≡ some (r >>= λ ts. ok (t ∷ ts))
unfolding collect
collect-more more t s r e h =
    let cons = λ (r : Result (List Token)). r >>= λ ts. ok (t ∷ ts) in
    let rest = λ (o : Option (Result (List Token))). elim o as (λ x. Option (Result (List Token))) [
      | none ↦ none
      | some r ↦ some (cons r)
    ] in
    ap
      (λ (b : Bool). elim b as (λ x. Option (Result (List Token))) [
        | true ↦ some (ok (t ∷ []))
        | false ↦ rest (more s)
      ])
      e
    ∙ ap rest h

collect-Answers :
    (more : Lexer → Option (Result (List Token))) (r : Result (Token × Lexer)) (n : ℕ)
    → ((s : Lexer) → left s < n → Answers (more s))
    → Post (λ p. (type_eq p.0.type TokenType.end_of_file ≡ true) ⊎ (left p.1 < n)) r
    → Answers (collect more r)
unfolding collect
collect-Answers more (ok (t, s)) n h k = go (type_eq t.type TokenType.end_of_file) refl k
  where
    go :
        (b : Bool)
        → type_eq t.type TokenType.end_of_file ≡ b
        → (b ≡ true) ⊎ (left s < n)
        → Answers (collect more (ok (t, s)))
    go true e k = (ok (t ∷ []), collect-last more t s e, ap (λ b. if b then true else false) e)
    go false e (inl k) = cc
    go false e (inr k) =
        let a = h s k in
        subst Answers (sym (collect-more more t s a.0 e a.1))
          (a.0 >>= (λ ts. ok (t ∷ ts)), refl, Post-bind _ _ a.0 _ a.2 λ ts once. rw e once)
collect-Answers more (err e) n h k = (err e, refl, tt)
collect-Answers more Result.undefined n h k = (Result.undefined, refl, tt)

tokenise_loop-Answers : (fuel : ℕ) (s : Lexer) → left s < fuel → Answers (tokenise_loop fuel s)
unfolding tokenise_loop
tokenise_loop-Answers zero s h = absurd (omega (arith, h))
tokenise_loop-Answers (suc fuel) s h =
    collect-Answers (tokenise_loop fuel) (next_token s) (left s)
      (λ s' lt. tokenise_loop-Answers fuel s' (omega arith)) (next_token-Reads s)

-- For every file name and every text the fuel of `tokenise` is enough: it answers, and where the
-- answer is a list of tokens, the list has exactly one `EndOfFile`, its last token.
pub tokenise_total :
    (name bytes : Bytes)
    → (r : Result (List Token)) × (tokenise name bytes ≡ some r)
      × Post (λ ts. ends_once ts ≡ true) r
unfolding tokenise
tokenise_total name bytes =
    tokenise_loop-Answers (length bytes + 1) (initial_lexer name bytes) (omega arith)
