-- ===== src/Lexer/Branches.antt =====
-- The branches of `next_token` (src/lexer.cxx).
use b2_lang.Prelude.{◌≡◌, refl, Bool, true, false, [], ◌∷◌, if◌then◌else◌, ◌==◌, Bytes, ℕ}
use b2_lang.Token.{Token, TokenType}
use b2_lang.Error.{Result, ok, Post}
use b2_lang.Lexer.{
  Lexer, token, current, advance, consume, parse_number, parse_string_literal, parse_identifier,
  parse_symbol, start_token, is_digit, is_symbol_char, is_identifier_char,
}

pub Post-when {ℓ κ} :
    {A : Type ℓ} (P : A → Type κ) (b : Bool) (x y : Result A)
    → (b ≡ true → Post P x)
    → Post P y
    → Post P (if b then x else y)
Post-when P true x y h k = h refl
Post-when P false x y h k = k

pub current-head : (s : Lexer) {c : ℕ} {cs : Bytes} → s.unread ≡ c ∷ cs → current s ≡ c
unfolding current
current-head s h = rw h

pub consume-head :
    (s : Lexer) {c : ℕ} {cs : Bytes}
    → s.unread ≡ c ∷ cs
    → (c == b'"') ≡ true
    → consume b'"' s ≡ ok (advance s)
unfolding consume
consume-head s h d = rw (current-head s h, d)

-- `P` holds of a branch from every state whose first byte takes that branch.
abbrev pub Branch {ℓ} :
    (Lexer → Token × Lexer → Type ℓ) → (ℕ → Bool) → (Lexer → Result (Token × Lexer)) → Type ℓ
Branch P test branch =
    (s : Lexer) (c : ℕ) (cs : Bytes) → s.unread ≡ c ∷ cs → test c ≡ true → Post (P s) (branch s)

module _ {ℓ} (P : Lexer → Token × Lexer → Type ℓ)
    (quoted : Branch P (λ c. c == b'"') parse_string_literal)
    (symbol : Branch P is_symbol_char parse_symbol) (number : Branch P is_digit parse_number)
    (word : Branch P is_identifier_char parse_identifier)
    (last : (s end : Lexer) → P s (token TokenType.end_of_file [] s.token_location, end)) where
  abbrev from : Lexer → Bytes → Lexer
  from s xs = record s { unread = xs }

  start_token-cons-Post :
      (s : Lexer) (c : ℕ) (cs : Bytes) → Post (P (from s (c ∷ cs))) (start_token (from s (c ∷ cs)))
  unfolding start_token
  start_token-cons-Post s c cs =
      let s' = from s (c ∷ cs) in
      let end = advance (record s' { current_location = s'.token_location }) in
      let eof = ok (token TokenType.end_of_file [] s'.token_location, end) in
      let words = if is_identifier_char c then parse_identifier s' else eof in
      let numbers = if is_digit c then parse_number s' else words in
      let symbols = if is_symbol_char c then parse_symbol s' else numbers in
      let Q = P s' in
      Post-when Q (c == b'"') (parse_string_literal s') symbols (quoted s' c cs refl) (
        Post-when Q (is_symbol_char c) (parse_symbol s') numbers (symbol s' c cs refl) (
          Post-when Q (is_digit c) (parse_number s') words (number s' c cs refl) (
            Post-when Q (is_identifier_char c) (parse_identifier s') eof (word s' c cs refl)
              (last s' end))))

  pub start_token-Post : (s : Lexer) → Post (P s) (start_token s)
  unfolding start_token
  start_token-Post s = go s.unread
    where
      go : (xs : Bytes) → Post (P (from s xs)) (start_token (from s xs))
      go [] = last (from s []) _
      go (c ∷ cs) = start_token-cons-Post s c cs
