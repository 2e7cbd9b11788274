-- ===== src/Parser/Safe.antt =====
-- Steps of the parser (src/parser.cxx) that neither run out of fuel nor read where no token is, on
-- tokens that end in their only `EndOfFile`.
use b2_lang.Prelude.{
  ℕ, ◌+◌, ◌-◌, ◌≤◌, ◌<◌, ◌≡◌, refl, sym, ap, subst, ◌∙◌, ◌⊎◌, inl, inr, Bool, true, false, Option,
  none, some, List, arith, length, if◌then◌else◌, Bool-cases, not,
}
use b2_lang.Token.{Token, TokenType, type_eq, token_type_order}
use b2_lang.Error
use b2_lang.Error.{Error, Result, ok, err, undefined, parse_error, expected_token}
use b2_lang.Lexer.Progress.{ends_once}
use b2_lang.Parser
use b2_lang.Parser.{Parser}
use b2_lang.Parser.Cursor.{peek-ends_once}
use b2_lang.Parser.Run.{Run, Outcome, follow, ◌>>=◌, pure, throw, peek, advance, consume}

-- Tokens from the index on.
abbrev pub left : Parser → ℕ
left p = length p.tokens - p.index

module _ (ts : List Token) where
  -- The step ends, in an error or with fewer than `n` tokens left.
  unfoldable pub Safe {ℓ} : {A : Type ℓ} → ℕ → Outcome A → Type 0
  Safe n none = ⊥
  Safe n (some (ok (a, p))) = (p.tokens ≡ ts) × (left p < n)
  Safe n (some (err e)) = Unit
  Safe n (some undefined) = ⊥

  pub Safe-pure {ℓ} :
      {A : Type ℓ} (n : ℕ) (a : A) (p : Parser) → p.tokens ≡ ts → left p < n → Safe n (pure a p)
  unfolding Safe
  Safe-pure n a p h l = (h, l)

  pub Safe-throw {ℓ} : (A : Type ℓ) (n : ℕ) (e : Error) (p : Parser) → Safe n (throw {A = A} e p)
  unfolding Safe
  Safe-throw A n e p = tt

  pub Safe-follow {ℓ κ} :
      {A : Type ℓ} {B : Type κ} (n k : ℕ) (r : Outcome A) (next : A → Run B)
      → Safe n r
      → ((a : A) (p : Parser) → p.tokens ≡ ts → left p < n → Safe k (next a p))
      → Safe k (follow r next)
  unfolding Safe
  Safe-follow n k none next h f = absurd h
  Safe-follow n k (some (ok (a, p))) next h f = f a p h.0 h.1
  Safe-follow n k (some (err e)) next h f = tt
  Safe-follow n k (some undefined) next h f = absurd h

  pub Safe-weaken {ℓ} : {A : Type ℓ} (n k : ℕ) (r : Outcome A) → Safe n r → n ≤ k → Safe k r
  unfolding Safe
  Safe-weaken n k none h l = h
  Safe-weaken n k (some (ok (a, p))) h l = (h.0, omega (arith, h.1))
  Safe-weaken n k (some (err e)) h l = tt
  Safe-weaken n k (some undefined) h l = h

  pub Safe-if {ℓ} :
      {A : Type ℓ} (n : ℕ) (b : Bool) (m k : Run A) (p : Parser)
      → (b ≡ true → Safe n (m p))
      → (b ≡ false → Safe n (k p))
      → Safe n ((if b then m else k) p)
  Safe-if n true m k p h i = h refl
  Safe-if n false m k p h i = i refl

  pub Safe-elim {ℓ} :
      {A : Type ℓ} (n : ℕ) (b : Bool) (m k : Run A) (p : Parser)
      → (b ≡ true → Safe n (m p))
      → (b ≡ false → Safe n (k p))
      → Safe n ((elim b as (λ x. Run A) [ true ↦ m | false ↦ k ]) p)
  Safe-elim n true m k p h i = h refl
  Safe-elim n false m k p h i = i refl

  -- The token at a place: it is `EndOfFile`, or there are others behind it.
  abbrev pub Here : Parser → Token → Type 0
  Here p t = (type_eq t.type TokenType.end_of_file ≡ true) ⊎ (1 < left p)

  module _ (ends : ends_once ts ≡ true) where
    peek-Here : (p : Parser) → p.tokens ≡ ts → (t : Token) × (Parser.peek p ≡ ok t) × Here p t
    peek-Here p h =
        let found = peek-ends_once p.tokens p.index (rw h ends) in
        (found.0, found.1, behind found.0 found.2)
      where
        behind :
            (t : Token)
            → (length p.tokens ≤ p.index + 1 → type_eq t.type TokenType.end_of_file ≡ true)
            → Here p t
        behind t k = elim (Bool-cases (b2_lang.Prelude.leb (length p.tokens) (p.index + 1))) [
          | inl e ↦ inl (k (ground arith))
          | inr e ↦ inr (ground arith)
        ]

    pub Safe-peek {ℓ} :
        {A : Type ℓ} (n : ℕ) (p : Parser) (next : Token → Run A)
        → p.tokens ≡ ts
        → ((t : Token) → Here p t → Safe n (next t p))
        → Safe n ((peek >>= next) p)
    unfolding peek
    Safe-peek n p next h f = let found = peek-Here p h in rw found.1 (f found.0 found.2)

    pub left-advance : (p : Parser) → 0 < left p → left (Parser.advance p) < left p
    unfolding Parser.advance
    left-advance p l = omega arith

    pub left-advance-le : (p : Parser) → left (Parser.advance p) ≤ left p
    unfolding Parser.advance
    left-advance-le p = omega arith

    pub Safe-advance {ℓ} :
        {A : Type ℓ} (n : ℕ) (p : Parser) (next : Unit {0} → Run A)
        → p.tokens ≡ ts
        → ((q : Parser)
            → q.tokens ≡ ts
            → left q ≤ left p
            → (0 < left p → left q < left p)
            → Safe n (next tt q))
        → Safe n ((advance >>= next) p)
    unfolding advance Parser.advance
    Safe-advance n p next h f = f (Parser.advance p) h (left-advance-le p) (left-advance p)

    -- `consume` of any token but `EndOfFile` leaves fewer tokens.
    pub Safe-consume {ℓ} :
        {A : Type ℓ} (n : ℕ) (expected : TokenType) (p : Parser) (next : Token → Run A)
        → p.tokens ≡ ts
        → type_eq expected TokenType.end_of_file ≡ false
        → ((t : Token) (q : Parser) → q.tokens ≡ ts → left q < left p → Safe n (next t q))
        → Safe n ((consume expected >>= next) p)
    unfolding consume Parser.consume Parser.advance Safe
    Safe-consume n expected p next h e f =
        let found = peek-Here p h in
        subst (λ r. Safe n (follow (some (Error.◌>>=◌ r take)) next)) (sym found.1)
          (taken found.0 found.2 (type_eq found.0.type expected) refl)
      where
        chosen : Bool → Token → Result (Token × Parser)
        chosen same t =
            if not same
            then err (parse_error t.source_location (expected_token expected t.type))
            else ok (t, Parser.advance p)

        take : Token → Result (Token × Parser)
        take t = chosen (type_eq t.type expected) t

        behind : (t : Token) → Here p t → type_eq t.type expected ≡ true → 1 < left p
        behind t (inr l) same = l
        behind t (inl last) same =
            cc (rw (token_type_order.eq→path t.type expected same) at last, e)

        taken :
            (t : Token)
            → Here p t
            → (b : Bool) → type_eq t.type expected ≡ b
            → Safe n (follow (some (chosen b t)) next)
        taken t here true same =
            f t (Parser.advance p) h (left-advance p (omega (arith, behind t here same)))
        taken t here false same = tt
