-- ===== src/Parser/Grammar/Place.antt =====
-- The parser (src/parser.cxx) before a known list of tokens.
use b2_lang.Prelude.{
  ℕ, zero, suc, ◌+◌, ◌≡◌, refl, true, ap, subst, none, some, List, [], ◌∷◌, get_elem?, arith,
}
use b2_lang.Token.{Token, TokenType, type_eq}
use b2_lang.Error.{Result, ok}
use b2_lang.Parser
use b2_lang.Parser.{Parser}
use b2_lang.Parser.Run.{Run, ◌>>=◌, peek, advance, consume}

tail_from : ℕ → List Token → List Token
tail_from zero ts = ts
tail_from (suc i) [] = []
tail_from (suc i) (t ∷ ts) = tail_from i ts

-- The tokens from the index on.
pub At : Parser → List Token → Type 0
unfolding tail_from
At p ts = tail_from p.index p.tokens ≡ ts

tail_from-get_elem? :
    (i : ℕ) (ts : List Token) (t : Token) (rest : List Token)
    → tail_from i ts ≡ t ∷ rest
    → get_elem? ts i ≡ some t
unfolding tail_from
tail_from-get_elem? zero [] t rest h = cc
tail_from-get_elem? zero (u ∷ ts) t rest h = cc
tail_from-get_elem? (suc i) [] t rest h = cc
tail_from-get_elem? (suc i) (u ∷ ts) t rest h = tail_from-get_elem? i ts t rest h

tail_from-suc :
    (i : ℕ) (ts : List Token) (t : Token) (rest : List Token)
    → tail_from i ts ≡ t ∷ rest
    → tail_from (suc i) ts ≡ rest
unfolding tail_from
tail_from-suc zero [] t rest h = cc
tail_from-suc zero (u ∷ ts) t rest h = cc
tail_from-suc (suc i) [] t rest h = cc
tail_from-suc (suc i) (u ∷ ts) t rest h = tail_from-suc i ts t rest h

pub At-start : (ts : List Token) → At (record { tokens = ts; index = 0 }) ts
unfolding At
At-start ts = refl

module _ (p : Parser) (t : Token) (rest : List Token) (at_token : At p (t ∷ rest)) where
  pub At-advance : At (Parser.advance p) rest
  unfolding At Parser.advance
  At-advance =
      let e : suc p.index ≡ p.index + 1 = omega arith in
      subst (λ i. tail_from i p.tokens ≡ rest) e (tail_from-suc p.index p.tokens t rest at_token)

  seen : Parser.peek p ≡ ok t
  unfolding At Parser.peek
  seen =
      ap (λ o. elim o as (λ _. Result Token) [ none ↦ Parser.back p.tokens | some u ↦ ok u ])
        (tail_from-get_elem? p.index p.tokens t rest at_token)

  pub peek-At {ℓ} : {A : Type ℓ} (next : Token → Run A) → (peek >>= next) p ≡ next t p
  unfolding peek
  peek-At next = rw seen refl

  pub advance-At {ℓ} :
      {A : Type ℓ} (next : Unit {0} → Run A) → (advance >>= next) p ≡ next tt (Parser.advance p)
  unfolding advance
  advance-At next = refl

  pub consume-At {ℓ} :
      {A : Type ℓ} (expected : TokenType) (next : Token → Run A)
      → type_eq t.type expected ≡ true
      → (consume expected >>= next) p ≡ next t (Parser.advance p)
  unfolding consume Parser.consume
  consume-At expected next same = rw (seen, same) refl
