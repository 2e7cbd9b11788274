-- ===== src/Token/Tables.antt =====
-- What the tables of include/token_type.h hold.
use b2_lang.Prelude.{◌≡◌, ◌↔◌, refl, true, some, ◌⊎◌, Bytes, arith}
use b2_lang.Container.{find}
use b2_lang.Container.Order.{bytes_order}
use b2_lang.Container.Lookup.{lookup, find-to_static_map}
use b2_lang.Token.{
  TokenType, keywords, keyword_entries, symbols, symbol_entries, token_type_to_str,
  is_bool_operator,
}

-- A search of the sorted keyword table is a search of its initializer.
pub find-keywords : (w : Bytes) → find keywords w ≡ lookup keyword_entries w
unfolding keywords
find-keywords w = find-to_static_map keyword_entries keywords w refl

pub find-symbols : (w : Bytes) → find symbols w ≡ lookup symbol_entries w
unfolding symbols
find-symbols w = find-to_static_map symbol_entries symbols w refl

-- Every kind of token has a name, so the unchecked `get` of `token_type_to_str` reads a value.
pub token_type_to_str_total : (t : TokenType) → (s : Bytes) × (token_type_to_str t ≡ some s)
unfolding token_type_to_str
token_type_to_str_total TokenType.plus = (_, refl)
token_type_to_str_total _ = (_, refl)

-- The operators whose result the type checker takes for a Bool are `==`, `>`, `>=`, `<` and `<=`,
-- and no other: `!=` is not one of them.
pub is_bool_operator_iff :
    (t : TokenType)
    → (is_bool_operator t ≡ true) ↔ (
        (t ≡ TokenType.equals)
        ⊎ (t ≡ TokenType.greater_than)
        ⊎ (t ≡ TokenType.greater_than_equals)
        ⊎ (t ≡ TokenType.less_than)
        ⊎ (t ≡ TokenType.less_than_equals))
unfolding is_bool_operator
is_bool_operator_iff TokenType.plus = ground arith
is_bool_operator_iff _ = ground arith
