-- ===== src/Examples/Tables.antt =====
-- The theorems on static maps, types and tokens at concrete tables.
use b2_lang.Prelude.{
  ℕ, ◌≡◌, ◌↔◌, ◌⊎◌, refl, true, none, some, List, [], ◌∷◌, neg_of, Bytes, codes, bytes_eq,
}
use b2_lang.Container.{Entry, to_static_map, find}
use b2_lang.Container.Order.{bytes_order, bytes_lt}
use b2_lang.Container.Lookup.{lookup, has_duplicate, find-to_static_map, to_static_map-eq-none_iff}
use b2_lang.Token.{TokenType, token_type_to_str, is_bool_operator}
use b2_lang.Token.Tables.{token_type_to_str_total, is_bool_operator_iff}
use b2_lang.Ast.{TypeId, Ty, int_literal_type, float64_type}
use b2_lang.Codegen.Literal.{num_bits, is_signed}
use b2_lang.TypeCheck.Literal.{int_is_in_range, is_literal, find_promotion}
use b2_lang.TypeCheck.Literal.Range.{Representable, int_is_in_range_iff}
use b2_lang.TypeCheck.Literal.Promotion.{join, find_promotion-join}

-- Two entries out of order.
abbrev entries : List (Entry Bytes ℕ)
entries = record { key = codes "b"; value = 2 } ∷ record { key = codes "a"; value = 1 } ∷ []

abbrev sorted_entries : List (Entry Bytes ℕ)
sorted_entries = record { key = codes "a"; value = 1 } ∷ record { key = codes "b"; value = 2 } ∷ []

entries_sorted : to_static_map entries ≡ some sorted_entries
unfolding to_static_map bytes_lt bytes_eq
entries_sorted = refl

find-to_static_map_example : find sorted_entries (codes "b") ≡ lookup entries (codes "b")
find-to_static_map_example = find-to_static_map entries sorted_entries (codes "b") entries_sorted

to_static_map-eq-none_iff_example : (to_static_map entries ≡ none) ↔ (has_duplicate entries ≡ true)
to_static_map-eq-none_iff_example = to_static_map-eq-none_iff entries

int_is_in_range_iff_example :
    (int_is_in_range (neg_of 128) TypeId.int8 ≡ true) ↔ Representable 8 true (neg_of 128)
unfolding num_bits is_signed
int_is_in_range_iff_example = int_is_in_range_iff (neg_of 128) TypeId.int8 8 true refl refl

find_promotion-join_example :
    mathlib.Core.Option.map (λ (t : Ty). t.type_id) (find_promotion int_literal_type float64_type)
    ≡ join TypeId.int_literal TypeId.float64
unfolding is_literal
find_promotion-join_example = find_promotion-join int_literal_type float64_type

token_type_to_str_total_example : (s : Bytes) × (token_type_to_str TokenType.plus ≡ some s)
token_type_to_str_total_example = token_type_to_str_total TokenType.plus

is_bool_operator_iff_example : (is_bool_operator TokenType.less_than ≡ true) ↔ (
    (TokenType.less_than ≡ TokenType.equals)
    ⊎ (TokenType.less_than ≡ TokenType.greater_than)
    ⊎ (TokenType.less_than ≡ TokenType.greater_than_equals)
    ⊎ (TokenType.less_than ≡ TokenType.less_than)
    ⊎ (TokenType.less_than ≡ TokenType.less_than_equals))
is_bool_operator_iff_example = is_bool_operator_iff TokenType.less_than
