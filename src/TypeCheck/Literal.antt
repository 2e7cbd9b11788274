-- ===== src/TypeCheck/Literal.antt =====
-- The tests on types and literals of src/type_check_visitor.cxx, and `LITERAL_PROMOTION_MAP`.
pub mod Range
pub mod Promotion
use b2_lang.Prelude.{
  ℕ, ◌^◌, ℤ, pos, neg_of, leb_ℤ, Bool, true, false, ◌&&◌, Option, none, some, List, [], ◌∷◌,
  if◌then◌else◌, Bytes, bytes_eq, codes,
}
use b2_lang.Token.{SourceLocation}
use b2_lang.Error.{Result, ok, err, type_error, no_default}
use b2_lang.Ast.{
  TypeId, id_eq, Ty, int8_type, int16_type, int32_type, int64_type, uint8_type, uint16_type,
  uint32_type, uint64_type, int_literal_type, float_literal_type, float32_type, float64_type,
}

-- `double`, and the operations on it that the checker uses.
pub record Doubles : Type 1 where
  pub Double : Type 0
  pub of_int : ℤ → Double
  pub negate : Double → Double
  pub le : Double → Double → Bool

-- The functions that switch on `type.type_id` take that field.
unfoldable pub is_literal : TypeId → Bool
is_literal TypeId.int_literal = true
is_literal TypeId.float_literal = true
is_literal _ = false

unfoldable pub is_integer : TypeId → Bool
is_integer TypeId.int8 = true
is_integer TypeId.int16 = true
is_integer TypeId.int32 = true
is_integer TypeId.int64 = true
is_integer TypeId.uint8 = true
is_integer TypeId.uint16 = true
is_integer TypeId.uint32 = true
is_integer TypeId.uint64 = true
is_integer _ = false

-- `value >= lo && value <= hi`.
abbrev within : ℤ → ℤ → ℤ → Bool
within lo hi value = leb_ℤ lo value && leb_ℤ value hi

unfoldable pub int_is_in_range : ℤ → TypeId → Bool
int_is_in_range value TypeId.int8 = within (neg_of 128) (pos 127) value
int_is_in_range value TypeId.int16 = within (neg_of 32_768) (pos 32_767) value
int_is_in_range value TypeId.int32 = within (neg_of 2_147_483_648) (pos 2_147_483_647) value
int_is_in_range value TypeId.int64 =
    within (neg_of 9_223_372_036_854_775_808) (pos 9_223_372_036_854_775_807) value
int_is_in_range value TypeId.uint8 = within (pos 0) (pos 255) value
int_is_in_range value TypeId.uint16 = within (pos 0) (pos 65_535) value
int_is_in_range value TypeId.uint32 = within (pos 0) (pos 4_294_967_295) value
int_is_in_range value TypeId.uint64 = within (pos 0) (pos 18_446_744_073_709_551_615) value
int_is_in_range value TypeId.float32 = within (neg_of (2 ^ 24)) (pos (2 ^ 24)) value
int_is_in_range value TypeId.float64 = within (neg_of (2 ^ 53)) (pos (2 ^ 53)) value
int_is_in_range value _ = false

unfoldable pub is_float : TypeId → Bool
is_float TypeId.float32 = true
is_float TypeId.float64 = true
is_float _ = false

module _ (F : Doubles) where
  -- `value >= -max && value <= max`.
  abbrev within_double : ℕ → F.Double → Bool
  within_double max value =
      F.le (F.negate (F.of_int (pos max))) value && F.le value (F.of_int (pos max))

  unfoldable pub float_is_in_range : F.Double → TypeId → Bool
  float_is_in_range value TypeId.float32 = within_double (2 ^ 24) value
  float_is_in_range value TypeId.float64 = within_double (2 ^ 53) value
  float_is_in_range value _ = false

unfoldable pub default_of : TypeId → Bytes → SourceLocation → Result Ty
default_of TypeId.int_literal name loc = ok int32_type
default_of TypeId.float_literal name loc = ok float64_type
default_of _ name loc = err (type_error loc (no_default name))

unfoldable pub get_literal_default : Ty → SourceLocation → Result Ty
unfolding default_of
get_literal_default t loc = default_of t.type_id t.identifier loc

-- `Pair`, whose equality compares the `type_id`s.
pub record Pair : Type 0 where
  pub left : Ty
  pub right : Ty

abbrev pub pair_eq : Pair → Pair → Bool
pair_eq p q = id_eq p.right.type_id q.right.type_id && id_eq p.left.type_id q.left.type_id

abbrev promotes : Ty → Ty → Ty → Pair × Ty
promotes l r t = (record { left = l; right = r }, t)

abbrev pub literal_promotion_map : List (Pair × Ty)
literal_promotion_map =
    promotes int_literal_type int8_type int8_type
    ∷ promotes int_literal_type int16_type int16_type
    ∷ promotes int_literal_type int32_type int32_type
    ∷ promotes int_literal_type int64_type int64_type
    ∷ promotes int_literal_type uint8_type uint8_type
    ∷ promotes int_literal_type uint16_type uint16_type
    ∷ promotes int_literal_type uint32_type uint32_type
    ∷ promotes int_literal_type uint64_type uint64_type
    ∷ promotes int_literal_type float32_type float32_type
    ∷ promotes int_literal_type float64_type float64_type
    ∷ promotes float_literal_type float32_type float32_type
    ∷ promotes float_literal_type float64_type float64_type
    ∷ promotes int8_type int_literal_type int8_type
    ∷ promotes int16_type int_literal_type int16_type
    ∷ promotes int32_type int_literal_type int32_type
    ∷ promotes int64_type int_literal_type int64_type
    ∷ promotes uint8_type int_literal_type uint8_type
    ∷ promotes uint16_type int_literal_type uint16_type
    ∷ promotes uint32_type int_literal_type uint32_type
    ∷ promotes uint64_type int_literal_type uint64_type
    ∷ promotes float32_type int_literal_type float32_type
    ∷ promotes float64_type int_literal_type float64_type
    ∷ promotes float32_type float_literal_type float32_type
    ∷ promotes float64_type float_literal_type float64_type
    ∷ promotes int_literal_type float_literal_type float_literal_type
    ∷ promotes float_literal_type int_literal_type float_literal_type
    ∷ promotes int_literal_type int_literal_type int_literal_type
    ∷ promotes float_literal_type float_literal_type float_literal_type
    ∷ []

find_pair : Pair → List (Pair × Ty) → Option Ty
find_pair p [] = none
find_pair p ((q, t) ∷ m) = if pair_eq q p then some t else find_pair p m

-- `LITERAL_PROMOTION_MAP.find(Pair{.left = left, .right = right})`.
unfoldable pub find_promotion : Ty → Ty → Option Ty
unfolding find_pair
find_promotion l r = find_pair (record { left = l; right = r }) literal_promotion_map

builtin_names : List Bytes
builtin_names =
    codes "Int8"
    ∷ codes "Int16"
    ∷ codes "Int32"
    ∷ codes "Int64"
    ∷ codes "UInt8"
    ∷ codes "UInt16"
    ∷ codes "UInt32"
    ∷ codes "UInt64"
    ∷ codes "Float32"
    ∷ codes "Float64"
    ∷ codes "String"
    ∷ codes "Bool"
    ∷ []

any_eq : Bytes → List Bytes → Bool
unfolding bytes_eq
any_eq target [] = false
any_eq target (item ∷ items) = if bytes_eq item target then true else any_eq target items

-- `is_builtin_type` of include/parser.h.
unfoldable pub is_builtin_type : Bytes → Bool
unfolding any_eq builtin_names
is_builtin_type target = any_eq target builtin_names
