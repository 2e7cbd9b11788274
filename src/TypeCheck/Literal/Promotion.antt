-- ===== src/TypeCheck/Literal/Promotion.antt =====
-- `LITERAL_PROMOTION_MAP` (include/type_check_visitor.h) and an order on types.
use mathlib.Core.Option
use b2_lang.Prelude.{◌≡◌, Bool, false, ◌&&◌, ◌||◌, Option, none, some, if◌then◌else◌, Bytes, arith}
use b2_lang.Ast.{TypeId, id_eq, Ty}
use b2_lang.TypeCheck.Literal.{is_literal, is_integer, is_float, find_promotion}

-- A value of the first type can stand where the second is wanted: the types are the same, or the
-- first is a literal that a number of the second type can be written as.
pub adapts : TypeId → TypeId → Bool
adapts TypeId.int_literal t = is_literal t || is_integer t || is_float t
adapts TypeId.float_literal t = id_eq TypeId.float_literal t || is_float t
adapts s t = id_eq s t

-- The greater of two types, if one adapts to the other.
pub join : TypeId → TypeId → Option TypeId
unfolding adapts
join s t = if adapts s t then some t else if adapts t s then some s else none

find_promotion_of-join :
    (s t : TypeId) (i j : Bytes)
    → Option.map
        (λ (r : Ty). r.type_id)
        (find_promotion
          (record { type_id = s; identifier = i })
          (record { type_id = t; identifier = j }))
      ≡ (if is_literal s || is_literal t then join s t else none)
unfolding find_promotion join is_literal is_integer is_float
find_promotion_of-join TypeId.bool t i j = ground arith
find_promotion_of-join _ t i j = ground arith

-- For two types of which one is a literal type the promotion table gives the greater of the two,
-- and nothing when neither adapts to the other; for two other types it gives nothing.
pub find_promotion-join :
    (l r : Ty)
    → Option.map (λ (t : Ty). t.type_id) (find_promotion l r)
      ≡ (if is_literal l.type_id || is_literal r.type_id then join l.type_id r.type_id else none)
find_promotion-join l r = find_promotion_of-join l.type_id r.type_id l.identifier r.identifier

find_promotion-ids :
    (s t : TypeId) (i j : Bytes) (p : Ty)
    → find_promotion
        (record { type_id = s; identifier = i })
        (record { type_id = t; identifier = j })
      ≡ some p
    → (is_literal p.type_id ≡ (is_literal s && is_literal t))
      × (is_literal s ≡ false → p.type_id ≡ s)
      × (is_literal t ≡ false → p.type_id ≡ t)
unfolding find_promotion is_literal
find_promotion-ids TypeId.bool t i j p h = ground arith
find_promotion-ids _ t i j p h = ground arith

-- A promoted type is a literal type only if both are, and it is the one that is not.
pub find_promotion_lem :
    (l r : Ty) {p : Ty}
    → find_promotion l r ≡ some p
    → (is_literal p.type_id ≡ (is_literal l.type_id && is_literal r.type_id))
      × (is_literal l.type_id ≡ false → p.type_id ≡ l.type_id)
      × (is_literal r.type_id ≡ false → p.type_id ≡ r.type_id)
find_promotion_lem l r {p} h = find_promotion-ids l.type_id r.type_id l.identifier r.identifier p h
