-- ===== src/TypeCheck/Literal/Range.antt =====
-- The bounds of `int_is_in_range` against the widths that the code generator gives to literals.
use b2_lang.Prelude.{ℕ, ◌-◌, ◌^◌, ℤ, pos, neg_of, ◌≤ℤ◌, ◌≡◌, ◌↔◌, Bool, true, false, some, arith}
use b2_lang.Ast.{TypeId}
use b2_lang.TypeCheck.Literal.{int_is_in_range}
use b2_lang.Codegen.Literal.{num_bits, is_signed}

-- The integers that `bits` bits hold, in two's complement if signed.
abbrev pub Representable : ℕ → Bool → ℤ → Type 0
Representable bits true v = (neg_of (2 ^ (bits - 1)) ≤ℤ v) × (v ≤ℤ pos (2 ^ (bits - 1) - 1))
Representable bits false v = (pos 0 ≤ℤ v) × (v ≤ℤ pos (2 ^ bits - 1))

-- For a type to which the code generator gives a width and a sign for integer literals, the type
-- checker accepts an integer literal's value exactly when an integer of that width and sign can
-- represent it.
pub int_is_in_range_iff :
    (v : ℤ) (t : TypeId) (bits : ℕ) (signed : Bool)
    → num_bits t ≡ some bits
    → is_signed t ≡ some signed
    → (int_is_in_range v t ≡ true) ↔ Representable bits signed v
unfolding int_is_in_range num_bits is_signed
int_is_in_range_iff v TypeId.int8 bits signed h k = ground arith
int_is_in_range_iff v _ bits signed h k = ground arith
