-- ===== src/Codegen/Operations/Compare.antt =====
-- The comparisons of src/codegen/operation_map.cxx against those of the integers that the operands
-- stand for.
use b2_lang.Prelude.{
  ℕ, suc, ◌+◌, ◌-◌, ◌^◌, ◌<◌, ◌≡◌, ◌≢◌, refl, ap, ◌∙◌, Bool, true, false, ◌&&◌, not, Option, none,
  some, ltb, leb, ◌==◌, if◌then◌else◌, ℤ, pos, neg_of, leb_ℤ, Bytes, arith,
}
use b2_lang.Token.{TokenType}
use b2_lang.Error.{Result, ok}
use b2_lang.Ast.{TypeId, Ty}
use b2_lang.Codegen.Llvm.{Llvm, Create}
use b2_lang.Codegen.Literal.{num_bits, is_signed}
use b2_lang.Codegen.Operations.{
  TypeOperations, int_operations, operations_of, build_type_operations, gt, apply,
}

-- The integer that the bits of a `w`-bit word stand for.
unfoldable pub as_int : Bool → ℕ → ℕ → ℤ
as_int false w n = pos n
as_int true w n = if ltb n (2 ^ (w - 1)) then pos n else neg_of (2 ^ w - n)

-- What the LLVM language reference says of `icmp` on two `w`-bit words; nothing of the others.
abbrev pub icmp : ℕ → Create → ℕ → ℕ → Option Bool
icmp w Create.icmp_eq a b = some (a == b)
icmp w Create.icmp_ugt a b = some (ltb b a)
icmp w Create.icmp_uge a b = some (leb b a)
icmp w Create.icmp_ult a b = some (ltb a b)
icmp w Create.icmp_ule a b = some (leb a b)
icmp w Create.icmp_sgt a b = some (not (leb_ℤ (as_int true w a) (as_int true w b)))
icmp w Create.icmp_sge a b = some (leb_ℤ (as_int true w b) (as_int true w a))
icmp w Create.icmp_slt a b = some (not (leb_ℤ (as_int true w b) (as_int true w a)))
icmp w Create.icmp_sle a b = some (leb_ℤ (as_int true w a) (as_int true w b))
icmp w _ a b = none

-- A comparison of the language on integers.
abbrev pub compare : TokenType → ℤ → ℤ → Option Bool
compare TokenType.equals x y = some (leb_ℤ x y && leb_ℤ y x)
compare TokenType.greater_than x y = some (not (leb_ℤ x y))
compare TokenType.greater_than_equals x y = some (leb_ℤ y x)
compare TokenType.less_than x y = some (not (leb_ℤ y x))
compare TokenType.less_than_equals x y = some (leb_ℤ x y)
compare _ x y = none

unsigned_less : (a b : ℕ) → ltb a b ≡ not (leb (b + 0) (a + 0))
unsigned_less a b = ground arith

unsigned_less_equal : (a b : ℕ) → leb a b ≡ leb (a + 0) (b + 0)
unsigned_less_equal a b = ground arith

-- A bit as a word.
abbrev pub bit : Bool → ℕ
bit true = 1
bit false = 0

module _ (w : ℕ) where
  operations_row :
      (id : TypeId) (name : Bytes) (s : Bool)
      → num_bits id ≡ some w
      → is_signed id ≡ some s
      → operations_of id name ≡ ok (int_operations s)
  unfolding operations_of is_signed num_bits
  operations_row TypeId.int8 name s h k = cc
  operations_row TypeId.int16 name s h k = cc
  operations_row TypeId.int32 name s h k = cc
  operations_row TypeId.int64 name s h k = cc
  operations_row TypeId.uint8 name s h k = cc
  operations_row TypeId.uint16 name s h k = cc
  operations_row TypeId.uint32 name s h k = cc
  operations_row TypeId.uint64 name s h k = cc
  operations_row _ name s h k = cc

  num_bits_pos : (id : TypeId) → num_bits id ≡ some w → 0 < w
  unfolding num_bits
  num_bits_pos _ h = ground arith

-- Whether two integers are one.
abbrev same_int : ℤ → ℤ → Bool
same_int x y = leb_ℤ x y && leb_ℤ y x

module _ (a b : ℕ) where
  same-pos-neg : (d : ℕ) → 0 < d → a ≢ b → (a == b) ≡ same_int (pos a) (neg_of d)
  same-pos-neg ℕ.zero p h = absurd (omega (arith, p))
  same-pos-neg (suc d) p h = ground arith

  same-neg-pos : (d : ℕ) → 0 < d → a ≢ b → (a == b) ≡ same_int (neg_of d) (pos b)
  same-neg-pos ℕ.zero p h = absurd (omega (arith, p))
  same-neg-pos (suc d) p h = ground arith

  same-neg-neg :
      (c d total : ℕ)
      → 0 < c
      → 0 < d
      → c + a ≡ total
      → d + b ≡ total
      → (a == b) ≡ same_int (neg_of c) (neg_of d)
  same-neg-neg ℕ.zero d total p q h k = absurd (omega (arith, p))
  same-neg-neg (suc c) ℕ.zero total p q h k = absurd (omega (arith, q))
  same-neg-neg (suc c) (suc d) total p q h k = ground arith

-- Two words are one exactly when the integers are.
same-if :
    (half total a b : ℕ) (p q : Bool)
    → ltb a half ≡ p
    → ltb b half ≡ q
    → a < total
    → b < total
    → (a == b)
      ≡ same_int (if p then pos a else neg_of (total - a)) (if q then pos b else neg_of (total - b))
same-if half total a b true true h k la lb = ground arith
same-if half total a b true false h k la lb =
    same-pos-neg a b (total - b) (omega arith) (λ e. ground arith)
same-if half total a b false true h k la lb =
    same-neg-pos a b (total - a) (omega arith) (λ e. ground arith)
same-if half total a b false false h k la lb =
    same-neg-neg a b (total - a) (total - b) total (omega arith) (omega arith) (omega arith)
      (omega arith)

same-as_int :
    (s : Bool) (w a b : ℕ)
    → a < 2 ^ w
    → b < 2 ^ w
    → (a == b) ≡ same_int (as_int s w a) (as_int s w b)
unfolding as_int
same-as_int false w a b la lb = ground arith
same-as_int true w a b la lb =
    same-if (2 ^ (w - 1)) (2 ^ w) a b (ltb a (2 ^ (w - 1))) (ltb b (2 ^ (w - 1))) refl refl la lb

-- A value is a word of `value v` that has `width v` bits; no bits stand for what is no word, such as
-- a pointer, a double or poison.
module _ {D : Type 0} (L : Llvm D) (width value : L.Value → ℕ) where
  -- The builder makes the instructions of the language reference: `icmp` on two words of one width
  -- is a word of one bit.
  abbrev pub MakesIcmp : Type 0
  MakesIcmp =
      (k : Create) (a b : L.Value) (name : Bytes) (s : L.Context) (r : Bool)
      → 0 < width a
      → width b ≡ width a
      → value a < 2 ^ width a
      → value b < 2 ^ width a
      → icmp (width a) k (value a) (value b) ≡ some r
      → (width (L.create k a b name s).0 ≡ 1) × (value (L.create k a b name s).0 ≡ bit r)

  module _ (makes : MakesIcmp) (a b : L.Value) (g : L.Context) (same : width b ≡ width a)
      (la : value a < 2 ^ width a) (lb : value b < 2 ^ width a) where
    -- What `apply` is to return.
    abbrev Returns : Bool → Result (L.Value × L.Context) → Type 0
    Returns r made =
        (m : L.Value × L.Context) × (made ≡ ok m) × (width m.0 ≡ 1) × (value m.0 ≡ bit r)

    returns :
        (k : Create) (name : Bytes) (r t : Bool)
        → 0 < width a
        → icmp (width a) k (value a) (value b) ≡ some t
        → some t ≡ some r
        → Returns r (ok (L.create k a b name g))
    returns k name r t wide h e =
        let made = makes k a b name g r wide same la lb (h ∙ e) in
        (L.create k a b name g, refl, made.0, made.1)

    apply-compare :
        (s : Bool) (op : TokenType) (r : Bool)
        → 0 < width a
        → compare op (as_int s (width a) (value a)) (as_int s (width a) (value b)) ≡ some r
        → Returns r (apply L (int_operations s) op a b g)
    unfolding apply gt as_int
    apply-compare true TokenType.equals r wide h =
        returns Create.icmp_eq _ r _ wide refl
          (ap some (same-as_int true (width a) (value a) (value b) la lb) ∙ h)
    apply-compare false TokenType.equals r wide h =
        returns Create.icmp_eq _ r _ wide refl
          (ap some (same-as_int false (width a) (value a) (value b) la lb) ∙ h)
    apply-compare true TokenType.greater_than r wide h = returns Create.icmp_sgt _ r _ wide refl h
    apply-compare true TokenType.greater_than_equals r wide h =
        returns Create.icmp_sge _ r _ wide refl h
    apply-compare true TokenType.less_than r wide h = returns Create.icmp_slt _ r _ wide refl h
    apply-compare true TokenType.less_than_equals r wide h =
        returns Create.icmp_sle _ r _ wide refl h
    apply-compare false TokenType.greater_than r wide h =
        returns Create.icmp_ugt _ r _ wide refl (ap some (unsigned_less (value b) (value a)) ∙ h)
    apply-compare false TokenType.greater_than_equals r wide h =
        returns Create.icmp_uge _ r _ wide refl
          (ap some (unsigned_less_equal (value b) (value a)) ∙ h)
    apply-compare false TokenType.less_than r wide h =
        returns Create.icmp_ult _ r _ wide refl (ap some (unsigned_less (value a) (value b)) ∙ h)
    apply-compare false TokenType.less_than_equals r wide h =
        returns Create.icmp_ule _ r _ wide refl
          (ap some (unsigned_less_equal (value a) (value b)) ∙ h)
    apply-compare s _ r wide h = cc

    -- For an integer type to which the code generator gives a width and a sign, if `icmp` calls of
    -- the builder do what the LLVM language reference says of `icmp` on two words of one width,
    -- whatever the width, then `==`, `>`, `>=`, `<` and `<=` on two words of the type's width give
    -- the word of one bit that tells how the integers compare which the words stand for, with that
    -- sign.
    pub apply-build_type_operations :
        (t : Ty) (s : Bool) (op : TokenType) (r : Bool)
        → num_bits t.type_id ≡ some (width a)
        → is_signed t.type_id ≡ some s
        → compare op (as_int s (width a) (value a)) (as_int s (width a) (value b)) ≡ some r
        → (o : TypeOperations) × (m : L.Value × L.Context) × (build_type_operations t ≡ ok o)
          × (apply L o op a b g ≡ ok m)
          × (width m.0 ≡ 1)
          × (value m.0 ≡ bit r)
    unfolding build_type_operations
    apply-build_type_operations t s op r bits sign h =
        let made = apply-compare s op r (num_bits_pos (width a) t.type_id bits) h in
        (
          int_operations s,
          made.0,
          operations_row (width a) t.type_id t.identifier s bits sign,
          made.1,
          made.2,
          made.3,
        )
