-- ===== src/Ast.antt =====
-- include/ast.h: types and the syntax tree.
-- A `unique_ptr<ASTNode>` is a `Node`, whose constructors are the node classes in the order of
-- `NodeKind`; a pointer that may be null is a `MaybeNode`, a vector of pointers is `Nodes`. The
-- optional fields that the type checker fills are fields of the constructors. `D` is `double`.
use b2_lang.Prelude.{
  ℕ, ℤ, ◌≡◌, refl, Bool, Option, none, some, List, [], ◌∷◌, get_elem?, true, if◌then◌else◌, Bytes,
  codes, bytes_eq,
}
use b2_lang.Token.{TokenType, SourceLocation}
use b2_lang.Container.Order.{KeyOrder, ordinal-injective, enum_order}

pub data TypeId : Type 0 where
  bool int8 int16 int32 int64 uint8 uint16 uint32 uint64 float32 float64 string : TypeId
  int_literal float_literal user_defined sentinel : TypeId

-- The underlying value of the enumerator.
abbrev pub id_ordinal : TypeId → ℕ
id_ordinal bool = 0
id_ordinal int8 = 1
id_ordinal int16 = 2
id_ordinal int32 = 3
id_ordinal int64 = 4
id_ordinal uint8 = 5
id_ordinal uint16 = 6
id_ordinal uint32 = 7
id_ordinal uint64 = 8
id_ordinal float32 = 9
id_ordinal float64 = 10
id_ordinal string = 11
id_ordinal int_literal = 12
id_ordinal float_literal = 13
id_ordinal user_defined = 14
id_ordinal sentinel = 15

abbrev pub type_ids : List TypeId
type_ids =
    bool ∷ int8 ∷ int16 ∷ int32 ∷ int64 ∷ uint8 ∷ uint16 ∷ uint32 ∷ uint64 ∷ float32 ∷ float64
    ∷ string ∷ int_literal ∷ float_literal ∷ user_defined ∷ sentinel ∷ []

decode-id_ordinal : (t : TypeId) → get_elem? type_ids (id_ordinal t) ≡ some t
decode-id_ordinal bool = refl
decode-id_ordinal _ = refl

pub id_ordinal_injective : (s t : TypeId) → id_ordinal s ≡ id_ordinal t → s ≡ t
id_ordinal_injective = ordinal-injective id_ordinal (get_elem? type_ids) decode-id_ordinal

instance abbrev pub type_id_order : KeyOrder TypeId
type_id_order = enum_order id_ordinal id_ordinal_injective

-- `==` on enumerators.
abbrev pub id_eq : TypeId → TypeId → Bool
id_eq s t = type_id_order.eq s t

pub id_eq→eq : (s t : TypeId) → id_eq s t ≡ true → s ≡ t
id_eq→eq s t h = type_id_order.eq→path s t h

pub id_eq_refl : (t : TypeId) → id_eq t t ≡ true
id_eq_refl t = type_id_order.eq_refl t

-- `std::unordered_map`, as the list of its entries.
abbrev pub builtin_types : List (Bytes × TypeId)
builtin_types =
    (codes "Bool", bool)
    ∷ (codes "Int8", int8)
    ∷ (codes "Int16", int16)
    ∷ (codes "Int32", int32)
    ∷ (codes "Int64", int64)
    ∷ (codes "UInt8", uint8)
    ∷ (codes "UInt16", uint16)
    ∷ (codes "UInt32", uint32)
    ∷ (codes "UInt64", uint64)
    ∷ (codes "Float32", float32)
    ∷ (codes "Float64", float64)
    ∷ (codes "String", string)
    ∷ (codes "UserDefined", user_defined)
    ∷ []

module _ {V : Type 0} where
  -- `unordered_map<std::string, V>::find`.
  unfoldable pub find_name : Bytes → List (Bytes × V) → Option V
  unfolding bytes_eq
  find_name k [] = none
  find_name k ((j, v) ∷ m) = if bytes_eq j k then some v else find_name k m

-- `get_type_id` of src/ast.cxx.
unfoldable pub get_type_id : Bytes → TypeId
unfolding find_name
get_type_id s = elim (find_name s builtin_types) [ none ↦ user_defined | some t ↦ t ]

abbrev pub type_id_str_map : List (TypeId × Bytes)
type_id_str_map =
    (bool, codes "Bool")
    ∷ (int8, codes "Int8")
    ∷ (int16, codes "Int16")
    ∷ (int32, codes "Int32")
    ∷ (int64, codes "Int64")
    ∷ (uint8, codes "UInt8")
    ∷ (uint16, codes "UInt16")
    ∷ (uint32, codes "UInt32")
    ∷ (uint64, codes "UInt64")
    ∷ (float32, codes "Float32")
    ∷ (float64, codes "Float64")
    ∷ (string, codes "String")
    ∷ (user_defined, codes "UserDefined")
    ∷ (sentinel, codes "Sentinel")
    ∷ []

find_id : TypeId → List (TypeId × Bytes) → Option Bytes
find_id k [] = none
find_id k ((j, v) ∷ m) = if id_eq j k then some v else find_id k m

-- `type_id_to_str` of src/ast.cxx; `none` is the thrown `runtime_error`.
unfoldable pub type_id_to_str : TypeId → Option Bytes
unfolding find_id
type_id_to_str t = find_id t type_id_str_map

-- `struct Type`.
pub record Ty : Type 0 where
  pub type_id : TypeId
  pub identifier : Bytes

-- `Type{}`.
abbrev pub no_type : Ty
no_type = record { type_id = sentinel; identifier = [] }

abbrev pub bool_type : Ty
bool_type = record { type_id = bool; identifier = codes "Bool" }

abbrev pub int8_type : Ty
int8_type = record { type_id = int8; identifier = codes "Int8" }

abbrev pub int16_type : Ty
int16_type = record { type_id = int16; identifier = codes "Int16" }

abbrev pub int32_type : Ty
int32_type = record { type_id = int32; identifier = codes "Int32" }

abbrev pub int64_type : Ty
int64_type = record { type_id = int64; identifier = codes "Int64" }

abbrev pub uint8_type : Ty
uint8_type = record { type_id = uint8; identifier = codes "UInt8" }

abbrev pub uint16_type : Ty
uint16_type = record { type_id = uint16; identifier = codes "UInt16" }

abbrev pub uint32_type : Ty
uint32_type = record { type_id = uint32; identifier = codes "UInt32" }

abbrev pub uint64_type : Ty
uint64_type = record { type_id = uint64; identifier = codes "UInt64" }

abbrev pub float32_type : Ty
float32_type = record { type_id = float32; identifier = codes "Float32" }

abbrev pub float64_type : Ty
float64_type = record { type_id = float64; identifier = codes "Float64" }

abbrev pub int_literal_type : Ty
int_literal_type = record { type_id = int_literal; identifier = codes "IntLiteral" }

abbrev pub float_literal_type : Ty
float_literal_type = record { type_id = float_literal; identifier = codes "FloatLiteral" }

mutual
  pub data Node (D : Type 0) : Type 0 where
    -- value, resolved_type
    float_literal_expression : SourceLocation → D → Option Ty → Node D
    -- op, lhs, rhs, operand_type, resolved_type
    binary_expression :
        SourceLocation → TokenType → Node D → Node D → Option Ty → Option Ty → Node D
    -- name, resolved_type
    variable_expression : SourceLocation → Bytes → Option Ty → Node D
    -- name, value, assignment_type
    variable_assignment_statement : SourceLocation → Bytes → Node D → Option Ty → Node D
    -- name, value, type_identifier, declaration_type
    variable_declaration_statement :
        SourceLocation → Bytes → Node D → MaybeNode D → Option Ty → Node D
    -- expr, expr_type
    show_statement : SourceLocation → Node D → Option Ty → Node D
    -- name, statements
    function_declaration : SourceLocation → Bytes → Node D → Node D
    function_call_expression : SourceLocation → Bytes → Node D
    program : SourceLocation → Nodes D → Node D
    -- expr, expr_type
    return_statement : SourceLocation → Node D → Option Ty → Node D
    type_expression : SourceLocation → Bytes → Node D
    -- value, resolved_type
    int_literal_expression : SourceLocation → ℤ → Option Ty → Node D
    -- condition, if_then, if_else
    if_statement : SourceLocation → Node D → Node D → MaybeNode D → Node D
    block_statement : SourceLocation → Nodes D → Node D
    loop_statement : SourceLocation → Node D → Node D
    break_statement cycle_statement : SourceLocation → Node D

  pub data MaybeNode (D : Type 0) : Type 0 where
    null : MaybeNode D
    present : Node D → MaybeNode D

  pub data Nodes (D : Type 0) : Type 0 where
    nil : Nodes D
    cons : Node D → Nodes D → Nodes D

-- The base class field `source_location`.
abbrev pub location : {D : Type 0} → Node D → SourceLocation
location (float_literal_expression loc _ _) = loc
location (binary_expression loc _ _ _ _ _) = loc
location (variable_expression loc _ _) = loc
location (variable_assignment_statement loc _ _ _) = loc
location (variable_declaration_statement loc _ _ _ _) = loc
location (show_statement loc _ _) = loc
location (function_declaration loc _ _) = loc
location (function_call_expression loc _) = loc
location (program loc _) = loc
location (return_statement loc _ _) = loc
location (type_expression loc _) = loc
location (int_literal_expression loc _ _) = loc
location (if_statement loc _ _ _) = loc
location (block_statement loc _) = loc
location (loop_statement loc _) = loc
location (break_statement loc) = loc
location (cycle_statement loc) = loc
