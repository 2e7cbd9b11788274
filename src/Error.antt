-- ===== src/Error.antt =====
-- include/compile_error.h: the exceptions of the compiler, as values. A message is kept as the place
-- it is thrown from and the arguments that `std::format` gets.
use b2_lang.Prelude.{ℕ, ℤ, Bool, true, false, if◌then◌else◌, Bytes}
use b2_lang.Token.{TokenType, SourceLocation}

pub data LexProblem : Type 0 where
  unterminated_string : LexProblem
  unknown_token : Bytes → LexProblem
  expected_char : ℕ → ℕ → LexProblem

pub data ParseProblem : Type 0 where
  expected_token : TokenType → TokenType → ParseProblem
  expected_rparen : ParseProblem
  unexpected_primary unexpected_statement : TokenType → ParseProblem
  unknown_type : Bytes → ParseProblem

pub data TypeProblem : Type 0 where
  no_default : Bytes → TypeProblem
  redeclared undefined_variable undefined_function invalid_type : Bytes → TypeProblem
  not_a_statement not_an_expression : TypeProblem
  int_out_of_range int_to_other : ℤ → Bytes → TypeProblem
  checked_type_expression : Bytes → Bytes → TypeProblem
  float_to_other float_out_of_range : Bytes → TypeProblem
  call_mismatch variable_mismatch : Bytes → Bytes → Bytes → TypeProblem
  incompatible_operands different_operands : Bytes → Bytes → TokenType → TypeProblem
  break_outside_loop cycle_outside_loop : TypeProblem

pub data CodegenProblem : Type 0 where
  literal_type sentinel_type : CodegenProblem
  no_operations : Bytes → CodegenProblem
  unsupported_operation : TokenType → CodegenProblem
  no_llvm_type : Bytes → CodegenProblem
  declared_twice no_declaration_type : CodegenProblem
  assigned_unknown unknown_variable unknown_function : Bytes → CodegenProblem
  binary_failed no_binary_type no_operand_type no_variable_type : CodegenProblem
  not_an_integer : CodegenProblem
  break_without_loop cycle_without_loop : CodegenProblem

pub data Error : Type 0 where
  lexer_error : SourceLocation → LexProblem → Error
  parse_error : SourceLocation → ParseProblem → Error
  type_error : SourceLocation → TypeProblem → Error
  -- A number that the libraries do not read: `std::out_of_range`, or `std::runtime_error`.
  number_error : Bytes → Error
  -- The `std::runtime_error` of the code generator.
  codegen_error : CodegenProblem → Error

-- `undefined` is undefined behaviour: `back` or `pop_back` of an empty vector.
pub data Result {ℓ} (A : Type ℓ) : Type ℓ where
  ok : A → Result A
  err : Error → Result A
  undefined : Result A

infixl 1 ◌>>=◌
abbrev pub ◌>>=◌ {ℓ κ} : {A : Type ℓ} {B : Type κ} → Result A → (A → Result B) → Result B
undefined >>= next = undefined
err thrown >>= next = err thrown
ok a >>= next = next a

-- `P` holds of what a step returns, if it returns.
abbrev pub Post {ℓ κ} : {A : Type ℓ} → (A → Type κ) → Result A → Type κ
Post P (ok a) = P a
Post P (err e) = Unit
Post P undefined = Unit

pub Post-bind {ℓ κ ℓ' κ'} :
    {A : Type ℓ} {B : Type ℓ'} (P : A → Type κ) (Q : B → Type κ') (r : Result A) (f : A → Result B)
    → Post P r
    → ((a : A) → P a → Post Q (f a))
    → Post Q (r >>= f)
Post-bind P Q (ok a) f h k = k a h
Post-bind P Q (err e) f h k = tt
Post-bind P Q undefined f h k = tt

pub Post-any {ℓ} : {A : Type ℓ} (r : Result A) → Post (λ _. Unit {0}) r
Post-any (ok a) = tt
Post-any (err e) = tt
Post-any undefined = tt

pub Post-if {ℓ κ} :
    {A : Type ℓ} (P : A → Type κ) (b : Bool) (x y : Result A)
    → Post P x
    → Post P y
    → Post P (if b then x else y)
Post-if P true x y h k = h
Post-if P false x y h k = k

pub Post-weaken {ℓ κ κ'} :
    {A : Type ℓ} (P : A → Type κ) (Q : A → Type κ') (r : Result A)
    → ((a : A) → P a → Q a)
    → Post P r
    → Post Q r
Post-weaken P Q (ok a) g h = g a h
Post-weaken P Q (err e) g h = tt
Post-weaken P Q undefined g h = tt

pub Post-and {ℓ κ κ'} :
    {A : Type ℓ} (P : A → Type κ) (Q : A → Type κ') (r : Result A)
    → Post P r
    → Post Q r
    → Post (λ a. P a × Q a) r
Post-and P Q (ok a) h k = (h, k)
Post-and P Q (err e) h k = tt
Post-and P Q undefined h k = tt

-- A result that is not undefined behaviour.
abbrev pub Defined {ℓ} : {A : Type ℓ} → Result A → Type 0
Defined (ok a) = Unit
Defined (err e) = Unit
Defined undefined = ⊥

pub Defined-bind {ℓ κ μ} :
    {A : Type ℓ} {B : Type κ} (P : A → Type μ) (r : Result A) (f : A → Result B)
    → Defined r
    → Post P r
    → ((a : A) → P a → Defined (f a))
    → Defined (r >>= f)
Defined-bind P (ok a) f d h k = k a h
Defined-bind P (err e) f d h k = tt
Defined-bind P undefined f d h k = d

pub Defined-then {ℓ κ} :
    {A : Type ℓ} {B : Type κ} (r : Result A) (f : A → Result B)
    → Defined r
    → ((a : A) → Defined (f a))
    → Defined (r >>= f)
Defined-then r f d k = Defined-bind (λ _. Unit {0}) r f d (Post-any r) λ a _. k a

pub Defined-if {ℓ} :
    {A : Type ℓ} (b : Bool) (x y : Result A) → Defined x → Defined y → Defined (if b then x else y)
Defined-if true x y h k = h
Defined-if false x y h k = k
