-- ===== src/Parser/Shape.antt =====
-- The shape of the trees that the parser (src/parser.cxx) builds.
pub mod Expr
pub mod Program
use b2_lang.Prelude.{◌≡◌, refl, Bool, true, false, ◌&&◌, none, some, if◌then◌else◌}
use b2_lang.Error.{Error, ok, err, undefined}
use b2_lang.Ast.{
  Node, MaybeNode, Nodes, float_literal_expression, binary_expression, variable_expression,
  variable_assignment_statement, variable_declaration_statement, show_statement,
  function_declaration, function_call_expression, program, return_statement, type_expression,
  int_literal_expression, if_statement, block_statement, loop_statement, break_statement,
  cycle_statement, null, present, nil, cons,
}
use b2_lang.Parser.{Parser}
use b2_lang.Parser.Run.{Run, Outcome, follow, pure, throw, out_of_fuel}
use b2_lang.TypeCheck.Literal.{is_builtin_type}

unfoldable pub is_expression : {D : Type 0} → Node D → Bool
is_expression (float_literal_expression _ _ _) = true
is_expression (binary_expression _ _ l r _ _) = is_expression l && is_expression r
is_expression (variable_expression _ _ _) = true
is_expression (function_call_expression _ _) = true
is_expression (int_literal_expression _ _ _) = true
is_expression _ = false

unfoldable pub is_annotation : {D : Type 0} → MaybeNode D → Bool
is_annotation null = true
is_annotation (present (type_expression _ name)) = is_builtin_type name
is_annotation (present _) = false

unfoldable mutual
  unfolding is_expression is_annotation

  pub is_statement : {D : Type 0} → Node D → Bool
  is_statement (variable_assignment_statement _ _ value _) = is_expression value
  is_statement (variable_declaration_statement _ _ value type _) =
      is_expression value && is_annotation type
  is_statement (show_statement _ expr _) = is_expression expr
  is_statement (return_statement _ expr _) = is_expression expr
  is_statement (if_statement _ c t e) = is_expression c && is_block t && is_else e
  is_statement (loop_statement _ body) = is_block body
  is_statement (break_statement _) = true
  is_statement (cycle_statement _) = true
  is_statement _ = false

  pub is_block : {D : Type 0} → Node D → Bool
  is_block (block_statement _ ns) = are_statements ns
  is_block _ = false

  -- An `else` has a block, or the `if` of an `elseif`.
  pub is_else : {D : Type 0} → MaybeNode D → Bool
  is_else null = true
  is_else (present (if_statement _ c t e)) = is_expression c && is_block t && is_else e
  is_else (present (block_statement _ ns)) = are_statements ns
  is_else (present _) = false

  pub are_statements : {D : Type 0} → Nodes D → Bool
  are_statements nil = true
  are_statements (cons n ns) = is_statement n && are_statements ns

unfoldable pub is_function : {D : Type 0} → Node D → Bool
unfolding is_block
is_function (function_declaration _ _ body) = is_block body
is_function _ = false

unfoldable pub are_functions : {D : Type 0} → Nodes D → Bool
unfolding is_function
are_functions nil = true
are_functions (cons n ns) = is_function n && are_functions ns

-- A program is functions, whose bodies are blocks of statements, whose operands are expressions.
unfoldable pub is_program : {D : Type 0} → Node D → Bool
unfolding are_functions
is_program (program _ fs) = are_functions fs
is_program _ = false

-- The test holds of what the step returns, if it returns.
unfoldable pub Makes {ℓ} : {A : Type ℓ} → (A → Bool) → Outcome A → Type 0
Makes Q (some (ok (a, p))) = Q a ≡ true
Makes Q _ = Unit

pub Makes-pure {ℓ} :
    {A : Type ℓ} (Q : A → Bool) (a : A) (p : Parser) → Q a ≡ true → Makes Q (pure a p)
unfolding Makes
Makes-pure Q a p h = h

pub Makes-throw {ℓ} :
    (A : Type ℓ) (Q : A → Bool) (e : Error) (p : Parser) → Makes Q (throw {A = A} e p)
unfolding Makes
Makes-throw A Q e p = tt

pub Makes-fuel {ℓ} : (A : Type ℓ) (Q : A → Bool) (p : Parser) → Makes Q (out_of_fuel {A = A} p)
unfolding Makes
Makes-fuel A Q p = tt

pub Makes-follow {ℓ κ} :
    {A : Type ℓ} {B : Type κ} (Q : A → Bool) (R : B → Bool) (r : Outcome A) (next : A → Run B)
    → Makes Q r
    → ((a : A) (p : Parser) → Q a ≡ true → Makes R (next a p))
    → Makes R (follow r next)
unfolding Makes
Makes-follow Q R none next h f = tt
Makes-follow Q R (some (ok (a, p))) next h f = f a p h
Makes-follow Q R (some (err e)) next h f = tt
Makes-follow Q R (some undefined) next h f = tt

-- The same after a step of which nothing is asked.
pub Makes-then {ℓ κ} :
    {A : Type ℓ} {B : Type κ} (R : B → Bool) (r : Outcome A) (next : A → Run B)
    → ((a : A) (p : Parser) → Makes R (next a p))
    → Makes R (follow r next)
unfolding Makes
Makes-then R none next f = tt
Makes-then R (some (ok (a, p))) next f = f a p
Makes-then R (some (err e)) next f = tt
Makes-then R (some undefined) next f = tt

pub Makes-if {ℓ} :
    {A : Type ℓ} (Q : A → Bool) (b : Bool) (m k : Run A) (p : Parser)
    → (b ≡ true → Makes Q (m p))
    → Makes Q (k p)
    → Makes Q ((if b then m else k) p)
Makes-if Q true m k p h i = h refl
Makes-if Q false m k p h i = i

pub Makes-elim {ℓ} :
    {A : Type ℓ} (Q : A → Bool) (b : Bool) (m k : Run A) (p : Parser)
    → Makes Q (m p)
    → Makes Q (k p)
    → Makes Q ((elim b as (λ x. Run A) [ true ↦ m | false ↦ k ]) p)
Makes-elim Q true m k p h i = h
Makes-elim Q false m k p h i = i
