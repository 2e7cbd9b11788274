-- ===== src/TypeCheck/Scope.antt =====
-- `VariableScopeStack`. The vector of scopes is a list whose head is `back()`; a scope is an
-- `unordered_map`, as the list of its entries.
pub mod Shadow
use b2_lang.Prelude.{Option, none, some, List, [], ◌∷◌, if◌then◌else◌, Bytes, bytes_eq}
use b2_lang.Error.{Result, ok, undefined}
use b2_lang.Ast.{Ty, find_name}

abbrev pub Scope : Type 0
Scope = List (Bytes × Ty)

abbrev pub ScopeStack : Type 0
ScopeStack = List Scope

-- `map[key] = value`.
unfoldable pub assign : Bytes → Ty → Scope → Scope
unfolding bytes_eq
assign key value [] = (key, value) ∷ []
assign key value ((k, v) ∷ m) =
    if bytes_eq k key then (k, value) ∷ m else (k, v) ∷ assign key value m

-- The constructor.
abbrev pub initial_stack : ScopeStack
initial_stack = [] ∷ []

-- The loop runs from the outermost scope to the innermost.
unfoldable pub find : Bytes → ScopeStack → Option Ty
unfolding find_name
find key [] = none
find key (scope ∷ outer) = elim (find key outer) [ none ↦ find_name key scope | some t ↦ some t ]

unfoldable pub push : ScopeStack → ScopeStack
push scopes = [] ∷ scopes

unfoldable pub pop : ScopeStack → Result ScopeStack
pop [] = undefined
pop (scope ∷ outer) = ok outer

unfoldable pub store : Bytes → Ty → ScopeStack → Result ScopeStack
unfolding assign
store key value [] = undefined
store key value (scope ∷ outer) = ok (assign key value scope ∷ outer)
