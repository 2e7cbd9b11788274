-- ===== src/TypeCheck/Scope/Shadow.antt =====
-- `VariableScopeStack::find` (src/type_check_visitor.cxx), which searches from the outermost scope,
-- and a search from the innermost.
use b2_lang.Prelude.{
  ◌≡◌, refl, subst, inl, inr, false, Option, none, some, [], ◌∷◌, arith, if◌then◌else◌, Bytes,
  bytes_eq, bytes_eq→eq, bytes_eq_refl, Bool-cases, Option-cases,
}
use b2_lang.Error.{ok}
use b2_lang.Ast.{Ty, find_name}
use b2_lang.TypeCheck.Scope.{Scope, ScopeStack, assign, find, push, store}

-- The usual rule: the innermost declaration of the name.
pub find_innermost : Bytes → ScopeStack → Option Ty
find_innermost key [] = none
find_innermost key (scope ∷ outer) = elim (find_name key scope) [
  | none ↦ find_innermost key outer
  | some t ↦ some t
]

-- A name that a scope declares is declared in no scope outside it.
abbrev pub IsUnshadowed : ScopeStack → Type 0
IsUnshadowed [] = Unit
IsUnshadowed (scope ∷ outer) =
    ((key : Bytes) (t : Ty) → find key outer ≡ some t → find_name key scope ≡ none)
    × IsUnshadowed outer

-- While no name is declared in two scopes, the search from the outermost scope that the program
-- makes finds what the usual search from the innermost scope finds.
pub find-find_innermost :
    (key : Bytes) (scopes : ScopeStack)
    → IsUnshadowed scopes
    → find key scopes ≡ find_innermost key scopes
unfolding find find_innermost
find-find_innermost key [] u = refl
find-find_innermost key (scope ∷ outer) u = elim (Option-cases (find key outer)) [
  | inl missing ↦ ground (arith, find-find_innermost key outer u.1)
  | inr (t, found) ↦ ground (arith, find-find_innermost key outer u.1, u.0 key t found)
]

pub find_name-assign :
    (key name : Bytes) (t : Ty) (scope : Scope)
    → find_name key (assign name t scope)
      ≡ (if bytes_eq name key then some t else find_name key scope)
unfolding find_name assign
find_name-assign key name t [] = refl
find_name-assign key name t ((k, v) ∷ m) = elim (Bool-cases (bytes_eq k name)) [
  | inl e ↦
      rw (bytes_eq→eq k name e, bytes_eq_refl name)
        (elim (Bool-cases (bytes_eq name key)) [ inl f ↦ rw f | inr f ↦ rw f ])
  | inr n ↦
      rw (n, find_name-assign key name t m)
        (elim (Bool-cases (bytes_eq k key)) [
          | inr f ↦ rw f
          | inl f ↦ rw (f, ← bytes_eq→eq k key f, differ n)
        ])
]
  where
    differ : bytes_eq k name ≡ false → bytes_eq name k ≡ false
    differ n = elim (Bool-cases (bytes_eq name k)) [
      | inr f ↦ f
      | inl f ↦ cc (rw (bytes_eq→eq name k f) at n, bytes_eq_refl k)
    ]

pub push-IsUnshadowed : (scopes : ScopeStack) → IsUnshadowed scopes → IsUnshadowed (push scopes)
unfolding push find_name
push-IsUnshadowed scopes u = (λ key t h. refl, u)

-- A name that the stack does not find can be stored without shadowing.
pub store-IsUnshadowed :
    (name : Bytes) (t : Ty) (scopes : ScopeStack) {after : ScopeStack}
    → IsUnshadowed scopes
    → find name scopes ≡ none
    → store name t scopes ≡ ok after
    → IsUnshadowed after
unfolding store find
store-IsUnshadowed name t [] {after} u h e = cc
store-IsUnshadowed name t (scope ∷ outer) {after} u h e =
    subst IsUnshadowed stored (λ key v found. fresh key v found, u.1)
  where
    stored : (assign name t scope ∷ outer) ≡ after
    stored = ground arith

    new : find name outer ≡ none
    new = ground arith

    fresh :
        (key : Bytes) (v : Ty)
        → find key outer ≡ some v
        → find_name key (assign name t scope) ≡ none
    fresh key v found = elim (Bool-cases (bytes_eq name key)) [
      | inl same ↦ cc (new, rw (← bytes_eq→eq name key same) at found)
      | inr other ↦ rw (find_name-assign key name t scope, other) (u.0 key v found)
    ]
