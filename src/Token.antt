-- ===== src/Token.antt =====
-- include/token_type.h: the kinds of token, and the tables of keywords, symbols and names.
-- include/source_location.h; `Token` of include/lexer.h.
pub mod Tables
use b2_lang.Prelude.{
  ℕ, ◌≡◌, refl, Bool, Option, some, List, [], ◌∷◌, get_elem?, get_or, Bytes, codes, bytes_eq,
}
use b2_lang.Container.{Entry, to_static_map, find, to_static_set, contains}
use b2_lang.Container.Order.{KeyOrder, ordinal-injective, enum_order, bytes_order, bytes_lt}

pub data TokenType : Type 0 where
  plus minus asterisk forward_slash float_literal int_literal string_literal identifier : TokenType
  lparen rparen assignment colon less_than greater_than less_than_equals : TokenType
  greater_than_equals equals not_equals : TokenType
  set_kw show_kw function_kw end_kw return_kw and_kw or_kw if_kw else_kw not_kw : TokenType
  else_if_kw loop_kw break_kw in_kw cycle_kw : TokenType
  end_of_file : TokenType

-- The underlying value of the enumerator.
abbrev pub ordinal : TokenType → ℕ
ordinal plus = 0
ordinal minus = 1
ordinal asterisk = 2
ordinal forward_slash = 3
ordinal float_literal = 4
ordinal int_literal = 5
ordinal string_literal = 6
ordinal identifier = 7
ordinal lparen = 8
ordinal rparen = 9
ordinal assignment = 10
ordinal colon = 11
ordinal less_than = 12
ordinal greater_than = 13
ordinal less_than_equals = 14
ordinal greater_than_equals = 15
ordinal equals = 16
ordinal not_equals = 17
ordinal set_kw = 18
ordinal show_kw = 19
ordinal function_kw = 20
ordinal end_kw = 21
ordinal return_kw = 22
ordinal and_kw = 23
ordinal or_kw = 24
ordinal if_kw = 25
ordinal else_kw = 26
ordinal not_kw = 27
ordinal else_if_kw = 28
ordinal loop_kw = 29
ordinal break_kw = 30
ordinal in_kw = 31
ordinal cycle_kw = 32
ordinal end_of_file = 33

abbrev pub token_types : List TokenType
token_types =
    plus ∷ minus ∷ asterisk ∷ forward_slash ∷ float_literal ∷ int_literal ∷ string_literal
    ∷ identifier ∷ lparen ∷ rparen ∷ assignment ∷ colon ∷ less_than ∷ greater_than
    ∷ less_than_equals ∷ greater_than_equals ∷ equals ∷ not_equals ∷ set_kw ∷ show_kw ∷ function_kw
    ∷ end_kw ∷ return_kw ∷ and_kw ∷ or_kw ∷ if_kw ∷ else_kw ∷ not_kw ∷ else_if_kw ∷ loop_kw
    ∷ break_kw ∷ in_kw ∷ cycle_kw ∷ end_of_file ∷ []

decode-ordinal : (t : TokenType) → get_elem? token_types (ordinal t) ≡ some t
decode-ordinal plus = refl
decode-ordinal _ = refl

pub ordinal_injective : (s t : TokenType) → ordinal s ≡ ordinal t → s ≡ t
ordinal_injective = ordinal-injective ordinal (get_elem? token_types) decode-ordinal

instance abbrev pub token_type_order : KeyOrder TokenType
token_type_order = enum_order ordinal ordinal_injective

-- `==` and `!=` on enumerators.
abbrev pub type_eq : TokenType → TokenType → Bool
type_eq s t = token_type_order.eq s t

abbrev entry : {K V : Type 0} → K → V → Entry K V
entry k v = record { key = k; value = v }

abbrev pub token_type_names : List (Entry TokenType Bytes)
token_type_names =
    entry plus (codes "Plus")
    ∷ entry minus (codes "Minus")
    ∷ entry asterisk (codes "Asterisk")
    ∷ entry forward_slash (codes "ForwardSlash")
    ∷ entry float_literal (codes "FloatLiteral")
    ∷ entry int_literal (codes "IntLiteral")
    ∷ entry string_literal (codes "StringLiteral")
    ∷ entry identifier (codes "Identifier")
    ∷ entry lparen (codes "LParen")
    ∷ entry rparen (codes "RParen")
    ∷ entry assignment (codes "Assignment")
    ∷ entry colon (codes "Colon")
    ∷ entry less_than (codes "LessThan")
    ∷ entry greater_than (codes "GreaterThan")
    ∷ entry less_than_equals (codes "LessThanEquals")
    ∷ entry greater_than_equals (codes "GreaterThanEquals")
    ∷ entry equals (codes "Equals")
    ∷ entry not_equals (codes "NotEquals")
    ∷ entry set_kw (codes "Set")
    ∷ entry show_kw (codes "Show")
    ∷ entry function_kw (codes "Function")
    ∷ entry end_kw (codes "End")
    ∷ entry return_kw (codes "Return")
    ∷ entry and_kw (codes "And")
    ∷ entry or_kw (codes "Or")
    ∷ entry if_kw (codes "If")
    ∷ entry else_kw (codes "Else")
    ∷ entry not_kw (codes "Not")
    ∷ entry else_if_kw (codes "ElseIf")
    ∷ entry end_of_file (codes "EndOfFile")
    ∷ entry loop_kw (codes "Loop")
    ∷ entry break_kw (codes "Break")
    ∷ entry in_kw (codes "In")
    ∷ entry cycle_kw (codes "Cycle")
    ∷ []

abbrev pub keyword_entries : List (Entry Bytes TokenType)
keyword_entries =
    entry (codes "set") set_kw
    ∷ entry (codes "show") show_kw
    ∷ entry (codes "func") function_kw
    ∷ entry (codes "end") end_kw
    ∷ entry (codes "return") return_kw
    ∷ entry (codes "and") and_kw
    ∷ entry (codes "or") or_kw
    ∷ entry (codes "if") if_kw
    ∷ entry (codes "else") else_kw
    ∷ entry (codes "not") not_kw
    ∷ entry (codes "elseif") else_if_kw
    ∷ entry (codes "loop") loop_kw
    ∷ entry (codes "break") break_kw
    ∷ entry (codes "in") in_kw
    ∷ entry (codes "cycle") cycle_kw
    ∷ []

abbrev pub symbol_entries : List (Entry Bytes TokenType)
symbol_entries =
    entry (codes "+") plus
    ∷ entry (codes "-") minus
    ∷ entry (codes "*") asterisk
    ∷ entry (codes "/") forward_slash
    ∷ entry (codes "(") lparen
    ∷ entry (codes ")") rparen
    ∷ entry (codes "=") assignment
    ∷ entry (codes ":") colon
    ∷ entry (codes "<") less_than
    ∷ entry (codes ">") greater_than
    ∷ entry (codes "<=") less_than_equals
    ∷ entry (codes ">=") greater_than_equals
    ∷ entry (codes "==") equals
    ∷ entry (codes "!=") not_equals
    ∷ []

-- `TOKEN_TYPE_STR`, `KEYWORDS` and `SYMBOLS`: no initializer repeats a key (Token/Tables).
unfoldable pub token_type_str : List (Entry TokenType Bytes)
unfolding to_static_map
token_type_str = get_or (to_static_map token_type_names) []

unfoldable pub keywords : List (Entry Bytes TokenType)
unfolding to_static_map bytes_lt bytes_eq
keywords = get_or (to_static_map keyword_entries) []

unfoldable pub symbols : List (Entry Bytes TokenType)
unfolding to_static_map bytes_lt bytes_eq
symbols = get_or (to_static_map symbol_entries) []

-- `token_type_to_str`; `none` is the `get` of an empty `optional`.
unfoldable pub token_type_to_str : TokenType → Option Bytes
unfolding token_type_str find
token_type_to_str t = find token_type_str t

abbrev pub bool_operators : List TokenType
bool_operators = equals ∷ greater_than ∷ greater_than_equals ∷ less_than ∷ less_than_equals ∷ []

-- `is_bool_operator` of include/lexer.h.
unfoldable pub is_bool_operator : TokenType → Bool
unfolding to_static_set contains
is_bool_operator t = contains (get_or (to_static_set bool_operators) []) t

pub record SourceLocation : Type 0 where
  pub line : ℕ
  pub column : ℕ
  pub filename : Bytes

pub record Token : Type 0 where
  pub type : TokenType
  pub value : Bytes
  pub source_location : SourceLocation
