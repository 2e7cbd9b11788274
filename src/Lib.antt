-- ===== src/Lib.antt =====
-- b2_lang: a compiler for the language B2, from the text of a program to the calls of LLVM.
--
-- The compiler turns the bytes of a file into tokens (`Lexer`), the tokens into a tree (`Parser`),
-- annotates the tree with types (`TypeCheckVisitor`) and generates code from it (`CodegenVisitor`).
-- The tables of tokens are static maps, sorted arrays that are built once. A stage fails by throwing
-- an exception, which ends the compilation.
--
-- The files, and the code that they model:
-- Prelude: names of the libraries, tests on numbers, integers, lists and bytes.
-- Container (include/utils/container.h): `StaticMap` and `StaticSet`. Container/Order: the orders of
--   their keys. Container/Lookup: the search of the sorted array against a search of the initializer.
-- Token (include/token_type.h, include/source_location.h, and `Token` and `is_bool_operator` of
--   include/lexer.h): the kinds of tokens and their tables. Token/Tables: their searches.
-- Error (include/compile_error.h): the exceptions as values, and the results of fallible code. A
--   message is the place that throws it and its arguments.
-- Ast (include/ast.h, src/ast.cxx): types and the syntax tree. A node's optional fields are fields
--   of its constructor.
-- Lexer (src/lexer.cxx, include/lexer.h): the functions of `Lexer` on its state. The string and the
--   index are the bytes from the index on.
-- Parser (src/parser.cxx, include/parser.h): the place of the parser in the tokens, and precedences.
--   Parser/Run: steps on that state. Parser/Expr, Parser/Stmt: the functions that build the tree.
--   Parser/Safe, Parser/Total: where they end. Parser/Shape: what they build. Parser/Grammar:
--   expressions with the texts and locations of their tokens, as a reference.
-- TypeCheck/Literal, TypeCheck/Scope, TypeCheck/Expr and TypeCheck/Stmt (src/type_check_visitor.cxx,
--   include/type_check_visitor.h, `is_builtin_type` of include/parser.h): the tests on types, the
--   promotion of literals, `VariableScopeStack`, `check_expr` and `infer_expr`, and
--   `visit_statement_node`. A visit takes the visitor's fields and a node, and returns them anew.
-- Print (include/print_visitor.h): `PrettyPrinter` and `PrintVisitor`. Print/Sexp: s-expressions and
--   their text.
-- Codegen/Llvm: the calls of LLVM, as parameters. Codegen/Operations (src/codegen/operation_map.cxx):
--   the builder's call for an operator on a type; Codegen/Operations/Compare: the integers that
--   its words stand for. Codegen/Literal, Codegen/Loops, Codegen/Pointers,
--   Codegen/Visit (src/codegen/code_generation_visitor.cxx): width and sign of integer literals,
--   `LoopBlockStack`, null pointers and the map of names, and the visits.
-- Frontend (src/frontend.cxx): `compile` from the text to the type checker.
-- Examples: runs of the definitions.
--
-- Bounds and fuel: `tokenise` runs on one more unit of fuel than the text has bytes; each round
-- but the last reads a byte. The parser runs on four units for a token and eight more: of four
-- calls inside each other one reads a token or returns. The type checker, the
-- printer and the code generator are structural recursion on the tree. `loop_depth` wraps at
-- 2^32. An integer literal is an integer, where the source has an `int128_t`; the checker only
-- compares it. `double` is a parameter, `Doubles`, with the conversion, negation and comparison
-- that the checker uses. Sizes and indices do not wrap: a text is shorter than 2^64 bytes. The
-- tests of <cctype> are those of the C locale, and take a byte as unsigned, where the source passes
-- a plain `char`, which is undefined for a byte of 128 or more if `char` is signed.
--
-- `Result.undefined` is undefined behaviour: `back` or `pop_back` of an empty vector, or a null
-- pointer that the code generator follows or hands to LLVM. It is not the undefined behaviour of
-- <cctype> above, nor that of a read of `loop_depth`, which nothing initialises: the initial state
-- takes it as an argument.
--
-- What the libraries read and write of numbers is a parameter: `Numerals` for `std::stod` and the
-- constructor of `int128_t`, `Digits` for `std::to_string` and `str`. So is LLVM, `Llvm`: types of the
-- context, values, blocks and functions, and a function for each call.
--
-- Not modelled: `compile` and `output_llvm` of the code generator, which verify, print and write the
-- module, and its constructor, which declares `printf`: they only call LLVM. src/main.cxx and
-- src/file_io.cxx, which are input and output; src/type_checking.cxx, whose functions are commented
-- out. The fields `result` and `current_function` of the type checker are never read.
pub mod Prelude
pub mod Container
pub mod Token
pub mod Error
pub mod Ast
pub mod Codegen
pub mod TypeCheck
pub mod Lexer
pub mod Parser
pub mod Print
pub mod Frontend
mod Examples
