-- ===== src/Frontend/Accepts.antt =====
-- What the stages of src/frontend.cxx make of a text together.
use b2_lang.Prelude.{
  ℕ, ◌<◌, ◌≡◌, ◌≢◌, ◌∙◌, refl, sym, subst, true, false, Option, none, some, List, [], ◌∷◌, Bool,
  ◌&&◌, ltb, Bytes, arith,
}
use b2_lang.Token.{Token}
use b2_lang.Error.{Result, ok, err, undefined, Post}
use b2_lang.Ast.{Node}
use b2_lang.Lexer.{tokenise}
use b2_lang.Lexer.Defined.{AnswerDefined, tokenise-Defined}
use b2_lang.Lexer.Progress.{ends_once, tokenise_total}
use b2_lang.Parser.{Parser}
use b2_lang.Parser.Expr.{Numerals}
use b2_lang.Parser.Stmt.{parse}
use b2_lang.Parser.Total.{parse_total}
use b2_lang.Parser.Shape.{is_program}
use b2_lang.Parser.Shape.Program.{parse-is_program}
use b2_lang.TypeCheck.Literal.{Doubles}
use b2_lang.TypeCheck.Expr.{Checker}
use b2_lang.TypeCheck.Stmt.{visit_statement_node, initial_checker, depth_mod}
use b2_lang.TypeCheck.Stmt.Loops.{jumps_in_loops, visit_statement_node-jumps_in_loops}
use b2_lang.Frontend.Functions.{has_one_function, one_function, two_functions}
use b2_lang.Frontend.{stage, compile}

-- Whether no byte is a negative `char`, for which the tests of <cctype> are undefined.
abbrev pub is_ascii : Bytes → Bool
is_ascii [] = true
is_ascii (c ∷ cs) = ltb c 128 && is_ascii cs

module _ (F : Doubles) (N : Numerals F.Double) where
  -- On every text the stages up to the type checker answer: the fuel of the lexer and of the parser
  -- is enough.
  pub compile_total :
      (depth : ℕ) (filename text : Bytes)
      → (r : Result (Checker × Node F.Double)) × (compile F N depth filename text ≡ some r)
  unfolding compile
  compile_total depth filename text =
      let read = tokenise_total filename text in
      subst
        (λ o.
          (r : Result (Checker × Node F.Double)) × (stage o (λ ts. stage (parse N ts) check)
            ≡ some r))
        (sym read.1) (parsed read.0 read.2)
    where
      check : Node F.Double × Parser → Option (Result (Checker × Node F.Double))
      check top = some (visit_statement_node F (initial_checker depth) top.0)

      checked :
          (o : Result (Node F.Double × Parser))
          → (r : Result (Checker × Node F.Double)) × (stage (some o) check ≡ some r)
      checked (ok top) = (_, refl)
      checked (err e) = (_, refl)
      checked undefined = (_, refl)

      parsed :
          (o : Result (List Token))
          → Post (λ ts. ends_once ts ≡ true) o
          → (r : Result (Checker × Node F.Double)) × (stage
                (some o)
                (λ ts. stage (parse N ts) check)
              ≡ some r)
      parsed (ok ts) once =
          let tree = parse_total N ts once in
          subst (λ o. (r : Result (Checker × Node F.Double)) × (stage o check ≡ some r))
            (sym tree.1) (checked tree.0)
      parsed (err e) once = (_, refl)
      parsed undefined once = (_, refl)

  pub stage-some {ℓ κ} :
      {A : Type ℓ} {B : Type κ} (o : Option (Result A)) (next : A → Option (Result B)) (b : B)
      → stage o next ≡ some (ok b)
      → (a : A) × (o ≡ some (ok a)) × (next a ≡ some (ok b))
  stage-some none next b h = cc
  stage-some (some (ok a)) next b h = (a, refl, h)
  stage-some (some (err e)) next b h = cc
  stage-some (some undefined) next b h = cc

  pub some-ok {ℓ} : {A : Type ℓ} (r : Result A) (a : A) → some r ≡ some (ok a) → r ≡ ok a
  some-ok r a h = cc

  -- If the type checker accepts a text, with a loop depth that starts at 0, then the text has
  -- tokens that the parser turns into a tree which is a program (functions whose bodies are blocks
  -- of statements, whose operands are expressions), with at most one function, and with every
  -- `break` and every `cycle` inside a loop.
  pub compile_sound :
      (filename text : Bytes) (c : Checker) (n' : Node F.Double)
      → compile F N 0 filename text ≡ some (ok (c, n'))
      → (ts : List Token) × (n : Node F.Double) × (p : Parser) × (tokenise filename text
          ≡ some (ok ts))
        × (parse N ts ≡ some (ok (n, p)))
        × (is_program n ≡ true)
        × (has_one_function n ≡ true)
        × (jumps_in_loops false n ≡ true)
  unfolding compile
  compile_sound filename text c n' h =
      let lexed = stage-some (tokenise filename text) _ (c, n') h in
      let parsed = stage-some (parse N lexed.0) _ (c, n') lexed.2 in
      let n = parsed.0.0 in
      let checked = some-ok (visit_statement_node F (initial_checker 0) n) (c, n') parsed.2 in
      let shaped = parse-is_program N lexed.0 n parsed.0.1 parsed.1 in
      (
        lexed.0,
        n,
        parsed.0.1,
        lexed.1,
        parsed.1,
        shaped,
        one_function F 0 n c n' (omega arith) shaped checked,
        visit_statement_node-jumps_in_loops F (initial_checker 0) c n n' refl checked,
      )

  stage-undefined {ℓ κ} :
      {A : Type ℓ} {B : Type κ} (o : Option (Result A)) (next : A → Option (Result B))
      → o ≢ some undefined
      → stage o next ≡ some undefined
      → (a : A) × (o ≡ some (ok a)) × (next a ≡ some undefined)
  stage-undefined none next d h = cc
  stage-undefined (some (ok a)) next d h = (a, refl, h)
  stage-undefined (some (err e)) next d h = cc
  stage-undefined (some undefined) next d h = absurd (d refl)

  some-undefined {ℓ} : {A : Type ℓ} (r : Result A) → some r ≡ some undefined → r ≡ undefined
  some-undefined r e = cc

  -- On a text of bytes below 128, and from a loop depth that has a value below 2^32 (the source
  -- gives it none), the stages up to the type checker read or pop the end of an empty vector only
  -- if the text parses to a program of two or more functions.
  pub compile_defined :
      (depth : ℕ) (filename text : Bytes)
      → is_ascii text ≡ true
      → depth < depth_mod
      → compile F N depth filename text ≡ some undefined
      → (ts : List Token) × (n : Node F.Double) × (p : Parser) × (tokenise filename text
          ≡ some (ok ts))
        × (parse N ts ≡ some (ok (n, p)))
        × (is_program n ≡ true)
        × (has_one_function n ≡ false)
  unfolding compile
  compile_defined depth filename text ascii small h =
      let lexed =
        stage-undefined (tokenise filename text) _
          (λ e. subst AnswerDefined e (tokenise-Defined filename text)) h in
      let parsed = stage-undefined (parse N lexed.0) _ (parse-defined lexed.0 lexed.1) lexed.2 in
      let n = parsed.0.0 in
      let shaped = parse-is_program N lexed.0 n parsed.0.1 parsed.1 in
      (
        lexed.0,
        n,
        parsed.0.1,
        lexed.1,
        parsed.1,
        shaped,
        two_functions F depth n small shaped
            (some-undefined (visit_statement_node F (initial_checker depth) n) parsed.2),
      )
    where
      once :
          (r : Result (List Token)) (ts : List Token)
          → Post (λ us. ends_once us ≡ true) r
          → r ≡ ok ts
          → ends_once ts ≡ true
      once r ts o e = subst (Post (λ us. ends_once us ≡ true)) e o

      parse-defined :
          (ts : List Token) → tokenise filename text ≡ some (ok ts) → parse N ts ≢ some undefined
      parse-defined ts e u =
          let read = tokenise_total filename text in
          let tree =
            parse_total N ts (once read.0 ts read.2 (some-ok read.0 ts (sym read.1 ∙ e))) in
          tree.2 (some-undefined tree.0 (sym tree.1 ∙ u))
