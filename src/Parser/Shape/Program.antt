-- ===== src/Parser/Shape/Program.antt =====
-- The statements and declarations of src/parser.cxx: a tree that `parse` returns is a program.
use b2_lang.Prelude.{
  ℕ, zero, suc, ◌+◌, ◌*◌, ◌≡◌, refl, subst, Bool, true, ◌&&◌, none, some, List, length, arith,
}
use b2_lang.Token.{Token, TokenType, SourceLocation, type_eq}
use b2_lang.Error.{ok, err, undefined}
use b2_lang.Ast.{Node, Nodes, null, present, nil, cons, block_statement, if_statement, program}
use b2_lang.Parser.{Parser, is_terminator}
use b2_lang.Parser.Run.{Run, Outcome, follow, ◌>>=◌, pure, peek, advance, consume}
use b2_lang.Parser.Expr.{Numerals}
use b2_lang.Parser.Stmt.{
  end_terminators, no_location, if_terminators, parse_break_statement, parse_cycle_statement,
  parse_show_statement, parse_return_statement, parse_variable_assignment, annotation,
  parse_variable_declaration, if_begin, if_rest, optional_end, if_body, parse_loop,
  parse_function_declaration, statement, parse_statement, parse_if_statement, parse_block_statement,
  parse_statements, parse_functions, parse_top_level, parse,
}
use b2_lang.Parser.Shape.{
  is_expression, is_annotation, is_statement, is_block, is_else, are_statements, is_function,
  are_functions, is_program, Makes, Makes-pure, Makes-throw, Makes-fuel, Makes-follow, Makes-then,
  Makes-if, Makes-elim,
}
use b2_lang.Parser.Shape.Expr.{Expressions, expression-Makes, type-Makes}

module _ {D : Type 0} where
  abbrev Statements : Run (Node D) → Type 0
  Statements m = (p : Parser) → Makes is_statement (m p)

  abbrev Blocks : Run (Node D) → Type 0
  Blocks m = (p : Parser) → Makes is_block (m p)

  -- An `if` is a statement, and may stand behind an `else`.
  abbrev is_if : Node D → Bool
  is_if n = is_statement n && is_else (present n)

  if_first : (n : Node D) → is_if n ≡ true → is_statement n ≡ true
  if_first n h = grind arith

  if_second : (n : Node D) → is_if n ≡ true → is_else (present n) ≡ true
  if_second n h = grind arith

  if_plain : (o : Outcome (Node D)) → Makes is_if o → Makes is_statement o
  unfolding Makes
  if_plain none h = tt
  if_plain (some (ok (n, q))) h = if_first n h
  if_plain (some (err x)) h = tt
  if_plain (some undefined) h = tt

  block_else : (n : Node D) → is_block n ≡ true → is_else (present n) ≡ true
  unfolding is_block
  block_else (block_statement l ns) h = h
  block_else _ h = cc

  module _ (N : Numerals D) where
    annotation-Makes : (p : Parser) → Makes is_annotation (annotation N p)
    unfolding annotation is_annotation
    annotation-Makes p = Makes-then is_annotation (peek p) _ λ t q.
        Makes-if is_annotation (type_eq t.type TokenType.colon) _ _ q
          (λ _. Makes-then is_annotation (advance q) _ λ u r.
            Makes-follow (λ n. is_annotation (present n)) is_annotation _ _ (type-Makes N r)
              λ n s h. Makes-pure is_annotation (present n) s h)
          (Makes-pure is_annotation null q refl)

    declaration-Makes :
        (e : Run (Node D)) → Expressions N e → Statements (parse_variable_declaration N e)
    unfolding parse_variable_declaration is_statement
    declaration-Makes e he p = Makes-then is_statement (peek p) _ λ name q.
        Makes-then is_statement (advance q) _ λ u r.
          Makes-follow is_annotation is_statement _ _ (annotation-Makes r) λ a s ha.
            Makes-then is_statement (consume TokenType.assignment s) _ λ v w.
              Makes-follow is_expression is_statement (e w) _ (he w)
                λ n x hn. Makes-pure is_statement _ x (rw (ha, hn) refl)

    -- `consume(type)`, `parse_expression(0)`, and a statement of the expression.
    keyword-Makes :
        (e : Run (Node D)) (type : TokenType) (make : Token → Node D → Node D)
        → Expressions N e
        → ((t : Token) (n : Node D) → is_expression n ≡ true → is_statement (make t n) ≡ true)
        → (p : Parser)
        → Makes is_statement (follow (consume type p) (λ t. e >>= λ n. pure (make t n)))
    keyword-Makes e type make he h p = Makes-then is_statement (consume type p) _ λ t q.
        Makes-follow is_expression is_statement (e q) _ (he q)
          λ n r hn. Makes-pure is_statement (make t n) r (h t n hn)

    assignment-Makes :
        (e : Run (Node D)) → Expressions N e → Statements (parse_variable_assignment e)
    unfolding parse_variable_assignment is_statement
    assignment-Makes e he p = Makes-then is_statement (consume TokenType.set_kw p) _ λ t q.
        Makes-then is_statement (consume TokenType.identifier q) _ λ u r.
          Makes-then is_statement (consume TokenType.assignment r) _ λ v s.
            Makes-follow is_expression is_statement (e s) _ (he s)
              λ n x hn. Makes-pure is_statement _ x hn

    if_rest-Makes :
        (again final : Run (Node D))
        → ((p : Parser) → Makes is_if (again p))
        → Blocks final
        → (p : Parser) → Makes is_else (if_rest again final p)
    unfolding if_rest is_else
    if_rest-Makes again final ha hf p = Makes-then is_else (peek p) _ λ t q.
        Makes-if is_else (type_eq t.type TokenType.else_if_kw) _ _ q
          (λ _.
            Makes-follow is_if is_else (again q) _ (ha q)
              λ n r h. Makes-pure is_else (present n) r (if_second n h))
          (Makes-then is_else (peek q) _ λ u r.
            Makes-if is_else (type_eq u.type TokenType.else_kw) _ _ r
              (λ _. Makes-then is_else (consume TokenType.else_kw r) _ λ v s.
                Makes-follow is_block is_else (final s) _ (hf s)
                  λ n x h. Makes-pure is_else (present n) x (block_else n h))
              (Makes-pure is_else null r refl))

    if_body-Makes :
        (e block again final : Run (Node D))
        → Expressions N e
        → Blocks block
        → ((p : Parser) → Makes is_if (again p))
        → Blocks final
        → (p : Parser) → Makes is_if (if_body e block again final p)
    unfolding if_body is_statement
    if_body-Makes e block again final he hb ha hf p = Makes-then is_if (if_begin p) _ λ l q.
        Makes-follow is_expression is_if (e q) _ (he q) λ c r hc.
          Makes-follow is_block is_if (block r) _ (hb r) λ t s ht.
            Makes-follow is_else is_if _ _ (if_rest-Makes again final ha hf s) λ o x ho.
              Makes-then is_if (optional_end x) _
                λ u y. Makes-pure is_if (if_statement l c t o) y (rw (hc, ht, ho) refl)

    statement-Makes :
        (e if_ block : Run (Node D)) (loc : SourceLocation) (type : TokenType)
        → Expressions N e
        → ((p : Parser) → Makes is_if (if_ p))
        → Blocks block
        → Statements (statement N e if_ block loc type)
    unfolding statement is_statement parse_show_statement parse_return_statement parse_loop
        parse_break_statement parse_cycle_statement
    statement-Makes e if_ block loc TokenType.identifier he hi hb p = declaration-Makes e he p
    statement-Makes e if_ block loc TokenType.set_kw he hi hb p = assignment-Makes e he p
    statement-Makes e if_ block loc TokenType.show_kw he hi hb p =
        keyword-Makes e TokenType.show_kw _ he (λ t n h. h) p
    statement-Makes e if_ block loc TokenType.return_kw he hi hb p =
        keyword-Makes e TokenType.return_kw _ he (λ t n h. h) p
    statement-Makes e if_ block loc TokenType.if_kw he hi hb p = if_plain (if_ p) (hi p)
    statement-Makes e if_ block loc TokenType.loop_kw he hi hb p =
        Makes-then is_statement (consume TokenType.loop_kw p) _ λ t q.
          Makes-follow is_block is_statement (block q) _ (hb q) λ n r h.
            Makes-then is_statement (consume TokenType.end_kw r) _
              λ u s. Makes-pure is_statement _ s h
    statement-Makes e if_ block loc TokenType.break_kw he hi hb p =
        Makes-then is_statement (consume TokenType.break_kw p) _
          λ t q. Makes-pure is_statement _ q refl
    statement-Makes e if_ block loc TokenType.cycle_kw he hi hb p =
        Makes-then is_statement (consume TokenType.cycle_kw p) _
          λ t q. Makes-pure is_statement _ q refl
    statement-Makes e if_ block loc _ he hi hb p = Makes-throw (Node D) is_statement _ p

    mutual
      unfolding parse_statement is_statement

      parse_statement-Makes : (f : ℕ) → Statements (parse_statement N f)
      parse_statement-Makes zero p = Makes-fuel (Node D) is_statement p
      parse_statement-Makes (suc f) p = Makes-then is_statement (peek p) _ λ t q.
          statement-Makes _ _ _ t.source_location t.type (expression-Makes N f 0)
            (λ r. parse_if-Makes f r) (λ r. parse_block-Makes f end_terminators r) q

      parse_if-Makes : (f : ℕ) (p : Parser) → Makes is_if (parse_if_statement N f p)
      parse_if-Makes zero p = Makes-fuel (Node D) is_if p
      parse_if-Makes (suc f) p =
          if_body-Makes _ _ _ _ (expression-Makes N f 0) (λ r. parse_block-Makes f if_terminators r)
            (λ r. parse_if-Makes f r) (λ r. parse_block-Makes f end_terminators r) p

      parse_block-Makes :
          (f : ℕ) (terms : List TokenType) → Blocks (parse_block_statement N f terms)
      parse_block-Makes zero terms p = Makes-fuel (Node D) is_block p
      parse_block-Makes (suc f) terms p = Makes-then is_block (peek p) _ λ t q.
          Makes-follow are_statements is_block _ _ (parse_statements-Makes f terms q)
            λ ns r h. Makes-pure is_block (block_statement _ ns) r h

      parse_statements-Makes :
          (f : ℕ) (terms : List TokenType) (p : Parser)
          → Makes are_statements (parse_statements N f terms p)
      parse_statements-Makes zero terms p = Makes-fuel (Nodes D) are_statements p
      parse_statements-Makes (suc f) terms p = Makes-then are_statements (peek p) _ λ t q.
          Makes-elim are_statements (is_terminator terms t.type) _ _ q
            (Makes-pure are_statements nil q refl)
            (Makes-follow is_statement are_statements _ _ (parse_statement-Makes f q) λ n r hn.
              Makes-follow are_statements are_statements _ _ (parse_statements-Makes f terms r)
                λ ns s hs. Makes-pure are_statements (cons n ns) s (rw (hn, hs) refl))

    function-Makes :
        (block : Run (Node D))
        → Blocks block
        → (p : Parser) → Makes is_function (parse_function_declaration block p)
    unfolding parse_function_declaration is_function
    function-Makes block hb p = Makes-then is_function (consume TokenType.function_kw p) _ λ t q.
        Makes-then is_function (consume TokenType.identifier q) _ λ name r.
          Makes-then is_function (consume TokenType.lparen r) _ λ u s.
            Makes-then is_function (consume TokenType.rparen s) _ λ v w.
              Makes-follow is_block is_function (block w) _ (hb w) λ n x h.
                Makes-then is_function (consume TokenType.end_kw x) _
                  λ y z. Makes-pure is_function _ z h

    parse_functions-Makes : (f : ℕ) (p : Parser) → Makes are_functions (parse_functions N f p)
    unfolding parse_functions are_functions
    parse_functions-Makes zero p = Makes-fuel (Nodes D) are_functions p
    parse_functions-Makes (suc f) p = Makes-then are_functions (peek p) _ λ t q.
        Makes-elim are_functions (type_eq t.type TokenType.end_of_file) _ _ q
          (Makes-pure are_functions nil q refl)
          (Makes-follow is_function are_functions _ _
            (function-Makes _ (parse_block-Makes f end_terminators) q)
            λ n r hn.
              Makes-follow are_functions are_functions _ _ (parse_functions-Makes f r)
                λ ns s hs. Makes-pure are_functions (cons n ns) s (rw (hn, hs) refl))

    -- A tree that `parse` returns is a program: functions, whose bodies are blocks of statements,
    -- whose operands are expressions; behind an `else` stands a block or the `if` of an `elseif`,
    -- and the type of a declaration is a builtin type.
    pub parse-is_program :
        (ts : List Token) (n : Node D) (p : Parser)
        → parse N ts ≡ some (ok (n, p))
        → is_program n ≡ true
    unfolding parse parse_top_level is_program Makes
    parse-is_program ts n p h =
        subst (λ o. Makes is_program o) h
          (Makes-follow are_functions is_program _ _
            (parse_functions-Makes (4 * length ts + 8) (record { tokens = ts; index = 0 }))
            λ ns q hs. Makes-pure is_program (program no_location ns) q hs)
