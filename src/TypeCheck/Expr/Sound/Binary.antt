-- ===== src/TypeCheck/Expr/Sound/Binary.antt =====
-- The types that `infer_expr_bin_expr` (src/type_check_visitor.cxx) leaves in a binary expression.
use b2_lang.Prelude.{
  ◌≡◌, refl, ◌⊎◌, inl, inr, true, false, ◌||◌, some, arith, Bool-cases, Option-cases, subst, sym,
  ◌∙◌,
}
use b2_lang.Token.{TokenType, SourceLocation, is_bool_operator}
use b2_lang.Error.{Result, ok, err, undefined, ◌>>=◌}
use b2_lang.Ast.{TypeId, id_eq, id_eq→eq, Ty, bool_type, no_type, Node, binary_expression}
use b2_lang.TypeCheck.Literal.{Doubles, is_literal, find_promotion, get_literal_default}
use b2_lang.TypeCheck.Literal.Promotion.{find_promotion_lem}
use b2_lang.TypeCheck.Expr.{
  push_down, resolve_operator, same_operands, Checker, Operands, Checks, resolve_literal_pair,
  infer_expr_bin_expr,
}
use b2_lang.TypeCheck.Expr.Sound.Typed.{
  TypedAs, IsComparison, Fits, OperatorFits, IsTyped, Checked, Inferred, AllChecked,
}

module _ (F : Doubles) (c : Checker) where
  abbrev Ast : Type 0
  Ast = Node F.Double

  -- Between the statements of `infer_expr_bin_expr`.
  record OperandsInv (o : Operands F c) : Type 0 where
    pub left_ok :
        is_literal o.left.type_id ≡ false → IsTyped F c o.lhs × Fits F c o.lhs o.left.type_id
    pub right_ok :
        is_literal o.right.type_id ≡ false → IsTyped F c o.rhs × Fits F c o.rhs o.right.type_id
    pub operand_ok :
        (o.operand_type.type_id ≡ TypeId.sentinel) ⊎ (o.operand_type.type_id ≡ o.left.type_id)

  abbrev Resolved : Result (Operands F c) → Type 0
  Resolved (ok o) = OperandsInv o
  Resolved (err e) = Unit
  Resolved undefined = Unit

  Fits-subst :
      (n : Ast) {s t : TypeId} → s ≡ t → IsTyped F c n × Fits F c n s → IsTyped F c n × Fits F c n t
  Fits-subst n e h = (h.0, subst (Fits F c n) e h.1)

  Checked-left :
      (r : Result Ast) (o : Operands F c) (found : Ty)
      → Checked F c found.type_id r
      → (is_literal found.type_id ≡ false → IsTyped F c o.rhs × Fits F c o.rhs found.type_id)
      → Resolved (
          r >>= λ lhs.
          ok (record o { left = found; right = found; operand_type = found; lhs = lhs }))
  Checked-left (ok n) o found h k = record { left_ok = λ _. h; right_ok = k; operand_ok = inr refl }
  Checked-left (err e) o found h k = tt
  Checked-left undefined o found h k = tt

  Checked-right :
      (r : Result Ast) (o : Operands F c) (found : Ty)
      → Checked F c found.type_id r
      → (is_literal found.type_id ≡ false → IsTyped F c o.lhs × Fits F c o.lhs found.type_id)
      → Resolved (
          r >>= λ rhs.
          ok (record o { left = found; right = found; operand_type = found; rhs = rhs }))
  Checked-right (ok n) o found h k = record {
    left_ok = k;
    right_ok = λ _. h;
    operand_ok = inr refl;
  }
  Checked-right (err e) o found h k = tt
  Checked-right undefined o found h k = tt

  module _ (loc : SourceLocation) (op : TokenType) (check_lhs check_rhs : Checks F c)
      (lhs_checked : AllChecked F c check_lhs) (rhs_checked : AllChecked F c check_rhs) where
    push_down-Resolved :
        (o : Operands F c) (found : Ty)
        → OperandsInv o
        → find_promotion o.left o.right ≡ some found
        → Resolved (push_down F c o.left check_lhs check_rhs o found)
    unfolding push_down
    push_down-Resolved o found inv h =
        let ids = find_promotion_lem o.left o.right h in
        elim (Bool-cases (is_literal found.type_id)) [
          | inl e ↦ rw e (record {
            left_ok = λ n. cc (e, n);
            right_ok = λ n. cc (e, n);
            operand_ok = inr refl;
          })
          | inr n ↦ elim (Bool-cases (is_literal o.left.type_id)) [
            | inl l ↦
                rw (n, l)
                  (Checked-left (check_lhs found) o found (lhs_checked found) (λ _.
                    let r : is_literal o.right.type_id ≡ false = ground arith in
                    Fits-subst o.rhs (sym (ids.2 r)) (inv.right_ok r)))
            | inr l ↦
                rw (n, l)
                  (Checked-right (check_rhs found) o found (rhs_checked found)
                    (λ _. Fits-subst o.lhs (sym (ids.1 l)) (inv.left_ok l)))
          ]
        ]

    resolve_literal_pair-Resolved :
        (o : Operands F c)
        → OperandsInv o
        → Resolved (resolve_literal_pair F c loc op check_lhs check_rhs o)
    unfolding resolve_literal_pair
    resolve_literal_pair-Resolved o inv = elim (Option-cases (find_promotion o.left o.right)) [
      | inl h ↦ rw h tt
      | inr (found, h) ↦ rw h (push_down-Resolved o found inv h)
    ]

    -- As `Inferred F c`; and a comparison is known to be one.
    abbrev pub BinInferred : Result (Ty × Ast) → Type 0
    BinInferred (ok (t, n)) =
        (is_literal t.type_id ≡ false → IsTyped F c n × TypedAs F c n t.type_id)
        × (is_bool_operator op ≡ true → (t.type_id ≡ TypeId.bool) × IsComparison F c n)
    BinInferred (err e) = Unit
    BinInferred undefined = Unit

    compared-BinInferred :
        (t : Ty) (l r : Result Ast)
        → is_bool_operator op ≡ true
        → Checked F c t.type_id l
        → Checked F c t.type_id r
        → BinInferred (do
          lhs ← l
          rhs ← r
          ok (bool_type, binary_expression loc op lhs rhs (some t) (some bool_type)))
    compared-BinInferred t (ok m) (ok n) e h k =
        (λ _. ((h.0, k.0, h.1, k.1, inl (e, refl)), refl), λ _. (refl, e))
    compared-BinInferred t (ok m) (err x) e h k = tt
    compared-BinInferred t (ok m) undefined e h k = tt
    compared-BinInferred t (err x) r e h k = tt
    compared-BinInferred t undefined r e h k = tt

    defaulted-BinInferred :
        (d : Result Ty)
        → is_bool_operator op ≡ true
        → BinInferred (do
          t ← d
          lhs ← check_lhs t
          rhs ← check_rhs t
          ok (bool_type, binary_expression loc op lhs rhs (some t) (some bool_type)))
    defaulted-BinInferred (ok t) e =
        compared-BinInferred t (check_lhs t) (check_rhs t) e (lhs_checked t) (rhs_checked t)
    defaulted-BinInferred (err x) e = tt
    defaulted-BinInferred undefined e = tt

    -- With operands of one type that is no literal's, the node is typed.
    operands-IsTyped :
        (o : Operands F c) (t r : Ty)
        → OperandsInv o
        → o.left.type_id ≡ o.right.type_id
        → t.type_id ≡ o.left.type_id
        → is_literal t.type_id ≡ false
        → OperatorFits F c op t r
        → IsTyped F c (binary_expression loc op o.lhs o.rhs (some t) (some r))
    operands-IsTyped o t r inv same e n fits =
        let l = Fits-subst o.lhs (sym e) (inv.left_ok (rw e at n)) in
        let k = Fits-subst o.rhs (sym (e ∙ same)) (inv.right_ok (rw (e ∙ same) at n)) in
        (l.0, k.0, l.1, k.1, fits)

    resolve_operator-BinInferred :
        (o : Operands F c)
        → OperandsInv o
        → o.left.type_id ≡ o.right.type_id
        → BinInferred (resolve_operator F c loc op check_lhs check_rhs o)
    unfolding resolve_operator
    resolve_operator-BinInferred o inv same = elim (Bool-cases (is_bool_operator op)) [
      | inl e ↦ elim (Bool-cases (is_literal o.left.type_id)) [
        | inl l ↦ rw (e, l, rw same at l) (defaulted-BinInferred (get_literal_default o.left loc) e)
        | inr l ↦
            rw (e, l)
              (
                (λ _. (operands-IsTyped o o.left bool_type inv same refl l (inl (e, refl)), refl)),
                λ _. (refl, e),
              )
      ]
      | inr e ↦ elim (Bool-cases (id_eq o.operand_type.type_id TypeId.sentinel)) [
        | inl s ↦
            rw (e, s)
              (
                (λ n. (operands-IsTyped o o.left o.left inv same refl n (inr (e, refl)), refl)),
                λ b. cc (e, b),
              )
        | inr s ↦
            rw (e, s)
              (
                (λ n. (
                  operands-IsTyped o o.operand_type o.operand_type inv same (operand s) n
                      (inr (e, refl)),
                  refl,
                )),
                λ b. cc (e, b),
              )
      ]
    ]
      where
        operand :
            id_eq o.operand_type.type_id TypeId.sentinel ≡ false
            → o.operand_type.type_id ≡ o.left.type_id
        operand s = elim inv.operand_ok [ inl none_yet ↦ cc (rw none_yet at s) | inr e ↦ e ]

    same_operands-BinInferred :
        (o : Operands F c)
        → OperandsInv o
        → BinInferred (same_operands F c loc op check_lhs check_rhs o)
    unfolding same_operands
    same_operands-BinInferred o inv = elim (Bool-cases (id_eq o.left.type_id o.right.type_id)) [
      | inl e ↦
          rw e (resolve_operator-BinInferred o inv (id_eq→eq o.left.type_id o.right.type_id e))
      | inr n ↦ rw n tt
    ]

    finish-BinInferred :
        (r : Result (Operands F c))
        → Resolved r
        → BinInferred (r >>= same_operands F c loc op check_lhs check_rhs)
    finish-BinInferred (ok o) inv = same_operands-BinInferred o inv
    finish-BinInferred (err e) inv = tt
    finish-BinInferred undefined inv = tt

    pub infer_bin-BinInferred :
        (l r : Result (Ty × Ast))
        → Inferred F c l
        → Inferred F c r
        → BinInferred (infer_expr_bin_expr F c loc op check_lhs check_rhs l r)
    unfolding infer_expr_bin_expr
    infer_bin-BinInferred (ok (s, m)) (ok (t, n)) h k =
        elim (Bool-cases (is_literal s.type_id || is_literal t.type_id)) [
          | inl e ↦ rw e (finish-BinInferred _ (resolve_literal_pair-Resolved o inv))
          | inr e ↦ rw e (finish-BinInferred (ok o) inv)
        ]
      where
        o : Operands F c
        o = record { left = s; right = t; operand_type = no_type; lhs = m; rhs = n }

        inv : OperandsInv o
        inv = record {
          left_ok = λ e. ((h e).0, inl (h e).1);
          right_ok = λ e. ((k e).0, inl (k e).1);
          operand_ok = inl refl;
        }
    infer_bin-BinInferred (ok (s, m)) (err e) h k = tt
    infer_bin-BinInferred (ok (s, m)) undefined h k = tt
    infer_bin-BinInferred (err e) r h k = tt
    infer_bin-BinInferred undefined r h k = tt
