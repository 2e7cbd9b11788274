-- ===== src/TypeCheck/Expr/Same.antt =====
-- Two runs of `infer_expr` on expressions that differ in the fields that the type checker fills.
use b2_lang.Prelude.{
  ◌≡◌, refl, false, ◌||◌, none, some, arith, ◌⊎◌, inl, inr, Bool-cases, Option-cases,
}
use b2_lang.Token.{TokenType, SourceLocation, is_bool_operator}
use b2_lang.Error.{Result, ok, err, undefined, ◌>>=◌}
use b2_lang.Ast.{
  TypeId, id_eq, id_eq→eq, Ty, bool_type, no_type, Node, float_literal_expression,
  binary_expression, variable_expression, int_literal_expression,
}
use b2_lang.TypeCheck.Literal.{Doubles, is_literal, find_promotion}
use b2_lang.TypeCheck.Literal.Promotion.{find_promotion_lem}
use b2_lang.TypeCheck.Expr.{
  push_down, resolve_operator, same_operands, Checker, Operands, Checks, resolve_literal_pair,
  infer_expr_bin_expr,
}

-- The expression with the fields `resolved_type` and `operand_type` as the parser leaves them.
unfoldable pub erase : {D : Type 0} → Node D → Node D
erase (float_literal_expression loc v _) = float_literal_expression loc v none
erase (int_literal_expression loc v _) = int_literal_expression loc v none
erase (variable_expression loc name _) = variable_expression loc name none
erase (binary_expression loc op l r _ _) = binary_expression loc op (erase l) (erase r) none none
erase n = n

module _ (F : Doubles) (c : Checker) where
  abbrev Ast : Type 0
  Ast = Node F.Double

  pub not_literal : is_literal TypeId.float_literal ≡ false → ⊥
  unfolding is_literal
  not_literal e = cc

  -- Two runs of `infer_expr` that differ at most in a node whose type is still a literal's.
  abbrev pub Same : Result (Ty × Ast) → Result (Ty × Ast) → Type 0
  Same (ok (s, m)) (ok (t, n)) = (s ≡ t) × (is_literal s.type_id ≡ false → m ≡ n)
  Same (err e) (err f) = e ≡ f
  Same undefined undefined = Unit
  Same _ _ = ⊥

  pub Same-refl : (r : Result (Ty × Ast)) → Same r r
  Same-refl (ok (t, n)) = (refl, λ _. refl)
  Same-refl (err e) = refl
  Same-refl undefined = tt

  -- `o` with other operands.
  abbrev swap_operands : Operands F c → Ast → Ast → Operands F c
  swap_operands o l r = record o { lhs = l; rhs = r }

  -- Operands whose type is known are the same.
  record Agree (o : Operands F c) (l r : Ast) : Type 0 where
    left_same : is_literal o.left.type_id ≡ false → o.lhs ≡ l
    right_same : is_literal o.right.type_id ≡ false → o.rhs ≡ r
    operand_ok :
        (o.operand_type.type_id ≡ TypeId.sentinel) ⊎ (o.operand_type.type_id ≡ o.left.type_id)

  abbrev SameOperands : Result (Operands F c) → Result (Operands F c) → Type 0
  SameOperands (ok o) (ok p) = (p ≡ swap_operands o p.lhs p.rhs) × Agree o p.lhs p.rhs
  SameOperands (err e) (err f) = e ≡ f
  SameOperands undefined undefined = Unit
  SameOperands _ _ = ⊥

  Same-left :
      (r : Result Ast) (o : Operands F c) (found : Ty) (n : Ast)
      → (is_literal found.type_id ≡ false → o.rhs ≡ n)
      → SameOperands
          (r >>= λ lhs.
            ok (record o { left = found; right = found; operand_type = found; lhs = lhs }))
          (r >>= λ lhs.
            ok (record o { left = found; right = found; operand_type = found; lhs = lhs; rhs = n }))
  Same-left (ok m) o found n h =
      (refl, record { left_same = λ _. refl; right_same = h; operand_ok = inr refl })
  Same-left (err e) o found n h = refl
  Same-left undefined o found n h = tt

  Same-right :
      (r : Result Ast) (o : Operands F c) (found : Ty) (n : Ast)
      → (is_literal found.type_id ≡ false → o.lhs ≡ n)
      → SameOperands
          (r >>= λ rhs.
            ok (record o { left = found; right = found; operand_type = found; rhs = rhs }))
          (r >>= λ rhs.
            ok (record o { left = found; right = found; operand_type = found; lhs = n; rhs = rhs }))
  Same-right (ok m) o found n h =
      (refl, record { left_same = h; right_same = λ _. refl; operand_ok = inr refl })
  Same-right (err e) o found n h = refl
  Same-right undefined o found n h = tt

  module _ (loc : SourceLocation) (op : TokenType) (check_lhs check_rhs : Checks F c) where
    push_down-Same :
        (o : Operands F c) (l r : Ast) (found : Ty)
        → Agree o l r
        → find_promotion o.left o.right ≡ some found
        → SameOperands
            (push_down F c o.left check_lhs check_rhs o found)
            (push_down F c o.left check_lhs check_rhs (swap_operands o l r) found)
    unfolding push_down
    push_down-Same o l r found a h =
        let ids = find_promotion_lem o.left o.right h in
        elim (Bool-cases (is_literal found.type_id)) [
          | inl e ↦ rw e (
            refl,
            record {
              left_same = λ n. cc (e, n);
              right_same = λ n. cc (e, n);
              operand_ok = inr refl;
            },
          )
          | inr n ↦ elim (Bool-cases (is_literal o.left.type_id)) [
            | inl k ↦
                rw (n, k) (Same-left (check_lhs found) o found r λ _. a.right_same (ground arith))
            | inr k ↦ rw (n, k) (Same-right (check_rhs found) o found l λ _. a.left_same k)
          ]
        ]

    resolve_literal_pair-Same :
        (o : Operands F c) (l r : Ast)
        → Agree o l r
        → SameOperands
            (resolve_literal_pair F c loc op check_lhs check_rhs o)
            (resolve_literal_pair F c loc op check_lhs check_rhs (swap_operands o l r))
    unfolding resolve_literal_pair
    resolve_literal_pair-Same o l r a = elim (Option-cases (find_promotion o.left o.right)) [
      | inl h ↦ rw h refl
      | inr (found, h) ↦ rw h (push_down-Same o l r found a h)
    ]

    resolve_operator-Same :
        (o : Operands F c) (l r : Ast)
        → Agree o l r
        → o.left.type_id ≡ o.right.type_id
        → Same
            (resolve_operator F c loc op check_lhs check_rhs o)
            (resolve_operator F c loc op check_lhs check_rhs (swap_operands o l r))
    unfolding resolve_operator
    resolve_operator-Same o l r a same = elim (Bool-cases (is_bool_operator op)) [
      | inl e ↦ elim (Bool-cases (is_literal o.left.type_id)) [
        | inl k ↦ rw (e, k, rw same at k) (Same-refl _)
        | inr k ↦ rw (e, k) (refl, λ _. node o.left bool_type k)
      ]
      | inr e ↦ elim (Bool-cases (id_eq o.operand_type.type_id TypeId.sentinel)) [
        | inl s ↦ rw (e, s) (refl, node o.left o.left)
        | inr s ↦ rw (e, s) (refl, λ n. node o.operand_type o.operand_type (rw (operand s) at n))
      ]
    ]
      where
        node :
            (t s : Ty)
            → is_literal o.left.type_id ≡ false
            → binary_expression loc op o.lhs o.rhs (some t) (some s)
              ≡ binary_expression loc op l r (some t) (some s)
        node t s n = cc (a.left_same n, a.right_same (rw same at n))

        operand :
            id_eq o.operand_type.type_id TypeId.sentinel ≡ false
            → o.operand_type.type_id ≡ o.left.type_id
        operand s = elim a.operand_ok [ inl none_yet ↦ cc (rw none_yet at s) | inr e ↦ e ]

    same_operands-Same :
        (o : Operands F c) (l r : Ast)
        → Agree o l r
        → Same
            (same_operands F c loc op check_lhs check_rhs o)
            (same_operands F c loc op check_lhs check_rhs (swap_operands o l r))
    unfolding same_operands
    same_operands-Same o l r a = elim (Bool-cases (id_eq o.left.type_id o.right.type_id)) [
      | inl e ↦ rw e (resolve_operator-Same o l r a (id_eq→eq o.left.type_id o.right.type_id e))
      | inr n ↦ rw n refl
    ]

    finish-Same :
        (p q : Result (Operands F c))
        → SameOperands p q
        → Same
            (p >>= same_operands F c loc op check_lhs check_rhs)
            (q >>= same_operands F c loc op check_lhs check_rhs)
    finish-Same (ok o) (ok p) h = rw h.0 (same_operands-Same o p.lhs p.rhs h.1)
    finish-Same (ok o) (err e) h = absurd h
    finish-Same (ok o) undefined h = absurd h
    finish-Same (err e) (ok p) h = absurd h
    finish-Same (err e) (err f) h = h
    finish-Same (err e) undefined h = absurd h
    finish-Same undefined (ok p) h = absurd h
    finish-Same undefined (err e) h = absurd h
    finish-Same undefined undefined h = tt

    typed_operands-Same :
        (s t : Ty) (m n m' n' : Ast)
        → (is_literal s.type_id ≡ false → m ≡ m')
        → (is_literal t.type_id ≡ false → n ≡ n')
        → Same
            (infer_expr_bin_expr F c loc op check_lhs check_rhs (ok (s, m)) (ok (t, n)))
            (infer_expr_bin_expr F c loc op check_lhs check_rhs (ok (s, m')) (ok (t, n')))
    unfolding infer_expr_bin_expr
    typed_operands-Same s t m n m' n' h k =
        elim (Bool-cases (is_literal s.type_id || is_literal t.type_id)) [
          | inl e ↦ rw e (finish-Same _ _ (resolve_literal_pair-Same o m' n' agree))
          | inr e ↦ rw e (same_operands-Same o m' n' agree)
        ]
      where
        o : Operands F c
        o = record { left = s; right = t; operand_type = no_type; lhs = m; rhs = n }

        agree : Agree o m' n'
        agree = record { left_same = h; right_same = k; operand_ok = inl refl }

    pub infer_bin-Same :
        (l r l' r' : Result (Ty × Ast))
        → Same l l'
        → Same r r'
        → Same
            (infer_expr_bin_expr F c loc op check_lhs check_rhs l r)
            (infer_expr_bin_expr F c loc op check_lhs check_rhs l' r')
    unfolding infer_expr_bin_expr
    infer_bin-Same (ok (s, m)) (ok (t, n)) (ok (s', m')) (ok (t', n')) h k =
        rw (← h.0, ← k.0) (unfold infer_expr_bin_expr in typed_operands-Same s t m n m' n' h.1 k.1)
    infer_bin-Same (ok (s, m)) (err e) (ok (s', m')) (err f) h k = k
    infer_bin-Same (ok (s, m)) undefined (ok (s', m')) undefined h k = tt
    infer_bin-Same (err e) r (err f) r' h k = h
    infer_bin-Same undefined r undefined r' h k = tt
    infer_bin-Same (ok (s, m)) (ok (t, n)) (ok (s', m')) (err f) h k = absurd k
    infer_bin-Same _ _ _ _ h k = ground arith
    -- The node that `check_expr` takes from `infer_expr_bin_expr`.
