-- ===== src/Symbolic/Adds.antt =====
-- What the builders of src/spec/symint.cpp add to an ordered pool.
use xdec.Base.{
  ℕ, ◌^◌, ◌<◌, ◌≡◌, refl, true, false, some, List, [], ◌∷◌, In, arith, inl, inr, Option-cases,
  Bool-cases, ltb, ◌&&◌, ◌==◌, if◌then◌else◌,
}
use xdec.Symbolic.{
  SymOp, SymNode, SymPool, is_unknown, is_unknown_op, intern_node, literal, inner, leaf, ordered,
  sym_binary, sym_unary, sym_select, simplify, number, handle, is_commutative, as_literal,
  fold_unary,
}
use xdec.Symbolic.Folds.{fold_unary-lt}
use xdec.Symbolic.Pool.{IsPool}
use xdec.Symbolic.Build.{Places, intern_node-Places}
use xdec.Symbolic.Ordered.{
  IsOrdered, Kept, Places-Kept, IsClear, Fits, no_operand, one_operand, two_operands,
  three_operands, is_inner,
}
use xdec.Symbolic.Clear.{literal_lt, simplify-ClearOut}

-- A builder's result: an older pool grown, and a handle of it that is no unknown.
pub record Adds (p : SymPool) (id : ℕ) (q : SymPool) : Type 0 where
  pub kept : Kept p q
  pub clear : IsClear q id

Places-Adds :
    (node : SymNode) (p q : SymPool) (id : ℕ)
    → IsOrdered p
    → Fits node.op node.operands
    → is_unknown_op node.op ≡ false
    → ((a : ℕ) → In a node.operands → IsClear p a)
    → Places node p id q
    → Adds p id q
unfolding is_unknown
Places-Adds node p q id o fits known clear put =
    let there = put.found in
    record { kept = Places-Kept node p q id o fits clear put; clear = ground arith }

not_unknown : (op : SymOp) → is_inner op ≡ true → is_unknown_op op ≡ false
not_unknown op h = ground arith

module _ (p : SymPool) (w : IsPool p) (o : IsOrdered p) where
  stays-Adds : (a id : ℕ) (q : SymPool) → IsClear p a → a ≡ id → p ≡ q → Adds p id q
  stays-Adds a id q h e same =
      rw (← same, ← e)
        (record {
          kept = record { pool = w; ordered = o; old = λ i x k. k; symbols = refl };
          clear = h;
        })

  abbrev AllClear : List ℕ → Type 0
  AllClear xs = (a : ℕ) → In a xs → IsClear p a

  no_operands : AllClear []
  no_operands a i = absurd i

  clear_cons : (a : ℕ) (xs : List ℕ) → IsClear p a → AllClear xs → AllClear (a ∷ xs)
  clear_cons a xs h rest b i = elim i [ inl same ↦ rw same h | inr later ↦ rest b later ]

  two_clear : (a b : ℕ) → IsClear p a → IsClear p b → AllClear (a ∷ b ∷ [])
  two_clear a b h k = clear_cons a (b ∷ []) h (clear_cons b [] k no_operands)

  pub literal-Adds :
      (u id : ℕ) (q : SymPool) → u < 2 ^ 64 → literal u p ≡ some (id, q) → Adds p id q
  unfolding literal
  literal-Adds u id q small h =
      let node = leaf SymOp.const u 0 in
      Places-Adds node p q id o (no_operand refl) refl no_operands
        (intern_node-Places node p q id w small h)

  pub sym_select-Adds :
      (condition if_true if_false id : ℕ) (q : SymPool)
      → IsClear p condition
      → IsClear p if_true
      → IsClear p if_false
      → sym_select condition if_true if_false p ≡ some (id, q)
      → Adds p id q
  unfolding sym_select
  sym_select-Adds condition if_true if_false id q c t f h =
      elim (Option-cases (as_literal p condition)) [
        | inr (u, e) ↦
            stays-Adds (if u == 0 then if_false else if_true) id q (ground arith) (ground arith)
              (ground arith)
        | inl e ↦ elim (Bool-cases (if_true == if_false)) [
          | inl meet ↦ stays-Adds if_true id q t (ground arith) (ground arith)
          | inr apart ↦
              let node = inner SymOp.select (condition ∷ if_true ∷ if_false ∷ []) in
              Places-Adds node p q id o three_operands refl
                (clear_cons condition (if_true ∷ if_false ∷ []) c (two_clear if_true if_false t f))
                (intern_node-Places node p q id w (omega arith) (ground arith))
        ]
      ]

  unary_new :
      (op : SymOp) (operand id : ℕ) (q : SymPool)
      → is_inner op ≡ true
      → IsClear p operand
      → intern_node (inner op (operand ∷ [])) p ≡ some (id, q)
      → Adds p id q
  unary_new op operand id q i c h =
      Places-Adds (inner op (operand ∷ [])) p q id o (one_operand i) (not_unknown op i)
        (clear_cons operand [] c no_operands)
        (intern_node-Places (inner op (operand ∷ [])) p q id w (omega arith) h)

  binary_new :
      (op : SymOp) (lhs rhs id : ℕ) (q : SymPool)
      → is_inner op ≡ true
      → IsClear p lhs
      → IsClear p rhs
      → intern_node (inner op (lhs ∷ rhs ∷ [])) p ≡ some (id, q)
      → Adds p id q
  binary_new op lhs rhs id q i l r h =
      Places-Adds (inner op (lhs ∷ rhs ∷ [])) p q id o (two_operands i) (not_unknown op i)
        (two_clear lhs rhs l r)
        (intern_node-Places (inner op (lhs ∷ rhs ∷ [])) p q id w (omega arith) h)

  ordered_new :
      (op : SymOp) (lhs rhs id : ℕ) (q : SymPool)
      → is_inner op ≡ true
      → IsClear p lhs
      → IsClear p rhs
      → intern_node (inner op (ordered op lhs rhs)) p ≡ some (id, q)
      → Adds p id q
  ordered_new op lhs rhs id q i l r h = elim (Bool-cases (is_commutative op && ltb rhs lhs)) [
    | inl swapped ↦ binary_new op rhs lhs id q i r l (rw swapped at h)
    | inr straight ↦ binary_new op lhs rhs id q i l r (rw straight at h)
  ]

  pub sym_unary-Adds :
      (op : SymOp) (operand id : ℕ) (q : SymPool)
      → is_inner op ≡ true
      → IsClear p operand
      → sym_unary op operand p ≡ some (id, q)
      → Adds p id q
  unfolding sym_unary
  sym_unary-Adds op operand id q i c h = elim (Option-cases (as_literal p operand)) [
    | inl e ↦ unary_new op operand id q i c (ground arith)
    | inr (u, e) ↦ elim (Option-cases (fold_unary op u)) [
      | inl e' ↦ unary_new op operand id q i c (ground arith)
      | inr (v, e') ↦
          literal-Adds v id q (fold_unary-lt op u v (literal_lt p w o operand u e) e')
            (ground arith)
    ]
  ]

  pub sym_binary-Adds :
      (op : SymOp) (lhs rhs id : ℕ) (q : SymPool)
      → is_inner op ≡ true
      → IsClear p lhs
      → IsClear p rhs
      → sym_binary op lhs rhs p ≡ some (id, q)
      → Adds p id q
  unfolding sym_binary
  sym_binary-Adds op lhs rhs id q i l r h = elim (Option-cases (simplify op lhs rhs p)) [
    | inl e ↦ ordered_new op lhs rhs id q i l r (ground arith)
    | inr (number u, e) ↦
        literal-Adds u id q (simplify-ClearOut p w o op lhs rhs (number u) l r e) (ground arith)
    | inr (handle k, e) ↦
        stays-Adds k id q (simplify-ClearOut p w o op lhs rhs (handle k) l r e) (ground arith)
          (ground arith)
  ]
