-- ===== src/Symbolic/Clear.antt =====
-- The handles that the rules of `binary` in src/spec/symint.cpp return.
use xdec.Base.{
  ℕ, ◌^◌, ◌<◌, ◌≡◌, refl, Bool, true, false, Option, none, some, arith, inl, inr, Option-cases,
  Bool-cases, ◌==◌,
}
use xdec.Function.{at}
use xdec.Function.WellFormed.Blocks.{at-get_elem?}
use xdec.Symbolic.{
  SymOp, SymNode, SymPool, simplify, Folded, number, handle, as_literal, fold_binary,
  fold_constants, fold_identity, fold_same, fold_cancel, twice_folded, subtrahend_of,
  addend_besides, pair_of, is_sub, is_add,
}
use xdec.Symbolic.Folds.{fold_binary-lt}
use xdec.Symbolic.Sound.{pair_of-eq-some}
use xdec.Symbolic.Pool.{IsPool}
use xdec.Symbolic.Ordered.{IsOrdered, IsClear}

fold_identity_other :
    (op : SymOp) (v : ℕ) (right : Bool) (other h : ℕ)
    → fold_identity op v right other ≡ some h
    → h ≡ other
unfolding fold_identity
fold_identity_other op v right other h e = ground arith

module _ (p : SymPool) (w : IsPool p) (o : IsOrdered p) where
  pub literal_lt : (id u : ℕ) → as_literal p id ≡ some u → u < 2 ^ 64
  unfolding as_literal
  literal_lt id u h = elim (Option-cases (at p.nodes.items id)) [
    | inl gone ↦ absurd (ground arith)
    | inr (n, e) ↦ let small = w.words id n (at-get_elem? p.nodes.items id n e) in ground arith
  ]

  abbrev pub ClearOut : Folded → Type 0
  ClearOut (number u) = u < 2 ^ 64
  ClearOut (handle h) = IsClear p h

  fold_constants-ClearOut :
      (op : SymOp) (lhs rhs : ℕ) (l r : Option ℕ) (out : Folded)
      → IsClear p lhs
      → IsClear p rhs
      → ((u : ℕ) → l ≡ some u → u < 2 ^ 64)
      → ((u : ℕ) → r ≡ some u → u < 2 ^ 64)
      → fold_constants op lhs rhs l r ≡ some out
      → ClearOut out
  unfolding fold_constants
  fold_constants-ClearOut op lhs rhs (some a) (some b) out cl cr hl hr h =
      elim (Option-cases (fold_binary op a b)) [
        | inl gone ↦ absurd (ground arith)
        | inr (v, e) ↦
            let same : number v ≡ out = ground arith in
            rw (← same) (fold_binary-lt op a b v (hl a refl) (hr b refl) e)
      ]
  fold_constants-ClearOut op lhs rhs (some a) none out cl cr hl hr h =
      elim (Option-cases (fold_identity op a false rhs)) [
        | inl gone ↦ absurd (ground arith)
        | inr (k, e) ↦
            let same : handle k ≡ out = ground arith in
            rw (← same, fold_identity_other op a false rhs k e) cr
      ]
  fold_constants-ClearOut op lhs rhs none (some b) out cl cr hl hr h =
      elim (Option-cases (fold_identity op b true lhs)) [
        | inl gone ↦ absurd (ground arith)
        | inr (k, e) ↦
            let same : handle k ≡ out = ground arith in
            rw (← same, fold_identity_other op b true lhs k e) cl
      ]
  fold_constants-ClearOut op lhs rhs none none out cl cr hl hr h = absurd (ground arith)

  twice_folded-ClearOut :
      (op : SymOp) (h : ℕ) (out : Folded)
      → IsClear p h
      → twice_folded op h ≡ some out
      → ClearOut out
  twice_folded-ClearOut op h (number u) c e = ground arith
  twice_folded-ClearOut op h (handle k) c e = let same : h ≡ k = ground arith in rw (← same) c

  pair_of-IsClear :
      (t : Bool) (c a b : ℕ) (n : SymNode)
      → at p.nodes.items c ≡ some n
      → pair_of t n.operands ≡ some (a, b)
      → IsClear p a × IsClear p b
  pair_of-IsClear t c a b n e h =
      let (two, args) = pair_of-eq-some t n.operands a b h in
      let there = at-get_elem? p.nodes.items c n e in
      (o.clear c a n there (rw args (inl refl)), o.clear c b n there (rw args (inr (inl refl))))

  subtrahend_of-IsClear :
      (candidate term h : ℕ) → subtrahend_of p candidate term ≡ some h → IsClear p h
  unfolding subtrahend_of
  subtrahend_of-IsClear candidate term h e = elim (Option-cases (at p.nodes.items candidate)) [
    | inl gone ↦ absurd (ground arith)
    | inr (n, en) ↦ elim (Option-cases (pair_of (is_sub n.op) n.operands)) [
      | inl gone ↦ absurd (ground arith)
      | inr ((a, b), ep) ↦
          let (left, right) = pair_of-IsClear (is_sub n.op) candidate a b n en ep in
          let out : a ≡ h = ground arith in rw (← out) left
    ]
  ]

  addend_besides-IsClear : (sum term h : ℕ) → addend_besides p sum term ≡ some h → IsClear p h
  unfolding addend_besides
  addend_besides-IsClear sum term h e = elim (Option-cases (at p.nodes.items sum)) [
    | inl gone ↦ absurd (ground arith)
    | inr (n, en) ↦ elim (Option-cases (pair_of (is_add n.op) n.operands)) [
      | inl gone ↦ absurd (ground arith)
      | inr ((a, b), ep) ↦
          let (left, right) = pair_of-IsClear (is_add n.op) sum a b n en ep in
          elim (Bool-cases (a == term)) [
            | inl here ↦ let out : b ≡ h = ground arith in rw (← out) right
            | inr other ↦ let out : a ≡ h = ground arith in rw (← out) left
          ]
    ]
  ]

  fold_cancel-IsClear :
      (op : SymOp) (lhs rhs h : ℕ) → fold_cancel op lhs rhs p ≡ some h → IsClear p h
  unfolding fold_cancel
  fold_cancel-IsClear SymOp.add lhs rhs h e = elim (Option-cases (subtrahend_of p rhs lhs)) [
    | inr (k, ek) ↦ subtrahend_of-IsClear rhs lhs h (ground arith)
    | inl other ↦ subtrahend_of-IsClear lhs rhs h (ground arith)
  ]
  fold_cancel-IsClear SymOp.sub lhs rhs h e = addend_besides-IsClear lhs rhs h e
  fold_cancel-IsClear op lhs rhs h e = absurd (ground arith)

  pub simplify-ClearOut :
      (op : SymOp) (lhs rhs : ℕ) (out : Folded)
      → IsClear p lhs
      → IsClear p rhs
      → simplify op lhs rhs p ≡ some out
      → ClearOut out
  unfolding simplify fold_same
  simplify-ClearOut op lhs rhs out l r h =
      elim (Option-cases (fold_constants op lhs rhs (as_literal p lhs) (as_literal p rhs))) [
        | inr (k, e) ↦
            fold_constants-ClearOut op lhs rhs (as_literal p lhs) (as_literal p rhs) out l r
              (literal_lt lhs) (literal_lt rhs) (ground arith)
        | inl e ↦ elim (Option-cases (fold_same op lhs rhs)) [
          | inr (k, e') ↦ twice_folded-ClearOut op lhs out l (ground arith)
          | inl e' ↦ elim (Option-cases (fold_cancel op lhs rhs p)) [
            | inl e'' ↦ absurd (ground arith)
            | inr (k, e'') ↦
                let same : handle k ≡ out = ground arith in
                rw (← same) (fold_cancel-IsClear op lhs rhs k e'')
          ]
        ]
      ]
