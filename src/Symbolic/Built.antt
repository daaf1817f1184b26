-- ===== src/Symbolic/Built.antt =====
-- The builders of src/spec/symint.cpp on a pool with a handle left.
use xdec.Base.{
  ltb, none, ◌≤◌, ℕ, ◌^◌, ◌<◌, ◌≡◌, false, ◌||◌, Option, some, [], ◌∷◌, length, ◌==◌, if◌then◌else◌,
  arith, inl, inr, Option-cases, Bool-cases, ◌>>=◌,
}
use xdec.Table.{find}
use native.Mathlib.Nat.{mod-eq_of_lt}
use xdec.Function.{valid, handle_count, invalid}
use xdec.Symbolic.{
  SymOp, SymNode, SymPool, SymNode-discrete, number, handle, as_literal, is_unknown, fold_unary,
  simplify, ordered, inner, leaf, intern_node, literal, sym_binary, sym_unary, sym_select,
}
use xdec.Symbolic.Result.{IsUnary, IsBinary}
use xdec.Symbolic.Means.{Means}
use xdec.Symbolic.Pool.{IsPool}
use xdec.Symbolic.Build.{
  Builds, interned, sym_binary-Builds_if, sym_unary-Builds_if, sym_select-Builds_if,
}

-- A run that returns while a handle is left is aborted by a full pool only.
pub full_pool :
    (p : SymPool) (o : Option (ℕ × SymPool))
    → (length p.nodes.items < invalid → (id : ℕ) × (q : SymPool) × (o ≡ some (id, q)))
    → o ≡ none
    → invalid ≤ length p.nodes.items
full_pool p o returns h = elim (Bool-cases (ltb (length p.nodes.items) invalid)) [
  | inl room ↦ let (id, q, made) = returns (ground arith) in absurd (ground arith)
  | inr full ↦ ground arith
]

module _ (p : SymPool) (env : ℕ → ℕ) (w : IsPool p) (words : (s : ℕ) → env s < 2 ^ 64) where
  abbrev Stands : ℕ → ℕ → Type 0
  Stands = Means p.nodes.items env

  module _ (room : length p.nodes.items < invalid) where
    abbrev pub Returns : Option (ℕ × SymPool) → Type 0
    Returns o = (id : ℕ) × (q : SymPool) × (o ≡ some (id, q))

    intern_node-Returns : (node : SymNode) → Returns (intern_node node p)
    unfolding intern_node valid
    intern_node-Returns node = elim (Option-cases (find SymNode-discrete node p.nodes.index)) [
      | inr (old, e) ↦ ((interned node p).0, (interned node p).1, ground arith)
      | inl e ↦
          let fits : length p.nodes.items < handle_count = omega arith in
          ((interned node p).0, (interned node p).1, ground (arith, mod-eq_of_lt fits))
    ]

    pub literal-Returns : (value : ℕ) → Returns (literal value p)
    unfolding literal
    literal-Returns value = intern_node-Returns (leaf SymOp.const value 0)

    pub sym_binary-Returns : (op : SymOp) (lhs rhs : ℕ) → Returns (sym_binary op lhs rhs p)
    unfolding sym_binary literal
    sym_binary-Returns op lhs rhs = elim (Bool-cases (is_unknown p lhs || is_unknown p rhs)) [
      | inl e ↦ (p.unknown, p, ground arith)
      | inr e ↦ elim (Option-cases (simplify op lhs rhs p)) [
        | inr (handle k, f) ↦ (k, p, ground arith)
        | inr (number u, f) ↦
            let (id, q, made) = intern_node-Returns (leaf SymOp.const u 0) in (id, q, ground arith)
        | inl f ↦
            let (id, q, made) = intern_node-Returns (inner op (ordered op lhs rhs)) in
            (id, q, ground arith)
      ]
    ]

    pub sym_unary-Returns : (op : SymOp) (operand : ℕ) → Returns (sym_unary op operand p)
    unfolding sym_unary literal
    sym_unary-Returns op operand = elim (Bool-cases (is_unknown p operand)) [
      | inl e ↦ (p.unknown, p, ground arith)
      | inr e ↦ elim (Option-cases (as_literal p operand >>= fold_unary op)) [
        | inr (u, f) ↦
            let (id, q, made) = intern_node-Returns (leaf SymOp.const u 0) in (id, q, ground arith)
        | inl f ↦
            let (id, q, made) = intern_node-Returns (inner op (operand ∷ [])) in
            (id, q, ground arith)
      ]
    ]

    pub sym_select-Returns :
        (condition if_true if_false : ℕ) → Returns (sym_select condition if_true if_false p)
    unfolding sym_select
    sym_select-Returns condition if_true if_false =
        let node = inner SymOp.select (condition ∷ if_true ∷ if_false ∷ []) in
        let (id, q, made) = intern_node-Returns node in
        elim (Option-cases (as_literal p condition)) [
          | inr (u, e) ↦ (if u == 0 then if_false else if_true, p, ground arith)
          | inl e ↦ elim (Bool-cases (if_true == if_false)) [
            | inl meet ↦ (if_true, p, ground arith)
            | inr apart ↦
                elim (Bool-cases
                  (is_unknown p condition || is_unknown p if_true || is_unknown p if_false)) [
                    | inl vague ↦ (p.unknown, p, ground arith)
                    | inr clear ↦ (id, q, ground arith)
                  ]
          ]
        ]

    abbrev pub BuildsIn : Option (ℕ × SymPool) → ℕ → Type 0
    BuildsIn o v = (id : ℕ) × (q : SymPool) × (o ≡ some (id, q)) × Builds p env v id q

    -- From a hash-consed pool with a handle left, whose literals and an assignment of the symbols
    -- are words, for two handles that mean words, and a result of the operation on them in exact or
    -- signed 64-bit arithmetic, `sym_binary` returns a handle that means that result under the
    -- assignment, whatever it folded or reordered, in a pool that is hash-consed again and has
    -- every older node at its handle.
    pub sym_binary-Builds :
        (op : SymOp) (lhs rhs x y v : ℕ)
        → Stands lhs x
        → Stands rhs y
        → IsBinary op x y v
        → BuildsIn (sym_binary op lhs rhs p) v
    sym_binary-Builds op lhs rhs x y v ml mr f =
        let (id, q, made) = sym_binary-Returns op lhs rhs in
        (id, q, made, sym_binary-Builds_if p env w words op lhs rhs x y v id q ml mr f made)

    -- From a hash-consed pool with a handle left, whose literals and an assignment of the symbols
    -- are words, for an operand that means a word, and its complement or negation modulo `2 ^ 64`
    -- as the operation says, `sym_unary` returns a handle that means that result under the
    -- assignment, in a pool that is hash-consed again and has every older node at its handle.
    pub sym_unary-Builds :
        (op : SymOp) (operand x v : ℕ)
        → Stands operand x
        → IsUnary op x v
        → BuildsIn (sym_unary op operand p) v
    sym_unary-Builds op operand x v m f =
        let (id, q, made) = sym_unary-Returns op operand in
        (id, q, made, sym_unary-Builds_if p env w words op operand x v id q m f made)

    -- From a hash-consed pool with a handle left, whose literals and an assignment of the symbols
    -- are words, for a condition that means a word, two branches that are no unknowns, the one that
    -- the condition picks having a meaning, `sym_select` returns a handle with the meaning of the
    -- branch that the condition picks, in a pool that is hash-consed again and has every older node
    -- at its handle.
    pub sym_select-Builds :
        (condition if_true if_false x v : ℕ)
        → Stands condition x
        → Stands (if x == 0 then if_false else if_true) v
        → is_unknown p if_true ≡ false
        → is_unknown p if_false ≡ false
        → BuildsIn (sym_select condition if_true if_false p) v
    sym_select-Builds condition if_true if_false x v mc m known_true known_false =
        let (id, q, made) = sym_select-Returns condition if_true if_false in
        (
          id,
          q,
          made,
          sym_select-Builds_if p env w words condition if_true if_false x v id q mc m known_true
              known_false made,
        )
