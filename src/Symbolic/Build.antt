-- ===== src/Symbolic/Build.antt =====
-- What `binary`, `unary` and `select` of src/spec/symint.cpp leave in the pool.
use xdec.Base.{
  ℕ, ◌%◌, ◌^◌, ◌<◌, ◌≡◌, refl, ap, true, false, ◌&&◌, none, some, [], ◌∷◌, length, ◌==◌,
  if◌then◌else◌, arith, inl, inr, get_elem?, Option-cases, Bool-cases, ltb,
}
use Prim.Native.String.{String}
use xdec.Function.Names.{String-discrete}
use xdec.Table.{find, intern_key, empty}
use xdec.Table.Interned.{empty-Agrees}
use xdec.Table.Handles.{intern_key-Grows}
use xdec.Function.{at, valid, handle_count}
use xdec.Symbolic.{
  SymOp, SymNode, SymPool, SymNode-discrete, number, handle, as_literal, is_unknown, fold_unary,
  simplify, ordered, inner, leaf, intern_node, literal, sym_binary, sym_unary, sym_select,
  is_commutative, new_pool, symbol_named,
}
use xdec.Base.{◌⊎◌}
use xdec.Symbolic.Result.{IsUnary, IsBinary}
use xdec.Symbolic.Adequate.{IsUnary-fold_unary, IsBinary-fold_binary, IsBinary-comm}
use xdec.Symbolic.Means.{Means}
use xdec.Symbolic.Pool.{IsPool, Means-old, at_of_get, value_of_literal, is_unknown-false}
use xdec.Symbolic.Sound.{simplify-GivesOf}

-- The pool after a builder, and its result.
pub record Builds (p : SymPool) (env : ℕ → ℕ) (v id : ℕ) (q : SymPool) : Type 0 where
  pub pool : IsPool q
  pub old :
      (h : ℕ) (x : SymNode)
      → get_elem? p.nodes.items h ≡ some x
      → get_elem? q.nodes.items h ≡ some x
  pub means : Means q.nodes.items env id v

pub record Places (node : SymNode) (p : SymPool) (id : ℕ) (q : SymPool) : Type 0 where
  pub pool : IsPool q
  pub old :
      (h : ℕ) (x : SymNode)
      → get_elem? p.nodes.items h ≡ some x
      → get_elem? q.nodes.items h ≡ some x
  pub only :
      (h : ℕ) (x : SymNode)
      → get_elem? q.nodes.items h ≡ some x
      → (x ≡ node) ⊎ (get_elem? p.nodes.items h ≡ some x)
  pub symbols : q.symbols ≡ p.symbols
  pub found : at q.nodes.items id ≡ some node

abbrev pub interned : SymNode → SymPool → ℕ × SymPool
interned node p =
    let (id, nodes) = intern_key SymNode-discrete handle_count node p.nodes in
    (id, record p { nodes = nodes })

intern_node_inversion :
    (node : SymNode) (p q : SymPool) (id : ℕ)
    → intern_node node p ≡ some (id, q)
    → ((id, q) ≡ interned node p)
      × (find SymNode-discrete node p.nodes.index ≡ none
          → valid (length p.nodes.items % handle_count) ≡ true)
unfolding intern_node
intern_node_inversion node p q id h =
    elim (Option-cases (find SymNode-discrete node p.nodes.index)) [
      | inl new ↦ (ground arith, λ e. ground arith)
      | inr (old, e) ↦ (ground arith, λ e'. absurd (ground arith))
    ]

pub intern_node-Places :
    (node : SymNode) (p q : SymPool) (id : ℕ)
    → IsPool p
    → node.value < 2 ^ 64
    → intern_node node p ≡ some (id, q)
    → Places node p id q
intern_node-Places node p q id w small h =
    let (result, room) = intern_node_inversion node p q id h in
    let grown = intern_key-Grows SymNode-discrete node p.nodes w.consed room in
    let shape : q ≡ (interned node p).1 = ap (λ (r : ℕ × SymPool). r.1) result in
    let place : id ≡ (interned node p).0 = ap (λ (r : ℕ × SymPool). r.0) result in
    rw (place, shape)
      (record {
        pool = record {
          consed = grown.consed;
          words = λ i n e. elim (grown.only i n e) [
            | inl same ↦ rw same small
            | inr before ↦ w.words i n before
          ];
        };
        old = grown.old;
        only = grown.only;
        symbols = refl;
        found =
            at_of_get (interned node p).1.nodes.items (interned node p).0 node grown.consed.bounded
              grown.found;
      })

abbrev pub empty_pool : SymPool
empty_pool = record { nodes = empty; symbols = empty; unknown = 0 }

pub empty_pool-IsPool : IsPool empty_pool
empty_pool-IsPool = record {
  consed = record { agrees = empty-Agrees SymNode-discrete; bounded = omega arith };
  words = λ i n e. absurd (ground (arith, e));
}

with_unknown-IsPool : (p : SymPool) (u : ℕ) → IsPool p → IsPool (record p { unknown = u })
with_unknown-IsPool p u w = record { consed = w.consed; words = w.words }

-- The pool of the constructor.
pub new_pool-IsPool : (p : SymPool) → new_pool ≡ some p → IsPool p
unfolding new_pool
new_pool-IsPool p h = elim (Option-cases (intern_node (leaf SymOp.unknown 0 0) empty_pool)) [
  | inl gone ↦ absurd (ground arith)
  | inr ((id, q), e) ↦
      let put =
        intern_node-Places (leaf SymOp.unknown 0 0) empty_pool q id empty_pool-IsPool (omega arith)
          e in
      let same : record q { unknown = id } ≡ p = ground arith in
      rw (← same) (with_unknown-IsPool q id put.pool)
]

module _ (p : SymPool) (env : ℕ → ℕ) (w : IsPool p) (words : (s : ℕ) → env s < 2 ^ 64) where
  abbrev Stands : ℕ → ℕ → Type 0
  Stands = Means p.nodes.items env

  there-Builds : (id v : ℕ) (q : SymPool) → Stands id v → p ≡ q → Builds p env v id q
  there-Builds id v q m e = rw (← e) (record { pool = w; old = λ h x k. k; means = m })

  pub literal-Builds :
      (u id : ℕ) (q : SymPool) → u < 2 ^ 64 → literal u p ≡ some (id, q) → Builds p env u id q
  unfolding literal
  literal-Builds u id q small h =
      let put = intern_node-Places (leaf SymOp.const u 0) p q id w small h in
      record {
        pool = put.pool;
        old = put.old;
        means = Means.literal (leaf SymOp.const u 0) put.found refl refl refl;
      }

  inner_binary-Builds :
      (op : SymOp) (lhs rhs x y v id : ℕ) (q : SymPool)
      → Stands lhs x
      → Stands rhs y
      → IsBinary op x y v
      → intern_node (inner op (ordered op lhs rhs)) p ≡ some (id, q)
      → Builds p env v id q
  inner_binary-Builds op lhs rhs x y v id q ml mr f h =
      let put = intern_node-Places (inner op (ordered op lhs rhs)) p q id w (omega arith) h in
      let left = Means-old p q env put.pool put.old ml in
      let right = Means-old p q env put.pool put.old mr in
      record {
        pool = put.pool;
        old = put.old;
        means = elim (Bool-cases (is_commutative op && ltb rhs lhs)) [
          | inl swapped ↦
              let comm : is_commutative op ≡ true = ground arith in
              let args : ordered op lhs rhs ≡ rhs ∷ lhs ∷ [] = rw swapped refl in
              Means.two (inner op (ordered op lhs rhs)) rhs lhs y x put.found args right left
                (IsBinary-comm op x y v comm f)
          | inr straight ↦
              let args : ordered op lhs rhs ≡ lhs ∷ rhs ∷ [] = rw straight refl in
              Means.two (inner op (ordered op lhs rhs)) lhs rhs x y put.found args left right f
        ];
      }

  -- The named symbol is at the place the table of names has for it.
  pub symbol_named-Builds :
      (name : String) (id : ℕ) (q : SymPool)
      → symbol_named name p ≡ some (id, q)
      → Builds p env (env (intern_key String-discrete (2 ^ 32) name p.symbols).0) id q
  unfolding symbol_named
  symbol_named-Builds name id q h =
      let (place, symbols) = intern_key String-discrete (2 ^ 32) name p.symbols in
      let named : IsPool (record p { symbols = symbols }) = record {
        consed = w.consed;
        words = w.words;
      } in
      let node = leaf SymOp.symbol 0 place in
      let put =
        intern_node-Places node (record p { symbols = symbols }) q id named (omega arith) h in
      record { pool = put.pool; old = put.old; means = Means.named node put.found refl refl refl }

  pub sym_binary-Builds_if :
      (op : SymOp) (lhs rhs x y v id : ℕ) (q : SymPool)
      → Stands lhs x
      → Stands rhs y
      → IsBinary op x y v
      → sym_binary op lhs rhs p ≡ some (id, q)
      → Builds p env v id q
  unfolding sym_binary
  sym_binary-Builds_if op lhs rhs x y v id q ml mr f h =
      let known_left = is_unknown-false p env w words lhs x ml in
      let known_right = is_unknown-false p env w words rhs y mr in
      let folded = IsBinary-fold_binary op x y v f in
      elim (Option-cases (simplify op lhs rhs p)) [
        | inl e ↦ inner_binary-Builds op lhs rhs x y v id q ml mr f (ground arith)
        | inr (number u, e) ↦
            let same : u ≡ v =
              simplify-GivesOf p env w words op lhs rhs x y v (number u) ml mr folded e in
            let small = f.word in rw (← same) (literal-Builds u id q (omega arith) (ground arith))
        | inr (handle k, e) ↦
            let place : k ≡ id = ground arith in
            let stays : p ≡ q = ground arith in
            there-Builds id v q
              (rw (← place)
                (simplify-GivesOf p env w words op lhs rhs x y v (handle k) ml mr folded e))
              stays
      ]

  pub sym_unary-Builds_if :
      (op : SymOp) (operand x v id : ℕ) (q : SymPool)
      → Stands operand x
      → IsUnary op x v
      → sym_unary op operand p ≡ some (id, q)
      → Builds p env v id q
  unfolding sym_unary
  sym_unary-Builds_if op operand x v id q m f h =
      let defined = is_unknown-false p env w words operand x m in
      elim (Option-cases (as_literal p operand)) [
        | inl e ↦
            let made : intern_node (inner op (operand ∷ [])) p ≡ some (id, q) = ground arith in
            let put = intern_node-Places (inner op (operand ∷ [])) p q id w (omega arith) made in
            record {
              pool = put.pool;
              old = put.old;
              means =
                  Means.one (inner op (operand ∷ [])) operand x put.found refl
                    (Means-old p q env put.pool put.old m) f;
            }
        | inr (u, e) ↦
            let same : u ≡ x = value_of_literal p env w words operand u x e m in
            let folded : fold_unary op u ≡ some v = rw same (IsUnary-fold_unary op x v f) in
            literal-Builds v id q f.word (ground arith)
      ]

  pub sym_select-Builds_if :
      (condition if_true if_false x v id : ℕ) (q : SymPool)
      → Stands condition x
      → Stands (if x == 0 then if_false else if_true) v
      → is_unknown p if_true ≡ false
      → is_unknown p if_false ≡ false
      → sym_select condition if_true if_false p ≡ some (id, q)
      → Builds p env v id q
  unfolding sym_select
  sym_select-Builds_if condition if_true if_false x v id q mc m known_true known_false h =
      let known_condition = is_unknown-false p env w words condition x mc in
      elim (Option-cases (as_literal p condition)) [
        | inr (u, e) ↦
            let same : u ≡ x = value_of_literal p env w words condition u x e mc in
            let place : (if x == 0 then if_false else if_true) ≡ id = ground arith in
            there-Builds id v q (rw (← place) m) (ground arith)
        | inl e ↦ elim (Bool-cases (if_true == if_false)) [
          | inl meet ↦
              let place : (if x == 0 then if_false else if_true) ≡ id = ground arith in
              there-Builds id v q (rw (← place) m) (ground arith)
          | inr apart ↦
              let node = inner SymOp.select (condition ∷ if_true ∷ if_false ∷ []) in
              let put = intern_node-Places node p q id w (omega arith) (ground arith) in
              record {
                pool = put.pool;
                old = put.old;
                means =
                    Means.chosen node condition if_true if_false x put.found refl refl
                      (Means-old p q env put.pool put.old mc)
                      (Means-old p q env put.pool put.old m);
              }
        ]
      ]
