-- ===== src/Symbolic/Ordered.antt =====
-- Pools whose nodes have the operands their operation takes, all of them older and no unknowns, as
-- the builders of src/spec/symint.cpp leave them.
use xdec.Base.{
  ℕ, zero, suc, ◌^◌, ◌<◌, ◌≤◌, ◌≡◌, refl, Bool, true, false, none, some, List, [], ◌∷◌, In, length,
  arith, inl, inr, get_elem?, Option-cases, lt_of_get_elem?,
}
use Prim.Native.String.{String}
use xdec.Function.Names.{String-discrete}
use xdec.Table.{Table, intern_key}
use xdec.Function.{at}
use xdec.Function.WellFormed.Blocks.{at-get_elem?}
use xdec.Symbolic.{
  SymOp, SymNode, SymPool, is_unknown, is_unknown_op, intern_node, leaf, new_pool, symbol_named,
}
use xdec.Symbolic.Pool.{IsPool, again}
use xdec.Symbolic.Build.{Places, intern_node-Places, empty_pool, empty_pool-IsPool}

abbrev pub is_leaf : SymOp → Bool
is_leaf op = elim op [ SymOp.const ↦ true | SymOp.symbol ↦ true | SymOp.unknown ↦ true | _ ↦ false ]

abbrev pub is_inner : SymOp → Bool
is_inner op = elim op [
  | SymOp.const ↦ false
  | SymOp.symbol ↦ false
  | SymOp.unknown ↦ false
  | SymOp.select ↦ false
  | _ ↦ true
]

pub data Fits : SymOp → List ℕ → Type 0 where
  no_operand : {op : SymOp} → is_leaf op ≡ true → Fits op []
  one_operand : {op : SymOp} {a : ℕ} → is_inner op ≡ true → Fits op (a ∷ [])
  two_operands : {op : SymOp} {a b : ℕ} → is_inner op ≡ true → Fits op (a ∷ b ∷ [])
  three_operands : {a b c : ℕ} → Fits SymOp.select (a ∷ b ∷ c ∷ [])

abbrev pub IsClear : SymPool → ℕ → Type 0
IsClear p a = is_unknown p a ≡ false

pub record IsOrdered (p : SymPool) : Type 0 where
  pub fits : (h : ℕ) (n : SymNode) → get_elem? p.nodes.items h ≡ some n → Fits n.op n.operands
  pub below : (h a : ℕ) (n : SymNode) → get_elem? p.nodes.items h ≡ some n → In a n.operands → a < h
  pub clear :
      (h a : ℕ) (n : SymNode) → get_elem? p.nodes.items h ≡ some n → In a n.operands → IsClear p a

-- A pool that came from another by interning nodes.
pub record Kept (p q : SymPool) : Type 0 where
  pub pool : IsPool q
  pub ordered : IsOrdered q
  pub old :
      (h : ℕ) (x : SymNode)
      → get_elem? p.nodes.items h ≡ some x
      → get_elem? q.nodes.items h ≡ some x
  pub symbols : q.symbols ≡ p.symbols

pub clear_node :
    (p : SymPool) (a : ℕ)
    → IsClear p a
    → (n : SymNode) × (at p.nodes.items a ≡ some n) × (is_unknown_op n.op ≡ false)
unfolding is_unknown
clear_node p a h = elim (Option-cases (at p.nodes.items a)) [
  | inl gone ↦ absurd (ground arith)
  | inr (n, e) ↦ (n, e, ground arith)
]

pub IsClear-old :
    (p q : SymPool) (a : ℕ)
    → IsPool q
    → ((h : ℕ) (x : SymNode)
        → get_elem? p.nodes.items h ≡ some x
        → get_elem? q.nodes.items h ≡ some x)
    → IsClear p a
    → IsClear q a
unfolding is_unknown
IsClear-old p q a w old h =
    let (n, e, known) = clear_node p a h in let there = again p q a n w old e in ground arith

IsClear-lt : (p : SymPool) (a : ℕ) → IsClear p a → a < length p.nodes.items
IsClear-lt p a h =
    let (n, e, known) = clear_node p a h in
    lt_of_get_elem? p.nodes.items a n (at-get_elem? p.nodes.items a n e)

get_elem?-none : (xs : List SymNode) (i : ℕ) → get_elem? xs i ≡ none → length xs ≤ i
get_elem?-none [] i h = omega arith
get_elem?-none (x ∷ xs) zero h = absurd (ground arith)
get_elem?-none (x ∷ xs) (suc i) h = omega (arith, get_elem?-none xs i h)

pub Places-Kept :
    (node : SymNode) (p q : SymPool) (id : ℕ)
    → IsOrdered p
    → Fits node.op node.operands
    → ((a : ℕ) → In a node.operands → IsClear p a)
    → Places node p id q
    → Kept p q
Places-Kept node p q id o fits clear put = record {
  pool = put.pool;
  old = put.old;
  symbols = put.symbols;
  ordered = record {
    fits =
        λ h n e. elim (put.only h n e) [ inl same ↦ rw same fits | inr before ↦ o.fits h n before ];
    below = λ h a n e i. elim (Option-cases (get_elem? p.nodes.items h)) [
      | inr (m, before) ↦
          let same : m ≡ n = let later = put.old h m before in ground arith in
          o.below h a m before (rw same i)
      | inl new ↦ elim (put.only h n e) [
        | inl same ↦
            let small = IsClear-lt p a (clear a (rw (← same) i)) in
            let long = get_elem?-none p.nodes.items h new in omega arith
        | inr before ↦ absurd (ground arith)
      ]
    ];
    clear = λ h a n e i. IsClear-old p q a put.pool put.old (elim (put.only h n e) [
      | inl same ↦ clear a (rw (← same) i)
      | inr before ↦ o.clear h a n before i
    ]);
  };
}

empty_pool-IsOrdered : IsOrdered empty_pool
empty_pool-IsOrdered = record {
  fits = λ h n e. absurd (ground (arith, e));
  below = λ h a n e i. absurd (ground (arith, e));
  clear = λ h a n e i. absurd (ground (arith, e));
}

with_fields-IsOrdered :
    (p : SymPool) (s : Table String) (u : ℕ)
    → IsOrdered p
    → IsOrdered (record p { symbols = s; unknown = u })
unfolding is_unknown
with_fields-IsOrdered p s u o = record {
  fits = o.fits;
  below = o.below;
  clear = λ h a n e i. o.clear h a n e i;
}

-- The pool of the constructor.
pub new_pool-IsOrdered : (p : SymPool) → new_pool ≡ some p → IsOrdered p
unfolding new_pool
new_pool-IsOrdered p h = elim (Option-cases (intern_node (leaf SymOp.unknown 0 0) empty_pool)) [
  | inl gone ↦ absurd (ground arith)
  | inr ((id, q), e) ↦
      let put =
        intern_node-Places (leaf SymOp.unknown 0 0) empty_pool q id empty_pool-IsPool (omega arith)
          e in
      let kept =
        Places-Kept (leaf SymOp.unknown 0 0) empty_pool q id empty_pool-IsOrdered (no_operand refl)
          (λ a i. absurd i) put in
      let same : record q { unknown = id } ≡ p = ground arith in
      rw (← same) (with_fields-IsOrdered q q.symbols id kept.ordered)
]

pub symbol_named-IsOrdered :
    (p : SymPool) (name : String) (id : ℕ) (q : SymPool)
    → IsPool p
    → IsOrdered p
    → symbol_named name p ≡ some (id, q)
    → IsOrdered q
unfolding symbol_named
symbol_named-IsOrdered p name id q w o h =
    let (place, symbols) = intern_key String-discrete (2 ^ 32) name p.symbols in
    let named = record p { symbols = symbols } in
    let node = leaf SymOp.symbol 0 place in
    let pool : IsPool named = record { consed = w.consed; words = w.words } in
    let put = intern_node-Places node named q id pool (omega arith) h in
    let kept =
      Places-Kept node named q id (with_fields-IsOrdered p symbols p.unknown o) (no_operand refl)
        (λ a i. absurd i) put in
    kept.ordered
