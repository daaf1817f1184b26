-- ===== src/Symbolic/Pool.antt =====
-- The pool of src/spec/symint.cpp as an invariant: hash-consed, with words as literals.
use xdec.Base.{ℕ, ◌^◌, ◌<◌, ◌≤◌, ◌≡◌, false, some, List, length, arith, get_elem?, lt_of_get_elem?}
use xdec.Table.Handles.{IsHashConsed}
use xdec.Function.{at, invalid}
use xdec.Function.WellFormed.Blocks.{at-get_elem?}
use xdec.Symbolic.{
  SymNode, SymPool, SymNode-discrete, as_literal, is_unknown, fold_binary, fold_unary,
}
use xdec.Symbolic.Means.{Means}

-- A hash-consed pool whose literals are words.
pub record IsPool (p : SymPool) : Type 0 where
  pub consed : IsHashConsed SymNode-discrete p.nodes
  pub words : (id : ℕ) (n : SymNode) → get_elem? p.nodes.items id ≡ some n → n.value < 2 ^ 64

pub at_of_get :
    (xs : List SymNode) (i : ℕ) (x : SymNode)
    → length xs ≤ invalid
    → get_elem? xs i ≡ some x
    → at xs i ≡ some x
unfolding at
at_of_get xs i x h e = ground (arith, lt_of_get_elem? xs i x e)

pub again :
    (p q : SymPool) (id : ℕ) (n : SymNode)
    → IsPool q
    → ((h : ℕ) (x : SymNode)
        → get_elem? p.nodes.items h ≡ some x
        → get_elem? q.nodes.items h ≡ some x)
    → at p.nodes.items id ≡ some n
    → at q.nodes.items id ≡ some n
again p q id n w old e =
    at_of_get q.nodes.items id n w.consed.bounded (old id n (at-get_elem? p.nodes.items id n e))

-- A meaning survives as the pool grows.
pub Means-old :
    (p q : SymPool) (env : ℕ → ℕ) {id v : ℕ}
    → IsPool q
    → ((h : ℕ) (x : SymNode)
        → get_elem? p.nodes.items h ≡ some x
        → get_elem? q.nodes.items h ≡ some x)
    → Means p.nodes.items env id v
    → Means q.nodes.items env id v
Means-old p q env {id} w old (Means.literal n e o c v) =
    Means.literal n (again p q id n w old e) o c v
Means-old p q env {id} w old (Means.named n e o c v) = Means.named n (again p q id n w old e) o c v
Means-old p q env {id} w old (Means.one n a x e o k f) =
    Means.one n a x (again p q id n w old e) o (Means-old p q env w old k) f
Means-old p q env {id} w old (Means.two n a b x y e o k l f) =
    Means.two n a b x y (again p q id n w old e) o (Means-old p q env w old k)
      (Means-old p q env w old l) f
Means-old p q env {id} w old (Means.chosen n c a b x e o s k l) =
    Means.chosen n c a b x (again p q id n w old e) o s (Means-old p q env w old k)
      (Means-old p q env w old l)

module _ (p : SymPool) (env : ℕ → ℕ) (w : IsPool p) (words : (s : ℕ) → env s < 2 ^ 64) where
  abbrev Stands : ℕ → ℕ → Type 0
  Stands = Means p.nodes.items env

  pub Means-lt : {id v : ℕ} → Stands id v → v < 2 ^ 64
  Means-lt {id} (Means.literal n e o c v) =
      omega (arith, v, w.words id n (at-get_elem? p.nodes.items id n e))
  Means-lt (Means.named n e o c v) = omega (arith, v, words n.symbol)
  Means-lt {v = v} (Means.one n a x e o k f) = f.word
  Means-lt {v = v} (Means.two n a b x y e o k l f) = f.word
  Means-lt (Means.chosen n c a b x e o s k l) = Means-lt l

  -- A literal means its number.
  pub value_of_literal : (id u v : ℕ) → as_literal p id ≡ some u → Stands id v → u ≡ v
  unfolding as_literal fold_unary fold_binary
  value_of_literal id u v h (Means.literal n e o c k) = ground arith
  value_of_literal id u v h (Means.named n e o c k) = absurd (ground arith)
  value_of_literal id u v h (Means.one n a x e o k f) = absurd (ground arith)
  value_of_literal id u v h (Means.two n a b x y e o k l f) = absurd (ground arith)
  value_of_literal id u v h (Means.chosen n c a b x e o s k l) = absurd (ground arith)

  -- What means something is no unknown.
  pub is_unknown-false : (id v : ℕ) → Stands id v → is_unknown p id ≡ false
  unfolding is_unknown fold_unary fold_binary
  is_unknown-false id v (Means.literal n e o c k) = ground arith
  is_unknown-false id v (Means.named n e o c k) = ground arith
  is_unknown-false id v (Means.one n a x e o k f) = ground arith
  is_unknown-false id v (Means.two n a b x y e o k l f) = ground arith
  is_unknown-false id v (Means.chosen n c a b x e o s k l) = ground arith
