-- ===== src/Symbolic/Means.antt =====
-- What a handle of the pool stands for under an assignment of the symbols; an unknown, and a
-- division by zero, stand for nothing (src/spec/symint.cpp).
use xdec.Base.{ℕ, ◌≡◌, some, List, [], ◌∷◌, ◌==◌, if◌then◌else◌, arith, inl, inr, ◌⊎◌}
use xdec.Function.{at}
use xdec.Symbolic.{SymOp, SymNode}
use xdec.Symbolic.Result.{IsUnary, IsBinary}
use xdec.Symbolic.Adequate.{unary_once, binary_once}

module _ (nodes : List SymNode) (env : ℕ → ℕ) where
  pub data Means : ℕ → ℕ → Type 0 where
    literal :
        {id v : ℕ} (n : SymNode)
        → at nodes id ≡ some n
        → n.operands ≡ []
        → n.op ≡ SymOp.const
        → v ≡ n.value
        → Means id v
    named :
        {id v : ℕ} (n : SymNode)
        → at nodes id ≡ some n
        → n.operands ≡ []
        → n.op ≡ SymOp.symbol
        → v ≡ env n.symbol
        → Means id v
    one :
        {id v : ℕ} (n : SymNode) (a x : ℕ)
        → at nodes id ≡ some n
        → n.operands ≡ a ∷ []
        → Means a x
        → IsUnary n.op x v
        → Means id v
    two :
        {id v : ℕ} (n : SymNode) (a b x y : ℕ)
        → at nodes id ≡ some n
        → n.operands ≡ a ∷ b ∷ []
        → Means a x
        → Means b y
        → IsBinary n.op x y v
        → Means id v
    chosen :
        {id v : ℕ} (n : SymNode) (c a b x : ℕ)
        → at nodes id ≡ some n
        → n.operands ≡ c ∷ a ∷ b ∷ []
        → n.op ≡ SymOp.select
        → Means c x
        → Means (if x == 0 then b else a) v
        → Means id v

  -- The node of a handle that means something, by the number of its operands.
  pub leaf_of :
      {id v : ℕ} (n : SymNode)
      → Means id v
      → at nodes id ≡ some n
      → n.operands ≡ []
      → ((n.op ≡ SymOp.const) × (v ≡ n.value)) ⊎ ((n.op ≡ SymOp.symbol) × (v ≡ env n.symbol))
  leaf_of n (literal m e o c w) h z = let same : m ≡ n = ground arith in rw (← same) (inl (c, w))
  leaf_of n (named m e o c w) h z = let same : m ≡ n = ground arith in rw (← same) (inr (c, w))
  leaf_of n (one m a x e o k w) h z = absurd (ground arith)
  leaf_of n (two m a b x y e o k l w) h z = absurd (ground arith)
  leaf_of n (chosen m c a b x e o s k l) h z = absurd (ground arith)

  pub one_of :
      {id v : ℕ} (n : SymNode) (a : ℕ)
      → Means id v
      → at nodes id ≡ some n
      → n.operands ≡ a ∷ []
      → (x : ℕ) × Means a x × IsUnary n.op x v
  one_of n a (literal m e o c w) h z = absurd (ground arith)
  one_of n a (named m e o c w) h z = absurd (ground arith)
  one_of n a (one m b x e o k w) h z =
      let same : m ≡ n = ground arith in
      let arg : b ≡ a = ground arith in (x, rw (← arg) k, rw (← same) w)
  one_of n a (two m c b x y e o k l w) h z = absurd (ground arith)
  one_of n a (chosen m c d b x e o s k l) h z = absurd (ground arith)

  pub two_of :
      {id v : ℕ} (n : SymNode) (a b : ℕ)
      → Means id v
      → at nodes id ≡ some n
      → n.operands ≡ a ∷ b ∷ []
      → (x : ℕ) × (y : ℕ) × Means a x × Means b y × IsBinary n.op x y v
  two_of n a b (literal m e o c w) h z = absurd (ground arith)
  two_of n a b (named m e o c w) h z = absurd (ground arith)
  two_of n a b (one m c x e o k w) h z = absurd (ground arith)
  two_of n a b (two m c d x y e o k l w) h z =
      let same : m ≡ n = ground arith in
      let left : c ≡ a = ground arith in
      let right : d ≡ b = ground arith in (x, y, rw (← left) k, rw (← right) l, rw (← same) w)
  two_of n a b (chosen m c d f x e o s k l) h z = absurd (ground arith)

  pub chosen_of :
      {id v : ℕ} (n : SymNode) (c a b : ℕ)
      → Means id v
      → at nodes id ≡ some n
      → n.operands ≡ c ∷ a ∷ b ∷ []
      → (x : ℕ) × Means c x × Means (if x == 0 then b else a) v
  chosen_of n c a b (literal m e o s w) h z = absurd (ground arith)
  chosen_of n c a b (named m e o s w) h z = absurd (ground arith)
  chosen_of n c a b (one m d x e o k w) h z = absurd (ground arith)
  chosen_of n c a b (two m d f x y e o k l w) h z = absurd (ground arith)
  chosen_of n c a b (chosen m d f g x e o s k l) h z =
      let p : d ≡ c = ground arith in
      let q : f ≡ a = ground arith in
      let r : g ≡ b = ground arith in (x, rw (← p) k, rw (← q, ← r) l)

  pub one_meaning : {id v w : ℕ} → Means id v → Means id w → v ≡ w
  one_meaning (literal n e o c p) q = ground (arith, leaf_of n q e o)
  one_meaning (named n e o c p) q = ground (arith, leaf_of n q e o)
  one_meaning {v = v} {w = w} (one n a x e o k p) q =
      let (x', k', p') = one_of n a q e o in unary_once n.op x v w p (rw (one_meaning k k') p')
  one_meaning {v = v} {w = w} (two n a b x y e o k l p) q =
      let (x', y', k', l', p') = two_of n a b q e o in
      binary_once n.op x y v w p (rw (one_meaning k k', one_meaning l l') p')
  one_meaning (chosen n c a b x e o s k l) q =
      let (x', k', l') = chosen_of n c a b q e o in
      let same = one_meaning k k' in one_meaning l (rw same l')
