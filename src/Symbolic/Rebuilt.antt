-- ===== src/Symbolic/Rebuilt.antt =====
-- The end of `substitute` in src/spec/symint.cpp: the node is built again from replaced operands.
use xdec.Base.{
  length, ◌<◌, none, ℕ, ◌^◌, ◌<◌, ◌≡◌, refl, Bool, true, false, Option, none, some, List, [], ◌∷◌,
  In, arith, inl, inr, Bool-cases, ◌==◌, if◌then◌else◌,
}
use xdec.Function.{at}
use xdec.Function.WellFormed.Blocks.{at-get_elem?}
use xdec.Symbolic.{SymOp, SymNode, SymPool, sym_binary, sym_unary, sym_select}
use xdec.Symbolic.Means.{Means, one_of, two_of, chosen_of}
use xdec.Symbolic.Pool.{again}
use xdec.Symbolic.Build.{sym_binary-Builds_if, sym_unary-Builds_if, sym_select-Builds_if}
use xdec.Symbolic.Ordered.{
  Fits, no_operand, one_operand, two_operands, three_operands, IsClear, IsClear-old, IsOrdered,
  Kept, is_leaf, is_inner,
}
use xdec.Symbolic.Adds.{sym_binary-Adds, sym_unary-Adds, sym_select-Adds}
use xdec.Symbolic.Substitute.{Run, run_of, same_operands, rebuild}
use xdec.Function.{invalid}
use xdec.Symbolic.Built.{full_pool, sym_unary-Returns, sym_binary-Returns, sym_select-Returns}
use xdec.Symbolic.Refined.{Replaces, Each, IsReplaced, Kept-trans}

rebuild-same :
    (id : ℕ) (n : SymNode) (xs : List ℕ) (q : SymPool)
    → same_operands n.operands xs ≡ true
    → rebuild id n (xs, q) ≡ Run.done (id, q)
unfolding rebuild
rebuild-same id n xs q h = ground arith

rebuild-one :
    (id a b : ℕ) (n : SymNode) (q : SymPool)
    → n.operands ≡ a ∷ []
    → is_inner n.op ≡ true
    → same_operands n.operands (b ∷ []) ≡ false
    → rebuild id n (b ∷ [], q) ≡ run_of (sym_unary n.op b q)
unfolding rebuild
rebuild-one id a b n q args i h = ground arith

rebuild-two :
    (id a b c d : ℕ) (n : SymNode) (q : SymPool)
    → n.operands ≡ a ∷ b ∷ []
    → is_inner n.op ≡ true
    → same_operands n.operands (c ∷ d ∷ []) ≡ false
    → rebuild id n (c ∷ d ∷ [], q) ≡ run_of (sym_binary n.op c d q)
unfolding rebuild
rebuild-two id a b c d n q args i h = ground arith

rebuild-three :
    (id a b c d : ℕ) (n : SymNode) (q : SymPool)
    → n.op ≡ SymOp.select
    → same_operands n.operands (a ∷ b ∷ c ∷ []) ≡ false
    → rebuild id n (a ∷ b ∷ c ∷ [], q) ≡ run_of (sym_select a b c q)
unfolding rebuild
rebuild-three id a b c d n q args h = ground arith

module _ (before env : ℕ → ℕ) (p q : SymPool) (k : Kept p q) (o : IsOrdered p)
    (words : (s : ℕ) → env s < 2 ^ 64) (id : ℕ) (n : SymNode)
    (there : at p.nodes.items id ≡ some n) where
  run_of-IsReplaced :
      (out : Option (ℕ × SymPool))
      → (length q.nodes.items < invalid → (y : ℕ) × (r : SymPool) × (out ≡ some (y, r)))
      → ((y : ℕ) (r : SymPool) → out ≡ some (y, r) → Kept q r × Replaces before env p r id y)
      → IsReplaced before env p id (run_of out)
  run_of-IsReplaced none returns h = record {
    grown = q;
    kept = k;
    full = full_pool q none returns refl;
  }
  run_of-IsReplaced (some (y, r)) returns h = let (l, e) = h y r refl in (Kept-trans p q r k l, e)

  kept_node : at q.nodes.items id ≡ some n
  kept_node = again p q id n k.pool k.old there

  operand-IsClear : (a : ℕ) → In a n.operands → IsClear p a
  operand-IsClear a i = o.clear id a n (at-get_elem? p.nodes.items id n there) i

  -- The node stays if its operands do.
  stays-Replaces :
      ((v : ℕ) → Means p.nodes.items before id v → Means q.nodes.items env id v)
      → Kept p q × Replaces before env p q id id
  stays-Replaces m = (k, record { clear = λ c. IsClear-old p q id k.pool k.old c; means = m })

  rebuild_one-IsReplaced :
      (a b : ℕ)
      → n.operands ≡ a ∷ []
      → is_inner n.op ≡ true
      → Replaces before env p q a b
      → IsReplaced before env p id (rebuild id n (b ∷ [], q))
  rebuild_one-IsReplaced a b args i h = elim (Bool-cases (same_operands n.operands (b ∷ []))) [
    | inl same ↦
        let meet : n.operands ≡ b ∷ [] = ground arith in
        rw (rebuild-same id n (b ∷ []) q same) (
          stays-Replaces λ v m.
            let (x, mx, f) = one_of p.nodes.items before n a m there args in
            Means.one n b x kept_node meet (h.means x mx) f)
    | inr other ↦ rw (rebuild-one id a b n q args i other) (
        run_of-IsReplaced (sym_unary n.op b q)
          (λ room. sym_unary-Returns q env k.pool words room n.op b)
          λ y r e.
            let clear_b = h.clear (operand-IsClear a (rw args (inl refl))) in
            let adds = sym_unary-Adds q k.pool k.ordered n.op b y r i clear_b e in
            (
              adds.kept,
              record {
                clear = λ c. adds.clear;
                means = λ v m.
                    let (x, mx, f) = one_of p.nodes.items before n a m there args in
                    let built =
                      sym_unary-Builds_if q env k.pool words n.op b x v y r (h.means x mx) f e in
                    built.means;
              },
            ))
  ]

  rebuild_two-IsReplaced :
      (a b c d : ℕ)
      → n.operands ≡ a ∷ b ∷ []
      → is_inner n.op ≡ true
      → Replaces before env p q a c
      → Replaces before env p q b d
      → IsReplaced before env p id (rebuild id n (c ∷ d ∷ [], q))
  rebuild_two-IsReplaced a b c d args i h l =
      elim (Bool-cases (same_operands n.operands (c ∷ d ∷ []))) [
        | inl same ↦
            let meet : n.operands ≡ c ∷ d ∷ [] = ground arith in
            rw (rebuild-same id n (c ∷ d ∷ []) q same) (
              stays-Replaces λ v m.
                let (x, y, mx, my, f) = two_of p.nodes.items before n a b m there args in
                Means.two n c d x y kept_node meet (h.means x mx) (l.means y my) f)
        | inr other ↦ rw (rebuild-two id a b c d n q args i other) (
            run_of-IsReplaced (sym_binary n.op c d q)
              (λ room. sym_binary-Returns q env k.pool words room n.op c d)
              λ y r e.
                let clear_c = h.clear (operand-IsClear a (rw args (inl refl))) in
                let clear_d = l.clear (operand-IsClear b (rw args (inr (inl refl)))) in
                let adds = sym_binary-Adds q k.pool k.ordered n.op c d y r i clear_c clear_d e in
                (
                  adds.kept,
                  record {
                    clear = λ g. adds.clear;
                    means = λ v m.
                        let (x, z, mx, mz, f) = two_of p.nodes.items before n a b m there args in
                        let built =
                          sym_binary-Builds_if q env k.pool words n.op c d x z v y r (h.means x mx)
                            (l.means z mz) f e in
                        built.means;
                  },
                ))
      ]

  if_replaced :
      (t : Bool) (a b c d v : ℕ)
      → Replaces before env p q a c
      → Replaces before env p q b d
      → Means p.nodes.items before (if t then b else a) v
      → Means q.nodes.items env (if t then d else c) v
  if_replaced true a b c d v h l m = l.means v m
  if_replaced false a b c d v h l m = h.means v m

  rebuild_three-IsReplaced :
      (a b c a' b' c' : ℕ)
      → n.operands ≡ a ∷ b ∷ c ∷ []
      → n.op ≡ SymOp.select
      → Replaces before env p q a a'
      → Replaces before env p q b b'
      → Replaces before env p q c c'
      → IsReplaced before env p id (rebuild id n (a' ∷ b' ∷ c' ∷ [], q))
  rebuild_three-IsReplaced a b c a' b' c' args i ha hb hc =
      elim (Bool-cases (same_operands n.operands (a' ∷ b' ∷ c' ∷ []))) [
        | inl same ↦
            let meet : n.operands ≡ a' ∷ b' ∷ c' ∷ [] = ground arith in
            rw (rebuild-same id n (a' ∷ b' ∷ c' ∷ []) q same) (
              stays-Replaces λ v m.
                let (x, mx, mv) = chosen_of p.nodes.items before n a b c m there args in
                Means.chosen n a' b' c' x kept_node meet i (ha.means x mx)
                  (if_replaced (x == 0) b c b' c' v hb hc mv))
        | inr other ↦ rw (rebuild-three id a' b' c' 0 n q i other) (
            run_of-IsReplaced (sym_select a' b' c' q)
              (λ room. sym_select-Returns q env k.pool words room a' b' c')
              λ y r e.
                let clear_a = ha.clear (operand-IsClear a (rw args (inl refl))) in
                let clear_b = hb.clear (operand-IsClear b (rw args (inr (inl refl)))) in
                let clear_c = hc.clear (operand-IsClear c (rw args (inr (inr (inl refl))))) in
                let adds =
                  sym_select-Adds q k.pool k.ordered a' b' c' y r clear_a clear_b clear_c e in
                (
                  adds.kept,
                  record {
                    clear = λ g. adds.clear;
                    means = λ v m.
                        let (x, mx, mv) = chosen_of p.nodes.items before n a b c m there args in
                        let built =
                          sym_select-Builds_if q env k.pool words a' b' c' x v y r (ha.means x mx)
                            (if_replaced (x == 0) b c b' c' v hb hc mv) clear_b clear_c e in
                        built.means;
                  },
                ))
      ]

  Each-nil : (ys : List ℕ) → Each before env p q [] ys → ys ≡ []
  Each-nil [] e = refl
  Each-nil (y ∷ ys) e = absurd e

  Each-cons :
      (x : ℕ) (xs ys : List ℕ)
      → Each before env p q (x ∷ xs) ys
      → (y : ℕ) × (rest : List ℕ) × (ys ≡ y ∷ rest)
        × Replaces before env p q x y
        × Each before env p q xs rest
  Each-cons x xs [] e = absurd e
  Each-cons x xs (y ∷ ys) (h, e) = (y, ys, refl, h, e)

  -- Whatever operands the node has.
  pub rebuild-IsReplaced :
      (op : SymOp) (xs ys : List ℕ)
      → n.op ≡ op
      → n.operands ≡ xs
      → is_leaf op ≡ false
      → Fits op xs
      → Each before env p q xs ys
      → IsReplaced before env p id (rebuild id n (ys, q))
  rebuild-IsReplaced op _ ys eo ex l (no_operand leaf) e = absurd (ground arith)
  rebuild-IsReplaced op _ ys eo ex l (one_operand {a = a} i) e =
      let (b, r, e1, h, e') = Each-cons a [] ys e in
      rw (e1, Each-nil r e') (rebuild_one-IsReplaced a b ex (rw eo i) h)
  rebuild-IsReplaced op _ ys eo ex l (two_operands {a = a} {b = b} i) e =
      let (c, r, e1, h, e') = Each-cons a (b ∷ []) ys e in
      let (d, r', e2, h', e'') = Each-cons b [] r e' in
      rw (e1, e2, Each-nil r' e'') (rebuild_two-IsReplaced a b c d ex (rw eo i) h h')
  rebuild-IsReplaced _ _ ys eo ex l (three_operands {a} {b} {c}) e =
      let (a', r, e1, h, f) = Each-cons a (b ∷ c ∷ []) ys e in
      let (b', r', e2, h', f') = Each-cons b (c ∷ []) r f in
      let (c', r'', e3, h'', f'') = Each-cons c [] r' f' in
      rw (e1, e2, e3, Each-nil r'' f'') (rebuild_three-IsReplaced a b c a' b' c' ex eo h h' h'')
