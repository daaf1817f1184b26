-- ===== src/Function/WellFormed/Relink.antt =====
-- `rebuildEdges` changes no block's ops, so it keeps a function well formed.
use xdec.Base.{
  ℕ, zero, suc, ◌≤◌, ◌≡◌, refl, ap, inl, inr, ◌∙◌, none, some, List, [], ◌∷◌, length, get_elem?,
  push_back, arith, get_elem?-set, lt_of_get_elem?, Option-cases,
}
use xdec.Function.{Function, Block, Op, invalid}
use xdec.Function.Edges.{
  derived_successors, derive_all, push_predecessor, link, link_all, rebuild_edges,
}
use xdec.Function.Edges.Dual.{rebuild_edges-EdgesAgree}
use xdec.Function.WellFormed.{IsWellFormed, BlocksOk}

ops_of : List Block → ℕ → List ℕ
ops_of blocks b = elim (get_elem? blocks b) [ none ↦ [] | some x ↦ x.ops ]

push_predecessor-ops :
    (id s a : ℕ) (blocks : List Block) → ops_of (push_predecessor id s blocks) a ≡ ops_of blocks a
unfolding push_predecessor ops_of
push_predecessor-ops id s a blocks = elim (Option-cases (get_elem? blocks s)) [
  | inl e ↦ rw (e, push_predecessor) refl
  | inr (x, e) ↦
      let x' : Block = record x { predecessors = push_back x.predecessors id } in
      rw (e, push_predecessor)
        (ground (arith, get_elem?-set blocks s a x', lt_of_get_elem? blocks s x))
]

link-ops :
    (id a : ℕ) (ss : List ℕ) (blocks : List Block) → ops_of (link id ss blocks) a ≡ ops_of blocks a
unfolding link
link-ops id a [] blocks = refl
link-ops id a (s ∷ ss) blocks =
    link-ops id a ss (push_predecessor id s blocks) ∙ push_predecessor-ops id s a blocks

link_all-ops :
    (id a : ℕ) (xs blocks : List Block) → ops_of (link_all id xs blocks) a ≡ ops_of blocks a
unfolding link_all
link_all-ops id a [] blocks = refl
link_all-ops id a (x ∷ xs) blocks =
    link_all-ops (suc id) a xs (link id x.successors blocks) ∙ link-ops id a x.successors blocks

head_ops :
    (f : Function) (a : ℕ) (x : Block) (xs zs : List Block) (ss : List ℕ)
    → ((b : ℕ) → ops_of zs b ≡ ops_of xs b)
    → ops_of (record x { successors = ss; predecessors = [] } ∷ zs) a ≡ ops_of (x ∷ xs) a
unfolding ops_of
head_ops f zero x xs zs ss h = refl
head_ops f (suc a) x xs zs ss h = h a

derive_all-ops :
    (f : Function) (a : ℕ) (xs ys : List Block)
    → derive_all f xs ≡ some ys
    → ops_of ys a ≡ ops_of xs a
unfolding derive_all ops_of
derive_all-ops f a [] ys h = let same : [] ≡ ys = ground arith in rw (← same) refl
derive_all-ops f a (x ∷ xs) ys h = elim (Option-cases (derived_successors f x)) [
  | inl e ↦ absurd (ground arith)
  | inr (ss, e) ↦ elim (Option-cases (derive_all f xs)) [
    | inl e' ↦ absurd (ground arith)
    | inr (zs, e') ↦
        let same : record x { successors = ss; predecessors = [] } ∷ zs ≡ ys = ground arith in
        rw (← same) (head_ops f a x xs zs ss (λ b. derive_all-ops f b xs zs e'))
  ]
]

BlocksOk-ops :
    (ops : List Op) (xs ys : List Block)
    → ((a : ℕ) → ops_of ys a ≡ ops_of xs a)
    → BlocksOk ops xs
    → BlocksOk ops ys
unfolding ops_of
BlocksOk-ops ops xs ys same old b y e = elim (Option-cases (get_elem? xs b)) [
  | inl gone ↦ let none_left : y.ops ≡ [] = ground (arith, same b) in rw none_left tt
  | inr (x, e') ↦ let equal : y.ops ≡ x.ops = ground (arith, same b) in rw equal (old b x e')
]

pub rebuild_edges-IsWellFormed :
    (f f' : Function) → IsWellFormed f → rebuild_edges f ≡ some f' → IsWellFormed f'
unfolding rebuild_edges
rebuild_edges-IsWellFormed f f' w h =
    let size = (rebuild_edges-EdgesAgree f f' h).size in
    elim (Option-cases (derive_all f f.blocks)) [
      | inl e ↦ absurd (ground arith)
      | inr (xs, e) ↦
          let same : record f { blocks = link_all 0 xs xs } ≡ f' = ground arith in
          let bound : length (link_all 0 xs xs) ≤ invalid =
            omega (arith, size, w.block_count, ap (λ (g : Function). length g.blocks) same) in
          rw (← same) (record {
            pool = w.pool;
            op_count = w.op_count;
            block_count = bound;
            value_count = w.value_count;
            slices = w.slices;
            blocks =
                BlocksOk-ops f.ops f.blocks (link_all 0 xs xs)
                  (λ a. link_all-ops 0 a xs xs ∙ derive_all-ops f a f.blocks xs e) w.blocks;
            values = w.values;
          })
    ]
