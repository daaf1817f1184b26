-- ===== src/Function/Edges/Links.antt =====
-- The second loop of `rebuildEdges` in src/il/function.cpp: a block's successors get it as predecessor.
use xdec.Base.{
  ℕ, zero, suc, ◌+◌, ◌<◌, ◌≡◌, refl, ◌∙◌, inl, inr, true, List, [], ◌∷◌, length, get_elem?,
  push_back, ◌==◌, if◌then◌else◌, arith, lt_of_get_elem?, Option-cases, get_elem?-set, length-set,
  get_elem?-some,
}
use native.Mathlib.Decide.{ℕ_discrete}
use xdec.Function.{Block, contains}
use xdec.Function.Edges.{push_predecessor, link, link_all, successors, predecessors}

-- How often a handle stands in a list.
abbrev pub count : ℕ → List ℕ → ℕ
count a [] = 0
count a (x ∷ xs) = (if x == a then 1 else 0) + count a xs

count-push_back :
    (a x : ℕ) (xs : List ℕ) → count a (push_back xs x) ≡ count a xs + (if x == a then 1 else 0)
count-push_back a x [] = omega arith
count-push_back a x (y ∷ xs) = omega (arith, count-push_back a x xs)

abbrev pub Within : ℕ → List ℕ → Type 0
Within n [] = Unit
Within n (x ∷ xs) = (x < n) × Within n xs

push_predecessor-length :
    (id s : ℕ) (blocks : List Block) → length (push_predecessor id s blocks) ≡ length blocks
unfolding push_predecessor
push_predecessor-length id s blocks = elim (Option-cases (get_elem? blocks s)) [
  | inl e ↦ rw (e, push_predecessor) refl
  | inr (x, e) ↦
      rw (e, push_predecessor)
        (length-set blocks s (record x { predecessors = push_back x.predecessors id }))
]

push_predecessor-predecessors :
    (id s a b : ℕ) (blocks : List Block)
    → s < length blocks
    → count a (predecessors (push_predecessor id s blocks) b)
      ≡ count a (predecessors blocks b) + (if s == b then (if id == a then 1 else 0) else 0)
unfolding push_predecessor predecessors
push_predecessor-predecessors id s a b blocks h =
    let (x, e) = get_elem?-some blocks s h in
    let x' : Block = record x { predecessors = push_back x.predecessors id } in
    rw (e, push_predecessor)
      (elim (ℕ_discrete s b) [
        | yes p ↦ ground (arith, get_elem?-set blocks s b x' h, count-push_back a id x.predecessors)
        | no p ↦ ground (arith, get_elem?-set blocks s b x' h)
      ])

push_predecessor-successors :
    (id s a : ℕ) (blocks : List Block)
    → successors (push_predecessor id s blocks) a ≡ successors blocks a
unfolding push_predecessor successors
push_predecessor-successors id s a blocks = elim (Option-cases (get_elem? blocks s)) [
  | inl e ↦ rw (e, push_predecessor) refl
  | inr (x, e) ↦
      let x' : Block = record x { predecessors = push_back x.predecessors id } in
      rw (e, push_predecessor)
        (ground (arith, get_elem?-set blocks s a x', lt_of_get_elem? blocks s x))
]

link-length :
    (id : ℕ) (ss : List ℕ) (blocks : List Block) → length (link id ss blocks) ≡ length blocks
unfolding link
link-length id [] blocks = refl
link-length id (s ∷ ss) blocks =
    link-length id ss (push_predecessor id s blocks) ∙ push_predecessor-length id s blocks

link-successors :
    (id a : ℕ) (ss : List ℕ) (blocks : List Block)
    → successors (link id ss blocks) a ≡ successors blocks a
unfolding link
link-successors id a [] blocks = refl
link-successors id a (s ∷ ss) blocks =
    link-successors id a ss (push_predecessor id s blocks)
    ∙ push_predecessor-successors id s a blocks

link-predecessors :
    (id a b : ℕ) (ss : List ℕ) (blocks : List Block)
    → Within (length blocks) ss
    → count a (predecessors (link id ss blocks) b)
      ≡ count a (predecessors blocks b) + (if id == a then count b ss else 0)
unfolding link
link-predecessors id a b [] blocks h = ground arith
link-predecessors id a b (s ∷ ss) blocks h =
    let later = push_predecessor id s blocks in
    ground (
      arith,
      link-predecessors id a b ss later (rw (push_predecessor-length id s blocks) h.1),
      push_predecessor-predecessors id s a b blocks h.0,
    )

-- The edges from `a` to `b` in a list of blocks numbered from `id`.
pub edges_from : ℕ → List Block → ℕ → ℕ → ℕ
edges_from id [] a b = 0
edges_from id (x ∷ xs) a b =
    (if id == a then count b x.successors else 0) + edges_from (suc id) xs a b

edges_below : (id a b : ℕ) (xs : List Block) → a < id → edges_from id xs a b ≡ 0
unfolding edges_from
edges_below id a b [] h = refl
edges_below id a b (x ∷ xs) h = ground (arith, edges_below (suc id) a b xs)

edges_from-successors :
    (id k b : ℕ) (xs : List Block) → edges_from id xs (id + k) b ≡ count b (successors xs k)
unfolding edges_from successors
edges_from-successors id k b [] = refl
edges_from-successors id zero b (x ∷ xs) = ground (arith, edges_below (suc id) (id + 0) b xs)
edges_from-successors id (suc k) b (x ∷ xs) =
    let shift : suc id + k ≡ id + suc k = omega arith in
    let rest : edges_from (suc id) xs (id + suc k) b ≡ count b (successors xs k) =
      rw (← shift) (edges_from-successors (suc id) k b xs) in
    ground arith

pub edges_at : (a b : ℕ) (xs : List Block) → edges_from 0 xs a b ≡ count b (successors xs a)
edges_at a b xs = let e : 0 + a ≡ a = omega arith in rw e at (edges_from-successors 0 a b xs)

unfoldable pub AllWithin : ℕ → List Block → Type 0
AllWithin n [] = Unit
AllWithin n (x ∷ xs) = Within n x.successors × AllWithin n xs

pub link_all-length :
    (id : ℕ) (xs blocks : List Block) → length (link_all id xs blocks) ≡ length blocks
unfolding link_all
link_all-length id [] blocks = refl
link_all-length id (x ∷ xs) blocks =
    link_all-length (suc id) xs (link id x.successors blocks) ∙ link-length id x.successors blocks

pub link_all-successors :
    (id a : ℕ) (xs blocks : List Block) → successors (link_all id xs blocks) a ≡ successors blocks a
unfolding link_all
link_all-successors id a [] blocks = refl
link_all-successors id a (x ∷ xs) blocks =
    link_all-successors (suc id) a xs (link id x.successors blocks)
    ∙ link-successors id a x.successors blocks

pub link_all-predecessors :
    (id a b : ℕ) (xs blocks : List Block)
    → AllWithin (length blocks) xs
    → count a (predecessors (link_all id xs blocks) b)
      ≡ count a (predecessors blocks b) + edges_from id xs a b
unfolding link_all edges_from AllWithin
link_all-predecessors id a b [] blocks h = omega arith
link_all-predecessors id a b (x ∷ xs) blocks h =
    let later = link id x.successors blocks in
    omega (
      arith,
      link_all-predecessors (suc id) a b xs later (rw (link-length id x.successors blocks) h.1),
      link-predecessors id a b x.successors blocks h.0,
    )

pub in_range : (t : ℕ) (blocks : List Block) → contains t blocks ≡ true → t < length blocks
in_range t blocks h = ground arith
