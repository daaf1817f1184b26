-- ===== src/Function/Edges/Dual.antt =====
-- `rebuildEdges` of src/il/function.cpp: successors and predecessors as two views of the edges.
use xdec.Base.{
  sym, true, false, if◌then◌else◌, ◌==◌, ℕ, zero, suc, ◌<◌, ◌≡◌, refl, ap, ◌∙◌, inl, inr, some,
  List, [], ◌∷◌, length, get_elem?, In, arith, Option-cases, Bool-cases,
}
use xdec.Graph.{Edge}
use xdec.Function.{Op, Function, Block, contains, at, ends_block, targets}
use xdec.Function.Append.{back}
use xdec.Function.Edges.{
  keep_blocks, derived_successors, derive_all, link_all, rebuild_edges, successors, predecessors,
}
use xdec.Function.Edges.Links.{
  count, Within, edges_at, AllWithin, link_all-length, link_all-successors, link_all-predecessors,
  in_range,
}

keep_blocks-Within :
    (blocks : List Block) (ts : List ℕ) → Within (length blocks) (keep_blocks blocks ts)
unfolding keep_blocks
keep_blocks-Within blocks [] = tt
keep_blocks-Within blocks (t ∷ ts) = elim (Bool-cases (contains t blocks)) [
  | inl inside ↦ rw (inside, keep_blocks) ((in_range t blocks inside), keep_blocks-Within blocks ts)
  | inr outside ↦ rw (outside, keep_blocks) (keep_blocks-Within blocks ts)
]

keep_blocks-count :
    (b : ℕ) (blocks : List Block) (ts : List ℕ)
    → count b (keep_blocks blocks ts) ≡ (if contains b blocks then count b ts else 0)
unfolding keep_blocks
keep_blocks-count b blocks [] = ground arith
keep_blocks-count b blocks (t ∷ ts) =
    let rest = keep_blocks-count b blocks ts in
    elim (Bool-cases (t == b)) [
      | inl e ↦
          let same : t ≡ b = ground arith in
          elim (Bool-cases (contains b blocks)) [
            | inl inside ↦ let here : contains t blocks ≡ true = rw same inside in ground arith
            | inr outside ↦ let here : contains t blocks ≡ false = rw same outside in ground arith
          ]
      | inr other ↦ elim (Bool-cases (contains t blocks)) [
        | inl inside ↦ ground arith
        | inr outside ↦ ground arith
      ]
    ]

abbrev pub AreBlocks : List Block → List ℕ → Type 0
AreBlocks blocks ts = (t : ℕ) → In t ts → contains t blocks ≡ true

keep_blocks-all :
    (blocks : List Block) (ts : List ℕ) → AreBlocks blocks ts → keep_blocks blocks ts ≡ ts
unfolding keep_blocks
keep_blocks-all blocks [] h = refl
keep_blocks-all blocks (t ∷ ts) h =
    let here = h t (inl refl) in
    let rest = keep_blocks-all blocks ts (λ u i. h u (inr i)) in ground arith

-- The successors of a block, against the targets of the op that ends it.
pub record FollowsTargets (f : Function) (op : Op) (ss : List ℕ) : Type 0 where
  pub counted :
      ends_block op.code ≡ true
      → (b : ℕ) → count b ss ≡ (if contains b f.blocks then count b (targets f op) else 0)
  pub ordered : ends_block op.code ≡ true → AreBlocks f.blocks (targets f op) → ss ≡ targets f op
  pub endless : ends_block op.code ≡ false → ss ≡ []

derived-FollowsTargets :
    (f : Function) (x : Block) (last : ℕ) (op : Op) (ss : List ℕ)
    → back x.ops ≡ some last
    → at f.ops last ≡ some op
    → derived_successors f x ≡ some ss
    → FollowsTargets f op ss
unfolding derived_successors
derived-FollowsTargets f x last op ss h l d =
    let out : (if ends_block op.code then keep_blocks f.blocks (targets f op) else []) ≡ ss =
      ground arith in
    record {
      counted = λ e b.
          let kept : keep_blocks f.blocks (targets f op) ≡ ss = ground arith in
          rw (← kept) (keep_blocks-count b f.blocks (targets f op));
      ordered = λ e all.
          let kept : keep_blocks f.blocks (targets f op) ≡ ss = ground arith in
          sym kept ∙ keep_blocks-all f.blocks (targets f op) all;
      endless = λ e. ground arith;
    }

derived-empty :
    (f : Function) (x : Block) (ss : List ℕ)
    → x.ops ≡ []
    → derived_successors f x ≡ some ss
    → ss ≡ []
unfolding derived_successors
derived-empty f x ss h d = ground arith

derived-Within :
    (f : Function) (x : Block) (ss : List ℕ)
    → derived_successors f x ≡ some ss
    → Within (length f.blocks) ss
unfolding derived_successors
derived-Within f x ss h = elim (Option-cases (back x.ops)) [
  | inl empty ↦ let none_left : [] ≡ ss = ground arith in rw (← none_left) tt
  | inr (last, e) ↦ elim (Option-cases (at f.ops last)) [
    | inl gone ↦ absurd (ground arith)
    | inr (op, e') ↦ elim (Bool-cases (ends_block op.code)) [
      | inl ends ↦
          let kept : keep_blocks f.blocks (targets f op) ≡ ss = ground arith in
          rw (← kept) (keep_blocks-Within f.blocks (targets f op))
      | inr goes_on ↦ let none_left : [] ≡ ss = ground arith in rw (← none_left) tt
    ]
  ]
]

-- What the first loop makes of the blocks.
record Derived (f : Function) (xs ys : List Block) : Type 0 where
  size : length ys ≡ length xs
  within : AllWithin (length f.blocks) ys
  cleared : (b : ℕ) → predecessors ys b ≡ []
  derived :
      (b : ℕ) (x : Block)
      → get_elem? xs b ≡ some x
      → derived_successors f x ≡ some (successors ys b)

Derived-cons :
    (f : Function) (x : Block) (xs ys : List Block) (ss : List ℕ)
    → derived_successors f x ≡ some ss
    → Derived f xs ys
    → Derived f (x ∷ xs) (record x { successors = ss; predecessors = [] } ∷ ys)
unfolding AllWithin successors predecessors
Derived-cons f x xs ys ss h d = record {
  size = omega (arith, d.size);
  within = (derived-Within f x ss h, d.within);
  cleared = λ b. cleared_at b;
  derived = λ b z e. derived_at b z e;
}
  where
    cleared_at :
        (b : ℕ) → predecessors (record x { successors = ss; predecessors = [] } ∷ ys) b ≡ []
    cleared_at zero = refl
    cleared_at (suc b) = d.cleared b

    derived_at :
        (b : ℕ) (z : Block)
        → get_elem? (x ∷ xs) b ≡ some z
        → derived_successors f z
          ≡ some (successors (record x { successors = ss; predecessors = [] } ∷ ys) b)
    derived_at zero z e = let same : x ≡ z = ground arith in rw (← same) h
    derived_at (suc b) z e = d.derived b z e

AllWithin-nil : (n : ℕ) → AllWithin n []
unfolding AllWithin
AllWithin-nil n = tt

predecessors-nil : (b : ℕ) → predecessors [] b ≡ []
unfolding predecessors
predecessors-nil b = refl

lt_of_mem : (n b : ℕ) (ss : List ℕ) → Within n ss → In b ss → b < n
lt_of_mem n b (s ∷ ss) h (inl e) = omega arith
lt_of_mem n b (s ∷ ss) h (inr m) = lt_of_mem n b ss h.1 m
lt_of_mem n b [] h m = elim m [ ]

within_edge : (n a b : ℕ) (xs : List Block) → AllWithin n xs → In b (successors xs a) → b < n
unfolding AllWithin successors
within_edge n a b [] h m = elim m [ ]
within_edge n zero b (x ∷ xs) h m = lt_of_mem n b x.successors h.0 m
within_edge n (suc a) b (x ∷ xs) h m = within_edge n a b xs h.1 m

derive_all-Derived :
    (f : Function) (xs ys : List Block) → derive_all f xs ≡ some ys → Derived f xs ys
unfolding derive_all
derive_all-Derived f [] ys h =
    let none_left : [] ≡ ys = ground arith in
    rw (← none_left) (record {
      size = refl;
      within = AllWithin-nil (length f.blocks);
      cleared = λ b. predecessors-nil b;
      derived = λ b x e. cc;
    })
derive_all-Derived f (x ∷ xs) ys h = elim (Option-cases (derived_successors f x)) [
  | inl e ↦ absurd (ground arith)
  | inr (ss, e) ↦ elim (Option-cases (derive_all f xs)) [
    | inl e' ↦ absurd (ground arith)
    | inr (zs, e') ↦
        let same : record x { successors = ss; predecessors = [] } ∷ zs ≡ ys = ground arith in
        rw (← same) (Derived-cons f x xs zs ss e (derive_all-Derived f xs zs e'))
  ]
]

dual_at :
    (f : Function) (xs : List Block)
    → Derived f f.blocks xs
    → (a b : ℕ)
    → count b (successors (link_all 0 xs xs) a) ≡ count a (predecessors (link_all 0 xs xs) b)
dual_at f xs d a b = rw (link_all-successors 0 a xs xs) (
    omega (
      arith,
      link_all-predecessors 0 a b xs xs (rw d.size d.within),
      edges_at a b xs,
      ap (count a) (d.cleared b),
    ))

-- The edges of a function after `rebuildEdges`, against the function before.
pub record EdgesAgree (f f' : Function) : Type 0 where
  pub size : length f'.blocks ≡ length f.blocks
  pub derived :
      (a : ℕ) (x : Block)
      → get_elem? f.blocks a ≡ some x
      → derived_successors f x ≡ some (successors f'.blocks a)
  pub follows :
      (a : ℕ) (x : Block) (last : ℕ) (op : Op)
      → get_elem? f.blocks a ≡ some x
      → back x.ops ≡ some last
      → at f.ops last ≡ some op
      → FollowsTargets f op (successors f'.blocks a)
  pub lone :
      (a : ℕ) (x : Block) → get_elem? f.blocks a ≡ some x → x.ops ≡ [] → successors f'.blocks a ≡ []
  pub bounded : (a b : ℕ) → Edge (successors f'.blocks) a b → b < length f'.blocks
  pub dual : (a b : ℕ) → count b (successors f'.blocks a) ≡ count a (predecessors f'.blocks b)

-- If `rebuild_edges` succeeds, the number of blocks is unchanged, the successors of each block are
-- what `derived_successors` gives: none without a terminator, and otherwise each block as often as
-- it is among the targets of the terminator, in their order if all the targets are blocks; every
-- successor is a block, and a block stands among another's successors as often as that one stands
-- among its predecessors.
pub rebuild_edges-EdgesAgree : (f f' : Function) → rebuild_edges f ≡ some f' → EdgesAgree f f'
unfolding rebuild_edges
rebuild_edges-EdgesAgree f f' h = elim (Option-cases (derive_all f f.blocks)) [
  | inl e ↦ absurd (ground arith)
  | inr (xs, e) ↦
      let same : record f { blocks = link_all 0 xs xs } ≡ f' = ground arith in
      let d = derive_all-Derived f f.blocks xs e in
      let size = link_all-length 0 xs xs in
      rw (← same) (record {
        size = size ∙ d.size;
        derived = λ a x at_a. rw (link_all-successors 0 a xs xs) (d.derived a x at_a);
        follows = λ a x last op at_a e e'.
            rw (link_all-successors 0 a xs xs)
              (derived-FollowsTargets f x last op (successors xs a) e e' (d.derived a x at_a));
        lone = λ a x at_a e.
            rw (link_all-successors 0 a xs xs)
              (derived-empty f x (successors xs a) e (d.derived a x at_a));
        bounded = λ a b edge.
            rw (size, d.size)
              (within_edge (length f.blocks) a b xs d.within
                (rw (link_all-successors 0 a xs xs) at edge));
        dual = λ a b. dual_at f xs d a b;
      })
]
