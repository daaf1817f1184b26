-- ===== src/Symbolic/Sound.antt =====
-- The simplification rules of `SymPool::binary`, src/spec/symint.cpp, and the meanings of handles.
use xdec.Base.{
  ℕ, ◌+◌, ◌^◌, ◌<◌, ◌≡◌, refl, Bool, true, false, Option, none, some, List, [], ◌∷◌, ◌==◌, arith,
  inl, inr, Option-cases, Bool-cases, sym,
}
use xdec.Bits.{wrap, sub64}
use xdec.Bits.Same.{bit_and_self, bit_or_self, bit_xor_self}
use xdec.Function.{at}
use xdec.Symbolic.{
  SymOp, SymPool, twice_folded, Folded, number, handle, as_literal, fold_binary, fold_identity,
  fold_constants, fold_same, fold_cancel, subtrahend_of, addend_besides, pair_of, is_sub, is_add,
  simplify,
}
use xdec.Symbolic.Result.{IsBinary}
use xdec.Symbolic.Adequate.{IsBinary-fold_binary}
use xdec.Symbolic.Means.{Means, two_of, one_meaning}
use xdec.Symbolic.Folds.{
  fold_identity-right, fold_identity-left, add-sub_cancel, sub-add_cancel, sub_self,
}
use xdec.Symbolic.Pool.{IsPool, Means-lt, value_of_literal}

pub pair_of-eq-some :
    (t : Bool) (xs : List ℕ) (a b : ℕ) → pair_of t xs ≡ some (a, b) → (t ≡ true) × (xs ≡ a ∷ b ∷ [])
pair_of-eq-some true (x ∷ y ∷ []) a b h = (refl, ground arith)
pair_of-eq-some true [] a b h = absurd (ground arith)
pair_of-eq-some true (x ∷ []) a b h = absurd (ground arith)
pair_of-eq-some true (x ∷ y ∷ z ∷ xs) a b h = absurd (ground arith)
pair_of-eq-some false xs a b h = absurd (ground arith)

sub_value : (op : SymOp) (x y v : ℕ) → is_sub op ≡ true → IsBinary op x y v → v ≡ sub64 x y
unfolding fold_binary
sub_value op x y v h f = let given = IsBinary-fold_binary op x y v f in ground arith

add_value : (op : SymOp) (x y v : ℕ) → is_add op ≡ true → IsBinary op x y v → v ≡ wrap (x + y)
unfolding fold_binary
add_value op x y v h f = let given = IsBinary-fold_binary op x y v f in ground arith

module _ (p : SymPool) (env : ℕ → ℕ) (w : IsPool p) (words : (s : ℕ) → env s < 2 ^ 64) where
  abbrev Stands : ℕ → ℕ → Type 0
  Stands = Means p.nodes.items env

  abbrev pub GivesOf : Folded → ℕ → Type 0
  GivesOf (number u) v = u ≡ v
  GivesOf (handle h) v = Stands h v

  same_number : (r : Folded) (u v : ℕ) → number u ≡ r → u ≡ v → GivesOf r v
  same_number r u v e h = rw (← e) h

  same_handle : (r : Folded) (h x v : ℕ) → handle h ≡ r → x ≡ v → Stands h x → GivesOf r v
  same_handle r h x v e same m = rw (← e, ← same) m

  constants_sound :
      (op : SymOp) (lhs rhs x y v : ℕ) (l r : Option ℕ) (out : Folded)
      → ((u : ℕ) → l ≡ some u → u ≡ x)
      → ((u : ℕ) → r ≡ some u → u ≡ y)
      → Stands lhs x
      → Stands rhs y
      → fold_binary op x y ≡ some v
      → fold_constants op lhs rhs l r ≡ some out
      → GivesOf out v
  unfolding fold_constants
  constants_sound op lhs rhs x y v (some a) (some b) out hl hr ml mr f h =
      same_number out v v (ground (arith, hl a refl, hr b refl)) refl
  constants_sound op lhs rhs x y v (some a) none out hl hr ml mr f h =
      elim (Option-cases (fold_identity op a false rhs)) [
        | inl gone ↦ absurd (ground arith)
        | inr (k, e) ↦
            let (place, kept) =
              fold_identity-left op a rhs k y v (Means-lt p env w words mr) e (rw (hl a refl) f) in
            same_handle out rhs y v (ground arith) (sym kept) mr
      ]
  constants_sound op lhs rhs x y v none (some b) out hl hr ml mr f h =
      elim (Option-cases (fold_identity op b true lhs)) [
        | inl gone ↦ absurd (ground arith)
        | inr (k, e) ↦
            let (place, kept) =
              fold_identity-right op b lhs k x v (Means-lt p env w words ml) e (rw (hr b refl) f) in
            same_handle out lhs x v (ground arith) (sym kept) ml
      ]
  constants_sound op lhs rhs x y v none none out hl hr ml mr f h = absurd (ground arith)

  -- An operation on one handle twice.
  twice_sound :
      (op : SymOp) (h x v : ℕ) (out : Folded)
      → Stands h x
      → fold_binary op x x ≡ some v
      → twice_folded op h ≡ some out
      → GivesOf out v
  unfolding fold_binary
  twice_sound SymOp.sub h x v out m f e =
      same_number out 0 v (ground arith) (ground (arith, sub_self x (Means-lt p env w words m)))
  twice_sound SymOp.xor h x v out m f e =
      same_number out 0 v (ground arith)
        (ground (arith, bit_xor_self 64 x (Means-lt p env w words m)))
  twice_sound SymOp.and h x v out m f e =
      same_handle out h x v (ground arith)
        (ground (arith, bit_and_self 64 x (Means-lt p env w words m))) m
  twice_sound SymOp.or h x v out m f e =
      same_handle out h x v (ground arith)
        (ground (arith, bit_or_self 64 x (Means-lt p env w words m))) m
  twice_sound SymOp.equal h x v out m f e = same_number out 1 v (ground arith) (ground arith)
  twice_sound SymOp.not_equal h x v out m f e = same_number out 0 v (ground arith) (ground arith)
  twice_sound SymOp.less_u h x v out m f e = same_number out 0 v (ground arith) (ground arith)
  twice_sound SymOp.less_s h x v out m f e = same_number out 0 v (ground arith) (ground arith)
  twice_sound op h x v out m f e = absurd (ground arith)

  same_sound :
      (op : SymOp) (lhs rhs x y v : ℕ) (out : Folded)
      → Stands lhs x
      → Stands rhs y
      → fold_binary op x y ≡ some v
      → fold_same op lhs rhs ≡ some out
      → GivesOf out v
  unfolding fold_same
  same_sound op lhs rhs x y v out ml mr f h = elim (Bool-cases (lhs == rhs)) [
    | inr apart ↦ absurd (ground arith)
    | inl e ↦
        let meet : lhs ≡ rhs = ground arith in
        let equal : x ≡ y = one_meaning p.nodes.items env ml (rw meet mr) in
        twice_sound op lhs x v out ml (rw (← equal) at f) (rw e at h)
  ]

  -- A difference with the term taken away.
  value_of_subtrahend :
      (candidate term h x y : ℕ)
      → subtrahend_of p candidate term ≡ some h
      → Stands term x
      → Stands candidate y
      → (z : ℕ) × Stands h z × (y ≡ sub64 z x)
  unfolding subtrahend_of
  value_of_subtrahend candidate term h x y e mt mc =
      elim (Option-cases (at p.nodes.items candidate)) [
        | inl gone ↦ absurd (ground arith)
        | inr (n, en) ↦ elim (Option-cases (pair_of (is_sub n.op) n.operands)) [
          | inl gone ↦ absurd (ground arith)
          | inr ((a, b), ep) ↦
              let (subs, args) = pair_of-eq-some (is_sub n.op) n.operands a b ep in
              let (x1, y1, ma, mb, f) = two_of p.nodes.items env n a b mc en args in
              let term_is : b ≡ term = ground arith in
              let out : a ≡ h = ground arith in
              let meets : y1 ≡ x = one_meaning p.nodes.items env mb (rw term_is mt) in
              (x1, rw (← out) ma, ground (arith, sub_value n.op x1 y1 y subs f))
        ]
      ]

  -- A sum with the term on one side.
  value_of_addend :
      (sum term h x y : ℕ)
      → addend_besides p sum term ≡ some h
      → Stands term y
      → Stands sum x
      → (z : ℕ) × Stands h z × (x ≡ wrap (z + y))
  unfolding addend_besides
  value_of_addend sum term h x y e mt mc = elim (Option-cases (at p.nodes.items sum)) [
    | inl gone ↦ absurd (ground arith)
    | inr (n, en) ↦ elim (Option-cases (pair_of (is_add n.op) n.operands)) [
      | inl gone ↦ absurd (ground arith)
      | inr ((a, b), ep) ↦
          let (adds, args) = pair_of-eq-some (is_add n.op) n.operands a b ep in
          let (x1, y1, ma, mb, f) = two_of p.nodes.items env n a b mc en args in
          let value = add_value n.op x1 y1 x adds f in
          elim (Bool-cases (a == term)) [
            | inl left ↦
                let term_is : a ≡ term = ground arith in
                let out : b ≡ h = ground arith in
                let meets : x1 ≡ y = one_meaning p.nodes.items env ma (rw term_is mt) in
                (y1, rw (← out) mb, omega arith)
            | inr other ↦
                let term_is : b ≡ term = ground arith in
                let out : a ≡ h = ground arith in
                let meets : y1 ≡ y = one_meaning p.nodes.items env mb (rw term_is mt) in
                (x1, rw (← out) ma, omega arith)
          ]
    ]
  ]

  value_of_cancelled :
      (op : SymOp) (lhs rhs x y v h : ℕ)
      → Stands lhs x
      → Stands rhs y
      → fold_binary op x y ≡ some v
      → fold_cancel op lhs rhs p ≡ some h
      → Stands h v
  unfolding fold_cancel fold_binary
  value_of_cancelled SymOp.add lhs rhs x y v h ml mr f e =
      elim (Option-cases (subtrahend_of p rhs lhs)) [
        | inr (k, ek) ↦
            let (z, mz, value) = value_of_subtrahend rhs lhs k x y ek ml mr in
            let out : k ≡ h = ground arith in
            let same : v ≡ z =
              ground (
                arith,
                add-sub_cancel x z (Means-lt p env w words ml) (Means-lt p env w words mz),
              ) in
            rw (same, ← out) mz
        | inl none_there ↦
            let second : subtrahend_of p lhs rhs ≡ some h = ground arith in
            let (z, mz, value) = value_of_subtrahend lhs rhs h y x second mr ml in
            let same : v ≡ z =
              ground (
                arith,
                add-sub_cancel y z (Means-lt p env w words mr) (Means-lt p env w words mz),
              ) in
            rw same mz
      ]
  value_of_cancelled SymOp.sub lhs rhs x y v h ml mr f e =
      let (z, mz, value) = value_of_addend lhs rhs h x y e mr ml in
      let same : v ≡ z =
        ground
          (arith, sub-add_cancel z y (Means-lt p env w words mz) (Means-lt p env w words mr)) in
      rw same mz
  value_of_cancelled op lhs rhs x y v h ml mr f e = absurd (ground arith)

  pub simplify-GivesOf :
      (op : SymOp) (lhs rhs x y v : ℕ) (out : Folded)
      → Stands lhs x
      → Stands rhs y
      → fold_binary op x y ≡ some v
      → simplify op lhs rhs p ≡ some out
      → GivesOf out v
  unfolding simplify
  simplify-GivesOf op lhs rhs x y v out ml mr f h =
      elim (Option-cases (fold_constants op lhs rhs (as_literal p lhs) (as_literal p rhs))) [
        | inr (r, e) ↦
            let same : r ≡ out = ground arith in
            rw (← same) (
              constants_sound op lhs rhs x y v (as_literal p lhs) (as_literal p rhs) r
                (λ u eu. value_of_literal p env w words lhs u x eu ml)
                (λ u eu. value_of_literal p env w words rhs u y eu mr) ml mr f e)
        | inl e ↦ elim (Option-cases (fold_same op lhs rhs)) [
          | inr (r, e') ↦
              let same : r ≡ out = ground arith in
              rw (← same) (same_sound op lhs rhs x y v r ml mr f e')
          | inl e' ↦ elim (Option-cases (fold_cancel op lhs rhs p)) [
            | inl e'' ↦ absurd (ground arith)
            | inr (k, e'') ↦
                let same : handle k ≡ out = ground arith in
                rw (← same) (value_of_cancelled op lhs rhs x y v k ml mr f e'')
          ]
        ]
      ]
