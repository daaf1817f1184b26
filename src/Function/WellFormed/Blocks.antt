-- ===== src/Function/WellFormed/Blocks.antt =====
-- The lists of ops in blocks under each way of changing them or the ops.
use xdec.Base.{
  ℕ, ◌%◌, ◌≤◌, ◌<◌, ◌≡◌, refl, inl, inr, true, false, some, List, [], ◌∷◌, length, get_elem?, ◌∙◌,
  push_back, set, ◌==◌, arith, get_elem?-push_back, get_elem?-set, length-push_back, length-set,
  Option-cases, Bool-cases, lt_of_get_elem?,
}
use native.Mathlib.Nat.{mod-eq_of_lt}
use xdec.Function.{Op, Block, handle_count, invalid, at, emplace, ends_block, is_phi}
use xdec.Function.Append.{back}
use xdec.Function.Edit.{erase_op, pop_back, insert_after_phis}
use xdec.Function.WellFormed.{ends_at, Listed, BlocksOk}

pub at-get_elem? {ℓ} :
    {A : Type ℓ} (xs : List A) (i : ℕ) (x : A) → at xs i ≡ some x → get_elem? xs i ≡ some x
unfolding at
at-get_elem? xs i x h = ground arith

-- A new handle is the place at the end.
pub emplace-place {ℓ} :
    {A : Type ℓ} (xs ys : List A) (x : A) (id : ℕ)
    → length xs ≤ invalid
    → emplace xs x ≡ some (id, ys)
    → (id ≡ length xs) × (ys ≡ push_back xs x) × (length xs < invalid)
unfolding emplace
emplace-place xs ys x id h e =
    let small : length xs % handle_count ≡ length xs = mod-eq_of_lt (omega arith) in
    ground (arith, small)

-- The ops behind old handles keep whether they end a block.
abbrev pub SameEnds : List Op → List Op → Type 0
SameEnds ops ops' =
    (length ops ≤ length ops') × ((id : ℕ) → id < length ops → ends_at ops' id ≡ ends_at ops id)

pub push_back-SameEnds : (ops : List Op) (op : Op) → SameEnds ops (push_back ops op)
push_back-SameEnds ops op =
    (omega (arith, length-push_back ops op), λ id h. ground (arith, get_elem?-push_back ops op id))

pub set-SameEnds :
    (ops : List Op) (i : ℕ) (old new : Op)
    → get_elem? ops i ≡ some old
    → new.code ≡ old.code
    → SameEnds ops (set ops i new)
set-SameEnds ops i old new at_i same = (
  omega (arith, length-set ops i new),
  λ id h. ground (arith, get_elem?-set ops i id new, lt_of_get_elem? ops i old),
)

pub Listed-SameEnds :
    (ops ops' : List Op) (xs : List ℕ) → SameEnds ops ops' → Listed ops xs → Listed ops' xs
Listed-SameEnds ops ops' [] e h = tt
Listed-SameEnds ops ops' (x ∷ []) e h = omega (arith, e.0)
Listed-SameEnds ops ops' (x ∷ y ∷ xs) e h =
    (omega (arith, e.0), e.1 x h.0 ∙ h.1, Listed-SameEnds ops ops' (y ∷ xs) e h.2)

-- At the back of a block that has not ended.
pub Listed-push_back :
    (ops : List Op) (xs : List ℕ) (id : ℕ)
    → id < length ops
    → ((last : ℕ) → back xs ≡ some last → ends_at ops last ≡ false)
    → Listed ops xs
    → Listed ops (push_back xs id)
Listed-push_back ops [] id h goes_on l = h
Listed-push_back ops (x ∷ []) id h goes_on l = (l, goes_on x refl, h)
Listed-push_back ops (x ∷ y ∷ xs) id h goes_on l =
    (l.0, l.1, Listed-push_back ops (y ∷ xs) id h goes_on l.2)

pub Listed-tail : (ops : List Op) (x : ℕ) (xs : List ℕ) → Listed ops (x ∷ xs) → Listed ops xs
Listed-tail ops x [] l = tt
Listed-tail ops x (y ∷ xs) l = l.2

-- In front of a list, if it does not end a block.
pub Listed-cons :
    (ops : List Op) (x : ℕ) (xs : List ℕ)
    → x < length ops
    → ends_at ops x ≡ false
    → Listed ops xs
    → Listed ops (x ∷ xs)
Listed-cons ops x [] h e l = h
Listed-cons ops x (y ∷ xs) h e l = (h, e, l)

Listed-head : (ops : List Op) (x : ℕ) (xs : List ℕ) → Listed ops (x ∷ xs) → x < length ops
Listed-head ops x [] l = l
Listed-head ops x (y ∷ xs) l = l.0

phi-goes_on : (op : Op) → is_phi op.code ≡ true → ends_block op.code ≡ false
unfolding is_phi ends_block
phi-goes_on op h = ground arith

pub Listed-insert :
    (ops : List Op) (id : ℕ) (xs ys : List ℕ)
    → id < length ops
    → ends_at ops id ≡ false
    → insert_after_phis ops id xs ≡ some ys
    → Listed ops xs
    → Listed ops ys
unfolding insert_after_phis
Listed-insert ops id [] ys h e r l = let same : id ∷ [] ≡ ys = ground arith in rw (← same) h
Listed-insert ops id (x ∷ xs) ys h e r l = elim (Option-cases (at ops x)) [
  | inl gone ↦ absurd (ground arith)
  | inr (op, at_x) ↦ elim (Bool-cases (is_phi op.code)) [
    | inl phi ↦ elim (Option-cases (insert_after_phis ops id xs)) [
      | inl gone ↦ absurd (ground arith)
      | inr (zs, r') ↦
          let same : x ∷ zs ≡ ys = ground arith in
          let goes_on : ends_at ops x ≡ false =
            ground (arith, at-get_elem? ops x op at_x, phi-goes_on op phi) in
          rw (← same) (
            Listed-cons ops x zs (Listed-head ops x xs l) goes_on
              (Listed-insert ops id xs zs h e r' (Listed-tail ops x xs l)))
    ]
    | inr other ↦ let same : id ∷ x ∷ xs ≡ ys = ground arith in rw (← same) (h, e, l)
  ]
]

-- A list that erasing left not empty had another op behind its head.
Listed-shorter :
    (ops : List Op) (id x : ℕ) (xs zs : List ℕ)
    → erase_op id xs ≡ some zs
    → Listed ops (x ∷ xs)
    → Listed ops zs
    → Listed ops (x ∷ zs)
unfolding erase_op
Listed-shorter ops id x [] zs r l k = absurd (ground arith)
Listed-shorter ops id x (y ∷ xs) zs r l k = Listed-cons ops x zs l.0 l.1 k

pub Listed-erase :
    (ops : List Op) (id : ℕ) (xs ys : List ℕ)
    → erase_op id xs ≡ some ys
    → Listed ops xs
    → Listed ops ys
unfolding erase_op
Listed-erase ops id [] ys r l = absurd (ground arith)
Listed-erase ops id (x ∷ xs) ys r l = elim (Bool-cases (x == id)) [
  | inl found ↦ let same : xs ≡ ys = ground arith in rw (← same) (Listed-tail ops x xs l)
  | inr other ↦ elim (Option-cases (erase_op id xs)) [
    | inl gone ↦ absurd (ground arith)
    | inr (zs, r') ↦
        let same : x ∷ zs ≡ ys = ground arith in
        rw (← same) (
          Listed-shorter ops id x xs zs r' l
            (Listed-erase ops id xs zs r' (Listed-tail ops x xs l)))
  ]
]

pub Listed-pop_back : (ops : List Op) (xs : List ℕ) → Listed ops xs → Listed ops (pop_back xs)
Listed-pop_back ops [] l = tt
Listed-pop_back ops (x ∷ []) l = tt
Listed-pop_back ops (x ∷ y ∷ []) l = l.0
Listed-pop_back ops (x ∷ y ∷ z ∷ xs) l = (l.0, l.1, Listed-pop_back ops (y ∷ z ∷ xs) l.2)

pub BlocksOk-set :
    (ops ops' : List Op) (blocks : List Block) (b : ℕ) (x : Block)
    → b < length blocks
    → SameEnds ops ops'
    → BlocksOk ops blocks
    → Listed ops' x.ops
    → BlocksOk ops' (set blocks b x)
BlocksOk-set ops ops' blocks b x h same old new i y at_i = elim (Bool-cases (b == i)) [
  | inl e ↦ let e' : x ≡ y = ground (arith, get_elem?-set blocks b i x h) in rw (← e') new
  | inr e ↦
      Listed-SameEnds ops ops' y.ops same (old i y (ground (arith, get_elem?-set blocks b i x h)))
]
