-- ===== src/Function/WellFormed/Values.antt =====
-- The values and the slices of the ops under each way of changing them.
use xdec.Base.{
  ℕ, ◌+◌, ◌%◌, ◌^◌, ◌≤◌, ◌<◌, ◌≡◌, ap, true, false, some, List, ◌++◌, length, get_elem?, push_back,
  set, ◌==◌, arith, get_elem?-push_back, get_elem?-set, length-append, lt_of_get_elem?,
}
use native.Mathlib.Decide.{ℕ_discrete}
use xdec.Function.{Op, ValueInfo, invalid, valid}
use xdec.Function.WellFormed.{ValuesOk, SlicesOk}

abbrev pub Slices : Op → List ℕ → List ℕ → Type 0
Slices op operand_pool target_pool =
    (op.operand_start + op.operand_count ≤ length operand_pool)
    × (op.target_start + op.target_count ≤ length target_pool)

pub SlicesOk-push_back :
    (ops : List Op) (op : Op) (p q p' q' : List ℕ)
    → length p ≤ length p'
    → length q ≤ length q'
    → Slices op p' q'
    → SlicesOk ops p q
    → SlicesOk (push_back ops op) p' q'
SlicesOk-push_back ops op p q p' q' hp hq new old id x e = elim (ℕ_discrete id (length ops)) [
  | yes last ↦ let same : op ≡ x = ground (arith, get_elem?-push_back ops op id) in rw (← same) new
  | no other ↦
      let before : get_elem? ops id ≡ some x = ground (arith, get_elem?-push_back ops op id) in
      omega (arith, old id x before)
]

pub SlicesOk-set :
    (ops : List Op) (i : ℕ) (op : Op) (p q p' q' : List ℕ)
    → i < length ops
    → length p ≤ length p'
    → length q ≤ length q'
    → Slices op p' q'
    → SlicesOk ops p q
    → SlicesOk (set ops i op) p' q'
SlicesOk-set ops i op p q p' q' h hp hq new old id x e = elim (ℕ_discrete i id) [
  | yes here ↦ let same : op ≡ x = ground (arith, get_elem?-set ops i id op h) in rw (← same) new
  | no other ↦
      let before : get_elem? ops id ≡ some x = ground (arith, get_elem?-set ops i id op h) in
      omega (arith, old id x before)
]

-- A slice that starts, as 32 bits can say, at the end of a pool that grew by as much.
pub slice_within : (p xs : List ℕ) → length p % 2 ^ 32 + length xs % 2 ^ 32 ≤ length (p ++ xs)
slice_within p xs = omega (arith, length-append p xs)

pub ValuesOk-push_back :
    (ops : List Op) (op : Op) (values : List ValueInfo)
    → op.result ≡ invalid
    → ValuesOk ops values
    → ValuesOk (push_back ops op) values
ValuesOk-push_back ops op values h old id x e v = elim (ℕ_discrete id (length ops)) [
  | yes last ↦
      let same : op ≡ x = ground (arith, get_elem?-push_back ops op id) in
      absurd (ground (arith, same))
  | no other ↦ old id x (ground (arith, get_elem?-push_back ops op id)) v
]

pub ValuesOk-define :
    (ops : List Op) (values : List ValueInfo) (new : ValueInfo)
    → ValuesOk ops values
    → ValuesOk ops (push_back values new)
ValuesOk-define ops values new old id x e v =
    let (info, at_result, here) = old id x e v in
    (
      info,
      ground (arith, get_elem?-push_back values new x.result, lt_of_get_elem? values x.result info),
      here,
    )

-- A changed op whose result is still right.
pub ValuesOk-set :
    (ops : List Op) (i : ℕ) (op : Op) (values : List ValueInfo)
    → i < length ops
    → (valid op.result ≡ true
        → (info : ValueInfo) × (get_elem? values op.result ≡ some info) × (info.definition ≡ i))
    → ValuesOk ops values
    → ValuesOk (set ops i op) values
ValuesOk-set ops i op values h new old id x e v = elim (ℕ_discrete i id) [
  | yes here ↦
      let same : op ≡ x = ground (arith, get_elem?-set ops i id op h) in
      let (info, at_result, def) = new (rw same v) in (info, rw (← same) at_result, ground arith)
  | no other ↦ old id x (ground (arith, get_elem?-set ops i id op h)) v
]

-- A value has one definition.
shared :
    (values : List ValueInfo) (r s i j : ℕ) (a b : ValueInfo)
    → r ≡ s
    → get_elem? values r ≡ some a
    → get_elem? values s ≡ some b
    → a.definition ≡ i
    → b.definition ≡ j
    → i ≡ j
shared values r s i j a b e p q d d' =
    let same : a ≡ b = ground arith in ground (arith, ap (λ (v : ValueInfo). v.definition) same)

-- The value of an op without one any more: the op's result and the value's definition go together.
pub ValuesOk-tombstone :
    (ops : List Op) (i : ℕ) (old_op op : Op) (values : List ValueInfo) (dead : ValueInfo)
    → get_elem? ops i ≡ some old_op
    → valid old_op.result ≡ true
    → op.result ≡ invalid
    → ValuesOk ops values
    → ValuesOk (set ops i op) (set values old_op.result dead)
ValuesOk-tombstone ops i old_op op values dead at_i v gone old id x e w =
    let (mine, at_mine, my_def) = old i old_op at_i v in
    let bound = lt_of_get_elem? ops i old_op at_i in
    elim (ℕ_discrete i id) [
      | yes here ↦
          let same : op ≡ x = ground (arith, get_elem?-set ops i id op bound) in
          absurd (ground (arith, same))
      | no other ↦
          let before : get_elem? ops id ≡ some x =
            ground (arith, get_elem?-set ops i id op bound) in
          let (info, at_result, def) = old id x before w in
          let apart : (old_op.result == x.result) ≡ false =
            elim (ℕ_discrete old_op.result x.result) [
              | yes p ↦ absurd (
                  other (
                    shared values old_op.result x.result i id mine info p at_mine at_result my_def
                      def))
              | no p ↦ ground arith
            ] in
          (
            info,
            ground (
              arith,
              get_elem?-set values old_op.result x.result dead
                  (lt_of_get_elem? values old_op.result mine at_mine),
            ),
            def,
          )
    ]
