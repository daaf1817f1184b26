-- ===== src/Function/Slices.antt =====
-- `setOperands`: the op's operands become the list, and no other op's change, although all share a
-- pool that only grows.
use xdec.Base.{
  ℕ, zero, suc, ◌+◌, ◌%◌, ◌^◌, ◌≤◌, ◌<◌, ◌≡◌, refl, ap, inl, inr, ◌≢◌, some, List, [], ◌∷◌, ◌++◌,
  length, get_elem?, set, take, drop, arith, get_elem?-set, lt_of_get_elem?, Option-cases,
}
use native.Mathlib.Nat.{mod-eq_of_lt}
use xdec.Function.{Function, Op, at, operands}
use xdec.Function.Edit.{set_operands}
use xdec.Function.WellFormed.{IsWellFormed}
use xdec.Function.WellFormed.Blocks.{at-get_elem?}

take_all : (xs : List ℕ) → take (length xs) xs ≡ xs
take_all [] = refl
take_all (x ∷ xs) = ap (◌∷◌ x) (take_all xs)

take-append : (n : ℕ) (p xs : List ℕ) → n ≤ length p → take n (p ++ xs) ≡ take n p
take-append zero p xs h = refl
take-append (suc n) [] xs h = absurd (omega arith)
take-append (suc n) (y ∷ p) xs h = ap (◌∷◌ y) (take-append n p xs (omega arith))

-- A slice within a pool stays what it is when the pool grows.
slice-append :
    (start n : ℕ) (p xs : List ℕ)
    → start + n ≤ length p
    → take n (drop start (p ++ xs)) ≡ take n (drop start p)
slice-append zero n p xs h = take-append n p xs (omega arith)
slice-append (suc start) zero [] xs h = absurd (omega arith)
slice-append (suc start) (suc n) [] xs h = absurd (omega arith)
slice-append (suc start) n (y ∷ p) xs h = slice-append start n p xs (omega arith)

-- The slice at the end of the old pool is what was appended.
slice-end : (p xs : List ℕ) → take (length xs) (drop (length p) (p ++ xs)) ≡ xs
slice-end [] xs = take_all xs
slice-end (y ∷ p) xs = slice-end p xs

-- What an operation that replaces the operands of one op does to all.
pub record ReplacesOperands (id : ℕ) (xs : List ℕ) (f f' : Function) : Type 0 where
  pub new : (op : Op) → get_elem? f'.ops id ≡ some op → operands f' op ≡ xs
  pub others :
      (i : ℕ) (op : Op)
      → i ≢ id
      → get_elem? f'.ops i ≡ some op
      → (get_elem? f.ops i ≡ some op) × (operands f' op ≡ operands f op)

-- From a well-formed function with an operand pool and a list both shorter than `2 ^ 32`, if
-- `set_operands` succeeds, the op's operands are the list, and every other op and its operands are
-- unchanged.
pub set_operands-ReplacesOperands :
    (id : ℕ) (xs : List ℕ) (f f' : Function)
    → IsWellFormed f
    → length f.operand_pool < 2 ^ 32
    → length xs < 2 ^ 32
    → set_operands id xs f ≡ some f'
    → ReplacesOperands id xs f f'
unfolding set_operands operands
set_operands-ReplacesOperands id xs f f' w hp hx h = elim (Option-cases (at f.ops id)) [
  | inl gone ↦ absurd (ground arith)
  | inr (op, e) ↦
      let at_id = at-get_elem? f.ops id op e in
      let bound = lt_of_get_elem? f.ops id op at_id in
      let new : Op = record op {
        operand_start = length f.operand_pool % 2 ^ 32;
        operand_count = length xs % 2 ^ 32;
      } in
      let result : record f { ops = set f.ops id new; operand_pool = f.operand_pool ++ xs } ≡ f' =
        ground arith in
      rw (← result) (record {
        new = λ x at_x.
            let same : new ≡ x = ground (arith, get_elem?-set f.ops id id new bound) in
            rw (← same, mod-eq_of_lt hp, mod-eq_of_lt hx) (slice-end f.operand_pool xs);
        others = λ i x apart at_x.
            let before : get_elem? f.ops i ≡ some x =
              ground (arith, get_elem?-set f.ops id i new bound) in
            (
              before,
              slice-append x.operand_start x.operand_count f.operand_pool xs
                  (w.slices i x before).0,
            );
      })
]
