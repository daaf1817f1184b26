-- ===== src/Interp/Agree/Compare.antt =====
-- src/il/ceval.cpp and src/il/interp.cpp: the comparisons, and `Concat` by insertion.
use xdec.Base.{ℕ, ◌≤◌, ◌≡◌, arith, Bool-cases, ◌==◌, ◌/=◌, ◌&&◌, ◌||◌, some, inl, inr, leb}
use xdec.U128.{U128, cmp_u, cmp_s}
use xdec.U128.Value.{Fits, mask_self}
use xdec.Eval.{Cmp, fold_compare, boolean, is_eq, is_lt, is_le, not_eq}

unfoldable pub exec_compare : Cmp → ℕ → U128 → U128 → U128
exec_compare Cmp.eq w a b = boolean ((a.lo == b.lo) && (a.hi == b.hi))
exec_compare Cmp.ne w a b = boolean ((a.lo /= b.lo) || (a.hi /= b.hi))
exec_compare Cmp.lt_u w a b = boolean (is_lt (cmp_u a b))
exec_compare Cmp.le_u w a b = boolean (is_le (cmp_u a b))
exec_compare Cmp.lt_s w a b = boolean (is_lt (cmp_s a b w))
exec_compare Cmp.le_s w a b = boolean (is_le (cmp_s a b w))

eq_words : (a b : U128) → is_eq (cmp_u a b) ≡ ((a.lo == b.lo) && (a.hi == b.hi))
unfolding cmp_u
eq_words a b = ground arith

ne_words : (a b : U128) → not_eq (cmp_u a b) ≡ ((a.lo /= b.lo) || (a.hi /= b.hi))
unfolding cmp_u
ne_words a b = ground arith

-- The folder masks by the operands' width, which changes nothing when they fit it.
pub fold_compare-exec_compare :
    (c : Cmp) (w : ℕ) (a b v : U128)
    → Fits w a
    → Fits w b
    → fold_compare c w a b ≡ some v
    → v ≡ exec_compare c w a b
unfolding fold_compare exec_compare
fold_compare-exec_compare c w a b v fa fb h = elim (Bool-cases (leb w 128)) [
  | inl le ↦
      let le' : w ≤ 128 = ground arith in
      ground (arith, eq_words a b, ne_words a b, mask_self a w fa le', mask_self b w fb le')
  | inr gt ↦ ground arith
]
