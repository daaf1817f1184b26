-- ===== src/Function/Session/Builders.antt =====
-- The builders of expressions only intern, so they keep a function well formed.
use xdec.Base.{
  ℕ, ◌≡◌, refl, Bool, true, false, Option, none, some, List, assert, ◌>>=◌, ◌>>◌, if◌then◌else◌,
}
use xdec.Expr.{IlType, ExprOp, FlagBitIndex, Expr}
use xdec.Flags.{FlagOp, ConditionCode}
use xdec.Function.{Function, boolean_type}
use xdec.Function.Build.{
  intern, constant, boolean, value_ref, undefined, entry_reg, unary, binary, cast, extract, concat,
  select, flag_def, flag_condition, flag_bit_of,
}
use xdec.Function.WellFormed.{IsWellFormed}
use xdec.Function.WellFormed.Edits.{intern-IsWellFormed}

-- The function that a call left, if it did not abort, is well formed.
pub data Kept : Option (ℕ × Function) → Type 0 where
  aborted : Kept none
  kept : {id : ℕ} {f : Function} → IsWellFormed f → Kept (some (id, f))

pub Kept-assert : (b : Bool) (o : Option (ℕ × Function)) → Kept o → Kept (assert b >> o)
Kept-assert true o k = k
Kept-assert false o k = aborted

pub Kept-bind :
    {A : Type 0} (m : Option A) (g : A → Option (ℕ × Function))
    → ((a : A) → Kept (g a))
    → Kept (m >>= g)
Kept-bind none g k = aborted
Kept-bind (some a) g k = k a

pub Kept-ok :
    (o : Option (ℕ × Function))
    → ((id : ℕ) (f : Function) → o ≡ some (id, f) → IsWellFormed f)
    → Kept o
Kept-ok none h = aborted
Kept-ok (some (id, f)) h = kept (h id f refl)

pub Kept-intern : (expr : Expr) (f : Function) → IsWellFormed f → Kept (intern expr f)
Kept-intern expr f w = Kept-ok (intern expr f) (λ id g e. intern-IsWellFormed expr f g id w e)

module _ (f : Function) (w : IsWellFormed f) where
  pub Kept-constant : (type : IlType) (value : ℕ) → Kept (constant type value f)
  unfolding constant
  Kept-constant type value = search (Kept-assert, Kept-bind, Kept-intern, w)

  pub Kept-boolean : (value : Bool) → Kept (boolean value f)
  unfolding boolean
  Kept-boolean value = Kept-constant boolean_type (if value then 1 else 0)

  pub Kept-value_ref : (value : ℕ) → Kept (value_ref value f)
  unfolding value_ref
  Kept-value_ref value = search (Kept-assert, Kept-bind, Kept-intern, w)

  pub Kept-undefined : (type : IlType) → Kept (undefined type f)
  unfolding undefined
  Kept-undefined type = search (Kept-assert, Kept-bind, Kept-intern, w)

  pub Kept-entry_reg : (reg : ℕ) → Kept (entry_reg reg f)
  unfolding entry_reg
  Kept-entry_reg reg = search (Kept-assert, Kept-bind, Kept-intern, w)

  pub Kept-unary : (op : ExprOp) (x : ℕ) → Kept (unary op x f)
  unfolding unary
  Kept-unary op x = search (Kept-assert, Kept-bind, Kept-intern, w)

  pub Kept-binary : (op : ExprOp) (x y : ℕ) → Kept (binary op x y f)
  unfolding binary
  Kept-binary op x y = search (Kept-assert, Kept-bind, Kept-intern, w)

  pub Kept-cast : (op : ExprOp) (type : IlType) (x : ℕ) → Kept (cast op type x f)
  unfolding cast
  Kept-cast op type x = search (Kept-assert, Kept-bind, Kept-intern, w)

  pub Kept-extract : (type : IlType) (x low : ℕ) → Kept (extract type x low f)
  unfolding extract
  Kept-extract type x low = search (Kept-assert, Kept-bind, Kept-intern, w)

  pub Kept-concat : (type : IlType) (x y : ℕ) → Kept (concat type x y f)
  unfolding concat
  Kept-concat type x y = search (Kept-assert, Kept-bind, Kept-intern, w)

  pub Kept-select : (c x y : ℕ) → Kept (select c x y f)
  unfolding select
  Kept-select c x y = search (Kept-assert, Kept-bind, Kept-intern, w)

  pub Kept-flag_def : (op : FlagOp) (width : ℕ) (args : List ℕ) → Kept (flag_def op width args f)
  unfolding flag_def
  Kept-flag_def op width args = search (Kept-assert, Kept-bind, Kept-intern, w)

  pub Kept-flag_condition : (flags : ℕ) (code : ConditionCode) → Kept (flag_condition flags code f)
  unfolding flag_condition
  Kept-flag_condition flags code = search (Kept-assert, Kept-bind, Kept-intern, w)

  pub Kept-flag_bit_of : (flags : ℕ) (bit : FlagBitIndex) → Kept (flag_bit_of flags bit f)
  unfolding flag_bit_of
  Kept-flag_bit_of flags bit = search (Kept-assert, Kept-bind, Kept-intern, w)
