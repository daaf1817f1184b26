-- ===== src/Function/Constants.antt =====
-- `Function::constant`: two spellings of one constant are one node.
use xdec.Base.{
  ap, ℕ, ◌%◌, ◌^◌, ◌<◌, ◌≡◌, ◌↔◌, min, some, [], arith, leb, if◌then◌else◌, Bool-cases, inl, inr,
}
use xdec.Bits.{zero_extend}
use xdec.Bits.Fields.{zero_extend-narrow}
use xdec.Expr.{IlType, ExprOp, bits}
use xdec.Function.{Function}
use xdec.Function.Build.{constant, node, intern}
use xdec.Function.Interning.{IsInterned, intern-handle_iff}

abbrev normal : IlType → ℕ → ℕ
normal type value = if leb 64 (bits type) then value else zero_extend value (bits type)

normal-mod :
    (type : IlType) (value : ℕ)
    → value < 2 ^ 64
    → normal type value ≡ value % 2 ^ min (bits type) 64
normal-mod type value h = elim (Bool-cases (leb 64 (bits type))) [
  | inl wide ↦ let e : min (bits type) 64 ≡ 64 = ground arith in rw (wide, e) (omega arith)
  | inr narrow ↦
      let e : min (bits type) 64 ≡ bits type = ground arith in
      rw (narrow, e) (zero_extend-narrow value (bits type) (ground arith))
]

constant-intern :
    (type : IlType) (value : ℕ) (f : Function) (r : ℕ × Function)
    → constant type value f ≡ some r
    → intern (node ExprOp.const type [] (normal type value)) f ≡ some r
unfolding constant
constant-intern type value f r h = ground arith

-- From a function with a hash-consed pool, for two 64-bit values of one type, if `constant`
-- succeeds on both in turn, the handles are equal exactly if the values agree modulo two to the
-- power of the type's width, or of 64 if that is less.
pub constant-handle_iff :
    (type : IlType) (u v : ℕ) (f f1 f2 : Function) (i j : ℕ)
    → IsInterned f.exprs
    → u < 2 ^ 64
    → v < 2 ^ 64
    → constant type u f ≡ some (i, f1)
    → constant type v f1 ≡ some (j, f2)
    → (i ≡ j) ↔ (u % 2 ^ min (bits type) 64 ≡ v % 2 ^ min (bits type) 64)
constant-handle_iff type u v f f1 f2 i j inv hu hv h k =
    let same =
      intern-handle_iff (node ExprOp.const type [] (normal type u))
        (node ExprOp.const type [] (normal type v)) f f1 f2 i j inv
        (constant-intern type u f (i, f1) h) (constant-intern type v f1 (j, f2) k) in
    rw (← normal-mod type u hu, ← normal-mod type v hv)
      ((λ e. cc (same.0 e)), λ e. same.1 (ap (node ExprOp.const type []) e))
