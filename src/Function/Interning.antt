-- ===== src/Function/Interning.antt =====
-- The pool of expressions of a function: `intern` keeps it hash-consed, and equal handles mean equal
-- expressions.
use xdec.Base.{
  ℕ, ◌%◌, ◌≤◌, ◌<◌, ◌≡◌, refl, ap, ◌↔◌, true, none, some, length, arith, get_elem?, Option-cases,
  inl, inr,
}
use native.Mathlib.Nat.{mod-eq_of_lt}
use xdec.Expr.{Expr}
use xdec.Table.{Table, find, intern_key}
use xdec.Table.Interned.{unique_handle}
use xdec.Table.Handles.{IsHashConsed, intern_key-Grows}
use xdec.Function.{Function, handle_count, invalid, valid}
use xdec.Function.Build.{Expr-discrete, intern, max_operands}

abbrev pub IsInterned : Table Expr → Type 0
IsInterned = IsHashConsed Expr-discrete

-- What `intern` did, if it did not abort.
pub record Interns (expr : Expr) (f : Function) (id : ℕ) (f' : Function) : Type 0 where
  pub kept : f' ≡ record f { exprs = f'.exprs }
  pub pool : IsInterned f'.exprs
  pub found : get_elem? f'.exprs.items id ≡ some expr
  pub old :
      (h : ℕ) (x : Expr) → get_elem? f.exprs.items h ≡ some x → get_elem? f'.exprs.items h ≡ some x

abbrev interned : Expr → Function → ℕ × Function
interned expr f =
    let (id, exprs) = intern_key Expr-discrete handle_count expr f.exprs in
    (id, record f { exprs = exprs })

intern_inversion :
    (expr : Expr) (f f' : Function) (id : ℕ)
    → intern expr f ≡ some (id, f')
    → ((id, f') ≡ interned expr f)
      × (find Expr-discrete expr f.exprs.index ≡ none
          → valid (length f.exprs.items % handle_count) ≡ true)
unfolding intern
intern_inversion expr f f' id h = elim (Option-cases (find Expr-discrete expr f.exprs.index)) [
  | inl new ↦ (ground arith, λ e. ground arith)
  | inr (old, e) ↦ (ground arith, λ e'. absurd (ground arith))
]

-- From a function with a hash-consed pool, if `intern` succeeds, it changes the pool only, the pool
-- is hash-consed again, the expression stands at the handle, and every older handle still names its
-- expression.
pub intern-Interns :
    (expr : Expr) (f f' : Function) (id : ℕ)
    → IsInterned f.exprs
    → intern expr f ≡ some (id, f')
    → Interns expr f id f'
intern-Interns expr f f' id inv h =
    let (result, room) = intern_inversion expr f f' id h in
    let grown = intern_key-Grows Expr-discrete expr f.exprs inv room in
    let shape : f' ≡ (interned expr f).1 = ap (λ (r : ℕ × Function). r.1) result in
    let place : id ≡ (interned expr f).0 = ap (λ (r : ℕ × Function). r.0) result in
    rw (place, shape)
      (record { kept = refl; pool = grown.consed; found = grown.found; old = grown.old })

-- From a function with a hash-consed pool, if two expressions are interned one after the other
-- without an abort, their handles are equal exactly if the expressions are.
pub intern-handle_iff :
    (a b : Expr) (f f1 f2 : Function) (i j : ℕ)
    → IsInterned f.exprs
    → intern a f ≡ some (i, f1)
    → intern b f1 ≡ some (j, f2)
    → (i ≡ j) ↔ (a ≡ b)
intern-handle_iff a b f f1 f2 i j inv h k =
    let first = intern-Interns a f f1 i inv h in
    let second = intern-Interns b f1 f2 j first.pool k in
    let kept = second.old i a first.found in
    (
      λ e. ground (arith, kept, second.found),
      λ e. unique_handle Expr-discrete f2.exprs i j a second.pool.agrees kept (rw e second.found),
    )

pub intern_returns :
    (expr : Expr) (f : Function)
    → length expr.operands ≤ max_operands
    → length f.exprs.items < invalid
    → intern expr f ≡ some (interned expr f)
unfolding intern
intern_returns expr f few room =
    let small : length f.exprs.items % handle_count ≡ length f.exprs.items =
      mod-eq_of_lt (omega arith) in
    elim (Option-cases (find Expr-discrete expr f.exprs.index)) [
      | inl new ↦ ground (arith, small)
      | inr (old, e) ↦ ground arith
    ]
