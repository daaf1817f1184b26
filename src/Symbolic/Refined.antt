-- ===== src/Symbolic/Refined.antt =====
-- Substitution in src/spec/symint.cpp against the meanings of handles: the name is given the value.
use Prim.Native.String.{String}
use mathlib.Core.Logic.{ite}
use xdec.Base.{get_elem?, none, some, length, ◌≤◌, ℕ, ◌<◌, ◌≡◌, refl, List, [], ◌∷◌, In, inl, inr}
use xdec.Function.Names.{String-discrete}
use xdec.Symbolic.{SymPool}
use xdec.Symbolic.Means.{Means}
use xdec.Symbolic.Pool.{IsPool, Means-old}
use xdec.Symbolic.Ordered.{IsClear, IsClear-old, IsOrdered, Kept}
use xdec.Function.{invalid}
use xdec.Symbolic.Substitute.{Run, spent, aborted, done, and_then, replace_all}

-- The assignment that gives the value to the symbols of a name; a number out of the table is named
-- `?`.
abbrev pub refine : List String → String → ℕ → (ℕ → ℕ) → ℕ → ℕ
refine names name value env s = elim (get_elem? names s) [
  | none ↦ ite (String-discrete "?" name) value (env s)
  | some there ↦ ite (String-discrete there name) value (env s)
]

pub Kept-refl : (p : SymPool) → IsPool p → IsOrdered p → Kept p p
Kept-refl p w o = record { pool = w; ordered = o; old = λ h x e. e; symbols = refl }

pub Kept-trans : (p q r : SymPool) → Kept p q → Kept q r → Kept p r
Kept-trans p q r k l = record {
  pool = l.pool;
  ordered = l.ordered;
  old = λ h x e. l.old h x (k.old h x e);
  symbols = rw l.symbols k.symbols;
}

-- A handle of an older pool, and its replacement.
pub record Replaces (before env : ℕ → ℕ) (p q : SymPool) (x y : ℕ) : Type 0 where
  pub clear : IsClear p x → IsClear q y
  pub means : (v : ℕ) → Means p.nodes.items before x v → Means q.nodes.items env y v

abbrev pub Each : (ℕ → ℕ) → (ℕ → ℕ) → SymPool → SymPool → List ℕ → List ℕ → Type 0
Each before env p q [] [] = Unit
Each before env p q (x ∷ xs) (y ∷ ys) = Replaces before env p q x y × Each before env p q xs ys
Each before env p q _ _ = ⊥

-- The pool has grown until no handle is left.
pub record Filled (p : SymPool) : Type 0 where
  pub grown : SymPool
  pub kept : Kept p grown
  pub full : invalid ≤ length grown.nodes.items

pub Filled-earlier : (p q : SymPool) → Kept p q → Filled q → Filled p
Filled-earlier p q k h = record {
  grown = h.grown;
  kept = Kept-trans p q h.grown k h.kept;
  full = h.full;
}

-- A run that is not spent and, unless it is aborted for want of a handle, replaces the handle.
abbrev pub IsReplaced : (ℕ → ℕ) → (ℕ → ℕ) → SymPool → ℕ → Run (ℕ × SymPool) → Type 0
IsReplaced before env p x spent = ⊥
IsReplaced before env p x aborted = Filled p
IsReplaced before env p x (done (y, q)) = Kept p q × Replaces before env p q x y

abbrev pub AllReplaced : (ℕ → ℕ) → (ℕ → ℕ) → SymPool → List ℕ → Run (List ℕ × SymPool) → Type 0
AllReplaced before env p xs spent = ⊥
AllReplaced before env p xs aborted = Filled p
AllReplaced before env p xs (done (ys, q)) = Kept p q × Each before env p q xs ys

module _ (before env : ℕ → ℕ) where
  Replaces-later :
      (p q r : SymPool) (x y : ℕ)
      → Kept q r
      → Replaces before env p q x y
      → Replaces before env p r x y
  Replaces-later p q r x y k h = record {
    clear = λ c. IsClear-old q r y k.pool k.old (h.clear c);
    means = λ v m. Means-old q r env k.pool k.old (h.means v m);
  }

  Replaces-earlier :
      (p q r : SymPool) (x y : ℕ)
      → Kept p q
      → Replaces before env q r x y
      → Replaces before env p r x y
  Replaces-earlier p q r x y k h = record {
    clear = λ c. h.clear (IsClear-old p q x k.pool k.old c);
    means = λ v m. h.means v (Means-old p q before k.pool k.old m);
  }

  Each-earlier :
      (p q r : SymPool) (xs ys : List ℕ)
      → Kept p q
      → Each before env q r xs ys
      → Each before env p r xs ys
  Each-earlier p q r [] [] k e = e
  Each-earlier p q r (x ∷ xs) (y ∷ ys) k (h, e) =
      (Replaces-earlier p q r x y k h, Each-earlier p q r xs ys k e)
  Each-earlier p q r [] (y ∷ ys) k e = absurd e
  Each-earlier p q r (x ∷ xs) [] k e = absurd e

  AllReplaced-cons :
      (p q : SymPool) (x y : ℕ) (xs : List ℕ) (rest : Run (List ℕ × SymPool))
      → Kept p q
      → Replaces before env p q x y
      → AllReplaced before env q xs rest
      → AllReplaced before env p (x ∷ xs) (and_then rest λ (ys, r). Run.done (y ∷ ys, r))
  AllReplaced-cons p q x y xs spent k h e = absurd e
  AllReplaced-cons p q x y xs aborted k h e = Filled-earlier p q k e
  AllReplaced-cons p q x y xs (done (ys, r)) k h (l, e) =
      (Kept-trans p q r k l, (Replaces-later p q r x y l h, Each-earlier p q r xs ys k e))

  AllReplaced-then :
      (p : SymPool) (x : ℕ) (xs : List ℕ) (rest : SymPool → Run (List ℕ × SymPool))
      (r : Run (ℕ × SymPool))
      → IsReplaced before env p x r
      → ((q : SymPool) → Kept p q → AllReplaced before env q xs (rest q))
      → AllReplaced before env p
          (x ∷ xs)
          (and_then r λ (y, q). and_then (rest q) λ (ys, t). Run.done (y ∷ ys, t))
  AllReplaced-then p x xs rest spent h e = absurd h
  AllReplaced-then p x xs rest aborted h e = h
  AllReplaced-then p x xs rest (done (y, q)) (k, h) e =
      AllReplaced-cons p q x y xs (rest q) k h (e q k)

  module _ (names : List String) (bound : ℕ) (go : ℕ → SymPool → Run (ℕ × SymPool)) where
    -- What one replacement needs of the pool, and gives.
    abbrev pub Step : Type 0
    Step =
        (x : ℕ) (p : SymPool)
        → IsPool p
        → IsOrdered p
        → p.symbols.items ≡ names
        → x < bound
        → IsReplaced before env p x (go x p)

    pub replace_all-AllReplaced :
        (xs : List ℕ) (p : SymPool)
        → Step
        → IsPool p
        → IsOrdered p
        → p.symbols.items ≡ names
        → ((x : ℕ) → In x xs → x < bound)
        → AllReplaced before env p xs (replace_all go xs p)
    unfolding replace_all
    replace_all-AllReplaced [] p step w o n b = (Kept-refl p w o, tt)
    replace_all-AllReplaced (x ∷ xs) p step w o n b =
        AllReplaced-then p x xs (replace_all go xs) (go x p) (step x p w o n (b x (inl refl)))
          λ q k.
            replace_all-AllReplaced xs q step k.pool k.ordered (rw k.symbols n) λ z i. b z (inr i)
