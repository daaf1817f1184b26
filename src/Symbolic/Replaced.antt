-- ===== src/Symbolic/Replaced.antt =====
-- `SymPool::substitute` of src/spec/symint.cpp on a pool that the builders made.
use Prim.Native.String.{String}
use xdec.Base.{ℕ, ◌^◌, ◌<◌, List}
use xdec.Symbolic.{SymPool}
use xdec.Symbolic.Means.{Means}
use xdec.Symbolic.Pool.{IsPool}
use xdec.Symbolic.Ordered.{IsOrdered, Kept}
use xdec.Symbolic.Refined.{Replaces, refine}

module _ (names : List String) (name : String) (value : ℕ) (env : ℕ → ℕ) (small : value < 2 ^ 64)
    (words : (s : ℕ) → env s < 2 ^ 64) where
  abbrev before : ℕ → ℕ
  before = refine names name value env

  module _ (p : SymPool) (w : IsPool p) (o : IsOrdered p) (id : ℕ) where
    abbrev Keeps : Type 0
    Keeps = Kept p p × Replaces before env p p id id
