-- ===== src/Table.antt =====
-- Interning, as `Function::intern`, `internName` and `internPass` of src/il/function.cpp and the
-- pools of src/spec/symint.cpp do it: a vector of distinct items, and a hash map from an item to
-- its place. The map is an association list; its order is never seen.
pub mod Interned
pub mod Handles
use xdec.Base.{ℕ, ◌%◌, ◌≡◌, Option, none, some, List, [], ◌∷◌, length, push_back}
use mathlib.Core.Logic.{ite}

pub record Table (K : Type 0) : Type 0 where
  pub items : List K
  pub index : List (K × ℕ)

abbrev pub empty : {K : Type 0} → Table K
empty = record { items = []; index = [] }

module _ {K : Type 0} (same : Discrete K) where
  unfoldable pub find : K → List (K × ℕ) → Option ℕ
  find k [] = none
  find k ((j, id) ∷ index) = ite (same k j) (some id) (find k index)

  -- The new item goes to the back of the vector, and its place, as the handle's type can hold it,
  -- into the map.
  unfoldable pub intern_key : ℕ → K → Table K → ℕ × Table K
  intern_key handles k t =
      let id = length t.items % handles in
      elim (find k t.index) [
        | some old ↦ (old, t)
        | none ↦ (id, record { items = push_back t.items k; index = (k, id) ∷ t.index })
      ]
