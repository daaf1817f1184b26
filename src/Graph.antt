-- ===== src/Graph.antt =====
-- Directed graphs as their successor lists, and the walks in them, which the searches over a
-- function's blocks are measured by.
use xdec.Base.{ℕ, zero, suc, ◌≡◌, ◌↔◌, ◌⊎◌, inl, inr, List, [], ◌∷◌, In, some, get_elem?, arith}

abbrev pub Edge : (ℕ → List ℕ) → ℕ → ℕ → Type 0
Edge succ u v = In v (succ u)

pub data Reach (succ : ℕ → List ℕ) (src : ℕ) : ℕ → Type 0 where
  here : Reach succ src src
  next : {u v : ℕ} → Reach succ src u → Edge succ u v → Reach succ src v

pub Reach-trans : {succ : ℕ → List ℕ} {a b c : ℕ} → Reach succ a b → Reach succ b c → Reach succ a c
Reach-trans p here = p
Reach-trans p (next q e) = next (Reach-trans p q) e

-- No member twice.
abbrev pub Distinct : List ℕ → Type 0
Distinct [] = Unit
Distinct (x ∷ xs) = ¬ In x xs × Distinct xs

-- The first stands before the second.
abbrev pub Before : ℕ → ℕ → List ℕ → Type 0
Before u v [] = ⊥
Before u v (x ∷ xs) = ((u ≡ x) × In v xs) ⊎ Before u v xs

pub mem_of_get_elem? : (xs : List ℕ) (i v : ℕ) → get_elem? xs i ≡ some v → In v xs
mem_of_get_elem? [] i v h = cc
mem_of_get_elem? (x ∷ xs) zero v h = inl (ground arith)
mem_of_get_elem? (x ∷ xs) (suc i) v h = inr (mem_of_get_elem? xs i v h)

pub get_elem?_of_mem : (xs : List ℕ) (v : ℕ) → In v xs → (i : ℕ) × (get_elem? xs i ≡ some v)
get_elem?_of_mem [] v m = elim m [ ]
get_elem?_of_mem (x ∷ xs) v (inl e) = (0, ground arith)
get_elem?_of_mem (x ∷ xs) v (inr m) = let (i, e) = get_elem?_of_mem xs v m in (suc i, e)

-- A reverse post-order of the vertices that the entry reaches: it starts with the entry, has each
-- of them once, and an edge leads forward in it unless its end reaches its start.
pub record IsReversePostOrder (succ : ℕ → List ℕ) (entry : ℕ) (order : List ℕ) : Type 0 where
  pub starts : (rest : List ℕ) × (order ≡ entry ∷ rest)
  pub distinct : Distinct order
  pub listed : (b : ℕ) → In b order ↔ Reach succ entry b
  pub ordered : (u v : ℕ) → In u order → Edge succ u v → Before u v order ⊎ Reach succ v u
