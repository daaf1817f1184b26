-- ===== src/Table/Interned.antt =====
-- Hash-consing in src/il/function.cpp and src/spec/symint.cpp: the map and the vector as one table.
use xdec.Base.{
  ◌⊎◌, ℕ, ◌<◌, ◌≡◌, none, some, List, ◌∷◌, length, arith, get_elem?, push_back, get_elem?-push_back,
  lt_of_get_elem?, Option-cases, inl, inr,
}
use native.Mathlib.Nat.{mod-eq_of_lt}
use xdec.Table.{Table, empty, find, intern_key}

pushed {ℓ} :
    {A : Type ℓ} (xs : List A) (k : A) (id : ℕ) (x : A)
    → get_elem? (push_back xs k) id ≡ some x
    → (x ≡ k) ⊎ (get_elem? xs id ≡ some x)
pushed xs k id x h = ground (arith, get_elem?-push_back xs k id)

module _ {K : Type 0} (same : Discrete K) where
  -- The map finds a place exactly if the item stands there.
  pub record Agrees (t : Table K) : Type 0 where
    pub sound : (k : K) (id : ℕ) → find same k t.index ≡ some id → get_elem? t.items id ≡ some k
    pub complete : (k : K) (id : ℕ) → get_elem? t.items id ≡ some k → find same k t.index ≡ some id

  pub empty-Agrees : Agrees empty
  unfolding find
  empty-Agrees = record { sound = λ k id h. cc; complete = λ k id h. cc }

  -- An interned item stands at its handle.
  pub intern_key-get :
      (handles : ℕ) (k : K) (t : Table K)
      → length t.items < handles
      → Agrees t
      → get_elem? (intern_key same handles k t).1.items (intern_key same handles k t).0 ≡ some k
  unfolding intern_key
  intern_key-get handles k t fits a = elim (Option-cases (find same k t.index)) [
    | inl new ↦
        rw (new, mod-eq_of_lt fits, intern_key)
          (ground (arith, get_elem?-push_back t.items k (length t.items)))
    | inr (id, e) ↦ rw (e, intern_key) (a.sound k id e)
  ]

  -- Handles given out before stay what they were.
  pub intern_key-keeps :
      (handles : ℕ) (k : K) (t : Table K) (id : ℕ) (x : K)
      → get_elem? t.items id ≡ some x
      → get_elem? (intern_key same handles k t).1.items id ≡ some x
  unfolding intern_key
  intern_key-keeps handles k t id x h = elim (Option-cases (find same k t.index)) [
    | inl new ↦
        rw (new, intern_key)
          (ground (arith, get_elem?-push_back t.items k id, lt_of_get_elem? t.items id x))
    | inr (i, e) ↦ rw (e, intern_key) h
  ]

  -- Every item is old or the new one.
  pub intern_key-only :
      (handles : ℕ) (k : K) (t : Table K) (id : ℕ) (x : K)
      → get_elem? (intern_key same handles k t).1.items id ≡ some x
      → (x ≡ k) ⊎ (get_elem? t.items id ≡ some x)
  unfolding intern_key
  intern_key-only handles k t id x h = elim (Option-cases (find same k t.index)) [
    | inl new ↦ pushed t.items k id x (rw (new, intern_key) at h)
    | inr (i, e) ↦ inr (rw (e, intern_key) at h)
  ]

  find_head :
      (k : K) (t : Table K) (x : K) (id : ℕ)
      → find same x ((k, length t.items) ∷ t.index) ≡ some id
      → Agrees t
      → get_elem? (push_back t.items k) id ≡ some x
  unfolding find
  find_head k t x id h a =
      ground (arith, a.sound x id, get_elem?-push_back t.items k id, lt_of_get_elem? t.items id x)

  find_head_of_get :
      (k : K) (t : Table K) (x : K) (id : ℕ)
      → get_elem? (push_back t.items k) id ≡ some x
      → find same k t.index ≡ none
      → Agrees t
      → find same x ((k, length t.items) ∷ t.index) ≡ some id
  unfolding find
  find_head_of_get k t x id h new a =
      ground (arith, a.complete x id, a.complete k id, get_elem?-push_back t.items k id)

  pub intern_key-Agrees :
      (handles : ℕ) (k : K) (t : Table K)
      → length t.items < handles
      → Agrees t
      → Agrees (intern_key same handles k t).1
  unfolding intern_key
  intern_key-Agrees handles k t fits a = elim (Option-cases (find same k t.index)) [
    | inl new ↦
        rw (new, mod-eq_of_lt fits, intern_key)
          (record {
            sound = λ x id h. find_head k t x id h a;
            complete = λ x id h. find_head_of_get k t x id h new a;
          })
    | inr (i, e) ↦ rw (e, intern_key) a
  ]

  -- Equal items have one handle.
  pub unique_handle :
      (t : Table K) (i j : ℕ) (x : K)
      → Agrees t
      → get_elem? t.items i ≡ some x
      → get_elem? t.items j ≡ some x
      → i ≡ j
  unique_handle t i j x a hi hj = cc (a.complete x i hi, a.complete x j hj)
