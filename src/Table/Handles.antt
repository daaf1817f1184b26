-- ===== src/Table/Handles.antt =====
-- A hash-consed table whose places are 32-bit handles, the largest of which is no handle.
use native.Mathlib.Nat.{mod-eq_of_lt}
use xdec.Base.{
  ℕ, ◌%◌, ◌≤◌, ◌<◌, ◌≡◌, ◌⊎◌, true, none, some, length, arith, get_elem?, Option-cases, inl, inr,
  length-push_back,
}
use xdec.Table.{Table, find, intern_key}
use xdec.Table.Interned.{
  Agrees, intern_key-Agrees, intern_key-get, intern_key-keeps, intern_key-only,
}
use xdec.Function.{handle_count, invalid, valid}

module _ {K : Type 0} (same : Discrete K) where
  -- The map agrees with the vector, whose places are handles.
  pub record IsHashConsed (t : Table K) : Type 0 where
    pub agrees : Agrees same t
    pub bounded : length t.items ≤ invalid

  -- A table with an item at a handle, after one that had the older items.
  pub record Grows (k : K) (t : Table K) (id : ℕ) (t' : Table K) : Type 0 where
    pub consed : IsHashConsed t'
    pub found : get_elem? t'.items id ≡ some k
    pub only :
        (h : ℕ) (x : K) → get_elem? t'.items h ≡ some x → (x ≡ k) ⊎ (get_elem? t.items h ≡ some x)
    pub old : (h : ℕ) (x : K) → get_elem? t.items h ≡ some x → get_elem? t'.items h ≡ some x

  module _ (k : K) (t : Table K) (inv : IsHashConsed t) where
    abbrev pub step : ℕ × Table K
    step = intern_key same handle_count k t

    fits : length t.items < handle_count
    fits = omega (arith, inv.bounded)

    length_step :
        (find same k t.index ≡ none → valid (length t.items % handle_count) ≡ true)
        → length step.1.items ≤ invalid
    unfolding intern_key
    length_step room = elim (Option-cases (find same k t.index)) [
      | inl new ↦
          let spare = room new in
          rw (new, intern_key)
            (ground (arith, length-push_back t.items k, mod-eq_of_lt fits, inv.bounded))
      | inr (id, e) ↦ rw (e, intern_key) inv.bounded
    ]

    -- Interning, if there is a handle for a new item.
    pub intern_key-Grows :
        (find same k t.index ≡ none → valid (length t.items % handle_count) ≡ true)
        → Grows k t step.0 step.1
    intern_key-Grows room = record {
      consed = record {
        agrees = intern_key-Agrees same handle_count k t fits inv.agrees;
        bounded = length_step room;
      };
      found = intern_key-get same handle_count k t fits inv.agrees;
      only = λ h x. intern_key-only same handle_count k t h x;
      old = λ h x. intern_key-keeps same handle_count k t h x;
    }
