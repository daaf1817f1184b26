-- ===== src/Memory/Valid.antt =====
-- src/exec/memory.cpp: the invariant that makes the page cache and the `Page*` of the operations
-- sound, and the rule for a sequence of operations that keeps it.
use xdec.Base.{
  ℕ, ◌≡◌, refl, sym, ◌∙◌, ◌⊎◌, inl, inr, Bool, true, false, none, some, List, [], ◌∷◌, In, Diag,
}
use mathlib.Core.Path.{subst}
use xdec.Memory.State.{Space, Outcome, done, failed, fault, M, continue, no_page, for_pages}

unfoldable pub is_resident : Space → ℕ → Bool
is_resident s page = elim (s.pages page) [ none ↦ false | some p ↦ true ]

-- The cache is empty, or its pointer is the node of a page that is there.
unfoldable pub CacheIsValid : Space → Type 0
CacheIsValid s =
    ((s.cache_base ≡ no_page) × (s.cache_page ≡ none))
    ⊎ ((s.cache_page ≡ some s.cache_base) × (is_resident s s.cache_base ≡ true))

-- What an operation that unmaps nothing leaves as it was.
pub record Keeps (s t : Space) : Type 0 where
  pub valid : CacheIsValid t
  pub keeps : (page : ℕ) → is_resident s page ≡ true → is_resident t page ≡ true
  pub same : t.canonicalizer ≡ s.canonicalizer

abbrev pub SafeAt : {A : Type 0} → Space → (A → Space → Type 0) → Outcome A × Space → Type 0
SafeAt s Q (done a, t) = Keeps s t × Q a t
SafeAt s Q (failed d, t) = Keeps s t
SafeAt s Q (fault, t) = ⊥

-- The operation does not fault, keeps the invariant, and ends in `Q` if it succeeds.
pub record Safe {A : Type 0} (s : Space) (Q : A → Space → Type 0) (r : Outcome A × Space)
    : Type 0 where
  pub holds : SafeAt s Q r

abbrev pub Any : {A : Type 0} → A → Space → Type 0
Any a t = Unit {0}

pub Keeps-refl : {s : Space} → CacheIsValid s → Keeps s s
Keeps-refl valid = record { valid = valid; keeps = λ page h. h; same = refl }

pub Keeps-trans : {s t u : Space} → Keeps s t → Keeps t u → Keeps s u
Keeps-trans st tu = record {
  valid = tu.valid;
  keeps = λ page h. tu.keeps page (st.keeps page h);
  same = tu.same ∙ st.same;
}

module _ {A : Type 0} where
  -- What a step from `t` shows, seen from the state `s` before it.
  from :
      {s t : Space} (Q : A → Space → Type 0) (r : Outcome A × Space)
      → Keeps s t
      → SafeAt t Q r
      → SafeAt s Q r
  from Q (done a, u) st (tu, q) = (Keeps-trans st tu, q)
  from Q (failed d, u) st tu = Keeps-trans st tu
  from Q (fault, u) st h = h

  pub Safe-from :
      {s t : Space} {Q : A → Space → Type 0} {r : Outcome A × Space}
      → Keeps s t
      → Safe t Q r
      → Safe s Q r
  Safe-from {Q} {r} st h = record { holds = from Q r st h.holds }

  weaken :
      (s : Space) (Q R : A → Space → Type 0) (r : Outcome A × Space)
      → SafeAt s Q r
      → ((a : A) (t : Space) → Keeps s t → Q a t → R a t)
      → SafeAt s R r
  weaken s Q R (done a, t) (st, q) h = (st, h a t st q)
  weaken s Q R (failed d, t) st h = st
  weaken s Q R (fault, t) h g = h

  pub Safe-weaken :
      {s : Space} {Q R : A → Space → Type 0} {r : Outcome A × Space}
      → Safe s Q r
      → ((a : A) (t : Space) → Keeps s t → Q a t → R a t)
      → Safe s R r
  Safe-weaken {s} {Q} {R} {r} h g = record { holds = weaken s Q R r h.holds g }

  pub Safe-pure :
      {s : Space} {Q : A → Space → Type 0} (a : A) → CacheIsValid s → Q a s → Safe s Q (done a, s)
  Safe-pure a valid q = record { holds = (Keeps-refl valid, q) }

  pub Safe-fail :
      {s : Space} {Q : A → Space → Type 0} (d : Diag) → CacheIsValid s → Safe s Q (failed d, s)
  Safe-fail d valid = record { holds = Keeps-refl valid }

module _ {A B : Type 0} where
  bind :
      (s : Space) (Q : A → Space → Type 0) (R : B → Space → Type 0) (r : Outcome A × Space)
      (f : A → M B)
      → SafeAt s Q r
      → ((a : A) (t : Space) → Keeps s t → Q a t → Safe t R (f a t))
      → SafeAt s R (continue f r)
  bind s Q R (done a, t) f (st, q) h = from R (f a t) st (h a t st q).holds
  bind s Q R (failed d, t) f st h = st
  bind s Q R (fault, t) f h g = h

  pub Safe-bind :
      {s : Space} {Q : A → Space → Type 0} {R : B → Space → Type 0} {r : Outcome A × Space}
      (f : A → M B)
      → Safe s Q r
      → ((a : A) (t : Space) → Keeps s t → Q a t → Safe t R (f a t))
      → Safe s R (continue f r)
  Safe-bind {s} {Q} {R} {r} f h g = record { holds = bind s Q R r f h.holds g }

-- A loop over pages, where `P` says what a round shows of its page.
pub for_pages-Safe :
    (P : Space → ℕ → Type 0) (stable : (s t : Space) (page : ℕ) → Keeps s t → P s page → P t page)
    (s : Space) (pages : List ℕ) (body : ℕ → M (Unit {0}))
    → CacheIsValid s
    → ((page : ℕ)
        → In page pages
        → (t : Space) → Keeps s t
        → Safe t (λ (_ : Unit {0}) u. P u page) (body page t))
    → Safe s (λ (_ : Unit {0}) t. (page : ℕ) → In page pages → P t page) (for_pages pages body s)
unfolding for_pages
for_pages-Safe P stable s [] body valid h = Safe-pure tt valid (λ page i. absurd i)
for_pages-Safe P stable s (p ∷ rest) body valid h =
    Safe-bind (λ _. for_pages rest body) (h p (inl refl) s (Keeps-refl valid))
      (λ _ t st q.
        Safe-weaken
          (for_pages-Safe P stable t rest body st.valid
            (λ page i u tu. h page (inr i) u (Keeps-trans st tu)))
          (λ _ u tu all page i. elim i [
            | inl e ↦ subst (λ j. P u j) (sym e) (stable t u p tu q)
            | inr j ↦ all page j
          ]))
