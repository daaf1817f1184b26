-- ===== src/Memory/Sound.antt =====
-- src/exec/memory.cpp: an operation that does not fault and leaves a valid cache, `unmap` included.
use mathlib.Core.Path.{subst}
use xdec.Base.{
  ℕ, ◌<◌, ◌≡◌, refl, sym, ap, ◌∙◌, inl, inr, Bool-cases, Option, none, some, ◌==◌, List, [], ◌∷◌,
}
use xdec.Bits.{word}
use xdec.Memory.Permission
use xdec.Memory.State.{
  Space, Outcome, done, failed, fault, M, continue, no_page, erase_page, for_pages, canonicalize,
  pages_of,
}
use xdec.Memory.Paging.{ensure, unmap, forget_cache, erase}
use xdec.Memory.Valid.{Safe-pure, CacheIsValid, Safe, SafeAt}
use xdec.Memory.SafeRanges.{IsCanonical, ensure-Safe}

-- No fault, and a valid cache and the same canonicalizer afterwards.
unfoldable pub SoundAt : {A : Type 0} → Space → Outcome A × Space → Type 0
SoundAt s (done a, t) = CacheIsValid t × (t.canonicalizer ≡ s.canonicalizer)
SoundAt s (failed d, t) = CacheIsValid t × (t.canonicalizer ≡ s.canonicalizer)
SoundAt s (fault, t) = ⊥

sound_of :
    {A : Type 0} (s : Space) (Q : A → Space → Type 0) (r : Outcome A × Space)
    → SafeAt s Q r
    → SoundAt s r
unfolding SoundAt
sound_of s Q (done a, t) (st, q) = (st.valid, st.same)
sound_of s Q (failed d, t) st = (st.valid, st.same)
sound_of s Q (fault, t) h = h

pub Safe-SoundAt :
    {A : Type 0} {s : Space} {Q : A → Space → Type 0} {r : Outcome A × Space}
    → Safe s Q r
    → SoundAt s r
Safe-SoundAt {s} {Q} {r} h = sound_of s Q r h.holds

pub sound_from :
    {A : Type 0} (s t : Space) (r : Outcome A × Space)
    → t.canonicalizer ≡ s.canonicalizer
    → SoundAt t r
    → SoundAt s r
unfolding SoundAt
sound_from s t (done a, u) same (valid, same') = (valid, same' ∙ same)
sound_from s t (failed d, u) same (valid, same') = (valid, same' ∙ same)
sound_from s t (fault, u) same h = h

pub sound_then :
    {A B : Type 0} (s : Space) (f : A → M B) (r : Outcome A × Space)
    → SoundAt s r
    → ((a : A) (t : Space) → CacheIsValid t → t.canonicalizer ≡ s.canonicalizer → SoundAt t (f a t))
    → SoundAt s (continue f r)
unfolding SoundAt
sound_then s f (done a, t) (valid, same) h = sound_from s t (f a t) same (h a t valid same)
sound_then s f (failed d, t) r h = r
sound_then s f (fault, t) r h = r

-- Once the cache is empty, erasing pages leaves nothing dangling.
erase_all-SoundAt :
    (s : Space) (pages : List ℕ)
    → (s.cache_base ≡ no_page) × (s.cache_page ≡ none)
    → SoundAt s (for_pages pages erase s)
unfolding for_pages SoundAt CacheIsValid
erase_all-SoundAt s [] empty = (inl empty, refl)
erase_all-SoundAt s (page ∷ rest) empty =
    erase_all-SoundAt (record s { pages = erase_page s.pages page }) rest empty

erased :
    (s : Space) (Q : Unit {0} → Space → Type 0) (pages : List ℕ) (r : Outcome (Unit {0}) × Space)
    → SafeAt s Q r
    → SoundAt s (continue (λ _. for_pages pages erase) (continue (λ _. forget_cache) r))
unfolding SoundAt
erased s Q pages (done u, t) (st, q) =
    let t' = record t { cache_base = no_page; cache_page = none } in
    sound_from s t' (for_pages pages erase t') st.same (erase_all-SoundAt t' pages (refl, refl))
erased s Q pages (failed d, t) st = (st.valid, st.same)
erased s Q pages (fault, t) h = h

pub unmap-SoundAt :
    (s : Space) (address size : ℕ)
    → CacheIsValid s
    → IsCanonical s
    → address < word
    → size < word
    → SoundAt s (unmap address size s)
unfolding unmap
unmap-SoundAt s address size valid canon a< size< =
    let a = canonicalize s address in
    elim (Bool-cases (size == 0)) [
      | inl e ↦ rw e (Safe-SoundAt (Safe-pure {Q = λ _ _. Unit {0}} tt valid tt))
      | inr e ↦ rw e (
          erased s _ (pages_of a size) (ensure a size Permission.none s)
            (ensure-Safe s a size Permission.none valid canon (canon.bounded address a<)
              size<).holds)
    ]

pub canonicalize_same :
    (s t : Space) (a : ℕ) → t.canonicalizer ≡ s.canonicalizer → canonicalize t a ≡ canonicalize s a
unfolding canonicalize
canonicalize_same s t a same =
    ap (λ (c : Option (ℕ → ℕ)). elim c as (λ _. ℕ) [ none ↦ a | some f ↦ f a ]) same

pub IsCanonical-same :
    (s t : Space) → t.canonicalizer ≡ s.canonicalizer → IsCanonical s → IsCanonical t
IsCanonical-same s t same canon =
    let at : (a : ℕ) → canonicalize t a ≡ canonicalize s a = λ a. canonicalize_same s t a same in
    record {
      bounded = λ a a<. subst (λ n. n < word) (sym (at a)) (canon.bounded a a<);
      idempotent = λ a.
          ap (λ b. canonicalize t b) (at a)
          ∙ at (canonicalize s a)
          ∙ canon.idempotent a
          ∙ sym (at a);
    }

-- The state after a sound operation.
pub after :
    (s : Space) (r : Outcome (Unit {0}) × Space)
    → SoundAt s r
    → CacheIsValid r.1 × (r.1.canonicalizer ≡ s.canonicalizer)
unfolding SoundAt
after s (done u, t) h = h
after s (failed d, t) h = h
after s (fault, t) h = absurd h
