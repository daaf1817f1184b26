-- ===== src/Memory/SafeResident.antt =====
-- src/exec/memory.cpp: `readResidentBytes` copies out of pages that its first loop has found.
use mathlib.Core.Path.{subst}
use xdec.Base.{
  ℕ, ◌<◌, ◌≡◌, refl, sym, ◌∙◌, inl, inr, Bool, true, false, Bool-cases, Option, none, some, ◌==◌,
  if◌then◌else◌, List, [], ◌∷◌, arith,
}
use xdec.Bits.{word}
use xdec.Memory.State.{Space, M, ◌>>=◌, pure, canonicalize, wraps, pages_of}
use xdec.Memory.Valid.{Safe-pure, Safe-bind, Safe-weaken, is_resident, CacheIsValid, Safe}
use xdec.Memory.SafeRanges.{IsCanonical}
use xdec.Memory.Access.{read_resident_bytes, all_resident, copy_out}
use xdec.Memory.SafeDirty.{lookup-Supplied, on_found-Safe}
use xdec.Memory.SafePaging.{Pages}
use xdec.Memory.SafeBytes.{Covered, Covered-Pages, copy_out-Safe}

all_resident-Safe :
    (s : Space) (pages : List ℕ)
    → CacheIsValid s
    → Safe s (λ all t. all ≡ true → Pages pages t) (all_resident pages s)
unfolding all_resident
all_resident-Safe s [] valid = Safe-pure true valid (λ _ page i. absurd i)
all_resident-Safe s (page ∷ rest) valid =
    Safe-bind _ (lookup-Supplied s page valid) (λ found t st q.
      on_found-Safe t page (pure false) (λ key. all_resident rest) found st.valid q
        (Safe-pure false st.valid (λ e. absurd (ground arith)))
        (λ key same here. Safe-weaken (all_resident-Safe t rest st.valid) (λ all u tu h e j i.
          elim i [
            | inl at ↦ subst (λ k. is_resident u k ≡ true) (same ∙ sym at) (tu.keeps key here)
            | inr i' ↦ h e j i'
          ])))

copied : ℕ → ℕ → Bool → M (Option (List ℕ))
copied a size resident =
    if resident then (copy_out size a size >>= λ bytes. pure (some bytes)) else pure none

copied-Safe :
    (s : Space) (a size : ℕ) (resident : Bool)
    → CacheIsValid s
    → (resident ≡ true → Covered s a size)
    → Safe s (λ _ _. Unit {0}) (copied a size resident s)
unfolding copied
copied-Safe s a size true valid h =
    Safe-bind _ (copy_out-Safe s size a size valid (h refl))
      (λ bytes t st _. Safe-pure _ st.valid tt)
copied-Safe s a size false valid h = Safe-pure none valid tt

pub read_resident_bytes-Safe :
    (s : Space) (address size : ℕ)
    → CacheIsValid s
    → IsCanonical s
    → address < word
    → size < word
    → Safe s (λ _ _. Unit {0}) (read_resident_bytes address size s)
unfolding read_resident_bytes copied
read_resident_bytes-Safe s address size valid canon a< size< =
    let a = canonicalize s address in
    elim (Bool-cases (size == 0)) [
      | inl e ↦ rw e (Safe-pure _ valid tt)
      | inr e ↦ elim (Bool-cases (wraps a size)) [
        | inl w ↦ rw (e, w) (Safe-pure none valid tt)
        | inr w ↦
            rw (e, w)
              (Safe-bind (copied a size) (all_resident-Safe s (pages_of a size) valid)
                (λ resident t st h. copied-Safe t a size resident st.valid (λ yes.
                  Covered-Pages t a size (canon.bounded address a<) size< (λ _. w) (λ _. h yes))))
      ]
    ]
