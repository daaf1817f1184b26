-- ===== src/Memory/SafePatch.antt =====
-- src/exec/memory.cpp: `validate` and `apply` never follow a null or dangling page pointer.
use xdec.Base.{
  ℕ, ◌<◌, ◌≡◌, refl, inl, inr, Bool, true, false, Option, none, some, if◌then◌else◌, List, [], ◌∷◌,
  In, Diag, DiagCode, diag_at, arith, length,
}
use xdec.Bits.{word}
use xdec.Memory.Kind.{Kind}
use xdec.Memory.Permission
use xdec.Memory.State.{Space, Outcome, done, failed, fault, M, pure, fail, page_size}
use xdec.Memory.Paging.{ensure}
use xdec.Memory.Patch.{
  MemoryPatch, Overlay, set_overlay, permission_at, attempt, writable, check_write, validate_page,
  validate_pages,
}
use xdec.Memory.Valid.{CacheIsValid, Safe, SafeAt, Safe-pure, Safe-fail, Safe-bind}
use xdec.Memory.SafeRanges.{IsCanonical, ensure-Safe}
use xdec.Memory.Sound.{IsCanonical-same}

-- The fields of a patch are of type `uint64_t`, and its bytes are a vector.
pub record IsPatch (patch : MemoryPatch) : Type 0 where
  pub address_fits : patch.address < word
  pub size_fits : patch.size < word
  pub bytes_fit : length patch.bytes < word

attempted :
    (s : Space) (Q : Unit {0} → Space → Type 0) (r : Outcome (Unit {0}) × Space)
    → SafeAt s Q r
    → SafeAt s
        (λ _ _. Unit {0})
        (elim r.0 [ done u ↦ done tt | failed d ↦ done tt | fault ↦ fault ], r.1)
attempted s Q (done u, t) h = (h.0, tt)
attempted s Q (failed d, t) h = (h, tt)
attempted s Q (fault, t) h = h

attempt-Safe :
    (s : Space) (Q : Unit {0} → Space → Type 0) (m : M (Unit {0}))
    → Safe s Q (m s)
    → Safe s (λ _ _. Unit {0}) (attempt m s)
unfolding attempt
attempt-Safe s Q m h = record { holds = attempted s Q (m s) h.holds }

missing : ℕ → Option ℕ → M (Unit {0})
missing page before = elim before [
  | none ↦ attempt (ensure page page_size Permission.write)
  | some p ↦ pure tt
]

missing-Safe :
    (s : Space) (page : ℕ) (before : Option ℕ)
    → CacheIsValid s
    → IsCanonical s
    → page < word
    → Safe s (λ _ _. Unit {0}) (missing page before s)
unfolding missing
missing-Safe s page none valid canon page< =
    attempt-Safe s _ (ensure page page_size Permission.write)
      (ensure-Safe s page page_size Permission.write valid canon page< (omega arith))
missing-Safe s page (some p) valid canon page< = Safe-pure tt valid tt

guard_Safe :
    (s : Space) (b : Bool) (d : Diag)
    → CacheIsValid s
    → Safe s (λ _ _. Unit {0}) ((if b then pure tt else fail {A = Unit {0}} d) s)
guard_Safe s true d valid = Safe-pure tt valid tt
guard_Safe s false d valid = Safe-fail d valid

check_write-Safe :
    (s : Space) (o : Overlay) (page : ℕ)
    → CacheIsValid s
    → IsCanonical s
    → page < word
    → Safe s (λ _ _. Unit {0}) (check_write o page s)
unfolding check_write missing
check_write-Safe s o page valid canon page< =
    Safe-bind _ (missing-Safe s page (permission_at o s page) valid canon page<)
      (λ _ t st _. guard_Safe t (writable (permission_at o t page)) _ st.valid)

mapped_page : MemoryPatch → Overlay → ℕ → Option ℕ → M Overlay
mapped_page patch o page current = elim current [
  | some p ↦ fail (diag_at DiagCode.bad_format page)
  | none ↦ pure (set_overlay o page (some patch.permissions))
]

present_page : Option ℕ → Overlay → ℕ → Option ℕ → M Overlay
present_page value o page current = elim current [
  | none ↦ fail (diag_at DiagCode.unmapped_address page)
  | some p ↦ pure (set_overlay o page value)
]

mapped_page-Safe :
    (s : Space) (patch : MemoryPatch) (o : Overlay) (page : ℕ) (current : Option ℕ)
    → CacheIsValid s
    → Safe s (λ _ _. Unit {0}) (mapped_page patch o page current s)
unfolding mapped_page
mapped_page-Safe s patch o page none valid = Safe-pure _ valid tt
mapped_page-Safe s patch o page (some p) valid = Safe-fail _ valid

present_page-Safe :
    (s : Space) (value : Option ℕ) (o : Overlay) (page : ℕ) (current : Option ℕ)
    → CacheIsValid s
    → Safe s (λ _ _. Unit {0}) (present_page value o page current s)
unfolding present_page
present_page-Safe s value o page none valid = Safe-fail _ valid
present_page-Safe s value o page (some p) valid = Safe-pure _ valid tt

validate_page-Safe :
    (s : Space) (kind : Kind) (patch : MemoryPatch) (o : Overlay) (page : ℕ)
    → patch.kind ≡ kind
    → CacheIsValid s
    → IsCanonical s
    → page < word
    → Safe s (λ _ _. Unit {0}) (validate_page patch o page s)
unfolding validate_page mapped_page present_page
validate_page-Safe s Kind.write patch o page e valid canon page< = rw e (
    Safe-bind _ (check_write-Safe s o page valid canon page<) (λ _ t st _. Safe-pure o st.valid tt))
validate_page-Safe s Kind.map patch o page e valid canon page< =
    rw e (mapped_page-Safe s patch o page (permission_at o s page) valid)
validate_page-Safe s Kind.protect patch o page e valid canon page< =
    rw e (present_page-Safe s (some patch.permissions) o page (permission_at o s page) valid)
validate_page-Safe s Kind.unmap patch o page e valid canon page< =
    rw e (present_page-Safe s none o page (permission_at o s page) valid)

pub validate_pages-Safe :
    (s : Space) (patch : MemoryPatch) (o : Overlay) (pages : List ℕ)
    → CacheIsValid s
    → IsCanonical s
    → ((page : ℕ) → In page pages → page < word)
    → Safe s (λ _ _. Unit {0}) (validate_pages patch o pages s)
unfolding validate_pages
validate_pages-Safe s patch o [] valid canon h = Safe-pure o valid tt
validate_pages-Safe s patch o (page ∷ rest) valid canon h =
    Safe-bind _ (validate_page-Safe s patch.kind patch o page refl valid canon (h page (inl refl)))
      (λ o' t st _.
        validate_pages-Safe t patch o' rest st.valid (IsCanonical-same s t st.same canon)
          (λ j i. h j (inr i)))
