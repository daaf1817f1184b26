-- ===== src/Memory/SafeApply.antt =====
-- src/exec/memory.cpp: `validate` and `apply` on lists of patches never follow a null or dangling
-- page pointer.
use mathlib.Core.Path.{subst}
use xdec.Base.{
  ℕ, ◌+◌, ◌≤◌, ◌<◌, ◌≡◌, refl, sym, inl, inr, Bool, true, false, ◌&&◌, Bool-cases, ltb, ltb→le,
  ◌==◌, ==→ne, if◌then◌else◌, List, [], ◌∷◌, In, All, arith, length,
}
use xdec.Bits.{word}
use xdec.Memory.Kind.{Kind}
use xdec.Memory.State.{Space, canonicalize, wraps, pages_of}
use xdec.Memory.Patch.{
  MemoryPatch, Overlay, no_changes, is_write, is_map, patch_size, validate_patch, validate_from,
  validate, apply_map, apply_patch, apply_all, apply,
}
use xdec.Memory.Walk.{pages_of-covers, not-wraps}
use xdec.Memory.Valid.{CacheIsValid, Safe, Safe-pure, Safe-fail, Safe-bind}
use xdec.Memory.SafePaging.{Pages}
use xdec.Memory.SafeRanges.{IsCanonical, map-Safe, protect-Safe}
use xdec.Memory.SafeBytes.{Covered, Covered-Pages}
use xdec.Memory.SafeAccess.{write_bytes-Safe, poke_all-Safe}
use xdec.Memory.Sound.{
  SoundAt, Safe-SoundAt, sound_then, unmap-SoundAt, canonicalize_same, IsCanonical-same,
}
use xdec.Memory.SafePatch.{IsPatch, validate_pages-Safe}
use xdec.Memory.Walk.{page_base-floor}

pages-lt_word :
    (a size : ℕ)
    → a < word
    → 0 < size
    → size < word
    → wraps a size ≡ false
    → (page : ℕ) → In page (pages_of a size)
    → page < word
pages-lt_word a size a< pos size< nowrap page i =
    let fits = not-wraps a size a< pos size< nowrap in
    let (k, k<, at) = (pages_of-covers a size a< pos size< nowrap).1 page i in
    omega (arith, page_base-floor (a + k) (omega arith), at)

abbrev size_of : Bool → MemoryPatch → ℕ
size_of b patch = if b then length patch.bytes else patch.size

size_of-lt : (b : Bool) (patch : MemoryPatch) → IsPatch patch → size_of b patch < word
size_of-lt true patch h = h.bytes_fit
size_of-lt false patch h = h.size_fits

patch_size-lt : (patch : MemoryPatch) → IsPatch patch → patch_size patch < word
unfolding patch_size
patch_size-lt patch h = size_of-lt (is_write patch.kind) patch h

validate_patch-Safe :
    (s : Space) (patch : MemoryPatch) (o : Overlay)
    → CacheIsValid s
    → IsCanonical s
    → IsPatch patch
    → Safe s (λ _ _. Unit {0}) (validate_patch patch o s)
unfolding validate_patch
validate_patch-Safe s patch o valid canon h =
    let a = canonicalize s patch.address in
    let size = patch_size patch in
    let a< = canon.bounded patch.address h.address_fits in
    let size< = patch_size-lt patch h in
    elim (Bool-cases (is_map patch.kind && ltb size (length patch.bytes))) [
      | inl e ↦ rw e (Safe-fail _ valid)
      | inr e ↦ elim (Bool-cases (size == 0)) [
        | inl z ↦ rw (e, z) (Safe-pure o valid tt)
        | inr z ↦ elim (Bool-cases (wraps a size)) [
          | inl w ↦ rw (e, z, w) (Safe-fail _ valid)
          | inr w ↦
              rw (e, z, w)
                (validate_pages-Safe s patch o (pages_of a size) valid canon
                  (pages-lt_word a size a< (omega (arith, ==→ne size 0 z)) size< w))
        ]
      ]
    ]

validate_from-Safe :
    (s : Space) (o : Overlay) (patches : List MemoryPatch)
    → CacheIsValid s
    → IsCanonical s
    → All IsPatch patches
    → Safe s (λ _ _. Unit {0}) (validate_from o patches s)
unfolding validate_from
validate_from-Safe s o [] valid canon h = Safe-pure tt valid tt
validate_from-Safe s o (patch ∷ rest) valid canon (now, later) =
    Safe-bind _ (validate_patch-Safe s patch o valid canon now) (λ o' t st _.
      validate_from-Safe t o' rest st.valid (IsCanonical-same s t st.same canon) later)

pub validate-Safe :
    (s : Space) (patches : List MemoryPatch)
    → CacheIsValid s
    → IsCanonical s
    → All IsPatch patches
    → Safe s (λ _ _. Unit {0}) (validate patches s)
unfolding validate
validate-Safe s patches valid canon h = validate_from-Safe s no_changes patches valid canon h

-- The initial bytes of a mapping are on the pages that it has just made.
initial-Covered :
    (t : Space) (a size n : ℕ)
    → a < word
    → size < word
    → n ≤ size
    → (0 < size → (wraps a size ≡ false) × Pages (pages_of a size) t)
    → Covered t a n
initial-Covered t a size n a< size< le h =
    let all = Covered-Pages t a size a< size< (λ pos. (h pos).0) (λ pos. (h pos).1) in
    record { fits = omega (arith, all.fits); there = λ i i<. all.there i (omega arith) }

apply_map-Safe :
    (s : Space) (patch : MemoryPatch)
    → CacheIsValid s
    → IsCanonical s
    → IsPatch patch
    → Safe s (λ _ _. Unit {0}) (apply_map patch s)
unfolding apply_map
apply_map-Safe s patch valid canon h = elim (Bool-cases (ltb patch.size (length patch.bytes))) [
  | inl e ↦ rw e (Safe-fail _ valid)
  | inr e ↦ rw e (
      Safe-bind _ (map-Safe s patch.address patch.size patch.permissions valid) (λ _ t st q.
        let a = canonicalize s patch.address in
        let at : canonicalize t patch.address ≡ a = canonicalize_same s t patch.address st.same in
        poke_all-Safe t (canonicalize t patch.address) patch.bytes st.valid (
          subst (λ b. Covered t b (length patch.bytes)) (sym at)
            (initial-Covered t a patch.size (length patch.bytes)
              (canon.bounded patch.address h.address_fits) h.size_fits
              (ltb→le patch.size (length patch.bytes) e) q))))
]

apply_patch-SoundAt :
    (s : Space) (kind : Kind) (patch : MemoryPatch)
    → patch.kind ≡ kind
    → CacheIsValid s
    → IsCanonical s
    → IsPatch patch
    → SoundAt s (apply_patch patch s)
unfolding apply_patch apply_map
apply_patch-SoundAt s Kind.write patch e valid canon h = rw e (
    Safe-SoundAt
      (write_bytes-Safe s patch.address patch.bytes valid canon h.address_fits h.bytes_fit))
apply_patch-SoundAt s Kind.map patch e valid canon h =
    rw e (Safe-SoundAt (apply_map-Safe s patch valid canon h))
apply_patch-SoundAt s Kind.protect patch e valid canon h = rw e (
    Safe-SoundAt (
      protect-Safe s patch.address patch.size patch.permissions valid canon h.address_fits
        h.size_fits))
apply_patch-SoundAt s Kind.unmap patch e valid canon h =
    rw e (unmap-SoundAt s patch.address patch.size valid canon h.address_fits h.size_fits)

apply_all-SoundAt :
    (s : Space) (patches : List MemoryPatch)
    → CacheIsValid s
    → IsCanonical s
    → All IsPatch patches
    → SoundAt s (apply_all patches s)
unfolding apply_all
apply_all-SoundAt s [] valid canon h = Safe-SoundAt (Safe-pure {Q = λ _ _. Unit {0}} tt valid tt)
apply_all-SoundAt s (patch ∷ rest) valid canon (now, later) =
    sound_then s (λ _. apply_all rest) (apply_patch patch s)
      (apply_patch-SoundAt s patch.kind patch refl valid canon now)
      (λ _ t valid' same. apply_all-SoundAt t rest valid' (IsCanonical-same s t same canon) later)

pub apply-SoundAt :
    (s : Space) (patches : List MemoryPatch)
    → CacheIsValid s
    → IsCanonical s
    → All IsPatch patches
    → SoundAt s (apply patches s)
unfolding apply
apply-SoundAt s patches valid canon h =
    sound_then s (λ _. apply_all patches) (validate patches s)
      (Safe-SoundAt (validate-Safe s patches valid canon h))
      (λ _ t valid' same. apply_all-SoundAt t patches valid' (IsCanonical-same s t same canon) h)
