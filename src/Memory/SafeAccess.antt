-- ===== src/Memory/SafeAccess.antt =====
-- src/exec/memory.cpp: `readBytes`, `writeBytes`, `seed`, `read` and `write` never follow a null or
-- dangling page pointer.
use mathlib.Core.Path.{subst}
use xdec.Base.{
  ℕ, zero, suc, ◌+◌, ◌-◌, ◌<◌, ◌≡◌, refl, sym, ap, ◌∙◌, inl, inr, Bool, true, false, ◌&&◌, ◌||◌,
  Bool-cases, Option, none, some, ltb, leb, ◌==◌, ◌/=◌, if◌then◌else◌, List, [], ◌∷◌, DiagCode,
  diag, arith, length, bit_and,
}
use xdec.Bits.{word, wrap}
use xdec.U128.{U128}
use xdec.Memory.Permission
use xdec.Memory.State.{
  Space, MemoryAccess, fault, M, ◌>>◌, page_size, change_page, for_pages, canonicalize, pages_of,
  page_base,
}
use xdec.Memory.Paging.{ensure, set_byte, seed_page, seed, page_at, poke, poke_all}
use xdec.Memory.Access.{page_offset, read_bytes, write_bytes, read, write, observe, disassemble}
use xdec.Memory.Valid.{
  is_resident, CacheIsValid, Keeps, Keeps-refl, Safe, Safe-weaken, Safe-pure, Safe-fail, Safe-bind,
}
use xdec.Memory.Safe.{lookup-Safe, deref-Safe, change_page-Safe}
use xdec.Memory.SafePaging.{resident_page-Safe, not_no_page}
use xdec.Memory.SafeRanges.{IsCanonical, range-Safe, ensure-Safe, make-Safe, seed_page-Safe}
use xdec.Memory.SafeBytes.{
  Covered, Covered-Pages, copy_out-Safe, copy_in-Safe, store_page-Safe, Covered-Keeps, Covered-drop,
  first_page,
}

-- A range that `ensure` has covered, as the address that the caller canonicalized.
ensure-Covered :
    (s : Space) (address size permission : ℕ)
    → CacheIsValid s
    → IsCanonical s
    → address < word
    → size < word
    → Safe s
        (λ _ t. Covered t (canonicalize s address) size)
        (ensure (canonicalize s address) size permission s)
ensure-Covered s address size permission valid canon a< size< =
    let a = canonicalize s address in
    Safe-weaken (ensure-Safe s a size permission valid canon (canon.bounded address a<) size<)
      (λ _ t st h.
        subst (λ b. Covered t b size) (canon.idempotent address)
          (Covered-Pages t (canonicalize s a) size (canon.bounded a (canon.bounded address a<))
            size< (λ pos. (h pos).0) (λ pos. (h pos).1)))

pub read_bytes-Safe :
    (s : Space) (address size permission : ℕ)
    → CacheIsValid s
    → IsCanonical s
    → address < word
    → size < word
    → Safe s (λ _ _. Unit {0}) (read_bytes address size permission s)
unfolding read_bytes
read_bytes-Safe s address size permission valid canon a< size< =
    let a = canonicalize s address in
    elim (Bool-cases ((size /= 0) && leb (page_offset a + size) page_size)) [
      | inl e ↦ rw e (
          Safe-bind _
            (resident_page-Safe s (page_base a) permission valid
              (not_no_page a (canon.bounded address a<)))
            (λ key t st q.
              Safe-bind _
                (deref-Safe t key st.valid (subst (λ j. is_resident t j ≡ true) (sym q.0) q.1))
                (λ p u tu _. Safe-pure _ tu.valid tt)))
      | inr e ↦ rw e (
          Safe-bind _ (ensure-Covered s address size permission valid canon a< size<)
            (λ _ t st h. copy_out-Safe t size a size st.valid h))
    ]

pub write_bytes-Safe :
    (s : Space) (address : ℕ) (bytes : List ℕ)
    → CacheIsValid s
    → IsCanonical s
    → address < word
    → length bytes < word
    → Safe s (λ _ _. Unit {0}) (write_bytes address bytes s)
unfolding write_bytes
write_bytes-Safe s address bytes valid canon a< size< =
    let a = canonicalize s address in
    elim (Bool-cases (length bytes == 0)) [
      | inl e ↦ rw e (Safe-pure tt valid tt)
      | inr e ↦ elim (Bool-cases (leb (page_offset a + length bytes) page_size)) [
        | inl f ↦
            rw (e, f)
              (Safe-bind _
                (resident_page-Safe s (page_base a) Permission.write valid
                  (not_no_page a (canon.bounded address a<)))
                (λ key t st q.
                  store_page-Safe t key (page_base a) (page_offset a) bytes st.valid
                    (subst (λ j. is_resident t j ≡ true) (sym q.0) q.1)))
        | inr f ↦
            rw (e, f)
              (Safe-bind _
                (ensure-Covered s address (length bytes) Permission.write valid canon a< size<)
                (λ _ t st h. copy_in-Safe t (length bytes) a bytes st.valid h))
      ]
    ]

abbrev poke_at : ℕ → ℕ → Option ℕ → M (Unit {0})
poke_at address value page = elim page [
  | none ↦ λ s. (fault, s)
  | some key ↦ change_page key (set_byte (bit_and address (page_size - 1)) value)
]

poke_at-Safe :
    (s : Space) (address value page : ℕ) (found : Option ℕ)
    → CacheIsValid s
    → is_resident s page ≡ true
    → found ≡ some page
    → Safe s (λ _ _. Unit {0}) (poke_at address value found s)
poke_at-Safe s address value page none valid here e = absurd (ground arith)
poke_at-Safe s address value page (some key) valid here e =
    let same : key ≡ page = ground arith in
    Safe-weaken
      (change_page-Safe s key (set_byte (bit_and address (page_size - 1)) value) valid
        (subst (λ j. is_resident s j ≡ true) (sym same) here))
      (λ _ _ _ _. tt)

poke-Safe :
    (s : Space) (a value : ℕ)
    → CacheIsValid s
    → a < word
    → is_resident s (page_base a) ≡ true
    → Safe s (λ _ _. Unit {0}) (poke a value s)
unfolding poke page_at
poke-Safe s a value valid a< here =
    Safe-bind (poke_at a value) (lookup-Safe s (page_base a) valid (not_no_page a a<))
      (λ found t st q.
        poke_at-Safe t a value (page_base a) found st.valid (st.keeps (page_base a) here)
          (q.1 ∙ rw here refl))

pub poke_all-Safe :
    (s : Space) (a : ℕ) (bytes : List ℕ)
    → CacheIsValid s
    → Covered s a (length bytes)
    → Safe s (λ _ _. Unit {0}) (poke_all a bytes s)
unfolding poke_all
poke_all-Safe s a [] valid h = Safe-pure tt valid tt
poke_all-Safe s a (b ∷ bs) valid h =
    Safe-bind _
      (poke-Safe s a b valid (omega (arith, h.fits))
        (first_page s a (length (b ∷ bs)) (omega arith) h))
      (λ _ t st _. poke_all-Safe t (wrap (a + 1)) bs st.valid (
        subst (λ n. Covered t (wrap (a + 1)) n) (omega arith)
          (Covered-drop t a (length (b ∷ bs)) 1 (omega arith) (omega arith)
            (Covered-Keeps a (length (b ∷ bs)) st h))))

pub seed-Safe :
    (s : Space) (address : ℕ) (bytes : List ℕ) (permissions : ℕ)
    → CacheIsValid s
    → IsCanonical s
    → address < word
    → length bytes < word
    → Safe s (λ _ _. Unit {0}) (seed address bytes permissions s)
unfolding seed
seed-Safe s address bytes permissions valid canon a< size< =
    let a = canonicalize s address in
    let size = length bytes in
    range-Safe s a size _ tt
      (for_pages (pages_of a size) (seed_page permissions) >> poke_all a bytes) valid (λ _. tt)
      (λ pos nowrap.
        Safe-bind _
          (make-Safe s (pages_of a size) (seed_page permissions) valid
            (λ page u valid. seed_page-Safe u permissions page valid))
          (λ _ t st all.
            poke_all-Safe t a bytes st.valid
              (Covered-Pages t a size (canon.bounded address a<) size< (λ _. nowrap) (λ _. all))))

pub observed-Keeps :
    (s : Space) (observing : Bool) (access : MemoryAccess)
    → CacheIsValid s
    → Keeps s (if observing then record s { accesses = access ∷ s.accesses } else s)
unfolding CacheIsValid is_resident
observed-Keeps s true access valid = record { valid = valid; keeps = λ j h. h; same = refl }
observed-Keeps s false access valid = Keeps-refl valid

observe-Safe :
    (s : Space) (address size : ℕ) (is_write : Bool) (value : U128)
    → CacheIsValid s
    → Safe s (λ _ _. Unit {0}) (observe address size is_write value s)
unfolding observe
observe-Safe s address size is_write value valid = record {
  holds = (observed-Keeps s s.observing _ valid, tt);
}

pub length-disassemble :
    (value : U128) (index size : ℕ) → length (disassemble value index size) ≡ size
unfolding disassemble
length-disassemble value index zero = refl
length-disassemble value index (suc size) =
    ap (λ n. suc n) (length-disassemble value (index + 1) size)

pub accepted-small : (size : ℕ) → ((size == 0) || ltb 16 size) ≡ false → size < word
accepted-small size e = ground arith

pub read-Safe :
    (s : Space) (address size : ℕ)
    → CacheIsValid s
    → IsCanonical s
    → address < word
    → Safe s (λ _ _. Unit {0}) (read address size s)
unfolding read
read-Safe s address size valid canon a< = elim (Bool-cases ((size == 0) || ltb 16 size)) [
  | inl e ↦ rw e (Safe-fail (diag DiagCode.internal) valid)
  | inr e ↦ rw e (
      Safe-bind _
        (read_bytes-Safe s address size Permission.read valid canon a< (accepted-small size e))
        (λ storage t st _.
          Safe-bind _ (observe-Safe t address size false _ st.valid)
            (λ _ u tu _. Safe-pure _ tu.valid tt)))
]

pub write-Safe :
    (s : Space) (address size : ℕ) (value : U128)
    → CacheIsValid s
    → IsCanonical s
    → address < word
    → Safe s (λ _ _. Unit {0}) (write address size value s)
unfolding write
write-Safe s address size value valid canon a< = elim (Bool-cases ((size == 0) || ltb 16 size)) [
  | inl e ↦ rw e (Safe-fail (diag DiagCode.internal) valid)
  | inr e ↦ rw e (
      Safe-bind _
        (write_bytes-Safe s address (disassemble value 0 size) valid canon a<
          (rw (length-disassemble value 0 size) (accepted-small size e)))
        (λ _ t st _. observe-Safe t address size true value st.valid))
]
