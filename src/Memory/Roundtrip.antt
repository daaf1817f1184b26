-- ===== src/Memory/Roundtrip.antt =====
-- src/exec/memory.cpp: what `writeBytes` stores, `readBytes` gives back.
use mathlib.Core.Path.{subst}
use xdec.Base.{
  ℕ, zero, suc, ◌+◌, ◌-◌, ◌≤◌, ◌<◌, ◌≡◌, refl, sym, ap, ◌∙◌, ◌⊎◌, inl, inr, true, ◌&&◌, Bool-cases,
  Option, none, some, leb, ◌==◌, ◌/=◌, ==→eq, ==→ne, List, [], ◌∷◌, ◌++◌, arith, length, get_or,
  take, drop, length-take, length-drop, min,
}
use xdec.Bits.{word, wrap}
use xdec.Bits.Digits.{bit_and-mask}
use xdec.Memory.Permission
use xdec.Memory.State.{Space, Page, Outcome, done, page_base, page_size, canonicalize}
use xdec.Memory.Access.{page_offset, slice, splice, copy_in, write_bytes, read_bytes}
use xdec.Memory.Valid.{
  is_resident, CacheIsValid, Keeps, Keeps-trans, Safe, Safe-weaken, Safe-pure, Safe-bind,
}
use xdec.Memory.Safe.{deref-Safe}
use xdec.Memory.SafePaging.{not_no_page}
use xdec.Memory.SafeRanges.{IsCanonical}
use xdec.Memory.SafeBytes.{
  Covered, Covered-Keeps, Covered-drop, first_page, page_offset-lt, chunk_pos,
}
use xdec.Memory.Content.{
  byte_at, KeepsBytes, KeepsBytes-trans, same_pages, same_pages-KeepsBytes,
  resident_page-KeepsBytes,
}
use xdec.Memory.Stores.{ReadsAs, copy_out-ReadsAs, ensure-KeepsBytes, page_key-same}
use xdec.Memory.Edits.{Edits, store_page-Edits}
use xdec.Memory.Stores.{ReadsAs-append, ReadsAs-same}
use xdec.Memory.Valid.{SafeAt}
use xdec.Memory.Sound.{canonicalize_same, IsCanonical-same}
use xdec.Memory.Writes.{Stored, Stored-append, chunk-Stored}

Stored-same :
    (s t u : Space) (a : ℕ) (bytes : List ℕ)
    → t.pages ≡ s.pages
    → Stored t u a bytes
    → Stored s u a bytes
Stored-same s t u a bytes e h = record {
  inside = h.inside;
  outside = λ x x< out. h.outside x x< out ∙ same_pages s t e x;
}

copy_in-Stored :
    (s : Space) (rounds a : ℕ) (bytes : List ℕ)
    → length bytes ≤ rounds
    → CacheIsValid s
    → Covered s a (length bytes)
    → Safe s (λ _ t. Stored s t a bytes) (copy_in rounds a bytes s)
unfolding copy_in
copy_in-Stored s zero a bytes enough valid h =
    Safe-pure tt valid
      (record { inside = λ i i<. absurd (omega arith); outside = λ x x< out. refl })
copy_in-Stored s (suc rounds) a bytes enough valid h = elim (Bool-cases (length bytes == 0)) [
  | inl e ↦ rw e (
      Safe-pure tt valid (record {
        inside = λ i i<. absurd (omega (arith, ==→eq (length bytes) 0 e));
        outside = λ x x< out. refl;
      }))
  | inr e ↦
      let size = length bytes in
      let pos : 0 < size = omega (arith, ==→ne size 0 e) in
      let chunk = min size (page_size - page_offset a) in
      let len : length (take chunk bytes) ≡ chunk = omega (arith, length-take chunk bytes) in
      rw e (
        Safe-bind _ (page_key-same s a valid (omega (arith, h.fits)) (first_page s a size pos h))
          (λ key t st q.
            let here : is_resident t key ≡ true =
              subst (λ j. is_resident t j ≡ true) (sym q.0)
                (st.keeps (page_base a) (first_page s a size pos h)) in
            Safe-bind _
              (store_page-Edits t key (page_base a) (page_offset a) (take chunk bytes) st.valid
                here)
              (λ _ u tu edits.
                Safe-weaken
                  (copy_in-Stored u rounds (wrap (a + chunk)) (drop chunk bytes)
                    (omega (arith, length-drop chunk bytes, chunk_pos a size pos)) tu.valid
                    (subst (λ n. Covered u (wrap (a + chunk)) n) (sym (length-drop chunk bytes))
                      (Covered-drop u a size chunk (chunk_pos a size pos) (omega arith)
                        (Covered-Keeps a size (Keeps-trans st tu) h))))
                  (λ _ v uv rest.
                    Stored-append s u v a chunk bytes h.fits (chunk_pos a size pos) (omega arith)
                      (Stored-same s t u a (take chunk bytes) q.1 (
                        chunk-Stored t u a (take chunk bytes) (omega (arith, len, h.fits))
                          (omega (arith, h.fits)) (omega (arith, len, page_offset-lt a))
                          (subst
                            (λ k. Edits k (λ b. splice b (page_offset a) (take chunk bytes)) t u)
                            q.0 edits)))
                      rest))))
]

-- What a successful `writeBytes` leaves, at the canonical address.
pub record Written (s t : Space) (a : ℕ) (bytes : List ℕ) : Type 0 where
  pub inside : (i : ℕ) → i < length bytes → byte_at t (a + i) ≡ some (get_or bytes i 0)
  pub outside :
      (x b : ℕ)
      → x < word
      → (x < a) ⊎ (a + length bytes ≤ x)
      → byte_at s x ≡ some b
      → byte_at t x ≡ some b

Written-of :
    (s t u : Space) (a : ℕ) (bytes : List ℕ)
    → KeepsBytes s t
    → Stored t u a bytes
    → Written s u a bytes
Written-of s t u a bytes kept h = record {
  inside = h.inside;
  outside = λ x b x< out e. h.outside x x< out ∙ kept.keep x b e;
}

-- A chunk that ends on its page ends below `2 ^ 64`.
near_fits : (a size : ℕ) → a < word → page_offset a + size ≤ 4096 → a + size ≤ word
near_fits a size a< near = omega (arith, bit_and-mask 12 a)

-- From a state with a valid cache and a canonicalizer that yields addresses and is idempotent, for
-- a 64-bit address and length, `write_bytes` does not fault and keeps the cache valid; if it
-- succeeds, each byte of the list stands at its place from the canonical address on, and every byte
-- outside that range which was resident is unchanged.
pub write_bytes-Written :
    (s : Space) (address : ℕ) (bytes : List ℕ)
    → CacheIsValid s
    → IsCanonical s
    → address < word
    → length bytes < word
    → Safe s (λ _ t. Written s t (canonicalize s address) bytes) (write_bytes address bytes s)
unfolding write_bytes
write_bytes-Written s address bytes valid canon a< size< =
    let a = canonicalize s address in
    let a<' = canon.bounded address a< in
    elim (Bool-cases (length bytes == 0)) [
      | inl e ↦ rw e (
          Safe-pure tt valid (record {
            inside = λ i i<. absurd (omega (arith, ==→eq (length bytes) 0 e));
            outside = λ x b x< out at. at;
          }))
      | inr e ↦ elim (Bool-cases (leb (page_offset a + length bytes) page_size)) [
        | inl f ↦
            rw (e, f)
              (Safe-bind _
                (resident_page-KeepsBytes s (page_base a) Permission.write valid
                  (not_no_page a a<'))
                (λ key t st q.
                  Safe-weaken
                    (store_page-Edits t key (page_base a) (page_offset a) bytes st.valid
                      (subst (λ j. is_resident t j ≡ true) (sym q.0) q.1))
                    (λ _ u tu edits. Written-of s t u a bytes q.2 (
                      chunk-Stored t u a bytes (near_fits a (length bytes) a<' (ground (arith, f)))
                        a<' (ground (arith, f))
                        (subst (λ k. Edits k (λ b. splice b (page_offset a) bytes) t u) q.0
                          edits)))))
        | inr f ↦
            rw (e, f)
              (Safe-bind _
                (ensure-KeepsBytes s address (length bytes) Permission.write valid canon a< size<)
                (λ _ t st q.
                  Safe-weaken (copy_in-Stored t (length bytes) a bytes (omega arith) st.valid q.0)
                    (λ _ u tu h. Written-of s t u a bytes q.1 h)))
      ]
    ]

append-nil : (xs : List ℕ) → xs ++ [] ≡ xs
append-nil [] = refl
append-nil (x ∷ xs) = ap (λ ys. x ∷ ys) (append-nil xs)

ReadsAs-slice :
    (s : Space) (a size : ℕ) (p : Page)
    → a < word
    → 0 < size
    → page_offset a + size ≤ 4096
    → s.pages (page_base a) ≡ some p
    → ReadsAs s a size (slice p.bytes (page_offset a) size)
ReadsAs-slice s a size p a< pos near e =
    subst (λ bytes. ReadsAs s a size bytes) (append-nil (slice p.bytes (page_offset a) size))
      (ReadsAs-append s a size size p [] (near_fits a size a< near) (omega arith) near pos e
        (omega arith, λ i i<. absurd (omega arith)))

-- From a state with a valid cache and a canonicalizer that yields addresses and is idempotent, for
-- a 64-bit address and size, `read_bytes` does not fault and keeps the cache valid; if it succeeds,
-- every resident byte is unchanged and the result has the size asked for and holds, in order, the
-- bytes resident from the canonical address on.
pub read_bytes-ReadsAs :
    (s : Space) (address size permission : ℕ)
    → CacheIsValid s
    → IsCanonical s
    → address < word
    → size < word
    → Safe s
        (λ bytes t. KeepsBytes s t × ReadsAs t (canonicalize s address) size bytes)
        (read_bytes address size permission s)
unfolding read_bytes
read_bytes-ReadsAs s address size permission valid canon a< size< =
    let a = canonicalize s address in
    let a<' = canon.bounded address a< in
    elim (Bool-cases ((size /= 0) && leb (page_offset a + size) page_size)) [
      | inl e ↦ rw e (
          Safe-bind _
            (resident_page-KeepsBytes s (page_base a) permission valid (not_no_page a a<'))
            (λ key t st q.
              Safe-bind _
                (deref-Safe t key st.valid (subst (λ j. is_resident t j ≡ true) (sym q.0) q.1))
                (λ p u tu r.
                  let same : u.pages ≡ t.pages = ap (λ (x : Space). x.pages) r.0 in
                  let page : u.pages (page_base a) ≡ some p =
                    ap (λ (f : ℕ → Option Page). f (page_base a)) same
                    ∙ ap t.pages (sym q.0)
                    ∙ r.1 in
                  Safe-pure _ tu.valid (
                    KeepsBytes-trans q.2 (same_pages-KeepsBytes t u same),
                    ReadsAs-slice u a size p a<' (ground (arith, e)) (ground (arith, e)) page,
                  ))))
      | inr e ↦ rw e (
          Safe-bind _ (ensure-KeepsBytes s address size permission valid canon a< size<)
            (λ _ t st q.
              Safe-weaken (copy_out-ReadsAs t size a size (omega arith) st.valid q.0)
                (λ bytes u tu h. (
                  KeepsBytes-trans q.1 (same_pages-KeepsBytes t u h.0),
                  ReadsAs-same u t a size bytes (sym h.0) h.1,
                ))))
    ]

pub list_ext :
    (xs ys : List ℕ)
    → length xs ≡ length ys
    → ((i : ℕ) → i < length ys → get_or xs i 0 ≡ get_or ys i 0)
    → xs ≡ ys
list_ext [] [] e h = refl
list_ext [] (y ∷ ys) e h = absurd (omega (arith, e))
list_ext (x ∷ xs) [] e h = absurd (omega (arith, e))
list_ext (x ∷ xs) (y ∷ ys) e h =
    ap (λ z. z ∷ xs) (h 0 (omega arith))
    ∙ ap (λ zs. y ∷ zs) (list_ext xs ys (omega (arith, e)) (λ i i<. h (suc i) (omega arith)))

pub ended :
    {A : Type 0} {s : Space} {Q : A → Space → Type 0} {r : Outcome A × Space} (a : A) (t : Space)
    → Safe s Q r
    → r ≡ (done a, t)
    → Keeps s t × Q a t
ended {s} {Q} a t h e = subst (λ r. SafeAt s Q r) e h.holds

pub some_nat : (m n : ℕ) → some m ≡ some n → m ≡ n
some_nat m n e = ap (λ (o : Option ℕ). elim o as (λ _. ℕ) [ none ↦ m | some k ↦ k ]) e

-- From a state with a valid cache and a canonicalizer that yields addresses and is idempotent: if
-- `write_bytes` succeeds at a 64-bit address with a list of 64-bit length, and `read_bytes` of as
-- many bytes at the same address succeeds afterwards, under any permission, then it returns the
-- bytes written, across pages too.
pub read_bytes-write_bytes :
    (s t u : Space) (address permission : ℕ) (bytes read : List ℕ)
    → CacheIsValid s
    → IsCanonical s
    → address < word
    → length bytes < word
    → write_bytes address bytes s ≡ (done tt, t)
    → read_bytes address (length bytes) permission t ≡ (done read, u)
    → read ≡ bytes
read_bytes-write_bytes s t u address permission bytes read valid canon a< size< wrote got =
    let (st, written) =
      ended tt t (write_bytes-Written s address bytes valid canon a< size<) wrote in
    let canon' = IsCanonical-same s t st.same canon in
    let (tu, (kept, (len, reads))) =
      ended read u (read_bytes-ReadsAs t address (length bytes) permission st.valid canon' a< size<)
        got in
    let at : canonicalize t address ≡ canonicalize s address =
      canonicalize_same s t address st.same in
    list_ext read bytes len (λ i i<. some_nat _ _ (
      sym (reads i i<)
      ∙ ap (λ a. byte_at u (a + i)) at
      ∙ kept.keep (canonicalize s address + i) (get_or bytes i 0) (written.inside i i<)))
