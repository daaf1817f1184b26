-- ===== src/Memory/Stores.antt =====
-- src/exec/memory.cpp: what the copy loops of `readBytes` and `writeBytes` read and store.
use mathlib.Core.Path.{subst}
use xdec.Base.{
  ℕ, zero, suc, ◌+◌, ◌-◌, ◌≤◌, ◌<◌, ◌≡◌, refl, sym, ap, ◌∙◌, ◌≢◌, inl, inr, true, Bool-cases,
  Option, none, some, ◌==◌, ltb, ltb→lt, ltb→le, ==→eq, ==→ne, List, [], ◌∷◌, ◌++◌, In, arith,
  length, length-append, get_or, min,
}
use xdec.Bits.{word, wrap}
use xdec.Bits.Digits.{bit_and-mask}
use xdec.Bits.Powers.{mod_small}
use xdec.Memory.State.{
  Space, Page, M, ◌>>=◌, pure, no_page, page_base, page_size, for_pages, canonicalize, pages_of,
}
use xdec.Memory.Paging.{resident_page, ensure, page_at}
use xdec.Memory.Access.{page_offset, slice, copy_out, page_key}
use xdec.Memory.Walk.{page_base-floor}
use xdec.Memory.Valid.{
  is_resident, CacheIsValid, Keeps-trans, Safe, Safe-weaken, Safe-pure, Safe-bind,
}
use xdec.Memory.Safe.{lookup-Safe, deref-Safe}
use xdec.Memory.SafePaging.{Pages, not_no_page}
use xdec.Memory.SafeRanges.{IsCanonical, range-Safe, pages-not_no_page}
use xdec.Memory.SafeBytes.{
  Covered, Covered-Keeps, Covered-drop, Covered-Pages, first_page, key_of, page_offset-lt,
  chunk_pos,
}
use xdec.Memory.Content.{
  byte_at, KeepsBytes, KeepsBytes-refl, KeepsBytes-trans, same_pages, resident_page-KeepsBytes,
}

abbrev touch : ℕ → ℕ → M (Unit {0})
touch permission page = resident_page page permission >>= λ key. pure tt

touch-KeepsBytes :
    (s : Space) (page permission : ℕ)
    → CacheIsValid s
    → page ≢ no_page
    → Safe s (λ _ t. (is_resident t page ≡ true) × KeepsBytes s t) (touch permission page s)
touch-KeepsBytes s page permission valid page≢ =
    Safe-bind (λ _. pure tt) (resident_page-KeepsBytes s page permission valid page≢)
      (λ key t st q. Safe-pure tt st.valid (q.1, q.2))

touch_all-KeepsBytes :
    (s : Space) (pages : List ℕ) (permission : ℕ)
    → CacheIsValid s
    → ((page : ℕ) → In page pages → page ≢ no_page)
    → Safe s (λ _ t. Pages pages t × KeepsBytes s t) (for_pages pages (touch permission) s)
unfolding for_pages
touch_all-KeepsBytes s [] permission valid h =
    Safe-pure tt valid ((λ page i. absurd i), KeepsBytes-refl)
touch_all-KeepsBytes s (page ∷ rest) permission valid h =
    Safe-bind (λ _. for_pages rest (touch permission))
      (touch-KeepsBytes s page permission valid (h page (inl refl)))
      (λ _ t st q.
        Safe-weaken (touch_all-KeepsBytes t rest permission st.valid (λ j i. h j (inr i)))
          (λ _ u tu r. (
            (λ j i. elim i [
              | inl e ↦ subst (λ k. is_resident u k ≡ true) (sym e) (tu.keeps page q.0)
              | inr i' ↦ r.0 j i'
            ]),
            KeepsBytes-trans q.1 r.1,
          )))

-- `ensure` covers the range and keeps every byte that is there.
pub ensure-KeepsBytes :
    (s : Space) (address size permission : ℕ)
    → CacheIsValid s
    → IsCanonical s
    → address < word
    → size < word
    → Safe s
        (λ _ t. Covered t (canonicalize s address) size × KeepsBytes s t)
        (ensure (canonicalize s address) size permission s)
unfolding ensure
ensure-KeepsBytes s address size permission valid canon a< size< =
    let a = canonicalize s (canonicalize s address) in
    let same : a ≡ canonicalize s address = canon.idempotent address in
    let a<' = canon.bounded (canonicalize s address) (canon.bounded address a<) in
    Safe-weaken {Q = λ _ t. Covered t a size × KeepsBytes s t}
      (range-Safe s a size _ tt (for_pages (pages_of a size) (touch permission)) valid
        (λ e. (
          Covered-Pages s a size a<' size< (λ pos. absurd (omega (arith, e)))
              (λ pos. absurd (omega (arith, e))),
          KeepsBytes-refl,
        ))
        (λ pos nowrap.
          Safe-weaken
            (touch_all-KeepsBytes s (pages_of a size) permission valid
              (pages-not_no_page a size a<' pos size< nowrap))
            (λ _ t st q. (Covered-Pages t a size a<' size< (λ _. nowrap) (λ _. q.0), q.1))))
      (λ _ t st q. (subst (λ b. Covered t b size) same q.0, q.1))

-- Addresses on one page.
pub near_base :
    (a i : ℕ) → a + i < word → page_offset a + i < 4096 → page_base (a + i) ≡ page_base a
near_base a i fits near =
    omega (arith, page_base-floor (a + i) fits, page_base-floor a (omega arith), bit_and-mask 12 a)

pub near_offset : (a i : ℕ) → page_offset a + i < 4096 → page_offset (a + i) ≡ page_offset a + i
near_offset a i near = omega (arith, bit_and-mask 12 a, bit_and-mask 12 (a + i))

pub byte_at-some :
    (s : Space) (x : ℕ) (p : Page)
    → s.pages (page_base x) ≡ some p
    → byte_at s x ≡ some (p.bytes (page_offset x))
unfolding byte_at
byte_at-some s x p e = ground arith

length-slice : (bytes : ℕ → ℕ) (offset n : ℕ) → length (slice bytes offset n) ≡ n
unfolding slice
length-slice bytes offset zero = refl
length-slice bytes offset (suc n) = ap (λ k. suc k) (length-slice bytes (offset + 1) n)

get-slice :
    (bytes : ℕ → ℕ) (offset n i : ℕ) (rest : List ℕ)
    → i < n
    → get_or (slice bytes offset n ++ rest) i 0 ≡ bytes (offset + i)
unfolding slice
get-slice bytes offset zero i rest lt = absurd (omega arith)
get-slice bytes offset (suc n) zero rest lt = ap bytes (omega arith)
get-slice bytes offset (suc n) (suc i) rest lt =
    get-slice bytes (offset + 1) n i rest (omega arith) ∙ ap bytes (omega arith)

get-after : (xs ys : List ℕ) (i : ℕ) → get_or (xs ++ ys) (length xs + i) 0 ≡ get_or ys i 0
get-after [] ys i = ap (λ k. get_or ys k 0) (omega arith)
get-after (x ∷ xs) ys i =
    let e : suc (length xs) + i ≡ suc (length xs + i) = omega arith in
    ap (λ k. get_or (x ∷ (xs ++ ys)) k 0) e ∙ get-after xs ys i

key_of-same :
    (t : Space) (page : ℕ) (found : Option ℕ) {pages : ℕ → Option Page}
    → CacheIsValid t
    → t.pages ≡ pages
    → found ≡ some page
    → Safe t (λ key u. (key ≡ page) × (u.pages ≡ pages)) (key_of found t)
key_of-same t page none valid same e = absurd (ground arith)
key_of-same t page (some key) valid same e = Safe-pure key valid (ground arith, same)

pub page_key-same :
    (s : Space) (a : ℕ)
    → CacheIsValid s
    → a < word
    → is_resident s (page_base a) ≡ true
    → Safe s (λ key t. (key ≡ page_base a) × (t.pages ≡ s.pages)) (page_key a s)
unfolding page_key page_at
page_key-same s a valid a< here =
    Safe-bind key_of (lookup-Safe s (page_base a) valid (not_no_page a a<))
      (λ found t st q. key_of-same t (page_base a) found st.valid q.0 (q.1 ∙ rw here refl))

-- What `copy_out` collects: the bytes of the range, in order.
abbrev pub ReadsAs : Space → ℕ → ℕ → List ℕ → Type 0
ReadsAs s a size bytes =
    (length bytes ≡ size) × ((i : ℕ) → i < size → byte_at s (a + i) ≡ some (get_or bytes i 0))

-- A chunk from one page, then the rest of the range.
pub ReadsAs-append :
    (s : Space) (a size chunk : ℕ) (p : Page) (rest : List ℕ)
    → a + size ≤ word
    → chunk ≤ size
    → page_offset a + chunk ≤ 4096
    → 0 < size
    → s.pages (page_base a) ≡ some p
    → ReadsAs s (wrap (a + chunk)) (size - chunk) rest
    → ReadsAs s a size (slice p.bytes (page_offset a) chunk ++ rest)
ReadsAs-append s a size chunk p rest fits le near pos e (len, reads) =
    let front = slice p.bytes (page_offset a) chunk in
    (
      omega (arith, length-append front rest, length-slice p.bytes (page_offset a) chunk, len),
      λ i i<. elim (Bool-cases (ltb i chunk)) [
        | inl lt ↦
            let i<chunk = ltb→lt i chunk lt in
            let base = near_base a i (omega arith) (omega arith) in
            byte_at-some s (a + i) p (ap s.pages base ∙ e)
            ∙ ap (λ k. some (p.bytes k)) (near_offset a i (omega arith))
            ∙ ap (λ (b : ℕ). some b) (sym (get-slice p.bytes (page_offset a) chunk i rest i<chunk))
        | inr ge ↦
            let chunk≤ = ltb→le i chunk ge in
            let at : wrap (a + chunk) + (i - chunk) ≡ a + i =
              omega (arith, mod_small (a + chunk) 64) in
            let where_ : length front + (i - chunk) ≡ i =
              omega (arith, length-slice p.bytes (page_offset a) chunk) in
            ap (byte_at s) (sym at)
            ∙ reads (i - chunk) (omega arith)
            ∙ ap (λ (b : ℕ). some b)
                (sym (get-after front rest (i - chunk))
                  ∙ ap (λ k. get_or (front ++ rest) k 0) where_)
      ],
    )

pub ReadsAs-same :
    (s t : Space) (a size : ℕ) (bytes : List ℕ)
    → t.pages ≡ s.pages
    → ReadsAs t a size bytes
    → ReadsAs s a size bytes
ReadsAs-same s t a size bytes e (len, reads) =
    (len, λ i i<. sym (same_pages s t e (a + i)) ∙ reads i i<)

pub copy_out-ReadsAs :
    (s : Space) (rounds a size : ℕ)
    → size ≤ rounds
    → CacheIsValid s
    → Covered s a size
    → Safe s (λ bytes t. (t.pages ≡ s.pages) × ReadsAs s a size bytes) (copy_out rounds a size s)
unfolding copy_out
copy_out-ReadsAs s zero a size enough valid h =
    Safe-pure [] valid (refl, (omega arith, λ i i<. absurd (omega arith)))
copy_out-ReadsAs s (suc rounds) a size enough valid h = elim (Bool-cases (size == 0)) [
  | inl e ↦ rw e (
      Safe-pure [] valid
        (refl, (omega (arith, ==→eq size 0 e), λ i i<. absurd (omega (arith, ==→eq size 0 e)))))
  | inr e ↦
      let pos : 0 < size = omega (arith, ==→ne size 0 e) in
      let chunk = min size (page_size - page_offset a) in
      rw e (
        Safe-bind _ (page_key-same s a valid (omega (arith, h.fits)) (first_page s a size pos h))
          (λ key t st q.
            Safe-bind _
              (deref-Safe t key st.valid (
                subst (λ j. is_resident t j ≡ true) (sym q.0)
                  (st.keeps (page_base a) (first_page s a size pos h))))
              (λ p u tu r.
                Safe-bind _
                  (copy_out-ReadsAs u rounds (wrap (a + chunk)) (size - chunk)
                    (omega (arith, chunk_pos a size pos)) tu.valid
                    (Covered-drop u a size chunk (chunk_pos a size pos) (omega arith)
                      (Covered-Keeps a size (Keeps-trans st tu) h)))
                  (λ rest v uv reads. Safe-pure _ uv.valid (
                    let same : u.pages ≡ s.pages = ap (λ (x : Space). x.pages) r.0 ∙ q.1 in
                    let page : s.pages (page_base a) ≡ some p =
                      ap (λ (f : ℕ → Option Page). f (page_base a)) (sym q.1)
                      ∙ ap t.pages (sym q.0)
                      ∙ r.1 in
                    (
                      reads.0 ∙ same,
                      ReadsAs-append s a size chunk p rest h.fits (omega arith)
                          (omega (arith, page_offset-lt a)) pos page
                          (ReadsAs-same s u (wrap (a + chunk)) (size - chunk) rest same reads.1),
                    ))))))
]
