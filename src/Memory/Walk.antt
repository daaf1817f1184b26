-- ===== src/Memory/Walk.antt =====
-- src/exec/memory.cpp: the loops over the pages of a byte range, the form
-- `for (uint64_t page = first;; page += kPageSize)` with a test for `last`.
use xdec.Base.{
  ℕ, zero, suc, ◌+◌, ◌-◌, ◌*◌, ◌/◌, ◌≤◌, ◌<◌, ◌≡◌, ap, ◌∙◌, inl, inr, false, Bool-cases, ◌==◌,
  ltb→le, ==→eq, ==→ne, ne→==, List, [], ◌∷◌, In, arith,
}
use native.Mathlib.Numerals.{add-one}
use xdec.Bits.{wrap, word}
use xdec.Bits.Digits.{bit_and-high}
use xdec.Bits.Powers.{mod_small}
use xdec.Memory.State.{page_base, page_walk, pages_of, wraps}

-- The page of an address is the multiple of the page size below it.
pub page_base-floor : (a : ℕ) → a < word → page_base a ≡ a / 4096 * 4096
unfolding page_base
page_base-floor a a< = omega (arith, bit_and-high 12 52 a)

-- The pages with numbers from `k` on, `n` of them.
abbrev pub page_run : ℕ → ℕ → List ℕ
page_run k zero = []
page_run k (suc n) = k * 4096 ∷ page_run (suc k) n

add_two : (n : ℕ) → n + 2 ≡ suc (suc n)
add_two n = omega arith

page_walk-page_run :
    (n k : ℕ)
    → (k + n + 1) * 4096 ≤ word
    → page_walk (suc (suc n)) (k * 4096) ((k + n) * 4096) ≡ page_run k (suc n)
unfolding page_walk
page_walk-page_run zero k le = ground arith
page_walk-page_run (suc n) k le =
    let shut : (k * 4096 == (k + suc n) * 4096) ≡ false =
      ne→== (k * 4096) ((k + suc n) * 4096) (λ e. absurd (omega (arith, e))) in
    let next : wrap (k * 4096 + 4096) ≡ suc k * 4096 =
      mod_small (k * 4096 + 4096) 64 (omega arith) ∙ omega arith in
    let last : (k + suc n) * 4096 ≡ (suc k + n) * 4096 = omega arith in
    rw (shut, next, last) (ap (λ t. k * 4096 ∷ t) (page_walk-page_run n (suc k) (omega arith)))

pub not-wraps :
    (a size : ℕ) → a < word → 0 < size → size < word → wraps a size ≡ false → a + size ≤ word
unfolding wraps
not-wraps a size a< pos size< h = omega (arith, ltb→le (word - 1 - (size - 1)) a h)

-- The walk of a byte range that does not wrap is the run of the pages that it meets.
pub pages_of-page_run :
    (a size : ℕ)
    → a < word
    → 0 < size
    → a + size ≤ word
    → pages_of a size ≡ page_run (a / 4096) ((a + size - 1) / 4096 - a / 4096 + 1)
unfolding pages_of
pages_of-page_run a size a< pos fits =
    let n = (a + size - 1) / 4096 - a / 4096 in
    let end : wrap (a + size - 1) ≡ a + size - 1 = mod_small (a + size - 1) 64 (omega arith) in
    let first : page_base a ≡ a / 4096 * 4096 = page_base-floor a a< in
    let last : page_base (a + size - 1) ≡ (a / 4096 + n) * 4096 =
      page_base-floor (a + size - 1) (omega arith) ∙ omega arith in
    let rounds : ((a / 4096 + n) * 4096 - a / 4096 * 4096) / 4096 ≡ n = omega arith in
    rw (end, first, last, rounds, add_two n, add-one n)
      (page_walk-page_run n (a / 4096) (omega arith))

-- A page is in a run exactly when its number is.
pub page_run-In : (n k j : ℕ) → k ≤ j → j < k + n → In (j * 4096) (page_run k n)
page_run-In zero k j le lt = absurd (omega arith)
page_run-In (suc n) k j le lt = elim (Bool-cases (j == k)) [
  | inl e ↦ inl (ap (λ t. t * 4096) (==→eq j k e))
  | inr e ↦ inr (page_run-In n (suc k) j (omega (arith, ==→ne j k e)) (omega arith))
]

pub In-page_run :
    (n k page : ℕ) → In page (page_run k n) → (j : ℕ) × (k ≤ j) × (j < k + n) × (page ≡ j * 4096)
In-page_run zero k page h = absurd h
In-page_run (suc n) k page (inl e) = (k, omega arith, omega arith, e)
In-page_run (suc n) k page (inr h) =
    let (j, le, lt, e) = In-page_run n (suc k) page h in (j, omega arith, omega arith, e)

-- For a 64-bit address and a positive 64-bit size that the code's test does not refuse, the page
-- loop visits the page of every byte of the range, and every page that it visits is the page of
-- some byte of the range.
pub pages_of-covers :
    (a size : ℕ)
    → a < word
    → 0 < size
    → size < word
    → wraps a size ≡ false
    → ((i : ℕ) → i < size → In (page_base (a + i)) (pages_of a size))
      × ((page : ℕ) → In page (pages_of a size) → (i : ℕ) × (i < size) × (page_base (a + i) ≡ page))
pages_of-covers a size a< pos size< nowrap =
    let fits = not-wraps a size a< pos size< nowrap in
    let n = (a + size - 1) / 4096 - a / 4096 in
    rw (pages_of-page_run a size a< pos fits) (
      (λ i i<.
          rw (page_base-floor (a + i) (omega arith))
            (page_run-In (n + 1) (a / 4096) ((a + i) / 4096) (omega arith) (omega arith))),
      λ page h.
          let (j, le, lt, e) = In-page_run (n + 1) (a / 4096) page h in
          let i = j * 4096 - a in
          (i, omega arith, page_base-floor (a + i) (omega arith) ∙ omega (arith, e)),
    )
