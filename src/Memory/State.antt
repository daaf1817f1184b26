-- ===== src/Memory/State.antt =====
-- include/xdec/exec/memory.h: the state of `GuestAddressSpace`, and the monad of its operations.
-- A `Page*` is the key of its node in `pages_`: nodes of an `unordered_map` do not move, so a
-- pointer dangles exactly when its key is erased. Reading through such a pointer, and
-- `pages_.at` on a missing key, is `fault`. Arrays of bytes and of dirty words are functions of
-- the index, which the code keeps below 4096 and below 64.
use xdec.Base.{
  ℕ, zero, suc, ◌+◌, ◌-◌, ◌/◌, bit_and, Bool, false, Option, none, some, List, [], ◌∷◌, ltb, ◌==◌,
  if◌then◌else◌, Diag, Result, ok, err,
}
use xdec.Bits.{wrap, complement, word}
use xdec.U128.{U128}

abbrev pub page_size : ℕ
page_size = 4096

abbrev pub dirty_word_bits : ℕ
dirty_word_bits = 64

pub record MemoryRange : Type 0 where
  pub address : ℕ
  pub size : ℕ

pub record MemoryAccess : Type 0 where
  pub instruction : ℕ
  pub address : ℕ
  pub size : ℕ
  pub is_write : Bool
  pub value : U128

pub record PageSeed : Type 0 where
  pub permissions : ℕ
  pub bytes : ℕ → ℕ

pub record Page : Type 0 where
  pub bytes : ℕ → ℕ
  pub permissions : ℕ
  pub generation : ℕ
  pub dirty : ℕ → ℕ
  pub dirty_listed : Bool

-- `Page{}`.
abbrev pub fresh_page : Page
fresh_page = record {
  bytes = λ i. 0;
  permissions = 0;
  generation = 0;
  dirty = λ i. 0;
  dirty_listed = false;
}

-- `PageCache::kNoPage`.
abbrev pub no_page : ℕ
no_page = 1

-- The callbacks are the embedder's: the canonicalizer and the page provider are functions, and what
-- the access observer is told is kept in `accesses`, the last access first.
pub record Space : Type 0 where
  pub pages : ℕ → Option Page
  pub cache_base : ℕ
  pub cache_page : Option ℕ
  pub canonicalizer : Option (ℕ → ℕ)
  pub provider : Option (ℕ → Result (Option PageSeed))
  pub observing : Bool
  pub accesses : List MemoryAccess
  pub instruction : ℕ
  pub dirty_pages : List ℕ
  pub next_generation : ℕ

pub data Outcome (A : Type 0) : Type 0 where
  done : A → Outcome A
  failed : Diag → Outcome A
  fault : Outcome A

-- A failing operation keeps what it had changed.
abbrev pub M : Type 0 → Type 0
M A = Space → Outcome A × Space

abbrev pub pure : {A : Type 0} → A → M A
pure a s = (done a, s)

abbrev pub fail : {A : Type 0} → Diag → M A
fail d s = (failed d, s)

abbrev pub continue : {A B : Type 0} → (A → M B) → Outcome A × Space → Outcome B × Space
continue f (done a, s) = f a s
continue f (failed d, s) = (failed d, s)
continue f (fault, s) = (fault, s)

infixl 5 ◌>>=◌ ◌>>◌
abbrev pub ◌>>=◌ : {A B : Type 0} → M A → (A → M B) → M B
◌>>=◌ m f s = continue f (m s)

abbrev pub ◌>>◌ : {B : Type 0} → M (Unit {0}) → M B → M B
m >> k = m >>= λ _. k

abbrev pub lift : {A : Type 0} → Result A → M A
lift (ok a) s = (done a, s)
lift (err d) s = (failed d, s)

-- `address & ~(kPageSize - 1)`.
unfoldable pub page_base : ℕ → ℕ
page_base address = bit_and address (complement (page_size - 1))

unfoldable pub canonicalize : Space → ℕ → ℕ
canonicalize s address = elim s.canonicalizer [ none ↦ address | some f ↦ f address ]

-- `address > max - (size - 1)`, for a positive size.
unfoldable pub wraps : ℕ → ℕ → Bool
wraps address size = ltb (word - 1 - (size - 1)) address

abbrev pub put_page : (ℕ → Option Page) → ℕ → Page → ℕ → Option Page
put_page pages key p j = if j == key then some p else pages j

abbrev pub erase_page : (ℕ → Option Page) → ℕ → ℕ → Option Page
erase_page pages key j = if j == key then none else pages j

-- Reading and changing a page through a pointer.
unfoldable pub deref : ℕ → M Page
deref key s = elim (s.pages key) [ none ↦ (fault, s) | some p ↦ (done p, s) ]

unfoldable pub change_page : ℕ → (Page → Page) → M (Unit {0})
change_page key f s = elim (s.pages key) [
  | none ↦ (fault, s)
  | some p ↦ (done tt, record s { pages = put_page s.pages key (f p) })
]

unfoldable pub fresh_generation : M ℕ
fresh_generation s =
    (done s.next_generation, record s { next_generation = wrap (s.next_generation + 1) })

-- The pages that a `for (page = first;; page += kPageSize)` visits up to `last`.
unfoldable pub page_walk : ℕ → ℕ → ℕ → List ℕ
page_walk zero page last = []
page_walk (suc rounds) page last =
    let rest = page_walk rounds (wrap (page + page_size)) last in
    page ∷ (if page == last then [] else rest)

-- The pages of `size` bytes from `address` on; the walk has a round more than there are pages, and
-- ends by its test.
unfoldable pub pages_of : ℕ → ℕ → List ℕ
unfolding page_walk page_base
pages_of address size =
    let first = page_base address in
    let last = page_base (wrap (address + size - 1)) in
    page_walk ((last - first) / page_size + 2) first last

-- A loop over those pages.
unfoldable pub for_pages : List ℕ → (ℕ → M (Unit {0})) → M (Unit {0})
for_pages [] body = pure tt
for_pages (page ∷ rest) body = body page >> for_pages rest body
