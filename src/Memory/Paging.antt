-- ===== src/Memory/Paging.antt =====
-- src/exec/memory.cpp: `lookup`, `residentPage`, `ensure`, `map`, `seed`, `protect`, `unmap`, `mapped`.
use xdec.Base.{
  ℕ, ◌+◌, ◌-◌, bit_and, bit_or, Bool, true, false, not, ◌&&◌, Option, none, some, List, [], ◌∷◌,
  ◌==◌, ◌/=◌, if◌then◌else◌, length, DiagCode, diag, diag_at,
}
use xdec.Bits.{wrap}
use xdec.Memory.Permission
use xdec.Memory.Permission.{has_permission}
use xdec.Memory.State.{
  Space, Page, PageSeed, M, done, failed, fault, pure, fail, ◌>>=◌, ◌>>◌, lift, page_base,
  page_size, canonicalize, wraps, put_page, erase_page, deref, change_page, fresh_generation,
  pages_of, for_pages, fresh_page, no_page,
}

-- The resident page, or null; a hit through the cache skips the map.
unfoldable pub lookup : ℕ → M (Option ℕ)
lookup page s = if s.cache_base == page then (done s.cache_page, s) else elim (s.pages page) [
  | none ↦ (done none, s)
  | some p ↦ (done (some page), record s { cache_base = page; cache_page = some page })
]

unfoldable pub page_at : ℕ → M (Option ℕ)
page_at address = lookup (page_base address)

-- `pages_.emplace` of a page from the provider, and the cache on it.
unfoldable pub materialize : ℕ → PageSeed → M (Option ℕ)
materialize page seed = do
  generation ← fresh_generation
  λ s. (
    done (some page),
    record s {
      pages = put_page s.pages page (record fresh_page {
        bytes = seed.bytes;
        permissions = seed.permissions;
        generation = generation;
      });
      cache_base = page;
      cache_page = some page;
    },
  )

-- The page from the provider, where there is one and it has the page.
unfoldable pub supply : ℕ → M (Option ℕ)
supply page s = elim s.provider [
  | none ↦ (done none, s)
  | some provide ↦
      (lift (provide page) >>= λ supplied. elim supplied [
        | none ↦ pure none
        | some seed ↦ materialize page seed
      ])
        s
]

unfoldable pub check_permission : ℕ → ℕ → Option ℕ → M ℕ
check_permission page permission none = fail (diag_at DiagCode.unmapped_address page)
check_permission page permission (some key) = do
  p ← deref key
  if (permission /= Permission.none) && not (has_permission p.permissions permission)
      then fail (diag_at DiagCode.out_of_range page)
      else pure key

unfoldable pub resident_page : ℕ → ℕ → M ℕ
resident_page page permission = do
  found ← lookup page
  found' ← elim found [ none ↦ supply page | some key ↦ pure (some key) ]
  check_permission page permission found'

unfoldable pub ensure : ℕ → ℕ → ℕ → M (Unit {0})
ensure address size permission s =
    let a = canonicalize s address in
    if size == 0
    then (done tt, s)
    else if wraps a size
    then (failed (diag DiagCode.out_of_range), s)
    else for_pages (pages_of a size) (λ page. resident_page page permission >>= λ key. pure tt) s

-- `try_emplace`: the page that is there, or a new one.
unfoldable pub try_emplace : ℕ → M Bool
try_emplace page s = elim (s.pages page) [
  | none ↦ (done true, record s { pages = put_page s.pages page fresh_page })
  | some p ↦ (done false, s)
]

unfoldable pub stamp : ℕ → (Page → ℕ) → M (Unit {0})
stamp page permissions = do
  generation ← fresh_generation
  change_page page (λ p. record p { permissions = permissions p; generation = generation })

unfoldable pub refuse_mapped : ℕ → M (Unit {0})
refuse_mapped page s = elim (s.pages page) [
  | none ↦ (done tt, s)
  | some p ↦ (failed (diag_at DiagCode.bad_format page), s)
]

unfoldable pub map_page : ℕ → ℕ → M (Unit {0})
map_page permissions page = do inserted ← try_emplace page; stamp page (λ p. permissions)

unfoldable pub map : ℕ → ℕ → ℕ → M (Unit {0})
map address size permissions s =
    let a = canonicalize s address in
    if size == 0
    then (done tt, s)
    else if wraps a size
    then (failed (diag DiagCode.out_of_range), s)
    else (for_pages (pages_of a size) refuse_mapped
          >> for_pages (pages_of a size) (map_page permissions))
        s

unfoldable pub seed_page : ℕ → ℕ → M (Unit {0})
seed_page permissions page = do
  inserted ← try_emplace page
  stamp page (λ p. if inserted then permissions else bit_or p.permissions permissions)

abbrev pub set_byte : ℕ → ℕ → Page → Page
set_byte offset value p = record p { bytes = λ i. if i == offset then value else p.bytes i }

-- One store through `pageAt`; a null page is dereferenced as it stands.
unfoldable pub poke : ℕ → ℕ → M (Unit {0})
poke address value = do
  page ← page_at address
  elim page [
    | none ↦ λ s. (fault, s)
    | some key ↦ change_page key (set_byte (bit_and address (page_size - 1)) value)
  ]

-- The byte loops of `seed` and of a `Map` patch.
unfoldable pub poke_all : ℕ → List ℕ → M (Unit {0})
poke_all address [] = pure tt
poke_all address (b ∷ bs) = poke address b >> poke_all (wrap (address + 1)) bs

unfoldable pub seed : ℕ → List ℕ → ℕ → M (Unit {0})
seed address bytes permissions s =
    let a = canonicalize s address in
    let size = length bytes in
    if size == 0
    then (done tt, s)
    else if wraps a size
    then (failed (diag DiagCode.out_of_range), s)
    else (for_pages (pages_of a size) (seed_page permissions) >> poke_all a bytes) s

unfoldable pub protect : ℕ → ℕ → ℕ → M (Unit {0})
protect address size permissions s =
    let a = canonicalize s address in
    (ensure a size Permission.none
        >> (if size == 0
            then pure tt
            else for_pages (pages_of a size) (λ page. stamp page (λ p. permissions))))
      s

abbrev pub forget_cache : M (Unit {0})
forget_cache s = (done tt, record s { cache_base = no_page; cache_page = none })

abbrev pub erase : ℕ → M (Unit {0})
erase page s = (done tt, record s { pages = erase_page s.pages page })

unfoldable pub unmap : ℕ → ℕ → M (Unit {0})
unmap address size s =
    let a = canonicalize s address in
    if size == 0
    then (done tt, s)
    else (ensure a size Permission.none >> forget_cache >> for_pages (pages_of a size) erase) s

unfoldable pub contains_all : (ℕ → Option Page) → List ℕ → Bool
contains_all pages [] = true
contains_all pages (page ∷ rest) = elim (pages page) [
  | none ↦ false
  | some p ↦ contains_all pages rest
]

unfoldable pub mapped : ℕ → ℕ → Space → Bool
mapped address size s =
    let a = canonicalize s address in
    if size == 0
    then true
    else if wraps a size
    then false
    else contains_all s.pages (pages_of a size)

unfoldable pub generation_at : ℕ → M ℕ
generation_at address s =
    (page_at (canonicalize s address) >>= λ page. elim page [
      | none ↦ pure 0
      | some key ↦ (deref key >>= λ p. pure p.generation)
    ])
      s
