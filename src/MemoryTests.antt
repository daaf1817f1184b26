-- ===== src/MemoryTests.antt =====
-- Concrete runs of the guest address space.
use xdec.Base.{
  ℕ, ◌+◌, ◌%◌, ◌^◌, ◌<◌, ◌≡◌, refl, inl, true, false, none, some, List, [], ◌∷◌, In, All, arith,
}
use xdec.U128.{u128}
use xdec.Memory.State.{Space, canonicalize, no_page, pages_of, wraps, page_base}
use xdec.Memory.Op.{Op, IsRequest}
use xdec.Memory.Valid.{CacheIsValid}
use xdec.Memory.SafeRanges.{IsCanonical}
use xdec.Memory.Sound.{SoundAt}
use xdec.Memory.Session.{step, run, session-SoundAt}
use xdec.Memory.Walk.{pages_of-covers}
use xdec.Base.{◌==◌, if◌then◌else◌, DiagCode}
use xdec.Memory.Permission
use xdec.Memory.Paging.{lookup, ensure}
use xdec.Memory.Valid.{Safe}
use xdec.Memory.Safe.{found_page, lookup-Safe}
use xdec.Memory.SafePaging.{Pages}
use xdec.Memory.SafeRanges.{ensure-Safe}
use xdec.Base.{◌||◌, ◌≢◌, ◌⊎◌, DiagCode, diag_at}
use xdec.Memory.State.{
  Page, done, failed, for_pages, page_walk, deref, change_page, fresh_generation,
}
use xdec.Memory.Paging.{map, resident_page, check_permission, page_at}
use xdec.Memory.Access.{
  read_bytes, write_bytes, copy_in, copy_out, page_key, store_page, slice, splice,
}
use xdec.Memory.Dirty.{mark_dirty, list_dirty, mark_words}
use xdec.Memory.Content.{KeepsBytes}
use xdec.Memory.Access.{read, write, disassemble, assemble, value_byte, observe}
use xdec.Memory.Values.{read-write}
use xdec.Memory.Bytes.{assemble-disassemble}
use xdec.U128.{mask, U128}
use xdec.Base.{◌*◌}
use xdec.U128.Value.{IsWords}
use xdec.Memory.Stores.{ReadsAs}
use xdec.Memory.Roundtrip.{Written, write_bytes-Written, read_bytes-ReadsAs, read_bytes-write_bytes}
use xdec.Memory.Mapping.{NoneMapped, Blank, map-cases}

-- An empty space whose canonicalizer drops the tag byte of an address.
abbrev untagged : Space
untagged = record {
  pages = λ page. none;
  cache_base = no_page;
  cache_page = none;
  canonicalizer = some (λ a. a % 2 ^ 56);
  provider = none;
  observing = true;
  accesses = [];
  instruction = 0;
  dirty_pages = [];
  next_generation = 1;
}

untagged-CacheIsValid : CacheIsValid untagged
unfolding CacheIsValid
untagged-CacheIsValid = inl (refl, refl)

untagged-IsCanonical : IsCanonical untagged
unfolding canonicalize
untagged-IsCanonical = record { bounded = λ a a<. omega arith; idempotent = λ a. omega arith }

abbrev unmap_session : List Op
unmap_session =
    Op.map 0x1000 0x2000 3
    ∷ Op.write 0x1ffc 8 (u128 0x1122334455667788 0)
    ∷ Op.unmap 0x1000 0x1000
    ∷ Op.dirty_ranges
    ∷ []

unmap_session-IsRequest : All IsRequest unmap_session
unfolding IsRequest
unmap_session-IsRequest =
    ((omega arith, omega arith), (omega arith, ((omega arith, omega arith), (tt, tt))))

read-IsRequest : IsRequest (Op.read 0x1010 8)
unfolding IsRequest
read-IsRequest = omega arith

session-SoundAt_example :
    SoundAt (run unmap_session untagged) (step (Op.read 0x1010 8) (run unmap_session untagged))
session-SoundAt_example =
    session-SoundAt untagged unmap_session (Op.read 0x1010 8) untagged-CacheIsValid
      untagged-IsCanonical unmap_session-IsRequest read-IsRequest

no_wrap : wraps 0x1fe0 0x30 ≡ false
unfolding wraps
no_wrap = refl

pages_of-covers_example :
    ((i : ℕ) → i < 0x30 → In (page_base (0x1fe0 + i)) (pages_of 0x1fe0 0x30))
    × ((page : ℕ)
        → In page (pages_of 0x1fe0 0x30)
        → (i : ℕ) × (i < 0x30) × (page_base (0x1fe0 + i) ≡ page))
pages_of-covers_example =
    pages_of-covers 0x1fe0 0x30 (omega arith) (omega arith) (omega arith) no_wrap

pages_of_test : pages_of 0x1fe0 0x30 ≡ 0x1000 ∷ 0x2000 ∷ []
unfolding pages_of
pages_of_test = refl

lookup-Safe_example :
    Safe untagged
      (λ found t. (t.pages ≡ untagged.pages) × (found ≡ found_page untagged 0x1000))
      (lookup 0x1000 untagged)
lookup-Safe_example = lookup-Safe untagged 0x1000 untagged-CacheIsValid (λ e. omega (arith, e))

ensure-Safe_example :
    Safe untagged
      (λ _ t.
        0 < 0x30
        → (wraps (canonicalize untagged 0x1fe0) 0x30 ≡ false)
          × Pages (pages_of (canonicalize untagged 0x1fe0) 0x30) t)
      (ensure 0x1fe0 0x30 Permission.write untagged)
ensure-Safe_example =
    ensure-Safe untagged 0x1fe0 0x30 Permission.write untagged-CacheIsValid untagged-IsCanonical
      (omega arith) (omega arith)

abbrev zero_page : Page
zero_page = record {
  bytes = λ i. 0;
  permissions = 3;
  generation = 1;
  dirty = λ i. 0;
  dirty_listed = false;
}

-- Two pages that can be read and written.
abbrev two_pages : Space
two_pages = record untagged {
  pages = λ page. if page == 0x1000 || page == 0x2000 then some zero_page else none;
}

two_pages-CacheIsValid : CacheIsValid two_pages
unfolding CacheIsValid
two_pages-CacheIsValid = inl (refl, refl)

two_pages-IsCanonical : IsCanonical two_pages
unfolding canonicalize
two_pages-IsCanonical = record { bounded = λ a a<. omega arith; idempotent = λ a. omega arith }

abbrev four_bytes : List ℕ
four_bytes = 1 ∷ 2 ∷ 3 ∷ 4 ∷ []

abbrev after_write : Space
after_write = (write_bytes 0x1ffe four_bytes two_pages).1

wrote : write_bytes 0x1ffe four_bytes two_pages ≡ (done tt, after_write)
unfolding write_bytes ensure resident_page canonicalize wraps for_pages pages_of page_walk page_base
    lookup check_permission deref Permission.has_permission copy_in page_key page_at store_page
    change_page mark_dirty list_dirty fresh_generation
wrote = refl

got : read_bytes 0x1ffe 4 1 after_write ≡ (done four_bytes, (read_bytes 0x1ffe 4 1 after_write).1)
unfolding read_bytes copy_out slice splice mark_words write_bytes ensure resident_page canonicalize
    wraps for_pages pages_of page_walk page_base lookup check_permission deref
    Permission.has_permission copy_in page_key page_at store_page change_page mark_dirty list_dirty
    fresh_generation
got = refl

read_bytes-write_bytes_example : four_bytes ≡ four_bytes
read_bytes-write_bytes_example =
    read_bytes-write_bytes two_pages after_write ((read_bytes 0x1ffe 4 1 after_write).1) 0x1ffe 1
      four_bytes four_bytes two_pages-CacheIsValid two_pages-IsCanonical (omega arith) (omega arith)
      wrote got

write_bytes-Written_example :
    Safe two_pages
      (λ _ t. Written two_pages t (canonicalize two_pages 0x1ffe) four_bytes)
      (write_bytes 0x1ffe four_bytes two_pages)
write_bytes-Written_example =
    write_bytes-Written two_pages 0x1ffe four_bytes two_pages-CacheIsValid two_pages-IsCanonical
      (omega arith) (omega arith)

read_bytes-ReadsAs_example :
    Safe two_pages
      (λ bytes t. KeepsBytes two_pages t × ReadsAs t (canonicalize two_pages 0x1ffe) 4 bytes)
      (read_bytes 0x1ffe 4 1 two_pages)
read_bytes-ReadsAs_example =
    read_bytes-ReadsAs two_pages 0x1ffe 4 1 two_pages-CacheIsValid two_pages-IsCanonical
      (omega arith) (omega arith)

abbrev map_range : List ℕ
map_range = pages_of (canonicalize two_pages 0x2800) 0x1000

map_no_wrap : wraps (canonicalize two_pages 0x2800) 0x1000 ≡ false
unfolding wraps canonicalize
map_no_wrap = refl

map-cases_example :
    ((page : ℕ) × In page map_range
      × (two_pages.pages page ≢ none)
      × (map 0x2800 0x1000 1 two_pages ≡ (failed (diag_at DiagCode.bad_format page), two_pages)))
    ⊎ (NoneMapped two_pages map_range
        × ((t : Space) × (map 0x2800 0x1000 1 two_pages ≡ (done tt, t))
            × ((page : ℕ) → In page map_range → Blank t 1 page)
            × ((page : ℕ) → (In page map_range → ⊥) → t.pages page ≡ two_pages.pages page)))
map-cases_example = map-cases two_pages 0x2800 0x1000 1 (omega arith) map_no_wrap

abbrev number : U128
number = u128 0x1122334455667788 0

number-IsWords : IsWords number
number-IsWords = (omega arith, omega arith)

abbrev after_number : Space
after_number = (write 0x1ffc 8 number two_pages).1

wrote_number : write 0x1ffc 8 number two_pages ≡ (done tt, after_number)
unfolding write disassemble value_byte observe write_bytes ensure resident_page canonicalize wraps
    for_pages pages_of page_walk page_base lookup check_permission deref Permission.has_permission
    copy_in page_key page_at store_page change_page mark_dirty list_dirty fresh_generation
wrote_number = refl

got_number : read 0x1ffc 8 after_number ≡ (done number, (read 0x1ffc 8 after_number).1)
unfolding write disassemble value_byte observe read read_bytes copy_out slice splice mark_words
    assemble write_bytes ensure resident_page canonicalize wraps for_pages pages_of page_walk
    page_base lookup check_permission deref Permission.has_permission copy_in page_key page_at
    store_page change_page mark_dirty list_dirty fresh_generation
got_number = refl

read-write_example : number ≡ mask number (8 * 8)
read-write_example =
    read-write two_pages after_number ((read 0x1ffc 8 after_number).1) 0x1ffc 8 number number
      two_pages-CacheIsValid two_pages-IsCanonical (omega arith) number-IsWords wrote_number
      got_number

assemble-disassemble_example : assemble 0 (disassemble number 0 3) (u128 0 0) ≡ mask number (3 * 8)
assemble-disassemble_example = assemble-disassemble number 3 number-IsWords (omega arith)
