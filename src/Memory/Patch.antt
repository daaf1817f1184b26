-- ===== src/Memory/Patch.antt =====
-- src/exec/memory.cpp: `MemoryPatch` with its makers, `validate` and `apply`. The overlay of
-- `validate` maps a changed page to its new permissions, or to nothing if it was unmapped.
use xdec.Base.{
  ℕ, Bool, true, false, ◌&&◌, Option, none, some, List, [], ◌∷◌, ltb, ◌==◌, if◌then◌else◌, length,
  DiagCode, diag, diag_at,
}
use xdec.Memory.Kind.{Kind}
use xdec.Memory.Permission
use xdec.Memory.Permission.{has_permission}
use xdec.Memory.State.{
  Space, M, done, failed, fault, pure, fail, ◌>>=◌, ◌>>◌, page_size, canonicalize, wraps, pages_of,
}
use xdec.Memory.Paging.{ensure, map, protect, unmap, poke_all}
use xdec.Memory.Access.{write_bytes}

pub record MemoryPatch : Type 0 where
  pub kind : Kind
  pub address : ℕ
  pub size : ℕ
  pub permissions : ℕ
  pub bytes : List ℕ

unfoldable pub write_patch : ℕ → List ℕ → MemoryPatch
write_patch address bytes = record {
  kind = Kind.write;
  address = address;
  size = length bytes;
  permissions = Permission.none;
  bytes = bytes;
}

unfoldable pub map_patch : ℕ → ℕ → ℕ → List ℕ → MemoryPatch
map_patch address size permissions initial = record {
  kind = Kind.map;
  address = address;
  size = size;
  permissions = permissions;
  bytes = initial;
}

unfoldable pub protect_patch : ℕ → ℕ → ℕ → MemoryPatch
protect_patch address size permissions = record {
  kind = Kind.protect;
  address = address;
  size = size;
  permissions = permissions;
  bytes = [];
}

unfoldable pub unmap_patch : ℕ → ℕ → MemoryPatch
unmap_patch address size = record {
  kind = Kind.unmap;
  address = address;
  size = size;
  permissions = Permission.none;
  bytes = [];
}

abbrev pub Overlay : Type 0
Overlay = ℕ → Option (Option ℕ)

abbrev pub no_changes : Overlay
no_changes page = none

abbrev pub set_overlay : Overlay → ℕ → Option ℕ → Overlay
set_overlay o page value j = if j == page then some value else o j

unfoldable pub permission_at : Overlay → Space → ℕ → Option ℕ
permission_at o s page = elim (o page) [
  | some changed ↦ changed
  | none ↦ elim (s.pages page) [ none ↦ none | some p ↦ some p.permissions ]
]

-- A refused `ensure` is not an error here, only no page.
unfoldable pub attempt : M (Unit {0}) → M (Unit {0})
attempt m s =
    let (r, t) = m s in (elim r [ done u ↦ done tt | failed d ↦ done tt | fault ↦ fault ], t)

unfoldable pub writable : Option ℕ → Bool
writable none = false
writable (some permissions) = has_permission permissions Permission.write

unfoldable pub check_write : Overlay → ℕ → M (Unit {0})
check_write o page = do
  before ← λ s. (done (permission_at o s page), s)
  elim before [ none ↦ attempt (ensure page page_size Permission.write) | some p ↦ pure tt ]
  current ← λ s. (done (permission_at o s page), s)
  if writable current then pure tt else fail (diag_at DiagCode.out_of_range page)

-- One page of one patch: the overlay that the next page sees.
unfoldable pub validate_page : MemoryPatch → Overlay → ℕ → M Overlay
validate_page patch o page = do
  current ← λ s. (done (permission_at o s page), s)
  elim patch.kind [
    | Kind.write ↦ (check_write o page >> pure o)
    | Kind.map ↦ elim current [
      | some p ↦ fail (diag_at DiagCode.bad_format page)
      | none ↦ pure (set_overlay o page (some patch.permissions))
    ]
    | Kind.protect ↦ elim current [
      | none ↦ fail (diag_at DiagCode.unmapped_address page)
      | some p ↦ pure (set_overlay o page (some patch.permissions))
    ]
    | Kind.unmap ↦ elim current [
      | none ↦ fail (diag_at DiagCode.unmapped_address page)
      | some p ↦ pure (set_overlay o page none)
    ]
  ]

unfoldable pub validate_pages : MemoryPatch → Overlay → List ℕ → M Overlay
validate_pages patch o [] = pure o
validate_pages patch o (page ∷ rest) = do
  o' ← validate_page patch o page
  validate_pages patch o' rest

abbrev pub is_write : Kind → Bool
is_write k = elim k [ Kind.write ↦ true | _ ↦ false ]

abbrev pub is_map : Kind → Bool
is_map k = elim k [ Kind.map ↦ true | _ ↦ false ]

unfoldable pub patch_size : MemoryPatch → ℕ
patch_size patch = if is_write patch.kind then length patch.bytes else patch.size

unfoldable pub validate_patch : MemoryPatch → Overlay → M Overlay
validate_patch patch o s =
    let address = canonicalize s patch.address in
    let size = patch_size patch in
    if is_map patch.kind && ltb size (length patch.bytes)
    then (failed (diag DiagCode.bad_format), s)
    else if size == 0
    then (done o, s)
    else if wraps address size
    then (failed (diag DiagCode.out_of_range), s)
    else validate_pages patch o (pages_of address size) s

unfoldable pub validate_from : Overlay → List MemoryPatch → M (Unit {0})
validate_from o [] = pure tt
validate_from o (patch ∷ rest) = do o' ← validate_patch patch o; validate_from o' rest

unfoldable pub validate : List MemoryPatch → M (Unit {0})
validate patches = validate_from no_changes patches

unfoldable pub apply_map : MemoryPatch → M (Unit {0})
apply_map patch s =
    if ltb patch.size (length patch.bytes)
    then (failed (diag DiagCode.bad_format), s)
    else (map patch.address patch.size patch.permissions >> λ t.
          poke_all (canonicalize t patch.address) patch.bytes t)
        s

unfoldable pub apply_patch : MemoryPatch → M (Unit {0})
apply_patch patch = elim patch.kind [
  | Kind.write ↦ write_bytes patch.address patch.bytes
  | Kind.map ↦ apply_map patch
  | Kind.protect ↦ protect patch.address patch.size patch.permissions
  | Kind.unmap ↦ unmap patch.address patch.size
]

unfoldable pub apply_all : List MemoryPatch → M (Unit {0})
apply_all [] = pure tt
apply_all (patch ∷ rest) = apply_patch patch >> apply_all rest

unfoldable pub apply : List MemoryPatch → M (Unit {0})
apply patches = validate patches >> apply_all patches
