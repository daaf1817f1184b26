-- ===== src/Memory/Op.antt =====
-- include/xdec/exec/memory.h: the public operations of `GuestAddressSpace` with their
-- arguments; `copy` goes on with a copy of the space.
use xdec.Base.{Bool, Option, Result, ℕ, ◌<◌, List, length, All}
use xdec.Bits.{word}
use xdec.U128.{U128}
use xdec.Memory.State.{PageSeed}
use xdec.Memory.Patch.{MemoryPatch}
use xdec.Memory.SafePatch.{IsPatch}

pub data Op : Type 0 where
  map : ℕ → ℕ → ℕ → Op
  seed : ℕ → List ℕ → ℕ → Op
  protect : ℕ → ℕ → ℕ → Op
  unmap : ℕ → ℕ → Op
  read : ℕ → ℕ → Op
  write : ℕ → ℕ → U128 → Op
  read_bytes : ℕ → ℕ → ℕ → Op
  read_resident_bytes : ℕ → ℕ → Op
  write_bytes : ℕ → List ℕ → Op
  refresh : ℕ → ℕ → Op
  dirty_ranges : Op
  clear_dirty : Op
  generation_at : ℕ → Op
  validate : List MemoryPatch → Op
  apply : List MemoryPatch → Op
  set_page_provider : Option (ℕ → Result (Option PageSeed)) → Op
  set_access_observer : Bool → Op
  set_instruction_context : ℕ → Op
  copy : Op

-- Addresses and sizes are of type `uint64_t`.
unfoldable pub IsRequest : Op → Type 0
IsRequest (Op.map address size permissions) = (address < word) × (size < word)
IsRequest (Op.seed address bytes permissions) = (address < word) × (length bytes < word)
IsRequest (Op.protect address size permissions) = (address < word) × (size < word)
IsRequest (Op.unmap address size) = (address < word) × (size < word)
IsRequest (Op.read address size) = address < word
IsRequest (Op.write address size value) = address < word
IsRequest (Op.read_bytes address size permission) = (address < word) × (size < word)
IsRequest (Op.read_resident_bytes address size) = (address < word) × (size < word)
IsRequest (Op.write_bytes address bytes) = (address < word) × (length bytes < word)
IsRequest (Op.refresh address size) = (address < word) × (size < word)
IsRequest Op.dirty_ranges = Unit
IsRequest Op.clear_dirty = Unit
IsRequest (Op.generation_at address) = address < word
IsRequest (Op.validate patches) = All IsPatch patches
IsRequest (Op.apply patches) = All IsPatch patches
IsRequest (Op.set_page_provider provider) = Unit
IsRequest (Op.set_access_observer observing) = Unit
IsRequest (Op.set_instruction_context pc) = pc < word
IsRequest Op.copy = Unit
