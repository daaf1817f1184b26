-- ===== src/Memory/Permission.antt =====
-- include/xdec/exec/memory.h: `MemoryPermission`, a set of bits.
use xdec.Base.{ℕ, bit_and, Bool, ◌==◌}

abbrev pub none : ℕ
none = 0

abbrev pub read : ℕ
read = 1

abbrev pub write : ℕ
write = 2

abbrev pub execute : ℕ
execute = 4

unfoldable pub has_permission : ℕ → ℕ → Bool
has_permission permissions query = bit_and permissions query == query
