-- ===== src/Memory/Kind.antt =====
-- include/xdec/exec/memory.h: `MemoryPatch::Kind`.
pub data Kind : Type 0 where
  write map protect unmap : Kind
