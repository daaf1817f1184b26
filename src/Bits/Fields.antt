-- ===== src/Bits/Fields.antt =====
-- include/xdec/support/bits.h: masks, extensions and fields as arithmetic.
use xdec.Base.{ℕ, ◌%◌, ◌^◌, ◌≤◌, ◌<◌, ◌≡◌, arith}
use xdec.Bits.Digits.{bit_and-mask}
use xdec.Bits.{zero_extend}

pub zero_extend-narrow : (v w : ℕ) → w < 64 → zero_extend v w ≡ v % 2 ^ w
unfolding zero_extend
zero_extend-narrow v w h = ground (arith, bit_and-mask w v)

pub zero_extend-wide : (v w : ℕ) → 64 ≤ w → zero_extend v w ≡ v % 2 ^ 64
unfolding zero_extend
zero_extend-wide v w h = ground (arith, bit_and-mask 64 v)
