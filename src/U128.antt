-- ===== src/U128.antt =====
-- src/il/u128.h: values of up to 128 bits as two words, and the operations that the constant
-- folder and the interpreter share. A `bool&` result is a second component, `int` comparisons
-- return `Ordering`, and shifts in C++ by the word size or more, which the code never reaches,
-- are not given a meaning of their own.
pub mod Value
pub mod Shift
pub mod Product
pub mod Arith
use Prim.Native.Nat.{Ordering, compare}
use xdec.Base.{
  ℕ, zero, suc, ◌+◌, ◌-◌, ◌*◌, ◌/◌, ◌%◌, ◌^◌, bit_and, bit_or, bit_xor, Bool, true, false, not,
  ◌&&◌, ◌||◌, ltb, leb, ◌==◌, ◌/=◌, if◌then◌else◌,
}
use xdec.Bits.{
  word, wrap, all_ones, ◌<<◌, ◌>>◌, complement, sub64, low_mask, countl_zero, countr_zero,
  count_leading_zeros,
}

pub record U128 : Type 0 where
  pub lo : ℕ
  pub hi : ℕ

abbrev pub u128 : ℕ → ℕ → U128
u128 lo hi = record { lo = lo; hi = hi }

abbrev pub bool_word : Bool → ℕ
bool_word true = 1
bool_word false = 0

unfoldable pub mask_of : ℕ → U128
unfolding low_mask
mask_of width =
    u128 (if leb 64 width then all_ones else low_mask width)
      (if leb width 64 then 0 else low_mask (width - 64))

unfoldable pub mask : U128 → ℕ → U128
unfolding mask_of
mask v width = u128 (bit_and v.lo (mask_of width).lo) (bit_and v.hi (mask_of width).hi)

unfoldable pub sign_bit : U128 → ℕ → Bool
sign_bit v width =
    if ltb 64 width
    then bit_and (v.hi >> (width - 65)) 1 /= 0
    else (bit_and (v.lo >> (width - 1)) 1 /= 0)

unfoldable pub add : U128 → U128 → ℕ → U128 × Bool
add a b width =
    let lo = wrap (a.lo + b.lo) in
    let carry_lo = ltb lo a.lo in
    let hi_sum = wrap (a.hi + b.hi) in
    let c1 = ltb hi_sum a.hi in
    let hi = wrap (hi_sum + bool_word carry_lo) in
    let c2 = ltb hi hi_sum in (mask (u128 lo hi) width, c1 || c2)

unfoldable pub sub : U128 → U128 → ℕ → U128
sub a b width =
    mask (u128 (sub64 a.lo b.lo) (sub64 (sub64 a.hi b.hi) (bool_word (ltb a.lo b.lo)))) width

unfoldable pub shl : U128 → ℕ → ℕ → U128
shl v width amount =
    if amount == 0
    then mask v width
    else if leb width amount
    then u128 0 0
    else if leb 64 amount
    then mask (u128 0 (v.lo << (amount - 64))) width
    else mask (u128 (v.lo << amount) (bit_or (v.hi << amount) (v.lo >> (64 - amount)))) width

unfoldable pub shr_u : U128 → ℕ → ℕ → U128
shr_u v width amount =
    if amount == 0
    then mask v width
    else if leb width amount
    then u128 0 0
    else if leb 64 amount
    then u128 (v.hi >> (amount - 64)) 0
    else u128 (bit_or (v.lo >> amount) (v.hi << (64 - amount))) (v.hi >> amount)

unfoldable pub shr_s : U128 → ℕ → ℕ → U128
shr_s v width amount =
    let sign = sign_bit v width in
    let r = shr_u v width amount in
    let fill = shl (mask_of width) width (width - amount) in
    if leb width amount
    then (if sign then mask_of width else u128 0 0)
    else mask (if sign && ltb 0 amount then u128 (bit_or r.lo fill.lo) (bit_or r.hi fill.hi) else r)
        width

unfoldable pub rot_r : U128 → ℕ → ℕ → U128
rot_r v width amount =
    let n = amount % width in
    let right = shr_u v width n in
    let left = shl v width (width - n) in
    if n == 0
    then mask v width
    else mask (u128 (bit_or right.lo left.lo) (bit_or right.hi left.hi)) width

unfoldable pub rot_l : U128 → ℕ → ℕ → U128
rot_l v width amount = rot_r v width (width - amount % width)

-- -1, 0 and 1 are `lt`, `eq` and `gt`.
unfoldable pub cmp_u : U128 → U128 → Ordering
cmp_u a b =
    if a.hi /= b.hi
    then (if ltb a.hi b.hi then Ordering.lt else Ordering.gt)
    else if a.lo /= b.lo
    then (if ltb a.lo b.lo then Ordering.lt else Ordering.gt)
    else Ordering.eq

unfoldable pub cmp_s : U128 → U128 → ℕ → Ordering
cmp_s a b width =
    let flip = shl (u128 1 0) width (width - 1) in
    cmp_u (u128 (bit_xor a.lo flip.lo) (bit_xor a.hi flip.hi))
      (u128 (bit_xor b.lo flip.lo) (bit_xor b.hi flip.hi))

-- The result is the pair (hi, lo).
unfoldable pub mul64x64 : ℕ → ℕ → ℕ × ℕ
mul64x64 a b =
    let a0 = a % 2 ^ 32 in
    let a1 = a >> 32 in
    let b0 = b % 2 ^ 32 in
    let b1 = b >> 32 in
    let p0 = wrap (a0 * b0) in
    let p1 = wrap (a0 * b1) in
    let p2 = wrap (a1 * b0) in
    let p3 = wrap (a1 * b1) in
    let mid = wrap (p1 + p2) in
    let mid_carry = bool_word (ltb mid p1) in
    let lo = wrap (p0 + (mid << 32)) in
    let lo_carry = bool_word (ltb lo p0) in
    let hi = wrap (wrap (wrap (p3 + (mid >> 32)) + (mid_carry << 32)) + lo_carry) in (hi, lo)

unfoldable pub mul_low : U128 → U128 → ℕ → U128
mul_low a b width =
    let product = mul64x64 a.lo b.lo in
    mask (u128 product.1 (wrap (wrap (product.0 + wrap (a.lo * b.hi)) + wrap (a.hi * b.lo)))) width

unfoldable pub extract : U128 → ℕ → ℕ → ℕ → U128
extract source source_width offset width = mask (shr_u source source_width offset) width

unfoldable pub insert : U128 → U128 → ℕ → ℕ → ℕ → U128
insert dest field offset width dest_width =
    let shifted = shl field dest_width offset in
    let cleared = mask (shl (mask_of width) dest_width offset) dest_width in
    let kept =
      u128 (bit_and dest.lo (complement cleared.lo)) (bit_and dest.hi (complement cleared.hi)) in
    mask (u128 (bit_or kept.lo shifted.lo) (bit_or kept.hi shifted.hi)) dest_width

unfoldable pub zext : U128 → ℕ → ℕ → U128
unfolding mask
zext v from_width to_width = mask v from_width

unfoldable pub sext : U128 → ℕ → ℕ → U128
sext v from_width to_width =
    let m = mask v from_width in
    let fill =
      u128 (bit_xor (mask_of from_width).lo (mask_of to_width).lo)
        (bit_xor (mask_of from_width).hi (mask_of to_width).hi) in
    if sign_bit m from_width
    then mask (u128 (bit_or m.lo fill.lo) (bit_or m.hi fill.hi)) to_width
    else m

unfoldable pub clz_of : U128 → ℕ → ℕ
clz_of v width =
    let m = mask v width in
    if ltb 64 width
    then (if m.hi /= 0
        then countl_zero 64 m.hi - (128 - width)
        else width - 64 + countl_zero 64 m.lo)
    else count_leading_zeros m.lo width

unfoldable pub ctz_of : U128 → ℕ → ℕ
ctz_of v width =
    let m = mask v width in
    if m.lo /= 0
    then countr_zero 64 m.lo
    else if (m.hi /= 0) && ltb 64 width
    then 64 + countr_zero 64 m.hi
    else width

-- The loop of `bswapOf` from `index` on, with the rounds that are left.
unfoldable pub bswap_loop : ℕ → ℕ → ℕ → U128 → U128 → U128
bswap_loop zero index bytes v result = result
bswap_loop (suc rounds) index bytes v result =
    let shift = (bytes - 1 - index) * 8 in
    let byte =
      if ltb index 8
      then bit_and (v.lo >> (index * 8)) 0xff
      else bit_and (v.hi >> ((index - 8) * 8)) 0xff in
    bswap_loop rounds (index + 1) bytes v (
      if ltb shift 64
      then u128 (bit_or result.lo (byte << shift)) result.hi
      else u128 result.lo (bit_or result.hi (byte << (shift - 64))))

unfoldable pub bswap_of : U128 → ℕ → U128
bswap_of v width = mask (bswap_loop (width / 8) 0 (width / 8) v (u128 0 0)) width

unfoldable pub brev_loop : ℕ → ℕ → ℕ → U128 → U128 → U128
brev_loop zero bit width v result = result
brev_loop (suc rounds) bit width v result =
    let set =
      if ltb bit 64 then bit_and (v.lo >> bit) 1 /= 0 else (bit_and (v.hi >> (bit - 64)) 1 /= 0) in
    let target = width - 1 - bit in
    brev_loop rounds (bit + 1) width v (
      if not set
      then result
      else if ltb target 64
      then u128 (bit_or result.lo (1 << target)) result.hi
      else u128 result.lo (bit_or result.hi (1 << (target - 64))))

unfoldable pub brev_of : U128 → ℕ → U128
brev_of v width = brev_loop width 0 width v (u128 0 0)
