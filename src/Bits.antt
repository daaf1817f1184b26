-- ===== src/Bits.antt =====
-- include/xdec/support/bits.h: 64-bit words as native numbers below `2 ^ 64`. A left shift drops
-- what leaves the word, `~` is the exclusive or with 64 ones, and `unsigned` arithmetic on widths
-- stays below `2 ^ 32` in every call modelled here.
pub mod Digits
pub mod Same
pub mod Fields
pub mod Powers
pub mod Clear
use xdec.Base.{
  ℕ, zero, suc, ◌+◌, ◌-◌, ◌*◌, ◌/◌, ◌%◌, ◌^◌, bit_and, bit_or, bit_xor, Bool, true, false, not,
  ◌&&◌, ◌||◌, ltb, leb, ◌==◌, ◌/=◌, if◌then◌else◌,
}

abbrev pub word : ℕ
word = 2 ^ 64

abbrev pub all_ones : ℕ
all_ones = 2 ^ 64 - 1

abbrev pub wrap : ℕ → ℕ
wrap n = n % 2 ^ 64

infixl 70 ◌<<◌ ◌>>◌
abbrev pub ◌<<◌ : ℕ → ℕ → ℕ
x << k = wrap (x * 2 ^ k)

abbrev pub ◌>>◌ : ℕ → ℕ → ℕ
x >> k = x / 2 ^ k

abbrev pub complement : ℕ → ℕ
complement x = bit_xor x all_ones

-- `a - b` on `uint64_t`.
abbrev pub sub64 : ℕ → ℕ → ℕ
sub64 a b = wrap (a + word - b)

unfoldable pub low_mask : ℕ → ℕ
low_mask width = if leb 64 width then all_ones else 2 ^ width - 1

unfoldable pub zero_extend : ℕ → ℕ → ℕ
unfolding low_mask
zero_extend value width = bit_and value (low_mask width)

-- The result is the bit pattern of the signed value.
unfoldable pub sign_extend : ℕ → ℕ → ℕ
unfolding low_mask
sign_extend value width =
    if width == 0 || leb 64 width
    then value
    else (let masked = bit_and value (low_mask width) in
        let sign_bit = 1 << (width - 1) in sub64 (bit_xor masked sign_bit) sign_bit)

unfoldable pub sign_extend_to : ℕ → ℕ → ℕ → ℕ
unfolding sign_extend zero_extend
sign_extend_to value from_width to_width = zero_extend (sign_extend value from_width) to_width

unfoldable pub extract_bits : ℕ → ℕ → ℕ → ℕ
unfolding zero_extend
extract_bits value lo width = if leb 64 lo then 0 else zero_extend (value >> lo) width

unfoldable pub test_bit : ℕ → ℕ → Bool
test_bit value bit = ltb bit 64 && (bit_and (value >> bit) 1 /= 0)

unfoldable pub insert_bits : ℕ → ℕ → ℕ → ℕ → ℕ
unfolding low_mask
insert_bits dest field lo width =
    let mask = low_mask width << lo in
    bit_or (bit_and dest (complement mask)) (bit_and (field << lo) mask)

unfoldable pub rotate_right : ℕ → ℕ → ℕ → ℕ
unfolding zero_extend
rotate_right value width amount =
    let v = zero_extend value width in
    let amt = amount % width in
    if width == 0
    then 0
    else if amt == 0
    then v
    else zero_extend (bit_or (v >> amt) (v << (width - amt))) width

unfoldable pub rotate_left : ℕ → ℕ → ℕ → ℕ
unfolding rotate_right
rotate_left value width amount =
    if width == 0 then 0 else rotate_right value width (width - amount % width)

unfoldable pub is_power_of_two : ℕ → Bool
is_power_of_two value = (value /= 0) && (bit_and value (sub64 value 1) == 0)

unfoldable pub align_up : ℕ → ℕ → ℕ
align_up value alignment =
    bit_and (sub64 (wrap (value + alignment)) 1) (complement (sub64 alignment 1))

unfoldable pub align_down : ℕ → ℕ → ℕ
align_down value alignment = bit_and value (complement (sub64 alignment 1))

-- `std::countl_zero` and `std::countr_zero` of C++ on a word of `bits` digits.
unfoldable pub countl_zero : ℕ → ℕ → ℕ
countl_zero zero v = 0
countl_zero (suc bits) v = if leb (2 ^ bits) v then 0 else suc (countl_zero bits v)

unfoldable pub countr_zero : ℕ → ℕ → ℕ
countr_zero zero v = 0
countr_zero (suc bits) v = if v % 2 == 1 then 0 else suc (countr_zero bits (v / 2))

unfoldable pub popcount : ℕ → ℕ → ℕ
popcount zero v = 0
popcount (suc bits) v = v % 2 + popcount bits (v / 2)

unfoldable pub count_ones : ℕ → ℕ
unfolding popcount
count_ones value = popcount 64 value

unfoldable pub count_trailing_zeros : ℕ → ℕ
unfolding countr_zero
count_trailing_zeros value = if value == 0 then 64 else countr_zero 64 value

unfoldable pub count_leading_zeros : ℕ → ℕ → ℕ
unfolding zero_extend countl_zero
count_leading_zeros value width =
    let v = zero_extend value width in
    if width == 0 || ltb 64 width
    then 0
    else if v == 0
    then width
    else countl_zero 64 v - (64 - width)

unfoldable pub significant_bits : ℕ → ℕ
unfolding countl_zero
significant_bits value = if value == 0 then 0 else 64 - countl_zero 64 value

-- The loop of `replicate`: `shift` runs over the multiples of the element's width below the total.
unfoldable pub replicate_loop : ℕ → ℕ → ℕ → ℕ → ℕ → ℕ → ℕ
replicate_loop zero element element_width total_width shift result = result
replicate_loop (suc fuel) element element_width total_width shift result =
    let rest =
      replicate_loop fuel element element_width total_width (shift + element_width)
        (bit_or result (element << shift)) in
    if ltb shift total_width then rest else result

unfoldable pub replicate_bits : ℕ → ℕ → ℕ → ℕ
unfolding zero_extend replicate_loop
replicate_bits value element_width total_width =
    let element = zero_extend value element_width in
    if element_width == 0 || ltb 64 element_width
    then 0
    else zero_extend (replicate_loop total_width element element_width total_width 0 0) total_width

unfoldable pub byte_swap16 : ℕ → ℕ
byte_swap16 v = bit_or (v >> 8) (v * 2 ^ 8) % 2 ^ 16

unfoldable pub byte_swap32 : ℕ → ℕ
byte_swap32 v =
    bit_or
      (bit_or
        (bit_or (bit_and v 0x000000ff * 2 ^ 24 % 2 ^ 32) (bit_and v 0x0000ff00 * 2 ^ 8 % 2 ^ 32))
        (bit_and v 0x00ff0000 >> 8))
      (bit_and v 0xff000000 >> 24)

unfoldable pub byte_swap64 : ℕ → ℕ
unfolding byte_swap32
byte_swap64 v = bit_or (byte_swap32 (v % 2 ^ 32) << 32) (byte_swap32 ((v >> 32) % 2 ^ 32))

unfoldable pub byte_swap_width : ℕ → ℕ → ℕ
unfolding byte_swap64
byte_swap_width value width = byte_swap64 value >> (64 - width)
