-- ===== src/Base/Bits.antt =====
-- Binary digits of the native numbers, and the bit operations and shifts read through them.
mod Step
mod Shift
unfoldable pub use Step.{test_bit}
pub use Step.{
  test_bit-zero, test_bit-bit_or, bit_and-two_pow, bit_and-clear_six, two_pow-pos, bit_or-lt,
  bit_and-low_mask,
}
pub use Shift.{test_bit-mul_pow, test_bit-div_pow, test_bit-mod_pow, test_bit-ge}
