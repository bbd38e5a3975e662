-- ===== src/Common/Bits.antt =====
-- `b | 0x80` of a byte b, in arithmetic.
use nextendo_demonware.Common.{
  ℕ, zero, suc, ◌+◌, ◌%◌, ◌<◌, ◌≡◌, refl, Bool, true, false, ◌==◌, if◌then◌else◌, arith, bit_or,
}

-- Whether setting the top bit adds 128 to the low seven bits, for each number up to the bound.
adds_top_bit : ℕ → Bool
adds_top_bit zero = true
adds_top_bit (suc most) = if bit_or most 0x80 == most % 128 + 128 then adds_top_bit most else false

adds_top_bit_lem :
    (bound b : ℕ) → b < bound → adds_top_bit bound ≡ true → bit_or b 0x80 ≡ b % 128 + 128
unfolding adds_top_bit
adds_top_bit_lem zero b below holds = absurd (omega arith)
adds_top_bit_lem (suc most) b below holds =
    let here : most ≡ b → bit_or b 0x80 ≡ b % 128 + 128 = λ e. ground (arith, e) in
    let there : b < most → bit_or b 0x80 ≡ b % 128 + 128 =
      λ l. adds_top_bit_lem most b l (ground arith) in
    ground (arith, here, there)

pub set_top_bit : (b : ℕ) → b < 256 → bit_or b 0x80 ≡ b % 128 + 128
unfolding adds_top_bit
set_top_bit b h = adds_top_bit_lem 256 b h refl
