-- ===== src/Init/Bits.antt =====
-- Bits of 32-bit words: what `capable & (1u << i)` of src/init_bridge.cc reads.
use fuse_native.Base.{ℕ, zero, suc, ◌+◌, ◌*◌, ◌/◌, ◌%◌, ◌^◌, ◌≤◌, ◌<◌, ◌≡◌, refl, ap, arith}
use fuse_native.Init.{and_bits}

-- The number without its lowest `i` bits, and its bit `i`.
abbrev pub shift : ℕ → ℕ → ℕ
shift zero a = a
shift (suc i) a = shift i (a / 2)

abbrev pub bit : ℕ → ℕ → ℕ
bit i a = shift i a % 2

shift-suc : (i a : ℕ) → shift (suc i) a ≡ shift i a / 2
shift-suc zero a = refl
shift-suc (suc i) a = shift-suc i (a / 2)

double_pow : (i : ℕ) → 2 ^ suc i ≡ 2 * 2 ^ i
double_pow i = omega arith

pub pow_pos : (i : ℕ) → 0 < 2 ^ i
pow_pos zero = omega arith
pow_pos (suc i) = omega (arith, double_pow i, pow_pos i)

-- Of any width, nothing in common with 0; and with 1 the lowest bit.
and_bits-zero : (width a : ℕ) → and_bits width a 0 ≡ 0
unfolding and_bits
and_bits-zero zero a = refl
and_bits-zero (suc width) a = omega (arith, and_bits-zero width (a / 2))

-- A mask of one bit below the width leaves this bit.
pub and_bits-pow : (width i a : ℕ) → i < width → and_bits width a (2 ^ i) ≡ bit i a * 2 ^ i
unfolding and_bits
and_bits-pow zero i a h = absurd (omega arith)
and_bits-pow (suc width) zero a h = omega (arith, and_bits-zero width (a / 2))
and_bits-pow (suc width) (suc i) a h =
    let half : 2 * 2 ^ i / 2 ≡ 2 ^ i = omega arith in
    let even : 2 * 2 ^ i % 2 ≡ 0 = omega arith in
    rw (double_pow i) (rw half (omega (arith, even, and_bits-pow width i (a / 2) (omega arith))))

halves : (b p : ℕ) → b * p ≡ b % 2 * p + b / 2 * (2 * p)
halves b p = let e : b ≡ b % 2 + b / 2 * 2 = omega arith in omega (arith, ap (λ (t : ℕ). t * p) e)

-- What is above bit `i`, with that bit.
pub shift_split : (i a : ℕ) → shift i a * 2 ^ i ≡ bit i a * 2 ^ i + shift (suc i) a * 2 ^ suc i
shift_split i a = rw (shift-suc i a) (rw (double_pow i) (halves (shift i a) (2 ^ i)))

pub shift-le : (i a : ℕ) → shift i a * 2 ^ i ≤ a
shift-le zero a = omega arith
shift-le (suc i) a = omega (arith, shift_split i a, shift-le i a)
