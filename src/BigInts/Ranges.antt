-- ===== src/BigInts/Ranges.antt =====
-- The conversions of src/napi_bigint.cc accept exactly the BigInts that 64 bits hold, and keep them.
use fuse_native.Base.{ℕ, ◌^◌, ◌<◌, ◌≡◌, ◌⊎◌, inl, inr, refl, dec_lt, true, false, none, some, arith}
use fuse_native.Base.Int.{ℤ, pos, negsuc, IsI64, to_i64-to_u64}
use fuse_native.BigInts.{
  Value, bigint, other, in_i64, bigint_to_u64, bigint_to_i64, bigint_to_size, bigint_to_offset,
  bigint_to_ino, size_to_bigint, offset_to_bigint, ino_to_bigint, u64_to_bigint, i64_to_bigint,
  is_valid_u64_bigint,
}

IsI64-in_i64 : (z : ℤ) → IsI64 z → in_i64 z ≡ true
IsI64-in_i64 (pos n) h = ground arith
IsI64-in_i64 (negsuc n) h = ground arith

-- Every value of a size_t, an off_t and an ino_t comes back through its BigInt.
conversions_roundtrip :
    (size ino : ℕ) (offset : ℤ)
    → size < 2 ^ 64
    → ino < 2 ^ 64
    → IsI64 offset
    → (bigint_to_size (size_to_bigint size) true ≡ (true, some size))
      × (bigint_to_ino (ino_to_bigint ino) true ≡ (true, some ino))
      × (bigint_to_offset (offset_to_bigint offset) true ≡ (true, some offset))
unfolding bigint_to_size bigint_to_ino bigint_to_offset size_to_bigint ino_to_bigint
    offset_to_bigint u64_to_bigint i64_to_bigint bigint_to_u64 bigint_to_i64
conversions_roundtrip size ino offset h k v =
    (ground arith, ground arith, ground (arith, to_i64-to_u64 offset v, IsI64-in_i64 offset v))

-- What a conversion to size_t accepts is the BigInt of what it writes, and it accepts every BigInt from
-- 0 below 2 ^ 64; all else it refuses, and writes nothing.
pub bigint_to_size_lem :
    (value : Value)
    → ((n : ℕ) × (n < 2 ^ 64)
        × (value ≡ size_to_bigint n)
        × (bigint_to_size value true ≡ (true, some n)))
      ⊎ ((bigint_to_size value true ≡ (false, none)) × (is_valid_u64_bigint value ≡ false))
unfolding bigint_to_size size_to_bigint u64_to_bigint bigint_to_u64 is_valid_u64_bigint
bigint_to_size_lem other = inr (refl, refl)
bigint_to_size_lem (bigint (negsuc n)) = inr (refl, refl)
bigint_to_size_lem (bigint (pos n)) = elim (dec_lt n (2 ^ 64)) [
  | yes h ↦ inl (n, omega arith, refl, ground arith)
  | no h ↦ inr (ground arith, ground arith)
]

in_i64-false : (z : ℤ) → ¬ IsI64 z → in_i64 z ≡ false
in_i64-false (pos n) h = ground (arith, h)
in_i64-false (negsuc n) h = ground (arith, h)

-- The conversion to off_t accepts every BigInt from -2 ^ 63 below 2 ^ 63, and writes its value; every
-- other BigInt, and what is no BigInt, it refuses, and writes nothing.
pub bigint_to_offset_lem :
    (z : ℤ)
    → (IsI64 z → bigint_to_offset (bigint z) true ≡ (true, some z))
      × (¬ IsI64 z → bigint_to_offset (bigint z) true ≡ (false, none))
      × (bigint_to_offset other true ≡ (false, none))
unfolding bigint_to_offset bigint_to_i64
bigint_to_offset_lem z = (
  λ v. ground (arith, to_i64-to_u64 z v, IsI64-in_i64 z v),
  λ h. rw (in_i64-false z h) refl,
  refl,
)
