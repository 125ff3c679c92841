-- ===== src/BigInts.antt =====
-- src/napi_bigint.cc: 64-bit numbers as BigInts and back. Node's napi_get_value_bigint_uint64 and its
-- signed form give the value modulo 2 ^ 64 and whether that is the value; this is how `to_u64` and
-- `to_i64` are used here. Node makes every BigInt that it is asked for; size_t, off_t and ino_t have 64
-- bits. What a conversion writes stays written where it reports failure.
pub mod Ranges
mod Tests
use fuse_native.Base.{ℕ, ◌-◌, ◌^◌, Bool, true, false, Option, none, some, ltb, if◌then◌else◌}
use fuse_native.Base.Int.{ℤ, pos, negsuc, to_u64, to_i64, ltb_ℤ}

pub data Value : Type 0 where
  bigint : ℤ → Value
  other : Value

-- Whether a 64-bit number is the BigInt, unsigned and signed.
abbrev pub in_u64 : ℤ → Bool
in_u64 (pos n) = ltb n (2 ^ 64)
in_u64 (negsuc n) = false

abbrev pub in_i64 : ℤ → Bool
in_i64 (pos n) = ltb n (2 ^ 63)
in_i64 (negsuc n) = ltb n (2 ^ 63)

-- What a conversion returns, and what it has written, where it has written.
abbrev pub Converted : Type 0 → Type 0
Converted A = Bool × Option A

unfoldable pub u64_to_bigint : ℕ → Value
u64_to_bigint n = bigint (pos n)

unfoldable pub i64_to_bigint : ℤ → Value
i64_to_bigint z = bigint z

-- `has_result` is whether the pointer for the result is not null.
unfoldable pub bigint_to_u64 : Value → Bool → Converted ℕ
bigint_to_u64 value false = (false, none)
bigint_to_u64 other true = (false, none)
bigint_to_u64 (bigint z) true = (in_u64 z, some (to_u64 z))

unfoldable pub bigint_to_i64 : Value → Bool → Converted ℤ
bigint_to_i64 value false = (false, none)
bigint_to_i64 other true = (false, none)
bigint_to_i64 (bigint z) true = (in_i64 z, some (to_i64 (to_u64 z)))

abbrev pub is_bigint : Value → Bool
is_bigint (bigint z) = true
is_bigint other = false

unfoldable pub is_valid_u64_bigint : Value → Bool
is_valid_u64_bigint value = if is_bigint value then (bigint_to_u64 value true).0 else false

unfoldable pub is_valid_i64_bigint : Value → Bool
is_valid_i64_bigint value = if is_bigint value then (bigint_to_i64 value true).0 else false

unfoldable pub safe_u64_to_bigint : ℕ → Bool → Bool × Option Value
safe_u64_to_bigint n false = (false, none)
safe_u64_to_bigint n true = (true, some (u64_to_bigint n))

unfoldable pub safe_i64_to_bigint : ℤ → Bool → Bool × Option Value
safe_i64_to_bigint z false = (false, none)
safe_i64_to_bigint z true = (true, some (i64_to_bigint z))

unfoldable pub safe_bigint_to_u64 : Value → Bool → Converted ℕ
safe_bigint_to_u64 value has_result = bigint_to_u64 value has_result

unfoldable pub safe_bigint_to_i64 : Value → Bool → Converted ℤ
safe_bigint_to_i64 value has_result = bigint_to_i64 value has_result

unfoldable pub size_to_bigint : ℕ → Value
size_to_bigint n = u64_to_bigint n

-- The conversions through a local variable, which has to be below a limit: they write only on success.
abbrev pub checked_u64 : ℕ → Converted ℕ → Converted ℕ
checked_u64 limit (true, some n) = if ltb limit n then (false, none) else (true, some n)
checked_u64 limit _ = (false, none)

abbrev pub checked_i64 : ℤ → ℤ → Converted ℤ → Converted ℤ
checked_i64 low high (true, some z) =
    if ltb_ℤ z low then (false, none) else if ltb_ℤ high z then (false, none) else (true, some z)
checked_i64 low high _ = (false, none)

unfoldable pub bigint_to_size : Value → Bool → Converted ℕ
bigint_to_size value false = (false, none)
bigint_to_size value true = checked_u64 (2 ^ 64 - 1) (bigint_to_u64 value true)

unfoldable pub offset_to_bigint : ℤ → Value
offset_to_bigint z = i64_to_bigint z

unfoldable pub bigint_to_offset : Value → Bool → Converted ℤ
bigint_to_offset value false = (false, none)
bigint_to_offset value true =
    checked_i64 (negsuc (2 ^ 63 - 1)) (pos (2 ^ 63 - 1)) (bigint_to_i64 value true)

unfoldable pub ino_to_bigint : ℕ → Value
ino_to_bigint n = u64_to_bigint n

unfoldable pub bigint_to_ino : Value → Bool → Converted ℕ
bigint_to_ino value false = (false, none)
bigint_to_ino value true = checked_u64 (2 ^ 64 - 1) (bigint_to_u64 value true)
