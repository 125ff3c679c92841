-- ===== src/Timespec.antt =====
-- src/timespec_codec.cc: `struct timespec` in nanoseconds, its order, its normal form.
-- `time_t`, `long` and `int64_t` are integers, read as 64-bit words where the source converts them:
-- NS_PER_SEC is a uint64_t, so what it meets is converted to uint64_t, modulo 2 ^ 64. A signed
-- operation that would overflow is undefined in the source; here it gives the exact integer. A
-- function that writes through a pointer returns the new value, and a null pointer is `none`.
pub mod Codec
pub mod Order
pub mod Normal
pub mod Text
mod Tests
use fuse_native.Base.{
  ℕ, zero, suc, ◌+◌, ◌-◌, ◌*◌, ◌/◌, ◌%◌, ◌^◌, Bool, true, false, Option, none, some, ltb, leb,
  if◌then◌else◌,
}
use fuse_native.Base.Int.{ℤ, pos, negsuc, neg_part, is_neg, ltb_ℤ, to_u64, to_i64, ◌+ℤ◌, ◌-ℤ◌}

abbrev ns_per_sec : ℕ
ns_per_sec = 1_000_000_000

pub record Timespec : Type 0 where
  pub tv_sec : ℤ
  pub tv_nsec : ℤ

-- static_cast<uint64_t>(tv_sec) * NS_PER_SEC + tv_nsec, on uint64_t.
unfoldable pub epoch_word : Timespec → ℕ
epoch_word ts = (to_u64 ts.tv_sec * ns_per_sec + to_u64 ts.tv_nsec) % 2 ^ 64

-- The number that `timespec_to_ns_bigint` hands to `u64_to_bigint`.
unfoldable pub timespec_to_ns : Timespec → ℕ
timespec_to_ns ts = epoch_word ts

-- What `ns_bigint_to_timespec` does with the number that `bigint_to_u64` reads, or with its refusal.
unfoldable pub ns_to_timespec : Option ℕ → Option Timespec
ns_to_timespec none = none
ns_to_timespec (some ns_epoch) =
    some
      (record { tv_sec = to_i64 (ns_epoch / ns_per_sec); tv_nsec = to_i64 (ns_epoch % ns_per_sec) })

unfoldable pub timespec_add_ns : Timespec → ℤ → Timespec
timespec_add_ns ts ns =
    let total_ns = to_i64 (epoch_word ts) +ℤ ns in
    if is_neg total_ns then record { tv_sec = negsuc 0; tv_nsec = pos 0 } else record {
      tv_sec = to_i64 (to_u64 total_ns / ns_per_sec);
      tv_nsec = to_i64 (to_u64 total_ns % ns_per_sec);
    }

unfoldable pub timespec_compare : Timespec → Timespec → ℤ
timespec_compare a b =
    if ltb_ℤ a.tv_sec b.tv_sec
    then negsuc 0
    else if ltb_ℤ b.tv_sec a.tv_sec
    then pos 1
    else if ltb_ℤ a.tv_nsec b.tv_nsec
    then negsuc 0
    else if ltb_ℤ b.tv_nsec a.tv_nsec
    then pos 1
    else pos 0

unfoldable pub timespec_diff_ns : Timespec → Timespec → ℤ
timespec_diff_ns later earlier = to_i64 (epoch_word later) -ℤ to_i64 (epoch_word earlier)

-- time_t has 64 bits, so the test for 32-bit systems is never made.
unfoldable pub is_valid_timespec : Timespec → Bool
is_valid_timespec ts =
    if is_neg ts.tv_nsec
    then false
    else if leb ns_per_sec (to_u64 ts.tv_nsec)
    then false
    else if is_neg ts.tv_sec
    then false
    else true

-- The second statement of `normalize_timespec`: `while (ts->tv_nsec < 0)`, on fuel.
unfoldable pub borrow : ℕ → Timespec → Timespec
borrow zero ts = ts
borrow (suc fuel) ts =
    let rest = borrow fuel (record {
      tv_sec = ts.tv_sec -ℤ pos 1;
      tv_nsec = to_i64 ((to_u64 ts.tv_nsec + ns_per_sec) % 2 ^ 64);
    }) in
    if is_neg ts.tv_nsec then rest else ts

-- The first: the test, the division and the remainder are all on uint64_t.
unfoldable pub carry : Timespec → Timespec
carry ts =
    if leb ns_per_sec (to_u64 ts.tv_nsec)
    then record {
      tv_sec = ts.tv_sec +ℤ to_i64 (to_u64 ts.tv_nsec / ns_per_sec);
      tv_nsec = to_i64 (to_u64 ts.tv_nsec % ns_per_sec);
    }
    else ts

-- A round of the loop adds at least 1 to a negative `tv_nsec`.
pub normalize_timespec : Timespec → Timespec
normalize_timespec ts = let c = carry ts in borrow (suc (neg_part c.tv_nsec)) c

pub make_timespec : ℤ → ℤ → Timespec
make_timespec sec nsec = normalize_timespec (record { tv_sec = sec; tv_nsec = nsec })

zero_timespec : Option Timespec → Option Timespec
zero_timespec none = none
zero_timespec (some ts) = some (record { tv_sec = pos 0; tv_nsec = pos 0 })

-- `copy_timespec src dst`.
copy_timespec : Timespec → Option Timespec → Option Timespec
copy_timespec src none = none
copy_timespec src (some dst) = some src
