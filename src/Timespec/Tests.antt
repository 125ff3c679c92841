-- ===== src/Timespec/Tests.antt =====
-- Runs of the functions of src/timespec_codec.cc, and the theorems at concrete times.
use fuse_native.Base.{ℕ, ◌<◌, ◌≡◌, refl, some, arith}
use fuse_native.Base.Int.{pos, negsuc, ◌+ℤ◌}
use fuse_native.Timespec.{
  epoch_word, timespec_to_ns, ns_to_timespec, timespec_add_ns, normalize_timespec, make_timespec,
  carry, borrow,
}
use fuse_native.Timespec.Codec.{at, timespec_to_ns-ns_to_timespec}

timespec_to_ns-ns_to_timespec_example :
    (sec : ℕ) × (nsec : ℕ) × (ns_to_timespec (some 1_500_000_007) ≡ some (at sec nsec))
    × (nsec < 1_000_000_000)
    × (timespec_to_ns (at sec nsec) ≡ 1_500_000_007)
timespec_to_ns-ns_to_timespec_example = timespec_to_ns-ns_to_timespec 1_500_000_007 (omega arith)

add_borrows : timespec_add_ns (at 2 5) (negsuc 9) ≡ at 1 999_999_995
unfolding timespec_add_ns epoch_word ◌+ℤ◌
add_borrows = refl

-- Five seconds less a nanosecond.
five_less_one : make_timespec (pos 5) (negsuc 0) ≡ at 18_446_744_078 709_551_615
unfolding make_timespec normalize_timespec carry borrow ◌+ℤ◌
five_less_one = refl
