-- ===== src/Timespec/Order.antt =====
-- `timespec_compare` and `timespec_diff_ns` of src/timespec_codec.cc.
use fuse_native.Base.{ℕ, ◌+◌, ◌*◌, ◌^◌, ◌<◌, ◌≡◌, ◌↔◌, arith, min}
use fuse_native.Base.Int.{ℤ, pos, negsuc, ◌-ℤ◌, negate, eq_of_parts}
use fuse_native.Timespec.{Timespec, timespec_compare, timespec_diff_ns}
use fuse_native.Timespec.Codec.{at, epoch_word-at}

-- `timespec_compare` is a total order: 0 exactly for equal times, swapped arguments give the opposite
-- sign, and -1 is transitive.
timespec_compare_order :
    (a b c : Timespec)
    → ((timespec_compare a b ≡ pos 0) ↔ (a ≡ b))
      × (timespec_compare b a ≡ negate (timespec_compare a b))
      × (timespec_compare a b ≡ negsuc 0
          → timespec_compare b c ≡ negsuc 0
          → timespec_compare a c ≡ negsuc 0)
unfolding timespec_compare
timespec_compare_order a b c = (
  (
    ground (arith, eq_of_parts a.tv_sec b.tv_sec, eq_of_parts a.tv_nsec b.tv_nsec),
    λ e. rw e (ground arith),
  ),
  ground arith,
  ground arith,
)

-- The sign of an integer, as `timespec_compare` gives it.
abbrev pub sign : ℤ → ℤ
sign (pos n) = pos (min n 1)
sign (negsuc n) = negsuc 0

-- Of two times that are not before 1970, with less than a second in `tv_nsec` and fewer than 2 ^ 63
-- nanoseconds, the order is the sign of the difference.
timespec_compare-timespec_diff_ns :
    (s n s' n' : ℕ)
    → n < 1_000_000_000
    → n' < 1_000_000_000
    → s * 1_000_000_000 + n < 2 ^ 63
    → s' * 1_000_000_000 + n' < 2 ^ 63
    → timespec_compare (at s n) (at s' n') ≡ sign (timespec_diff_ns (at s n) (at s' n'))
unfolding timespec_compare timespec_diff_ns ◌-ℤ◌
timespec_compare-timespec_diff_ns s n s' n' h h' k k' =
    rw (epoch_word-at s n (omega arith), epoch_word-at s' n' (omega arith)) (ground arith)
