-- ===== src/Timespec/Text/Tests.antt =====
-- Runs of the texts of src/timespec_codec.cc, and the theorem on them at a concrete time.
use fuse_native.Base.{◌≡◌, refl, true, false, some, [], ◌∷◌, arith}
use fuse_native.Base.Int.{pos}
use fuse_native.Timespec.{is_valid_timespec, normalize_timespec, borrow, carry}
use fuse_native.Timespec.Codec.{at}
use fuse_native.Timespec.Text.{
  timespec_to_string, string_to_timespec, read_timespec, digits, stoll, skip_spaces, scan,
  after_spaces, after_sign, in_range, split_at_point, nine_digits,
}
use fuse_native.Timespec.Text.RoundTrip.{string_to_timespec-timespec_to_string}

short_text :
    timespec_to_string (at 12 34)
    ≡ b'1' ∷ b'2' ∷ b'.' ∷ b'0' ∷ b'0' ∷ b'0' ∷ b'0' ∷ b'0' ∷ b'0' ∷ b'0' ∷ b'3' ∷ b'4' ∷ []
unfolding timespec_to_string digits
short_text = refl

no_digits : string_to_timespec (b'x' ∷ []) (some (at 1 2)) ≡ (false, some (at 0 0))
unfolding string_to_timespec read_timespec split_at_point stoll skip_spaces after_spaces after_sign
no_digits = refl

-- What follows the digits is not looked at.
trailing_text : stoll (b' ' ∷ b'+' ∷ b'7' ∷ b'z' ∷ []) ≡ some (pos 7)
unfolding stoll skip_spaces scan after_spaces after_sign in_range
trailing_text = refl

half_second :
    nine_digits (b'5' ∷ []) ≡ b'5' ∷ b'0' ∷ b'0' ∷ b'0' ∷ b'0' ∷ b'0' ∷ b'0' ∷ b'0' ∷ b'0' ∷ []
unfolding nine_digits
half_second = refl

string_to_timespec-timespec_to_string_example :
    string_to_timespec (timespec_to_string (at 1700 5)) (some (at 0 0)) ≡ (true, some (at 1700 5))
string_to_timespec-timespec_to_string_example =
    string_to_timespec-timespec_to_string 1700 5 (at 0 0) (omega arith) (omega arith)

-- 1.5x
trailing_fraction :
    string_to_timespec (b'1' ∷ b'.' ∷ b'5' ∷ b'x' ∷ []) (some (at 0 0)) ≡ (true, some (at 1 5))
unfolding string_to_timespec read_timespec split_at_point nine_digits stoll skip_spaces scan
    after_spaces after_sign in_range is_valid_timespec normalize_timespec borrow carry
trailing_fraction = refl
