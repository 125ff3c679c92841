-- ===== src/Timespec/Text.antt =====
-- The texts of src/timespec_codec.cc, as bytes: `timespec_to_string` and `string_to_timespec`, with
-- what they use of snprintf and of std::stoll. A loop on decimal digits has one round more than the
-- number, and each round divides it by 10.
pub mod RoundTrip
mod Tests
use fuse_native.Base.{
  ℕ, zero, suc, ◌+◌, ◌-◌, ◌*◌, ◌/◌, ◌%◌, ◌^◌, Bool, true, false, not, ◌&&◌, ◌||◌, Option, none,
  some, List, [], ◌∷◌, ◌++◌, ltb, leb, ◌==◌, if◌then◌else◌, length, take, replicate, map,
}
use fuse_native.Base.Int.{ℤ, pos, negsuc}
use fuse_native.Timespec.{Timespec, normalize_timespec, is_valid_timespec}

-- The digits of `n` before those of `out`.
unfoldable pub digits : ℕ → ℕ → List ℕ → List ℕ
digits zero n out = out
digits (suc fuel) n out =
    let rest = digits fuel (n / 10) ((b'0' + n % 10) ∷ out) in
    if ltb n 10 then (b'0' + n) ∷ out else rest

abbrev pub decimal : ℕ → List ℕ
decimal n = digits (suc n) n []

-- %ld
abbrev pub signed_decimal : ℤ → List ℕ
signed_decimal (pos n) = decimal n
signed_decimal (negsuc n) = b'-' ∷ decimal (suc n)

abbrev pub zeros_before : ℕ → List ℕ → List ℕ
zeros_before width ds = replicate (width - length ds) b'0' ++ ds

-- %09ld, where the sign counts.
abbrev pub padded : ℤ → List ℕ
padded (pos n) = zeros_before 9 (decimal n)
padded (negsuc n) = b'-' ∷ zeros_before 8 (decimal (suc n))

-- At most 41 bytes, so that the buffer of 64 is large enough.
unfoldable pub timespec_to_string : Timespec → List ℕ
timespec_to_string ts = signed_decimal ts.tv_sec ++ b'.' ∷ padded ts.tv_nsec

abbrev pub is_digit : ℕ → Bool
is_digit c = leb b'0' c && leb c b'9'

abbrev pub is_space : ℕ → Bool
is_space c = c == 32 || (leb 9 c && leb c 13)

unfoldable pub skip_spaces : List ℕ → List ℕ
skip_spaces [] = []
skip_spaces (c ∷ cs) = let rest = skip_spaces cs in if is_space c then rest else c ∷ cs

-- The number that the digits at the front of a text go on with.
unfoldable pub scan : ℕ → List ℕ → ℕ
scan n [] = n
scan n (c ∷ cs) = let rest = scan (n * 10 + (c - b'0')) cs in if is_digit c then rest else n

abbrev pub starts_with_digit : List ℕ → Bool
starts_with_digit [] = false
starts_with_digit (c ∷ cs) = is_digit c

-- The value of digits under a sign: `none` is std::invalid_argument or std::out_of_range.
unfoldable pub in_range : Bool → ℕ → Option ℤ
in_range false n = if ltb n (2 ^ 63) then some (pos n) else none
in_range true zero = some (pos 0)
in_range true (suc n) = if ltb n (2 ^ 63) then some (negsuc n) else none

unfoldable pub after_sign : Bool → List ℕ → Option ℤ
after_sign negative cs = if starts_with_digit cs then in_range negative (scan 0 cs) else none

unfoldable pub after_spaces : List ℕ → Option ℤ
after_spaces [] = none
after_spaces (c ∷ cs) =
    if c == b'-'
    then after_sign true cs
    else if c == b'+'
    then after_sign false cs
    else after_sign false (c ∷ cs)

-- std::stoll, which does not look at what follows the digits.
unfoldable pub stoll : List ℕ → Option ℤ
stoll cs = after_spaces (skip_spaces cs)

-- What stands before the first point, and what after it.
unfoldable pub split_at_point : List ℕ → Option (List ℕ × List ℕ)
split_at_point [] = none
split_at_point (c ∷ cs) =
    if c == b'.'
    then some ([], cs)
    else elim (split_at_point cs) [ none ↦ none | some parts ↦ some (c ∷ parts.0, parts.1) ]

-- Padded or truncated to 9 digits.
unfoldable pub nine_digits : List ℕ → List ℕ
nine_digits cs = if ltb (length cs) 9 then cs ++ replicate (9 - length cs) b'0' else take 9 cs

abbrev pub whole : Option ℤ → Option Timespec
whole none = none
whole (some sec) = some (record { tv_sec = sec; tv_nsec = pos 0 })

abbrev pub both : Option ℤ → Option ℤ → Option Timespec
both (some sec) (some nsec) = some (record { tv_sec = sec; tv_nsec = nsec })
both _ _ = none

abbrev pub read_parts : List ℕ → Option (List ℕ × List ℕ) → Option Timespec
read_parts cs none = whole (stoll cs)
read_parts cs (some (sec_str, nsec_str)) = both (stoll sec_str) (stoll (nine_digits nsec_str))

-- `none` is an exception of std::stoll.
unfoldable pub read_timespec : List ℕ → Option Timespec
read_timespec cs = read_parts cs (split_at_point cs)

abbrev pub normalized : Option Timespec → Bool × Option Timespec
normalized none = (false, some (record { tv_sec = pos 0; tv_nsec = pos 0 }))
normalized (some ts) = let r = normalize_timespec ts in (is_valid_timespec r, some r)

-- The result, and what the pointer then shows.
unfoldable pub string_to_timespec : List ℕ → Option Timespec → Bool × Option Timespec
string_to_timespec cs none = (false, none)
string_to_timespec cs (some ts) = normalized (read_timespec cs)
