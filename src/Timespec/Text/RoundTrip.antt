-- ===== src/Timespec/Text/RoundTrip.antt =====
-- A time written by `timespec_to_string` of src/timespec_codec.cc, read by `string_to_timespec`.
use mathlib.Core.Path.{subst}
use fuse_native.Base.{
  ℕ, zero, suc, ◌+◌, ◌-◌, ◌*◌, ◌/◌, ◌%◌, ◌^◌, ◌<◌, ◌≤◌, ◌≡◌, refl, true, false, some, List, [], ◌∷◌,
  ◌++◌, arith, All, length, take, replicate, ltb, leb, ◌==◌, if◌then◌else◌, length-append,
  length-replicate, if_cases, ap, ◌∙◌,
}
use fuse_native.Base.Int.{pos}
use fuse_native.Timespec.{Timespec, normalize_timespec, carry, borrow, is_valid_timespec}
use fuse_native.Timespec.Codec.{at}
use fuse_native.Timespec.Text.{
  digits, decimal, padded, timespec_to_string, is_digit, is_space, skip_spaces, scan, in_range,
  after_sign, after_spaces, stoll, split_at_point, nine_digits, read_timespec, string_to_timespec,
}

abbrev Digits : List ℕ → Type 0
Digits cs = All (λ c. is_digit c ≡ true) cs

digit : (d : ℕ) → d < 10 → is_digit (b'0' + d) ≡ true
digit d h = ground (arith, h)

below_i64 : (n : ℕ) → n < 2 ^ 63 → ltb n (2 ^ 63) ≡ true
below_i64 n h = ground (arith, h)

digits-Digits : (fuel n : ℕ) (out : List ℕ) → Digits out → Digits (digits fuel n out)
unfolding digits
digits-Digits zero n out h = h
digits-Digits (suc fuel) n out h =
    if_cases Digits (ltb n 10) ((b'0' + n) ∷ out) (digits fuel (n / 10) ((b'0' + n % 10) ∷ out))
      (λ small. (ground (arith, small), h))
      (λ _. digits-Digits fuel (n / 10) ((b'0' + n % 10) ∷ out) (ground arith, h))

scan_step : (a d : ℕ) (out : List ℕ) → d < 10 → scan a ((b'0' + d) ∷ out) ≡ scan (a * 10 + d) out
unfolding scan
scan_step a d out h =
    ap (λ b. if b then scan (a * 10 + (b'0' + d - b'0')) out else a) (digit d h)
    ∙ ap (λ m. scan m out) (omega arith)

-- Digits that are read give the number that they were made of.
scan-digits : (fuel n : ℕ) (out : List ℕ) → n < fuel → scan 0 (digits fuel n out) ≡ scan n out
unfolding digits
scan-digits zero n out h = absurd (omega (arith, h))
scan-digits (suc fuel) n out h =
    if_cases (λ cs. scan 0 cs ≡ scan n out) (ltb n 10) ((b'0' + n) ∷ out)
      (digits fuel (n / 10) ((b'0' + n % 10) ∷ out))
      (λ small. scan_step 0 n out (ground (arith, small)) ∙ ap (λ m. scan m out) (omega arith))
      (λ large.
        scan-digits fuel (n / 10) ((b'0' + n % 10) ∷ out) (ground (arith, large, h))
        ∙ scan_step (n / 10) (n % 10) out (omega arith)
        ∙ ap (λ m. scan m out) (omega arith))

scan-zeros : (k : ℕ) (cs : List ℕ) → scan 0 (replicate k b'0' ++ cs) ≡ scan 0 cs
unfolding scan
scan-zeros zero cs = refl
scan-zeros (suc k) cs = scan-zeros k cs

Digits-zeros : (k : ℕ) (cs : List ℕ) → Digits cs → Digits (replicate k b'0' ++ cs)
Digits-zeros zero cs h = h
Digits-zeros (suc k) cs h = (refl, Digits-zeros k cs h)

abbrev tens : ℕ → ℕ
tens zero = 1
tens (suc k) = 10 * tens k

length-digits :
    (k fuel n : ℕ) (out : List ℕ)
    → n < tens (suc k)
    → length (digits fuel n out) ≤ length out + suc k
unfolding digits
length-digits k zero n out h = omega arith
length-digits zero (suc fuel) n out h =
    if_cases (λ cs. length cs ≤ length out + 1) (ltb n 10) ((b'0' + n) ∷ out)
      (digits fuel (n / 10) ((b'0' + n % 10) ∷ out)) (λ _. omega arith)
      (λ large. absurd (ground (arith, h, large)))
length-digits (suc k) (suc fuel) n out h =
    if_cases (λ cs. length cs ≤ length out + suc (suc k)) (ltb n 10) ((b'0' + n) ∷ out)
      (digits fuel (n / 10) ((b'0' + n % 10) ∷ out)) (λ _. omega arith)
      (λ _. omega (arith, length-digits k fuel (n / 10) ((b'0' + n % 10) ∷ out) (omega (arith, h))))

digits-grows : (fuel n : ℕ) (out : List ℕ) → length out ≤ length (digits fuel n out)
unfolding digits
digits-grows zero n out = omega arith
digits-grows (suc fuel) n out =
    if_cases (λ cs. length out ≤ length cs) (ltb n 10) ((b'0' + n) ∷ out)
      (digits fuel (n / 10) ((b'0' + n % 10) ∷ out)) (λ _. omega arith)
      (λ _. omega (arith, digits-grows fuel (n / 10) ((b'0' + n % 10) ∷ out)))

decimal_pos : (n : ℕ) → 0 < length (decimal n)
unfolding digits
decimal_pos n =
    if_cases (λ cs. 0 < length cs) (ltb n 10) ((b'0' + n) ∷ [])
      (digits n (n / 10) ((b'0' + n % 10) ∷ [])) (λ _. omega arith)
      (λ _. omega (arith, digits-grows n (n / 10) ((b'0' + n % 10) ∷ [])))

not_special :
    (c : ℕ)
    → is_digit c ≡ true
    → (is_space c ≡ false) × ((c == b'-') ≡ false) × ((c == b'+') ≡ false) × ((c == b'.') ≡ false)
not_special c h = ground (arith, h)

-- A text of digits, of which there is one, is read as their value.
stoll-Digits :
    (cs : List ℕ) (n : ℕ)
    → Digits cs
    → 0 < length cs
    → scan 0 cs ≡ n
    → n < 2 ^ 63
    → stoll cs ≡ some (pos n)
unfolding stoll skip_spaces after_spaces after_sign in_range
stoll-Digits [] n h l e s = absurd (omega (arith, l))
stoll-Digits (c ∷ cs) n h l e s =
    let (space, minus, plus, point) = not_special c h.0 in
    rw (space, minus, plus, h.0, e, below_i64 n s) refl

split_at_point-Digits :
    (cs rest : List ℕ) → Digits cs → split_at_point (cs ++ b'.' ∷ rest) ≡ some (cs, rest)
unfolding split_at_point
split_at_point-Digits [] rest h = refl
split_at_point-Digits (c ∷ cs) rest h =
    let (space, minus, plus, point) = not_special c h.0 in
    rw (point, split_at_point-Digits cs rest h.1) refl

length-padded : (n : ℕ) → n < 1_000_000_000 → length (padded (pos n)) ≡ 9
length-padded n h = omega (
  arith,
  length-append (replicate (9 - length (decimal n)) b'0') (decimal n),
  length-replicate {A = ℕ} (9 - length (decimal n)) b'0',
  length-digits 8 (suc n) n [] h,
)

scan-decimal : (n : ℕ) → scan 0 (decimal n) ≡ n
unfolding scan
scan-decimal n = scan-digits (suc n) n [] (omega arith)

stoll-decimal : (n : ℕ) → n < 2 ^ 63 → stoll (decimal n) ≡ some (pos n)
stoll-decimal n h =
    stoll-Digits (decimal n) n (digits-Digits (suc n) n [] tt) (decimal_pos n) (scan-decimal n) h

stoll-padded : (n : ℕ) → n < 1_000_000_000 → stoll (padded (pos n)) ≡ some (pos n)
stoll-padded n h =
    let k = 9 - length (decimal n) in
    stoll-Digits (padded (pos n)) n (Digits-zeros k (decimal n) (digits-Digits (suc n) n [] tt))
      (omega (arith, length-padded n h)) (scan-zeros k (decimal n) ∙ scan-decimal n)
      (omega (arith, h))

take_all : (cs : List ℕ) → take (length cs) cs ≡ cs
take_all [] = refl
take_all (c ∷ cs) = ap (λ ds. c ∷ ds) (take_all cs)

nine_digits-same : (cs : List ℕ) → length cs ≡ 9 → nine_digits cs ≡ cs
unfolding nine_digits
nine_digits-same cs h = rw h (subst (λ k. take k cs ≡ cs) h (take_all cs))

read_timespec-at :
    (s n : ℕ)
    → s < 2 ^ 63
    → n < 1_000_000_000
    → read_timespec (timespec_to_string (at s n)) ≡ some (at s n)
unfolding read_timespec timespec_to_string
read_timespec-at s n h k =
    rw
      (
        split_at_point-Digits (decimal s) (padded (pos n)) (digits-Digits (suc s) s [] tt),
        stoll-decimal s h,
        nine_digits-same (padded (pos n)) (length-padded n k),
        stoll-padded n k,
      )
      refl

within : (s n : ℕ) → n < 1_000_000_000 → carry (at s n) ≡ at s n
unfolding carry
within s n h =
    let small : leb 1_000_000_000 (n % 2 ^ 64) ≡ false = ground (arith, h) in rw small refl

normal : (s n : ℕ) → n < 1_000_000_000 → normalize_timespec (at s n) ≡ at s n
unfolding normalize_timespec borrow
normal s n h = rw (within s n h) refl

valid : (s n : ℕ) → n < 1_000_000_000 → is_valid_timespec (at s n) ≡ true
unfolding is_valid_timespec
valid s n h = ground (arith, h)

-- A time of at least 0 seconds, with less than 10 ^ 9 nanoseconds, is read back from its text, and
-- the answer is true.
pub string_to_timespec-timespec_to_string :
    (s n : ℕ) (ts : Timespec)
    → s < 2 ^ 63
    → n < 1_000_000_000
    → string_to_timespec (timespec_to_string (at s n)) (some ts) ≡ (true, some (at s n))
unfolding string_to_timespec
string_to_timespec-timespec_to_string s n ts h k =
    rw (read_timespec-at s n h k, normal s n k, valid s n k) refl
