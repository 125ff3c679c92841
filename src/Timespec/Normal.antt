-- ===== src/Timespec/Normal.antt =====
-- The normal form of src/timespec_codec.cc: `normalize_timespec`, `make_timespec` and
-- `is_valid_timespec`.
use fuse_native.Base.{
  ℕ, suc, ◌+◌, ◌-◌, ◌*◌, ◌/◌, ◌%◌, ◌^◌, ◌<◌, ◌≡◌, true, arith, inl, inr, Bool-cases, leb,
}
use fuse_native.Base.Int.{ℤ, pos, negsuc, to_u64, to_i64, ◌+ℤ◌, IsI64, +ℤ_zero}
use fuse_native.Timespec.Codec.{at}
use fuse_native.Timespec.{
  Timespec, carry, borrow, normalize_timespec, make_timespec, is_valid_timespec,
}

-- The quotient of a word by 10 ^ 9 and the remainder are below 2 ^ 63: as int64_t they are the same.
to_i64-div : (w : ℕ) → w < 2 ^ 64 → to_i64 (w / 1_000_000_000) ≡ pos (w / 1_000_000_000)
to_i64-div w h = ground arith

to_i64-mod : (w : ℕ) → to_i64 (w % 1_000_000_000) ≡ pos (w % 1_000_000_000)
to_i64-mod w = ground arith

to_u64-lt : (a : ℤ) → to_u64 a < 2 ^ 64
to_u64-lt (pos n) = omega arith
to_u64-lt (negsuc n) = omega arith

-- The time with the quotient of a word added to the seconds, and the remainder as nanoseconds.
abbrev spread : ℤ → ℕ → Timespec
spread sec w = record { tv_sec = sec +ℤ pos (w / 1_000_000_000); tv_nsec = pos (w % 1_000_000_000) }

small_word :
    (nsec : ℤ)
    → IsI64 nsec
    → to_u64 nsec < 1_000_000_000
    → (pos (to_u64 nsec % 1_000_000_000) ≡ nsec) × (to_u64 nsec / 1_000_000_000 ≡ 0)
small_word (pos n) h k = ground arith
small_word (negsuc n) h k = absurd (omega arith)

carry_lem :
    (sec nsec : ℤ)
    → IsI64 nsec
    → carry (record { tv_sec = sec; tv_nsec = nsec }) ≡ spread sec (to_u64 nsec)
unfolding carry
carry_lem sec nsec h = elim (Bool-cases (leb 1_000_000_000 (to_u64 nsec))) [
  | inl large ↦ rw (large, to_i64-div (to_u64 nsec) (to_u64-lt nsec), to_i64-mod (to_u64 nsec))
  | inr small ↦ let (e, f) = small_word nsec h (ground arith) in rw (small, f, e, +ℤ_zero sec)
]

-- For every int64_t in `tv_nsec`, also a negative one: the seconds grow by the quotient of its
-- 64-bit word by 10 ^ 9 and the nanoseconds become the remainder.
normalize_timespec_lem :
    (sec nsec : ℤ)
    → IsI64 nsec
    → normalize_timespec (record { tv_sec = sec; tv_nsec = nsec }) ≡ spread sec (to_u64 nsec)
unfolding normalize_timespec borrow
normalize_timespec_lem sec nsec h = rw (carry_lem sec nsec h)

-- From a number of seconds and any non-negative int64_t of nanoseconds, `make_timespec` makes a valid
-- timespec of the same total, and normalising that changes nothing.
make_timespec_lem :
    (s n : ℕ)
    → n < 2 ^ 63
    → (s' : ℕ) × (n' : ℕ) × (make_timespec (pos s) (pos n) ≡ at s' n')
      × (s' * 1_000_000_000 + n' ≡ s * 1_000_000_000 + n)
      × (is_valid_timespec (at s' n') ≡ true)
      × (normalize_timespec (at s' n') ≡ at s' n')
unfolding make_timespec is_valid_timespec
make_timespec_lem s n h = (
  s + n / 1_000_000_000,
  n % 1_000_000_000,
  rw (normalize_timespec_lem (pos s) (pos n) h) (unfold ◌+ℤ◌ in ground arith),
  omega arith,
  ground arith,
  rw (normalize_timespec_lem (pos (s + n / 1_000_000_000)) (pos (n % 1_000_000_000)) (omega arith))
      (unfold ◌+ℤ◌ in ground arith),
)

-- For every negative int64_t of nanoseconds, `make_timespec` adds 2 ^ 64 nanoseconds to the time that
-- was asked for: no second is borrowed.
make_timespec-negative :
    (s n : ℕ)
    → n < 2 ^ 63
    → (s' : ℕ) × (n' : ℕ) × (make_timespec (pos s) (negsuc n) ≡ at s' n')
      × (n' < 1_000_000_000)
      × (s' * 1_000_000_000 + n' + suc n ≡ s * 1_000_000_000 + 2 ^ 64)
unfolding make_timespec
make_timespec-negative s n h =
    let w = 2 ^ 64 - 1 - n in
    (
      s + w / 1_000_000_000,
      w % 1_000_000_000,
      rw (normalize_timespec_lem (pos s) (negsuc n) h) (unfold ◌+ℤ◌ in ground arith),
      omega arith,
      omega arith,
    )
