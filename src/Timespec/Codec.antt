-- ===== src/Timespec/Codec.antt =====
-- Nanoseconds since the epoch and back, and the addition of nanoseconds, of src/timespec_codec.cc.
use fuse_native.Base.{
  ℕ, ◌+◌, ◌*◌, ◌/◌, ◌%◌, ◌^◌, ◌≤◌, ◌<◌, ◌≡◌, ◌⊎◌, inl, inr, some, arith, dec_lt, suc, ◌-◌,
}
use fuse_native.Base.Int.{ℤ, pos, negsuc, to_i64, ◌+ℤ◌, pos_part, neg_part}
use fuse_native.Timespec.{Timespec, epoch_word, timespec_to_ns, ns_to_timespec, timespec_add_ns}

-- The time of a number of seconds and of nanoseconds.
abbrev pub at : ℕ → ℕ → Timespec
at sec nsec = record { tv_sec = pos sec; tv_nsec = pos nsec }

pub epoch_word-at :
    (sec nsec : ℕ)
    → sec * 1_000_000_000 + nsec < 2 ^ 64
    → epoch_word (at sec nsec) ≡ sec * 1_000_000_000 + nsec
unfolding epoch_word
epoch_word-at sec nsec h = omega arith

-- A number of nanoseconds below 2 ^ 64 is read as a timespec with less than a second of
-- nanoseconds, which is written as that number again.
pub timespec_to_ns-ns_to_timespec :
    (n : ℕ)
    → n < 2 ^ 64
    → (sec : ℕ) × (nsec : ℕ) × (ns_to_timespec (some n) ≡ some (at sec nsec))
      × (nsec < 1_000_000_000)
      × (timespec_to_ns (at sec nsec) ≡ n)
unfolding ns_to_timespec timespec_to_ns
timespec_to_ns-ns_to_timespec n h = (
  n / 1_000_000_000,
  n % 1_000_000_000,
  ground arith,
  omega arith,
  ground (arith, epoch_word-at (n / 1_000_000_000) (n % 1_000_000_000)),
)

-- What `timespec_add_ns` returns for a time of `t` nanoseconds and an addend `ns`.
abbrev Added : ℕ → ℤ → Timespec → Type 0
Added t ns r =
    ((neg_part ns ≤ t)
      × (sec : ℕ) × (nsec : ℕ) × (r ≡ at sec nsec)
      × (nsec < 1_000_000_000)
      × (sec * 1_000_000_000 + nsec + neg_part ns ≡ t + pos_part ns))
    ⊎ ((t < neg_part ns) × (r ≡ record { tv_sec = negsuc 0; tv_nsec = pos 0 }))

add_word :
    (t : ℕ) (ns : ℤ) (ts : Timespec)
    → to_i64 (epoch_word ts) ≡ pos t
    → t + pos_part ns < 2 ^ 63
    → Added t ns (timespec_add_ns ts ns)
unfolding timespec_add_ns ◌+ℤ◌
add_word t (pos m) ts e k = inl (
  omega arith,
  (t + m) / 1_000_000_000,
  (t + m) % 1_000_000_000,
  rw e (ground arith),
  omega arith,
  omega arith,
)
add_word t (negsuc m) ts e k = elim (dec_lt t (suc m)) [
  | yes below ↦ inr (omega arith, rw e (ground arith))
  | no above ↦ inl (
    omega arith,
    (t - suc m) / 1_000_000_000,
    (t - suc m) % 1_000_000_000,
    rw e (ground arith),
    omega arith,
    omega arith,
  )
]

-- Where the total does not reach 2 ^ 63 nanoseconds, adding `ns` to a time that is not before 1970
-- gives the time whose nanoseconds are the sum, with less than a second in `tv_nsec`; where the sum
-- is negative it gives (-1, 0).
timespec_add_ns_lem :
    (sec nsec : ℕ) (ns : ℤ)
    → sec * 1_000_000_000 + nsec + pos_part ns < 2 ^ 63
    → Added (sec * 1_000_000_000 + nsec) ns (timespec_add_ns (at sec nsec) ns)
timespec_add_ns_lem sec nsec ns h = add_word _ ns (at sec nsec) word h
  where
    word : to_i64 (epoch_word (at sec nsec)) ≡ pos (sec * 1_000_000_000 + nsec)
    word = rw (epoch_word-at sec nsec (omega arith)) (ground arith)
