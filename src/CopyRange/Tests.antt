-- ===== src/CopyRange/Tests.antt =====
-- Runs of the copy of src/copy_file_range.cc on two small files, and the theorems at them.
use mathlib.Core.Path.{subst}
use fuse_native.Base.{
  ℕ, zero, suc, ◌+◌, ◌≤◌, ◌<◌, ◌≡◌, ◌⊎◌, refl, ap, ◌∙◌, true, Option, none, some, List, [], ◌∷◌,
  ◌==◌, if◌then◌else◌, arith, length,
}
use fuse_native.CopyRange.{
  Files, Written, write_failed, wrote, kernel_failed, enosys, Result, CopyFileRange,
  new_copy_file_range, chunked_copy_file_range,
}
use fuse_native.CopyRange.Writes.{IsFiles, Calm, byte}
use fuse_native.CopyRange.Copies.{CopyResult, chunked_copy_file_range-CopyResult}

-- The source has the byte `i + 7` at `i`; the world is the target.
abbrev source : (ℕ → ℕ) → ℕ → ℕ
source w i = i + 7

abbrev target : (ℕ → ℕ) → ℕ → ℕ
target w i = w i

abbrev slice : ℕ → ℕ → List ℕ
slice off zero = []
slice off (suc n) = (off + 7) ∷ slice (off + 1) n

abbrev put : ℕ → ℕ → (ℕ → ℕ) → ℕ → ℕ
put off b w x = if x == off then b else w x

-- A read gives all bytes, a write takes one.
abbrev write_one : (ℕ → ℕ) → Option ℕ → List ℕ → Written × (ℕ → ℕ)
write_one w none bs = (write_failed, w)
write_one w (some off) [] = (wrote 0, w)
write_one w (some off) (b ∷ bs) = (wrote 1, put off b w)

abbrev read_all : (ℕ → ℕ) → Option ℕ → ℕ → Option (List ℕ) × (ℕ → ℕ)
read_all w none n = (none, w)
read_all w (some off) n = (some (slice off n), w)

abbrev small : Files (ℕ → ℕ)
small = record {
  read = read_all;
  write = write_one;
  kernel_copy = λ w inp out len. (kernel_failed enosys, w);
}

length-slice : (off n : ℕ) → length (slice off n) ≡ n
length-slice off zero = refl
length-slice off (suc n) = ap suc (length-slice (off + 1) n)

byte-slice : (off n i : ℕ) → i < n → byte (slice off n) i ≡ off + i + 7
byte-slice off zero i h = absurd (omega (arith, h))
byte-slice off (suc n) zero h = omega arith
byte-slice off (suc n) (suc i) h = byte-slice (off + 1) n i (omega (arith, h)) ∙ omega arith

small-Calm : Calm small
small-Calm w none bs = ground arith
small-Calm w (some off) [] = ground arith
small-Calm w (some off) (b ∷ bs) = ground arith

abbrev unwrap : Option (List ℕ) → List ℕ
unwrap none = []
unwrap (some bs) = bs

small-read_bytes :
    (w : ℕ → ℕ) (off n : ℕ) (bs : List ℕ)
    → (read_all w (some off) n).0 ≡ some bs
    → (length bs ≤ n) × ((i : ℕ) → i < length bs → byte bs i ≡ source w (off + i))
small-read_bytes w off n bs e =
    subst (λ l. (length l ≤ n) × ((i : ℕ) → i < length l → byte l i ≡ source w (off + i)))
      (ap unwrap e)
      (
        omega (arith, length-slice off n),
        λ i h. byte-slice off n i (omega (arith, h, length-slice off n)),
      )

abbrev written : Written → ℕ
written (wrote n) = n
written _ = 0

first_place :
    (w : ℕ → ℕ) (off b : ℕ) (bs : List ℕ) (i : ℕ) → i ≡ 0 → put off b w (off + i) ≡ byte (b ∷ bs) i
first_place w off b bs zero h = ground arith
first_place w off b bs (suc i) h = absurd (omega (arith, h))

small-write_bytes :
    (w : ℕ → ℕ) (off : ℕ) (bs : List ℕ) (n : ℕ)
    → (write_one w (some off) bs).0 ≡ wrote n
    → (n ≤ length bs)
      × ((x : ℕ) → (x < off) ⊎ (off + n ≤ x) → (write_one w (some off) bs).1 x ≡ w x)
      × ((i : ℕ) → i < n → (write_one w (some off) bs).1 (off + i) ≡ byte bs i)
small-write_bytes w off [] n e = ground arith
small-write_bytes w off (b ∷ bs) n e =
    subst
      (λ k.
        (k ≤ length (b ∷ bs))
        × ((x : ℕ) → (x < off) ⊎ (off + k ≤ x) → put off b w x ≡ w x)
        × ((i : ℕ) → i < k → put off b w (off + i) ≡ byte (b ∷ bs) i))
      (ap written e)
      (omega arith, λ x h. ground arith, λ i h. first_place w off b bs i (omega (arith, h)))

small-write_fails :
    (w : ℕ → ℕ) (off : ℕ) (bs : List ℕ) (x : ℕ)
    → (write_one w (some off) bs).0 ≡ write_failed
    → (write_one w (some off) bs).1 x ≡ w x
small-write_fails w off [] x e = refl
small-write_fails w off (b ∷ bs) x e = ground arith

small-IsFiles : IsFiles small source target
small-IsFiles = record {
  read_bytes = small-read_bytes;
  read_keeps = λ w off n x. (refl, refl);
  write_keeps = λ w off bs x. refl;
  write_bytes = small-write_bytes;
  write_fails = small-write_fails;
}

abbrev empty_target : ℕ → ℕ
empty_target x = 0

abbrev copier : CopyFileRange
copier = new_copy_file_range true

chunked_copy_file_range-CopyResult_example :
    (r : Result (ℕ → ℕ)) × (chunked_copy_file_range small 0 copier empty_target true
        (some 2)
        (some 5)
        3
      ≡ some r)
    × CopyResult source target empty_target 2 5 3 r
chunked_copy_file_range-CopyResult_example =
    chunked_copy_file_range-CopyResult small-IsFiles small-Calm 0 copier empty_target true 2 5 3
