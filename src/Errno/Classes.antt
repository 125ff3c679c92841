-- ===== src/Errno/Classes.antt =====
-- The sign that libfuse wants, and the classes of errors, of src/errno_mapping.cc.
use fuse_native.Base.{ℕ, ◌+◌, ◌≤◌, ◌≡◌, refl, ◌↔◌, Bool, true, false, arith, ==_iff}
use fuse_native.Base.Int.{ℤ, pos, negsuc, pos_part, negate}
use fuse_native.Errno.{
  find, errno_to_string_map, is_valid_errno, normalize_fuse_errno, is_temporary_error, is,
  is_permission_error, is_not_found_error, is_filesystem_error,
}

-- A normalised code is never positive, is 0 exactly for 0, does not depend on the sign of the code
-- and is normalised already.
normalize_fuse_errno_lem :
    (err : ℤ)
    → (pos_part (normalize_fuse_errno err) ≡ 0)
      × ((normalize_fuse_errno err ≡ pos 0) ↔ (err ≡ pos 0))
      × (normalize_fuse_errno (negate err) ≡ normalize_fuse_errno err)
      × (normalize_fuse_errno (normalize_fuse_errno err) ≡ normalize_fuse_errno err)
unfolding normalize_fuse_errno
normalize_fuse_errno_lem (pos n) = (ground arith, ground arith, ground arith, ground arith)
normalize_fuse_errno_lem (negsuc n) = (ground arith, ground arith, ground arith, ground arith)

abbrev pub count : Bool → ℕ
count true = 1
count false = 0

-- The number of classes that a code is in.
abbrev classes : ℤ → ℕ
classes err =
    count (is_temporary_error err)
    + count (is_permission_error err)
    + count (is_not_found_error err)
    + count (is_filesystem_error err)

is_valid-is :
    (err : ℤ) (k : ℕ) → is_valid_errno (pos k) ≡ true → is err k ≡ true → is_valid_errno err ≡ true
is_valid-is (pos n) k v h = rw ((==_iff n k).0 h) v
is_valid-is (negsuc n) k v h = cc

abbrev IsListed : ℕ → Type 0
IsListed k = is_valid_errno (pos k) ≡ true

listed :
    IsListed 11
    × IsListed 4
    × IsListed 110
    × IsListed 13
    × IsListed 1
    × IsListed 2
    × IsListed 20
    × IsListed 5
    × IsListed 30
    × IsListed 28
    × IsListed 23
    × IsListed 24
unfolding is_valid_errno find errno_to_string_map
listed = (refl, refl, refl, refl, refl, refl, refl, refl, refl, refl, refl, refl)

-- No code is in two of the four classes, and every code in a class is a valid one.
classes_exclusive : (err : ℤ) → (classes err ≤ 1) × (1 ≤ classes err → is_valid_errno err ≡ true)
unfolding is_temporary_error is_permission_error is_not_found_error is_filesystem_error
classes_exclusive (negsuc n) = (omega arith, λ h. absurd (omega arith))
classes_exclusive (pos n) = (
  ground arith,
  λ h. ground (
    arith,
    is_valid-is (pos n) 11 listed.0,
    is_valid-is (pos n) 4 listed.1,
    is_valid-is (pos n) 110 listed.2,
    is_valid-is (pos n) 13 listed.3,
    is_valid-is (pos n) 1 listed.4,
    is_valid-is (pos n) 2 listed.5,
    is_valid-is (pos n) 20 listed.6,
    is_valid-is (pos n) 5 listed.7,
    is_valid-is (pos n) 30 listed.8,
    is_valid-is (pos n) 28 listed.9,
    is_valid-is (pos n) 23 listed.10,
    is_valid-is (pos n) 24 listed.11,
  ),
)
