-- ===== src/Errno/Tests.antt =====
-- Runs of the functions of src/errno_mapping.cc, and the theorems at concrete codes.
use mathlib.Core.List.Perm
use fuse_native.Base.{◌≡◌, refl}
use fuse_native.Base.Int.{pos, negsuc}
use fuse_native.Errno.{
  find, errno_to_string_map, errno_to_string, is_valid_errno, string_to_errno, normalize_fuse_errno,
}
use fuse_native.Errno.RoundTrip.{string_to_errno-errno_to_string}

name_of_28 : errno_to_string (pos 28) ≡ "ENOSPC"
unfolding errno_to_string find errno_to_string_map
name_of_28 = refl

string_to_errno-errno_to_string_example :
    pos (string_to_errno errno_to_string_map (errno_to_string (pos 2))) ≡ pos 2
unfolding is_valid_errno find errno_to_string_map
string_to_errno-errno_to_string_example =
    string_to_errno-errno_to_string errno_to_string_map (pos 2) (Perm.refl errno_to_string_map)

normalize_5 : normalize_fuse_errno (pos 5) ≡ negsuc 4
unfolding normalize_fuse_errno
normalize_5 = refl
