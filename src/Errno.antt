-- ===== src/Errno.antt =====
-- src/errno_mapping.cc: names and messages of errno codes, the sign that libfuse wants, and the
-- classes of errors. The constants of <errno.h> are Linux's, where EWOULDBLOCK is EAGAIN and ENOTSUP
-- is defined; an `int` is an integer, and a table is the list of its initialiser's pairs.
pub mod Lookup
pub mod RoundTrip
pub mod Classes
mod Tests
use Prim.Native.String.{String}
use text.Mathlib.Text.{◌==◌ as str_eq}
use fuse_native.Base.{
  ℕ, Bool, true, false, Option, none, some, List, [], ◌∷◌, ◌==◌, ◌||◌, ◌<◌, if◌then◌else◌,
}
use fuse_native.Base.Int.{ℤ, pos, negsuc, ltb_ℤ, negate}

abbrev pub eperm : ℕ
eperm = 1

abbrev pub enoent : ℕ
enoent = 2

abbrev pub esrch : ℕ
esrch = 3

abbrev pub eintr : ℕ
eintr = 4

abbrev pub eio : ℕ
eio = 5

abbrev pub enxio : ℕ
enxio = 6

abbrev pub e2big : ℕ
e2big = 7

abbrev pub enoexec : ℕ
enoexec = 8

abbrev pub ebadf : ℕ
ebadf = 9

abbrev pub echild : ℕ
echild = 10

abbrev pub eagain : ℕ
eagain = 11

abbrev pub enomem : ℕ
enomem = 12

abbrev pub eacces : ℕ
eacces = 13

abbrev pub efault : ℕ
efault = 14

abbrev pub enotblk : ℕ
enotblk = 15

abbrev pub ebusy : ℕ
ebusy = 16

abbrev pub eexist : ℕ
eexist = 17

abbrev pub exdev : ℕ
exdev = 18

abbrev pub enodev : ℕ
enodev = 19

abbrev pub enotdir : ℕ
enotdir = 20

abbrev pub eisdir : ℕ
eisdir = 21

abbrev pub einval : ℕ
einval = 22

abbrev pub enfile : ℕ
enfile = 23

abbrev pub emfile : ℕ
emfile = 24

abbrev pub enotty : ℕ
enotty = 25

abbrev pub etxtbsy : ℕ
etxtbsy = 26

abbrev pub efbig : ℕ
efbig = 27

abbrev pub enospc : ℕ
enospc = 28

abbrev pub espipe : ℕ
espipe = 29

abbrev pub erofs : ℕ
erofs = 30

abbrev pub emlink : ℕ
emlink = 31

abbrev pub epipe : ℕ
epipe = 32

abbrev pub edom : ℕ
edom = 33

abbrev pub erange : ℕ
erange = 34

abbrev pub edeadlk : ℕ
edeadlk = 35

abbrev pub enametoolong : ℕ
enametoolong = 36

abbrev pub enolck : ℕ
enolck = 37

abbrev pub enosys : ℕ
enosys = 38

abbrev pub enotempty : ℕ
enotempty = 39

abbrev pub eloop : ℕ
eloop = 40

abbrev pub enomsg : ℕ
enomsg = 42

abbrev pub eidrm : ℕ
eidrm = 43

abbrev pub enotsup : ℕ
enotsup = 95

abbrev pub etimedout : ℕ
etimedout = 110

pub errno_to_string_map : List (ℕ × String)
errno_to_string_map =
    (eperm, "EPERM")
    ∷ (enoent, "ENOENT")
    ∷ (esrch, "ESRCH")
    ∷ (eintr, "EINTR")
    ∷ (eio, "EIO")
    ∷ (enxio, "ENXIO")
    ∷ (e2big, "E2BIG")
    ∷ (enoexec, "ENOEXEC")
    ∷ (ebadf, "EBADF")
    ∷ (echild, "ECHILD")
    ∷ (eagain, "EAGAIN")
    ∷ (enomem, "ENOMEM")
    ∷ (eacces, "EACCES")
    ∷ (efault, "EFAULT")
    ∷ (enotblk, "ENOTBLK")
    ∷ (ebusy, "EBUSY")
    ∷ (eexist, "EEXIST")
    ∷ (exdev, "EXDEV")
    ∷ (enodev, "ENODEV")
    ∷ (enotdir, "ENOTDIR")
    ∷ (eisdir, "EISDIR")
    ∷ (einval, "EINVAL")
    ∷ (enfile, "ENFILE")
    ∷ (emfile, "EMFILE")
    ∷ (enotty, "ENOTTY")
    ∷ (etxtbsy, "ETXTBSY")
    ∷ (efbig, "EFBIG")
    ∷ (enospc, "ENOSPC")
    ∷ (espipe, "ESPIPE")
    ∷ (erofs, "EROFS")
    ∷ (emlink, "EMLINK")
    ∷ (epipe, "EPIPE")
    ∷ (edom, "EDOM")
    ∷ (erange, "ERANGE")
    ∷ (edeadlk, "EDEADLK")
    ∷ (enametoolong, "ENAMETOOLONG")
    ∷ (enolck, "ENOLCK")
    ∷ (enosys, "ENOSYS")
    ∷ (enotempty, "ENOTEMPTY")
    ∷ (eloop, "ELOOP")
    ∷ (enomsg, "ENOMSG")
    ∷ (eidrm, "EIDRM")
    ∷ (enotsup, "ENOTSUP")
    ∷ (etimedout, "ETIMEDOUT")
    ∷ []

pub errno_to_message_map : List (ℕ × String)
errno_to_message_map =
    (eperm, "Operation not permitted")
    ∷ (enoent, "No such file or directory")
    ∷ (esrch, "No such process")
    ∷ (eintr, "Interrupted system call")
    ∷ (eio, "Input/output error")
    ∷ (enxio, "No such device or address")
    ∷ (e2big, "Argument list too long")
    ∷ (enoexec, "Exec format error")
    ∷ (ebadf, "Bad file descriptor")
    ∷ (echild, "No child processes")
    ∷ (eagain, "Resource temporarily unavailable")
    ∷ (enomem, "Cannot allocate memory")
    ∷ (eacces, "Permission denied")
    ∷ (efault, "Bad address")
    ∷ (enotblk, "Block device required")
    ∷ (ebusy, "Device or resource busy")
    ∷ (eexist, "File exists")
    ∷ (exdev, "Invalid cross-device link")
    ∷ (enodev, "No such device")
    ∷ (enotdir, "Not a directory")
    ∷ (eisdir, "Is a directory")
    ∷ (einval, "Invalid argument")
    ∷ (enfile, "Too many open files in system")
    ∷ (emfile, "Too many open files")
    ∷ (enotty, "Inappropriate ioctl for device")
    ∷ (etxtbsy, "Text file busy")
    ∷ (efbig, "File too large")
    ∷ (enospc, "No space left on device")
    ∷ (espipe, "Illegal seek")
    ∷ (erofs, "Read-only file system")
    ∷ (emlink, "Too many links")
    ∷ (epipe, "Broken pipe")
    ∷ (edom, "Numerical argument out of domain")
    ∷ (erange, "Numerical result out of range")
    ∷ (edeadlk, "Resource deadlock avoided")
    ∷ (enametoolong, "File name too long")
    ∷ (enolck, "No locks available")
    ∷ (enosys, "Function not implemented")
    ∷ (enotempty, "Directory not empty")
    ∷ (eloop, "Too many levels of symbolic links")
    ∷ (enomsg, "No message of desired type")
    ∷ (eidrm, "Identifier removed")
    ∷ (enotsup, "Operation not supported")
    ∷ (etimedout, "Connection timed out")
    ∷ []

-- std::unordered_map::find, with the value of the pair that it finds.
pub find : ℕ → List (ℕ × String) → Option String
find k [] = none
find k ((j, v) ∷ m) = if j == k then some v else find k m

-- A key of the tables is positive, so a negative code is in none.
pub find_int : ℤ → List (ℕ × String) → Option String
find_int (pos n) m = find n m
find_int (negsuc n) m = none

abbrev pub or_else : Option String → String → String
or_else (some s) d = s
or_else none d = d

abbrev pub is_found : Option String → Bool
is_found (some s) = true
is_found none = false

pub errno_to_string : ℤ → String
unfolding find_int
errno_to_string err = or_else (find_int err errno_to_string_map) "UNKNOWN"

pub errno_to_message : ℤ → String
unfolding find_int
errno_to_message err = or_else (find_int err errno_to_message_map) "Unknown error"

pub is_valid_errno : ℤ → Bool
unfolding find_int
is_valid_errno err = is_found (find_int err errno_to_string_map)

-- The range-for of `string_to_errno`. The order in which an unordered_map is walked is not
-- specified: `order` is the list of the pairs as they come.
pub string_to_errno : List (ℕ × String) → String → ℕ
string_to_errno [] err_str = 0
string_to_errno ((first, second) ∷ order) err_str =
    if str_eq second err_str then first else string_to_errno order err_str

-- err == k, for a constant that is not negative.
abbrev pub is : ℤ → ℕ → Bool
is (pos n) k = n == k
is (negsuc n) k = false

unfoldable pub normalize_fuse_errno : ℤ → ℤ
normalize_fuse_errno err = if is err 0 then pos 0 else if ltb_ℤ (pos 0) err then negate err else err

pub is_temporary_error : ℤ → Bool
is_temporary_error err = is err eagain || is err eintr || is err etimedout

pub is_permission_error : ℤ → Bool
is_permission_error err = is err eacces || is err eperm

pub is_not_found_error : ℤ → Bool
is_not_found_error err = is err enoent || is err enotdir

pub is_filesystem_error : ℤ → Bool
is_filesystem_error err =
    is err eio || is err erofs || is err enospc || is err enfile || is err emfile
