-- ===== src/Bridge/Objects/Stats.antt =====
-- src/napi_helpers.cc: `struct stat` and `struct statvfs` as objects. Of `struct stat` these are the
-- fields of POSIX; the nanoseconds of the times are in them.
use fuse_native.Base.{ℕ, Bool, true, false, not, ◌∷◌, [], Option, none, some, if◌then◌else◌}
use fuse_native.Base.Int.{ℤ, pos, to_u64}
use fuse_native.Timespec.{Timespec, timespec_to_ns, ns_to_timespec}
use fuse_native.Bridge.Js.{
  JsValue, number, bigint, of_nat, of_int, big_u64, is_object, get_field, get, safe_get_big_u64,
  object_of,
}

pub record Stat : Type 0 where
  pub dev : ℕ
  pub ino : ℕ
  pub mode : ℕ
  pub nlink : ℕ
  pub uid : ℕ
  pub gid : ℕ
  pub rdev : ℕ
  pub size : ℤ
  pub blksize : ℤ
  pub blocks : ℤ
  pub atime : Timespec
  pub mtime : Timespec
  pub ctime : Timespec

abbrev pub zero_time : Timespec
zero_time = record { tv_sec = pos 0; tv_nsec = pos 0 }

abbrev pub or_zero : Option ℕ → ℕ
or_zero none = 0
or_zero (some n) = n

-- A field that is there and a number, as a uint32_t or an int32_t; else the zero of the memset.
abbrev pub uint32_field : Option JsValue → ℕ
uint32_field (some (number n)) = n.uint32_value
uint32_field _ = 0

abbrev pub int32_field : Option JsValue → ℤ
int32_field (some (number n)) = n.int32_value
int32_field _ = pos 0

-- A bigint that fits an int64_t, or a number.
abbrev pub int64_field : Option JsValue → ℤ
int64_field (some (bigint u (some i))) = i
int64_field (some (number n)) = n.int64_value
int64_field _ = pos 0

abbrev pub or_zero_time : Option Timespec → Timespec
or_zero_time none = zero_time
or_zero_time (some ts) = ts

-- `AssignTimespecField`, over `NsBigIntToTimespec`.
abbrev time_field : Option JsValue → Timespec
time_field (some (bigint u i)) = or_zero_time (ns_to_timespec u)
time_field _ = zero_time

-- The nanoseconds are left out.
abbrev seconds_only : Timespec → JsValue
seconds_only ts = big_u64 (timespec_to_ns (record ts { tv_nsec = pos 0 }))

unfoldable pub stat_to_object : Stat → JsValue
stat_to_object st = object_of (
    ("ino", big_u64 st.ino)
    ∷ ("mode", number (of_nat st.mode))
    ∷ ("nlink", number (of_nat st.nlink))
    ∷ ("uid", number (of_nat st.uid))
    ∷ ("gid", number (of_nat st.gid))
    ∷ ("rdev", big_u64 st.rdev)
    ∷ ("size", big_u64 (to_u64 st.size))
    ∷ ("blksize", number (of_int st.blksize))
    ∷ ("blocks", big_u64 (to_u64 st.blocks))
    ∷ ("atime", seconds_only st.atime)
    ∷ ("mtime", seconds_only st.mtime)
    ∷ ("ctime", seconds_only st.ctime)
    ∷ [])

unfoldable pub object_to_stat : JsValue → Option Stat
object_to_stat obj =
    if not (is_object obj)
    then none
    else some (record {
      dev = 0;
      ino = or_zero (safe_get_big_u64 (get "ino" obj));
      mode = uint32_field (get_field "mode" obj);
      nlink = uint32_field (get_field "nlink" obj);
      uid = uint32_field (get_field "uid" obj);
      gid = uint32_field (get_field "gid" obj);
      rdev = or_zero (safe_get_big_u64 (get "rdev" obj));
      size = int64_field (get_field "size" obj);
      blksize = int32_field (get_field "blksize" obj);
      blocks = int64_field (get_field "blocks" obj);
      atime = time_field (get_field "atime" obj);
      mtime = time_field (get_field "mtime" obj);
      ctime = time_field (get_field "ctime" obj);
    })

pub record StatVfs : Type 0 where
  pub bsize : ℕ
  pub frsize : ℕ
  pub blocks : ℕ
  pub bfree : ℕ
  pub bavail : ℕ
  pub files : ℕ
  pub ffree : ℕ
  pub favail : ℕ
  pub fsid : ℕ
  pub flag : ℕ
  pub namemax : ℕ

-- A number and whether an exception is pending after it was read.
abbrev pub Read : Type 0
Read = ℕ × Bool

-- `As<Number>().Uint32Value()` and `GetBigUint64` of a field that is there, unless an exception is
-- pending.
abbrev read_u32 : Bool → Option JsValue → Read
read_u32 true _ = (0, true)
read_u32 false none = (0, false)
read_u32 false (some (number n)) = (n.uint32_value, false)
read_u32 false (some _) = (0, true)

abbrev pub read_u64 : Bool → Option JsValue → Read
read_u64 true _ = (0, true)
read_u64 false none = (0, false)
read_u64 false (some (bigint (some u) i)) = (u, false)
read_u64 false (some _) = (0, true)

unfoldable statvfs_to_object : StatVfs → JsValue
statvfs_to_object st = object_of (
    ("bsize", number (of_nat st.bsize))
    ∷ ("frsize", number (of_nat st.frsize))
    ∷ ("blocks", big_u64 st.blocks)
    ∷ ("bfree", big_u64 st.bfree)
    ∷ ("bavail", big_u64 st.bavail)
    ∷ ("files", big_u64 st.files)
    ∷ ("ffree", big_u64 st.ffree)
    ∷ ("favail", big_u64 st.favail)
    ∷ ("fsid", big_u64 st.fsid)
    ∷ ("flag", number (of_nat st.flag))
    ∷ ("namemax", number (of_nat st.namemax))
    ∷ [])

unfoldable pub object_to_statvfs : JsValue → StatVfs
object_to_statvfs obj =
    let bsize : Read = read_u32 false (get_field "bsize" obj) in
    let frsize : Read = read_u32 bsize.1 (get_field "frsize" obj) in
    let blocks : Read = read_u64 frsize.1 (get_field "blocks" obj) in
    let bfree : Read = read_u64 blocks.1 (get_field "bfree" obj) in
    let bavail : Read = read_u64 bfree.1 (get_field "bavail" obj) in
    let files : Read = read_u64 bavail.1 (get_field "files" obj) in
    let ffree : Read = read_u64 files.1 (get_field "ffree" obj) in
    let favail : Read = read_u64 ffree.1 (get_field "favail" obj) in
    let fsid : Read = read_u64 favail.1 (get_field "fsid" obj) in
    let flag : Read = read_u32 fsid.1 (get_field "flag" obj) in
    let namemax : Read = read_u32 flag.1 (get_field "namemax" obj) in
    record {
      bsize = bsize.0;
      frsize = frsize.0;
      blocks = blocks.0;
      bfree = bfree.0;
      bavail = bavail.0;
      files = files.0;
      ffree = ffree.0;
      favail = favail.0;
      fsid = fsid.0;
      flag = flag.0;
      namemax = namemax.0;
    }
