-- ===== src/Bridge/Objects/FileInfos.antt =====
-- src/napi_helpers.cc: `struct fuse_file_info` as an object. The fields are those of libfuse's header.
-- The memset of `ObjectToFileInfo` clears the struct's words, so that its bits and numbers are zero.
use fuse_native.Base.{ℕ, Bool, false, not, ◌&&◌, ◌∷◌, [], Option, none, some, if◌then◌else◌}
use fuse_native.Base.Int.{ℤ, pos}
use fuse_native.Bridge.Js.{
  JsValue, boolean, number, bigint, of_nat, of_int, big_u64, is_object, get_field, object_of,
}
use fuse_native.Bridge.Objects.Stats.{or_zero, uint32_field, int32_field}

pub record FileInfo : Type 0 where
  pub flags : ℤ
  pub writepage : Bool
  pub direct_io : Bool
  pub keep_cache : Bool
  pub flush : Bool
  pub nonseekable : Bool
  pub flock_release : Bool
  pub cache_readdir : Bool
  pub noflush : Bool
  pub parallel_direct_writes : Bool
  pub padding : ℕ
  pub padding2 : ℕ
  pub padding3 : ℕ
  pub fh : ℕ
  pub lock_owner : ℕ
  pub poll_events : ℕ
  pub backing_id : ℤ
  pub compat_flags : ℕ
  pub reserved : ℕ × ℕ

-- What the memset leaves.
abbrev zero_file_info : FileInfo
zero_file_info = record {
  flags = pos 0;
  writepage = false;
  direct_io = false;
  keep_cache = false;
  flush = false;
  nonseekable = false;
  flock_release = false;
  cache_readdir = false;
  noflush = false;
  parallel_direct_writes = false;
  padding = 0;
  padding2 = 0;
  padding3 = 0;
  fh = 0;
  lock_owner = 0;
  poll_events = 0;
  backing_id = pos 0;
  compat_flags = 0;
  reserved = (0, 0);
}

unfoldable pub file_info_to_object : FileInfo → JsValue
file_info_to_object fi = object_of (
    ("flags", number (of_int fi.flags))
    ∷ ("writepage", boolean fi.writepage)
    ∷ ("direct_io", boolean fi.direct_io)
    ∷ ("keep_cache", boolean fi.keep_cache)
    ∷ ("flush", boolean fi.flush)
    ∷ ("nonseekable", boolean fi.nonseekable)
    ∷ ("flock_release", boolean fi.flock_release)
    ∷ ("cache_readdir", boolean fi.cache_readdir)
    ∷ ("fh", big_u64 fi.fh)
    ∷ ("lock_owner", big_u64 fi.lock_owner)
    ∷ ("poll_events", number (of_nat fi.poll_events))
    ∷ [])

-- A bit of the struct, which takes a boolean only.
abbrev bit_field : Option JsValue → Bool
bit_field (some (boolean b)) = b
bit_field _ = false

-- `read_u64_bigint_or_number`: nothing is lost, or the field stays zero. Where a finite number is 2 ^ 64
-- or more the cast is undefined; here the field stays zero.
unfoldable pub read_u64_bigint_or_number : Option JsValue → Option ℕ
read_u64_bigint_or_number (some (bigint u i)) = u
read_u64_bigint_or_number (some (number n)) = if n.finite && not n.negative then n.whole else none
read_u64_bigint_or_number _ = none

unfoldable pub object_to_file_info : JsValue → Option FileInfo
object_to_file_info obj =
    if not (is_object obj)
    then none
    else some (record zero_file_info {
      flags = int32_field (get_field "flags" obj);
      writepage = bit_field (get_field "writepage" obj);
      direct_io = bit_field (get_field "direct_io" obj);
      keep_cache = bit_field (get_field "keep_cache" obj);
      flush = bit_field (get_field "flush" obj);
      nonseekable = bit_field (get_field "nonseekable" obj);
      flock_release = bit_field (get_field "flock_release" obj);
      cache_readdir = bit_field (get_field "cache_readdir" obj);
      fh = or_zero (read_u64_bigint_or_number (get_field "fh" obj));
      lock_owner = or_zero (read_u64_bigint_or_number (get_field "lock_owner" obj));
      poll_events = uint32_field (get_field "poll_events" obj);
    })
