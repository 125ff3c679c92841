-- ===== src/Bridge/Tests.antt =====
-- The theorems on src/fuse_bridge.cc at concrete inputs, and tests.
use fuse_native.Base.{
  ℕ, ◌+◌, ◌≤◌, ◌≡◌, refl, true, false, List, [], ◌∷◌, none, some, take, drop, min, arith,
}
use fuse_native.Base.Int.{pos, negsuc}
use fuse_native.Bridge
use fuse_native.Bridge.{FuseOpType, string_to_fuse_op_type, fuse_op_type_to_string, codes}
use fuse_native.Bridge.Js
use fuse_native.Bridge.Js.{JsValue, Values, Fields, of_nat, big_u64, object_of, elements}
use fuse_native.Bridge.Objects.Stats.{Stat, stat_to_object, object_to_stat}
use fuse_native.Bridge.Objects.FileInfos.{FileInfo, file_info_to_object, object_to_file_info}
use fuse_native.Bridge.Objects.RoundTrip.{
  carried, object_to_file_info-file_info_to_object, object_to_stat-stat_to_object, whole_seconds,
}
use fuse_native.Bridge.Buffers.{
  convert_bufvec, Bufvec, memory, convert_buf, convert_bufs, convert_source, try_get_size,
  check_position,
}
use fuse_native.Bridge.Replies.{reply_buf}
use fuse_native.Bridge.Dirs.{Decoded, skipped, packed, fill_reply}
use fuse_native.Bridge.Handlers.Attrs.{handle_setattr}
use fuse_native.Bridge.WriteBufs.{Pread, Segment}
use fuse_native.Bridge.Names.{string_to_fuse_op_type-fuse_op_type_to_string}
use fuse_native.Bridge.Listing.{fill_reply-Longest, pieces, Longest}
use fuse_native.Bridge.Validity.{convert_bufvec-IsValid, IsValid}
use fuse_native.Bridge.Linear.{contents}
use fuse_native.Bridge.PollSafety
use fuse_native.Bridge.PollSafety.{calls-destroyed, count, entered, registrations, empty_registry}
use fuse_native.Bridge.Routes.{handle_setattr-route, operation, route}

abbrev file_bytes : List ℕ
file_bytes = 10 ∷ 20 ∷ 30 ∷ []

-- A pread that gives at most one byte.
abbrev pub byte_by_byte : Pread
byte_by_byte fd n (pos p) = take (min n 1) (drop p file_bytes)
byte_by_byte fd n (negsuc p) = []

abbrev two_segments : List Segment
two_segments =
    record { size = 2; flags = 2; mem = none; fd = pos 3; position = pos 1 }
    ∷ record { size = 1; flags = 0; mem = some (7 ∷ 8 ∷ []); fd = negsuc 0; position = pos 0 }
    ∷ []

contents_lem : contents (λ fd. file_bytes) two_segments ≡ some (20 ∷ 30 ∷ 7 ∷ [])
contents_lem = refl

-- A decoder that takes any element for an entry of three bytes.
abbrev three_bytes : ℕ → JsValue → Decoded
three_bytes i item = packed (i ∷ i ∷ i ∷ []) false

abbrev two_items : List JsValue
two_items = Js.null ∷ Js.null ∷ []

five_filled : fill_reply three_bytes 5 two_items ≡ reply_buf (0 ∷ 0 ∷ 0 ∷ [])
unfolding fill_reply Bridge.Dirs.fill
five_filled = refl

two_pieces : pieces three_bytes 0 two_items ≡ some ((0 ∷ 0 ∷ 0 ∷ []) ∷ (1 ∷ 1 ∷ 1 ∷ []) ∷ [])
unfolding pieces
two_pieces = refl

fill_reply-Longest_example :
    (bytes : List ℕ) × (fill_reply three_bytes 5 two_items ≡ reply_buf bytes)
    × Longest 5 ((0 ∷ 0 ∷ 0 ∷ []) ∷ (1 ∷ 1 ∷ 1 ∷ []) ∷ []) bytes
fill_reply-Longest_example = fill_reply-Longest three_bytes 5 two_items (omega arith) two_pieces

abbrev two_bytes : JsValue
two_bytes = object_of (
    ("count", Js.number (of_nat 1))
    ∷ ("idx", Js.number (of_nat 0))
    ∷ ("off", Js.number (of_nat 1))
    ∷ (
      "buf",
      Js.array (
          Js.cons
            (object_of
              (("size", Js.number (of_nat 2)) ∷ ("mem", Js.array_buffer (7 ∷ 8 ∷ 9 ∷ [])) ∷ []))
            Js.nil),
    )
    ∷ [])

abbrev two_bytes_bufvec : Bufvec
two_bytes_bufvec = record {
  count = 1;
  idx = 0;
  off = 1;
  bufs = record { size = 2; flags = 0; source = memory (7 ∷ 8 ∷ []) } ∷ [];
}

two_bytes_converted : convert_bufvec two_bytes ≡ some two_bytes_bufvec
unfolding convert_bufvec convert_buf convert_bufs convert_source try_get_size check_position
two_bytes_converted = refl

convert_bufvec-IsValid_example : IsValid two_bytes_bufvec
convert_bufvec-IsValid_example = convert_bufvec-IsValid two_bytes two_bytes_converted

abbrev poll_calls : List PollSafety.Call
poll_calls =
    PollSafety.registers 1 96 ∷ PollSafety.notifies 96 true (pos 0) ∷ PollSafety.destroys 96 ∷ []

calls-destroyed_example :
    count 96 (PollSafety.calls empty_registry poll_calls).destroyed
      + entered 96 (PollSafety.calls empty_registry poll_calls).entries
    ≤ registrations 96 poll_calls
calls-destroyed_example = calls-destroyed 96 poll_calls

abbrev some_stat : Stat
some_stat = record {
  dev = 2049;
  ino = 4;
  mode = 33188;
  nlink = 1;
  uid = 1000;
  gid = 1000;
  rdev = 0;
  size = pos 5;
  blksize = pos 4096;
  blocks = pos 8;
  atime = record { tv_sec = pos 7; tv_nsec = pos 9 };
  mtime = record { tv_sec = pos 8; tv_nsec = pos 0 };
  ctime = record { tv_sec = pos 9; tv_nsec = pos 1 };
}

handle_setattr-route_example :
    operation (handle_setattr (λ type. true) none 4 (some some_stat) 6 none)
    ≡ some (route (λ type. true) 6)
handle_setattr-route_example = handle_setattr-route (λ type. true) none 4 some_stat 6 none

object_to_stat-stat_to_object_example :
    object_to_stat (stat_to_object some_stat)
    ≡ some (record some_stat {
      dev = 0;
      atime = whole_seconds some_stat.atime;
      mtime = whole_seconds some_stat.mtime;
      ctime = whole_seconds some_stat.ctime;
    })
object_to_stat-stat_to_object_example = object_to_stat-stat_to_object some_stat (record {
  mode = omega arith;
  nlink = omega arith;
  uid = omega arith;
  gid = omega arith;
  size = (5, refl, omega arith);
  blksize = omega arith;
  blocks = (8, refl, omega arith);
  atime = (7, refl, omega arith);
  mtime = (8, refl, omega arith);
  ctime = (9, refl, omega arith);
})

abbrev some_file_info : FileInfo
some_file_info = record {
  flags = pos 2;
  writepage = false;
  direct_io = true;
  keep_cache = false;
  flush = true;
  nonseekable = false;
  flock_release = true;
  cache_readdir = false;
  noflush = true;
  parallel_direct_writes = true;
  padding = 0;
  padding2 = 0;
  padding3 = 0;
  fh = 99;
  lock_owner = 18_446_744_073_709_551_615;
  poll_events = 5;
  backing_id = pos 1;
  compat_flags = 0;
  reserved = (0, 0);
}

object_to_file_info-file_info_to_object_example :
    object_to_file_info (file_info_to_object some_file_info) ≡ some (carried some_file_info)
object_to_file_info-file_info_to_object_example =
    object_to_file_info-file_info_to_object some_file_info (omega arith) (omega arith)

string_to_fuse_op_type-fuse_op_type_to_string_example :
    string_to_fuse_op_type (fuse_op_type_to_string Bridge.op_copy_file_range)
    ≡ Bridge.op_copy_file_range
string_to_fuse_op_type-fuse_op_type_to_string_example =
    string_to_fuse_op_type-fuse_op_type_to_string Bridge.op_copy_file_range
