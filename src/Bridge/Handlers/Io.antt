-- ===== src/Bridge/Handlers/Io.antt =====
-- src/fuse_bridge.cc: the handlers that read and write files and read directories. Two operations may
-- serve a read, a write or a readdirplus.
use Prim.Native.String.{String}
use fuse_native.Base.{
  ℕ, ◌+◌, ◌*◌, ◌&&◌, ◌^◌, Bool, not, List, [], ◌∷◌, ◌++◌, Option, if◌then◌else◌, length,
}
use fuse_native.Base.Int.{ℤ, to_u64}
use fuse_native.Errno.{enosys}
use fuse_native.Bridge
use fuse_native.Bridge.{FuseOpType}
use fuse_native.Bridge.Js.{
  JsValue, number, array_buffer, array, cons, nil, of_nat, big_u64, object_of,
}
use fuse_native.Bridge.Objects.FileInfos.{FileInfo}
use fuse_native.Bridge.Replies.{reply_err}
use fuse_native.Bridge.Answers.{
  answer_ok, answer_read, answer_read_buf, answer_write, answer_write_buf,
}
use fuse_native.Bridge.Dirs.{DirEntry, answer_readdir, answer_readdirplus, answer_fallback}
use fuse_native.Bridge.Objects.Entries.{EntryParam}
use fuse_native.Bridge.Tasks.{
  Caller, Handled, replied_now, process, request_context, file_info_or_null, fi_option, bit,
}

abbrev offset_option : ℕ → List (String × JsValue)
offset_option offset = ("offset", big_u64 offset) ∷ []

abbrev size_and_offset : ℕ → ℕ → Option FileInfo → JsValue
size_and_offset offset size fi =
    object_of (offset_option offset ++ (("size", number (of_nat size)) ∷ fi_option fi))

-- `DispatchReadBuf`; `rc` is what fuse_reply_data returns.
unfoldable pub dispatch_read_buf : ℤ → Option Caller → ℕ → ℕ → ℕ → Option FileInfo → Handled
dispatch_read_buf rc caller ino size offset fi =
    process Bridge.op_read_buf
      (big_u64 ino ∷ request_context caller ∷ size_and_offset offset size fi ∷ [])
      (answer_read_buf rc)

-- An off_t is converted to uint64_t.
unfoldable pub handle_read :
    ℤ → (FuseOpType → Bool) → Option Caller → ℕ → ℕ → ℤ → Option FileInfo → Handled
handle_read rc has_handler caller ino size off fi =
    if has_handler Bridge.op_read_buf
    then dispatch_read_buf rc caller ino size (to_u64 off) fi
    else if not (has_handler Bridge.op_read)
    then replied_now (reply_err enosys)
    else process Bridge.op_read
        (big_u64 ino ∷ request_context caller ∷ size_and_offset (to_u64 off) size fi ∷ [])
        answer_read

-- A fuse_bufvec of one buffer in memory.
abbrev single_bufvec : List ℕ → JsValue
single_bufvec bytes = object_of (
    ("count", number (of_nat 1))
    ∷ ("idx", number (of_nat 0))
    ∷ ("off", number (of_nat 0))
    ∷ (
      "buf",
      array (
          cons
            (object_of (
              ("size", number (of_nat (length bytes)))
              ∷ ("flags", number (of_nat 0))
              ∷ ("mem", array_buffer bytes)
              ∷ ("memSize", number (of_nat (length bytes)))
              ∷ []))
            nil),
    )
    ∷ [])

unfoldable pub handle_write :
    (FuseOpType → Bool) → Option Caller → ℕ → List ℕ → ℤ → Option FileInfo → Handled
handle_write has_handler caller ino bytes off fi =
    if has_handler Bridge.op_write_buf
    then process Bridge.op_write_buf
        (big_u64 ino
          ∷ single_bufvec bytes
          ∷ request_context caller
          ∷ object_of (offset_option (to_u64 off) ++ fi_option fi)
          ∷ [])
        answer_write_buf
    else if not (has_handler Bridge.op_write)
    then replied_now (reply_err enosys)
    else process Bridge.op_write
        (big_u64 ino
          ∷ array_buffer bytes
          ∷ request_context caller
          ∷ object_of (offset_option (to_u64 off) ++ fi_option fi)
          ∷ [])
        answer_write

abbrev dir_arguments : Option Caller → ℕ → ℕ → ℕ → Option FileInfo → List JsValue
dir_arguments caller ino size offset fi =
    big_u64 ino
    ∷ big_u64 offset
    ∷ request_context caller
    ∷ file_info_or_null fi
    ∷ object_of (("size", number (of_nat size)) ∷ [])
    ∷ []

unfoldable pub handle_readdir :
    (DirEntry → List ℕ) → Option Caller → ℕ → ℕ → ℤ → Option FileInfo → Handled
handle_readdir add_direntry caller ino size off fi =
    process Bridge.op_readdir (dir_arguments caller ino size (to_u64 off) fi)
      (answer_readdir add_direntry size)

unfoldable pub handle_readdirplus :
    (String → EntryParam → ℤ → List ℕ)
    → (FuseOpType → Bool)
    → Option Caller
    → ℕ
    → ℕ
    → ℤ
    → Option FileInfo
    → Handled
handle_readdirplus add_direntry_plus has_handler caller ino size off fi =
    if not (has_handler Bridge.op_readdirplus) && not (has_handler Bridge.op_readdir)
    then replied_now (reply_err enosys)
    else if has_handler Bridge.op_readdirplus
    then process Bridge.op_readdirplus (dir_arguments caller ino size (to_u64 off) fi)
        (answer_readdirplus add_direntry_plus (to_u64 off) size)
    else process Bridge.op_readdir (dir_arguments caller ino size (to_u64 off) fi)
        (answer_fallback add_direntry_plus (to_u64 off) size)

-- What `HandleInit` sets in the connection: FUSE_CAP_ASYNC_READ is bit 0, FUSE_CAP_SPLICE_READ bit 9 and
-- FUSE_CAP_WRITEBACK_CACHE bit 16.
pub record ConnInfo : Type 0 where
  pub proto_major : ℕ
  pub proto_minor : ℕ
  pub max_write : ℕ
  pub max_readahead : ℕ
  pub want : ℕ

abbrev with_bit : ℕ → ℕ → ℕ
with_bit k w = if bit k w then w else w + 2 ^ k

unfoldable pub negotiate : ConnInfo → ConnInfo
negotiate conn = record conn {
  want = with_bit 0 (with_bit 9 (with_bit 16 conn.want));
  max_write = 4096 * 4;
  max_readahead = 4096 * 4;
}

unfoldable pub handle_init : Option Caller → ConnInfo → Handled
handle_init caller conn =
    process Bridge.op_init
      (object_of (
          ("protoMajor", number (of_nat conn.proto_major))
          ∷ ("protoMinor", number (of_nat conn.proto_minor))
          ∷ [])
        ∷ request_context caller
        ∷ [])
      answer_ok
