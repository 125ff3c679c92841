-- ===== src/Bridge/Answers.antt =====
-- src/fuse_bridge.cc: what each operation replies to the value that its handler returns or that its
-- promise resolves to.
use fuse_native.Base.{ℕ, true, false, ◌&&◌, Option, none, some, ltb, if◌then◌else◌}
use fuse_native.Base.Int.{ℤ, is_neg, pos_part}
use fuse_native.Errno.{eio, einval, erange}
use fuse_native.Bridge.Js.{
  JsValue, Number, undefined, null, number, bigint, string, array_buffer, typed_array, object,
  is_object, get_field, get, view,
}
use fuse_native.Bridge.Objects.Stats.{Read, object_to_stat, object_to_statvfs, read_u64}
use fuse_native.Bridge.Objects.FileInfos.{object_to_file_info}
use fuse_native.Bridge.Objects.Entries.{
  ◌>>=◌, has, one, extract_timeout, populate_entry, create_reply,
}
use fuse_native.Bridge.Errors.{abs, to_int}
use fuse_native.Bridge.Buffers.{convert_bufvec}
use fuse_native.Bridge.Replies.{
  Reply, reply_attr, reply_entry, reply_buf, reply_write, reply_open, reply_create, reply_statfs,
  reply_readlink, reply_lock, reply_bmap, reply_ioctl, Answer, guarded, raw, by_data, fail,
  ok_reply, error_reply, unsupported,
}

-- Unlink, rmdir, fsync, releasedir, fsyncdir, access, setlk, setxattr, removexattr, init.
unfoldable pub answer_ok : JsValue → Answer
answer_ok value = guarded ok_reply

abbrev or_fail : ℕ → Option Reply → Answer
or_fail errno_code none = fail errno_code
or_fail errno_code (some r) = guarded r

-- The timeout of an attribute reply, 1 second where there is none.
unfoldable pub attr_timeout : Option JsValue → Option Number
attr_timeout none = some one
attr_timeout (some v) = extract_timeout v

-- Getattr, setattr, truncate, chmod and chown.
unfoldable pub answer_attr : JsValue → Answer
answer_attr value = or_fail eio (do
  attr_value ← get_field "attr" value
  attr ← object_to_stat attr_value
  timeout ← attr_timeout (get_field "timeout" value)
  some (reply_attr attr timeout))

-- Lookup, for which a failure is ENOENT, and link, symlink, mknod and mkdir, for which it is EIO.
unfoldable pub answer_entry : ℕ → JsValue → Answer
answer_entry errno_code value =
    or_fail errno_code (do entry ← populate_entry value; some (reply_entry entry))

unfoldable pub answer_rename : JsValue → Answer
answer_rename undefined = guarded ok_reply
answer_rename null = guarded ok_reply
answer_rename _ = fail eio

-- Flush and release.
unfoldable pub answer_code : JsValue → Answer
answer_code (number n) = guarded (error_reply n.int32_value)
answer_code _ = guarded ok_reply

abbrev string_field : JsValue → Option Reply
string_field (string s) = some (reply_readlink s)
string_field _ = none

unfoldable pub answer_readlink : JsValue → Answer
answer_readlink (string s) = guarded (reply_readlink s)
answer_readlink value =
    or_fail eio (do target_value ← get_field "target" value; string_field target_value)

-- Open and opendir.
unfoldable pub answer_open : JsValue → Answer
answer_open value = elim (object_to_file_info value) [
  | none ↦ guarded unsupported
  | some fi ↦ guarded (reply_open fi)
]

unfoldable pub answer_create : JsValue → Answer
answer_create value =
    if has (get_field "fi" value) && has (get_field "attr" value)
    then or_fail eio (do created ← create_reply value; some (reply_create created.0 created.1))
    else guarded unsupported

unfoldable pub answer_read : JsValue → Answer
answer_read (array_buffer bytes) = guarded (reply_buf bytes)
answer_read (typed_array is_buffer bytes offset size) = guarded (reply_buf (view bytes offset size))
answer_read _ = guarded unsupported

unfoldable pub answer_read_buf : ℤ → JsValue → Answer
answer_read_buf rc value = elim (convert_bufvec value) [
  | none ↦ fail einval
  | some bufvec ↦ by_data bufvec rc
]

-- Write and copy_file_range.
unfoldable pub answer_write : JsValue → Answer
answer_write (number n) = guarded (reply_write n.uint32_value)
answer_write (bigint (some written) i) = guarded (reply_write written)
answer_write _ = guarded unsupported

abbrev bytes_field : Option JsValue → Answer
bytes_field (some (number n)) = guarded (reply_write n.uint32_value)
bytes_field _ = guarded unsupported

-- The write_buf handler that `HandleWrite` prefers.
unfoldable pub answer_write_buf : JsValue → Answer
answer_write_buf (object fs) = bytes_field (get_field "bytes" (object fs))
answer_write_buf value = answer_write value

-- A number of bytes, or a negative errno.
abbrev pub written_or_errno : Number → Answer
written_or_errno n =
    if is_neg n.int64_value
    then guarded (error_reply (to_int (abs n.int64_value)))
    else guarded (reply_write (pos_part n.int64_value))

abbrev written_field : Option JsValue → Answer
written_field (some (number n)) = written_or_errno n
written_field _ = fail eio

-- `handle_write_result` of `HandleWriteBuf`.
unfoldable pub handle_write_result : JsValue → Answer
handle_write_result (number n) = written_or_errno n
handle_write_result (bigint (some written) i) = guarded (reply_write written)
handle_write_result value = written_field (get_field "bytes" value)

unfoldable pub answer_statfs : JsValue → Answer
answer_statfs value =
    if is_object value then guarded (reply_statfs (object_to_statvfs value)) else fail eio

-- The lock that the handler returns is not read.
unfoldable pub answer_getlk : JsValue → Answer
answer_getlk value = if is_object (get "lock" value) then guarded reply_lock else fail eio

unfoldable pub answer_bmap : JsValue → Answer
answer_bmap value = elim (get_field "block" value) [
  | none ↦ fail eio
  | some v ↦ let block : Read = read_u64 false (some v) in raw (reply_bmap block.0)
]

abbrev buffer_field : ℕ → JsValue → Answer
buffer_field out_bufsz (typed_array true bytes offset size) =
    if ltb out_bufsz size then fail erange else raw (reply_ioctl (view bytes offset size))
buffer_field out_bufsz _ = fail eio

unfoldable pub answer_ioctl : ℕ → JsValue → Answer
answer_ioctl out_bufsz value = buffer_field out_bufsz (get "result" value)
