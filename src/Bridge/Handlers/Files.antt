-- ===== src/Bridge/Handlers/Files.antt =====
-- src/fuse_bridge.cc: the handlers of the operations on open files and directories.
use fuse_native.Base.{ℕ, Bool, true, not, List, [], ◌∷◌, Option, none, some, if◌then◌else◌}
use fuse_native.Base.Int.{ℤ}
use fuse_native.Bridge
use fuse_native.Bridge.{FuseOpType}
use fuse_native.Bridge.Js.{
  JsValue, null, boolean, number, array_buffer, of_nat, of_int, big_u64, big_i64, object_of,
}
use fuse_native.Bridge.Objects.FileInfos.{FileInfo}
use fuse_native.Bridge.Replies.{ok_reply}
use fuse_native.Bridge.Answers.{
  answer_ok, answer_code, answer_open, answer_write, answer_getlk, answer_bmap, answer_ioctl,
}
use fuse_native.Bridge.Tasks.{
  Caller, Handled, processed, replied_now, no_reply, process, request_context, file_info_or_null,
  no_options, is_zero,
}

-- Without a handler of flush the reply is success.
unfoldable pub handle_flush : (FuseOpType → Bool) → Option Caller → ℕ → Option FileInfo → Handled
handle_flush has_handler caller ino fi =
    if has_handler Bridge.op_flush
    then process Bridge.op_flush
        (big_u64 ino ∷ file_info_or_null fi ∷ request_context caller ∷ no_options ∷ []) answer_code
    else replied_now ok_reply

-- The handler that is asked for is that of flush. A promise is not awaited.
unfoldable pub handle_release : (FuseOpType → Bool) → Option Caller → ℕ → Option FileInfo → Handled
handle_release has_handler caller ino fi =
    if has_handler Bridge.op_flush
    then processed (record {
      op_type = Bridge.op_release;
      arguments = big_u64 ino ∷ file_info_or_null fi ∷ request_context caller ∷ no_options ∷ [];
      on_resolve = answer_code;
      unawaited = true;
    })
    else replied_now ok_reply

unfoldable pub handle_fsync : Option Caller → ℕ → ℤ → Option FileInfo → Handled
handle_fsync caller ino datasync fi =
    process Bridge.op_fsync
      (big_u64 ino
        ∷ boolean (not (is_zero datasync))
        ∷ file_info_or_null fi
        ∷ request_context caller
        ∷ no_options
        ∷ [])
      answer_ok

unfoldable pub handle_releasedir : Option Caller → ℕ → Option FileInfo → Handled
handle_releasedir caller ino fi =
    process Bridge.op_releasedir
      (big_u64 ino ∷ file_info_or_null fi ∷ request_context caller ∷ no_options ∷ []) answer_ok

unfoldable pub handle_fsyncdir : Option Caller → ℕ → ℤ → Option FileInfo → Handled
handle_fsyncdir caller ino datasync fi =
    process Bridge.op_fsyncdir
      (big_u64 ino
        ∷ boolean (not (is_zero datasync))
        ∷ file_info_or_null fi
        ∷ request_context caller
        ∷ no_options
        ∷ [])
      answer_ok

abbrev flags_option : Option FileInfo → JsValue
flags_option none = object_of (("flags", number (of_nat 0)) ∷ [])
flags_option (some fi) = object_of (("flags", number (of_int fi.flags)) ∷ [])

unfoldable pub handle_open : Option Caller → ℕ → Option FileInfo → Handled
handle_open caller ino fi =
    process Bridge.op_open (big_u64 ino ∷ request_context caller ∷ flags_option fi ∷ []) answer_open

unfoldable pub handle_opendir : Option Caller → ℕ → Option FileInfo → Handled
handle_opendir caller ino fi =
    process Bridge.op_opendir (big_u64 ino ∷ request_context caller ∷ flags_option fi ∷ [])
      answer_open

unfoldable pub handle_copy_file_range :
    Option Caller → ℕ → ℕ → Option FileInfo → ℕ → ℕ → Option FileInfo → ℕ → ℤ → Handled
handle_copy_file_range caller ino_in off_in fi_in ino_out off_out fi_out len flags =
    process Bridge.op_copy_file_range
      (big_u64 ino_in
        ∷ big_u64 off_in
        ∷ file_info_or_null fi_in
        ∷ big_u64 ino_out
        ∷ big_u64 off_out
        ∷ file_info_or_null fi_out
        ∷ big_u64 len
        ∷ number (of_int flags)
        ∷ request_context caller
        ∷ no_options
        ∷ [])
      answer_write

pub record Flock : Type 0 where
  pub l_type : ℤ
  pub l_start : ℤ
  pub l_len : ℤ
  pub l_pid : ℤ

abbrev lock_object : Option Flock → JsValue
lock_object none = object_of []
lock_object (some lock) = object_of (
    ("type", number (of_int lock.l_type))
    ∷ ("start", big_i64 lock.l_start)
    ∷ ("len", big_i64 lock.l_len)
    ∷ ("pid", number (of_int lock.l_pid))
    ∷ [])

unfoldable pub handle_getlk : Option Caller → ℕ → Option FileInfo → Option Flock → Handled
handle_getlk caller ino fi lock =
    process Bridge.op_getlk
      (big_u64 ino
        ∷ file_info_or_null fi
        ∷ lock_object lock
        ∷ request_context caller
        ∷ no_options
        ∷ [])
      answer_getlk

unfoldable pub handle_setlk : Option Caller → ℕ → Option FileInfo → Option Flock → ℤ → Handled
handle_setlk caller ino fi lock sleep =
    process Bridge.op_setlk
      (big_u64 ino
        ∷ file_info_or_null fi
        ∷ lock_object lock
        ∷ boolean (not (is_zero sleep))
        ∷ request_context caller
        ∷ no_options
        ∷ [])
      answer_ok

unfoldable pub handle_bmap : Option Caller → ℕ → ℕ → ℕ → Handled
handle_bmap caller ino blocksize idx =
    process Bridge.op_bmap
      (big_u64 ino
        ∷ number (of_nat blocksize)
        ∷ big_u64 idx
        ∷ request_context caller
        ∷ no_options
        ∷ [])
      answer_bmap

abbrev bytes_or_null : List ℕ → JsValue
bytes_or_null [] = null
bytes_or_null (b ∷ bs) = array_buffer (b ∷ bs)

unfoldable pub handle_ioctl : Option Caller → ℕ → ℤ → Option FileInfo → List ℕ → ℕ → Handled
handle_ioctl caller ino cmd fi in_buf out_bufsz =
    process Bridge.op_ioctl
      (big_u64 ino
        ∷ number (of_int cmd)
        ∷ file_info_or_null fi
        ∷ bytes_or_null in_buf
        ∷ request_context caller
        ∷ object_of (("out_bufsz", number (of_nat out_bufsz)) ∷ [])
        ∷ [])
      (answer_ioctl out_bufsz)

-- The handlers of forget tell JavaScript nothing.
abbrev pub handle_forget : Handled
handle_forget = no_reply
