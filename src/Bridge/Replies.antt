-- ===== src/Bridge/Replies.antt =====
-- src/fuse_bridge.cc: the replies of a request context, which `replied` lets pass once, and the life of
-- a request after it was handed to the dispatcher.
use Prim.Native.String.{String}
use fuse_native.Base.{ℕ, ◌==◌, Bool, true, false, List, [], ◌∷◌, if◌then◌else◌}
use fuse_native.Base.Int.{ℤ}
use fuse_native.Errno.{eio, enosys}
use fuse_native.Bridge.Js.{Number}
use fuse_native.Bridge.Objects.Stats.{Stat, StatVfs}
use fuse_native.Bridge.Objects.FileInfos.{FileInfo}
use fuse_native.Bridge.Objects.Entries.{EntryParam}
use fuse_native.Bridge.Buffers.{Bufvec}
use fuse_native.Bridge.Errors.{abs}

-- The calls of libfuse's fuse_reply_*. The lock of `reply_lock` is all zeros.
pub data Reply : Type 0 where
  reply_err : ℕ → Reply
  reply_attr : Stat → Number → Reply
  reply_entry : EntryParam → Reply
  reply_buf : List ℕ → Reply
  reply_write : ℕ → Reply
  reply_open : FileInfo → Reply
  reply_create : EntryParam → FileInfo → Reply
  reply_statfs : StatVfs → Reply
  reply_readlink : String → Reply
  reply_lock : Reply
  reply_bmap : ℕ → Reply
  reply_ioctl : List ℕ → Reply
  reply_poll : ℕ → Reply
  reply_xattr : ℕ → Reply
  reply_data : Bufvec → Reply

-- A request context as its replies see it, the latest call first; `other_replied` is the flag of the
-- second context that `HandleReaddirplus` makes for the same request.
pub record Outbox : Type 0 where
  pub has_request : Bool
  pub replied : Bool
  pub other_replied : Bool
  pub sent : List Reply

-- A new one, with a request or without.
abbrev pub new_outbox : Bool → Outbox
new_outbox has_request = record {
  has_request = has_request;
  replied = false;
  other_replied = false;
  sent = [];
}

-- `TryMarkReplied`, and what each of the Reply functions does with it.
unfoldable pub send_once : Outbox → Reply → Outbox
send_once box r =
    if box.replied
    then box
    else record box { replied = true; sent = if box.has_request then r ∷ box.sent else box.sent }

-- The same on the second context.
unfoldable pub send_other : Outbox → Reply → Outbox
send_other box r = if box.other_replied then box else record box {
  other_replied = true;
  sent = if box.has_request then r ∷ box.sent else box.sent;
}

-- A call of fuse_reply_* that does not ask `replied`.
unfoldable pub send_raw : Outbox → Reply → Outbox
send_raw box r = record box { sent = r ∷ box.sent }

-- `ReplyError` takes the code without its sign.
abbrev pub error_reply : ℤ → Reply
error_reply errno_code = reply_err (abs errno_code)

abbrev pub ok_reply : Reply
ok_reply = reply_err 0

abbrev pub unsupported : Reply
unsupported = reply_err enosys

-- How an operation answers: through its context, through the second one, past both, or by
-- fuse_reply_data and what that returns.
pub data Answer : Type 0 where
  guarded : Reply → Answer
  elsewhere : Reply → Answer
  raw : Reply → Answer
  by_data : Bufvec → ℤ → Answer

abbrev pub fail : ℕ → Answer
fail errno_code = guarded (reply_err errno_code)

-- The end of `DispatchReadBuf`: an error of fuse_reply_data is replied again.
unfoldable pub send_data : Outbox → Bufvec → ℤ → Outbox
send_data box bufvec rc =
    let box' = send_raw box (reply_data bufvec) in
    if abs rc == 0 then record box' { replied = true } else send_once box' (error_reply rc)

unfoldable pub deliver : Outbox → Answer → Outbox
deliver box (guarded r) = send_once box r
deliver box (elsewhere r) = send_other box r
deliver box (raw r) = send_raw box r
deliver box (by_data bufvec rc) = send_data box bufvec rc

-- The error callback that `ProcessRequest` gives to the dispatcher.
unfoldable pub on_dispatch_error : Outbox → ℤ → Outbox
on_dispatch_error box error_code =
    if box.replied
    then box
    else send_once box (if abs error_code == 0 then reply_err eio else error_reply error_code)
