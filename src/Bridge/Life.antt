-- ===== src/Bridge/Life.antt =====
-- src/fuse_bridge.cc: what happens to a request after `ProcessRequest` dispatched it: the dispatcher's
-- error callback, the call of the handler with `ResolvePromiseOrValue`, and the promise.
use Prim.Native.String.{String}
use fuse_native.Base.{ℕ, List, [], ◌∷◌, if◌then◌else◌}
use fuse_native.Base.Int.{ℤ}
use fuse_native.Errno.{eio}
use fuse_native.Bridge.Js.{JsValue}
use fuse_native.Bridge.Errors.{error_value}
use fuse_native.Bridge.Replies.{reply_err, Outbox, send_once, deliver, on_dispatch_error, ok_reply}
use fuse_native.Bridge.Tasks.{Task}

-- `not_callable`: the dispatcher calls back with no function. A call returns a value or a promise.
pub data Event : Type 0 where
  dispatch_failed : ℤ → Event
  not_callable promised : Event
  returned resolved rejected : JsValue → Event

-- A promise that is not awaited is answered at once. `order` is that of `string_to_errno`.
unfoldable pub on_event : List (ℕ × String) → Task → Outbox → Event → Outbox
on_event order t box (dispatch_failed error_code) = on_dispatch_error box error_code
on_event order t box not_callable = send_once box (reply_err eio)
on_event order t box promised = if t.unawaited then send_once box ok_reply else box
on_event order t box (returned value) = deliver box (t.on_resolve value)
on_event order t box (resolved value) = deliver box (t.on_resolve value)
on_event order t box (rejected reason) = send_once box (reply_err (error_value order reason))

unfoldable pub on_events : List (ℕ × String) → Task → Outbox → List Event → Outbox
on_events order t box [] = box
on_events order t box (e ∷ es) = on_events order t (on_event order t box e) es
