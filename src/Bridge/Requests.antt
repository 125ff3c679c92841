-- ===== src/Bridge/Requests.antt =====
-- src/fuse_bridge.cc: the registry of handlers, and the way of a request to the dispatcher. The global
-- dispatcher of src/tsfn_dispatcher.cc is `none` before it is made; `Setup` is the limit of its queue
-- and whether Node's function and the threads can be made, `now` the time of a dispatch.
use fuse_native.Base.{
  ℕ, ◌==◌, Bool, true, false, not, ◌||◌, List, [], ◌∷◌, Option, none, some, if◌then◌else◌,
}
use fuse_native.Errno.{eio, enosys, einval, eagain}
use fuse_native.Dispatcher.{
  Dispatcher, Callback, normal, new_dispatcher, initialize, register_handler, unregister_handler,
  dispatch_custom,
}
use fuse_native.Bridge
use fuse_native.Bridge.{FuseOpType, same_op, fuse_op_type_to_string, string_to_fuse_op_type}
use fuse_native.Bridge.Js.{JsValue, string, function}
use fuse_native.Bridge.Replies.{Reply, reply_err, ok_reply}

pub record Setup : Type 0 where
  pub max_queue_size : ℕ
  pub function_made : Bool
  pub threads_made : Bool

pub record BridgeState : Type 0 where
  pub handler_registry : List FuseOpType
  pub dispatcher : Option Dispatcher
  pub has_env : Bool

abbrev pub registered : FuseOpType → List FuseOpType → Bool
registered type [] = false
registered type (t ∷ ts) = same_op type t || registered type ts

abbrev pub erase : FuseOpType → List FuseOpType → List FuseOpType
erase type [] = []
erase type (t ∷ ts) = if same_op type t then erase type ts else t ∷ erase type ts

-- The last operation, UNKNOWN, is never registered.
unfoldable pub has_operation_handler : BridgeState → FuseOpType → Bool
has_operation_handler b type =
    if same_op type Bridge.op_unknown then false else registered type b.handler_registry

-- `InitializeGlobalDispatcher` of src/tsfn_dispatcher.cc.
unfoldable pub initialize_global_dispatcher : Setup → Option Dispatcher → Bool × Option Dispatcher
initialize_global_dispatcher setup (some d) = (false, some d)
initialize_global_dispatcher setup none =
    let r =
      initialize (new_dispatcher setup.max_queue_size) setup.function_made setup.threads_made in
    if r.0 then (true, some r.1) else (false, none)

-- `RegisterOperationHandler`, where it has a dispatcher; `created` is whether Node makes its function.
unfoldable pub register_with : BridgeState → FuseOpType → Bool → Dispatcher → Bool × BridgeState
register_with b type created d =
    let r = register_handler d (fuse_op_type_to_string type) created in
    let b' = record b { dispatcher = some r.1 } in
    if r.0
    then (
      true,
      record b' {
        handler_registry =
            if registered type b.handler_registry
            then b.handler_registry
            else type ∷ b.handler_registry;
      },
    )
    else (false, b')

unfoldable pub register_operation_handler :
    Setup → BridgeState → FuseOpType → Bool → Bool × BridgeState
register_operation_handler setup b type created =
    if same_op type Bridge.op_unknown then (false, b) else elim b.dispatcher [
      | some d ↦ register_with b type created d
      | none ↦ elim (initialize_global_dispatcher setup none).1 [
        | none ↦ (false, b)
        | some d ↦ register_with b type created d
      ]
    ]

unfoldable pub remove_operation_handler : BridgeState → FuseOpType → Bool × BridgeState
remove_operation_handler b type =
    if same_op type Bridge.op_unknown then (false, b) else elim b.dispatcher [
      | none ↦ (false, b)
      | some d ↦
          let r = unregister_handler d (fuse_op_type_to_string type) in
          let b' = record b { dispatcher = some r.1 } in
          if r.0
          then (true, record b' { handler_registry = erase type b.handler_registry })
          else (false, b')
    ]

-- The call that `ProcessRequest` dispatches.
abbrev pub callback : FuseOpType → ℕ → Callback
callback type now = record {
  request_id = 0;
  operation_name = fuse_op_type_to_string type;
  priority = normal;
  timestamp = now;
  has_completion = false;
  has_error = true;
}

pub data Started : Type 0 where
  refused : Reply → Started
  queued : ℕ → Started

unfoldable pub dispatch_request : BridgeState → FuseOpType → ℕ → Dispatcher → BridgeState × Started
dispatch_request b type now d =
    let r = dispatch_custom d (callback type now) in
    (
      record b { dispatcher = some r.1 },
      if r.0 == 0 then refused (reply_err eagain) else queued r.0,
    )

-- `ProcessRequest`, up to the push of the call.
unfoldable pub process_request : Setup → BridgeState → FuseOpType → ℕ → BridgeState × Started
process_request setup b type now =
    if not (has_operation_handler b type)
    then (b, refused (reply_err enosys))
    else elim b.dispatcher [
      | some d ↦ dispatch_request b type now d
      | none ↦
          if same_op type Bridge.op_destroy
          then (b, refused ok_reply)
          else if not b.has_env
          then (b, refused (reply_err einval))
          else elim (initialize_global_dispatcher setup none).1 [
            | none ↦ (b, refused (reply_err eio))
            | some d ↦ dispatch_request b type now d
          ]
    ]

-- `HandleDestroy` asks for its handler after it has cleared the registry.
unfoldable pub handle_destroy : Setup → BridgeState → ℕ → BridgeState × Started
handle_destroy setup b now =
    let b' = record b { handler_registry = [] } in
    elim b.dispatcher [
      | none ↦ (b', refused ok_reply)
      | some d ↦
          if not (has_operation_handler b' Bridge.op_destroy)
          then (b', refused ok_reply)
          else process_request setup b' Bridge.op_destroy now
    ]

-- The functions that JavaScript calls: `none` is an exception.
unfoldable set_operation_handler :
    Setup → BridgeState → List JsValue → Bool → Option Bool × BridgeState
set_operation_handler setup b (string operation ∷ function ∷ rest) created =
    let type = string_to_fuse_op_type operation in
    let r = register_operation_handler setup b type created in
    (if r.0 then some true else none, r.1)
set_operation_handler setup b _ created = (none, b)

unfoldable remove_handler_call : BridgeState → List JsValue → Option Bool × BridgeState
remove_handler_call b (string operation ∷ rest) =
    let r = remove_operation_handler b (string_to_fuse_op_type operation) in (some r.0, r.1)
remove_handler_call b _ = (none, b)
