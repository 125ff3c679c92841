-- ===== src/Bridge/Forgets.antt =====
-- Requests of src/fuse_bridge.cc after JavaScript has shut the dispatcher of src/tsfn_dispatcher.cc down.
use Prim.Native.String.{String}
use fuse_native.Base.{
  ℕ, ◌≡◌, refl, Bool, true, false, some, List, [], ◌∷◌, arith, ◌&&◌, ltb, leb, ap, ◌∙◌,
  if◌then◌else◌,
}
use fuse_native.Base.Int.{negsuc}
use fuse_native.Errno.{eio}
use fuse_native.Dispatcher.{
  Dispatcher, Callback, push_callback, dispatch_custom, initialize, new_dispatcher, take_callback,
  process_callback, fail_callback, handle_callback_error, find_request, has_handler, no_stats,
  error_called,
}
use fuse_native.Bridge
use fuse_native.Bridge.{FuseOpType, same_op, fuse_op_type_to_string}
use fuse_native.Bridge.Tasks.{Task, has_request, create_context}
use fuse_native.Bridge.Replies.{reply_err, on_dispatch_error, send_once}
use fuse_native.Bridge.Life.{Event, on_event, on_events}
use fuse_native.Bridge.Once.{answered}
use fuse_native.Bridge.Requests.{
  Setup, BridgeState, queued, callback, has_operation_handler, process_request, dispatch_request,
  initialize_global_dispatcher,
}
use fuse_native.Bridge.Globals.{shutdown_dispatcher}
use fuse_native.Bridge.Closing.{seen}

abbrev pub made : ℕ → Setup
made n = record { max_queue_size = n; function_made = true; threads_made = true }

abbrev first_callback : FuseOpType → ℕ → Callback
first_callback type now = record (callback type now) { request_id = 1 }

abbrev fresh : ℕ → Dispatcher
fresh n = (initialize (new_dispatcher n) true true).1

-- A new dispatcher after its first request.
abbrev pushed : ℕ → FuseOpType → ℕ → Dispatcher
pushed n type now = record (fresh n) {
  next_request_id = 2;
  pending_requests = first_callback type now ∷ [];
  callback_queue = first_callback type now ∷ [];
  entering = 1;
  stats = record no_stats { queue_size = 1; max_queue_size = 1 };
}

room : (n : ℕ) → (ltb 0 n && leb n 0) ≡ false
room n = ground arith

dispatch_custom-fresh :
    (n : ℕ) (type : FuseOpType) (now : ℕ)
    → dispatch_custom (fresh n) (callback type now) ≡ (1, pushed n type now)
unfolding dispatch_custom initialize new_dispatcher push_callback
dispatch_custom-fresh n type now =
    ap
      (λ full.
        if full then (0, record (fresh n) { next_request_id = 2 }) else (1, pushed n type now))
      (room n)

process_callback-pushed :
    (n : ℕ) (type : FuseOpType) (now : ℕ) (accepted : Bool)
    → (process_callback
        (take_callback (pushed n type now) (first_callback type now) [])
        (first_callback type now)
        []
        accepted).1
      ≡ error_called 1 (negsuc 4) ∷ []
unfolding initialize new_dispatcher take_callback process_callback has_handler fail_callback
    handle_callback_error find_request
process_callback-pushed n type now accepted = refl

process_request-anew :
    (b : BridgeState) (n : ℕ) (type : FuseOpType) (now : ℕ)
    → b.has_env ≡ true
    → has_operation_handler b type ≡ true
    → same_op type Bridge.op_destroy ≡ false
    → process_request (made n) (shutdown_dispatcher b).0 type now
      ≡ (record b { dispatcher = some (pushed n type now) }, queued 1)
unfolding process_request shutdown_dispatcher initialize_global_dispatcher dispatch_request
    has_operation_handler initialize new_dispatcher Bridge.fuse_op_type_to_string
process_request-anew b n type now env h e = rw (h, e, env, dispatch_custom-fresh n type now) refl

-- After JavaScript has shut the dispatcher down, a request whose operation is in the registry, and that
-- is not DESTROY, is queued in a new dispatcher, where the bridge has Node's environment and Node makes
-- that dispatcher. There no handler of the operation's name is, and what the worker that takes the
-- request makes of it is a reply with EIO, the only one, which libfuse is given where the context has a
-- request.
pub shutdown_dispatcher-Forgets :
    (order : List (ℕ × String)) (t : Task) (js : List Event) (b : BridgeState) (n : ℕ)
    (type : FuseOpType) (now : ℕ) (accepted : Bool)
    → b.has_env ≡ true
    → has_operation_handler b type ≡ true
    → same_op type Bridge.op_destroy ≡ false
    → let r = process_request (made n) (shutdown_dispatcher b).0 type now in
      (d : Dispatcher) × (cb : Callback) × (has_operation_handler r.0 type ≡ true)
      × (r.0.dispatcher ≡ some d)
      × (r.1 ≡ queued 1)
      × (d.callback_queue ≡ cb ∷ [])
      × (has_handler (fuse_op_type_to_string type) d.handlers ≡ false)
      × (on_events order t
            (create_context type)
            (seen 1 js (process_callback (take_callback d cb []) cb [] accepted).1)
          ≡ answered (has_request type) (some (reply_err eio)))
unfolding process_request shutdown_dispatcher initialize_global_dispatcher dispatch_request seen
    on_events on_event on_dispatch_error send_once has_operation_handler has_handler initialize
    new_dispatcher
shutdown_dispatcher-Forgets order t js b n type now accepted env h e =
    let q = process_request-anew b n type now env h e in
    (
      pushed n type now,
      first_callback type now,
      ap (λ r. has_operation_handler r.0 type) q ∙ h,
      ap (λ r. r.0.dispatcher) q,
      ap (λ r. r.1) q,
      refl,
      refl,
      ap (λ log. on_events order t (create_context type) (seen 1 js log))
          (process_callback-pushed n type now accepted),
    )
