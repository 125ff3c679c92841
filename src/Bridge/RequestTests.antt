-- ===== src/Bridge/RequestTests.antt =====
-- The theorems on the requests of src/fuse_bridge.cc at concrete inputs, and tests.
use fuse_native.Base.{◌≤◌, ◌≡◌, refl, true, false, List, [], ◌∷◌, none, some, length}
use fuse_native.Base.Int.{pos, negsuc}
use fuse_native.Dispatcher
use fuse_native.Dispatcher.{has_handler}
use fuse_native.Bridge
use fuse_native.Bridge.{FuseOpType, string_to_fuse_op_type, fuse_op_type_to_string, codes}
use fuse_native.Bridge.Js
use fuse_native.Bridge.Js.{JsValue, Values, Fields, of_nat, big_u64, object_of, elements}
use fuse_native.Bridge.Replies.{reply_buf, reply_err}
use fuse_native.Bridge.Answers.{answer_ok}
use fuse_native.Bridge.Tasks.{Task, has_request, create_context, no_options, request_context}
use fuse_native.Bridge.Handlers.Names.{handle_unlink}
use fuse_native.Bridge.Life.{Event, returned, dispatch_failed, on_events}
use fuse_native.Bridge.Callbacks.{Platform, req_unlink, handle}
use fuse_native.Bridge.Requests.{
  Setup, BridgeState, process_request, dispatch_request, queued, has_operation_handler,
}
use fuse_native.Bridge.Globals.{shutdown_dispatcher}
use fuse_native.Bridge.Forgets.{made, shutdown_dispatcher-Forgets}
use fuse_native.Bridge.Closing.{seen, Fails, dispatch_request-shutdown}
use fuse_native.Dispatcher.Shutdown.{shutdown}
use fuse_native.Errno.{eio}
use fuse_native.Bridge.Registry
use fuse_native.Bridge.Registry.{queued-has_handler, handlers_of, new_bridge}
use fuse_native.Bridge.Once.{answered, first_reply}
use fuse_native.Bridge.Through.{handle-once}
use fuse_native.Bridge.Tests.{byte_by_byte}

abbrev platform : Platform
platform = record {
  add_direntry = λ e. e.ino ∷ [];
  add_direntry_plus = λ name e next_offset. e.ino ∷ [];
  utf8 = codes;
  pread = byte_by_byte;
  reply_data_result = pos 0;
}

abbrev unlink_task : Task
unlink_task = record {
  op_type = Bridge.op_unlink;
  arguments = big_u64 1 ∷ Js.string "a" ∷ request_context none ∷ no_options ∷ [];
  on_resolve = answer_ok;
  unawaited = false;
}

abbrev late_failure : List Event
late_failure = returned Js.undefined ∷ dispatch_failed (negsuc 4) ∷ []

unlink_handled :
    handle platform (λ type. true) none (req_unlink 1 (some "a"))
    ≡ Bridge.Tasks.processed unlink_task
unfolding handle handle_unlink
unlink_handled = refl

handle-once_example :
    on_events [] unlink_task (create_context Bridge.op_unlink) late_failure
    ≡ answered (has_request Bridge.op_unlink) (first_reply [] unlink_task late_failure)
handle-once_example =
    handle-once [] platform (λ type. true) none (req_unlink 1 (some "a")) unlink_task late_failure
      refl unlink_handled

abbrev setup : Setup
setup = record { max_queue_size = 4; function_made = true; threads_made = true }

abbrev one_handler : List Registry.Call
one_handler = Registry.registers setup Bridge.op_unlink true ∷ []

-- The bridge after a request of the handler was queued.
abbrev after_unlink : BridgeState
after_unlink =
    (process_request setup (Registry.calls (new_bridge true) one_handler) Bridge.op_unlink 0).0

unlink_queued :
    process_request setup (Registry.calls (new_bridge true) one_handler) Bridge.op_unlink 0
    ≡ (after_unlink, queued 1)
unfolding process_request Bridge.Requests.dispatch_request Bridge.Requests.has_operation_handler
    Bridge.Requests.register_operation_handler Bridge.Requests.register_with
    Bridge.Requests.initialize_global_dispatcher Dispatcher.register_handler Dispatcher.initialize
    Dispatcher.new_dispatcher Dispatcher.dispatch_custom Dispatcher.push_callback has_handler
unlink_queued = refl

queued-has_handler_example :
    has_handler (fuse_op_type_to_string Bridge.op_unlink) (handlers_of after_unlink.dispatcher)
    ≡ true
queued-has_handler_example =
    queued-has_handler true one_handler setup Bridge.op_unlink 0 1 unlink_queued

abbrev running_dispatcher : Dispatcher.Dispatcher
running_dispatcher = (Dispatcher.initialize (Dispatcher.new_dispatcher 4) true true).1

dispatch_request-shutdown_example :
    (d' : Dispatcher.Dispatcher) × ((dispatch_request
        (new_bridge true)
        Bridge.op_unlink
        7
        running_dispatcher).0.dispatcher
      ≡ some d')
    × (let es = seen 1 late_failure (shutdown d' []).1.log in
        (2 ≤ length es)
        × Fails es
        × (on_events [] unlink_task (create_context Bridge.op_unlink) es
            ≡ answered (has_request Bridge.op_unlink) (some (reply_err eio))))
unfolding dispatch_request Dispatcher.initialize Dispatcher.new_dispatcher
    Dispatcher.dispatch_custom Dispatcher.push_callback
dispatch_request-shutdown_example =
    dispatch_request-shutdown [] unlink_task late_failure (new_bridge true) Bridge.op_unlink 7 1
      running_dispatcher refl

shutdown_dispatcher-Forgets_example :
    let r = process_request (made 4) (shutdown_dispatcher after_unlink).0 Bridge.op_unlink 9 in
    (d : Dispatcher.Dispatcher) × (cb : Dispatcher.Callback) × (has_operation_handler r.0
        Bridge.op_unlink
      ≡ true)
    × (r.0.dispatcher ≡ some d)
    × (r.1 ≡ queued 1)
    × (d.callback_queue ≡ cb ∷ [])
    × (has_handler (fuse_op_type_to_string Bridge.op_unlink) d.handlers ≡ false)
    × (on_events [] unlink_task (create_context Bridge.op_unlink) (
          seen 1 late_failure
            (Dispatcher.process_callback (Dispatcher.take_callback d cb []) cb [] true).1)
        ≡ answered (has_request Bridge.op_unlink) (some (reply_err eio)))
unfolding process_request Bridge.Requests.dispatch_request has_operation_handler
    Bridge.Requests.register_operation_handler Bridge.Requests.register_with
    Bridge.Requests.initialize_global_dispatcher Dispatcher.register_handler Dispatcher.initialize
    Dispatcher.new_dispatcher Dispatcher.dispatch_custom Dispatcher.push_callback has_handler
shutdown_dispatcher-Forgets_example =
    shutdown_dispatcher-Forgets [] unlink_task late_failure after_unlink 4 Bridge.op_unlink 9 true
      refl refl refl

-- INIT's context has no request: its reply is not sent.
init_unsent :
    on_events []
      (record unlink_task { op_type = Bridge.op_init })
      (create_context Bridge.op_init)
      (returned Js.undefined ∷ [])
    ≡ answered false (some (reply_err 0))
unfolding has_request on_events Bridge.Life.on_event Bridge.Replies.deliver Bridge.Replies.send_once
    answer_ok
init_unsent = refl
