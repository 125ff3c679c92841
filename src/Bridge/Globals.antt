-- ===== src/Bridge/Globals.antt =====
-- The global dispatcher of src/tsfn_dispatcher.cc, and the functions that JavaScript calls with it. A
-- conversion that fails leaves an exception pending and gives 0 or false; after it `Has` is false.
use Prim.Native.String.{String}
use fuse_native.Base.{ℕ, Bool, true, false, not, Option, none, some, List, [], ◌∷◌, if◌then◌else◌}
use fuse_native.Session.Registry.{Outcome, returned, finish, flag}
use fuse_native.Dispatcher.{Dispatcher, Event, no_stats}
use fuse_native.Dispatcher.Shutdown.{shutdown}
use fuse_native.Bridge.Js.{
  JsValue, Number, undefined, boolean, number, object_of, of_nat, get_field, is_object,
}
use fuse_native.Bridge.Requests.{BridgeState, initialize_global_dispatcher}

-- The dispatcher is taken out of the global variable first, and is gone afterwards.
unfoldable pub shutdown_global_dispatcher : Option Dispatcher → Bool × List Event
shutdown_global_dispatcher none = (true, [])
shutdown_global_dispatcher (some d) = let r = shutdown d [] in (r.0, r.1.log)

-- `Has(key)` and `Get(key).As<Number>().Uint32Value()`, and whether an exception is pending then.
abbrev pub u32_option : String → JsValue → ℕ → Bool → ℕ × Bool
u32_option key options default true = (default, true)
u32_option key options default false = elim (get_field key options) [
  | none ↦ (default, false)
  | some (number n) ↦ (n.uint32_value, false)
  | some v ↦ (0, true)
]

-- The queue's size, and whether an exception is pending after the number of threads is read too.
unfoldable pub dispatcher_options : List JsValue → ℕ × Bool
dispatcher_options [] = (1000, false)
dispatcher_options (options ∷ rest) =
    if not (is_object options)
    then (1000, false)
    else let size = u32_option "maxQueueSize" options 1000 false in
      (size.0, (u32_option "workerThreads" options 1 size.1).1)

-- Whether Node's function and the threads could be made are arguments.
unfoldable pub initialize_dispatcher :
    List JsValue → Bool → Bool → Option Dispatcher → Option Dispatcher × Outcome
initialize_dispatcher arguments function_made threads_made global =
    let o = dispatcher_options arguments in
    let r =
      initialize_global_dispatcher
        (record {
          max_queue_size = o.0;
          function_made = function_made;
          threads_made = threads_made;
        })
        global in
    (r.1, finish o.1 (boolean r.0))

-- The timeout bounds the wait for the callbacks in flight. A number always converts.
unfoldable pub shutdown_dispatcher : BridgeState → BridgeState × Outcome × List Event
shutdown_dispatcher b =
    let r = shutdown_global_dispatcher b.dispatcher in
    (record b { dispatcher = none }, returned (boolean r.0), r.1)

unfoldable get_dispatcher_stats : Option Dispatcher → Number → Number → JsValue
get_dispatcher_stats none avg_latency_ms uptime_ms = undefined
get_dispatcher_stats (some d) avg_latency_ms uptime_ms = object_of (
    ("totalDispatched", number (of_nat d.stats.total_dispatched))
    ∷ ("totalCompleted", number (of_nat d.stats.total_completed))
    ∷ ("totalErrors", number (of_nat d.stats.total_errors))
    ∷ ("queueSize", number (of_nat d.stats.queue_size))
    ∷ ("maxQueueSize", number (of_nat d.stats.max_queue_size))
    ∷ ("avgLatencyMs", number avg_latency_ms)
    ∷ ("uptimeMs", number uptime_ms)
    ∷ [])

unfoldable pub reset_dispatcher_stats : Option Dispatcher → Option Dispatcher × Outcome
reset_dispatcher_stats none = (none, returned (boolean false))
reset_dispatcher_stats (some d) = (some (record d { stats = no_stats }), returned (boolean true))

-- The flag of SetPriorityOrdering is stored and never read.
unfoldable pub set_dispatcher_config :
    List JsValue → Option Dispatcher → Option Dispatcher × Outcome
set_dispatcher_config [] global = (global, returned (boolean false))
set_dispatcher_config (options ∷ rest) none = (none, returned (boolean false))
set_dispatcher_config (options ∷ rest) (some d) =
    if not (is_object options)
    then (some d, returned (boolean false))
    else let size = u32_option "maxQueueSize" options d.max_size false in
      (
        some (record d { max_size = size.0 }),
        finish (flag "priorityOrdering" options size.1).1 (boolean true),
      )
