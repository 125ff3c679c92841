-- ===== src/Shutdown/Calls.antt =====
-- The functions of src/shutdown.cc that JavaScript calls. An exception that a function leaves is
-- `thrown`. A conversion that fails leaves one pending and gives 0; after it `Has` is false. A call
-- that locks a mutex of its own thread does not return.
use Prim.Native.String.{String}
use fuse_native.Base.{
  ℕ, Bool, true, false, not, Option, none, some, List, [], ◌∷◌, map, if◌then◌else◌,
}
use fuse_native.Bridge.Js.{
  JsValue, Values, nil, cons, boolean, number, string, array, object_of, of_nat, get_field,
  is_object,
}
use fuse_native.Session.Registry.{Outcome, returned, thrown, hung, finish}
use fuse_native.Shutdown.{
  ShutdownState, running, draining, unmounting, closed, ShutdownManager, Event,
}
use fuse_native.Shutdown.Manager
use fuse_native.Shutdown.Manager.{
  relocked, initiate_shutdown, force_shutdown, wait_for_shutdown, initialize_global,
  set_phase_timeout,
}

-- static_cast<int>
abbrev pub state_code : ShutdownState → ℕ
state_code running = 0
state_code draining = 1
state_code unmounting = 2
state_code closed = 3

unfoldable initialize_shutdown_manager : Option ShutdownManager → Option ShutdownManager × Outcome
initialize_shutdown_manager global =
    let r = initialize_global global in (r.1, returned (boolean r.0))

-- The reason and the timeout are for the thread that is started.
unfoldable pub initiate_graceful_shutdown :
    Option ShutdownManager → Option ShutdownManager × Outcome
initiate_graceful_shutdown none = (none, thrown)
initiate_graceful_shutdown (some m) = elim (initiate_shutdown m) [
  | relocked ↦ (some m, hung)
  | Manager.returned (success, m') ↦ (some m', returned (boolean success))
]

abbrev pub reason_of : List JsValue → String
reason_of (string s ∷ rest) = s
reason_of arguments = "Forced shutdown"

unfoldable pub force_immediate_shutdown :
    Option ShutdownManager → Bool → List JsValue → Option ShutdownManager × Outcome × List Event
force_immediate_shutdown none has_queues arguments = (none, thrown, [])
force_immediate_shutdown (some m) has_queues arguments =
    elim (force_shutdown m has_queues (reason_of arguments) []) [
      | relocked ↦ (some m, hung, [])
      | Manager.returned (m', log) ↦ (some m', returned (boolean true), log)
    ]

unfoldable get_shutdown_state : Option ShutdownManager → JsValue
get_shutdown_state none = number (of_nat (state_code running))
get_shutdown_state (some m) = number (of_nat (state_code m.current_state))

abbrev pub array_of : List JsValue → Values
array_of [] = nil
array_of (v ∷ vs) = cons v (array_of vs)

abbrev pub phase_object : ShutdownState × ℕ → JsValue
phase_object (state, duration) =
    object_of (
      ("state", number (of_nat (state_code state))) ∷ ("durationMs", number (of_nat duration)) ∷ [])

-- The durations are milliseconds. `total` is the time between the start and the end, where the end is after the start.
abbrev pub total_field : Option ℕ → List (String × JsValue)
total_field none = []
total_field (some total) = ("totalDurationMs", number (of_nat total)) ∷ []

unfoldable get_shutdown_stats : Option ShutdownManager → Option ℕ → Outcome
get_shutdown_stats none total = thrown
get_shutdown_stats (some m) total = returned (
    object_of (
      ("finalState", number (of_nat (state_code m.stats.final_state)))
      ∷ ("gracefulCompletion", boolean m.stats.graceful_completion)
      ∷ ("failureReason", string m.stats.failure_reason)
      ∷ ("phaseDurations", array (array_of (map phase_object m.stats.phase_durations)))
      ∷ total_field total))

-- No callback is registered.
unfoldable register_shutdown_callback : Option ShutdownManager → List JsValue → Outcome
register_shutdown_callback global [] = thrown
register_shutdown_callback none (callback ∷ rest) = thrown
register_shutdown_callback (some m) (callback ∷ rest) =
    if is_object callback then returned (boolean true) else thrown

-- The states that the thread finds when it wakes up.
unfoldable wait_for_shutdown_completion : Option ShutdownManager → List ShutdownState → Outcome
wait_for_shutdown_completion none states = thrown
wait_for_shutdown_completion (some m) states = returned (boolean (wait_for_shutdown states))

-- A manager, and whether an exception is pending.
abbrev pub timeout_option :
    String → ShutdownState → JsValue → ShutdownManager × Bool → ShutdownManager × Bool
timeout_option key state config (m, true) = (m, true)
timeout_option key state config (m, false) = elim (get_field key config) [
  | none ↦ (m, false)
  | some (number n) ↦ (set_phase_timeout m state n.uint32_value, false)
  | some v ↦ (set_phase_timeout m state 0, true)
]

unfoldable pub configure_shutdown_timeouts :
    Option ShutdownManager → List JsValue → Option ShutdownManager × Outcome
configure_shutdown_timeouts global [] = (global, thrown)
configure_shutdown_timeouts none (config ∷ rest) = (none, thrown)
configure_shutdown_timeouts (some m) (config ∷ rest) =
    if not (is_object config)
    then (some m, thrown)
    else let r =
        timeout_option "unmounting" unmounting config
          (timeout_option "draining" draining config (m, false)) in
      (some r.0, finish r.1 (boolean true))
