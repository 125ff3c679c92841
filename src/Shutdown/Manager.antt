-- ===== src/Shutdown/Manager.antt =====
-- The run of a shutdown, and the manager's methods, of src/shutdown.cc.
use Prim.Native.String.{String, ◌++◌ as str_append}
use fuse_native.Base.{
  ℕ, ◌+◌, ◌-◌, ◌*◌, ◌/◌, Bool, true, false, not, ◌&&◌, Option, none, some, List, [], ◌∷◌, ◌++◌, leb,
  min, if◌then◌else◌,
}
use fuse_native.Shutdown.{
  ShutdownState, running, draining, closed, same_state, ShutdownPhase, PhaseRun, Event, on_begin,
  on_phase, on_failed, on_complete, signals_sessions, cancels_writes, shuts_dispatcher,
  ShutdownManager, new_manager, initialize_manager, notify_callbacks, execute_phase, ns_per_ms,
}

pub record Progress : Type 0 where
  pub manager : ShutdownManager
  pub log : List Event
  pub succeeded : Bool

-- The start of a phase: its timeout is cut to what remains of the whole one.
unfoldable pub start_phase : ℕ → ShutdownPhase → PhaseRun → ShutdownPhase
start_phase timeout_ms phase r = record phase {
  timeout = min phase.timeout ((timeout_ms * ns_per_ms - r.elapsed) / ns_per_ms);
}

-- A phase: it is entered and announced, it runs, and its duration is recorded.
unfoldable pub enter_phase :
    ℕ → ShutdownPhase → PhaseRun → ShutdownManager → List Event → ShutdownManager × List Event
enter_phase timeout_ms phase r m log =
    let started = start_phase timeout_ms phase r in
    let (m', log') =
      notify_callbacks (record m { current_state = phase.state })
        (λ id. on_phase id phase.state started.timeout) log in
    (
      record m' {
        stats = record (m'.stats) {
          phase_durations = m'.stats.phase_durations ++ ((phase.state, r.duration) ∷ []);
        };
      },
      log',
    )

-- The phases from the `i`th on, of which `done` are behind.
unfoldable pub execute_phases :
    ℕ
    → (ℕ → PhaseRun)
    → ℕ
    → List ShutdownPhase
    → List ShutdownPhase
    → ShutdownManager
    → List Event
    → Progress
execute_phases timeout_ms runs i done [] m log = record {
  manager = record m { shutdown_phases = done };
  log = log;
  succeeded = true;
}
execute_phases timeout_ms runs i done (phase ∷ phases) m log =
    let r = runs i in
    let started = start_phase timeout_ms phase r in
    let entered = enter_phase timeout_ms phase r m log in
    let rest =
      execute_phases timeout_ms runs (i + 1) (done ++ (started ∷ [])) phases entered.0 entered.1 in
    let failed = notify_callbacks entered.0 (λ id. on_failed id phase.state) entered.1 in
    if leb (timeout_ms * ns_per_ms) r.elapsed
    then record {
      manager = record m { shutdown_phases = done ++ (phase ∷ phases) };
      log = log;
      succeeded = false;
    }
    else if execute_phase started r
    then rest
    else record {
      manager = record (failed.0) { shutdown_phases = done ++ (started ∷ phases) };
      log = failed.1;
      succeeded = false;
    }

unfoldable pub execute_shutdown :
    ShutdownManager → (ℕ → PhaseRun) → String → ℕ → List Event → ShutdownManager × List Event
execute_shutdown m runs reason timeout_ms log =
    let begun = notify_callbacks m (λ id. on_begin id reason) log in
    let p = execute_phases timeout_ms runs 0 [] m.shutdown_phases begun.0 begun.1 in
    let stats' = record (p.manager.stats) {
      final_state = closed;
      graceful_completion = p.succeeded;
      failure_reason =
          if p.succeeded
          then p.manager.stats.failure_reason
          else "One or more shutdown phases failed";
    } in
    let ended =
      notify_callbacks (record (p.manager) { current_state = closed; stats = stats' })
        (λ id. on_complete id stats') p.log in
    (record (ended.0) { shutdown_in_progress = false }, ended.1)

-- What a call that may lock a mutex of its own thread comes to.
pub data Call {ℓ} (A : Type ℓ) : Type ℓ where
  returned : A → Call A
  relocked : Call A

-- `TransitionState`, by a thread that holds `state_mutex_` or does not.
unfoldable pub transition_state : Bool → ShutdownManager → ShutdownState → Call ShutdownManager
transition_state true m state = relocked
transition_state false m state = returned (record m { current_state = state })

-- A thread for `execute_shutdown` is started where the result is true.
unfoldable pub initiate_shutdown : ShutdownManager → Call (Bool × ShutdownManager)
initiate_shutdown m =
    if m.shutdown_in_progress
    then returned (false, m)
    else if not (same_state m.current_state running)
    then returned (false, record m { shutdown_in_progress = false })
    else elim (transition_state true (record m { shutdown_in_progress = true }) draining) [
      | returned m' ↦ returned (true, m')
      | relocked ↦ relocked
    ]

-- `has_queues`: whether there is a global write queue manager.
unfoldable pub force_shutdown :
    ShutdownManager → Bool → String → List Event → Call (ShutdownManager × List Event)
force_shutdown m has_queues reason log =
    let log' =
      log
      ++ (signals_sessions ∷ (if has_queues then cancels_writes ∷ [] else []))
      ++ (shuts_dispatcher ∷ []) in
    let m' = record m {
      shutdown_in_progress = true;
      stats = record (m.stats) {
        final_state = closed;
        graceful_completion = false;
        failure_reason = str_append "Force shutdown: " reason;
      };
    } in
    elim (transition_state false m' closed) [
      | relocked ↦ relocked
      | returned m'' ↦ returned (notify_callbacks m'' (λ id. on_failed id closed) log')
    ]

-- The destructor; the handlers of signals are removed in any case.
unfoldable pub destroy_manager :
    ShutdownManager → Bool → List Event → Call (ShutdownManager × List Event)
destroy_manager m has_queues log =
    let forced =
      if same_state m.current_state closed
      then returned (m, log)
      else force_shutdown m has_queues "Destructor cleanup" log in
    elim forced [
      | relocked ↦ relocked
      | returned (m', log') ↦ returned (record m' { signal_handlers_installed = false }, log')
    ]

-- The states that the waiting thread finds at its wakeups and at the deadline.
unfoldable pub wait_for_shutdown : List ShutdownState → Bool
wait_for_shutdown [] = false
wait_for_shutdown (state ∷ states) =
    if same_state state closed then true else wait_for_shutdown states

-- `InitializeGlobalShutdownManager`.
unfoldable pub initialize_global : Option ShutdownManager → Bool × Option ShutdownManager
initialize_global (some m) = (false, some m)
initialize_global none = let r = initialize_manager new_manager in (r.0, some r.1)

-- `ShutdownGlobalShutdownManager`, up to the end of its manager.
unfoldable pub shutdown_global : Option ShutdownManager → List ShutdownState → Call Bool
shutdown_global none states = returned true
shutdown_global (some m) states =
    if same_state m.current_state running
    then elim (initiate_shutdown m) [
      | relocked ↦ relocked
      | returned (success, m') ↦ returned (success && wait_for_shutdown states)
    ]
    else returned (wait_for_shutdown states)

-- The phase of a state is the first one.
unfoldable pub update_phase :
    ShutdownState → (ShutdownPhase → ShutdownPhase) → List ShutdownPhase → List ShutdownPhase
update_phase state change [] = []
update_phase state change (phase ∷ phases) =
    if same_state phase.state state
    then change phase ∷ phases
    else phase ∷ update_phase state change phases

unfoldable pub set_phase_timeout : ShutdownManager → ShutdownState → ℕ → ShutdownManager
set_phase_timeout m state timeout_ms = record m {
  shutdown_phases = update_phase state (λ p. record p { timeout = timeout_ms }) m.shutdown_phases;
}

unfoldable pub register_phase_cleanup : ShutdownManager → ShutdownState → Option ℕ → ShutdownManager
register_phase_cleanup m state action = record m {
  shutdown_phases =
      update_phase state (λ p. record p { cleanup_action = action }) m.shutdown_phases;
}

unfoldable pub register_phase_completion_check :
    ShutdownManager → ShutdownState → Option ℕ → ShutdownManager
register_phase_completion_check m state check = record m {
  shutdown_phases =
      update_phase state (λ p. record p { completion_check = check }) m.shutdown_phases;
}
