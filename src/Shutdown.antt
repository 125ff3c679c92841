-- ===== src/Shutdown.antt =====
-- src/shutdown.h and src/shutdown.cc: the shutdown manager. Times are nanoseconds, timeouts
-- milliseconds. What a run of the shutdown meets is a parameter (`PhaseRun`): the time at which each
-- phase starts, whether its cleanup throws, what its check answers at each poll before the phase's
-- timeout, and how long it takes. A std::mutex that its own thread locks again never returns.
pub mod Manager
pub mod Phases
pub mod Calls
pub mod Locks
pub mod Sessions
mod Tests
use Prim.Native.String.{String}
use fuse_native.Base.{
  ℕ, zero, suc, ◌+◌, ◌-◌, ◌*◌, ◌/◌, Bool, true, false, not, ◌&&◌, Option, none, some, List, [], ◌∷◌,
  ◌++◌, ltb, leb, ◌==◌, min, if◌then◌else◌,
}

pub data ShutdownState : Type 0 where
  running draining unmounting closed : ShutdownState

abbrev pub same_state : ShutdownState → ShutdownState → Bool
same_state running running = true
same_state draining draining = true
same_state unmounting unmounting = true
same_state closed closed = true
same_state _ _ = false

-- The two functions of a phase are named by numbers.
pub record ShutdownPhase : Type 0 where
  pub state : ShutdownState
  pub description : String
  pub timeout : ℕ
  pub completion_check : Option ℕ
  pub cleanup_action : Option ℕ

pub record PhaseRun : Type 0 where
  pub elapsed : ℕ
  pub cleanup_throws : Bool
  pub checks : List Bool
  pub duration : ℕ

pub record ShutdownStats : Type 0 where
  pub final_state : ShutdownState
  pub phase_durations : List (ShutdownState × ℕ)
  pub graceful_completion : Bool
  pub failure_reason : String

pub data Event : Type 0 where
  on_begin : ℕ → String → Event
  on_phase : ℕ → ShutdownState → ℕ → Event
  on_failed : ℕ → ShutdownState → Event
  on_complete : ℕ → ShutdownStats → Event
  signals_sessions cancels_writes shuts_dispatcher : Event

-- A weak pointer to a callback, and whether it still leads to one.
pub record Listener : Type 0 where
  pub id : ℕ
  pub alive : Bool

pub record ShutdownManager : Type 0 where
  pub current_state : ShutdownState
  pub signal_handlers_installed : Bool
  pub shutdown_in_progress : Bool
  pub shutdown_phases : List ShutdownPhase
  pub callbacks : List Listener
  pub stats : ShutdownStats

abbrev pub no_stats : ShutdownStats
no_stats = record {
  final_state = running;
  phase_durations = [];
  graceful_completion = false;
  failure_reason = "";
}

abbrev pub new_manager : ShutdownManager
new_manager = record {
  current_state = running;
  signal_handlers_installed = false;
  shutdown_in_progress = false;
  shutdown_phases = [];
  callbacks = [];
  stats = no_stats;
}

-- Their functions are 0 and 1.
abbrev default_phases : List ShutdownPhase
default_phases =
    record {
      state = draining;
      description = "Draining pending operations";
      timeout = 5000;
      completion_check = some 0;
      cleanup_action = some 0;
    }
    ∷ record {
      state = unmounting;
      description = "Unmounting FUSE sessions";
      timeout = 8000;
      completion_check = some 1;
      cleanup_action = some 1;
    }
    ∷ []

unfoldable pub initialize_manager : ShutdownManager → Bool × ShutdownManager
initialize_manager m = if not (same_state m.current_state running) then (false, m) else (
  true,
  record m { shutdown_phases = default_phases; signal_handlers_installed = true; stats = no_stats },
)

-- `CleanupExpiredCallbacks`.
unfoldable pub cleanup_expired : List Listener → List Listener
cleanup_expired [] = []
cleanup_expired (l ∷ ls) = if l.alive then l ∷ cleanup_expired ls else cleanup_expired ls

unfoldable remove_listener : ℕ → List Listener → List Listener
remove_listener id [] = []
remove_listener id (l ∷ ls) =
    if not l.alive
    then remove_listener id ls
    else if l.id == id
    then remove_listener id ls
    else l ∷ remove_listener id ls

unfoldable register_callback : ShutdownManager → Option ℕ → ShutdownManager
register_callback m none = m
register_callback m (some id) = record m {
  callbacks = m.callbacks ++ (record { id = id; alive = true } ∷ []);
}

unfoldable unregister_callback : ShutdownManager → Option ℕ → ShutdownManager
unregister_callback m none = m
unregister_callback m (some id) = record m { callbacks = remove_listener id m.callbacks }

unfoldable pub notify_each : (ℕ → Event) → List Listener → List Event
notify_each event [] = []
notify_each event (l ∷ ls) = event l.id ∷ notify_each event ls

unfoldable pub notify_callbacks :
    ShutdownManager → (ℕ → Event) → List Event → ShutdownManager × List Event
notify_callbacks m event log =
    let alive = cleanup_expired m.callbacks in
    (record m { callbacks = alive }, log ++ notify_each event alive)

-- Whether a poll's answer is true before the timeout.
unfoldable pub poll : List Bool → Bool
poll [] = false
poll (answer ∷ answers) = if answer then true else poll answers

unfoldable pub check_phase : ShutdownPhase → PhaseRun → Bool
check_phase phase r = elim phase.completion_check [ none ↦ true | some check ↦ poll r.checks ]

unfoldable pub execute_phase : ShutdownPhase → PhaseRun → Bool
execute_phase phase r = elim phase.cleanup_action [
  | none ↦ check_phase phase r
  | some action ↦ if r.cleanup_throws then false else check_phase phase r
]

abbrev pub ns_per_ms : ℕ
ns_per_ms = 1000000
