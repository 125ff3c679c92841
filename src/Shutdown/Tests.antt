-- ===== src/Shutdown/Tests.antt =====
-- Runs of the shutdown manager of src/shutdown.cc, and the theorems at concrete managers.
use fuse_native.Base.{ℕ, zero, suc, ◌≡◌, ◌⊎◌, refl, true, false, some, [], ◌∷◌}
use fuse_native.Shutdown.{
  running, draining, closed, same_state, PhaseRun, ShutdownManager, new_manager, initialize_manager,
  execute_phase, check_phase, poll, notify_callbacks, cleanup_expired, notify_each,
}
use fuse_native.Shutdown.Manager.{
  returned, relocked, initiate_shutdown, execute_shutdown, execute_phases, enter_phase, start_phase,
  transition_state, set_phase_timeout,
}
use fuse_native.Session.Registry
use fuse_native.Session.Registry.{hung}
use fuse_native.Bridge.Js.{JsValue, object_of, number, of_nat, boolean}
use fuse_native.Shutdown.Calls.{initiate_graceful_shutdown, configure_shutdown_timeouts}
use fuse_native.Shutdown.Phases.{Ran, execute_shutdown_lem}
use fuse_native.Shutdown.Locks.{initiate_shutdown_lem}

abbrev ready : ShutdownManager
ready = (initialize_manager new_manager).1

-- The checks of the two phases come true at the second and at the first poll.
abbrev smooth : ℕ → PhaseRun
smooth zero = record {
  elapsed = 10;
  cleanup_throws = false;
  checks = false ∷ true ∷ [];
  duration = 101;
}
smooth (suc i) = record {
  elapsed = 101000000;
  cleanup_throws = false;
  checks = true ∷ [];
  duration = 4;
}

-- The first phase times out.
abbrev stuck : ℕ → PhaseRun
stuck i = record { elapsed = 10; cleanup_throws = false; checks = false ∷ []; duration = 5000 }

graceful : (execute_shutdown ready smooth "SIGTERM" 15000 []).0.stats.graceful_completion ≡ true
unfolding execute_shutdown execute_phases enter_phase start_phase execute_phase check_phase poll
    initialize_manager notify_callbacks cleanup_expired notify_each
graceful = refl

one_duration :
    (execute_shutdown ready stuck "SIGTERM" 15000 []).0.stats.phase_durations
    ≡ (draining, 5000) ∷ []
unfolding execute_shutdown execute_phases enter_phase start_phase execute_phase check_phase poll
    initialize_manager notify_callbacks cleanup_expired notify_each
one_duration = refl

execute_shutdown_example :
    let m = (execute_shutdown ready stuck "SIGTERM" 15000 []).0 in
    (m.current_state ≡ closed)
    × (m.shutdown_in_progress ≡ false)
    × (m.stats.final_state ≡ closed)
    × Ran 15000 stuck 0 ready.shutdown_phases ready.stats.phase_durations
        m.stats.graceful_completion m.stats
execute_shutdown_example = execute_shutdown_lem ready stuck "SIGTERM" 15000 []

initiate_shutdown_example :
    (((ready.shutdown_in_progress ≡ true) ⊎ (same_state ready.current_state running ≡ false))
      × (initiate_shutdown ready ≡ returned (false, ready)))
    ⊎ ((ready.shutdown_in_progress ≡ false)
        × (same_state ready.current_state running ≡ true)
        × (initiate_shutdown ready ≡ relocked))
initiate_shutdown_example = initiate_shutdown_lem ready

initiate_hangs : initiate_graceful_shutdown (some ready) ≡ (some ready, hung)
unfolding initiate_graceful_shutdown initiate_shutdown transition_state initialize_manager
initiate_hangs = refl

abbrev shorter : JsValue
shorter = object_of (("draining", number (of_nat 100)) ∷ [])

drains_shorter :
    configure_shutdown_timeouts (some ready) (shorter ∷ [])
    ≡ (some (set_phase_timeout ready draining 100), Registry.returned (boolean true))
unfolding configure_shutdown_timeouts
drains_shorter = refl
