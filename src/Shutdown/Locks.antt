-- ===== src/Shutdown/Locks.antt =====
-- Who locks `state_mutex_` of the shutdown manager of src/shutdown.cc.
use Prim.Native.String.{String}
use fuse_native.Base.{◌≡◌, ◌⊎◌, refl, true, false, none, List, arith}
use fuse_native.Shutdown.{
  ShutdownState, running, closed, same_state, ShutdownManager, initialize_manager,
}
use fuse_native.Shutdown.Manager.{
  returned, relocked, transition_state, initiate_shutdown, shutdown_global, initialize_global,
}

-- InitiateShutdown refuses, and changes nothing, where a shutdown is in progress or the state is not
-- RUNNING. Otherwise it locks the mutex that it holds: it never starts a
-- shutdown.
pub initiate_shutdown_lem :
    (m : ShutdownManager)
    → (((m.shutdown_in_progress ≡ true) ⊎ (same_state m.current_state running ≡ false))
        × (initiate_shutdown m ≡ returned (false, m)))
      ⊎ ((m.shutdown_in_progress ≡ false)
          × (same_state m.current_state running ≡ true)
          × (initiate_shutdown m ≡ relocked))
unfolding initiate_shutdown transition_state
initiate_shutdown_lem m = ground arith

-- The global shutdown of a manager that InitializeGlobalShutdownManager has just made, whatever the
-- wait would find.
shutdown_global-initialize_global :
    (states : List ShutdownState)
    → ((initialize_global none).0 ≡ true)
      × (shutdown_global (initialize_global none).1 states ≡ relocked)
unfolding initialize_global initialize_manager shutdown_global initiate_shutdown transition_state
shutdown_global-initialize_global states = (refl, refl)

-- What a forced shutdown leaves.
pub record Forced (m : ShutdownManager) : Type 0 where
  pub state : m.current_state ≡ closed
  pub in_progress : m.shutdown_in_progress ≡ true
  pub final_state : m.stats.final_state ≡ closed
  pub graceful : m.stats.graceful_completion ≡ false
