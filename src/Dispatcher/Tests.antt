-- ===== src/Dispatcher/Tests.antt =====
-- Runs of the dispatcher of src/tsfn_dispatcher.cc, and the theorems at concrete states.
use mathlib.Core.List.Perm
use fuse_native.Base.{◌<◌, ◌≡◌, ◌⊎◌, refl, true, false, ◌&&◌, [], ◌∷◌, arith, length}
use fuse_native.Base.Int.{negsuc, ◌-ℤ◌, ◌+ℤ◌}
use fuse_native.Dispatcher.{
  Dispatcher, is_running, Callback, normal, error_called, new_dispatcher, initialize,
  register_handler, has_handler, dispatch, dispatch_custom, push_callback, count_inflight,
  take_callback, dec_inflight,
}
use fuse_native.Dispatcher.System.{registers, dispatches_custom, counts, Reach, start, later}
use fuse_native.Dispatcher.Shutdown.{
  shutdown, stop, finish, drain_workers, cancel_all_callbacks, cancel_each,
}
use fuse_native.Dispatcher.Listed.{Listed}
use fuse_native.Dispatcher.Drain.{Steps, Quiet, Reach-Quiet}
use fuse_native.Base.Int.{pos}
use fuse_native.Dispatcher.Cancel.{Closed, shutdown-Closed}
use fuse_native.Dispatcher.Pending.{Refused, Pushed, IsFull, dispatch_lem}

abbrev read : Callback
read = record {
  request_id = 0;
  operation_name = "read";
  priority = normal;
  timestamp = 10;
  has_completion = false;
  has_error = true;
}

abbrev ready : Dispatcher
ready = (initialize (new_dispatcher 2) true true).1

abbrev registered : Dispatcher
registered = (register_handler ready "read" true).1

abbrev queued : Dispatcher
queued = count_inflight (dispatch_custom registered read).1

abbrev read_1 : Callback
read_1 = record read { request_id = 1 }

abbrev taken : Dispatcher
taken = take_callback queued read_1 []

queued-Reach : Reach 2 queued
unfolding initialize new_dispatcher register_handler dispatch_custom push_callback has_handler
queued-Reach =
    later (later (later start (registers "read" true)) (dispatches_custom read))
      (counts (omega arith))

Reach-Quiet_example : (e : Dispatcher) × Steps queued e × Quiet e × (e.inflight ≡ pos 0)
unfolding initialize new_dispatcher register_handler dispatch_custom push_callback has_handler
    count_inflight
Reach-Quiet_example = Reach-Quiet queued-Reach refl

shutdown-Closed_example : ((shutdown queued []).0 ≡ true) × Closed queued [] (shutdown queued []).1
unfolding initialize new_dispatcher register_handler dispatch_custom push_callback has_handler
    count_inflight
shutdown-Closed_example = shutdown-Closed queued [] refl refl

-- The one queued callback is told twice.
told_twice : (shutdown queued []).1.log ≡ error_called 1 (negsuc 4) ∷ error_called 1 (negsuc 4) ∷ []
unfolding shutdown stop finish drain_workers cancel_all_callbacks cancel_each initialize
    new_dispatcher register_handler dispatch_custom push_callback has_handler count_inflight
    dec_inflight ◌-ℤ◌ ◌+ℤ◌
told_twice = refl

dispatch_lem_example :
    (Refused registered (dispatch registered read)
      × ((is_running registered.state
              && registered.accepting
              && has_handler read.operation_name registered.handlers
            ≡ false)
          ⊎ IsFull registered))
    ⊎ (Pushed registered (record read { has_error = false }) (dispatch registered read)
        × (is_running registered.state
              && registered.accepting
              && has_handler read.operation_name registered.handlers
            ≡ true)
        × ((registered.max_size ≡ 0) ⊎ (length registered.callback_queue < registered.max_size)))
dispatch_lem_example = dispatch_lem registered read
