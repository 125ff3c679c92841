-- ===== src/Dispatcher/Shutdown.antt =====
-- `TSFNDispatcher::Shutdown` of src/tsfn_dispatcher.cc, where no other thread calls the dispatcher
-- meanwhile. The order in which a queue's callbacks are cancelled is left to the list.
use fuse_native.Base.{Bool, true, false, not, List, [], ◌∷◌, ◌++◌, ◌==◌, if◌then◌else◌}
use fuse_native.Base.Int.{ℤ, pos, negsuc}
use fuse_native.Dispatcher.{
  Dispatcher, uninitialized, shutting_down, shut_down, Callback, Event, error_event, dec_inflight,
  process_callback,
}

-- The end of the worker threads: a callback that one still holds is processed first.
unfoldable pub drain_workers : List Callback → Dispatcher → List Event → Dispatcher × List Event
drain_workers [] d log = (d, log)
drain_workers (cb ∷ others) d log =
    let r = process_callback d cb others false in drain_workers others r.0 (log ++ r.1)

-- The body of both loops of `cancel_all_callbacks`.
unfoldable pub cancel_each : List Callback → Dispatcher → List Event → Dispatcher × List Event
cancel_each [] d log = (d, log)
cancel_each (cb ∷ cbs) d log =
    cancel_each cbs (dec_inflight (record d { completed = cb.request_id ∷ d.completed }))
      (log ++ error_event cb)

unfoldable pub cancel_all_callbacks : Dispatcher → List Event → Dispatcher × List Event
cancel_all_callbacks d log =
    let q = cancel_each d.callback_queue d log in
    let emptied = record (q.0) {
      callback_queue = [];
      stats = record (q.0.stats) { queue_size = 0 };
    } in
    let p = cancel_each d.pending_requests emptied q.1 in
    (record (p.0) { pending_requests = [] }, p.1)

abbrev pub is_zero : ℤ → Bool
is_zero (pos n) = n == 0
is_zero (negsuc n) = false

pub record Stopped : Type 0 where
  pub dispatcher : Dispatcher
  pub log : List Event
  pub timed_out : Bool

-- What follows the end of the worker threads: cancel, wait for inflight_ == 0 until the deadline,
-- cancel again where that failed, release the handlers and abort what Node has not run.
unfoldable pub finish : Dispatcher × List Event → Stopped
finish drained =
    let cancelled = cancel_all_callbacks drained.0 drained.1 in
    let done = is_zero cancelled.0.inflight in
    let last = if done then cancelled else cancel_all_callbacks cancelled.0 cancelled.1 in
    record {
      dispatcher = record (last.0) {
        handlers = [];
        calling = [];
        callback_queue = [];
        pending_requests = [];
        state = shut_down;
      };
      log = last.1;
      timed_out = not done;
    }

abbrev pub close : Dispatcher → Dispatcher
close d = record d { state = shutting_down; accepting = false; workers_running = false }

-- From RUNNING.
unfoldable pub stop : Dispatcher → List Event → Stopped
stop d log = finish (drain_workers d.working (close d) log)

-- The result is always true.
unfoldable pub shutdown : Dispatcher → List Event → Bool × Stopped
shutdown d log = elim d.state [
  | shut_down ↦ (true, record { dispatcher = d; log = log; timed_out = false })
  | uninitialized ↦
      (true, record { dispatcher = record d { state = shut_down }; log = log; timed_out = false })
  | _ ↦ (true, stop d log)
]
