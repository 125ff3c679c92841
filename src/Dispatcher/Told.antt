-- ===== src/Dispatcher/Told.antt =====
-- Whom a shutdown of the dispatcher of src/tsfn_dispatcher.cc tells, where workers may hold callbacks.
use mathlib.Core.List.{append_assoc, append-nil}
use fuse_native.Base.{
  ◌≡◌, refl, sym, ap, ◌∙◌, not, false, List, [], ◌∷◌, ◌++◌, inl, inr, Option-cases, if_cases,
}
use fuse_native.Base.Int.{ℤ, negsuc}
use fuse_native.Dispatcher.{
  Dispatcher, running, has_handler, eio, Callback, Event, is_running, find_request, error_event,
  handle_callback_error, fail_callback, process_callback, dec_inflight,
}
use fuse_native.Dispatcher.Shutdown.{
  drain_workers, cancel_all_callbacks, is_zero, finish, close, stop, shutdown,
}
use fuse_native.Dispatcher.Cancel.{error_events, cancel_twice}

-- From `(d, log)` to `r`: some callbacks were told, and the queue and the map are as they were.
record Tells (d : Dispatcher) (log : List Event) (r : Dispatcher × List Event) : Type 0 where
  cbs : List Callback
  told : r.1 ≡ log ++ error_events cbs
  queue : r.0.callback_queue ≡ d.callback_queue
  pending : r.0.pending_requests ≡ d.pending_requests

fail_callback-Tells :
    (d : Dispatcher) (cb : Callback) (others : List Callback) (code : ℤ)
    → Tells d [] (fail_callback (record d { working = others }) cb code)
unfolding fail_callback handle_callback_error dec_inflight
fail_callback-Tells d cb others code =
    elim (Option-cases (find_request cb.request_id d.pending_requests)) [
      | inl e ↦
          rw (e, handle_callback_error)
            (record { cbs = []; told = refl; queue = refl; pending = refl })
      | inr (found, e) ↦
          rw (e, handle_callback_error)
            (record {
              cbs = found ∷ [];
              told = sym (append-nil (error_event found));
              queue = refl;
              pending = refl;
            })
    ]

-- A call that Node does not take, in any state.
process_callback-Tells :
    (d : Dispatcher) (cb : Callback) (others : List Callback)
    → Tells d [] (process_callback d cb others false)
unfolding process_callback
process_callback-Tells d cb others =
    if_cases (Tells d []) (not (is_running d.state)) _ _
      (λ _. fail_callback-Tells d cb others (negsuc 0))
      (λ _.
        if_cases (Tells d []) (not (has_handler cb.operation_name d.handlers)) _ _
          (λ _. fail_callback-Tells d cb others (negsuc 37))
          (λ _. fail_callback-Tells d cb others eio))

error_events-append :
    (xs ys : List Callback) → error_events (xs ++ ys) ≡ error_events xs ++ error_events ys
error_events-append [] ys = refl
error_events-append (x ∷ xs) ys =
    ap (λ l. error_event x ++ l) (error_events-append xs ys)
    ∙ sym (append_assoc (error_event x) (error_events xs) (error_events ys))

drain_workers-Tells :
    (ws : List Callback) (d : Dispatcher) (log : List Event) → Tells d log (drain_workers ws d log)
unfolding drain_workers
drain_workers-Tells [] d log = record {
  cbs = [];
  told = sym (append-nil log);
  queue = refl;
  pending = refl;
}
drain_workers-Tells (w ∷ ws) d log =
    let r = process_callback d w ws false in
    let t = process_callback-Tells d w ws in
    let u = drain_workers-Tells ws r.0 (log ++ r.1) in
    record {
      cbs = t.cbs ++ u.cbs;
      told =
          u.told
          ∙ ap (λ l. (log ++ l) ++ error_events u.cbs) t.told
          ∙ append_assoc log (error_events t.cbs) (error_events u.cbs)
          ∙ ap (λ l. log ++ l) (sym (error_events-append t.cbs u.cbs));
      queue = u.queue ∙ t.queue;
      pending = u.pending ∙ t.pending;
    }

-- A shutdown from RUNNING tells callbacks that its workers hold, then each callback of the queue, and
-- then each of the map of pending requests.
pub shutdown-told :
    (d : Dispatcher)
    → d.state ≡ running
    → (cbs : List Callback) × ((shutdown d []).1.log
        ≡ error_events (cbs ++ (d.callback_queue ++ d.pending_requests)))
unfolding shutdown stop finish
shutdown-told d st =
    let drained = drain_workers d.working (close d) [] in
    let t = drain_workers-Tells d.working (close d) [] in
    let r = cancel_all_callbacks drained.0 drained.1 in
    let (less, queue, pending, closed, told) =
      cancel_twice drained.0 drained.1 (is_zero r.0.inflight) in
    let q = error_events d.callback_queue in
    let p = error_events d.pending_requests in
    (
      t.cbs,
      ap (λ st'. (shutdown (record d { state = st' }) []).1.log) st
          ∙ told
          ∙ ap
              (λ l.
                l
                ++ error_events drained.0.callback_queue
                ++ error_events drained.0.pending_requests)
              t.told
          ∙ ap
              (λ cbs.
                error_events t.cbs ++ error_events cbs ++ error_events drained.0.pending_requests)
              t.queue
          ∙ ap (λ cbs. error_events t.cbs ++ q ++ error_events cbs) t.pending
          ∙ append_assoc (error_events t.cbs) q p
          ∙ ap (λ l. error_events t.cbs ++ l)
              (sym (error_events-append d.callback_queue d.pending_requests))
          ∙ sym (error_events-append t.cbs (d.callback_queue ++ d.pending_requests)),
    )
