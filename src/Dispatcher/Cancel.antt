-- ===== src/Dispatcher/Cancel.antt =====
-- What a shutdown of the dispatcher of src/tsfn_dispatcher.cc does to the callbacks that are left.
use mathlib.Core.Path.{subst}
use mathlib.Core.List.{append-nil, append_assoc}
use fuse_native.Base.{
  ℕ, ◌+◌, ◌<◌, ◌≡◌, ◌≢◌, refl, not, sym, ap, ◌∙◌, Bool, true, false, List, [], ◌∷◌, ◌++◌,
  if◌then◌else◌, arith, length, length_pos,
}
use fuse_native.Base.Int.{ℤ, is_neg, pos, negsuc, pos_part, neg_part, -ℤ_parts}
use fuse_native.Dispatcher.{
  Dispatcher, running, shut_down, Callback, Event, error_event, dec_inflight,
}
use fuse_native.Dispatcher.Shutdown.{
  drain_workers, cancel_each, cancel_all_callbacks, is_zero, Stopped, finish, close, stop, shutdown,
}
use fuse_native.Dispatcher.System.{Inv}

-- `b` is `a` less `n`.
abbrev Less : ℤ → ℕ → ℤ → Type 0
Less a n b = pos_part b + neg_part a + n ≡ neg_part b + pos_part a

abbrev pub error_events : List Callback → List Event
error_events [] = []
error_events (cb ∷ cbs) = error_event cb ++ error_events cbs

-- A dispatcher and the log.
abbrev Left : Type 0
Left = Dispatcher × List Event

-- `cancel_each` counts each callback down once, tells each, and leaves the rest of the state.
record Each (cbs : List Callback) (d : Dispatcher) (log : List Event) (r : Left) : Type 0 where
  count : Less d.inflight (length cbs) r.0.inflight
  queue : r.0.callback_queue ≡ d.callback_queue
  pending : r.0.pending_requests ≡ d.pending_requests
  closed : (r.0.accepting ≡ d.accepting) × (r.0.workers_running ≡ d.workers_running)
  told : r.1 ≡ log ++ error_events cbs

cancel_each-Each :
    (cbs : List Callback) (d : Dispatcher) (log : List Event)
    → Each cbs d log (cancel_each cbs d log)
unfolding cancel_each dec_inflight
cancel_each-Each [] d log = record {
  count = omega arith;
  queue = refl;
  pending = refl;
  closed = (refl, refl);
  told = sym (append-nil log);
}
cancel_each-Each (cb ∷ cbs) d log =
    let d' = dec_inflight (record d { completed = cb.request_id ∷ d.completed }) in
    let e = cancel_each-Each cbs d' (log ++ error_event cb) in
    record {
      count = omega (arith, e.count, -ℤ_parts d.inflight (pos 1));
      queue = e.queue;
      pending = e.pending;
      closed = e.closed;
      told = e.told ∙ append_assoc log (error_event cb) (error_events cbs);
    }

-- `cancel_all_callbacks` goes over the queue and then over the map, which has the queue's callbacks
-- too.
abbrev CancelsAll : Dispatcher → List Event → Left → Type 0
CancelsAll d log r =
    Less d.inflight (length d.callback_queue + length d.pending_requests) r.0.inflight
    × (r.0.callback_queue ≡ [])
    × (r.0.pending_requests ≡ [])
    × ((r.0.accepting ≡ d.accepting) × (r.0.workers_running ≡ d.workers_running))
    × (r.1 ≡ log ++ error_events d.callback_queue ++ error_events d.pending_requests)

cancel_all_callbacks-CancelsAll :
    (d : Dispatcher) (log : List Event) → CancelsAll d log (cancel_all_callbacks d log)
unfolding cancel_all_callbacks
cancel_all_callbacks-CancelsAll d log =
    let q = cancel_each d.callback_queue d log in
    let e = cancel_each-Each d.callback_queue d log in
    let emptied = record (q.0) {
      callback_queue = [];
      stats = record (q.0.stats) { queue_size = 0 };
    } in
    let f = cancel_each-Each d.pending_requests emptied q.1 in
    (
      omega (arith, e.count, f.count),
      f.queue,
      refl,
      (f.closed.0 ∙ e.closed.0, f.closed.1 ∙ e.closed.1),
      f.told ∙ ap (λ l. l ++ error_events d.pending_requests) e.told,
    )

-- A second `cancel_all_callbacks` finds nothing.
pub cancel_twice :
    (d : Dispatcher) (log : List Event) (more : Bool)
    → let r = cancel_all_callbacks d log in
      CancelsAll d log (if more then r else cancel_all_callbacks r.0 r.1)
cancel_twice d log true = cancel_all_callbacks-CancelsAll d log
cancel_twice d log false =
    let r = cancel_all_callbacks d log in
    let (less, queue, pending, (accepting, workers), told) =
      cancel_all_callbacks-CancelsAll d log in
    let (less', queue', pending', (accepting', workers'), told') =
      cancel_all_callbacks-CancelsAll r.0 r.1 in
    (
      omega (arith, less, less', ap length queue, ap length pending),
      queue',
      pending',
      (accepting' ∙ accepting, workers' ∙ workers),
      (told'
          ∙ ap (λ q. r.1 ++ error_events q ++ error_events r.0.pending_requests) queue
          ∙ ap (λ p. r.1 ++ [] ++ error_events p) pending
          ∙ append-nil (r.1 ++ [])
          ∙ append-nil r.1
          ∙ told),
    )

-- The end of a shutdown: each queued callback was told and counted down, and then each pending one.
pub record Closed (d : Dispatcher) (log : List Event) (s : Stopped) : Type 0 where
  pub count :
      Less d.inflight (length d.callback_queue + length d.pending_requests) s.dispatcher.inflight
  pub told : s.log ≡ log ++ error_events d.callback_queue ++ error_events d.pending_requests
  pub empty :
      (s.dispatcher.callback_queue ≡ [])
      × (s.dispatcher.pending_requests ≡ [])
      × (s.dispatcher.calling ≡ [])
      × (s.dispatcher.handlers ≡ [])
  pub closed :
      (s.dispatcher.state ≡ shut_down)
      × (s.dispatcher.accepting ≡ false)
      × (s.dispatcher.workers_running ≡ false)

finish-Closed : (d : Dispatcher) (log : List Event) → Closed d log (finish (close d, log))
unfolding finish
finish-Closed d log =
    let r = cancel_all_callbacks (close d) log in
    let (less, queue, pending, (accepting, workers), told) =
      cancel_twice (close d) log (is_zero r.0.inflight) in
    record {
      count = less;
      told = told;
      empty = (refl, refl, refl, refl);
      closed = (refl, accepting, workers);
    }

shutdown_running :
    (d : Dispatcher) (log : List Event)
    → d.state ≡ running
    → d.working ≡ []
    → shutdown d log ≡ (true, finish (close d, log))
unfolding shutdown stop drain_workers
shutdown_running d log st w =
    ap (λ st'. shutdown (record d { state = st' }) log) st
    ∙ ap (λ ws. (true, finish (drain_workers ws (close d) log))) w

-- A shutdown from RUNNING, with no callback at a worker, ends with result true, state SHUT_DOWN, no
-- handler, no callback and no worker. It tells and counts down each callback of the queue, and then
-- each of the map of pending requests.
pub shutdown-Closed :
    (d : Dispatcher) (log : List Event)
    → d.state ≡ running
    → d.working ≡ []
    → ((shutdown d log).0 ≡ true) × Closed d log (shutdown d log).1
shutdown-Closed d log st w =
    subst (λ r. (r.0 ≡ true) × Closed d log r.1) (sym (shutdown_running d log st w))
      (refl, finish-Closed d log)

negative : (a : ℤ) → pos_part a < neg_part a → (is_zero a ≡ false) × (is_neg a ≡ true)
negative (pos n) h = absurd (omega (arith, h))
negative (negsuc n) h = (refl, refl)

-- Where a callback is still queued, which is then in the map too, the count of callbacks in flight
-- goes below 0, so that a shutdown of a running dispatcher whose invariant holds, with no callback
-- at a worker and no dispatch under way, waits for 0 in vain until its deadline.
shutdown-timed_out :
    {n : ℕ} (d : Dispatcher) (log : List Event)
    → Inv n d
    → d.state ≡ running
    → d.working ≡ []
    → d.entering ≡ 0
    → d.callback_queue ≢ []
    → ((shutdown d log).1.timed_out ≡ true) × (is_neg (shutdown d log).1.dispatcher.inflight ≡ true)
unfolding finish
shutdown-timed_out d log v st w z q =
    let less = cancel_all_callbacks-CancelsAll (close d) log in
    let closed = finish-Closed d log in
    let l = length_pos d.callback_queue q in
    subst (λ r. (r.1.timed_out ≡ true) × (is_neg r.1.dispatcher.inflight ≡ true))
      (sym (shutdown_running d log st w))
      (
        ap not
            (negative (cancel_all_callbacks (close d) log).0.inflight
              (omega (arith, less.0, l, v.balanced, v.covered, z, ap length w))).0,
        (negative (finish (close d, log)).dispatcher.inflight
            (omega (arith, closed.count, l, v.balanced, v.covered, z, ap length w))).1,
      )
