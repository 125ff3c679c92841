-- ===== src/Dispatcher.antt =====
-- src/tsfn_dispatcher.h and src/tsfn_dispatcher.cc: the dispatcher of callbacks to JavaScript.
-- Each function below is a part of a method that one mutex, or one atomic operation, makes a single
-- step; `System` interleaves them. A callback is what the code reads of a PendingCallback and its
-- context; its `completed` flag, which the queue and the map share, is the list of completed ids.
-- `working` are the callbacks that worker threads hold, `calling` those handed to Node's thread-safe
-- functions and not yet run, `entering` the calls of Dispatch between the push and the count.
pub mod System
pub mod Shutdown
pub mod Pending
pub mod Cancel
pub mod Drain
pub mod Told
pub mod Listed
mod Tests
use Prim.Native.String.{String}
use text.Mathlib.Text.{◌==◌ as str_eq}
use fuse_native.Base.{
  ℕ, zero, suc, ◌+◌, ◌%◌, ◌^◌, pred, Bool, true, false, not, ◌&&◌, ◌||◌, Option, none, some, List,
  [], ◌∷◌, ◌++◌, ltb, leb, ◌==◌, max, if◌then◌else◌, length,
}
use fuse_native.Base.Int.{ℤ, pos, negsuc, ◌+ℤ◌, ◌-ℤ◌}

pub data DispatcherState : Type 0 where
  uninitialized initializing running shutting_down shut_down : DispatcherState

abbrev pub is_running : DispatcherState → Bool
is_running running = true
is_running _ = false

pub data CallbackPriority : Type 0 where
  high normal low : CallbackPriority

abbrev pub rank : CallbackPriority → ℕ
rank high = 0
rank normal = 1
rank low = 2

pub record Callback : Type 0 where
  pub request_id : ℕ
  pub operation_name : String
  pub priority : CallbackPriority
  pub timestamp : ℕ
  pub has_completion : Bool
  pub has_error : Bool

pub record DispatcherStats : Type 0 where
  pub total_dispatched : ℕ
  pub total_completed : ℕ
  pub total_errors : ℕ
  pub queue_size : ℕ
  pub max_queue_size : ℕ

pub record Dispatcher : Type 0 where
  pub state : DispatcherState
  pub max_size : ℕ
  pub workers_running : Bool
  pub accepting : Bool
  pub inflight : ℤ
  pub next_request_id : ℕ
  pub handlers : List String
  pub callback_queue : List Callback
  pub pending_requests : List Callback
  pub completed : List ℕ
  pub working : List Callback
  pub calling : List Callback
  pub entering : ℕ
  pub stats : DispatcherStats

-- The calls of a request's function and of its two callbacks, by its id.
pub data Event : Type 0 where
  called : ℕ → Event
  completion_called : ℕ → Event
  error_called : ℕ → ℤ → Event

-- -EIO
abbrev pub eio : ℤ
eio = negsuc 4

abbrev pub inc : ℕ → ℕ
inc n = (n + 1) % 2 ^ 64

abbrev pub no_stats : DispatcherStats
no_stats = record {
  total_dispatched = 0;
  total_completed = 0;
  total_errors = 0;
  queue_size = 0;
  max_queue_size = 0;
}

unfoldable pub new_dispatcher : ℕ → Dispatcher
new_dispatcher max_queue_size = record {
  state = uninitialized;
  max_size = max_queue_size;
  workers_running = false;
  accepting = true;
  inflight = pos 0;
  next_request_id = 1;
  handlers = [];
  callback_queue = [];
  pending_requests = [];
  completed = [];
  working = [];
  calling = [];
  entering = 0;
  stats = no_stats;
}

-- Whether Node's function and the threads could be made, which may throw.
unfoldable pub initialize : Dispatcher → Bool → Bool → Bool × Dispatcher
initialize d function_made threads_made = elim d.state [
  | uninitialized ↦
      if not function_made
      then (false, d)
      else if threads_made
      then (
        true,
        record d {
          state = running;
          workers_running = true;
          accepting = true;
          next_request_id = 1;
          stats = no_stats;
        },
      )
      else (false, record d { workers_running = true })
  | _ ↦ (false, d)
]

unfoldable pub is_ready : Dispatcher → Bool
is_ready d = is_running d.state && d.workers_running

unfoldable pub has_handler : String → List String → Bool
has_handler name [] = false
has_handler name (h ∷ hs) = if str_eq h name then true else has_handler name hs

unfoldable pub erase_handler : String → List String → List String
erase_handler name [] = []
erase_handler name (h ∷ hs) = if str_eq h name then hs else h ∷ erase_handler name hs

unfoldable pub register_handler : Dispatcher → String → Bool → Bool × Dispatcher
register_handler d name created =
    if not (is_running d.state)
    then (false, d)
    else if not created
    then (false, d)
    else if has_handler name d.handlers
    then (true, d)
    else (true, record d { handlers = name ∷ d.handlers })

unfoldable pub unregister_handler : Dispatcher → String → Bool × Dispatcher
unregister_handler d name =
    if has_handler name d.handlers
    then (true, record d { handlers = erase_handler name d.handlers })
    else (false, d)

-- Whether `a` comes after `b`.
unfoldable pub compare_priority : Callback → Callback → Bool
compare_priority a b =
    if not (rank a.priority == rank b.priority)
    then ltb (rank b.priority) (rank a.priority)
    else ltb b.timestamp a.timestamp

-- The part of a dispatch up to the push: a full queue takes the request out of the map again.
unfoldable pub push_callback : Dispatcher → Callback → ℕ × Dispatcher
push_callback d cb =
    let id = d.next_request_id in
    let d' = record d { next_request_id = inc id } in
    if ltb 0 d.max_size && leb d.max_size (length d.callback_queue)
    then (0, d')
    else let cb' = record cb { request_id = id } in
      (
        id,
        record d' {
          pending_requests = cb' ∷ d.pending_requests;
          callback_queue = cb' ∷ d.callback_queue;
          entering = d.entering + 1;
          stats = record (d.stats) {
            queue_size = suc (length d.callback_queue);
            max_queue_size = max d.stats.max_queue_size (suc (length d.callback_queue));
          };
        },
      )

-- `DispatchCustom` up to the push, which has no completion callback, and `Dispatch`, which has no error
-- callback and wants a handler.
unfoldable pub dispatch_custom : Dispatcher → Callback → ℕ × Dispatcher
dispatch_custom d cb =
    if not (is_running d.state) || not d.accepting
    then (0, d)
    else push_callback d (record cb { has_completion = false })

unfoldable pub dispatch : Dispatcher → Callback → ℕ × Dispatcher
dispatch d cb =
    if not (is_running d.state) || not d.accepting
    then (0, d)
    else if has_handler cb.operation_name d.handlers
    then push_callback d (record cb { has_error = false })
    else (0, d)

-- The end of a dispatch: inflight_.fetch_add(1).
unfoldable pub count_inflight : Dispatcher → Dispatcher
count_inflight d = record d { inflight = d.inflight +ℤ pos 1; entering = pred d.entering }

unfoldable pub dec_inflight : Dispatcher → Dispatcher
dec_inflight d = record d { inflight = d.inflight -ℤ pos 1 }

unfoldable pub find_request : ℕ → List Callback → Option Callback
find_request id [] = none
find_request id (cb ∷ cbs) = if cb.request_id == id then some cb else find_request id cbs

unfoldable pub erase_request : ℕ → List Callback → List Callback
erase_request id [] = []
erase_request id (cb ∷ cbs) = if cb.request_id == id then cbs else cb ∷ erase_request id cbs

abbrev pub error_event : Callback → List Event
error_event cb = if cb.has_error then error_called cb.request_id eio ∷ [] else []

-- The error code that is passed is not read: the callback is told -EIO.
unfoldable pub handle_callback_error : Dispatcher → ℕ → ℤ → Dispatcher × List Event
handle_callback_error d id error_code =
    let d' = record d { stats = record (d.stats) { total_errors = inc d.stats.total_errors } } in
    elim (find_request id d.pending_requests) [
      | none ↦ (d', [])
      | some cb ↦ (record d' { completed = id ∷ d.completed }, error_event cb)
    ]

-- A worker takes the top of the queue, and leaves `rest`.
unfoldable pub take_callback : Dispatcher → Callback → List Callback → Dispatcher
take_callback d top rest = record d {
  callback_queue = rest;
  working = top ∷ d.working;
  stats = record (d.stats) { queue_size = length rest };
}

unfoldable pub fail_callback : Dispatcher → Callback → ℤ → Dispatcher × List Event
fail_callback d cb error_code =
    let r = handle_callback_error d cb.request_id error_code in (dec_inflight r.0, r.1)

-- A worker that holds `cb`, with the others at `others`; `accepted` is what NonBlockingCall returns.
unfoldable pub process_callback :
    Dispatcher → Callback → List Callback → Bool → Dispatcher × List Event
process_callback d cb others accepted =
    let d' = record d { working = others } in
    if not (is_running d.state)
    then fail_callback d' cb (negsuc 0)
    else if not (has_handler cb.operation_name d.handlers)
    then fail_callback d' cb (negsuc 37)
    else if accepted
    then (record d' { calling = cb ∷ d.calling }, [])
    else fail_callback d' cb eio

-- How a call ends: `call_throws` in the request's function, `completion_throws` after it.
pub data Outcome : Type 0 where
  returns call_throws completion_throws : Outcome

unfoldable pub run_outcome : Callback → Outcome → Outcome
run_outcome cb completion_throws = if cb.has_completion then completion_throws else returns
run_outcome cb outcome = outcome

-- `UpdateStats`, without the latency.
unfoldable pub update_stats : DispatcherStats → Bool → DispatcherStats
update_stats stats success =
    let stats' = record stats { total_dispatched = inc stats.total_dispatched } in
    if success then record stats' { total_completed = inc stats.total_completed } else stats'

-- The lambda that Node runs for `cb`, with the others at `others`.
unfoldable pub run_callback :
    Dispatcher → Callback → List Callback → Outcome → Dispatcher × List Event
run_callback d cb others outcome =
    let d' = record d {
      calling = others;
      pending_requests = erase_request cb.request_id d.pending_requests;
    } in
    let completion = if cb.has_completion then completion_called cb.request_id ∷ [] else [] in
    elim (run_outcome cb outcome) [
      | returns ↦ (
        dec_inflight (record d' {
          completed = cb.request_id ∷ d.completed;
          stats = update_stats d.stats true;
        }),
        called cb.request_id ∷ completion,
      )
      | call_throws ↦ (
        dec_inflight (record d' { stats = update_stats d.stats false }),
        called cb.request_id ∷ error_event cb,
      )
      | completion_throws ↦ (
        dec_inflight (record d' {
          completed = cb.request_id ∷ d.completed;
          stats = update_stats d.stats false;
        }),
        called cb.request_id ∷ completion ++ error_event cb,
      )
    ]
