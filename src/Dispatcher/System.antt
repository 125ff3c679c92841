-- ===== src/Dispatcher/System.antt =====
-- The threads of src/tsfn_dispatcher.cc, interleaved: callers of Dispatch, workers, and Node's thread.
use Prim.Native.String.{String}
use mathlib.Core.List.{Mem, Perm}
use fuse_native.Base.{
  ℕ, ◌+◌, ◌≤◌, ◌<◌, ◌≡◌, ◌⊎◌, inl, inr, Bool, true, false, List, [], ◌∷◌, arith, length,
  length-perm, Option-cases,
}
use fuse_native.Base.Int.{ℤ, pos_part, neg_part, ◌-ℤ◌, +ℤ_parts, -ℤ_parts, pos, negsuc}
use fuse_native.Dispatcher.{
  Dispatcher, Callback, Outcome, update_stats, new_dispatcher, initialize, register_handler,
  unregister_handler, compare_priority, push_callback, dispatch_custom, dispatch, count_inflight,
  dec_inflight, find_request, erase_request, handle_callback_error, take_callback, fail_callback,
  process_callback, run_callback, eio,
}

-- A step of one thread, between `Initialize` and the start of `Shutdown`.
pub data Step (d : Dispatcher) : Dispatcher → Type 0 where
  registers : (name : String) (created : Bool) → Step d (register_handler d name created).1
  unregisters : (name : String) → Step d (unregister_handler d name).1
  dispatches : (cb : Callback) → Step d (dispatch d cb).1
  dispatches_custom : (cb : Callback) → Step d (dispatch_custom d cb).1
  counts : 0 < d.entering → Step d (count_inflight d)
  takes :
      (top : Callback) (rest : List Callback)
      → Perm (top ∷ rest) d.callback_queue
      → ((z : Callback) → Mem z rest → compare_priority top z ≡ false)
      → d.workers_running ≡ true
      → Step d (take_callback d top rest)
  processes :
      (cb : Callback) (others : List Callback) (accepted : Bool)
      → Perm (cb ∷ others) d.working
      → Step d (process_callback d cb others accepted).0
  runs :
      (cb : Callback) (others : List Callback) (outcome : Outcome)
      → Perm (cb ∷ others) d.calling
      → Step d (run_callback d cb others outcome).0

pub data Reach (max_queue_size : ℕ) : Dispatcher → Type 0 where
  start : Reach max_queue_size (initialize (new_dispatcher max_queue_size) true true).1
  later : {d d' : Dispatcher} → Reach max_queue_size d → Step d d' → Reach max_queue_size d'

-- The callbacks that were pushed and have not ended.
abbrev pub alive : Dispatcher → ℕ
alive d = length d.callback_queue + length d.working + length d.calling

-- What is in flight is counted, but for the calls of Dispatch that have not counted theirs yet; the map
-- has at least as many entries as there are callbacks that have not ended; and the queue keeps its bound.
pub record Inv (max_queue_size : ℕ) (d : Dispatcher) : Type 0 where
  pub balanced : pos_part d.inflight + d.entering ≡ neg_part d.inflight + alive d
  pub covered : alive d ≤ length d.pending_requests
  pub size : d.stats.queue_size ≡ length d.callback_queue
  pub limit : d.max_size ≡ max_queue_size
  pub bounded : (max_queue_size ≡ 0) ⊎ (length d.callback_queue ≤ max_queue_size)

erase_request-length :
    (id : ℕ) (cbs : List Callback) → length cbs ≤ length (erase_request id cbs) + 1
unfolding erase_request
erase_request-length id [] = omega arith
erase_request-length id (cb ∷ cbs) = ground (arith, erase_request-length id cbs)

push-Inv : {n : ℕ} (d : Dispatcher) (cb : Callback) → Inv n d → Inv n (push_callback d cb).1
unfolding push_callback
push-Inv d cb v = ground arith

-- `HandleCallbackError` leaves all but the statistics of errors and the completed flags.
pub handle_cases {ℓ} :
    (P : Dispatcher → Type ℓ) (d : Dispatcher) (id : ℕ) (code : ℤ)
    → ((errors : ℕ) (done : List ℕ)
        → P (record d { completed = done; stats = record (d.stats) { total_errors = errors } }))
    → P (handle_callback_error d id code).0
unfolding handle_callback_error
handle_cases P d id code h = elim (Option-cases (find_request id d.pending_requests)) [
  | inl e ↦ rw (e, handle_callback_error) (h _ d.completed)
  | inr (cb, e) ↦ rw (e, handle_callback_error) (h _ _)
]

fail-Inv :
    {n : ℕ} (d : Dispatcher) (cb : Callback) (others : List Callback) (code : ℤ)
    → Perm (cb ∷ others) d.working
    → Inv n d
    → Inv n (fail_callback (record d { working = others }) cb code).0
unfolding fail_callback dec_inflight
fail-Inv {n} d cb others code p v =
    handle_cases (λ d'. Inv n (record d' { inflight = d'.inflight -ℤ pos 1 }))
      (record d { working = others }) cb.request_id code
      (λ errors done. ground (arith, -ℤ_parts d.inflight (pos 1), length-perm p))

process-Inv :
    {n : ℕ} (d : Dispatcher) (cb : Callback) (others : List Callback) (accepted : Bool)
    → Perm (cb ∷ others) d.working
    → Inv n d
    → Inv n (process_callback d cb others accepted).0
unfolding process_callback
process-Inv d cb others accepted p v = ground (
  arith,
  length-perm p,
  fail-Inv d cb others (negsuc 0) p v,
  fail-Inv d cb others (negsuc 37) p v,
  fail-Inv d cb others eio p v,
)

run-Inv :
    {n : ℕ} (d : Dispatcher) (cb : Callback) (others : List Callback) (outcome : Outcome)
    → Perm (cb ∷ others) d.calling
    → Inv n d
    → Inv n (run_callback d cb others outcome).0
unfolding run_callback dec_inflight update_stats
run-Inv d cb others outcome p v = ground (
  arith,
  length-perm p,
  -ℤ_parts d.inflight (pos 1),
  erase_request-length cb.request_id d.pending_requests,
)

dispatch_custom-Inv :
    {n : ℕ} (d : Dispatcher) (cb : Callback) → Inv n d → Inv n (dispatch_custom d cb).1
unfolding dispatch_custom
dispatch_custom-Inv d cb v = ground (arith, push-Inv d (record cb { has_completion = false }) v)

dispatch-Inv : {n : ℕ} (d : Dispatcher) (cb : Callback) → Inv n d → Inv n (dispatch d cb).1
unfolding dispatch
dispatch-Inv d cb v = ground (arith, push-Inv d (record cb { has_error = false }) v)

Step-Inv : {n : ℕ} {d d' : Dispatcher} → Step d d' → Inv n d → Inv n d'
unfolding register_handler unregister_handler count_inflight take_callback
Step-Inv (registers name created) v = ground arith
Step-Inv (unregisters name) v = ground arith
Step-Inv {d} (dispatches cb) v = dispatch-Inv d cb v
Step-Inv {d} (dispatches_custom cb) v = dispatch_custom-Inv d cb v
Step-Inv {d} (counts h) v = ground (arith, +ℤ_parts d.inflight (pos 1))
Step-Inv (takes top rest p t r) v = ground (arith, length-perm p)
Step-Inv {d} (processes cb others accepted p) v = process-Inv d cb others accepted p v
Step-Inv {d} (runs cb others outcome p) v = run-Inv d cb others outcome p v

-- Every state that callers of Dispatch, workers and Node's thread can reach, in whatever order they take
-- their steps, has these properties.
pub Reach-Inv : {n : ℕ} {d : Dispatcher} → Reach n d → Inv n d
unfolding new_dispatcher initialize
Reach-Inv start = omega arith
Reach-Inv (later r st) = Step-Inv st (Reach-Inv r)
