-- ===== src/Dispatcher/Pending.antt =====
-- The map of pending requests of src/tsfn_dispatcher.cc: what a dispatch puts in, what an error
-- leaves, and the waits for completion. A wait is the list of the states at its polls before the
-- deadline.
use mathlib.Core.Path.{subst}
use fuse_native.Base.{
  ℕ, zero, suc, ◌+◌, ◌≤◌, ◌<◌, ◌≡◌, ◌⊎◌, refl, sym, Bool, true, false, ◌&&◌, none, some, List, [],
  ◌∷◌, ◌==◌, if◌then◌else◌, arith, length,
}
use fuse_native.Base.Int.{ℤ}
use fuse_native.Dispatcher.{
  Dispatcher, Callback, is_running, has_handler, push_callback, dispatch, find_request,
  handle_callback_error, fail_callback, dec_inflight, error_event, inc,
}

unfoldable pub has_id : ℕ → List ℕ → Bool
has_id id [] = false
has_id id (x ∷ xs) = if x == id then true else has_id id xs

-- Whether a request is out of the map or marked completed.
unfoldable pub is_completed : ℕ → Dispatcher → Bool
is_completed id d = elim (find_request id d.pending_requests) [
  | none ↦ true
  | some cb ↦ has_id id d.completed
]

unfoldable pub is_nil : List Callback → Bool
is_nil [] = true
is_nil (cb ∷ cbs) = false

unfoldable pub wait_for_completion : ℕ → List Dispatcher → Bool
wait_for_completion id [] = false
wait_for_completion id (d ∷ ds) = if is_completed id d then true else wait_for_completion id ds

unfoldable pub wait_for_all_completion : List Dispatcher → Bool
wait_for_all_completion [] = false
wait_for_all_completion (d ∷ ds) =
    if is_nil d.pending_requests && is_nil d.callback_queue
    then true
    else wait_for_all_completion ds

-- A push under the next id.
pub record Pushed (d : Dispatcher) (cb : Callback) (r : ℕ × Dispatcher) : Type 0 where
  pub id : r.0 ≡ d.next_request_id
  pub next : r.1.next_request_id ≡ inc d.next_request_id
  pub queue : r.1.callback_queue ≡ record cb { request_id = d.next_request_id } ∷ d.callback_queue
  pub pending :
      r.1.pending_requests ≡ record cb { request_id = d.next_request_id } ∷ d.pending_requests
  pub size : r.1.stats.queue_size ≡ length d.callback_queue + 1

-- 0, and no change of the queue, the map and the statistics.
pub record Refused (d : Dispatcher) (r : ℕ × Dispatcher) : Type 0 where
  pub id : r.0 ≡ 0
  pub queue : r.1.callback_queue ≡ d.callback_queue
  pub pending : r.1.pending_requests ≡ d.pending_requests
  pub stats : r.1.stats ≡ d.stats

abbrev pub IsFull : Dispatcher → Type 0
IsFull d = (0 < d.max_size) × (d.max_size ≤ length d.callback_queue)

push_callback_lem :
    (d : Dispatcher) (cb : Callback)
    → (Refused d (push_callback d cb) × IsFull d)
      ⊎ (Pushed d cb (push_callback d cb)
          × ((d.max_size ≡ 0) ⊎ (length d.callback_queue < d.max_size)))
unfolding push_callback
push_callback_lem d cb = ground arith

-- Dispatch refuses a callback, with 0 and no change of the queue, the map and the statistics, where
-- the dispatcher does not run or does not accept, the operation has no handler or the queue is full;
-- otherwise it puts the callback into both under the next id.
pub dispatch_lem :
    (d : Dispatcher) (cb : Callback)
    → (Refused d (dispatch d cb)
        × ((is_running d.state && d.accepting && has_handler cb.operation_name d.handlers ≡ false)
            ⊎ IsFull d))
      ⊎ (Pushed d (record cb { has_error = false }) (dispatch d cb)
          × (is_running d.state && d.accepting && has_handler cb.operation_name d.handlers ≡ true)
          × ((d.max_size ≡ 0) ⊎ (length d.callback_queue < d.max_size)))
unfolding dispatch
dispatch_lem d cb = ground (arith, push_callback_lem d (record cb { has_error = false }))

has_id_head : (id : ℕ) (ids : List ℕ) → has_id id (id ∷ ids) ≡ true
unfolding has_id
has_id_head id ids = ground arith

-- Polls that find the state as it is.
abbrev pub polls : ℕ → Dispatcher → List Dispatcher
polls zero d = []
polls (suc n) d = d ∷ polls n d

wait_for_all-stuck :
    (n : ℕ) (d : Dispatcher)
    → is_nil d.pending_requests ≡ false
    → wait_for_all_completion (polls n d) ≡ false
unfolding wait_for_all_completion
wait_for_all-stuck zero d h = refl
wait_for_all-stuck (suc n) d h = rw (h) (wait_for_all-stuck n d h)

find_request-is_nil :
    (id : ℕ) (cbs : List Callback) (cb : Callback)
    → find_request id cbs ≡ some cb
    → is_nil cbs ≡ false
unfolding find_request is_nil
find_request-is_nil id [] cb h = ground arith
find_request-is_nil id (x ∷ xs) cb h = refl

wait_found :
    (id : ℕ) (d : Dispatcher) (cb : Callback)
    → find_request id d.pending_requests ≡ some cb
    → has_id id d.completed ≡ true
    → wait_for_completion id (d ∷ []) ≡ true
unfolding wait_for_completion is_completed
wait_found id d cb h c = rw (h, c, wait_for_completion, is_completed) refl

-- The state after an error of a request in the map.
abbrev failed : Dispatcher → ℕ → Dispatcher
failed d id = record d {
  completed = id ∷ d.completed;
  stats = record (d.stats) { total_errors = inc d.stats.total_errors };
}

fail_found :
    (d : Dispatcher) (cb cb' : Callback) (code : ℤ)
    → find_request cb.request_id d.pending_requests ≡ some cb'
    → fail_callback d cb code ≡ (dec_inflight (failed d cb.request_id), error_event cb')
unfolding fail_callback handle_callback_error
fail_found d cb cb' code h = rw (h, fail_callback, handle_callback_error) refl

-- After an error of a request that is in the map, with whatever code, its error callback was called
-- with -EIO, and a wait for this request ends at once; but the request is still in the map, so that
-- a wait for all requests does not end while the state stays so.
fail_callback-stays :
    (d : Dispatcher) (cb cb' : Callback) (code : ℤ) (n : ℕ)
    → find_request cb.request_id d.pending_requests ≡ some cb'
    → let r = fail_callback d cb code in
      (r.1 ≡ error_event cb')
      × (r.0.pending_requests ≡ d.pending_requests)
      × (wait_for_completion cb.request_id (r.0 ∷ []) ≡ true)
      × (wait_for_all_completion (polls n r.0) ≡ false)
unfolding dec_inflight
fail_callback-stays d cb cb' code n h =
    let d' = dec_inflight (failed d cb.request_id) in
    subst
      (λ r.
        (r.1 ≡ error_event cb')
        × (r.0.pending_requests ≡ d.pending_requests)
        × (wait_for_completion cb.request_id (r.0 ∷ []) ≡ true)
        × (wait_for_all_completion (polls n r.0) ≡ false))
      (sym (fail_found d cb cb' code h))
      (
        refl,
        refl,
        wait_found cb.request_id d' cb' h (has_id_head cb.request_id d.completed),
        wait_for_all-stuck n d' (find_request-is_nil cb.request_id d.pending_requests cb' h),
      )
