-- ===== src/Bridge/Closing.antt =====
-- A request of src/fuse_bridge.cc that is still queued when the dispatcher of src/tsfn_dispatcher.cc is shut down.
use Prim.Native.String.{String}
use fuse_native.Base.{
  ℕ, zero, suc, ◌≡◌, ◌≢◌, refl, Bool, true, false, not, some, List, [], ◌∷◌, ◌++◌, ◌==◌,
  if◌then◌else◌, All, arith, if_cases, ==_iff, ltb, leb, length, ◌&&◌, ◌||◌, ap, ◌∙◌, sym, ◌<◌, ◌≤◌,
  ◌⊎◌, inl, inr, Bool-cases,
}
use mathlib.Core.Path.{subst}
use fuse_native.Base.Int.{negsuc}
use fuse_native.Errno.{eio, eagain}
use fuse_native.Dispatcher
use fuse_native.Dispatcher.{
  Dispatcher, Callback, DispatcherState, is_running, inc, running, error_called, called,
  completion_called, error_event, dispatch_custom, push_callback,
}
use fuse_native.Dispatcher.Shutdown.{shutdown}
use fuse_native.Dispatcher.Cancel.{error_events}
use fuse_native.Dispatcher.Told.{shutdown-told}
use fuse_native.Bridge.{FuseOpType}
use fuse_native.Bridge.Tasks.{Task, has_request, create_context}
use fuse_native.Bridge.Replies.{Reply, new_outbox, reply_err, on_dispatch_error, send_once}
use fuse_native.Bridge.Life.{Event, dispatch_failed, on_event, on_events}
use fuse_native.Bridge.Once.{answered}
use fuse_native.Bridge.Requests.{BridgeState, refused, queued, callback, dispatch_request}

-- What the two functions that `ProcessRequest` gives to the dispatcher make of its events: a call of
-- the request's function leads to `js`, and its error callback is told the code.
unfoldable pub seen : ℕ → List Event → List Dispatcher.Event → List Event
seen id js [] = []
seen id js (error_called i code ∷ es) =
    let rest = seen id js es in if i == id then dispatch_failed code ∷ rest else rest
seen id js (called i ∷ es) = let rest = seen id js es in if i == id then js ++ rest else rest
seen id js (completion_called i ∷ es) = seen id js es

-- -EIO, and nothing else.
abbrev pub Fails : List Event → Type 0
Fails es = All (λ e. e ≡ dispatch_failed (negsuc 4)) es

-- What a request sees of a shutdown that tells some callbacks.
abbrev seen_told : ℕ → List Event → List Callback → List Event
seen_told id js cbs = seen id js (error_events cbs)

seen_told-cases :
    (id : ℕ) (js : List Event) (cb : Callback) (cbs : List Callback)
    → (seen_told id js (cb ∷ cbs) ≡ seen_told id js cbs)
      ⊎ (seen_told id js (cb ∷ cbs) ≡ dispatch_failed (negsuc 4) ∷ seen_told id js cbs)
unfolding seen
seen_told-cases id js cb cbs = elim (Bool-cases cb.has_error) [
  | inr silent ↦ inl (rw silent refl)
  | inl has ↦ elim (Bool-cases (cb.request_id == id)) [
    | inl same ↦ inr (rw (has, same) refl)
    | inr apart ↦ inl (rw (has, apart) refl)
  ]
]

seen_told-Fails : (id : ℕ) (js : List Event) (cbs : List Callback) → Fails (seen_told id js cbs)
unfolding seen
seen_told-Fails id js [] = tt
seen_told-Fails id js (cb ∷ cbs) = elim (seen_told-cases id js cb cbs) [
  | inl e ↦ subst Fails (sym e) (seen_told-Fails id js cbs)
  | inr e ↦ subst Fails (sym e) (refl, seen_told-Fails id js cbs)
]

-- A callback of the request is seen, wherever it stands.
seen_told-length :
    (id : ℕ) (js : List Event) (before : List Callback) (cb : Callback) (after : List Callback)
    → cb.request_id ≡ id
    → cb.has_error ≡ true
    → suc (length (seen_told id js after)) ≤ length (seen_told id js (before ++ (cb ∷ after)))
unfolding seen
seen_told-length id js [] cb after e h = rw (h, (==_iff cb.request_id id).1 e) (omega arith)
seen_told-length id js (x ∷ xs) cb after e h =
    let shorter = seen_told-length id js xs cb after e h in
    elim (seen_told-cases id js x (xs ++ (cb ∷ after))) [
      | inl same ↦ omega (arith, shorter, ap length same)
      | inr more ↦ omega (arith, shorter, ap length more)
    ]

on_events-again :
    (order : List (ℕ × String)) (t : Task) (request : Bool) (es : List Event)
    → Fails es
    → on_events order t (answered request (some (reply_err eio))) es
      ≡ answered request (some (reply_err eio))
unfolding on_events on_event on_dispatch_error
on_events-again order t request [] h = refl
on_events-again order t request (e ∷ es) h = rw h.0 (on_events-again order t request es h.1)

on_events-Fails :
    (order : List (ℕ × String)) (t : Task) (request : Bool) (es : List Event)
    → Fails es
    → 0 < length es
    → on_events order t (new_outbox request) es ≡ answered request (some (reply_err eio))
unfolding on_events on_event on_dispatch_error send_once
on_events-Fails order t request [] h l = absurd (omega (arith, l))
on_events-Fails order t request (e ∷ es) h l = rw h.0 (on_events-again order t request es h.1)

-- What a dispatch that gives an id has done.
record Queued (d : Dispatcher) (told : Bool) (r : ℕ × Dispatcher) : Type 0 where
  state : r.1.state ≡ running
  entry : Callback
  id : entry.request_id ≡ r.0
  error_callback : entry.has_error ≡ told
  queue : r.1.callback_queue ≡ entry ∷ d.callback_queue
  pending : r.1.pending_requests ≡ entry ∷ d.pending_requests

is_running-running : (st : DispatcherState) → not (is_running st) ≡ false → st ≡ running
is_running-running running e = refl
is_running-running _ e = cc

push_callback-Queued :
    (d : Dispatcher) (cb : Callback)
    → d.state ≡ running
    → (push_callback d cb).0 ≢ 0
    → Queued d cb.has_error (push_callback d cb)
unfolding push_callback
push_callback-Queued d cb st =
    let d' = record d { next_request_id = inc d.next_request_id } in
    if_cases (λ r. r.0 ≢ 0 → Queued d cb.has_error r)
      (ltb 0 d.max_size && leb d.max_size (length d.callback_queue)) (0, d') _
      (λ _ n. absurd (n refl))
      (λ _ _. record {
        state = st;
        entry = record cb { request_id = d.next_request_id };
        id = refl;
        error_callback = refl;
        queue = refl;
        pending = refl;
      })

dispatch_custom-Queued :
    (d : Dispatcher) (cb : Callback)
    → (dispatch_custom d cb).0 ≢ 0
    → Queued d cb.has_error (dispatch_custom d cb)
unfolding dispatch_custom
dispatch_custom-Queued d cb =
    let cb' = record cb { has_completion = false } in
    if_cases (λ r. r.0 ≢ 0 → Queued d cb.has_error r) (not (is_running d.state) || not d.accepting)
      (0, d) (push_callback d cb') (λ _ n. absurd (n refl))
      (λ f. push_callback-Queued d cb' (is_running-running d.state (ground (arith, f))))

queued_id :
    (n id : ℕ) (r : Reply)
    → (if n == 0 then refused r else queued n) ≡ queued id
    → (n ≡ id) × (n ≢ 0)
queued_id zero id r e = cc
queued_id (suc n) id r e = ground (arith, e)

-- A shutdown of the dispatcher that comes right after a request was queued, whatever else the queue and
-- the workers hold, tells the request at least twice, and nothing but -EIO. Its context takes the first
-- for a reply with EIO, which libfuse is given once where the context has a request, and no other.
pub dispatch_request-shutdown :
    (order : List (ℕ × String)) (t : Task) (js : List Event) (b : BridgeState) (type : FuseOpType)
    (now id : ℕ) (d : Dispatcher)
    → (dispatch_request b type now d).1 ≡ queued id
    → (d' : Dispatcher) × ((dispatch_request b type now d).0.dispatcher ≡ some d')
      × (let es = seen id js (shutdown d' []).1.log in
          (2 ≤ length es)
          × Fails es
          × (on_events order t (create_context type) es
              ≡ answered (has_request type) (some (reply_err eio))))
unfolding dispatch_request
dispatch_request-shutdown order t js b type now id d e =
    let r = dispatch_custom d (callback type now) in
    let d' = r.1 in
    let (same, entered) = queued_id r.0 id (reply_err eagain) e in
    let q = dispatch_custom-Queued d (callback type now) entered in
    let (held, told) = shutdown-told d' q.state in
    let after = d.callback_queue ++ (q.entry ∷ d.pending_requests) in
    let log : (shutdown d' []).1.log ≡ error_events (held ++ (q.entry ∷ after)) =
      told
      ∙ ap (λ cbs. error_events (held ++ (cbs ++ d'.pending_requests))) q.queue
      ∙ ap (λ cbs. error_events (held ++ (q.entry ∷ d.callback_queue ++ cbs))) q.pending in
    let first = seen_told-length id js held q.entry after (q.id ∙ same) q.error_callback in
    let second =
      seen_told-length id js d.callback_queue q.entry d.pending_requests (q.id ∙ same)
        q.error_callback in
    let fails = seen_told-Fails id js (held ++ (q.entry ∷ after)) in
    (
      d',
      refl,
      subst
          (λ log.
            let es = seen id js log in
            (2 ≤ length es)
            × Fails es
            × (on_events order t (create_context type) es
                ≡ answered (has_request type) (some (reply_err eio))))
          (sym log)
          (
            omega (arith, first, second),
            fails,
            on_events-Fails order t (has_request type) _ fails (omega (arith, first)),
          ),
    )
