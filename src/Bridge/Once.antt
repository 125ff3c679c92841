-- ===== src/Bridge/Once.antt =====
-- A request of src/fuse_bridge.cc that is answered through its context is replied to once.
use Prim.Native.String.{String}
use fuse_native.Base.{
  ℕ, ◌≡◌, refl, List, [], ◌∷◌, Option, none, some, true, false, Bool, if◌then◌else◌, ◌==◌,
  Bool-cases, inl, inr,
}
use fuse_native.Errno.{eio}
use fuse_native.Bridge.Js.{JsValue}
use fuse_native.Bridge.Errors.{abs, error_value}
use fuse_native.Bridge.Replies.{
  Reply, reply_err, Outbox, new_outbox, send_once, Answer, guarded, elsewhere, raw, by_data,
  deliver, on_dispatch_error, ok_reply, error_reply,
}
use fuse_native.Bridge.Tasks.{Task, Handled, processed, replied_now, no_reply}
use fuse_native.Bridge.Life.{
  Event, dispatch_failed, not_callable, promised, returned, resolved, rejected, on_event, on_events,
}

abbrev pub reply_of : Answer → Option Reply
reply_of (guarded r) = some r
reply_of _ = none

abbrev pub is_guarded : Answer → Bool
is_guarded (guarded r) = true
is_guarded _ = false

-- The reply that an event alone calls for.
abbrev pub event_reply : List (ℕ × String) → Task → Event → Option Reply
event_reply order t (dispatch_failed error_code) =
    some (if abs error_code == 0 then reply_err eio else error_reply error_code)
event_reply order t not_callable = some (reply_err eio)
event_reply order t promised = if t.unawaited then some ok_reply else none
event_reply order t (returned value) = reply_of (t.on_resolve value)
event_reply order t (resolved value) = reply_of (t.on_resolve value)
event_reply order t (rejected reason) = some (reply_err (error_value order reason))

abbrev pub or_later : Option Reply → Option Reply → Option Reply
or_later none later = later
or_later (some r) later = some r

abbrev pub first_reply : List (ℕ × String) → Task → List Event → Option Reply
first_reply order t [] = none
first_reply order t (e ∷ es) = or_later (event_reply order t e) (first_reply order t es)

abbrev pub is_replied : Option Reply → Bool
is_replied none = false
is_replied (some r) = true

-- What libfuse is given: nothing for a context without a request.
abbrev pub sent_by : Bool → Option Reply → List Reply
sent_by request none = []
sent_by request (some r) = if request then r ∷ [] else []

-- A context after the first reply.
abbrev pub answered : Bool → Option Reply → Outbox
answered request o = record (new_outbox request) {
  replied = is_replied o;
  sent = sent_by request o;
}

deliver-once :
    (request : Bool) (o : Option Reply) (a : Answer)
    → is_guarded a ≡ true
    → deliver (answered request o) a ≡ answered request (or_later o (reply_of a))
unfolding deliver send_once
deliver-once request none (guarded r) h = refl
deliver-once request (some q) (guarded r) h = refl
deliver-once request o (elsewhere r) h = cc
deliver-once request o (raw r) h = cc
deliver-once request o (by_data bufvec rc) h = cc

send_once-once :
    (request : Bool) (o : Option Reply) (r : Reply)
    → send_once (answered request o) r ≡ answered request (or_later o (some r))
unfolding send_once
send_once-once request none r = refl
send_once-once request (some q) r = refl

or_later-none : (o : Option Reply) → or_later o none ≡ o
or_later-none none = refl
or_later-none (some r) = refl

or_later_assoc : (o p q : Option Reply) → or_later (or_later o p) q ≡ or_later o (or_later p q)
or_later_assoc none p q = refl
or_later_assoc (some r) p q = refl

module _ (order : List (ℕ × String)) (t : Task) (request : Bool)
    (through : (v : JsValue) → is_guarded (t.on_resolve v) ≡ true) where
  on_event-once :
      (o : Option Reply) (e : Event)
      → on_event order t (answered request o) e
        ≡ answered request (or_later o (event_reply order t e))
  unfolding on_event on_dispatch_error
  on_event-once none (dispatch_failed c) = send_once-once request none _
  on_event-once (some r) (dispatch_failed c) = refl
  on_event-once o not_callable = send_once-once request o _
  on_event-once o promised = elim (Bool-cases t.unawaited) [
    | inl e ↦ rw e (send_once-once request o _)
    | inr e ↦ rw (e, or_later-none o) refl
  ]
  on_event-once o (returned v) = deliver-once request o _ (through v)
  on_event-once o (resolved v) = deliver-once request o _ (through v)
  on_event-once o (rejected r) = send_once-once request o _

  pub on_events-once :
      (o : Option Reply) (es : List Event)
      → on_events order t (answered request o) es
        ≡ answered request (or_later o (first_reply order t es))
  unfolding on_events
  on_events-once o [] = rw (or_later-none o) refl
  on_events-once o (e ∷ es) =
      rw
        (
          on_event-once o e,
          on_events-once (or_later o (event_reply order t e)) es,
          or_later_assoc o (event_reply order t e) (first_reply order t es),
        )
        refl

-- A request that is answered through its own context only.
pub data AllGuarded : Handled → Type 0 where
  task :
      {t : Task} → ((v : JsValue) → is_guarded (t.on_resolve v) ≡ true) → AllGuarded (processed t)
  at_once : {r : Reply} → AllGuarded (replied_now r)
  never : AllGuarded no_reply

pub task-guarded :
    {t : Task} → AllGuarded (processed t) → (v : JsValue) → is_guarded (t.on_resolve v) ≡ true
task-guarded (task h) = h
