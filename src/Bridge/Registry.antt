-- ===== src/Bridge/Registry.antt =====
-- What the registry of src/fuse_bridge.cc and the handlers of the dispatcher have to do with one another.
use Prim.Native.String.{String}
use text.Mathlib.Text.{◌==◌ as str_eq}
use text.Mathlib.TextEquality.{eq_iff}
use fuse_native.Base.{
  ℕ, ◌≡◌, inl, inr, refl, Bool, true, false, List, [], ◌∷◌, Option, none, some, arith, Bool-cases,
  Option-cases,
}
use fuse_native.Dispatcher.{
  Dispatcher, Callback, has_handler, erase_handler, register_handler, unregister_handler,
  dispatch_custom, push_callback,
}
use fuse_native.Bridge
use fuse_native.Bridge.{FuseOpType, same_op, fuse_op_type_to_string}
use fuse_native.Bridge.Names.{same_op-eq, same_op_refl, fuse_op_type_to_string-eq}
use fuse_native.Bridge.Requests.{
  Setup, BridgeState, queued, registered, erase, has_operation_handler,
  initialize_global_dispatcher, register_with, register_operation_handler, remove_operation_handler,
  callback, dispatch_request, process_request, handle_destroy,
}

-- Every operation of a registry is among the dispatcher's handlers.
abbrev Backed : List FuseOpType → List String → Type 0
Backed [] hs = Unit
Backed (t ∷ ts) hs = (has_handler (fuse_op_type_to_string t) hs ≡ true) × Backed ts hs

abbrev pub handlers_of : Option Dispatcher → List String
handlers_of none = []
handlers_of (some d) = d.handlers

abbrev IsBacked : BridgeState → Type 0
IsBacked b = Backed b.handler_registry (handlers_of b.dispatcher)

has_handler-erase_handler :
    (a b : String) (hs : List String)
    → str_eq b a ≡ false
    → has_handler a hs ≡ true
    → has_handler a (erase_handler b hs) ≡ true
unfolding has_handler erase_handler
has_handler-erase_handler a b [] ne h = cc
has_handler-erase_handler a b (x ∷ hs) ne h =
    ground (arith, eq_iff b a, eq_iff x a, eq_iff x b, has_handler-erase_handler a b hs)

-- A new handler leaves the others.
has_handler-cons :
    (a b : String) (hs : List String) → has_handler a hs ≡ true → has_handler a (b ∷ hs) ≡ true
unfolding has_handler
has_handler-cons a b hs h = elim (Bool-cases (str_eq b a)) [ inl e ↦ rw e refl | inr e ↦ rw e h ]

Backed-cons :
    (ts : List FuseOpType) (b : String) (hs : List String) → Backed ts hs → Backed ts (b ∷ hs)
Backed-cons [] b hs h = tt
Backed-cons (t ∷ ts) b hs h = (has_handler-cons _ b hs h.0, Backed-cons ts b hs h.1)

names_differ :
    (a b : FuseOpType)
    → same_op a b ≡ false
    → str_eq (fuse_op_type_to_string a) (fuse_op_type_to_string b) ≡ false
names_differ a b e =
    elim (Bool-cases (str_eq (fuse_op_type_to_string a) (fuse_op_type_to_string b))) [
      | inl h ↦ cc (rw (fuse_op_type_to_string-eq a b h, same_op_refl b) at e)
      | inr h ↦ h
    ]

Backed-erase :
    (type : FuseOpType) (ts : List FuseOpType) (hs : List String)
    → Backed ts hs
    → Backed (erase type ts) (erase_handler (fuse_op_type_to_string type) hs)
Backed-erase type [] hs h = tt
Backed-erase type (t ∷ ts) hs h = elim (Bool-cases (same_op type t)) [
  | inl e ↦ rw e (Backed-erase type ts hs h.1)
  | inr e ↦
      rw e
        (has_handler-erase_handler _ _ hs (names_differ type t e) h.0, Backed-erase type ts hs h.1)
]

Backed-registered :
    (type : FuseOpType) (ts : List FuseOpType) (hs : List String)
    → Backed ts hs
    → registered type ts ≡ true
    → has_handler (fuse_op_type_to_string type) hs ≡ true
Backed-registered type [] hs h r = cc
Backed-registered type (t ∷ ts) hs h r = elim (Bool-cases (same_op type t)) [
  | inl e ↦ rw (same_op-eq type t e) h.0
  | inr e ↦ Backed-registered type ts hs h.1 (rw e at r)
]

register_handler_backs :
    (d : Dispatcher) (ts : List FuseOpType) (name : String) (created : Bool)
    → Backed ts d.handlers
    → Backed ts (register_handler d name created).1.handlers
unfolding register_handler
register_handler_backs d ts name created h = ground (arith, Backed-cons ts name d.handlers)

register_handler-has_handler :
    (d : Dispatcher) (name : String) (created : Bool)
    → (register_handler d name created).0 ≡ true
    → has_handler name (register_handler d name created).1.handlers ≡ true
unfolding register_handler has_handler
register_handler-has_handler d name created h = ground (arith, eq_iff name name)

register_with-IsBacked :
    (b : BridgeState) (type : FuseOpType) (created : Bool) (d : Dispatcher)
    → Backed b.handler_registry d.handlers
    → IsBacked (register_with b type created d).1
unfolding register_with
register_with-IsBacked b type created d h = ground (
  arith,
  register_handler_backs d b.handler_registry (fuse_op_type_to_string type) created,
  register_handler-has_handler d (fuse_op_type_to_string type) created,
)

Backed-nothing : (ts : List FuseOpType) (hs : List String) → Backed ts [] → Backed ts hs
unfolding has_handler
Backed-nothing [] hs h = tt
Backed-nothing (t ∷ ts) hs h = cc h.0

dispatch_custom-handlers :
    (d : Dispatcher) (cb : Callback) → (dispatch_custom d cb).1.handlers ≡ d.handlers
unfolding dispatch_custom push_callback
dispatch_custom-handlers d cb = ground arith

register_operation_handler-IsBacked :
    (setup : Setup) (b : BridgeState) (type : FuseOpType) (created : Bool)
    → IsBacked b
    → IsBacked (register_operation_handler setup b type created).1
unfolding register_operation_handler
register_operation_handler-IsBacked setup b type created h = elim (Option-cases b.dispatcher) [
  | inl none_yet ↦ elim (Option-cases (initialize_global_dispatcher setup none).1) [
    | inl failed ↦ ground (arith, none_yet, failed)
    | inr (d, made) ↦ ground (
      arith,
      none_yet,
      made,
      Backed-nothing b.handler_registry d.handlers,
      register_with-IsBacked b type created d,
    )
  ]
  | inr (d, made) ↦ ground (arith, made, register_with-IsBacked b type created d)
]

remove_operation_handler-IsBacked :
    (b : BridgeState) (type : FuseOpType)
    → IsBacked b
    → IsBacked (remove_operation_handler b type).1
unfolding remove_operation_handler unregister_handler
remove_operation_handler-IsBacked b type h = elim (Option-cases b.dispatcher) [
  | inl none_yet ↦ ground (arith, none_yet)
  | inr (d, made) ↦ ground (arith, made, Backed-erase type b.handler_registry d.handlers)
]

process_request-IsBacked :
    (setup : Setup) (b : BridgeState) (type : FuseOpType) (now : ℕ)
    → IsBacked b
    → IsBacked (process_request setup b type now).0
unfolding process_request dispatch_request
process_request-IsBacked setup b type now h = elim (Option-cases b.dispatcher) [
  | inl none_yet ↦ elim (Option-cases (initialize_global_dispatcher setup none).1) [
    | inl failed ↦ ground (arith, none_yet, failed)
    | inr (d, made) ↦ ground (
      arith,
      none_yet,
      made,
      Backed-nothing b.handler_registry d.handlers,
      dispatch_custom-handlers d (callback type now),
    )
  ]
  | inr (d, made) ↦ ground (arith, made, dispatch_custom-handlers d (callback type now))
]

-- The calls of the bridge that touch its registry.
pub data Call : Type 0 where
  registers : Setup → FuseOpType → Bool → Call
  removes : FuseOpType → Call
  processes : Setup → FuseOpType → ℕ → Call
  destroys : Setup → ℕ → Call

abbrev pub call : BridgeState → Call → BridgeState
call b (registers setup type created) = (register_operation_handler setup b type created).1
call b (removes type) = (remove_operation_handler b type).1
call b (processes setup type now) = (process_request setup b type now).0
call b (destroys setup now) = (handle_destroy setup b now).0

abbrev pub calls : BridgeState → List Call → BridgeState
calls b [] = b
calls b (c ∷ cs) = calls (call b c) cs

handle_destroy-IsBacked :
    (setup : Setup) (b : BridgeState) (now : ℕ) → IsBacked (handle_destroy setup b now).0
unfolding handle_destroy
handle_destroy-IsBacked setup b now = elim (Option-cases b.dispatcher) [
  | inl none_yet ↦ ground (arith, none_yet)
  | inr (d, made) ↦ ground (
    arith,
    made,
    process_request-IsBacked setup (record b { handler_registry = [] }) Bridge.op_destroy now,
  )
]

call-IsBacked : (b : BridgeState) (c : Call) → IsBacked b → IsBacked (call b c)
call-IsBacked b (registers setup type created) h =
    register_operation_handler-IsBacked setup b type created h
call-IsBacked b (removes type) h = remove_operation_handler-IsBacked b type h
call-IsBacked b (processes setup type now) h = process_request-IsBacked setup b type now h
call-IsBacked b (destroys setup now) h = handle_destroy-IsBacked setup b now

calls-IsBacked : (b : BridgeState) (cs : List Call) → IsBacked b → IsBacked (calls b cs)
calls-IsBacked b [] h = h
calls-IsBacked b (c ∷ cs) h = calls-IsBacked (call b c) cs (call-IsBacked b c h)

abbrev pub new_bridge : Bool → BridgeState
new_bridge has_env = record { handler_registry = []; dispatcher = none; has_env = has_env }

queued-registered :
    (setup : Setup) (b b' : BridgeState) (type : FuseOpType) (now id : ℕ)
    → process_request setup b type now ≡ (b', queued id)
    → registered type b'.handler_registry ≡ true
unfolding process_request dispatch_request has_operation_handler
queued-registered setup b b' type now id e = ground arith

-- After any calls of the bridge that has its dispatcher to itself, a request that is queued has a
-- handler of its name in the dispatcher, so that a worker finds it.
pub queued-has_handler :
    (has_env : Bool) (cs : List Call) (setup : Setup) (type : FuseOpType) (now id : ℕ)
    {b' : BridgeState}
    → process_request setup (calls (new_bridge has_env) cs) type now ≡ (b', queued id)
    → has_handler (fuse_op_type_to_string type) (handlers_of b'.dispatcher) ≡ true
queued-has_handler has_env cs setup type now id {b'} e =
    let b : BridgeState = calls (new_bridge has_env) cs in
    let backed : IsBacked (process_request setup b type now).0 =
      process_request-IsBacked setup b type now (calls-IsBacked (new_bridge has_env) cs tt) in
    Backed-registered type b'.handler_registry _ (rw e at backed)
      (queued-registered setup b b' type now id e)
