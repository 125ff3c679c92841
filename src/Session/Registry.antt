-- ===== src/Session/Registry.antt =====
-- The registry of sessions of src/session_manager.cc, and the functions that JavaScript calls with it.
-- The cast of an id to uint64_t is that of its integer part. A conversion that fails leaves an exception
-- pending and gives 0, "" or false; after it `Has` is false. These calls come from Node's thread, which
-- is never the thread of a loop.
use Prim.Native.String.{String}
use fuse_native.Base.{
  ℕ, suc, ◌*◌, Bool, true, false, not, Option, none, some, List, [], ◌∷◌, ◌++◌, ◌==◌, if◌then◌else◌,
}
use fuse_native.Base.Int.{to_u64}
use fuse_native.Bridge.Js.{
  JsValue, Number, number, string, boolean, object_of, of_nat, get, get_field, is_object,
}
use fuse_native.Session.{
  Session, Initialization, Reply, replied, relocks, terminates, new_session, is_ready, initialize,
  mount, unmount,
}

pub record SessionOptions : Type 0 where
  pub debug : Bool
  pub foreground : Bool
  pub single_threaded : Bool
  pub allow_other : Bool
  pub allow_root : Bool
  pub auto_unmount : Bool
  pub install_signal_handlers : Bool
  pub max_read : ℕ

-- `Has(key) && Get(key).As<Boolean>()`, and whether an exception is pending then.
abbrev pub flag : String → JsValue → Bool → Bool × Bool
flag key options true = (false, true)
flag key options false = elim (get_field key options) [
  | none ↦ (false, false)
  | some (boolean b) ↦ (b, false)
  | some v ↦ (false, true)
]

abbrev pub max_read_option : JsValue → Bool → ℕ × Bool
max_read_option options true = (128 * 1024, true)
max_read_option options false = elim (get_field "maxRead" options) [
  | none ↦ (128 * 1024, false)
  | some (number n) ↦ (n.uint32_value, false)
  | some v ↦ (0, true)
]

unfoldable pub session_options : JsValue → SessionOptions × Bool
session_options options =
    let debug = flag "debug" options false in
    let foreground = flag "foreground" options debug.1 in
    let single_threaded = flag "singleThreaded" options foreground.1 in
    let allow_other = flag "allowOther" options single_threaded.1 in
    let allow_root = flag "allowRoot" options allow_other.1 in
    let auto_unmount = flag "autoUnmount" options allow_root.1 in
    let install = flag "installSignalHandlers" options auto_unmount.1 in
    let max_read = max_read_option options install.1 in
    (
      record {
        debug = debug.0;
        foreground = foreground.0;
        single_threaded = single_threaded.0;
        allow_other = allow_other.0;
        allow_root = allow_root.0;
        auto_unmount = auto_unmount.0;
        install_signal_handlers = install.0;
        max_read = max_read.0;
      },
      max_read.1,
    )

abbrev pub given : Bool → List String → List String
given b args = if b then args else []

-- The arguments that `Initialize` gives libfuse.
unfoldable pub fuse_args : SessionOptions → List String
fuse_args o =
    "fuse-native" ∷ given o.debug ("-d" ∷ [])
    ++ (given o.foreground ("-f" ∷ [])
        ++ (given o.single_threaded ("-s" ∷ [])
            ++ (given o.allow_other ("-o" ∷ "allow_other" ∷ [])
                ++ (given o.allow_root ("-o" ∷ "allow_root" ∷ [])
                    ++ given o.auto_unmount ("-o" ∷ "auto_unmount" ∷ [])))))

pub record Sessions : Type 0 where
  pub active : List (ℕ × Session)
  pub next_session_id : ℕ

abbrev pub no_sessions : Sessions
no_sessions = record { active = []; next_session_id = 1 }

unfoldable pub find : ℕ → List (ℕ × Session) → Option Session
find id [] = none
find id ((i, s) ∷ rest) = if i == id then some s else find id rest

unfoldable pub put : ℕ → Session → List (ℕ × Session) → List (ℕ × Session)
put id s [] = []
put id s ((i, t) ∷ rest) = if i == id then (i, s) ∷ rest else (i, t) ∷ put id s rest

unfoldable pub erase : ℕ → List (ℕ × Session) → List (ℕ × Session)
erase id [] = []
erase id ((i, t) ∷ rest) = if i == id then rest else (i, t) ∷ erase id rest

-- What JavaScript gets: a value, an exception, a call of its callback with or without an error; or the
-- call does not return, or ends the process.
pub data Outcome : Type 0 where
  returned : JsValue → Outcome
  thrown hung process_ended : Outcome
  called_back : Bool → Outcome

abbrev pub finish : Bool → JsValue → Outcome
finish pending v = if pending then thrown else returned v

-- `GetString`
abbrev pub text_of : JsValue → JsValue
text_of (string s) = string s
text_of v = string ""

-- The end of CreateSession: a session that could not be initialized goes with its manager.
unfoldable pub created_with :
    Sessions → Bool → JsValue → Reply (Bool × Session) → Sessions × Outcome
created_with r pending mountpoint (replied (true, s)) = (
  record r { active = (r.next_session_id, s) ∷ r.active; next_session_id = suc r.next_session_id },
  finish pending (
      object_of
        (("id", number (of_nat r.next_session_id)) ∷ ("mountpoint", text_of mountpoint) ∷ [])),
)
created_with r pending mountpoint _ = (record r { next_session_id = suc r.next_session_id }, thrown)

unfoldable pub create_session : Sessions → List JsValue → Initialization → Sessions × Outcome
create_session r [] o = (r, thrown)
create_session r (options ∷ rest) o =
    if not (is_object options) then (r, thrown) else elim (get_field "mountpoint" options) [
      | none ↦ (r, thrown)
      | some mountpoint ↦
          created_with r (session_options options).1 mountpoint (initialize false new_session o)
    ]

-- The id of a handle by Int64Value, and whether an exception is pending then.
abbrev pub id_of : JsValue → ℕ × Bool
id_of (number n) = (to_u64 n.int64_value, false)
id_of v = (0, true)

-- The same by a cast from a double, which keeps its whole part; undefined in the source below 0 and
-- from 2 ^ 64 on.
abbrev cast_u64 : Number → ℕ
cast_u64 n = elim n.whole [ some u ↦ u | none ↦ to_u64 n.int64_value ]

abbrev pub cast_id_of : JsValue → ℕ × Bool
cast_id_of (number n) = (cast_u64 n, false)
cast_id_of v = (0, true)

-- The end of DestroySession. What `Destroy` leaves of the session goes with it.
unfoldable pub destroy_found : Sessions → ℕ × Bool → Option Session → Sessions × Outcome
destroy_found r id none = (r, finish id.1 (boolean false))
destroy_found r id (some s) =
    (record r { active = erase id.0 r.active }, finish id.1 (boolean true))

unfoldable pub destroy_session : Sessions → List JsValue → Sessions × Outcome
destroy_session r [] = (r, thrown)
destroy_session r (handle ∷ rest) = elim (get_field "id" handle) [
  | none ↦ (r, thrown)
  | some v ↦ destroy_found r (cast_id_of v) (find (cast_id_of v).0 r.active)
]

-- The callback: the second argument or the third, where it is a function.
abbrev pub has_callback : List JsValue → Bool
has_callback (JsValue.function ∷ rest) = true
has_callback (v ∷ JsValue.function ∷ rest) = true
has_callback rest = false

-- The result of Mount or Unmount, by the callback or as a value.
abbrev pub report : Bool → Bool → Outcome
report cb ok = if cb then called_back ok else returned (boolean ok)

abbrev pub not_found : Bool → Outcome
not_found cb = if cb then called_back false else thrown

unfoldable pub mount_replied : Sessions → ℕ → Bool → Reply (Bool × Session) → Sessions × Outcome
mount_replied r id cb (replied (ok, s)) = (record r { active = put id s r.active }, report cb ok)
mount_replied r id cb relocks = (r, hung)
mount_replied r id cb terminates = (r, process_ended)

unfoldable pub mount_found :
    Sessions → ℕ × Bool → Bool → Initialization → Bool → Option Session → Sessions × Outcome
mount_found r id cb o mount_ok none = (r, if id.1 then thrown else not_found cb)
mount_found r id cb o mount_ok (some s) = mount_replied r id.0 cb (mount s o mount_ok)

-- The function `Mount`.
unfoldable pub mount_call : Sessions → List JsValue → Initialization → Bool → Sessions × Outcome
mount_call r [] o mount_ok = (r, thrown)
mount_call r (handle ∷ rest) o mount_ok =
    let id = id_of (get "id" handle) in
    if not (is_object handle)
    then (r, thrown)
    else mount_found r id (has_callback rest) o mount_ok (find id.0 r.active)

abbrev pub is_number : JsValue → Bool
is_number (number n) = true
is_number v = false

unfoldable pub unmount_found : Sessions → ℕ → Bool → Option Session → Sessions × Outcome
unmount_found r id cb none = (r, not_found cb)
unmount_found r id cb (some s) =
    let u = unmount s false in (record r { active = put id u.1 r.active }, report cb u.0)

-- The function `Unmount`.
unfoldable pub unmount_call : Sessions → List JsValue → Sessions × Outcome
unmount_call r [] = (r, thrown)
unmount_call r (handle ∷ rest) =
    let id = id_of (get "id" handle) in
    let cb = has_callback rest in
    if not (is_object handle)
    then (r, thrown)
    else if not (is_number (get "id" handle))
    then (r, not_found cb)
    else unmount_found r id.0 cb (find id.0 r.active)

unfoldable pub is_ready_call : Sessions → List JsValue → Outcome
is_ready_call r [] = returned (boolean false)
is_ready_call r (handle ∷ rest) =
    let id = cast_id_of (get "id" handle) in
    elim (find id.0 r.active) [
      | none ↦ finish id.1 (boolean false)
      | some s ↦ finish id.1 (boolean (is_ready s))
    ]
