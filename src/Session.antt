-- ===== src/Session.antt =====
-- SessionManager of src/session_manager.h and src/session_manager.cc. What libfuse and the bridge answer
-- is an argument of each call. `joinable` is whether the loop's thread was started and not joined;
-- `own_thread` is whether a call comes from it. A std::mutex that its own thread locks again never
-- returns, and a joinable std::thread that is assigned to ends the process. A join of
-- another thread is taken to return.
pub mod States
pub mod Registry
pub mod Calls
pub mod Loop
mod Tests
use fuse_native.Base.{ℕ, Bool, true, false, not, ◌&&◌, if◌then◌else◌}

pub data SessionState : Type 0 where
  created initialized mounted unmounting unmounted destroyed : SessionState

pub record Session : Type 0 where
  pub state : SessionState
  pub has_bridge : Bool
  pub has_session : Bool
  pub loop_running : Bool
  pub joinable : Bool

-- How an initialization goes: the bridge, the arguments and the mountpoint's copy, the session.
pub record Initialization : Type 0 where
  pub bridge_ok : Bool
  pub arguments_ok : Bool
  pub session_made : Bool

pub data Reply {ℓ} (A : Type ℓ) : Type ℓ where
  replied : A → Reply A
  relocks terminates : Reply A

unfoldable pub new_session : Session
new_session = record {
  state = created;
  has_bridge = false;
  has_session = false;
  loop_running = false;
  joinable = false;
}

unfoldable pub is_ready : Session → Bool
is_ready s = elim s.state [ mounted ↦ s.has_session | _ ↦ false ]

-- `Initialize`, by a thread that holds `state_mutex_` or does not.
unfoldable pub initialize : Bool → Session → Initialization → Reply (Bool × Session)
initialize true s o = relocks
initialize false s o = elim s.state [
  | created ↦
      if not o.bridge_ok
      then replied (false, record s { has_bridge = true })
      else if not o.arguments_ok
      then replied (false, record s { has_bridge = true })
      else if not o.session_made
      then replied (false, record s { has_bridge = true; has_session = false })
      else replied (true, record s { has_bridge = true; has_session = true; state = initialized })
  | _ ↦ replied (false, s)
]

-- `Mount` from INITIALIZED on.
unfoldable pub mount_session : Session → Bool → Reply (Bool × Session)
mount_session s mount_ok =
    if not mount_ok
    then replied (false, s)
    else if s.joinable
    then terminates
    else replied (true, record s { state = mounted; loop_running = true; joinable = true })

unfoldable pub mount : Session → Initialization → Bool → Reply (Bool × Session)
mount s o mount_ok = elim s.state [
  | initialized ↦ mount_session s mount_ok
  | created ↦ elim (initialize true s o) [
    | relocks ↦ relocks
    | terminates ↦ terminates
    | replied (ok, s') ↦ if ok then mount_session s' mount_ok else replied (false, s')
  ]
  | _ ↦ replied (false, s)
]

unfoldable pub leave_mounted : Session → Session
leave_mounted s = elim s.state [
  | mounted ↦ record s { state = initialized; loop_running = false }
  | _ ↦ record s { loop_running = false }
]

unfoldable pub unmount : Session → Bool → Bool × Session
unmount s own_thread =
    let s' = leave_mounted s in
    if s.joinable
    then if own_thread then (false, s') else (true, record s' { joinable = false })
    else (true, s')

unfoldable pub destroy : Session → Bool → Session
destroy s own_thread =
    let s' : Session = elim s.state [ mounted ↦ (unmount s own_thread).1 | _ ↦ s ] in
    record s' { has_session = false; has_bridge = false; state = destroyed }
