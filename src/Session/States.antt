-- ===== src/Session/States.antt =====
-- The states that a session of src/session_manager.cc goes through.
use mathlib.Core.Path.{subst}
use fuse_native.Base.{◌≡◌, ◌⊎◌, refl, Bool, true, false, arith}
use fuse_native.Session.{
  created, initialized, mounted, destroyed, Session, Initialization, Reply, replied, relocks,
  terminates, new_session, is_ready, initialize, mount_session, mount, leave_mounted, unmount,
  destroy,
}

-- A session and its parts fit.
abbrev pub IsWellFormed : Session → Type 0
IsWellFormed s = elim s.state [
  | created ↦ (s.has_session ≡ false) × (s.loop_running ≡ false) × (s.joinable ≡ false)
  | initialized ↦ (s.has_session ≡ true) × (s.has_bridge ≡ true) × (s.loop_running ≡ false)
  | mounted ↦
      (s.has_session ≡ true) × (s.has_bridge ≡ true) × (s.loop_running ≡ true) × (s.joinable ≡ true)
  | destroyed ↦ (s.has_session ≡ false) × (s.has_bridge ≡ false) × (s.loop_running ≡ false)
  | _ ↦ true ≡ false
]

-- A call that returned.
pub data Step (s : Session) : Session → Type 0 where
  initializes :
      (o : Initialization) (ok : Bool) (s' : Session)
      → initialize false s o ≡ replied (ok, s')
      → Step s s'
  mounts :
      (o : Initialization) (mount_ok ok : Bool) (s' : Session)
      → mount s o mount_ok ≡ replied (ok, s')
      → Step s s'
  unmounts : (own_thread : Bool) → Step s (unmount s own_thread).1
  destroys : (own_thread : Bool) → Step s (destroy s own_thread)

pub data Reach : Session → Type 0 where
  start : Reach new_session
  later : {s s' : Session} → Reach s → Step s s' → Reach s'

-- The session after a reply, and `s` where there is none.
abbrev after : Session → Reply (Bool × Session) → Session
after s (replied (ok, s')) = s'
after s relocks = s
after s terminates = s

initialize-IsWellFormed :
    (s : Session) (o : Initialization)
    → IsWellFormed s
    → IsWellFormed (after s (initialize false s o))
unfolding initialize
initialize-IsWellFormed s o v = ground arith

mount-IsWellFormed :
    (s : Session) (o : Initialization) (mount_ok : Bool)
    → IsWellFormed s
    → IsWellFormed (after s (mount s o mount_ok))
unfolding mount mount_session initialize
mount-IsWellFormed s o mount_ok v = ground arith

unmount-IsWellFormed :
    (s : Session) (own_thread : Bool) → IsWellFormed s → IsWellFormed (unmount s own_thread).1
unfolding unmount leave_mounted
unmount-IsWellFormed s own_thread v = ground arith

destroy-IsWellFormed :
    (s : Session) (own_thread : Bool) → IsWellFormed s → IsWellFormed (destroy s own_thread)
unfolding destroy unmount leave_mounted
destroy-IsWellFormed s own_thread v = ground arith

Step-IsWellFormed : {s s' : Session} → Step s s' → IsWellFormed s → IsWellFormed s'
Step-IsWellFormed {s} (initializes o ok s' e) v =
    subst (λ r. IsWellFormed (after s r)) e (initialize-IsWellFormed s o v)
Step-IsWellFormed {s} (mounts o mount_ok ok s' e) v =
    subst (λ r. IsWellFormed (after s r)) e (mount-IsWellFormed s o mount_ok v)
Step-IsWellFormed {s} (unmounts own_thread) v = unmount-IsWellFormed s own_thread v
Step-IsWellFormed {s} (destroys own_thread) v = destroy-IsWellFormed s own_thread v

-- After every sequence of calls that returned, a session has its libfuse session and its bridge where
-- it is initialized or mounted and neither where it is destroyed, its loop runs exactly where it is
-- mounted, and it is never in the states UNMOUNTING and UNMOUNTED.
pub Reach-IsWellFormed : {s : Session} → Reach s → IsWellFormed s
unfolding new_session
Reach-IsWellFormed start = (refl, refl, refl)
Reach-IsWellFormed (later r st) = Step-IsWellFormed st (Reach-IsWellFormed r)

-- The mounted session, whose loop runs.
abbrev pub loop_started : Session → Session
loop_started s = record s { state = mounted; loop_running = true; joinable = true }

-- Mount of a session that is only created locks its own mutex again. Of an initialized one, where
-- libfuse mounts it, it replies with true and a ready session, unless the thread of an earlier loop
-- was not joined, which ends the process. In every other case it replies with false and changes
-- nothing.
mount_lem :
    (s : Session) (o : Initialization) (mount_ok : Bool)
    → IsWellFormed s
    → ((s.state ≡ created) × (mount s o mount_ok ≡ relocks))
      ⊎ ((s.state ≡ initialized)
          × (mount_ok ≡ true)
          × (s.joinable ≡ true)
          × (mount s o mount_ok ≡ terminates))
      ⊎ ((s.state ≡ initialized)
          × (mount_ok ≡ true)
          × (s.joinable ≡ false)
          × (mount s o mount_ok ≡ replied (true, loop_started s))
          × (is_ready (loop_started s) ≡ true))
      ⊎ (((s.state ≡ initialized) × (mount_ok ≡ false)
            ⊎ (s.state ≡ mounted)
            ⊎ (s.state ≡ destroyed))
          × (mount s o mount_ok ≡ replied (false, s)))
unfolding mount mount_session initialize is_ready
mount_lem s o mount_ok v = ground arith
