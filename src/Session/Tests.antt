-- ===== src/Session/Tests.antt =====
-- Runs of the session manager of src/session_manager.cc, and the theorems at concrete sessions.
use fuse_native.Base.{◌≡◌, refl, true, false, List, [], ◌∷◌, ◌++◌, All}
use fuse_native.Bridge.Js.{JsValue, string, number, object_of, of_nat}
use fuse_native.Session.Loop.{Round, ready, bytes, run_fuse_loop, run_fuse_loop-stopped}
use fuse_native.Session.Registry.{no_sessions, session_options, fuse_args}
use fuse_native.Session.Calls.{
  Call, creates, mounts, unmounts, destroys, calls, Kept, ComesBack, calls-ComesBack,
}
use fuse_native.Session.{
  initialized, Session, Initialization, new_session, initialize, mount_session, mount,
}
use fuse_native.Session.States.{
  IsWellFormed, Reach, start, later, initializes, mounts, Reach-IsWellFormed, loop_started,
}

abbrev smooth : Initialization
smooth = record { bridge_ok = true; arguments_ok = true; session_made = true }

abbrev opened : Session
opened = record {
  state = initialized;
  has_bridge = true;
  has_session = true;
  loop_running = false;
  joinable = false;
}

mounted-Reach : Reach (loop_started opened)
unfolding new_session initialize mount mount_session
mounted-Reach =
    later (later start (initializes smooth true opened refl))
      (mounts smooth true true (loop_started opened) refl)

Reach-IsWellFormed_example : IsWellFormed (loop_started opened)
Reach-IsWellFormed_example = Reach-IsWellFormed mounted-Reach

abbrev request : Round
request = record {
  running = true;
  exited = false;
  polled = ready true;
  received = bytes;
  still_running = true;
  has_exited = false;
}

abbrev stop : Round
stop = record request { running = false }

run_fuse_loop-stopped_example :
    ((run_fuse_loop true ((request ∷ []) ++ (stop ∷ request ∷ []))).1 ≡ true)
    × (run_fuse_loop true ((request ∷ []) ++ (stop ∷ request ∷ []))
        ≡ run_fuse_loop true ((request ∷ []) ++ (stop ∷ [])))
run_fuse_loop-stopped_example = run_fuse_loop-stopped true (request ∷ []) stop (request ∷ []) refl

abbrev mountpoint_only : JsValue
mountpoint_only = object_of (("mountpoint", string "/mnt") ∷ [])

-- Without the option the session is not unmounted by itself.
plain_args : fuse_args (session_options mountpoint_only).0 ≡ "fuse-native" ∷ []
unfolding fuse_args session_options
plain_args = refl

abbrev handle : JsValue
handle = object_of (("id", number (of_nat 1)) ∷ [])

abbrev life : List Call
life =
    creates (mountpoint_only ∷ []) smooth
    ∷ mounts (handle ∷ []) smooth true
    ∷ unmounts (handle ∷ [])
    ∷ mounts (handle ∷ []) smooth true
    ∷ destroys (handle ∷ [])
    ∷ []

calls-ComesBack_example : Kept (calls no_sessions life).0 × All ComesBack (calls no_sessions life).1
calls-ComesBack_example = calls-ComesBack life
