-- ===== src/Shutdown/Sessions.antt =====
-- The registry of FUSE sessions of src/shutdown.cc: a map from ids to sessions, which are numbers.
use fuse_native.Base.{
  ℕ, suc, ◌≡◌, refl, Bool, true, false, Option, none, some, List, [], ◌∷◌, ◌==◌, if◌then◌else◌,
  arith,
}

unfoldable find_session : ℕ → List (ℕ × ℕ) → Option ℕ
find_session id [] = none
find_session id ((key, session) ∷ sessions) =
    if key == id then some session else find_session id sessions

unfoldable put_session : ℕ → ℕ → List (ℕ × ℕ) → List (ℕ × ℕ)
put_session id session [] = (id, session) ∷ []
put_session id session ((key, old) ∷ sessions) =
    if key == id then (key, session) ∷ sessions else (key, old) ∷ put_session id session sessions

unfoldable erase_session : ℕ → List (ℕ × ℕ) → List (ℕ × ℕ)
erase_session id [] = []
erase_session id ((key, session) ∷ sessions) =
    if key == id then sessions else (key, session) ∷ erase_session id sessions

abbrev pub has_session : Option ℕ → Bool
has_session none = false
has_session (some session) = true

-- A null session is `none`.
unfoldable register_fuse_session : List (ℕ × ℕ) → ℕ → Option ℕ → Bool × List (ℕ × ℕ)
register_fuse_session sessions id none = (false, sessions)
register_fuse_session sessions id (some session) = (true, put_session id session sessions)

unfoldable unregister_fuse_session : List (ℕ × ℕ) → ℕ → Bool × List (ℕ × ℕ)
unregister_fuse_session sessions id =
    (has_session (find_session id sessions), erase_session id sessions)

-- No session is told anything: the sessions are counted.
unfoldable signal_all_fuse_sessions : List (ℕ × ℕ) → ℕ
signal_all_fuse_sessions [] = 0
signal_all_fuse_sessions (x ∷ sessions) = suc (signal_all_fuse_sessions sessions)

-- A session's part in a poll: `all_exited` is never cleared.
unfoldable poll_sessions : List (ℕ × ℕ) → Bool → Bool
poll_sessions [] all_exited = all_exited
poll_sessions (x ∷ sessions) all_exited = poll_sessions sessions all_exited

-- The registry at each poll before the timeout.
unfoldable wait_for_all_fuse_sessions : List (List (ℕ × ℕ)) → Bool
wait_for_all_fuse_sessions [] = false
wait_for_all_fuse_sessions (sessions ∷ polls) =
    if poll_sessions sessions true then true else wait_for_all_fuse_sessions polls

find_session-put_session :
    (id session : ℕ) (sessions : List (ℕ × ℕ))
    → find_session id (put_session id session sessions) ≡ some session
unfolding find_session put_session
find_session-put_session id session [] = ground arith
find_session-put_session id session ((key, old) ∷ sessions) =
    ground (arith, find_session-put_session id session sessions)

erase_session-put_session :
    (id session : ℕ) (sessions : List (ℕ × ℕ))
    → find_session id sessions ≡ none
    → erase_session id (put_session id session sessions) ≡ sessions
unfolding find_session put_session erase_session
erase_session-put_session id session [] h = ground arith
erase_session-put_session id session ((key, old) ∷ sessions) h =
    ground (arith, erase_session-put_session id session sessions)

signals_one_more :
    (id session : ℕ) (sessions : List (ℕ × ℕ))
    → find_session id sessions ≡ none
    → signal_all_fuse_sessions (put_session id session sessions)
      ≡ suc (signal_all_fuse_sessions sessions)
unfolding find_session put_session signal_all_fuse_sessions
signals_one_more id session [] h = refl
signals_one_more id session ((key, old) ∷ sessions) h =
    ground (arith, signals_one_more id session sessions)

-- A session registered under a new id is counted by SignalAllFuseSessions, and UnregisterFuseSession
-- finds it and restores the registry.
unregister_fuse_session-register_fuse_session :
    (sessions : List (ℕ × ℕ)) (id session : ℕ)
    → find_session id sessions ≡ none
    → let r = register_fuse_session sessions id (some session) in
      (signal_all_fuse_sessions r.1 ≡ suc (signal_all_fuse_sessions sessions))
      × (unregister_fuse_session r.1 id ≡ (true, sessions))
unfolding register_fuse_session unregister_fuse_session
unregister_fuse_session-register_fuse_session sessions id session h = (
  signals_one_more id session sessions h,
  rw (find_session-put_session id session sessions, erase_session-put_session id session sessions h)
      refl,
)

poll_true : (sessions : List (ℕ × ℕ)) → poll_sessions sessions true ≡ true
unfolding poll_sessions
poll_true [] = refl
poll_true (x ∷ sessions) = poll_true sessions

-- With a session registered, the wait for all sessions ends with true at its first poll, and leaves
-- it registered.
wait_for_all_fuse_sessions-registered :
    (sessions : List (ℕ × ℕ)) (id session : ℕ) (polls : List (List (ℕ × ℕ)))
    → let r = register_fuse_session sessions id (some session) in
      (wait_for_all_fuse_sessions (r.1 ∷ polls) ≡ true) × (find_session id r.1 ≡ some session)
unfolding wait_for_all_fuse_sessions register_fuse_session
wait_for_all_fuse_sessions-registered sessions id session polls = (
  rw (poll_true (put_session id session sessions)) refl,
  find_session-put_session id session sessions,
)
