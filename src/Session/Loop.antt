-- ===== src/Session/Loop.antt =====
-- RunFuseLoop of src/session_manager.cc. A round is what the loop sees in it: its flag and libfuse's, the
-- answer of poll and whether there is something to read, what is received, and both flags again after that.
use fuse_native.Base.{
  ℕ, suc, ◌≡◌, refl, Bool, true, false, not, ◌&&◌, ◌||◌, List, [], ◌∷◌, ◌++◌, if◌then◌else◌, arith,
}

pub data Polled : Type 0 where
  interrupted poll_failed timed_out : Polled
  ready : Bool → Polled

pub data Received : Type 0 where
  bytes nothing receive_interrupted receive_failed : Received

pub record Round : Type 0 where
  pub running : Bool
  pub exited : Bool
  pub polled : Polled
  pub received : Received
  pub still_running : Bool
  pub has_exited : Bool

-- What a round does: it ends the loop, goes on, or processes a request and goes on.
pub data Turn : Type 0 where
  ends goes_on processes : Turn

unfoldable pub receive : Round → Turn
receive r = elim r.received [
  | bytes ↦ processes
  | receive_failed ↦ ends
  | _ ↦ if not r.still_running || r.has_exited then ends else goes_on
]

unfoldable pub turn : Round → Turn
turn r = if not (r.running && not r.exited) then ends else elim r.polled [
  | interrupted ↦ goes_on
  | poll_failed ↦ ends
  | timed_out ↦ goes_on
  | ready has_input ↦ if has_input then receive r else goes_on
]

-- How many requests were processed, and whether the loop has ended.
unfoldable pub run_loop : List Round → ℕ × Bool
run_loop [] = (0, false)
run_loop (r ∷ rs) = elim (turn r) [
  | ends ↦ (0, true)
  | goes_on ↦ run_loop rs
  | processes ↦ (suc (run_loop rs).0, (run_loop rs).1)
]

-- A session without a fuse_session runs no loop.
unfoldable pub run_fuse_loop : Bool → List Round → ℕ × Bool
run_fuse_loop has_session rounds = if has_session then run_loop rounds else (0, true)

abbrev pub stopped : Round → Bool
stopped r = not r.running || r.exited

stopped-ends : (r : Round) → stopped r ≡ true → turn r ≡ ends
unfolding turn
stopped-ends r h = ground arith

run_loop-stopped :
    (before : List Round) (r : Round) (rest : List Round)
    → stopped r ≡ true
    → ((run_loop (before ++ (r ∷ rest))).1 ≡ true)
      × (run_loop (before ++ (r ∷ rest)) ≡ run_loop (before ++ (r ∷ [])))
unfolding run_loop
run_loop-stopped [] r rest h = ground (arith, stopped-ends r h)
run_loop-stopped (b ∷ before) r rest h =
    let ih = run_loop-stopped before r rest h in ground (arith, ih)

-- Whatever the rounds before saw, the loop ends in the first round that begins with its flag cleared,
-- as Unmount clears it, or with libfuse's exit; what would come later is not looked at.
pub run_fuse_loop-stopped :
    (has_session : Bool) (before : List Round) (r : Round) (rest : List Round)
    → stopped r ≡ true
    → ((run_fuse_loop has_session (before ++ (r ∷ rest))).1 ≡ true)
      × (run_fuse_loop has_session (before ++ (r ∷ rest))
          ≡ run_fuse_loop has_session (before ++ (r ∷ [])))
unfolding run_fuse_loop
run_fuse_loop-stopped true before r rest h = run_loop-stopped before r rest h
run_fuse_loop-stopped false before r rest h = (refl, refl)
