-- ===== src/WriteQueue/History.antt =====
-- A queue of src/write_queue.cc over a history of calls, as its mutex orders them.
use fuse_native.Base.{ℕ, ◌≡◌, ◌≢◌, refl, Bool, Option, none, some, length_pos, List, [], ◌∷◌, arith}
use fuse_native.Base.Int.{ℤ}
use fuse_native.WriteQueue.{
  WriteOperation, Event, FdWriteQueue, Selection, Executor, new_queue, enqueue, process_queue,
  cancel_all, reset_stats, set_max_queue_size, set_priority_ordering,
}
use fuse_native.WriteQueue.Account.{IsAccounted, enqueue-IsAccounted, process_loop-IsAccounted}
use fuse_native.WriteQueue.Cancel.{cancel_all-IsAccounted}

-- The methods that change a queue, but for `ResetStats`.
pub data Call : Type 0 where
  enqueues : Option WriteOperation → Call
  processes : Option Executor → Call
  cancels : ℤ → Call
  limits : ℕ → Call
  orders : Bool → Call

module _ (s : Selection) where
  unfoldable pub step : FdWriteQueue × List Event → Call → FdWriteQueue × List Event
  step (q, log) (enqueues o) = ((enqueue q o).1, log)
  step (q, log) (processes executor) = let p = process_queue s executor q log in (p.queue, p.log)
  step (q, log) (cancels code) = cancel_all s code q log
  step (q, log) (limits n) = (set_max_queue_size q n, log)
  step (q, log) (orders b) = (set_priority_ordering q b, log)

  pub run : FdWriteQueue × List Event → List Call → FdWriteQueue × List Event
  run st [] = st
  run st (c ∷ cs) = run (step st c) cs

  step-IsAccounted :
      (st : FdWriteQueue × List Event) (c : Call) → IsAccounted st.0 → IsAccounted (step st c).0
  unfolding step process_queue set_max_queue_size set_priority_ordering
  step-IsAccounted (q, log) (enqueues o) v = enqueue-IsAccounted q o v
  step-IsAccounted (q, log) (processes none) v = v
  step-IsAccounted (q, log) (processes (some executor)) v =
      process_loop-IsAccounted s _ executor (record { queue = q; log = log; processed = 0 }) _ refl
        v
  step-IsAccounted (q, log) (cancels code) v = cancel_all-IsAccounted s code q log v
  step-IsAccounted (q, log) (limits n) v = omega (arith, v.total)
  step-IsAccounted (q, log) (orders b) v = omega (arith, v.total)

  run-IsAccounted :
      (st : FdWriteQueue × List Event) (cs : List Call)
      → IsAccounted st.0
      → IsAccounted (run st cs).0
  unfolding run
  run-IsAccounted st [] v = v
  run-IsAccounted st (c ∷ cs) v = run-IsAccounted (step st c) cs (step-IsAccounted st c v)

  -- After every history of calls of a new queue, without `ResetStats`, `queue_size` is the number of
  -- queued operations, at most `max_queue_size`, and every operation that was accepted is counted
  -- as completed or failed or is still queued, modulo 2 ^ 64.
  pub run-new_queue-IsAccounted :
      (fd max_queue_size : ℕ) (cs : List Call)
      → IsAccounted (run (new_queue fd max_queue_size, []) cs).0
  unfolding new_queue
  run-new_queue-IsAccounted fd max_queue_size cs = run-IsAccounted _ cs (omega arith)

-- `ResetStats` on a queue that is not empty leaves a `queue_size` of 0 beside the queued operations:
-- the statistics no longer account for the queue.
reset_stats-not-IsAccounted :
    (q : FdWriteQueue)
    → q.operations ≢ []
    → ((reset_stats q).operations ≡ q.operations)
      × ((reset_stats q).stats.queue_size ≡ 0)
      × (¬ IsAccounted (reset_stats q))
unfolding reset_stats
reset_stats-not-IsAccounted q h =
    (refl, refl, λ v. absurd (omega (arith, v.size, length_pos q.operations h)))
