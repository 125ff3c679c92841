-- ===== src/WriteQueue/Pending.antt =====
-- What becomes of the operations that are queued, over all descriptors, in src/write_queue.cc.
use mathlib.Core.List.{Perm, append-nil, append_assoc}
use mathlib.Core.List.Perm
use fuse_native.Base.{
  ℕ, ◌+◌, ◌%◌, ◌^◌, ◌<◌, ◌≡◌, ◌≢◌, refl, sym, ap, ap₂, ◌∙◌, true, false, some, List, [], ◌∷◌, ◌++◌,
  arith, length, length-append, length_pos, map, All,
}
use fuse_native.Base.Int.{ℤ}
use fuse_native.WriteQueue.{
  WriteOperation, Event, FdWriteQueue, Selection, Executor, WriteQueueStats, no_stats,
  process_queue, flush, is_empty,
}
use fuse_native.WriteQueue.Drain.{
  process_queue-Drained, process_queue-fd, executions, executions-append,
}
use fuse_native.WriteQueue.Cancel.{cancel_all-Cancelled, error_calls}
use fuse_native.WriteQueue.Account.{IsAccounted}
use fuse_native.WriteQueue.Manager.{
  WriteQueueManager, find_queue, add_stats, aggregate, get_aggregate_stats, process_each,
  process_all_queues, watch, remove_queue, canceled, get_active_fds,
}

-- All queued operations, one queue after another.
abbrev pub waiting : List FdWriteQueue → List WriteOperation
waiting [] = []
waiting (q ∷ qs) = q.operations ++ waiting qs

aggregate-queue_size :
    (qs : List FdWriteQueue) (a : WriteQueueStats)
    → a.queue_size < 2 ^ 64
    → All IsAccounted qs
    → (aggregate a qs).queue_size ≡ (a.queue_size + length (waiting qs)) % 2 ^ 64
unfolding aggregate
aggregate-queue_size [] a h v = omega arith
aggregate-queue_size (q ∷ qs) a h v =
    aggregate-queue_size qs (add_stats a q.stats) (omega arith) v.1
    ∙ omega (arith, v.0.size, length-append q.operations (waiting qs))

-- Where each queue's statistics account for it, the `queue_size` of `GetAggregateStats` is the number
-- of all queued operations, so that the draining phase's test for 0 is the test that none is queued.
get_aggregate_stats-queue_size :
    (m : WriteQueueManager)
    → All IsAccounted m.fd_queues
    → length (waiting m.fd_queues) < 2 ^ 64
    → (get_aggregate_stats m).queue_size ≡ length (waiting m.fd_queues)
unfolding get_aggregate_stats
get_aggregate_stats-queue_size m v h =
    aggregate-queue_size m.fd_queues no_stats (omega arith) v ∙ omega arith

module _ (s : Selection) where
  -- What `process_each` leaves: empty queues of the same descriptors, and a log that goes on with the
  -- execution of each waiting operation.
  abbrev Emptied : List FdWriteQueue → List Event → ℕ → List FdWriteQueue × List Event × ℕ → Type 0
  Emptied qs log total r =
      (waiting r.0 ≡ [])
      × (map (λ (q : FdWriteQueue). q.fd) r.0 ≡ map (λ (q : FdWriteQueue). q.fd) qs)
      × (r.2 ≡ total + length (waiting qs))
      × (es : List WriteOperation) × (executions r.1 ≡ executions log ++ es)
      × Perm es (waiting qs)

  process_each-Emptied :
      (executor : Executor) (qs : List FdWriteQueue) (log : List Event) (total : ℕ)
      → Emptied qs log total (process_each s executor qs log total)
  unfolding process_each
  process_each-Emptied executor [] log total =
      (refl, refl, omega arith, [], sym (append-nil _), Perm.refl [])
  process_each-Emptied executor (q ∷ qs) log total =
      let p = process_queue s (some executor) q log in
      let d = process_queue-Drained s executor q log in
      let rest = process_each-Emptied executor qs p.log (total + p.processed) in
      (
        rw d.0 rest.0,
        ap₂ ◌∷◌ (process_queue-fd s executor q log) rest.1,
        omega (arith, d.1, rest.2, length-append q.operations (waiting qs)),
        d.2 ++ rest.3,
        rest.4 ∙ ap (λ l. l ++ rest.3) d.3 ∙ append_assoc _ d.2 rest.3,
        Perm.append d.4 rest.5,
      )

  -- `ProcessAllQueues` leaves every queue empty and keeps the descriptors. It executes each operation
  -- that was queued once, and returns how many these were.
  pub process_all_queues-Emptied :
      (executor : Executor) (m : WriteQueueManager) (log : List Event)
      → let r = process_all_queues s m (some executor) log in
        (waiting r.1.fd_queues ≡ [])
        × (get_active_fds r.1 ≡ get_active_fds m)
        × (r.0 ≡ length (waiting m.fd_queues))
        × (es : List WriteOperation) × (executions r.2 ≡ executions log ++ es)
        × Perm es (waiting m.fd_queues)
  unfolding process_all_queues get_active_fds
  process_all_queues-Emptied executor m log =
      let e = process_each-Emptied executor m.fd_queues log 0 in
      (e.0, e.1, omega (arith, e.2), e.3, e.4, e.5)

  executions-error_calls :
      (code : ℤ) (es : List WriteOperation) → executions (error_calls code es) ≡ []
  executions-error_calls code [] = refl
  executions-error_calls code (x ∷ es) = ground (arith, executions-error_calls code es)

  flush-watch :
      (timeout_ms : ℕ) (times : List ℕ) (q : FdWriteQueue)
      → is_empty q ≡ false
      → flush timeout_ms (watch times q) ≢ some true
  unfolding flush
  flush-watch timeout_ms [] q e = λ f. cc
  flush-watch timeout_ms (t ∷ times) q e = ground (arith, flush-watch timeout_ms times q e)

  not_empty : (q : FdWriteQueue) → q.operations ≢ [] → is_empty q ≡ false
  unfolding is_empty
  not_empty q h = ground (arith, length_pos q.operations h)

  -- `RemoveQueue` of a queue with operations never reports success, and executes none of them: each
  -- is cancelled, which its error callback, if it has one, hears of.
  remove_queue-cancels :
      (m : WriteQueueManager) (fd timeout_ms : ℕ) (times : List ℕ) (log : List Event)
      (q : FdWriteQueue)
      → find_queue fd m.fd_queues ≡ some q
      → q.operations ≢ []
      → q.stats.failed_operations < 2 ^ 64
      → let r = remove_queue s m fd timeout_ms times log in
        (r.0 ≢ some true)
        × (executions r.2 ≡ executions log)
        × (es : List WriteOperation) × Perm es q.operations
        × (r.2 ≡ log ++ error_calls canceled es)
  unfolding remove_queue
  remove_queue-cancels m fd timeout_ms times log q e h b =
      let c = cancel_all-Cancelled s canceled q log b in
      rw (e, remove_queue)
        (
          flush-watch timeout_ms times q (not_empty q h),
          ap executions c.0.7
              ∙ executions-append log (error_calls canceled c.0.4)
              ∙ ap (◌++◌ (executions log)) (executions-error_calls canceled c.0.4)
              ∙ append-nil (executions log),
          c.0.4,
          c.0.5,
          c.0.7,
        )
