-- ===== src/WriteQueue/Manager.antt =====
-- src/write_queue.cc: the manager of the queues of all file descriptors, and the global manager.
-- The map `fd_queues_` is a list of queues in the order in which it is walked; a new key is put at
-- its head. A queue's own `fd` is its key.
use fuse_native.Base.{
  ℕ, ◌+◌, ◌%◌, ◌^◌, Bool, true, false, ◌&&◌, Option, none, some, List, [], ◌∷◌, ◌==◌, max,
  if◌then◌else◌, map,
}
use fuse_native.Base.Int.{ℤ, negsuc}
use fuse_native.WriteQueue.{
  WriteOperation, Event, FdWriteQueue, Selection, Executor, WriteQueueStats, no_stats, new_queue,
  enqueue, process_queue, cancel_all, reset_stats, set_max_queue_size, Poll, flush, is_empty,
}

pub record WriteQueueManager : Type 0 where
  pub default_max_queue_size : ℕ
  pub fd_queues : List FdWriteQueue

unfoldable pub find_queue : ℕ → List FdWriteQueue → Option FdWriteQueue
find_queue fd [] = none
find_queue fd (q ∷ qs) = if q.fd == fd then some q else find_queue fd qs

-- The queue of `fd` is replaced by `q'`.
unfoldable pub put_queue : ℕ → FdWriteQueue → List FdWriteQueue → List FdWriteQueue
put_queue fd q' [] = []
put_queue fd q' (q ∷ qs) = if q.fd == fd then q' ∷ qs else q ∷ put_queue fd q' qs

unfoldable pub erase_queue : ℕ → List FdWriteQueue → List FdWriteQueue
erase_queue fd [] = []
erase_queue fd (q ∷ qs) = if q.fd == fd then qs else q ∷ erase_queue fd qs

-- `GetQueueLocked`: the queue of `fd`, made if there is none.
unfoldable pub get_queue : WriteQueueManager → ℕ → FdWriteQueue × WriteQueueManager
get_queue m fd = elim (find_queue fd m.fd_queues) [
  | some q ↦ (q, m)
  | none ↦
      let q = new_queue fd m.default_max_queue_size in (q, record m { fd_queues = q ∷ m.fd_queues })
]

unfoldable pub enqueue_write : WriteQueueManager → ℕ → Option WriteOperation → ℕ × WriteQueueManager
enqueue_write m fd none = (0, m)
enqueue_write m fd (some operation) =
    let g = get_queue m fd in
    let r = enqueue g.0 (some operation) in
    (r.0, record (g.1) { fd_queues = put_queue fd r.1 g.1.fd_queues })

-- `SetFDMaxQueueSize`.
unfoldable pub set_fd_max_queue_size : WriteQueueManager → ℕ → ℕ → WriteQueueManager
set_fd_max_queue_size m fd max_size =
    let g = get_queue m fd in
    record (g.1) { fd_queues = put_queue fd (set_max_queue_size g.0 max_size) g.1.fd_queues }

unfoldable pub set_default_max_queue_size : WriteQueueManager → ℕ → WriteQueueManager
set_default_max_queue_size m max_size = record m { default_max_queue_size = max_size }

-- `FlushFD`: the wait is for the queue of `fd`, which is made if there is none.
unfoldable pub flush_fd : WriteQueueManager → ℕ → ℕ → List Poll → Option Bool × WriteQueueManager
flush_fd m fd timeout_ms polls = let g = get_queue m fd in (flush timeout_ms polls, g.1)

-- The loop of `FlushAll` over the waits for its queues: it waits for every one of them.
unfoldable pub flush_all : ℕ → List (List Poll) → Option Bool
flush_all timeout_ms [] = some true
flush_all timeout_ms (polls ∷ rest) = elim (flush timeout_ms polls) [
  | none ↦ none
  | some done ↦ elim (flush_all timeout_ms rest) [
    | none ↦ none
    | some all_success ↦ some (done && all_success)
  ]
]

unfoldable pub get_active_fds : WriteQueueManager → List ℕ
get_active_fds m = map (λ q. q.fd) m.fd_queues

-- One round of the loop of `GetAggregateStats`.
abbrev pub add_stats : WriteQueueStats → WriteQueueStats → WriteQueueStats
add_stats a stats = record {
  total_operations = (a.total_operations + stats.total_operations) % 2 ^ 64;
  completed_operations = (a.completed_operations + stats.completed_operations) % 2 ^ 64;
  failed_operations = (a.failed_operations + stats.failed_operations) % 2 ^ 64;
  bytes_written = (a.bytes_written + stats.bytes_written) % 2 ^ 64;
  queue_size = (a.queue_size + stats.queue_size) % 2 ^ 64;
  max_queue_size = max a.max_queue_size stats.max_queue_size;
}

unfoldable pub aggregate : WriteQueueStats → List FdWriteQueue → WriteQueueStats
aggregate a [] = a
aggregate a (q ∷ qs) = aggregate (add_stats a q.stats) qs

unfoldable pub get_aggregate_stats : WriteQueueManager → WriteQueueStats
get_aggregate_stats m = aggregate no_stats m.fd_queues

unfoldable pub get_fd_stats : WriteQueueManager → ℕ → Option WriteQueueStats
get_fd_stats m fd = elim (find_queue fd m.fd_queues) [ some q ↦ some q.stats | none ↦ none ]

unfoldable pub reset_all_stats : WriteQueueManager → WriteQueueManager
reset_all_stats m = record m { fd_queues = map reset_stats m.fd_queues }

-- -ECANCELED
abbrev pub canceled : ℤ
canceled = negsuc 124

-- What a wait sees, at the given times, of a queue that nothing processes meanwhile.
abbrev pub watch : List ℕ → FdWriteQueue → List Poll
watch times q = map (λ t. record { elapsed = t; empty = is_empty q }) times

module _ (s : Selection) where
  -- `RemoveQueue`: the queue leaves the map, so that no later call processes it, is waited for, and is
  -- destroyed, which cancels it.
  unfoldable pub remove_queue :
      WriteQueueManager → ℕ → ℕ → List ℕ → List Event → Option Bool × WriteQueueManager × List Event
  remove_queue m fd timeout_ms times log = elim (find_queue fd m.fd_queues) [
    | none ↦ (some true, m, log)
    | some q ↦ (
      flush timeout_ms (watch times q),
      record m { fd_queues = erase_queue fd m.fd_queues },
      (cancel_all s canceled q log).1,
    )
  ]

  -- The queues, after each is processed in turn.
  unfoldable pub process_each :
      Executor → List FdWriteQueue → List Event → ℕ → List FdWriteQueue × List Event × ℕ
  process_each executor [] log total = ([], log, total)
  process_each executor (q ∷ qs) log total =
      let p = process_queue s (some executor) q log in
      let (qs', log', total') = process_each executor qs p.log (total + p.processed) in
      (p.queue ∷ qs', log', total')

  unfoldable pub process_all_queues :
      WriteQueueManager → Option Executor → List Event → ℕ × WriteQueueManager × List Event
  process_all_queues m none log = (0, m, log)
  process_all_queues m (some executor) log =
      let (qs, log', total) = process_each executor m.fd_queues log 0 in
      (total, record m { fd_queues = qs }, log')

  -- The loop of the manager's `CancelAll`.
  unfoldable pub cancel_each : ℤ → List FdWriteQueue → List Event → List FdWriteQueue × List Event
  cancel_each code [] log = ([], log)
  cancel_each code (q ∷ qs) log =
      let r = cancel_all s code q log in
      let (qs', log') = cancel_each code qs r.1 in (r.0 ∷ qs', log')

  unfoldable pub cancel_all_queues :
      ℤ → WriteQueueManager → List Event → WriteQueueManager × List Event
  cancel_all_queues code m log =
      let (qs, log') = cancel_each code m.fd_queues log in (record m { fd_queues = qs }, log')

  -- The manager's destructor: after a wait of at most a second the queues are destroyed.
  unfoldable pub destroy_manager : WriteQueueManager → List Event → List Event
  destroy_manager m log = (cancel_all_queues canceled m log).1

  -- `ShutdownGlobalWriteQueueManager`: the result, the global manager and the log, where nothing is
  -- processed during the waits.
  unfoldable pub shutdown_global :
      Option WriteQueueManager
      → ℕ
      → List ℕ
      → List Event
      → Option Bool × Option WriteQueueManager × List Event
  shutdown_global none timeout_ms times log = (some true, none, log)
  shutdown_global (some m) timeout_ms times log =
      (flush_all timeout_ms (map (watch times) m.fd_queues), none, destroy_manager m log)

-- `InitializeGlobalWriteQueueManager`.
unfoldable pub initialize_global : Option WriteQueueManager → ℕ → Bool × Option WriteQueueManager
initialize_global (some m) default_max_queue_size = (false, some m)
initialize_global none default_max_queue_size =
    (true, some (record { default_max_queue_size = default_max_queue_size; fd_queues = [] }))
