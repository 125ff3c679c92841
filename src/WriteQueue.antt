-- ===== src/WriteQueue.antt =====
-- src/write_queue.h and src/write_queue.cc: the queue of writes of one file descriptor.
-- The mutex of a queue makes each method one step, so the methods are functions of the queue's state.
-- An operation's `buffer` is the memory that its pointer leads to; its callbacks are two flags, and
-- what is called is written to a log of events. Of the statistics the average latency, a double, is
-- left out. `std::priority_queue` promises that `top` is an element that compares less than no other,
-- and no more: which one, where several are, is the choice of `Selection`.
pub mod Select
pub mod Drain
pub mod Account
pub mod Cancel
pub mod History
pub mod Manager
pub mod Fds
pub mod Pending
pub mod Napi
mod Tests
use mathlib.Core.List.{Mem, Perm}
use fuse_native.Base.{
  ℕ, zero, suc, ◌+◌, ◌^◌, ◌%◌, ◌≡◌, Bool, true, false, not, ◌&&◌, ◌||◌, Option, none, some, List,
  [], ◌∷◌, ◌++◌, ltb, leb, ◌==◌, max, if◌then◌else◌, length,
}
use fuse_native.Base.Int.{ℤ, is_neg}

pub data WriteOperationPriority : Type 0 where
  urgent high normal low : WriteOperationPriority

-- static_cast<int>(priority)
abbrev pub rank : WriteOperationPriority → ℕ
rank urgent = 0
rank high = 1
rank normal = 2
rank low = 3

pub record WriteOperation : Type 0 where
  pub fd : ℕ
  pub offset : ℕ
  pub size : ℕ
  pub buffer : List ℕ
  pub priority : WriteOperationPriority
  pub timestamp : ℕ
  pub has_completion : Bool
  pub has_error : Bool
  pub operation_id : ℕ

pub record WriteQueueStats : Type 0 where
  pub total_operations : ℕ
  pub completed_operations : ℕ
  pub failed_operations : ℕ
  pub bytes_written : ℕ
  pub queue_size : ℕ
  pub max_queue_size : ℕ

abbrev pub no_stats : WriteQueueStats
no_stats = record {
  total_operations = 0;
  completed_operations = 0;
  failed_operations = 0;
  bytes_written = 0;
  queue_size = 0;
  max_queue_size = 0;
}

-- A call of the executor with its result, and the calls of the two callbacks, by operation.
pub data Event : Type 0 where
  executed : WriteOperation → ℤ → Event
  completion_called : WriteOperation → ℤ → Event
  error_called : WriteOperation → ℤ → Event

-- `operations` is the content of `operation_queue_`, in no particular order.
pub record FdWriteQueue : Type 0 where
  pub fd : ℕ
  pub max_size : ℕ
  pub next_operation_id : ℕ
  pub priority_ordering_enabled : Bool
  pub operations : List WriteOperation
  pub stats : WriteQueueStats

unfoldable pub new_queue : ℕ → ℕ → FdWriteQueue
new_queue fd max_queue_size = record {
  fd = fd;
  max_size = max_queue_size;
  next_operation_id = 1;
  priority_ordering_enabled = true;
  operations = [];
  stats = no_stats;
}

-- ++ on a uint64_t.
abbrev pub inc : ℕ → ℕ
inc n = (n + 1) % 2 ^ 64

-- Whether `a` comes after `b`: a higher rank, or the same rank and a later time.
unfoldable pub compare_priority : WriteOperation → WriteOperation → Bool
compare_priority a b =
    if not (rank a.priority == rank b.priority)
    then ltb (rank b.priority) (rank a.priority)
    else ltb b.timestamp a.timestamp

-- `top` and `pop` of a queue that is not empty: the top and the rest.
pub record Selection : Type 0 where
  pub select : WriteOperation → List WriteOperation → WriteOperation × List WriteOperation
  pub select-perm :
      (x : WriteOperation) (xs : List WriteOperation)
      → Perm ((select x xs).0 ∷ (select x xs).1) (x ∷ xs)
  pub select_top :
      (x : WriteOperation) (xs : List WriteOperation) (y : WriteOperation)
      → Mem y (select x xs).1
      → compare_priority (select x xs).0 y ≡ false

-- The returned id is 0 where the operation is null or the queue is full.
unfoldable pub enqueue : FdWriteQueue → Option WriteOperation → ℕ × FdWriteQueue
enqueue q none = (0, q)
enqueue q (some operation) =
    if ltb 0 q.max_size && leb q.max_size (length q.operations)
    then (0, q)
    else let operations' = record operation { operation_id = q.next_operation_id } ∷ q.operations in
      (
        q.next_operation_id,
        record q {
          next_operation_id = inc q.next_operation_id;
          operations = operations';
          stats = record (q.stats) {
            total_operations = inc q.stats.total_operations;
            queue_size = length operations';
            max_queue_size = max q.stats.max_queue_size (length operations');
          };
        },
      )

unfoldable pub update_stats : WriteQueueStats → WriteOperation → Bool → WriteQueueStats
update_stats s operation success =
    if success
    then record s {
      completed_operations = inc s.completed_operations;
      bytes_written = (s.bytes_written + operation.size) % 2 ^ 64;
    }
    else record s { failed_operations = inc s.failed_operations }

-- The callback of an operation that was executed.
unfoldable pub notify : WriteOperation → ℤ → List Event
notify operation result =
    if operation.has_completion
    then completion_called operation result ∷ []
    else if is_neg result && operation.has_error
    then error_called operation result ∷ []
    else []

-- An executor may depend on everything that has happened so far.
abbrev pub Executor : Type 0
Executor = List Event → WriteOperation → ℤ

pub record Progress : Type 0 where
  pub queue : FdWriteQueue
  pub log : List Event
  pub processed : ℕ

-- One round of the loop of `ProcessQueue`, for the operation that was taken from the queue.
unfoldable pub run_operation : Executor → Progress → WriteOperation → List WriteOperation → Progress
run_operation executor p operation rest =
    let result = executor p.log operation in
    let stats' = record (p.queue.stats) { queue_size = length rest } in
    record {
      queue = record (p.queue) {
        operations = rest;
        stats = update_stats stats' operation (not (is_neg result));
      };
      log = p.log ++ (executed operation result ∷ notify operation result);
      processed = p.processed + 1;
    }

module _ (s : Selection) where
  -- Nothing is enqueued while the queue is processed, so a round for each operation is enough.
  unfoldable pub process_loop : ℕ → Executor → Progress → Progress
  process_loop zero executor p = p
  process_loop (suc fuel) executor p = elim p.queue.operations [
    | [] ↦ p
    | x ∷ xs ↦
        let top = s.select x xs in process_loop fuel executor (run_operation executor p top.0 top.1)
  ]

  unfoldable pub process_queue : Option Executor → FdWriteQueue → List Event → Progress
  process_queue none q log = record { queue = q; log = log; processed = 0 }
  process_queue (some executor) q log =
      process_loop (length q.operations) executor (record { queue = q; log = log; processed = 0 })

  -- The loop of `CancelAll`, which reports the code to the error callbacks.
  unfoldable pub cancel_loop : ℕ → ℤ → FdWriteQueue → List Event → FdWriteQueue × List Event
  cancel_loop zero error_code q log = (q, log)
  cancel_loop (suc fuel) error_code q log = elim q.operations [
    | [] ↦ (q, log)
    | x ∷ xs ↦
        let top = s.select x xs in
        cancel_loop fuel error_code
          (record q {
            operations = top.1;
            stats = record (q.stats) { failed_operations = inc q.stats.failed_operations };
          })
          (if top.0.has_error then log ++ (error_called top.0 error_code ∷ []) else log)
  ]

  unfoldable pub cancel_all : ℤ → FdWriteQueue → List Event → FdWriteQueue × List Event
  cancel_all error_code q log =
      let r = cancel_loop (length q.operations) error_code q log in
      (record (r.0) { stats = record (r.0.stats) { queue_size = 0 } }, r.1)

-- What one round of the loop of `Flush` sees: the time since its start, and whether the queue, which
-- other threads may process meanwhile, is empty.
pub record Poll : Type 0 where
  pub elapsed : ℕ
  pub empty : Bool

-- `none` is a wait that has not ended when the observations do.
unfoldable pub flush : ℕ → List Poll → Option Bool
flush timeout_ms [] = none
flush timeout_ms (p ∷ ps) =
    if ltb p.elapsed timeout_ms
    then (if p.empty then some true else flush timeout_ms ps)
    else some false

unfoldable pub reset_stats : FdWriteQueue → FdWriteQueue
reset_stats q = record q { stats = no_stats }

unfoldable pub set_max_queue_size : FdWriteQueue → ℕ → FdWriteQueue
set_max_queue_size q max_size = record q { max_size = max_size }

unfoldable pub set_priority_ordering : FdWriteQueue → Bool → FdWriteQueue
set_priority_ordering q enable = record q { priority_ordering_enabled = enable }

unfoldable pub is_empty : FdWriteQueue → Bool
is_empty q = length q.operations == 0

unfoldable get_queue_size : FdWriteQueue → ℕ
get_queue_size q = length q.operations
