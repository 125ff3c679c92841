-- ===== src/WriteQueue/Tests.antt =====
-- Runs of the queues of src/write_queue.cc, and the theorems at concrete queues.
use mathlib.Core.List.{Perm}
use fuse_native.Base.{ℕ, ◌≡◌, refl, true, false, some, List, [], ◌∷◌, ◌++◌, arith, length}
use fuse_native.Base.Int.{pos}
use fuse_native.WriteQueue.{
  WriteOperationPriority, urgent, normal, WriteOperation, no_stats, FdWriteQueue, compare_priority,
  Executor, Progress, process_queue, process_loop, run_operation, notify, update_stats, cancel_all,
  new_queue,
}
use fuse_native.Base.Choice.{select, better}
use fuse_native.WriteQueue.Select.{by_scan}
use fuse_native.WriteQueue.Drain.{Drained, process_queue-Drained, executions}
use fuse_native.WriteQueue.Account.{IsAccounted}
use fuse_native.WriteQueue.Cancel.{Cancelled, cancel_all-Cancelled}
use fuse_native.WriteQueue.History.{enqueues, processes, cancels, run, run-new_queue-IsAccounted}
use fuse_native.WriteQueue.Manager.{WriteQueueManager, process_all_queues, get_active_fds, canceled}
use fuse_native.WriteQueue.Pending.{waiting, process_all_queues-Emptied}

abbrev write : ℕ → WriteOperationPriority → ℕ → WriteOperation
write id priority timestamp = record {
  fd = 3;
  offset = 0;
  size = 2;
  buffer = 7 ∷ 8 ∷ [];
  priority = priority;
  timestamp = timestamp;
  has_completion = false;
  has_error = true;
  operation_id = id;
}

abbrev later_write : WriteOperation
later_write = write 1 normal 20

abbrev early_write : WriteOperation
early_write = write 2 normal 10

abbrev sync_write : WriteOperation
sync_write = write 3 urgent 30

abbrev three : FdWriteQueue
three = record {
  fd = 3;
  max_size = 3;
  next_operation_id = 4;
  priority_ordering_enabled = true;
  operations = later_write ∷ early_write ∷ sync_write ∷ [];
  stats = record no_stats { total_operations = 3; queue_size = 3; max_queue_size = 3 };
}

abbrev one_manager : WriteQueueManager
one_manager = record { default_max_queue_size = 100; fd_queues = three ∷ [] }

abbrev all_written : Executor
all_written log x = pos x.size

abbrev at_start : Progress
at_start = record { queue = three; log = []; processed = 0 }

-- The urgent operation goes first, then the older of the two others.
order_of_three :
    executions (process_queue by_scan (some all_written) three []).log
    ≡ sync_write ∷ early_write ∷ later_write ∷ []
unfolding process_queue process_loop run_operation notify update_stats select better
    compare_priority
order_of_three = refl

process_queue-Drained_example :
    Drained at_start (process_queue by_scan (some all_written) three []) three.operations
process_queue-Drained_example = process_queue-Drained by_scan all_written three []

run-new_queue-IsAccounted_example :
    IsAccounted
      (run by_scan
        (new_queue 3 2, [])
        (enqueues (some sync_write)
          ∷ enqueues (some early_write)
          ∷ enqueues (some later_write)
          ∷ processes (some all_written)
          ∷ enqueues (some later_write)
          ∷ cancels canceled
          ∷ [])).0
run-new_queue-IsAccounted_example = run-new_queue-IsAccounted by_scan 3 2 _

cancel_all-Cancelled_example :
    Cancelled canceled three [] three.operations (cancel_all by_scan canceled three [])
    × ((cancel_all by_scan canceled three []).0.stats.queue_size ≡ 0)
cancel_all-Cancelled_example = cancel_all-Cancelled by_scan canceled three [] (omega arith)

process_all_queues-Emptied_example :
    let r = process_all_queues by_scan one_manager (some all_written) [] in
    (waiting r.1.fd_queues ≡ [])
    × (get_active_fds r.1 ≡ get_active_fds one_manager)
    × (r.0 ≡ length (waiting one_manager.fd_queues))
    × (es : List WriteOperation) × (executions r.2 ≡ executions [] ++ es)
    × Perm es (waiting one_manager.fd_queues)
process_all_queues-Emptied_example = process_all_queues-Emptied by_scan all_written one_manager []
