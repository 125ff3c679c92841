-- ===== src/WriteQueue/Account.antt =====
-- The bounds and the counters of a queue of src/write_queue.cc.
use fuse_native.Base.{
  ℕ, zero, suc, ◌+◌, ◌%◌, ◌^◌, ◌≤◌, ◌<◌, ◌≡◌, ◌⊎◌, refl, ap, Option, none, some, List, [], ◌∷◌,
  arith, length, length-perm,
}
use fuse_native.WriteQueue.{
  WriteOperation, FdWriteQueue, Selection, Executor, Progress, enqueue, update_stats, run_operation,
  process_loop,
}

-- What the statistics say of the queue. The counters wrap at 2 ^ 64.
pub record IsAccounted (q : FdWriteQueue) : Type 0 where
  pub size : q.stats.queue_size ≡ length q.operations
  pub peak : q.stats.queue_size ≤ q.stats.max_queue_size
  pub small : q.stats.failed_operations < 2 ^ 64
  pub total :
      q.stats.total_operations
      ≡ (q.stats.completed_operations + q.stats.failed_operations + length q.operations) % 2 ^ 64

-- `Enqueue` refuses exactly a null operation and a full queue, with 0 and no change. Otherwise it
-- returns the next id, with which the operation is in the queue, and the next id grows by one.
enqueue_lem :
    (q : FdWriteQueue) (operation : WriteOperation)
    → 0 < q.next_operation_id
    → q.next_operation_id + 1 < 2 ^ 64
    → ((0 < q.max_size)
        × (q.max_size ≤ length q.operations)
        × (enqueue q (some operation) ≡ (0, q)))
      ⊎ (((q.max_size ≡ 0) ⊎ (length q.operations < q.max_size))
          × ((enqueue q (some operation)).0 ≡ q.next_operation_id)
          × ((enqueue q (some operation)).1.operations
              ≡ record operation { operation_id = q.next_operation_id } ∷ q.operations)
          × ((enqueue q (some operation)).1.next_operation_id ≡ q.next_operation_id + 1))
unfolding enqueue
enqueue_lem q operation h k = ground arith

pub enqueue-IsAccounted :
    (q : FdWriteQueue) (o : Option WriteOperation) → IsAccounted q → IsAccounted (enqueue q o).1
unfolding enqueue
enqueue-IsAccounted q none v = v
enqueue-IsAccounted q (some operation) v = ground arith

run_operation-IsAccounted :
    (executor : Executor) (p : Progress) (x : WriteOperation) (xs : List WriteOperation)
    → IsAccounted p.queue
    → length p.queue.operations ≡ suc (length xs)
    → IsAccounted (run_operation executor p x xs).queue
unfolding run_operation update_stats
run_operation-IsAccounted executor p x xs v h = ground arith

module _ (s : Selection) where
  pub process_loop-IsAccounted :
      (fuel : ℕ) (executor : Executor) (p : Progress) (ops : List WriteOperation)
      → p.queue.operations ≡ ops
      → IsAccounted p.queue
      → IsAccounted (process_loop s fuel executor p).queue
  unfolding process_loop
  process_loop-IsAccounted zero executor p ops e v = v
  process_loop-IsAccounted (suc fuel) executor p [] e v = rw (e, process_loop) v
  process_loop-IsAccounted (suc fuel) executor p (x ∷ xs) e v =
      rw (e, process_loop)
        (process_loop-IsAccounted fuel executor
          (run_operation executor p (s.select x xs).0 (s.select x xs).1) _ refl
          (run_operation-IsAccounted executor p _ _ v
            (omega (arith, ap length e, length-perm (s.select-perm x xs)))))
