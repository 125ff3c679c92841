-- ===== src/WriteQueue/Drain.antt =====
-- What `ProcessQueue` of src/write_queue.cc executes, in which order, and that it ends.
use mathlib.Core.List.{Mem, Perm, append-nil, append_assoc}
use mathlib.Core.List.Perm
use fuse_native.Base.{
  ℕ, zero, suc, ◌+◌, ◌≤◌, ◌≡◌, refl, sym, ap, ◌∙◌, some, List, [], ◌∷◌, ◌++◌, arith, length,
  length-perm,
}
use fuse_native.Base.Int.{ℤ}
use fuse_native.WriteQueue.{
  WriteOperation, Event, executed, completion_called, error_called, FdWriteQueue, Selection,
  Executor, Progress, notify, run_operation, process_loop, process_queue,
}
use fuse_native.WriteQueue.Select.{MayPrecede, compare_priority-MayPrecede}

-- The operations that a log shows as executed, in their order.
abbrev pub executions : List Event → List WriteOperation
executions [] = []
executions (executed operation result ∷ es) = operation ∷ executions es
executions (completion_called operation result ∷ es) = executions es
executions (error_called operation result ∷ es) = executions es

-- No operation comes before one of a higher priority, or of the same priority and earlier.
abbrev pub Ordered : List WriteOperation → Type 0
Ordered [] = Unit
Ordered (x ∷ xs) = ((z : WriteOperation) → Mem z xs → MayPrecede x z) × Ordered xs

-- The top of a queue may precede what is left, in whatever order.
pub top_first :
    (s : Selection) (x : WriteOperation) (xs : List WriteOperation) {es : List WriteOperation}
    → Perm es (s.select x xs).1
    → (z : WriteOperation) → Mem z es
    → MayPrecede (s.select x xs).0 z
top_first s x xs p z m =
    compare_priority-MayPrecede (s.select x xs).0 z (s.select_top x xs z ((Perm.mem_iff p).0 m))

pub executions-append :
    (es fs : List Event) → executions (es ++ fs) ≡ executions es ++ executions fs
executions-append [] fs = refl
executions-append (executed operation result ∷ es) fs = ap (◌∷◌ operation) (executions-append es fs)
executions-append (completion_called operation result ∷ es) fs = executions-append es fs
executions-append (error_called operation result ∷ es) fs = executions-append es fs

executions-notify : (x : WriteOperation) (r : ℤ) → executions (notify x r) ≡ []
unfolding notify
executions-notify x r = ground arith

executions-run_operation :
    (executor : Executor) (p : Progress) (x : WriteOperation) (xs : List WriteOperation)
    → executions (run_operation executor p x xs).log ≡ executions p.log ++ (x ∷ [])
unfolding run_operation
executions-run_operation executor p x xs =
    executions-append p.log (executed x (executor p.log x) ∷ notify x (executor p.log x))
    ∙ ap (λ l. executions p.log ++ (x ∷ l)) (executions-notify x (executor p.log x))

run_operation-processed :
    (executor : Executor) (p : Progress) (x : WriteOperation) (xs : List WriteOperation)
    → (run_operation executor p x xs).processed ≡ p.processed + 1
unfolding run_operation
run_operation-processed executor p x xs = refl

run_operation-operations :
    (executor : Executor) (p : Progress) (x : WriteOperation) (xs : List WriteOperation)
    → (run_operation executor p x xs).queue.operations ≡ xs
unfolding run_operation
run_operation-operations executor p x xs = refl

-- From `p`, whose queue holds `ops`, to `r`: the queue is empty, as many operations more are counted,
-- and those that were executed are `ops`, in the queue's order.
abbrev pub Drained : Progress → Progress → List WriteOperation → Type 0
Drained p r ops =
    (r.queue.operations ≡ [])
    × (r.processed ≡ p.processed + length ops)
    × (es : List WriteOperation) × (executions r.log ≡ executions p.log ++ es)
    × Perm es ops
    × Ordered es

module _ (s : Selection) where
  nothing_left : (p : Progress) → p.queue.operations ≡ [] → Drained p p []
  nothing_left p e = (e, omega arith, [], sym (append-nil _), Perm.refl [], tt)

  one_more :
      (executor : Executor) (p r : Progress) (x : WriteOperation) (xs : List WriteOperation)
      → let top = s.select x xs in
        Drained (run_operation executor p top.0 top.1) r top.1 → Drained p r (x ∷ xs)
  one_more executor p r x xs d =
      let top = s.select x xs in
      let perm = Perm.trans (Perm.cons top.0 d.4) (s.select-perm x xs) in
      (
        d.0,
        omega (
          arith,
          d.1,
          length-perm (s.select-perm x xs),
          run_operation-processed executor p top.0 top.1,
        ),
        top.0 ∷ d.2,
        d.3
            ∙ ap (λ l. l ++ d.2) (executions-run_operation executor p top.0 top.1)
            ∙ append_assoc _ (top.0 ∷ []) d.2,
        perm,
        (top_first s x xs d.4, d.5),
      )

  drain :
      (fuel : ℕ) (executor : Executor) (p : Progress) (ops : List WriteOperation)
      → p.queue.operations ≡ ops
      → length ops ≤ fuel
      → Drained p (process_loop s fuel executor p) ops
  unfolding process_loop
  drain zero executor p [] e h = nothing_left p e
  drain zero executor p (x ∷ xs) e h = absurd (omega arith)
  drain (suc fuel) executor p [] e h = rw (e, process_loop) (nothing_left p e)
  drain (suc fuel) executor p (x ∷ xs) e h =
      rw (e, process_loop)
        (one_more executor p
          (process_loop s fuel executor
            (run_operation executor p (s.select x xs).0 (s.select x xs).1))
          x xs
          (drain fuel executor (run_operation executor p (s.select x xs).0 (s.select x xs).1)
            (s.select x xs).1 (run_operation-operations executor p _ _)
            (omega (arith, length-perm (s.select-perm x xs)))))

  process_loop-fd :
      (fuel : ℕ) (executor : Executor) (p : Progress) (ops : List WriteOperation)
      → p.queue.operations ≡ ops
      → (process_loop s fuel executor p).queue.fd ≡ p.queue.fd
  unfolding process_loop run_operation
  process_loop-fd zero executor p ops e = refl
  process_loop-fd (suc fuel) executor p [] e = rw (e, process_loop) refl
  process_loop-fd (suc fuel) executor p (x ∷ xs) e =
      rw (e, process_loop)
        (process_loop-fd fuel executor
          (run_operation executor p (s.select x xs).0 (s.select x xs).1) _ refl)

  pub process_queue-fd :
      (executor : Executor) (q : FdWriteQueue) (log : List Event)
      → (process_queue s (some executor) q log).queue.fd ≡ q.fd
  unfolding process_queue
  process_queue-fd executor q log = process_loop-fd (length q.operations) executor _ _ refl

  -- `ProcessQueue` ends with an empty queue and the number of operations that were in it. It has run
  -- the executor once for each of them, and never for an operation of lower priority, or of the same
  -- priority and later, before another that was waiting.
  pub process_queue-Drained :
      (executor : Executor) (q : FdWriteQueue) (log : List Event)
      → Drained
          (record { queue = q; log = log; processed = 0 })
          (process_queue s (some executor) q log)
          q.operations
  unfolding process_queue
  process_queue-Drained executor q log =
      drain (length q.operations) executor (record { queue = q; log = log; processed = 0 })
        q.operations refl (omega arith)
