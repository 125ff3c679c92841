-- ===== src/WriteQueue/Cancel.antt =====
-- `CancelAll` of src/write_queue.cc: what becomes of the operations that are still queued.
use mathlib.Core.List.{Perm, append-nil, append_assoc}
use mathlib.Core.List.Perm
use fuse_native.Base.{
  ℕ, zero, suc, ◌+◌, ◌%◌, ◌^◌, ◌≤◌, ◌<◌, ◌≡◌, refl, sym, ap, ◌∙◌, List, [], ◌∷◌, ◌++◌,
  if◌then◌else◌, arith, length, length-perm, Bool-cases, inl, inr,
}
use fuse_native.Base.Int.{ℤ}
use fuse_native.WriteQueue.{
  WriteOperation, Event, error_called, FdWriteQueue, Selection, cancel_loop, cancel_all, inc,
}
use fuse_native.WriteQueue.Drain.{Ordered, top_first}
use fuse_native.WriteQueue.Account.{IsAccounted}

-- The calls of the error callbacks of some operations, where they have one.
abbrev pub error_calls : ℤ → List WriteOperation → List Event
error_calls code [] = []
error_calls code (x ∷ xs) =
    if x.has_error then error_called x code ∷ error_calls code xs else error_calls code xs

-- From `(q, log)` to `r`: the operations `ops` are cancelled.
abbrev pub Cancelled :
    ℤ → FdWriteQueue → List Event → List WriteOperation → FdWriteQueue × List Event → Type 0
Cancelled code q log ops r =
    (r.0.operations ≡ [])
    × (r.0.stats.failed_operations ≡ (q.stats.failed_operations + length ops) % 2 ^ 64)
    × (r.0.stats.completed_operations ≡ q.stats.completed_operations)
    × (r.0.stats.total_operations ≡ q.stats.total_operations)
    × (es : List WriteOperation) × Perm es ops
    × Ordered es
    × (r.1 ≡ log ++ error_calls code es)

module _ (s : Selection) where
  taken : FdWriteQueue → List WriteOperation → FdWriteQueue
  taken q rest = record q {
    operations = rest;
    stats = record (q.stats) { failed_operations = inc q.stats.failed_operations };
  }

  logged : ℤ → List Event → WriteOperation → List Event
  logged code log x = if x.has_error then log ++ (error_called x code ∷ []) else log

  logged-error_calls :
      (code : ℤ) (log : List Event) (x : WriteOperation) (es : List WriteOperation)
      → logged code log x ++ error_calls code es ≡ log ++ error_calls code (x ∷ es)
  unfolding logged
  logged-error_calls code log x es = elim (Bool-cases x.has_error) [
    | inl e ↦ simp e (append_assoc log (error_called x code ∷ []) _)
    | inr e ↦ simp e
  ]

  none_left :
      (code : ℤ) (q : FdWriteQueue) (log : List Event)
      → q.stats.failed_operations < 2 ^ 64
      → q.operations ≡ []
      → Cancelled code q log [] (q, log)
  none_left code q log b e =
      (e, omega arith, refl, refl, [], Perm.refl [], tt, sym (append-nil log))

  one_more :
      (code : ℤ) (q : FdWriteQueue) (log : List Event) (x : WriteOperation)
      (xs : List WriteOperation) (r : FdWriteQueue × List Event)
      → let top = s.select x xs in
        Cancelled code (taken q top.1) (logged code log top.0) top.1 r
        → Cancelled code q log (x ∷ xs) r
  unfolding taken
  one_more code q log x xs r d =
      let top = s.select x xs in
      (
        d.0,
        omega (arith, d.1, length-perm (s.select-perm x xs)),
        d.2,
        d.3,
        top.0 ∷ d.4,
        Perm.trans (Perm.cons top.0 d.5) (s.select-perm x xs),
        (top_first s x xs d.5, d.6),
        d.7 ∙ logged-error_calls code log top.0 d.4,
      )

  cancel :
      (fuel : ℕ) (code : ℤ) (q : FdWriteQueue) (log : List Event) (ops : List WriteOperation)
      → q.stats.failed_operations < 2 ^ 64
      → q.operations ≡ ops
      → length ops ≤ fuel
      → Cancelled code q log ops (cancel_loop s fuel code q log)
  unfolding cancel_loop taken logged
  cancel zero code q log [] b e h = none_left code q log b e
  cancel zero code q log (x ∷ xs) b e h = absurd (omega arith)
  cancel (suc fuel) code q log [] b e h = rw (e, cancel_loop) (none_left code q log b e)
  cancel (suc fuel) code q log (x ∷ xs) b e h =
      let top = s.select x xs in
      rw (e, cancel_loop)
        (one_more code q log x xs (cancel_loop s fuel code (taken q top.1) (logged code log top.0))
          (cancel fuel code (taken q top.1) (logged code log top.0) top.1 (omega arith) refl
            (omega (arith, length-perm (s.select-perm x xs)))))

  -- `CancelAll` empties the queue. Each operation counts as failed, and those with an error callback
  -- have it called once with the code, in the queue's order; no completion callback is called.
  pub cancel_all-Cancelled :
      (code : ℤ) (q : FdWriteQueue) (log : List Event)
      → q.stats.failed_operations < 2 ^ 64
      → Cancelled code q log q.operations (cancel_all s code q log)
        × ((cancel_all s code q log).0.stats.queue_size ≡ 0)
  unfolding cancel_all
  cancel_all-Cancelled code q log b =
      (cancel (length q.operations) code q log q.operations b refl (omega arith), refl)

  pub cancel_all-IsAccounted :
      (code : ℤ) (q : FdWriteQueue) (log : List Event)
      → IsAccounted q
      → IsAccounted (cancel_all s code q log).0
  cancel_all-IsAccounted code q log v =
      let c = cancel_all-Cancelled code q log v.small in
      let e = ap (length {A = WriteOperation}) c.0.0 in
      record {
        size = omega (arith, c.1, e);
        peak = omega (arith, c.1);
        small = omega (arith, c.0.1);
        total = omega (arith, c.0.1, c.0.2, c.0.3, e, v.total);
      }
