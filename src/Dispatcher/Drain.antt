-- ===== src/Dispatcher/Drain.antt =====
-- The dispatcher of src/tsfn_dispatcher.cc never gets stuck: its threads can always bring every callback
-- that was accepted to its end.
use mathlib.Core.List.{Perm}
use mathlib.Core.List.Perm
use mathlib.Core.Path.{subst}
use fuse_native.Base.{
  ℕ, zero, suc, ◌≡◌, refl, true, false, List, [], ◌∷◌, arith, length, length-perm, ◌⊎◌, inl, inr,
  ap, sym, ◌∙◌,
}
use fuse_native.Base.Int.{ℤ, pos, negsuc}
use fuse_native.Base.Choice.{select, select-perm, select-IsTop}
use fuse_native.Dispatcher.{
  Dispatcher, Callback, returns, compare_priority, count_inflight, take_callback, process_callback,
  run_callback, run_outcome, fail_callback, dec_inflight,
}
use fuse_native.Dispatcher.System.{
  Step, takes, processes, runs, counts, Reach, later, Inv, Reach-Inv, handle_cases,
}

pub data Steps (d : Dispatcher) : Dispatcher → Type 0 where
  done : Steps d d
  next : {d' d'' : Dispatcher} → Steps d d' → Step d' d'' → Steps d d''

Reach-Steps : {n : ℕ} {d d' : Dispatcher} → Reach n d → Steps d d' → Reach n d'
Reach-Steps r done = r
Reach-Steps r (next ss s) = later (Reach-Steps r ss) s

compare_priority_trans :
    (a b c : Callback)
    → compare_priority a b ≡ false
    → compare_priority b c ≡ false
    → compare_priority a c ≡ false
unfolding compare_priority
compare_priority_trans a b c h k = ground arith

compare_priority_total :
    (a b : Callback) → compare_priority a b ≡ true → compare_priority b a ≡ false
unfolding compare_priority
compare_priority_total a b h = ground arith

-- What can be reached from `d` with `P`.
abbrev Can : Dispatcher → (Dispatcher → Type 0) → Type 0
Can d P = (e : Dispatcher) × Steps d e × P e

cons_or_nil :
    (l : List Callback) → (l ≡ []) ⊎ ((x : Callback) × (xs : List Callback) × (l ≡ x ∷ xs))
cons_or_nil [] = inl refl
cons_or_nil (x ∷ xs) = inr (x, xs, refl)

nil_of : (l : List Callback) → length l ≡ 0 → l ≡ []
nil_of [] h = refl
nil_of (x ∷ xs) h = absurd (omega arith)

-- The queue empties, a top at a time.
drain_queue :
    (k : ℕ) (d d' : Dispatcher)
    → Steps d d'
    → length d'.callback_queue ≡ k
    → d'.workers_running ≡ true
    → Can d (λ e. e.callback_queue ≡ [])
unfolding take_callback
drain_queue zero d d' ss h w = (d', ss, nil_of d'.callback_queue h)
drain_queue (suc k) d d' ss h w = elim (cons_or_nil d'.callback_queue) [
  | inl e ↦ (d', ss, e)
  | inr (x, xs, e) ↦
      let chosen = select compare_priority x xs in
      let p : Perm (chosen.0 ∷ chosen.1) d'.callback_queue =
        subst (λ l. Perm (chosen.0 ∷ chosen.1) l) (sym e) (select-perm compare_priority x xs) in
      let top = select-IsTop compare_priority compare_priority_trans compare_priority_total x xs in
      drain_queue k d (take_callback d' chosen.0 chosen.1)
        (next ss (takes chosen.0 chosen.1 p top w)) (omega (arith, length-perm p, h)) w
]

-- What a worker and Node leave of the lists.
process_parts :
    (d : Dispatcher) (cb : Callback) (others : List Callback)
    → let d' = (process_callback d cb others true).0 in
      (d'.callback_queue ≡ d.callback_queue) × (d'.working ≡ others)
unfolding process_callback fail_callback dec_inflight
process_parts d cb others =
    let kept = λ (code : ℤ).
      handle_cases (λ e. (e.callback_queue ≡ d.callback_queue) × (e.working ≡ others))
        (record d { working = others }) cb.request_id code (λ errors done. (refl, refl)) in
    ground (arith, kept (negsuc 0), kept (negsuc 37))

run_parts :
    (d : Dispatcher) (cb : Callback) (others : List Callback)
    → let d' = (run_callback d cb others returns).0 in
      (d'.callback_queue ≡ d.callback_queue) × (d'.working ≡ d.working) × (d'.calling ≡ others)
unfolding run_callback dec_inflight run_outcome
run_parts d cb others = (refl, refl, refl)

-- Workers end what they hold.
drain_working :
    (ws : List Callback) (d d' : Dispatcher)
    → Steps d d'
    → d'.working ≡ ws
    → d'.callback_queue ≡ []
    → Can d (λ e. (e.callback_queue ≡ []) × (e.working ≡ []))
drain_working [] d d' ss e q = (d', ss, (q, e))
drain_working (cb ∷ others) d d' ss e q =
    let parts = process_parts d' cb others in
    let p : Perm (cb ∷ others) d'.working = rw e (Perm.refl _) in
    drain_working others d _ (next ss (processes cb others true p)) parts.1 (parts.0 ∙ q)

-- Node runs what was handed to it.
drain_calling :
    (cs : List Callback) (d d' : Dispatcher)
    → Steps d d'
    → d'.calling ≡ cs
    → (d'.callback_queue ≡ []) × (d'.working ≡ [])
    → Can d (λ e. (e.callback_queue ≡ []) × (e.working ≡ []) × (e.calling ≡ []))
drain_calling [] d d' ss e q = (d', ss, (q.0, q.1, e))
drain_calling (cb ∷ others) d d' ss e q =
    let parts = run_parts d' cb others in
    let p : Perm (cb ∷ others) d'.calling = rw e (Perm.refl _) in
    drain_calling others d _ (next ss (runs cb others returns p)) parts.2
      (parts.0 ∙ q.0, parts.1 ∙ q.1)

-- The calls of Dispatch count what they pushed.
abbrev pub Quiet : Dispatcher → Type 0
Quiet d = (d.callback_queue ≡ []) × (d.working ≡ []) × (d.calling ≡ []) × (d.entering ≡ 0)

drain_entering :
    (n : ℕ) (d d' : Dispatcher)
    → Steps d d'
    → d'.entering ≡ n
    → (d'.callback_queue ≡ []) × (d'.working ≡ []) × (d'.calling ≡ [])
    → Can d Quiet
unfolding count_inflight
drain_entering zero d d' ss e q = (d', ss, (q.0, q.1, q.2, e))
drain_entering (suc n) d d' ss e q =
    drain_entering n d _ (next ss (counts (omega arith))) (ground (arith, e)) q

Quiet-inflight : {n : ℕ} (d : Dispatcher) → Inv n d → Quiet d → d.inflight ≡ pos 0
Quiet-inflight d v q = ground (arith, v.balanced, ap length q.0, ap length q.1, ap length q.2)

-- From every state that its threads reach while the workers run, in whatever order they took their
-- steps, the dispatcher can go on to one where every callback has ended: none is queued, held by a
-- worker or with Node, and none is counted as in flight.
pub Reach-Quiet :
    {n : ℕ} {d : Dispatcher}
    → Reach n d
    → d.workers_running ≡ true
    → (e : Dispatcher) × Steps d e × Quiet e × (e.inflight ≡ pos 0)
Reach-Quiet {n} {d} r w =
    let (d1, s1, q1) = drain_queue _ d d done refl w in
    let (d2, s2, q2) = drain_working _ d d1 s1 refl q1 in
    let (d3, s3, q3) = drain_calling _ d d2 s2 refl q2 in
    let (d4, s4, q4) = drain_entering _ d d3 s3 refl q3 in
    (d4, s4, q4, Quiet-inflight d4 (Reach-Inv (Reach-Steps r s4)) q4)
