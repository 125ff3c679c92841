-- ===== src/Shutdown/Phases.antt =====
-- The phases of a shutdown of src/shutdown.cc: when it is graceful, and which phases it enters.
use Prim.Native.String.{String}
use mathlib.Core.Bool.{true≢false}
use mathlib.Core.List.{append_assoc, append-nil}
use fuse_native.Base.{
  Bool-cases, ℕ, ◌+◌, ◌*◌, ◌<◌, ◌≤◌, ◌≡◌, ◌⊎◌, inl, inr, refl, sym, ◌∙◌, Bool, true, false, none,
  List, [], ◌∷◌, ◌++◌, leb, arith,
}
use fuse_native.Shutdown.{
  ShutdownState, closed, ShutdownPhase, PhaseRun, ShutdownStats, Event, on_begin, ShutdownManager,
  notify_callbacks, poll, check_phase, execute_phase, ns_per_ms,
}
use fuse_native.Shutdown.Manager.{
  Progress, start_phase, enter_phase, execute_phases, execute_shutdown,
}

-- A true answer.
pub data Found : List Bool → Type 0 where
  here : {answers : List Bool} → Found (true ∷ answers)
  there : {answer : Bool} {answers : List Bool} → Found answers → Found (answer ∷ answers)

-- The phase starts before the whole timeout, its cleanup does not throw, and its check comes true.
pub record Succeeds (timeout_ms : ℕ) (r : PhaseRun) (phase : ShutdownPhase) : Type 0 where
  pub in_time : r.elapsed < timeout_ms * ns_per_ms
  pub cleaned : (phase.cleanup_action ≡ none) ⊎ (r.cleanup_throws ≡ false)
  pub checked : (phase.completion_check ≡ none) ⊎ Found r.checks

-- All phases from the `i`th on succeed.
pub data AllSucceed (timeout_ms : ℕ) (runs : ℕ → PhaseRun) : ℕ → List ShutdownPhase → Type 0 where
  none_left : {i : ℕ} → AllSucceed timeout_ms runs i []
  one_more :
      {i : ℕ} {phase : ShutdownPhase} {phases : List ShutdownPhase}
      → Succeeds timeout_ms (runs i) phase
      → AllSucceed timeout_ms runs (i + 1) phases
      → AllSucceed timeout_ms runs i (phase ∷ phases)

-- The states of the phases and their durations, from the `i`th on.
abbrev durations : (ℕ → PhaseRun) → ℕ → List ShutdownPhase → List (ShutdownState × ℕ)
durations runs i [] = []
durations runs i (phase ∷ phases) = (phase.state, (runs i).duration) ∷ durations runs (i + 1) phases

-- The durations that a run records which stops at a phase from the `i`th on: those of the phases before
-- it, which succeed, and its own unless the whole timeout is over when it would start.
pub data StopsAfter (timeout_ms : ℕ) (runs : ℕ → PhaseRun)
    : ℕ → List ShutdownPhase → List (ShutdownState × ℕ) → Type 0 where
  too_late :
      {i : ℕ} {phase : ShutdownPhase} {phases : List ShutdownPhase}
      → timeout_ms * ns_per_ms ≤ (runs i).elapsed
      → StopsAfter timeout_ms runs i (phase ∷ phases) []
  fails :
      {i : ℕ} {phase : ShutdownPhase} {phases : List ShutdownPhase}
      → (runs i).elapsed < timeout_ms * ns_per_ms
      → ¬ Succeeds timeout_ms (runs i) phase
      → StopsAfter timeout_ms runs i (phase ∷ phases) ((phase.state, (runs i).duration) ∷ [])
  goes_on :
      {i : ℕ} {phase : ShutdownPhase} {phases : List ShutdownPhase} {ds : List (ShutdownState × ℕ)}
      → Succeeds timeout_ms (runs i) phase
      → StopsAfter timeout_ms runs (i + 1) phases ds
      → StopsAfter timeout_ms runs i (phase ∷ phases) ((phase.state, (runs i).duration) ∷ ds)

poll-Found : (answers : List Bool) → poll answers ≡ true → Found answers
unfolding poll
poll-Found [] h = ground arith
poll-Found (true ∷ answers) h = here
poll-Found (false ∷ answers) h = there (poll-Found answers h)

Found-poll : (answers : List Bool) → Found answers → poll answers ≡ true
unfolding poll
Found-poll [] f = elim f [ ]
Found-poll (true ∷ answers) f = refl
Found-poll (false ∷ answers) (there f) = Found-poll answers f

execute_phase-Succeeds :
    (timeout_ms : ℕ) (r : PhaseRun) (phase : ShutdownPhase)
    → r.elapsed < timeout_ms * ns_per_ms
    → execute_phase (start_phase timeout_ms phase r) r ≡ true
    → Succeeds timeout_ms r phase
unfolding execute_phase check_phase start_phase
execute_phase-Succeeds timeout_ms r phase t h = ground (arith, poll-Found r.checks)

Succeeds-execute_phase :
    (timeout_ms : ℕ) (r : PhaseRun) (phase : ShutdownPhase)
    → Succeeds timeout_ms r phase
    → execute_phase (start_phase timeout_ms phase r) r ≡ true
unfolding execute_phase check_phase start_phase
Succeeds-execute_phase timeout_ms r phase s =
    ground (arith, s.cleaned, s.checked, Found-poll r.checks)

-- How a run of the phases ends: all succeed and all durations are recorded after `old`, or not all
-- succeed and those are that a run records which stops at the first one that does not.
abbrev pub Ran :
    ℕ
    → (ℕ → PhaseRun)
    → ℕ
    → List ShutdownPhase
    → List (ShutdownState × ℕ)
    → Bool
    → ShutdownStats
    → Type 0
Ran timeout_ms runs i phases old succeeded stats =
    ((succeeded ≡ true)
      × AllSucceed timeout_ms runs i phases
      × (stats.phase_durations ≡ old ++ durations runs i phases))
    ⊎ ((succeeded ≡ false)
        × (¬ AllSucceed timeout_ms runs i phases)
        × ((ds : List (ShutdownState × ℕ)) × StopsAfter timeout_ms runs i phases ds
            × (stats.phase_durations ≡ old ++ ds)))

not_rest :
    {timeout_ms i : ℕ} {runs : ℕ → PhaseRun} {phase : ShutdownPhase} {phases : List ShutdownPhase}
    → ¬ AllSucceed timeout_ms runs (i + 1) phases
    → ¬ AllSucceed timeout_ms runs i (phase ∷ phases)
not_rest refuted (one_more s all) = refuted all

not_first :
    {timeout_ms i : ℕ} {runs : ℕ → PhaseRun} {phase : ShutdownPhase} {phases : List ShutdownPhase}
    → ¬ Succeeds timeout_ms (runs i) phase
    → ¬ AllSucceed timeout_ms runs i (phase ∷ phases)
not_first refuted (one_more s all) = refuted s

-- A phase that succeeded before the others.
Ran-step :
    (timeout_ms : ℕ) (runs : ℕ → PhaseRun) (i : ℕ) (phase : ShutdownPhase)
    (phases : List ShutdownPhase) (old : List (ShutdownState × ℕ)) (p : Progress)
    → Succeeds timeout_ms (runs i) phase
    → Ran timeout_ms runs
        (i + 1)
        phases
        (old ++ ((phase.state, (runs i).duration) ∷ []))
        p.succeeded
        p.manager.stats
    → Ran timeout_ms runs i (phase ∷ phases) old p.succeeded p.manager.stats
Ran-step timeout_ms runs i phase phases old p s (inl (e, all, d)) =
    let x : ShutdownState × ℕ = (phase.state, (runs i).duration) in
    inl (e, one_more s all, d ∙ append_assoc old (x ∷ []) (durations runs (i + 1) phases))
Ran-step timeout_ms runs i phase phases old p s (inr (e, refuted, (ds, stops, d))) =
    let x : ShutdownState × ℕ = (phase.state, (runs i).duration) in
    inr (e, not_rest refuted, (x ∷ ds, goes_on s stops, d ∙ append_assoc old (x ∷ []) ds))

execute_phases-Ran :
    (timeout_ms : ℕ) (runs : ℕ → PhaseRun) (i : ℕ) (done phases : List ShutdownPhase)
    (m : ShutdownManager) (log : List Event)
    → let p = execute_phases timeout_ms runs i done phases m log in
      Ran timeout_ms runs i phases m.stats.phase_durations p.succeeded p.manager.stats
unfolding execute_phases enter_phase notify_callbacks
execute_phases-Ran timeout_ms runs i done [] m log =
    inl (refl, none_left, sym (append-nil m.stats.phase_durations))
execute_phases-Ran timeout_ms runs i done (phase ∷ phases) m log =
    let started = start_phase timeout_ms phase (runs i) in
    let entered = enter_phase timeout_ms phase (runs i) m log in
    let rest =
      execute_phases-Ran timeout_ms runs (i + 1) (done ++ (started ∷ [])) phases entered.0
        entered.1 in
    elim (Bool-cases (leb (timeout_ms * ns_per_ms) (runs i).elapsed)) [
      | inl late ↦ rw (late) (
          inr (
            refl,
            not_first (λ s. ground (arith, s.in_time, late)),
            ([], too_late (ground (arith, late)), sym (append-nil m.stats.phase_durations)),
          ))
      | inr soon ↦ elim (Bool-cases (execute_phase started (runs i))) [
        | inl ok ↦
            rw (soon, ok)
              (Ran-step timeout_ms runs i phase phases m.stats.phase_durations
                (execute_phases timeout_ms runs (i + 1) (done ++ (started ∷ [])) phases entered.0
                  entered.1)
                (execute_phase-Succeeds timeout_ms (runs i) phase (ground (arith, soon)) ok) rest)
        | inr fail ↦
            rw (soon, fail)
              (let refuted : ¬ Succeeds timeout_ms (runs i) phase = λ s.
                  true≢false (sym (Succeeds-execute_phase timeout_ms (runs i) phase s) ∙ fail) in
                inr (
                  refl,
                  not_first refuted,
                  (
                    (phase.state, (runs i).duration) ∷ [],
                    fails (ground (arith, soon)) refuted,
                    refl,
                  ),
                ))
      ]
    ]

-- The end of a shutdown: the state is CLOSED, in the statistics too, and no shutdown is in progress.
-- It counts as graceful exactly where every phase started before the whole timeout, had a cleanup
-- that did not throw and a check that came true; then the durations of all phases are recorded.
-- Otherwise those of the phases before the first that failed are, and its own too, unless it failed by
-- starting too late.
pub execute_shutdown_lem :
    (m : ShutdownManager) (runs : ℕ → PhaseRun) (reason : String) (timeout_ms : ℕ)
    (log : List Event)
    → let m' = (execute_shutdown m runs reason timeout_ms log).0 in
      (m'.current_state ≡ closed)
      × (m'.shutdown_in_progress ≡ false)
      × (m'.stats.final_state ≡ closed)
      × Ran timeout_ms runs 0 m.shutdown_phases m.stats.phase_durations m'.stats.graceful_completion
          m'.stats
unfolding execute_shutdown notify_callbacks
execute_shutdown_lem m runs reason timeout_ms log =
    let begun = notify_callbacks m (λ id. on_begin id reason) log in
    (refl, refl, refl, execute_phases-Ran timeout_ms runs 0 [] m.shutdown_phases begun.0 begun.1)
