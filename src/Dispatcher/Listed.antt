-- ===== src/Dispatcher/Listed.antt =====
-- The map of pending requests of src/tsfn_dispatcher.cc holds the callbacks that have not ended, by
-- their ids.
use fuse_native.Base.{ℕ, ◌+◌, ◌≤◌, ◌==◌, List, [], ◌∷◌, if◌then◌else◌}
use fuse_native.Dispatcher.{Dispatcher, Callback}

abbrev pub one_if : ℕ → Callback → ℕ
one_if id cb = if cb.request_id == id then 1 else 0

-- How many callbacks have the id.
abbrev pub with_id : ℕ → List Callback → ℕ
with_id id [] = 0
with_id id (cb ∷ cbs) = one_if id cb + with_id id cbs

-- The map has at least as many entries of the id as there are callbacks of it that have not ended.
abbrev pub Listed : ℕ → Dispatcher → Type 0
Listed id d =
    with_id id d.callback_queue + with_id id d.working + with_id id d.calling
    ≤ with_id id d.pending_requests
