-- ===== src/Bridge/PollSafety.antt =====
-- Which poll handles the registry of src/fuse_bridge.cc destroys.
use fuse_native.Base.{
  ℕ, ◌<◌, ◌+◌, ◌≤◌, ◌≡◌, Bool, true, List, [], ◌∷◌, ◌++◌, arith, ◌==◌, if◌then◌else◌,
}
use fuse_native.Base.Int.{ℤ}
use fuse_native.Bridge.Polls.{
  PollHandleEntry, PollRegistry, find_handle, erase_handle, register_poll_handle, destroy_handle,
  release_poll_handle, owned_by, not_owned_by, cleanup_poll_handles, notify_poll_handle,
  destroy_poll_handle,
}

abbrev pub empty_registry : PollRegistry
empty_registry = record { entries = []; destroyed = []; notified = [] }

-- The calls on the registry: of a bridge with a new handle, of JavaScript, and of a bridge that shuts
-- down. Not here is the release of a handle by the poll handler itself.
pub data Call : Type 0 where
  registers : ℕ → ℕ → Call
  notifies : ℕ → Bool → ℤ → Call
  destroys : ℕ → Call
  cleans : ℕ → Call

abbrev pub call : PollRegistry → Call → PollRegistry
call r (registers owner handle) = (register_poll_handle r owner handle).1
call r (notifies handle destroy_after rc) = (notify_poll_handle r handle destroy_after rc).1
call r (destroys handle) = (destroy_poll_handle r handle).1
call r (cleans owner) = cleanup_poll_handles r owner

abbrev pub calls : PollRegistry → List Call → PollRegistry
calls r [] = r
calls r (c ∷ cs) = calls (call r c) cs

abbrev pub count : ℕ → List ℕ → ℕ
count h [] = 0
count h (x ∷ xs) = (if x == h then 1 else 0) + count h xs

abbrev pub entered : ℕ → List PollHandleEntry → ℕ
entered h [] = 0
entered h (e ∷ es) = (if e.handle == h then 1 else 0) + entered h es

-- How often a handle was registered.
abbrev pub registrations : ℕ → List Call → ℕ
registrations h [] = 0
registrations h (registers owner handle ∷ cs) = (if handle == h then 1 else 0) + registrations h cs
registrations h (c ∷ cs) = registrations h cs

-- A handle's entries and its destructions together.
abbrev weight : ℕ → PollRegistry → ℕ
weight h r = entered h r.entries + count h r.destroyed

entered-erase_handle :
    (h handle : ℕ) (es : List PollHandleEntry)
    → find_handle handle es ≡ true
    → (if handle == h then 1 else 0) + entered h (erase_handle handle es) ≡ entered h es
unfolding find_handle erase_handle
entered-erase_handle h handle [] found = ground arith
entered-erase_handle h handle (e ∷ es) found = ground (arith, entered-erase_handle h handle es)

entered-erase_handle_le :
    (h handle : ℕ) (es : List PollHandleEntry) → entered h (erase_handle handle es) ≤ entered h es
unfolding erase_handle
entered-erase_handle_le h handle [] = omega arith
entered-erase_handle_le h handle (e ∷ es) = ground (arith, entered-erase_handle_le h handle es)

count-append : (h : ℕ) (xs ys : List ℕ) → count h (xs ++ ys) ≡ count h xs + count h ys
count-append h [] ys = omega arith
count-append h (x ∷ xs) ys = ground (arith, count-append h xs ys)

split-owned_by :
    (h owner : ℕ) (es : List PollHandleEntry)
    → entered h (not_owned_by owner es) + count h (owned_by owner es) ≡ entered h es
unfolding owned_by not_owned_by
split-owned_by h owner [] = omega arith
split-owned_by h owner (e ∷ es) = ground (arith, split-owned_by h owner es)

call-weight :
    (h : ℕ) (r : PollRegistry) (c : Call)
    → weight h (call r c) ≤ weight h r + registrations h (c ∷ [])
unfolding register_poll_handle notify_poll_handle destroy_poll_handle cleanup_poll_handles
    destroy_handle
call-weight h r (registers owner handle) =
    ground (arith, entered-erase_handle_le h handle r.entries)
call-weight h r (notifies handle destroy_after rc) =
    ground (arith, entered-erase_handle h handle r.entries)
call-weight h r (destroys handle) = ground (arith, entered-erase_handle h handle r.entries)
call-weight h r (cleans owner) =
    ground (
      arith,
      split-owned_by h owner r.entries,
      count-append h (owned_by owner r.entries) r.destroyed,
    )

calls-weight :
    (h : ℕ) (r : PollRegistry) (cs : List Call)
    → weight h (calls r cs) ≤ weight h r + registrations h cs
calls-weight h r [] = omega arith
calls-weight h r (registers owner handle ∷ cs) = omega (
  arith,
  call-weight h r (registers owner handle),
  calls-weight h (call r (registers owner handle)) cs,
)
calls-weight h r (notifies handle after rc ∷ cs) = omega (
  arith,
  call-weight h r (notifies handle after rc),
  calls-weight h (call r (notifies handle after rc)) cs,
)
calls-weight h r (destroys handle ∷ cs) =
    omega (arith, call-weight h r (destroys handle), calls-weight h (call r (destroys handle)) cs)
calls-weight h r (cleans owner ∷ cs) =
    omega (arith, call-weight h r (cleans owner), calls-weight h (call r (cleans owner)) cs)

-- After any calls, other than releases by the poll handler itself, a handle was destroyed at most as
-- often as it was registered, counting those that are still registered.
pub calls-destroyed :
    (h : ℕ) (cs : List Call)
    → count h (calls empty_registry cs).destroyed + entered h (calls empty_registry cs).entries
      ≤ registrations h cs
calls-destroyed h cs = omega (arith, calls-weight h empty_registry cs)

-- A handle that was destroyed after its notification is destroyed a second time by the release that the
-- poll handler makes when its promise is settled.
release-destroys_again :
    (r : PollRegistry) (handle : ℕ) (rc : ℤ)
    → 0 < handle
    → find_handle handle r.entries ≡ true
    → count handle
        (release_poll_handle (notify_poll_handle r handle true rc).1 handle true).destroyed
      ≡ count handle r.destroyed + 2
unfolding release_poll_handle notify_poll_handle destroy_handle
release-destroys_again r handle rc valid found = ground arith
