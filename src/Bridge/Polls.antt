-- ===== src/Bridge/Polls.antt =====
-- src/fuse_bridge.cc: the registry of poll handles, which all bridges share under one mutex, and
-- `HandlePoll`. A handle is its address, 0 for a null pointer; `destroyed` and `notified` list the calls
-- of fuse_pollhandle_destroy and fuse_lowlevel_notify_poll, the latest first.
use Prim.Native.String.{String}
use fuse_native.Base.{
  ℕ, ◌==◌, ◌&&◌, Bool, true, false, not, List, [], ◌∷◌, ◌++◌, Option, none, some, if◌then◌else◌,
}
use fuse_native.Base.Int.{ℤ}
use fuse_native.Errno.{eio}
use fuse_native.Bridge
use fuse_native.Bridge.Js.{JsValue, number, of_nat, big_u64, object_of}
use fuse_native.Bridge.Objects.FileInfos.{FileInfo}
use fuse_native.Bridge.Replies.{raw}
use fuse_native.Bridge.Js.{get_field, get, to_boolean}
use fuse_native.Bridge.Replies.{Answer, fail, reply_poll}
use fuse_native.Bridge.Tasks.{
  Caller, Handled, process, request_context, file_info_or_null, no_options, is_zero,
}

pub record PollHandleEntry : Type 0 where
  pub owner : ℕ
  pub handle : ℕ

pub record PollRegistry : Type 0 where
  pub entries : List PollHandleEntry
  pub destroyed : List ℕ
  pub notified : List ℕ

unfoldable pub find_handle : ℕ → List PollHandleEntry → Bool
find_handle handle [] = false
find_handle handle (e ∷ es) = if e.handle == handle then true else find_handle handle es

unfoldable pub erase_handle : ℕ → List PollHandleEntry → List PollHandleEntry
erase_handle handle [] = []
erase_handle handle (e ∷ es) = if e.handle == handle then es else e ∷ erase_handle handle es

-- The handle's owner is the last that registered it.
unfoldable pub register_poll_handle : PollRegistry → ℕ → ℕ → Bool × PollRegistry
register_poll_handle r owner handle = if handle == 0 then (false, r) else (
  true,
  record r { entries = record { owner = owner; handle = handle } ∷ erase_handle handle r.entries },
)

unfoldable pub destroy_handle : ℕ → PollRegistry → PollRegistry
destroy_handle handle r = record r { destroyed = handle ∷ r.destroyed }

unfoldable pub release_poll_handle : PollRegistry → ℕ → Bool → PollRegistry
release_poll_handle r handle destroys =
    if handle == 0
    then r
    else let r' = record r { entries = erase_handle handle r.entries } in
      if destroys then destroy_handle handle r' else r'

-- The loop of `CleanupPollHandles`: what it keeps, and the handles that it takes out.
unfoldable pub owned_by : ℕ → List PollHandleEntry → List ℕ
owned_by owner [] = []
owned_by owner (e ∷ es) =
    if e.owner == owner then e.handle ∷ owned_by owner es else owned_by owner es

unfoldable pub not_owned_by : ℕ → List PollHandleEntry → List PollHandleEntry
not_owned_by owner [] = []
not_owned_by owner (e ∷ es) =
    if e.owner == owner then not_owned_by owner es else e ∷ not_owned_by owner es

unfoldable pub cleanup_poll_handles : PollRegistry → ℕ → PollRegistry
cleanup_poll_handles r owner = record r {
  entries = not_owned_by owner r.entries;
  destroyed = owned_by owner r.entries ++ r.destroyed;
}

-- `rc` is what fuse_lowlevel_notify_poll returns.
unfoldable pub notify_poll_handle : PollRegistry → ℕ → Bool → ℤ → Bool × PollRegistry
notify_poll_handle r handle destroy_after rc =
    if not (find_handle handle r.entries)
    then (false, r)
    else let r' = record r { notified = handle ∷ r.notified } in
      (
        is_zero rc,
        if destroy_after
            then destroy_handle handle (record r' { entries = erase_handle handle r.entries })
            else r',
      )

unfoldable pub destroy_poll_handle : PollRegistry → ℕ → Bool × PollRegistry
destroy_poll_handle r handle =
    if not (find_handle handle r.entries)
    then (false, r)
    else (true, destroy_handle handle (record r { entries = erase_handle handle r.entries }))

abbrev fh_field : Option FileInfo → List (String × JsValue)
fh_field none = []
fh_field (some fi) = ("fh", big_u64 fi.fh) ∷ []

abbrev poll_object : Option FileInfo → ℕ → ℕ → JsValue
poll_object fi ph events = object_of (
    if ph == 0
    then []
    else ("kh", big_u64 ph) ∷ (fh_field fi ++ (("events", number (of_nat events)) ∷ [])))

abbrev requested_events : Option FileInfo → ℕ
requested_events none = 0
requested_events (some fi) = fi.poll_events

abbrev poll_reply : Option JsValue → Answer
poll_reply (some (number n)) = raw (reply_poll n.uint32_value)
poll_reply _ = fail eio

unfoldable answer_poll : JsValue → Answer
answer_poll value = poll_reply (get_field "revents" value)

abbrev has_revents : Option JsValue → Bool
has_revents (some (number n)) = true
has_revents _ = false

-- What a result does to the handle: it is kept where the reply is sent and polling goes on.
unfoldable on_poll_result : PollRegistry → ℕ → JsValue → PollRegistry
on_poll_result r ph value =
    if has_revents (get_field "revents" value) && to_boolean (get "keepPolling" value)
    then r
    else release_poll_handle r ph true

unfoldable on_poll_rejected : PollRegistry → ℕ → PollRegistry
on_poll_rejected r ph = release_poll_handle r ph true

-- The handle is registered before the request is dispatched.
unfoldable handle_poll :
    PollRegistry → ℕ → Option Caller → ℕ → Option FileInfo → ℕ → PollRegistry × Handled
handle_poll r bridge caller ino fi ph =
    let events = requested_events fi in
    (
      (register_poll_handle r bridge ph).1,
      process Bridge.op_poll
          (big_u64 ino
            ∷ file_info_or_null fi
            ∷ poll_object fi ph events
            ∷ number (of_nat events)
            ∷ request_context caller
            ∷ no_options
            ∷ [])
          answer_poll,
    )
