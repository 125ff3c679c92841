-- ===== src/Bridge/Tasks.antt =====
-- src/fuse_bridge.cc: what a handler of the bridge makes of a request: the call of a JavaScript handler
-- with its arguments and with what its result is answered by, or a reply at once. A context does not
-- change between the request and the call, so the arguments are those of the request.
use Prim.Native.String.{String}
use fuse_native.Base.{
  ℕ, ◌==◌, ◌*◌, ◌-◌, ◌/◌, ◌%◌, ◌^◌, not, ◌||◌, Bool, false, List, [], ◌∷◌, Option, none, some,
}
use fuse_native.Base.Int.{ℤ, pos, negsuc}
use fuse_native.Bridge
use fuse_native.Bridge.{FuseOpType, same_op}
use fuse_native.Bridge.Js.{JsValue, null, number, of_nat, object_of}
use fuse_native.Bridge.Objects.FileInfos.{FileInfo, file_info_to_object}
use fuse_native.Bridge.Replies.{Reply, Answer, Outbox, new_outbox}

-- What the source reads of a fuse_ctx.
pub record Caller : Type 0 where
  pub uid : ℕ
  pub gid : ℕ
  pub pid : ℕ
  pub umask : ℕ

abbrev nobody : Caller
nobody = record { uid = 0; gid = 0; pid = 0; umask = 0 }

abbrev or_nobody : Option Caller → Caller
or_nobody none = nobody
or_nobody (some c) = c

-- `CreateRequestContextObject`.
unfoldable pub request_context : Option Caller → JsValue
request_context caller =
    let c = or_nobody caller in
    object_of (
      ("uid", number (of_nat c.uid))
      ∷ ("gid", number (of_nat c.gid))
      ∷ ("pid", number (of_nat c.pid))
      ∷ ("umask", number (of_nat c.umask))
      ∷ [])

abbrev pub file_info_or_null : Option FileInfo → JsValue
file_info_or_null none = null
file_info_or_null (some fi) = file_info_to_object fi

abbrev pub fi_option : Option FileInfo → List (String × JsValue)
fi_option none = []
fi_option (some fi) = ("fi", file_info_to_object fi) ∷ []

abbrev pub no_options : JsValue
no_options = object_of []

-- `name ? name : ""`.
abbrev pub or_empty : Option String → String
or_empty none = ""
or_empty (some s) = s

-- `unawaited`: a promise of the handler is replied to with success before it is settled.
pub record Task : Type 0 where
  pub op_type : FuseOpType
  pub arguments : List JsValue
  pub on_resolve : JsValue → Answer
  pub unawaited : Bool

-- Whether libfuse's callback comes with a request: `InitCallback` and `DestroyCallback` hand on a null
-- one.
unfoldable pub has_request : FuseOpType → Bool
has_request type = not (same_op type Bridge.op_init || same_op type Bridge.op_destroy)

-- `CreateContext`.
abbrev pub create_context : FuseOpType → Outbox
create_context type = new_outbox (has_request type)

pub data Handled : Type 0 where
  processed : Task → Handled
  replied_now : Reply → Handled
  no_reply : Handled

abbrev pub process : FuseOpType → List JsValue → (JsValue → Answer) → Handled
process op_type arguments on_resolve = processed (record {
  op_type = op_type;
  arguments = arguments;
  on_resolve = on_resolve;
  unawaited = false;
})

-- Bit `k` of a word, and the word without it.
abbrev pub bit : ℕ → ℕ → Bool
bit k w = w / 2 ^ k % 2 == 1

abbrev pub without : ℕ → ℕ → ℕ
without k w = w - w / 2 ^ k % 2 * 2 ^ k

abbrev pub is_zero : ℤ → Bool
is_zero (pos n) = n == 0
is_zero (negsuc n) = false
