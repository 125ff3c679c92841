-- ===== src/Bridge/Handlers/Attrs.antt =====
-- src/fuse_bridge.cc: the handlers of the operations on the attributes of a file.
use Prim.Native.String.{String}
use fuse_native.Base.{
  ℕ, ◌==◌, ◌||◌, ◌&&◌, ◌%◌, ◌^◌, Bool, true, List, [], ◌∷◌, ◌++◌, Option, none, some, if◌then◌else◌,
  length,
}
use fuse_native.Base.Int.{ℤ}
use fuse_native.Errno.{einval}
use fuse_native.Timespec.{timespec_to_ns}
use fuse_native.Bridge
use fuse_native.Bridge.{FuseOpType}
use fuse_native.Bridge.Js.{
  JsValue, null, boolean, number, string, typed_array, of_nat, of_int, big_u64, big_i64, object_of,
}
use fuse_native.Bridge.Objects.Stats.{Stat}
use fuse_native.Bridge.Objects.FileInfos.{FileInfo}
use fuse_native.Bridge.Replies.{reply_err}
use fuse_native.Bridge.Answers.{answer_ok, answer_attr, answer_statfs}
use fuse_native.Bridge.Xattrs.{answer_getxattr, answer_listxattr}
use fuse_native.Bridge.Tasks.{
  Caller, Handled, replied_now, process, request_context, file_info_or_null, fi_option, no_options,
  or_empty, bit, without,
}

unfoldable pub handle_getattr : Option Caller → ℕ → Option FileInfo → Handled
handle_getattr caller ino fi =
    process Bridge.op_getattr
      (big_u64 ino ∷ request_context caller ∷ file_info_or_null fi ∷ no_options ∷ []) answer_attr

abbrev valid_option : ℕ → List (String × JsValue)
valid_option to_set = ("valid", number (of_nat to_set)) ∷ []

unfoldable pub handle_chmod : Option Caller → ℕ → ℕ → Option FileInfo → ℕ → Handled
handle_chmod caller ino mode fi to_set =
    process Bridge.op_chmod
      (big_u64 ino
        ∷ number (of_nat mode)
        ∷ request_context caller
        ∷ object_of (valid_option to_set ++ fi_option fi)
        ∷ [])
      answer_attr

abbrev number_or_null : Bool → ℕ → JsValue
number_or_null asked n = if asked then number (of_nat n) else null

unfoldable pub handle_chown : Option Caller → ℕ → Stat → ℕ → Option FileInfo → Handled
handle_chown caller ino attr to_set fi =
    process Bridge.op_chown
      (big_u64 ino
        ∷ number_or_null (bit 1 to_set) attr.uid
        ∷ number_or_null (bit 2 to_set) attr.gid
        ∷ request_context caller
        ∷ object_of (valid_option to_set ++ fi_option fi)
        ∷ [])
      answer_attr

-- The part of `HandleSetattr` that calls `truncate`. It keeps the pointer to the attributes, whose
-- size it reads when the handler is called: here it is the one of the request.
unfoldable pub handle_truncate : Option Caller → ℕ → Stat → Option FileInfo → Handled
handle_truncate caller ino attr fi =
    process Bridge.op_truncate
      (big_u64 ino ∷ big_i64 attr.size ∷ request_context caller ∷ object_of (fi_option fi) ∷ [])
      answer_attr

abbrev field_if : Bool → String → JsValue → List (String × JsValue)
field_if asked key v = if asked then (key, v) ∷ [] else []

-- The attributes that are asked for: FUSE_SET_ATTR_MODE is bit 0, then come UID, GID, SIZE, ATIME and
-- MTIME; CTIME is bit 10.
unfoldable pub attr_object : Stat → ℕ → JsValue
attr_object st valid = object_of (
    field_if (bit 0 valid) "mode" (number (of_nat st.mode))
    ++ (field_if (bit 1 valid) "uid" (number (of_nat st.uid))
        ++ (field_if (bit 2 valid) "gid" (number (of_nat st.gid))
            ++ (field_if (bit 3 valid) "size" (big_i64 st.size)
                ++ (field_if (bit 4 valid) "atime" (big_u64 (timespec_to_ns st.atime))
                    ++ (field_if (bit 5 valid) "mtime" (big_u64 (timespec_to_ns st.mtime))
                        ++ field_if (bit 10 valid) "ctime" (big_u64 (timespec_to_ns st.ctime))))))))

-- The part of `HandleSetattr` that calls `setattr`; ATIME_NOW is bit 7 and MTIME_NOW bit 8.
unfoldable pub set_attributes : Option Caller → ℕ → Stat → ℕ → Option FileInfo → Handled
set_attributes caller ino attr to_set fi =
    process Bridge.op_setattr
      (big_u64 ino
        ∷ attr_object attr to_set
        ∷ request_context caller
        ∷ object_of (
            valid_option to_set
            ++ (fi_option fi
                ++ (field_if (bit 7 to_set) "atimeNow" (boolean true)
                    ++ field_if (bit 8 to_set) "mtimeNow" (boolean true))))
        ∷ [])
      answer_attr

abbrev handle_truncate_or_setattr :
    (FuseOpType → Bool) → Option Caller → ℕ → Stat → ℕ → Option FileInfo → Handled
handle_truncate_or_setattr has_handler caller ino attr to_set fi =
    if bit 3 to_set && without 3 to_set == 0 && has_handler Bridge.op_truncate
    then handle_truncate caller ino attr fi
    else set_attributes caller ino attr to_set fi

-- `HandleSetattr`: `to_set` is a word of 32 bits, and `attr` may be a null pointer.
unfoldable pub handle_setattr :
    (FuseOpType → Bool) → Option Caller → ℕ → Option Stat → ℕ → Option FileInfo → Handled
handle_setattr has_handler caller ino none to_set fi = replied_now (reply_err einval)
handle_setattr has_handler caller ino (some attr) to_set fi =
    if (bit 1 to_set || bit 2 to_set)
      && without 1 (without 2 to_set) == 0
      && has_handler Bridge.op_chown
    then handle_chown caller ino attr to_set fi
    else if bit 0 to_set && without 0 to_set == 0 && has_handler Bridge.op_chmod
    then handle_chmod caller ino attr.mode fi to_set
    else handle_truncate_or_setattr has_handler caller ino attr to_set fi

unfoldable pub handle_access : Option Caller → ℕ → ℕ → Handled
handle_access caller ino mask =
    process Bridge.op_access
      (big_u64 ino ∷ number (of_nat (mask % 2 ^ 32)) ∷ request_context caller ∷ no_options ∷ [])
      answer_ok

unfoldable pub handle_statfs : Option Caller → ℕ → Handled
handle_statfs caller ino =
    process Bridge.op_statfs (big_u64 ino ∷ request_context caller ∷ no_options ∷ []) answer_statfs

unfoldable pub handle_setxattr : Option Caller → ℕ → Option String → List ℕ → ℤ → Handled
handle_setxattr caller ino name bytes flags =
    process Bridge.op_setxattr
      (big_u64 ino
        ∷ string (or_empty name)
        ∷ typed_array true bytes 0 (length bytes)
        ∷ number (of_int flags)
        ∷ request_context caller
        ∷ [])
      answer_ok

abbrev size_option : ℕ → JsValue
size_option size = object_of (("size", number (of_nat size)) ∷ [])

unfoldable pub handle_getxattr : Option Caller → ℕ → Option String → ℕ → Handled
handle_getxattr caller ino name size =
    process Bridge.op_getxattr
      (big_u64 ino ∷ string (or_empty name) ∷ request_context caller ∷ size_option size ∷ [])
      (answer_getxattr size)

unfoldable pub handle_listxattr : (String → List ℕ) → Option Caller → ℕ → ℕ → Handled
handle_listxattr utf8 caller ino size =
    process Bridge.op_listxattr (big_u64 ino ∷ request_context caller ∷ size_option size ∷ [])
      (answer_listxattr utf8 size)

unfoldable pub handle_removexattr : Option Caller → ℕ → Option String → Handled
handle_removexattr caller ino name =
    process Bridge.op_removexattr
      (big_u64 ino ∷ string (or_empty name) ∷ request_context caller ∷ no_options ∷ []) answer_ok
