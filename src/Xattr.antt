-- ===== src/Xattr.antt =====
-- src/xattr_bridge.cc, on Linux: the functions on extended attributes that JavaScript calls. The system
-- calls and the UTF-8 forms of texts are parameters. C++ exceptions are off in Node-API: after a
-- conversion that fails, an exception is pending and the function runs on, with 0 or an empty text.
pub mod Names
pub mod Calls
mod Tests
use Prim.Native.String.{String}
use fuse_native.Base.{
  ℕ, zero, suc, ◌+◌, ◌%◌, ◌^◌, Bool, true, false, not, ◌&&◌, ◌||◌, Option, none, some, List, [],
  ◌∷◌, ◌++◌, map, ltb, ◌==◌, if◌then◌else◌, length, take, drop, replicate,
}
use fuse_native.Base.Int.{ℤ, pos, negsuc, is_neg, pos_part, negate, to_u64}
use fuse_native.Errno.{einval}
use fuse_native.Bridge.Js.{
  JsValue, Values, nil, cons, number, string, bigint, typed_array, array, is_number, to_i32,
  big_u64, big_i64, object_of, view,
}

-- What a system call returns, its errno, and the bytes that it wrote.
pub record SysResult : Type 0 where
  pub result : ℤ
  pub errno : ℕ
  pub written : List ℕ

pub record Kernel : Type 0 where
  pub getxattr : List ℕ → List ℕ → ℕ → SysResult
  pub setxattr : List ℕ → List ℕ → List ℕ → ℤ → SysResult
  pub listxattr : List ℕ → ℕ → SysResult
  pub removexattr : List ℕ → List ℕ → SysResult

pub record Texts : Type 0 where
  pub utf8 : String → List ℕ
  pub decode : List ℕ → String

-- The system calls that are made, with the path, the name and what else is passed.
pub data SysCall : Type 0 where
  getxattr_called : List ℕ → List ℕ → ℕ → SysCall
  setxattr_called : List ℕ → List ℕ → List ℕ → ℤ → SysCall
  listxattr_called : List ℕ → ℕ → SysCall
  removexattr_called : List ℕ → List ℕ → SysCall

-- What JavaScript gets, after these system calls.
pub data Outcome : Type 0 where
  thrown : Outcome
  value : JsValue → Outcome

abbrev pub Ran : Type 0
Ran = List SysCall × Outcome

-- The platform functions return an int.
abbrev pub to_int : ℤ → ℤ
to_int z = to_i32 (to_u64 z % 2 ^ 32)

-- strnlen, and what c_str shows of a std::string.
abbrev pub strnlen : List ℕ → ℕ
strnlen [] = 0
strnlen (c ∷ cs) = if c == 0 then 0 else suc (strnlen cs)

abbrev pub c_str : List ℕ → List ℕ
c_str s = take (strnlen s) s

abbrev pub has_nul : List ℕ → Bool
has_nul [] = false
has_nul (c ∷ cs) = if c == 0 then true else has_nul cs

-- The loop of `ParseAttributeList`, on what is left of the buffer.
unfoldable pub parse_names : ℕ → List ℕ → List (List ℕ)
parse_names zero rest = []
parse_names (suc fuel) [] = []
parse_names (suc fuel) (c ∷ cs) =
    let len = strnlen (c ∷ cs) in
    let more = parse_names fuel (drop (suc len) (c ∷ cs)) in
    if len == 0 then [] else take len (c ∷ cs) ∷ more

-- The fuel is the size: each round takes a byte at least.
unfoldable pub parse_attribute_list : Option (List ℕ) → ℕ → List (List ℕ)
parse_attribute_list none size = []
parse_attribute_list (some buffer) size =
    if size == 0 then [] else parse_names size (take size buffer)

unfoldable pub is_valid_attribute_name : List ℕ → Bool
is_valid_attribute_name [] = false
is_valid_attribute_name (c ∷ cs) =
    if ltb 255 (length (c ∷ cs)) then false else if has_nul (c ∷ cs) then false else not (c == 0)

unfoldable pub convert_xattr_flags : ℤ → ℤ
convert_xattr_flags flags = flags

-- The conversions of src/napi_helpers.cc, with whether they leave an exception pending.
abbrev pub utf8_value : (String → List ℕ) → JsValue → List ℕ × Bool
utf8_value utf8 (string s) = (utf8 s, false)
utf8_value utf8 v = ([], true)

unfoldable pub get_big_uint64 : JsValue → ℕ × Bool
get_big_uint64 (bigint (some n) i) = (n, false)
get_big_uint64 v = (0, true)

unfoldable pub get_int32 : JsValue → ℤ × Bool
get_int32 (number n) = (n.int32_value, false)
get_int32 v = (pos 0, true)

-- The optional size: only a number is looked at.
unfoldable pub size_arg : List JsValue → ℕ × Bool
size_arg [] = (0, false)
size_arg (v ∷ vs) = if is_number v then get_big_uint64 v else (0, false)

abbrev pub finish : Bool → JsValue → Outcome
finish pending v = if pending then thrown else value v

abbrev pub minus : ℕ → JsValue
minus errno = big_i64 (negate (pos errno))

-- The buffer of the call, which was all zeros, with what the system wrote into it.
abbrev pub filled : ℕ → List ℕ → List ℕ
filled size written = written ++ drop (length written) (replicate size 0)

unfoldable pub value_object : ℕ → ℤ → List ℕ → JsValue
value_object size result written =
    let count = pos_part result in
    if ltb 0 count
    then object_of (
        ("size", big_u64 count)
        ∷ ("data", typed_array true (take count (filled size written)) 0 count)
        ∷ [])
    else object_of (("size", big_u64 count) ∷ [])

unfoldable pub get_xattr : Texts → Kernel → List JsValue → Ran
get_xattr texts kernel (path_arg ∷ name_arg ∷ rest) =
    let path = utf8_value texts.utf8 path_arg in
    let name = utf8_value texts.utf8 name_arg in
    let size = size_arg rest in
    let pending = path.1 || name.1 || size.1 in
    let r = kernel.getxattr (c_str path.0) (c_str name.0) size.0 in
    let calls = getxattr_called (c_str path.0) (c_str name.0) size.0 ∷ [] in
    let result = to_int r.result in
    if not (is_valid_attribute_name name.0)
    then ([], finish pending (minus einval))
    else if is_neg result
    then (calls, finish pending (minus r.errno))
    else if size.0 == 0
    then (calls, finish pending (big_u64 (pos_part result)))
    else (calls, finish pending (value_object size.0 result r.written))
get_xattr texts kernel _ = ([], thrown)

-- The bytes of an argument that is a Buffer.
abbrev pub buffer_arg : JsValue → Option (List ℕ)
buffer_arg (typed_array true bytes offset size) = some (view bytes offset size)
buffer_arg v = none

-- `SetXAttr` with the bytes of its third argument.
unfoldable pub set_bytes : Texts → Kernel → JsValue → JsValue → List ℕ → JsValue → Ran
set_bytes texts kernel path_arg name_arg bytes flags_arg =
    let path = utf8_value texts.utf8 path_arg in
    let name = utf8_value texts.utf8 name_arg in
    let flags = get_int32 flags_arg in
    let pending = path.1 || name.1 || flags.1 in
    let r = kernel.setxattr (c_str path.0) (c_str name.0) bytes (convert_xattr_flags flags.0) in
    let calls =
      setxattr_called (c_str path.0) (c_str name.0) bytes (convert_xattr_flags flags.0) ∷ [] in
    if not (is_valid_attribute_name name.0)
    then ([], finish pending (minus einval))
    else if is_neg (to_int r.result)
    then (calls, finish pending (minus r.errno))
    else (calls, finish pending (big_i64 (pos 0)))

unfoldable pub set_xattr : Texts → Kernel → List JsValue → Ran
set_xattr texts kernel (path ∷ name ∷ data_arg ∷ flags ∷ rest) = elim (buffer_arg data_arg) [
  | none ↦ ([], thrown)
  | some bytes ↦ set_bytes texts kernel path name bytes flags
]
set_xattr texts kernel _ = ([], thrown)

abbrev pub to_values : List JsValue → Values
to_values [] = nil
to_values (v ∷ vs) = cons v (to_values vs)

unfoldable pub list_xattr : Texts → Kernel → List JsValue → Ran
list_xattr texts kernel [] = ([], thrown)
list_xattr texts kernel (path_arg ∷ rest) =
    let path = utf8_value texts.utf8 path_arg in
    let size = size_arg rest in
    let pending = path.1 || size.1 in
    let r = kernel.listxattr (c_str path.0) size.0 in
    let calls = listxattr_called (c_str path.0) size.0 ∷ [] in
    let result = to_int r.result in
    let names = parse_attribute_list (some (filled size.0 r.written)) (pos_part result) in
    if is_neg result
    then (calls, finish pending (minus r.errno))
    else if size.0 == 0
    then (calls, finish pending (big_u64 (pos_part result)))
    else (
      calls,
      finish pending (
          object_of (
            ("size", big_u64 (pos_part result))
            ∷ ("names", array (to_values (map (λ name. string (texts.decode name)) names)))
            ∷ [])),
    )

unfoldable pub remove_xattr : Texts → Kernel → List JsValue → Ran
remove_xattr texts kernel (path_arg ∷ name_arg ∷ rest) =
    let path = utf8_value texts.utf8 path_arg in
    let name = utf8_value texts.utf8 name_arg in
    let pending = path.1 || name.1 in
    let r = kernel.removexattr (c_str path.0) (c_str name.0) in
    let calls = removexattr_called (c_str path.0) (c_str name.0) ∷ [] in
    if not (is_valid_attribute_name name.0)
    then ([], finish pending (minus einval))
    else if is_neg (to_int r.result)
    then (calls, finish pending (minus r.errno))
    else (calls, finish pending (big_i64 (pos 0)))
remove_xattr texts kernel _ = ([], thrown)
