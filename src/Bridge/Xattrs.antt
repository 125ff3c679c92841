-- ===== src/Bridge/Xattrs.antt =====
-- src/fuse_bridge.cc: the replies of getxattr and listxattr. The UTF-8 form of a text is a parameter.
use Prim.Native.String.{String}
use fuse_native.Base.{ℕ, ◌==◌, Bool, true, false, List, [], ◌∷◌, ◌++◌, length, ltb, if◌then◌else◌}
use fuse_native.Errno.{eio, erange}
use fuse_native.Bridge.Js.{JsValue, number, string, array, typed_array, elements, view}
use fuse_native.Bridge.Replies.{Answer, guarded, raw, fail, reply_xattr, reply_buf}

-- A size of 0 asks for the length.
unfoldable pub sized_reply : ℕ → List ℕ → Answer
sized_reply size bytes =
    if size == 0
    then raw (reply_xattr (length bytes))
    else if ltb size (length bytes)
    then fail erange
    else guarded (reply_buf bytes)

unfoldable pub answer_getxattr : ℕ → JsValue → Answer
answer_getxattr size (typed_array true bytes offset count) =
    sized_reply size (view bytes offset count)
answer_getxattr size (number n) = raw (reply_xattr n.uint32_value)
answer_getxattr size _ = fail eio

-- The names, each with a NUL after it. After an element that is no text an exception is pending, and
-- every later name is empty too.
unfoldable pub name_list : (String → List ℕ) → Bool → List JsValue → List ℕ
name_list utf8 pending [] = []
name_list utf8 true (v ∷ vs) = 0 ∷ name_list utf8 true vs
name_list utf8 false (string s ∷ vs) = utf8 s ++ (0 ∷ name_list utf8 false vs)
name_list utf8 false (v ∷ vs) = 0 ∷ name_list utf8 true vs

unfoldable pub answer_listxattr : (String → List ℕ) → ℕ → JsValue → Answer
answer_listxattr utf8 size (array vs) = sized_reply size (name_list utf8 false (elements vs))
answer_listxattr utf8 size (number n) = raw (reply_xattr n.uint32_value)
answer_listxattr utf8 size _ = fail eio
