-- ===== src/Bridge/Sizes.antt =====
-- The two calls of getxattr and listxattr of src/fuse_bridge.cc: one for the size, one for the bytes.
use Prim.Native.String.{String}
use fuse_native.Base.{ℕ, ◌<◌, ◌≡◌, List, length, refl, arith, true, false}
use fuse_native.Errno.{erange}
use fuse_native.Bridge.Js.{Values, array, typed_array, elements, view}
use fuse_native.Bridge.Replies.{Answer, guarded, raw, fail, reply_xattr, reply_buf}
use fuse_native.Bridge.Xattrs.{sized_reply, answer_getxattr, answer_listxattr, name_list}

-- What three calls are told of a value with these bytes: with size 0, with their number, with less.
abbrev pub Told : (ℕ → Answer) → List ℕ → ℕ → Type 0
Told answer bytes less =
    (answer 0 ≡ raw (reply_xattr (length bytes)))
    × (answer (length bytes) ≡ guarded (reply_buf bytes))
    × (answer less ≡ fail erange)

sized_reply-Told :
    (bytes : List ℕ) (less : ℕ)
    → 0 < less
    → less < length bytes
    → Told (λ (size : ℕ). sized_reply size bytes) bytes less
unfolding sized_reply
sized_reply-Told bytes less asked short = (refl, ground arith, ground arith)

-- A list of names that is not empty is told by its length to a call with size 0, is given whole to a
-- call with that length as size, and is refused with ERANGE to one with a smaller size.
answer_listxattr-Told :
    (utf8 : String → List ℕ) (vs : Values) (less : ℕ)
    → 0 < less
    → less < length (name_list utf8 false (elements vs))
    → Told
        (λ (size : ℕ). answer_listxattr utf8 size (array vs))
        (name_list utf8 false (elements vs))
        less
unfolding answer_listxattr
answer_listxattr-Told utf8 vs less asked short = sized_reply-Told _ less asked short

-- The same for the value of an attribute that is given as a buffer.
answer_getxattr-Told :
    (bytes : List ℕ) (offset count less : ℕ)
    → 0 < less
    → less < length (view bytes offset count)
    → Told
        (λ (size : ℕ). answer_getxattr size (typed_array true bytes offset count))
        (view bytes offset count)
        less
unfolding answer_getxattr
answer_getxattr-Told bytes offset count less asked short = sized_reply-Told _ less asked short
