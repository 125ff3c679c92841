-- ===== src/Bridge.antt =====
-- src/fuse_bridge.h and src/fuse_bridge.cc: the bridge from libfuse's requests to JavaScript handlers.
-- This file has the operations and their names; its child modules have JavaScript values, replies, the
-- answers of each operation, and how a request gets to its handler and to its reply.
pub mod Js
pub mod Objects
pub mod Errors
pub mod Buffers
pub mod Replies
pub mod Answers
pub mod Dirs
pub mod Xattrs
pub mod Tasks
pub mod Handlers
pub mod Polls
pub mod WriteBufs
pub mod Life
pub mod Callbacks
pub mod Once
pub mod Listing
pub mod Sizes
pub mod Validity
pub mod Linear
pub mod PollSafety
pub mod Codes
pub mod Routes
pub mod Guarded
pub mod Through
pub mod Closing
pub mod Globals
pub mod Forgets
pub mod Requests
pub mod Registry
pub mod Names
mod Tests
mod RequestTests
use Prim.Native.Char.{code}
use Prim.Native.String.{String}
use fuse_native.Base.{
  ℕ, ◌+◌, Bool, true, false, ◌&&◌, List, [], ◌∷◌, leb, ◌==◌, if◌then◌else◌, map, Option, none, some,
}

pub data FuseOpType : Type 0 where
  op_init op_destroy op_forget op_forget_multi op_lookup op_getattr op_setattr op_readlink op_mknod
        op_mkdir op_unlink op_rmdir op_symlink op_rename op_link op_setxattr op_getxattr
        op_listxattr op_removexattr op_open op_read op_write op_write_buf op_read_buf op_flush
        op_release op_fsync op_fallocate op_lseek op_copy_file_range op_opendir op_readdir
        op_readdirplus op_releasedir op_fsyncdir op_statfs op_access op_create op_bmap op_ioctl
        op_poll op_flock op_getlk op_setlk op_retrieve_reply op_truncate op_chmod op_chown
        op_unknown :
      FuseOpType

-- The position in the enumeration.
abbrev pub op_code : FuseOpType → ℕ
op_code op_init = 0
op_code op_destroy = 1
op_code op_forget = 2
op_code op_forget_multi = 3
op_code op_lookup = 4
op_code op_getattr = 5
op_code op_setattr = 6
op_code op_readlink = 7
op_code op_mknod = 8
op_code op_mkdir = 9
op_code op_unlink = 10
op_code op_rmdir = 11
op_code op_symlink = 12
op_code op_rename = 13
op_code op_link = 14
op_code op_setxattr = 15
op_code op_getxattr = 16
op_code op_listxattr = 17
op_code op_removexattr = 18
op_code op_open = 19
op_code op_read = 20
op_code op_write = 21
op_code op_write_buf = 22
op_code op_read_buf = 23
op_code op_flush = 24
op_code op_release = 25
op_code op_fsync = 26
op_code op_fallocate = 27
op_code op_lseek = 28
op_code op_copy_file_range = 29
op_code op_opendir = 30
op_code op_readdir = 31
op_code op_readdirplus = 32
op_code op_releasedir = 33
op_code op_fsyncdir = 34
op_code op_statfs = 35
op_code op_access = 36
op_code op_create = 37
op_code op_bmap = 38
op_code op_ioctl = 39
op_code op_poll = 40
op_code op_flock = 41
op_code op_getlk = 42
op_code op_setlk = 43
op_code op_retrieve_reply = 44
op_code op_truncate = 45
op_code op_chmod = 46
op_code op_chown = 47
op_code op_unknown = 48

abbrev pub same_op : FuseOpType → FuseOpType → Bool
same_op a b = op_code a == op_code b

-- The code points of a text.
abbrev pub codes : String → List ℕ
codes String.[] = []
codes (String.◌∷◌ c s) = code c ∷ codes s

abbrev same_codes : List ℕ → List ℕ → Bool
same_codes [] [] = true
same_codes (x ∷ xs) (y ∷ ys) = (x == y) && same_codes xs ys
same_codes _ _ = false

-- std::tolower of the C locale.
abbrev to_lower : ℕ → ℕ
to_lower c = if leb b'A' c && leb c b'Z' then c + 32 else c

abbrev operation_mappings : List (String × FuseOpType)
operation_mappings =
    ("init", op_init)
    ∷ ("destroy", op_destroy)
    ∷ ("forget", op_forget)
    ∷ ("forget_multi", op_forget_multi)
    ∷ ("lookup", op_lookup)
    ∷ ("getattr", op_getattr)
    ∷ ("setattr", op_setattr)
    ∷ ("readlink", op_readlink)
    ∷ ("mknod", op_mknod)
    ∷ ("mkdir", op_mkdir)
    ∷ ("unlink", op_unlink)
    ∷ ("rmdir", op_rmdir)
    ∷ ("symlink", op_symlink)
    ∷ ("rename", op_rename)
    ∷ ("link", op_link)
    ∷ ("setxattr", op_setxattr)
    ∷ ("getxattr", op_getxattr)
    ∷ ("listxattr", op_listxattr)
    ∷ ("removexattr", op_removexattr)
    ∷ ("open", op_open)
    ∷ ("read", op_read)
    ∷ ("write", op_write)
    ∷ ("write_buf", op_write_buf)
    ∷ ("read_buf", op_read_buf)
    ∷ ("flush", op_flush)
    ∷ ("release", op_release)
    ∷ ("fsync", op_fsync)
    ∷ ("fallocate", op_fallocate)
    ∷ ("lseek", op_lseek)
    ∷ ("copy_file_range", op_copy_file_range)
    ∷ ("opendir", op_opendir)
    ∷ ("readdir", op_readdir)
    ∷ ("readdirplus", op_readdirplus)
    ∷ ("releasedir", op_releasedir)
    ∷ ("fsyncdir", op_fsyncdir)
    ∷ ("statfs", op_statfs)
    ∷ ("access", op_access)
    ∷ ("create", op_create)
    ∷ ("bmap", op_bmap)
    ∷ ("ioctl", op_ioctl)
    ∷ ("poll", op_poll)
    ∷ ("flock", op_flock)
    ∷ ("getlk", op_getlk)
    ∷ ("setlk", op_setlk)
    ∷ ("retrieve_reply", op_retrieve_reply)
    ∷ []

abbrev operation_alias_mappings : List (String × FuseOpType)
operation_alias_mappings =
    ("truncate", op_truncate)
    ∷ ("chmod", op_chmod)
    ∷ ("chown", op_chown)
    ∷ ("utimens", op_setattr)
    ∷ ("copyFileRange", op_copy_file_range)
    ∷ []

unfoldable pub find_name : List ℕ → List (String × FuseOpType) → Option FuseOpType
find_name lowered [] = none
find_name lowered ((name, type) ∷ mappings) =
    if same_codes lowered (codes name) then some type else find_name lowered mappings

unfoldable pub find_type : FuseOpType → List (String × FuseOpType) → Option String
find_type type [] = none
find_type type ((name, type') ∷ mappings) =
    if same_op type' type then some name else find_type type mappings

unfoldable pub string_to_fuse_op_type : String → FuseOpType
string_to_fuse_op_type name =
    let lowered = map to_lower (codes name) in
    elim (find_name lowered operation_mappings) [
      | some type ↦ type
      | none ↦ elim (find_name lowered operation_alias_mappings) [
        | some type ↦ type
        | none ↦ op_unknown
      ]
    ]

unfoldable pub fuse_op_type_to_string : FuseOpType → String
fuse_op_type_to_string type = elim (find_type type operation_mappings) [
  | some name ↦ name
  | none ↦ elim (find_type type operation_alias_mappings) [ some name ↦ name | none ↦ "unknown" ]
]
