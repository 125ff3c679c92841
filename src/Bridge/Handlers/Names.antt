-- ===== src/Bridge/Handlers/Names.antt =====
-- src/fuse_bridge.cc: the handlers of the operations on the names of a directory.
use Prim.Native.String.{String}
use fuse_native.Base.{ℕ, [], ◌∷◌, Option}
use fuse_native.Base.Int.{ℤ}
use fuse_native.Errno.{eio, enoent}
use fuse_native.Bridge
use fuse_native.Bridge.Js.{number, string, of_nat, of_int, big_u64, object_of}
use fuse_native.Bridge.Objects.FileInfos.{FileInfo}
use fuse_native.Bridge.Answers.{
  answer_ok, answer_entry, answer_rename, answer_readlink, answer_create,
}
use fuse_native.Bridge.Tasks.{
  Caller, Handled, process, request_context, fi_option, no_options, or_empty,
}

-- `HandleUnlink`, and so on for each function below.
unfoldable pub handle_unlink : Option Caller → ℕ → Option String → Handled
handle_unlink caller parent name =
    process Bridge.op_unlink
      (big_u64 parent ∷ string (or_empty name) ∷ request_context caller ∷ no_options ∷ []) answer_ok

unfoldable pub handle_rmdir : Option Caller → ℕ → Option String → Handled
handle_rmdir caller parent name =
    process Bridge.op_rmdir
      (big_u64 parent ∷ string (or_empty name) ∷ request_context caller ∷ no_options ∷ []) answer_ok

unfoldable pub handle_rename : Option Caller → ℕ → Option String → ℕ → Option String → ℤ → Handled
handle_rename caller parent name newparent newname flags =
    process Bridge.op_rename
      (big_u64 parent
        ∷ string (or_empty name)
        ∷ big_u64 newparent
        ∷ string (or_empty newname)
        ∷ number (of_int flags)
        ∷ request_context caller
        ∷ no_options
        ∷ [])
      answer_rename

unfoldable pub handle_link : Option Caller → ℕ → ℕ → Option String → Handled
handle_link caller ino newparent newname =
    process Bridge.op_link
      (big_u64 ino
        ∷ big_u64 newparent
        ∷ string (or_empty newname)
        ∷ request_context caller
        ∷ no_options
        ∷ [])
      (answer_entry eio)

unfoldable pub handle_lookup : Option Caller → ℕ → Option String → Handled
handle_lookup caller parent name =
    process Bridge.op_lookup
      (big_u64 parent ∷ string (or_empty name) ∷ request_context caller ∷ no_options ∷ [])
      (answer_entry enoent)

unfoldable pub handle_readlink : Option Caller → ℕ → Handled
handle_readlink caller ino =
    process Bridge.op_readlink (big_u64 ino ∷ request_context caller ∷ no_options ∷ [])
      answer_readlink

unfoldable pub handle_mknod : Option Caller → ℕ → Option String → ℕ → ℕ → Handled
handle_mknod caller parent name mode rdev =
    process Bridge.op_mknod
      (big_u64 parent
        ∷ string (or_empty name)
        ∷ number (of_nat mode)
        ∷ big_u64 rdev
        ∷ request_context caller
        ∷ no_options
        ∷ [])
      (answer_entry eio)

unfoldable pub handle_mkdir : Option Caller → ℕ → Option String → ℕ → Handled
handle_mkdir caller parent name mode =
    process Bridge.op_mkdir
      (big_u64 parent
        ∷ string (or_empty name)
        ∷ number (of_nat mode)
        ∷ request_context caller
        ∷ no_options
        ∷ [])
      (answer_entry eio)

unfoldable pub handle_symlink : Option Caller → Option String → ℕ → Option String → Handled
handle_symlink caller link parent name =
    process Bridge.op_symlink
      (string (or_empty link)
        ∷ big_u64 parent
        ∷ string (or_empty name)
        ∷ request_context caller
        ∷ no_options
        ∷ [])
      (answer_entry eio)

unfoldable pub handle_create : Option Caller → ℕ → Option String → ℕ → Option FileInfo → Handled
handle_create caller parent name mode fi =
    process Bridge.op_create
      (big_u64 parent
        ∷ string (or_empty name)
        ∷ number (of_nat mode)
        ∷ request_context caller
        ∷ object_of (fi_option fi)
        ∷ [])
      answer_create
