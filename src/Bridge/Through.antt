-- ===== src/Bridge/Through.antt =====
-- Which requests src/fuse_bridge.cc answers through their own context, and that it replies to these once.
use Prim.Native.String.{String}
use fuse_native.Base.{ℕ, ◌≡◌, not, Bool, true, false, List, Option, none}
use mathlib.Core.Path.{subst}
use fuse_native.Bridge
use fuse_native.Bridge.{FuseOpType}
use fuse_native.Bridge.Tasks.{Caller, processed, Task, has_request, create_context}
use fuse_native.Bridge.Handlers.Names.{
  handle_unlink, handle_rmdir, handle_rename, handle_link, handle_lookup, handle_readlink,
  handle_mknod, handle_mkdir, handle_symlink, handle_create,
}
use fuse_native.Bridge.Handlers.Attrs.{
  handle_getattr, handle_access, handle_statfs, handle_setxattr, handle_removexattr,
}
use fuse_native.Bridge.Handlers.Files.{
  handle_fsync, handle_releasedir, handle_fsyncdir, handle_open, handle_opendir,
  handle_copy_file_range, handle_getlk, handle_setlk,
}
use fuse_native.Bridge.Handlers.Io.{handle_write, handle_readdir, handle_init}
use fuse_native.Bridge.Callbacks.{
  Platform, Request, req_init, req_forget, req_forget_multi, req_lookup, req_unlink, req_rmdir,
  req_getattr, req_setattr, req_readlink, req_mknod, req_mkdir, req_symlink, req_rename, req_link,
  req_open, req_opendir, req_flush, req_release, req_releasedir, req_read, req_readdir,
  req_readdirplus, req_write, req_write_buf, req_fsync, req_fsyncdir, req_statfs, req_access,
  req_create, req_copy_file_range, req_setxattr, req_getxattr, req_listxattr, req_removexattr,
  req_getlk, req_setlk, req_bmap, req_ioctl, handle,
}
use fuse_native.Bridge.Life.{Event, on_events}
use fuse_native.Bridge.Once.{
  AllGuarded, task, task-guarded, never, answered, first_reply, on_events-once,
}
use fuse_native.Bridge.Guarded.{
  answer_ok-guarded, answer_attr-guarded, answer_entry-guarded, answer_rename-guarded,
  answer_readlink-guarded, answer_open-guarded, answer_create-guarded, answer_write-guarded,
  answer_statfs-guarded, answer_getlk-guarded, answer_readdir-guarded, handle_setattr-AllGuarded,
  handle_code-AllGuarded, handle_write-AllGuarded, handle_write_buf-AllGuarded,
  handle_read-AllGuarded, handle_readdirplus-AllGuarded,
}

-- Not so are bmap, ioctl, getxattr, listxattr, a read by a read_buf handler, and a readdirplus by a
-- readdir handler.
abbrev pub through_context : (FuseOpType → Bool) → Request → Bool
through_context has (req_bmap ino blocksize idx) = false
through_context has (req_ioctl ino cmd fi in_buf out_bufsz) = false
through_context has (req_getxattr ino name size) = false
through_context has (req_listxattr ino size) = false
through_context has (req_read ino size off fi) = not (has Bridge.op_read_buf)
through_context has (req_readdirplus ino size off fi) = has Bridge.op_readdirplus
through_context has _ = true

handle-AllGuarded :
    (p : Platform) (has : FuseOpType → Bool) (c : Option Caller) (r : Request)
    → through_context has r ≡ true
    → AllGuarded (handle p has c r)
unfolding handle handle_access handle_copy_file_range handle_create handle_fsync handle_fsyncdir
    handle_getattr handle_getlk handle_init handle_link handle_lookup handle_mkdir handle_mknod
    handle_open handle_opendir handle_readdir handle_readlink handle_releasedir handle_removexattr
    handle_rename handle_rmdir handle_setlk handle_setxattr handle_statfs handle_symlink
    handle_unlink handle_write
handle-AllGuarded p has c (req_init conn) h = task (answer_ok-guarded)
handle-AllGuarded p has c (req_lookup parent name) h = task (answer_entry-guarded _)
handle-AllGuarded p has c (req_unlink parent name) h = task (answer_ok-guarded)
handle-AllGuarded p has c (req_rmdir parent name) h = task (answer_ok-guarded)
handle-AllGuarded p has c (req_getattr ino fi) h = task (answer_attr-guarded)
handle-AllGuarded p has c (req_readlink ino) h = task (answer_readlink-guarded)
handle-AllGuarded p has c (req_mknod parent name mode rdev) h = task (answer_entry-guarded _)
handle-AllGuarded p has c (req_mkdir parent name mode) h = task (answer_entry-guarded _)
handle-AllGuarded p has c (req_symlink link parent name) h = task (answer_entry-guarded _)
handle-AllGuarded p has c (req_rename parent name newparent newname flags) h =
    task (answer_rename-guarded)
handle-AllGuarded p has c (req_link ino newparent newname) h = task (answer_entry-guarded _)
handle-AllGuarded p has c (req_open ino fi) h = task (answer_open-guarded)
handle-AllGuarded p has c (req_opendir ino fi) h = task (answer_open-guarded)
handle-AllGuarded p has c (req_releasedir ino fi) h = task (answer_ok-guarded)
handle-AllGuarded p has c (req_fsync ino datasync fi) h = task (answer_ok-guarded)
handle-AllGuarded p has c (req_fsyncdir ino datasync fi) h = task (answer_ok-guarded)
handle-AllGuarded p has c (req_statfs ino) h = task (answer_statfs-guarded)
handle-AllGuarded p has c (req_access ino mask) h = task (answer_ok-guarded)
handle-AllGuarded p has c (req_create parent name mode fi) h = task (answer_create-guarded)
handle-AllGuarded p has c (req_copy_file_range ino_in off_in fi_in ino_out off_out fi_out len flags)
      h =
    task (answer_write-guarded)
handle-AllGuarded p has c (req_setxattr ino name bytes flags) h = task (answer_ok-guarded)
handle-AllGuarded p has c (req_removexattr ino name) h = task (answer_ok-guarded)
handle-AllGuarded p has c (req_getlk ino fi lock) h = task (answer_getlk-guarded)
handle-AllGuarded p has c (req_setlk ino fi lock sleep) h = task (answer_ok-guarded)
handle-AllGuarded p has c (req_readdir ino size off fi) h =
    task (answer_readdir-guarded p.add_direntry size)
handle-AllGuarded p has c req_forget h = never
handle-AllGuarded p has c req_forget_multi h = never
handle-AllGuarded p has c (req_setattr ino attr to_set fi) h =
    handle_setattr-AllGuarded has c ino attr to_set fi
handle-AllGuarded p has c (req_flush ino fi) h = (handle_code-AllGuarded has c ino fi).0
handle-AllGuarded p has c (req_release ino fi) h = (handle_code-AllGuarded has c ino fi).1
handle-AllGuarded p has c (req_read ino size off fi) h =
    handle_read-AllGuarded p.reply_data_result has c ino size off fi h
handle-AllGuarded p has c (req_readdirplus ino size off fi) h =
    handle_readdirplus-AllGuarded p.add_direntry_plus has c ino size off fi h
handle-AllGuarded p has c (req_write ino bytes off fi) h =
    handle_write-AllGuarded has c ino bytes off fi
handle-AllGuarded p has c (req_write_buf ino bufv off fi) h =
    handle_write_buf-AllGuarded p.pread has c ino bufv off fi
handle-AllGuarded p has c (req_bmap ino blocksize idx) h = cc
handle-AllGuarded p has c (req_ioctl ino cmd fi in_buf out_bufsz) h = cc
handle-AllGuarded p has c (req_getxattr ino name size) h = cc
handle-AllGuarded p has c (req_listxattr ino size) h = cc

-- A request that is answered through its context, and not with libfuse's bmap, ioctl or xattr replies,
-- read_buf data or the second context of readdirplus, gets the reply that the first of its events calls
-- for, and no other: whatever follows, failures of the dispatcher, results and rejections alike. For
-- INIT, whose context has no request, nothing is sent; the context is marked as replied all the same.
pub handle-once :
    (order : List (ℕ × String)) (p : Platform) (has : FuseOpType → Bool) (c : Option Caller)
    (r : Request) (t : Task) (es : List Event)
    → through_context has r ≡ true
    → handle p has c r ≡ processed t
    → on_events order t (create_context t.op_type) es
      ≡ answered (has_request t.op_type) (first_reply order t es)
handle-once order p has c r t es h e =
    let through : AllGuarded (processed t) = subst AllGuarded (e) (handle-AllGuarded p has c r h) in
    on_events-once order t (has_request t.op_type) (task-guarded through) none es
