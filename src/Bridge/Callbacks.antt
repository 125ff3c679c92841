-- ===== src/Bridge/Callbacks.antt =====
-- src/fuse_bridge.cc: the callbacks of libfuse, as `InitializeFuseOperations` sets them, each with its
-- handler. Not here: poll (Polls) and destroy (Requests), whose handlers change a state. `InitCallback`
-- hands on no request, so the context of INIT is made without one (`create_context` of Tasks); what
-- `HandleInit` writes to the connection's settings is not modelled.
use Prim.Native.String.{String}
use fuse_native.Base.{ℕ, Bool, List, Option, if◌then◌else◌}
use fuse_native.Base.Int.{ℤ}
use fuse_native.Errno.{enodev}
use fuse_native.Bridge.{FuseOpType}
use fuse_native.Bridge.Objects.Stats.{Stat}
use fuse_native.Bridge.Objects.FileInfos.{FileInfo}
use fuse_native.Bridge.Objects.Entries.{EntryParam}
use fuse_native.Bridge.Replies.{reply_err}
use fuse_native.Bridge.Dirs.{DirEntry}
use fuse_native.Bridge.Tasks.{Caller, Handled, replied_now, no_reply}
use fuse_native.Bridge.Handlers.Names.{
  handle_unlink, handle_rmdir, handle_rename, handle_link, handle_lookup, handle_readlink,
  handle_mknod, handle_mkdir, handle_symlink, handle_create,
}
use fuse_native.Bridge.Handlers.Attrs.{
  handle_getattr, handle_setattr, handle_access, handle_statfs, handle_setxattr, handle_getxattr,
  handle_listxattr, handle_removexattr,
}
use fuse_native.Bridge.Handlers.Files.{
  Flock, handle_flush, handle_release, handle_fsync, handle_releasedir, handle_fsyncdir,
  handle_open, handle_opendir, handle_copy_file_range, handle_getlk, handle_setlk, handle_bmap,
  handle_ioctl, handle_forget,
}
use fuse_native.Bridge.Handlers.Io.{
  ConnInfo, handle_read, handle_write, handle_readdir, handle_readdirplus, handle_init,
}
use fuse_native.Bridge.WriteBufs.{Pread, Segments, handle_write_buf}

-- What the handlers call of libfuse and of the system.
pub record Platform : Type 0 where
  pub add_direntry : DirEntry → List ℕ
  pub add_direntry_plus : String → EntryParam → ℤ → List ℕ
  pub utf8 : String → List ℕ
  pub pread : Pread
  pub reply_data_result : ℤ

-- The arguments of each callback.
pub data Request : Type 0 where
  req_init : ConnInfo → Request
  req_forget req_forget_multi : Request
  req_lookup req_unlink req_rmdir : ℕ → Option String → Request
  req_getattr : ℕ → Option FileInfo → Request
  req_setattr : ℕ → Option Stat → ℕ → Option FileInfo → Request
  req_readlink : ℕ → Request
  req_mknod : ℕ → Option String → ℕ → ℕ → Request
  req_mkdir : ℕ → Option String → ℕ → Request
  req_symlink : Option String → ℕ → Option String → Request
  req_rename : ℕ → Option String → ℕ → Option String → ℤ → Request
  req_link : ℕ → ℕ → Option String → Request
  req_open req_opendir req_flush req_release req_releasedir : ℕ → Option FileInfo → Request
  req_read req_readdir req_readdirplus : ℕ → ℕ → ℤ → Option FileInfo → Request
  req_write : ℕ → List ℕ → ℤ → Option FileInfo → Request
  req_write_buf : ℕ → Segments → ℤ → Option FileInfo → Request
  req_fsync req_fsyncdir : ℕ → ℤ → Option FileInfo → Request
  req_statfs : ℕ → Request
  req_access : ℕ → ℕ → Request
  req_create : ℕ → Option String → ℕ → Option FileInfo → Request
  req_copy_file_range : ℕ → ℕ → Option FileInfo → ℕ → ℕ → Option FileInfo → ℕ → ℤ → Request
  req_setxattr : ℕ → Option String → List ℕ → ℤ → Request
  req_getxattr : ℕ → Option String → ℕ → Request
  req_listxattr : ℕ → ℕ → Request
  req_removexattr : ℕ → Option String → Request
  req_getlk : ℕ → Option FileInfo → Option Flock → Request
  req_setlk : ℕ → Option FileInfo → Option Flock → ℤ → Request
  req_bmap : ℕ → ℕ → ℕ → Request
  req_ioctl : ℕ → ℤ → Option FileInfo → List ℕ → ℕ → Request

unfoldable pub handle : Platform → (FuseOpType → Bool) → Option Caller → Request → Handled
handle p has c (req_init conn) = handle_init c conn
handle p has c req_forget = handle_forget
handle p has c req_forget_multi = handle_forget
handle p has c (req_lookup parent name) = handle_lookup c parent name
handle p has c (req_unlink parent name) = handle_unlink c parent name
handle p has c (req_rmdir parent name) = handle_rmdir c parent name
handle p has c (req_getattr ino fi) = handle_getattr c ino fi
handle p has c (req_setattr ino attr to_set fi) = handle_setattr has c ino attr to_set fi
handle p has c (req_readlink ino) = handle_readlink c ino
handle p has c (req_mknod parent name mode rdev) = handle_mknod c parent name mode rdev
handle p has c (req_mkdir parent name mode) = handle_mkdir c parent name mode
handle p has c (req_symlink link parent name) = handle_symlink c link parent name
handle p has c (req_rename parent name newparent newname flags) =
    handle_rename c parent name newparent newname flags
handle p has c (req_link ino newparent newname) = handle_link c ino newparent newname
handle p has c (req_open ino fi) = handle_open c ino fi
handle p has c (req_opendir ino fi) = handle_opendir c ino fi
handle p has c (req_flush ino fi) = handle_flush has c ino fi
handle p has c (req_release ino fi) = handle_release has c ino fi
handle p has c (req_releasedir ino fi) = handle_releasedir c ino fi
handle p has c (req_read ino size off fi) = handle_read p.reply_data_result has c ino size off fi
handle p has c (req_readdir ino size off fi) = handle_readdir p.add_direntry c ino size off fi
handle p has c (req_readdirplus ino size off fi) =
    handle_readdirplus p.add_direntry_plus has c ino size off fi
handle p has c (req_write ino bytes off fi) = handle_write has c ino bytes off fi
handle p has c (req_write_buf ino bufv off fi) = handle_write_buf p.pread has c ino bufv off fi
handle p has c (req_fsync ino datasync fi) = handle_fsync c ino datasync fi
handle p has c (req_fsyncdir ino datasync fi) = handle_fsyncdir c ino datasync fi
handle p has c (req_statfs ino) = handle_statfs c ino
handle p has c (req_access ino mask) = handle_access c ino mask
handle p has c (req_create parent name mode fi) = handle_create c parent name mode fi
handle p has c (req_copy_file_range ino_in off_in fi_in ino_out off_out fi_out len flags) =
    handle_copy_file_range c ino_in off_in fi_in ino_out off_out fi_out len flags
handle p has c (req_setxattr ino name bytes flags) = handle_setxattr c ino name bytes flags
handle p has c (req_getxattr ino name size) = handle_getxattr c ino name size
handle p has c (req_listxattr ino size) = handle_listxattr p.utf8 c ino size
handle p has c (req_removexattr ino name) = handle_removexattr c ino name
handle p has c (req_getlk ino fi lock) = handle_getlk c ino fi lock
handle p has c (req_setlk ino fi lock sleep) = handle_setlk c ino fi lock sleep
handle p has c (req_bmap ino blocksize idx) = handle_bmap c ino blocksize idx
handle p has c (req_ioctl ino cmd fi in_buf out_bufsz) = handle_ioctl c ino cmd fi in_buf out_bufsz

-- A callback without a bridge: ENODEV, but nothing for init and forget.
abbrev pub without_bridge : Request → Handled
without_bridge (req_init conn) = no_reply
without_bridge req_forget = no_reply
without_bridge req_forget_multi = no_reply
without_bridge _ = replied_now (reply_err enodev)

unfoldable pub receive : Bool → Platform → (FuseOpType → Bool) → Option Caller → Request → Handled
receive has_bridge p has c r = if has_bridge then handle p has c r else without_bridge r
