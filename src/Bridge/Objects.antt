-- ===== src/Bridge/Objects.antt =====
-- src/napi_helpers.cc and src/fuse_bridge.cc: objects for `struct stat`, `struct statvfs`,
-- `struct fuse_file_info` and `struct fuse_entry_param`. A function that writes through a pointer
-- returns the struct, or `none` where the source returns false.
pub mod Stats
pub mod FileInfos
pub mod Entries
pub mod RoundTrip
