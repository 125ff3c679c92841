-- ===== src/Bridge/Handlers.antt =====
-- src/fuse_bridge.cc: the functions Handle... of the bridge, one for each callback of libfuse.
pub mod Names
pub mod Attrs
pub mod Files
pub mod Io
