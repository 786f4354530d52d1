-- ===== src/Ops.antt =====
-- The operations that FUSE calls: the files src/op_*.cxx.
mod Reply
pub mod Open
pub mod Unlink
pub mod Link
pub mod Rename
pub mod Attr
pub mod Io
pub mod Offsets
pub mod Modes
pub mod Mount
pub mod Idle
pub use Reply.*
