-- ===== src/Tests.antt =====
-- The theorems at concrete inputs.
pub mod State
mod Log
mod Blocks
mod Inodes
mod Contents
mod Grown
mod Dirs
mod Reserve
mod Made
mod Files
mod Names
