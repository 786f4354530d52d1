-- ===== src/Lib.antt =====
-- A user-space port of the xv6 file system: a FUSE process that keeps a file system in one mapped
-- image file. The layers, from the bottom, with the files that model them:
--   Base, Bytes      shared names and lemmas; a block's bytes and the little-endian words in them.
--   Machine          inc/common.h and the structures of inc/*.h, the whole state `Sys`, and the monad
--                    of runs, `M`: a run returns a value and a state, or ends in a fault.
--   BlockCache       src/BlockCache.cxx and inc/PosixEnv.h: cached blocks, their locks and counts.
--   Log              src/Log.cxx: the write-ahead log. Log/Layout says where it lies, Log/Recover and
--                    Log/Commit run recovery and commit, Log/Crash kills the process at a store,
--                    Log/Effect and Log/Sessions are about the callers of commit, Log/Frame
--                    and Log/Left about what becomes of the static members, and Log/Reservation
--                    has several operations, in any order, as a step relation.
--   Transaction      what src/Log.cxx and src/BlockCache.cxx keep true between the operations of a
--                    transaction (`Tx`), and the contents that the file system sees (`content`).
--   Bitmap           block_zeroed, block_alloc and block_free of src/fs.cxx.
--   INode            src/INode.cxx, and trunc and update of src/fs.cxx; INode/Trunc is about trunc.
--   INodeCache       src/INodeCache.cxx: INodeCache/Alloc is about inode_alloc, INodeCache/Held and
--                    INodeCache/Release about inode_put.
--   Content          block_map, INode::read and INode::write of src/fs.cxx. Content/Mapped has a file
--                    as one sequence of bytes, which Content/Read, Content/Store, Content/Write
--                    and Content/Overwrite read and write. Content/Owned is about blocks in use for
--                    one purpose, across changes of the free map, and Content/Grow about writes
--                    that allocate blocks.
--   Dir, PathName    directories and path names of src/fs.cxx; Dir/Lookup has the entries of a
--                    directory as parts of its bytes, Dir/Entries a directory as a finite map from
--                    names to inode numbers, Dir/Present its lookups, and Dir/Stored and Dir/Insert
--                    the insertion of a name by dirlink.
--   Pipe, FileTable  src/Pipe.cxx and src/FileTable.cxx.
--   File             src/File.cxx and the console of src/Device.cxx.
--   Ops              the operations that FUSE calls, src/op_*.cxx.
--   Mkfs             mkfs/mkfs.c, a program of its own: its globals are the state `Maker`, its runs are in
--                    the monad `Make`. Mkfs/Table is about the blocks that inodes refer to, Mkfs/Slots,
--                    Mkfs/Append, Mkfs/INodes and Mkfs/Image keep them in order through the program's
--                    functions, Mkfs/Marks is about the free map, Mkfs/Made about the whole run, and
--                    Mkfs/Mounted about the mount of the image.
--   Tests            a small file system, and the theorems at concrete inputs.
--
-- Each function keeps its name; a helper models a part of a function, as its comment says. A pointer
-- to a Block or an INode is its key, a device and a number; a pointer to an OFile is its index in
-- the table; a pointer to a Pipe is an address. An object that is deleted is gone from its map, and a
-- use of its pointer is the fault `dangling`. A failed assert is the fault `assertion`, and a wait for
-- a lock or on a condition variable that the run itself cannot end is the fault `blocked`: the model
-- has one thread, and each function that takes a mutex is one step under it. So is end_op with its
-- commit, which runs after the mutex was given back, with `committing` set, so that begin_op waits:
-- states between the two are not modelled. 32-bit and 16-bit fields wrap where the code computes on
-- them (Base/Words); a byte of a block or a file is a number.
--
-- The disk is the image as it was mapped with the list of the stores of whole blocks since, the newest
-- first. A process that is killed leaves the image with some older part of that list, so that the
-- order of the stores matters and every prefix is a point at which it can be killed. The stores reach
-- the file in the order of the program, and a store of a block is not torn.
--
-- Loops are recursion on the number of rounds that are left, computed from the loop's bounds. The loop
-- of inode_name_x has one round more than the path has bytes, and each takes a byte at least; the
-- loop of OFile::write has one round for each byte, and a round that goes on writes one; so has the
-- loop of iappend. The outer loop
-- of Pipe::read is given its number of rounds, since it need not end.
--
-- Of mkfs, a file on the command line is its name with the results of the calls of read on it, or with
-- a failed open; the calls of lseek and write on the image succeed, and a read past its end exits.
--
-- Not modelled: src/main.cxx and inc/util, which map the image, register the operations and log;
-- user/ls.c, which is a program of the original system; the threads of FUSE. std::filesystem
-- enters op_rename as two functions, and the filler of FUSE enters op_readdir as one. The terminal is
-- no part of the state.
pub mod Base
pub mod Bytes
pub mod Machine
pub mod BlockCache
pub mod Log
pub mod Bitmap
pub mod Transaction
pub mod INode
pub mod INodeCache
pub mod Content
pub mod Dir
pub mod PathName
pub mod Pipe
pub mod FileTable
pub mod File
pub mod Ops
pub mod Mkfs
pub mod Tests
