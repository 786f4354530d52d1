-- ===== src/Tests/State.antt =====
-- A small file system of 12 blocks: the log in blocks 2 to 6, the inodes in block 7, the free map in
-- block 8, with block 9 logged and blocks 10 and 11 free.
use hitsz_ext.Base.{
  holds_from, holds_from-at, ℕ, ◌%◌, ◌<◌, ◌≡◌, ◌≢◌, refl, ◌⊎◌, inl, inr, Bool, true, false, not,
  ◌||◌, Option, none, some, [], ◌==◌, if◌then◌else◌, Bool-cases, ==→eq, u32, arith, ap, ◌∙◌, sym,
  subst,
}
use hitsz_ext.Bytes.{Data, zeroes, get32}
use hitsz_ext.Machine.{
  Key, key, same_key, same_key_ne, put, put_self, put_ne, Block, SuperBlock, LogState, DiskINode,
  INode, OFile, fd_none, fd_inode, Sys, disk_at,
}
use hitsz_ext.BlockCache.Steps.{pinned}
use hitsz_ext.Log.{decode_hdr, log_slot}
use hitsz_ext.Log.Layout.{Layout}
use hitsz_ext.Log.Commit.{Ready}
use hitsz_ext.Log.Crash.Atomic.{Mounted}
use hitsz_ext.Transaction.{Tx, Settled, HasRoom, no_block, IsHome, content}
use hitsz_ext.Bitmap.{bit_block}
use hitsz_ext.INode.{inode_block}
use hitsz_ext.Bitmap.Bits.{bit_at}
use hitsz_ext.Bitmap.Map.{used, FreeMap}

abbrev pub map_block : Data
map_block i = if i == 0 then 255 else if i == 1 then 3 else 0

-- The entries "." and ".." of inode 1.
abbrev pub dot_entries : Data
dot_entries i =
    if i == 0
    then 1
    else if i == 2
    then 46
    else if i == 16
    then 1
    else if i == 18
    then 46
    else if i == 19
    then 46
    else 0

abbrev pub image0 : ℕ → Data
image0 n = if n == 8 then map_block else zeroes

abbrev pub sb0 : SuperBlock
sb0 = record {
  magic = 0x10203040;
  size = 12;
  nblocks = 3;
  ninodes = 16;
  nlog = 5;
  logstart = 2;
  inodestart = 7;
  bmapstart = 8;
}

abbrev pub log0 : LogState
log0 = record {
  start = 2;
  size = 5;
  outstanding = 1;
  committing = false;
  dev = 1;
  hdr = record { n = 1; block = λ _. 9 };
}

abbrev pub dir0 : DiskINode
dir0 = record {
  type = 1;
  major = 0;
  minor = 0;
  nlink = 1;
  size = 32;
  addrs = λ i. if i == 0 then 9 else 0;
}

abbrev pub inode0 : INode
inode0 = record { ref = 1; locked = false; valid = true; dinode = dir0 }

abbrev pub inode_locked : INode
inode_locked = record inode0 { locked = true }

abbrev pub file0 : OFile
file0 = record {
  type = fd_inode;
  pipe = 0;
  ip = key 1 1;
  off = 0;
  major = 0;
  readable = false;
  writable = true;
  ref = 1;
}

abbrev pub closed_file : OFile
closed_file = record file0 { type = fd_none; ref = 0 }

abbrev pub none_cached : Key → Option INode
none_cached k = none

abbrev pub no_blocks : Key → Option Block
no_blocks k = none

-- File 0 is open, with inode 1, which is free; inode 2 is locked.
abbrev pub sys0 : Sys
sys0 = record {
  image = image0;
  writes = [];
  blocks = put no_blocks (key 1 9) (some (pinned dot_entries));
  sb = sb0;
  log = log0;
  inodes = put (put none_cached (key 1 1) (some inode0)) (key 1 2) (some inode_locked);
  files = λ f. if f == 0 then file0 else closed_file;
  pipes = λ _. none;
  devices = λ _. record { has_read = false; has_write = false };
}

pub layout0 : Layout log0
layout0 = record {
  room = omega arith;
  fits = omega arith;
  area = omega arith;
  small = λ i lt. omega arith;
  apart = λ i lt. omega arith;
  distinct = λ i j p q e. omega arith;
}

pub not_cached : (b : ℕ) → b ≢ 9 → sys0.blocks (key 1 b) ≡ none
not_cached b ne = put_ne no_blocks (key 1 b) (key 1 9) _ (same_key_ne 1 b 9 ne)

pub cached_nine : sys0.blocks (key 1 9) ≡ some (pinned dot_entries)
cached_nine = put_self no_blocks (key 1 9) (some (pinned dot_entries))

pub sys0-Mounted : Mounted sys0
unfolding decode_hdr disk_at get32
sys0-Mounted = record { start = refl; size = refl; empty = refl }

pub sys0-Ready : Ready sys0 (λ _. dot_entries)
unfolding u32
sys0-Ready = record {
  layout = layout0;
  home = λ i lt. cached_nine;
  slot = λ i lt. not_cached (log_slot log0 i) (omega arith);
  head = not_cached 2 (omega arith);
}

pub sys0-Tx : Tx no_block sys0
sys0-Tx = record { layout = layout0; opened = omega arith; settled = λ b idle. settled0 b }
  where
    settled0 : (b : ℕ) → Settled sys0 b
    settled0 b = elim (Bool-cases (b == 9)) [
      | inl e ↦
          subst (Settled sys0) (sym (==→eq b 9 e))
            (inr (dot_entries, cached_nine, (0, omega arith, refl)))
      | inr e ↦ let ne : b ≢ 9 = ground arith in inl (not_cached b ne, λ i lt q. ne (sym q))
    ]

pub room0 : HasRoom log0 2
room0 = record { fits = omega arith; room = omega arith }

pub one_more0 : HasRoom log0 1
one_more0 = record { fits = omega arith; room = omega arith }

pub map_at : (x : ℕ) → x < 12 → bit_block sb0 x ≡ 8
unfolding u32
map_at x lt = omega arith

map_content : content sys0 8 ≡ map_block
unfolding content put same_key disk_at
map_content = refl

pub used_bit : (x : ℕ) → x < 12 → used sys0 x ≡ bit_at map_block (x % 8192)
unfolding used
used_bit x lt =
    (λ i. bit_at (content sys0 (map_at x lt i)) (x % 8192))
    ∙ ap (λ d. bit_at d (x % 8192)) map_content

abbrev taken_or_free : ℕ → Bool
taken_or_free x = not (bit_at map_block (x % 8192) == 0) || (x == 10 || x == 11)

bits_table : holds_from taken_or_free 12 0 ≡ true
unfolding holds_from bit_at
bits_table = refl

free_cases : (x : ℕ) → x < 12 → used sys0 x ≡ 0 → (x ≡ 10) ⊎ (x ≡ 11)
free_cases x lt free =
    let h : taken_or_free x ≡ true =
      holds_from-at taken_or_free 12 0 x bits_table (omega arith) (omega arith) in
    let z : bit_at map_block (x % 8192) ≡ 0 = sym (used_bit x lt) ∙ free in ground (arith, h, z)

pub sys0-FreeMap : FreeMap no_block sys0
sys0-FreeMap = record {
  size = omega arith;
  start = omega arith;
  map_home =
      λ x lt. record { small = omega (arith, map_at x lt); apart = omega (arith, map_at x lt) };
  map_idle = λ x lt. refl;
  map_bytes = λ x i lt.
      subst (λ d. d i < 256) (sym (ap (content sys0) (map_at x lt) ∙ map_content)) (ground arith);
  free_home = λ x lt free. record {
    small = omega (arith, free_cases x lt free);
    apart = omega (arith, free_cases x lt free);
  };
  free_idle = λ x lt free. refl;
  free_pos = λ x lt free. omega (arith, free_cases x lt free);
  free_apart = λ x y lt free ly e. omega (arith, free_cases x lt free, map_at y ly);
}

pub five_used : used sys0 5 ≡ 1
unfolding bit_at
five_used = used_bit 5 (omega arith)

pub ten_free : used sys0 10 ≡ 0
unfolding bit_at
ten_free = used_bit 10 (omega arith)

pub inode_one : sys0.inodes (key 1 1) ≡ some inode0
unfolding put same_key
inode_one = refl

pub inode_block-IsHome : IsHome log0 (inode_block sb0 1)
unfolding u32
inode_block-IsHome = record { small = omega arith; apart = omega arith }
