-- ===== src/Ops/Reply.antt =====
-- What an operation returns: 0, -1, a negated errno, or a number of bytes.
use hitsz_ext.Base.{ℕ}

pub data Reply : Type 0 where
  success eperm enoent enotdir einval enomem eio : Reply
  bytes : ℕ → Reply
