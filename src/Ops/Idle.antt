-- ===== src/Ops/Idle.antt =====
-- The operations that change nothing: op_access, op_chmod, op_setxattr, op_utimens, op_getxattr and
-- op_listxattr of src/op_*.cxx, and op_destroy of src/op_init.cxx.
use hitsz_ext.Base.{ℕ, [], ◌∷◌}
use hitsz_ext.Machine.{M, pure}
use hitsz_ext.Dir.{Chars, strncpy}
use hitsz_ext.PathName.{FilePath}
use hitsz_ext.Ops.Reply.{Reply, success}

unfoldable pub op_access : FilePath → ℕ → M Reply
op_access path mask = pure success

unfoldable pub op_chmod : FilePath → ℕ → M Reply
op_chmod path mode = pure success

unfoldable pub op_setxattr : FilePath → Chars → Chars → ℕ → ℕ → M Reply
op_setxattr path name value size flags = pure success

-- The two times are pairs of seconds and nanoseconds.
unfoldable pub op_utimens : FilePath → ℕ × ℕ → ℕ × ℕ → M Reply
op_utimens path access modification = pure success

-- The string "NULL".
abbrev null_text : Chars
null_text = b'N' ∷ b'U' ∷ b'L' ∷ b'L' ∷ 0 ∷ []

-- With what `buf[0..size)` holds then.
unfoldable pub op_getxattr : FilePath → Chars → ℕ → M (Reply × Chars)
op_getxattr path name size = pure (success, strncpy size null_text)

unfoldable pub op_listxattr : FilePath → ℕ → M (Reply × Chars)
op_listxattr path size = pure (success, strncpy size null_text)

unfoldable pub op_destroy : M (Unit {0})
op_destroy = pure tt
