-- ===== src/INode/Codec.antt =====
-- The fields of a DiskINode at an offset of a block: inc/DiskINode.h.
pub mod Laws
use hitsz_ext.Base.{ℕ, ◌+◌}
use hitsz_ext.Bytes.{Data, get16, get32, put16, put32, get_words, put_words}
use hitsz_ext.Machine.{DiskINode}

unfoldable pub decode_dinode : Data → ℕ → DiskINode
decode_dinode d o = record {
  type = get16 d o;
  major = get16 d (o + 2);
  minor = get16 d (o + 4);
  nlink = get16 d (o + 6);
  size = get32 d (o + 8);
  addrs = get_words 13 d (o + 12) (λ _. 0);
}

unfoldable pub encode_dinode : DiskINode → Data → ℕ → Data
encode_dinode n d o =
    put_words 13
      (put32
        (put16 (put16 (put16 (put16 d o n.type) (o + 2) n.major) (o + 4) n.minor) (o + 6) n.nlink)
        (o + 8) n.size)
      (o + 12) n.addrs
