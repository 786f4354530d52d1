-- ===== src/INode/Codec/Laws.antt =====
-- An inode is read back as it was stored, and the other inodes of the block are kept.
use hitsz_ext.Base.{ℕ, ◌+◌, ◌*◌, ◌^◌, ◌<◌, ◌≤◌, ◌≡◌, ◌≢◌, arith, ◌∙◌}
use hitsz_ext.Bytes.{Data, put16, put32, put_words}
use hitsz_ext.Bytes.RoundTrip.{get32-put32_self, get16-put16_self, get32-put_words, get_words-lt}
use hitsz_ext.Bytes.Frame.{
  Clear, put16_ne, put32_ne, put_words_ne, get16_cong, get32_cong, get_words_cong,
}
use hitsz_ext.Machine.{DiskINode}
use hitsz_ext.INode.Codec.{decode_dinode, encode_dinode}

-- The fields fit their types.
pub record Fits (n : DiskINode) : Type 0 where
  pub type : n.type < 2 ^ 16
  pub major : n.major < 2 ^ 16
  pub minor : n.minor < 2 ^ 16
  pub nlink : n.nlink < 2 ^ 16
  pub size : n.size < 2 ^ 32
  pub addrs : (i : ℕ) → i < 13 → n.addrs i < 2 ^ 32

-- Equal in every field; `addrs` has 13 words.
pub record SameINode (m n : DiskINode) : Type 0 where
  pub type : m.type ≡ n.type
  pub major : m.major ≡ n.major
  pub minor : m.minor ≡ n.minor
  pub nlink : m.nlink ≡ n.nlink
  pub size : m.size ≡ n.size
  pub addrs : (i : ℕ) → i < 13 → m.addrs i ≡ n.addrs i

-- Only the 64 bytes of the inode change.
pub encode_dinode_ne :
    (n : DiskINode) (d : Data) (o p : ℕ) → Clear o 64 p → encode_dinode n d o p ≡ d p
unfolding encode_dinode
encode_dinode_ne n d o p h =
    put_words_ne 13 _ (o + 12) n.addrs p (omega arith)
    ∙ put32_ne _ (o + 8) n.size p (omega arith)
    ∙ put16_ne _ (o + 6) n.nlink p (omega arith)
    ∙ put16_ne _ (o + 4) n.minor p (omega arith)
    ∙ put16_ne _ (o + 2) n.major p (omega arith)
    ∙ put16_ne d o n.type p (omega arith)

pub decode_dinode_cong :
    (d e : Data) (o : ℕ)
    → ((p : ℕ) → o ≤ p → p < o + 64 → d p ≡ e p)
    → decode_dinode d o ≡ decode_dinode e o
unfolding decode_dinode
decode_dinode_cong d e o h = rw (
  get16_cong d e o (λ p lo hi. h p (omega arith) (omega arith)),
  get16_cong d e (o + 2) (λ p lo hi. h p (omega arith) (omega arith)),
  get16_cong d e (o + 4) (λ p lo hi. h p (omega arith) (omega arith)),
  get16_cong d e (o + 6) (λ p lo hi. h p (omega arith) (omega arith)),
  get32_cong d e (o + 8) (λ p lo hi. h p (omega arith) (omega arith)),
  get_words_cong 13 d e (o + 12) (λ _. 0) (λ p lo hi. h p (omega arith) (omega arith)),
)

module _ (n : DiskINode) (d : Data) (o : ℕ) where
  abbrev with_type : Data
  with_type = put16 d o n.type

  abbrev with_major : Data
  with_major = put16 with_type (o + 2) n.major

  abbrev with_minor : Data
  with_minor = put16 with_major (o + 4) n.minor

  abbrev with_nlink : Data
  with_nlink = put16 with_minor (o + 6) n.nlink

  abbrev with_size : Data
  with_size = put32 with_nlink (o + 8) n.size

  abbrev stored : Data
  stored = put_words 13 with_size (o + 12) n.addrs

  past_nlink : (p : ℕ) → p < o + 8 → stored p ≡ with_nlink p
  past_nlink p h =
      put_words_ne 13 with_size (o + 12) n.addrs p (omega arith)
      ∙ put32_ne with_nlink (o + 8) n.size p (omega arith)

  -- An inode whose fields fit their types is read back as it was stored, in every field.
  pub decode-encode : Fits n → SameINode (decode_dinode (encode_dinode n d o) o) n
  unfolding decode_dinode encode_dinode
  decode-encode f = record {
    type =
        get16_cong stored with_type o (λ p lo hi.
          past_nlink p (omega arith)
          ∙ put16_ne with_minor (o + 6) n.nlink p (omega arith)
          ∙ put16_ne with_major (o + 4) n.minor p (omega arith)
          ∙ put16_ne with_type (o + 2) n.major p (omega arith))
        ∙ get16-put16_self d o n.type f.type;
    major =
        get16_cong stored with_major (o + 2) (λ p lo hi.
          past_nlink p (omega arith)
          ∙ put16_ne with_minor (o + 6) n.nlink p (omega arith)
          ∙ put16_ne with_major (o + 4) n.minor p (omega arith))
        ∙ get16-put16_self with_type (o + 2) n.major f.major;
    minor =
        get16_cong stored with_minor (o + 4) (λ p lo hi.
          past_nlink p (omega arith) ∙ put16_ne with_minor (o + 6) n.nlink p (omega arith))
        ∙ get16-put16_self with_major (o + 4) n.minor f.minor;
    nlink =
        get16_cong stored with_nlink (o + 6) (λ p lo hi. past_nlink p (omega arith))
        ∙ get16-put16_self with_minor (o + 6) n.nlink f.nlink;
    size =
        get32_cong stored with_size (o + 8)
          (λ p lo hi. put_words_ne 13 with_size (o + 12) n.addrs p (omega arith))
        ∙ get32-put32_self with_nlink (o + 8) n.size f.size;
    addrs = λ i lt.
        get_words-lt 13 stored (o + 12) (λ _. 0) i lt
        ∙ get32-put_words 13 with_size (o + 12) n.addrs i lt (f.addrs i lt);
  }

-- To store an inode leaves the inode in every other slot of the block as it was.
pub decode-encode_ne :
    (n : DiskINode) (d : Data) (i j : ℕ)
    → i ≢ j
    → decode_dinode (encode_dinode n d (64 * i)) (64 * j) ≡ decode_dinode d (64 * j)
decode-encode_ne n d i j ne =
    decode_dinode_cong (encode_dinode n d (64 * i)) d (64 * j)
      (λ p lo hi. encode_dinode_ne n d (64 * i) p (omega arith))
