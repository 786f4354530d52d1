-- ===== src/Mkfs/Words.antt =====
-- xshort and xint, and the super block as the file system reads it.
use hitsz_ext.Base.{ℕ, ◌^◌, ◌<◌, ◌≡◌, arith}
use hitsz_ext.Bytes.{Data, get16, get32, put8}
use hitsz_ext.Bytes.RoundTrip.{get32-put_words}
use hitsz_ext.Machine.{SuperBlock}
use hitsz_ext.Ops.Mount.{decode_super}
use hitsz_ext.Mkfs.{xshort, xint, super_word, encode_super}

pub xint_small : (x : ℕ) → x < 2 ^ 32 → xint x ≡ x
unfolding xint get32 put8
xint_small x h = omega arith

pub xshort_small : (x : ℕ) → x < 2 ^ 16 → xshort x ≡ x
unfolding xshort get16 put8
xshort_small x h = omega arith

pub record FitsSuper (sb : SuperBlock) : Type 0 where
  pub magic : sb.magic < 2 ^ 32
  pub size : sb.size < 2 ^ 32
  pub nblocks : sb.nblocks < 2 ^ 32
  pub ninodes : sb.ninodes < 2 ^ 32
  pub nlog : sb.nlog < 2 ^ 32
  pub logstart : sb.logstart < 2 ^ 32
  pub inodestart : sb.inodestart < 2 ^ 32
  pub bmapstart : sb.bmapstart < 2 ^ 32

pub decode_super-encode_super :
    (sb : SuperBlock) (d : Data) → FitsSuper sb → decode_super (encode_super sb d) ≡ sb
unfolding decode_super encode_super super_word
decode_super-encode_super sb d f = λ i. record {
  magic = get32-put_words 8 d 0 (super_word sb) 0 (omega arith) f.magic i;
  size = get32-put_words 8 d 0 (super_word sb) 1 (omega arith) f.size i;
  nblocks = get32-put_words 8 d 0 (super_word sb) 2 (omega arith) f.nblocks i;
  ninodes = get32-put_words 8 d 0 (super_word sb) 3 (omega arith) f.ninodes i;
  nlog = get32-put_words 8 d 0 (super_word sb) 4 (omega arith) f.nlog i;
  logstart = get32-put_words 8 d 0 (super_word sb) 5 (omega arith) f.logstart i;
  inodestart = get32-put_words 8 d 0 (super_word sb) 6 (omega arith) f.inodestart i;
  bmapstart = get32-put_words 8 d 0 (super_word sb) 7 (omega arith) f.bmapstart i;
}
