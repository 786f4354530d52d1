-- ===== src/Content/Owned.antt =====
-- Blocks that the file system has in use for one purpose, and the free map, across changes.
pub mod Freed
use hitsz_ext.Base.{
  ℕ, ◌+◌, ◌*◌, ◌%◌, ◌<◌, ◌≤◌, ◌^◌, ◌≡◌, ◌≢◌, refl, Bool, false, some, ◌==◌, if◌then◌else◌, inl, inr,
  Bool-cases, ==→eq, eq→==, arith, ◌∙◌, sym, ap, subst,
}
use hitsz_ext.Bytes.{Data}
use hitsz_ext.Machine.{Map, Block, Key, INode, put, Sys, LogState, LogHeader, bit_per_block}
use hitsz_ext.Bitmap.{bit_block}
use hitsz_ext.Bitmap.Bits.{bit_at}
use hitsz_ext.Bitmap.Map.{used, FreeMap}
use hitsz_ext.Bitmap.Alloc.{Allocated}
use hitsz_ext.INodeCache.{with_inode}
use hitsz_ext.Transaction.{changed, at, Tx, IsHome, content, logged}
use hitsz_ext.Transaction.Finish.{content-logged_ne}

-- A block in use, outside the log and the free map, which the running code does not hold.
pub record Owned (busy : ℕ → Bool) (s : Sys) (b : ℕ) : Type 0 where
  pub pos : 0 < b
  pub inside : b < s.sb.size
  pub home : IsHome s.log b
  pub idle : busy b ≡ false
  pub in_use : used s b ≡ 1
  pub apart : (y : ℕ) → y < s.sb.size → bit_block s.sb y ≢ b

pub IsHome-hdr :
    (l : LogState) (h : LogHeader) (b : ℕ) → IsHome l b → IsHome (record l { hdr = h }) b
IsHome-hdr l h b home = record { small = home.small; apart = home.apart }

-- A store in an owned block.
module _ {busy : ℕ → Bool} {s : Sys} (b : ℕ) (o : Owned busy s b) (e : Data) (h : LogHeader) where
  pub used-store : (x : ℕ) → x < s.sb.size → used (logged s b e h) x ≡ used s x
  unfolding used
  used-store x lx =
      ap (λ d. bit_at d (x % bit_per_block))
        (content-logged_ne s b e h (bit_block s.sb x) (o.apart x lx))

  pub FreeMap-store : FreeMap busy s → FreeMap busy (logged s b e h)
  FreeMap-store m = record {
    size = m.size;
    start = m.start;
    map_home = λ x lx. IsHome-hdr s.log h (bit_block s.sb x) (m.map_home x lx);
    map_idle = m.map_idle;
    map_bytes = λ x i lx.
        subst (λ (d : Data). d i < 256)
          (sym (content-logged_ne s b e h (bit_block s.sb x) (o.apart x lx))) (m.map_bytes x i lx);
    free_home = λ x lx free. IsHome-hdr s.log h x (m.free_home x lx (sym (used-store x lx) ∙ free));
    free_idle = λ x lx free. m.free_idle x lx (sym (used-store x lx) ∙ free);
    free_pos = λ x lx free. m.free_pos x lx (sym (used-store x lx) ∙ free);
    free_apart = λ x y lx free. m.free_apart x y lx (sym (used-store x lx) ∙ free);
  }

  pub Owned-store : (c : ℕ) → Owned busy s c → Owned busy (logged s b e h) c
  Owned-store c p = record {
    pos = p.pos;
    inside = p.inside;
    home = IsHome-hdr s.log h c p.home;
    idle = p.idle;
    in_use = used-store c p.inside ∙ p.in_use;
    apart = p.apart;
  }

-- An allocation of the block `r`.
module _ {busy : ℕ → Bool} {s : Sys} (m : FreeMap busy s) {r : ℕ} {k : Map Block} {h : LogHeader}
    (a : Allocated busy s r (changed s k h)) where
  pub still_used : (x : ℕ) → x < s.sb.size → used s x ≡ 1 → used (changed s k h) x ≡ 1
  still_used x lx in_use =
      a.now_used x lx
      ∙ elim (Bool-cases (x == r)) [ inl same ↦ rw same refl | inr other ↦ rw other in_use ]

  free_before : (x : ℕ) → x < s.sb.size → used (changed s k h) x ≡ 0 → used s x ≡ 0
  free_before x lx free = elim (Bool-cases (x == r)) [
    | inl same ↦ absurd (omega (arith, rw same at (a.now_used x lx)))
    | inr other ↦ sym (rw other at (a.now_used x lx)) ∙ free
  ]

  pub FreeMap-Allocated : FreeMap busy (changed s k h)
  FreeMap-Allocated = record {
    size = m.size;
    start = m.start;
    map_home = λ x lx. IsHome-hdr s.log h (bit_block s.sb x) (m.map_home x lx);
    map_idle = m.map_idle;
    map_bytes = a.map_bytes;
    free_home = λ x lx free. IsHome-hdr s.log h x (m.free_home x lx (free_before x lx free));
    free_idle = λ x lx free. m.free_idle x lx (free_before x lx free);
    free_pos = λ x lx free. m.free_pos x lx (free_before x lx free);
    free_apart = λ x y lx free. m.free_apart x y lx (free_before x lx free);
  }

  pub Owned-Allocated : (c : ℕ) → Owned busy s c → Owned busy (changed s k h) c
  Owned-Allocated c p = record {
    pos = p.pos;
    inside = p.inside;
    home = IsHome-hdr s.log h c p.home;
    idle = p.idle;
    in_use = still_used c p.inside p.in_use;
    apart = p.apart;
  }

  -- The new block is owned, and was nobody's.
  pub new-Owned : Owned busy (changed s k h) r
  new-Owned = record {
    pos = a.pos;
    inside = a.inside;
    home = IsHome-hdr s.log h r (m.free_home r a.inside a.was_free);
    idle = m.free_idle r a.inside a.was_free;
    in_use = a.now_used r a.inside ∙ rw (eq→== r r refl) refl;
    apart = λ y ly. m.free_apart r y a.inside a.was_free ly;
  }

  pub new-apart : (c : ℕ) → Owned busy s c → c ≢ r
  new-apart c p q = omega (arith, p.in_use, a.was_free, ap (used s) q)

pub content-inodes :
    (s : Sys) (f : Map INode) (b : ℕ) → content (record s { inodes = f }) b ≡ content s b
unfolding content
content-inodes s f b = refl

pub used-inodes : (s : Sys) (f : Map INode) (x : ℕ) → used (record s { inodes = f }) x ≡ used s x
unfolding used content
used-inodes s f x = refl

-- A change of the cached inodes.
module _ {busy : ℕ → Bool} (s : Sys) (f : Map INode) where
  pub Tx-inodes : Tx busy s → Tx busy (record s { inodes = f })
  Tx-inodes tx = record { layout = tx.layout; opened = tx.opened; settled = tx.settled }

  pub FreeMap-inodes : FreeMap busy s → FreeMap busy (record s { inodes = f })
  unfolding used content
  FreeMap-inodes m = record {
    size = m.size;
    start = m.start;
    map_home = m.map_home;
    map_idle = m.map_idle;
    map_bytes = m.map_bytes;
    free_home = m.free_home;
    free_idle = m.free_idle;
    free_pos = m.free_pos;
    free_apart = m.free_apart;
  }

  pub Owned-inodes : (c : ℕ) → Owned busy s c → Owned busy (record s { inodes = f }) c
  unfolding used content
  Owned-inodes c p = record {
    pos = p.pos;
    inside = p.inside;
    home = p.home;
    idle = p.idle;
    in_use = p.in_use;
    apart = p.apart;
  }

module _ (s : Sys) (k : Key) (ip : INode) where
  pub content-cached : (b : ℕ) → content (with_inode s k (some ip)) b ≡ content s b
  content-cached = content-inodes s (put s.inodes k (some ip))

  pub used-cached : (x : ℕ) → used (with_inode s k (some ip)) x ≡ used s x
  used-cached = used-inodes s (put s.inodes k (some ip))

module _ {busy : ℕ → Bool} {s : Sys} (k : Key) (ip : INode) where
  pub Tx-cached : Tx busy s → Tx busy (with_inode s k (some ip))
  Tx-cached = Tx-inodes s (put s.inodes k (some ip))

  pub FreeMap-cached : FreeMap busy s → FreeMap busy (with_inode s k (some ip))
  FreeMap-cached = FreeMap-inodes s (put s.inodes k (some ip))

  pub Owned-cached : (c : ℕ) → Owned busy s c → Owned busy (with_inode s k (some ip)) c
  Owned-cached = Owned-inodes s (put s.inodes k (some ip))
