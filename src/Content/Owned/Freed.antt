-- ===== src/Content/Owned/Freed.antt =====
-- The free map and the blocks in use after a block is freed.
use hitsz_ext.Base.{
  ℕ, ◌<◌, ◌≡◌, ◌≢◌, refl, Bool, false, ◌==◌, inl, inr, Bool-cases, ==→eq, eq→==, ne→==, arith, ◌∙◌,
  sym, subst,
}
use hitsz_ext.Machine.{Map, Block, Sys, LogHeader}
use hitsz_ext.Bitmap.{bit_block}
use hitsz_ext.Bitmap.Map.{used, FreeMap}
use hitsz_ext.Bitmap.Free.{Freed}
use hitsz_ext.Transaction.{changed, IsHome}
use hitsz_ext.Content.Owned.{Owned, IsHome-hdr}

-- A block that is freed.
module _ {busy : ℕ → Bool} {s : Sys} (m : FreeMap busy s) (b : ℕ) (o : Owned busy s b)
    {k : Map Block} {h : LogHeader} (f : Freed busy s b (changed s k h)) where
  pub used-Freed : (c : ℕ) → c < s.sb.size → c ≢ b → used (changed s k h) c ≡ used s c
  used-Freed c lt ne = f.now_used c (omega (arith, m.size)) ∙ rw (ne→== c b ne) refl

  pub now_free : used (changed s k h) b ≡ 0
  now_free = f.now_used b (omega (arith, m.size, o.inside)) ∙ rw (eq→== b b refl) refl

  pub Owned-Freed : (c : ℕ) → Owned busy s c → c ≢ b → Owned busy (changed s k h) c
  Owned-Freed c p ne = record {
    pos = p.pos;
    inside = p.inside;
    home = IsHome-hdr s.log h c p.home;
    idle = p.idle;
    in_use = used-Freed c p.inside ne ∙ p.in_use;
    apart = p.apart;
  }

  -- A property of free blocks that the freed one has too.
  still :
      (P : ℕ → Type 0)
      → P b
      → ((x : ℕ) → x < s.sb.size → used s x ≡ 0 → P x)
      → (x : ℕ) → x < s.sb.size
      → used (changed s k h) x ≡ 0
      → P x
  still P here there x lx free = elim (Bool-cases (x == b)) [
    | inl same ↦ subst P (sym (==→eq x b same)) here
    | inr other ↦ there x lx (sym (used-Freed x lx (ground arith)) ∙ free)
  ]

  pub FreeMap-Freed : FreeMap busy (changed s k h)
  FreeMap-Freed = record {
    size = m.size;
    start = m.start;
    map_home = λ x lx. IsHome-hdr s.log h (bit_block s.sb x) (m.map_home x lx);
    map_idle = m.map_idle;
    map_bytes = f.map_bytes;
    free_home =
        still (IsHome (record s.log { hdr = h })) (IsHome-hdr s.log h b o.home)
          (λ x lx free. IsHome-hdr s.log h x (m.free_home x lx free));
    free_idle = still (λ x. busy x ≡ false) o.idle m.free_idle;
    free_pos = still (λ x. 0 < x) o.pos m.free_pos;
    free_apart = λ x y lx free ly.
        still (λ z. bit_block s.sb y ≢ z) (o.apart y ly) (λ z lz q. m.free_apart z y lz q ly) x lx
          free;
  }
