-- ===== src/Content/Store.antt =====
-- The store of some bytes in one block of a file.
use hitsz_ext.Base.{
  ℕ, ◌+◌, ◌-◌, ◌*◌, ◌/◌, ◌%◌, ◌<◌, ◌≤◌, ◌≡◌, ◌≢◌, refl, Bool, List, ◌==◌, ltb, length, inl, inr,
  Bool-cases, ==→eq, arith, ap, ◌∙◌, sym, subst,
}
use hitsz_ext.Bytes.{Data, get32}
use hitsz_ext.Machine.{bsize, ndirect, DiskINode, Sys, LogHeader}
use hitsz_ext.Content.{splice}
use hitsz_ext.Content.Splice.{place, splice_in, splice_out}
use hitsz_ext.Content.Mapped.{block_at, file_data, IsPlaced, Mapped}
use hitsz_ext.Transaction.{IsHome, content, logged}
use hitsz_ext.Transaction.Finish.{content-logged_self, content-logged_ne}

-- A file whose blocks are allocated, each of them for one place in this file alone, and outside the log.
pub record Storable (busy : ℕ → Bool) (s : Sys) (d : DiskINode) : Type 0 where
  pub mapped : Mapped busy s d
  pub home : (n : ℕ) → n * bsize < d.size → IsHome s.log (block_at s d n)
  pub distinct :
      (m n : ℕ) → m * bsize < d.size → n * bsize < d.size → block_at s d m ≡ block_at s d n → m ≡ n
  pub not_indirect :
      (n : ℕ) → n * bsize < d.size → ndirect * bsize < d.size → block_at s d n ≢ d.addrs ndirect

module _ {busy : ℕ → Bool} {s : Sys} {d : DiskINode} (w : Storable busy s d) (n : ℕ)
    (inside : n * bsize < d.size) (e : Data) (h : LogHeader) where
  abbrev after : Sys
  after = logged s (block_at s d n) e h

  -- The map of the file stays as it was.
  pub block_at-after : (m : ℕ) → m * bsize < d.size → block_at after d m ≡ block_at s d m
  block_at-after m lt = elim (Bool-cases (ltb m ndirect)) [
    | inl direct ↦ rw direct refl
    | inr beyond ↦
        let far : ndirect * bsize < d.size = ground arith in
        let other : d.addrs ndirect ≢ block_at s d n = λ q. w.not_indirect n inside far (sym q) in
        rw beyond (
          ap (λ (x : Data). get32 x (4 * (m - ndirect)))
            (content-logged_ne s (block_at s d n) e h (d.addrs ndirect) other))
  ]

  pub after-Storable : Storable busy after d
  after-Storable = record {
    mapped = record {
      fits = w.mapped.fits;
      indirect = w.mapped.indirect;
      block = λ m lt. subst (IsPlaced busy) (sym (block_at-after m lt)) (w.mapped.block m lt);
    };
    home = λ m lt.
        let old : IsHome s.log (block_at s d m) = w.home m lt in
        subst (IsHome after.log) (sym (block_at-after m lt))
          (record { small = old.small; apart = old.apart });
    distinct =
        λ m p lm lp q. w.distinct m p lm lp (sym (block_at-after m lm) ∙ q ∙ block_at-after p lp);
    not_indirect = λ m lt far q. w.not_indirect m lt far (sym (block_at-after m lt) ∙ q);
  }

  -- Inside the block the file has the new contents, and elsewhere the old ones.
  file_data_in : (i : ℕ) → i < d.size → i / bsize ≡ n → file_data after d i ≡ e (i % bsize)
  file_data_in i lt same =
      let block : block_at after d (i / bsize) ≡ block_at s d n =
        block_at-after (i / bsize) (omega arith) ∙ ap (block_at s d) same in
      ap (λ b. content after b (i % bsize)) block
      ∙ ap (λ (x : Data). x (i % bsize)) (content-logged_self s (block_at s d n) e h)

  file_data_out : (i : ℕ) → i < d.size → i / bsize ≢ n → file_data after d i ≡ file_data s d i
  file_data_out i lt other =
      let l : i / bsize * bsize < d.size = omega arith in
      let ne : block_at s d (i / bsize) ≢ block_at s d n =
        λ q. other (w.distinct (i / bsize) n l inside q) in
      ap (λ b. content after b (i % bsize)) (block_at-after (i / bsize) l)
      ∙ ap (λ (x : Data). x (i % bsize))
          (content-logged_ne s (block_at s d n) e h (block_at s d (i / bsize)) ne)

-- Bytes that lie in one block are put into the file.
pub file_data-store :
    {busy : ℕ → Bool} {s : Sys} {d : DiskINode} (w : Storable busy s d) (off : ℕ) (cs : List ℕ)
    (h : LogHeader)
    → off < d.size
    → off % bsize + length cs ≤ bsize
    → (i : ℕ) → i < d.size
    → file_data
        (logged s
          (block_at s d (off / bsize))
          (splice (content s (block_at s d (off / bsize))) (off % bsize) cs)
          h)
        d
        i
      ≡ splice (file_data s d) off cs i
file_data-store {busy} {s} {d} w off cs h inside fits i lt =
    let n : ℕ = off / bsize in
    let l : n * bsize < d.size = omega arith in
    let old : Data = content s (block_at s d n) in
    let e : Data = splice old (off % bsize) cs in
    elim (Bool-cases (i / bsize == n)) [
      | inl here ↦
          let same : i / bsize ≡ n = ==→eq (i / bsize) n here in
          file_data_in w n l e h i lt same ∙ elim (place off (length cs) i) [
            | inl out ↦
                splice_out old (off % bsize) cs (i % bsize) (omega (arith, out, same))
                ∙ sym (
                    splice_out (file_data s d) off cs i out
                    ∙ ap (λ b. content s (block_at s d b) (i % bsize)) same)
            | inr (j, lj, q) ↦
                let there : i % bsize ≡ off % bsize + j = omega (arith, q, same) in
                ap e there
                ∙ splice_in old (off % bsize) cs j lj
                ∙ sym (ap (splice (file_data s d) off cs) q ∙ splice_in (file_data s d) off cs j lj)
          ]
      | inr away ↦
          let other : i / bsize ≢ n = ground arith in
          file_data_out w n l e h i lt other
          ∙ sym (splice_out (file_data s d) off cs i (omega (arith, other)))
    ]
