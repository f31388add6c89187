-- ===== src/Sfs/Indirect.antt =====
-- `sfs_bmap_get_sub_nolock` of lab8/code/kern/fs/sfs/sfs_inode.c for a new block: the entry block.
use os_labs.Prelude.{
  ℕ, ◌+◌, ◌-◌, ◌*◌, ◌<◌, ◌≡◌, ◌≢◌, ◌⊎◌, inl, inr, refl, sym, ap, ◌∙◌, arith, Bool, true, false, ltb,
  ◌==◌, ==-refl, if◌then◌else◌, Bool-cases, some, update,
}
use os_labs.Strings.{Memory}
use os_labs.Bitmap.{Bitmap}
use os_labs.Bitmap.Bits.{is_free}
use os_labs.Sfs.{Sfs, ok, deliver}
use os_labs.Sfs.Blockmap.{word_bytes, cleanup, create_entry}
use os_labs.Sfs.Freemap.{IsMounted, InUse, Taken, Taken-count, Taken-IsMounted, allocated}
use os_labs.Sfs.Allocate.{Taken-InUse, sfs_block_alloc_lem}
use os_labs.Sfs.Entry.{word_at, entry, word_at-deliver, sfs_wbuf-entry}
use os_labs.Sfs.Append.{Appended, SameOutside, InUse-free, still_used, same_block, new_zeros}

-- The file system `s0`, between the calls, has an entry block `ent` for the file of `s`.
pub record Prepared (s s0 : Sfs) (ent : ℕ) : Type 0 where
  pub mounted : IsMounted s0
  pub still : (c : ℕ) → InUse s c → InUse s0 c
  pub fewer_free : (k : ℕ) → is_free s0.freemap k ≡ true → is_free s.freemap k ≡ true
  pub used : InUse s0 ent
  pub words : (j : ℕ) → j < 1024 → word_at (s0.disk ent) j ≡ entry s (j + 12)
  pub where_from : (ent ≡ s.indirect) ⊎ ((s.indirect ≡ 0) × (is_free s.freemap ent ≡ true))
  pub direct : (i : ℕ) → s0.direct i ≡ s.direct i
  pub blocks : s0.din_blocks ≡ s.din_blocks
  pub outside : SameOutside s s0

-- The block `ent` with a new word `b`.
abbrev pub new_entry : Sfs → ℕ → ℕ → ℕ → Memory
new_entry s1 b ent j = deliver (s1.disk ent) (j * 4) (word_bytes b) 4

-- The state after a new block was entered.
abbrev pub entered : Sfs → Bitmap → ℕ → ℕ → ℕ → Sfs
entered s0 f b ent j =
    let s1 = allocated s0 f b in
    record s1 {
      sfs_buffer = new_entry s1 b ent j;
      disk = update s1.disk ent (new_entry s1 b ent j);
    }

-- And with the inode changed.
abbrev pub with_entry : Sfs → Bitmap → ℕ → ℕ → ℕ → Bool → Sfs
with_entry s0 f b ent j d = record (entered s0 f b ent j) {
  indirect = ent;
  dirty = d;
  din_blocks = s0.din_blocks + 1;
}

module _ (s s0 : Sfs) (ent : ℕ) (p : Prepared s s0 ent) (f : Bitmap) (b : ℕ) (t : Taken s0 f b)
    (d : Bool) (hi : ltb s.din_blocks 12 ≡ false) (lt : s.din_blocks < 1036) where
  ent_ne : ent ≢ b
  ent_ne = InUse-free s0 b ent t.was_free p.used

  kept_word : (j : ℕ) → j < 1024 → word_at ((allocated s0 f b).disk ent) j ≡ entry s (j + 12)
  kept_word j h =
      ap (λ (m : Memory). word_at m j)
        (same_block s0 b ent (deliver s0.sfs_buffer 0 (λ k. 0) 4096) t.was_free p.used)
      ∙ p.words j h

  new_word :
      (j : ℕ)
      → j < 1024
      → word_at (new_entry (allocated s0 f b) b ent (s.din_blocks - 12)) j
        ≡ (if j == s.din_blocks - 12 then b else entry s (j + 12))
  new_word j h =
      let below = t.below in
      let mx = p.mounted.blocks_max in
      word_at-deliver ((allocated s0 f b).disk ent) (s.din_blocks - 12) j b
        (omega (arith, below, mx))
      ∙ ap (λ x. if j == s.din_blocks - 12 then b else x) (kept_word j h)

  new_entries :
      (i : ℕ)
      → i < 1036
      → entry (with_entry s0 f b ent (s.din_blocks - 12) d) i
        ≡ (if i == s.din_blocks then b else entry s i)
  new_entries i h = elim (Bool-cases (ltb i 12)) [
    | inl lo ↦
        let at : (i == s.din_blocks) ≡ false = ground (arith, lo, hi) in rw (lo, at) (p.direct i)
    | inr up ↦
        let nz = p.used.nonzero in
        let e : (ent == 0) ≡ false = ground (arith, nz) in
        let same : (i - 12 == s.din_blocks - 12) ≡ (i == s.din_blocks) = ground (arith, up, hi) in
        let back : i - 12 + 12 ≡ i = ground (arith, up) in
        let r = new_word (i - 12) (ground (arith, up, h)) in
        let goal : entry s (i - 12 + 12) ≡ entry s i = ap (entry s) back in
        let stored : entry (with_entry s0 f b ent (s.din_blocks - 12) d) i
            ≡ word_at (new_entry (allocated s0 f b) b ent (s.din_blocks - 12)) (i - 12) =
          rw (e, up, ==-refl ent) in
        (stored
          ∙ r
          ∙ ap (λ x. if i - 12 == s.din_blocks - 12 then b else x) goal
          ∙ ap (λ (c : Bool). if c then b else entry s i) same)
  ]

  not_entry : (c : ℕ) → InUse s c → c ≢ s.indirect → ent ≢ c
  not_entry c u ne e = elim p.where_from [
    | inl same ↦ ne (sym e ∙ same)
    | inr (z, free) ↦ InUse-free s ent c free u (sym e)
  ]

  new_contents :
      (c : ℕ)
      → InUse s c
      → c ≢ s.indirect
      → (with_entry s0 f b ent (s.din_blocks - 12) d).disk c ≡ s.disk c
  new_contents c u ne =
      let away = not_entry c u ne in
      let off : (ent == c) ≡ false = ground (arith, away) in
      let kept =
        same_block s0 b c (deliver s0.sfs_buffer 0 (λ k. 0) 4096) t.was_free (p.still c u) in
      rw off (kept ∙ p.outside.contents c u ne)

  new_block_zero : (k : ℕ) → k < 4096 → (with_entry s0 f b ent (s.din_blocks - 12) d).disk b k ≡ 0
  new_block_zero k h =
      let away = ent_ne in
      let off : (ent == b) ≡ false = ground (arith, away) in
      rw (off, ==-refl b) (new_zeros s0.sfs_buffer k h)

  pub entered-Appended : Appended s (with_entry s0 f b ent (s.din_blocks - 12) d) b
  entered-Appended =
      let s' = with_entry s0 f b ent (s.din_blocks - 12) d in
      let c = Taken-count s0 f b t in
      let u = p.mounted.unused in
      let n = p.blocks in
      record {
        was_free = p.fewer_free b t.was_free;
        mounted = Taken-IsMounted s0 s' f b p.mounted t refl refl refl (omega (arith, c, u));
        blocks = ap (λ x. x + 1) n;
        used =
            let v = Taken-InUse s0 s' f b t refl refl in
            record { nonzero = v.nonzero; below = v.below; taken = v.taken };
        still = λ c u. still_used s0 s' f b c t refl refl (p.still c u);
        entries = new_entries;
        indirect = elim p.where_from [
          | inl same ↦ inl same
          | inr (z, free) ↦ inr (z, free, still_used s0 s' f b ent t refl refl p.used, ent_ne)
        ];
        zeros = new_block_zero;
        outside = record {
          super_blocks = p.outside.super_blocks;
          d_blocks = p.outside.d_blocks;
          memory = p.outside.memory;
          size = p.outside.size;
          type = p.outside.type;
          ino = p.outside.ino;
          contents = new_contents;
        };
      }

-- `create_entry` takes a free block, enters it and returns it; if none is free it goes to the
-- label `failed_cleanup`.
pub create_entry_lem :
    (s0 : Sfs) (entp ent j : ℕ)
    → IsMounted s0
    → InUse s0 ent
    → j < 1024
    → ((create_entry s0 entp ent j ≡ cleanup s0 entp ent 4) × (s0.unused_blocks ≡ 0))
      ⊎ ((b : ℕ) × (f : Bitmap) × (create_entry s0 entp ent j
            ≡ some (entered s0 f b ent j, ok (ent, b)))
          × Taken s0 f b)
unfolding create_entry
create_entry_lem s0 entp ent j m u h = elim (sfs_block_alloc_lem s0 m) [
  | inl (run, z) ↦ inl (rw run, z)
  | inr (b, f, run, t) ↦
      let s1 = allocated s0 f b in
      let c = Taken-count s0 f b t in
      let un = m.unused in
      let m1 = Taken-IsMounted s0 s1 f b m t refl refl refl (omega (arith, c, un)) in
      let u1 = still_used s0 s1 f b ent t refl refl u in
      inr (b, f, rw (run, sfs_wbuf-entry s1 m1 ent u1 j b h), t)
]
