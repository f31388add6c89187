-- ===== src/Sfs/Allocate.antt =====
-- `sfs_block_alloc` and `sfs_block_free` of lab8/code/kern/fs/sfs/sfs_inode.c on a mounted file
-- system.
use os_labs.Prelude.{
  ℕ, ◌+◌, ◌-◌, ◌<◌, ◌≡◌, ◌≢◌, ◌⊎◌, inl, inr, refl, sym, ap, ◌∙◌, arith, true, false, ltb, ◌==◌,
  ==-refl, if◌then◌else◌, Bool-cases, Option, none, some, update,
}
use os_labs.Bitmap.{Bitmap, bitmap_alloc}
use os_labs.Bitmap.Bits.{is_free, Allocated, bitmap_alloc_lem, bitmap_free_lem}
use os_labs.Sfs.{
  Sfs, fail, ok, deliver, clear_blocks, sfs_clear_block, sfs_block_alloc, sfs_block_free,
}
use os_labs.Sfs.Freemap.{
  free_bit, free_count, IsMounted, InUse, IsMounted-same, free_count-change, free_count-none,
  write_block_lem, allocated, Taken, Taken-count, Taken-IsMounted, assert_inuse_lem,
}

-- What `sfs_block_alloc` does: it fails since no block is free, or it gives a block.
abbrev pub AllocOutcome : Sfs → Type 0
AllocOutcome s =
    ((sfs_block_alloc s ≡ some (s, fail 4)) × (s.unused_blocks ≡ 0))
    ⊎ ((b : ℕ) × (f : Bitmap) × (sfs_block_alloc s ≡ some (allocated s f b, ok b)) × Taken s f b)

pub Taken-InUse :
    (s s' : Sfs) (f : Bitmap) (b : ℕ)
    → Taken s f b
    → s'.freemap ≡ f
    → s'.super_blocks ≡ s.super_blocks
    → InUse s' b
Taken-InUse s s' f b t ef eb =
    let below = t.below in
    record {
      nonzero = t.nonzero;
      below = omega (arith, below, eb);
      taken = ap (λ (g : Bitmap). is_free g b) ef ∙ t.bit b ∙ rw (==-refl b);
    }

clear_block_lem :
    (s : Sfs) (b : ℕ)
    → IsMounted s
    → 0 < b
    → b < s.super_blocks
    → let zeros = deliver s.sfs_buffer 0 (λ k. 0) 4096 in
      sfs_clear_block s b 1
      ≡ some (record s { sfs_buffer = zeros; disk = update s.disk b zeros }, ok tt)
unfolding sfs_clear_block clear_blocks
clear_block_lem s b m nonzero below =
    let zeros = deliver s.sfs_buffer 0 (λ k. 0) 4096 in
    let s' : Sfs = record s { sfs_buffer = zeros } in
    let m' : IsMounted s' =
      IsMounted-same s (record s { sfs_buffer = zeros }) m refl refl refl refl in
    rw (write_block_lem s' m' b nonzero below zeros)

alloc_run :
    (s : Sfs) (m : IsMounted s) (f : Bitmap) (b : ℕ)
    → bitmap_alloc s.freemap ≡ some (f, some b)
    → Taken s f b
    → sfs_block_alloc s ≡ some (allocated s f b, ok b)
unfolding sfs_block_alloc
alloc_run s m f b run t =
    let s' : Sfs = record s {
      freemap = f;
      unused_blocks = s.unused_blocks - 1;
      super_dirty = true;
    } in
    let c = Taken-count s f b t in
    let u = m.unused in
    let some_left : 0 < s.unused_blocks = omega (arith, c, u) in
    let guard : ltb 0 s.unused_blocks ≡ true = ground (arith, some_left) in
    let m' : IsMounted s' =
      Taken-IsMounted s s' f b m t refl refl refl (omega (arith, some_left)) in
    let asserted = assert_inuse_lem s' m' b (Taken-InUse s s' f b t refl refl) in
    rw (run, guard, asserted, clear_block_lem s' b m' t.nonzero t.below)

alloc_outcome :
    (s : Sfs) (f : Bitmap) (i : Option ℕ)
    → IsMounted s
    → bitmap_alloc s.freemap ≡ some (f, i)
    → Allocated s.freemap f i
    → AllocOutcome s
unfolding sfs_block_alloc
alloc_outcome s f none m run a =
    let u = m.unused in
    let hw = m.has_word in
    let none_free : free_count s.super_blocks s.freemap ≡ 0 =
      free_count-none s.super_blocks s.freemap (λ j h. a.1 j (omega (arith, h, hw))) in
    inl (rw run (ap (λ (g : Bitmap). some (record s { freemap = g }, fail 4)) a.0), u ∙ none_free)
alloc_outcome s f (some b) m run a =
    let place = m.free_block b a.0 a.1 in
    let t : Taken s f b = record {
      was_free = a.1;
      nonzero = place.0;
      below = place.1;
      nbits = a.4;
      nwords = a.5;
      bit = a.3;
    } in
    inr (b, f, alloc_run s m f b run t, t)

-- On a mounted file system `sfs_block_alloc` fails no assertion and the disk gives no error: it
-- takes a free block and clears it, or returns `-E_NO_MEM`, leaves the state, and none is free.
pub sfs_block_alloc_lem : (s : Sfs) → IsMounted s → AllocOutcome s
sfs_block_alloc_lem s m =
    let (f, i, run, a) = bitmap_alloc_lem s.freemap in alloc_outcome s f i m run a

-- The bitmap `f` is that of `s` with the block `b` freed.
pub record Freed (s : Sfs) (f : Bitmap) (b : ℕ) : Type 0 where
  pub nbits : f.nbits ≡ s.freemap.nbits
  pub nwords : f.nwords ≡ s.freemap.nwords
  pub bit : (k : ℕ) → is_free f k ≡ (if k == b then true else is_free s.freemap k)

abbrev pub freed : Sfs → Bitmap → Sfs
freed s f = record s { freemap = f; unused_blocks = s.unused_blocks + 1; super_dirty = true }

pub Freed-IsMounted :
    (s : Sfs) (f : Bitmap) (b : ℕ) → IsMounted s → InUse s b → Freed s f b → IsMounted (freed s f)
Freed-IsMounted s f b m u t =
    let before : free_bit s.freemap b ≡ 0 = rw u.taken in
    let now : is_free f b ≡ true = t.bit b ∙ rw (==-refl b) in
    let after : free_bit f b ≡ 1 = rw now in
    let rest : (j : ℕ) → j ≢ b → is_free f j ≡ is_free s.freemap j =
      λ j ne. let e : (j == b) ≡ false = ground (arith, ne) in t.bit j ∙ rw e in
    let c = free_count-change s.super_blocks s.freemap f b u.below rest in
    let un = m.unused in
    let hb = m.has_bit in
    let hw = m.has_word in
    let nb = t.nbits in
    let nw = t.nwords in
    record {
      on_disk = m.on_disk;
      blocks_max = m.blocks_max;
      has_bit = omega (arith, hb, nb);
      has_word = omega (arith, hw, nw);
      free_block = λ k lt h. elim (Bool-cases (k == b)) [
        | inl e ↦
            let same : k ≡ b = ground (arith, e) in
            let nz = u.nonzero in
            let below = u.below in (omega (arith, nz, same), omega (arith, below, same))
        | inr e ↦ m.free_block k (omega (arith, lt, nw)) (sym (t.bit k ∙ rw e) ∙ h)
      ];
      unused = omega (arith, before, after, c, un);
    }

-- On a mounted file system `sfs_block_free` of a block in use fails no assertion; it frees exactly
-- that block, and the file system stays well formed.
pub sfs_block_free_lem :
    (s : Sfs) (b : ℕ)
    → IsMounted s
    → InUse s b
    → (f : Bitmap) × (sfs_block_free s b ≡ some (freed s f)) × Freed s f b × IsMounted (freed s f)
unfolding sfs_block_free
sfs_block_free_lem s b m u =
    let lt = u.below in
    let hb = m.has_bit in
    let (f, run, bit, nb, nw) = bitmap_free_lem s.freemap b (omega (arith, lt, hb)) u.taken in
    let t : Freed s f b = record { nbits = nb; nwords = nw; bit = bit } in
    (f, rw (assert_inuse_lem s m b u, run), t, Freed-IsMounted s f b m u t)
