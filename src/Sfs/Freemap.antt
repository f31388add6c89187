-- ===== src/Sfs/Freemap.antt =====
-- `sfs_block_alloc` and `sfs_block_free` of lab8/code/kern/fs/sfs/sfs_inode.c: the free blocks, as
-- the bitmap and as the count in the superblock.
use os_labs.Prelude.{
  ℕ, zero, suc, ◌+◌, ◌-◌, ◌*◌, ◌≤◌, ◌<◌, ◌≡◌, ◌≢◌, inl, inr, refl, sym, ap, ◌∙◌, arith, Bool, true,
  false, not, ◌&&◌, ltb, ◌==◌, ==-refl, if◌then◌else◌, Bool-cases, some, update,
}
use os_labs.Strings.{Memory}
use os_labs.Bitmap.{Bitmap, bitmap_test, bitmap_translate}
use os_labs.Bitmap.Bits.{is_free}
use os_labs.Sfs.{
  Sfs, ok, device_block, block_allowed, read_block, write_block, deliver, sfs_block_inuse,
  assert_inuse,
}

abbrev pub free_bit : Bitmap → ℕ → ℕ
free_bit b k = if is_free b k then 1 else 0

unfoldable pub free_count : ℕ → Bitmap → ℕ
free_count zero b = 0
free_count (suc k) b = free_bit b k + free_count k b

-- The bitmap and the superblock of a mounted file system: the disk has the blocks, the bitmap has
-- a bit for each, only these are ever free, block 0 is not, and the superblock counts them.
pub record IsMounted (s : Sfs) : Type 0 where
  pub on_disk : s.super_blocks ≤ s.d_blocks
  pub blocks_max : s.super_blocks ≤ 1048576
  pub has_bit : s.super_blocks ≤ s.freemap.nbits
  pub free_block :
      (k : ℕ)
      → k < s.freemap.nwords * 32
      → is_free s.freemap k ≡ true
      → (0 < k) × (k < s.super_blocks)
  pub has_word : s.super_blocks ≤ s.freemap.nwords * 32
  pub unused : s.unused_blocks ≡ free_count s.super_blocks s.freemap

-- A block that holds something.
pub record InUse (s : Sfs) (b : ℕ) : Type 0 where
  pub nonzero : 0 < b
  pub below : b < s.super_blocks
  pub taken : is_free s.freemap b ≡ false

-- Nothing but the bitmap and the numbers of blocks matters.
pub IsMounted-same :
    (s s' : Sfs)
    → IsMounted s
    → s'.super_blocks ≡ s.super_blocks
    → s'.unused_blocks ≡ s.unused_blocks
    → s'.freemap ≡ s.freemap
    → s'.d_blocks ≡ s.d_blocks
    → IsMounted s'
IsMounted-same s s' m eb eu ef ed =
    let a = m.on_disk in
    let b = m.blocks_max in
    let c = m.has_bit in
    let d = m.has_word in
    let e = m.unused in
    record {
      on_disk = omega (arith, a, eb, ed);
      blocks_max = omega (arith, b, eb);
      has_bit = rw (ef, eb) c;
      free_block = rw (ef, eb) m.free_block;
      has_word = rw (ef, eb) d;
      unused = eu ∙ e ∙ rw (ef, eb);
    }

free_count-above :
    (k : ℕ) (b b' : Bitmap) (i : ℕ)
    → k ≤ i
    → ((j : ℕ) → j ≢ i → is_free b' j ≡ is_free b j)
    → free_count k b' ≡ free_count k b
unfolding free_count
free_count-above zero b b' i h o = refl
free_count-above (suc k) b b' i h o =
    let e : is_free b' k ≡ is_free b k = o k (omega arith) in
    rw (e, free_count-above k b b' i (omega arith) o)

-- Where one bit changes, the count changes by that bit.
pub free_count-change :
    (k : ℕ) (b b' : Bitmap) (i : ℕ)
    → i < k
    → ((j : ℕ) → j ≢ i → is_free b' j ≡ is_free b j)
    → free_count k b' + free_bit b i ≡ free_count k b + free_bit b' i
unfolding free_count
free_count-change zero b b' i h o = absurd (omega arith)
free_count-change (suc k) b b' i h o = elim (Bool-cases (i == k)) [
  | inl e ↦
      let same : i ≡ k = ground (arith, e) in
      omega (
        arith,
        free_count-above k b b' i (omega (arith, same)) o,
        ap (free_bit b) same,
        ap (free_bit b') same,
      )
  | inr e ↦
      let below : i < k = ground (arith, e) in
      let here : free_bit b' k ≡ free_bit b k =
        ap (λ (f : Bool). if f then 1 else 0) (o k (omega (arith, below))) in
      omega (arith, here, free_count-change k b b' i below o)
]

pub free_count-none :
    (k : ℕ) (b : Bitmap) → ((j : ℕ) → j < k → is_free b j ≡ false) → free_count k b ≡ 0
unfolding free_count
free_count-none zero b h = refl
free_count-none (suc k) b h =
    let e : is_free b k ≡ false = h k (omega arith) in
    rw (e, free_count-none k b (λ j l. h j (omega arith)))

pub device_block_id : (b : ℕ) → b < 1048576 → device_block b ≡ b
unfolding device_block
device_block_id b h = omega arith

module _ (s : Sfs) (m : IsMounted s) (b : ℕ) (nonzero : 0 < b) (below : b < s.super_blocks) where
  is_allowed : block_allowed s b true ≡ true
  unfolding block_allowed
  is_allowed = ground (arith, nonzero, below)

  is_placed : device_block b ≡ b
  is_placed = let h = m.blocks_max in device_block_id b (omega (arith, h, below))

  has_device_block : ltb b s.d_blocks ≡ true
  has_device_block = let h = m.on_disk in ground (arith, h, below)

  -- A block of the file system is read and written without an error.
  pub read_block_lem : read_block s b true ≡ some (s, ok (s.disk b))
  unfolding read_block
  read_block_lem = rw (is_allowed, is_placed, has_device_block)

  pub write_block_lem :
      (bytes : Memory)
      → write_block s bytes b true ≡ some (record s { disk = update s.disk b bytes }, ok tt)
  unfolding write_block
  write_block_lem bytes = rw (is_allowed, is_placed, has_device_block)

-- The state after a block was allocated: it is taken from the bitmap and the count, and cleared.
abbrev pub allocated : Sfs → Bitmap → ℕ → Sfs
allocated s f b =
    let zeros = deliver s.sfs_buffer 0 (λ k. 0) 4096 in
    record s {
      freemap = f;
      unused_blocks = s.unused_blocks - 1;
      super_dirty = true;
      sfs_buffer = zeros;
      disk = update s.disk b zeros;
    }

-- The bitmap `f` is that of `s` without the block `b`, which was free.
pub record Taken (s : Sfs) (f : Bitmap) (b : ℕ) : Type 0 where
  pub was_free : is_free s.freemap b ≡ true
  pub nonzero : 0 < b
  pub below : b < s.super_blocks
  pub nbits : f.nbits ≡ s.freemap.nbits
  pub nwords : f.nwords ≡ s.freemap.nwords
  pub bit : (k : ℕ) → is_free f k ≡ (if k == b then false else is_free s.freemap k)

pub Taken-count :
    (s : Sfs) (f : Bitmap) (b : ℕ)
    → Taken s f b
    → free_count s.super_blocks f + 1 ≡ free_count s.super_blocks s.freemap
Taken-count s f b t =
    let before : free_bit s.freemap b ≡ 1 = rw t.was_free in
    let now : is_free f b ≡ false = t.bit b ∙ rw (==-refl b) in
    let after : free_bit f b ≡ 0 = rw now in
    let rest : (j : ℕ) → j ≢ b → is_free f j ≡ is_free s.freemap j =
      λ j ne. let e : (j == b) ≡ false = ground (arith, ne) in t.bit j ∙ rw e in
    omega (arith, before, after, free_count-change s.super_blocks s.freemap f b t.below rest)

pub Taken-free :
    (s : Sfs) (f : Bitmap) (b k : ℕ)
    → Taken s f b
    → is_free f k ≡ true
    → (k ≢ b) × (is_free s.freemap k ≡ true)
Taken-free s f b k t h = elim (Bool-cases (k == b)) [
  | inl e ↦ let no_bit : is_free f k ≡ false = t.bit k ∙ rw e in absurd (ground (arith, h, no_bit))
  | inr e ↦ (ground (arith, e), let bit = t.bit k in sym (bit ∙ rw e) ∙ h)
]

-- What is left is a mounted file system, whatever else changed with the bitmap.
pub Taken-IsMounted :
    (s s' : Sfs) (f : Bitmap) (b : ℕ)
    → IsMounted s
    → Taken s f b
    → s'.freemap ≡ f
    → s'.super_blocks ≡ s.super_blocks
    → s'.d_blocks ≡ s.d_blocks
    → s'.unused_blocks + 1 ≡ s.unused_blocks
    → IsMounted s'
Taken-IsMounted s s' f b m t ef eb ed eu =
    let c = Taken-count s f b t in
    let u = m.unused in
    let nb : s'.freemap.nbits ≡ s.freemap.nbits = ap (λ (g : Bitmap). g.nbits) ef ∙ t.nbits in
    let nw : s'.freemap.nwords ≡ s.freemap.nwords = ap (λ (g : Bitmap). g.nwords) ef ∙ t.nwords in
    let cnt : free_count s'.super_blocks s'.freemap ≡ free_count s.super_blocks f = rw (ef, eb) in
    let d = m.on_disk in
    let mx = m.blocks_max in
    let hb = m.has_bit in
    let hw = m.has_word in
    record {
      on_disk = omega (arith, d, eb, ed);
      blocks_max = omega (arith, mx, eb);
      has_bit = omega (arith, hb, nb, eb);
      has_word = omega (arith, hw, nw, eb);
      free_block = λ k lt h.
          let old = Taken-free s f b k t (ap (λ (g : Bitmap). is_free g k) (sym ef) ∙ h) in
          let r = m.free_block k (omega (arith, lt, nw)) old.1 in
          (r.0, let r1 = r.1 in omega (arith, r1, eb));
      unused = omega (arith, cnt, c, u, eu);
    }

bitmap_test_lem : (b : Bitmap) (i : ℕ) → i < b.nbits → bitmap_test b i ≡ some (is_free b i)
unfolding bitmap_test bitmap_translate
bitmap_test_lem b i h = ground (arith, h)

module _ (s : Sfs) (m : IsMounted s) (b : ℕ) (u : InUse s b) where
  inuse_lem : sfs_block_inuse s b ≡ some true
  unfolding sfs_block_inuse
  inuse_lem =
      let nz = u.nonzero in
      let lt = u.below in
      let hb = m.has_bit in
      let guard : (not (b == 0) && ltb b s.super_blocks) ≡ true = ground (arith, nz, lt) in
      let test = bitmap_test_lem s.freemap b (omega (arith, lt, hb)) in rw (guard, test, u.taken)

  pub assert_inuse_lem : assert_inuse s b ≡ some tt
  unfolding assert_inuse
  assert_inuse_lem = rw inuse_lem
