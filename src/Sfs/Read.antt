-- ===== src/Sfs/Read.antt =====
-- The reads of `sfs_io_nolock` of lab8/code/kern/fs/sfs/sfs_inode.c, piece by piece.
use os_labs.Prelude.{
  ℕ, zero, suc, ◌+◌, ◌-◌, ◌*◌, ◌/◌, ◌%◌, ◌≤◌, ◌<◌, ◌≡◌, inl, inr, refl, ◌∙◌, arith, true, false,
  if◌then◌else◌, Bool-cases, some,
}
use os_labs.Strings.{Memory}
use os_labs.Strings.Move.{within}
use os_labs.Sfs.{Sfs, ok, ◌>>>◌, deliver, part_allowed, sfs_rbuf, sfs_rblock}
use os_labs.Sfs.Blockmap.{sfs_bmap_load_nolock}
use os_labs.Sfs.File.{sfs_buf_op, sfs_block_op}
use os_labs.Sfs.Freemap.{IsMounted, IsMounted-same, InUse, read_block_lem}
use os_labs.Sfs.Entry.{entry, IsFile, looked_up, sfs_bmap_load_lem}

-- The file system with another buffer and other memory of the callers.
abbrev pub with_memory : Sfs → Memory → Memory → Sfs
with_memory s x m = record s { sfs_buffer = x; memory = m }

pub IsMounted-memory : (s : Sfs) (x m : Memory) → IsMounted s → IsMounted (with_memory s x m)
IsMounted-memory s x m h = IsMounted-same s (with_memory s x m) h refl refl refl refl

InUse-memory : (s : Sfs) (x m : Memory) (b : ℕ) → InUse s b → InUse (with_memory s x m) b
InUse-memory s x m b u = record { nonzero = u.nonzero; below = u.below; taken = u.taken }

pub IsFile-memory : (s : Sfs) (x m : Memory) → IsFile s → IsFile (with_memory s x m)
IsFile-memory s x m f = record {
  mounted = IsMounted-memory s x m f.mounted;
  blocks_max = f.blocks_max;
  in_use = λ i h. InUse-memory s x m (entry s i) (f.in_use i h);
  beyond = f.beyond;
  indirect_use = λ nz. InUse-memory s x m s.indirect (f.indirect_use nz);
  separate = f.separate;
  distinct = f.distinct;
}

-- The memory after `n` blocks of the disk were read, one after the other.
unfoldable pub blocks_read : (ℕ → Memory) → ℕ → Memory → ℕ → ℕ → Memory
blocks_read disk zero m buf blkno = m
blocks_read disk (suc n) m buf blkno =
    blocks_read disk n (deliver m buf (disk blkno) 4096) (buf + 4096) (blkno + 1)

pub blocks_read_lem :
    (disk : ℕ → Memory) (n : ℕ) (m : Memory) (buf blkno q : ℕ)
    → blocks_read disk n m buf blkno q ≡ (
        if within buf (n * 4096) q then disk (blkno + (q - buf) / 4096) ((q - buf) % 4096) else m q)
unfolding blocks_read
blocks_read_lem disk zero m buf blkno q =
    let e : within buf (0 * 4096) q ≡ false = ground arith in rw e
blocks_read_lem disk (suc n) m buf blkno q =
    let rest =
      blocks_read_lem disk n (deliver m buf (disk blkno) 4096) (buf + 4096) (blkno + 1) q in
    elim (Bool-cases (within buf 4096 q)) [
      | inl here ↦
          let all : within buf (suc n * 4096) q ≡ true = ground (arith, here) in
          let later : within (buf + 4096) (n * 4096) q ≡ false = ground (arith, here) in
          let lo : q - buf < 4096 = ground (arith, here) in
          let d : blkno + (q - buf) / 4096 ≡ blkno = omega (arith, lo) in
          let r : (q - buf) % 4096 ≡ q - buf = omega (arith, lo) in
          rest ∙ rw (all, later, here, d, r)
      | inr away ↦ elim (Bool-cases (within (buf + 4096) (n * 4096) q)) [
        | inl later ↦
            let all : within buf (suc n * 4096) q ≡ true = ground (arith, later) in
            let ge : buf + 4096 ≤ q = ground (arith, later) in
            let d : blkno + (q - buf) / 4096 ≡ blkno + 1 + (q - (buf + 4096)) / 4096 =
              omega (arith, ge) in
            let r : (q - buf) % 4096 ≡ (q - (buf + 4096)) % 4096 = omega (arith, ge) in
            rest ∙ rw (all, later, d, r)
        | inr never ↦
            let all : within buf (suc n * 4096) q ≡ false = ground (arith, away, never) in
            rest ∙ rw (all, never, away)
      ]
    ]

-- Whole blocks that are on the file system are read without an error.
pub sfs_rblock_lem :
    (n : ℕ) (s : Sfs) (buf blkno : ℕ)
    → IsMounted s
    → 0 < blkno
    → blkno + n ≤ s.super_blocks
    → sfs_rblock n s buf blkno
      ≡ some (record s { memory = blocks_read s.disk n s.memory buf blkno }, ok tt)
unfolding sfs_rblock blocks_read
sfs_rblock_lem zero s buf blkno m nz le = refl
sfs_rblock_lem (suc n) s buf blkno m nz le =
    let next : Sfs = record s { memory = deliver s.memory buf (s.disk blkno) 4096 } in
    let m' : IsMounted next = IsMounted-memory s s.sfs_buffer next.memory m in
    rw (
      read_block_lem s m blkno nz (omega (arith, le)),
      sfs_rblock_lem n next (buf + 4096) (blkno + 1) m' (omega arith) (omega (arith, le)),
    )

part_fits : (size off : ℕ) → off < 4096 → off + size ≤ 4096 → part_allowed size off ≡ true
unfolding part_allowed
part_fits size off lo fits = ground (arith, lo, fits)

-- A part of a block of the file is read.
pub read_part :
    (s : Sfs) (f : IsFile s) (i buf size off : ℕ)
    → i < s.din_blocks
    → off < 4096
    → off + size ≤ 4096
    → (sfs_bmap_load_nolock s i >>> λ s' b. sfs_buf_op false s' buf size b off)
      ≡ some (
        with_memory s
            (s.disk (entry s i))
            (deliver s.memory buf (λ k. s.disk (entry s i) (off + k)) size),
        ok tt,
      )
unfolding sfs_buf_op sfs_rbuf
read_part s f i buf size off h lo fits =
    let s1 = looked_up s i in
    let m1 : IsMounted s1 = IsMounted-memory s s1.sfs_buffer s.memory f.mounted in
    let u = f.in_use i h in
    let allowed : part_allowed size off ≡ true = part_fits size off lo fits in
    rw (sfs_bmap_load_lem s f i h, allowed, read_block_lem s1 m1 (entry s i) u.nonzero u.below)

-- Blocks of the disk from the block of an index on are read.
pub read_whole :
    (s : Sfs) (f : IsFile s) (i buf n : ℕ)
    → i < s.din_blocks
    → entry s i + n ≤ s.super_blocks
    → (sfs_bmap_load_nolock s i >>> λ s' b. sfs_block_op false s' buf b n)
      ≡ some (
        with_memory s (looked_up s i).sfs_buffer (blocks_read s.disk n s.memory buf (entry s i)),
        ok tt,
      )
unfolding sfs_block_op
read_whole s f i buf n h le =
    let s1 = looked_up s i in
    let m1 : IsMounted s1 = IsMounted-memory s s1.sfs_buffer s.memory f.mounted in
    let u = f.in_use i h in
    rw (sfs_bmap_load_lem s f i h, sfs_rblock_lem n s1 buf (entry s i) m1 u.nonzero le)
