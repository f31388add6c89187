-- ===== src/Sfs/Tests.antt =====
-- Runs of lab8/code/kern/fs/sfs on a small disk.
use os_labs.Prelude.{
  ℕ, zero, suc, ◌+◌, ◌-◌, ◌<◌, ◌≡◌, refl, arith, false, ◌&&◌, ltb, leb, ◌==◌, if◌then◌else◌, some,
}
use os_labs.Strings.{Memory}
use os_labs.Strings.Move.{within}
use os_labs.Sfs.{Sfs, ok}
use os_labs.Iobuf.{Iobuf, iobuf_init}
use os_labs.Sfs.IoBuffer.{Advanced, sfs_io-content}
use os_labs.Sfs.Read.{with_memory}
use os_labs.Sfs.Length.{TruncOutcome, sfs_truncfile_lem}
use os_labs.Sfs.File.{sfs_io_nolock, sfs_io, sfs_truncfile}
use os_labs.Sfs.Blockmap.{sfs_bmap_load_nolock}
use os_labs.Sfs.Freemap.{IsMounted, InUse, free_count}
use os_labs.Sfs.Entry.{entry, IsFile}
use os_labs.Sfs.Directory.{
  sfs_dirent_findino_nolock, sfs_getdirentry_sub_nolock, dirent, Returns, slots, used, first_of,
  dirents_found,
}
use os_labs.Sfs.Append.{AppendOutcome}
use os_labs.Sfs.Load.{sfs_bmap_load-append}
use os_labs.Sfs.Contents.{read_byte}
use os_labs.Sfs.IoRead.{content, read_len, Delivers, sfs_io_nolock-served}

-- Eight blocks, of which the last two are free. The file has the blocks 3 and 5, two bytes of the
-- second one are behind its end; a byte on the disk is the number of its block.
abbrev small : Sfs
small = record {
  super_blocks = 8;
  unused_blocks = 2;
  super_dirty = false;
  freemap = record { nbits = 8; nwords = 1; map = λ w o. leb 6 o && ltb o 8 };
  sfs_buffer = λ k. 0;
  d_blocks = 8;
  disk = λ b k. b;
  memory = λ p. 99;
  size = 8190;
  type = 1;
  din_blocks = 2;
  direct = λ i. if i == 0 then 3 else if i == 1 then 5 else 0;
  indirect = 0;
  ino = 2;
  dirty = false;
}

small-count : small.unused_blocks ≡ free_count small.super_blocks small.freemap
unfolding free_count
small-count = refl

small-IsMounted : IsMounted small
small-IsMounted = record {
  on_disk = omega arith;
  blocks_max = omega arith;
  has_bit = omega arith;
  free_block = λ k h e. (ground (arith, e, h), ground (arith, e, h));
  has_word = omega arith;
  unused = small-count;
}

small_entry : (i : ℕ) → entry small i ≡ (if i == 0 then 3 else if i == 1 then 5 else 0)
small_entry i = ground arith

small-IsFile : IsFile small
small-IsFile = record {
  mounted = small-IsMounted;
  blocks_max = omega arith;
  in_use = small_use;
  beyond = λ i h mx. ground (arith, h);
  indirect_use = λ nz. absurd (nz refl);
  separate = λ i h e. ground (arith, h, e);
  distinct = λ i j h k ne e. ground (arith, h, k, ne, e);
}
  where
    small_use : (i : ℕ) → i < 2 → InUse small (entry small i)
    small_use zero h = record { nonzero = omega arith; below = omega arith; taken = refl }
    small_use (suc zero) h = record { nonzero = omega arith; below = omega arith; taken = refl }
    small_use (suc (suc i)) h = absurd (omega (arith, h))

append_example : AppendOutcome small (sfs_bmap_load_nolock small 2)
append_example = sfs_bmap_load-append small small-IsFile (omega arith)

-- The file with its end at 8192: the second block is read from block 4 and not from block 5.
abbrev whole : Sfs
whole = record small { size = 8192 }

-- The file with other data on the disk, and as a directory or not.
reshaped-IsFile :
    (d : ℕ → Memory) (n t : ℕ) → IsFile (record small { disk = d; size = n; type = t })
reshaped-IsFile d n t = record {
  mounted = record {
    on_disk = omega arith;
    blocks_max = omega arith;
    has_bit = omega arith;
    free_block = small-IsMounted.free_block;
    has_word = omega arith;
    unused = small-count;
  };
  blocks_max = omega arith;
  in_use = λ i h.
      let u = small-IsFile.in_use i h in
      record { nonzero = u.nonzero; below = u.below; taken = u.taken };
  beyond = small-IsFile.beyond;
  indirect_use = λ nz. absurd (nz refl);
  separate = small-IsFile.separate;
  distinct = small-IsFile.distinct;
}

whole-IsFile : IsFile whole
whole-IsFile = reshaped-IsFile small.disk 8192 1

-- A directory with a free slot and an entry for inode 2.
abbrev folder : Sfs
folder = record small { disk = λ b k. if k == 0 then b - 3 else 0; type = 2 }

served_example :
    Delivers whole 1000 0 8192 (read_byte whole 0 8192) (sfs_io_nolock whole 1000 0 8192 false)
served_example =
    sfs_io_nolock-served whole whole-IsFile (omega arith) (λ e. omega (arith, e)) 1000 0 8192
      (omega arith) (omega arith) (λ h. omega arith)

wrong_block : (read_byte whole 0 8192 4096 ≡ 4) × (content whole 4096 ≡ 5)
wrong_block = (refl, refl)

-- A file whose two blocks 3 and 4 are next to each other.
abbrev joined : Sfs
joined = record small { size = 8192; direct = λ i. if i == 0 then 3 else if i == 1 then 4 else 0 }

joined-IsFile : IsFile joined
joined-IsFile = record {
  mounted = record {
    on_disk = omega arith;
    blocks_max = omega arith;
    has_bit = omega arith;
    free_block = small-IsMounted.free_block;
    has_word = omega arith;
    unused = small-count;
  };
  blocks_max = omega arith;
  in_use = joined_use;
  beyond = λ i h mx. ground (arith, h);
  indirect_use = λ nz. absurd (nz refl);
  separate = λ i h e. ground (arith, h, e);
  distinct = λ i j h k ne e. ground (arith, h, k, ne, e);
}
  where
    joined_use : (i : ℕ) → i < 2 → InUse joined (entry joined i)
    joined_use zero h = record { nonzero = omega arith; below = omega arith; taken = refl }
    joined_use (suc zero) h = record { nonzero = omega arith; below = omega arith; taken = refl }
    joined_use (suc (suc i)) h = absurd (omega (arith, h))

-- All of it, as two whole blocks.
io_example :
    let iob = iobuf_init 1000 9000 0 in
    (x : Memory) × (m : Memory) × (b : Iobuf) × (sfs_io joined iob false
      ≡ some (with_memory joined x m, b, ok tt))
    × Advanced iob b (read_len joined iob.io_offset iob.io_resid)
    × ((q : ℕ)
        → m q ≡ (
            if within iob.io_base (read_len joined iob.io_offset iob.io_resid) q
            then content joined (iob.io_offset + (q - iob.io_base))
            else joined.memory q))
unfolding iobuf_init
io_example =
    sfs_io-content joined joined-IsFile (omega arith) (λ e. omega (arith, e))
      (iobuf_init 1000 9000 0) (omega arith) (omega arith) (λ k h. next_block k h)
  where
    next_block : (k : ℕ) → k < 2 → entry joined (0 + k) ≡ entry joined 0 + k
    next_block k h = ground (arith, h)

sfs_truncfile_example : TruncOutcome small 12000 (sfs_truncfile small 12000)
sfs_truncfile_example = sfs_truncfile_lem small small-IsFile 12000 refl (omega arith)

dirents_example :
    Returns folder (sfs_dirent_findino_nolock folder 2) (ok (dirent folder 1))
    × Returns folder (sfs_getdirentry_sub_nolock folder 0) (ok (dirent folder 1))
unfolding slots used first_of
dirents_example = dirents_found folder 2 0 (reshaped-IsFile folder.disk 8190 2) refl
