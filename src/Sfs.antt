-- ===== src/Sfs.antt =====
-- lab8/code/kern/fs/sfs/sfs_io.c and the block functions of sfs_inode.c: the blocks of the simple
-- file system. The state is a mounted file system and the inode an operation is called on; the
-- locks are left out, since one operation runs at a time under them.
pub mod Blockmap
pub mod Directory
pub mod Contents
pub mod Append
pub mod Entry
pub mod File
pub mod Freemap
pub mod Allocate
pub mod Indirect
pub mod IoRead
pub mod Load
pub mod Prepare
pub mod Read
pub mod Truncate
pub mod Resize
pub mod Length
pub mod IoBuffer
mod Tests
use os_labs.Prelude.{
  ℕ, zero, suc, ◌+◌, ◌-◌, ◌*◌, ◌/◌, ◌%◌, ◌^◌, ◌≤◌, ◌<◌, ◌≡◌, ◌≢◌, ◌⊎◌, ◌↔◌, inl, inr, refl, sym, ap,
  ◌∙◌, fun_ext, arith, Bool, true, false, not, ◌&&◌, ◌||◌, ltb, leb, ◌==◌, ==-refl, ==_iff,
  if◌then◌else◌, Bool-cases, Option-cases, Option, none, some, ◌>>=◌, ◌>>◌, assert, update, List,
  [], ◌∷◌, ◌++◌, map, length, get_elem?, set, get_or, take, drop, replicate,
}
use os_labs.Strings.{Memory}
use os_labs.Strings.Move.{within}
use os_labs.Bitmap.{Bitmap, bitmap_alloc, bitmap_test, bitmap_free}

abbrev pub sfs_blksize : ℕ
sfs_blksize = 4096

-- The error codes of libs/error.h, without their sign.
abbrev pub e_inval : ℕ
e_inval = 3

abbrev pub e_no_mem : ℕ
e_no_mem = 4

-- `struct sfs_fs` with its superblock, the disk under it by block and byte, the memory of the
-- callers, and `struct sfs_inode` with the inode on disk that it holds.
pub record Sfs : Type 0 where
  pub super_blocks : ℕ
  pub unused_blocks : ℕ
  pub super_dirty : Bool
  pub freemap : Bitmap
  pub sfs_buffer : Memory
  pub d_blocks : ℕ
  pub disk : ℕ → Memory
  pub memory : Memory
  pub size : ℕ
  pub type : ℕ
  pub din_blocks : ℕ
  pub direct : ℕ → ℕ
  pub indirect : ℕ
  pub ino : ℕ
  pub dirty : Bool

-- What a call returns: 0, with what it stores for its caller, or an error code.
pub data Ret (A : Type 0) : Type 0 where
  fail : ℕ → Ret A
  ok : A → Ret A

-- What is left after a call that may return an error; `none` is a panic.
abbrev pub Outcome : Type 0 → Type 0
Outcome A = Option (Sfs × Ret A)

-- The rest of a function, behind a call whose error it returns.
infixl 5 ◌>>>◌
abbrev pub ◌>>>◌ : {A B : Type 0} → Outcome A → (Sfs → A → Outcome B) → Outcome B
none >>> f = none
some (s, fail e) >>> f = some (s, fail e)
some (s, ok a) >>> f = f s a

-- A call whose error is handled.
abbrev pub try :
    {A B : Type 0} → Outcome A → (Sfs → A → Outcome B) → (Sfs → ℕ → Outcome B) → Outcome B
try none f handle = none
try (some (s, fail e)) f handle = handle s e
try (some (s, ok a)) f handle = f s a

-- `blkno * SFS_BLKSIZE` in 32 bits, and the block that disk0 reads it as.
unfoldable pub device_block : ℕ → ℕ
device_block blkno = blkno * sfs_blksize % 4294967296 / sfs_blksize

unfoldable pub block_allowed : Sfs → ℕ → Bool → Bool
block_allowed s blkno check = (not (blkno == 0) || not check) && ltb blkno s.super_blocks

-- `sfs_rwblock_nolock` for a read, with what the buffer holds then.
unfoldable pub read_block : Sfs → ℕ → Bool → Outcome Memory
unfolding device_block block_allowed
read_block s blkno check =
    assert (block_allowed s blkno check)
    >> (if ltb (device_block blkno) s.d_blocks
        then some (s, ok (s.disk (device_block blkno)))
        else some (s, fail e_inval))

-- `sfs_rwblock_nolock` for a write, with what the buffer holds.
unfoldable pub write_block : Sfs → Memory → ℕ → Bool → Outcome (Unit {0})
unfolding device_block block_allowed
write_block s bytes blkno check =
    assert (block_allowed s blkno check)
    >> (if ltb (device_block blkno) s.d_blocks
        then some (record s { disk = update s.disk (device_block blkno) bytes }, ok tt)
        else some (s, fail e_inval))

-- `memcpy` from a buffer of the kernel to the memory of the caller.
abbrev pub deliver : Memory → ℕ → Memory → ℕ → Memory
deliver m buf bytes len p = if within buf len p then bytes (p - buf) else m p

unfoldable pub sfs_rblock : ℕ → Sfs → ℕ → ℕ → Outcome (Unit {0})
unfolding read_block
sfs_rblock zero s buf blkno = some (s, ok tt)
sfs_rblock (suc nblks) s buf blkno = read_block s blkno true >>> λ s' bytes.
    sfs_rblock nblks (record s' { memory = deliver s'.memory buf bytes sfs_blksize })
      (buf + sfs_blksize) (blkno + 1)

unfoldable pub sfs_wblock : ℕ → Sfs → ℕ → ℕ → Outcome (Unit {0})
unfolding write_block
sfs_wblock zero s buf blkno = some (s, ok tt)
sfs_wblock (suc nblks) s buf blkno = write_block s (λ k. s.memory (buf + k)) blkno true >>> λ s' u.
    sfs_wblock nblks s' (buf + sfs_blksize) (blkno + 1)

unfoldable pub part_allowed : ℕ → ℕ → Bool
part_allowed len offset = ltb offset sfs_blksize && leb (offset + len) sfs_blksize

-- The bytes that `sfs_rbuf` copies out of `sfs_buffer`.
unfoldable pub sfs_rbuf : Sfs → ℕ → ℕ → ℕ → Outcome Memory
unfolding read_block part_allowed
sfs_rbuf s len blkno offset =
    assert (part_allowed len offset)
    >> (read_block s blkno true >>> λ s' bytes.
        some (record s' { sfs_buffer = bytes }, ok (λ k. bytes (offset + k))))

unfoldable pub sfs_wbuf : Sfs → Memory → ℕ → ℕ → ℕ → Outcome (Unit {0})
unfolding read_block write_block part_allowed
sfs_wbuf s bytes len blkno offset =
    assert (part_allowed len offset)
    >> (read_block s blkno true >>> λ s' old.
        let new = deliver old offset bytes len in
        write_block (record s' { sfs_buffer = new }) new blkno true)

unfoldable pub clear_blocks : ℕ → Sfs → ℕ → Outcome (Unit {0})
unfolding write_block
clear_blocks zero s blkno = some (s, ok tt)
clear_blocks (suc nblks) s blkno =
    write_block s s.sfs_buffer blkno true >>> λ s' u. clear_blocks nblks s' (blkno + 1)

unfoldable pub sfs_clear_block : Sfs → ℕ → ℕ → Outcome (Unit {0})
unfolding clear_blocks
sfs_clear_block s blkno nblks =
    clear_blocks nblks (record s { sfs_buffer = deliver s.sfs_buffer 0 (λ k. 0) sfs_blksize }) blkno

unfoldable pub sfs_block_inuse : Sfs → ℕ → Option Bool
unfolding bitmap_test
sfs_block_inuse s b =
    assert (not (b == 0) && ltb b s.super_blocks)
    >> (bitmap_test s.freemap b >>= λ free. some (not free))

unfoldable pub assert_inuse : Sfs → ℕ → Option (Unit {0})
unfolding sfs_block_inuse
assert_inuse s b = sfs_block_inuse s b >>= assert

unfoldable pub sfs_block_alloc : Sfs → Outcome ℕ
unfolding bitmap_alloc assert_inuse sfs_clear_block
sfs_block_alloc s = bitmap_alloc s.freemap >>= λ p. elim p.1 [
  | none ↦ some (record s { freemap = p.0 }, fail e_no_mem)
  | some b ↦
      let s' = record s {
        freemap = p.0;
        unused_blocks = s.unused_blocks - 1;
        super_dirty = true;
      } in
      assert (ltb 0 s.unused_blocks)
      >> assert_inuse s' b
      >> (sfs_clear_block s' b 1 >>> λ s'' u. some (s'', ok b))
]

unfoldable pub sfs_block_free : Sfs → ℕ → Option Sfs
unfolding assert_inuse bitmap_free
sfs_block_free s b =
    assert_inuse s b
    >> (bitmap_free s.freemap b >>= λ f.
        some (record s { freemap = f; unused_blocks = s.unused_blocks + 1; super_dirty = true }))
