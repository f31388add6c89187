-- ===== src/Sfs/File.antt =====
-- lab8/code/kern/fs/sfs/sfs_inode.c, `sfs_io_nolock` and the operations around it: a file's
-- contents and its size.
use os_labs.Prelude.{
  ℕ, zero, suc, ◌+◌, ◌-◌, ◌*◌, ◌/◌, ◌%◌, Bool, true, not, ◌||◌, ltb, leb, ◌==◌, if◌then◌else◌,
  Option, none, some, ◌>>=◌, ◌>>◌, assert,
}
use os_labs.Iobuf.{Iobuf, iobuf_skip}
use os_labs.Sfs.{
  Sfs, Ret, fail, ok, Outcome, ◌>>>◌, sfs_blksize, e_inval, sfs_rbuf, sfs_wbuf, sfs_rblock,
  sfs_wblock, deliver,
}
use os_labs.Sfs.Blockmap.{sfs_bmap_load_nolock, sfs_bmap_truncate_nolock}

abbrev pub sfs_max_file_size : ℕ
sfs_max_file_size = 134217728

abbrev pub sfs_type_dir : ℕ
sfs_type_dir = 2

-- `off_t` is a signed word of 64 bits, given by its bits.
abbrev pub off_t_min : ℕ
off_t_min = 9223372036854775808

abbrev pub off_t_mod : ℕ
off_t_mod = 18446744073709551616

-- What `sfs_io_nolock` leaves, stores in `*alenp` and returns.
abbrev pub IoResult : Type 0
IoResult = Option (Sfs × ℕ × Ret (Unit {0}))

-- `*sfs_buf_op` and `*sfs_block_op`.
unfoldable pub sfs_buf_op : Bool → Sfs → ℕ → ℕ → ℕ → ℕ → Outcome (Unit {0})
unfolding sfs_rbuf sfs_wbuf
sfs_buf_op write s buf len blkno offset =
    if write
    then sfs_wbuf s (λ k. s.memory (buf + k)) len blkno offset
    else sfs_rbuf s len blkno offset >>> λ s' b.
        some (record s' { memory = deliver s'.memory buf b len }, ok tt)

unfoldable pub sfs_block_op : Bool → Sfs → ℕ → ℕ → ℕ → Outcome (Unit {0})
unfolding sfs_rblock sfs_wblock
sfs_block_op write s buf blkno nblks =
    if write then sfs_wblock nblks s buf blkno else sfs_rblock nblks s buf blkno

-- The label `out`: with an error the pieces before it count.
unfoldable pub finish : Sfs → ℕ → ℕ → Ret (Unit {0}) → IoResult
finish s offset alen ret =
    if ltb s.size (offset + alen)
    then some (record s { size = offset + alen; dirty = true }, alen, ret)
    else some (s, alen, ret)

-- One of the three pieces, and then the rest of the function.
unfoldable pub piece : Outcome (Unit {0}) → ℕ → ℕ → (Sfs → IoResult) → IoResult
unfolding finish
piece none offset alen rest = none
piece (some (s, fail e)) offset alen rest = finish s offset alen (fail e)
piece (some (s, ok u)) offset alen rest = rest s

-- (3) the bytes of the last block.
unfoldable pub io_tail : Bool → Sfs → ℕ → ℕ → ℕ → ℕ → ℕ → IoResult
unfolding sfs_bmap_load_nolock sfs_buf_op finish piece
io_tail write s buf offset endpos blkno alen =
    let size = endpos % sfs_blksize in
    let last = sfs_bmap_load_nolock s blkno >>> λ s' b. sfs_buf_op write s' buf size b 0 in
    if not (size == 0)
    then piece last offset alen (λ s'. finish s' offset (alen + size) (ok tt))
    else finish s offset alen (ok tt)

-- (2) the whole blocks.
unfoldable pub io_blocks : Bool → Sfs → ℕ → ℕ → ℕ → ℕ → ℕ → ℕ → IoResult
unfolding sfs_bmap_load_nolock sfs_block_op io_tail piece
io_blocks write s buf offset endpos blkno nblks alen =
    let size = nblks * sfs_blksize in
    let whole = sfs_bmap_load_nolock s blkno >>> λ s' b. sfs_block_op write s' buf b nblks in
    if ltb 0 nblks
    then piece whole offset alen
        (λ s'. io_tail write s' (buf + size) offset endpos (blkno + nblks) (alen + size))
    else io_tail write s buf offset endpos blkno alen

-- (1) the end of the first block, if the offset is inside it.
unfoldable pub io_head : Bool → Sfs → ℕ → ℕ → ℕ → IoResult
unfolding sfs_bmap_load_nolock sfs_buf_op io_blocks finish piece
io_head write s buf offset endpos =
    let blkno = offset / sfs_blksize in
    let nblks = endpos / sfs_blksize - blkno in
    let blkoff = offset % sfs_blksize in
    let size = if not (nblks == 0) then sfs_blksize - blkoff else endpos - offset in
    let first = sfs_bmap_load_nolock s blkno >>> λ s' b. sfs_buf_op write s' buf size b blkoff in
    if not (blkoff == 0)
    then piece first offset 0 (λ s'.
      if nblks == 0
      then finish s' offset size (ok tt)
      else io_blocks write s' (buf + size) offset endpos (blkno + 1) (nblks - 1) size)
    else io_blocks write s buf offset endpos blkno nblks 0

unfoldable pub sfs_io_nolock : Sfs → ℕ → ℕ → ℕ → Bool → IoResult
unfolding io_head
sfs_io_nolock s buf offset len write =
    let sum = (offset + len) % off_t_mod in
    let endpos = if ltb sfs_max_file_size sum then sfs_max_file_size else sum in
    let last = if ltb s.size endpos then s.size else endpos in
    let backwards = leb off_t_min sum || ltb sum offset in
    assert (not (s.type == sfs_type_dir))
    >> (if leb off_t_min offset || leb sfs_max_file_size offset || backwards
        then some (s, 0, fail e_inval)
        else if offset == sum
        then some (s, 0, ok tt)
        else if write
        then io_head write s buf offset endpos
        else if leb s.size offset
        then some (s, 0, ok tt)
        else io_head write s buf offset last)

unfoldable pub sfs_io : Sfs → Iobuf → Bool → Option (Sfs × Iobuf × Ret (Unit {0}))
unfolding sfs_io_nolock iobuf_skip
sfs_io s iob write = sfs_io_nolock s iob.io_base iob.io_offset iob.io_resid write >>= λ r.
    let (s', alen, ret) = r in
    (if not (alen == 0) then iobuf_skip iob alen else some iob) >>= λ b. some (s', b, ret)

-- The loop that gives a file more blocks, `room` of them from index `nblks` on.
unfoldable pub grow : ℕ → Sfs → ℕ → Outcome (Unit {0})
unfolding sfs_bmap_load_nolock
grow zero s nblks = some (s, ok tt)
grow (suc room) s nblks = sfs_bmap_load_nolock s nblks >>> λ s' b. grow room s' (nblks + 1)

-- The loop that takes `room` blocks from the end of a file.
unfoldable pub shrink : ℕ → Sfs → Outcome (Unit {0})
unfolding sfs_bmap_truncate_nolock
shrink zero s = some (s, ok tt)
shrink (suc room) s = sfs_bmap_truncate_nolock s >>> λ s' u. shrink room s'

unfoldable pub sfs_truncfile : Sfs → ℕ → Outcome (Unit {0})
unfolding grow shrink
sfs_truncfile s len =
    let tblks = (len + sfs_blksize - 1) / sfs_blksize in
    let resized =
      if ltb s.din_blocks tblks
      then grow (tblks - s.din_blocks) s s.din_blocks
      else shrink (s.din_blocks - tblks) s in
    if leb off_t_min len || ltb sfs_max_file_size len
    then some (s, fail e_inval)
    else if s.size == len
    then assert (tblks == s.din_blocks) >> some (s, ok tt)
    else resized >>> λ s' u.
        assert (s'.din_blocks == tblks) >> some (record s' { size = len; dirty = true }, ok tt)

-- The position a file may be set to.
unfoldable pub sfs_tryseek : Sfs → ℕ → Outcome (Unit {0})
unfolding sfs_truncfile
sfs_tryseek s pos =
    if leb off_t_min pos || leb sfs_max_file_size pos
    then some (s, fail e_inval)
    else if ltb s.size pos
    then sfs_truncfile s pos
    else some (s, ok tt)
