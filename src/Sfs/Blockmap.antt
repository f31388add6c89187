-- ===== src/Sfs/Blockmap.antt =====
-- lab8/code/kern/fs/sfs/sfs_inode.c, `sfs_bmap_get_sub_nolock` to `sfs_bmap_truncate_nolock`: the
-- blocks of a file by their index, over 12 direct entries and one block of further ones.
use os_labs.Prelude.{
  ℕ, zero, suc, ◌+◌, ◌-◌, ◌*◌, ◌/◌, ◌%◌, Bool, true, not, ◌&&◌, ◌||◌, ltb, leb, ◌==◌, if◌then◌else◌,
  Option, none, some, ◌>>=◌, ◌>>◌, assert, update,
}
use os_labs.Strings.{Memory}
use os_labs.Sfs.{
  Sfs, fail, ok, Outcome, ◌>>>◌, try, sfs_rbuf, sfs_wbuf, assert_inuse, sfs_block_alloc,
  sfs_block_free,
}

abbrev pub sfs_ndirect : ℕ
sfs_ndirect = 12

abbrev pub sfs_blk_nentry : ℕ
sfs_blk_nentry = 1024

-- A `uint32_t` in memory, the lowest byte first, read and written.
abbrev pub read_word : Memory → ℕ
read_word b = b 0 + 256 * b 1 + 65536 * b 2 + 16777216 * b 3

abbrev pub word_bytes : ℕ → Memory
word_bytes x zero = x % 256
word_bytes x (suc zero) = x / 256 % 256
word_bytes x (suc (suc zero)) = x / 65536 % 256
word_bytes x (suc (suc (suc k))) = x / 16777216 % 256

-- The label `failed_cleanup`, with the error it returns.
unfoldable pub cleanup : {A : Type 0} → Sfs → ℕ → ℕ → ℕ → Outcome A
unfolding sfs_block_free
cleanup s entp ent e =
    let freed = sfs_block_free s ent >>= λ s'. some (s', fail e) in
    if not (ent == entp) then freed else some (s, fail e)

-- The rest of `sfs_bmap_get_sub_nolock` once an entry block is there, with a new block for `index`.
unfoldable pub create_entry : Sfs → ℕ → ℕ → ℕ → Outcome (ℕ × ℕ)
unfolding cleanup sfs_block_alloc sfs_wbuf sfs_block_free
create_entry s entp ent index =
    let write = λ (s' : Sfs) (ino : ℕ).
      try (sfs_wbuf s' (word_bytes ino) 4 ent (index * 4)) (λ s'' u. some (s'', ok (ent, ino)))
        (λ s'' e. sfs_block_free s'' ino >>= λ s3. cleanup s3 entp ent e) in
    try (sfs_block_alloc s) write (λ s' e. cleanup s' entp ent e)

-- What is returned is `*entp` and `*ino_store`.
unfoldable pub sfs_bmap_get_sub_nolock : Sfs → ℕ → ℕ → Bool → Outcome (ℕ × ℕ)
unfolding create_entry sfs_rbuf sfs_block_alloc
sfs_bmap_get_sub_nolock s entp index create =
    let existing = sfs_rbuf s 4 entp (index * 4) >>> λ s' b.
    if not (read_word b == 0) || not create
    then some (s', ok (entp, read_word b))
    else create_entry s' entp entp index in
    let fresh = sfs_block_alloc s >>> λ s' ent. create_entry s' entp ent index in
    assert (ltb index sfs_blk_nentry)
    >> (if not (entp == 0) then existing else if not create then some (s, ok (entp, 0)) else fresh)

-- The label `out` of `sfs_bmap_get_nolock`.
unfoldable pub checked : Sfs → ℕ → Outcome ℕ
unfolding assert_inuse
checked s ino = (if ino == 0 then some tt else assert_inuse s ino) >> some (s, ok ino)

-- `din->indirect` after a call that may have given the file its entry block.
unfoldable pub set_indirect : Sfs → ℕ → Option Sfs
set_indirect s ent =
    if not (ent == s.indirect)
    then assert (s.indirect == 0) >> some (record s { indirect = ent; dirty = true })
    else some s

unfoldable pub sfs_bmap_get_nolock : Sfs → ℕ → Bool → Outcome ℕ
unfolding sfs_bmap_get_sub_nolock sfs_block_alloc checked set_indirect
sfs_bmap_get_nolock s index create =
    let fresh = sfs_block_alloc s >>> λ s' b.
    checked (record s' { direct = update s'.direct index b; dirty = true }) b in
    let below = sfs_bmap_get_sub_nolock s s.indirect (index - sfs_ndirect) create >>> λ s' p.
    set_indirect s' p.0 >>= λ s''. checked s'' p.1 in
    if ltb index sfs_ndirect
    then (if s.direct index == 0 && create then fresh else checked s (s.direct index))
    else if ltb (index - sfs_ndirect) sfs_blk_nentry
    then below
    else none

unfoldable pub sfs_bmap_load_nolock : Sfs → ℕ → Outcome ℕ
unfolding sfs_bmap_get_nolock assert_inuse
sfs_bmap_load_nolock s index =
    let create = index == s.din_blocks in
    assert (leb index s.din_blocks)
    >> (sfs_bmap_get_nolock s index create >>> λ s' b.
        assert_inuse s' b
        >> some (if create then record s' { din_blocks = s'.din_blocks + 1 } else s', ok b))

unfoldable pub sfs_bmap_free_sub_nolock : Sfs → ℕ → ℕ → Outcome (Unit {0})
unfolding assert_inuse sfs_rbuf sfs_wbuf sfs_block_free
sfs_bmap_free_sub_nolock s ent index =
    assert_inuse s ent
    >> assert (ltb index sfs_blk_nentry)
    >> (sfs_rbuf s 4 ent (index * 4) >>> λ s' b.
        let released = sfs_wbuf s' (word_bytes 0) 4 ent (index * 4) >>> λ s'' u.
        sfs_block_free s'' (read_word b) >>= λ s3. some (s3, ok tt) in
        if not (read_word b == 0) then released else some (s', ok tt))

unfoldable pub sfs_bmap_free_nolock : Sfs → ℕ → Outcome (Unit {0})
unfolding sfs_block_free sfs_bmap_free_sub_nolock
sfs_bmap_free_nolock s index =
    let here = sfs_block_free s (s.direct index) >>= λ s'.
    some (record s' { direct = update s'.direct index 0; dirty = true }, ok tt) in
    if ltb index sfs_ndirect
    then (if not (s.direct index == 0) then here else some (s, ok tt))
    else if ltb (index - sfs_ndirect) sfs_blk_nentry && not (s.indirect == 0)
    then sfs_bmap_free_sub_nolock s s.indirect (index - sfs_ndirect)
    else some (s, ok tt)

unfoldable pub sfs_bmap_truncate_nolock : Sfs → Outcome (Unit {0})
unfolding sfs_bmap_free_nolock
sfs_bmap_truncate_nolock s =
    assert (not (s.din_blocks == 0))
    >> (sfs_bmap_free_nolock s (s.din_blocks - 1) >>> λ s' u.
        some (record s' { din_blocks = s'.din_blocks - 1; dirty = true }, ok tt))
