-- ===== src/Files.antt =====
-- lab8/code/kern/fs/file.c, the open files of a process, with the counts of inodes of vfs/inode.c
-- and `vfs_close` of vfs/vfsfile.c beside it. A `struct file *` is the index of the entry, and an
-- inode a number. The process has a table, as `get_fd_array` asserts. What a file system does when
-- a count of an inode reaches 0 (`vop_close`, `vop_reclaim`) is not modelled.
pub mod Counts
pub mod Valid
pub mod Alloc
pub mod Close
pub mod Dup
mod Tests
use os_labs.Prelude.{
  ℕ, zero, suc, ◌+◌, ◌-◌, Bool, true, false, not, ◌&&◌, ◌||◌, ltb, ◌==◌, if◌then◌else◌, Option,
  none, some, ◌>>=◌, ◌>>◌, assert, update, ℤ, pos, negsuc,
}

pub data Status : Type 0 where
  fd_none fd_init fd_opened fd_closed : Status

abbrev pub is_none : Status → Bool
is_none fd_none = true
is_none fd_init = false
is_none fd_opened = false
is_none fd_closed = false

abbrev pub is_init : Status → Bool
is_init fd_init = true
is_init fd_none = false
is_init fd_opened = false
is_init fd_closed = false

abbrev pub is_opened : Status → Bool
is_opened fd_opened = true
is_opened fd_none = false
is_opened fd_init = false
is_opened fd_closed = false

abbrev pub is_closed : Status → Bool
is_closed fd_closed = true
is_closed fd_none = false
is_closed fd_init = false
is_closed fd_opened = false

-- `struct file`; a `node` of `none` is NULL.
pub record File : Type 0 where
  pub status : Status
  pub readable : Bool
  pub writable : Bool
  pub fd : ℕ
  pub offset : ℕ
  pub node : Option ℕ
  pub open_count : ℕ

pub record Inode : Type 0 where
  pub ref_count : ℕ
  pub opens : ℕ

-- The table has `nentry`, `FILES_STRUCT_NENTRY`, entries.
pub record Files : Type 0 where
  pub fd_array : ℕ → File
  pub nentry : ℕ
  pub inodes : ℕ → Inode

abbrev pub set_file : Files → ℕ → File → Files
set_file s i f = record s { fd_array = update s.fd_array i f }

abbrev pub set_inode : Files → ℕ → Inode → Files
set_inode s n x = record s { inodes = update s.inodes n x }

unfoldable pub inode_ref_inc : Files → ℕ → Files
inode_ref_inc s n = set_inode s n (record (s.inodes n) { ref_count = (s.inodes n).ref_count + 1 })

unfoldable pub inode_ref_dec : Files → ℕ → Option Files
inode_ref_dec s n =
    assert (ltb 0 (s.inodes n).ref_count)
    >> some (set_inode s n (record (s.inodes n) { ref_count = (s.inodes n).ref_count - 1 }))

unfoldable pub inode_open_inc : Files → ℕ → Files
inode_open_inc s n = set_inode s n (record (s.inodes n) { opens = (s.inodes n).opens + 1 })

unfoldable pub inode_open_dec : Files → ℕ → Option Files
inode_open_dec s n =
    assert (ltb 0 (s.inodes n).opens)
    >> some (set_inode s n (record (s.inodes n) { opens = (s.inodes n).opens - 1 }))

-- A NULL inode fails.
unfoldable pub vfs_close : Files → Option ℕ → Option Files
unfolding inode_open_dec inode_ref_dec
vfs_close s none = none
vfs_close s (some n) = inode_open_dec s n >>= λ s'. inode_ref_dec s' n

-- The loop of `fd_array_init`, over the entries from `fd` on.
unfoldable pub init_entries : ℕ → (ℕ → File) → ℕ → ℕ → File
init_entries zero files fd = files
init_entries (suc room) files fd =
    init_entries room
      (update files fd (record (files fd) { open_count = 0; status = fd_none; fd = fd })) (fd + 1)

unfoldable pub fd_array_init : Files → Files
unfolding init_entries
fd_array_init s = record s { fd_array = init_entries s.nentry s.fd_array 0 }

-- `NO_FD`
abbrev pub is_no_fd : ℤ → Bool
is_no_fd (pos n) = false
is_no_fd (negsuc k) = k + 1 == 0x9527

abbrev pub testfd : Files → ℤ → Option ℕ
testfd s (pos n) = if ltb n s.nentry then some n else none
testfd s (negsuc k) = none

-- The loop of `fd_array_alloc` over the `room` entries from `fd` on.
unfoldable pub find_none : ℕ → (ℕ → File) → ℕ → Option ℕ
find_none zero files fd = none
find_none (suc room) files fd =
    let rest = find_none room files (fd + 1) in if is_none (files fd).status then some fd else rest

-- What `fd_array_alloc` returns: 0 with the entry, `-E_MAX_OPEN`, `-E_BUSY` or `-E_INVAL`.
pub data AllocResult : Type 0 where
  found : ℕ → AllocResult
  max_open busy invalid : AllocResult

unfoldable pub take_entry : Files → ℕ → Option (Files × AllocResult)
take_entry s i =
    assert ((s.fd_array i).open_count == 0)
    >> some (set_file s i (record (s.fd_array i) { status = fd_init; node = none }), found i)

unfoldable pub fd_array_alloc : Files → ℤ → Option (Files × AllocResult)
fd_array_alloc s fd =
    if is_no_fd fd
    then elim (find_none s.nentry s.fd_array 0) [
      | none ↦ some (s, max_open)
      | some i ↦ take_entry s i
    ]
    else elim (testfd s fd) [
      | none ↦ some (s, invalid)
      | some i ↦ if is_none (s.fd_array i).status then take_entry s i else some (s, busy)
    ]

unfoldable pub fd_array_free : Files → ℕ → Option Files
fd_array_free s i =
    let file = s.fd_array i in
    assert (is_init file.status || is_closed file.status)
    >> (assert (file.open_count == 0)
        >> ((if is_closed file.status then vfs_close s file.node else some s) >>= λ s'.
            some (set_file s' i (record (s'.fd_array i) { status = fd_none }))))

unfoldable pub fd_array_acquire : Files → ℕ → Option Files
fd_array_acquire s i =
    assert (is_opened (s.fd_array i).status)
    >> some (set_file s i (record (s.fd_array i) { open_count = (s.fd_array i).open_count + 1 }))

-- `fopen_count_dec`, and `fd_array_free` where the count has come to 0.
unfoldable pub drop_open : Files → ℕ → Option Files
drop_open s i =
    let file = record (s.fd_array i) { open_count = (s.fd_array i).open_count - 1 } in
    let s1 = set_file s i file in if file.open_count == 0 then fd_array_free s1 i else some s1

unfoldable pub fd_array_release : Files → ℕ → Option Files
fd_array_release s i =
    let file = s.fd_array i in
    assert (is_opened file.status || is_closed file.status)
    >> (assert (ltb 0 file.open_count) >> drop_open s i)

abbrev pub is_null : Option ℕ → Bool
is_null none = true
is_null (some n) = false

unfoldable pub fd_array_open : Files → ℕ → Option Files
fd_array_open s i =
    let file = s.fd_array i in
    assert (is_init file.status && not (is_null file.node))
    >> some (set_file s i (record file { status = fd_opened; open_count = file.open_count + 1 }))

unfoldable pub fd_array_close : Files → ℕ → Option Files
fd_array_close s i =
    let file = s.fd_array i in
    assert (is_opened file.status)
    >> (assert (ltb 0 file.open_count)
        >> drop_open (set_file s i (record file { status = fd_closed })) i)

unfoldable pub fd_array_dup : Files → ℕ → ℕ → Option Files
unfolding inode_ref_inc inode_open_inc
fd_array_dup s to from =
    let source = s.fd_array from in
    let copy = record (s.fd_array to) {
      offset = source.offset;
      readable = source.readable;
      writable = source.writable;
      node = source.node;
    } in
    assert (is_init (s.fd_array to).status && is_opened source.status) >> elim source.node [
      | none ↦ none
      | some n ↦ fd_array_open (set_file (inode_open_inc (inode_ref_inc s n) n) to copy) to
    ]

-- `none` is `-E_INVAL`.
unfoldable pub fd2file : Files → ℤ → Option ℕ
fd2file s fd = testfd s fd >>= λ i.
    if is_opened (s.fd_array i).status && (s.fd_array i).fd == i then some i else none

unfoldable pub file_testfd : Files → ℤ → Bool → Bool → Bool
file_testfd s fd readable writable = elim (fd2file s fd) [
  | none ↦ false
  | some i ↦
      if readable && not (s.fd_array i).readable
      then false
      else if writable && not (s.fd_array i).writable
      then false
      else true
]

-- The flag is whether 0 is returned.
unfoldable pub file_close : Files → ℤ → Option (Files × Bool)
file_close s fd = elim (fd2file s fd) [
  | none ↦ some (s, false)
  | some i ↦ fd_array_close s i >>= λ s'. some (s', true)
]

-- The descriptor returned; `invalid` also stands for the failure of `fd2file`.
unfoldable pub file_dup : Files → ℤ → ℤ → Option (Files × AllocResult)
file_dup s fd1 fd2 = elim (fd2file s fd1) [
  | none ↦ some (s, invalid)
  | some i1 ↦ fd_array_alloc s fd2 >>= λ r. elim r.1 [
    | found i2 ↦ fd_array_dup r.0 i2 i1 >>= λ s'. some (s', found (s'.fd_array i2).fd)
    | max_open ↦ some r
    | busy ↦ some r
    | invalid ↦ some r
  ]
]
