-- ===== src/Sfs/Directory.antt =====
-- `sfs_dirent_read_nolock`, `sfs_dirent_findino_nolock` and `sfs_getdirentry_sub_nolock` of
-- lab8/code/kern/fs/sfs/sfs_inode.c: the entries of a directory, one in each block.
use os_labs.Prelude.{
  ℕ, zero, suc, ◌+◌, ◌-◌, ◌≤◌, ◌<◌, ◌≡◌, inl, inr, refl, arith, true, false, not, ◌&&◌, ltb, ◌==◌,
  if◌then◌else◌, Bool-cases, Option, none, some, ◌>>◌, assert, update, List, [], ◌∷◌, get_elem?,
}
use os_labs.Strings.{Memory}
use os_labs.Sfs.{Sfs, Ret, fail, ok, Outcome, ◌>>>◌, part_allowed, sfs_rbuf, assert_inuse}
use os_labs.Sfs.Blockmap.{read_word, sfs_bmap_load_nolock}
use os_labs.Sfs.File.{sfs_type_dir}
use os_labs.Sfs.Freemap.{IsMounted, InUse, assert_inuse_lem, read_block_lem}
use os_labs.Sfs.Entry.{entry, IsFile, looked_up, sfs_bmap_load_lem}
use os_labs.Sfs.Read.{with_memory, IsFile-memory, IsMounted-memory}

abbrev pub e_noent : ℕ
e_noent = 16

-- `sizeof(struct sfs_disk_entry)`: a word and SFS_MAX_FNAME_LEN + 1 bytes.
abbrev pub dirent_size : ℕ
dirent_size = 260

-- The bytes of `*entry`; the last one is the end of the name.
unfoldable pub sfs_dirent_read_nolock : Sfs → ℕ → Outcome Memory
unfolding sfs_bmap_load_nolock assert_inuse sfs_rbuf
sfs_dirent_read_nolock s slot =
    assert (s.type == sfs_type_dir && ltb slot s.din_blocks)
    >> (sfs_bmap_load_nolock s slot >>> λ s' b.
        assert_inuse s' b
        >> (sfs_rbuf s' dirent_size b 0 >>> λ s'' e. some (s'', ok (update e 259 0))))

-- The loop from slot `i` on, over `room` slots. What is returned is `*entry`.
unfoldable pub findino_from : ℕ → Sfs → ℕ → ℕ → Outcome Memory
unfolding sfs_dirent_read_nolock
findino_from zero s i ino = some (s, fail e_noent)
findino_from (suc room) s i ino = sfs_dirent_read_nolock s i >>> λ s' e.
    let rest = findino_from room s' (i + 1) ino in
    if read_word e == ino then some (s', ok e) else rest

unfoldable pub sfs_dirent_findino_nolock : Sfs → ℕ → Outcome Memory
unfolding findino_from
sfs_dirent_findino_nolock s ino = findino_from s.din_blocks s 0 ino

unfoldable pub getdirentry_from : ℕ → Sfs → ℕ → ℕ → Outcome Memory
unfolding sfs_dirent_read_nolock
getdirentry_from zero s i slot = some (s, fail e_noent)
getdirentry_from (suc room) s i slot = sfs_dirent_read_nolock s i >>> λ s' e.
    let rest = getdirentry_from room s' (i + 1) slot in
    let later = getdirentry_from room s' (i + 1) (slot - 1) in
    if not (read_word e == 0) then (if slot == 0 then some (s', ok e) else later) else rest

unfoldable pub sfs_getdirentry_sub_nolock : Sfs → ℕ → Outcome Memory
unfolding getdirentry_from
sfs_getdirentry_sub_nolock s slot = getdirentry_from s.din_blocks s 0 slot

-- The entry in a slot of a directory.
abbrev pub dirent : Sfs → ℕ → Memory
dirent s i = update (λ k. s.disk (entry s i) (0 + k)) 259 0

-- A slot is read without an error, and only the file system's buffer changes.
dirent_read :
    (s : Sfs) (i : ℕ)
    → IsFile s
    → s.type ≡ 2
    → i < s.din_blocks
    → sfs_dirent_read_nolock s i
      ≡ some (with_memory s (s.disk (entry s i)) s.memory, ok (dirent s i))
unfolding sfs_dirent_read_nolock sfs_rbuf part_allowed
dirent_read s i f dir h =
    let s1 = looked_up s i in
    let m1 : IsMounted s1 = IsMounted-memory s s1.sfs_buffer s.memory f.mounted in
    let u = f.in_use i h in
    let u1 : InUse s1 (entry s i) = record {
      nonzero = u.nonzero;
      below = u.below;
      taken = u.taken;
    } in
    let guard : (s.type == 2 && ltb i s.din_blocks) ≡ true = ground (arith, dir, h) in
    rw (
      sfs_bmap_load_lem s f i h,
      assert_inuse_lem s1 m1 (entry s i) u1,
      read_block_lem s1 m1 (entry s i) u.nonzero u.below,
      guard,
    )

-- The entries of `room` slots from `i` on.
unfoldable pub slots : Sfs → ℕ → ℕ → List Memory
slots s zero i = []
slots s (suc room) i = dirent s i ∷ slots s room (i + 1)

-- The entries that name a file, in their order.
unfoldable pub used : List Memory → List Memory
used [] = []
used (e ∷ es) = if read_word e == 0 then used es else e ∷ used es

-- The first entry for an inode.
unfoldable pub first_of : ℕ → List Memory → Option Memory
first_of ino [] = none
first_of ino (e ∷ es) = if read_word e == ino then some e else first_of ino es

-- What the caller gets: the entry, or -E_NOENT.
abbrev pub answer : Option Memory → Ret Memory
answer none = fail e_noent
answer (some e) = ok e

-- The call returns `r`, and changes nothing but the file system's buffer.
abbrev pub Returns : Sfs → Outcome Memory → Ret Memory → Type 0
Returns s o r = (x : Memory) × o ≡ some (with_memory s x s.memory, r)

findino_from_lem :
    (room : ℕ) (s : Sfs) (i ino : ℕ)
    → IsFile s
    → s.type ≡ 2
    → i + room ≤ s.din_blocks
    → Returns s (findino_from room s i ino) (answer (first_of ino (slots s room i)))
unfolding findino_from slots first_of
findino_from_lem zero s i ino f dir h = (s.sfs_buffer, refl)
findino_from_lem (suc room) s i ino f dir h =
    let x = s.disk (entry s i) in
    let lt : i < s.din_blocks = omega (arith, h) in
    let (y, rest) =
      findino_from_lem room (with_memory s x s.memory) (i + 1) ino (IsFile-memory s x s.memory f)
        dir (omega (arith, h)) in
    elim (Bool-cases (read_word (dirent s i) == ino)) [
      | inl here ↦ (x, rw (dirent_read s i f dir lt, here))
      | inr away ↦ (y, rw (dirent_read s i f dir lt, away, rest))
    ]

getdirentry_from_lem :
    (room : ℕ) (s : Sfs) (i slot : ℕ)
    → IsFile s
    → s.type ≡ 2
    → i + room ≤ s.din_blocks
    → Returns s (getdirentry_from room s i slot) (answer (get_elem? (used (slots s room i)) slot))
unfolding getdirentry_from slots used
getdirentry_from_lem zero s i slot f dir h = (s.sfs_buffer, refl)
getdirentry_from_lem (suc room) s i slot f dir h =
    let x = s.disk (entry s i) in
    let lt : i < s.din_blocks = omega (arith, h) in
    let next = λ (n : ℕ).
      getdirentry_from_lem room (with_memory s x s.memory) (i + 1) n (IsFile-memory s x s.memory f)
        dir (omega (arith, h)) in
    elim (Bool-cases (read_word (dirent s i) == 0)) [
      | inl free ↦ let (y, rest) = next slot in (y, rw (dirent_read s i f dir lt, free, rest))
      | inr taken ↦
          elim slot
            as (λ k.
              Returns s (getdirentry_from (suc room) s i k)
                (answer (get_elem? (used (slots s (suc room) i)) k))) [
                  | zero ↦ (x, rw (dirent_read s i f dir lt, taken))
                  | suc n ↦
                      let (y, rest) = next n in
                      let more : (suc n == 0) ≡ false = ground arith in
                      let left : suc n - 1 ≡ n = omega arith in
                      (y, rw (dirent_read s i f dir lt, taken, more, left, rest))
                ]
    ]

-- For a directory whose blocks are in use, with one entry in each: sfs_dirent_findino_nolock
-- returns the first entry with the inode number, and sfs_getdirentry_sub_nolock the entry that has
-- `slot` entries with an inode number other than 0 before it and such a number itself; either
-- returns -E_NOENT if there is none. They fail no assertion and change nothing but the buffer.
pub dirents_found :
    (s : Sfs) (ino slot : ℕ)
    → IsFile s
    → s.type ≡ 2
    → Returns s (sfs_dirent_findino_nolock s ino) (answer (first_of ino (slots s s.din_blocks 0)))
      × Returns s
          (sfs_getdirentry_sub_nolock s slot)
          (answer (get_elem? (used (slots s s.din_blocks 0)) slot))
unfolding sfs_dirent_findino_nolock sfs_getdirentry_sub_nolock
dirents_found s ino slot f dir = (
  findino_from_lem s.din_blocks s 0 ino f dir (omega arith),
  getdirentry_from_lem s.din_blocks s 0 slot f dir (omega arith),
)
