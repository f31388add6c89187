-- ===== src/Sfs/Entry.antt =====
-- The blocks of a file of lab8/code/kern/fs/sfs/sfs_inode.c by index, and `sfs_bmap_load_nolock`
-- for an index that has a block.
use os_labs.Prelude.{
  ℕ, ◌+◌, ◌-◌, ◌*◌, ◌≤◌, ◌<◌, ◌≡◌, ◌≢◌, inl, inr, refl, sym, ◌∙◌, arith, Bool, true, false, not,
  ◌||◌, ltb, leb, ◌==◌, ==-refl, if◌then◌else◌, Bool-cases, some, update,
}
use os_labs.Strings.{Memory}
use os_labs.Strings.Move.{within}
use os_labs.Sfs.{Sfs, ok, deliver, part_allowed, sfs_rbuf, sfs_wbuf}
use os_labs.Sfs.Blockmap.{
  read_word, word_bytes, checked, set_indirect, sfs_bmap_get_sub_nolock, sfs_bmap_get_nolock,
  sfs_bmap_load_nolock,
}
use os_labs.Sfs.Freemap.{
  IsMounted, IsMounted-same, InUse, assert_inuse_lem, read_block_lem, write_block_lem,
}

-- Word `j` of a block.
abbrev pub word_at : Memory → ℕ → ℕ
word_at bytes j = read_word (λ k. bytes (j * 4 + k))

-- The block of the file at an index, 0 if there is none.
abbrev pub entry : Sfs → ℕ → ℕ
entry s i =
    if ltb i 12
    then s.direct i
    else if s.indirect == 0
    then 0
    else word_at (s.disk s.indirect) (i - 12)

-- The file of an inode in memory on a mounted file system: each of its blocks is in use, no two are
-- the same, none is its entry block, and behind the last one there are none.
pub record IsFile (s : Sfs) : Type 0 where
  pub mounted : IsMounted s
  pub blocks_max : s.din_blocks ≤ 1036
  pub in_use : (i : ℕ) → i < s.din_blocks → InUse s (entry s i)
  pub beyond : (i : ℕ) → s.din_blocks ≤ i → i < 1036 → entry s i ≡ 0
  pub indirect_use : s.indirect ≢ 0 → InUse s s.indirect
  pub separate : (i : ℕ) → i < s.din_blocks → entry s i ≢ s.indirect
  pub distinct : (i j : ℕ) → i < s.din_blocks → j < s.din_blocks → i ≢ j → entry s i ≢ entry s j

-- A word that is written reads back.
pub read_word-word_bytes : (x : ℕ) → x < 4294967296 → read_word (word_bytes x) ≡ x
read_word-word_bytes x h = omega arith

-- One word written to a block changes no other word.
pub word_at-deliver :
    (old : Memory) (n j x : ℕ)
    → x < 4294967296
    → word_at (deliver old (n * 4) (word_bytes x) 4) j ≡ (if j == n then x else word_at old j)
word_at-deliver old n j x h = elim (Bool-cases (j == n)) [
  | inl e ↦
      let same : j ≡ n = ground (arith, e) in
      let b0 : within (n * 4) 4 (j * 4 + 0) ≡ true = ground (arith, same) in
      let b1 : within (n * 4) 4 (j * 4 + 1) ≡ true = ground (arith, same) in
      let b2 : within (n * 4) 4 (j * 4 + 2) ≡ true = ground (arith, same) in
      let b3 : within (n * 4) 4 (j * 4 + 3) ≡ true = ground (arith, same) in
      let d0 : j * 4 + 0 - n * 4 ≡ 0 = omega (arith, same) in
      let d1 : j * 4 + 1 - n * 4 ≡ 1 = omega (arith, same) in
      let d2 : j * 4 + 2 - n * 4 ≡ 2 = omega (arith, same) in
      let d3 : j * 4 + 3 - n * 4 ≡ 3 = omega (arith, same) in
      rw (e, b0, b1, b2, b3, d0, d1, d2, d3) (read_word-word_bytes x h)
  | inr e ↦
      let ne : j ≢ n = ground (arith, e) in
      let b0 : within (n * 4) 4 (j * 4 + 0) ≡ false = ground (arith, ne) in
      let b1 : within (n * 4) 4 (j * 4 + 1) ≡ false = ground (arith, ne) in
      let b2 : within (n * 4) 4 (j * 4 + 2) ≡ false = ground (arith, ne) in
      let b3 : within (n * 4) 4 (j * 4 + 3) ≡ false = ground (arith, ne) in rw (e, b0, b1, b2, b3)
]

entry_part : (j : ℕ) → j < 1024 → part_allowed 4 (j * 4) ≡ true
unfolding part_allowed
entry_part j h = ground (arith, h)

-- A word of the entry block is read.
pub sfs_rbuf-entry :
    (s : Sfs) (m : IsMounted s) (b : ℕ) (u : InUse s b) (j : ℕ)
    → j < 1024
    → sfs_rbuf s 4 b (j * 4)
      ≡ some (record s { sfs_buffer = s.disk b }, ok (λ k. s.disk b (j * 4 + k)))
unfolding sfs_rbuf
sfs_rbuf-entry s m b u j h = rw (entry_part j h, read_block_lem s m b u.nonzero u.below)

-- A word of the entry block is written.
pub sfs_wbuf-entry :
    (s : Sfs) (m : IsMounted s) (b : ℕ) (u : InUse s b) (j x : ℕ)
    → j < 1024
    → let new = deliver (s.disk b) (j * 4) (word_bytes x) 4 in
      sfs_wbuf s (word_bytes x) 4 b (j * 4)
      ≡ some (record s { sfs_buffer = new; disk = update s.disk b new }, ok tt)
unfolding sfs_wbuf
sfs_wbuf-entry s m b u j x h =
    let new = deliver (s.disk b) (j * 4) (word_bytes x) 4 in
    let m' : IsMounted (record s { sfs_buffer = new }) =
      IsMounted-same s (record s { sfs_buffer = new }) m refl refl refl refl in
    rw (
      entry_part j h,
      read_block_lem s m b u.nonzero u.below,
      write_block_lem (record s { sfs_buffer = new }) m' b u.nonzero u.below new,
    )

pub IsFile-word : (s : Sfs) → IsFile s → (i : ℕ) → i < s.din_blocks → entry s i ≢ 0
IsFile-word s f i h e = let nz = (f.in_use i h).nonzero in omega (arith, nz, e)

-- A file with a block from index 12 on has an entry block.
pub IsFile-indirect :
    (s : Sfs) → IsFile s → (i : ℕ) → i < s.din_blocks → ltb i 12 ≡ false → s.indirect ≢ 0
IsFile-indirect s f i h e z =
    let none : (s.indirect == 0) ≡ true = ground (arith, z) in IsFile-word s f i h (rw (e, none))

pub IsMounted-buffer :
    (s : Sfs) (b : Memory) → IsMounted s → IsMounted (record s { sfs_buffer = b })
IsMounted-buffer s b m = IsMounted-same s (record s { sfs_buffer = b }) m refl refl refl refl

pub checked_lem : (s : Sfs) → IsMounted s → (b : ℕ) → InUse s b → checked s b ≡ some (s, ok b)
unfolding checked
checked_lem s m b u = elim (Bool-cases (b == 0)) [
  | inl e ↦ rw e
  | inr e ↦ rw (assert_inuse_lem s m b u, e)
]

pub set_indirect_same : (s : Sfs) → set_indirect s s.indirect ≡ some s
unfolding set_indirect
set_indirect_same s = rw (==-refl s.indirect)

Bool_or_true : (b : Bool) → (b || true) ≡ true
Bool_or_true true = refl
Bool_or_true false = refl

get_direct :
    (s : Sfs) (f : IsFile s) (i : ℕ)
    → i < s.din_blocks
    → ltb i 12 ≡ true
    → sfs_bmap_get_nolock s i false ≡ some (s, ok (entry s i))
unfolding sfs_bmap_get_nolock
get_direct s f i h e =
    let here : entry s i ≡ s.direct i = rw e in
    let nz : s.direct i ≢ 0 = λ z. IsFile-word s f i h (here ∙ z) in
    let t : (s.direct i == 0) ≡ false = ground (arith, nz) in
    let u : InUse s (s.direct i) = rw (sym here) (f.in_use i h) in
    rw (checked_lem s f.mounted (s.direct i) u, e, t)

get_indirect :
    (s : Sfs) (f : IsFile s) (i : ℕ)
    → i < s.din_blocks
    → ltb i 12 ≡ false
    → sfs_bmap_get_nolock s i false
      ≡ some (record s { sfs_buffer = s.disk s.indirect }, ok (entry s i))
unfolding sfs_bmap_get_nolock sfs_bmap_get_sub_nolock
get_indirect s f i h e =
    let nz : s.indirect ≢ 0 = IsFile-indirect s f i h e in
    let t : (s.indirect == 0) ≡ false = ground (arith, nz) in
    let here : entry s i ≡ word_at (s.disk s.indirect) (i - 12) = rw (e, t) in
    let u = f.indirect_use nz in
    let mx = f.blocks_max in
    let lt : i - 12 < 1024 = omega (arith, h, mx) in
    let g : ltb (i - 12) 1024 ≡ true = ground (arith, lt) in
    let s' : Sfs = record s { sfs_buffer = s.disk s.indirect } in
    let m' : IsMounted s' = IsMounted-buffer s (s.disk s.indirect) f.mounted in
    let used = f.in_use i h in
    let u' : InUse s' (word_at (s.disk s.indirect) (i - 12)) =
      rw (sym here) (record { nonzero = used.nonzero; below = used.below; taken = used.taken }) in
    rw (
      sfs_rbuf-entry s f.mounted s.indirect u (i - 12) lt,
      e,
      g,
      t,
      Bool_or_true (not (word_at (s.disk s.indirect) (i - 12) == 0)),
      set_indirect_same s',
      checked_lem s' m' (word_at (s.disk s.indirect) (i - 12)) u',
    )

-- The file system after the block of an index was looked up: only its buffer has changed.
abbrev pub looked_up : Sfs → ℕ → Sfs
looked_up s i = record s { sfs_buffer = if ltb i 12 then s.sfs_buffer else s.disk s.indirect }

get_lem :
    (s : Sfs) (f : IsFile s) (i : ℕ)
    → i < s.din_blocks
    → sfs_bmap_get_nolock s i false ≡ some (looked_up s i, ok (entry s i))
get_lem s f i h = elim (Bool-cases (ltb i 12)) [
  | inl e ↦ get_direct s f i h e ∙ rw e
  | inr e ↦ get_indirect s f i h e ∙ rw e
]

-- `sfs_bmap_load_nolock` for an index that has a block returns that block. It fails no assertion,
-- returns no error and changes nothing but the file system's buffer.
pub sfs_bmap_load_lem :
    (s : Sfs)
    → IsFile s
    → (i : ℕ) → i < s.din_blocks
    → sfs_bmap_load_nolock s i ≡ some (looked_up s i, ok (entry s i))
unfolding sfs_bmap_load_nolock
sfs_bmap_load_lem s f i h =
    let u = f.in_use i h in
    let used : InUse (looked_up s i) (entry s i) = record {
      nonzero = u.nonzero;
      below = u.below;
      taken = u.taken;
    } in
    let m : IsMounted (looked_up s i) = IsMounted-buffer s (looked_up s i).sfs_buffer f.mounted in
    let asserted = assert_inuse_lem (looked_up s i) m (entry s i) used in
    let le : leb i s.din_blocks ≡ true = ground (arith, h) in
    let ne : (i == s.din_blocks) ≡ false = ground (arith, h) in
    rw (ne, get_lem s f i h, asserted, le)
