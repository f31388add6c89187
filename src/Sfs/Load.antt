-- ===== src/Sfs/Load.antt =====
-- `sfs_bmap_load_nolock` of lab8/code/kern/fs/sfs/sfs_inode.c for the index behind the last block
-- of a file, over direct entries, an entry block and a new entry block.
use os_labs.Prelude.{
  ℕ, ◌+◌, ◌-◌, ◌<◌, ◌≡◌, ◌≢◌, inl, inr, refl, sym, ap, ◌∙◌, arith, Bool, true, false, ltb, leb,
  ◌==◌, ==-refl, Bool-cases, some, set,
}
use os_labs.Bitmap.{Bitmap}
use os_labs.Bitmap.Bits.{is_free}
use os_labs.Sfs.{Sfs, fail, ok, deliver, sfs_block_alloc}
use os_labs.Sfs.Blockmap.{
  cleanup, create_entry, set_indirect, sfs_bmap_get_sub_nolock, sfs_bmap_get_nolock,
  sfs_bmap_load_nolock,
}
use os_labs.Sfs.Freemap.{IsMounted, IsMounted-same, InUse, Taken, allocated, assert_inuse_lem}
use os_labs.Sfs.Allocate.{Freed, freed, sfs_block_alloc_lem, sfs_block_free_lem}
use os_labs.Sfs.Entry.{word_at, entry, IsFile, sfs_rbuf-entry, checked_lem, set_indirect_same}
use os_labs.Sfs.Append.{Appended, Refused, AppendOutcome, append_direct, Refused-whole, same_block}
use os_labs.Sfs.Indirect.{entered, with_entry, entered-Appended, create_entry_lem}
use os_labs.Sfs.Prepare.{existing-Prepared, fresh-Prepared}

module _ (s : Sfs) (file : IsFile s) (hi : ltb s.din_blocks 12 ≡ false)
    (lt : s.din_blocks < 1036) where
  -- The index within the entry block.
  index_below : s.din_blocks - 12 < 1024
  index_below = ground (arith, hi, lt)

  sub_existing :
      s.indirect ≢ 0
      → sfs_bmap_get_sub_nolock s s.indirect (s.din_blocks - 12) true
        ≡ create_entry
            (record s { sfs_buffer = s.disk s.indirect })
            s.indirect
            s.indirect
            (s.din_blocks - 12)
  unfolding sfs_bmap_get_sub_nolock
  sub_existing nz =
      let j = s.din_blocks - 12 in
      let e : (s.indirect == 0) ≡ false = ground (arith, nz) in
      let below = index_below in
      let g : ltb j 1024 ≡ true = ground (arith, below) in
      let back : j + 12 ≡ s.din_blocks = ground (arith, hi) in
      let p = existing-Prepared s file nz in
      let empty : word_at (s.disk s.indirect) j ≡ 0 =
        p.words j below ∙ ap (entry s) back ∙ file.beyond s.din_blocks (omega arith) lt in
      let t : (word_at (s.disk s.indirect) j == 0) ≡ true = ground (arith, empty) in
      rw (sfs_rbuf-entry s file.mounted s.indirect (file.indirect_use nz) j below, e, g, t)

  sub_fresh_none :
      s.indirect ≡ 0
      → sfs_block_alloc s ≡ some (s, fail 4)
      → sfs_bmap_get_sub_nolock s s.indirect (s.din_blocks - 12) true ≡ some (s, fail 4)
  unfolding sfs_bmap_get_sub_nolock
  sub_fresh_none z run =
      let below = index_below in
      let g : ltb (s.din_blocks - 12) 1024 ≡ true = ground (arith, below) in
      let e : (s.indirect == 0) ≡ true = ground (arith, z) in rw (run, e, g)

  sub_fresh :
      (t : Bitmap) (ent : ℕ)
      → s.indirect ≡ 0
      → sfs_block_alloc s ≡ some (allocated s t ent, ok ent)
      → sfs_bmap_get_sub_nolock s s.indirect (s.din_blocks - 12) true
        ≡ create_entry (allocated s t ent) s.indirect ent (s.din_blocks - 12)
  unfolding sfs_bmap_get_sub_nolock
  sub_fresh t ent z run =
      let below = index_below in
      let g : ltb (s.din_blocks - 12) 1024 ≡ true = ground (arith, below) in
      let e : (s.indirect == 0) ≡ true = ground (arith, z) in rw (run, e, g)

  load_failed :
      (s' : Sfs)
      → sfs_bmap_get_sub_nolock s s.indirect (s.din_blocks - 12) true ≡ some (s', fail 4)
      → sfs_bmap_load_nolock s s.din_blocks ≡ some (s', fail 4)
  unfolding sfs_bmap_load_nolock sfs_bmap_get_nolock
  load_failed s' run =
      let below = index_below in
      let g : ltb (s.din_blocks - 12) 1024 ≡ true = ground (arith, below) in
      let le : leb s.din_blocks s.din_blocks ≡ true = ground arith in
      rw (==-refl s.din_blocks, run, le, hi, g)

  -- The rest of the two functions, behind a new entry.
  load_entered :
      (s0 : Sfs) (f : Bitmap) (ent b : ℕ) (d : Bool)
      → sfs_bmap_get_sub_nolock s s.indirect (s.din_blocks - 12) true
        ≡ some (entered s0 f b ent (s.din_blocks - 12), ok (ent, b))
      → set_indirect (entered s0 f b ent (s.din_blocks - 12)) ent
        ≡ some (record (with_entry s0 f b ent (s.din_blocks - 12) d) { din_blocks = s0.din_blocks })
      → Appended s (with_entry s0 f b ent (s.din_blocks - 12) d) b
      → sfs_bmap_load_nolock s s.din_blocks
        ≡ some (with_entry s0 f b ent (s.din_blocks - 12) d, ok b)
  unfolding sfs_bmap_load_nolock sfs_bmap_get_nolock
  load_entered s0 f ent b d run set a =
      let below = index_below in
      let g : ltb (s.din_blocks - 12) 1024 ≡ true = ground (arith, below) in
      let le : leb s.din_blocks s.din_blocks ≡ true = ground arith in
      let last = with_entry s0 f b ent (s.din_blocks - 12) d in
      let early : Sfs = record last { din_blocks = s0.din_blocks } in
      let m : IsMounted early = IsMounted-same last early a.mounted refl refl refl refl in
      let v = a.used in
      let u : InUse early b = record { nonzero = v.nonzero; below = v.below; taken = v.taken } in
      rw (
        ==-refl s.din_blocks,
        run,
        set,
        checked_lem early m b u,
        le,
        hi,
        g,
        assert_inuse_lem early m b u,
      )

  cleanup_existing : (s0 : Sfs) → cleanup {A = ℕ × ℕ} s0 s.indirect s.indirect 4 ≡ some (s0, fail 4)
  unfolding cleanup
  cleanup_existing s0 = rw (==-refl s.indirect)

  append_existing : s.indirect ≢ 0 → AppendOutcome s (sfs_bmap_load_nolock s s.din_blocks)
  append_existing nz =
      let s0 : Sfs = record s { sfs_buffer = s.disk s.indirect } in
      let p = existing-Prepared s file nz in
      elim (create_entry_lem s0 s.indirect s.indirect (s.din_blocks - 12) p.mounted p.used
        index_below) [
          | inl (run, z) ↦ inl (
            s0,
            load_failed s0 (sub_existing nz ∙ run ∙ cleanup_existing s0),
            record {
              mounted = p.mounted;
              free_same = λ k. refl;
              blocks = refl;
              direct = refl;
              indirect = refl;
              contents = λ c u. refl;
              memory = refl;
              size = refl;
              super_blocks = refl;
              too_few = ground (arith, z);
            },
          )
          | inr (b, f, run, t) ↦
              let a = entered-Appended s s0 s.indirect p f b t s.dirty hi lt in
              inr (
                with_entry s0 f b s.indirect (s.din_blocks - 12) s.dirty,
                b,
                load_entered s0 f s.indirect b s.dirty (sub_existing nz ∙ run)
                    (set_indirect_same (entered s0 f b s.indirect (s.din_blocks - 12))) a,
                a,
              )
        ]

  set_fresh :
      (s1 : Sfs) (ent : ℕ)
      → s1.indirect ≡ 0
      → 0 < ent
      → set_indirect s1 ent ≡ some (record s1 { indirect = ent; dirty = true })
  unfolding set_indirect
  set_fresh s1 ent z nz =
      let e : (s1.indirect == 0) ≡ true = ground (arith, z) in
      let ne : (ent == s1.indirect) ≡ false = ground (arith, z, nz) in rw (ne, e)

  -- The new entry block is given back.
  Refused-freed :
      (g f : Bitmap) (ent : ℕ)
      → s.indirect ≡ 0
      → Taken s g ent
      → Freed (allocated s g ent) f ent
      → IsMounted (freed (allocated s g ent) f)
      → (allocated s g ent).unused_blocks ≡ 0
      → Refused s (freed (allocated s g ent) f)
  Refused-freed g f ent z t fr m left =
      let e : (s.indirect == 0) ≡ true = ground (arith, z) in
      record {
        mounted = m;
        free_same = λ k. elim (Bool-cases (k == ent)) [
          | inl at ↦
              let same : k ≡ ent = ground (arith, at) in
              fr.bit k ∙ rw at refl ∙ sym (ap (is_free s.freemap) same ∙ t.was_free)
          | inr away ↦ fr.bit k ∙ rw away (t.bit k ∙ rw away refl)
        ];
        blocks = refl;
        direct = refl;
        indirect = refl;
        contents = λ c u. same_block s ent c (deliver s.sfs_buffer 0 (λ k. 0) 4096) t.was_free u;
        memory = refl;
        size = refl;
        super_blocks = refl;
        too_few = ground (arith, left, e, hi);
      }

  cleanup_fresh :
      (g : Bitmap) (ent : ℕ)
      → s.indirect ≡ 0
      → Taken s g ent
      → (allocated s g ent).unused_blocks ≡ 0
      → (f : Bitmap) × (cleanup {A = ℕ × ℕ} (allocated s g ent) s.indirect ent 4
          ≡ some (freed (allocated s g ent) f, fail 4))
        × Refused s (freed (allocated s g ent) f)
  unfolding cleanup
  cleanup_fresh g ent z t left =
      let s0 = allocated s g ent in
      let p = fresh-Prepared s g ent file z t in
      let (f, run, fr, m) = sfs_block_free_lem s0 ent p.mounted p.used in
      let nz = t.nonzero in
      let ne : (ent == s.indirect) ≡ false = ground (arith, z, nz) in
      (f, rw (ne, run), Refused-freed g f ent z t fr m left)

  append_fresh : s.indirect ≡ 0 → AppendOutcome s (sfs_bmap_load_nolock s s.din_blocks)
  append_fresh z = elim (sfs_block_alloc_lem s file.mounted) [
    | inl (run, none_left) ↦
        inl (s, load_failed s (sub_fresh_none z run), Refused-whole s file.mounted none_left)
    | inr (ent, g, run, t) ↦
        let s0 = allocated s g ent in
        let p = fresh-Prepared s g ent file z t in
        let sub = sub_fresh g ent z run in
        elim (create_entry_lem s0 s.indirect ent (s.din_blocks - 12) p.mounted p.used index_below) [
          | inl (made, left) ↦
              let (f, cleaned, r) = cleanup_fresh g ent z t left in
              inl (freed s0 f, load_failed (freed s0 f) (sub ∙ made ∙ cleaned), r)
          | inr (b, f, made, tb) ↦
              let a = entered-Appended s s0 ent p f b tb true hi lt in
              let set = set_fresh (entered s0 f b ent (s.din_blocks - 12)) ent z t.nonzero in
              inr (
                with_entry s0 f b ent (s.din_blocks - 12) true,
                b,
                load_entered s0 f ent b true (sub ∙ made) set a,
                a,
              )
        ]
  ]

-- `sfs_bmap_load_nolock` for the index behind the last block of a file with fewer than 1036 blocks,
-- on a mounted file system, fails no assertion. Either it gives the file one block more, which was
-- free and reads as zeros, and leaves the file's other blocks and every block in use but the entry
-- block as they are; or it returns `-E_NO_MEM`, fewer blocks are free than the new block and its
-- entry block need, and the blocks of the file, what is in use and the contents of it are as
-- before.
pub sfs_bmap_load-append :
    (s : Sfs)
    → IsFile s
    → s.din_blocks < 1036
    → AppendOutcome s (sfs_bmap_load_nolock s s.din_blocks)
sfs_bmap_load-append s file lt = elim (Bool-cases (ltb s.din_blocks 12)) [
  | inl lo ↦ append_direct s file lo
  | inr hi ↦ elim (Bool-cases (s.indirect == 0)) [
    | inl z ↦ append_fresh s file hi lt (ground (arith, z))
    | inr nz ↦ append_existing s file hi lt (ground (arith, nz))
  ]
]
