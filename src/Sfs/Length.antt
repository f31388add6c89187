-- ===== src/Sfs/Length.antt =====
-- `sfs_truncfile` of lab8/code/kern/fs/sfs/sfs_inode.c: how a file gets a new length.
use os_labs.Prelude.{
  ℕ, zero, suc, ◌+◌, ◌-◌, ◌/◌, ◌≤◌, ◌<◌, ◌≡◌, ◌≢◌, ◌⊎◌, inl, inr, refl, ap, ◌∙◌, arith, true, false,
  ◌||◌, ltb, leb, ◌==◌, if◌then◌else◌, Bool-cases, some, ◌>>◌, assert,
}
use os_labs.Sfs.{Sfs, fail, ok, Outcome, ◌>>>◌}
use os_labs.Sfs.Blockmap.{sfs_bmap_load_nolock, sfs_bmap_truncate_nolock}
use os_labs.Sfs.File.{grow, shrink, sfs_truncfile}
use os_labs.Sfs.Freemap.{IsMounted-same}
use os_labs.Sfs.Entry.{entry, IsFile}
use os_labs.Sfs.Load.{sfs_bmap_load-append}
use os_labs.Sfs.Truncate.{sfs_bmap_truncate_lem}
use os_labs.Sfs.Resize.{
  block_byte, Resized, Resized-refl, Resized-trans, Appended-Resized, Shortened-Resized,
  Refused-Resized,
}

-- What a call that resizes the file to `n` blocks does: it does so, or it runs out of free blocks
-- on the way.
abbrev pub ResizeOutcome : Sfs → ℕ → Outcome (Unit {0}) → Type 0
ResizeOutcome s n run =
    ((s' : Sfs) × (run ≡ some (s', ok tt)) × (s'.din_blocks ≡ n) × Resized s s')
    ⊎ ((s' : Sfs) × (run ≡ some (s', fail 4)) × (s'.din_blocks < n) × Resized s s')

grow_step :
    (room : ℕ) (s s1 : Sfs) (n b : ℕ)
    → sfs_bmap_load_nolock s n ≡ some (s1, ok b)
    → grow (suc room) s n ≡ grow room s1 (n + 1)
unfolding grow
grow_step room s s1 n b run = rw run

grow_fails :
    (room : ℕ) (s s1 : Sfs) (n : ℕ)
    → sfs_bmap_load_nolock s n ≡ some (s1, fail 4)
    → grow (suc room) s n ≡ some (s1, fail 4)
unfolding grow
grow_fails room s s1 n run = rw run

grow_lem :
    (room : ℕ) (s : Sfs) (n : ℕ)
    → IsFile s
    → n ≡ s.din_blocks
    → n + room ≤ 1036
    → (s' : Sfs) × (s.din_blocks ≤ s'.din_blocks)
      × Resized s s'
      × (((grow room s n ≡ some (s', ok tt)) × (s'.din_blocks ≡ n + room))
          ⊎ ((grow room s n ≡ some (s', fail 4)) × (s'.din_blocks < n + room)))
unfolding grow
grow_lem zero s n f e le = (s, omega arith, Resized-refl s f, inl (refl, omega (arith, e)))
grow_lem (suc room) s n f e le = elim (sfs_bmap_load-append s f (omega (arith, e, le))) [
  | inl (s1, run, r) ↦
      let same = r.blocks in
      (
        s1,
        omega (arith, same),
        Refused-Resized s s1 f r,
        inr (grow_fails room s s1 n (ap (sfs_bmap_load_nolock s) e ∙ run), omega (arith, same, e)),
      )
  | inr (s1, b, run, a) ↦
      let more = a.blocks in
      let at_last : sfs_bmap_load_nolock s n ≡ sfs_bmap_load_nolock s s.din_blocks =
        ap (sfs_bmap_load_nolock s) e in
      let r1 = Appended-Resized s s1 b f a (omega (arith, e, le)) in
      let (s2, ge, r2, out) =
        grow_lem room s1 (n + 1) r1.file (omega (arith, e, more)) (omega (arith, le)) in
      (
        s2,
        omega (arith, ge, more),
        Resized-trans s s1 s2 r1 r2 (inr (omega (arith, more))),
        elim out [
          | inl (rest, all) ↦
              inl (grow_step room s s1 n b (at_last ∙ run) ∙ rest, omega (arith, all))
          | inr (rest, few) ↦
              inr (grow_step room s s1 n b (at_last ∙ run) ∙ rest, omega (arith, few))
        ],
      )
]

shrink_step :
    (room : ℕ) (s s1 : Sfs)
    → sfs_bmap_truncate_nolock s ≡ some (s1, ok tt)
    → shrink (suc room) s ≡ shrink room s1
unfolding shrink
shrink_step room s s1 run = rw run

shrink_lem :
    (room : ℕ) (s : Sfs)
    → IsFile s
    → room ≤ s.din_blocks
    → (s' : Sfs) × (shrink room s ≡ some (s', ok tt))
      × (s'.din_blocks + room ≡ s.din_blocks)
      × Resized s s'
unfolding shrink
shrink_lem zero s f le = (s, refl, omega arith, Resized-refl s f)
shrink_lem (suc room) s f le =
    let (s1, run, a) = sfs_bmap_truncate_lem s f (omega (arith, le)) in
    let less = a.blocks in
    let r1 = Shortened-Resized s s1 f a in
    let (s2, rest, n, r2) = shrink_lem room s1 r1.file (omega (arith, le, less)) in
    (
      s2,
      shrink_step room s s1 run ∙ rest,
      omega (arith, n, less),
      Resized-trans s s1 s2 r1 r2 (inl (omega (arith, n))),
    )

-- How many blocks `len` bytes take.
abbrev pub blocks_of : ℕ → ℕ
blocks_of len = (len + 4095) / 4096

-- The file has got its new length, and the blocks for it; or it has run out of blocks on the way.
abbrev pub TruncOutcome : Sfs → ℕ → Outcome (Unit {0}) → Type 0
TruncOutcome s len run =
    ((s' : Sfs) × (run ≡ some (s', ok tt))
      × (s'.size ≡ len)
      × (s'.din_blocks ≡ blocks_of len)
      × IsFile s'
      × ((i k : ℕ) → i < s'.din_blocks → k < 4096 → s'.disk (entry s' i) k ≡ block_byte s i k))
    ⊎ ((s' : Sfs) × (run ≡ some (s', fail 4))
        × (s.din_blocks < blocks_of len)
        × (s'.din_blocks < blocks_of len)
        × Resized s s')

module _ (s : Sfs) (file : IsFile s) (len : ℕ) (tight : s.din_blocks ≡ blocks_of s.size)
    (le : len ≤ 4243456) where
  trunc_guard : (leb 9223372036854775808 len || ltb 134217728 len) ≡ false
  trunc_guard = ground (arith, le)

  set_size :
      (s' : Sfs)
      → Resized s s'
      → s'.din_blocks ≡ blocks_of len
      → IsFile (record s' { size = len; dirty = true })
  set_size s' r e =
      let f = r.file in
      record {
        mounted =
            IsMounted-same s' (record s' { size = len; dirty = true }) f.mounted refl refl refl
              refl;
        blocks_max = f.blocks_max;
        in_use = λ i h.
            let u = f.in_use i h in
            record { nonzero = u.nonzero; below = u.below; taken = u.taken };
        beyond = f.beyond;
        indirect_use = λ nz.
            let u = f.indirect_use nz in
            record { nonzero = u.nonzero; below = u.below; taken = u.taken };
        separate = f.separate;
        distinct = f.distinct;
      }

  trunc_same : s.size ≡ len → TruncOutcome s len (sfs_truncfile s len)
  unfolding sfs_truncfile
  trunc_same e =
      let same : (s.size == len) ≡ true = ground (arith, e) in
      let n : ((len + 4096 - 1) / 4096 == s.din_blocks) ≡ true = ground (arith, tight, e) in
      inl
        (s, rw (trunc_guard, same, n), e, tight ∙ ap blocks_of e, file, (Resized-refl s file).bytes)

  -- The end of the function.
  trunc_end : Outcome (Unit {0}) → Outcome (Unit {0})
  trunc_end r = r >>> λ s' u.
      assert (s'.din_blocks == blocks_of len)
      >> some (record s' { size = len; dirty = true }, ok tt)

  trunc_resize :
      s.size ≢ len
      → sfs_truncfile s len
        ≡ trunc_end (
            if ltb s.din_blocks (blocks_of len)
            then grow (blocks_of len - s.din_blocks) s s.din_blocks
            else shrink (s.din_blocks - blocks_of len) s)
  unfolding sfs_truncfile trunc_end
  trunc_resize ne =
      let other : (s.size == len) ≡ false = ground (arith, ne) in
      let same : (len + 4096 - 1) / 4096 ≡ blocks_of len = omega arith in
      rw (trunc_guard, other, same)

  trunc_ok :
      (s' : Sfs)
      → s'.din_blocks ≡ blocks_of len
      → trunc_end (some (s', ok tt)) ≡ some (record s' { size = len; dirty = true }, ok tt)
  unfolding trunc_end
  trunc_ok s' e = let t : (s'.din_blocks == blocks_of len) ≡ true = ground (arith, e) in rw t

  trunc_more :
      s.size ≢ len
      → ltb s.din_blocks (blocks_of len) ≡ true
      → TruncOutcome s len (sfs_truncfile s len)
  unfolding trunc_end
  trunc_more ne more =
      let lim : s.din_blocks + (blocks_of len - s.din_blocks) ≤ 1036 = ground (arith, le, more) in
      let sum : s.din_blocks + (blocks_of len - s.din_blocks) ≡ blocks_of len =
        ground (arith, more) in
      let (s', ge, r, out) = grow_lem (blocks_of len - s.din_blocks) s s.din_blocks file refl lim in
      let few_blocks : s.din_blocks < blocks_of len = ground (arith, more) in
      elim out [
        | inl (run, n) ↦ inl (
          record s' { size = len; dirty = true },
          trunc_resize ne ∙ rw more (ap trunc_end run ∙ trunc_ok s' (n ∙ sum)),
          refl,
          n ∙ sum,
          set_size s' r (n ∙ sum),
          r.bytes,
        )
        | inr (run, few) ↦ inr (
          s',
          trunc_resize ne ∙ rw more (ap trunc_end run),
          few_blocks,
          omega (arith, few, sum),
          r,
        )
      ]

  trunc_less :
      s.size ≢ len
      → ltb s.din_blocks (blocks_of len) ≡ false
      → TruncOutcome s len (sfs_truncfile s len)
  trunc_less ne less =
      let down : s.din_blocks - blocks_of len ≤ s.din_blocks = omega arith in
      let (s', run, n, r) = shrink_lem (s.din_blocks - blocks_of len) s file down in
      let e : s'.din_blocks ≡ blocks_of len = ground (arith, n, less) in
      inl (
        record s' { size = len; dirty = true },
        trunc_resize ne ∙ rw less (ap trunc_end run ∙ trunc_ok s' e),
        refl,
        e,
        set_size s' r e,
        r.bytes,
      )

  -- `sfs_truncfile` of a file with as many blocks as its length takes, to a length that its entries
  -- reach, fails no assertion. Either it returns 0, and the file has the new length and the blocks
  -- for it, which hold what they held, new ones zeros; or the file needed more blocks, it returns
  -- `-E_NO_MEM`, and the length and the bytes are as before, while the file may have got blocks.
  pub sfs_truncfile_lem : TruncOutcome s len (sfs_truncfile s len)
  sfs_truncfile_lem = elim (Bool-cases (s.size == len)) [
    | inl e ↦ trunc_same (ground (arith, e))
    | inr e ↦
        let ne : s.size ≢ len = ground (arith, e) in
        elim (Bool-cases (ltb s.din_blocks (blocks_of len))) [
          | inl more ↦ trunc_more ne more
          | inr less ↦ trunc_less ne less
        ]
  ]
