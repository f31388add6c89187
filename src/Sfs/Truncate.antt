-- ===== src/Sfs/Truncate.antt =====
-- `sfs_bmap_truncate_nolock` of lab8/code/kern/fs/sfs/sfs_inode.c: how a file loses its last block.
use os_labs.Prelude.{
  ℕ, ◌+◌, ◌-◌, ◌*◌, ◌≤◌, ◌<◌, ◌≡◌, ◌≢◌, inl, inr, refl, sym, ap, ◌∙◌, arith, Bool, true, false, ltb,
  ◌==◌, ==-refl, if◌then◌else◌, Bool-cases, some, update,
}
use mathlib.Core.Path.{subst}
use os_labs.Strings.{Memory}
use os_labs.Bitmap.{Bitmap}
use os_labs.Bitmap.Bits.{is_free}
use os_labs.Sfs.{Sfs, ok, Outcome, deliver, sfs_block_free}
use os_labs.Sfs.Blockmap.{
  word_bytes, sfs_bmap_free_sub_nolock, sfs_bmap_free_nolock, sfs_bmap_truncate_nolock,
}
use os_labs.Sfs.Freemap.{IsMounted, IsMounted-same, InUse, assert_inuse_lem}
use os_labs.Sfs.Allocate.{Freed, freed, sfs_block_free_lem}
use os_labs.Sfs.Entry.{
  word_at, entry, IsFile, IsFile-indirect, IsMounted-buffer, word_at-deliver, sfs_rbuf-entry,
  sfs_wbuf-entry,
}
use os_labs.Sfs.Append.{SameOutside}

-- The file has lost its last block, which is free now, and no other block in use has been freed.
pub record Shortened (s s' : Sfs) : Type 0 where
  pub mounted : IsMounted s'
  pub blocks : s'.din_blocks + 1 ≡ s.din_blocks
  pub freed_last : is_free s'.freemap (entry s s'.din_blocks) ≡ true
  pub still : (c : ℕ) → InUse s c → c ≢ entry s s'.din_blocks → InUse s' c
  pub entries : (i : ℕ) → i < 1036 → entry s' i ≡ (if i == s'.din_blocks then 0 else entry s i)
  pub indirect : s'.indirect ≡ s.indirect
  pub outside : SameOutside s s'

module _ (s s' : Sfs) (f : IsFile s) (a : Shortened s s') where
  kept_entry : (i : ℕ) → i < s'.din_blocks → entry s' i ≡ entry s i
  kept_entry i h =
      let e = a.blocks in
      let mx = f.blocks_max in
      let t : (i == s'.din_blocks) ≡ false = ground (arith, h) in
      a.entries i (omega (arith, h, e, mx)) ∙ rw t

  -- A file without its last block is a file.
  pub Shortened-IsFile : IsFile s'
  Shortened-IsFile =
      let e = a.blocks in
      let mx = f.blocks_max in
      record {
        mounted = a.mounted;
        blocks_max = omega (arith, e, mx);
        in_use = λ i h.
            let ne =
              f.distinct i s'.din_blocks (omega (arith, h, e)) (omega (arith, e))
                (λ z. omega (arith, z, h)) in
            subst (InUse s') (sym (kept_entry i h))
              (a.still (entry s i) (f.in_use i (omega (arith, h, e))) ne);
        beyond = λ i h lim. elim (Bool-cases (i == s'.din_blocks)) [
          | inl t ↦ a.entries i lim ∙ rw t
          | inr t ↦
              let past : s.din_blocks ≤ i = ground (arith, t, h, e) in
              a.entries i lim ∙ rw t (f.beyond i past lim)
        ];
        indirect_use = λ nz.
            let same = a.indirect in
            let nz' : s.indirect ≢ 0 = λ z. nz (same ∙ z) in
            subst (InUse s') (sym same) (
              a.still s.indirect (f.indirect_use nz')
                (λ z. f.separate s'.din_blocks (omega (arith, e)) (sym z)));
        separate =
            λ i h z. f.separate i (omega (arith, h, e)) (sym (kept_entry i h) ∙ z ∙ a.indirect);
        distinct = λ i j h k ne z.
            f.distinct i j (omega (arith, h, e)) (omega (arith, k, e)) ne
              (sym (kept_entry i h) ∙ z ∙ kept_entry j k);
      }

freed_still :
    (s s' : Sfs) (f : Bitmap) (b c : ℕ)
    → Freed s f b
    → s'.freemap ≡ f
    → s'.super_blocks ≡ s.super_blocks
    → InUse s c
    → c ≢ b
    → InUse s' c
freed_still s s' f b c fr ef eb u ne =
    let off : (c == b) ≡ false = ground (arith, ne) in
    let below = u.below in
    record {
      nonzero = u.nonzero;
      below = omega (arith, below, eb);
      taken = ap (λ (g : Bitmap). is_free g c) ef ∙ fr.bit c ∙ rw off u.taken;
    }

-- What a call that shortens the file does.
abbrev pub ShortenOutcome : Sfs → Outcome (Unit {0}) → Type 0
ShortenOutcome s run = (s' : Sfs) × (run ≡ some (s', ok tt)) × Shortened s s'

module _ (s : Sfs) (file : IsFile s) (some_left : 0 < s.din_blocks) where
  last_use : InUse s (entry s (s.din_blocks - 1))
  last_use = file.in_use (s.din_blocks - 1) (omega (arith, some_left))

  one_less : s.din_blocks - 1 + 1 ≡ s.din_blocks
  one_less = omega (arith, some_left)

  guard : (s.din_blocks == 0) ≡ false
  guard = ground (arith, some_left)

  direct_less : Bitmap → Sfs
  direct_less f = record (freed s f) {
    direct = update s.direct (s.din_blocks - 1) 0;
    dirty = true;
    din_blocks = s.din_blocks - 1;
  }

  entry-direct_less :
      (f : Bitmap) (i : ℕ)
      → ltb (s.din_blocks - 1) 12 ≡ true
      → entry (direct_less f) i ≡ (if i == s.din_blocks - 1 then 0 else entry s i)
  unfolding direct_less
  entry-direct_less f i lo = elim (Bool-cases (ltb i 12)) [
    | inl e ↦ elim (Bool-cases (i == s.din_blocks - 1)) [
      | inl at ↦ let at' : (s.din_blocks - 1 == i) ≡ true = ground (arith, at) in rw (e, at, at')
      | inr at ↦ let at' : (s.din_blocks - 1 == i) ≡ false = ground (arith, at) in rw (e, at, at')
    ]
    | inr e ↦ let at : (i == s.din_blocks - 1) ≡ false = ground (arith, e, lo) in rw (e, at)
  ]

  shorten_direct : ltb (s.din_blocks - 1) 12 ≡ true → ShortenOutcome s (sfs_bmap_truncate_nolock s)
  unfolding sfs_bmap_truncate_nolock sfs_bmap_free_nolock direct_less
  shorten_direct lo =
      let n = s.din_blocks - 1 in
      let here : entry s n ≡ s.direct n = rw lo in
      let u : InUse s (s.direct n) = subst (InUse s) here last_use in
      let nz = u.nonzero in
      let ne : (s.direct n == 0) ≡ false = ground (arith, nz) in
      let (f, run, fr, m) = sfs_block_free_lem s (s.direct n) file.mounted u in
      let s' = direct_less f in
      (
        s',
        rw (run, guard, lo, ne),
        record {
          mounted = IsMounted-same (freed s f) s' m refl refl refl refl;
          blocks = one_less;
          freed_last = ap (is_free f) here ∙ fr.bit (s.direct n) ∙ rw (==-refl (s.direct n));
          still = λ c v away.
              freed_still s s' f (s.direct n) c fr refl refl v (λ z. away (z ∙ sym here));
          entries = λ i h. entry-direct_less f i lo;
          indirect = refl;
          outside = record {
            super_blocks = refl;
            d_blocks = refl;
            memory = refl;
            size = refl;
            type = refl;
            ino = refl;
            contents = λ c v away. refl;
          };
        },
      )

  -- The entry block without its last word.
  less_words : Memory
  less_words = deliver (s.disk s.indirect) ((s.din_blocks - 1 - 12) * 4) (word_bytes 0) 4

  written : Sfs
  written = record s { sfs_buffer = less_words; disk = update s.disk s.indirect less_words }

  indirect_less : Bitmap → Sfs
  unfolding written
  indirect_less f = record (freed written f) { dirty = true; din_blocks = s.din_blocks - 1 }

  entry-indirect_less :
      (f : Bitmap) (i : ℕ)
      → ltb (s.din_blocks - 1) 12 ≡ false
      → s.indirect ≢ 0
      → entry (indirect_less f) i ≡ (if i == s.din_blocks - 1 then 0 else entry s i)
  unfolding indirect_less written less_words
  entry-indirect_less f i hi nz = elim (Bool-cases (ltb i 12)) [
    | inl e ↦ let at : (i == s.din_blocks - 1) ≡ false = ground (arith, e, hi) in rw (e, at)
    | inr e ↦
        let z : (s.indirect == 0) ≡ false = ground (arith, nz) in
        let same : (i - 12 == s.din_blocks - 1 - 12) ≡ (i == s.din_blocks - 1) =
          ground (arith, e, hi) in
        rw (e, z, ==-refl s.indirect)
          (word_at-deliver (s.disk s.indirect) (s.din_blocks - 1 - 12) (i - 12) 0 (omega arith)
            ∙ ap (λ (b : Bool). if b then 0 else word_at (s.disk s.indirect) (i - 12)) same)
  ]

  -- The run for a block that the entry block names, with the state `w` after it was freed.
  free_entry_run :
      (w : Sfs)
      → ltb (s.din_blocks - 1) 12 ≡ false
      → sfs_block_free written (entry s (s.din_blocks - 1)) ≡ some w
      → sfs_bmap_free_sub_nolock s s.indirect (s.din_blocks - 1 - 12) ≡ some (w, ok tt)
  unfolding sfs_bmap_free_sub_nolock written less_words
  free_entry_run w hi run =
      let n = s.din_blocks - 1 in
      let j = n - 12 in
      let ent = s.indirect in
      let mx = file.blocks_max in
      let lt : j < 1024 = omega (arith, mx) in
      let g : ltb j 1024 ≡ true = ground (arith, lt) in
      let nz = IsFile-indirect s file n (omega (arith, some_left)) hi in
      let z : (ent == 0) ≡ false = ground (arith, nz) in
      let b : ℕ = word_at (s.disk ent) j in
      let here : entry s n ≡ b = rw (hi, z) in
      let bnz = last_use.nonzero in
      let bz : (b == 0) ≡ false = ground (arith, bnz, here) in
      let ue = file.indirect_use nz in
      let s1 : Sfs = record s { sfs_buffer = s.disk ent } in
      let m1 : IsMounted s1 = IsMounted-buffer s (s.disk ent) file.mounted in
      let u1 : InUse s1 ent = record { nonzero = ue.nonzero; below = ue.below; taken = ue.taken } in
      let run' : sfs_block_free written b ≡ some w = ap (sfs_block_free written) (sym here) ∙ run in
      rw (
        assert_inuse_lem s file.mounted ent ue,
        sfs_rbuf-entry s file.mounted ent ue j lt,
        g,
        sfs_wbuf-entry s1 m1 ent u1 j 0 lt,
        run',
        bz,
      )

  truncate_run :
      (w : Sfs)
      → ltb (s.din_blocks - 1) 12 ≡ false
      → sfs_bmap_free_sub_nolock s s.indirect (s.din_blocks - 1 - 12) ≡ some (w, ok tt)
      → sfs_bmap_truncate_nolock s
        ≡ some (record w { din_blocks = w.din_blocks - 1; dirty = true }, ok tt)
  unfolding sfs_bmap_truncate_nolock sfs_bmap_free_nolock
  truncate_run w hi run =
      let mx = file.blocks_max in
      let g : ltb (s.din_blocks - 1 - 12) 1024 ≡ true = ground (arith, mx) in
      let nz = IsFile-indirect s file (s.din_blocks - 1) (omega (arith, some_left)) hi in
      let z : (s.indirect == 0) ≡ false = ground (arith, nz) in rw (run, guard, hi, g, z)

  shorten_indirect :
      ltb (s.din_blocks - 1) 12 ≡ false → ShortenOutcome s (sfs_bmap_truncate_nolock s)
  unfolding indirect_less written less_words
  shorten_indirect hi =
      let b = entry s (s.din_blocks - 1) in
      let nz = IsFile-indirect s file (s.din_blocks - 1) (omega (arith, some_left)) hi in
      let u = last_use in
      let m2 : IsMounted written = IsMounted-same s written file.mounted refl refl refl refl in
      let u2 : InUse written b = record { nonzero = u.nonzero; below = u.below; taken = u.taken } in
      let (f, run, fr, m) = sfs_block_free_lem written b m2 u2 in
      let s' = indirect_less f in
      (
        s',
        truncate_run (freed written f) hi (free_entry_run (freed written f) hi run),
        record {
          mounted = IsMounted-same (freed written f) s' m refl refl refl refl;
          blocks = one_less;
          freed_last = fr.bit b ∙ rw (==-refl b);
          still = λ c v away.
              freed_still written s' f b c fr refl refl
                (record { nonzero = v.nonzero; below = v.below; taken = v.taken }) away;
          entries = λ i h. entry-indirect_less f i hi nz;
          indirect = refl;
          outside = record {
            super_blocks = refl;
            d_blocks = refl;
            memory = refl;
            size = refl;
            type = refl;
            ino = refl;
            contents = λ c v away.
                let away' : s.indirect ≢ c = λ z. away (sym z) in
                let off : (s.indirect == c) ≡ false = ground (arith, away') in rw off;
          };
        },
      )

-- `sfs_bmap_truncate_nolock` of a file that has a block fails no assertion and returns 0. It takes
-- the last block from the file and frees it; the other blocks of the file stay where they are,
-- nothing else is freed, and no block but the entry block has changed.
pub sfs_bmap_truncate_lem :
    (s : Sfs) → IsFile s → 0 < s.din_blocks → ShortenOutcome s (sfs_bmap_truncate_nolock s)
sfs_bmap_truncate_lem s file h = elim (Bool-cases (ltb (s.din_blocks - 1) 12)) [
  | inl lo ↦ shorten_direct s file h lo
  | inr hi ↦ shorten_indirect s file h hi
]
