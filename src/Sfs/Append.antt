-- ===== src/Sfs/Append.antt =====
-- `sfs_bmap_load_nolock` of lab8/code/kern/fs/sfs/sfs_inode.c for the index behind the last block:
-- how a file gets a new block.
use os_labs.Prelude.{
  ℕ, ◌+◌, ◌-◌, ◌≤◌, ◌<◌, ◌≡◌, ◌≢◌, ◌⊎◌, inl, inr, refl, sym, ap, ◌∙◌, arith, true, false, ◌&&◌, ltb,
  leb, ◌==◌, ==-refl, if◌then◌else◌, Bool-cases, some, update,
}
use mathlib.Core.Path.{subst}
use os_labs.Strings.{Memory}
use os_labs.Bitmap.{Bitmap}
use os_labs.Bitmap.Bits.{is_free}
use os_labs.Sfs.{Sfs, fail, ok, Outcome, deliver}
use os_labs.Sfs.Blockmap.{sfs_bmap_get_nolock, sfs_bmap_load_nolock}
use os_labs.Sfs.Freemap.{
  IsMounted, IsMounted-same, InUse, Taken, Taken-count, Taken-IsMounted, allocated,
  assert_inuse_lem,
}
use os_labs.Sfs.Allocate.{Taken-InUse, sfs_block_alloc_lem}
use os_labs.Sfs.Entry.{word_at, entry, IsFile, checked_lem}

-- The parts of the state that a block of a file leaves alone.
pub record SameOutside (s s' : Sfs) : Type 0 where
  pub super_blocks : s'.super_blocks ≡ s.super_blocks
  pub d_blocks : s'.d_blocks ≡ s.d_blocks
  pub memory : s'.memory ≡ s.memory
  pub size : s'.size ≡ s.size
  pub type : s'.type ≡ s.type
  pub ino : s'.ino ≡ s.ino
  pub contents : (c : ℕ) → InUse s c → c ≢ s.indirect → s'.disk c ≡ s.disk c

-- The file has one block more, `b`, which was free; it reads as zeros, the other blocks stay where
-- they are, and no block in use but the entry block has changed.
pub record Appended (s s' : Sfs) (b : ℕ) : Type 0 where
  pub was_free : is_free s.freemap b ≡ true
  pub mounted : IsMounted s'
  pub blocks : s'.din_blocks ≡ s.din_blocks + 1
  pub used : InUse s' b
  pub still : (c : ℕ) → InUse s c → InUse s' c
  pub entries : (i : ℕ) → i < 1036 → entry s' i ≡ (if i == s.din_blocks then b else entry s i)
  pub indirect :
      (s'.indirect ≡ s.indirect)
      ⊎ ((s.indirect ≡ 0)
          × (is_free s.freemap s'.indirect ≡ true)
          × InUse s' s'.indirect
          × (s'.indirect ≢ b))
  pub zeros : (k : ℕ) → k < 4096 → s'.disk b k ≡ 0
  pub outside : SameOutside s s'

pub InUse-free : (s : Sfs) (b c : ℕ) → is_free s.freemap b ≡ true → InUse s c → c ≢ b
InUse-free s b c free u e =
    let taken = u.taken in
    let same : is_free s.freemap c ≡ true = rw e free in ground (arith, taken, same)

module _ (s s' : Sfs) (b : ℕ) (f : IsFile s) (a : Appended s s' b) (lt : s.din_blocks < 1036) where
  last_entry : (i : ℕ) → i ≡ s.din_blocks → entry s' i ≡ b
  last_entry i e =
      let t : (i == s.din_blocks) ≡ true = ground (arith, e) in
      a.entries i (omega (arith, e, lt)) ∙ rw t

  old_entry : (i : ℕ) → i < s.din_blocks → entry s' i ≡ entry s i
  old_entry i h =
      let t : (i == s.din_blocks) ≡ false = ground (arith, h) in
      a.entries i (omega (arith, h, lt)) ∙ rw t

  below_or_last : (i : ℕ) → i < s'.din_blocks → (i < s.din_blocks) ⊎ (i ≡ s.din_blocks)
  below_or_last i h =
      let e = a.blocks in
      elim (Bool-cases (ltb i s.din_blocks)) [
        | inl t ↦ inl (ground (arith, t))
        | inr t ↦ inr (let ge : s.din_blocks ≤ i = ground (arith, t) in omega (arith, ge, h, e))
      ]

  entry_used : (i : ℕ) → (i < s.din_blocks) ⊎ (i ≡ s.din_blocks) → InUse s' (entry s' i)
  entry_used i (inl h) = rw (old_entry i h) (a.still (entry s i) (f.in_use i h))
  entry_used i (inr e) = rw (last_entry i e) a.used

  entry_separate : (i : ℕ) → (i < s.din_blocks) ⊎ (i ≡ s.din_blocks) → entry s' i ≢ s'.indirect
  entry_separate i (inl h) e = elim a.indirect [
    | inl same ↦ f.separate i h (sym (old_entry i h) ∙ e ∙ same)
    | inr (z, free, used, ne) ↦
        InUse-free s s'.indirect (entry s i) free (f.in_use i h) (sym (old_entry i h) ∙ e)
  ]
  entry_separate i (inr l) e = elim a.indirect [
    | inl same ↦
        let at : b ≡ s.indirect = sym (last_entry i l) ∙ e ∙ same in
        let nz = a.used.nonzero in
        let u = f.indirect_use (λ z. omega (arith, at, z, nz)) in
        InUse-free s b s.indirect a.was_free u (sym at)
    | inr (z, free, used, ne) ↦ ne (sym e ∙ last_entry i l)
  ]

  entry_distinct :
      (i j : ℕ)
      → (i < s.din_blocks) ⊎ (i ≡ s.din_blocks)
      → (j < s.din_blocks) ⊎ (j ≡ s.din_blocks)
      → i ≢ j
      → entry s' i ≢ entry s' j
  entry_distinct i j (inl h) (inl k) ne e =
      f.distinct i j h k ne (sym (old_entry i h) ∙ e ∙ old_entry j k)
  entry_distinct i j (inl h) (inr k) ne e =
      InUse-free s b (entry s i) a.was_free (f.in_use i h)
        (sym (old_entry i h) ∙ e ∙ last_entry j k)
  entry_distinct i j (inr h) (inl k) ne e =
      InUse-free s b (entry s j) a.was_free (f.in_use j k)
        (sym (old_entry j k) ∙ sym e ∙ last_entry i h)
  entry_distinct i j (inr h) (inr k) ne e = ne (h ∙ sym k)

  -- A file with a new block is a file.
  pub Appended-IsFile : IsFile s'
  Appended-IsFile =
      let e = a.blocks in
      record {
        mounted = a.mounted;
        blocks_max = omega (arith, e, lt);
        in_use = λ i h. entry_used i (below_or_last i h);
        beyond = λ i h mx.
            let t : (i == s.din_blocks) ≡ false = ground (arith, h, e) in
            a.entries i mx ∙ (rw t refl) ∙ f.beyond i (omega (arith, h, e)) mx;
        indirect_use = λ nz. elim a.indirect [
          | inl same ↦
              subst (InUse s') (sym same) (a.still s.indirect (f.indirect_use (λ z. nz (same ∙ z))))
          | inr (z, free, used, ne) ↦ used
        ];
        separate = λ i h. entry_separate i (below_or_last i h);
        distinct = λ i j h k. entry_distinct i j (below_or_last i h) (below_or_last j k);
      }

-- Nothing that matters has changed: the file has the blocks it had, no block in use has changed,
-- and the same blocks are free, fewer than the new block needs.
pub record Refused (s s' : Sfs) : Type 0 where
  pub mounted : IsMounted s'
  pub free_same : (k : ℕ) → is_free s'.freemap k ≡ is_free s.freemap k
  pub blocks : s'.din_blocks ≡ s.din_blocks
  pub direct : s'.direct ≡ s.direct
  pub indirect : s'.indirect ≡ s.indirect
  pub contents : (c : ℕ) → InUse s c → s'.disk c ≡ s.disk c
  pub memory : s'.memory ≡ s.memory
  pub size : s'.size ≡ s.size
  pub super_blocks : s'.super_blocks ≡ s.super_blocks
  pub too_few : s.unused_blocks < (if s.indirect == 0 && leb 12 s.din_blocks then 2 else 1)

-- What happens for the index behind the last block, in `get` or in `load`.
abbrev pub AppendOutcome : Sfs → Outcome ℕ → Type 0
AppendOutcome s run =
    ((s' : Sfs) × (run ≡ some (s', fail 4)) × Refused s s')
    ⊎ ((s' : Sfs) × (b : ℕ) × (run ≡ some (s', ok b)) × Appended s s' b)

pub Refused-whole : (s : Sfs) → IsMounted s → s.unused_blocks ≡ 0 → Refused s s
Refused-whole s m z = record {
  mounted = m;
  free_same = λ k. refl;
  blocks = refl;
  direct = refl;
  indirect = refl;
  contents = λ c u. refl;
  memory = refl;
  size = refl;
  super_blocks = refl;
  too_few = ground (arith, z);
}

pub still_used :
    (s s' : Sfs) (f : Bitmap) (b c : ℕ)
    → Taken s f b
    → s'.freemap ≡ f
    → s'.super_blocks ≡ s.super_blocks
    → InUse s c
    → InUse s' c
still_used s s' f b c t ef eb u =
    let ne : c ≢ b = InUse-free s b c t.was_free u in
    let off : (c == b) ≡ false = ground (arith, ne) in
    let below = u.below in
    record {
      nonzero = u.nonzero;
      below = omega (arith, below, eb);
      taken = ap (λ (g : Bitmap). is_free g c) ef ∙ t.bit c ∙ rw off u.taken;
    }

pub same_block :
    (s : Sfs) (b c : ℕ) (bytes : Memory)
    → is_free s.freemap b ≡ true
    → InUse s c
    → update s.disk b bytes c ≡ s.disk c
same_block s b c bytes free u =
    let ne = InUse-free s b c free u in let off : (b == c) ≡ false = ground (arith, ne) in rw off

pub new_zeros : (m : Memory) (k : ℕ) → k < 4096 → deliver m 0 (λ k. 0) 4096 k ≡ 0
new_zeros m k h = ground (arith, h)

-- The state after a direct entry was set.
abbrev direct_set : Sfs → Bitmap → ℕ → Sfs
direct_set s f b = record (allocated s f b) {
  direct = update s.direct s.din_blocks b;
  dirty = true;
  din_blocks = s.din_blocks + 1;
}

direct_entries :
    (s : Sfs) (f : Bitmap) (b : ℕ)
    → IsFile s
    → Taken s f b
    → ltb s.din_blocks 12 ≡ true
    → (i : ℕ) → i < 1036
    → entry (direct_set s f b) i ≡ (if i == s.din_blocks then b else entry s i)
direct_entries s f b file t e i h = elim (Bool-cases (ltb i 12)) [
  | inl lo ↦ elim (Bool-cases (i == s.din_blocks)) [
    | inl at ↦ let at' : (s.din_blocks == i) ≡ true = ground (arith, at) in rw (lo, at, at')
    | inr at ↦ let at' : (s.din_blocks == i) ≡ false = ground (arith, at) in rw (lo, at, at')
  ]
  | inr hi ↦
      let at : (i == s.din_blocks) ≡ false = ground (arith, e, hi) in
      elim (Bool-cases (s.indirect == 0)) [
        | inl z ↦ rw (hi, at, z)
        | inr nz ↦
            let u = file.indirect_use (ground (arith, nz)) in
            let zeros = deliver s.sfs_buffer 0 (λ k. 0) 4096 in
            rw (hi, at, nz)
              (ap (λ (m : Memory). word_at m (i - 12))
                (same_block s b s.indirect zeros t.was_free u))
      ]
]

direct-Appended :
    (s : Sfs) (f : Bitmap) (b : ℕ)
    → IsFile s
    → Taken s f b
    → ltb s.din_blocks 12 ≡ true
    → Appended s (direct_set s f b) b
direct-Appended s f b file t e =
    let s' = direct_set s f b in
    let u = file.mounted.unused in
    let c = Taken-count s f b t in
    record {
      was_free = t.was_free;
      mounted = Taken-IsMounted s s' f b file.mounted t refl refl refl (omega (arith, c, u));
      blocks = refl;
      used = Taken-InUse s s' f b t refl refl;
      still = λ c used. still_used s s' f b c t refl refl used;
      entries = direct_entries s f b file t e;
      indirect = inl refl;
      zeros = λ k h. rw (==-refl b) (new_zeros s.sfs_buffer k h);
      outside = record {
        super_blocks = refl;
        d_blocks = refl;
        memory = refl;
        size = refl;
        type = refl;
        ino = refl;
        contents =
            λ c used ne. same_block s b c (deliver s.sfs_buffer 0 (λ k. 0) 4096) t.was_free used;
      };
    }

pub append_direct :
    (s : Sfs)
    → IsFile s
    → ltb s.din_blocks 12 ≡ true
    → AppendOutcome s (sfs_bmap_load_nolock s s.din_blocks)
unfolding sfs_bmap_load_nolock sfs_bmap_get_nolock
append_direct s file e =
    let n = s.din_blocks in
    let nz : ltb n 1036 ≡ true = ground (arith, e) in
    let empty : entry s n ≡ 0 = file.beyond n (omega arith) (ground (arith, nz)) in
    let at : s.direct n ≡ 0 = sym (rw e) ∙ empty in
    let zero_at : (s.direct n == 0) ≡ true = ground (arith, at) in
    let le : leb n n ≡ true = ground arith in
    elim (sfs_block_alloc_lem s file.mounted) [
      | inl (run, z) ↦ inl (s, rw (run, ==-refl n, le, e, zero_at), Refused-whole s file.mounted z)
      | inr (b, f, run, t) ↦
          let s' = direct_set s f b in
          let a = direct-Appended s f b file t e in
          let early : Sfs = record s' { din_blocks = s.din_blocks } in
          let m : IsMounted early = IsMounted-same s' early a.mounted refl refl refl refl in
          let ub = a.used in
          let u : InUse early b = record {
            nonzero = ub.nonzero;
            below = ub.below;
            taken = ub.taken;
          } in
          inr (
            s',
            b,
            rw (
              run,
              checked_lem early m b u,
              ==-refl n,
              le,
              e,
              zero_at,
              assert_inuse_lem early m b u,
            ),
            a,
          )
    ]
