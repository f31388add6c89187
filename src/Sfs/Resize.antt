-- ===== src/Sfs/Resize.antt =====
-- The contents of a file of lab8/code/kern/fs/sfs/sfs_inode.c over the changes of its blocks.
use os_labs.Prelude.{
  ℕ, ◌-◌, ◌≤◌, ◌<◌, ◌≡◌, ◌≢◌, ◌⊎◌, inl, inr, refl, sym, ap, ◌∙◌, arith, true, false, ltb, ◌==◌,
  if◌then◌else◌, Bool-cases,
}
use mathlib.Core.Path.{subst}
use os_labs.Strings.{Memory}
use os_labs.Sfs.{Sfs}
use os_labs.Sfs.Freemap.{InUse}
use os_labs.Sfs.Entry.{word_at, entry, IsFile}
use os_labs.Sfs.Append.{Appended, Appended-IsFile, Refused}
use os_labs.Sfs.Truncate.{Shortened, Shortened-IsFile}

-- A byte of a block of the file; 0 if there is no such block.
abbrev pub block_byte : Sfs → ℕ → ℕ → ℕ
block_byte s i k = if ltb i s.din_blocks then s.disk (entry s i) k else 0

-- The file in `s'` has the bytes of the file in `s`, and zeros where that has no block; the length
-- in the inode and the memory of the callers are the same.
pub record Resized (s s' : Sfs) : Type 0 where
  pub file : IsFile s'
  pub size : s'.size ≡ s.size
  pub memory : s'.memory ≡ s.memory
  pub bytes : (i k : ℕ) → i < s'.din_blocks → k < 4096 → s'.disk (entry s' i) k ≡ block_byte s i k

pub Resized-refl : (s : Sfs) → IsFile s → Resized s s
Resized-refl s f = record {
  file = f;
  size = refl;
  memory = refl;
  bytes = λ i k h lo. let e : ltb i s.din_blocks ≡ true = ground (arith, h) in rw e;
}

pub Resized-trans :
    (s s1 s2 : Sfs)
    → Resized s s1
    → Resized s1 s2
    → (s2.din_blocks ≤ s1.din_blocks) ⊎ (s.din_blocks ≤ s1.din_blocks)
    → Resized s s2
Resized-trans s s1 s2 a b way = record {
  file = b.file;
  size = b.size ∙ a.size;
  memory = b.memory ∙ a.memory;
  bytes = λ i k h lo. elim (Bool-cases (ltb i s1.din_blocks)) [
    | inl e ↦ b.bytes i k h lo ∙ rw e (a.bytes i k (ground (arith, e)) lo)
    | inr e ↦
        let out : ltb i s.din_blocks ≡ false = ground (arith, e, h, way) in
        b.bytes i k h lo ∙ rw (e, out)
  ];
}

pub Appended-Resized :
    (s s' : Sfs) (b : ℕ) → IsFile s → Appended s s' b → s.din_blocks < 1036 → Resized s s'
Appended-Resized s s' b f a lt = record {
  file = Appended-IsFile s s' b f a lt;
  size = a.outside.size;
  memory = a.outside.memory;
  bytes = λ i k h lo. elim (Bool-cases (ltb i s.din_blocks)) [
    | inl e ↦
        let below : i < s.din_blocks = ground (arith, e) in
        let t : (i == s.din_blocks) ≡ false = ground (arith, e) in
        let at : entry s' i ≡ entry s i = a.entries i (omega (arith, below, lt)) ∙ rw t in
        let kept = a.outside.contents (entry s i) (f.in_use i below) (f.separate i below) in
        rw e (ap (λ c. s'.disk c k) at ∙ ap (λ (m : Memory). m k) kept)
    | inr e ↦
        let n = a.blocks in
        let same : i ≡ s.din_blocks = ground (arith, e, h, n) in
        let t : (i == s.din_blocks) ≡ true = ground (arith, same) in
        let at : entry s' i ≡ b = a.entries i (omega (arith, same, lt)) ∙ rw t in
        rw e (ap (λ c. s'.disk c k) at ∙ a.zeros k lo)
  ];
}

pub Shortened-Resized : (s s' : Sfs) → IsFile s → Shortened s s' → Resized s s'
Shortened-Resized s s' f a = record {
  file = Shortened-IsFile s s' f a;
  size = a.outside.size;
  memory = a.outside.memory;
  bytes = λ i k h lo.
      let n = a.blocks in
      let mx = f.blocks_max in
      let below : i < s.din_blocks = omega (arith, h, n) in
      let e : ltb i s.din_blocks ≡ true = ground (arith, below) in
      let t : (i == s'.din_blocks) ≡ false = ground (arith, h) in
      let at : entry s' i ≡ entry s i = a.entries i (omega (arith, below, mx)) ∙ rw t in
      let kept = a.outside.contents (entry s i) (f.in_use i below) (f.separate i below) in
      rw e (ap (λ c. s'.disk c k) at ∙ ap (λ (m : Memory). m k) kept);
}

module _ (s s' : Sfs) (f : IsFile s) (a : Refused s s') where
  refused_word :
      (i : ℕ) → s.indirect ≢ 0 → word_at (s'.disk s'.indirect) i ≡ word_at (s.disk s.indirect) i
  refused_word i nz =
      ap (λ c. word_at (s'.disk c) i) a.indirect
      ∙ ap (λ (m : Memory). word_at m i) (a.contents s.indirect (f.indirect_use nz))

  refused_entry : (i : ℕ) → entry s' i ≡ entry s i
  refused_entry i = elim (Bool-cases (ltb i 12)) [
    | inl e ↦ rw e (ap (λ (d : ℕ → ℕ). d i) a.direct)
    | inr e ↦ elim (Bool-cases (s.indirect == 0)) [
      | inl z ↦
          let same = a.indirect in
          let z' : (s'.indirect == 0) ≡ true = ground (arith, z, same) in rw (e, z, z')
      | inr nz ↦
          let same = a.indirect in
          let nz' : (s'.indirect == 0) ≡ false = ground (arith, nz, same) in
          rw (e, nz, nz') (refused_word (i - 12) (ground (arith, nz)))
    ]
  ]

  refused_use : (c : ℕ) → InUse s c → InUse s' c
  refused_use c u =
      let same = a.super_blocks in
      let below = u.below in
      record {
        nonzero = u.nonzero;
        below = omega (arith, below, same);
        taken = a.free_same c ∙ u.taken;
      }

  refused-IsFile : IsFile s'
  refused-IsFile =
      let n = a.blocks in
      let mx = f.blocks_max in
      record {
        mounted = a.mounted;
        blocks_max = omega (arith, mx, n);
        in_use = λ i h.
            subst (InUse s') (sym (refused_entry i))
              (refused_use (entry s i) (f.in_use i (omega (arith, h, n))));
        beyond = λ i h lim. refused_entry i ∙ f.beyond i (omega (arith, h, n)) lim;
        indirect_use = λ nz.
            let same = a.indirect in
            subst (InUse s') (sym same)
              (refused_use s.indirect (f.indirect_use (λ z. nz (same ∙ z))));
        separate =
            λ i h z. f.separate i (omega (arith, h, n)) (sym (refused_entry i) ∙ z ∙ a.indirect);
        distinct = λ i j h k ne z.
            f.distinct i j (omega (arith, h, n)) (omega (arith, k, n)) ne
              (sym (refused_entry i) ∙ z ∙ refused_entry j);
      }

  pub Refused-Resized : Resized s s'
  Refused-Resized =
      let n = a.blocks in
      record {
        file = refused-IsFile;
        size = a.size;
        memory = a.memory;
        bytes = λ i k h lo.
            let below : i < s.din_blocks = omega (arith, h, n) in
            let e : ltb i s.din_blocks ≡ true = ground (arith, below) in
            let kept = a.contents (entry s i) (f.in_use i below) in
            rw e (ap (λ c. s'.disk c k) (refused_entry i) ∙ ap (λ (m : Memory). m k) kept);
      }
