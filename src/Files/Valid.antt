-- ===== src/Files/Valid.antt =====
-- The open files of lab8/code/kern/fs/file.c: when a table is valid, and when a step keeps it so.
use os_labs.Prelude.{
  ℕ, ◌+◌, ◌≡◌, ◌≢◌, ◌≤◌, ◌<◌, inl, inr, ap, sym, arith, true, false, ◌||◌, ◌==◌, Bool-cases,
}
use os_labs.Files.{is_none, is_init, is_opened, is_closed, File, Files, is_null}
use os_labs.Files.Counts.{holds, holders, holders-change}
use mathlib.Core.Path.{subst}

-- An entry without openers is free or being set up; an open one has an inode.
pub record Sound (i : ℕ) (f : File) : Type 0 where
  pub index : f.fd ≡ i
  pub unopened : is_none f.status || is_init f.status ≡ true → f.open_count ≡ 0
  pub opened : is_opened f.status || is_closed f.status ≡ true → 0 < f.open_count
  pub noded : is_opened f.status || is_closed f.status ≡ true → is_null f.node ≡ false

-- Every entry is sound, and every inode counts at least the open files of this table.
pub record IsValid (s : Files) : Type 0 where
  pub sound : (i : ℕ) → i < s.nentry → Sound i (s.fd_array i)
  pub counted :
      (n : ℕ)
      → (holders n s.nentry s.fd_array ≤ (s.inodes n).opens)
        × ((s.inodes n).opens ≤ (s.inodes n).ref_count)

-- A step that changes one entry to `f`, and lowers no count of an inode by more than that allows.
pub IsValid-change :
    (s s' : Files) (i : ℕ) (f : File)
    → IsValid s
    → i < s.nentry
    → s'.nentry ≡ s.nentry
    → ((j : ℕ) → j ≢ i → s'.fd_array j ≡ s.fd_array j)
    → s'.fd_array i ≡ f
    → Sound i f
    → ((n : ℕ)
        → ((s.inodes n).opens + holds n f ≤ (s'.inodes n).opens + holds n (s.fd_array i))
          × ((s'.inodes n).opens ≤ (s'.inodes n).ref_count))
    → IsValid s'
IsValid-change s s' i f v lt size o at_i new c = record {
  sound = λ j h. elim (Bool-cases (i == j)) [
    | inl e ↦
        let same : i ≡ j = ground (arith, e) in
        subst (λ k. Sound k (s'.fd_array k)) same (subst (Sound i) (sym at_i) new)
    | inr e ↦
        let ne : j ≢ i = ground (arith, e) in
        subst (Sound j) (sym (o j ne)) (v.sound j (omega (arith, h, size)))
  ];
  counted = λ n. (
    omega (
      arith,
      holders-change n s.nentry s.fd_array s'.fd_array i lt o,
      (v.counted n).0,
      (c n).0,
      ap (holds n) at_i,
      ap (λ k. holders n k s'.fd_array) size,
    ),
    (c n).1,
  );
}
