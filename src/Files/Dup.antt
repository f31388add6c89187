-- ===== src/Files/Dup.antt =====
-- `fd_array_dup` of lab8/code/kern/fs/file.c.
use os_labs.Prelude.{
  ℕ, ◌+◌, ◌≡◌, ◌<◌, inl, inr, refl, arith, true, ◌==◌, if◌then◌else◌, Bool-cases, some,
}
use os_labs.Files.{
  fd_opened, is_init, is_opened, File, Files, set_file, inode_ref_inc, inode_open_inc,
  fd_array_open, fd_array_dup,
}
use os_labs.Files.Counts.{holds}
use mathlib.Core.Path.{subst}
use os_labs.Files.Valid.{IsValid, IsValid-change}

-- The entry that `fd_array_dup` leaves for a file on the inode `k`.
abbrev copied : File → File → ℕ → File
copied to from k = record to {
  offset = from.offset;
  readable = from.readable;
  writable = from.writable;
  node = some k;
  status = fd_opened;
  open_count = to.open_count + 1;
}

copied_holds : (n k : ℕ) (to from : File) → holds n (copied to from k) ≡ (if k == n then 1 else 0)
copied_holds n k to from = refl

inc_counts :
    (s : Files) (k n : ℕ)
    → let s' = inode_open_inc (inode_ref_inc s k) k in
      ((s'.inodes n).opens ≡ (s.inodes n).opens + (if k == n then 1 else 0))
      × ((s'.inodes n).ref_count ≡ (s.inodes n).ref_count + (if k == n then 1 else 0))
unfolding inode_open_inc inode_ref_inc
inc_counts s k n = elim (Bool-cases (k == n)) [
  | inl e ↦
      let same : k ≡ n = ground (arith, e) in
      subst
        (λ m.
          let s' = inode_open_inc (inode_ref_inc s k) k in
          ((s'.inodes m).opens ≡ (s.inodes m).opens + (if k == m then 1 else 0))
          × ((s'.inodes m).ref_count ≡ (s.inodes m).ref_count + (if k == m then 1 else 0)))
        same (ground arith, ground arith)
  | inr e ↦ (rw e (omega arith), rw e (omega arith))
]

init_holds : (n : ℕ) (f : File) → is_init f.status ≡ true → holds n f ≡ 0
init_holds n f e = ground (arith, e)

-- `fd_array_dup` of an open file to an entry that was set up, on a valid table, fails no assertion
-- and keeps the table valid; the entry is open on the same inode, which counts one opener more.
pub fd_array_dup-IsValid :
    (s : Files) (i j k : ℕ)
    → IsValid s
    → i < s.nentry
    → is_init (s.fd_array i).status ≡ true
    → is_opened (s.fd_array j).status ≡ true
    → (s.fd_array j).node ≡ some k
    → (s' : Files) × (fd_array_dup s i j ≡ some s')
      × IsValid s'
      × ((s'.fd_array i).status ≡ fd_opened)
      × ((s'.fd_array i).node ≡ some k)
      × ((s'.inodes k).opens ≡ (s.inodes k).opens + 1)
unfolding fd_array_dup fd_array_open
fd_array_dup-IsValid s i j k v lt ini op e =
    let file = v.sound i lt in
    let none_yet : (s.fd_array i).open_count ≡ 0 = file.unopened (ground (arith, ini)) in
    let f = copied (s.fd_array i) (s.fd_array j) k in
    let before = record f {
      status = (s.fd_array i).status;
      open_count = (s.fd_array i).open_count;
    } in
    let s1 = set_file (inode_open_inc (inode_ref_inc s k) k) i before in
    let s' = set_file s1 i (record (s1.fd_array i) {
      status = fd_opened;
      open_count = (s1.fd_array i).open_count + 1;
    }) in
    (
      s',
      rw e (ground (arith, ini, op)),
      IsValid-change s s' i f v lt refl (λ q ne. ground arith) (ground arith)
          (record {
            index = file.index;
            unopened = λ h. cc;
            opened = λ h. omega arith;
            noded = λ h. refl;
          })
          (λ n.
            let c = inc_counts s k n in
            (
              omega (
                arith,
                c.0,
                copied_holds n k (s.fd_array i) (s.fd_array j),
                init_holds n (s.fd_array i) ini,
              ),
              omega (arith, c.0, c.1, (v.counted n).1),
            )),
      ground arith,
      ground arith,
      ground arith,
    )
