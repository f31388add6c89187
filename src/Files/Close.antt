-- ===== src/Files/Close.antt =====
-- `fd_array_close` of lab8/code/kern/fs/file.c.
use os_labs.Prelude.{
  ℕ, ◌+◌, ◌-◌, ◌≡◌, ◌≢◌, ◌≤◌, ◌<◌, ◌⊎◌, inl, inr, refl, ap, ◌∙◌, arith, true, ltb, ◌==◌, Bool-cases,
  some, update,
}
use os_labs.Files.{
  fd_none, fd_closed, is_opened, is_closed, File, Inode, Files, set_file, set_inode, inode_ref_dec,
  inode_open_dec, vfs_close, drop_open, fd_array_free, fd_array_close,
}
use os_labs.Files.Counts.{holds, holders-at}
use mathlib.Core.Path.{subst}
use os_labs.Files.Valid.{IsValid, IsValid-change}

-- The entry of an open file whose count `fd_array_close` brings to `c`.
abbrev closed : File → ℕ → File
closed f c = record f { status = fd_closed; open_count = c }

closed-holds :
    (n : ℕ) (f : File) (c : ℕ) → is_opened f.status ≡ true → holds n (closed f c) ≡ holds n f
closed-holds n f c e = ground (arith, e)

-- `fd_array_close` of an open file, where others still use it: it is closed, and counts one less.
close_shared :
    (s : Files) (i : ℕ)
    → IsValid s
    → i < s.nentry
    → is_opened (s.fd_array i).status ≡ true
    → 1 < (s.fd_array i).open_count
    → (s' : Files) × (fd_array_close s i ≡ some s')
      × IsValid s'
      × (s'.fd_array i ≡ closed (s.fd_array i) ((s.fd_array i).open_count - 1))
      × ((j : ℕ) → j ≢ i → s'.fd_array j ≡ s.fd_array j)
      × (s'.inodes ≡ s.inodes)
unfolding fd_array_close drop_open
close_shared s i v lt op many =
    let file = v.sound i lt in
    let f = closed (s.fd_array i) ((s.fd_array i).open_count - 1) in
    let s1 = set_file s i (record (s.fd_array i) { status = fd_closed }) in
    let s2 =
      set_file s1 i (record (s1.fd_array i) { open_count = (s1.fd_array i).open_count - 1 }) in
    (
      s2,
      ground (arith, op, many),
      IsValid-change s s2 i f v lt refl (λ j ne. ground arith) (ground arith)
          (record {
            index = file.index;
            unopened = λ e. cc;
            opened = λ e. omega (arith, many);
            noded = λ e. file.noded (ground (arith, op));
          })
          (λ n. (
            omega (arith, closed-holds n (s.fd_array i) ((s.fd_array i).open_count - 1) op),
            (v.counted n).1,
          )),
      ground arith,
      λ j ne. ground arith,
      refl,
    )

vfs_close-counts :
    (s : Files) (k : ℕ)
    → 0 < (s.inodes k).opens
    → (s.inodes k).opens ≤ (s.inodes k).ref_count
    → (s' : Files) × (vfs_close s (some k) ≡ some s')
      × (s'.fd_array ≡ s.fd_array)
      × (s'.nentry ≡ s.nentry)
      × ((n : ℕ) → n ≢ k → s'.inodes n ≡ s.inodes n)
      × ((s'.inodes k).opens + 1 ≡ (s.inodes k).opens)
      × ((s'.inodes k).ref_count + 1 ≡ (s.inodes k).ref_count)
unfolding vfs_close inode_open_dec inode_ref_dec
vfs_close-counts s k pos_opens le =
    let s1 = set_inode s k (record (s.inodes k) { opens = (s.inodes k).opens - 1 }) in
    (
      set_inode s1 k (record (s1.inodes k) { ref_count = (s1.inodes k).ref_count - 1 }),
      ground (arith, pos_opens, le),
      refl,
      refl,
      λ n ne. ground arith,
      ground (arith, pos_opens),
      ground (arith, pos_opens, le),
    )

open_holds : (k : ℕ) (f : File) → is_opened f.status ≡ true → f.node ≡ some k → holds k f ≡ 1
open_holds k f op e = ground (arith, op, e)

other_holds : (k n : ℕ) (f : File) → f.node ≡ some k → n ≢ k → holds n f ≡ 0
other_holds k n f e ne = ground (arith, e)

-- `fd_array_free` of a closed file closes its inode and frees the entry.
free_closed :
    (s : Files) (i k : ℕ)
    → is_closed (s.fd_array i).status ≡ true
    → (s.fd_array i).open_count ≡ 0
    → (s.fd_array i).node ≡ some k
    → 0 < (s.inodes k).opens
    → (s.inodes k).opens ≤ (s.inodes k).ref_count
    → (s' : Files) × (fd_array_free s i ≡ some s')
      × (s'.fd_array i ≡ record (s.fd_array i) { status = fd_none })
      × ((j : ℕ) → j ≢ i → s'.fd_array j ≡ s.fd_array j)
      × (s'.nentry ≡ s.nentry)
      × ((n : ℕ) → n ≢ k → s'.inodes n ≡ s.inodes n)
      × ((s'.inodes k).opens + 1 ≡ (s.inodes k).opens)
      × ((s'.inodes k).ref_count + 1 ≡ (s.inodes k).ref_count)
unfolding fd_array_free
free_closed s i k cl zero_open e some_open le =
    let (s1, ran, same, size, others, opens, refs) = vfs_close-counts s k some_open le in
    let entry : (j : ℕ) → s1.fd_array j ≡ s.fd_array j = λ j. ap (λ (g : ℕ → File). g j) same in
    (
      set_file s1 i (record (s1.fd_array i) { status = fd_none }),
      rw (cl, e) (ground (arith, zero_open, ran)),
      here s1 ∙ ap (λ (f : File). record f { status = fd_none }) (entry i),
      λ j ne. away s1 j ne ∙ entry j,
      size,
      others,
      opens,
      refs,
    )
  where
    freed : Files → File
    freed t = record (t.fd_array i) { status = fd_none }

    here : (t : Files) → update t.fd_array i (freed t) i ≡ freed t
    here t = ground arith

    away : (t : Files) (j : ℕ) → j ≢ i → update t.fd_array i (freed t) j ≡ t.fd_array j
    away t j ne = ground arith

-- The state in which `fd_array_close` comes to free the entry.
abbrev last_closed : Files → ℕ → Files
last_closed s i =
    let s1 = set_file s i (record (s.fd_array i) { status = fd_closed }) in
    set_file s1 i (record (s1.fd_array i) { open_count = (s1.fd_array i).open_count - 1 })

close_frees :
    (s : Files) (i : ℕ)
    → is_opened (s.fd_array i).status ≡ true
    → (s.fd_array i).open_count ≡ 1
    → fd_array_close s i ≡ fd_array_free (last_closed s i) i
unfolding fd_array_close drop_open
close_frees s i op one = ground (arith, op, one)

last_entry :
    (s : Files) (i : ℕ)
    → (last_closed s i).fd_array i ≡ closed (s.fd_array i) ((s.fd_array i).open_count - 1)
last_entry s i = ground arith

last_others : (s : Files) (i j : ℕ) → j ≢ i → (last_closed s i).fd_array j ≡ s.fd_array j
last_others s i j ne = ground arith

-- One count of an inode less, for an open file that stands for it.
close_counts :
    (s s' : Files) (k : ℕ) (f : File)
    → is_opened f.status ≡ true
    → f.node ≡ some k
    → ((n : ℕ) → n ≢ k → s'.inodes n ≡ s.inodes n)
    → (s'.inodes k).opens + 1 ≡ (s.inodes k).opens
    → (s'.inodes k).ref_count + 1 ≡ (s.inodes k).ref_count
    → (n : ℕ) → (s.inodes n).opens ≤ (s.inodes n).ref_count
    → ((s.inodes n).opens ≤ (s'.inodes n).opens + holds n f)
      × ((s'.inodes n).opens ≤ (s'.inodes n).ref_count)
close_counts s s' k f op e others opens refs n le = elim (Bool-cases (k == n)) [
  | inl same ↦
      let eq : k ≡ n = ground (arith, same) in
      subst
        (λ m.
          (s.inodes m).opens ≤ (s.inodes m).ref_count
          → ((s.inodes m).opens ≤ (s'.inodes m).opens + holds m f)
            × ((s'.inodes m).opens ≤ (s'.inodes m).ref_count))
        eq (λ le'. (omega (arith, open_holds k f op e, opens), omega (arith, opens, refs, le'))) le
  | inr other ↦
      let ne : n ≢ k = ground (arith, other) in
      let o = ap (λ (x : Inode). x.opens) (others n ne) in
      let r = ap (λ (x : Inode). x.ref_count) (others n ne) in
      (omega (arith, o), omega (arith, o, r, le))
]

-- The entry is free, its inode has one opener and one reference less, and nothing else changed.
pub record LastClosed (s s' : Files) (i k : ℕ) : Type 0 where
  pub status : (s'.fd_array i).status ≡ fd_none
  pub files : (j : ℕ) → j ≢ i → s'.fd_array j ≡ s.fd_array j
  pub opens : (s'.inodes k).opens + 1 ≡ (s.inodes k).opens
  pub refs : (s'.inodes k).ref_count + 1 ≡ (s.inodes k).ref_count
  pub inodes : (n : ℕ) → n ≢ k → s'.inodes n ≡ s.inodes n

-- The entry is marked as closed, with one use less, and nothing else changed.
pub record SharedClosed (s s' : Files) (i : ℕ) : Type 0 where
  pub entry : s'.fd_array i ≡ closed (s.fd_array i) ((s.fd_array i).open_count - 1)
  pub files : (j : ℕ) → j ≢ i → s'.fd_array j ≡ s.fd_array j
  pub inodes : s'.inodes ≡ s.inodes

-- The last one: the inode is closed as well, and the entry is free.
close_last :
    (s : Files) (i k : ℕ)
    → IsValid s
    → i < s.nentry
    → is_opened (s.fd_array i).status ≡ true
    → (s.fd_array i).open_count ≡ 1
    → (s.fd_array i).node ≡ some k
    → (s' : Files) × (fd_array_close s i ≡ some s') × IsValid s' × LastClosed s s' i k
close_last s i k v lt op one e =
    let file = v.sound i lt in
    let held = open_holds k (s.fd_array i) op e in
    let (most, le) = v.counted k in
    let some_open : 0 < (s.inodes k).opens =
      omega (arith, held, holders-at k s.nentry s.fd_array i lt, most) in
    let was = last_entry s i in
    let (s', ran, now, others, size, inodes, opens, refs) =
      free_closed (last_closed s i) i k (ap (λ (f : File). is_closed f.status) was)
        (ap (λ (f : File). f.open_count) was ∙ omega (arith, one))
        (ap (λ (f : File). f.node) was ∙ e) some_open le in
    let f : File = record (s.fd_array i) {
      status = fd_none;
      open_count = (s.fd_array i).open_count - 1;
    } in
    let became : s'.fd_array i ≡ f = now ∙ ap (λ (g : File). record g { status = fd_none }) was in
    (
      s',
      close_frees s i op one ∙ ran,
      IsValid-change s s' i f v lt size (λ j ne. others j ne ∙ last_others s i j ne) became
          (record {
            index = file.index;
            unopened = λ h. omega (arith, one);
            opened = λ h. cc;
            noded = λ h. cc;
          })
          (λ n.
            let c = close_counts s s' k (s.fd_array i) op e inodes opens refs n (v.counted n).1 in
            (omega (arith, c.0), c.1)),
      record {
        status = ap (λ (g : File). g.status) became;
        files = λ j ne. others j ne ∙ last_others s i j ne;
        opens = opens;
        refs = refs;
        inodes = inodes;
      },
    )

-- `fd_array_close` of an open file of a valid table fails no assertion and keeps the table valid.
-- Where others still use the file it is marked as closed and has one use less, and no inode
-- changes; the last one frees the entry and takes one opener and one reference from its inode. No
-- other entry and no other inode changes.
pub fd_array_close-IsValid :
    (s : Files) (i k : ℕ)
    → IsValid s
    → i < s.nentry
    → is_opened (s.fd_array i).status ≡ true
    → (s.fd_array i).node ≡ some k
    → (s' : Files) × (fd_array_close s i ≡ some s')
      × IsValid s'
      × ((1 < (s.fd_array i).open_count) × SharedClosed s s' i
          ⊎ (((s.fd_array i).open_count ≡ 1) × LastClosed s s' i k))
fd_array_close-IsValid s i k v lt op e = elim (Bool-cases (ltb 1 (s.fd_array i).open_count)) [
  | inl b ↦
      let many : 1 < (s.fd_array i).open_count = ground (arith, b) in
      let (s', ran, ok, entry, files, inodes) = close_shared s i v lt op many in
      (s', ran, ok, inl (many, record { entry = entry; files = files; inodes = inodes }))
  | inr b ↦
      let file = v.sound i lt in
      let one : (s.fd_array i).open_count ≡ 1 =
        ground (arith, b, file.opened (ground (arith, op))) in
      let (s', ran, ok, last) = close_last s i k v lt op one e in (s', ran, ok, inr (one, last))
]
