-- ===== src/Sfs/IoRead.antt =====
-- `sfs_io_nolock` of lab8/code/kern/fs/sfs/sfs_inode.c as a read: what a file's reader gets.
use os_labs.Prelude.{
  min, ℕ, ◌+◌, ◌-◌, ◌*◌, ◌/◌, ◌%◌, ◌≤◌, ◌<◌, ◌≡◌, ◌≢◌, inl, inr, sym, ap, ◌∙◌, arith, true, false,
  ◌&&◌, ◌||◌, ltb, leb, ◌==◌, if◌then◌else◌, Bool-cases, some,
}
use os_labs.Strings.{Memory}
use os_labs.Strings.Move.{within}
use os_labs.Sfs.{Sfs, ok}
use os_labs.Sfs.File.{IoResult, io_head, sfs_io_nolock}
use os_labs.Sfs.Entry.{entry, IsFile}
use os_labs.Sfs.Read.{with_memory}
use os_labs.Sfs.Contents.{first_whole, whole_count, served, read_byte, io_head_lem}

-- The byte of the file at a position.
abbrev pub content : Sfs → ℕ → ℕ
content s pos = s.disk (entry s (pos / 4096)) (pos % 4096)

-- How many bytes a read of `len` bytes gets, and where it ends.
abbrev pub read_len : Sfs → ℕ → ℕ → ℕ
read_len s offset len = min len (s.size - offset)

abbrev pub read_end : Sfs → ℕ → ℕ → ℕ
read_end s offset len = min (offset + len) s.size

-- The whole blocks of the read lie one behind the other on the disk.
abbrev pub AreContiguous : Sfs → ℕ → ℕ → Type 0
AreContiguous s offset endpos =
    (k : ℕ)
    → k < whole_count offset endpos
    → entry s (first_whole offset + k) ≡ entry s (first_whole offset) + k

-- A read of `len` bytes to `buf` gets `read_len` bytes, given by their positions.
abbrev pub Delivers : Sfs → ℕ → ℕ → ℕ → (ℕ → ℕ) → IoResult → Type 0
Delivers s buf offset len byte run =
    (x : Memory) × (m : Memory) × (run ≡ some (with_memory s x m, read_len s offset len, ok tt))
    × ((q : ℕ)
        → m q ≡ (
            if within buf (read_len s offset len) q then byte (offset + (q - buf)) else s.memory q))

module _ (s : Sfs) (file : IsFile s) (sized : s.size ≤ s.din_blocks * 4096) (not_dir : s.type ≢ 2)
    (buf offset len : ℕ) (lt : offset < 134217728) (fits : offset + len < 9223372036854775808) where
  sum_id : (offset + len) % 18446744073709551616 ≡ offset + len
  sum_id = omega (arith, fits)

  is_file : (s.type == 2) ≡ false
  is_file = ground (arith, not_dir)

  no_error :
      (leb 9223372036854775808 offset
        || leb 134217728 offset
        || (leb 9223372036854775808 (offset + len) || ltb (offset + len) offset))
      ≡ false
  no_error = ground (arith, lt, fits)

  nothing_read :
      read_len s offset len ≡ 0
      → sfs_io_nolock s buf offset len false ≡ some (s, read_len s offset len, ok tt)
  unfolding sfs_io_nolock
  nothing_read z = elim (Bool-cases (offset == offset + len)) [
    | inl e ↦ rw (sum_id, is_file, no_error, e, z)
    | inr e ↦
        let out : leb s.size offset ≡ true = ground (arith, e, z) in
        rw (sum_id, is_file, no_error, e, out, z)
  ]

  something_read :
      0 < read_len s offset len
      → sfs_io_nolock s buf offset len false ≡ io_head false s buf offset (read_end s offset len)
  unfolding sfs_io_nolock
  something_read some_left =
      let e : (offset == offset + len) ≡ false = ground (arith, some_left) in
      let out : leb s.size offset ≡ false = ground (arith, some_left) in
      let mx = file.blocks_max in
      let below : s.size < 134217728 = omega (arith, mx, sized) in
      let capped : (let endpos = if ltb 134217728 (offset + len) then 134217728 else offset + len in
            if ltb s.size endpos then s.size else endpos)
          ≡ read_end s offset len =
        ground (arith, below) in
      rw (sum_id, is_file, no_error, e, out) (ap (io_head false s buf offset) capped)

  -- A read of a file that is no directory and has blocks for its length, at an offset below
  -- SFS_MAX_FILE_SIZE and with an end that `off_t` holds, fails no assertion and returns 0, if the
  -- blocks behind its first whole one on the disk are the file system's. It gets the bytes up to
  -- the end of the file, of which those of whole blocks come from the blocks that follow the first
  -- one of them on the disk.
  pub sfs_io_nolock-served :
      (0 < whole_count offset (read_end s offset len)
        → entry s (first_whole offset) + whole_count offset (read_end s offset len)
          ≤ s.super_blocks)
      → Delivers s buf offset len
          (read_byte s offset (read_end s offset len))
          (sfs_io_nolock s buf offset len false)
  sfs_io_nolock-served on_disk = elim (Bool-cases (read_len s offset len == 0)) [
    | inl e ↦
        let z : read_len s offset len ≡ 0 = ground (arith, e) in
        (
          s.sfs_buffer,
          s.memory,
          nothing_read z,
          λ q.
              let never : within buf (read_len s offset len) q ≡ false = ground (arith, z) in
              rw never,
        )
    | inr e ↦
        let some_left : 0 < read_len s offset len = ground (arith, e) in
        let before : offset < read_end s offset len = omega (arith, some_left) in
        let inside : read_end s offset len ≤ s.size = omega arith in
        let (x, m, run, r) =
          io_head_lem s file sized buf offset (read_end s offset len) before inside on_disk in
        let same : read_end s offset len - offset ≡ read_len s offset len = omega arith in
        (
          x,
          m,
          something_read some_left ∙ run ∙ ap (λ n. some (with_memory s x m, n, ok tt)) same,
          λ q.
              r q
              ∙ ap
                  (λ n.
                    if within buf n q
                    then read_byte s offset (read_end s offset len) (offset + (q - buf))
                    else s.memory q)
                  same,
        )
  ]

  contiguous_end :
      AreContiguous s offset (read_end s offset len)
      → 0 < whole_count offset (read_end s offset len)
      → entry s (first_whole offset) + whole_count offset (read_end s offset len) ≤ s.super_blocks
  contiguous_end h more =
      let w : ℕ = first_whole offset in
      let c : ℕ = whole_count offset (read_end s offset len) in
      let last = h (c - 1) (omega (arith, more)) in
      let i : w + (c - 1) < s.din_blocks = omega (arith, more, sized) in
      let below = (file.in_use (w + (c - 1)) i).below in omega (arith, last, below, more)

  contiguous_byte :
      AreContiguous s offset (read_end s offset len)
      → (pos : ℕ) → read_byte s offset (read_end s offset len) pos ≡ content s pos
  contiguous_byte h pos =
      let w : ℕ = first_whole offset in
      let c : ℕ = whole_count offset (read_end s offset len) in
      let i : ℕ = pos / 4096 in
      let same : served s w c i ≡ entry s i = elim (Bool-cases (leb w i && ltb i (w + c))) [
        | inl e ↦
            let k : i - w < c = ground (arith, e) in
            let back : w + (i - w) ≡ i = ground (arith, e) in
            rw e (sym (h (i - w) k) ∙ ap (entry s) back)
        | inr e ↦ rw e
      ] in
      ap (λ b. s.disk b (pos % 4096)) same

  -- A read, under the same conditions, of a file whose whole blocks in the range lie one behind the
  -- other on the disk fails no assertion, returns 0, stores the bytes of the file from the offset
  -- on, up to `len` of them or the end of the file, counts them, and changes no other memory, no
  -- block and not the inode.
  pub sfs_io_nolock-content :
      AreContiguous s offset (read_end s offset len)
      → Delivers s buf offset len (content s) (sfs_io_nolock s buf offset len false)
  sfs_io_nolock-content h =
      let (x, m, run, r) = sfs_io_nolock-served (contiguous_end h) in
      (
        x,
        m,
        run,
        λ q.
            r q
            ∙ ap (λ b. if within buf (read_len s offset len) q then b else s.memory q)
                (contiguous_byte h (offset + (q - buf))),
      )
