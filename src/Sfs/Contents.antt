-- ===== src/Sfs/Contents.antt =====
-- What `sfs_io_nolock` of lab8/code/kern/fs/sfs/sfs_inode.c reads: the bytes of a file.
use os_labs.Prelude.{
  ℕ, ◌+◌, ◌-◌, ◌*◌, ◌/◌, ◌%◌, ◌≤◌, ◌<◌, ◌≡◌, ◌≢◌, ◌⊎◌, inl, inr, refl, sym, ap, ◌∙◌, arith, Bool,
  true, false, ◌&&◌, ltb, leb, ◌==◌, if◌then◌else◌, Bool-cases, some,
}
use mathlib.Core.Path.{subst}
use os_labs.Strings.{Memory}
use os_labs.Strings.Move.{within}
use os_labs.Sfs.{Sfs, ok, ◌>>>◌, deliver}
use os_labs.Sfs.Blockmap.{sfs_bmap_load_nolock}
use os_labs.Sfs.File.{IoResult, sfs_buf_op, finish, piece, io_tail, io_blocks, io_head}
use os_labs.Sfs.Entry.{entry, IsFile, looked_up}
use os_labs.Sfs.Read.{
  with_memory, IsFile-memory, blocks_read, blocks_read_lem, read_part, read_whole,
}

-- The whole blocks of a transfer from `offset` to `endpos`: the first index and the number.
abbrev pub first_whole : ℕ → ℕ
first_whole offset = (offset + 4095) / 4096

abbrev pub whole_count : ℕ → ℕ → ℕ
whole_count offset endpos = endpos / 4096 - first_whole offset

-- The block of the disk that a transfer goes to for index `i`: behind the first of `c` whole blocks
-- from index `w` on, the blocks that follow it on the disk.
abbrev pub served : Sfs → ℕ → ℕ → ℕ → ℕ
served s w c i = if leb w i && ltb i (w + c) then entry s w + (i - w) else entry s i

-- The byte that is read for a position.
abbrev pub served_byte : Sfs → ℕ → ℕ → ℕ → ℕ
served_byte s w c pos = s.disk (served s w c (pos / 4096)) (pos % 4096)

abbrev pub read_byte : Sfs → ℕ → ℕ → ℕ → ℕ
read_byte s offset endpos pos = served_byte s (first_whole offset) (whole_count offset endpos) pos

within_low : (d n q : ℕ) → within d n q ≡ true → q - d < n
within_low d n q h = ground (arith, h)

-- The position of an address behind the first `alen` bytes.
within_at :
    (buf alen n q offset base : ℕ)
    → within (buf + alen) n q ≡ true
    → offset + alen ≡ base
    → offset + (q - buf) ≡ base + (q - (buf + alen))
within_at buf alen n q offset base h at =
    let ge : buf + alen ≤ q = ground (arith, h) in omega (arith, ge, at)

-- A read of the bytes from `offset` up to `endpos`, which the file has, to `buf`.
module _ (s : Sfs) (file : IsFile s) (sized : s.size ≤ s.din_blocks * 4096) (buf offset endpos : ℕ)
    (before : offset < endpos) (inside : endpos ≤ s.size)
    (on_disk : 0 < whole_count offset endpos
      → entry s (first_whole offset) + whole_count offset endpos ≤ s.super_blocks) where
  -- The first `alen` bytes are in memory, and nothing else has changed there.
  abbrev HasRead : Memory → ℕ → Type 0
  HasRead m alen =
      (q : ℕ)
      → m q
        ≡ (if within buf alen q then read_byte s offset endpos (offset + (q - buf)) else s.memory q)

  -- A run that ends with all bytes in memory.
  abbrev ReadOutcome : IoResult → Type 0
  ReadOutcome run =
      (x : Memory) × (m : Memory) × (run ≡ some (with_memory s x m, endpos - offset, ok tt))
      × HasRead m (endpos - offset)

  HasRead-more :
      (m m' : Memory) (alen n : ℕ)
      → HasRead m alen
      → ((q : ℕ)
          → within (buf + alen) n q ≡ true
          → m' q ≡ read_byte s offset endpos (offset + (q - buf)))
      → ((q : ℕ) → within (buf + alen) n q ≡ false → m' q ≡ m q)
      → HasRead m' (alen + n)
  HasRead-more m m' alen n r new old q = elim (Bool-cases (within (buf + alen) n q)) [
    | inl here ↦
        let all : within buf (alen + n) q ≡ true = ground (arith, here) in new q here ∙ rw all
    | inr away ↦
        let same : within buf (alen + n) q ≡ within buf alen q = ground (arith, away) in
        old q away
        ∙ r q
        ∙ ap
            (λ (b : Bool). if b then read_byte s offset endpos (offset + (q - buf)) else s.memory q)
            (sym same)
  ]

  finish_read :
      (x m : Memory) (alen : ℕ)
      → alen ≡ endpos - offset
      → finish (with_memory s x m) offset alen (ok tt)
        ≡ some (with_memory s x m, endpos - offset, ok tt)
  unfolding finish
  finish_read x m alen e =
      let t : ltb s.size (offset + alen) ≡ false = ground (arith, e, before, inside) in rw (t, e)

  -- Outside the whole blocks the block of the index itself is read.
  byte_outside :
      (i o : ℕ)
      → (i < first_whole offset) ⊎ (first_whole offset + whole_count offset endpos ≤ i)
      → o < 4096
      → (pos : ℕ) → pos ≡ i * 4096 + o
      → read_byte s offset endpos pos ≡ s.disk (entry s i) o
  byte_outside i o out lo pos e =
      let d : pos / 4096 ≡ i = omega (arith, e, lo) in
      let r : pos % 4096 ≡ o = omega (arith, e, lo) in
      let b : (leb (first_whole offset) i && ltb i (first_whole offset + whole_count offset endpos))
          ≡ false =
        ground (arith, out) in
      let w = first_whole offset in
      let c = whole_count offset endpos in
      ap (λ x. s.disk (served s w c x) (pos % 4096)) d ∙ ap (s.disk (served s w c i)) r ∙ rw b

  byte_inside :
      (k o : ℕ)
      → k < whole_count offset endpos
      → o < 4096
      → (pos : ℕ) → pos ≡ (first_whole offset + k) * 4096 + o
      → read_byte s offset endpos pos ≡ s.disk (entry s (first_whole offset) + k) o
  byte_inside k o h lo pos e =
      let w = first_whole offset in
      let d : pos / 4096 ≡ w + k = omega (arith, e, lo) in
      let r : pos % 4096 ≡ o = omega (arith, e, lo) in
      let b : (leb w (w + k) && ltb (w + k) (w + whole_count offset endpos)) ≡ true =
        ground (arith, h) in
      let k' : w + k - w ≡ k = omega arith in
      let c = whole_count offset endpos in
      ap (λ x. s.disk (served s w c x) (pos % 4096)) d
      ∙ ap (s.disk (served s w c (w + k))) r
      ∙ rw (b, k')

  tail_read :
      (x m : Memory) (blkno alen : ℕ)
      → HasRead m alen
      → offset + alen ≡ blkno * 4096
      → endpos / 4096 ≡ blkno
      → first_whole offset + whole_count offset endpos ≤ blkno
      → ReadOutcome (io_tail false (with_memory s x m) (buf + alen) offset endpos blkno alen)
  unfolding io_tail piece
  tail_read x m blkno alen r at last out = elim (Bool-cases (endpos % 4096 == 0)) [
    | inl z ↦
        let none_left : endpos % 4096 ≡ 0 = ground (arith, z) in
        let e : alen ≡ endpos - offset = omega (arith, at, last, none_left) in
        (x, m, rw z (finish_read x m alen e), λ q. rw (sym e) (r q))
    | inr nz ↦
        let size = endpos % 4096 in
        let some_left : 0 < size = ground (arith, nz) in
        let h : blkno < s.din_blocks = omega (arith, some_left, last, sized, inside) in
        let f = IsFile-memory s x m file in
        let run =
          read_part (with_memory s x m) f blkno (buf + alen) size 0 h (omega arith) (omega arith) in
        let x' = s.disk (entry s blkno) in
        let m' = deliver m (buf + alen) (λ k. s.disk (entry s blkno) (0 + k)) size in
        let e : alen + size ≡ endpos - offset = omega (arith, at, last) in
        let r' =
          HasRead-more m m' alen size r
            (λ q here.
              let o : ℕ = q - (buf + alen) in
              let low : o < size = within_low (buf + alen) size q here in
              let p = within_at buf alen size q offset (blkno * 4096) here at in
              let lo : 0 + o < 4096 = omega (arith, low) in
              let p' : offset + (q - buf) ≡ blkno * 4096 + (0 + o) = omega (arith, p) in
              rw here (sym (byte_outside blkno (0 + o) (inr out) lo (offset + (q - buf)) p')))
            (λ q away. rw away) in
        (x', m', rw (run, nz) (finish_read x' m' (alen + size) e), λ q. rw (sym e) (r' q))
  ]

  blocks_stage :
      (x m : Memory) (blkno nblks alen : ℕ)
      → HasRead m alen
      → offset + alen ≡ blkno * 4096
      → blkno ≡ first_whole offset
      → nblks ≡ whole_count offset endpos
      → blkno + nblks ≡ endpos / 4096
      → ReadOutcome
          (io_blocks false (with_memory s x m) (buf + alen) offset endpos blkno nblks alen)
  unfolding io_blocks piece
  blocks_stage x m blkno nblks alen r at w c last = elim (Bool-cases (ltb 0 nblks)) [
    | inr z ↦
        let none_left : nblks ≡ 0 = ground (arith, z) in
        let (x', m', run, r') =
          tail_read x m blkno alen r at (omega (arith, last, none_left))
            (omega (arith, w, c, none_left)) in
        (x', m', rw z run, r')
    | inl more ↦
        let some_left : 0 < nblks = ground (arith, more) in
        let h : blkno < s.din_blocks = omega (arith, some_left, last, sized, inside) in
        let f = IsFile-memory s x m file in
        let lim : entry s blkno + nblks ≤ s.super_blocks =
          rw (w, c) (on_disk (omega (arith, some_left, c))) in
        let run = read_whole (with_memory s x m) f blkno (buf + alen) nblks h lim in
        let x' = (looked_up (with_memory s x m) blkno).sfs_buffer in
        let m' = blocks_read s.disk nblks m (buf + alen) (entry s blkno) in
        let size : ℕ = nblks * 4096 in
        let r' : HasRead m' (alen + size) =
          HasRead-more m m' alen size r
            (λ q here.
              let o : ℕ = q - (buf + alen) in
              let low : o < size = within_low (buf + alen) size q here in
              let p = within_at buf alen size q offset (blkno * 4096) here at in
              let k : o / 4096 < whole_count offset endpos = omega (arith, low, c) in
              let p' : offset + (q - buf) ≡ (first_whole offset + o / 4096) * 4096 + o % 4096 =
                omega (arith, p, w) in
              let b = byte_inside (o / 4096) (o % 4096) k (omega arith) (offset + (q - buf)) p' in
              blocks_read_lem s.disk nblks m (buf + alen) (entry s blkno) q
              ∙ rw here (rw w (sym b)))
            (λ q away. blocks_read_lem s.disk nblks m (buf + alen) (entry s blkno) q ∙ rw away) in
        let at' : offset + (alen + size) ≡ (blkno + nblks) * 4096 = omega (arith, at) in
        let (x2, m2, rest, r2) =
          tail_read x' m' (blkno + nblks) (alen + size) r' at' (sym last) (omega (arith, w, c)) in
        let assoc : buf + alen + size ≡ buf + (alen + size) = omega arith in
        (
          x2,
          m2,
          rw (run, more)
              (ap
                  (λ a.
                    io_tail false (with_memory s x' m') a offset endpos (blkno + nblks)
                      (alen + size))
                  assoc
                ∙ rest),
          r2,
        )
  ]

  HasRead-none : HasRead s.memory 0
  HasRead-none q = let e : within buf 0 q ≡ false = ground arith in rw e

  -- The first piece, `size` bytes of the first block.
  head_read :
      (size : ℕ)
      → offset % 4096 + size ≤ 4096
      → size ≤ endpos - offset
      → 0 < offset % 4096
      → (x : Memory) × (m : Memory) × ((sfs_bmap_load_nolock s (offset / 4096) >>> λ s' b.
            sfs_buf_op false s' buf size b (offset % 4096))
          ≡ some (with_memory s x m, ok tt))
        × HasRead m size
  head_read size fits le mid =
      let i = offset / 4096 in
      let off = offset % 4096 in
      let h : i < s.din_blocks = omega (arith, before, inside, sized) in
      let run = read_part s file i buf size off h (omega arith) fits in
      let m' = deliver s.memory buf (λ k. s.disk (entry s i) (off + k)) size in
      let zero : buf + 0 ≡ buf = omega arith in
      let r' : HasRead m' (0 + size) =
        HasRead-more s.memory m' 0 size HasRead-none
          (λ q here.
            let here' : within buf size q ≡ true = ground (arith, here) in
            let low = within_low buf size q here' in
            let lo : off + (q - buf) < 4096 = omega (arith, low, fits) in
            let p : offset + (q - buf) ≡ i * 4096 + (off + (q - buf)) = omega arith in
            rw here' (
              sym (
                byte_outside i (off + (q - buf)) (inl (omega (arith, mid))) lo (offset + (q - buf))
                  p)))
          (λ q away. let away' : within buf size q ≡ false = ground (arith, away) in rw away') in
      let same : 0 + size ≡ size = omega arith in
      (s.disk (entry s i), m', run, subst (HasRead m') same r')

  aligned_stage :
      offset % 4096 ≡ 0
      → ReadOutcome
          (io_blocks false s buf offset endpos (offset / 4096) (endpos / 4096 - offset / 4096) 0)
  aligned_stage z =
      let w : offset / 4096 ≡ first_whole offset = omega (arith, z) in
      let c : endpos / 4096 - offset / 4096 ≡ whole_count offset endpos = omega (arith, z) in
      let last : offset / 4096 + (endpos / 4096 - offset / 4096) ≡ endpos / 4096 =
        omega (arith, before) in
      let at : offset + 0 ≡ offset / 4096 * 4096 = omega (arith, z) in
      let (x, m, run, r) =
        blocks_stage s.sfs_buffer s.memory (offset / 4096) (endpos / 4096 - offset / 4096) 0
          HasRead-none at w c last in
      let zero : buf ≡ buf + 0 = omega arith in
      (
        x,
        m,
        ap
              (λ a.
                io_blocks false s a offset endpos (offset / 4096) (endpos / 4096 - offset / 4096) 0)
              zero
            ∙ run,
        r,
      )

  later_stage :
      0 < offset % 4096
      → endpos / 4096 - offset / 4096 ≢ 0
      → (x m : Memory) → HasRead m (4096 - offset % 4096)
      → ReadOutcome (
          io_blocks false
            (with_memory s x m)
            (buf + (4096 - offset % 4096))
            offset
            endpos
            (offset / 4096 + 1)
            (endpos / 4096 - offset / 4096 - 1)
            (4096 - offset % 4096))
  later_stage mid more x m r =
      blocks_stage x m (offset / 4096 + 1) (endpos / 4096 - offset / 4096 - 1)
        (4096 - offset % 4096) r (omega arith) (omega (arith, mid)) (omega (arith, mid))
        (omega (arith, more))

  pub io_head_lem : ReadOutcome (io_head false s buf offset endpos)
  unfolding io_head piece
  io_head_lem = elim (Bool-cases (offset % 4096 == 0)) [
    | inl z ↦ let (x, m, run, r) = aligned_stage (ground (arith, z)) in (x, m, rw z run, r)
    | inr nz ↦
        let mid : 0 < offset % 4096 = ground (arith, nz) in
        elim (Bool-cases (endpos / 4096 - offset / 4096 == 0)) [
          | inl one ↦
              let n0 : endpos / 4096 - offset / 4096 ≡ 0 = ground (arith, one) in
              let fits : offset % 4096 + (endpos - offset) ≤ 4096 = omega (arith, n0, before) in
              let (x, m, run, r) = head_read (endpos - offset) fits (omega arith) mid in
              (x, m, rw (nz, one) (rw run (finish_read x m (endpos - offset) refl)), r)
          | inr several ↦
              let more : endpos / 4096 - offset / 4096 ≢ 0 = ground (arith, several) in
              let (x, m, run, r) =
                head_read (4096 - offset % 4096) (omega arith) (omega (arith, more)) mid in
              let (x', m', rest, r') = later_stage mid more x m r in
              (x', m', rw (nz, several) (rw run rest), r')
        ]
  ]
