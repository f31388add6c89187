-- ===== src/Sfs/IoBuffer.antt =====
-- `sfs_io` of lab8/code/kern/fs/sfs/sfs_inode.c as a read: the contents of a file through a buffer
-- of iobuf.c.
use os_labs.Prelude.{
  ℕ, ◌+◌, ◌-◌, ◌*◌, ◌≤◌, ◌<◌, ◌≡◌, ◌≢◌, inl, inr, refl, arith, true, false, not, leb, ◌==◌,
  if◌then◌else◌, Bool-cases, some,
}
use os_labs.Strings.{Memory}
use os_labs.Strings.Move.{within}
use os_labs.Iobuf.{Iobuf, iobuf_skip}
use os_labs.Sfs.{Sfs, ok}
use os_labs.Sfs.File.{sfs_io}
use os_labs.Sfs.Entry.{IsFile}
use os_labs.Sfs.Read.{with_memory}
use os_labs.Sfs.IoRead.{content, read_len, read_end, AreContiguous, sfs_io_nolock-content}

-- The buffer `b` is `iob` after `n` bytes.
pub record Advanced (iob b : Iobuf) (n : ℕ) : Type 0 where
  pub base : b.io_base ≡ iob.io_base + n
  pub offset : b.io_offset ≡ iob.io_offset + n
  pub resid : b.io_resid + n ≡ iob.io_resid
  pub size : b.io_len ≡ iob.io_len

advance :
    (iob : Iobuf) (n : ℕ)
    → n ≤ iob.io_resid
    → (b : Iobuf) × ((if not (n == 0) then iobuf_skip iob n else some iob) ≡ some b)
      × Advanced iob b n
unfolding iobuf_skip
advance iob n le = elim (Bool-cases (n == 0)) [
  | inl e ↦
      let z : n ≡ 0 = ground (arith, e) in
      (
        iob,
        rw e,
        record {
          base = omega (arith, z);
          offset = omega (arith, z);
          resid = omega (arith, z);
          size = refl;
        },
      )
  | inr e ↦
      let fits : leb n iob.io_resid ≡ true = ground (arith, le) in
      (
        record iob {
          io_base = iob.io_base + n;
          io_offset = iob.io_offset + n;
          io_resid = iob.io_resid - n;
        },
        rw (e, fits),
        record { base = refl; offset = refl; resid = omega (arith, le); size = refl },
      )
]

-- A read through a buffer of a file that is no directory, has blocks for its length, and whose
-- whole blocks in the range lie one behind the other on the disk, at an offset below
-- SFS_MAX_FILE_SIZE and with an end that `off_t` holds, fails no assertion and returns 0. The bytes
-- of the file from the buffer's offset on are in memory at its base, as many as the buffer has room
-- for and the file has; no other memory, no block and not the inode has changed; and the buffer is
-- that much further.
pub sfs_io-content :
    (s : Sfs)
    → IsFile s
    → s.size ≤ s.din_blocks * 4096
    → s.type ≢ 2
    → (iob : Iobuf) → iob.io_offset < 134217728
    → iob.io_offset + iob.io_resid < 9223372036854775808
    → AreContiguous s iob.io_offset (read_end s iob.io_offset iob.io_resid)
    → (x : Memory) × (m : Memory) × (b : Iobuf) × (sfs_io s iob false
        ≡ some (with_memory s x m, b, ok tt))
      × Advanced iob b (read_len s iob.io_offset iob.io_resid)
      × ((q : ℕ)
          → m q ≡ (
              if within iob.io_base (read_len s iob.io_offset iob.io_resid) q
              then content s (iob.io_offset + (q - iob.io_base))
              else s.memory q))
unfolding sfs_io
sfs_io-content s f sized nd iob lt fits h =
    let (x, m, run, r) =
      sfs_io_nolock-content s f sized nd iob.io_base iob.io_offset iob.io_resid lt fits h in
    let n : ℕ = read_len s iob.io_offset iob.io_resid in
    let (b, skip, a) = advance iob n (omega arith) in (x, m, b, rw (run, skip), a, r)
