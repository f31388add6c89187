-- ===== src/Iobuf.antt =====
-- lab8/code/kern/fs/iobuf.c: the buffers of reads and writes, over the memory of libs/string.c.
pub mod Move
mod Tests
use os_labs.Prelude.{
  ℕ, ◌+◌, ◌-◌, Bool, ◌==◌, ltb, leb, if◌then◌else◌, Option, some, ◌>>=◌, ◌>>◌, assert,
}
use os_labs.Strings.{Memory, memmove, memset}

pub record Iobuf : Type 0 where
  pub io_base : ℕ
  pub io_offset : ℕ
  pub io_len : ℕ
  pub io_resid : ℕ

unfoldable pub iobuf_init : ℕ → ℕ → ℕ → Iobuf
iobuf_init base len offset = record {
  io_base = base;
  io_offset = offset;
  io_len = len;
  io_resid = len;
}

unfoldable pub iobuf_skip : Iobuf → ℕ → Option Iobuf
iobuf_skip iob n =
    assert (leb n iob.io_resid)
    >> some (record iob {
      io_base = iob.io_base + n;
      io_offset = iob.io_offset + n;
      io_resid = iob.io_resid - n;
    })

-- What a transfer leaves: `*copiedp`, and whether it returns 0 and not `-E_NO_MEM`.
pub record Moved : Type 0 where
  pub memory : Memory
  pub buffer : Iobuf
  pub copied : ℕ
  pub complete : Bool

-- The part of both transfers that is the same, with what they do to the memory.
unfoldable pub transfer : (ℕ → Memory) → Memory → Iobuf → ℕ → Option Moved
unfolding iobuf_skip
transfer write m iob len =
    let alen = if ltb len iob.io_resid then len else iob.io_resid in
    let done = iobuf_skip iob alen >>= λ b.
    some (record { memory = write alen; buffer = b; copied = alen; complete = len - alen == 0 }) in
    if ltb 0 alen
    then done
    else some (record { memory = m; buffer = iob; copied = alen; complete = len == 0 })

unfoldable pub iobuf_move : Memory → Iobuf → ℕ → ℕ → Bool → Option Moved
unfolding transfer
iobuf_move m iob bytes len m2b =
    let src = if m2b then bytes else iob.io_base in
    let dst = if m2b then iob.io_base else bytes in
    transfer (λ alen. memmove m dst src alen) m iob len

unfoldable pub iobuf_move_zeros : Memory → Iobuf → ℕ → Option Moved
unfolding transfer
iobuf_move_zeros m iob len = transfer (λ alen. memset m iob.io_base 0 alen) m iob len
