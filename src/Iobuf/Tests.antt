-- ===== src/Iobuf/Tests.antt =====
-- Runs of lab8/code/kern/fs/iobuf.c.
use os_labs.Prelude.{ℕ, ◌+◌, ◌-◌, ◌≡◌, true, some, if◌then◌else◌}
use os_labs.Strings.{Memory}
use os_labs.Strings.Move.{within}
use os_labs.Iobuf.{Iobuf, Moved, iobuf_move, iobuf_move_zeros}
use os_labs.Iobuf.Move.{Transferred, iobuf_move-Transferred, iobuf_move_zeros-Transferred}

abbrev mem : Memory
mem a = a

abbrev ten_left : Iobuf
ten_left = record { io_base = 100; io_offset = 30; io_len = 40; io_resid = 10 }

iobuf_move_example :
    (r : Moved) × (iobuf_move mem ten_left 200 16 true ≡ some r)
    × Transferred ten_left 16 r
    × ((q : ℕ) → r.memory q ≡ (if within 100 r.copied q then mem (200 + (q - 100)) else mem q))
iobuf_move_example = iobuf_move-Transferred mem ten_left 200 16 true

iobuf_move_zeros_example :
    (r : Moved) × (iobuf_move_zeros mem ten_left 4 ≡ some r)
    × Transferred ten_left 4 r
    × ((q : ℕ) → r.memory q ≡ (if within 100 r.copied q then 0 else mem q))
iobuf_move_zeros_example = iobuf_move_zeros-Transferred mem ten_left 4
