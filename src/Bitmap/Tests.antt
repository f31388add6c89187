-- ===== src/Bitmap/Tests.antt =====
-- Runs of lab8/code/kern/fs/sfs/bitmap.c.
use os_labs.Prelude.{ℕ, ◌*◌, ◌≡◌, ◌≤◌, ◌<◌, arith, true, ltb, ◌==◌, if◌then◌else◌, Option, some}
use os_labs.Bitmap.{Bitmap, bitmap_create, bitmap_alloc}
use os_labs.Bitmap.Create.{bitmap_create_lem}
use os_labs.Bitmap.Bits.{is_free, Allocated, bitmap_alloc_lem}

-- 40 blocks in two words, of which the first five are in use.
abbrev used : Bitmap
used = record { nbits = 40; nwords = 2; map = λ w o. if w == 0 then ltb 4 o else ltb o 8 }

create_example :
    (b : Bitmap) × (bitmap_create true 40 ≡ some (some b))
    × (b.nbits ≡ 40)
    × (40 ≤ b.nwords * 32)
    × ((k : ℕ) → k < b.nwords * 32 → is_free b k ≡ ltb k 40)
create_example = bitmap_create_lem 40 (omega arith)

bitmap_alloc_example :
    (b' : Bitmap) × (i : Option ℕ) × (bitmap_alloc used ≡ some (b', i)) × Allocated used b' i
bitmap_alloc_example = bitmap_alloc_lem used
