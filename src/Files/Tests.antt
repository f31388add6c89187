-- ===== src/Files/Tests.antt =====
-- Runs of the table of open files of lab8/code/kern/fs/file.c.
use os_labs.Prelude.{
  ℕ, ◌≡◌, ◌<◌, ◌⊎◌, refl, arith, true, false, ◌==◌, if◌then◌else◌, none, some, negsuc,
}
use os_labs.Files.{
  fd_none, fd_init, fd_opened, File, Files, set_file, fd_array_alloc, AllocResult, found, max_open,
  fd_array_close, fd_array_dup,
}
use os_labs.Files.Counts.{holders}
use os_labs.Files.Valid.{IsValid}
use os_labs.Files.Alloc.{InUse, Lowest, fd_array_alloc-Lowest}
use os_labs.Files.Close.{SharedClosed, LastClosed, fd_array_close-IsValid}
use os_labs.Files.Dup.{fd_array_dup-IsValid}

-- Four entries: 0 is open on inode 7, 1 is set up, 2 and 3 are free.
abbrev entries : ℕ → File
entries i = record {
  status = if i == 0 then fd_opened else if i == 1 then fd_init else fd_none;
  readable = true;
  writable = false;
  fd = i;
  offset = 12;
  node = if i == 0 then some 7 else none;
  open_count = if i == 0 then 1 else 0;
}

abbrev table : Files
table = record { fd_array = entries; nentry = 4; inodes = λ n. record { ref_count = 2; opens = 1 } }

table-IsValid : IsValid table
unfolding holders
table-IsValid = record { sound = λ i h. ground arith; counted = λ n. (ground arith, omega arith) }

alloc-Lowest_example :
    (s' : Files) × (r : AllocResult) × (fd_array_alloc table (negsuc 0x9526) ≡ some (s', r))
    × IsValid s'
    × (((r ≡ max_open) × InUse entries 0 4)
        ⊎ ((i : ℕ) × (r ≡ found i)
            × Lowest entries 0 4 (some i)
            × (s' ≡ set_file table i (record (entries i) { status = fd_init; node = none }))))
alloc-Lowest_example = fd_array_alloc-Lowest table table-IsValid

close_example :
    (s' : Files) × (fd_array_close table 0 ≡ some s')
    × IsValid s'
    × (((1 < 1) × SharedClosed table s' 0)
        ⊎ (((entries 0).open_count ≡ 1) × LastClosed table s' 0 7))
close_example = fd_array_close-IsValid table 0 7 table-IsValid (omega arith) refl refl

dup_example :
    (s' : Files) × (fd_array_dup table 1 0 ≡ some s')
    × IsValid s'
    × ((s'.fd_array 1).status ≡ fd_opened)
    × ((s'.fd_array 1).node ≡ some 7)
    × ((s'.inodes 7).opens ≡ 2)
dup_example = fd_array_dup-IsValid table 1 0 7 table-IsValid (omega arith) refl refl refl
