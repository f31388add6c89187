-- ===== src/UserMem/Tests.antt =====
-- Runs of the copies to and from user memory.
use os_labs.Prelude.{◌≡◌, inl, inr, arith, true, false, none, some, [], ◌∷◌}
use os_labs.Strings.{Memory}
use os_labs.Vmm.{Vma, Mm, ulong_mod}
use os_labs.Vmm.Areas.{IsValid}
use os_labs.UserMem.{Result, copy_to_user, copy_from_user}
use os_labs.UserMem.Copy.{Copied, copy_to_user-Copied, copy_from_user-Copied}

abbrev area : Vma
area = record {
  vm_start = 2457600;
  vm_end = 2498560;
  vm_flags = record { read = true; write = true; stack = false };
}

abbrev mm : Mm
mm = record { mmap_list = area ∷ []; mmap_cache = none; map_count = 1 }

mm-IsValid : IsValid mm
mm-IsValid = ground arith

abbrev mem : Memory
mem a = a

copy_to_user_example :
    (r : Result) × (copy_to_user ulong_mod mm mem 2457700 5 20 ≡ some r)
    × Copied mm mem 2457700 5 20 2457700 true r
copy_to_user_example =
    copy_to_user-Copied ulong_mod mm mem 2457700 5 20 mm-IsValid (omega arith) (inr (omega arith))

copy_from_user_example :
    (r : Result) × (copy_from_user ulong_mod mm mem 5 2457700 20 false ≡ some r)
    × Copied mm mem 5 2457700 20 2457700 false r
copy_from_user_example =
    copy_from_user-Copied ulong_mod mm mem 5 2457700 20 false mm-IsValid (omega arith)
      (inl (omega arith))
