-- ===== src/Vmm/Tests.antt =====
-- Runs of lab8/code/kern/mm/vmm.c on a concrete list of areas.
use os_labs.Prelude.{
  ℕ, ◌*◌, ◌≡◌, ◌↔◌, refl, arith, Bool, true, false, none, some, [], ◌∷◌, inl, inr,
}
use os_labs.Vmm.{
  Flags, Vma, Mm, search_list, find_vma, insert_vma_struct, mapped, mm_map, user_access,
  user_mem_check, ulong_mod,
}
use os_labs.Vmm.Areas.{Member, IsValid, find_vma-search_list}
use os_labs.Vmm.Insert.{Disjoint, insert_vma_struct_iff, insert_vma_struct-IsValid}
use os_labs.Vmm.Map.{area, mm_map-mapped, mm_map-panics}
use os_labs.Vmm.Check.{Permitted, user_mem_check-Permitted}

abbrev flags : Flags
flags = record { read = true; write = false; stack = false }

abbrev pages_of : ℕ → ℕ → Vma
pages_of start end = record { vm_start = start * 4096; vm_end = end * 4096; vm_flags = flags }

-- Pages 600 to 610 and 620 to 630, the second in the cache.
abbrev low : Vma
low = pages_of 600 610

abbrev high : Vma
high = pages_of 620 630

abbrev mm : Mm
mm = record { mmap_list = low ∷ high ∷ []; mmap_cache = some high; map_count = 2 }

mm-IsValid : IsValid mm
mm-IsValid = record { sorted = ground arith; cached = inr (inl refl) }

find_example :
    ((find_vma mm 2461696).1 ≡ search_list mm.mmap_list 2461696)
    × IsValid (find_vma mm 2461696).0
    × ((find_vma mm 2461696).0.mmap_list ≡ mm.mmap_list)
find_example = find_vma-search_list mm 2461696 mm-IsValid

insert_iff_example :
    ((mm' : Mm) × (insert_vma_struct mm (pages_of 605 615) ≡ some mm'))
    ↔ Disjoint (pages_of 605 615) mm.mmap_list
insert_iff_example = insert_vma_struct_iff mm (pages_of 605 615) mm-IsValid (omega arith)

insert_example :
    (mm' : Mm) × (insert_vma_struct mm (pages_of 610 620) ≡ some mm')
    × IsValid mm'
    × Member (pages_of 610 620) mm'.mmap_list
    × ((u : Vma) → Member u mm.mmap_list → Member u mm'.mmap_list)
    × (mm'.map_count ≡ 3)
insert_example =
    insert_vma_struct-IsValid mm (pages_of 610 620) mm-IsValid (omega arith) (ground arith)

-- Pages 612 to 614: free. 615 to 625: free at the start only. 605 to 606: mapped.
map_example :
    (mm' : Mm) × (mm_map true mm 2506762 5000 flags ≡ some (mm', mapped (area 2506762 5000 flags)))
    × IsValid mm'
    × Member (area 2506762 5000 flags) mm'.mmap_list
    × ((u : Vma) → Member u mm.mmap_list → Member u mm'.mmap_list)
map_example = mm_map-mapped mm 2506762 5000 flags mm-IsValid refl (ground arith)

panic_example : mm_map true mm 2519040 40960 flags ≡ none
unfolding search_list
panic_example =
    mm_map-panics mm 2519040 40960 flags high mm-IsValid refl refl (inr (inl refl)) (omega arith)
      (omega arith)

check_example :
    (r : Mm × Bool) × (user_mem_check ulong_mod mm 2478080 4096 false ≡ some r)
    × IsValid r.0
    × (r.0.mmap_list ≡ mm.mmap_list)
    × (r.1 ≡ true
        → (user_access 2478080 2482176 ≡ true) × Permitted mm.mmap_list 2478080 2482176 false)
check_example = user_mem_check-Permitted ulong_mod mm 2478080 4096 false mm-IsValid (omega arith)
