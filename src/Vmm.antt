-- ===== src/Vmm.antt =====
-- lab8/code/kern/mm/vmm.c: the virtual memory areas of a process. `mmap_list` is the list of the
-- areas, and `mmap_cache`, a pointer to one of them, is the area itself.
pub mod Areas
pub mod Insert
pub mod Map
pub mod Check
mod Tests
use os_labs.Prelude.{
  ℕ, zero, suc, ◌+◌, ◌-◌, ◌*◌, ◌%◌, ◌^◌, Bool, true, false, not, ◌&&◌, ◌||◌, Option, none, some,
  List, [], ◌∷◌, leb, ltb, ◌==◌, if◌then◌else◌, ◌>>=◌, ◌>>◌, assert,
}

-- `vm_flags`, by its bits.
pub record Flags : Type 0 where
  pub read : Bool
  pub write : Bool
  pub stack : Bool

pub record Vma : Type 0 where
  pub vm_start : ℕ
  pub vm_end : ℕ
  pub vm_flags : Flags

pub record Mm : Type 0 where
  pub mmap_list : List Vma
  pub mmap_cache : Option Vma
  pub map_count : ℕ

abbrev pub page_size : ℕ
page_size = 4096

abbrev pub user_base : ℕ
user_base = 0x00200000

abbrev pub user_top : ℕ
user_top = 0x80000000

abbrev pub ulong_mod : ℕ
ulong_mod = 2 ^ 64

-- `ROUNDDOWN(a, PGSIZE)` and `ROUNDUP(a, PGSIZE)` on 64-bit numbers.
abbrev pub round_down : ℕ → ℕ
round_down a = a - a % page_size

abbrev pub round_up : ℕ → ℕ
round_up a = round_down ((a + page_size - 1) % ulong_mod)

abbrev pub user_access : ℕ → ℕ → Bool
user_access start end = leb user_base start && ltb start end && leb end user_top

-- `kmalloc` gave memory.
unfoldable pub mm_create : Bool → Option Mm
mm_create allocated =
    if allocated then some (record { mmap_list = []; mmap_cache = none; map_count = 0 }) else none

unfoldable pub vma_create : Bool → ℕ → ℕ → Flags → Option Vma
vma_create allocated start end flags =
    if allocated then some (record { vm_start = start; vm_end = end; vm_flags = flags }) else none

abbrev pub covers : Vma → ℕ → Bool
covers v addr = leb v.vm_start addr && ltb addr v.vm_end

-- The walk over `mmap_list`.
unfoldable pub search_list : List Vma → ℕ → Option Vma
search_list [] addr = none
search_list (v ∷ vs) addr = let rest = search_list vs addr in if covers v addr then some v else rest

abbrev pub cache_covers : Option Vma → ℕ → Bool
cache_covers none addr = false
cache_covers (some v) addr = covers v addr

-- The new `mmap_cache`: it changes only where an area is returned.
abbrev pub keep_cache : Mm → Option Vma → Mm
keep_cache mm none = mm
keep_cache mm (some v) = record mm { mmap_cache = some v }

unfoldable pub find_vma : Mm → ℕ → Mm × Option Vma
unfolding search_list
find_vma mm addr =
    let found =
      if cache_covers mm.mmap_cache addr then mm.mmap_cache else search_list mm.mmap_list addr in
    (keep_cache mm found, found)

unfoldable pub check_vma_overlap : Vma → Vma → Option (Unit {0})
check_vma_overlap prev next =
    assert (ltb prev.vm_start prev.vm_end)
    >> (assert (leb prev.vm_end next.vm_start) >> assert (ltb next.vm_start next.vm_end))

abbrev pub check_prev : Option Vma → Vma → Option (Unit {0})
check_prev none vma = some tt
check_prev (some prev) vma = check_vma_overlap prev vma

-- The walk to the place of the new area, `prev` being the area just passed, and the checks there.
unfoldable pub insert_walk : Option Vma → List Vma → Vma → Option (List Vma)
unfolding check_vma_overlap
insert_walk prev [] vma = check_prev prev vma >> some (vma ∷ [])
insert_walk prev (v ∷ vs) vma =
    let rest = insert_walk (some v) vs vma >>= λ vs'. some (v ∷ vs') in
    if ltb vma.vm_start v.vm_start
    then check_prev prev vma >> (check_vma_overlap vma v >> some (vma ∷ v ∷ vs))
    else rest

unfoldable pub insert_vma_struct : Mm → Vma → Option Mm
unfolding insert_walk
insert_vma_struct mm vma =
    assert (ltb vma.vm_start vma.vm_end)
    >> (insert_walk none mm.mmap_list vma >>= λ vs.
        some (record mm { mmap_list = vs; map_count = mm.map_count + 1 }))

-- What `mm_map` returns: 0 with the new area, `-E_INVAL` or `-E_NO_MEM`.
pub data MapResult : Type 0 where
  mapped : Vma → MapResult
  invalid no_memory : MapResult

-- The overlap test in front of the insertion.
abbrev pub end_after_start : Option Vma → ℕ → Bool
end_after_start none end = false
end_after_start (some v) end = ltb v.vm_start end

unfoldable pub mm_map : Bool → Mm → ℕ → ℕ → Flags → Option (Mm × MapResult)
mm_map allocated mm addr len flags =
    let start = round_down addr in
    let end = round_up ((addr + len) % ulong_mod) in
    let (mm1, found) = find_vma mm start in
    if not (user_access start end)
    then some (mm, invalid)
    else if end_after_start found end
    then some (mm1, invalid)
    else elim (vma_create allocated start end flags) [
      | none ↦ some (mm1, no_memory)
      | some vma ↦ insert_vma_struct mm1 vma >>= λ mm2. some (mm2, mapped vma)
    ]

abbrev pub permits : Flags → Bool → Bool
permits flags write = if write then flags.write else flags.read

-- The loop of `user_mem_check`.
unfoldable pub check_range : ℕ → Mm → ℕ → ℕ → Bool → Option (Mm × Bool)
check_range zero mm start end write = none
check_range (suc f) mm start end write =
    let (mm1, found) = find_vma mm start in
    elim (ltb start end) [
      | false ↦ some (mm, true)
      | true ↦ elim found [
        | none ↦ some (mm1, false)
        | some v ↦
            if ltb start v.vm_start
            then some (mm1, false)
            else if not (permits v.vm_flags write)
            then some (mm1, false)
            else if write && v.vm_flags.stack && ltb start (v.vm_start + page_size)
            then some (mm1, false)
            else check_range f mm1 v.vm_end end write
      ]
    ]

-- `user_mem_check` for a process with an `mm`.
unfoldable pub user_mem_check : ℕ → Mm → ℕ → ℕ → Bool → Option (Mm × Bool)
unfolding check_range
user_mem_check fuel mm addr len write =
    if not (user_access addr ((addr + len) % ulong_mod))
    then some (mm, false)
    else check_range fuel mm addr ((addr + len) % ulong_mod) write
