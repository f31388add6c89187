-- ===== src/Vmm/Map.antt =====
-- `mm_map` of lab8/code/kern/mm/vmm.c.
use mathlib.Core.Path.{subst}
use os_labs.Prelude.{
  ℕ, ◌+◌, ◌%◌, ◌≡◌, ◌≤◌, ◌<◌, refl, ◌∙◌, sym, ◌⊎◌, inl, inr, Bool, true, false, none, some, List,
  [], ◌∷◌, arith, Bool-cases, Option-cases, ◌>>=◌,
}
use os_labs.Vmm.{
  Flags, Vma, Mm, covers, search_list, find_vma, vma_create, insert_vma_struct, mapped, invalid,
  mm_map, round_down, round_up, user_access, ulong_mod,
}
use os_labs.Vmm.Areas.{Member, IsValid, find_vma-search_list, search_list_sound, search_list-Member}
use os_labs.Vmm.Insert.{Disjoint, insert_vma_struct_iff, insert_vma_struct-IsValid}

-- The area that a call asks for.
abbrev pub area : ℕ → ℕ → Flags → Vma
area addr len flags = record {
  vm_start = round_down addr;
  vm_end = round_up ((addr + len) % ulong_mod);
  vm_flags = flags;
}

Disjoint-Member :
    (vs : List Vma) (v u : Vma)
    → Disjoint v vs
    → Member u vs
    → (v.vm_end ≤ u.vm_start) ⊎ (u.vm_end ≤ v.vm_start)
Disjoint-Member [] v u d m = absurd m
Disjoint-Member (w ∷ ws) v u d (inl e) =
    subst (λ x. (v.vm_end ≤ x.vm_start) ⊎ (x.vm_end ≤ v.vm_start)) (sym e) d.0
Disjoint-Member (w ∷ ws) v u d (inr m) = Disjoint-Member ws v u d.1 m

not_covered :
    (vs : List Vma) (v : Vma)
    → Disjoint v vs
    → v.vm_start < v.vm_end
    → search_list vs v.vm_start ≡ none
not_covered vs v d ne = elim (Option-cases (search_list vs v.vm_start)) [
  | inl e ↦ e
  | inr (u, e) ↦
      let r = search_list_sound vs v.vm_start e in
      absurd (ground (arith, r.1, Disjoint-Member vs v u d r.0))
]

-- The call, where the range is a user's and no area covers its start.
mm_map-insert :
    (mm : Mm) (addr len : ℕ) (flags : Flags)
    → user_access (area addr len flags).vm_start (area addr len flags).vm_end ≡ true
    → (find_vma mm (round_down addr)).1 ≡ none
    → mm_map true mm addr len flags ≡ (
        insert_vma_struct (find_vma mm (round_down addr)).0 (area addr len flags) >>= λ mm'.
        some (mm', mapped (area addr len flags)))
unfolding mm_map vma_create
mm_map-insert mm addr len flags u e = rw (u, e)

-- `mm_map` of a user range that overlaps no area, with memory for the new one, maps it: the list
-- stays valid, holds the new area and keeps the others.
pub mm_map-mapped :
    (mm : Mm) (addr len : ℕ) (flags : Flags)
    → IsValid mm
    → user_access (area addr len flags).vm_start (area addr len flags).vm_end ≡ true
    → Disjoint (area addr len flags) mm.mmap_list
    → (mm' : Mm) × (mm_map true mm addr len flags ≡ some (mm', mapped (area addr len flags)))
      × IsValid mm'
      × Member (area addr len flags) mm'.mmap_list
      × ((u : Vma) → Member u mm.mmap_list → Member u mm'.mmap_list)
mm_map-mapped mm addr len flags k u d =
    let v = area addr len flags in
    let f = find_vma-search_list mm v.vm_start k in
    let free = not_covered mm.mmap_list v d (ground (arith, u)) in
    let d' = subst (Disjoint v) (sym f.2) d in
    let r = insert_vma_struct-IsValid (find_vma mm v.vm_start).0 v f.1 (ground (arith, u)) d' in
    (
      r.0,
      mm_map-insert mm addr len flags u (f.0 ∙ free) ∙ rw r.1,
      r.2,
      r.3,
      λ w m. r.4 w (subst (Member w) (sym f.2) m),
    )

-- `mm_map` of a user range whose start no area covers, but which overlaps one, does not return
-- `-E_INVAL`: an assertion of the insertion fails, which panics the kernel.
pub mm_map-panics :
    (mm : Mm) (addr len : ℕ) (flags : Flags) (u : Vma)
    → IsValid mm
    → user_access (area addr len flags).vm_start (area addr len flags).vm_end ≡ true
    → search_list mm.mmap_list (area addr len flags).vm_start ≡ none
    → Member u mm.mmap_list
    → u.vm_start < (area addr len flags).vm_end
    → (area addr len flags).vm_start < u.vm_end
    → mm_map true mm addr len flags ≡ none
mm_map-panics mm addr len flags u k ok free m before after =
    let v = area addr len flags in
    let f = find_vma-search_list mm v.vm_start k in
    mm_map-insert mm addr len flags ok (f.0 ∙ free)
    ∙ elim (Option-cases (insert_vma_struct (find_vma mm v.vm_start).0 v)) [
      | inl e ↦ rw e
      | inr r ↦
          let d =
            (insert_vma_struct_iff (find_vma mm v.vm_start).0 v f.1 (ground (arith, ok))).0 r in
          absurd (omega (arith, Disjoint-Member mm.mmap_list v u (subst (Disjoint v) f.2 d) m))
    ]

-- `mm_map` with a range that is no user's, or whose start an area covers that it reaches into,
-- returns `-E_INVAL` and changes no area.
pub mm_map-invalid :
    (allocated : Bool) (mm : Mm) (addr len : ℕ) (flags : Flags)
    → IsValid mm
    → (user_access (area addr len flags).vm_start (area addr len flags).vm_end ≡ false)
      ⊎ ((u : Vma) × Member u mm.mmap_list
          × (covers u (area addr len flags).vm_start ≡ true)
          × (u.vm_start < (area addr len flags).vm_end))
    → (mm' : Mm) × (mm_map allocated mm addr len flags ≡ some (mm', invalid))
      × (mm'.mmap_list ≡ mm.mmap_list)
unfolding mm_map
mm_map-invalid allocated mm addr len flags k (inl bad) = (mm, rw bad, refl)
mm_map-invalid allocated mm addr len flags k (inr (u, m, c, before)) =
    let v = area addr len flags in
    let f = find_vma-search_list mm v.vm_start k in
    let found : (find_vma mm v.vm_start).1 ≡ some u =
      f.0 ∙ search_list-Member mm.mmap_list 0 u v.vm_start k.sorted m c in
    elim (Bool-cases (user_access v.vm_start v.vm_end)) [
      | inl ok ↦ ((find_vma mm v.vm_start).0, rw (ok, found) (ground arith), f.2)
      | inr bad ↦ (mm, rw bad, refl)
    ]
