-- ===== src/Vmm/Insert.antt =====
-- `insert_vma_struct` of lab8/code/kern/mm/vmm.c.
use os_labs.Prelude.{
  ℕ, ◌+◌, ◌≡◌, ◌↔◌, ◌≤◌, ◌<◌, refl, ◌⊎◌, inl, inr, Option, none, some, List, [], ◌∷◌, ltb, leb,
  if◌then◌else◌, arith, Bool-cases, Option-cases, ◌>>=◌,
}
use os_labs.Vmm.{Vma, Mm, check_vma_overlap, check_prev, insert_walk, insert_vma_struct}
use os_labs.Vmm.Areas.{Sorted, Member, Cached, IsValid}

-- The area overlaps none of the list.
abbrev pub Disjoint : Vma → List Vma → Type 0
Disjoint v [] = Unit
Disjoint v (u ∷ us) = ((v.vm_end ≤ u.vm_start) ⊎ (u.vm_end ≤ v.vm_start)) × Disjoint v us

-- What lies in front of the place that the walk has reached.
abbrev Passed : Option Vma → ℕ → Vma → Type 0
Passed none lo v = lo ≡ 0
Passed (some p) lo v = (p.vm_start < p.vm_end) × (p.vm_end ≡ lo) × (p.vm_start ≤ v.vm_start)

check_prev_iff :
    (p : Option Vma) (lo : ℕ) (v : Vma)
    → Passed p lo v
    → v.vm_start < v.vm_end
    → check_prev p v ≡ (if leb lo v.vm_start then some tt else none)
unfolding check_vma_overlap
check_prev_iff none lo v h ne = ground arith
check_prev_iff (some p) lo v h ne = ground arith

-- If it overlaps none, the walk succeeds, and the list is valid with the area in it.
insert_walk_sound :
    (vs : List Vma) (p : Option Vma) (lo : ℕ) (v : Vma)
    → Passed p lo v
    → Sorted lo vs
    → v.vm_start < v.vm_end
    → lo ≤ v.vm_start
    → Disjoint v vs
    → (vs' : List Vma) × (insert_walk p vs v ≡ some vs')
      × Sorted lo vs'
      × Member v vs'
      × ((u : Vma) → Member u vs → Member u vs')
unfolding insert_walk
insert_walk_sound [] p lo v h s ne le d =
    (v ∷ [], ground (arith, check_prev_iff p lo v h ne), (le, ne, tt), inl refl, λ u m. inr m)
insert_walk_sound (w ∷ ws) p lo v h s ne le d = elim (Bool-cases (ltb v.vm_start w.vm_start)) [
  | inl first ↦ (
    v ∷ w ∷ ws,
    ground (arith, check_prev_iff p lo v h ne),
    (le, ne, (ground arith, s.1, s.2)),
    inl refl,
    λ u m. inr m,
  )
  | inr later ↦
      let r =
        insert_walk_sound ws (some w) w.vm_end v (s.1, refl, ground arith) s.2 ne (ground arith)
          d.1 in
      (
        w ∷ r.0,
        ground (arith, r.1),
        (s.0, s.1, r.2),
        inr r.3,
        λ u m. elim m [ inl e ↦ inl e | inr k ↦ inr (r.4 u k) ],
      )
]

Disjoint-after : (vs : List Vma) (lo : ℕ) (v : Vma) → Sorted lo vs → v.vm_end ≤ lo → Disjoint v vs
Disjoint-after [] lo v s h = tt
Disjoint-after (w ∷ ws) lo v s h =
    (inl (omega arith), Disjoint-after ws w.vm_end v s.2 (omega arith))

Cached-keeps :
    (c : Option Vma) (vs us : List Vma)
    → ((u : Vma) → Member u vs → Member u us)
    → Cached c vs
    → Cached c us
Cached-keeps none vs us keeps m = tt
Cached-keeps (some v) vs us keeps m = keeps v m

-- Where the walk succeeds the area overlaps none.
insert_walk-Disjoint :
    (vs : List Vma) (p : Option Vma) (lo : ℕ) (v : Vma) {vs' : List Vma}
    → Passed p lo v
    → Sorted lo vs
    → v.vm_start < v.vm_end
    → insert_walk p vs v ≡ some vs'
    → Disjoint v vs × (lo ≤ v.vm_start)
unfolding insert_walk
insert_walk-Disjoint [] p lo v {vs'} h s ne e = (tt, ground (arith, check_prev_iff p lo v h ne))
insert_walk-Disjoint (w ∷ ws) p lo v {vs'} h s ne e =
    elim (Bool-cases (ltb v.vm_start w.vm_start)) [
      | inl first ↦
          let at : (v.vm_end ≤ w.vm_start) × (lo ≤ v.vm_start) =
            ground (arith, e, first, check_prev_iff p lo v h ne) in
          ((inl at.0, Disjoint-after ws w.vm_end v s.2 (omega (arith, at.0))), at.1)
      | inr later ↦
          let more = later_walk (insert_walk (some w) ws v) (rw later at e) in
          let r =
            insert_walk-Disjoint ws (some w) w.vm_end v {vs' = more.0} (s.1, refl, ground arith) s.2
              ne more.1 in
          ((inr r.1, r.0), omega (arith, r.1))
    ]
  where
    later_walk :
        (o : Option (List Vma))
        → (o >>= λ us. some (w ∷ us)) ≡ some vs'
        → (us : List Vma) × (o ≡ some us)
    later_walk none e = cc
    later_walk (some us) e = (us, refl)

-- `insert_vma_struct` of an area that is not empty, on a valid list: its assertions hold exactly
-- when the area overlaps none of the list.
pub insert_vma_struct_iff :
    (mm : Mm) (v : Vma)
    → IsValid mm
    → v.vm_start < v.vm_end
    → ((mm' : Mm) × (insert_vma_struct mm v ≡ some mm')) ↔ Disjoint v mm.mmap_list
unfolding insert_vma_struct
insert_vma_struct_iff mm v k ne = (
  λ r.
      (insert_walk-Disjoint mm.mmap_list none 0 v {vs' = (walked r).0} refl k.sorted ne
        (walked r).1).0,
  λ d.
      let r = insert_walk_sound mm.mmap_list none 0 v refl k.sorted ne (omega arith) d in
      (record mm { mmap_list = r.0; map_count = mm.map_count + 1 }, ground (arith, r.1)),
)
  where
    walked :
        (mm' : Mm) × (insert_vma_struct mm v ≡ some mm')
        → (us : List Vma) × (insert_walk none mm.mmap_list v ≡ some us)
    walked r = elim (Option-cases (insert_walk none mm.mmap_list v)) [
      | inl e ↦ absurd (ground (arith, e, r.1))
      | inr found ↦ found
    ]

-- Then the list is valid again, holds the new area and all those of before, and the count has
-- risen by one.
pub insert_vma_struct-IsValid :
    (mm : Mm) (v : Vma)
    → IsValid mm
    → v.vm_start < v.vm_end
    → Disjoint v mm.mmap_list
    → (mm' : Mm) × (insert_vma_struct mm v ≡ some mm')
      × IsValid mm'
      × Member v mm'.mmap_list
      × ((u : Vma) → Member u mm.mmap_list → Member u mm'.mmap_list)
      × (mm'.map_count ≡ mm.map_count + 1)
unfolding insert_vma_struct
insert_vma_struct-IsValid mm v k ne d =
    let r = insert_walk_sound mm.mmap_list none 0 v refl k.sorted ne (omega arith) d in
    (
      record mm { mmap_list = r.0; map_count = mm.map_count + 1 },
      ground (arith, r.1),
      record { sorted = r.2; cached = Cached-keeps mm.mmap_cache mm.mmap_list r.0 r.4 k.cached },
      r.3,
      r.4,
      refl,
    )
