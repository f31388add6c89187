-- ===== src/Vmm/Areas.antt =====
-- Valid lists of memory areas for lab8/code/kern/mm/vmm.c, and what `find_vma` finds in them.
use mathlib.Core.Path.{subst}
use os_labs.Prelude.{
  ℕ, ◌≡◌, ◌≤◌, ◌<◌, refl, sym, ◌⊎◌, inl, inr, true, Option, none, some, List, [], ◌∷◌,
  if◌then◌else◌, arith, Bool-cases, Option-cases,
}
use os_labs.Vmm.{Vma, Mm, covers, search_list, cache_covers, keep_cache, find_vma}

-- The areas lie in order from `lo` on, are not empty and do not overlap.
abbrev pub Sorted : ℕ → List Vma → Type 0
Sorted lo [] = Unit
Sorted lo (v ∷ vs) = (lo ≤ v.vm_start) × (v.vm_start < v.vm_end) × Sorted v.vm_end vs

abbrev pub Member : Vma → List Vma → Type 0
Member v [] = ⊥
Member v (u ∷ us) = (v ≡ u) ⊎ Member v us

-- The cache, if there is one, is an area of the list.
abbrev pub Cached : Option Vma → List Vma → Type 0
Cached none vs = Unit
Cached (some v) vs = Member v vs

pub record IsValid (mm : Mm) : Type 0 where
  pub sorted : Sorted 0 mm.mmap_list
  pub cached : Cached mm.mmap_cache mm.mmap_list

Sorted-lower : (vs : List Vma) (lo addr : ℕ) → Sorted lo vs → addr < lo → search_list vs addr ≡ none
unfolding search_list
Sorted-lower [] lo addr s h = refl
Sorted-lower (v ∷ vs) lo addr s h = ground (arith, Sorted-lower vs v.vm_end addr s.2)

Member-start : (vs : List Vma) (lo : ℕ) (v : Vma) → Sorted lo vs → Member v vs → lo ≤ v.vm_start
Member-start [] lo v s m = absurd m
Member-start (u ∷ us) lo v s (inl e) = ground arith
Member-start (u ∷ us) lo v s (inr m) = omega (arith, Member-start us u.vm_end v s.2 m)

-- An area of a valid list that covers an address is the one that the walk finds.
pub search_list-Member :
    (vs : List Vma) (lo : ℕ) (v : Vma) (addr : ℕ)
    → Sorted lo vs
    → Member v vs
    → covers v addr ≡ true
    → search_list vs addr ≡ some v
unfolding search_list
search_list-Member [] lo v addr s m c = absurd m
search_list-Member (u ∷ us) lo v addr s (inl e) c = rw (← e) (ground (arith, c))
search_list-Member (u ∷ us) lo v addr s (inr m) c =
    ground (arith, Member-start us u.vm_end v s.2 m, search_list-Member us u.vm_end v addr s.2 m c)

pub search_list_sound :
    (vs : List Vma) (addr : ℕ) {v : Vma}
    → search_list vs addr ≡ some v
    → Member v vs × (covers v addr ≡ true)
unfolding search_list
search_list_sound [] addr {v} e = cc
search_list_sound (u ∷ us) addr {v} e = elim (Bool-cases (covers u addr)) [
  | inl c ↦
      let same : u ≡ v = ground (arith, e, c) in
      (inl (sym same), subst (λ w. covers w addr ≡ true) same c)
  | inr c ↦ let r = search_list_sound us addr {v = v} (rw c at e) in (inr r.0, r.1)
]

cache-agrees :
    (c : Option Vma) (vs : List Vma) (addr : ℕ)
    → Sorted 0 vs
    → Cached c vs
    → (if cache_covers c addr then c else search_list vs addr) ≡ search_list vs addr
cache-agrees none vs addr s m = refl
cache-agrees (some v) vs addr s m = elim (Bool-cases (covers v addr)) [
  | inl c ↦ rw c (sym (search_list-Member vs 0 v addr s m c))
  | inr c ↦ rw c
]

keep_cache-IsValid :
    (mm : Mm) (found : Option Vma)
    → Sorted 0 mm.mmap_list
    → Cached found mm.mmap_list
    → Cached mm.mmap_cache mm.mmap_list
    → IsValid (keep_cache mm found) × ((keep_cache mm found).mmap_list ≡ mm.mmap_list)
keep_cache-IsValid mm none s c o = (record { sorted = s; cached = o }, refl)
keep_cache-IsValid mm (some v) s c o = (record { sorted = s; cached = c }, refl)

found-Cached : (vs : List Vma) (addr : ℕ) → Cached (search_list vs addr) vs
found-Cached vs addr = elim (Option-cases (search_list vs addr)) [
  | inl e ↦ rw e tt
  | inr (v, e) ↦ rw e (search_list_sound vs addr e).0
]

-- On a valid list the cache does not change what `find_vma` returns: the area that covers the
-- address, or none. The call keeps the list valid and in place.
pub find_vma-search_list :
    (mm : Mm) (addr : ℕ)
    → IsValid mm
    → ((find_vma mm addr).1 ≡ search_list mm.mmap_list addr)
      × IsValid (find_vma mm addr).0
      × ((find_vma mm addr).0.mmap_list ≡ mm.mmap_list)
unfolding find_vma
find_vma-search_list mm addr v =
    let e = cache-agrees mm.mmap_cache mm.mmap_list addr v.sorted v.cached in
    let found = search_list mm.mmap_list addr in
    let kept = keep_cache-IsValid mm found v.sorted (found-Cached mm.mmap_list addr) v.cached in
    (
      e,
      subst (λ o. IsValid (keep_cache mm o)) (sym e) kept.0,
      subst (λ o. (keep_cache mm o).mmap_list ≡ mm.mmap_list) (sym e) kept.1,
    )
