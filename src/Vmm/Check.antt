-- ===== src/Vmm/Check.antt =====
-- `user_mem_check` of lab8/code/kern/mm/vmm.c.
use mathlib.Core.Path.{subst}
use os_labs.Prelude.{
  ℕ, zero, suc, ◌+◌, ◌-◌, ◌%◌, ◌≡◌, ◌≤◌, ◌<◌, refl, ◌∙◌, inl, inr, Bool, true, false, not, ◌&&◌,
  some, List, ltb, if◌then◌else◌, arith, Bool-cases, Option-cases,
}
use os_labs.Vmm.{
  Vma, Mm, covers, search_list, find_vma, permits, check_range, user_mem_check, page_size,
  user_access, ulong_mod,
}
use os_labs.Vmm.Areas.{Member, IsValid, find_vma-search_list, search_list_sound}

-- Every address of the range lies in an area that permits the access.
abbrev pub Permitted : List Vma → ℕ → ℕ → Bool → Type 0
Permitted vs start end write =
    (a : ℕ)
    → start ≤ a
    → a < end
    → (v : Vma) × Member v vs × (covers v a ≡ true) × (permits v.vm_flags write ≡ true)

-- What the check returns: the areas are unchanged, and if it accepts, the range is permitted.
pub record Checked (mm : Mm) (start end : ℕ) (write : Bool) (r : Mm × Bool) : Type 0 where
  pub valid : IsValid r.0
  pub kept : r.0.mmap_list ≡ mm.mmap_list
  pub safe : r.1 ≡ true → Permitted mm.mmap_list start end write

refused :
    (mm mm1 : Mm) (start end : ℕ) (write : Bool)
    → IsValid mm1
    → mm1.mmap_list ≡ mm.mmap_list
    → Checked mm start end write (mm1, false)
refused mm mm1 start end write v e = record { valid = v; kept = e; safe = λ h. cc }

Permitted-area :
    (vs : List Vma) (v : Vma) (start end : ℕ) (write : Bool)
    → Member v vs
    → covers v start ≡ true
    → permits v.vm_flags write ≡ true
    → Permitted vs v.vm_end end write
    → Permitted vs start end write
Permitted-area vs v start end write m c p rest a lo hi = elim (Bool-cases (ltb a v.vm_end)) [
  | inl e ↦ (v, m, ground (arith, c, e), p)
  | inr e ↦ rest a (ground (arith, e)) hi
]

-- One round inside an area that covers `start`, given what the remaining rounds return.
in_area :
    (f : ℕ) (mm mm1 : Mm) (v : Vma) (start end : ℕ) (write : Bool)
    → IsValid mm1
    → mm1.mmap_list ≡ mm.mmap_list
    → Member v mm.mmap_list
    → covers v start ≡ true
    → ((r : Mm × Bool) × (check_range f mm1 v.vm_end end write ≡ some r)
        × Checked mm1 v.vm_end end write r)
    → (r : Mm × Bool) × ((if ltb start v.vm_start
          then some (mm1, false)
          else if not (permits v.vm_flags write)
          then some (mm1, false)
          else if write && v.vm_flags.stack && ltb start (v.vm_start + page_size)
          then some (mm1, false)
          else check_range f mm1 v.vm_end end write)
        ≡ some r)
      × Checked mm start end write r
in_area f mm mm1 v start end write k e m c (r, run, ok) =
    let no = refused mm mm1 start end write k e in
    let inside : ltb start v.vm_start ≡ false = ground (arith, c) in
    elim (Bool-cases (permits v.vm_flags write)) [
      | inr p ↦ ((mm1, false), rw (inside, p), no)
      | inl p ↦
          elim (Bool-cases (write && v.vm_flags.stack && ltb start (v.vm_start + page_size))) [
            | inl g ↦ ((mm1, false), rw (inside, p, g), no)
            | inr g ↦ (
              r,
              rw (inside, p, g) run,
              record {
                valid = ok.valid;
                kept = ok.kept ∙ e;
                safe = λ h.
                    Permitted-area mm.mmap_list v start end write m c p
                      (subst (λ vs. Permitted vs v.vm_end end write) e (ok.safe h));
              },
            )
          ]
    ]

check_range-Checked :
    (f : ℕ) (mm : Mm) (start end : ℕ) (write : Bool)
    → IsValid mm
    → end - start < f
    → (r : Mm × Bool) × (check_range f mm start end write ≡ some r) × Checked mm start end write r
unfolding check_range
check_range-Checked zero mm start end write k lt = absurd (omega arith)
check_range-Checked (suc f) mm start end write k lt =
    let found = find_vma-search_list mm start k in
    let mm1 = (find_vma mm start).0 in
    elim (Bool-cases (ltb start end)) [
      | inr past ↦ (
        (mm, true),
        rw (check_range, past),
        record { valid = k; kept = refl; safe = λ h a lo hi. absurd (ground (arith, past)) },
      )
      | inl more ↦ elim (Option-cases (search_list mm.mmap_list start)) [
        | inl e ↦ (
          (mm1, false),
          rw (check_range, more, found.0, e),
          refused mm mm1 start end write found.1 found.2,
        )
        | inr (v, e) ↦
            let s = search_list_sound mm.mmap_list start e in
            let rest =
              check_range-Checked f mm1 v.vm_end end write found.1 (ground (arith, s.1, more)) in
            let r = in_area f mm mm1 v start end write found.1 found.2 s.0 s.1 rest in
            (r.0, rw (check_range, more, found.0, e) r.1, r.2)
      ]
    ]

-- On a valid list, with fuel for the bytes of the range, the check returns; it leaves the areas as
-- they are, and when it accepts, the range is a user's and each of its addresses lies in an area
-- that permits the access.
pub user_mem_check-Permitted :
    (fuel : ℕ) (mm : Mm) (addr len : ℕ) (write : Bool)
    → IsValid mm
    → ulong_mod ≤ fuel
    → (r : Mm × Bool) × (user_mem_check fuel mm addr len write ≡ some r)
      × IsValid r.0
      × (r.0.mmap_list ≡ mm.mmap_list)
      × (r.1 ≡ true
          → (user_access addr ((addr + len) % ulong_mod) ≡ true)
            × Permitted mm.mmap_list addr ((addr + len) % ulong_mod) write)
unfolding user_mem_check
user_mem_check-Permitted fuel mm addr len write k big =
    let past = (addr + len) % ulong_mod in
    elim (Bool-cases (user_access addr past)) [
      | inr out ↦ ((mm, false), rw out, k, refl, λ h. cc)
      | inl ok ↦
          let r = check_range-Checked fuel mm addr past write k (omega arith) in
          (r.0, rw ok r.1, r.2.valid, r.2.kept, λ h. (ok, r.2.safe h))
    ]
