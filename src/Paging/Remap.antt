-- ===== src/Paging/Remap.antt =====
-- One entry of the page tables of lab8/code/kern/mm/pmm.c changes: what every address is mapped to.
use os_labs.Prelude.{
  ℕ, ◌<◌, ◌≡◌, ◌≢◌, ◌⊎◌, inl, inr, sym, ap, ◌∙◌, arith, Bool, true, false, ◌&&◌, ◌==◌,
  if◌then◌else◌, Bool-cases,
}
use os_labs.Paging.{Allocator, Mmu, pdx1, pdx0, ptx, is_valid, entry_page}
use os_labs.Paging.Tables.{mid_role, leaf_role, IsTable, lookup}
use os_labs.Paging.Walk.{LeadsTo, EntryAt}

-- Two addresses of the same page.
abbrev pub same_page : ℕ → ℕ → Bool
same_page la lb = pdx1 la == pdx1 lb && pdx0 la == pdx0 lb && ptx la == ptx lb

module _ (al : Allocator) where
  -- Only the entry `k` of the table `g` differs, and it is `e` now.
  pub record OneEntry (m m' : Mmu al) (g k e : ℕ) : Type 0 where
    pub here : m'.words g k ≡ e
    pub others : (x y : ℕ) → (g ≢ x) ⊎ (k ≢ y) → m'.words x y ≡ m.words x y
    pub npage : m'.npage ≡ m.npage

  module _ (m m' : Mmu al) (root la g e : ℕ) (role : ℕ → ℕ) (t : IsTable al m root role)
      (at : EntryAt al m root la g role) (one : OneEntry m m' g (ptx la) e) where
    root_same : (i : ℕ) → m'.words root i ≡ m.words root i
    root_same i =
        let top = t.top in
        let part = at.part in one.others root i (inl (λ z. omega (arith, top, part, ap role z)))

    mid_same : (f i j : ℕ) → role f ≡ mid_role i → i < 512 → m'.words f j ≡ m.words f j
    mid_same f i j rf li =
        let part = at.part in one.others f j (inl (λ z. omega (arith, rf, part, ap role z, li)))

    -- The entry of another address.
    leaf_other :
        (lb f h : ℕ)
        → same_page lb la ≡ false
        → role h ≡ leaf_role (pdx1 lb) (pdx0 lb)
        → m'.words h (ptx lb) ≡ m.words h (ptx lb)
    leaf_other lb f h ne rh =
        let part = at.part in
        one.others h (ptx lb) (elim (Bool-cases (ptx lb == ptx la)) [
          | inl k ↦ inl (λ z.
              let both : leaf_role (pdx1 la) (pdx0 la) ≡ leaf_role (pdx1 lb) (pdx0 lb) =
                sym part ∙ ap role z ∙ rh in
              let a : pdx0 lb ≡ pdx0 la = omega (arith, both) in
              let b : pdx1 lb ≡ pdx1 la = omega (arith, both) in ground (arith, ne, k, a, b))
          | inr k ↦ inr (λ z. ground (arith, k, z))
        ])

    lookup_other : (lb : ℕ) → same_page lb la ≡ false → lookup al m' root lb ≡ lookup al m root lb
    lookup_other lb ne =
        let r = root_same (pdx1 lb) in
        elim (Bool-cases (is_valid (m.words root (pdx1 lb)))) [
          | inr v ↦ rw (r, v)
          | inl v ↦
              let f = entry_page (m.words root (pdx1 lb)) in
              let rf = (t.mids (pdx1 lb) (omega arith) v).0 in
              let s = mid_same f (pdx1 lb) (pdx0 lb) rf (omega arith) in
              elim (Bool-cases (is_valid (m.words f (pdx0 lb)))) [
                | inr v' ↦ rw (r, v, s, v')
                | inl v' ↦
                    let h = entry_page (m.words f (pdx0 lb)) in
                    let rh = (t.leaves f (pdx1 lb) (pdx0 lb) rf (omega arith) (omega arith) v').0 in
                    rw (r, v, s, v') (leaf_other lb f h ne rh)
              ]
        ]

    pub path_here :
        (lb : ℕ)
        → pdx1 lb ≡ pdx1 la
        → pdx0 lb ≡ pdx0 la
        → LeadsTo m'.words root (pdx1 lb) at.mid × LeadsTo m'.words at.mid (pdx0 lb) g
    path_here lb e1 e0 =
        let r = ap (m'.words root) e1 ∙ root_same (pdx1 la) in
        let s =
          ap (m'.words at.mid) e0 ∙ mid_same at.mid (pdx1 la) (pdx0 la) at.mid_part (omega arith) in
        let (a, b) = at.first in
        let (c, d) = at.second in
        ((ap is_valid r ∙ a, ap entry_page r ∙ b), (ap is_valid s ∙ c, ap entry_page s ∙ d))

    lookup_here : (lb : ℕ) → same_page lb la ≡ true → lookup al m' root lb ≡ e
    lookup_here lb same =
        let e1 : pdx1 lb ≡ pdx1 la = ground (arith, same) in
        let e0 : pdx0 lb ≡ pdx0 la = ground (arith, same) in
        let ek : ptx lb ≡ ptx la = ground (arith, same) in
        let ((a, b), (c, d)) = path_here lb e1 e0 in rw (a, b, c, d) (ap (m'.words g) ek ∙ one.here)

    pub one_lookup :
        (lb : ℕ) → lookup al m' root lb ≡ (if same_page lb la then e else lookup al m root lb)
    one_lookup lb = elim (Bool-cases (same_page lb la)) [
      | inl s ↦ rw s (lookup_here lb s)
      | inr s ↦ rw s (lookup_other lb s)
    ]
