-- ===== src/Paging/Tables.antt =====
-- The tree of page tables of lab8/code/kern/mm/pmm.c: every table has one place in it.
use os_labs.Prelude.{ℕ, ◌+◌, ◌*◌, ◌<◌, ◌≡◌, refl, true, false, if◌then◌else◌, Option, none, some}
use os_labs.Paging.{Allocator, Mmu, pdx1, pdx0, ptx, is_valid, entry_page}

-- The part of a page: 0 is a page that is no table, 1 the directory at the root, the others the
-- tables below entry `i` of it and below entry `j` of that.
abbrev pub mid_role : ℕ → ℕ
mid_role i = 2 + i

abbrev pub leaf_role : ℕ → ℕ → ℕ
leaf_role i j = 514 + i * 512 + j

-- The value of an entry is right for a part.
abbrev pub Names : (ℕ → ℕ) → ℕ → ℕ → ℕ → Type 0
Names role npage e r = is_valid e ≡ true → (role (entry_page e) ≡ r) × (entry_page e < npage)

module _ (al : Allocator) where
  -- Each page has one part, a valid entry names the page with the part for its place, a page that
  -- an address maps to is held and neither a table nor free, and free pages are no tables.
  pub record IsTable (m : Mmu al) (root : ℕ) (role : ℕ → ℕ) : Type 0 where
    pub top : role root ≡ 1
    pub mids : (i : ℕ) → i < 512 → Names role m.npage (m.words root i) (mid_role i)
    pub leaves :
        (f i j : ℕ)
        → role f ≡ mid_role i
        → i < 512
        → j < 512
        → Names role m.npage (m.words f j) (leaf_role i j)
    pub pages :
        (g i j k : ℕ)
        → role g ≡ leaf_role i j
        → i < 512
        → j < 512
        → k < 512
        → is_valid (m.words g k) ≡ true
        → (role (entry_page (m.words g k)) ≡ 0)
          × (entry_page (m.words g k) < m.npage)
          × (al.is_free m.pool (entry_page (m.words g k)) ≡ false)
          × (al.is_held m.pool (entry_page (m.words g k)) ≡ true)
    pub unused : (p : ℕ) → al.is_free m.pool p ≡ true → (role p ≡ 0) × (p < m.npage)

  -- The table of the last level for an address.
  abbrev pub walk : Mmu al → ℕ → ℕ → Option ℕ
  walk m root la =
      let e = m.words root (pdx1 la) in
      let e' = m.words (entry_page e) (pdx0 la) in
      if is_valid e then if is_valid e' then some (entry_page e') else none else none

  -- The entry for an address, 0 if there is no table for it.
  abbrev pub lookup : Mmu al → ℕ → ℕ → ℕ
  lookup m root la =
      let e = m.words root (pdx1 la) in
      let e' = m.words (entry_page e) (pdx0 la) in
      if is_valid e then if is_valid e' then m.words (entry_page e') (ptx la) else 0 else 0

  -- The same tables with other contents in the words of pages that are no tables and, at one place,
  -- with an entry that was not valid.
  pub record Grown (m m' : Mmu al) (root : ℕ) (role role' : ℕ → ℕ) : Type 0 where
    pub table : IsTable m' root role'
    pub same : (la : ℕ) → lookup m' root la ≡ lookup m root la
    pub npage : m'.npage ≡ m.npage
    pub fewer : (p : ℕ) → al.is_free m'.pool p ≡ true → al.is_free m.pool p ≡ true
    pub refs : (p : ℕ) → al.is_free m.pool p ≡ false → m'.ref p ≡ m.ref p
    pub pages_stay : (p : ℕ) → role p ≡ 0 → al.is_free m.pool p ≡ false → role' p ≡ 0

  pub Grown-refl :
      (m : Mmu al) (root : ℕ) (role : ℕ → ℕ) → IsTable m root role → Grown m m root role role
  Grown-refl m root role t = record {
    table = t;
    same = λ la. refl;
    npage = refl;
    fewer = λ p h. h;
    refs = λ p n. refl;
    pages_stay = λ p h n. h;
  }
