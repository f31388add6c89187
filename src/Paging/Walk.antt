-- ===== src/Paging/Walk.antt =====
-- `get_pte` of lab8/code/kern/mm/pmm.c: the entry for an address, and the tables made on the way.
use os_labs.Prelude.{
  suc, ℕ, ◌+◌, ◌*◌, ◌<◌, ◌≡◌, ◌≢◌, ◌⊎◌, inl, inr, refl, sym, ap, ◌∙◌, arith, true, false, ltb,
  ==-refl, Bool-cases, none, some, update,
}
use os_labs.Paging.{
  Took, Allocator, Mmu, pdx1, pdx0, ptx, is_valid, entry_page, checked_page, new_table, next_table,
  get_pte,
}
use os_labs.Paging.Tables.{mid_role, leaf_role, Names, IsTable, Grown, Grown-refl}
use os_labs.Paging.Grow.{new_table-Grown, words_kept, new_entry}

-- The entry that leads to a table is valid and names it.
abbrev pub LeadsTo : (ℕ → ℕ → ℕ) → ℕ → ℕ → ℕ → Type 0
LeadsTo words f i g = (is_valid (words f i) ≡ true) × (entry_page (words f i) ≡ g)

module _ (al : Allocator) where
  still_used :
      (m m1 : Mmu al) (root : ℕ) (role role1 : ℕ → ℕ)
      → Grown al m m1 root role role1
      → (p : ℕ) → al.is_free m.pool p ≡ false
      → al.is_free m1.pool p ≡ false
  still_used m m1 root role role1 a p n = elim (Bool-cases (al.is_free m1.pool p)) [
    | inl e ↦ let was = a.fewer p e in absurd (ground (arith, was, n))
    | inr e ↦ e
  ]

  Grown-trans :
      (m m1 m2 : Mmu al) (root : ℕ) (role role1 role2 : ℕ → ℕ)
      → Grown al m m1 root role role1
      → Grown al m1 m2 root role1 role2
      → Grown al m m2 root role role2
  Grown-trans m m1 m2 root role role1 role2 a b = record {
    table = b.table;
    same = λ la. b.same la ∙ a.same la;
    npage = b.npage ∙ a.npage;
    fewer = λ p h. a.fewer p (b.fewer p h);
    refs = λ p n. b.refs p (still_used m m1 root role role1 a p n) ∙ a.refs p n;
    pages_stay =
        λ p z n. b.pages_stay p (a.pages_stay p z n) (still_used m m1 root role role1 a p n);
  }

  -- What one level does: there is no page for a new table, or the table `g` is below the entry.
  abbrev NextOutcome : ℕ → Mmu al → ℕ → (ℕ → ℕ) → ℕ → ℕ → ℕ → Type 0
  NextOutcome n m root role f i r =
      (m' : Mmu al) × (role' : ℕ → ℕ) × al.Ready m'.pool n
      × Grown al m m' root role role'
      × ((x y : ℕ) → role x ≢ 0 → (f ≢ x) ⊎ (i ≢ y) → m'.words x y ≡ m.words x y)
      × ((next_table al m f i true ≡ some (m', none)) × ((q : ℕ) → al.is_free m'.pool q ≡ false)
          ⊎ ((g : ℕ) × (next_table al m f i true ≡ some (m', some g))
              × (role' g ≡ r)
              × LeadsTo m'.words f i g))

  module _ (m : Mmu al) (root : ℕ) (role : ℕ → ℕ) (t : IsTable al m root role) where
    next_made :
        (n f i r p : ℕ) (pool : al.Pool)
        → i < 512
        → ((f ≡ root) × (r ≡ mid_role i))
          ⊎ ((a : ℕ) × (role f ≡ mid_role a) × (a < 512) × (r ≡ leaf_role a i))
        → is_valid (m.words f i) ≡ false
        → al.alloc_page m.pool ≡ some (pool, some p)
        → Took al.is_free al.is_held m.pool p pool
        → al.Ready pool n
        → NextOutcome n m root role f i r
    unfolding next_table checked_page
    next_made n f i r p pool lt place empty run took ready =
        let bound = (t.unused p took.was_free).1 in
        let ok_page : ltb p m.npage ≡ true = ground (arith, bound) in
        let e = new_entry al m root role t p pool took f i in
        let valid : is_valid (p * 1024 + 17) ≡ true = ground arith in
        let page : entry_page (p * 1024 + 17) ≡ p = omega arith in
        (
          new_table al m f i p pool,
          update role p r,
          unfold new_table in ready,
          new_table-Grown al m root role t p pool took f i r lt place empty,
          words_kept al m root role t p pool took f i,
          inr (
            p,
            rw (empty, run, ok_page),
            rw (==-refl p),
            (ap is_valid e ∙ valid, ap entry_page e ∙ page),
          ),
        )

    next_table_lem :
        (n f i r : ℕ)
        → al.Ready m.pool (suc n)
        → i < 512
        → ((f ≡ root) × (r ≡ mid_role i))
          ⊎ ((a : ℕ) × (role f ≡ mid_role a) × (a < 512) × (r ≡ leaf_role a i))
        → Names role m.npage (m.words f i) r
        → NextOutcome n m root role f i r
    unfolding next_table checked_page
    next_table_lem n f i r ready lt place names = elim (Bool-cases (is_valid (m.words f i))) [
      | inl v ↦
          let (rg, bound) = names v in
          let ok_page : ltb (entry_page (m.words f i)) m.npage ≡ true = ground (arith, bound) in
          (
            m,
            role,
            al.ready_less m.pool n ready,
            Grown-refl al m root role t,
            λ x y nz o. refl,
            inr (entry_page (m.words f i), rw (v, ok_page), rg, (v, refl)),
          )
      | inr v ↦ elim (al.alloc_lem m.pool n ready) [
        | inl (full, empty) ↦ (
          m,
          role,
          al.ready_less m.pool n ready,
          Grown-refl al m root role t,
          λ x y nz o. refl,
          inl (rw (v, full), empty),
        )
        | inr (p, pool, run, took, rest) ↦ next_made n f i r p pool lt place v run took rest
      ]
    ]

  -- The entry for an address lies at index `ptx la` of the table `g`.
  pub record EntryAt (m : Mmu al) (root la g : ℕ) (role : ℕ → ℕ) : Type 0 where
    pub mid : ℕ
    pub first : LeadsTo m.words root (pdx1 la) mid
    pub second : LeadsTo m.words mid (pdx0 la) g
    pub mid_part : role mid ≡ mid_role (pdx1 la)
    pub part : role g ≡ leaf_role (pdx1 la) (pdx0 la)

  -- What `get_pte` with `create` does.
  abbrev pub PteOutcome : Mmu al → ℕ → (ℕ → ℕ) → ℕ → Type 0
  PteOutcome m root role la =
      (m' : Mmu al) × (role' : ℕ → ℕ) × al.Ready m'.pool 0
      × Grown al m m' root role role'
      × ((get_pte al m root la true ≡ some (m', none)) × ((q : ℕ) → al.is_free m'.pool q ≡ false)
          ⊎ ((g : ℕ) × (get_pte al m root la true ≡ some (m', some (g, ptx la)))
              × EntryAt m' root la g role'))

  pte_none :
      (m m1 : Mmu al) (root la : ℕ)
      → next_table al m root (pdx1 la) true ≡ some (m1, none)
      → get_pte al m root la true ≡ some (m1, none)
  unfolding get_pte
  pte_none m m1 root la run = rw run

  pte_half :
      (m m1 m2 : Mmu al) (root la f : ℕ)
      → next_table al m root (pdx1 la) true ≡ some (m1, some f)
      → next_table al m1 f (pdx0 la) true ≡ some (m2, none)
      → get_pte al m root la true ≡ some (m2, none)
  unfolding get_pte
  pte_half m m1 m2 root la f run run' = rw (run, run')

  pte_found :
      (m m1 m2 : Mmu al) (root la f g : ℕ)
      → next_table al m root (pdx1 la) true ≡ some (m1, some f)
      → next_table al m1 f (pdx0 la) true ≡ some (m2, some g)
      → get_pte al m root la true ≡ some (m2, some (g, ptx la))
  unfolding get_pte
  pte_found m m1 m2 root la f g run run' = rw (run, run')

  second_level :
      (m m1 : Mmu al) (root la f : ℕ) (role role1 : ℕ → ℕ)
      → al.Ready m1.pool 1
      → Grown al m m1 root role role1
      → next_table al m root (pdx1 la) true ≡ some (m1, some f)
      → role1 f ≡ mid_role (pdx1 la)
      → LeadsTo m1.words root (pdx1 la) f
      → PteOutcome m root role la
  second_level m m1 root la f role role1 ready g1 run rf lead =
      let t1 = g1.table in
      let names = t1.leaves f (pdx1 la) (pdx0 la) rf (omega arith) (omega arith) in
      let (m2, role2, ready2, g2, kept, out) =
        next_table_lem m1 root role1 t1 0 f (pdx0 la) (leaf_role (pdx1 la) (pdx0 la)) ready
          (omega arith) (inr (pdx1 la, rf, omega arith, refl)) names in
      let whole = Grown-trans m m1 m2 root role role1 role2 g1 g2 in
      elim out [
        | inl (run', empty) ↦
            (m2, role2, ready2, whole, inl (pte_half m m1 m2 root la f run run', empty))
        | inr (g, run', rg, lead') ↦
            let top = t1.top in
            let apart : f ≢ root = λ e. omega (arith, top, rf, ap role1 e) in
            let same = kept root (pdx1 la) (λ z. omega (arith, z, top)) (inl apart) in
            let top2 = g2.table.mids (pdx1 la) (omega arith) (ap is_valid same ∙ lead.0) in
            (
              m2,
              role2,
              ready2,
              whole,
              inr (
                g,
                pte_found m m1 m2 root la f g run run',
                record {
                  mid = f;
                  first = (ap is_valid same ∙ lead.0, ap entry_page same ∙ lead.1);
                  second = lead';
                  mid_part = ap role2 (sym (ap entry_page same ∙ lead.1)) ∙ top2.0;
                  part = rg;
                },
              ),
            )
      ]

  -- With a pool that is ready for two pages, `get_pte` with `create` fails no assertion. Either no
  -- page is free and it returns NULL, or it returns the place of the entry for the address. In both
  -- cases the tables are a tree as before, with more tables where there were none, and every
  -- address is mapped as it was.
  pub get_pte-create :
      (m : Mmu al) (root : ℕ) (role : ℕ → ℕ)
      → IsTable al m root role
      → al.Ready m.pool 2
      → (la : ℕ) → PteOutcome m root role la
  get_pte-create m root role t ready la =
      let (m1, role1, ready1, g1, kept, out) =
        next_table_lem m root role t 1 root (pdx1 la) (mid_role (pdx1 la)) ready (omega arith)
          (inl (refl, refl)) (t.mids (pdx1 la) (omega arith)) in
      elim out [
        | inl (run, empty) ↦
            (m1, role1, al.ready_less m1.pool 0 ready1, g1, inl (pte_none m m1 root la run, empty))
        | inr (f, run, rf, lead) ↦ second_level m m1 root la f role role1 ready1 g1 run rf lead
      ]
