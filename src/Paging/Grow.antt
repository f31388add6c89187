-- ===== src/Paging/Grow.antt =====
-- A new page table of lab8/code/kern/mm/pmm.c: the tree of tables stays one, and every address is
-- mapped as before.
use os_labs.Prelude.{
  ℕ, ◌+◌, ◌*◌, ◌<◌, ◌≡◌, ◌≢◌, ◌⊎◌, inl, inr, refl, sym, ap, ◌∙◌, arith, true, false, ◌&&◌, ◌==◌,
  ==-refl, if◌then◌else◌, Bool-cases, update,
}
use os_labs.Paging.{Took, Allocator, Mmu, pdx1, pdx0, ptx, is_valid, entry_page, new_table}
use os_labs.Paging.Tables.{mid_role, leaf_role, Names, IsTable, lookup, Grown}

module _ (al : Allocator) (m : Mmu al) (root : ℕ) (role : ℕ → ℕ) (t : IsTable al m root role)
    (p : ℕ) (pool : al.Pool) (took : Took al.is_free al.is_held m.pool p pool) where
  new_role : role p ≡ 0
  new_role = (t.unused p took.was_free).0

  -- The words of tables but the one entry are as they were.
  pub words_kept :
      (f i x y : ℕ)
      → role x ≢ 0
      → (f ≢ x) ⊎ (i ≢ y)
      → (new_table al m f i p pool).words x y ≡ m.words x y
  unfolding new_table
  words_kept f i x y nz other =
      let z = new_role in
      let ne : p ≢ x = λ e. nz (ap role (sym e) ∙ z) in
      let off : (p == x) ≡ false = ground (arith, ne) in
      let away : (f == x && i == y) ≡ false = ground (arith, other) in rw (away, off)

  new_words_zero : (f i y : ℕ) → f ≢ p → (new_table al m f i p pool).words p y ≡ 0
  unfolding new_table
  new_words_zero f i y ne =
      let away : (f == p && i == y) ≡ false = ground (arith, ne) in rw (away, ==-refl p)

  pub new_entry : (f i : ℕ) → (new_table al m f i p pool).words f i ≡ p * 1024 + 17
  unfolding new_table
  new_entry f i = rw (==-refl f, ==-refl i)

  not_new : (x : ℕ) → role x ≢ 0 → x ≢ p
  not_new x nz e = nz (ap role e ∙ new_role)

  role_kept : (r x : ℕ) → role x ≢ 0 → update role p r x ≡ role x
  role_kept r x nz =
      let ne = not_new x nz in let off : (p == x) ≡ false = ground (arith, ne) in rw off

  -- The place of the new entry, and the part of the new table.
  abbrev Place : ℕ → ℕ → ℕ → Type 0
  Place f i r =
      ((f ≡ root) × (r ≡ mid_role i))
      ⊎ ((a : ℕ) × (role f ≡ mid_role a) × (a < 512) × (r ≡ leaf_role a i))

  Place-role : (f i r : ℕ) → Place f i r → role f ≢ 0
  Place-role f i r (inl (e, q)) z = let top = t.top in omega (arith, ap role (sym e) ∙ z, top)
  Place-role f i r (inr (a, e, lt, q)) z = omega (arith, e, z)

  module _ (f i r : ℕ) (lt : i < 512) (place : Place f i r) where
    f_ne : f ≢ p
    f_ne = not_new f (Place-role f i r place)

    grown_mids :
        (x : ℕ)
        → x < 512
        → Names (update role p r) m.npage ((new_table al m f i p pool).words root x) (mid_role x)
    grown_mids x lx valid = elim (Bool-cases (f == root && i == x)) [
      | inl e ↦
          let fr : f ≡ root = ground (arith, e) in
          let ix : i ≡ x = ground (arith, e) in
          let w : (new_table al m f i p pool).words root x ≡ p * 1024 + 17 =
            ap (λ a. (new_table al m f i p pool).words a x) (sym fr)
            ∙ ap ((new_table al m f i p pool).words f) (sym ix)
            ∙ new_entry f i in
          let page : entry_page ((new_table al m f i p pool).words root x) ≡ p =
            ap entry_page w ∙ omega arith in
          let rr : r ≡ mid_role x = elim place [
            | inl (_, q) ↦ q ∙ ap mid_role ix
            | inr (a, q, la, s) ↦ let top = t.top in absurd (omega (arith, q, top, ap role fr))
          ] in
          let here : update role p r p ≡ r = rw (==-refl p) in
          let bound = (t.unused p took.was_free).1 in
          (ap (update role p r) page ∙ here ∙ rr, omega (arith, page, bound))
      | inr e ↦
          let top = t.top in
          let k = words_kept f i root x (λ z. omega (arith, z, top)) (ground (arith, e)) in
          let old = t.mids x lx (ap is_valid (sym k) ∙ valid) in
          let same = ap entry_page k in
          let o = old.0 in
          let b = old.1 in
          (
            ap (update role p r) same
                ∙ role_kept r (entry_page (m.words root x)) (λ z. omega (arith, z, o))
                ∙ o,
            omega (arith, same, b),
          )
    ]

    -- The part of another page than the new table.
    old_role : (x s : ℕ) → x ≢ p → update role p r x ≡ s → role x ≡ s
    old_role x s ne e =
        let off : (p == x) ≡ false = ground (arith, ne) in
        let same : update role p r x ≡ role x = rw off in sym same ∙ e

    new_invalid : (y : ℕ) → is_valid ((new_table al m f i p pool).words p y) ≡ true → ⊥
    new_invalid y v =
        let z = new_words_zero f i y f_ne in
        let bad : is_valid 0 ≡ true = ap is_valid (sym z) ∙ v in ground (arith, bad)

    new_bound : p < m.npage
    new_bound = (t.unused p took.was_free).1

    new_value : entry_page ((new_table al m f i p pool).words f i) ≡ p
    new_value = ap entry_page (new_entry f i) ∙ omega arith

    role_here : update role p r p ≡ r
    role_here = rw (==-refl p)

    grown_leaves :
        (g a j : ℕ)
        → update role p r g ≡ mid_role a
        → a < 512
        → j < 512
        → Names (update role p r) m.npage ((new_table al m f i p pool).words g j) (leaf_role a j)
    grown_leaves g a j rg la lj valid = elim (Bool-cases (g == p)) [
      | inl e ↦
          let gp : g ≡ p = ground (arith, e) in
          absurd (
            new_invalid j
              (ap (λ x. is_valid ((new_table al m f i p pool).words x j)) (sym gp) ∙ valid))
      | inr e ↦
          let ne : g ≢ p = ground (arith, e) in
          let old_g : role g ≡ mid_role a = old_role g (mid_role a) ne rg in
          elim (Bool-cases (f == g && i == j)) [
            | inl s ↦
                let fg : f ≡ g = ground (arith, s) in
                let ij : i ≡ j = ground (arith, s) in
                let page : entry_page ((new_table al m f i p pool).words g j) ≡ p =
                  ap (λ x. entry_page ((new_table al m f i p pool).words x j)) (sym fg)
                  ∙ ap (λ y. entry_page ((new_table al m f i p pool).words f y)) (sym ij)
                  ∙ new_value in
                let rr : r ≡ leaf_role a j = elim place [
                  | inl (fr, q) ↦
                      let top = t.top in absurd (omega (arith, top, old_g, ap role (sym fg ∙ fr)))
                  | inr (b, q, lb, s') ↦ omega (arith, q, s', old_g, ap role fg, ij)
                ] in
                let bound = new_bound in
                (ap (update role p r) page ∙ role_here ∙ rr, omega (arith, page, bound))
            | inr s ↦
                let k = words_kept f i g j (λ z. omega (arith, z, old_g)) (ground (arith, s)) in
                let old = t.leaves g a j old_g la lj (ap is_valid (sym k) ∙ valid) in
                let same = ap entry_page k in
                let o = old.0 in
                let b = old.1 in
                (
                  ap (update role p r) same
                      ∙ role_kept r (entry_page (m.words g j)) (λ z. omega (arith, z, o))
                      ∙ o,
                  omega (arith, same, b),
                )
          ]
    ]

    -- An entry of a table of the last level is not the new entry.
    not_place : (g a j k : ℕ) → role g ≡ leaf_role a j → a < 512 → j < 512 → (f ≢ g) ⊎ (i ≢ k)
    not_place g a j k rg la lj = inl (λ e. elim place [
      | inl (fr, q) ↦ let top = t.top in omega (arith, top, rg, ap role (sym e ∙ fr))
      | inr (b, q, lb, s) ↦ omega (arith, q, rg, ap role e, la, lj, lb)
    ])

    rest_free :
        (q : ℕ)
        → al.is_free (new_table al m f i p pool).pool q
          ≡ (if q == p then false else al.is_free m.pool q)
    unfolding new_table
    rest_free q = took.rest q

    grown_pages :
        (g a j k : ℕ)
        → update role p r g ≡ leaf_role a j
        → a < 512
        → j < 512
        → k < 512
        → is_valid ((new_table al m f i p pool).words g k) ≡ true
        → (update role p r (entry_page ((new_table al m f i p pool).words g k)) ≡ 0)
          × (entry_page ((new_table al m f i p pool).words g k) < m.npage)
          × (al.is_free
                (new_table al m f i p pool).pool
                (entry_page ((new_table al m f i p pool).words g k))
              ≡ false)
          × (al.is_held
                (new_table al m f i p pool).pool
                (entry_page ((new_table al m f i p pool).words g k))
              ≡ true)
    unfolding new_table
    grown_pages g a j k rg la lj lk valid = elim (Bool-cases (g == p)) [
      | inl e ↦
          let gp : g ≡ p = ground (arith, e) in
          absurd (
            new_invalid k
              (ap (λ x. is_valid ((new_table al m f i p pool).words x k)) (sym gp) ∙ valid))
      | inr e ↦
          let ne : g ≢ p = ground (arith, e) in
          let old_g : role g ≡ leaf_role a j = old_role g (leaf_role a j) ne rg in
          let w =
            words_kept f i g k (λ z. omega (arith, z, old_g)) (not_place g a j k old_g la lj) in
          let (o, b, n, hd) = t.pages g a j k old_g la lj lk (ap is_valid (sym w) ∙ valid) in
          let same = ap entry_page w in
          let page = entry_page (m.words g k) in
          let was : al.is_free m.pool p ≡ true = took.was_free in
          let away : p ≢ page = λ z.
            let both : al.is_free m.pool p ≡ false = ap (al.is_free m.pool) z ∙ n in
            ground (arith, both, was) in
          let off : (p == page) ≡ false = ground (arith, away) in
          let off' : (page == p) ≡ false = ground (arith, away) in
          (
            ap (update role p r) same ∙ rw off o,
            omega (arith, same, b),
            ap (al.is_free (new_table al m f i p pool).pool) same ∙ rest_free page ∙ rw off' n,
            ap (al.is_held (new_table al m f i p pool).pool) same ∙ took.held page n hd,
          )
    ]

    grown_unused :
        (q : ℕ)
        → al.is_free (new_table al m f i p pool).pool q ≡ true
        → (q ≢ p) × (al.is_free m.pool q ≡ true)
    grown_unused q h = elim (Bool-cases (q == p)) [
      | inl e ↦
          let gone : al.is_free (new_table al m f i p pool).pool q ≡ false = rest_free q ∙ rw e in
          absurd (ground (arith, h, gone))
      | inr e ↦ (ground (arith, e), sym (rest_free q ∙ rw e) ∙ h)
    ]

    grown_IsTable : IsTable al (new_table al m f i p pool) root (update role p r)
    unfolding new_table
    grown_IsTable = record {
      top = let top = t.top in role_kept r root (λ z. omega (arith, z, top)) ∙ top;
      mids = grown_mids;
      leaves = grown_leaves;
      pages = grown_pages;
      unused = λ q h.
          let (ne, old) = grown_unused q h in
          let (z, b) = t.unused q old in
          let off : (p == q) ≡ false = ground (arith, ne) in (rw off z, b);
    }

    kept_word :
        (x y : ℕ)
        → role x ≢ 0
        → (f ≢ x) ⊎ (i ≢ y)
        → m.words x y ≡ (new_table al m f i p pool).words x y
    kept_word x y nz o = sym (words_kept f i x y nz o)

    -- Through the new entry nothing is mapped.
    new_unmapped : (k : ℕ) → is_valid ((new_table al m f i p pool).words p k) ≡ false
    new_unmapped k = rw (new_words_zero f i k f_ne)

    lookup_leaf :
        (la : ℕ)
        → is_valid (m.words root (pdx1 la)) ≡ true
        → is_valid (m.words (entry_page (m.words root (pdx1 la))) (pdx0 la)) ≡ true
        → let g = entry_page (m.words (entry_page (m.words root (pdx1 la))) (pdx0 la)) in
          (new_table al m f i p pool).words g (ptx la) ≡ m.words g (ptx la)
    lookup_leaf la v v' =
        let f1 = entry_page (m.words root (pdx1 la)) in
        let g = entry_page (m.words f1 (pdx0 la)) in
        let r1 = (t.mids (pdx1 la) (omega arith) v).0 in
        let rg = (t.leaves f1 (pdx1 la) (pdx0 la) r1 (omega arith) (omega arith) v').0 in
        words_kept f i g (ptx la) (λ z. omega (arith, z, rg))
          (not_place g (pdx1 la) (pdx0 la) (ptx la) rg (omega arith) (omega arith))

    -- The second level, for an entry of the directory that is there and stays.
    lookup_mid :
        (la : ℕ)
        → is_valid (m.words f i) ≡ false
        → is_valid (m.words root (pdx1 la)) ≡ true
        → (new_table al m f i p pool).words root (pdx1 la) ≡ m.words root (pdx1 la)
        → lookup al (new_table al m f i p pool) root la ≡ lookup al m root la
    lookup_mid la empty v same =
        let f1 = entry_page (m.words root (pdx1 la)) in
        let r1 = (t.mids (pdx1 la) (omega arith) v).0 in
        elim (Bool-cases (f == f1 && i == pdx0 la)) [
          | inl e ↦
              let ff : f ≡ f1 = ground (arith, e) in
              let ii : i ≡ pdx0 la = ground (arith, e) in
              let none_before : is_valid (m.words f1 (pdx0 la)) ≡ false =
                ap (λ x. is_valid (m.words x (pdx0 la))) (sym ff)
                ∙ ap (λ y. is_valid (m.words f y)) (sym ii)
                ∙ empty in
              let entry : (new_table al m f i p pool).words f1 (pdx0 la) ≡ p * 1024 + 17 =
                ap (λ x. (new_table al m f i p pool).words x (pdx0 la)) (sym ff)
                ∙ ap ((new_table al m f i p pool).words f) (sym ii)
                ∙ new_entry f i in
              let valid : is_valid (p * 1024 + 17) ≡ true = ground arith in
              let page : entry_page (p * 1024 + 17) ≡ p = omega arith in
              let zero_word = new_words_zero f i (ptx la) f_ne in
              rw (same, v, none_before, entry, valid, page) zero_word
          | inr e ↦
              let same' =
                words_kept f i f1 (pdx0 la) (λ z. omega (arith, z, r1)) (ground (arith, e)) in
              elim (Bool-cases (is_valid (m.words f1 (pdx0 la)))) [
                | inl v' ↦ rw (same, v, same', v') (lookup_leaf la v v')
                | inr v' ↦ rw (same, v, same', v')
              ]
        ]

    lookup_same :
        (la : ℕ)
        → is_valid (m.words f i) ≡ false
        → lookup al (new_table al m f i p pool) root la ≡ lookup al m root la
    lookup_same la empty =
        let top = t.top in
        elim (Bool-cases (f == root && i == pdx1 la)) [
          | inl e ↦
              let fr : f ≡ root = ground (arith, e) in
              let ii : i ≡ pdx1 la = ground (arith, e) in
              let none_before : is_valid (m.words root (pdx1 la)) ≡ false =
                ap (λ x. is_valid (m.words x (pdx1 la))) (sym fr)
                ∙ ap (λ y. is_valid (m.words f y)) (sym ii)
                ∙ empty in
              let entry : (new_table al m f i p pool).words root (pdx1 la) ≡ p * 1024 + 17 =
                ap (λ x. (new_table al m f i p pool).words x (pdx1 la)) (sym fr)
                ∙ ap ((new_table al m f i p pool).words f) (sym ii)
                ∙ new_entry f i in
              let valid : is_valid (p * 1024 + 17) ≡ true = ground arith in
              let page : entry_page (p * 1024 + 17) ≡ p = omega arith in
              rw (none_before, entry, valid, page) (rw (new_unmapped (pdx0 la)) refl)
          | inr e ↦
              let same =
                words_kept f i root (pdx1 la) (λ z. omega (arith, z, top)) (ground (arith, e)) in
              elim (Bool-cases (is_valid (m.words root (pdx1 la)))) [
                | inl v ↦ lookup_mid la empty v same
                | inr v ↦ rw (same, v)
              ]
        ]

    -- The tree with a new table for an entry that was not valid.
    pub new_table-Grown :
        is_valid (m.words f i) ≡ false
        → Grown al m (new_table al m f i p pool) root role (update role p r)
    unfolding new_table
    new_table-Grown empty = record {
      table = grown_IsTable;
      same = λ la. lookup_same la empty;
      npage = refl;
      fewer = λ q h. (grown_unused q h).1;
      refs = λ q n.
          let was : al.is_free m.pool p ≡ true = took.was_free in
          let away : p ≢ q = λ e.
            let both : al.is_free m.pool p ≡ false = ap (al.is_free m.pool) e ∙ n in
            ground (arith, both, was) in
          let off : (p == q) ≡ false = ground (arith, away) in rw off;
      pages_stay = λ q z n.
          let was : al.is_free m.pool p ≡ true = took.was_free in
          let away : p ≢ q = λ e.
            let both : al.is_free m.pool p ≡ false = ap (al.is_free m.pool) e ∙ n in
            ground (arith, both, was) in
          let off : (p == q) ≡ false = ground (arith, away) in rw off z;
    }
