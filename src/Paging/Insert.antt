-- ===== src/Paging/Insert.antt =====
-- `page_insert` and `page_remove` of lab8/code/kern/mm/pmm.c: what an address is mapped to.
use os_labs.Prelude.{
  ℕ, ◌%◌, ◌<◌, ◌≡◌, ◌⊎◌, inl, inr, refl, sym, ap, ◌∙◌, arith, true, false, ◌&&◌, ltb, ◌==◌, ==-refl,
  if◌then◌else◌, Bool-cases, some,
}
use os_labs.Paging.{
  Allocator, Mmu, pdx1, pdx0, ptx, is_valid, entry_page, pte_create, write_word, checked_page,
  next_table, get_pte, get_page, page_insert,
}
use os_labs.Paging.Tables.{IsTable, lookup, Grown}
use os_labs.Paging.Walk.{LeadsTo, EntryAt, get_pte-create}
use os_labs.Paging.Remap.{same_page, OneEntry, one_lookup, path_here}
use os_labs.Paging.Replace.{counted, replace_lem}

module _ (al : Allocator) where
  -- The page is mapped at the address, all other addresses are mapped as before, and the counts of
  -- the pages that were in use have changed as the new entry and the old one tell.
  pub record Inserted (m m' : Mmu al) (root la page perm : ℕ) : Type 0 where
    pub lookups :
        (lb : ℕ)
        → lookup al m' root lb
          ≡ (if same_page lb la then pte_create page perm else lookup al m root lb)
    pub refs :
        (q : ℕ)
        → al.is_free m.pool q ≡ false
        → m'.ref q ≡ counted (lookup al m root la) page (m.ref q) q
    pub found : get_page al m' root la ≡ some (some page)

  get_page_lem :
      (m : Mmu al) (root la f g : ℕ)
      → LeadsTo m.words root (pdx1 la) f
      → LeadsTo m.words f (pdx0 la) g
      → is_valid (m.words g (ptx la)) ≡ true
      → f < m.npage
      → g < m.npage
      → entry_page (m.words g (ptx la)) < m.npage
      → get_page al m root la ≡ some (some (entry_page (m.words g (ptx la))))
  unfolding get_page get_pte next_table checked_page
  get_page_lem m root la f g (a, b) (c, d) v lf lg lp =
      let of : ltb f m.npage ≡ true = ground (arith, lf) in
      let og : ltb g m.npage ≡ true = ground (arith, lg) in
      let op : ltb (entry_page (m.words g (ptx la))) m.npage ≡ true = ground (arith, lp) in
      rw (a, b, of, c, d, og, v, op)

  valid_pte : (page perm : ℕ) → is_valid (pte_create page perm) ≡ true
  valid_pte page perm = ground arith

  page_pte : (page perm : ℕ) → perm < 1024 → entry_page (pte_create page perm) ≡ page
  page_pte page perm h = elim (Bool-cases (perm % 2 == 1)) [
    | inl e ↦ rw e (omega (arith, h))
    | inr e ↦ let even : perm % 2 ≡ 0 = ground (arith, e) in rw e (omega (arith, h, even))
  ]

  -- The end of `page_insert`, at the entry that `get_pte` found.
  insert_at :
      (m m1 : Mmu al) (root la g page perm : ℕ) (role role1 : ℕ → ℕ)
      → Grown al m m1 root role role1
      → al.Ready m1.pool 0
      → EntryAt al m1 root la g role1
      → get_pte al m root la true ≡ some (m1, some (g, ptx la))
      → page < m.npage
      → al.is_free m.pool page ≡ false
      → m.ref page < 4294967295
      → perm < 1024
      → (m' : Mmu al) × (page_insert al m root page la perm ≡ some (m', true))
        × Inserted m m' root la page perm
  unfolding page_insert
  insert_at m m1 root la g page perm role role1 gr ready at run bound used lt low =
      let t1 = gr.table in
      let np = gr.npage in
      let kept = gr.refs page used in
      let part = at.part in
      let pages =
        t1.pages g (pdx1 la) (pdx0 la) (ptx la) part (omega arith) (omega arith) (omega arith) in
      let (m2, run2, r) =
        replace_lem al m1 page g (ptx la) (omega (arith, kept, lt)) (omega (arith, np, bound)) ready
          (λ v. let (part0, low0, used0, held0) = pages v in (low0, used0, held0)) in
      let e : ℕ = pte_create page perm in
      let m' : Mmu al = record m2 { words = write_word m2.words g (ptx la) e } in
      let one : OneEntry al m1 m' g (ptx la) e = record {
        here = rw (==-refl g, ==-refl (ptx la));
        others = λ x y o.
            let off : (g == x && ptx la == y) ≡ false = ground (arith, o) in
            rw off (r.others x y o);
        npage = r.npage;
      } in
      let look = one_lookup al m1 m' root la g e role1 t1 at one in
      let (lead, lead') = path_here al m1 m' root la g e role1 t1 at one la refl refl in
      let word : m'.words g (ptx la) ≡ e = one.here in
      let n : m'.npage ≡ m1.npage = r.npage in
      let lm = (t1.mids (pdx1 la) (omega arith) at.first.0).1 in
      let lg =
        (t1.leaves at.mid (pdx1 la) (pdx0 la) at.mid_part (omega arith) (omega arith)
          at.second.0).1 in
      let pe = page_pte page perm low in
      let name = ap entry_page word ∙ pe in
      let entry_same : m1.words g (ptx la) ≡ lookup al m root la =
        sym (rw (at.first.0, at.first.1, at.second.0, at.second.1)) ∙ gr.same la in
      (
        m',
        rw (run, run2),
        record {
          lookups = λ lb. look lb ∙ ap (λ x. if same_page lb la then e else x) (gr.same lb);
          refs = λ q nq.
              r.refs q
              ∙ ap (λ x. counted x page (m1.ref q) q) entry_same
              ∙ ap (λ x. counted (lookup al m root la) page x q) (gr.refs q nq);
          found =
              get_page_lem m' root la at.mid g lead lead' (ap is_valid word ∙ valid_pte page perm)
                (let f1 = at.first.1 in omega (arith, n, lm, f1))
                (let g1 = at.second.1 in omega (arith, n, lg, g1))
                (omega (arith, n, np, name, bound))
              ∙ ap (λ x. some (some x)) name;
        },
      )

  -- On a tree of page tables, with a pool that is ready for two pages, `page_insert` of a page in
  -- use that the memory has, with a count below 2^32 - 1 and flags in the low ten bits, fails no
  -- assertion. Either no page is free afterwards, it returns `-E_NO_MEM`, and every address is
  -- mapped as it was; or it returns 0, `get_page` finds the page at the address, every other
  -- address is mapped as it was, and the reference counts have changed by the new entry and the one
  -- it replaces.
  pub page_insert-Inserted :
      (m : Mmu al) (root : ℕ) (role : ℕ → ℕ)
      → IsTable al m root role
      → al.Ready m.pool 2
      → (page la perm : ℕ) → page < m.npage
      → al.is_free m.pool page ≡ false
      → m.ref page < 4294967295
      → perm < 1024
      → (m' : Mmu al) × (((page_insert al m root page la perm ≡ some (m', false))
            × ((lb : ℕ) → lookup al m' root lb ≡ lookup al m root lb)
            × ((q : ℕ) → al.is_free m'.pool q ≡ false))
          ⊎ ((page_insert al m root page la perm ≡ some (m', true))
              × Inserted m m' root la page perm))
  unfolding page_insert
  page_insert-Inserted m root role t ready page la perm bound used lt low =
      let (m1, role1, ready1, gr, out) = get_pte-create al m root role t ready la in
      elim out [
        | inl (run, empty) ↦ (m1, inl (rw run, gr.same, empty))
        | inr (g, run, at) ↦
            let (m', run', i) =
              insert_at m m1 root la g page perm role role1 gr ready1 at run bound used lt low in
            (m', inr (run', i))
      ]
