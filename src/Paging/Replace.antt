-- ===== src/Paging/Replace.antt =====
-- The page that an entry named is replaced, in `page_insert` of lab8/code/kern/mm/pmm.c, and the
-- counts of references.
use os_labs.Prelude.{
  ℕ, ◌+◌, ◌%◌, ◌<◌, ◌≡◌, ◌≢◌, ◌⊎◌, inl, inr, refl, ap, ◌∙◌, arith, Bool, true, false, ◌&&◌, ltb,
  ◌==◌, ==-refl, if◌then◌else◌, Bool-cases, some,
}
use os_labs.Paging.{
  Allocator, Mmu, is_valid, entry_page, write_word, checked_page, count_up, count_down, drop_ref,
  page_remove_pte, replace_pte,
}

-- Does the entry map the page?
abbrev pub maps : ℕ → ℕ → Bool
maps entry page = is_valid entry && entry_page entry == page

-- What becomes of the count of a page when an entry is replaced by one for `page`.
abbrev pub counted : ℕ → ℕ → ℕ → ℕ → ℕ
counted entry page ref q =
    if maps entry page
    then ref
    else if q == page
    then ref + 1
    else if maps entry q
    then (ref + 4294967295) % 4294967296
    else ref

module _ (al : Allocator) where
  pub record Replaced (m m2 : Mmu al) (page g k : ℕ) : Type 0 where
    pub others : (x y : ℕ) → (g ≢ x) ⊎ (k ≢ y) → m2.words x y ≡ m.words x y
    pub npage : m2.npage ≡ m.npage
    pub refs : (q : ℕ) → m2.ref q ≡ counted (m.words g k) page (m.ref q) q

  -- The page has one reference less; nothing else but the pool may have changed.
  record Dropped (m m' : Mmu al) (p : ℕ) : Type 0 where
    words : m'.words ≡ m.words
    npage : m'.npage ≡ m.npage
    refs : (q : ℕ) → m'.ref q ≡ (if p == q then (m.ref p + 4294967295) % 4294967296 else m.ref q)

  -- A page that the pool takes back.
  abbrev Given : Mmu al → ℕ → Type 0
  Given m p = al.Ready m.pool 0 × (al.is_free m.pool p ≡ false) × (al.is_held m.pool p ≡ true)

  drop_ref_lem :
      (m : Mmu al) (p : ℕ)
      → Given m p
      → (m' : Mmu al) × (drop_ref al m p ≡ some m') × Dropped m m' p
  unfolding drop_ref count_down
  drop_ref_lem m p (ready, used, held) =
      let down : Mmu al = count_down al m p in
      elim (Bool-cases (down.ref p == 0)) [
        | inl e ↦
            let (pool, run) = al.free_lem m.pool p ready used held in
            (
              record down { pool = pool },
              rw (run, e),
              record { words = refl; npage = refl; refs = λ q. refl },
            )
        | inr e ↦ (down, rw e, record { words = refl; npage = refl; refs = λ q. refl })
      ]

  replace_new :
      (m : Mmu al) (page g k : ℕ)
      → m.ref page < 4294967295
      → is_valid (m.words g k) ≡ false
      → (m2 : Mmu al) × (replace_pte al m page g k ≡ some m2) × Replaced m m2 page g k
  unfolding replace_pte count_up
  replace_new m page g k lt v = (
    count_up al m page,
    rw v,
    record {
      others = λ x y o. refl;
      npage = refl;
      refs = λ q. elim (Bool-cases (page == q)) [
        | inl e ↦
            let same : page ≡ q = ground (arith, e) in
            let e' : (q == page) ≡ true = ground (arith, e) in
            let low : m.ref q < 4294967295 = omega (arith, lt, ap m.ref same) in
            let at = ap m.ref same in rw (v, e, e') (omega (arith, low, at))
        | inr e ↦ let e' : (q == page) ≡ false = ground (arith, e) in rw (v, e, e')
      ];
    },
  )

  replace_same :
      (m : Mmu al) (page g k : ℕ)
      → m.ref page < 4294967295
      → is_valid (m.words g k) ≡ true
      → entry_page (m.words g k) ≡ page
      → page < m.npage
      → (m2 : Mmu al) × (replace_pte al m page g k ≡ some m2) × Replaced m m2 page g k
  unfolding replace_pte count_up count_down checked_page
  replace_same m page g k lt v e bound =
      let ok_page : ltb (entry_page (m.words g k)) m.npage ≡ true = ground (arith, e, bound) in
      let t : (entry_page (m.words g k) == page) ≡ true = ground (arith, e) in
      (
        count_down al (count_up al m page) page,
        rw (v, ok_page, t),
        record {
          others = λ x y o. refl;
          npage = refl;
          refs = λ q. elim (Bool-cases (page == q)) [
            | inl s ↦
                let same : page ≡ q = ground (arith, s) in
                let at = ap m.ref same in rw (v, t, s, ==-refl page) (omega (arith, lt, at))
            | inr s ↦ rw (v, t, s)
          ];
        },
      )

  other_refs :
      (m m1 : Mmu al) (page g k q : ℕ)
      → m.ref page < 4294967295
      → is_valid (m.words g k) ≡ true
      → entry_page (m.words g k) ≢ page
      → Dropped (count_up al m page) m1 (entry_page (m.words g k))
      → m1.ref q ≡ counted (m.words g k) page (m.ref q) q
  unfolding count_up
  other_refs m m1 page g k q lt v ne d =
      let p : ℕ = entry_page (m.words g k) in
      let t : (p == page) ≡ false = ground (arith, ne) in
      let t' : (page == p) ≡ false = ground (arith, ne) in
      let start = d.refs q in
      elim (Bool-cases (p == q)) [
        | inl e ↦
            let same : p ≡ q = ground (arith, e) in
            let off : (q == page) ≡ false = ground (arith, same, ne) in
            let at = ap m.ref same in
            start ∙ rw (v, t, e, off, t') (ap (λ x. (x + 4294967295) % 4294967296) at)
        | inr e ↦ elim (Bool-cases (page == q)) [
          | inl s ↦
              let same : page ≡ q = ground (arith, s) in
              let s' : (q == page) ≡ true = ground (arith, s) in
              let at = ap m.ref same in start ∙ rw (v, t, e, s, s') (omega (arith, lt, at))
          | inr s ↦ let s' : (q == page) ≡ false = ground (arith, s) in start ∙ rw (v, t, e, s, s')
        ]
      ]

  page_remove_pte_lem :
      (m m1 : Mmu al) (g k : ℕ)
      → is_valid (m.words g k) ≡ true
      → entry_page (m.words g k) < m.npage
      → drop_ref al m (entry_page (m.words g k)) ≡ some m1
      → page_remove_pte al m g k ≡ some (record m1 { words = write_word m1.words g k 0 })
  unfolding page_remove_pte checked_page
  page_remove_pte_lem m m1 g k v bound run =
      let ok_page : ltb (entry_page (m.words g k)) m.npage ≡ true = ground (arith, bound) in
      rw (v, ok_page, run)

  replace_other :
      (m : Mmu al) (page g k : ℕ)
      → m.ref page < 4294967295
      → is_valid (m.words g k) ≡ true
      → entry_page (m.words g k) ≢ page
      → entry_page (m.words g k) < m.npage
      → Given m (entry_page (m.words g k))
      → (m2 : Mmu al) × (replace_pte al m page g k ≡ some m2) × Replaced m m2 page g k
  unfolding replace_pte checked_page count_up
  replace_other m page g k lt v ne bound given =
      let p : ℕ = entry_page (m.words g k) in
      let up : Mmu al = count_up al m page in
      let ok_page : ltb p m.npage ≡ true = ground (arith, bound) in
      let t : (p == page) ≡ false = ground (arith, ne) in
      let (m1, run, d) = drop_ref_lem up p given in
      (
        record m1 { words = write_word m1.words g k 0 },
        rw (page_remove_pte_lem up m1 g k v bound run, v, ok_page, t),
        record {
          others = λ x y o.
              let away : (g == x && k == y) ≡ false = ground (arith, o) in
              rw away (ap (λ (w : ℕ → ℕ → ℕ). w x y) d.words);
          npage = d.npage;
          refs = λ q. other_refs m m1 page g k q lt v ne d;
        },
      )

  pub replace_lem :
      (m : Mmu al) (page g k : ℕ)
      → m.ref page < 4294967295
      → page < m.npage
      → al.Ready m.pool 0
      → (is_valid (m.words g k) ≡ true
          → (entry_page (m.words g k) < m.npage)
            × (al.is_free m.pool (entry_page (m.words g k)) ≡ false)
            × (al.is_held m.pool (entry_page (m.words g k)) ≡ true))
      → (m2 : Mmu al) × (replace_pte al m page g k ≡ some m2) × Replaced m m2 page g k
  replace_lem m page g k lt bound ready names = elim (Bool-cases (is_valid (m.words g k))) [
    | inr v ↦ replace_new m page g k lt v
    | inl v ↦ elim (Bool-cases (entry_page (m.words g k) == page)) [
      | inl e ↦ replace_same m page g k lt v (ground (arith, e)) bound
      | inr e ↦
          let (low, used, held) = names v in
          replace_other m page g k lt v (ground (arith, e)) low (ready, used, held)
    ]
  ]
