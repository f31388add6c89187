-- ===== src/Paging.antt =====
-- lab8/code/kern/mm/pmm.c: the page tables of three levels. A page is its number, and the words of
-- a page that is a table are given by their index; the translation buffer of the processor and
-- `swap_out` are left out. `ref` of a page is kept here; the manager only sets it to 0 when a page
-- whose count is 0 is given back.
pub mod Tables
pub mod Grow
pub mod Walk
pub mod Remap
pub mod Replace
pub mod Insert
pub mod Manager
mod Tests
use os_labs.Prelude.{
  ℕ, zero, suc, ◌+◌, ◌-◌, ◌*◌, ◌/◌, ◌%◌, ◌^◌, ◌≤◌, ◌<◌, ◌≡◌, ◌≢◌, ◌⊎◌, ◌↔◌, inl, inr, refl, sym, ap,
  ◌∙◌, fun_ext, arith, Bool, true, false, not, ◌&&◌, ◌||◌, ltb, leb, ◌==◌, ==-refl, ==_iff,
  if◌then◌else◌, Bool-cases, Option-cases, Option, none, some, ◌>>=◌, ◌>>◌, assert, update, List,
  [], ◌∷◌, ◌++◌, map, length, get_elem?, set, get_or, take, drop, replicate,
}

-- Taking the free page `p` leaves the other free pages, and the pages that are held.
pub record Took {Pool : Type 0} (is_free is_held : Pool → ℕ → Bool) (a : Pool) (p : ℕ) (a' : Pool)
    : Type 0 where
  pub was_free : is_free a p ≡ true
  pub rest : (q : ℕ) → is_free a' q ≡ (if q == p then false else is_free a q)
  pub held : (q : ℕ) → is_free a q ≡ false → is_held a q ≡ true → is_held a' q ≡ true

-- The allocator of pages, `alloc_page` and `free_page` of pmm.c, as the page tables see it. From a
-- pool that is `Ready` for `n` pages, `n` pages can be taken. A page that is held and not free can
-- be given back; what the pool is like then is left open. `Manager` fills it in.
pub record Allocator : Type 1 where
  pub Pool : Type 0
  pub alloc_page : Pool → Option (Pool × Option ℕ)
  pub free_page : Pool → ℕ → Option Pool
  pub is_free : Pool → ℕ → Bool
  pub is_held : Pool → ℕ → Bool
  pub Ready : Pool → ℕ → Type 0
  pub ready_less : (a : Pool) (n : ℕ) → Ready a (suc n) → Ready a n
  pub alloc_lem :
      (a : Pool) (n : ℕ)
      → Ready a (suc n)
      → ((alloc_page a ≡ some (a, none)) × ((q : ℕ) → is_free a q ≡ false))
        ⊎ ((p : ℕ) × (a' : Pool) × (alloc_page a ≡ some (a', some p))
            × Took is_free is_held a p a'
            × Ready a' n)
  pub free_lem :
      (a : Pool) (p : ℕ)
      → Ready a 0
      → is_free a p ≡ false
      → is_held a p ≡ true
      → (a' : Pool) × (free_page a p ≡ some a')

-- The indices of an address.
abbrev pub pdx1 : ℕ → ℕ
pdx1 la = la / 1073741824 % 512

abbrev pub pdx0 : ℕ → ℕ
pdx0 la = la / 2097152 % 512

abbrev pub ptx : ℕ → ℕ
ptx la = la / 4096 % 512

-- `PTE_V`, and the page of an entry: the low ten bits are flags.
abbrev pub is_valid : ℕ → Bool
is_valid e = e % 2 == 1

abbrev pub entry_page : ℕ → ℕ
entry_page e = e / 1024

-- `(ppn << PTE_PPN_SHIFT) | PTE_V | type`, for flags in the low ten bits.
abbrev pub pte_create : ℕ → ℕ → ℕ
pte_create ppn type = ppn * 1024 + (if type % 2 == 1 then type else type + 1)

-- `PTE_U | PTE_V`
abbrev pub table_flags : ℕ
table_flags = 17

abbrev pub write_word : (ℕ → ℕ → ℕ) → ℕ → ℕ → ℕ → ℕ → ℕ → ℕ
write_word words f i e g j = if f == g && i == j then e else words g j

abbrev pub clear_page : (ℕ → ℕ → ℕ) → ℕ → ℕ → ℕ → ℕ
clear_page words f g j = if f == g then 0 else words g j

module _ (al : Allocator) where
  -- The words of the pages, their reference counts, `npage`, and the free pages.
  pub record Mmu : Type 0 where
    pub words : ℕ → ℕ → ℕ
    pub ref : ℕ → ℕ
    pub npage : ℕ
    pub pool : al.Pool

  -- `KADDR` and `pa2page`: another page than the memory has is a panic.
  unfoldable pub checked_page : Mmu → ℕ → Option ℕ
  checked_page m f = assert (ltb f m.npage) >> some f

  -- A new table for entry `i` of the table `f`.
  unfoldable pub new_table : Mmu → ℕ → ℕ → ℕ → al.Pool → Mmu
  new_table m f i p pool = record m {
    pool = pool;
    ref = update m.ref p 1;
    words = write_word (clear_page m.words p) f i (pte_create p table_flags);
  }

  -- One level of `get_pte`: the table that entry `i` of the table `f` names.
  unfoldable pub next_table : Mmu → ℕ → ℕ → Bool → Option (Mmu × Option ℕ)
  unfolding checked_page new_table
  next_table m f i create =
      let e = m.words f i in
      let there = checked_page m (entry_page e) >>= λ g. some (m, some g) in
      let made : Option (Mmu × Option ℕ) = al.alloc_page m.pool >>= λ r. elim r.1 [
        | none ↦ some (record m { pool = r.0 }, none)
        | some p ↦ checked_page m p >>= λ g. some (new_table m f i p r.0, some g)
      ] in
      if is_valid e then there else if not create then some (m, none) else made

  -- What is returned is the place of the entry, or NULL.
  unfoldable pub get_pte : Mmu → ℕ → ℕ → Bool → Option (Mmu × Option (ℕ × ℕ))
  unfolding next_table
  get_pte m root la create = next_table m root (pdx1 la) create >>= λ r. elim r.1 [
    | none ↦ some (r.0, none)
    | some f ↦ next_table r.0 f (pdx0 la) create >>= λ q. elim q.1 [
      | none ↦ some (q.0, none)
      | some g ↦ some (q.0, some (g, ptx la))
    ]
  ]

  unfoldable pub get_page : Mmu → ℕ → ℕ → Option (Option ℕ)
  unfolding get_pte checked_page
  get_page m root la = get_pte m root la false >>= λ r. elim r.1 [
    | none ↦ some none
    | some (g, k) ↦
        let page = checked_page r.0 (entry_page (r.0.words g k)) >>= λ p. some (some p) in
        if is_valid (r.0.words g k) then page else some none
  ]

  -- `page_ref_inc` and `page_ref_dec`; the count is a word of 32 bits.
  unfoldable pub count_up : Mmu → ℕ → Mmu
  count_up m p = record m { ref = update m.ref p ((m.ref p + 1) % 4294967296) }

  unfoldable pub count_down : Mmu → ℕ → Mmu
  count_down m p = record m { ref = update m.ref p ((m.ref p + 4294967295) % 4294967296) }

  -- The page loses a reference, and is freed if that was the last one.
  unfoldable pub drop_ref : Mmu → ℕ → Option Mmu
  unfolding count_down
  drop_ref m p =
      let m' = count_down m p in
      let freed = al.free_page m.pool p >>= λ pool. some (record m' { pool = pool }) in
      if m'.ref p == 0 then freed else some m'

  unfoldable pub page_remove_pte : Mmu → ℕ → ℕ → Option Mmu
  unfolding checked_page drop_ref
  page_remove_pte m g k =
      let removed = checked_page m (entry_page (m.words g k)) >>= λ p.
      drop_ref m p >>= λ m'. some (record m' { words = write_word m'.words g k 0 }) in
      if is_valid (m.words g k) then removed else some m

  unfoldable pub page_remove : Mmu → ℕ → ℕ → Option Mmu
  unfolding get_pte page_remove_pte
  page_remove m root la = get_pte m root la false >>= λ r. elim r.1 [
    | none ↦ some r.0
    | some (g, k) ↦ page_remove_pte r.0 g k
  ]

  -- The part of `page_insert` for an entry that is there.
  unfoldable pub replace_pte : Mmu → ℕ → ℕ → ℕ → Option Mmu
  unfolding checked_page page_remove_pte count_up count_down
  replace_pte m page g k =
      let counted = count_up m page in
      let other = checked_page m (entry_page (m.words g k)) >>= λ p.
      if p == page then some (count_down counted page) else page_remove_pte counted g k in
      if is_valid (m.words g k) then other else some counted

  -- The Boolean is whether 0 is returned, and not `-E_NO_MEM`.
  unfoldable pub page_insert : Mmu → ℕ → ℕ → ℕ → ℕ → Option (Mmu × Bool)
  unfolding get_pte replace_pte
  page_insert m root page la perm = get_pte m root la true >>= λ r. elim r.1 [
    | none ↦ some (r.0, false)
    | some (g, k) ↦ replace_pte r.0 page g k >>= λ m'.
        some (record m' { words = write_word m'.words g k (pte_create page perm) }, true)
  ]
