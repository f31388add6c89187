-- ===== src/Pmm.antt =====
-- lab8/code/kern/mm/default_pmm.c, the first-fit manager of physical pages, and the best-fit
-- search of lab2/code/best_fit_pmm.c. A page, its `page_link` and its `struct Page *` are one
-- number, its index; `head` is the node `free_area.free_list`, which is no page.
pub mod Blocks
pub mod Alloc
pub mod Free
pub mod Best
pub mod Covered
pub mod Place
pub mod Pages
mod Tests
use os_labs.Prelude.{
  ℕ, zero, suc, ◌+◌, ◌-◌, ◌%◌, ◌^◌, Bool, true, false, not, ◌&&◌, ◌||◌, Option, none, some, leb,
  ltb, ◌==◌, if◌then◌else◌, ◌>>=◌, ◌>>◌, assert, update,
}
use os_labs.LinkedList.{Links, list_init, list_add, list_add_before, list_del, list_empty}

-- `struct Page`: `flags` by its two bits.
pub record Page : Type 0 where
  pub ref : ℕ
  pub reserved : Bool
  pub is_head : Bool
  pub property : ℕ

pub record Pmm : Type 0 where
  pub page : ℕ → Page
  pub links : Links
  pub head : ℕ
  pub nr_free : ℕ

abbrev pub u32_mod : ℕ
u32_mod = 2 ^ 32

-- `unsigned int` addition and subtraction.
abbrev pub add32 : ℕ → ℕ → ℕ
add32 a b = (a + b) % u32_mod

abbrev pub sub32 : ℕ → ℕ → ℕ
sub32 a b = (a + u32_mod - b % u32_mod) % u32_mod

abbrev pub set_property : (ℕ → Page) → ℕ → ℕ → ℕ → Page
set_property page p n = update page p (record (page p) { property = n })

-- `SetPageProperty` and `ClearPageProperty`
abbrev pub set_head : (ℕ → Page) → ℕ → Bool → ℕ → Page
set_head page p b = update page p (record (page p) { is_head = b })

default_init : Pmm → Pmm
default_init s = record s { links = list_init s.links s.head; nr_free = 0 }

-- The loop over the pages of a new block.
pub init_range : ℕ → (ℕ → Page) → ℕ → Option (ℕ → Page)
init_range zero page p = some page
init_range (suc n) page p =
    let blank : Page = record { ref = 0; reserved = false; is_head = false; property = 0 } in
    let rest = init_range n (update page p blank) (p + 1) in assert (page p).reserved >> rest

-- The loop over the pages of a block that is given back: `property` is kept.
pub clear_range : ℕ → (ℕ → Page) → ℕ → Option (ℕ → Page)
clear_range zero page p = some page
clear_range (suc n) page p =
    let blank = record (page p) { ref = 0; reserved = false; is_head = false } in
    let rest = clear_range n (update page p blank) (p + 1) in
    assert (not (page p).reserved && not (page p).is_head) >> rest

-- The loop that links `base` into the free list. `list_add` at the end does not leave the loop.
pub place_loop : ℕ → Links → ℕ → ℕ → ℕ → Option Links
place_loop zero l head base le = none
place_loop (suc f) l head base le =
    let le' = l.next le in
    let last = place_loop f (list_add l le' base) head base le' in
    let rest = place_loop f l head base le' in
    if le' == head
    then some l
    else if ltb base le'
    then some (list_add_before l le' base)
    else if l.next le' == head
    then last
    else rest

pub place : ℕ → Links → ℕ → ℕ → Option Links
unfolding place_loop
place fuel l head base =
    if list_empty l head then some (list_add l head base) else place_loop fuel l head base head

-- What both `default_init_memmap` and `default_free_pages` do once the pages are cleared.
pub add_block : ℕ → Pmm → (ℕ → Page) → ℕ → ℕ → Option Pmm
add_block fuel s page base n = place fuel s.links s.head base >>= λ l. some (record s {
  page = set_head (set_property page base (n % u32_mod)) base true;
  links = l;
  nr_free = add32 s.nr_free n;
})

pub default_init_memmap : ℕ → Pmm → ℕ → ℕ → Option Pmm
default_init_memmap fuel s base n =
    assert (ltb 0 n) >> (init_range n s.page base >>= λ page. add_block fuel s page base n)

-- The inner option is the page found.
pub find_fit : ℕ → Pmm → ℕ → ℕ → Option (Option ℕ)
find_fit zero s n le = none
find_fit (suc f) s n le =
    let p = s.links.next le in
    let rest = find_fit f s n p in
    if p == s.head then some none else if leb n (s.page p).property then some (some p) else rest

-- Taking `n` pages from the front of the block `b`.
pub take_block : Pmm → ℕ → ℕ → Pmm
take_block s n b =
    let prev = s.links.prev b in
    let l = list_del s.links b in
    let split = ltb n (s.page b).property in
    let p = b + n in
    let page' = set_head (set_property s.page p (sub32 (s.page b).property n)) p true in
    record s {
      page = set_head (if split then page' else s.page) b false;
      links = if split then list_add l prev p else l;
      nr_free = sub32 s.nr_free n;
    }

pub default_alloc_pages : ℕ → Pmm → ℕ → Option (Pmm × Option ℕ)
default_alloc_pages fuel s n =
    assert (ltb 0 n)
    >> (if ltb s.nr_free n
        then some (s, none)
        else find_fit fuel s n s.head >>= λ found. elim found [
          | none ↦ some (s, none)
          | some b ↦ some (take_block s n b, some b)
        ])

-- The block at `q` becomes part of the block at `p` in front of it.
pub join_blocks : Pmm → ℕ → ℕ → Pmm
join_blocks s p q = record s {
  page = set_head (set_property s.page p (add32 (s.page p).property (s.page q).property)) q false;
  links = list_del s.links q;
}

-- The block in front is joined if it ends where this one starts; then it is the new `base`.
pub merge_prev : Pmm → ℕ → Pmm × ℕ
merge_prev s base =
    let p = s.links.prev base in
    if not (p == s.head) && p + (s.page p).property == base
    then (join_blocks s p base, p)
    else (s, base)

pub merge_next : Pmm → ℕ → Pmm
merge_next s base =
    let p = s.links.next base in
    if not (p == s.head) && base + (s.page base).property == p then join_blocks s base p else s

pub default_free_pages : ℕ → Pmm → ℕ → ℕ → Option Pmm
default_free_pages fuel s base n =
    assert (ltb 0 n)
    >> (clear_range n s.page base >>= λ page. add_block fuel s page base n >>= λ s.
        let (s, base) = merge_prev s base in some (merge_next s base))

pub default_nr_free_pages : Pmm → ℕ
default_nr_free_pages s = s.nr_free

-- The best-fit search: the whole list is read, and the smallest block that serves is kept.
pub find_best : ℕ → Pmm → ℕ → ℕ → ℕ → Option ℕ → Option (Option ℕ)
find_best zero s n le min_size page = none
find_best (suc f) s n le min_size page =
    let p = s.links.next le in
    let size = (s.page p).property in
    let better = leb n size && ltb size min_size in
    let rest =
      find_best f s n p (if better then size else min_size) (if better then some p else page) in
    if p == s.head then some page else rest

pub best_fit_alloc_pages : ℕ → Pmm → ℕ → Option (Pmm × Option ℕ)
best_fit_alloc_pages fuel s n =
    assert (ltb 0 n)
    >> (if ltb s.nr_free n
        then some (s, none)
        else find_best fuel s n s.head (add32 s.nr_free 1) none >>= λ found. elim found [
          | none ↦ some (s, none)
          | some b ↦ some (take_block s n b, some b)
        ])

-- The other operations of best_fit_pmm.c do what those of default_pmm.c do.
pub best_fit_init : Pmm → Pmm
best_fit_init s = record s { links = list_init s.links s.head; nr_free = 0 }

pub best_fit_init_memmap : ℕ → Pmm → ℕ → ℕ → Option Pmm
unfolding init_range add_block
best_fit_init_memmap fuel s base n =
    assert (ltb 0 n) >> (init_range n s.page base >>= λ page. add_block fuel s page base n)

pub best_fit_free_pages : ℕ → Pmm → ℕ → ℕ → Option Pmm
unfolding clear_range add_block merge_prev merge_next
best_fit_free_pages fuel s base n =
    assert (ltb 0 n)
    >> (clear_range n s.page base >>= λ page. add_block fuel s page base n >>= λ s.
        let (s, base) = merge_prev s base in some (merge_next s base))

pub best_fit_nr_free_pages : Pmm → ℕ
best_fit_nr_free_pages s = s.nr_free
