-- ===== src/Pmm/Tests.antt =====
-- Runs of the page managers on a concrete free list.
use os_labs.Prelude.{
  ℕ, ◌≡◌, ◌≤◌, ◌⊎◌, refl, arith, update, false, none, some, List, [], ◌∷◌, ◌++◌, ◌||◌, ◌==◌,
  if◌then◌else◌,
}
use os_labs.Pmm.{
  Page, Pmm, default_alloc_pages, default_free_pages, best_fit_alloc_pages, take_block, clear_range,
}
use os_labs.Pmm.Blocks.{Block, IsFree}
use os_labs.Pmm.Alloc.{remainder, first_fit, default_alloc_pages-first_fit}
use os_labs.Pmm.Best.{AllSmall, AtLeast, best_fit_alloc_pages-AtLeast}
use os_labs.Pmm.Free.{default_free_pages-last}

-- Free blocks: 2 pages from 10 on, 5 pages from 20 on; the head is node 100.
abbrev pages : ℕ → Page
pages p = record {
  ref = 0;
  reserved = false;
  is_head = p == 10 || p == 20;
  property = if p == 10 then 2 else if p == 20 then 5 else 0;
}

abbrev two : Pmm
two = record {
  page = pages;
  links = record {
    next = λ a. if a == 100 then 10 else if a == 10 then 20 else 100;
    prev = λ a. if a == 100 then 20 else if a == 20 then 10 else 100;
  };
  head = 100;
  nr_free = 7;
}

abbrev blocks : List Block
blocks = (10, 2) ∷ (20, 5) ∷ []

two-IsFree : IsFree two blocks
two-IsFree = ground arith

alloc_example :
    (s' : Pmm) × (default_alloc_pages 10 two 3 ≡ some (s', some 20))
    × IsFree s' ((10, 2) ∷ (23, 2) ∷ [])
unfolding first_fit
alloc_example = default_alloc_pages-first_fit 10 two 3 blocks two-IsFree (omega arith) (omega arith)

abbrev cleared : ℕ → Page
cleared = update pages 40 (record (pages 40) { ref = 0; reserved = false; is_head = false })

clear_run : clear_range 1 pages 40 ≡ some cleared
unfolding clear_range
clear_run = refl

free_example :
    (s' : Pmm) × (default_free_pages 10 two 40 1 ≡ some s')
    × (s'.links.prev 40 ≡ 40)
    × (s'.links.next 20 ≡ 40)
    × ((take_block s' 1 40).links.next 20 ≡ 40)
    × (((take_block s' 1 40).page 40).property ≡ 1)
free_example =
    default_free_pages-last 10 two 40 1 ((10, 2) ∷ []) 20 5 cleared two-IsFree (ground arith)
      (omega arith) (omega arith) (omega arith) (omega arith) clear_run (omega arith)

best_fit_example :
    ((best_fit_alloc_pages 10 two 3 ≡ some (two, none)) × AllSmall 3 blocks)
    ⊎ ((s' : Pmm) × (xs : List Block) × (b : ℕ) × (k : ℕ) × (ys : List Block)
        × (best_fit_alloc_pages 10 two 3 ≡ some (s', some b))
        × (blocks ≡ xs ++ (b, k) ∷ ys)
        × (3 ≤ k)
        × AtLeast 3 k blocks
        × IsFree s' (xs ++ remainder 3 b k ys))
best_fit_example =
    best_fit_alloc_pages-AtLeast 10 two 3 blocks two-IsFree (omega arith) (omega arith)
      (omega arith)
