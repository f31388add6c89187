-- ===== src/Paging/Manager.antt =====
-- The page tables of lab8/code/kern/mm/pmm.c on its own allocator: `alloc_page` and `free_page` are
-- `alloc_pages` and `free_pages` of one page, on the manager of default_pmm.c.
use os_labs.Prelude.{inl, inr}
use os_labs.Paging.{Allocator}
use os_labs.Pmm.Pages.{
  PageManager, alloc_pages, free_pages, is_free, is_held, Ready, Ready-weaken, alloc_pages-taken,
  free_pages-returns,
}

abbrev pub page_manager : Allocator
page_manager = record {
  Pool = PageManager;
  alloc_page = λ s. alloc_pages s 1;
  free_page = λ s p. free_pages s p 1;
  is_free = is_free;
  is_held = is_held;
  Ready = Ready;
  ready_less = Ready-weaken;
  alloc_lem = λ s n ready. elim (alloc_pages-taken s n ready) [
    | inl (e, empty) ↦ inl (e, empty)
    | inr (p, s', run, was_free, rest, held, ready') ↦
        inr (p, s', run, record { was_free = was_free; rest = rest; held = held }, ready')
  ];
  free_lem = free_pages-returns;
}
