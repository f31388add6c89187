-- ===== src/Paging/Tests.antt =====
-- A run of the page tables of lab8/code/kern/mm/pmm.c with the manager of default_pmm.c.
use os_labs.Prelude.{ℕ, false, true, ◌||◌, ◌==◌, if◌then◌else◌, List, [], ◌∷◌}
use os_labs.Pmm.{Pmm}
use os_labs.Pmm.Blocks.{Block}
use os_labs.Pmm.Pages.{PageManager}
use os_labs.Paging.{Mmu}
use os_labs.Paging.Manager.{page_manager}

-- The free blocks are page 7 and the pages 9 and 10; the head is node 100.
abbrev frames : Pmm
frames = record {
  page = λ p. record {
    ref = 0;
    reserved = false;
    is_head = p == 7 || p == 9;
    property = if p == 7 then 1 else if p == 9 then 2 else 0;
  };
  links = record {
    next = λ a. if a == 100 then 7 else if a == 7 then 9 else 100;
    prev = λ a. if a == 100 then 9 else if a == 9 then 7 else 100;
  };
  head = 100;
  nr_free = 3;
}

abbrev free_blocks : List Block
free_blocks = (7, 1) ∷ (9, 2) ∷ []

abbrev manager : PageManager
manager = record { pmm = frames; swap_init_ok = true }

-- The directory is page 1 and empty.
abbrev empty_mmu : Mmu page_manager
empty_mmu = record {
  words = λ f j. 0;
  ref = λ p. if p == 20 then 1 else 0;
  npage = 100;
  pool = manager;
}

abbrev only_root : ℕ → ℕ
only_root p = if p == 1 then 1 else 0
