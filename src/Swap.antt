-- ===== src/Swap.antt =====
-- lab8/code/kern/mm/swap_fifo.c: first-in first-out page replacement. `head` is the node
-- `pra_list_head`, which `mm->sm_priv` points to; a page and its `pra_page_link` are one number.
pub mod Fifo
mod Tests
use os_labs.Prelude.{ℕ, Bool, not, Option, some, List, [], ◌∷◌, ◌>>=◌, ◌>>◌, assert}
use os_labs.LinkedList.{Links, list_init, list_add_before, list_del}

unfoldable pub fifo_init_mm : Links → ℕ → Links
fifo_init_mm l head = list_init l head

unfoldable pub fifo_map_swappable : Links → ℕ → ℕ → Links
fifo_map_swappable l head page = list_add_before l head page

-- The links and the page that goes through `ptr_page`.
unfoldable pub fifo_swap_out_victim : Links → ℕ → Bool → Option (Links × ℕ)
fifo_swap_out_victim l head in_tick =
    let entry = l.next head in assert (not in_tick) >> some (list_del l entry, entry)
