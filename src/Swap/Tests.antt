-- ===== src/Swap/Tests.antt =====
-- A run of lab8/code/kern/mm/swap_fifo.c.
use os_labs.Prelude.{◌≡◌, arith, some, [], ◌∷◌}
use os_labs.LinkedList.{Links}
use os_labs.LinkedList.Ring.{IsRing}
use os_labs.Swap.{fifo_init_mm}
use os_labs.Swap.Fifo.{arrive, swap_out_all, fifo-order}

abbrev blank : Links
blank = record { next = λ a. a; prev = λ a. a }

fifo_example :
    (l' : Links) × (swap_out_all (arrive (fifo_init_mm blank 0) 0 (5 ∷ 3 ∷ 8 ∷ [])) 0 (5 ∷ 3 ∷ [])
      ≡ some (l', 5 ∷ 3 ∷ []))
    × IsRing l' 0 (8 ∷ [])
fifo_example = fifo-order blank 0 (5 ∷ 3 ∷ []) (8 ∷ []) (ground arith)
