-- ===== src/SkewHeap/Tests.antt =====
-- Runs of lab8/code/libs/skew_heap.h, with the numbers as their own keys.
use os_labs.Prelude.{ℕ, ◌+◌, ◌≡◌, refl, arith, ltb, ◌==◌, if◌then◌else◌}
use os_labs.SkewHeap.{Heap, empty, node, skew_heap_remove}
use os_labs.SkewHeap.Members.{count}
use os_labs.SkewHeap.Order.{IsHeap}
use os_labs.SkewHeap.Remove.{skew_heap_remove_lem}

abbrev itself : ℕ → ℕ
itself a = a

abbrev left : Heap
left = node 1 (node 4 empty empty) (node 3 empty empty)

abbrev right : Heap
right = node 2 (node 5 empty empty) empty

remove_example :
    IsHeap itself 9 (skew_heap_remove ltb left 1)
    × ((p : ℕ) → count p (skew_heap_remove ltb left 1) + (if 1 == p then 1 else 0) ≡ count p left)
remove_example = skew_heap_remove_lem ltb itself 9 (λ x y. ground arith) left 1 (ground arith) refl
