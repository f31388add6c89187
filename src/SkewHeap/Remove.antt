-- ===== src/SkewHeap/Remove.antt =====
-- `skew_heap_remove` of lab8/code/libs/skew_heap.h: the order and the entries of what is left.
use os_labs.Prelude.{ℕ, ◌+◌, ◌≡◌, ◌≤◌, Bool, ◌==◌, ltb, if◌then◌else◌}
use os_labs.SkewHeap.{Heap, skew_heap_remove}
use os_labs.SkewHeap.Members.{count, count-remove}
use os_labs.SkewHeap.Order.{IsHeap, IsHeap-remove}

-- Where the test orders entries by their keys: removing an entry that stands in a skew heap once
-- leaves a skew heap with that entry taken out, and every other entry as often as before.
pub skew_heap_remove_lem :
    (below : ℕ → ℕ → Bool) (key : ℕ → ℕ) (hi : ℕ)
    → ((a b : ℕ) → key a ≤ hi → key b ≤ hi → below a b ≡ ltb (key a) (key b))
    → (a : Heap) (b : ℕ) → IsHeap key hi a
    → count b a ≡ 1
    → IsHeap key hi (skew_heap_remove below a b)
      × ((p : ℕ) → count p (skew_heap_remove below a b) + (if b == p then 1 else 0) ≡ count p a)
skew_heap_remove_lem below key hi agree a b h once =
    (IsHeap-remove below key hi agree a b h, λ p. count-remove below a b p once)
