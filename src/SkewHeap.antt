-- ===== src/SkewHeap.antt =====
-- lab8/code/libs/skew_heap.h. A heap is a tree of entries, each a number; the parent links of the
-- C entries are the places in the tree. `below a b` is the test `comp(a, b) == -1`.
pub mod Members
pub mod Order
pub mod Remove
mod Tests
use os_labs.Prelude.{ℕ, Bool, true, false, ◌==◌, if◌then◌else◌}

pub data Heap : Type 0 where
  empty : Heap
  node : ℕ → Heap → Heap → Heap

module _ (below : ℕ → ℕ → Bool) where
  unfoldable pub skew_heap_merge : Heap → Heap → Heap
  skew_heap_merge empty b = b
  skew_heap_merge (node x l r) empty = node x l r
  skew_heap_merge (node x l r) (node y l' r') = elim (below x y) [
    | true ↦ node x (skew_heap_merge r (node y l' r')) l
    | false ↦ node y (skew_heap_merge (node x l r) r') l'
  ]

  unfoldable pub skew_heap_insert : Heap → ℕ → Heap
  unfolding skew_heap_merge
  skew_heap_insert a b = skew_heap_merge a (node b empty empty)

  -- The entry is replaced, where it stands, by its two subtrees merged.
  unfoldable pub skew_heap_remove : Heap → ℕ → Heap
  unfolding skew_heap_merge
  skew_heap_remove empty b = empty
  skew_heap_remove (node x l r) b =
      let rest = node x (skew_heap_remove l b) (skew_heap_remove r b) in
      if x == b then skew_heap_merge l r else rest
