-- ===== src/SkewHeap/Members.antt =====
-- The entries that the operations of lab8/code/libs/skew_heap.h keep.
use os_labs.Prelude.{ℕ, ◌+◌, ◌≡◌, refl, Bool, ◌==◌, if◌then◌else◌, arith, Bool-cases, inl, inr}
use os_labs.SkewHeap.{Heap, empty, node, skew_heap_merge, skew_heap_insert, skew_heap_remove}

-- How often an entry stands in a heap.
abbrev pub count : ℕ → Heap → ℕ
count p empty = 0
count p (node x l r) = (if x == p then 1 else 0) + count p l + count p r

module _ (below : ℕ → ℕ → Bool) where
  -- Merging keeps every entry of both heaps, and adds none.
  pub count-merge :
      (a b : Heap) (p : ℕ) → count p (skew_heap_merge below a b) ≡ count p a + count p b
  unfolding skew_heap_merge
  count-merge empty b p = omega arith
  count-merge (node x l r) empty p = omega arith
  count-merge (node x l r) (node y l' r') p = elim (Bool-cases (below x y)) [
    | inl e ↦ rw (skew_heap_merge, e) (omega (arith, count-merge r (node y l' r') p))
    | inr e ↦ rw (skew_heap_merge, e) (omega (arith, count-merge (node x l r) r' p))
  ]

  pub count-insert :
      (a : Heap) (b p : ℕ)
      → count p (skew_heap_insert below a b) ≡ count p a + (if b == p then 1 else 0)
  unfolding skew_heap_insert
  count-insert a b p = omega (arith, count-merge a (node b empty empty) p)

  remove-absent : (a : Heap) (b : ℕ) → count b a ≡ 0 → skew_heap_remove below a b ≡ a
  unfolding skew_heap_remove
  remove-absent empty b h = refl
  remove-absent (node x l r) b h = ground (arith, remove-absent l b, remove-absent r b)

  -- Removing an entry that stands in the heap once takes out that entry and no other.
  pub count-remove :
      (a : Heap) (b p : ℕ)
      → count b a ≡ 1
      → count p (skew_heap_remove below a b) + (if b == p then 1 else 0) ≡ count p a
  unfolding skew_heap_remove
  count-remove empty b p h = absurd (omega arith)
  count-remove (node x l r) b p h = ground (
    arith,
    count-merge l r p,
    remove-absent l b,
    remove-absent r b,
    count-remove l b p,
    count-remove r b p,
  )
