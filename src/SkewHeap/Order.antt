-- ===== src/SkewHeap/Order.antt =====
-- The heap order of lab8/code/libs/skew_heap.h. The comparison need only agree with an order by
-- keys on entries whose keys lie below a bound, as that of the stride scheduler does.
use os_labs.Prelude.{ℕ, ◌≡◌, ◌≤◌, Bool, ◌==◌, ltb, arith, Bool-cases, inl, inr}
use os_labs.SkewHeap.{Heap, empty, node, skew_heap_merge, skew_heap_insert, skew_heap_remove}

module _ (key : ℕ → ℕ) where
  -- The keys of all entries lie between `lo` and `hi`.
  abbrev pub Within : ℕ → ℕ → Heap → Type 0
  Within lo hi empty = Unit
  Within lo hi (node x l r) = (lo ≤ key x) × (key x ≤ hi) × Within lo hi l × Within lo hi r

  -- No entry has a smaller key than one above it.
  abbrev pub IsHeap : ℕ → Heap → Type 0
  IsHeap hi empty = Unit
  IsHeap hi (node x l r) =
      (key x ≤ hi) × Within (key x) hi l × Within (key x) hi r × IsHeap hi l × IsHeap hi r

  pub Within-weaken : (a : Heap) (lo lo' hi : ℕ) → lo' ≤ lo → Within lo hi a → Within lo' hi a
  Within-weaken empty lo lo' hi h w = tt
  Within-weaken (node x l r) lo lo' hi h w =
      (omega arith, w.1, Within-weaken l lo lo' hi h w.2, Within-weaken r lo lo' hi h w.3)

  pub IsHeap-Within : (a : Heap) (hi : ℕ) → IsHeap hi a → Within 0 hi a
  IsHeap-Within empty hi h = tt
  IsHeap-Within (node x l r) hi h =
      (omega arith, h.0, IsHeap-Within l hi h.3, IsHeap-Within r hi h.4)

module _ (below : ℕ → ℕ → Bool) (key : ℕ → ℕ) (hi : ℕ)
    (agree : (a b : ℕ) → key a ≤ hi → key b ≤ hi → below a b ≡ ltb (key a) (key b)) where
  Within-merge :
      (a b : Heap) (lo : ℕ)
      → Within key lo hi a
      → Within key lo hi b
      → Within key lo hi (skew_heap_merge below a b)
  unfolding skew_heap_merge
  Within-merge empty b lo v w = w
  Within-merge (node x l r) empty lo v w = v
  Within-merge (node x l r) (node y l' r') lo v w = elim (Bool-cases (below x y)) [
    | inl e ↦ rw (skew_heap_merge, e) (v.0, v.1, Within-merge r (node y l' r') lo v.3 w, v.2)
    | inr e ↦ rw (skew_heap_merge, e) (w.0, w.1, Within-merge (node x l r) r' lo v w.3, w.2)
  ]

  -- Merging two heaps gives a heap.
  pub IsHeap-merge :
      (a b : Heap) → IsHeap key hi a → IsHeap key hi b → IsHeap key hi (skew_heap_merge below a b)
  unfolding skew_heap_merge
  IsHeap-merge empty b g h = h
  IsHeap-merge (node x l r) empty g h = g
  IsHeap-merge (node x l r) (node y l' r') g h = elim (Bool-cases (below x y)) [
    | inl e ↦
        let le : key x ≤ key y = ground (arith, agree x y g.0 h.0) in
        rw (skew_heap_merge, e)
          (
            g.0,
            Within-merge r (node y l' r') (key x) g.2 (
              le,
              h.0,
              Within-weaken key l' (key y) (key x) hi le h.1,
              Within-weaken key r' (key y) (key x) hi le h.2,
            ),
            g.1,
            IsHeap-merge r (node y l' r') g.4 h,
            g.3,
          )
    | inr e ↦
        let le : key y ≤ key x = ground (arith, agree x y g.0 h.0) in
        rw (skew_heap_merge, e)
          (
            h.0,
            Within-merge (node x l r) r' (key y)
                (
                  le,
                  g.0,
                  Within-weaken key l (key x) (key y) hi le g.1,
                  Within-weaken key r (key x) (key y) hi le g.2,
                )
                h.2,
            h.1,
            IsHeap-merge (node x l r) r' g h.4,
            h.3,
          )
  ]

  pub IsHeap-insert :
      (a : Heap) (b : ℕ) → key b ≤ hi → IsHeap key hi a → IsHeap key hi (skew_heap_insert below a b)
  unfolding skew_heap_insert
  IsHeap-insert a b le h = IsHeap-merge a (node b empty empty) h (le, tt, tt, tt, tt)

  Within-remove :
      (a : Heap) (b lo : ℕ) → Within key lo hi a → Within key lo hi (skew_heap_remove below a b)
  unfolding skew_heap_remove
  Within-remove empty b lo w = tt
  Within-remove (node x l r) b lo w = elim (Bool-cases (x == b)) [
    | inl e ↦ rw e (Within-merge l r lo w.2 w.3)
    | inr e ↦ rw e (w.0, w.1, Within-remove l b lo w.2, Within-remove r b lo w.3)
  ]

  pub IsHeap-remove :
      (a : Heap) (b : ℕ) → IsHeap key hi a → IsHeap key hi (skew_heap_remove below a b)
  unfolding skew_heap_remove
  IsHeap-remove empty b h = tt
  IsHeap-remove (node x l r) b h = elim (Bool-cases (x == b)) [
    | inl e ↦ rw e (IsHeap-merge l r h.3 h.4)
    | inr e ↦ rw e (
      h.0,
      Within-remove l b (key x) h.1,
      Within-remove r b (key x) h.2,
      IsHeap-remove l b h.3,
      IsHeap-remove r b h.4,
    )
  ]
