-- ===== src/Pmm/Free.antt =====
-- Where `default_free_pages` and `default_init_memmap` link a block into the free list.
use os_labs.Prelude.{
  ℕ, zero, suc, ◌+◌, ◌%◌, ◌≤◌, ◌<◌, ◌≡◌, ◌≢◌, ap, ◌∙◌, true, false, List, [], ◌∷◌, ◌++◌, length,
  some, arith,
}
use os_labs.LinkedList.{Links, list_add, list_add_before, list_del, list_empty}
use os_labs.LinkedList.Ring.{IsRing, Apart, Segment, Segment-split}
use os_labs.Pmm.{
  Pmm, Page, u32_mod, set_property, set_head, add32, place_loop, place, add_block, clear_range,
  merge_prev, merge_next, default_free_pages, take_block,
}
use os_labs.Pmm.Blocks.{Block, starts, IsFree, Marked-append, starts-append}

abbrev pub Below : ℕ → List ℕ → Type 0
Below b [] = Unit
Below b (x ∷ xs) = (x < b) × Below b xs

Below-append : (xs : List ℕ) (c b : ℕ) → Below b xs → c < b → Below b (xs ++ c ∷ [])
Below-append [] c b h lt = (lt, tt)
Below-append (x ∷ xs) c b h lt = (h.0, Below-append xs c b h.1 lt)

-- The loop links the block in front of the first block that lies above it.
pub place_loop-before :
    (xs ys : List ℕ) (f : ℕ) (l : Links) (h b c le : ℕ)
    → Segment l.next l.prev le (xs ++ c ∷ ys) h
    → Apart h (xs ++ c ∷ ys)
    → Below b xs
    → b < c
    → length xs < f
    → place_loop f l h b le ≡ some (list_add_before l c b)
unfolding place_loop
place_loop-before xs ys zero l h b c le s a below lt fuel = absurd (omega arith)
place_loop-before [] ys (suc f) l h b c le s a below lt fuel = ground arith
place_loop-before (x ∷ []) ys (suc f) l h b c le s a below lt fuel =
    ground (arith, place_loop-before [] ys f l h b c x s.2 a.1)
place_loop-before (x ∷ y ∷ xs) ys (suc f) l h b c le s a below lt fuel =
    ground (arith, place_loop-before (y ∷ xs) ys f l h b c x s.2 a.1)

place_loop-stop :
    (f : ℕ) (l : Links) (h b le : ℕ) → l.next le ≡ h → place_loop (suc f) l h b le ≡ some l
unfolding place_loop
place_loop-stop f l h b le e = ground arith

-- At the end of the list the block is added, and the loop goes on behind the old end.
place_loop-add :
    (f : ℕ) (l : Links) (h b z le : ℕ)
    → l.next le ≡ z
    → z ≢ h
    → z ≤ b
    → l.next z ≡ h
    → place_loop (suc f) l h b le ≡ place_loop f (list_add l z b) h b z
unfolding place_loop
place_loop-add f l h b z le e zh zb end = ground arith

-- Where every block lies below, the loop adds the new node behind the last and does not leave: it
-- finds the new node last and adds it behind itself.
pub place_loop-last :
    (xs : List ℕ) (f : ℕ) (l : Links) (h b z le : ℕ)
    → Segment l.next l.prev le (xs ++ z ∷ []) h
    → Apart h (xs ++ z ∷ [])
    → Below b (xs ++ z ∷ [])
    → b ≢ h
    → length xs + 2 < f
    → place_loop f l h b le ≡ some (list_add (list_add l z b) b b)
unfolding place_loop
place_loop-last xs zero l h b z le s a below ne fuel = absurd (omega arith)
place_loop-last [] (suc zero) l h b z le s a below ne fuel = absurd (omega arith)
place_loop-last [] (suc (suc zero)) l h b z le s a below ne fuel = absurd (omega arith)
place_loop-last [] (suc (suc (suc f))) l h b z le s a below ne fuel =
    place_loop-add (suc (suc f)) l h b z le s.0 (ground (arith, a.0)) (omega arith) s.2.0
    ∙ place_loop-add (suc f) once h b b z (unfold list_add in ground arith) ne (omega arith)
        (unfold list_add in ground (arith, s.2.0))
    ∙ place_loop-stop f (list_add once b b) h b b (unfold list_add in ground (arith, s.2.0))
  where
    once : Links
    once = list_add l z b
place_loop-last (x ∷ []) (suc f) l h b z le s a below ne fuel =
    ground (arith, place_loop-last [] f l h b z x s.2 a.1)
place_loop-last (x ∷ y ∷ xs) (suc f) l h b z le s a below ne fuel =
    ground (arith, place_loop-last (y ∷ xs) f l h b z x s.2 a.1)

-- What the list looks like after such a call: the new last node is its own predecessor.
pub add_twice-links :
    (l : Links) (h z b : ℕ)
    → l.next z ≡ h
    → b ≢ z
    → b ≢ h
    → let l' = list_add (list_add l z b) b b in
      (l'.prev b ≡ b) × (l'.next z ≡ b) × (l'.next b ≡ h) × ((list_del l' b).next z ≡ b)
unfolding list_add list_del
add_twice-links l h z b e bz bh = ground arith

-- The state with the block linked, before the neighbours are looked at.
abbrev pub added : Pmm → (ℕ → Page) → Links → ℕ → ℕ → Pmm
added s page l base n = record s {
  page = set_head (set_property page base (n % u32_mod)) base true;
  links = l;
  nr_free = add32 s.nr_free n;
}

pub add_block-added :
    (f : ℕ) (s : Pmm) (page : ℕ → Page) (l : Links) (base n : ℕ)
    → place f s.links s.head base ≡ some l
    → add_block f s page base n ≡ some (added s page l base n)
unfolding add_block
add_block-added f s page l base n e = ground (arith, e)

pub not_empty :
    (xs : List ℕ) (c : ℕ) (ys : List ℕ) (l : Links) (h : ℕ)
    → Segment l.next l.prev h (xs ++ c ∷ ys) h
    → Apart h (xs ++ c ∷ ys)
    → list_empty l h ≡ false
unfolding list_empty
not_empty [] c ys l h s a = ground arith
not_empty (x ∷ xs) c ys l h s a = ground arith

-- A block whose predecessor is itself is not merged with one in front of it.
merge_prev_self :
    (s : Pmm) (b : ℕ) → s.links.prev b ≡ b → 0 < (s.page b).property → merge_prev s b ≡ (s, b)
unfolding merge_prev
merge_prev_self s b e pos = ground arith

merge_next-last : (s : Pmm) (b : ℕ) → s.links.next b ≡ s.head → merge_next s b ≡ s
unfolding merge_next
merge_next-last s b e = ground arith

take_block-whole :
    (s : Pmm) (b n : ℕ)
    → (s.page b).property ≡ n
    → ((take_block s n b).links ≡ list_del s.links b) × (((take_block s n b).page b).property ≡ n)
unfolding take_block
take_block-whole s b n e = (ground arith, ground arith)

pub default_free_pages-steps :
    (f : ℕ) (s s' : Pmm) (base n : ℕ) (page : ℕ → Page)
    → 0 < n
    → clear_range n s.page base ≡ some page
    → add_block f s page base n ≡ some s'
    → default_free_pages f s base n
      ≡ some (merge_next (merge_prev s' base).0 (merge_prev s' base).1)
unfolding default_free_pages
default_free_pages-steps f s s' base n page pos cleared linked = ground (arith, cleared, linked)

-- A block that is given back above every free block is linked so that it is its own predecessor:
-- it is not merged with the block in front of it, even if that ends where it starts, and once all
-- of it is allocated again it is still reached from the block in front of it, with its old size.
pub default_free_pages-last :
    (f : ℕ) (s : Pmm) (base n : ℕ) (xs : List Block) (c j : ℕ) (page : ℕ → Page)
    → IsFree s (xs ++ (c, j) ∷ [])
    → Below base (starts xs)
    → c + j ≤ base
    → base + n ≤ s.head
    → 0 < n
    → n < u32_mod
    → clear_range n s.page base ≡ some page
    → length (starts xs) + 2 < f
    → (s' : Pmm) × (default_free_pages f s base n ≡ some s')
      × (s'.links.prev base ≡ base)
      × (s'.links.next c ≡ base)
      × ((take_block s' n base).links.next c ≡ base)
      × (((take_block s' n base).page base).property ≡ n)
default_free_pages-last f s base n xs c j page v below end top pos small cleared fuel = (
  s',
  default_free_pages-steps f s s' base n page pos cleared (add_block-added f s page l base n linked)
      ∙ rw (merge_prev_self s' base shape.0 (omega (arith, size, pos)))
          (ap some (merge_next-last s' base shape.2)),
  shape.0,
  shape.1,
  ap (λ (k : Links). k.next c) whole.0 ∙ shape.3,
  whole.1,
)
  where
    l : Links
    l = list_add (list_add s.links c base) base base

    s' : Pmm
    s' = added s page l base n

    ring : IsRing s.links s.head (starts xs ++ c ∷ [])
    ring = rw starts-append at v.ring

    jpos : 0 < j
    jpos = ((Marked-append xs [] s.page 0 s.head c j).0 v.marked).1.1

    linked : place f s.links s.head base ≡ some l
    linked =
        unfold place in
        rw (not_empty (starts xs) c [] s.links s.head ring.linked ring.distinct.0) (
          place_loop-last (starts xs) f s.links s.head base c s.head ring.linked ring.distinct.0
            (Below-append (starts xs) c base below (omega (arith, jpos))) (omega arith) fuel)

    shape :
        (l.prev base ≡ base)
        × (l.next c ≡ base)
        × (l.next base ≡ s.head)
        × ((list_del l base).next c ≡ base)
    shape =
        add_twice-links s.links s.head c base
          ((Segment-split (starts xs) [] s.links.next s.links.prev s.head c s.head).0
            ring.linked).1.0
          (omega (arith, jpos)) (omega arith)

    size : (s'.page base).property ≡ n
    size = ground arith

    whole :
        ((take_block s' n base).links ≡ list_del l base)
        × (((take_block s' n base).page base).property ≡ n)
    whole = take_block-whole s' base n size
