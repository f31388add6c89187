-- ===== src/Pmm/Alloc.antt =====
-- `default_alloc_pages` of lab8/code/kern/mm/default_pmm.c against the list of free blocks.
use mathlib.Core.Path.{subst}
use os_labs.Prelude.{
  ℕ, zero, suc, ◌+◌, ◌-◌, ◌≤◌, ◌<◌, ◌≡◌, ◌≢◌, refl, ap, sym, ◌⊎◌, inl, inr, List, [], ◌∷◌, ◌++◌,
  length, Option, none, some, leb, ltb, if◌then◌else◌, arith, Bool-cases,
}
use os_labs.LinkedList.{list_add, list_del}
use os_labs.LinkedList.Ring.{IsRing, Apart, Apart-append, Segment}
use os_labs.LinkedList.Operations.{list_del-IsRing, list_add-list_del}
use os_labs.Pmm.{Pmm, u32_mod, find_fit, take_block, default_alloc_pages}
use os_labs.Pmm.Blocks.{
  Block, starts, total, Marked, IsFree, starts-append, total-append, Marked-append, Marked-agree,
  Marked-le, Marked-join, Marked-Apart_above, Marked-Apart_below, Marked-widen,
}

-- What stays of the block `(b, k)`, in front of `ys`, when its first `n` pages are taken.
abbrev pub remainder : ℕ → ℕ → ℕ → List Block → List Block
remainder n b k ys = if ltb n k then (b + n, k - n) ∷ ys else ys

-- First fit on the list of blocks: the first page of the first block that is large enough, and
-- the blocks that are left.
unfoldable pub first_fit : ℕ → List Block → Option ℕ × List Block
first_fit n [] = (none, [])
first_fit n ((b, k) ∷ bs) =
    let (r, rest) = first_fit n bs in
    if leb n k then (some b, remainder n b k bs) else (r, (b, k) ∷ rest)

find_fit_lem :
    (bs : List Block) (f : ℕ) (s : Pmm) (n lo le : ℕ)
    → Segment s.links.next s.links.prev le (starts bs) s.head
    → Apart s.head (starts bs)
    → Marked s.page lo s.head bs
    → length bs < f
    → find_fit f s n le ≡ some (first_fit n bs).0
unfolding find_fit first_fit
find_fit_lem bs zero s n lo le seg a m h = absurd (omega arith)
find_fit_lem [] (suc f) s n lo le seg a m h = ground arith
find_fit_lem ((b, k) ∷ bs) (suc f) s n lo le seg a m h =
    ground (arith, find_fit_lem bs f s n (b + k) b seg.2 a.1 m.4)

-- Where first fit finds a block, the list splits at it.
first_fit-cases :
    (n : ℕ) (bs : List Block)
    → ((first_fit n bs ≡ (none, bs)))
      ⊎ ((xs : List Block) × (b : ℕ) × (k : ℕ) × (ys : List Block) × (bs ≡ xs ++ (b, k) ∷ ys)
          × (n ≤ k)
          × (first_fit n bs ≡ (some b, xs ++ remainder n b k ys)))
unfolding first_fit
first_fit-cases n [] = inl refl
first_fit-cases n ((b, k) ∷ bs) = elim (Bool-cases (leb n k)) [
  | inl fits ↦ inr ([], b, k, bs, refl, ground arith, rw fits)
  | inr small ↦ elim (first_fit-cases n bs) [
    | inl none_fits ↦ inl (rw (small, none_fits))
    | inr (xs, c, j, ys, split, fits, found) ↦
        inr ((b, k) ∷ xs, c, j, ys, ap (λ r. (b, k) ∷ r) split, fits, rw (small, found))
  ]
]

-- The facts about a block of the list that taking it uses.
record At (s : Pmm) (xs : List Block) (b k : ℕ) (ys : List Block) : Type 0 where
  ring : IsRing s.links s.head (starts xs ++ b ∷ starts ys)
  front : Marked s.page 0 b xs
  size : (s.page b).property ≡ k
  back : Marked s.page (b + k) s.head ys
  count : s.nr_free ≡ total xs + k + total ys
  small : total xs + k + total ys < u32_mod

IsFree-At :
    (s : Pmm) (xs : List Block) (b k : ℕ) (ys : List Block)
    → IsFree s (xs ++ (b, k) ∷ ys)
    → At s xs b k ys
IsFree-At s xs b k ys v =
    let m = (Marked-append xs ys s.page 0 s.head b k).0 v.marked in
    record {
      ring = rw (starts-append xs ((b, k) ∷ ys)) at v.ring;
      front = m.0;
      size = m.1.2;
      back = m.1.4;
      count = omega (arith, v.count, total-append xs ((b, k) ∷ ys));
      small = omega (arith, v.small, total-append xs ((b, k) ∷ ys));
    }

-- The page array after a block was taken, away from the pages that were written.
page-take_block : (s : Pmm) (n b q : ℕ) → q ≢ b → q ≢ b + n → (take_block s n b).page q ≡ s.page q
unfolding take_block
page-take_block s n b q h k = ground arith

module _ (s : Pmm) (n b k : ℕ) (xs ys : List Block) (pos : 0 < n) (h : At s xs b k ys) where
  -- The blocks in front and behind keep their marks.
  front-kept : n ≤ k → Marked (take_block s n b).page 0 b xs
  front-kept le =
      Marked-agree xs s.page _ 0 b (λ q l u. page-take_block s n b q (omega arith) (omega arith))
        h.front

  back-kept : n < k → Marked (take_block s n b).page (b + k) s.head ys
  back-kept lt =
      Marked-agree ys s.page _ (b + k) s.head
        (λ q l u. page-take_block s n b q (omega arith) (omega arith)) h.back

  back-kept_whole : 0 < k → n ≡ k → Marked (take_block s n b).page (b + k) s.head ys
  unfolding take_block
  back-kept_whole p e =
      Marked-agree ys s.page (take_block s n b).page (b + k) s.head
        (λ q l u. ground (arith, h.size)) h.back

  take_block_part : n < k → IsFree (take_block s n b) (xs ++ (b + n, k - n) ∷ ys)
  unfolding take_block
  take_block_part lt = record {
    ring = rw starts-append (
        subst (λ l. IsRing l s.head (starts xs ++ (b + n) ∷ starts ys)) (sym split)
          (list_add-list_del s.links s.head b (b + n) (starts xs) (starts ys) h.ring fresh));
    marked =
        Marked-join xs ((b + n, k - n) ∷ ys) (take_block s n b).page 0 b (b + n) s.head
          (front-kept (omega arith)) (omega arith)
          (
            omega arith,
            omega arith,
            ground (arith, h.size, h.small),
            ground (arith, h.size),
            Marked-widen ys (take_block s n b).page (b + k) (b + n + (k - n)) s.head s.head
                (omega arith) (omega arith) (back-kept lt),
          );
    count = ground (arith, h.count, h.small, total-append xs ((b + n, k - n) ∷ ys));
    small = omega (arith, h.small, total-append xs ((b + n, k - n) ∷ ys));
  }
    where
      split : (take_block s n b).links ≡ list_add (list_del s.links b) (s.links.prev b) (b + n)
      split = ground (arith, h.size)

      top : b + k ≤ s.head
      top = Marked-le ys s.page (b + k) s.head h.back

      fresh : Apart (b + n) (s.head ∷ (starts xs ++ starts ys))
      fresh = (
        omega (arith, top),
        (Apart-append (starts xs) (starts ys) (b + n)).1 (
          Marked-Apart_above xs s.page 0 b (b + n) h.front (omega arith),
          Marked-Apart_below ys s.page (b + k) s.head (b + n) h.back (omega arith),
        ),
      )

  take_block_whole : n ≡ k → IsFree (take_block s n b) (xs ++ ys)
  unfolding take_block
  take_block_whole e = record {
    ring = rw starts-append (
        subst (λ l. IsRing l s.head (starts xs ++ starts ys)) (sym unsplit)
          (list_del-IsRing s.links s.head b (starts xs) (starts ys) h.ring));
    marked =
        Marked-join xs ys (take_block s n b).page 0 b (b + k) s.head (front-kept (omega arith))
          (omega arith) (back-kept_whole (omega arith) e);
    count = ground (arith, h.count, h.small, total-append xs ys);
    small = omega (arith, h.small, total-append xs ys);
  }
    where
      unsplit : (take_block s n b).links ≡ list_del s.links b
      unsplit = ground (arith, h.size)

-- Taking `n` pages from a block of the list leaves the rest of it, and the other blocks.
pub take_block-IsFree :
    (s : Pmm) (n b k : ℕ) (xs ys : List Block)
    → 0 < n
    → n ≤ k
    → IsFree s (xs ++ (b, k) ∷ ys)
    → IsFree (take_block s n b) (xs ++ remainder n b k ys)
take_block-IsFree s n b k xs ys pos le v = elim (Bool-cases (ltb n k)) [
  | inl less ↦ rw less (take_block_part s n b k xs ys pos (IsFree-At s xs b k ys v) (ground arith))
  | inr eq ↦ rw eq (take_block_whole s n b k xs ys pos (IsFree-At s xs b k ys v) (ground arith))
]

total-first_fit : (n : ℕ) (bs : List Block) → total bs < n → (first_fit n bs ≡ (none, bs))
unfolding first_fit
total-first_fit n [] h = refl
total-first_fit n ((b, k) ∷ bs) h = ground (arith, total-first_fit n bs)

-- `default_alloc_pages` is first fit: on a valid free list it returns the page that first fit
-- finds (NULL if no block is large enough), and the free list is then what first fit leaves, in
-- order, with the remainder of a larger block in its place. The state stays valid.
pub default_alloc_pages-first_fit :
    (f : ℕ) (s : Pmm) (n : ℕ) (bs : List Block)
    → IsFree s bs
    → 0 < n
    → length bs < f
    → (s' : Pmm) × (default_alloc_pages f s n ≡ some (s', (first_fit n bs).0))
      × IsFree s' (first_fit n bs).1
unfolding default_alloc_pages
default_alloc_pages-first_fit f s n bs v pos lt = elim (first_fit-cases n bs) [
  | inl e ↦ (s, ground (arith, found, e, no_room), rw e v)
  | inr (xs, b, k, ys, split, le, e) ↦ (
    take_block s n b,
    ground (arith, found, e, no_room),
    rw e (take_block-IsFree s n b k xs ys pos le (subst (IsFree s) split v)),
  )
]
  where
    found : find_fit f s n s.head ≡ some (first_fit n bs).0
    found = find_fit_lem bs f s n 0 s.head v.ring.linked v.ring.distinct.0 v.marked lt

    no_room : s.nr_free < n → (first_fit n bs).0 ≡ none
    no_room lt = rw (total-first_fit n bs (omega (arith, v.count)))
