-- ===== src/Pmm/Best.antt =====
-- `best_fit_alloc_pages` of lab2/code/best_fit_pmm.c against the list of free blocks.
use mathlib.Core.Path.{subst}
use os_labs.Prelude.{
  ℕ, zero, suc, ◌+◌, ◌≤◌, ◌<◌, ◌≡◌, refl, ap, ◌∙◌, ◌⊎◌, inl, inr, List, [], ◌∷◌, ◌++◌, length,
  Option, none, some, leb, ltb, false, ◌==◌, ◌&&◌, if◌then◌else◌, arith, Bool-cases,
}
use os_labs.LinkedList.Ring.{Apart, Segment}
use os_labs.Pmm.{Pmm, u32_mod, add32, find_best, best_fit_alloc_pages, take_block}
use os_labs.Pmm.Blocks.{Block, starts, total, Marked, IsFree}
use os_labs.Pmm.Alloc.{remainder, take_block-IsFree}

-- The loop on the list of blocks: the block kept so far, and its size.
unfoldable best : ℕ → ℕ → Option ℕ → List Block → Option ℕ
best n m page [] = page
best n m page ((b, k) ∷ bs) =
    let better = leb n k && ltb k m in
    best n (if better then k else m) (if better then some b else page) bs

find_best_lem :
    (bs : List Block) (f : ℕ) (s : Pmm) (n lo le m : ℕ) (page : Option ℕ)
    → Segment s.links.next s.links.prev le (starts bs) s.head
    → Apart s.head (starts bs)
    → Marked s.page lo s.head bs
    → length bs < f
    → find_best f s n le m page ≡ some (best n m page bs)
unfolding find_best best
find_best_lem bs zero s n lo le m page seg a k h = absurd (omega arith)
find_best_lem [] (suc f) s n lo le m page seg a k h = ground arith
find_best_lem ((b, k) ∷ bs) (suc f) s n lo le m page seg a mk h =
    let better = leb n k && ltb k m in
    let rest =
      find_best_lem bs f s n (b + k) b (if better then k else m) (if better then some b else page)
        seg.2 a.1 mk.4 (omega arith) in
    let here : s.links.next le ≡ b = seg.0 in
    let size : (s.page b).property ≡ k = mk.2 in
    let ne : (b == s.head) ≡ false = ground (arith, a.0) in rw (find_best, here, size, ne) rest

-- No block that holds `n` pages is smaller than `m`.
abbrev pub AtLeast : ℕ → ℕ → List Block → Type 0
AtLeast n m [] = Unit
AtLeast n m ((b, k) ∷ bs) = (n ≤ k → m ≤ k) × AtLeast n m bs

-- A block that the loop may end with.
record Chosen (n m : ℕ) (bs : List Block) (r : Option ℕ) : Type 0 where
  front : List Block
  first : ℕ
  pages : ℕ
  rear : List Block
  split : bs ≡ front ++ (first, pages) ∷ rear
  fits : n ≤ pages
  less : pages < m
  result : r ≡ some first
  least : AtLeast n pages bs

best-Chosen :
    (n m : ℕ) (page : Option ℕ) (bs : List Block)
    → ((best n m page bs ≡ page) × AtLeast n m bs) ⊎ Chosen n m bs (best n m page bs)
unfolding best
best-Chosen n m page [] = inl (refl, tt)
best-Chosen n m page ((b, k) ∷ bs) = elim (Bool-cases (leb n k && ltb k m)) [
  | inl e ↦ elim (best-Chosen n k (some b) bs) [
    | inl (kept, all) ↦ inr (record {
      front = [];
      first = b;
      pages = k;
      rear = bs;
      split = refl;
      fits = ground (arith, e);
      less = ground (arith, e);
      result = rw e kept;
      least = (λ h. omega arith, all);
    })
    | inr c ↦ inr (record {
      front = (b, k) ∷ c.front;
      first = c.first;
      pages = c.pages;
      rear = c.rear;
      split = ap (λ r. (b, k) ∷ r) c.split;
      fits = c.fits;
      less = ground (arith, e, c.less);
      result = rw e c.result;
      least = (λ h. omega (arith, c.less), c.least);
    })
  ]
  | inr e ↦
      let large : n ≤ k → m ≤ k = λ h. ground (arith, e) in
      elim (best-Chosen n m page bs) [
        | inl (kept, all) ↦ inl (rw e kept, (large, all))
        | inr c ↦ inr (record {
          front = (b, k) ∷ c.front;
          first = c.first;
          pages = c.pages;
          rear = c.rear;
          split = ap (λ r. (b, k) ∷ r) c.split;
          fits = c.fits;
          less = c.less;
          result = rw e c.result;
          least = (λ h. omega (arith, c.less, large h), c.least);
        })
      ]
]

-- No block holds `n` pages.
abbrev pub AllSmall : ℕ → List Block → Type 0
AllSmall n [] = Unit
AllSmall n ((b, k) ∷ bs) = (k < n) × AllSmall n bs

AtLeast-AllSmall : (n t : ℕ) (bs : List Block) → total bs ≤ t → AtLeast n (t + 1) bs → AllSmall n bs
AtLeast-AllSmall n t [] h a = tt
AtLeast-AllSmall n t ((b, k) ∷ bs) h a =
    (ground (arith, a.0), AtLeast-AllSmall n t bs (omega arith) a.1)

total-AllSmall : (n : ℕ) (bs : List Block) → total bs < n → AllSmall n bs
total-AllSmall n [] h = tt
total-AllSmall n ((b, k) ∷ bs) h = (omega arith, total-AllSmall n bs (omega arith))

-- `best_fit_alloc_pages` on a valid free list, with fuel for its blocks and fewer than 2^32 - 1
-- free pages, returns NULL and changes nothing if no block holds `n` pages; else it takes `n` pages
-- from a block of the least size that holds them, and the free list stays valid with the rest of
-- it.
pub best_fit_alloc_pages-AtLeast :
    (f : ℕ) (s : Pmm) (n : ℕ) (bs : List Block)
    → IsFree s bs
    → 0 < n
    → length bs < f
    → total bs + 1 < u32_mod
    → ((best_fit_alloc_pages f s n ≡ some (s, none)) × AllSmall n bs)
      ⊎ ((s' : Pmm) × (xs : List Block) × (b : ℕ) × (k : ℕ) × (ys : List Block)
          × (best_fit_alloc_pages f s n ≡ some (s', some b))
          × (bs ≡ xs ++ (b, k) ∷ ys)
          × (n ≤ k)
          × AtLeast n k bs
          × IsFree s' (xs ++ remainder n b k ys))
unfolding best_fit_alloc_pages
best_fit_alloc_pages-AtLeast f s n bs v pos lt few =
    let bound : add32 s.nr_free 1 ≡ total bs + 1 = omega (arith, v.count, few) in
    let run =
      find_best_lem bs f s n 0 s.head (add32 s.nr_free 1) none v.ring.linked v.ring.distinct.0
        v.marked lt in
    let found : find_best f s n s.head (add32 s.nr_free 1) none
        ≡ some (best n (total bs + 1) none bs) =
      run ∙ ap (λ m. some (best n m none bs)) bound in
    elim (Bool-cases (ltb s.nr_free n)) [
      | inl short ↦
          inl (ground (arith, pos, short), total-AllSmall n bs (ground (arith, short, v.count)))
      | inr room ↦ elim (best-Chosen n (total bs + 1) none bs) [
        | inl (none_fits, all) ↦ inl (
          ground (arith, pos, room, found, none_fits),
          AtLeast-AllSmall n (total bs) bs (omega arith) all,
        )
        | inr c ↦ inr (
          take_block s n c.first,
          c.front,
          c.first,
          c.pages,
          c.rear,
          ground (arith, pos, room, found, c.result),
          c.split,
          c.fits,
          c.least,
          take_block-IsFree s n c.first c.pages c.front c.rear pos c.fits
              (subst (IsFree s) c.split v),
        )
      ]
    ]
