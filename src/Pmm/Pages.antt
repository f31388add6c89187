-- ===== src/Pmm/Pages.antt =====
-- `alloc_pages` and `free_pages` of lab8/code/kern/mm/pmm.c on the manager of default_pmm.c.
use os_labs.Prelude.{
  ℕ, suc, ◌+◌, ◌≤◌, ◌<◌, ◌≡◌, ◌⊎◌, inl, inr, refl, sym, ap, ◌∙◌, arith, Bool, true, false, not,
  ◌&&◌, ◌||◌, ltb, leb, ◌==◌, if◌then◌else◌, Bool-cases, Option, none, some, ◌>>=◌, update, List,
  [], ◌∷◌, length,
}
use os_labs.Pmm.{
  Pmm, clear_range, take_block, find_fit, default_alloc_pages, default_free_pages, merge_prev,
  merge_next,
}
use os_labs.Pmm.Blocks.{Block, starts, total, IsFree}
use os_labs.Pmm.Alloc.{remainder, take_block-IsFree}
use os_labs.Pmm.Free.{added, add_block-added, default_free_pages-steps}
use os_labs.Pmm.Covered.{
  covered, in_blocks, covered_lem, length-Marked, in_blocks-below, in_blocks-Apart,
}
use os_labs.Pmm.Place.{place-returns}

pub record PageManager : Type 0 where
  pub pmm : Pmm
  pub swap_init_ok : Bool

abbrev pub is_page : Option ℕ → Bool
is_page none = false
is_page (some p) = true

-- The first round of the loop. Where the code goes on to call `swap_out`, which is not modelled,
-- the result is `none`. Every block has a page, and all pages have numbers below the head's, so the
-- search of the free list has at most that many rounds, and one for the head.
unfoldable pub alloc_pages : PageManager → ℕ → Option (PageManager × Option ℕ)
alloc_pages s n = default_alloc_pages (suc s.pmm.head) s.pmm n >>= λ r.
    if is_page r.1 || ltb 1 n || not s.swap_init_ok
    then some (record s { pmm = r.0 }, r.1)
    else none

unfoldable pub free_pages : PageManager → ℕ → ℕ → Option PageManager
free_pages s base n =
    default_free_pages (s.pmm.head + 3) s.pmm base n >>= λ pmm. some (record s { pmm = pmm })

-- Is the page in a block of the free list?
abbrev pub is_free : PageManager → ℕ → Bool
is_free s p = covered s.pmm.head s.pmm s.pmm.head p

-- A page of the memory that is neither reserved nor the head of a free block.
abbrev pub is_held : PageManager → ℕ → Bool
is_held s p = not (s.pmm.page p).reserved && not (s.pmm.page p).is_head && ltb p s.pmm.head

-- The free list is valid, and `n` pages are free where swapping has been set up.
abbrev pub Ready : PageManager → ℕ → Type 0
Ready s n = (bs : List Block) × IsFree s.pmm bs × ((s.swap_init_ok ≡ false) ⊎ (n ≤ total bs))

pub Ready-weaken : (s : PageManager) (n : ℕ) → Ready s (suc n) → Ready s n
Ready-weaken s n (bs, v, inl e) = (bs, v, inl e)
Ready-weaken s n (bs, v, inr h) = (bs, v, inr (omega (arith, h)))

alloc_none :
    (s : PageManager) → IsFree s.pmm [] → s.swap_init_ok ≡ false → alloc_pages s 1 ≡ some (s, none)
unfolding alloc_pages default_alloc_pages
alloc_none s v off =
    let count = v.count in
    let low : ltb s.pmm.nr_free 1 ≡ true = ground (arith, count) in rw (low, off)

taken : PageManager → ℕ → PageManager
taken s b = record s { pmm = take_block s.pmm 1 b }

alloc_first :
    (s : PageManager) (b k : ℕ) (bs : List Block)
    → IsFree s.pmm ((b, k) ∷ bs)
    → alloc_pages s 1 ≡ some (taken s b, some b)
unfolding alloc_pages default_alloc_pages find_fit taken
alloc_first s b k bs v =
    let count = v.count in
    let pos = v.marked.1 in
    let size = v.marked.2 in
    let ne = v.ring.distinct.0.0 in
    let first = v.ring.linked.0 in
    let high : ltb s.pmm.nr_free 1 ≡ false = ground (arith, count, pos) in
    let other : (b == s.pmm.head) ≡ false = ground (arith, ne) in
    let fits : leb 1 k ≡ true = ground (arith, pos) in rw (high, first, other, size, fits)

total-remainder :
    (b k : ℕ) (bs : List Block) → 0 < k → total (remainder 1 b k bs) + 1 ≡ k + total bs
total-remainder b k bs pos = elim (Bool-cases (ltb 1 k)) [
  | inl e ↦ rw e (let lt : 1 < k = ground (arith, e) in omega (arith, lt))
  | inr e ↦ rw e (let one : k ≡ 1 = ground (arith, e, pos) in omega (arith, one))
]

in_blocks-remainder :
    (b k q : ℕ) (bs : List Block)
    → 0 < k
    → in_blocks b bs ≡ false
    → in_blocks q (remainder 1 b k bs) ≡ (if q == b then false else in_blocks q ((b, k) ∷ bs))
in_blocks-remainder b k q bs pos out = elim (Bool-cases (q == b)) [
  | inl e ↦
      let same : q ≡ b = ground (arith, e) in
      let gone = ap (λ x. in_blocks x bs) same ∙ out in ground (arith, e, gone, pos)
  | inr e ↦ ground (arith, e, pos)
]

page-kept :
    (s : Pmm) (b k q : ℕ)
    → (s.page b).property ≡ k
    → 0 < k
    → (leb b q && ltb q (b + k)) ≡ false
    → (take_block s 1 b).page q ≡ s.page q
unfolding take_block
page-kept s b k q size pos out = ground (arith, size, pos, out)

module _ (s : PageManager) (b k : ℕ) (bs : List Block) (v : IsFree s.pmm ((b, k) ∷ bs)) where
  rest_valid : IsFree (take_block s.pmm 1 b) (remainder 1 b k bs)
  rest_valid = take_block-IsFree s.pmm 1 b k [] bs (omega arith) v.marked.1 v

  taken-Ready :
      (n : ℕ) → (s.swap_init_ok ≡ false) ⊎ (suc n ≤ total ((b, k) ∷ bs)) → Ready (taken s b) n
  unfolding taken
  taken-Ready n (inl off) = (remainder 1 b k bs, rest_valid, inl off)
  taken-Ready n (inr h) =
      let t = total-remainder b k bs v.marked.1 in
      (remainder 1 b k bs, rest_valid, inr (omega (arith, h, t)))

  was_free : is_free s b ≡ true
  was_free = let pos = v.marked.1 in covered_lem s.pmm ((b, k) ∷ bs) b v ∙ ground (arith, pos)

  rest_free : (q : ℕ) → is_free (taken s b) q ≡ (if q == b then false else is_free s q)
  unfolding taken
  rest_free q =
      let pos = v.marked.1 in
      let out =
        in_blocks-below bs s.pmm.page (b + k) s.pmm.head b v.marked.4 (omega (arith, pos)) in
      covered_lem (take_block s.pmm 1 b) (remainder 1 b k bs) q rest_valid
      ∙ in_blocks-remainder b k q bs pos out
      ∙ ap (λ x. if q == b then false else x) (sym (covered_lem s.pmm ((b, k) ∷ bs) q v))

  still_held : (q : ℕ) → is_free s q ≡ false → is_held s q ≡ true → is_held (taken s b) q ≡ true
  unfolding taken take_block
  still_held q used held =
      let none_of : in_blocks q ((b, k) ∷ bs) ≡ false =
        sym (covered_lem s.pmm ((b, k) ∷ bs) q v) ∙ used in
      let same = page-kept s.pmm b k q v.marked.2 v.marked.1 (ground (arith, none_of)) in
      rw same held

cleared :
    (s : Pmm) (p : ℕ)
    → (s.page p).reserved ≡ false
    → (s.page p).is_head ≡ false
    → clear_range 1 s.page p
      ≡ some (update s.page p (record (s.page p) { ref = 0; reserved = false; is_head = false }))
unfolding clear_range
cleared s p r h = rw (r, h)

length-starts : (bs : List Block) → length (starts bs) ≡ length bs
length-starts [] = refl
length-starts ((b, k) ∷ bs) = omega (arith, length-starts bs)

-- A page that is held and not free is given back without a failed assertion.
pub free_pages-returns :
    (s : PageManager) (p : ℕ)
    → Ready s 0
    → is_free s p ≡ false
    → is_held s p ≡ true
    → (s' : PageManager) × (free_pages s p 1 ≡ some s')
unfolding free_pages
free_pages-returns s p (bs, v, _) used held =
    let away =
      in_blocks-Apart bs s.pmm.page 0 s.pmm.head p v.marked
        (sym (covered_lem s.pmm bs p v) ∙ used) in
    let few = length-Marked bs s.pmm.page 0 s.pmm.head v.marked in
    let same = length-starts bs in
    let (l, run) =
      place-returns (s.pmm.head + 3) s.pmm.links s.pmm.head p (starts bs) v.ring away
        (λ e. ground (arith, held, e)) (omega (arith, few, same)) in
    let page =
      update s.pmm.page p (record (s.pmm.page p) { ref = 0; reserved = false; is_head = false }) in
    let s1 : Pmm = added s.pmm page l p 1 in
    let steps =
      default_free_pages-steps (s.pmm.head + 3) s.pmm s1 p 1 page (omega arith)
        (cleared s.pmm p (ground (arith, held)) (ground (arith, held)))
        (add_block-added (s.pmm.head + 3) s.pmm page l p 1 run) in
    (record s { pmm = merge_next (merge_prev s1 p).0 (merge_prev s1 p).1 }, rw steps)

-- A page is taken from a pool that is ready: no page is free and none is returned, or it is the
-- first page of the first block, and the other pages stay as they were.
pub alloc_pages-taken :
    (s : PageManager) (n : ℕ)
    → Ready s (suc n)
    → ((alloc_pages s 1 ≡ some (s, none)) × ((q : ℕ) → is_free s q ≡ false))
      ⊎ ((p : ℕ) × (s' : PageManager) × (alloc_pages s 1 ≡ some (s', some p))
          × (is_free s p ≡ true)
          × ((q : ℕ) → is_free s' q ≡ (if q == p then false else is_free s q))
          × ((q : ℕ) → is_free s q ≡ false → is_held s q ≡ true → is_held s' q ≡ true)
          × Ready s' n)
alloc_pages-taken s n ([], v, inl off) = inl (alloc_none s v off, λ q. covered_lem s.pmm [] q v)
alloc_pages-taken s n ([], v, inr h) = absurd (omega (arith, h))
alloc_pages-taken s n ((b, k) ∷ bs, v, ready) = inr (
  b,
  taken s b,
  alloc_first s b k bs v,
  was_free s b k bs v,
  rest_free s b k bs v,
  still_held s b k bs v,
  taken-Ready s b k bs v n ready,
)
