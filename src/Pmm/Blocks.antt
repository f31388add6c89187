-- ===== src/Pmm/Blocks.antt =====
-- The abstract view of the free list of lab8/code/kern/mm/default_pmm.c: its blocks, each with its
-- first page and its size, in the order of their addresses.
use os_labs.Prelude.{ℕ, ◌+◌, ◌≤◌, ◌<◌, ◌≡◌, ◌↔◌, refl, ap, ◌∙◌, true, List, [], ◌∷◌, ◌++◌, arith}
use os_labs.LinkedList.Ring.{IsRing, Apart}
use os_labs.Pmm.{Pmm, Page, u32_mod}

abbrev pub Block : Type 0
Block = ℕ × ℕ

abbrev pub starts : List Block → List ℕ
starts [] = []
starts ((b, k) ∷ bs) = b ∷ starts bs

abbrev pub total : List Block → ℕ
total [] = 0
total ((b, k) ∷ bs) = k + total bs

-- The blocks lie in order between `lo` and `hi`, are not empty and do not overlap, and the first
-- page of each records its size and carries the mark of a free block.
abbrev pub Marked : (ℕ → Page) → ℕ → ℕ → List Block → Type 0
Marked page lo hi [] = lo ≤ hi
Marked page lo hi ((b, k) ∷ bs) =
    (lo ≤ b)
    × (0 < k)
    × ((page b).property ≡ k)
    × ((page b).is_head ≡ true)
    × Marked page (b + k) hi bs

-- The manager's free list is these blocks. The node of the list's head lies above every page.
pub record IsFree (s : Pmm) (bs : List Block) : Type 0 where
  pub ring : IsRing s.links s.head (starts bs)
  pub marked : Marked s.page 0 s.head bs
  pub count : s.nr_free ≡ total bs
  pub small : total bs < u32_mod

pub starts-append : (xs ys : List Block) → starts (xs ++ ys) ≡ starts xs ++ starts ys
starts-append [] ys = refl
starts-append ((b, k) ∷ xs) ys = ap (λ r. b ∷ r) (starts-append xs ys)

pub total-append : (xs ys : List Block) → total (xs ++ ys) ≡ total xs + total ys
total-append [] ys = omega arith
total-append ((b, k) ∷ xs) ys = omega (arith, total-append xs ys)

pub Marked-le : (bs : List Block) (page : ℕ → Page) (lo hi : ℕ) → Marked page lo hi bs → lo ≤ hi
Marked-le [] page lo hi m = m
Marked-le ((b, k) ∷ bs) page lo hi m = omega (arith, Marked-le bs page (b + k) hi m.4)

pub Marked-append :
    (xs ys : List Block) (page : ℕ → Page) (lo hi b k : ℕ)
    → Marked page lo hi (xs ++ (b, k) ∷ ys) ↔ (Marked page lo b xs × Marked page b hi ((b, k) ∷ ys))
Marked-append [] ys page lo hi b k =
    (λ m. (m.0, (omega arith, m.1, m.2, m.3, m.4)), λ m. (m.0, m.1.1, m.1.2, m.1.3, m.1.4))
Marked-append ((c, j) ∷ xs) ys page lo hi b k = (
  λ m. let r = (Marked-append xs ys page (c + j) hi b k).0 m.4 in ((m.0, m.1, m.2, m.3, r.0), r.1),
  λ m. (m.0.0, m.0.1, m.0.2, m.0.3, (Marked-append xs ys page (c + j) hi b k).1 (m.0.4, m.1)),
)

-- The marks are read at the first pages only.
pub Marked-agree :
    (bs : List Block) (page page' : ℕ → Page) (lo hi : ℕ)
    → ((q : ℕ) → lo ≤ q → q < hi → page' q ≡ page q)
    → Marked page lo hi bs
    → Marked page' lo hi bs
Marked-agree [] page page' lo hi same m = m
Marked-agree ((b, k) ∷ bs) page page' lo hi same m =
    let top = Marked-le bs page (b + k) hi m.4 in
    let here = same b m.0 (omega arith) in
    (
      m.0,
      m.1,
      ap (λ (p : Page). p.property) here ∙ m.2,
      ap (λ (p : Page). p.is_head) here ∙ m.3,
      Marked-agree bs page page' (b + k) hi (λ q a c. same q (omega arith) c) m.4,
    )

-- The bounds may be moved apart.
pub Marked-widen :
    (bs : List Block) (page : ℕ → Page) (lo lo' hi hi' : ℕ)
    → lo' ≤ lo
    → hi ≤ hi'
    → Marked page lo hi bs
    → Marked page lo' hi' bs
Marked-widen [] page lo lo' hi hi' h k m = omega arith
Marked-widen ((b, j) ∷ bs) page lo lo' hi hi' h k m =
    (omega arith, m.1, m.2, m.3, Marked-widen bs page (b + j) (b + j) hi hi' (omega arith) k m.4)

-- A page that no block holds is the first of none.
pub Marked-Apart_above :
    (bs : List Block) (page : ℕ → Page) (lo hi q : ℕ)
    → Marked page lo hi bs
    → hi ≤ q
    → Apart q (starts bs)
Marked-Apart_above [] page lo hi q m h = tt
Marked-Apart_above ((b, k) ∷ bs) page lo hi q m h =
    let top = Marked-le bs page (b + k) hi m.4 in
    (omega arith, Marked-Apart_above bs page (b + k) hi q m.4 h)

pub Marked-Apart_below :
    (bs : List Block) (page : ℕ → Page) (lo hi q : ℕ)
    → Marked page lo hi bs
    → q < lo
    → Apart q (starts bs)
Marked-Apart_below [] page lo hi q m h = tt
Marked-Apart_below ((b, k) ∷ bs) page lo hi q m h =
    (omega arith, Marked-Apart_below bs page (b + k) hi q m.4 (omega arith))

pub Marked-join :
    (xs ys : List Block) (page : ℕ → Page) (lo mid mid' hi : ℕ)
    → Marked page lo mid xs
    → mid ≤ mid'
    → Marked page mid' hi ys
    → Marked page lo hi (xs ++ ys)
Marked-join [] ys page lo mid mid' hi m h k =
    Marked-widen ys page mid' lo hi hi (omega arith) (omega arith) k
Marked-join ((b, j) ∷ xs) ys page lo mid mid' hi m h k =
    (m.0, m.1, m.2, m.3, Marked-join xs ys page (b + j) mid mid' hi m.4 h k)
