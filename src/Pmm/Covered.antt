-- ===== src/Pmm/Covered.antt =====
-- Which pages the free list of lab8/code/kern/mm/default_pmm.c covers.
use os_labs.Prelude.{
  ℕ, zero, suc, ◌+◌, ◌≤◌, ◌<◌, ◌≡◌, refl, arith, Bool, false, ◌&&◌, ◌||◌, leb, ltb, ◌==◌,
  if◌then◌else◌, List, [], ◌∷◌, length,
}
use os_labs.LinkedList.Ring.{Apart, Segment}
use os_labs.Pmm.{Pmm, Page}
use os_labs.Pmm.Blocks.{Block, starts, Marked, IsFree}

-- Does a block of the free list, from behind `le` on, hold the page?
unfoldable pub covered : ℕ → Pmm → ℕ → ℕ → Bool
covered zero s le p = false
covered (suc f) s le p =
    let q = s.links.next le in
    let rest = covered f s q p in
    if q == s.head then false else (leb q p && ltb p (q + (s.page q).property)) || rest

abbrev pub in_blocks : ℕ → List Block → Bool
in_blocks p [] = false
in_blocks p ((b, k) ∷ bs) = (leb b p && ltb p (b + k)) || in_blocks p bs

covered_from :
    (bs : List Block) (f : ℕ) (s : Pmm) (le lo p : ℕ)
    → Segment s.links.next s.links.prev le (starts bs) s.head
    → Apart s.head (starts bs)
    → Marked s.page lo s.head bs
    → length bs ≤ f
    → covered f s le p ≡ in_blocks p bs
unfolding covered
covered_from [] zero s le lo p seg a m h = refl
covered_from [] (suc f) s le lo p seg a m h = ground (arith, seg.0)
covered_from ((b, k) ∷ bs) zero s le lo p seg a m h = absurd (omega (arith, h))
covered_from ((b, k) ∷ bs) (suc f) s le lo p seg a m h =
    let rest = covered_from bs f s b (b + k) p seg.2 a.1 m.4 (omega (arith, h)) in
    let other : (b == s.head) ≡ false = ground (arith, a.0) in rw (seg.0, other, m.2, rest)

pub length-Marked :
    (bs : List Block) (page : ℕ → Page) (lo hi : ℕ) → Marked page lo hi bs → lo + length bs ≤ hi
length-Marked [] page lo hi m = omega (arith, m)
length-Marked ((b, k) ∷ bs) page lo hi m =
    let rest = length-Marked bs page (b + k) hi m.4 in
    let le = m.0 in let pos = m.1 in omega (arith, rest, le, pos)

-- The pages of a valid free list, read off the links.
pub covered_lem :
    (s : Pmm) (bs : List Block) (p : ℕ) → IsFree s bs → covered s.head s s.head p ≡ in_blocks p bs
covered_lem s bs p v =
    covered_from bs s.head s s.head 0 p v.ring.linked v.ring.distinct.0 v.marked
      (omega (arith, length-Marked bs s.page 0 s.head v.marked))

pub in_blocks-below :
    (bs : List Block) (page : ℕ → Page) (lo hi q : ℕ)
    → Marked page lo hi bs
    → q < lo
    → in_blocks q bs ≡ false
in_blocks-below [] page lo hi q m h = refl
in_blocks-below ((b, k) ∷ bs) page lo hi q m h =
    let rest = in_blocks-below bs page (b + k) hi q m.4 (let le = m.0 in omega (arith, h, le)) in
    let out : leb b q ≡ false = let le = m.0 in ground (arith, h, le) in rw (out, rest)

pub in_blocks-Apart :
    (bs : List Block) (page : ℕ → Page) (lo hi q : ℕ)
    → Marked page lo hi bs
    → in_blocks q bs ≡ false
    → Apart q (starts bs)
in_blocks-Apart [] page lo hi q m h = tt
in_blocks-Apart ((b, k) ∷ bs) page lo hi q m h = (
  λ e. let pos = m.1 in ground (arith, h, e, pos),
  in_blocks-Apart bs page (b + k) hi q m.4 (ground (arith, h)),
)
