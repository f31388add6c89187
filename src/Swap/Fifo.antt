-- ===== src/Swap/Fifo.antt =====
-- The order in which lab8/code/kern/mm/swap_fifo.c swaps pages out.
use mathlib.Core.Path.{subst}
use os_labs.Prelude.{
  ℕ, ◌≡◌, refl, false, Option, some, List, [], ◌∷◌, ◌++◌, ◌>>=◌, append_assoc, append-nil, sym,
}
use os_labs.LinkedList.{Links, list_add_before, list_del}
use os_labs.LinkedList.Ring.{Apart, IsRing}
use os_labs.LinkedList.Operations.{list_init-IsRing, list_add_before-IsRing, list_del-IsRing}
use os_labs.Swap.{fifo_init_mm, fifo_map_swappable, fifo_swap_out_victim}

-- The pages arrive one after the other.
unfoldable pub arrive : Links → ℕ → List ℕ → Links
arrive l head [] = l
arrive l head (p ∷ ps) = arrive (fifo_map_swappable l head p) head ps

-- Pages are swapped out as often as the list is long.
unfoldable pub swap_out_all : Links → ℕ → List ℕ → Option (Links × List ℕ)
swap_out_all l head [] = some (l, [])
swap_out_all l head (p ∷ ps) = fifo_swap_out_victim l head false >>= λ r.
    swap_out_all r.0 head ps >>= λ rest. some (rest.0, r.1 ∷ rest.1)

-- The pages that arrive are new, and are no head.
abbrev pub Fresh : ℕ → List ℕ → List ℕ → Type 0
Fresh head xs [] = Unit
Fresh head xs (p ∷ ps) = Apart p (head ∷ xs) × Fresh head (xs ++ p ∷ []) ps

arrive-IsRing :
    (ps xs : List ℕ) (l : Links) (head : ℕ)
    → IsRing l head xs
    → Fresh head xs ps
    → IsRing (arrive l head ps) head (xs ++ ps)
unfolding arrive fifo_map_swappable
arrive-IsRing [] xs l head r f = subst (IsRing l head) (sym (append-nil xs)) r
arrive-IsRing (p ∷ ps) xs l head r f =
    let step = list_add_before-IsRing l head p xs r f.0 in
    subst (IsRing (arrive (list_add_before l head p) head ps) head) (append_assoc xs (p ∷ []) ps)
      (arrive-IsRing ps (xs ++ p ∷ []) (list_add_before l head p) head step f.1)

swap_out_all-IsRing :
    (ps xs : List ℕ) (l : Links) (head : ℕ)
    → IsRing l head (ps ++ xs)
    → (l' : Links) × (swap_out_all l head ps ≡ some (l', ps)) × IsRing l' head xs
unfolding swap_out_all fifo_swap_out_victim
swap_out_all-IsRing [] xs l head r = (l, refl, r)
swap_out_all-IsRing (p ∷ ps) xs l head r =
    let first : l.next head ≡ p = r.linked.0 in
    let (l', run, ok) =
      swap_out_all-IsRing ps xs (list_del l p) head (list_del-IsRing l head p [] (ps ++ xs) r) in
    (l', rw (first, run), ok)

-- From an empty list on, pages that arrive are swapped out in the order of their arrival, the
-- later ones staying on the list in that order; no assertion fails.
pub fifo-order :
    (l : Links) (head : ℕ) (out kept : List ℕ)
    → Fresh head [] (out ++ kept)
    → (l' : Links) × (swap_out_all (arrive (fifo_init_mm l head) head (out ++ kept)) head out
        ≡ some (l', out))
      × IsRing l' head kept
unfolding fifo_init_mm
fifo-order l head out kept f =
    swap_out_all-IsRing out kept (arrive (fifo_init_mm l head) head (out ++ kept)) head
      (arrive-IsRing (out ++ kept) [] (fifo_init_mm l head) head (list_init-IsRing l head) f)
