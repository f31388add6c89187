-- ===== src/Pmm/Place.antt =====
-- `place_loop` of lab8/code/kern/mm/default_pmm.c ends for every page that is not on the free list.
use mathlib.Core.Path.{subst}
use os_labs.Prelude.{
  ℕ, ◌+◌, ◌≤◌, ◌<◌, ◌≡◌, ◌≢◌, ◌⊎◌, inl, inr, refl, ap, arith, List, [], ◌∷◌, ◌++◌, length, ltb,
  some, Bool-cases,
}
use os_labs.LinkedList.{Links, list_empty, list_add, list_add_before}
use os_labs.LinkedList.Ring.{IsRing, Apart}
use os_labs.LinkedList.Operations.{snoc-cases}
use os_labs.Pmm.{place}
use os_labs.Pmm.Free.{Below, not_empty, place_loop-before, place_loop-last}

-- A page lies above all nodes, or the nodes split at the first one above it.
split_at :
    (zs : List ℕ) (b : ℕ)
    → Apart b zs
    → Below b zs
      ⊎ ((xs : List ℕ) × (c : ℕ) × (ys : List ℕ) × (zs ≡ xs ++ c ∷ ys) × Below b xs × (b < c))
split_at [] b a = inl tt
split_at (z ∷ zs) b a = elim (Bool-cases (ltb b z)) [
  | inl lt ↦ inr ([], z, zs, refl, tt, ground (arith, lt))
  | inr ge ↦
      let low : z < b = let ne = a.0 in ground (arith, ge, ne) in
      elim (split_at zs b a.1) [
        | inl below ↦ inl (low, below)
        | inr (xs, c, ys, e, below, lt) ↦ inr (z ∷ xs, c, ys, ap (λ r. z ∷ r) e, (low, below), lt)
      ]
]

length-append_le : (xs ys : List ℕ) → length xs ≤ length (xs ++ ys)
length-append_le [] ys = omega arith
length-append_le (x ∷ xs) ys = omega (arith, length-append_le xs ys)

length-snoc : (xs : List ℕ) (z : ℕ) → length (xs ++ z ∷ []) ≡ length xs + 1
length-snoc [] z = refl
length-snoc (x ∷ xs) z = omega (arith, length-snoc xs z)

place_empty : (f : ℕ) (l : Links) (h b : ℕ) → IsRing l h [] → place f l h b ≡ some (list_add l h b)
unfolding place list_empty
place_empty f l h b r = let e = r.linked.0 in ground (arith, e)

place_before :
    (f : ℕ) (l : Links) (h b c : ℕ) (xs ys : List ℕ)
    → IsRing l h (xs ++ c ∷ ys)
    → Below b xs
    → b < c
    → length (xs ++ c ∷ ys) + 1 < f
    → place f l h b ≡ some (list_add_before l c b)
unfolding place
place_before f l h b c xs ys r below lt fuel =
    let le = length-append_le xs (c ∷ ys) in
    rw (not_empty xs c ys l h r.linked r.distinct.0)
      (place_loop-before xs ys f l h b c h r.linked r.distinct.0 below lt (omega (arith, le, fuel)))

place_last :
    (f : ℕ) (l : Links) (h b z : ℕ) (xs : List ℕ)
    → IsRing l h (xs ++ z ∷ [])
    → Below b (xs ++ z ∷ [])
    → b ≢ h
    → length (xs ++ z ∷ []) + 1 < f
    → place f l h b ≡ some (list_add (list_add l z b) b b)
unfolding place
place_last f l h b z xs r below ne fuel =
    let n = length-snoc xs z in
    rw (not_empty xs z [] l h r.linked r.distinct.0)
      (place_loop-last xs f l h b z h r.linked r.distinct.0 below ne (omega (arith, n, fuel)))

pub place-returns :
    (f : ℕ) (l : Links) (h b : ℕ) (zs : List ℕ)
    → IsRing l h zs
    → Apart b zs
    → b ≢ h
    → length zs + 1 < f
    → (l' : Links) × (place f l h b ≡ some l')
place-returns f l h b zs r a ne fuel = elim (split_at zs b a) [
  | inr (xs, c, ys, e, below, lt) ↦ (
    list_add_before l c b,
    place_before f l h b c xs ys (subst (IsRing l h) e r) below lt
        (subst (λ q. length q + 1 < f) e fuel),
  )
  | inl below ↦ elim (snoc-cases zs) [
    | inl e ↦ (list_add l h b, place_empty f l h b (subst (IsRing l h) e r))
    | inr (xs, z, e) ↦ (
      list_add (list_add l z b) b b,
      place_last f l h b z xs (subst (IsRing l h) e r) (subst (Below b) e below) ne
          (subst (λ q. length q + 1 < f) e fuel),
    )
  ]
]
