-- ===== src/LinkedList/Ring.antt =====
-- When a head node's links form a ring through a list of nodes of lab8/code/libs/list.h, and how
-- links that are written change the nodes along the ring.
use mathlib.Core.Path.{subst}
use os_labs.Prelude.{sym, ℕ, ◌≡◌, ◌≢◌, ◌↔◌, refl, List, [], ◌∷◌, ◌++◌, arith, update}
use os_labs.LinkedList.{Links}

-- The links lead from `a` through `xs` to `b`, and back.
abbrev pub Segment : (ℕ → ℕ) → (ℕ → ℕ) → ℕ → List ℕ → ℕ → Type 0
Segment n p a [] b = (n a ≡ b) × (p b ≡ a)
Segment n p a (x ∷ xs) b = (n a ≡ x) × (p x ≡ a) × Segment n p x xs b

abbrev pub Apart : ℕ → List ℕ → Type 0
Apart e [] = Unit
Apart e (x ∷ xs) = (e ≢ x) × Apart e xs

abbrev pub Distinct : List ℕ → Type 0
Distinct [] = Unit
Distinct (x ∷ xs) = Apart x xs × Distinct xs

-- The list with head `h` holds the nodes `xs`, which are distinct.
pub record IsRing (l : Links) (h : ℕ) (xs : List ℕ) : Type 0 where
  pub linked : Segment l.next l.prev h xs h
  pub distinct : Distinct (h ∷ xs)

pub Apart-append : (xs ys : List ℕ) (e : ℕ) → Apart e (xs ++ ys) ↔ (Apart e xs × Apart e ys)
Apart-append [] ys e = (λ a. (tt, a), λ a. a.1)
Apart-append (x ∷ xs) ys e = (
  λ a. let r = (Apart-append xs ys e).0 a.1 in ((a.0, r.0), r.1),
  λ a. (a.0.0, (Apart-append xs ys e).1 (a.0.1, a.1)),
)

-- A write to a link that the segment does not read.
pub Segment-next :
    (xs : List ℕ) (n p : ℕ → ℕ) (a b k v : ℕ)
    → Apart k (a ∷ xs)
    → Segment n p a xs b
    → Segment (update n k v) p a xs b
Segment-next [] n p a b k v h s = ground arith
Segment-next (x ∷ xs) n p a b k v h s = (ground arith, s.1, Segment-next xs n p x b k v h.1 s.2)

pub Segment-prev :
    (xs : List ℕ) (n p : ℕ → ℕ) (a b k v : ℕ)
    → Apart k xs
    → k ≢ b
    → Segment n p a xs b
    → Segment n (update p k v) a xs b
Segment-prev [] n p a b k v h kb s = ground arith
Segment-prev (x ∷ xs) n p a b k v h kb s =
    (s.0, ground arith, Segment-prev xs n p x b k v h.1 kb s.2)

-- The node before the end lies on the segment, the node after the start on it or at its end.
prev-ne : (xs : List ℕ) (n p : ℕ → ℕ) (a b z : ℕ) → Segment n p a xs b → Apart z (a ∷ xs) → z ≢ p b
prev-ne [] n p a b z s h = ground arith
prev-ne (x ∷ xs) n p a b z s h = prev-ne xs n p x b z s.2 h.1

next-ne :
    (xs : List ℕ) (n p : ℕ → ℕ) (a b z : ℕ) → Segment n p a xs b → Apart z xs → z ≢ b → z ≢ n a
next-ne [] n p a b z s h zb = ground arith
next-ne (x ∷ xs) n p a b z s h zb = ground arith

Apart-self : (xs ys : List ℕ) (e : ℕ) → ¬ Apart e (xs ++ e ∷ ys)
Apart-self [] ys e h = h.0 refl
Apart-self (x ∷ xs) ys e h = Apart-self xs ys e h.1

ne-sym : {a b : ℕ} → a ≢ b → b ≢ a
ne-sym h = omega arith

pub Segment-split :
    (xs ys : List ℕ) (n p : ℕ → ℕ) (a e b : ℕ)
    → Segment n p a (xs ++ e ∷ ys) b ↔ (Segment n p a xs e × Segment n p e ys b)
Segment-split [] ys n p a e b = (λ s. ((s.0, s.1), s.2), λ s. (s.0.0, s.0.1, s.1))
Segment-split (x ∷ xs) ys n p a e b = (
  λ s. let r = (Segment-split xs ys n p x e b).0 s.2 in ((s.0, s.1, r.0), r.1),
  λ s. (s.0.0, s.0.1, (Segment-split xs ys n p x e b).1 (s.0.2, s.1)),
)

Apart-of_eq : {a b : ℕ} (xs : List ℕ) → a ≡ b → Apart a xs → Apart b xs
Apart-of_eq xs e h = subst (λ k. Apart k xs) e h

-- Taking the node `e` out, wherever it stands.
pub Segment-join :
    (xs ys : List ℕ) (n p : ℕ → ℕ) (a b e : ℕ)
    → Distinct (a ∷ (xs ++ e ∷ ys))
    → Apart b (xs ++ e ∷ ys)
    → Segment n p a (xs ++ e ∷ ys) b
    → Segment (update n (p e) (n e)) (update p (n e) (p e)) a (xs ++ ys) b
Segment-join [] [] n p a b e d ab s = ground arith
Segment-join [] (y ∷ ys) n p a b e d ab s =
    let fresh = Apart-of_eq (y ∷ ys) (sym s.1) d.0.1 in
    let fresh' = Apart-of_eq ys (sym s.2.0) d.1.1.0 in
    let below : n e ≢ b = ground (arith, ab.1.0) in
    (
      ground arith,
      ground arith,
      Segment-prev ys _ p y b (n e) (p e) fresh' below
          (Segment-next ys n p y b (p e) (n e) fresh s.2.2),
    )
Segment-join (x ∷ xs) ys n p a b e d ab s =
    let parts = (Segment-split xs ys n p x e b).0 s.2 in
    let a_off = (Apart-append (x ∷ xs) (e ∷ ys) a).0 d.0 in
    let x_off = (Apart-append xs (e ∷ ys) x).0 d.1.0 in
    let behind = prev-ne xs n p x e a parts.0 a_off.0 in
    let ahead = next-ne ys n p e b x parts.1 x_off.1.1 (ne-sym ab.0) in
    (ground arith, ground arith, Segment-join xs ys n p x b e d.1 ab.1 s.2)

-- Putting the node `e` in before the end.
pub Segment-insert_last :
    (xs : List ℕ) (n p : ℕ → ℕ) (a b e : ℕ)
    → Distinct (a ∷ xs)
    → Apart b xs
    → Apart e (b ∷ a ∷ xs)
    → Segment n p a xs b
    → Segment (update (update n (p b) e) e b) (update (update p b e) e (p b)) a (xs ++ e ∷ []) b
Segment-insert_last [] n p a b e d ab ae s = ground arith
Segment-insert_last (x ∷ xs) n p a b e d ab ae s =
    let off = prev-ne xs n p x b a s.2 d.0 in
    (ground arith, ground arith, Segment-insert_last xs n p x b e d.1 ab.1 (ae.0, ae.1.1) s.2)

-- Putting the node `e` in after the node `z`.
pub Segment-insert_first :
    (xs : List ℕ) (n p : ℕ → ℕ) (z b e : ℕ)
    → Distinct (z ∷ xs)
    → Apart b xs
    → Apart e (b ∷ z ∷ xs)
    → Segment n p z xs b
    → Segment (update (update n z e) e (n z)) (update (update p (n z) e) e z) z (e ∷ xs) b
Segment-insert_first [] n p z b e d ab ae s = ground arith
Segment-insert_first (x ∷ xs) n p z b e d ab ae s =
    let near = Apart-of_eq xs (sym s.0) d.1.0 in
    let below : n z ≢ b = ground (arith, ab.0) in
    (
      ground arith,
      ground arith,
      (
        ground arith,
        ground arith,
        Segment-prev xs _ _ x b e z ae.1.1.1 ae.0 (
            Segment-prev xs _ p x b (n z) e near below
              (Segment-next xs _ p x b e (n z) ae.1.1 (Segment-next xs n p x b z e d.0 s.2))),
      ),
    )

pub Distinct-remove : (xs ys : List ℕ) (e : ℕ) → Distinct (xs ++ e ∷ ys) → Distinct (xs ++ ys)
Distinct-remove [] ys e d = d.1
Distinct-remove (x ∷ xs) ys e d =
    let off = (Apart-append xs (e ∷ ys) x).0 d.0 in
    ((Apart-append xs ys x).1 (off.0, off.1.1), Distinct-remove xs ys e d.1)

pub Distinct-insert :
    (xs ys : List ℕ) (e : ℕ) → Apart e (xs ++ ys) → Distinct (xs ++ ys) → Distinct (xs ++ e ∷ ys)
Distinct-insert [] ys e a d = (a, d)
Distinct-insert (x ∷ xs) ys e a d =
    let off = (Apart-append xs ys x).0 d.0 in
    ((Apart-append xs (e ∷ ys) x).1 (off.0, (ne-sym a.0, off.1)), Distinct-insert xs ys e a.1 d.1)

pub Distinct-after :
    (xs ys : List ℕ) (z e : ℕ)
    → Apart e (xs ++ z ∷ ys)
    → Distinct (xs ++ z ∷ ys)
    → Distinct (xs ++ z ∷ e ∷ ys)
Distinct-after [] ys z e a d = ((ne-sym a.0, d.0), (a.1, d.1))
Distinct-after (x ∷ xs) ys z e a d =
    let off = (Apart-append xs (z ∷ ys) x).0 d.0 in
    (
      (Apart-append xs (z ∷ e ∷ ys) x).1 (off.0, (off.1.0, (ne-sym a.0, off.1.1))),
      Distinct-after xs ys z e a.1 d.1,
    )

pub Distinct-split :
    (xs ys : List ℕ) (z : ℕ) → Distinct (xs ++ z ∷ ys) → Apart z xs × Distinct (z ∷ ys)
Distinct-split [] ys z d = (tt, d)
Distinct-split (x ∷ xs) ys z d =
    let r = Distinct-split xs ys z d.1 in
    ((ne-sym ((Apart-append xs (z ∷ ys) x).0 d.0).1.0, r.0), r.1)

pub Distinct-front : (xs ys : List ℕ) → Distinct (xs ++ ys) → Distinct xs
Distinct-front [] ys d = tt
Distinct-front (x ∷ xs) ys d = (((Apart-append xs ys x).0 d.0).0, Distinct-front xs ys d.1)

-- The node behind `z` is none of those in front of it, nor `z`.
pub next-Apart :
    (xs ys : List ℕ) (n p : ℕ → ℕ) (h z : ℕ)
    → Segment n p z ys h
    → Distinct (h ∷ (xs ++ z ∷ ys))
    → Apart (n z) xs × (n z ≢ z)
next-Apart xs [] n p h z s d =
    let off = (Apart-append xs (z ∷ []) h).0 d.0 in
    (Apart-of_eq xs (sym s.0) off.0, ground (arith, off.1.0))
next-Apart xs (y ∷ ys) n p h z s d =
    let behind = Distinct-split xs ys y (Distinct-remove xs (y ∷ ys) z d.1) in
    let here = Distinct-split xs (y ∷ ys) z d.1 in
    (Apart-of_eq xs (sym s.0) behind.0, ground (arith, here.1.0.0))

-- The node in front of `z` is none of those behind.
pub prev-Apart :
    (zs xs : List ℕ) (n p : ℕ → ℕ) (h z : ℕ)
    → Segment n p h xs z
    → Distinct (h ∷ (xs ++ zs))
    → Apart (p z) zs
prev-Apart [] xs n p h z s d = tt
prev-Apart (w ∷ zs) xs n p h z s d = (
  ne-sym (prev-ne xs n p h z w s (Distinct-split (h ∷ xs) zs w d).0),
  prev-Apart zs xs n p h z s (Distinct-remove (h ∷ xs) zs w d),
)
