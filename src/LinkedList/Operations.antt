-- ===== src/LinkedList/Operations.antt =====
-- What list_init, list_add, list_add_before, list_del and list_empty of lab8/code/libs/list.h do to
-- the list that a ring holds.
use mathlib.Core.Path.{subst}
use os_labs.Prelude.{
  sym, ap, ◌∙◌, ◌⊎◌, inl, inr, append_assoc, append-nil, ℕ, ◌≡◌, ◌↔◌, refl, true, List, [], ◌∷◌,
  ◌++◌, arith,
}
use os_labs.LinkedList.{Links, list_init, list_add, list_add_before, list_del, list_empty}
use os_labs.LinkedList.Ring.{
  Segment, Apart, IsRing, Apart-append, Segment-next, Segment-prev, Segment-split, Segment-join,
  Segment-insert_last, Segment-insert_first, Distinct-remove, Distinct-insert, Distinct-after,
  Distinct-split, Distinct-front, next-Apart, prev-Apart,
}

-- `list_init` makes the empty list.
pub list_init-IsRing : (l : Links) (h : ℕ) → IsRing (list_init l h) h []
unfolding list_init
list_init-IsRing l h = ground arith

-- `list_empty` tests whether the list holds no node.
pub list_empty_iff :
    (l : Links) (h : ℕ) (xs : List ℕ) → IsRing l h xs → (list_empty l h ≡ true) ↔ (xs ≡ [])
unfolding list_empty
list_empty_iff l h [] r = ground (arith, r.linked, r.distinct)
list_empty_iff l h (x ∷ xs) r = (λ e. absurd (ground (arith, r.linked, r.distinct)), λ e. cc)

-- `list_add` of a fresh node to the head puts it first.
pub list_add-IsRing :
    (l : Links) (h e : ℕ) (xs : List ℕ)
    → IsRing l h xs
    → Apart e (h ∷ xs)
    → IsRing (list_add l h e) h (e ∷ xs)
unfolding list_add
list_add-IsRing l h e xs r a = record {
  linked = Segment-insert_first xs l.next l.prev h h e r.distinct r.distinct.0 (a.0, a) r.linked;
  distinct = Distinct-insert (h ∷ []) xs e a r.distinct;
}

-- `list_add` of a fresh node to a node of the list puts it just behind that node.
pub list_add-IsRing_at :
    (l : Links) (h z e : ℕ) (xs ys : List ℕ)
    → IsRing l h (xs ++ z ∷ ys)
    → Apart e (h ∷ (xs ++ z ∷ ys))
    → IsRing (list_add l z e) h (xs ++ z ∷ e ∷ ys)
unfolding list_add
list_add-IsRing_at l h z e xs ys r a =
    let (front, back) = (Segment-split xs ys l.next l.prev h z h).0 r.linked in
    let d = Distinct-split (h ∷ xs) ys z r.distinct in
    let off = (Apart-append (h ∷ xs) (z ∷ ys) e).0 a in
    let top = (Apart-append xs (z ∷ ys) h).0 r.distinct.0 in
    let near = next-Apart xs ys l.next l.prev h z back r.distinct in
    record {
      linked = (Segment-split xs (e ∷ ys) _ _ h z h).1 (
        Segment-prev xs _ _ h z e z off.0.1 off.1.0 (
            Segment-prev xs _ l.prev h z (l.next z) e near.0 near.1 (
              Segment-next xs _ l.prev h z e (l.next z) off.0
                (Segment-next xs l.next l.prev h z z e d.0 front))),
        Segment-insert_first ys l.next l.prev z h e d.1 top.1.1 (off.0.0, off.1) back,
      );
      distinct = Distinct-after (h ∷ xs) ys z e a r.distinct;
    }

-- `list_add_before` of a fresh node to the head puts it last.
pub list_add_before-IsRing :
    (l : Links) (h e : ℕ) (xs : List ℕ)
    → IsRing l h xs
    → Apart e (h ∷ xs)
    → IsRing (list_add_before l h e) h (xs ++ e ∷ [])
unfolding list_add_before
list_add_before-IsRing l h e xs r a = record {
  linked = Segment-insert_last xs l.next l.prev h h e r.distinct r.distinct.0 (a.0, a) r.linked;
  distinct = Distinct-insert (h ∷ xs) [] e (rw (append-nil xs) a) (rw (append-nil xs) r.distinct);
}

-- `list_add_before` of a fresh node to a node of the list puts it just in front of that node.
pub list_add_before-IsRing_at :
    (l : Links) (h z e : ℕ) (xs ys : List ℕ)
    → IsRing l h (xs ++ z ∷ ys)
    → Apart e (h ∷ (xs ++ z ∷ ys))
    → IsRing (list_add_before l z e) h (xs ++ e ∷ z ∷ ys)
unfolding list_add_before
list_add_before-IsRing_at l h z e xs ys r a =
    let (front, back) = (Segment-split xs ys l.next l.prev h z h).0 r.linked in
    let d = Distinct-split (h ∷ xs) ys z r.distinct in
    let off = (Apart-append (h ∷ xs) (z ∷ ys) e).0 a in
    let top = (Apart-append xs (z ∷ ys) h).0 r.distinct.0 in
    let near = prev-Apart (z ∷ ys) xs l.next l.prev h z front r.distinct in
    let first =
      Segment-insert_last xs l.next l.prev h z e (Distinct-front (h ∷ xs) (z ∷ ys) r.distinct) d.0.1
        (off.1.0, off.0) front in
    let rest = Segment-prev ys _ _ z h e (l.prev z) off.1.1 off.0.0 (
      Segment-prev ys _ l.prev z h z e d.1.0 d.0.0 (
        Segment-next ys _ l.prev z h e z off.1
          (Segment-next ys l.next l.prev z h (l.prev z) e near back))) in
    record {
      linked = rw append_assoc at ((Segment-split (xs ++ e ∷ []) ys _ _ h z h).1 (first, rest));
      distinct = Distinct-insert (h ∷ xs) (z ∷ ys) e a r.distinct;
    }

-- `list_del` takes a node out of the list, wherever it stands, and keeps the others in order.
pub list_del-IsRing :
    (l : Links) (h e : ℕ) (xs ys : List ℕ)
    → IsRing l h (xs ++ e ∷ ys)
    → IsRing (list_del l e) h (xs ++ ys)
unfolding list_del
list_del-IsRing l h e xs ys r = record {
  linked = Segment-join xs ys l.next l.prev h h e r.distinct r.distinct.0 r.linked;
  distinct = Distinct-remove (h ∷ xs) ys e r.distinct;
}

pub snoc-cases : (xs : List ℕ) → (xs ≡ []) ⊎ ((zs : List ℕ) × (z : ℕ) × (xs ≡ zs ++ z ∷ []))
snoc-cases [] = inl refl
snoc-cases (x ∷ xs) = elim (snoc-cases xs) [
  | inl e ↦ inr ([], x, ap (λ r. x ∷ r) e)
  | inr (zs, z, e) ↦ inr (x ∷ zs, z, ap (λ r. x ∷ r) e)
]

-- Taking out the node `e` and adding a fresh node behind the one in front of it puts the fresh
-- node in its place.
pub list_add-list_del :
    (l : Links) (h e k : ℕ) (xs ys : List ℕ)
    → IsRing l h (xs ++ e ∷ ys)
    → Apart k (h ∷ (xs ++ ys))
    → IsRing (list_add (list_del l e) (l.prev e) k) h (xs ++ k ∷ ys)
list_add-list_del l h e k xs ys r a = elim (snoc-cases xs) [
  | inl none ↦ at_head none
  | inr (zs, z, last) ↦ at_node zs z last
]
  where
    removed : IsRing (list_del l e) h (xs ++ ys)
    removed = list_del-IsRing l h e xs ys r

    front : Segment l.next l.prev h xs e
    front = ((Segment-split xs ys l.next l.prev h e h).0 r.linked).0

    at_head : xs ≡ [] → IsRing (list_add (list_del l e) (l.prev e) k) h (xs ++ k ∷ ys)
    at_head none =
        let first : Segment l.next l.prev h [] e = rw none at front in
        let whole : IsRing (list_del l e) h ys = rw none at removed in
        let fresh : Apart k (h ∷ ys) = rw none at a in
        subst (λ ws. IsRing (list_add (list_del l e) (l.prev e) k) h (ws ++ k ∷ ys)) (sym none)
          (subst (λ w. IsRing (list_add (list_del l e) w k) h (k ∷ ys)) (sym first.1)
            (list_add-IsRing (list_del l e) h k ys whole fresh))

    at_node :
        (zs : List ℕ) (z : ℕ)
        → xs ≡ zs ++ z ∷ []
        → IsRing (list_add (list_del l e) (l.prev e) k) h (xs ++ k ∷ ys)
    at_node zs z last =
        let seg : Segment l.next l.prev h (zs ++ z ∷ []) e = rw last at front in
        let step = ((Segment-split zs [] l.next l.prev h z e).0 seg).1 in
        let moved : xs ++ ys ≡ zs ++ z ∷ ys =
          ap (λ ws. ws ++ ys) last ∙ append_assoc zs (z ∷ []) ys in
        let whole = subst (λ ws. IsRing (list_del l e) h ws) moved removed in
        let fresh = subst (λ ws. Apart k (h ∷ ws)) moved a in
        let goal = ap (λ ws. ws ++ k ∷ ys) last ∙ append_assoc zs (z ∷ []) (k ∷ ys) in
        subst (λ ws. IsRing (list_add (list_del l e) (l.prev e) k) h ws) (sym goal)
          (subst (λ w. IsRing (list_add (list_del l e) w k) h (zs ++ z ∷ k ∷ ys)) (sym step.1)
            (list_add-IsRing_at (list_del l e) h z k zs ys whole fresh))
