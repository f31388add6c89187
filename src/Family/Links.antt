-- ===== src/Family/Links.antt =====
-- `set_links`, `remove_links` and the loops over children of lab8/code/kern/process/proc.c, over
-- the list of a process's children.
use os_labs.Prelude.{
  ℕ, ◌+◌, ◌-◌, ◌≡◌, inl, inr, refl, sym, ap, ◌∙◌, arith, true, false, ◌==◌, ==-refl, Bool-cases,
  Option, none, some, update, List, [], ◌∷◌,
}
use mathlib.Core.Path.{subst}
use os_labs.Family.{Family, assign, remove, set_links, unlink_older, remove_links}
use os_labs.Family.Chains.{
  head, mem, Distinct, Chain, AllChildren, Agree, Chain-Agree, AllChildren-Agree, update-Agree,
  update_other, update_same, Chain-front, Chain-remove,
}

-- The children of `q` are these, the youngest first.
pub record HasChildren (t : Family) (q : ℕ) (ps : List ℕ) : Type 0 where
  pub first : t.cptr q ≡ head ps
  pub chain : Chain t.yptr t.optr none ps
  pub parents : AllChildren t.parent q ps
  pub distinct : Distinct ps

-- The relations of the processes on a list are as they were.
pub record SameFor (t t' : Family) (ps : List ℕ) : Type 0 where
  pub parent : Agree t'.parent t.parent ps
  pub yptr : Agree t'.yptr t.yptr ps
  pub optr : Agree t'.optr t.optr ps

pub HasChildren-SameFor :
    (t t' : Family) (q : ℕ) (ps : List ℕ)
    → HasChildren t q ps
    → SameFor t t' ps
    → t'.cptr q ≡ t.cptr q
    → HasChildren t' q ps
HasChildren-SameFor t t' q ps h s e = record {
  first = e ∙ h.first;
  chain = Chain-Agree ps t.yptr t'.yptr t.optr t'.optr none s.yptr s.optr h.chain;
  parents = AllChildren-Agree ps t.parent t'.parent q s.parent h.parents;
  distinct = h.distinct;
}

-- The state after `p` became the youngest child of `q`.
linked : Family → ℕ → ℕ → Family
linked t p q = record t {
  proc_list = p ∷ t.proc_list;
  yptr = assign (update t.yptr p none) (t.cptr q) (some p);
  optr = update t.optr p (t.cptr q);
  cptr = update t.cptr q (some p);
  nr_process = t.nr_process + 1;
}

-- `set_links` of a process whose parent is `q` follows no NULL pointer; it makes the process the
-- youngest child of `q`, puts it in front of `proc_list` and counts it.
pub set_links-HasChildren :
    (t : Family) (p q : ℕ) (ps : List ℕ)
    → t.parent p ≡ some q
    → HasChildren t q ps
    → mem p ps ≡ false
    → (t' : Family) × (set_links t p ≡ some t')
      × HasChildren t' q (p ∷ ps)
      × (t'.proc_list ≡ p ∷ t.proc_list)
      × (t'.nr_process ≡ t.nr_process + 1)
      × (t'.parent ≡ t.parent)
unfolding set_links linked
set_links-HasChildren t p q ps e h n = (
  linked t p q,
  rw e,
  record {
    first = update_same t.cptr q (some p);
    chain =
        subst
          (λ v. Chain (assign (update t.yptr p none) v (some p)) (update t.optr p v) none (p ∷ ps))
          (sym h.first) (Chain-front ps p t.yptr t.optr n h.distinct h.chain);
    parents = (e, h.parents);
    distinct = (n, h.distinct);
  },
  refl,
  refl,
  refl,
)

pub assign-outside :
    (f : ℕ → Option ℕ) (ps : List ℕ) (r : Option ℕ) (v : ℕ)
    → mem v ps ≡ false
    → assign f (head ps) r v ≡ f v
assign-outside f [] r v n = refl
assign-outside f (x ∷ ps) r v n = update_other f x v r (ground (arith, n))

Distinct-remove-mem : (ps : List ℕ) (p v : ℕ) → mem v ps ≡ false → mem v (remove p ps) ≡ false
Distinct-remove-mem [] p v n = refl
Distinct-remove-mem (x ∷ ps) p v n = elim (Bool-cases (x == p)) [
  | inl e ↦ rw e (ground (arith, n))
  | inr e ↦
      let rest : mem v (remove p ps) ≡ false = Distinct-remove-mem ps p v (ground (arith, n)) in
      rw e (ground (arith, n, rest))
]

Distinct-remove : (ps : List ℕ) (p : ℕ) → Distinct ps → Distinct (remove p ps)
Distinct-remove [] p d = tt
Distinct-remove (x ∷ ps) p (n, d) = elim (Bool-cases (x == p)) [
  | inl e ↦ rw e d
  | inr e ↦ rw e (Distinct-remove-mem ps p x n, Distinct-remove ps p d)
]

AllChildren-remove :
    (f : ℕ → Option ℕ) (q : ℕ) (ps : List ℕ) (p : ℕ)
    → AllChildren f q ps
    → AllChildren f q (remove p ps)
AllChildren-remove f q [] p a = tt
AllChildren-remove f q (x ∷ ps) p (e, a) = elim (Bool-cases (x == p)) [
  | inl t ↦ rw t a
  | inr t ↦ rw t (e, AllChildren-remove f q ps p a)
]

AllChildren-mem :
    (f : ℕ → Option ℕ) (q : ℕ) (ps : List ℕ) (p : ℕ)
    → AllChildren f q ps
    → mem p ps ≡ true
    → f p ≡ some q
AllChildren-mem f q [] p a h = absurd (ground (arith, h))
AllChildren-mem f q (x ∷ ps) p (e, a) h = elim (Bool-cases (x == p)) [
  | inl t ↦ let same : x ≡ p = ground (arith, t) in ap f (sym same) ∙ e
  | inr t ↦ AllChildren-mem f q ps p a (ground (arith, h, t))
]

-- The first sibling gets another one in front of it.
Chain-top :
    (ps : List ℕ) (y o : ℕ → Option ℕ) (r v : Option ℕ)
    → Distinct ps
    → Chain y o r ps
    → Chain (assign y (head ps) v) o v ps
Chain-top [] y o r v d c = tt
Chain-top (x ∷ ps) y o r v (n, d) (cy, co, rest) = (
  update_same y x v,
  co,
  Chain-Agree ps y (update y x v) o o (some x) (update-Agree y x v ps n) (λ q h. refl) rest,
)

-- What `remove_links` leaves.
abbrev pub Removed : Family → ℕ → ℕ → List ℕ → Type 0
Removed t p q ps =
    (t' : Family) × (remove_links t p ≡ some t')
    × HasChildren t' q (remove p ps)
    × (t'.proc_list ≡ remove p t.proc_list)
    × (t'.nr_process ≡ t.nr_process - 1)
    × (t'.parent ≡ t.parent)

remove_first :
    (t : Family) (p q : ℕ) (ps : List ℕ) → HasChildren t q (p ∷ ps) → Removed t p q (p ∷ ps)
unfolding remove_links unlink_older
remove_first t p q ps h =
    let (cy, co, rest) = h.chain in
    let (n, d) = h.distinct in
    let (e, all) = h.parents in
    let y' : ℕ → Option ℕ = assign t.yptr (t.optr p) (t.yptr p) in
    let top : y' p ≡ none =
      ap (λ v. assign t.yptr v (t.yptr p) p) co ∙ assign-outside t.yptr ps (t.yptr p) p n ∙ cy in
    let gone : remove p (p ∷ ps) ≡ ps = rw (==-refl p) in
    let t' : Family = record t {
      proc_list = remove p t.proc_list;
      yptr = y';
      cptr = update t.cptr q (t.optr p);
      nr_process = t.nr_process - 1;
    } in
    (
      t',
      rw (top, e),
      subst (HasChildren t' q) (sym gone) (record {
        first = update_same t.cptr q (t.optr p) ∙ co;
        chain =
            subst (λ v. Chain (assign t.yptr v (t.yptr p)) t.optr none ps) (sym co)
              (subst (λ v. Chain (assign t.yptr (head ps) v) t.optr none ps) (sym cy)
                (Chain-top ps t.yptr t.optr (some p) none d rest));
        parents = all;
        distinct = d;
      }),
      refl,
      refl,
      refl,
    )

remove_later :
    (t : Family) (p q z : ℕ) (ps : List ℕ)
    → HasChildren t q (z ∷ ps)
    → (z == p) ≡ false
    → mem p ps ≡ true
    → Removed t p q (z ∷ ps)
unfolding remove_links unlink_older
remove_later t p q z ps h ne m =
    let (n, d) = h.distinct in
    let (w, l) = Chain-remove ps z p t.yptr t.optr none m n d h.chain in
    let front : assign t.yptr (t.optr p) (t.yptr p) p ≡ some w = l.not_self ∙ l.in_front in
    let stays : remove p (z ∷ ps) ≡ z ∷ remove p ps = rw ne in
    let t' : Family = record t {
      proc_list = remove p t.proc_list;
      yptr = assign t.yptr (t.optr p) (t.yptr p);
      optr = update t.optr w (t.optr p);
      nr_process = t.nr_process - 1;
    } in
    (
      t',
      rw front,
      subst (HasChildren t' q) (sym stays) (record {
        first = h.first;
        chain = l.chain;
        parents = let (e, all) = h.parents in (e, AllChildren-remove t.parent q ps p all);
        distinct = (Distinct-remove-mem ps p z n, Distinct-remove ps p d);
      }),
      refl,
      refl,
      refl,
    )

-- `remove_links` of a child of `q` follows no NULL pointer; it takes the process out of the
-- children of `q`, wherever it stands among them, and out of `proc_list`, and counts it no more.
pub remove_links-HasChildren :
    (t : Family) (p q : ℕ) (ps : List ℕ) → HasChildren t q ps → mem p ps ≡ true → Removed t p q ps
remove_links-HasChildren t p q [] h m = absurd (ground (arith, m))
remove_links-HasChildren t p q (z ∷ ps) h m = elim (Bool-cases (z == p)) [
  | inl e ↦
      let same : z ≡ p = ground (arith, e) in
      subst (λ x. Removed t p q (x ∷ ps)) (sym same)
        (remove_first t p q ps (subst (λ x. HasChildren t q (x ∷ ps)) same h))
  | inr e ↦ remove_later t p q z ps h e (ground (arith, m, e))
]
