-- ===== src/Family/Chains.antt =====
-- The children of a process of lab8/code/kern/process/proc.c as a list, over the pointers `cptr`,
-- `yptr` and `optr`.
use os_labs.Prelude.{
  ℕ, ◌≡◌, ◌≢◌, inl, inr, refl, sym, ap, ◌∙◌, arith, Bool, true, false, ◌||◌, ◌==◌, ==-refl,
  Bool-cases, Option, none, some, update, List, [], ◌∷◌,
}
use mathlib.Core.Path.{subst}
use os_labs.Family.{assign, remove}

abbrev pub head : List ℕ → Option ℕ
head [] = none
head (p ∷ ps) = some p

abbrev pub mem : ℕ → List ℕ → Bool
mem p [] = false
mem p (q ∷ qs) = q == p || mem p qs

abbrev pub Distinct : List ℕ → Type 0
Distinct [] = Unit {0}
Distinct (p ∷ ps) = (mem p ps ≡ false) × Distinct ps

-- The processes of a list are siblings, the youngest first, behind the sibling `y`.
abbrev pub Chain : (ℕ → Option ℕ) → (ℕ → Option ℕ) → Option ℕ → List ℕ → Type 0
Chain yptr optr y [] = Unit {0}
Chain yptr optr y (p ∷ ps) = (yptr p ≡ y) × (optr p ≡ head ps) × Chain yptr optr (some p) ps

-- Every process of a list has this parent.
abbrev pub AllChildren : (ℕ → Option ℕ) → ℕ → List ℕ → Type 0
AllChildren parent q [] = Unit {0}
AllChildren parent q (p ∷ ps) = (parent p ≡ some q) × AllChildren parent q ps

-- Two functions that agree on a list.
abbrev pub Agree : (ℕ → Option ℕ) → (ℕ → Option ℕ) → List ℕ → Type 0
Agree f g ps = (p : ℕ) → mem p ps ≡ true → f p ≡ g p

Agree-tail : (f g : ℕ → Option ℕ) (p : ℕ) (ps : List ℕ) → Agree f g (p ∷ ps) → Agree f g ps
Agree-tail f g p ps a q h = a q (ground (arith, h))

Agree-head : (f g : ℕ → Option ℕ) (p : ℕ) (ps : List ℕ) → Agree f g (p ∷ ps) → f p ≡ g p
Agree-head f g p ps a = a p (ground arith)

-- Only the pointers of the list's own processes matter.
pub Chain-Agree :
    (ps : List ℕ) (y y' o o' : ℕ → Option ℕ) (q : Option ℕ)
    → Agree y' y ps
    → Agree o' o ps
    → Chain y o q ps
    → Chain y' o' q ps
Chain-Agree [] y y' o o' q ay ao c = tt
Chain-Agree (p ∷ ps) y y' o o' q ay ao (cy, co, rest) = (
  Agree-head y' y p ps ay ∙ cy,
  Agree-head o' o p ps ao ∙ co,
  Chain-Agree ps y y' o o' (some p) (Agree-tail y' y p ps ay) (Agree-tail o' o p ps ao) rest,
)

pub AllChildren-Agree :
    (ps : List ℕ) (f f' : ℕ → Option ℕ) (q : ℕ)
    → Agree f' f ps
    → AllChildren f q ps
    → AllChildren f' q ps
AllChildren-Agree [] f f' q a c = tt
AllChildren-Agree (p ∷ ps) f f' q a (e, rest) =
    (Agree-head f' f p ps a ∙ e, AllChildren-Agree ps f f' q (Agree-tail f' f p ps a) rest)

mem-ne : (p q : ℕ) (ps : List ℕ) → mem p ps ≡ true → mem q ps ≡ false → q ≢ p
mem-ne p q ps h n e = let h' : mem q ps ≡ true = ap (λ x. mem x ps) e ∙ h in ground (arith, h', n)

-- A pointer of a process outside the list may change.
pub update-Agree :
    (f : ℕ → Option ℕ) (p : ℕ) (v : Option ℕ) (ps : List ℕ)
    → mem p ps ≡ false
    → Agree (update f p v) f ps
update-Agree f p v ps n q h =
    let ne = mem-ne q p ps h n in let e : (p == q) ≡ false = ground (arith, ne) in rw e

pub update_other : (f : ℕ → Option ℕ) (p q : ℕ) (v : Option ℕ) → p ≢ q → update f p v q ≡ f q
update_other f p q v ne = let e : (p == q) ≡ false = ground (arith, ne) in rw e

pub update_same : (f : ℕ → Option ℕ) (p : ℕ) (v : Option ℕ) → update f p v p ≡ v
update_same f p v = rw (==-refl p)

-- A new youngest sibling.
pub Chain-front :
    (ps : List ℕ) (p : ℕ) (y o : ℕ → Option ℕ)
    → mem p ps ≡ false
    → Distinct ps
    → Chain y o none ps
    → Chain (assign (update y p none) (head ps) (some p)) (update o p (head ps)) none (p ∷ ps)
Chain-front [] p y o n d c = (update_same y p none, update_same o p none, tt)
Chain-front (x ∷ ps) p y o n (nx, d) (cy, co, rest) =
    let ne : x ≢ p = ground (arith, n) in
    let ne' : p ≢ x = λ e. ne (sym e) in
    let out : mem p ps ≡ false = ground (arith, n) in
    let y1 : ℕ → Option ℕ = update y p none in
    (
      update_other y1 x p (some p) ne ∙ update_same y p none,
      update_same o p (some x),
      (
        update_same y1 x (some p),
        update_other o p x (some x) ne' ∙ co,
        Chain-Agree ps y (update y1 x (some p)) o (update o p (some x)) (some x)
            (λ q h. update-Agree y1 x (some p) ps nx q h ∙ update-Agree y p none ps out q h)
            (update-Agree o p (some x) ps out) rest,
      ),
    )

-- The second of two siblings in front of `ps` is taken out.
Chain-skip :
    (ps : List ℕ) (z : ℕ) (y o : ℕ → Option ℕ) (q p : Option ℕ)
    → mem z ps ≡ false
    → Distinct ps
    → y z ≡ q
    → Chain y o p ps
    → Chain (assign y (head ps) (some z)) (update o z (head ps)) q (z ∷ ps)
Chain-skip [] z y o q p n d e c = (e, update_same o z none, tt)
Chain-skip (x ∷ ps) z y o q p n (nx, d) e (cy, co, rest) =
    let ne : x ≢ z = ground (arith, n) in
    let ne' : z ≢ x = λ r. ne (sym r) in
    let out : mem z ps ≡ false = ground (arith, n) in
    (
      update_other y x z (some z) ne ∙ e,
      update_same o z (some x),
      (
        update_same y x (some z),
        update_other o z x (some x) ne' ∙ co,
        Chain-Agree ps y (update y x (some z)) o (update o z (some x)) (some x)
            (update-Agree y x (some z) ps nx) (update-Agree o z (some x) ps out) rest,
      ),
    )

-- How a process behind the first one leaves the siblings: `w` is in front of it.
pub record Leaves (y o : ℕ → Option ℕ) (q : Option ℕ) (z p w : ℕ) (ps : List ℕ) : Type 0 where
  pub in_front : y p ≡ some w
  pub among : mem w (z ∷ ps) ≡ true
  pub chain : Chain (assign y (o p) (y p)) (update o w (o p)) q (z ∷ remove p ps)
  pub outside : (v : ℕ) → mem v (z ∷ ps) ≡ false → assign y (o p) (y p) v ≡ y v
  pub not_self : assign y (o p) (y p) p ≡ y p

head-mem :
    (ps : List ℕ) (v : ℕ) (y : ℕ → Option ℕ) (r : Option ℕ)
    → mem v ps ≡ false
    → assign y (head ps) r v ≡ y v
head-mem [] v y r n = refl
head-mem (x ∷ ps) v y r n = update_other y x v r (ground (arith, n))

pub Chain-remove :
    (ps : List ℕ) (z p : ℕ) (y o : ℕ → Option ℕ) (q : Option ℕ)
    → mem p ps ≡ true
    → mem z ps ≡ false
    → Distinct ps
    → Chain y o q (z ∷ ps)
    → (w : ℕ) × Leaves y o q z p w ps
Chain-remove [] z p y o q h n d c = absurd (ground (arith, h))
Chain-remove (x ∷ ps) z p y o q h n (nx, d) (cz, oz, (cy, co, rest)) = elim (Bool-cases (x == p)) [
  | inl e ↦
      let same : x ≡ p = ground (arith, e) in
      let yp : y p ≡ some z = ap y (sym same) ∙ cy in
      let op : o p ≡ head ps = ap o (sym same) ∙ co in
      let out : mem z ps ≡ false = ground (arith, n) in
      let gone : remove p (x ∷ ps) ≡ ps = rw e in
      let out_p : mem p ps ≡ false = rw (sym same) nx in
      (
        z,
        record {
          in_front = yp;
          among = ground arith;
          chain =
              subst (λ l. Chain (assign y (o p) (y p)) (update o z (o p)) q (z ∷ l)) (sym gone)
                (subst (λ v. Chain (assign y v (y p)) (update o z v) q (z ∷ ps)) (sym op)
                  (subst (λ r. Chain (assign y (head ps) r) (update o z (head ps)) q (z ∷ ps))
                    (sym yp) (Chain-skip ps z y o q (some x) out d cz rest)));
          outside = λ v m. rw (yp, op) (head-mem ps v y (some z) (ground (arith, m)));
          not_self = rw (yp, op) (head-mem ps p y (some z) out_p ∙ yp);
        },
      )
  | inr e ↦
      let inside : mem p ps ≡ true = ground (arith, h, e) in
      let (w, l) = Chain-remove ps x p y o (some z) inside nx d (cy, co, rest) in
      let stays : remove p (x ∷ ps) ≡ x ∷ remove p ps = rw e in
      let ne : w ≢ z = λ r. mem-ne w z (x ∷ ps) l.among n (sym r) in
      (
        w,
        record {
          in_front = l.in_front;
          among = let a = l.among in ground (arith, a);
          chain =
              subst (λ l. Chain (assign y (o p) (y p)) (update o w (o p)) q (z ∷ l)) (sym stays)
                (l.outside z n ∙ cz, update_other o w z (o p) ne ∙ oz, l.chain);
          outside = λ v m. l.outside v (ground (arith, m));
          not_self = l.not_self;
        },
      )
]
