-- ===== src/Family/Wait.antt =====
-- The search of `do_wait` of lab8/code/kern/process/proc.c for a child that has ended.
use os_labs.Prelude.{
  ℕ, zero, suc, ◌≤◌, ◌≡◌, inl, inr, refl, ap, ◌∙◌, arith, Bool, true, false, not, ◌||◌,
  if◌then◌else◌, Bool-cases, Option, none, some, List, [], ◌∷◌, length,
}
use os_labs.Sched.{Sched, is_zombie}
use os_labs.Family.{Family, Search, found, waits, bad_proc, find_zombie}
use os_labs.Family.Chains.{head, Chain}
use os_labs.Family.Links.{HasChildren}

-- The youngest child that has ended.
abbrev pub first_zombie : Sched → List ℕ → Option ℕ
first_zombie s [] = none
first_zombie s (p ∷ ps) = if is_zombie (s.procs p).state then some p else first_zombie s ps

abbrev pub is_empty : List ℕ → Bool
is_empty [] = true
is_empty (p ∷ ps) = false

-- What the search says of the children.
abbrev pub verdict : Option ℕ → Bool → Search
verdict (some p) haskid = found p
verdict none haskid = if haskid then waits else bad_proc

verdict_more :
    (s : Sched) (p : ℕ) (ps : List ℕ) (haskid : Bool)
    → verdict (first_zombie s (p ∷ ps)) haskid
      ≡ (if is_zombie (s.procs p).state then found p else verdict (first_zombie s ps) haskid)
verdict_more s p ps haskid = elim (Bool-cases (is_zombie (s.procs p).state)) [
  | inl e ↦ rw e
  | inr e ↦ rw e
]

find_zombie-verdict :
    (ps : List ℕ) (f : ℕ) (t : Family) (s : Sched) (r : Option ℕ) (haskid : Bool)
    → length ps ≤ f
    → Chain t.yptr t.optr r ps
    → find_zombie f t s (head ps) haskid
      ≡ some (verdict (first_zombie s ps) (haskid || not (is_empty ps)))
unfolding find_zombie
find_zombie-verdict [] zero t s r true le c = refl
find_zombie-verdict [] zero t s r false le c = refl
find_zombie-verdict [] (suc f) t s r true le c = refl
find_zombie-verdict [] (suc f) t s r false le c = refl
find_zombie-verdict (p ∷ ps) zero t s r haskid le c = absurd (omega (arith, le))
find_zombie-verdict (p ∷ ps) (suc f) t s r haskid le (cy, co, rest) =
    let later = find_zombie-verdict ps f t s (some p) true (omega (arith, le)) rest in
    let any : haskid || true ≡ true = or_true haskid in
    elim (Bool-cases (is_zombie (s.procs p).state)) [
      | inl e ↦ rw e
      | inr e ↦ rw e (ap (λ o. find_zombie f t s o true) co ∙ later ∙ rw any)
    ]
  where
    or_true : (b : Bool) → b || true ≡ true
    or_true true = refl
    or_true false = refl

-- The search of `do_wait` over all children, with fuel for them, finds the youngest child that has
-- ended; if none has, it tells whether there is a child to wait for.
pub find_zombie-first :
    (t : Family) (s : Sched) (q f : ℕ) (ps : List ℕ)
    → HasChildren t q ps
    → length ps ≤ f
    → find_zombie f t s (t.cptr q) false ≡ some (verdict (first_zombie s ps) (not (is_empty ps)))
find_zombie-first t s q f ps h le =
    ap (λ o. find_zombie f t s o false) h.first ∙ find_zombie-verdict ps f t s none false le h.chain
