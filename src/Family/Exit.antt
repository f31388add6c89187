-- ===== src/Family/Exit.antt =====
-- The loop of `do_exit` of lab8/code/kern/process/proc.c: the children of a process that ends
-- become children of `initproc`.
use os_labs.Prelude.{
  ℕ, zero, suc, ◌≤◌, ◌≡◌, ◌≢◌, inl, inr, refl, sym, ap, ◌∙◌, arith, Bool, true, false, ◌&&◌, ◌||◌,
  ◌==◌, Bool-cases, Option, none, some, update, List, [], ◌∷◌, length,
}
use mathlib.Core.Path.{subst}
use os_labs.Sched.{Sched, is_zombie, is_runnable}
use os_labs.Sched.Wakeup.{wakeup_proc-Wakes}
use os_labs.Family.{Family, assign, wt_child, notify, adopt, adopt_all}
use os_labs.Family.Chains.{
  head, mem, Distinct, Chain, Chain-Agree, AllChildren-Agree, update-Agree, update_other,
  update_same, Chain-front,
}
use os_labs.Family.Links.{HasChildren, assign-outside}

-- No process is on both lists.
abbrev pub Disjoint : List ℕ → List ℕ → Type 0
Disjoint ps ks = (p : ℕ) → mem p ps ≡ true → mem p ks ≡ false

-- The children that are left in the loop: the first one may still point to a younger one.
record Left (t : Family) (c : ℕ) (r : Option ℕ) (ps : List ℕ) : Type 0 where
  first : t.cptr c ≡ head ps
  chain : Chain t.yptr t.optr r ps
  distinct : Distinct ps

-- The children of `ps`, one after the other in front of `ks`.
abbrev pub moved : List ℕ → List ℕ → List ℕ
moved [] ks = ks
moved (p ∷ ps) ks = moved ps (p ∷ ks)

module _ (t : Family) (c i p : ℕ) (ps ks : List ℕ) (r : Option ℕ) (ne : c ≢ i)
    (l : Left t c r (p ∷ ps)) (h : HasChildren t i ks) (apart : Disjoint (p ∷ ps) ks) where
  p_out : mem p ks ≡ false
  p_out = apart p (ground arith)

  ps_out : (q : ℕ) → mem q ps ≡ true → mem q ks ≡ false
  ps_out q m = apart q (ground (arith, m))

  init_first : update t.cptr c (t.optr p) i ≡ head ks
  init_first = update_other t.cptr c i (t.optr p) ne ∙ h.first

  adopt-HasChildren : HasChildren (adopt t c i p) i (p ∷ ks)
  unfolding adopt
  adopt-HasChildren = record {
    first = update_same (update t.cptr c (t.optr p)) i (some p);
    chain =
        subst
          (λ v. Chain (assign (update t.yptr p none) v (some p)) (update t.optr p v) none (p ∷ ks))
          (sym init_first) (Chain-front ks p t.yptr t.optr p_out h.distinct h.chain);
    parents = (
      update_same t.parent p (some i),
      AllChildren-Agree ks t.parent (update t.parent p (some i)) i
          (update-Agree t.parent p (some i) ks p_out) h.parents,
    );
    distinct = (p_out, h.distinct);
  }

  adopt-Left : Left (adopt t c i p) c (some p) ps
  unfolding adopt
  adopt-Left =
      let (cy, co, rest) = l.chain in
      let (n, d) = l.distinct in
      let ne' : i ≢ c = λ e. ne (sym e) in
      let v = update t.cptr c (t.optr p) i in
      record {
        first =
            update_other (update t.cptr c (t.optr p)) i c (some p) ne'
            ∙ update_same t.cptr c (t.optr p)
            ∙ co;
        chain =
            Chain-Agree ps t.yptr (assign (update t.yptr p none) v (some p)) t.optr
              (update t.optr p v) (some p)
              (λ q m.
                ap (λ x. assign (update t.yptr p none) x (some p) q) init_first
                ∙ assign-outside (update t.yptr p none) ks (some p) q (ps_out q m)
                ∙ update-Agree t.yptr p none ps n q m)
              (update-Agree t.optr p v ps n) rest;
        distinct = d;
      }

  still_apart : Disjoint ps (p ∷ ks)
  still_apart q m =
      let (n, d) = l.distinct in
      let off : (p == q) ≡ false = elim (Bool-cases (p == q)) [
        | inl e ↦
            let same : p ≡ q = ground (arith, e) in
            let both : mem q ps ≡ false = ap (λ x. mem x ps) (sym same) ∙ n in
            absurd (ground (arith, both, m))
        | inr e ↦ e
      ] in
      let out = ps_out q m in ground (arith, off, out)

-- What a wakeup of `initproc`, or none, does.
record Notified (s s' : Sched) (i p : ℕ) : Type 0 where
  alive : is_zombie (s'.procs i).state ≡ false
  others : (q : ℕ) → q ≢ i → s'.procs q ≡ s.procs q
  stays : is_runnable (s.procs i).state ≡ true → is_runnable (s'.procs i).state ≡ true
  wakes :
      is_zombie (s.procs p).state ≡ true
      → (s.procs i).wait_state ≡ wt_child
      → is_runnable (s'.procs i).state ≡ true
  waits : is_zombie (s.procs p).state ≡ false → (s'.procs i).wait_state ≡ (s.procs i).wait_state

notify-Notified :
    (s : Sched) (i p : ℕ)
    → is_zombie (s.procs i).state ≡ false
    → (s' : Sched) × (notify s i p ≡ some s') × Notified s s' i p
unfolding notify
notify-Notified s i p alive =
    elim (Bool-cases (is_zombie (s.procs p).state && (s.procs i).wait_state == wt_child)) [
      | inl e ↦
          let (s', run, w) = wakeup_proc-Wakes s i alive in
          let up : is_runnable (s'.procs i).state ≡ true = ap is_runnable w.here in
          (
            s',
            rw e run,
            record {
              alive = ap is_zombie w.here;
              others = w.others;
              stays = λ h. up;
              wakes = λ z h. up;
              waits = λ z. absurd (ground (arith, e, z));
            },
          )
      | inr e ↦ (
        s,
        rw e,
        record {
          alive = alive;
          others = λ q ne. refl;
          stays = λ h. h;
          wakes = λ z h. absurd (ground (arith, e, z, h));
          waits = λ z. refl;
        },
      )
    ]

abbrev pub any_zombie : Sched → List ℕ → Bool
any_zombie s [] = false
any_zombie s (p ∷ ps) = is_zombie (s.procs p).state || any_zombie s ps

any_zombie-same :
    (s s' : Sched) (i : ℕ) (ps : List ℕ)
    → ((q : ℕ) → q ≢ i → s'.procs q ≡ s.procs q)
    → mem i ps ≡ false
    → any_zombie s' ps ≡ any_zombie s ps
any_zombie-same s s' i [] o n = refl
any_zombie-same s s' i (p ∷ ps) o n =
    let same : s'.procs p ≡ s.procs p = o p (λ e. ground (arith, n, e)) in
    rw (same, any_zombie-same s s' i ps o (ground (arith, n)))

-- What the loop leaves.
record AllMoved (t : Family) (s : Sched) (c i : ℕ) (ps ks : List ℕ) (t' : Family) (s' : Sched)
    : Type 0 where
  none_left : t'.cptr c ≡ none
  children : HasChildren t' i (moved ps ks)
  alive : is_zombie (s'.procs i).state ≡ false
  others : (q : ℕ) → q ≢ i → s'.procs q ≡ s.procs q
  stays : is_runnable (s.procs i).state ≡ true → is_runnable (s'.procs i).state ≡ true
  wakes :
      any_zombie s ps ≡ true
      → (s.procs i).wait_state ≡ wt_child
      → is_runnable (s'.procs i).state ≡ true

adopt_step :
    (f : ℕ) (t : Family) (s s' : Sched) (c i p : ℕ)
    → t.cptr c ≡ some p
    → notify s i p ≡ some s'
    → adopt_all (suc f) (t, s) c i ≡ adopt_all f (adopt t c i p, s') c i
unfolding adopt_all
adopt_step f t s s' c i p e run = rw (e, run)

adopt_end :
    (f : ℕ) (t : Family) (s : Sched) (c i : ℕ)
    → t.cptr c ≡ none
    → adopt_all f (t, s) c i ≡ some (t, s)
unfolding adopt_all
adopt_end zero t s c i e = rw e
adopt_end (suc f) t s c i e = rw e

loop_wakes :
    (s s1 s2 : Sched) (i p : ℕ) (ps : List ℕ)
    → Notified s s1 i p
    → mem i ps ≡ false
    → (is_runnable (s1.procs i).state ≡ true → is_runnable (s2.procs i).state ≡ true)
    → (any_zombie s1 ps ≡ true
        → (s1.procs i).wait_state ≡ wt_child
        → is_runnable (s2.procs i).state ≡ true)
    → any_zombie s (p ∷ ps) ≡ true
    → (s.procs i).wait_state ≡ wt_child
    → is_runnable (s2.procs i).state ≡ true
loop_wakes s s1 s2 i p ps n out stays wakes z w = elim (Bool-cases (is_zombie (s.procs p).state)) [
  | inl e ↦ stays (n.wakes e w)
  | inr e ↦
      let later : any_zombie s ps ≡ true = ground (arith, z, e) in
      wakes (any_zombie-same s s1 i ps n.others out ∙ later) (n.waits e ∙ w)
]

all_moved :
    (ps : List ℕ) (f : ℕ) (t : Family) (s : Sched) (c i : ℕ) (ks : List ℕ) (r : Option ℕ)
    → length ps ≤ f
    → c ≢ i
    → Left t c r ps
    → HasChildren t i ks
    → Disjoint ps ks
    → mem i ps ≡ false
    → is_zombie (s.procs i).state ≡ false
    → (t' : Family) × (s' : Sched) × (adopt_all f (t, s) c i ≡ some (t', s'))
      × AllMoved t s c i ps ks t' s'
all_moved [] f t s c i ks r enough ne l h apart out alive = (
  t,
  s,
  adopt_end f t s c i l.first,
  record {
    none_left = l.first;
    children = h;
    alive = alive;
    others = λ q e. refl;
    stays = λ e. e;
    wakes = λ z w. absurd (ground (arith, z));
  },
)
all_moved (p ∷ ps) zero t s c i ks r enough ne l h apart out alive = absurd (omega (arith, enough))
all_moved (p ∷ ps) (suc f) t s c i ks r enough ne l h apart out alive =
    let (s1, told, n) = notify-Notified s i p alive in
    let out' : mem i ps ≡ false = ground (arith, out) in
    let (t2, s2, run, a) =
      all_moved ps f (adopt t c i p) s1 c i (p ∷ ks) (some p) (omega (arith, enough)) ne
        (adopt-Left t c i p ps ks r ne l h apart) (adopt-HasChildren t c i p ps ks r ne l h apart)
        (still_apart t c i p ps ks r ne l h apart) out' n.alive in
    (
      t2,
      s2,
      adopt_step f t s s1 c i p l.first told ∙ run,
      record {
        none_left = a.none_left;
        children = a.children;
        alive = a.alive;
        others = λ q e. a.others q e ∙ n.others q e;
        stays = λ e. a.stays (n.stays e);
        wakes = loop_wakes s s1 s2 i p ps n out' a.stays a.wakes;
      },
    )

-- The loop of `do_exit` for a process that is not `initproc`, with fuel for its children, none of
-- which is `initproc` or a child of it, and `initproc` no zombie, ends and fails no assertion. The
-- process has no children then; `initproc` has them in front of its own, the eldest first; only
-- `initproc` may have changed for the scheduler, and it is runnable if it waited for a child and
-- one of the children has ended before.
pub adopt_all-moves :
    (t : Family) (s : Sched) (c i : ℕ) (ps ks : List ℕ) (f : ℕ)
    → length ps ≤ f
    → c ≢ i
    → HasChildren t c ps
    → HasChildren t i ks
    → Disjoint ps ks
    → mem i ps ≡ false
    → is_zombie (s.procs i).state ≡ false
    → (t' : Family) × (s' : Sched) × (adopt_all f (t, s) c i ≡ some (t', s'))
      × (t'.cptr c ≡ none)
      × HasChildren t' i (moved ps ks)
      × ((q : ℕ) → q ≢ i → s'.procs q ≡ s.procs q)
      × (any_zombie s ps ≡ true
          → (s.procs i).wait_state ≡ wt_child
          → is_runnable (s'.procs i).state ≡ true)
adopt_all-moves t s c i ps ks f enough ne hc hi apart out alive =
    let l : Left t c none ps = record {
      first = hc.first;
      chain = hc.chain;
      distinct = hc.distinct;
    } in
    let (t', s', run, a) = all_moved ps f t s c i ks none enough ne l hi apart out alive in
    (t', s', run, a.none_left, a.children, a.others, a.wakes)
