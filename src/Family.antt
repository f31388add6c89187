-- ===== src/Family.antt =====
-- lab8/code/kern/process/proc.c: the relations of processes. A process is a number, a pointer to
-- one an option.
pub mod Chains
pub mod Exit
pub mod Links
pub mod Wait
mod Tests
use os_labs.Prelude.{
  ℕ, zero, suc, ◌+◌, ◌-◌, ◌*◌, ◌/◌, ◌%◌, ◌^◌, ◌≤◌, ◌<◌, ◌≡◌, ◌≢◌, ◌⊎◌, ◌↔◌, inl, inr, refl, sym, ap,
  ◌∙◌, fun_ext, arith, Bool, true, false, not, ◌&&◌, ◌||◌, ltb, leb, ◌==◌, ==-refl, ==_iff,
  if◌then◌else◌, Bool-cases, Option-cases, Option, none, some, ◌>>=◌, ◌>>◌, assert, update, List,
  [], ◌∷◌, ◌++◌, map, length, get_elem?, set, get_or, take, drop, replicate,
}
use os_labs.Sched.{Sched, is_zombie, wakeup_proc}

-- The fields `parent`, `cptr`, `yptr` and `optr` of every process, `proc_list` from its head on,
-- and `nr_process`.
pub record Family : Type 0 where
  pub parent : ℕ → Option ℕ
  pub cptr : ℕ → Option ℕ
  pub yptr : ℕ → Option ℕ
  pub optr : ℕ → Option ℕ
  pub proc_list : List ℕ
  pub nr_process : ℕ

-- `p->field = v`, unless `p` is NULL.
abbrev pub assign : (ℕ → Option ℕ) → Option ℕ → Option ℕ → ℕ → Option ℕ
assign field none v = field
assign field (some p) v = update field p v

abbrev pub remove : ℕ → List ℕ → List ℕ
remove p [] = []
remove p (q ∷ qs) = if q == p then qs else q ∷ remove p qs

-- `none` is a NULL pointer that is followed.
unfoldable pub set_links : Family → ℕ → Option Family
set_links t p = t.parent p >>= λ q.
    let older = t.cptr q in
    some (record t {
      proc_list = p ∷ t.proc_list;
      yptr = assign (update t.yptr p none) older (some p);
      optr = update t.optr p older;
      cptr = update t.cptr q (some p);
      nr_process = t.nr_process + 1;
    })

-- The end of `remove_links`, once the older sibling is linked.
unfoldable pub unlink_older : Family → ℕ → Option ℕ → Option Family
unlink_older t p (some y) = some (record t { optr = update t.optr y (t.optr p) })
unlink_older t p none = t.parent p >>= λ q. some (record t { cptr = update t.cptr q (t.optr p) })

unfoldable pub remove_links : Family → ℕ → Option Family
unfolding unlink_older
remove_links t p =
    let t' = record t {
      proc_list = remove p t.proc_list;
      yptr = assign t.yptr (t.optr p) (t.yptr p);
    } in
    unlink_older t' p (t'.yptr p) >>= λ t''. some (record t'' { nr_process = t''.nr_process - 1 })

-- One turn of the loop of `do_exit`: the first child of `current` becomes the first of `initproc`.
unfoldable pub adopt : Family → ℕ → ℕ → ℕ → Family
adopt t current initproc p =
    let cptr = update t.cptr current (t.optr p) in
    record t {
      cptr = update cptr initproc (some p);
      yptr = assign (update t.yptr p none) (cptr initproc) (some p);
      optr = update t.optr p (cptr initproc);
      parent = update t.parent p (some initproc);
    }

abbrev pub wt_child : ℕ
wt_child = 2147483649

-- The wakeup at the end of a turn.
unfoldable pub notify : Sched → ℕ → ℕ → Option Sched
unfolding wakeup_proc
notify s initproc p =
    let woken = wakeup_proc s initproc in
    if is_zombie (s.procs p).state && (s.procs initproc).wait_state == wt_child
    then woken
    else some s

-- The loop of `do_exit`; the fuel counts the children.
unfoldable pub adopt_all : ℕ → Family × Sched → ℕ → ℕ → Option (Family × Sched)
unfolding adopt notify
adopt_all zero (t, s) current initproc = elim (t.cptr current) [
  | none ↦ some (t, s)
  | some p ↦ none
]
adopt_all (suc f) (t, s) current initproc = elim (t.cptr current) [
  | none ↦ some (t, s)
  | some p ↦
      notify s initproc p >>= λ s'. adopt_all f (adopt t current initproc p, s') current initproc
]

-- How a pass of `do_wait` ends: with a child to collect, with children to wait for, with none.
pub data Search : Type 0 where
  found : ℕ → Search
  waits : Search
  bad_proc : Search

-- The pass over all children, from `proc` on, with `haskid` so far; the fuel counts the children.
unfoldable pub find_zombie : ℕ → Family → Sched → Option ℕ → Bool → Option Search
find_zombie f t s none haskid = some (if haskid then waits else bad_proc)
find_zombie zero t s (some p) haskid = none
find_zombie (suc f) t s (some p) haskid =
    let rest = find_zombie f t s (t.optr p) true in
    if is_zombie (s.procs p).state then some (found p) else rest
