-- ===== src/Family/Tests.antt =====
-- Runs of the relations of processes of lab8/code/kern/process/proc.c.
use os_labs.Prelude.{
  ℕ, ◌≡◌, ◌≢◌, refl, arith, true, false, ◌||◌, ◌==◌, if◌then◌else◌, none, some, [], ◌∷◌,
}
use os_labs.SkewHeap.{empty}
use os_labs.Sched.{Sched, sleeping, runnable, zombie, is_runnable}
use os_labs.Family.{Family, wt_child, adopt_all, find_zombie, found}
use os_labs.Family.Links.{HasChildren, Removed, remove_links-HasChildren}
use os_labs.Family.Exit.{any_zombie, adopt_all-moves}
use os_labs.Family.Wait.{find_zombie-first}

-- Process 1 is `initproc` with the child 2, whose children are 4 and 3; 3 has ended, and 1 waits
-- for a child. Process 5 is new and has the parent 2.
abbrev tree : Family
tree = record {
  parent = λ p. if p == 2 then some 1 else if p == 3 || p == 4 || p == 5 then some 2 else none;
  cptr = λ p. if p == 1 then some 2 else if p == 2 then some 4 else none;
  yptr = λ p. if p == 3 then some 4 else none;
  optr = λ p. if p == 4 then some 3 else none;
  proc_list = 4 ∷ 3 ∷ 2 ∷ 1 ∷ [];
  nr_process = 4;
}

abbrev states : Sched
states = record {
  procs = λ p. record {
    state = if p == 3 then zombie else if p == 1 then sleeping else runnable;
    wait_state = if p == 1 then wt_child else 0;
    need_resched = false;
    runs = 0;
    time_slice = 5;
    stride = 0;
    priority = 1;
    on_rq = true;
  };
  rq = record { pool = empty; proc_num = 0; max_time_slice = 5 };
  current = 2;
  idle = 0;
  timers = [];
}

two-HasChildren : HasChildren tree 2 (4 ∷ 3 ∷ [])
two-HasChildren = record {
  first = refl;
  chain = (refl, refl, (refl, refl, tt));
  parents = (refl, (refl, tt));
  distinct = (refl, (refl, tt));
}

one-HasChildren : HasChildren tree 1 (2 ∷ [])
one-HasChildren = record {
  first = refl;
  chain = (refl, refl, tt);
  parents = (refl, tt);
  distinct = (refl, tt);
}

remove_links_example : Removed tree 3 2 (4 ∷ 3 ∷ [])
remove_links_example = remove_links-HasChildren tree 3 2 (4 ∷ 3 ∷ []) two-HasChildren refl

adopt_example :
    (t' : Family) × (s' : Sched) × (adopt_all 2 (tree, states) 2 1 ≡ some (t', s'))
    × (t'.cptr 2 ≡ none)
    × HasChildren t' 1 (3 ∷ 4 ∷ 2 ∷ [])
    × ((q : ℕ) → q ≢ 1 → s'.procs q ≡ states.procs q)
    × (any_zombie states (4 ∷ 3 ∷ []) ≡ true
        → (states.procs 1).wait_state ≡ wt_child
        → is_runnable (s'.procs 1).state ≡ true)
adopt_example =
    adopt_all-moves tree states 2 1 (4 ∷ 3 ∷ []) (2 ∷ []) 2 (omega arith) (λ e. omega (arith, e))
      two-HasChildren one-HasChildren (λ p h. ground (arith, h)) refl refl

find_zombie_example : find_zombie 2 tree states (tree.cptr 2) false ≡ some (found 3)
find_zombie_example = find_zombie-first tree states 2 2 (4 ∷ 3 ∷ []) two-HasChildren (omega arith)
