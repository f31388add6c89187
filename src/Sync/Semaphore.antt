-- ===== src/Sync/Semaphore.antt =====
-- The semaphores of lab8/code/kern/sync/sem.c.
use mathlib.Core.Path.{subst}
use os_labs.Prelude.{
  ℕ, ◌+◌, ◌-◌, ◌≡◌, ◌≢◌, ◌↔◌, ◌<◌, refl, ap, ◌∙◌, sym, ◌⊎◌, inl, inr, true, false, ◌&&◌, some, List,
  [], ◌∷◌, ltb, ◌==◌, if◌then◌else◌, arith, Bool-cases, length,
}
use os_labs.LinkedList.Ring.{Apart, Distinct}
use os_labs.Sched.{Sched, Proc, runnable, sleeping, is_zombie}
use os_labs.Sync.{
  Sync, Wait, is_on, up, down_return, try_down, wait_queue_first, set_value, wt_ksem, wakeup_wait,
  wait_current_del,
}
use os_labs.Sync.Queue.{Woken, wakeup_wait-Woken}

-- Each wait of the queue is marked as on it, and its process sleeps on a semaphore.
abbrev pub Waiting : Sync → ℕ → List ℕ → Type 0
Waiting s m [] = Unit
Waiting s m (w ∷ q) =
    (is_on s m w ≡ true)
    × ((s.sched.procs (s.waits w).proc).state ≡ sleeping)
    × ((s.sched.procs (s.waits w).proc).wait_state ≡ wt_ksem)
    × Waiting s m q

abbrev pub procs_of : Sync → List ℕ → List ℕ
procs_of s [] = []
procs_of s (w ∷ q) = (s.waits w).proc ∷ procs_of s q

-- A semaphore with a positive value has no waiters; waits and waiting processes are distinct.
pub record IsValid (s : Sync) (m : ℕ) : Type 0 where
  pub idle : ((s.sems m).value ≡ 0) ⊎ ((s.sems m).queue ≡ [])
  pub waiting : Waiting s m (s.sems m).queue
  pub distinct : Distinct (s.sems m).queue
  pub distinct_procs : Distinct (procs_of s (s.sems m).queue)

-- The waits behind the one that was woken are as they were.
Woken-Waiting :
    (r : List ℕ) (s s' : Sync) (m w flags : ℕ) (q : List ℕ)
    → Woken s m w flags q s'
    → Apart w r
    → Apart (s.waits w).proc (procs_of s r)
    → Waiting s m r
    → Waiting s' m r × (procs_of s' r ≡ procs_of s r)
Woken-Waiting [] s s' m w flags q k a b h = (tt, refl)
Woken-Waiting (v ∷ r) s s' m w flags q k a b h =
    let (rest, procs) = Woken-Waiting r s s' m w flags q k a.1 b.1 h.3 in
    let same = k.waits v (ne-sym a.0) in
    let proc = k.sched.others (s.waits v).proc (ne-sym b.0) in
    let at = ap (λ (x : Wait). s'.sched.procs x.proc) same ∙ proc in
    (
      (
        ap (λ (x : Wait). x.in_queue && x.wait_queue == m) same ∙ h.0,
        ap (λ (x : Proc). x.state) at ∙ h.1,
        ap (λ (x : Proc). x.wait_state) at ∙ h.2,
        rest,
      ),
      ap (λ (x : Wait). x.proc ∷ procs_of s' r) same ∙ ap (λ l. (s.waits v).proc ∷ l) procs,
    )
  where
    ne-sym : {x y : ℕ} → x ≢ y → y ≢ x
    ne-sym h = omega arith

sleeping-not_zombie :
    (s : Sched) (p : ℕ) → (s.procs p).state ≡ sleeping → is_zombie (s.procs p).state ≡ false
sleeping-not_zombie s p e = rw e

-- Validity in terms of what the queue is.
IsValid-of :
    (s : Sync) (m : ℕ) (q : List ℕ)
    → (s.sems m).queue ≡ q
    → ((s.sems m).value ≡ 0) ⊎ (q ≡ [])
    → Waiting s m q
    → Distinct q
    → Distinct (procs_of s q)
    → IsValid s m
IsValid-of s m q e idle w d p = record {
  idle = subst (λ r. ((s.sems m).value ≡ 0) ⊎ (r ≡ [])) (sym e) idle;
  waiting = subst (Waiting s m) (sym e) w;
  distinct = subst Distinct (sym e) d;
  distinct_procs = subst (λ r. Distinct (procs_of s r)) (sym e) p;
}

-- What a call leaves that changes the value less the number of waiters: both sides are increased
-- so that they stay natural numbers.
abbrev pub Balance : Sync → Sync → ℕ → ℕ → ℕ → Type 0
Balance s s' m plus minus =
    (s'.sems m).value + length (s.sems m).queue + minus
    ≡ (s.sems m).value + length (s'.sems m).queue + plus

up-empty :
    (s : Sync) (m : ℕ)
    → (s.sems m).queue ≡ []
    → (s' : Sync) × (up s m ≡ some s') × IsValid s' m × Balance s s' m 1 0
unfolding up wait_queue_first
up-empty s m e = (
  set_value s m ((s.sems m).value + 1),
  ground (arith, e),
  IsValid-of (set_value s m ((s.sems m).value + 1)) m [] (ground (arith, e)) (inr refl) tt tt tt,
  ground (arith, e),
)

-- Where a wait is first, `up` wakes it.
up-first :
    (s s' : Sync) (m w : ℕ) (q : List ℕ)
    → (s.sems m).queue ≡ w ∷ q
    → (s.sched.procs (s.waits w).proc).wait_state ≡ wt_ksem
    → wakeup_wait s m w wt_ksem true ≡ some s'
    → up s m ≡ some s'
unfolding up wait_queue_first
up-first s s' m w q e ws ran = ground (arith, e, ws, ran)

-- What `up` does for the first waiter: its wait has left the queue with the flags of a semaphore,
-- its process is runnable, and the value has not changed.
up-Woken :
    (s : Sync) (m w : ℕ) (q : List ℕ)
    → IsValid s m
    → (s.sems m).queue ≡ w ∷ q
    → (s' : Sync) × (up s m ≡ some s') × Woken s m w wt_ksem q s' × IsValid s' m
up-Woken s m w q v e =
    let h : Waiting s m (w ∷ q) = subst (Waiting s m) e v.waiting in
    let d : Distinct (w ∷ q) = subst Distinct e v.distinct in
    let p : Distinct (procs_of s (w ∷ q)) =
      subst (λ r. Distinct (procs_of s r)) e v.distinct_procs in
    let idle : (s.sems m).value ≡ 0 = ground (arith, v.idle, e) in
    let (s', ran, k) =
      wakeup_wait-Woken s m w wt_ksem q e h.0 (sleeping-not_zombie s.sched (s.waits w).proc h.1) in
    let (rest, procs) = Woken-Waiting q s s' m w wt_ksem q k d.0 p.0 h.3 in
    (
      s',
      up-first s s' m w q e h.2 ran,
      k,
      IsValid-of s' m q k.queue (inl (k.value ∙ idle)) rest d.1 (subst Distinct (sym procs) p.1),
    )

-- `up` on a valid semaphore succeeds and keeps it valid, and the value less the number of waiters
-- rises by one.
pub up-IsValid :
    (s : Sync) (m : ℕ)
    → IsValid s m
    → (s' : Sync) × (up s m ≡ some s') × IsValid s' m × Balance s s' m 1 0
up-IsValid s m v = by_queue (s.sems m).queue refl
  where
    by_queue :
        (q : List ℕ)
        → (s.sems m).queue ≡ q
        → (s' : Sync) × (up s m ≡ some s') × IsValid s' m × Balance s s' m 1 0
    by_queue [] e = up-empty s m e
    by_queue (w ∷ q) e =
        let (s', ran, k, ok) = up-Woken s m w q v e in
        (s', ran, ok, omega (arith, k.value, ap length e, ap length k.queue))

-- A `down` that has blocked returns after the `up` that wakes it, and no other process takes the
-- unit in between: `up` on a semaphore with waiters makes the process of the oldest one runnable,
-- leaves the value at 0, and the `down` of that wait then passes its assertion.
pub up-down_return :
    (s : Sync) (m w : ℕ) (q : List ℕ)
    → IsValid s m
    → (s.sems m).queue ≡ w ∷ q
    → (s' : Sync) × (up s m ≡ some s')
      × ((s'.sched.procs (s.waits w).proc).state ≡ runnable)
      × ((s'.sems m).value ≡ 0)
      × ((s'.sems m).queue ≡ q)
      × (down_return s' m w ≡ some s')
unfolding down_return wait_current_del
up-down_return s m w q v e =
    let (s', ran, k, ok) = up-Woken s m w q v e in
    let idle : (s.sems m).value ≡ 0 = ground (arith, v.idle, e) in
    (s', ran, k.sched.here, k.value ∙ idle, k.queue, ground (arith, k.wait))

-- `try_down` never blocks: it takes a unit exactly if there is one, and keeps the semaphore valid.
pub try_down-IsValid :
    (s : Sync) (m : ℕ)
    → IsValid s m
    → let (s', taken) = try_down s m in
      IsValid s' m
      × ((taken ≡ true) ↔ (0 < (s.sems m).value))
      × Balance s s' m 0 (if taken then 1 else 0)
unfolding try_down
try_down-IsValid s m v = elim (Bool-cases (ltb 0 (s.sems m).value)) [
  | inl some_left ↦
      let none_waits : (s.sems m).queue ≡ [] = ground (arith, v.idle) in
      rw some_left (
        IsValid-of (set_value s m ((s.sems m).value - 1)) m [] (ground (arith, none_waits))
            (inr refl) tt tt tt,
        (λ e. ground arith, λ h. refl),
        ground arith,
      )
  | inr zero_left ↦ rw zero_left (v, (λ e. cc, λ h. ground arith), ground arith)
]
