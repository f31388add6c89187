-- ===== src/Sched/Wakeup.antt =====
-- `wakeup_proc` and `schedule` of lab8/code/kern/schedule/sched.c: what becomes of each process.
use os_labs.Prelude.{
  ℕ, ◌+◌, ◌%◌, ◌≡◌, ◌≢◌, refl, ◌⊎◌, inl, inr, true, false, not, some, ◌==◌, if◌then◌else◌, update,
  arith, Bool-cases,
}
use os_labs.SkewHeap.Members.{count, count-insert}
use os_labs.Sched.{
  ProcState, uninit, sleeping, runnable, zombie, is_zombie, is_runnable, Sched, wakeup_proc,
  sched_class_enqueue, stride_enqueue, stride_below, u32_mod,
}

-- What a wakeup of `p` leaves.
pub record Wakes (s : Sched) (p : ℕ) (s' : Sched) : Type 0 where
  pub here : (s'.procs p).state ≡ runnable
  pub others : (q : ℕ) → q ≢ p → s'.procs q ≡ s.procs q
  pub waits : ((s'.procs p).wait_state ≡ 0) ⊎ ((s'.procs p).wait_state ≡ (s.procs p).wait_state)
  pub timers : s'.timers ≡ s.timers
  pub current : s'.current ≡ s.current

unfoldable pub woken : Sched → ℕ → Sched
woken s p = record s {
  procs = update s.procs p (record (s.procs p) { state = runnable; wait_state = 0 });
}

-- The result of `wakeup_proc`, where its assertion holds.
unfoldable pub awake : Sched → ℕ → Sched
awake s p =
    if not (is_runnable (s.procs p).state)
    then if not (p == s.current) then sched_class_enqueue (woken s p) p else woken s p
    else s

wakeup_proc-awake :
    (s : Sched) (p : ℕ) → is_zombie (s.procs p).state ≡ false → wakeup_proc s p ≡ some (awake s p)
unfolding wakeup_proc awake woken
wakeup_proc-awake s p e = rw e

enqueue-Wakes : (s : Sched) (p : ℕ) → Wakes s p (sched_class_enqueue (woken s p) p)
unfolding sched_class_enqueue stride_enqueue woken
enqueue-Wakes s p = record {
  here = ground arith;
  others = λ q ne. ground arith;
  waits = inl (ground arith);
  timers = ground arith;
  current = ground arith;
}

woken-Wakes : (s : Sched) (p : ℕ) → Wakes s p (woken s p)
unfolding woken
woken-Wakes s p = record {
  here = ground arith;
  others = λ q ne. ground arith;
  waits = inl (ground arith);
  timers = refl;
  current = refl;
}

is_runnable_sound : (st : ProcState) → is_runnable st ≡ true → st ≡ runnable
is_runnable_sound runnable e = refl
is_runnable_sound uninit e = cc
is_runnable_sound sleeping e = cc
is_runnable_sound zombie e = cc

awake-Wakes : (s : Sched) (p : ℕ) → Wakes s p (awake s p)
unfolding awake
awake-Wakes s p = elim (Bool-cases (is_runnable (s.procs p).state)) [
  | inl ready ↦ rw ready (record {
    here = is_runnable_sound (s.procs p).state ready;
    others = λ q ne. refl;
    waits = inr refl;
    timers = refl;
    current = refl;
  })
  | inr waiting ↦ elim (Bool-cases (p == s.current)) [
    | inl self ↦ rw (waiting, self) (woken-Wakes s p)
    | inr other ↦ rw (waiting, other) (enqueue-Wakes s p)
  ]
]

-- `wakeup_proc` of a process that is no zombie makes it runnable, and changes no other process.
pub wakeup_proc-Wakes :
    (s : Sched) (p : ℕ)
    → is_zombie (s.procs p).state ≡ false
    → (s' : Sched) × (wakeup_proc s p ≡ some s') × Wakes s p s'
wakeup_proc-Wakes s p e = (awake s p, wakeup_proc-awake s p e, awake-Wakes s p)

-- A process that sleeps is put on the run queue once more by `wakeup_proc`, unless it is the
-- current or the idle process, and the queue's other members are kept.
pub wakeup_proc-enqueues :
    (s : Sched) (p q : ℕ)
    → is_zombie (s.procs p).state ≡ false
    → is_runnable (s.procs p).state ≡ false
    → p ≢ s.current
    → p ≢ s.idle
    → (s' : Sched) × (wakeup_proc s p ≡ some s')
      × (count q s'.rq.pool ≡ count q s.rq.pool + (if p == q then 1 else 0))
      × (s'.rq.proc_num ≡ (s.rq.proc_num + 1) % u32_mod)
unfolding awake sched_class_enqueue stride_enqueue
wakeup_proc-enqueues s p q z w nc ni = (
  awake s p,
  wakeup_proc-awake s p z,
  ground (arith, count-insert (stride_below (woken s p).procs) s.rq.pool p q, kept),
  ground (arith, kept),
)
  where
    kept : ((woken s p).rq ≡ s.rq) × ((woken s p).idle ≡ s.idle)
    kept = unfold woken in (refl, refl)
