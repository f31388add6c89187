-- ===== src/Sched/Timers.antt =====
-- The list of timers of lab8/code/kern/schedule/sched.c against the times at which they expire.
use Prim.Native.Nat.{bit_and}
use mathlib.Core.Path.{subst}
use os_labs.Prelude.{
  sym, ℕ, zero, suc, ◌+◌, ◌-◌, ◌≡◌, ◌≤◌, ◌<◌, refl, ap, ◌∙◌, inl, inr, Bool, true, false, not, ◌&&◌,
  ◌||◌, some, List, [], ◌∷◌, leb, ltb, ◌==◌, if◌then◌else◌, arith, Bool-cases,
}
use native.Mathlib.Nat.{add-zero}
use os_labs.Sched.Wakeup.{Wakes, wakeup_proc-Wakes}
use os_labs.Sched.{
  Proc, runnable, is_zombie, Sched, Timer, is_linked, place_timer, add_timer, del_timer,
  run_expired, tick_timers, wt_interrupted,
}

-- When each timer expires, counted in ticks from `base`.
abbrev pub deadlines : ℕ → List Timer → List Timer
deadlines base [] = []
deadlines base ((e, p) ∷ ts) = (base + e, p) ∷ deadlines (base + e) ts

-- Behind all that expire no later.
unfoldable pub insert_by_time : Timer → List Timer → List Timer
insert_by_time t [] = t ∷ []
insert_by_time (a, p) ((c, q) ∷ ts) =
    let rest = insert_by_time (a, p) ts in if ltb a c then (a, p) ∷ (c, q) ∷ ts else (c, q) ∷ rest

deadlines-place_timer :
    (ts : List Timer) (base e p : ℕ)
    → deadlines base (place_timer (e, p) ts) ≡ insert_by_time (base + e, p) (deadlines base ts)
unfolding place_timer insert_by_time
deadlines-place_timer [] base e p = refl
deadlines-place_timer ((d, q) ∷ ts) base e p =
    ground (arith, deadlines-place_timer ts (base + d) (e - d) p, shift, behind)
  where
    shift : e < d → base + e + (d - e) ≡ base + d
    shift h = omega arith

    behind : d ≤ e → base + d + (e - d) ≡ base + e
    behind h = omega arith

-- `add_timer` of a timer with a positive time that is not on the list puts it at its time, behind
-- those that expire no later, and no other timer's time changes.
pub deadlines-add_timer :
    (ts : List Timer) (base e p : ℕ)
    → 0 < e
    → is_linked p ts ≡ false
    → (ts' : List Timer) × (add_timer (e, p) ts ≡ some ts')
      × (deadlines base ts' ≡ insert_by_time (base + e, p) (deadlines base ts))
unfolding add_timer
deadlines-add_timer ts base e p pos off =
    (place_timer (e, p) ts, ground (arith, pos, off), deadlines-place_timer ts base e p)

unfoldable pub erase_timer : ℕ → List Timer → List Timer
erase_timer p [] = []
erase_timer p ((a, q) ∷ ts) = let rest = erase_timer p ts in if q == p then ts else (a, q) ∷ rest

-- `del_timer` takes out the timer of the process, and no other timer's time changes.
pub deadlines-del_timer :
    (ts : List Timer) (base p : ℕ)
    → deadlines base (del_timer p ts) ≡ erase_timer p (deadlines base ts)
unfolding del_timer erase_timer
deadlines-del_timer [] base p = refl
deadlines-del_timer ((e, q) ∷ []) base p = ground arith
deadlines-del_timer ((e, q) ∷ (d, r) ∷ ts) base p =
    ground (arith, deadlines-del_timer ((d, r) ∷ ts) (base + e) p, over)
  where
    over : base + (d + e) ≡ base + e + d
    over = omega arith

-- A process that a timer may wake: no zombie, and in no wait that cannot be interrupted.
abbrev pub can_wake : Proc → Bool
can_wake proc =
    not (is_zombie proc.state)
    && (proc.wait_state == 0 || not (bit_and proc.wait_state wt_interrupted == 0))

abbrev pub AllCanWake : (ℕ → Proc) → List Timer → Type 0
AllCanWake procs [] = Unit
AllCanWake procs ((e, p) ∷ ts) = (can_wake (procs p) ≡ true) × AllCanWake procs ts

-- The timers that expire later than `base`, and the processes of those that do not.
unfoldable pub later_than : ℕ → List Timer → List Timer
later_than base [] = []
later_than base ((a, p) ∷ ts) =
    let rest = later_than base ts in if leb a base then rest else (a, p) ∷ rest

abbrev pub AllAwake : (ℕ → Proc) → ℕ → List Timer → Type 0
AllAwake procs base [] = Unit
AllAwake procs base ((a, p) ∷ ts) = (a ≤ base → (procs p).state ≡ runnable) × AllAwake procs base ts

-- All deadlines of a list lie behind its base.
later_than-deadlines :
    (ts : List Timer) (now base : ℕ)
    → now < base
    → later_than now (deadlines base ts) ≡ deadlines base ts
unfolding later_than
later_than-deadlines [] now base h = refl
later_than-deadlines ((e, p) ∷ ts) now base h =
    ground (arith, later_than-deadlines ts now (base + e))

-- A wakeup spoils no other.
Wakes-can_wake :
    (s s' : Sched) (p q : ℕ)
    → Wakes s p s'
    → can_wake (s.procs p) ≡ true
    → can_wake (s.procs q) ≡ true
    → can_wake (s'.procs q) ≡ true
Wakes-can_wake s s' p q w cp cq = elim (Bool-cases (q == p)) [
  | inl same ↦
      subst (λ k. can_wake (s'.procs k) ≡ true) (sym (equal same)) (ground (arith, w.here, w.waits))
  | inr other ↦ rw (w.others q (ground arith)) cq
]
  where
    equal : (q == p) ≡ true → q ≡ p
    equal e = ground arith

AllCanWake-Wakes :
    (ts : List Timer) (s s' : Sched) (p : ℕ)
    → Wakes s p s'
    → can_wake (s.procs p) ≡ true
    → AllCanWake s.procs ts
    → AllCanWake s'.procs ts
AllCanWake-Wakes [] s s' p w cp h = tt
AllCanWake-Wakes ((e, q) ∷ ts) s s' p w cp h =
    (Wakes-can_wake s s' p q w cp h.0, AllCanWake-Wakes ts s s' p w cp h.1)

AllAwake-later :
    (ts : List Timer) (procs : ℕ → Proc) (now base : ℕ)
    → now < base
    → AllAwake procs now (deadlines base ts)
AllAwake-later [] procs now base h = tt
AllAwake-later ((e, p) ∷ ts) procs now base h =
    (λ le. absurd (omega arith), AllAwake-later ts procs now (base + e) (omega arith))

-- What the loop over the expired timers leaves at the time `now`.
record Expired (now : ℕ) (ts : List Timer) (s : Sched) (ts' : List Timer) (s' : Sched)
    : Type 0 where
  left : deadlines now ts' ≡ later_than now (deadlines now ts)
  awake : AllAwake s'.procs now (deadlines now ts)
  stays : (q : ℕ) → (s.procs q).state ≡ runnable → (s'.procs q).state ≡ runnable

Wakes-runnable :
    (s s' : Sched) (p q : ℕ)
    → Wakes s p s'
    → (s.procs q).state ≡ runnable
    → (s'.procs q).state ≡ runnable
Wakes-runnable s s' p q w e = elim (Bool-cases (q == p)) [
  | inl same ↦ subst (λ k. (s'.procs k).state ≡ runnable) (sym (equal same)) w.here
  | inr other ↦ ap (λ (r : Proc). r.state) (w.others q (ground arith)) ∙ e
]
  where
    equal : (q == p) ≡ true → q ≡ p
    equal e = ground arith

run_expired-Expired :
    (ts : List Timer) (now : ℕ) (s : Sched)
    → AllCanWake s.procs ts
    → (ts' : List Timer) × (s' : Sched) × (run_expired ts s ≡ some (ts', s'))
      × Expired now ts s ts' s'
unfolding run_expired later_than
run_expired-Expired [] now s h = ([], s, refl, record { left = refl; awake = tt; stays = λ q e. e })
run_expired-Expired ((zero, p) ∷ ts) now s h =
    let (s1, woke, w) = wakeup_proc-Wakes s p (ground (arith, h.0)) in
    let (ts', s', ran, x) = run_expired-Expired ts now s1 (AllCanWake-Wakes ts s s1 p w h.0 h.1) in
    (
      ts',
      s',
      ground (arith, h.0, woke, ran),
      record {
        left = rw add-zero (ground (arith, x.left));
        awake = rw add-zero (λ le. x.stays p w.here, x.awake);
        stays = λ q e. x.stays q (Wakes-runnable s s1 p q w e);
      },
    )
run_expired-Expired ((suc e, p) ∷ ts) now s h = (
  (suc e, p) ∷ ts,
  s,
  ground arith,
  record {
    left = ground (arith, later_than-deadlines ts now (now + suc e) (omega arith));
    awake = (λ le. absurd (omega arith), AllAwake-later ts s.procs now (now + suc e) (omega arith));
    stays = λ q e. e;
  },
)

-- The timers behind `tick_timers`, the part of `run_timer_list` in front of the scheduler's tick:
-- at the next tick exactly the timers that expire later are left, with their times unchanged, and
-- the process of every timer that has expired is runnable. No assertion fails, if the first timer
-- has not expired yet and the processes may be woken.
pub tick_timers_lem :
    (now e p : ℕ) (ts : List Timer) (s : Sched)
    → s.timers ≡ (suc e, p) ∷ ts
    → AllCanWake s.procs ((suc e, p) ∷ ts)
    → (s' : Sched) × (tick_timers s ≡ some s')
      × (deadlines (now + 1) s'.timers ≡ later_than (now + 1) (deadlines now ((suc e, p) ∷ ts)))
      × AllAwake s'.procs (now + 1) (deadlines now ((suc e, p) ∷ ts))
unfolding tick_timers
tick_timers_lem now e p ts s eq can =
    let (ts', s', ran, x) = run_expired-Expired ((e, p) ∷ ts) (now + 1) s can in
    let shift : now + 1 + e ≡ now + suc e = omega arith in
    let before : suc e - 1 ≡ e = omega arith in
    (
      record s' { timers = ts' },
      ground (arith, eq, before, ran),
      rw (← shift) x.left,
      rw (← shift) x.awake,
    )
