-- ===== src/Sync.antt =====
-- lab8/code/kern/sync: wait queues (wait.c, wait.h) and semaphores (sem.c), on top of the
-- scheduler. A `wait_t` and a semaphore are numbers. A wait queue is the list of its waits, oldest
-- first; interrupts are off between the points where a function saves and restores them.
pub mod Queue
pub mod Semaphore
mod Tests
use os_labs.Prelude.{
  ℕ, zero, suc, ◌+◌, ◌-◌, Bool, true, false, not, ◌&&◌, ◌||◌, Option, none, some, List, [], ◌∷◌,
  ◌++◌, ltb, ◌==◌, if◌then◌else◌, ◌>>=◌, ◌>>◌, assert, update,
}
use os_labs.Sched.{Sched, Proc, ProcState, sleeping, wakeup_proc, schedule}

-- `wait_t`; `in_queue` is `wait_in_queue`, the test `!list_empty(&wait->wait_link)`.
pub record Wait : Type 0 where
  pub proc : ℕ
  pub wakeup_flags : ℕ
  pub wait_queue : ℕ
  pub in_queue : Bool

-- `semaphore_t`
pub record Sem : Type 0 where
  pub value : ℕ
  pub queue : List ℕ

pub record Sync : Type 0 where
  pub sched : Sched
  pub waits : ℕ → Wait
  pub sems : ℕ → Sem

abbrev pub wt_interrupted : ℕ
wt_interrupted = 0x80000000

abbrev pub wt_ksem : ℕ
wt_ksem = 0x100

abbrev pub set_wait : Sync → ℕ → Wait → Sync
set_wait s w x = record s { waits = update s.waits w x }

abbrev pub set_queue : Sync → ℕ → List ℕ → Sync
set_queue s m q = record s { sems = update s.sems m (record (s.sems m) { queue = q }) }

unfoldable pub wait_init : Sync → ℕ → ℕ → Sync
wait_init s w p =
    set_wait s w (record (s.waits w) { proc = p; wakeup_flags = wt_interrupted; in_queue = false })

-- The assertion of the functions that are given a queue and one of its waits.
abbrev pub is_on : Sync → ℕ → ℕ → Bool
is_on s m w = (s.waits w).in_queue && (s.waits w).wait_queue == m

-- The wait goes to the back of the queue. Its process is a number, so it is not NULL.
unfoldable pub wait_queue_add : Sync → ℕ → ℕ → Option Sync
wait_queue_add s m w =
    assert (not (s.waits w).in_queue)
    >> some (
        set_queue (set_wait s w (record (s.waits w) { wait_queue = m; in_queue = true })) m
          ((s.sems m).queue ++ w ∷ []))

unfoldable pub remove : ℕ → List ℕ → List ℕ
remove w [] = []
remove w (v ∷ q) = let rest = remove w q in if v == w then q else v ∷ rest

unfoldable pub wait_queue_del : Sync → ℕ → ℕ → Option Sync
wait_queue_del s m w =
    assert (is_on s m w)
    >> some (
        set_queue (set_wait s w (record (s.waits w) { in_queue = false })) m
          (remove w (s.sems m).queue))

unfoldable pub wait_queue_first : List ℕ → Option ℕ
wait_queue_first [] = none
wait_queue_first (w ∷ q) = some w

unfoldable pub wait_queue_last : List ℕ → Option ℕ
wait_queue_last [] = none
wait_queue_last (w ∷ []) = some w
wait_queue_last (w ∷ v ∷ q) = wait_queue_last (v ∷ q)

-- The wait behind `w` in a queue, and the one in front of it.
unfoldable pub wait_behind : List ℕ → ℕ → Option ℕ
unfolding wait_queue_first
wait_behind [] w = none
wait_behind (v ∷ q) w = let rest = wait_behind q w in if v == w then wait_queue_first q else rest

unfoldable pub wait_in_front : List ℕ → ℕ → Option ℕ
wait_in_front [] w = none
wait_in_front (u ∷ []) w = none
wait_in_front (u ∷ v ∷ q) w = let rest = wait_in_front (v ∷ q) w in if v == w then some u else rest

-- The inner option is the pointer returned.
unfoldable pub wait_queue_next : Sync → ℕ → ℕ → Option (Option ℕ)
wait_queue_next s m w = assert (is_on s m w) >> some (wait_behind (s.sems m).queue w)

unfoldable pub wait_queue_prev : Sync → ℕ → ℕ → Option (Option ℕ)
wait_queue_prev s m w = assert (is_on s m w) >> some (wait_in_front (s.sems m).queue w)

unfoldable pub wait_queue_empty : List ℕ → Bool
wait_queue_empty [] = true
wait_queue_empty (w ∷ q) = false

unfoldable pub wakeup_wait : Sync → ℕ → ℕ → ℕ → Bool → Option Sync
wakeup_wait s m w flags del = (if del then wait_queue_del s m w else some s) >>= λ s.
    wakeup_proc s.sched (s.waits w).proc >>= λ sched. some (record s {
      sched = sched;
      waits = update s.waits w (record (s.waits w) { wakeup_flags = flags });
    })

unfoldable pub wakeup_first : Sync → ℕ → ℕ → Bool → Option Sync
wakeup_first s m flags del = elim (wait_queue_first (s.sems m).queue) [
  | none ↦ some s
  | some w ↦ wakeup_wait s m w flags del
]

-- The loop of `wakeup_queue` over the waits of the queue; with `del` each is the first one left,
-- and without it each is found by `wait_queue_next`.
unfoldable pub wakeup_each : List ℕ → Sync → ℕ → ℕ → Bool → Option Sync
wakeup_each [] s m flags del = some s
wakeup_each (w ∷ q) s m flags del = wakeup_wait s m w flags del >>= λ s'.
    assert (del || is_on s' m w) >> wakeup_each q s' m flags del

unfoldable pub wakeup_queue : Sync → ℕ → ℕ → Bool → Option Sync
unfolding wakeup_each
wakeup_queue s m flags del = wakeup_each (s.sems m).queue s m flags del

unfoldable pub wait_current_set : Sync → ℕ → ℕ → ℕ → Option Sync
unfolding wait_init
wait_current_set s m w wait_state =
    let cur = s.sched.current in
    let asleep = record (s.sched.procs cur) { state = sleeping; wait_state = wait_state } in
    let s1 = wait_init s w cur in
    wait_queue_add
      (record s1 { sched = record (s.sched) { procs = update s.sched.procs cur asleep } }) m w

-- `wait_current_del`
unfoldable pub wait_current_del : Sync → ℕ → ℕ → Option Sync
wait_current_del s m w = if (s.waits w).in_queue then wait_queue_del s m w else some s

unfoldable pub sem_init : Sync → ℕ → ℕ → Sync
sem_init s m value = record s { sems = update s.sems m (record { value = value; queue = [] }) }

abbrev pub set_value : Sync → ℕ → ℕ → Sync
set_value s m v = record s { sems = update s.sems m (record (s.sems m) { value = v }) }

-- `__up`
unfoldable pub up_with : Sync → ℕ → ℕ → Option Sync
up_with s m wait_state = elim (wait_queue_first (s.sems m).queue) [
  | none ↦ some (set_value s m ((s.sems m).value + 1))
  | some w ↦
      assert ((s.sched.procs (s.waits w).proc).wait_state == wait_state)
      >> wakeup_wait s m w wait_state true
]

-- `__down` up to its return or to the switch inside `schedule()`: whether it has returned.
unfoldable pub down_enter : Sync → ℕ → ℕ → ℕ → Option (Sync × Bool)
down_enter s m w wait_state =
    if ltb 0 (s.sems m).value
    then some (set_value s m ((s.sems m).value - 1), true)
    else wait_current_set s m w wait_state >>= λ s1.
        schedule s1.sched >>= λ sched. some (record s1 { sched = sched }, false)

-- `__down` from the return of `schedule()` on, with its result.
unfoldable pub down_resume : Sync → ℕ → ℕ → ℕ → Option (Sync × ℕ)
down_resume s m w wait_state = wait_current_del s m w >>= λ s1.
    let flags = (s1.waits w).wakeup_flags in
    some (s1, (if not (flags == wait_state) then flags else 0))

unfoldable pub up : Sync → ℕ → Option Sync
unfolding up_with
up s m = up_with s m wt_ksem

-- `down`, in the same two parts; it asserts that the flags are 0.
unfoldable pub down : Sync → ℕ → ℕ → Option (Sync × Bool)
unfolding down_enter
down s m w = down_enter s m w wt_ksem

unfoldable pub down_return : Sync → ℕ → ℕ → Option Sync
unfolding down_resume
down_return s m w = down_resume s m w wt_ksem >>= λ r. assert (r.1 == 0) >> some r.0

unfoldable pub try_down : Sync → ℕ → Sync × Bool
try_down s m =
    if ltb 0 (s.sems m).value then (set_value s m ((s.sems m).value - 1), true) else (s, false)
