-- ===== src/Sched.antt =====
-- lab8/code/kern/schedule/sched.c and default_sched_stride.c: the processes, the stride scheduler,
-- and the list of timers. A process is a number; interrupts are off inside each function, as
-- `local_intr_save` makes them.
pub mod Stride
pub mod StrideOrder
pub mod Timers
pub mod Wakeup
mod Tests
use Prim.Native.Nat.{bit_and}
use os_labs.Prelude.{
  ℕ, zero, suc, ◌+◌, ◌-◌, ◌/◌, ◌%◌, ◌^◌, Bool, true, false, not, ◌&&◌, ◌||◌, Option, none, some,
  List, [], ◌∷◌, leb, ltb, ◌==◌, if◌then◌else◌, ◌>>=◌, ◌>>◌, assert, update,
}
use os_labs.SkewHeap.{Heap, empty, node, skew_heap_insert, skew_heap_remove}

-- `enum proc_state`
pub data ProcState : Type 0 where
  uninit sleeping runnable zombie : ProcState

abbrev pub is_runnable : ProcState → Bool
is_runnable runnable = true
is_runnable uninit = false
is_runnable sleeping = false
is_runnable zombie = false

abbrev pub is_zombie : ProcState → Bool
is_zombie zombie = true
is_zombie uninit = false
is_zombie sleeping = false
is_zombie runnable = false

-- The fields of `struct proc_struct` that scheduling reads; `on_rq` is `proc->rq == rq`.
pub record Proc : Type 0 where
  pub state : ProcState
  pub wait_state : ℕ
  pub need_resched : Bool
  pub runs : ℕ
  pub time_slice : ℕ
  pub stride : ℕ
  pub priority : ℕ
  pub on_rq : Bool

-- `struct run_queue`
pub record RunQueue : Type 0 where
  pub pool : Heap
  pub proc_num : ℕ
  pub max_time_slice : ℕ

-- A timer's `expires`, which counts from the timer in front of it, and its process. A process has
-- one timer, a local variable of `do_sleep`, so the process names the timer.
abbrev pub Timer : Type 0
Timer = ℕ × ℕ

pub record Sched : Type 0 where
  pub procs : ℕ → Proc
  pub rq : RunQueue
  pub current : ℕ
  pub idle : ℕ
  pub timers : List Timer

abbrev pub u32_mod : ℕ
u32_mod = 2 ^ 32

abbrev pub big_stride : ℕ
big_stride = 2 ^ 30

abbrev pub max_time_slice : ℕ
max_time_slice = 5

-- `proc_stride_comp_f(p, q) == -1`: the difference of the strides is negative as an `int32_t`.
unfoldable pub stride_below : (ℕ → Proc) → ℕ → ℕ → Bool
stride_below procs p q =
    let c = ((procs p).stride + u32_mod - (procs q).stride) % u32_mod in leb (2 ^ 31) c

unfoldable pub stride_init : RunQueue → RunQueue
stride_init rq = record rq { pool = empty; proc_num = 0 }

unfoldable pub stride_enqueue : Sched → ℕ → Sched
stride_enqueue s p =
    let proc = s.procs p in
    let slice =
      if proc.time_slice == 0 || ltb s.rq.max_time_slice proc.time_slice
      then s.rq.max_time_slice
      else proc.time_slice in
    record s {
      rq = record (s.rq) {
        pool = skew_heap_insert (stride_below s.procs) s.rq.pool p;
        proc_num = (s.rq.proc_num + 1) % u32_mod;
      };
      procs = update s.procs p (record proc { time_slice = slice; on_rq = true });
    }

unfoldable pub stride_dequeue : Sched → ℕ → Option Sched
stride_dequeue s p =
    assert ((s.procs p).on_rq && ltb 0 s.rq.proc_num)
    >> some (record s {
      rq = record (s.rq) {
        pool = skew_heap_remove (stride_below s.procs) s.rq.pool p;
        proc_num = s.rq.proc_num - 1;
      };
    })

abbrev pub root : Heap → Option ℕ
root empty = none
root (node p l r) = some p

-- The step that `pick_next` adds to a stride.
abbrev pub stride_step : ℕ → ℕ
stride_step priority = if priority == 0 then big_stride else big_stride / priority

abbrev pub add_stride : (ℕ → Proc) → ℕ → ℕ → Proc
add_stride procs p =
    update procs p
      (record (procs p) { stride = ((procs p).stride + stride_step (procs p).priority) % u32_mod })

unfoldable pub stride_pick_next : Sched → Sched × Option ℕ
stride_pick_next s = elim (root s.rq.pool) [
  | none ↦ (s, none)
  | some p ↦ (record s { procs = add_stride s.procs p }, some p)
]

unfoldable pub stride_proc_tick : Sched → ℕ → Sched
stride_proc_tick s p =
    let proc = s.procs p in
    let slice = if ltb 0 proc.time_slice then proc.time_slice - 1 else proc.time_slice in
    record s {
      procs = update s.procs p (record proc {
        time_slice = slice;
        need_resched = if slice == 0 then true else proc.need_resched;
      });
    }

-- sched.c: the idle process is never on the run queue.
unfoldable pub sched_class_enqueue : Sched → ℕ → Sched
sched_class_enqueue s p = if not (p == s.idle) then stride_enqueue s p else s

unfoldable pub sched_class_proc_tick : Sched → ℕ → Sched
sched_class_proc_tick s p =
    if not (p == s.idle)
    then stride_proc_tick s p
    else record s { procs = update s.procs p (record (s.procs p) { need_resched = true }) }

unfoldable pub sched_init : Sched → Sched
unfolding stride_init
sched_init s = record s {
  timers = [];
  rq = stride_init (record (s.rq) { max_time_slice = max_time_slice });
}

unfoldable pub wakeup_proc : Sched → ℕ → Option Sched
wakeup_proc s p =
    let proc = s.procs p in
    let woken = record s {
      procs = update s.procs p (record proc { state = runnable; wait_state = 0 });
    } in
    assert (not (is_zombie proc.state))
    >> some (
        if not (is_runnable proc.state)
        then if not (p == s.current) then sched_class_enqueue woken p else woken
        else s)

-- The end of `schedule`: `next->runs ++` and `proc_run`.
unfoldable pub switch_to : Sched → ℕ → Sched
switch_to s next = record s {
  procs = update s.procs next (record (s.procs next) { runs = (s.procs next).runs + 1 });
  current = next;
}

unfoldable pub schedule : Sched → Option Sched
schedule s =
    let cur = s.procs s.current in
    let s1 = record s { procs = update s.procs s.current (record cur { need_resched = false }) } in
    let s2 = if is_runnable cur.state then sched_class_enqueue s1 s1.current else s1 in
    let (s3, next) = stride_pick_next s2 in
    elim next [
      | none ↦ some (switch_to s3 s3.idle)
      | some p ↦ stride_dequeue s3 p >>= λ s4. some (switch_to s4 p)
    ]

-- The walk of `add_timer` to the new timer's place; the differences on the way are taken off.
unfoldable pub place_timer : Timer → List Timer → List Timer
place_timer t [] = t ∷ []
place_timer (e, p) ((d, q) ∷ ts) =
    let rest = place_timer (e - d, p) ts in
    if ltb e d then (e, p) ∷ (d - e, q) ∷ ts else (d, q) ∷ rest

-- Is the timer of `p` on the list, `!list_empty(&timer->timer_link)`?
abbrev pub is_linked : ℕ → List Timer → Bool
is_linked p [] = false
is_linked p ((e, q) ∷ ts) = q == p || is_linked p ts

unfoldable pub add_timer : Timer → List Timer → Option (List Timer)
unfolding place_timer
add_timer t ts = assert (ltb 0 t.0 && not (is_linked t.1 ts)) >> some (place_timer t ts)

-- The timer of process `p` is unlinked, if it is linked; the next one takes over its difference.
unfoldable pub del_timer : ℕ → List Timer → List Timer
del_timer p [] = []
del_timer p ((e, q) ∷ []) = if q == p then [] else (e, q) ∷ []
del_timer p ((e, q) ∷ (d, r) ∷ ts) =
    let rest = del_timer p ((d, r) ∷ ts) in
    if q == p then (if not (e == 0) then (d + e, r) ∷ ts else (d, r) ∷ ts) else (e, q) ∷ rest

abbrev pub wt_interrupted : ℕ
wt_interrupted = 0x80000000

-- The loop of `run_timer_list` over the timers that have expired.
unfoldable pub run_expired : List Timer → Sched → Option (List Timer × Sched)
run_expired [] s = some ([], s)
run_expired ((e, p) ∷ ts) s =
    let ws = (s.procs p).wait_state in
    let woken = assert (ws == 0 || not (bit_and ws wt_interrupted == 0)) >> wakeup_proc s p in
    if e == 0 then woken >>= (λ s'. run_expired ts s') else some ((e, p) ∷ ts, s)

unfoldable pub tick_timers : Sched → Option Sched
tick_timers s = elim s.timers [
  | [] ↦ some s
  | (e, p) ∷ ts ↦
      assert (not (e == 0))
      >> (run_expired ((e - 1, p) ∷ ts) s >>= λ r. some (record (r.1) { timers = r.0 }))
]

unfoldable pub run_timer_list : Sched → Option Sched
run_timer_list s = tick_timers s >>= λ s'. some (sched_class_proc_tick s' s'.current)
