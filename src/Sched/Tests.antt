-- ===== src/Sched/Tests.antt =====
-- Runs of lab8/code/kern/schedule on a concrete system.
use os_labs.Prelude.{
  ℕ, ◌≡◌, ◌≤◌, refl, arith, true, false, ◌||◌, some, List, [], ◌∷◌, ◌==◌, if◌then◌else◌,
}
use os_labs.SkewHeap.{empty, node}
use os_labs.SkewHeap.Members.{count}
use os_labs.Sched.{
  sleeping, runnable, Proc, Timer, Sched, big_stride, stride_enqueue, stride_pick_next,
  stride_dequeue, add_timer, tick_timers,
}
use os_labs.Sched.Timers.{
  deadlines, insert_by_time, later_than, AllAwake, deadlines-add_timer, tick_timers_lem,
}
use os_labs.Sched.Stride.{round-IsFair, enqueue-IsFair}
use os_labs.Sched.StrideOrder.{ahead, IsFair}

-- Processes 1 and 2 are on the run queue, 4 to 6 sleep; the stride of 1 has wrapped around.
abbrev sample : ℕ → Proc
sample p = record {
  state = if p == 4 || p == 5 || p == 6 then sleeping else runnable;
  wait_state = 0;
  need_resched = false;
  runs = 0;
  time_slice = 5;
  stride = if p == 2 then 4294967290 else 10;
  priority = p;
  on_rq = true;
}

abbrev system : Sched
system = record {
  procs = sample;
  rq = record { pool = node 2 (node 1 empty empty) empty; proc_num = 2; max_time_slice = 5 };
  current = 3;
  idle = 0;
  timers = (1, 4) ∷ (0, 5) ∷ (3, 6) ∷ [];
}

system-IsFair : IsFair system 4294967290
system-IsFair = record { words = λ p. ground arith; word = omega arith; heap = ground arith }

round_example :
    (s' : Sched) × ((stride_pick_next system).1 ≡ some 2)
    × (stride_dequeue (stride_pick_next system).0 2 ≡ some s')
    × IsFair s' 4294967290
    × (ahead s'.procs 4294967290 2 ≤ big_stride)
    × (count 2 s'.rq.pool ≡ 0)
round_example =
    round-IsFair system 4294967290 2 (node 1 empty empty) empty system-IsFair refl refl refl
      (omega arith)

enqueue_example : IsFair (stride_enqueue system 3) 4294967290
enqueue_example = enqueue-IsFair system 4294967290 3 system-IsFair (omega arith)

add_timer_example :
    (ts' : List Timer) × (add_timer (2, 9) ((1, 4) ∷ (5, 5) ∷ []) ≡ some ts')
    × (deadlines 100 ts' ≡ (101, 4) ∷ (102, 9) ∷ (106, 5) ∷ [])
unfolding insert_by_time
add_timer_example = deadlines-add_timer ((1, 4) ∷ (5, 5) ∷ []) 100 2 9 (omega arith) refl

tick_example :
    (s' : Sched) × (tick_timers system ≡ some s')
    × (deadlines 101 s'.timers ≡ (104, 6) ∷ [])
    × AllAwake s'.procs 101 ((101, 4) ∷ (101, 5) ∷ (104, 6) ∷ [])
unfolding later_than
tick_example = tick_timers_lem 100 0 4 ((0, 5) ∷ (3, 6) ∷ []) system refl (ground arith)
