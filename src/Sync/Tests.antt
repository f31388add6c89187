-- ===== src/Sync/Tests.antt =====
-- Runs of lab8/code/kern/sync on a concrete system.
use os_labs.Prelude.{ℕ, ◌-◌, ◌≡◌, refl, arith, true, false, some, [], ◌∷◌, ◌==◌, if◌then◌else◌}
use os_labs.SkewHeap.{empty}
use os_labs.Sched.{sleeping, runnable, Proc}
use os_labs.Sync.{Sync, wakeup_wait, up, down_return}
use os_labs.Sync.Queue.{Woken, wakeup_wait-Woken}
use os_labs.Sync.Semaphore.{IsValid, Balance, up-IsValid, up-down_return}

-- Semaphore 1 has the waits 50 and 51, of the processes 4 and 5; semaphore 2 has two units.
abbrev sample : ℕ → Proc
sample p = record {
  state = if p == 3 then runnable else sleeping;
  wait_state = if p == 3 then 0 else 256;
  need_resched = false;
  runs = 0;
  time_slice = 5;
  stride = 0;
  priority = 1;
  on_rq = true;
}

abbrev system : Sync
system = record {
  sched = record {
    procs = sample;
    rq = record { pool = empty; proc_num = 0; max_time_slice = 5 };
    current = 3;
    idle = 0;
    timers = [];
  };
  waits = λ w. record { proc = w - 46; wakeup_flags = 2147483648; wait_queue = 1; in_queue = true };
  sems =
      λ m. record { value = if m == 1 then 0 else 2; queue = if m == 1 then 50 ∷ 51 ∷ [] else [] };
}

up_example : (s' : Sync) × (up system 1 ≡ some s') × IsValid s' 1 × Balance system s' 1 1 0
up_example = up-IsValid system 1 (ground arith)

hand_over_example :
    (s' : Sync) × (up system 1 ≡ some s')
    × ((s'.sched.procs 4).state ≡ runnable)
    × ((s'.sems 1).value ≡ 0)
    × ((s'.sems 1).queue ≡ 51 ∷ [])
    × (down_return s' 1 50 ≡ some s')
hand_over_example = up-down_return system 1 50 (51 ∷ []) (ground arith) refl

wakeup_example :
    (s' : Sync) × (wakeup_wait system 1 50 256 true ≡ some s') × Woken system 1 50 256 (51 ∷ []) s'
wakeup_example = wakeup_wait-Woken system 1 50 256 (51 ∷ []) refl refl refl
