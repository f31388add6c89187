-- ===== src/Monitor/Tests.antt =====
-- A run of the monitors of lab8/code/kern/sync/monitor.c with two threads: one waits for condition
-- 0, the other signals it.
use os_labs.Prelude.{ℕ, ◌<◌, ◌≡◌, ◌⊎◌, refl, arith, update}
use os_labs.Monitor.{
  monitor_init, outside, inside, signalled, waiting, release, wait_begin, signal_begin, enters,
  begins_wait, begins_signal, System, steps, Reach, start, later,
}
use os_labs.Monitor.Invariant.{mutual_exclusion}
use os_labs.Monitor.Progress.{CanStep, no_deadlock}

-- Thread 0 has entered and waits, thread 1 has entered and signalled.
blocked :
    (s : System) × Reach 2 1 s
    × (s.pc 0 ≡ waiting 0)
    × (s.pc 1 ≡ signalled)
    × (s.monitor.sem 0 ≡ 1)
    × (s.monitor.next_count ≡ 1)
unfolding monitor_init release wait_begin signal_begin
blocked = (
  _,
  later
      (later
        (later (later start (steps 0 (omega arith) (enters (omega arith))))
          (steps 0 (omega arith) (begins_wait 0 (omega arith))))
        (steps 1 (omega arith) (enters (omega arith))))
      (steps 1 (omega arith) (begins_signal 0 (omega arith) (omega arith))),
  refl,
  refl,
  refl,
  refl,
)

-- Thread 0 is in the monitor.
abbrev entered : System
entered = record {
  monitor = record { mutex = 0; next = 0; next_count = 0; sem = λ c. 0; count = λ c. 0 };
  pc = update (λ i. outside) 0 inside;
}

entered-Reach : Reach 2 1 entered
unfolding monitor_init
entered-Reach = later start (steps 0 (omega arith) (enters (omega arith)))

mutual_exclusion_example : ◌≡◌ {A = ℕ} 0 0
mutual_exclusion_example =
    mutual_exclusion 2 1 entered entered-Reach 0 0 (omega arith) (omega arith) refl refl

no_deadlock_example : CanStep 2 1 entered ⊎ ((i : ℕ) → i < 2 → (c : ℕ) × (entered.pc i ≡ waiting c))
no_deadlock_example = no_deadlock 2 1 entered entered-Reach
