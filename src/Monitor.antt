-- ===== src/Monitor.antt =====
-- lab8/code/kern/sync/monitor.c: monitors over counting semaphores, as the steps of threads. A step
-- goes from one `down` that may block to the next; the code between runs while the thread is the
-- only one in the monitor.
pub mod Invariant
pub mod Tokens
pub mod Progress
mod Tests
use os_labs.Prelude.{
  ℕ, zero, suc, ◌+◌, ◌-◌, ◌*◌, ◌/◌, ◌%◌, ◌^◌, ◌≤◌, ◌<◌, ◌≡◌, ◌≢◌, ◌⊎◌, ◌↔◌, inl, inr, refl, sym, ap,
  ◌∙◌, fun_ext, arith, Bool, true, false, not, ◌&&◌, ◌||◌, ltb, leb, ◌==◌, ==-refl, ==_iff,
  if◌then◌else◌, Bool-cases, Option-cases, Option, none, some, ◌>>=◌, ◌>>◌, assert, update, List,
  [], ◌∷◌, ◌++◌, map, length, get_elem?, set, get_or, take, drop, replicate,
}

-- `monitor_t` with its condition variables by index: the values of the semaphores, and the counts.
pub record Monitor : Type 0 where
  pub mutex : ℕ
  pub next : ℕ
  pub next_count : ℕ
  pub sem : ℕ → ℕ
  pub count : ℕ → ℕ

unfoldable pub monitor_init : Monitor
monitor_init = record { mutex = 1; next = 0; next_count = 0; sem = λ c. 0; count = λ c. 0 }

-- Where a thread is: before `down(mutex)`, in a procedure of the monitor, at the `down(next)` of
-- `cond_signal`, at the `down(cvp->sem)` of `cond_wait`.
pub data Pc : Type 0 where
  outside inside signalled : Pc
  waiting : ℕ → Pc

-- How a procedure of the monitor ends, and what `cond_wait` does before it blocks: it hands the
-- monitor to a thread that has signalled, or unlocks it.
unfoldable pub release : Monitor → Monitor
release m =
    if ltb 0 m.next_count then record m { next = m.next + 1 } else record m { mutex = m.mutex + 1 }

unfoldable pub wait_begin : Monitor → ℕ → Monitor
unfolding release
wait_begin m c = release (record m { count = update m.count c (m.count c + 1) })

unfoldable pub wait_end : Monitor → ℕ → Monitor
wait_end m c = record m {
  sem = update m.sem c (m.sem c - 1);
  count = update m.count c (m.count c - 1);
}

unfoldable pub signal_begin : Monitor → ℕ → Monitor
signal_begin m c = record m { next_count = m.next_count + 1; sem = update m.sem c (m.sem c + 1) }

unfoldable pub signal_end : Monitor → Monitor
signal_end m = record m { next = m.next - 1; next_count = m.next_count - 1 }

-- The steps of one thread, with `num_cv` condition variables.
pub data Move (num_cv : ℕ) (m : Monitor) : Pc → Monitor → Pc → Type 0 where
  enters : 0 < m.mutex → Move num_cv m outside (record m { mutex = m.mutex - 1 }) inside
  leaves : Move num_cv m inside (release m) outside
  begins_wait : (c : ℕ) → c < num_cv → Move num_cv m inside (wait_begin m c) (waiting c)
  ends_wait : (c : ℕ) → c < num_cv → 0 < m.sem c → Move num_cv m (waiting c) (wait_end m c) inside
  signals_none : (c : ℕ) → c < num_cv → m.count c ≡ 0 → Move num_cv m inside m inside
  begins_signal :
      (c : ℕ) → c < num_cv → 0 < m.count c → Move num_cv m inside (signal_begin m c) signalled
  ends_signal : 0 < m.next → Move num_cv m signalled (signal_end m) inside

pub record System : Type 0 where
  pub monitor : Monitor
  pub pc : ℕ → Pc

pub data Step (threads num_cv : ℕ) (s : System) : System → Type 0 where
  steps :
      (i : ℕ) {m : Monitor} {p : Pc}
      → i < threads
      → Move num_cv s.monitor (s.pc i) m p
      → Step threads num_cv s (record { monitor = m; pc = update s.pc i p })

abbrev pub init : System
unfolding monitor_init
init = record { monitor = monitor_init; pc = λ i. outside }

pub data Reach (threads num_cv : ℕ) : System → Type 0 where
  start : Reach threads num_cv init
  later : {s t : System} → Reach threads num_cv s → Step threads num_cv s t → Reach threads num_cv t
