-- ===== src/Sync/Queue.antt =====
-- The wait queues of lab8/code/kern/sync/wait.c.
use os_labs.Prelude.{
  ℕ, ◌≡◌, ◌≢◌, refl, inl, inr, true, false, some, List, [], ◌∷◌, ◌++◌, ◌==◌, update, arith,
  Bool-cases,
}
use os_labs.LinkedList.Ring.{Apart, Distinct}
use os_labs.Sched.{is_zombie}
use os_labs.Sched.Wakeup.{Wakes, wakeup_proc-Wakes}
use os_labs.Sync.{
  Sync, wait_queue_del, remove, wait_queue_next, wait_queue_prev, wait_behind, wait_in_front, is_on,
  wakeup_wait, set_wait, set_queue,
}

remove-Apart : (q : List ℕ) (w : ℕ) → Apart w q → remove w q ≡ q
unfolding remove
remove-Apart [] w a = refl
remove-Apart (v ∷ q) w a = ground (arith, remove-Apart q w a.1)

-- A wait that is added to the queue and deleted again leaves the queue as it was.
pub remove-add : (q : List ℕ) (w : ℕ) → Apart w q → remove w (q ++ w ∷ []) ≡ q
unfolding remove
remove-add [] w a = ground arith
remove-add (v ∷ q) w a = ground (arith, remove-add q w a.1)

wait_in_front-Apart : (q : List ℕ) (u v w : ℕ) → Apart u q → wait_in_front q w ≡ some v → u ≢ v
unfolding wait_in_front
wait_in_front-Apart [] u v w a e = cc
wait_in_front-Apart (x ∷ []) u v w a e = cc
wait_in_front-Apart (x ∷ y ∷ q) u v w a e = ground (arith, wait_in_front-Apart (y ∷ q) u v w a.1)

wait_behind-wait_in_front :
    (q : List ℕ) (v w : ℕ) → Distinct q → wait_in_front q w ≡ some v → wait_behind q v ≡ some w
unfolding wait_in_front wait_behind
wait_behind-wait_in_front [] v w d e = cc
wait_behind-wait_in_front (u ∷ []) v w d e = cc
wait_behind-wait_in_front (u ∷ t ∷ q) v w d e = elim (Bool-cases (t == w)) [
  | inl here ↦ ground arith
  | inr later ↦
      let rest : wait_in_front (t ∷ q) w ≡ some v = rw later at e in
      ground (
        arith,
        wait_in_front-Apart (t ∷ q) u v w d.0 rest,
        wait_behind-wait_in_front (t ∷ q) v w d.1 rest,
      )
]

-- In a queue without repetitions, if `wait_queue_prev` of `w` is `v`, then `wait_queue_next` of
-- `v`, which is marked as on the queue, is `w`.
pub next-prev :
    (s : Sync) (m v w : ℕ)
    → Distinct (s.sems m).queue
    → is_on s m v ≡ true
    → wait_queue_prev s m w ≡ some (some v)
    → wait_queue_next s m v ≡ some (some w)
unfolding wait_queue_prev wait_queue_next
next-prev s m v w d on e =
    let found : wait_in_front (s.sems m).queue w ≡ some v = ground (arith, e) in
    ground (arith, on, wait_behind-wait_in_front (s.sems m).queue v w d found)

-- What waking the first wait of a queue leaves.
pub record Woken (s : Sync) (m w flags : ℕ) (q : List ℕ) (s' : Sync) : Type 0 where
  pub queue : (s'.sems m).queue ≡ q
  pub value : (s'.sems m).value ≡ (s.sems m).value
  pub wait : s'.waits w ≡ record (s.waits w) { in_queue = false; wakeup_flags = flags }
  pub waits : (v : ℕ) → v ≢ w → s'.waits v ≡ s.waits v
  pub sched : Wakes s.sched (s.waits w).proc s'.sched

-- `wakeup_wait` with deletion, for the first wait of a queue whose process is no zombie: the wait
-- leaves the queue and gets the flags, and its process becomes runnable; nothing else changes.
pub wakeup_wait-Woken :
    (s : Sync) (m w flags : ℕ) (q : List ℕ)
    → (s.sems m).queue ≡ w ∷ q
    → is_on s m w ≡ true
    → is_zombie (s.sched.procs (s.waits w).proc).state ≡ false
    → (s' : Sync) × (wakeup_wait s m w flags true ≡ some s') × Woken s m w flags q s'
unfolding wakeup_wait wait_queue_del remove
wakeup_wait-Woken s m w flags q e inq z =
    let (sched, ran, wakes) = wakeup_proc-Wakes s.sched (s.waits w).proc z in
    let s1 =
      set_queue (set_wait s w (record (s.waits w) { in_queue = false })) m
        (remove w (s.sems m).queue) in
    (
      record s1 {
        sched = sched;
        waits = update s1.waits w (record (s1.waits w) { wakeup_flags = flags });
      },
      ground (arith, inq, ran),
      record {
        queue = ground (arith, e);
        value = ground arith;
        wait = ground arith;
        waits = λ v ne. ground arith;
        sched = wakes;
      },
    )
