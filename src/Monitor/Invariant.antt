-- ===== src/Monitor/Invariant.antt =====
-- Every step of the monitors of lab8/code/kern/sync/monitor.c keeps the invariant of
-- `Monitor.Tokens`.
use os_labs.Prelude.{
  sum, sum-at, sum-two, sum-zero, ℕ, ◌+◌, ◌-◌, ◌≤◌, ◌<◌, ◌≡◌, ◌≢◌, inl, inr, refl, sym, ap, arith,
  true, ltb, ◌==◌, if◌then◌else◌, Bool-cases, update,
}
use os_labs.Monitor.{
  Monitor, monitor_init, Pc, outside, inside, signalled, waiting, release, wait_begin, wait_end,
  signal_begin, signal_end, Move, enters, leaves, begins_wait, ends_wait, signals_none,
  begins_signal, ends_signal, System, Step, steps, init, Reach, start, later,
}
use os_labs.Monitor.Tokens.{at_inside, IsValid, sum-update, Moves, Moves-IsValid}

module _ (n v : ℕ) (s : System) (ok : IsValid n v s) (i : ℕ) (h : i < n) where
  -- A thread in the monitor has the token.
  alone :
      s.pc i ≡ inside
      → (s.monitor.mutex ≡ 0)
        × (s.monitor.next ≡ 0)
        × (sum v s.monitor.sem ≡ 0)
        × ((c : ℕ) → c < v → s.monitor.sem c ≡ 0)
  alone e =
      let one = sum-at n (λ j. at_inside (s.pc j)) i h in
      let here : at_inside (s.pc i) ≡ 1 = ap at_inside e in
      let t = ok.token in
      let none_left : sum v s.monitor.sem ≡ 0 = omega (arith, one, here, t) in
      (
        omega (arith, one, here, t),
        omega (arith, one, here, t),
        none_left,
        λ c l. let a = sum-at v s.monitor.sem c l in omega (arith, a, none_left),
      )

  move_enter :
      0 < s.monitor.mutex
      → Moves n v s.monitor (record (s.monitor) { mutex = s.monitor.mutex - 1 }) s.pc outside inside
  move_enter lt =
      let u = ok.unlocked lt in
      record {
        token = λ t. omega (arith, t, lt);
        waiters = λ c l. refl;
        signallers = refl;
        unlocked = λ l. u;
        next_used = ok.next_used;
        sem_used = ok.sem_used;
      }

  move_leave : s.pc i ≡ inside → Moves n v s.monitor (release s.monitor) s.pc inside outside
  unfolding release
  move_leave e =
      let (mz, nz, sz, each) = alone e in
      elim (Bool-cases (ltb 0 s.monitor.next_count)) [
        | inl t ↦ rw t (record {
          token = λ k. omega (arith, k);
          waiters = λ c l. refl;
          signallers = refl;
          unlocked = λ l. absurd (omega (arith, l, mz));
          next_used = ground (arith, t, nz);
          sem_used = ok.sem_used;
        })
        | inr t ↦ rw t (record {
          token = λ k. omega (arith, k);
          waiters = λ c l. refl;
          signallers = refl;
          unlocked = λ l. ground (arith, t);
          next_used = ok.next_used;
          sem_used = ok.sem_used;
        })
      ]

  move_wait :
      s.pc i ≡ inside
      → (c : ℕ) → c < v
      → Moves n v s.monitor (wait_begin s.monitor c) s.pc inside (waiting c)
  unfolding wait_begin release
  move_wait e c lc =
      let (mz, nz, sz, each) = alone e in
      let counts : (d : ℕ)
          → update s.monitor.count c (s.monitor.count c + 1) d + 0
            ≡ s.monitor.count d + (if c == d then 1 else 0) =
        λ d. elim (Bool-cases (c == d)) [
          | inl t ↦
              let same : c ≡ d = ground (arith, t) in rw t (omega (arith, ap s.monitor.count same))
          | inr t ↦ rw t (omega arith)
        ] in
      let used : (d : ℕ)
          → d < v
          → s.monitor.sem d ≤ update s.monitor.count c (s.monitor.count c + 1) d =
        λ d l. let z = each d l in omega (arith, z) in
      elim (Bool-cases (ltb 0 s.monitor.next_count)) [
        | inl t ↦ rw t (record {
          token = λ k. omega (arith, k);
          waiters = λ d l. counts d;
          signallers = refl;
          unlocked = λ l. absurd (omega (arith, l, mz));
          next_used = ground (arith, t, nz);
          sem_used = used;
        })
        | inr t ↦ rw t (record {
          token = λ k. omega (arith, k);
          waiters = λ d l. counts d;
          signallers = refl;
          unlocked = λ l. ground (arith, t);
          next_used = ok.next_used;
          sem_used = used;
        })
      ]

  move_wait_end :
      (c : ℕ)
      → c < v
      → 0 < s.monitor.sem c
      → Moves n v s.monitor (wait_end s.monitor c) s.pc (waiting c) inside
  unfolding wait_end
  move_wait_end c lc lt =
      let sems = sum-update v s.monitor.sem c (s.monitor.sem c - 1) lc in
      let some_in = sum-at v s.monitor.sem c lc in
      let used = ok.sem_used c lc in
      record {
        token = λ k. omega (arith, k, sems, lt);
        waiters = λ d l. elim (Bool-cases (c == d)) [
          | inl t ↦
              let same : c ≡ d = ground (arith, t) in
              let back : (d == c) ≡ true = ground (arith, t) in
              rw t (omega (arith, used, lt, ap s.monitor.count same))
          | inr t ↦ rw t (omega arith)
        ];
        signallers = refl;
        unlocked = λ l. let t = ok.token in absurd (omega (arith, l, t, some_in, lt));
        next_used = ok.next_used;
        sem_used = λ d l. elim (Bool-cases (c == d)) [
          | inl t ↦ let same : c ≡ d = ground (arith, t) in rw t (omega (arith, used))
          | inr t ↦ rw t (ok.sem_used d l)
        ];
      }

  move_signal :
      s.pc i ≡ inside
      → (c : ℕ) → c < v
      → 0 < s.monitor.count c
      → Moves n v s.monitor (signal_begin s.monitor c) s.pc inside signalled
  unfolding signal_begin
  move_signal e c lc some_wait =
      let (mz, nz, sz, each) = alone e in
      let sems = sum-update v s.monitor.sem c (s.monitor.sem c + 1) lc in
      record {
        token = λ k. omega (arith, k, sems);
        waiters = λ d l. refl;
        signallers = omega arith;
        unlocked = λ l. absurd (omega (arith, l, mz));
        next_used = omega (arith, nz);
        sem_used = λ d l. elim (Bool-cases (c == d)) [
          | inl t ↦
              let same : c ≡ d = ground (arith, t) in
              let z = each c lc in rw t (omega (arith, z, some_wait, ap s.monitor.count same))
          | inr t ↦ rw t (ok.sem_used d l)
        ];
      }

  move_signal_end :
      0 < s.monitor.next → Moves n v s.monitor (signal_end s.monitor) s.pc signalled inside
  unfolding signal_end
  move_signal_end lt =
      let used = ok.next_used in
      record {
        token = λ k. omega (arith, k, lt);
        waiters = λ d l. refl;
        signallers = omega (arith, used, lt);
        unlocked = λ l. let t = ok.token in absurd (omega (arith, l, t, lt));
        next_used = omega (arith, used, lt);
        sem_used = ok.sem_used;
      }

  move_stay : (p : Pc) → Moves n v s.monitor s.monitor s.pc p p
  move_stay p = record {
    token = λ k. omega (arith, k);
    waiters = λ d l. refl;
    signallers = refl;
    unlocked = ok.unlocked;
    next_used = ok.next_used;
    sem_used = ok.sem_used;
  }

  move_lem :
      (p q : Pc) (m' : Monitor)
      → s.pc i ≡ p
      → Move v s.monitor p m' q
      → Moves n v s.monitor m' s.pc p q
  move_lem p q m' e (enters lt) = move_enter lt
  move_lem p q m' e leaves = move_leave e
  move_lem p q m' e (begins_wait c lc) = move_wait e c lc
  move_lem p q m' e (ends_wait c lc lt) = move_wait_end c lc lt
  move_lem p q m' e (signals_none c lc z) = move_stay inside
  move_lem p q m' e (begins_signal c lc lt) = move_signal e c lc lt
  move_lem p q m' e (ends_signal lt) = move_signal_end lt

Step-IsValid : (n v : ℕ) (s t : System) → IsValid n v s → Step n v s t → IsValid n v t
Step-IsValid n v s t ok (steps i {m = m} {p = p} h mv) =
    Moves-IsValid n v s m i p h ok (move_lem n v s ok i h (s.pc i) p m refl mv)

init-IsValid : (n v : ℕ) → IsValid n v init
unfolding monitor_init
init-IsValid n v = record {
  token = let a = sum-zero n in let b = sum-zero v in omega (arith, a, b);
  waiters = λ c l. sym (sum-zero n);
  signallers = sym (sum-zero n);
  unlocked = λ l. refl;
  next_used = omega arith;
  sem_used = λ c l. omega arith;
}

-- Every state that threads and condition variables reach from `monitor_init` satisfies the
-- invariant: there is one token in all, `count` and `next_count` count the threads blocked on each
-- condition variable and in `cond_signal`, nobody has signalled while the monitor is unlocked, and
-- no more tokens wait in a semaphore than threads for them.
pub Reach-IsValid : (n v : ℕ) (s : System) → Reach n v s → IsValid n v s
Reach-IsValid n v s start = init-IsValid n v
Reach-IsValid n v s (later {s = r} before step) =
    Step-IsValid n v r s (Reach-IsValid n v r before) step

-- In every state that is reached, at most one thread runs in a procedure of the monitor.
pub mutual_exclusion :
    (n v : ℕ) (s : System)
    → Reach n v s
    → (i j : ℕ) → i < n
    → j < n
    → s.pc i ≡ inside
    → s.pc j ≡ inside
    → i ≡ j
mutual_exclusion n v s r i j hi hj ei ej = elim (Bool-cases (i == j)) [
  | inl e ↦ ground (arith, e)
  | inr e ↦
      let t = (Reach-IsValid n v s r).token in
      let a : at_inside (s.pc i) ≡ 1 = ap at_inside ei in
      let b : at_inside (s.pc j) ≡ 1 = ap at_inside ej in
      let ne : i ≢ j = ground (arith, e) in
      let two = sum-two n (λ k. at_inside (s.pc k)) i j hi hj ne in
      absurd (omega (arith, t, a, b, two))
]
