-- ===== src/Monitor/Tokens.antt =====
-- The invariant of the monitors of lab8/code/kern/sync/monitor.c, and what a move of one thread has
-- to re-establish of it.
use os_labs.Prelude.{
  sum, sum-change, ℕ, ◌+◌, ◌≤◌, ◌<◌, ◌≡◌, refl, arith, false, ◌==◌, ==-refl, if◌then◌else◌, update,
}
use os_labs.Monitor.{Monitor, Pc, outside, inside, signalled, waiting, System}

abbrev pub at_inside : Pc → ℕ
at_inside inside = 1
at_inside outside = 0
at_inside signalled = 0
at_inside (waiting c) = 0

abbrev pub at_signalled : Pc → ℕ
at_signalled signalled = 1
at_signalled inside = 0
at_signalled outside = 0
at_signalled (waiting c) = 0

abbrev pub at_waiting : ℕ → Pc → ℕ
at_waiting c outside = 0
at_waiting c inside = 0
at_waiting c signalled = 0
at_waiting c (waiting d) = if d == c then 1 else 0

-- How many threads are at such a place.
abbrev pub threads_at : (Pc → ℕ) → ℕ → (ℕ → Pc) → ℕ
threads_at g n pc = sum n (λ i. g (pc i))

pub record IsValid (n v : ℕ) (s : System) : Type 0 where
  pub token :
      s.monitor.mutex + s.monitor.next + sum v s.monitor.sem + threads_at at_inside n s.pc ≡ 1
  pub waiters : (c : ℕ) → c < v → s.monitor.count c ≡ threads_at (at_waiting c) n s.pc
  pub signallers : s.monitor.next_count ≡ threads_at at_signalled n s.pc
  pub unlocked : 0 < s.monitor.mutex → s.monitor.next_count ≡ 0
  pub next_used : s.monitor.next ≤ s.monitor.next_count
  pub sem_used : (c : ℕ) → c < v → s.monitor.sem c ≤ s.monitor.count c

-- One thread moves from `pc i` to `p`.
threads_at-update :
    (g : Pc → ℕ) (n : ℕ) (pc : ℕ → Pc) (i : ℕ) (p : Pc)
    → i < n
    → threads_at g n (update pc i p) + g (pc i) ≡ threads_at g n pc + g p
threads_at-update g n pc i p h =
    let here : g (update pc i p i) ≡ g p = rw (==-refl i) in
    let change =
      sum-change n (λ j. g (pc j)) (λ j. g (update pc i p j)) i h
        (λ j ne. let off : (i == j) ≡ false = ground (arith, ne) in rw off) in
    omega (arith, here, change)

update_value : (f : ℕ → ℕ) (c d x : ℕ) → update f c x d ≡ (if c == d then x else f d)
update_value f c d x = refl

pub sum-update : (v : ℕ) (f : ℕ → ℕ) (c x : ℕ) → c < v → sum v (update f c x) + f c ≡ sum v f + x
sum-update v f c x h =
    let here : update f c x c ≡ x = rw (==-refl c) in
    let change =
      sum-change v f (update f c x) c h
        (λ j ne. let off : (c == j) ≡ false = ground (arith, ne) in rw off) in
    omega (arith, here, change)

-- The part of the invariant that a move of a thread from `p` to `q` has to re-establish, over the
-- numbers of threads before it.
pub record Moves (n v : ℕ) (m m' : Monitor) (pc : ℕ → Pc) (p q : Pc) : Type 0 where
  pub token :
      m.mutex + m.next + sum v m.sem + threads_at at_inside n pc ≡ 1
      → m'.mutex + m'.next + sum v m'.sem + threads_at at_inside n pc + at_inside q
        ≡ 1 + at_inside p
  pub waiters : (c : ℕ) → c < v → m'.count c + at_waiting c p ≡ m.count c + at_waiting c q
  pub signallers : m'.next_count + at_signalled p ≡ m.next_count + at_signalled q
  pub unlocked : 0 < m'.mutex → m'.next_count ≡ 0
  pub next_used : m'.next ≤ m'.next_count
  pub sem_used : (c : ℕ) → c < v → m'.sem c ≤ m'.count c

pub Moves-IsValid :
    (n v : ℕ) (s : System) (m' : Monitor) (i : ℕ) (q : Pc)
    → i < n
    → IsValid n v s
    → Moves n v s.monitor m' s.pc (s.pc i) q
    → IsValid n v (record { monitor = m'; pc = update s.pc i q })
Moves-IsValid n v s m' i q h ok mv = record {
  token =
      let d = threads_at-update at_inside n s.pc i q h in
      let t = mv.token ok.token in omega (arith, d, t);
  waiters = λ c l.
      let d = threads_at-update (at_waiting c) n s.pc i q h in
      let w = mv.waiters c l in let o = ok.waiters c l in omega (arith, d, w, o);
  signallers =
      let d = threads_at-update at_signalled n s.pc i q h in
      let w = mv.signallers in let o = ok.signallers in omega (arith, d, w, o);
  unlocked = mv.unlocked;
  next_used = mv.next_used;
  sem_used = mv.sem_used;
}
