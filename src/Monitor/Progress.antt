-- ===== src/Monitor/Progress.antt =====
-- The monitors of lab8/code/kern/sync/monitor.c do not lock up.
use os_labs.Prelude.{
  sum, sum-at, sum-positive, ℕ, ◌<◌, ◌≡◌, ◌⊎◌, inl, inr, refl, sym, ap, arith, ◌==◌, Bool-cases,
  update,
}
use mathlib.Core.Path.{subst}
use os_labs.Monitor.{
  Monitor, Pc, outside, inside, signalled, waiting, Move, enters, leaves, ends_wait, ends_signal,
  System, Step, steps, Reach,
}
use os_labs.Monitor.Invariant.{Reach-IsValid}
use os_labs.Monitor.Tokens.{at_inside, at_signalled, at_waiting, threads_at, IsValid}

inside_at : (p : Pc) → 0 < at_inside p → p ≡ inside
inside_at inside h = refl
inside_at outside h = absurd (omega (arith, h))
inside_at signalled h = absurd (omega (arith, h))
inside_at (waiting c) h = absurd (omega (arith, h))

signalled_at : (p : Pc) → 0 < at_signalled p → p ≡ signalled
signalled_at signalled h = refl
signalled_at inside h = absurd (omega (arith, h))
signalled_at outside h = absurd (omega (arith, h))
signalled_at (waiting c) h = absurd (omega (arith, h))

waiting_at : (c : ℕ) (p : Pc) → 0 < at_waiting c p → p ≡ waiting c
waiting_at c inside h = absurd (omega (arith, h))
waiting_at c outside h = absurd (omega (arith, h))
waiting_at c signalled h = absurd (omega (arith, h))
waiting_at c (waiting d) h = elim (Bool-cases (d == c)) [
  | inl e ↦ let same : d ≡ c = ground (arith, e) in ap waiting same
  | inr e ↦ absurd (ground (arith, e, h))
]

abbrev at_outside : Pc → ℕ
at_outside outside = 1
at_outside inside = 0
at_outside signalled = 0
at_outside (waiting c) = 0

outside_at : (p : Pc) → 0 < at_outside p → p ≡ outside
outside_at outside h = refl
outside_at inside h = absurd (omega (arith, h))
outside_at signalled h = absurd (omega (arith, h))
outside_at (waiting c) h = absurd (omega (arith, h))

elsewhere :
    (p : Pc) → at_inside p ≡ 0 → at_signalled p ≡ 0 → at_outside p ≡ 0 → (c : ℕ) × (p ≡ waiting c)
elsewhere (waiting c) a b d = (c, refl)
elsewhere inside a b d = absurd (omega (arith, a))
elsewhere outside a b d = absurd (omega (arith, d))
elsewhere signalled a b d = absurd (omega (arith, b))

-- A thread that can move.
abbrev pub CanStep : ℕ → ℕ → System → Type 0
CanStep n v s = (t : System) × Step n v s t

can_step :
    (n v : ℕ) (s : System) (i : ℕ) (p q : Pc) (m : Monitor)
    → i < n
    → s.pc i ≡ p
    → Move v s.monitor p m q
    → CanStep n v s
can_step n v s i p q m h e mv = (
  record { monitor = m; pc = update s.pc i q },
  steps i h (subst (λ x. Move v s.monitor x m q) (sym e) mv),
)

module _ (n v : ℕ) (s : System) (ok : IsValid n v s) where
  step_inside : 0 < threads_at at_inside n s.pc → CanStep n v s
  step_inside h =
      let (i, l, p) = sum-positive n (λ j. at_inside (s.pc j)) h in
      can_step n v s i inside outside _ l (inside_at (s.pc i) p) leaves

  step_next : 0 < s.monitor.next → CanStep n v s
  step_next h =
      let a = ok.signallers in
      let b = ok.next_used in
      let (i, l, p) = sum-positive n (λ j. at_signalled (s.pc j)) (omega (arith, a, b, h)) in
      can_step n v s i signalled inside _ l (signalled_at (s.pc i) p) (ends_signal h)

  step_sem : 0 < sum v s.monitor.sem → CanStep n v s
  step_sem h =
      let (c, lc, pos) = sum-positive v s.monitor.sem h in
      let a = ok.waiters c lc in
      let b = ok.sem_used c lc in
      let (i, l, p) = sum-positive n (λ j. at_waiting c (s.pc j)) (omega (arith, a, b, pos)) in
      can_step n v s i (waiting c) inside _ l (waiting_at c (s.pc i) p) (ends_wait c lc pos)

  step_mutex :
      0 < s.monitor.mutex → CanStep n v s ⊎ ((i : ℕ) → i < n → (c : ℕ) × (s.pc i ≡ waiting c))
  step_mutex h = elim (Bool-cases (sum n (λ j. at_outside (s.pc j)) == 0)) [
    | inr e ↦
        let some_out : 0 < sum n (λ j. at_outside (s.pc j)) = ground (arith, e) in
        let (i, l, p) = sum-positive n (λ j. at_outside (s.pc j)) some_out in
        inl (can_step n v s i outside inside _ l (outside_at (s.pc i) p) (enters h))
    | inl e ↦ inr (λ i l.
        let none_out : sum n (λ j. at_outside (s.pc j)) ≡ 0 = ground (arith, e) in
        let t = ok.token in
        let u = ok.unlocked h in
        let w = ok.signallers in
        let a = sum-at n (λ j. at_inside (s.pc j)) i l in
        let b = sum-at n (λ j. at_signalled (s.pc j)) i l in
        let d = sum-at n (λ j. at_outside (s.pc j)) i l in
        elsewhere (s.pc i) (omega (arith, a, t, h)) (omega (arith, b, u, w))
          (omega (arith, d, none_out)))
  ]

-- In every state that is reached some thread can take a step, unless every thread is blocked in
-- `cond_wait`: signals and the locks of the monitor alone never block all threads.
pub no_deadlock :
    (n v : ℕ) (s : System)
    → Reach n v s
    → CanStep n v s ⊎ ((i : ℕ) → i < n → (c : ℕ) × (s.pc i ≡ waiting c))
no_deadlock n v s r =
    let ok = Reach-IsValid n v s r in
    let t = ok.token in
    elim (Bool-cases (threads_at at_inside n s.pc == 0)) [
      | inr e ↦ inl (step_inside n v s ok (ground (arith, e)))
      | inl e ↦ elim (Bool-cases (s.monitor.next == 0)) [
        | inr e2 ↦ inl (step_next n v s ok (ground (arith, e2)))
        | inl e2 ↦ elim (Bool-cases (sum v s.monitor.sem == 0)) [
          | inr e3 ↦ inl (step_sem n v s ok (ground (arith, e3)))
          | inl e3 ↦
              let a : threads_at at_inside n s.pc ≡ 0 = ground (arith, e) in
              let b : s.monitor.next ≡ 0 = ground (arith, e2) in
              let c : sum v s.monitor.sem ≡ 0 = ground (arith, e3) in
              step_mutex n v s ok (omega (arith, t, a, b, c))
        ]
      ]
    ]
