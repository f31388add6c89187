-- ===== src/Proc/Pid.antt =====
-- `get_pid` of lab8/code/kern/process/proc.c gives out identifiers that no process has.
use os_labs.Prelude.{
  ℕ, zero, suc, ◌+◌, ◌-◌, ◌*◌, ◌≤◌, ◌<◌, ◌≡◌, ◌≢◌, refl, ◌⊎◌, inl, inr, ◌&&◌, Option, some, List,
  [], ◌∷◌, length, leb, ltb, ◌==◌, if◌then◌else◌, arith, Bool-cases,
}
use os_labs.Proc.{max_process, max_pid, PidState, Pass, done, again, pass, search_pid, get_pid}

-- No process has the identifier.
abbrev pub Unused : ℕ → List ℕ → Type 0
Unused q [] = Unit
Unused q (p ∷ ps) = (q ≢ p) × Unused q ps

-- No process has an identifier strictly between two bounds.
abbrev pub Gap : ℕ → ℕ → List ℕ → Type 0
Gap lo hi [] = Unit
Gap lo hi (p ∷ ps) = ((p ≤ lo) ⊎ (hi ≤ p)) × Gap lo hi ps

-- No process has an identifier from `lo` up to below `hi`.
abbrev Clear : ℕ → ℕ → List ℕ → Type 0
Clear lo hi [] = Unit
Clear lo hi (p ∷ ps) = ((p < lo) ⊎ (hi ≤ p)) × Clear lo hi ps

-- The identifiers between the two statics are unused.
pub record IsConsistent (s : PidState) (procs : List ℕ) : Type 0 where
  pub gap : Gap s.last_pid s.next_safe procs
  pub bound : s.next_safe ≤ max_pid

-- A pass that ends has found a range without processes, inside the range it began with.
pass-done :
    (procs : List ℕ) (hi lo : ℕ) {s : PidState}
    → lo < hi
    → pass procs hi lo ≡ done s
    → (lo ≤ s.last_pid)
      × (s.next_safe ≤ hi)
      × (s.last_pid < s.next_safe)
      × Clear s.last_pid s.next_safe procs
unfolding pass
pass-done [] hi lo {s} lt e = ground arith
pass-done (p ∷ ps) hi lo {s} lt e = ground (
  arith,
  pass-done ps hi (lo + 1) {s = s},
  pass-done ps (if ltb lo p && ltb p hi then p else hi) lo {s = s},
)

-- A pass that is repeated goes on behind the candidate, or starts again at 1.
pass-again :
    (procs : List ℕ) (hi lo : ℕ) {n : ℕ}
    → pass procs hi lo ≡ again n
    → (n ≡ 1) ⊎ ((lo < n) × (n < max_pid))
unfolding pass
pass-again [] hi lo {n} e = ground arith
pass-again (p ∷ ps) hi lo {n} e = ground (
  arith,
  pass-again ps hi (lo + 1) {n = n},
  pass-again ps (if ltb lo p && ltb p hi then p else hi) lo {n = n},
)

-- A candidate never passes an unused identifier.
pass-Unused :
    (procs : List ℕ) (hi lo q : ℕ) {n : ℕ}
    → Unused q procs
    → lo ≤ q
    → q < max_pid
    → pass procs hi lo ≡ again n
    → (lo < n) × (n ≤ q)
unfolding pass
pass-Unused [] hi lo q {n} u le lt e = ground arith
pass-Unused (p ∷ ps) hi lo q {n} u le lt e = ground (
  arith,
  pass-Unused ps hi (lo + 1) q {n = n} u.1,
  pass-Unused ps (if ltb lo p && ltb p hi then p else hi) lo q {n = n} u.1,
)

Pass-cases : (r : Pass) → ((s : PidState) × (r ≡ done s)) ⊎ ((n : ℕ) × (r ≡ again n))
Pass-cases (done s) = inl (s, refl)
Pass-cases (again n) = inr (n, refl)

-- How many passes there may still be, if `q` is unused.
abbrev passes_left : ℕ → ℕ → ℕ
passes_left q lo = if leb lo q then q - lo else max_pid - lo + q

record Chosen (s : PidState) (procs : List ℕ) : Type 0 where
  pos : 0 < s.last_pid
  below : s.last_pid < s.next_safe
  bound : s.next_safe ≤ max_pid
  clear : Clear s.last_pid s.next_safe procs

search_pid-Chosen :
    (f : ℕ) (procs : List ℕ) (lo q : ℕ)
    → 0 < lo
    → lo < max_pid
    → 0 < q
    → q < max_pid
    → Unused q procs
    → passes_left q lo < f
    → (s : PidState) × (search_pid f procs lo ≡ some s) × Chosen s procs
unfolding search_pid
search_pid-Chosen zero procs lo q lpos lmax qpos qmax u enough = absurd (omega arith)
search_pid-Chosen (suc f) procs lo q lpos lmax qpos qmax u enough =
    elim (Pass-cases (pass procs max_pid lo)) [
      | inl (s, e) ↦
          let r = pass-done procs max_pid lo lmax e in
          (
            s,
            rw (search_pid, e),
            record { pos = omega (arith, r.0); below = r.2; bound = r.1; clear = r.3 },
          )
      | inr (n, e) ↦
          rw (search_pid, e)
            (search_pid-Chosen f procs n q (ground (arith, pass-again procs max_pid lo e))
              (ground (arith, pass-again procs max_pid lo e)) qpos qmax u
              (ground
                (arith, pass-again procs max_pid lo e, pass-Unused procs max_pid lo q {n = n} u)))
    ]

Clear-Unused : (procs : List ℕ) (lo hi : ℕ) → lo < hi → Clear lo hi procs → Unused lo procs
Clear-Unused [] lo hi lt c = tt
Clear-Unused (p ∷ ps) lo hi lt c = (omega arith, Clear-Unused ps lo hi lt c.1)

Clear-Gap : (procs : List ℕ) (lo hi : ℕ) → Clear lo hi procs → Gap lo hi procs
Clear-Gap [] lo hi c = tt
Clear-Gap (p ∷ ps) lo hi c = (omega arith, Clear-Gap ps lo hi c.1)

Gap-Clear : (procs : List ℕ) (lo hi : ℕ) → Gap lo hi procs → Clear (lo + 1) hi procs
Gap-Clear [] lo hi g = tt
Gap-Clear (p ∷ ps) lo hi g = (omega arith, Gap-Clear ps lo hi g.1)

-- Among more identifiers than there are processes one is unused.
without : ℕ → List ℕ → List ℕ
without q [] = []
without q (p ∷ ps) = let rest = without q ps in if p == q then rest else p ∷ rest

length-without-le : (procs : List ℕ) (q : ℕ) → length (without q procs) ≤ length procs
unfolding without
length-without-le [] q = omega arith
length-without-le (p ∷ ps) q = ground (arith, length-without-le ps q)

length-without :
    (procs : List ℕ) (q : ℕ) → Unused q procs ⊎ (length (without q procs) < length procs)
unfolding without
length-without [] q = inl tt
length-without (p ∷ ps) q = ground (arith, length-without ps q, length-without-le ps q)

Unused-without : (procs : List ℕ) (q r : ℕ) → r ≢ q → Unused r (without q procs) → Unused r procs
unfolding without
Unused-without [] q r ne u = tt
Unused-without (p ∷ ps) q r ne u = elim (Bool-cases (p == q)) [
  | inl same ↦ (ground arith, Unused-without ps q r ne (rw same at u))
  | inr other ↦
      let v : Unused r (p ∷ without q ps) = rw other at u in (v.0, Unused-without ps q r ne v.1)
]

exists_Unused :
    (n : ℕ) (procs : List ℕ) → length procs < n → (q : ℕ) × (0 < q) × (q ≤ n) × Unused q procs
exists_Unused zero procs lt = absurd (omega arith)
exists_Unused (suc n) procs lt = elim (length-without procs (suc n)) [
  | inl u ↦ (suc n, omega arith, omega arith, u)
  | inr shorter ↦
      let r = exists_Unused n (without (suc n) procs) (omega arith) in
      (r.0, r.1, omega (arith, r.2), Unused-without procs (suc n) r.0 (omega (arith, r.2)) r.3)
]

search_pid-finds :
    (f : ℕ) (procs : List ℕ) (lo : ℕ)
    → 0 < lo
    → lo < max_pid
    → length procs ≤ max_process
    → 2 * max_pid ≤ f
    → (s : PidState) × (search_pid f procs lo ≡ some s) × Chosen s procs
search_pid-finds f procs lo pos lt few enough =
    let (q, qpos, qmax, u) = exists_Unused (max_process + 1) procs (omega arith) in
    search_pid-Chosen f procs lo q pos lt qpos (omega arith) u (ground arith)

-- With at most `max_process` processes `get_pid` returns: a positive identifier below `max_pid`
-- that no process has. The statics stay consistent, also with the process that gets it.
pub get_pid-Unused :
    (f : ℕ) (s : PidState) (procs : List ℕ)
    → IsConsistent s procs
    → length procs ≤ max_process
    → 2 * max_pid ≤ f
    → (s' : PidState) × (get_pid f s procs ≡ some s')
      × (0 < s'.last_pid)
      × (s'.last_pid < max_pid)
      × Unused s'.last_pid procs
      × IsConsistent s' (s'.last_pid ∷ procs)
unfolding get_pid
get_pid-Unused f s procs v few enough = elim (Bool-cases (leb max_pid (s.last_pid + 1))) [
  | inl wrap ↦ rw wrap (chosen (search_pid-finds f procs 1 (omega arith) (omega arith) few enough))
  | inr small ↦ elim (Bool-cases (leb s.next_safe (s.last_pid + 1))) [
    | inl used ↦
        rw (small, used)
          (chosen
            (search_pid-finds f procs (s.last_pid + 1) (omega arith) (ground arith) few enough))
    | inr safe ↦
        rw (small, safe)
          (chosen (
            record s { last_pid = s.last_pid + 1 },
            refl,
            record {
              pos = omega arith;
              below = ground arith;
              bound = v.bound;
              clear = Gap-Clear procs s.last_pid s.next_safe v.gap;
            },
          ))
  ]
]
  where
    chosen :
        {r : Option PidState}
        → (s' : PidState) × (r ≡ some s') × Chosen s' procs
        → (s' : PidState) × (r ≡ some s')
          × (0 < s'.last_pid)
          × (s'.last_pid < max_pid)
          × Unused s'.last_pid procs
          × IsConsistent s' (s'.last_pid ∷ procs)
    chosen (t, e, c) = (
      t,
      e,
      c.pos,
      omega (arith, c.below, c.bound),
      Clear-Unused procs t.last_pid t.next_safe c.below c.clear,
      record {
        gap = (inl (omega arith), Clear-Gap procs t.last_pid t.next_safe c.clear);
        bound = c.bound;
      },
    )
