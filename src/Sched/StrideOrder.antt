-- ===== src/Sched/StrideOrder.antt =====
-- The order of strides of lab8/code/kern/schedule/default_sched_stride.c modulo 2^32, and the
-- process that is picked.
use os_labs.Prelude.{
  ℕ, zero, suc, ◌+◌, ◌-◌, ◌%◌, ◌≡◌, ◌≢◌, ◌≤◌, ◌<◌, ◌∙◌, sym, true, some, ltb, arith,
}
use os_labs.SkewHeap.{Heap, empty, node}
use os_labs.SkewHeap.Members.{count}
use os_labs.SkewHeap.Order.{Within, IsHeap}
use os_labs.Sched.{
  root, Proc, Sched, stride_below, stride_step, stride_pick_next, stride_proc_tick, big_stride,
  u32_mod,
}

-- How far the stride of a process is ahead of `base`, modulo 2^32.
abbrev pub ahead : (ℕ → Proc) → ℕ → ℕ → ℕ
ahead procs base p = ((procs p).stride + u32_mod - base) % u32_mod

-- A stride is a `uint32_t`.
abbrev pub Word : (ℕ → Proc) → Type 0
Word procs = (p : ℕ) → (procs p).stride < u32_mod

-- The comparison of the code agrees with the order by distance from the base.
pub stride_below-ahead :
    (procs : ℕ → Proc) (base a b : ℕ)
    → (procs a).stride < u32_mod
    → (procs b).stride < u32_mod
    → base < u32_mod
    → ahead procs base a ≤ big_stride
    → ahead procs base b ≤ big_stride
    → stride_below procs a b ≡ ltb (ahead procs base a) (ahead procs base b)
unfolding stride_below
stride_below-ahead procs base a b wa wb wc ha hb = ground arith

-- The run queue is ordered, and its strides lie within `big_stride` of the base.
pub record IsFair (s : Sched) (base : ℕ) : Type 0 where
  pub words : Word s.procs
  pub word : base < u32_mod
  pub heap : IsHeap (ahead s.procs base) big_stride s.rq.pool

abbrev Absent : ℕ → Heap → Type 0
Absent p empty = Unit
Absent p (node x l r) = (x ≢ p) × Absent p l × Absent p r

pub count-Absent : (a : Heap) (p : ℕ) → count p a ≡ 0 → Absent p a
count-Absent empty p h = tt
count-Absent (node x l r) p h =
    (ground arith, count-Absent l p (ground arith), count-Absent r p (ground arith))

-- Moving the base up to the least key, where the keys of the entries fall by as much.
module _ (key key' : ℕ → ℕ) (hi c p : ℕ)
    (shift : (x : ℕ) → x ≢ p → c ≤ key x → key x ≤ hi → key' x + c ≡ key x) where
  Within-shift :
      (a : Heap) (lo lo' : ℕ)
      → c ≤ lo
      → lo' + c ≡ lo
      → Absent p a
      → Within key lo hi a
      → Within key' lo' hi a
  Within-shift empty lo lo' h e n w = tt
  Within-shift (node x l r) lo lo' h e n w = (
    omega (arith, shift x n.0 (omega arith) w.1),
    omega (arith, shift x n.0 (omega arith) w.1),
    Within-shift l lo lo' h e n.1 w.2,
    Within-shift r lo lo' h e n.2 w.3,
  )

  pub IsHeap-shift :
      (a : Heap) → Absent p a → Within key c hi a → IsHeap key hi a → IsHeap key' hi a
  IsHeap-shift empty n w h = tt
  IsHeap-shift (node x l r) n w h =
      let e = shift x n.0 w.0 w.1 in
      (
        omega arith,
        Within-shift l (key x) (key' x) w.0 e n.1 h.1,
        Within-shift r (key x) (key' x) w.0 e n.2 h.2,
        IsHeap-shift l n.1 w.2 h.3,
        IsHeap-shift r n.2 w.3 h.4,
      )

Within-count :
    (key : ℕ → ℕ) (a : Heap) (lo hi q : ℕ) → Within key lo hi a → 0 < count q a → lo ≤ key q
Within-count key empty lo hi q w h = absurd (omega arith)
Within-count key (node x l r) lo hi q w h =
    ground (arith, Within-count key l lo hi q w.2, Within-count key r lo hi q w.3)

pub pick_next-root : (s : Sched) → (stride_pick_next s).1 ≡ root s.rq.pool
unfolding stride_pick_next
pick_next-root s = ground arith

root-least :
    (key : ℕ → ℕ) (hi : ℕ) (a : Heap) (p q : ℕ)
    → IsHeap key hi a
    → root a ≡ some p
    → 0 < count q a
    → key p ≤ key q
root-least key hi empty p q h e n = cc
root-least key hi (node x l r) p q h e n =
    ground (arith, e, Within-count key l (key x) hi q h.1, Within-count key r (key x) hi q h.2)

-- `stride_pick_next` picks a process whose stride is least among those on the run queue.
pub pick_next_least :
    (s : Sched) (base p q : ℕ)
    → IsFair s base
    → (stride_pick_next s).1 ≡ some p
    → 0 < count q s.rq.pool
    → ahead s.procs base p ≤ ahead s.procs base q
pick_next_least s base p q f e n =
    root-least (ahead s.procs base) big_stride s.rq.pool p q f.heap (sym (pick_next-root s) ∙ e) n

-- The scheduler's tick: the slice runs down to 0, and then the process has to give way.
pub stride_proc_tick_lem :
    (s : Sched) (p q : ℕ)
    → let s' = stride_proc_tick s p in
      ((s'.procs p).time_slice ≡ (s.procs p).time_slice - 1)
      × (((s.procs p).time_slice ≤ 1) → (s'.procs p).need_resched ≡ true)
      × (1 < (s.procs p).time_slice → (s'.procs p).need_resched ≡ (s.procs p).need_resched)
      × (q ≢ p → s'.procs q ≡ s.procs q)
unfolding stride_proc_tick
stride_proc_tick_lem s p q = ground arith

pub stride_step-le : (k : ℕ) → stride_step k ≤ big_stride
stride_step-le zero = omega arith
stride_step-le (suc k) = ground arith
