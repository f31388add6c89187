-- ===== src/Sched/Stride.antt =====
-- A round of the stride scheduler of lab8/code/kern/schedule/default_sched_stride.c, on the order
-- of strides of `Sched.StrideOrder`.
use mathlib.Core.Path.{subst}
use os_labs.Prelude.{
  fun_ext, ℕ, ◌+◌, ◌-◌, ◌≡◌, ◌≢◌, ◌≤◌, ◌<◌, ap, ◌∙◌, Bool, true, Option, some, ltb, arith,
}
use os_labs.SkewHeap.{Heap, node, skew_heap_merge, skew_heap_remove}
use os_labs.SkewHeap.Members.{count, count-merge}
use os_labs.SkewHeap.Order.{IsHeap, IsHeap-merge, IsHeap-insert}
use os_labs.Sched.{
  Proc, Sched, stride_below, add_stride, stride_enqueue, stride_dequeue, stride_pick_next,
  big_stride, u32_mod,
}
use os_labs.Sched.StrideOrder.{
  ahead, Word, stride_below-ahead, IsFair, count-Absent, IsHeap-shift, pick_next-root,
  stride_step-le,
}

-- After its step the picked process is one step ahead of where it was.
ahead_self :
    (procs : ℕ → Proc) (p : ℕ)
    → (procs p).stride < u32_mod
    → ahead (add_stride procs p) (procs p).stride p ≤ big_stride
ahead_self procs p w = ground (arith, stride_step-le (procs p).priority)

ahead-shift :
    (procs : ℕ → Proc) (base p x : ℕ)
    → (procs p).stride < u32_mod
    → (procs x).stride < u32_mod
    → base < u32_mod
    → x ≢ p
    → ahead procs base p ≤ ahead procs base x
    → ahead (add_stride procs p) (procs p).stride x + ahead procs base p ≡ ahead procs base x
ahead-shift procs base p x wp wx wb ne le = ground arith

Word-add_stride : (procs : ℕ → Proc) (p : ℕ) → Word procs → Word (add_stride procs p)
Word-add_stride procs p w q = ground (arith, w q)

pick_next-node :
    (s : Sched) (p : ℕ) (l r : Heap)
    → s.rq.pool ≡ node p l r
    → stride_pick_next s ≡ (record s { procs = add_stride s.procs p }, some p)
unfolding stride_pick_next
pick_next-node s p l r pool = ground (arith, pool)

remove-root :
    (below : ℕ → ℕ → Bool) (p : ℕ) (a l r : Heap)
    → a ≡ node p l r
    → skew_heap_remove below a p ≡ skew_heap_merge below l r
unfolding skew_heap_remove
remove-root below p a l r e = rw e (ground arith)

dequeue-root :
    (s : Sched) (p : ℕ) (l r : Heap)
    → s.rq.pool ≡ node p l r
    → (s.procs p).on_rq ≡ true
    → 0 < s.rq.proc_num
    → stride_dequeue s p
      ≡ some (record s {
        rq = record (s.rq) {
          pool = skew_heap_merge (stride_below s.procs) l r;
          proc_num = s.rq.proc_num - 1;
        };
      })
unfolding stride_dequeue
dequeue-root s p l r pool on num =
    ground (arith, remove-root (stride_below s.procs) p s.rq.pool l r pool)

round-dequeue :
    (s : Sched) (p : ℕ) (l r : Heap)
    → s.rq.pool ≡ node p l r
    → (s.procs p).on_rq ≡ true
    → 0 < s.rq.proc_num
    → let procs' = add_stride s.procs p in
      stride_dequeue (stride_pick_next s).0 p
      ≡ some (record s {
        procs = procs';
        rq = record (s.rq) {
          pool = skew_heap_merge (stride_below procs') l r;
          proc_num = s.rq.proc_num - 1;
        };
      })
round-dequeue s p l r pool on num =
    ap (λ (t : Sched × Option ℕ). stride_dequeue t.0 p) (pick_next-node s p l r pool)
    ∙ dequeue-root (record s { procs = add_stride s.procs p }) p l r pool (ground arith) num

-- `stride_pick_next` and `stride_dequeue` on a run queue whose strides lie within `big_stride` of a
-- base: the rest of the queue is ordered, and it lies within `big_stride` of the stride that the
-- picked process had, as does the picked process itself with its new stride. So the window holds
-- when the process is put back.
pub round-IsFair :
    (s : Sched) (base p : ℕ) (l r : Heap)
    → IsFair s base
    → s.rq.pool ≡ node p l r
    → count p s.rq.pool ≡ 1
    → (s.procs p).on_rq ≡ true
    → 0 < s.rq.proc_num
    → (s' : Sched) × ((stride_pick_next s).1 ≡ some p)
      × (stride_dequeue (stride_pick_next s).0 p ≡ some s')
      × IsFair s' (s.procs p).stride
      × (ahead s'.procs (s.procs p).stride p ≤ big_stride)
      × (count p s'.rq.pool ≡ 0)
round-IsFair s base p l r f pool one on num = (
  s',
  pick_next-root s ∙ (rw pool),
  dequeued,
  record { words = Word-add_stride s.procs p f.words; word = f.words p; heap = merged },
  ahead_self s.procs p (f.words p),
  gone,
)
  where
    procs' : ℕ → Proc
    procs' = add_stride s.procs p

    key : ℕ → ℕ
    key = ahead s.procs base

    key' : ℕ → ℕ
    key' = ahead procs' (s.procs p).stride

    rest : Heap
    rest = skew_heap_merge (stride_below procs') l r

    s' : Sched
    s' = record s {
      procs = procs';
      rq = record (s.rq) { pool = rest; proc_num = s.rq.proc_num - 1 };
    }

    h : IsHeap key big_stride (node p l r)
    h = subst (IsHeap key big_stride) pool f.heap

    once : count p (node p l r) ≡ 1
    once = subst (λ a. count p a ≡ 1) pool one

    shift : (x : ℕ) → x ≢ p → key p ≤ key x → key x ≤ big_stride → key' x + key p ≡ key x
    shift x ne lo hi = ahead-shift s.procs base p x (f.words p) (f.words x) f.word ne lo

    agree :
        (a b : ℕ)
        → key' a ≤ big_stride
        → key' b ≤ big_stride
        → stride_below procs' a b ≡ ltb (key' a) (key' b)
    agree a b ha hb =
        let words = Word-add_stride s.procs p f.words in
        stride_below-ahead procs' (s.procs p).stride a b (words a) (words b) (f.words p) ha hb

    left : count p l ≡ 0
    left = ground (arith, once)

    right : count p r ≡ 0
    right = ground (arith, once)

    merged : IsHeap key' big_stride rest
    merged =
        IsHeap-merge (stride_below procs') key' big_stride agree l r
          (IsHeap-shift key key' big_stride (key p) p shift l (count-Absent l p left) h.1 h.3)
          (IsHeap-shift key key' big_stride (key p) p shift r (count-Absent r p right) h.2 h.4)

    gone : count p rest ≡ 0
    gone = omega (arith, left, right, count-merge (stride_below procs') l r p)

    dequeued : stride_dequeue (stride_pick_next s).0 p ≡ some s'
    dequeued = round-dequeue s p l r pool on num

-- A process within the window may be put on the run queue.
pub enqueue-IsFair :
    (s : Sched) (base p : ℕ)
    → IsFair s base
    → ahead s.procs base p ≤ big_stride
    → IsFair (stride_enqueue s p) base
unfolding stride_enqueue
enqueue-IsFair s base p f near = record {
  words = λ q. ground (arith, f.words q);
  word = f.word;
  heap =
      subst (λ key. IsHeap key big_stride (stride_enqueue s p).rq.pool) (fun_ext λ q. ground arith)
        (IsHeap-insert (stride_below s.procs) (ahead s.procs base) big_stride
          (λ a b. stride_below-ahead s.procs base a b (f.words a) (f.words b) f.word) s.rq.pool p
          near f.heap);
}
