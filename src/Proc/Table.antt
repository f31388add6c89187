-- ===== src/Proc/Table.antt =====
-- `hash_proc`, `unhash_proc` and `find_proc` of lab8/code/kern/process/proc.c.
use os_labs.Prelude.{ℕ, ◌^◌, ◌<◌, ◌≡◌, refl, none, some, List, [], ◌∷◌, ◌==◌, if◌then◌else◌, arith}
use os_labs.LinkedList.Ring.{Apart, Distinct}
use os_labs.Proc.{
  max_pid, pid_hashfn, hash_shift, HashList, hash_proc, unhash_proc, remove, find_in, find_proc,
}

-- The hash of an identifier is a bucket of the table.
pub pid_hashfn_bound : (pid : ℕ) → pid_hashfn pid < 2 ^ hash_shift
unfolding pid_hashfn
pid_hashfn_bound pid = omega arith

find_in_self : (ps : List ℕ) (pid : ℕ) → find_in (pid ∷ ps) pid ≡ some pid
unfolding find_in
find_in_self ps pid = ground arith

-- After `hash_proc` a valid identifier finds its process, and every other one what it found before.
pub find_proc-hash_proc :
    (h : HashList) (pid q : ℕ)
    → 0 < pid
    → pid < max_pid
    → find_proc (hash_proc h pid) q ≡ (if pid == q then some pid else find_proc h q)
unfolding find_proc find_in hash_proc
find_proc-hash_proc h pid q pos lt = ground (arith, find_in_self (h (pid_hashfn pid)) pid)

find_in-Apart : (ps : List ℕ) (pid : ℕ) → Apart pid ps → find_in ps pid ≡ none
unfolding find_in
find_in-Apart [] pid a = refl
find_in-Apart (p ∷ ps) pid a = ground (arith, find_in-Apart ps pid)

find_in-remove :
    (ps : List ℕ) (pid q : ℕ)
    → Distinct ps
    → find_in (remove pid ps) q ≡ (if pid == q then none else find_in ps q)
unfolding find_in remove
find_in-remove [] pid q d = ground arith
find_in-remove (p ∷ ps) pid q d = ground (arith, find_in-remove ps pid q, find_in-Apart ps p d.0)

-- After `unhash_proc` an identifier finds nothing, and every other one what it found before, if no
-- process stands twice in the bucket.
pub find_proc-unhash_proc :
    (h : HashList) (pid q : ℕ)
    → Distinct (h (pid_hashfn pid))
    → find_proc (unhash_proc h pid) q ≡ (if pid == q then none else find_proc h q)
unfolding find_proc find_in unhash_proc
find_proc-unhash_proc h pid q d = ground (arith, find_in-remove (h (pid_hashfn pid)) pid q d)
