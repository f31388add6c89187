-- ===== src/Proc.antt =====
-- lab8/code/kern/process/proc.c: process identifiers and the table of processes by identifier.
pub mod Pid
pub mod Table
mod Tests
use os_labs.Prelude.{
  ℕ, zero, suc, ◌+◌, ◌*◌, ◌/◌, ◌%◌, ◌-◌, ◌^◌, Bool, true, false, ◌&&◌, Option, none, some, List, [],
  ◌∷◌, leb, ltb, ◌==◌, if◌then◌else◌, ◌>>=◌, update,
}

abbrev pub max_process : ℕ
max_process = 4096

abbrev pub max_pid : ℕ
max_pid = max_process * 2

-- The static variables of `get_pid`.
pub record PidState : Type 0 where
  pub next_safe : ℕ
  pub last_pid : ℕ

abbrev pub initial : PidState
initial = record { next_safe = max_pid; last_pid = max_pid }

-- How one pass over `proc_list` ends: at its end, or by `goto repeat`.
pub data Pass : Type 0 where
  done : PidState → Pass
  again : ℕ → Pass

-- The pass, over the identifiers of the processes on `proc_list` that are left.
pub pass : List ℕ → ℕ → ℕ → Pass
pass [] next_safe last_pid = done (record { next_safe = next_safe; last_pid = last_pid })
pass (pid ∷ procs) next_safe last_pid =
    let taken = pass procs next_safe (last_pid + 1) in
    let other =
      pass procs (if ltb last_pid pid && ltb pid next_safe then pid else next_safe) last_pid in
    if pid == last_pid
    then if leb next_safe (last_pid + 1)
      then again (if leb max_pid (last_pid + 1) then 1 else last_pid + 1)
      else taken
    else other

-- From `inside:` on. The fuel counts the passes.
pub search_pid : ℕ → List ℕ → ℕ → Option PidState
search_pid zero procs last_pid = none
search_pid (suc f) procs last_pid = elim (pass procs max_pid last_pid) [
  | done s ↦ some s
  | again next ↦ search_pid f procs next
]

-- The new statics; the result of the call is their `last_pid`.
pub get_pid : ℕ → PidState → List ℕ → Option PidState
get_pid fuel s procs =
    let next = s.last_pid + 1 in
    if leb max_pid next
    then search_pid fuel procs 1
    else if leb s.next_safe next
    then search_pid fuel procs next
    else some (record s { last_pid = next })

-- lab8/code/libs/hash.c, in `uint32_t`.
unfoldable pub hash32 : ℕ → ℕ → ℕ
hash32 val bits = (val * 0x9e370001) % 2 ^ 32 / 2 ^ (32 - bits)

abbrev pub hash_shift : ℕ
hash_shift = 10

pub pid_hashfn : ℕ → ℕ
unfolding hash32
pid_hashfn x = hash32 x hash_shift

-- `hash_list`: the processes of each bucket, by their identifiers, the latest first.
abbrev pub HashList : Type 0
HashList = ℕ → List ℕ

pub hash_proc : HashList → ℕ → HashList
hash_proc h pid = update h (pid_hashfn pid) (pid ∷ h (pid_hashfn pid))

remove : ℕ → List ℕ → List ℕ
remove pid [] = []
remove pid (p ∷ ps) = if p == pid then ps else p ∷ remove pid ps

-- `list_del` of the process's own link takes it out of its bucket.
pub unhash_proc : HashList → ℕ → HashList
unhash_proc h pid = update h (pid_hashfn pid) (remove pid (h (pid_hashfn pid)))

find_in : List ℕ → ℕ → Option ℕ
find_in [] pid = none
find_in (p ∷ ps) pid = if p == pid then some p else find_in ps pid

pub find_proc : HashList → ℕ → Option ℕ
find_proc h pid = if ltb 0 pid && ltb pid max_pid then find_in (h (pid_hashfn pid)) pid else none
