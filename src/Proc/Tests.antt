-- ===== src/Proc/Tests.antt =====
-- Runs of the identifiers and the process table of lab8/code/kern/process/proc.c.
use os_labs.Prelude.{ℕ, ◌≡◌, ◌<◌, arith, some, List, [], ◌∷◌}
use os_labs.Proc.{PidState, initial, max_pid, get_pid, HashList}
use os_labs.Proc.Pid.{Unused, IsConsistent, get_pid-Unused}

abbrev running : List ℕ
running = 1 ∷ 2 ∷ 5 ∷ []

get_pid_example :
    (s' : PidState) × (get_pid 16384 initial running ≡ some s')
    × (0 < s'.last_pid)
    × (s'.last_pid < max_pid)
    × Unused s'.last_pid running
    × IsConsistent s' (s'.last_pid ∷ running)
get_pid_example = get_pid-Unused 16384 initial running (ground arith) (omega arith) (omega arith)

abbrev none_yet : HashList
none_yet a = []

one : HashList
one a = 7 ∷ []
