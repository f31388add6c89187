-- ===== src/LinkedList/Tests.antt =====
-- Runs of lab8/code/libs/list.h on concrete lists.
use os_labs.Prelude.{◌+◌, ◌-◌, arith, [], ◌∷◌, ◌==◌, if◌then◌else◌}
use os_labs.LinkedList.{Links}
use os_labs.LinkedList.Ring.{IsRing}

-- The list with head 0 and nodes 1, 2, 3.
abbrev three : Links
three = record { next = λ a. if a == 3 then 0 else a + 1; prev = λ a. if a == 0 then 3 else a - 1 }

three-IsRing : IsRing three 0 (1 ∷ 2 ∷ 3 ∷ [])
three-IsRing = ground arith
