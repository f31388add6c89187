-- ===== src/Strings/Tests.antt =====
-- Runs of lab8/code/libs/string.c on concrete memories.
use os_labs.Prelude.{ℕ, ◌≡◌, ◌↔◌, inr, true, some, List, [], ◌∷◌, arith, ℤ, pos, get_or}
use os_labs.Strings.{Memory, strcat, strcmp, memmove, strtol}
use os_labs.Strings.Move.{memmove_lem}
use os_labs.Strings.Compare.{strcmp-eq-zero}
use os_labs.Strings.Copy.{Copied, strcat_lem}
use os_labs.Strings.Convert.{strtol_lem, value}

-- "hi" at 0, "ho" at 10, " -42" at 20.
abbrev cells : List ℕ
cells =
    104 ∷ 105 ∷ 0 ∷ 1 ∷ 2 ∷ 3 ∷ 4 ∷ 5 ∷ 6 ∷ 7 ∷ 104 ∷ 111 ∷ 0 ∷ 9 ∷ 9 ∷ 9 ∷ 9 ∷ 9 ∷ 9 ∷ 9 ∷ b' '
    ∷ b'-' ∷ b'4' ∷ b'2' ∷ 0 ∷ []

abbrev mem : Memory
mem a = get_or cells a 0

abbrev hi : List ℕ
hi = 104 ∷ 105 ∷ []

abbrev ho : List ℕ
ho = 104 ∷ 111 ∷ []

memmove_example : memmove mem 4 3 5 6 ≡ 3
memmove_example = memmove_lem mem 4 3 5 6

strcmp_example : (r : ℤ) × (strcmp 10 mem 0 10 ≡ some r) × ((r ≡ pos 0) ↔ (hi ≡ ho))
strcmp_example = strcmp-eq-zero hi ho 10 mem 0 10 (ground arith) (ground arith) (omega arith)

strcat_example :
    (m' : Memory) × (strcat 10 mem 10 0 ≡ some m') × Copied mem 10 (104 ∷ 111 ∷ 104 ∷ 105 ∷ []) m'
strcat_example =
    strcat_lem ho hi 10 mem 10 0 (ground arith) (ground arith) (inr (omega arith)) (omega arith)
      (omega arith)

strtol_example : strtol 10 mem 20 10 ≡ some (18446744073709551574, 24)
unfolding value
strtol_example =
    strtol_lem 1 true 4 (2 ∷ []) 10 mem 20 (ground arith) (ground arith) (omega arith)
      (ground arith)
