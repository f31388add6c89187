-- ===== src/Strings/Scan.antt =====
-- What a NUL-terminated string holds, and the routines of lab8/code/libs/string.c that scan one.
use os_labs.Prelude.{
  ℕ, zero, suc, ◌+◌, ◌<◌, ◌≡◌, ◌≢◌, Option, none, some, List, [], ◌∷◌, length, ◌==◌, if◌then◌else◌,
  arith, min,
}
use os_labs.Strings.{Memory, size_mod, strlen_loop, strlen, strnlen_loop, strnlen, strchr, strfind}

-- The memory holds the bytes `cs`, none of them NUL, from `s` on, and then a NUL.
abbrev pub Holds : Memory → ℕ → List ℕ → Type 0
Holds m s [] = m s ≡ 0
Holds m s (c ∷ cs) = (m s ≡ c) × (c ≢ 0) × Holds m (s + 1) cs

strlen_loop_lem :
    (cs : List ℕ) (f : ℕ) (m : Memory) (s cnt : ℕ)
    → Holds m s cs
    → length cs < f
    → cnt + length cs < size_mod
    → strlen_loop f m s cnt ≡ some (cnt + length cs)
unfolding strlen_loop
strlen_loop_lem cs zero m s cnt h lt small = absurd (omega arith)
strlen_loop_lem [] (suc f) m s cnt h lt small = ground arith
strlen_loop_lem (c ∷ cs) (suc f) m s cnt h lt small =
    ground (arith, strlen_loop_lem cs f m (s + 1) (cnt + 1))

-- `strlen` of a string is the number of its bytes before the NUL, if a `size_t` can hold it.
pub strlen_lem :
    (cs : List ℕ) (f : ℕ) (m : Memory) (s : ℕ)
    → Holds m s cs
    → length cs < f
    → length cs < size_mod
    → strlen f m s ≡ some (length cs)
unfolding strlen
strlen_lem cs f m s h lt small = ground (arith, strlen_loop_lem cs f m s 0 h lt)

strnlen_loop_lem :
    (cs : List ℕ) (room : ℕ) (m : Memory) (s cnt : ℕ)
    → Holds m s cs
    → strnlen_loop room m s cnt ≡ cnt + min (length cs) room
unfolding strnlen_loop
strnlen_loop_lem cs zero m s cnt h = omega arith
strnlen_loop_lem [] (suc f) m s cnt h = ground arith
strnlen_loop_lem (c ∷ cs) (suc f) m s cnt h =
    ground (arith, strnlen_loop_lem cs f m (s + 1) (cnt + 1))

-- `strnlen` is the smaller of the string's length and the limit.
pub strnlen_lem :
    (cs : List ℕ) (m : Memory) (s len : ℕ) → Holds m s cs → strnlen m s len ≡ min (length cs) len
unfolding strnlen
strnlen_lem cs m s len h = ground (arith, strnlen_loop_lem cs len m s 0 h)

-- The first place of a byte in a list.
unfoldable pub index_of? : ℕ → List ℕ → Option ℕ
index_of? c [] = none
index_of? c (x ∷ xs) =
    if x == c then some 0 else elim (index_of? c xs) [ none ↦ none | some i ↦ some (suc i) ]

abbrev pub offset : ℕ → Option ℕ → Option ℕ
offset s none = none
offset s (some i) = some (s + i)

-- `strchr` returns the address of the first byte of the string that is `c`, and NULL if there is
-- none.
pub strchr_lem :
    (cs : List ℕ) (f : ℕ) (m : Memory) (s c : ℕ)
    → Holds m s cs
    → length cs < f
    → strchr f m s c ≡ some (offset s (index_of? c cs))
unfolding strchr index_of?
strchr_lem cs zero m s c h lt = absurd (omega arith)
strchr_lem [] (suc f) m s c h lt = ground arith
strchr_lem (x ∷ cs) (suc f) m s c h lt = ground (arith, strchr_lem cs f m (s + 1) c)

abbrev pub end_if_none : ℕ → Option ℕ → ℕ
end_if_none e none = e
end_if_none e (some p) = p

-- `strfind` returns what `strchr` does, but the address of the NUL in place of NULL.
pub strfind_lem :
    (cs : List ℕ) (f : ℕ) (m : Memory) (s c : ℕ)
    → Holds m s cs
    → length cs < f
    → strfind f m s c ≡ some (end_if_none (s + length cs) (offset s (index_of? c cs)))
unfolding strfind index_of?
strfind_lem cs zero m s c h lt = absurd (omega arith)
strfind_lem [] (suc f) m s c h lt = ground arith
strfind_lem (x ∷ cs) (suc f) m s c h lt = ground (arith, strfind_lem cs f m (s + 1) c)
