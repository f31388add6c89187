-- ===== src/Strings.antt =====
-- lab8/code/libs/string.c: the C string and memory routines, over a byte-addressed memory.
-- An address is a number; an object does not run round the end of the address space, so `s ++` is
-- `s + 1`. A loop that stops at a NUL takes fuel, and `none` means that the fuel ran out.
pub mod Scan
pub mod Compare
pub mod Copy
pub mod Move
pub mod Convert
mod Tests
use os_labs.Prelude.{
  ℕ, zero, suc, ◌+◌, ◌-◌, ◌*◌, ◌%◌, ◌^◌, Bool, true, false, not, ◌&&◌, ◌||◌, Option, none, some,
  leb, ltb, ◌==◌, if◌then◌else◌, ◌>>=◌, ℤ, pos, sub_ℕ,
}

-- The byte at each address.
abbrev pub Memory : Type 0
Memory = ℕ → ℕ

abbrev pub store : Memory → ℕ → ℕ → Memory
store m p v q = if p == q then v else m q

abbrev pub size_mod : ℕ
size_mod = 2 ^ 64

abbrev pub add_size : ℕ → ℕ → ℕ
add_size a b = (a + b) % size_mod

strlen_loop : ℕ → Memory → ℕ → ℕ → Option ℕ
strlen_loop zero m s cnt = none
strlen_loop (suc f) m s cnt =
    let rest = strlen_loop f m (s + 1) (add_size cnt 1) in if not (m s == 0) then rest else some cnt

pub strlen : ℕ → Memory → ℕ → Option ℕ
unfolding strlen_loop
strlen fuel m s = strlen_loop fuel m s 0

-- The recursion is on the room left, `len - cnt`.
strnlen_loop : ℕ → Memory → ℕ → ℕ → ℕ
strnlen_loop zero m s cnt = cnt
strnlen_loop (suc room) m s cnt =
    let rest = strnlen_loop room m (s + 1) (cnt + 1) in if not (m s == 0) then rest else cnt

pub strnlen : Memory → ℕ → ℕ → ℕ
unfolding strnlen_loop
strnlen m s len = strnlen_loop len m s 0

-- The byte is stored before it is tested.
pub strcpy : ℕ → Memory → ℕ → ℕ → Option Memory
strcpy zero m dst src = none
strcpy (suc f) m dst src =
    let m' = store m dst (m src) in
    let rest = strcpy f m' (dst + 1) (src + 1) in if not (m src == 0) then rest else some m'

pub strncpy : ℕ → Memory → ℕ → ℕ → Memory
strncpy zero m p src = m
strncpy (suc len) m p src =
    strncpy len (store m p (m src)) (p + 1) (if not (m src == 0) then src + 1 else src)

pub strcat : ℕ → Memory → ℕ → ℕ → Option Memory
unfolding strlen strcpy
strcat fuel m dst src = strlen fuel m dst >>= λ n. strcpy fuel m (dst + n) src

pub strcmp : ℕ → Memory → ℕ → ℕ → Option ℤ
strcmp zero m s1 s2 = none
strcmp (suc f) m s1 s2 =
    let rest = strcmp f m (s1 + 1) (s2 + 1) in
    if not (m s1 == 0) && m s1 == m s2 then rest else some (sub_ℕ (m s1) (m s2))

pub strncmp : ℕ → Memory → ℕ → ℕ → ℤ
strncmp zero m s1 s2 = pos 0
strncmp (suc n) m s1 s2 =
    let rest = strncmp n m (s1 + 1) (s2 + 1) in
    if not (m s1 == 0) && m s1 == m s2 then rest else sub_ℕ (m s1) (m s2)

-- The inner option is the pointer returned; `some none` is `NULL`.
pub strchr : ℕ → Memory → ℕ → ℕ → Option (Option ℕ)
strchr zero m s c = none
strchr (suc f) m s c =
    let rest = strchr f m (s + 1) c in
    if not (m s == 0) then if m s == c then some (some s) else rest else some none

pub strfind : ℕ → Memory → ℕ → ℕ → Option ℕ
strfind zero m s c = none
strfind (suc f) m s c =
    let rest = strfind f m (s + 1) c in
    if not (m s == 0) then if m s == c then some s else rest else some s

-- The loops count `n` down to 0; each returns the memory, the C result being its first argument.
pub memset : Memory → ℕ → ℕ → ℕ → Memory
memset m p c zero = m
memset m p c (suc n) = memset (store m p c) (p + 1) c n

copy_up : Memory → ℕ → ℕ → ℕ → Memory
copy_up m d s zero = m
copy_up m d s (suc n) = copy_up (store m d (m s)) (d + 1) (s + 1) n

-- `*-- d = *-- s`: the pointers stand one past the byte that is moved next.
copy_down : Memory → ℕ → ℕ → ℕ → Memory
copy_down m d s zero = m
copy_down m d s (suc n) = copy_down (store m (d - 1) (m (s - 1))) (d - 1) (s - 1) n

pub memmove : Memory → ℕ → ℕ → ℕ → Memory
unfolding copy_up copy_down
memmove m dst src n =
    if ltb src dst && ltb dst (src + n)
    then copy_down m (dst + n) (src + n) n
    else copy_up m dst src n

pub memcpy : Memory → ℕ → ℕ → ℕ → Memory
unfolding copy_up
memcpy m dst src n = copy_up m dst src n

pub memcmp : Memory → ℕ → ℕ → ℕ → ℤ
memcmp m s1 s2 zero = pos 0
memcmp m s1 s2 (suc n) =
    let rest = memcmp m (s1 + 1) (s2 + 1) n in
    if not (m s1 == m s2) then sub_ℕ (m s1) (m s2) else rest

-- `strtol`, in the order of its code. A `long` is its 64-bit pattern, and its
-- overflow, which C leaves undefined, wraps.
skip_blanks : ℕ → Memory → ℕ → Option ℕ
skip_blanks zero m s = none
skip_blanks (suc f) m s =
    let rest = skip_blanks f m (s + 1) in if m s == b' ' || m s == 9 then rest else some s

-- The pointer past an optional sign, and whether it is a minus.
read_sign : Memory → ℕ → ℕ × Bool
read_sign m s =
    if m s == b'+' then (s + 1, false) else if m s == b'-' then (s + 1, true) else (s, false)

-- The pointer past an optional prefix, and the base.
read_base : Memory → ℕ → ℕ → ℕ × ℕ
read_base m s base =
    if (base == 0 || base == 16) && (m s == b'0' && m (s + 1) == b'x')
    then (s + 2, 16)
    else if base == 0 && m s == b'0'
    then (s + 1, 8)
    else if base == 0
    then (s, 10)
    else (s, base)

digit : ℕ → Option ℕ
digit c =
    if leb b'0' c && leb c b'9'
    then some (c - b'0')
    else if leb b'a' c && leb c b'z'
    then some (c - b'a' + 10)
    else if leb b'A' c && leb c b'Z'
    then some (c - b'A' + 10)
    else none

read_digits : ℕ → Memory → ℕ → ℕ → ℕ → Option (ℕ × ℕ)
unfolding digit
read_digits zero m s base val = none
read_digits (suc f) m s base val = elim (digit (m s)) [
  | none ↦ some (s, val)
  | some dig ↦ elim (leb base dig) [
    | true ↦ some (s, val)
    | false ↦ read_digits f m (s + 1) base ((val * base + dig) % size_mod)
  ]
]

-- The value, and what goes through `endptr`.
pub strtol : ℕ → Memory → ℕ → ℕ → Option (ℕ × ℕ)
unfolding skip_blanks read_sign read_base read_digits
strtol fuel m s base = skip_blanks fuel m s >>= λ s.
    let (s, neg) = read_sign m s in
    let (s, base) = read_base m s base in
    read_digits fuel m s base 0 >>= λ r.
    some ((if neg then (size_mod - r.1) % size_mod else r.1), r.0)
