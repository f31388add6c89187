-- ===== src/Strings/Move.antt =====
-- The memory routines of lab8/code/libs/string.c: what each byte is afterwards.
use os_labs.Prelude.{
  ℕ, zero, suc, ◌+◌, ◌-◌, ◌<◌, ◌≤◌, ◌≡◌, refl, ◌↔◌, ◌⊎◌, Bool, true, ◌&&◌, leb, ltb, if◌then◌else◌,
  arith, pos, sub_ℕ-eq-zero,
}
use os_labs.Strings.{Memory, store, memset, copy_up, copy_down, memmove, memcpy, memcmp}

-- Does `q` lie in the `n` bytes from `d` on?
abbrev pub within : ℕ → ℕ → ℕ → Bool
within d n q = leb d q && ltb q (d + n)

-- `memset` sets exactly the `n` bytes from `p` on to `c`, and no other byte.
pub memset_lem :
    (n : ℕ) (m : Memory) (p c q : ℕ) → memset m p c n q ≡ (if within p n q then c else m q)
unfolding memset
memset_lem zero m p c q = ground arith
memset_lem (suc n) m p c q = ground (arith, memset_lem n (store m p c) (p + 1) c q)

-- The forward loop, where it reads no byte that it has written.
copy_up_lem :
    (n : ℕ) (m : Memory) (d s q : ℕ)
    → (d ≤ s) ⊎ (s + n ≤ d)
    → copy_up m d s n q ≡ (if within d n q then m (s + (q - d)) else m q)
unfolding copy_up
copy_up_lem zero m d s q h = ground arith
copy_up_lem (suc n) m d s q h =
    ground (arith, copy_up_lem n (store m d (m s)) (d + 1) (s + 1) q up, step)
  where
    up : (d + 1 ≤ s + 1) ⊎ (s + 1 + n ≤ d + 1)
    up = omega arith

    step : leb (d + 1) q ≡ true → s + 1 + (q - (d + 1)) ≡ s + (q - d)
    step e = ground arith

copy_down_lem :
    (n : ℕ) (m : Memory) (d s q : ℕ)
    → s ≤ d
    → copy_down m (d + n) (s + n) n q ≡ (if within d n q then m (s + (q - d)) else m q)
unfolding copy_down
copy_down_lem zero m d s q h = ground arith
copy_down_lem (suc n) m d s q h =
    rw (shift d, shift s) (ground (arith, copy_down_lem n (store m (d + n) (m (s + n))) d s q h))
  where
    shift : (a : ℕ) → a + suc n - 1 ≡ a + n
    shift a = omega arith

-- `memmove` copies as if through a buffer: afterwards the `n` bytes from `dst` on are those that
-- stood from `src` on before, and every other byte is unchanged, however the areas overlap.
pub memmove_lem :
    (m : Memory) (dst src n q : ℕ)
    → memmove m dst src n q ≡ (if within dst n q then m (src + (q - dst)) else m q)
unfolding memmove
memmove_lem m dst src n q = ground (arith, copy_up_lem n m dst src q, copy_down_lem n m dst src q)

-- On areas that do not overlap `memcpy` and `memmove` leave the same memory.
pub memcpy-eq-memmove :
    (m : Memory) (dst src n q : ℕ)
    → (dst + n ≤ src) ⊎ (src + n ≤ dst)
    → memcpy m dst src n q ≡ memmove m dst src n q
unfolding memcpy
memcpy-eq-memmove m dst src n q h =
    ground (arith, copy_up_lem n m dst src q, memmove_lem m dst src n q)

memcmp_sound :
    (m : Memory) (n a b : ℕ) → memcmp m a b n ≡ pos 0 → (i : ℕ) → i < n → m (a + i) ≡ m (b + i)
unfolding memcmp
memcmp_sound m zero a b h i lt = absurd (omega arith)
memcmp_sound m (suc n) a b h zero lt = ground (arith, sub_ℕ-eq-zero (m a) (m b))
memcmp_sound m (suc n) a b h (suc i) lt =
    rw (shift a, shift b) (memcmp_sound m n (a + 1) (b + 1) rest i (omega arith))
  where
    rest : memcmp m (a + 1) (b + 1) n ≡ pos 0
    rest = ground (arith, sub_ℕ-eq-zero (m a) (m b))

    shift : (x : ℕ) → x + suc i ≡ x + 1 + i
    shift x = omega arith

memcmp_complete :
    (m : Memory) (n a b : ℕ) → ((i : ℕ) → i < n → m (a + i) ≡ m (b + i)) → memcmp m a b n ≡ pos 0
unfolding memcmp
memcmp_complete m zero a b h = refl
memcmp_complete m (suc n) a b h =
    ground (arith, h 0, memcmp_complete m n (a + 1) (b + 1) (λ i lt. ground (arith, h (suc i))))

-- `memcmp` returns zero exactly when the two areas hold the same `n` bytes.
pub memcmp-eq-zero :
    (m : Memory) (a b n : ℕ) → (memcmp m a b n ≡ pos 0) ↔ ((i : ℕ) → i < n → m (a + i) ≡ m (b + i))
memcmp-eq-zero m a b n = (memcmp_sound m n a b, memcmp_complete m n a b)
